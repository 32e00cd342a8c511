-- ===== src/Detector/Checksums.antt =====
-- seif/detector.py: `_digits`, `_luhn` and `_valid_inn`.
pub mod Digits
pub mod Controls
pub mod Inn
use seif_pii.Base.{
  ℕ, zero, suc, ◌+◌, ◌-◌, ◌*◌, ◌%◌, Bool, true, false, not, ◌&&◌, ◌||◌, List, [], ◌∷◌, all, keep,
  map, length, take, get_elem?, Option, none, some, leb, ◌==◌, if◌then◌else◌,
}
use seif_pii.Text.{Text, is_ascii_digit}

-- `int(c)` of an ASCII digit.
abbrev pub digit : ℕ → ℕ
digit c = c - b'0'

unfoldable pub digits : Text → Text
digits value = keep (λ c. is_ascii_digit c) value

-- `len(set(xs)) < 2`
abbrev pub all_same : List ℕ → Bool
all_same [] = true
all_same (x ∷ xs) = all (λ y. y == x) xs

-- What the digit at place `i` adds.
unfoldable pub luhn_digit : ℕ → ℕ → ℕ → ℕ
luhn_digit parity i n = if i % 2 == parity then n * 2 - (if leb 5 n then 9 else 0) else n

-- The loop from place `i` on.
unfoldable pub luhn_total : ℕ → ℕ → Text → ℕ
unfolding luhn_digit
luhn_total parity i [] = 0
luhn_total parity i (c ∷ cs) = luhn_digit parity i (digit c) + luhn_total parity (i + 1) cs

unfoldable pub luhn : Text → Bool
unfolding digits luhn_total
luhn value =
    let ds = digits value in
    leb 13 (length ds)
    && leb (length ds) 19
    && not (all_same ds)
    && luhn_total (length ds % 2) 0 ds % 10 == 0

-- `sum(a * b for a, b in zip(d, weights))`, up to the shorter list.
unfoldable pub weighted : List ℕ → List ℕ → ℕ
weighted [] ws = 0
weighted (d ∷ ds) [] = 0
weighted (d ∷ ds) (w ∷ ws) = d * w + weighted ds ws

abbrev pub checks : List ℕ → List ℕ → ℕ → Bool
checks ds ws place = elim (get_elem? ds place) [
  | none ↦ false
  | some d ↦ weighted (take place ds) ws % 11 % 10 == d
]

-- `_valid_inn` of a text of ASCII digits, which is what the pattern before it matches.
unfoldable pub valid_inn : Text → Bool
unfolding weighted
valid_inn value =
    let d = map (λ c. digit c) value in
    if all_same value
    then false
    else if length d == 10
    then checks d (2 ∷ 4 ∷ 10 ∷ 3 ∷ 5 ∷ 9 ∷ 4 ∷ 6 ∷ 8 ∷ []) 9
    else if length d == 12
    then (checks d (7 ∷ 2 ∷ 4 ∷ 10 ∷ 3 ∷ 5 ∷ 9 ∷ 4 ∷ 6 ∷ 8 ∷ []) 10
        && checks d (3 ∷ 7 ∷ 2 ∷ 4 ∷ 10 ∷ 3 ∷ 5 ∷ 9 ∷ 4 ∷ 6 ∷ 8 ∷ []) 11)
    else false
