-- ===== src/Detector/Checksums/Digits.antt =====
-- The checksum of a card number tells numbers apart that differ in one digit.
use seif_pii.Base.{
  ℕ, suc, ◌+◌, ◌%◌, ◌<◌, ◌≡◌, refl, ap, ◌∙◌, inl, inr, true, [], ◌∷◌, ◌++◌, arith, length,
  length-append, ◌==◌, ==_iff, Bool-cases,
}
use seif_pii.Text.{Text, is_ascii_digit}
use seif_pii.Detector.Checksums.{digit, digits, luhn_digit, luhn_total, luhn}

-- Both ways to count a digit are permutations of the digits.
luhn_digit-injective :
    (parity i n m : ℕ) → n < 10 → m < 10 → luhn_digit parity i n ≡ luhn_digit parity i m → n ≡ m
unfolding luhn_digit
luhn_digit-injective parity i n m h k e = elim (Bool-cases (i % 2 == parity)) [
  | inl doubled ↦ ground arith
  | inr plain ↦ ground arith
]

luhn_digit-lt : (parity i n : ℕ) → n < 10 → luhn_digit parity i n < 10
unfolding luhn_digit
luhn_digit-lt parity i n h = ground arith

luhn_total-append :
    (parity i : ℕ) (xs ys : Text)
    → luhn_total parity i (xs ++ ys) ≡ luhn_total parity i xs + luhn_total parity (i + length xs) ys
unfolding luhn_total
luhn_total-append parity i [] ys = let e : i + 0 ≡ i = omega arith in rw e (omega arith)
luhn_total-append parity i (x ∷ xs) ys =
    let e : i + suc (length xs) ≡ i + 1 + length xs = omega arith in
    rw e (omega (arith, luhn_total-append parity (i + 1) xs ys))

digits-append : (xs ys : Text) → digits (xs ++ ys) ≡ digits xs ++ digits ys
unfolding digits
digits-append [] ys = refl
digits-append (x ∷ xs) ys = ground (arith, digits-append xs ys)

digits-digit : (c : ℕ) (cs : Text) → is_ascii_digit c ≡ true → digits (c ∷ cs) ≡ c ∷ digits cs
unfolding digits
digits-digit c cs h = ground arith

same_remainder :
    (a b x y : ℕ) → (a + (x + b)) % 10 ≡ 0 → (a + (y + b)) % 10 ≡ 0 → x < 10 → y < 10 → x ≡ y
same_remainder a b x y h k hx hy = omega arith

luhn-total :
    (value : Text)
    → luhn value ≡ true
    → luhn_total (length (digits value) % 2) 0 (digits value) % 10 ≡ 0
unfolding luhn
luhn-total value h =
    ground (arith, ==_iff (luhn_total (length (digits value) % 2) 0 (digits value) % 10) 0)

-- The total of a number around one of its digits.
luhn_total-around :
    (before after : Text) (c : ℕ)
    → is_ascii_digit c ≡ true
    → luhn (before ++ c ∷ after) ≡ true
    → (luhn_total ((length (digits before) + suc (length (digits after))) % 2) 0 (digits before)
          + (luhn_digit
                ((length (digits before) + suc (length (digits after))) % 2)
                (length (digits before))
                (digit c)
              + luhn_total
                  ((length (digits before) + suc (length (digits after))) % 2)
                  (length (digits before) + 1)
                  (digits after)))
        % 10
      ≡ 0
unfolding luhn_total
luhn_total-around before after c h k =
    let total = luhn-total (before ++ c ∷ after) k in
    let split : digits (before ++ c ∷ after) ≡ digits before ++ c ∷ digits after =
      digits-append before (c ∷ after) ∙ ap (λ t. digits before ++ t) (digits-digit c after h) in
    let size : length (digits before ++ c ∷ digits after)
        ≡ length (digits before) + suc (length (digits after)) =
      length-append (digits before) (c ∷ digits after) in
    let start : 0 + length (digits before) ≡ length (digits before) = omega arith in
    rw start at (
      rw
        (luhn_total-append ((length (digits before) + suc (length (digits after))) % 2) 0
          (digits before) (c ∷ digits after))
        at (rw (split, size) at total))

-- Two texts that differ in one digit, at any place, do not both pass `_luhn`.
pub luhn_one_digit :
    (before after : Text) (c d : ℕ)
    → is_ascii_digit c ≡ true
    → is_ascii_digit d ≡ true
    → luhn (before ++ c ∷ after) ≡ true
    → luhn (before ++ d ∷ after) ≡ true
    → c ≡ d
luhn_one_digit before after c d hc hd kc kd =
    let parity = (length (digits before) + suc (length (digits after))) % 2 in
    let place = length (digits before) in
    let small_c : digit c < 10 = ground arith in
    let small_d : digit d < 10 = ground arith in
    let equal : luhn_digit parity place (digit c) ≡ luhn_digit parity place (digit d) =
      same_remainder (luhn_total parity 0 (digits before))
        (luhn_total parity (place + 1) (digits after)) (luhn_digit parity place (digit c))
        (luhn_digit parity place (digit d)) (luhn_total-around before after c hc kc)
        (luhn_total-around before after d hd kd) (luhn_digit-lt parity place (digit c) small_c)
        (luhn_digit-lt parity place (digit d) small_d) in
    let same = luhn_digit-injective parity place (digit c) (digit d) small_c small_d equal in
    ground arith
