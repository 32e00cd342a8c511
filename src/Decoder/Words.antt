-- ===== src/Decoder/Words.antt =====
-- `words_with_offsets` of seif/rubert_decoder.py.
use seif_pii.Base.{
  ℕ, zero, suc, ◌+◌, ◌-◌, Bool, ◌&&◌, List, [], ◌∷◌, ◌++◌, max, length, slice, take, drop, any,
  null, ltb, ◌==◌, if◌then◌else◌, ◌||◌,
}
use seif_pii.Text.{Text, Unicode, codes}

-- A word with its place in the text.
pub record Token : Type 0 where
  pub value : Text
  pub start : ℕ
  pub end : ℕ

abbrev pub dot : ℕ
dot = b'.'

-- The characters that are words of their own in `_WORD`.
unfoldable pub is_delimiter : ℕ → Bool
is_delimiter c = any (λ d. c == d) (codes "(){}[]«»\"“”‘’',;:!?")

-- How long the run of other characters that are no spaces is, at the front.
unfoldable pub run_length : Unicode → Text → ℕ
unfolding is_delimiter
run_length u [] = 0
run_length u (c ∷ t) =
    let rest = run_length u t in if u.is_space c || is_delimiter c then 0 else suc rest

-- `_WORD.finditer`, from `start` on: the matches with their starts, on fuel for the rest of the text.
unfoldable pub matches_from : Unicode → ℕ → ℕ → Text → List (ℕ × Text)
unfolding run_length is_delimiter
matches_from u zero start t = []
matches_from u (suc fuel) start [] = []
matches_from u (suc fuel) start (c ∷ t) =
    let n = suc (run_length u t) in
    let skipped = matches_from u fuel (start + 1) t in
    let behind = matches_from u fuel (start + n) (drop n (c ∷ t)) in
    if u.is_space c
    then skipped
    else if is_delimiter c
    then (start, c ∷ []) ∷ skipped
    else (start, take n (c ∷ t)) ∷ behind

-- `value.lstrip(".")` and `value.rstrip(".")`
unfoldable pub lstrip_dots : Text → Text
lstrip_dots [] = []
lstrip_dots (c ∷ t) = let rest = lstrip_dots t in if c == dot then rest else c ∷ t

unfoldable pub rstrip_dots : Text → Text
rstrip_dots [] = []
rstrip_dots (c ∷ t) = let rest = rstrip_dots t in if c == dot && null rest then [] else c ∷ rest

-- `n` dots from `start` on.
unfoldable pub dots : ℕ → ℕ → List Token
dots zero start = []
dots (suc n) start =
    record { value = dot ∷ []; start = start; end = start + 1 } ∷ dots n (start + 1)

-- What one match gives: the dots in front, what stands between, and the dots behind.
unfoldable pub split_dots : ℕ → Text → List Token
unfolding lstrip_dots rstrip_dots dots
split_dots start value =
    let leading = length value - length (lstrip_dots value) in
    let trailing_start = max leading (length (rstrip_dots value)) in
    dots leading start
    ++ ((if ltb leading trailing_start
          then record {
            value = slice value leading trailing_start;
            start = start + leading;
            end = start + trailing_start;
          }
            ∷ []
          else [])
        ++ dots (length value - trailing_start) (start + trailing_start))

unfoldable pub split_all : List (ℕ × Text) → List Token
unfolding split_dots
split_all [] = []
split_all ((start, value) ∷ rest) = split_dots start value ++ split_all rest

unfoldable pub words_with_offsets : Unicode → Text → List Token
unfolding matches_from split_all
words_with_offsets u text = split_all (matches_from u (length text) 0 text)
