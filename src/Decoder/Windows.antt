-- ===== src/Decoder/Windows.antt =====
-- The windows of seif/rubert_decoder.py: where one ends, which of its words it owns, and the loop of
-- `_predict_words` over what the model predicts on a window.
use seif_pii.Base.{
  ℕ, zero, suc, ◌+◌, ◌-◌, ◌/◌, Option, none, some, List, [], ◌∷◌, ◌++◌, map, max, min, length, take,
  drop, slice, leb, ltb, ◌==◌, if◌then◌else◌,
}
use seif_pii.Base.Result.{Result, ok, raise, ◌>>=◌}
use seif_pii.Text.{Text}

-- The `ValueError`s, one constructor for each message: `uneven` is that of `zip(..., strict=True)`. The
-- last is the `IndexError`.
pub data Failure : Type 0 where
  not_texts batch_size padding inventory alignment omitted_word wide_word layout wrong_logits :
      Failure
  omitted_owner unpredicted uneven out_of_range : Failure

abbrev pub budget : ℕ
budget = 510

abbrev pub overlap : ℕ
overlap = 128

-- The label of a word and its score.
pub record Prediction (Score : Type 0) : Type 0 where
  pub tag : Text
  pub score : Score

-- `reversed(xs)`
abbrev pub reversed : List ℕ → List ℕ
reversed [] = []
reversed (x ∷ xs) = reversed xs ++ x ∷ []

-- The loop of `_window_end` over the words that are left.
unfoldable pub window_end_from : ℕ → ℕ → List ℕ → ℕ
window_end_from total end [] = end
window_end_from total end (c ∷ counts) =
    let rest = window_end_from (total + c) (suc end) counts in
    if leb (total + c) budget then rest else end

unfoldable pub window_end : List ℕ → ℕ → ℕ
unfolding window_end_from
window_end counts start = window_end_from 0 start (drop start counts)

unfoldable pub margin_from : ℕ → ℕ → ℕ → List ℕ → ℕ
margin_from threshold total consumed [] = consumed
margin_from threshold total consumed (c ∷ counts) =
    let rest = margin_from threshold (total + c) (suc consumed) counts in
    if leb threshold (total + c) then suc consumed else rest

unfoldable pub margin_words : List ℕ → ℕ → ℕ
unfolding margin_from
margin_words counts threshold = margin_from threshold 0 0 counts

-- `len(window) - (margin - 1)` is `len(window) + 1 - margin`, which is not negative. A next word that
-- is not yet written in front of `start` gives 0, as `max(0, ...)` does.
unfoldable pub ownership : List ℕ → ℕ → ℕ → ℕ → ℕ × ℕ
unfolding margin_words
ownership counts start end next_unwritten =
    let window = slice counts start end in
    let left = if start == 0 then 0 else margin_words window (overlap / 2) in
    let right =
      if ltb end (length counts)
      then suc (length window) - margin_words (reversed window) (overlap / 2)
      else length window in
    (min left (next_unwritten - start), right)

-- `[0, *accumulate(counts)]`, and its elements; the index is in range wherever the code reads one.
abbrev pub boundaries_from : ℕ → List ℕ → List ℕ
boundaries_from total [] = total ∷ []
boundaries_from total (c ∷ counts) = total ∷ boundaries_from (total + c) counts

abbrev pub entry : List ℕ → ℕ → ℕ
entry [] i = 0
entry (x ∷ xs) zero = x
entry (x ∷ xs) (suc i) = entry xs i

-- `[boundaries[index] - offset + 1 for index in range(start, end)]`, `n` of them from `start` on.
unfoldable pub positions_from : List ℕ → ℕ → ℕ → ℕ → List ℕ
positions_from boundaries offset start zero = []
positions_from boundaries offset start (suc n) =
    (entry boundaries start - offset + 1) ∷ positions_from boundaries offset (suc start) n

-- `xs[a:b] = new`
abbrev pub assign {ℓ} : {A : Type ℓ} → ℕ → ℕ → List A → List A → List A
assign a b new xs = take a xs ++ (new ++ drop (max a b) xs)

abbrev pub repeat {ℓ} : {A : Type ℓ} → ℕ → A → List A
repeat zero x = []
repeat (suc n) x = x ∷ repeat n x

-- The elements, if none is `None`.
unfoldable pub all_some {ℓ} : {A : Type ℓ} → List (Option A) → Option (List A)
all_some [] = some []
all_some (none ∷ xs) = none
all_some (some x ∷ xs) = elim (all_some xs) [ none ↦ none | some ys ↦ some (x ∷ ys) ]

-- The start of the window behind the one from `start` to `end`.
unfoldable pub next_start : List ℕ → ℕ → ℕ → ℕ
unfolding margin_words
next_start counts start end =
    max (end - margin_words (reversed (slice counts start end)) overlap) (start + 1)

module _ {Score : Type 0} (predict : List ℕ → List ℕ → Result Failure (List (Prediction Score)))
    (ids counts : List ℕ) where
  -- The loop of `_predict_words`, on fuel for its windows.
  unfoldable pub predict_from :
      ℕ
      → ℕ
      → ℕ
      → List (Option (Prediction Score))
      → Result Failure (List (Option (Prediction Score)))
  unfolding window_end ownership positions_from next_start
  predict_from zero start next_unwritten output = ok output
  predict_from (suc fuel) start next_unwritten output =
      let boundaries = boundaries_from 0 counts in
      let end = window_end counts start in
      let offset = entry boundaries start in
      let positions = positions_from boundaries offset start (end - start) in
      let (left, right) = ownership counts start end next_unwritten in
      if ltb start (length counts)
      then predict (slice ids offset (entry boundaries end)) positions >>= (λ predicted.
        let output' =
          assign (start + left) (start + right) (map some (slice predicted left right)) output in
        let rest =
          predict_from fuel (next_start counts start end) (max next_unwritten (start + right))
            output' in
        if end == length counts then ok output' else rest)
      else ok output

  unfoldable pub predict_words : Result Failure (List (Prediction Score))
  unfolding predict_from all_some
  predict_words = predict_from (length counts) 0 0 (repeat (length counts) none) >>= (λ output.
      elim (all_some output) [ none ↦ raise omitted_owner | some predicted ↦ ok predicted ])
