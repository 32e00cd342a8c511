-- ===== src/Decoder/Coverage.antt =====
-- The windows that `_predict_words` goes through own every word, and stay within the budget.
use seif_pii.Base.{
  ℕ, zero, suc, All-drop, ◌+◌, ◌-◌, ◌/◌, ◌≤◌, ◌<◌, ◌≡◌, refl, subst, ◌∙◌, List, [], ◌∷◌, arith,
  length, length-append, length-drop, length-slice, drop, slice, All,
}
use seif_pii.Decoder.Windows.{
  budget, overlap, window_end_from, window_end, margin_from, margin_words, reversed, ownership,
  next_start,
}

length-reversed : (xs : List ℕ) → length (reversed xs) ≡ length xs
length-reversed [] = refl
length-reversed (x ∷ xs) = omega (arith, length-append (reversed xs) (x ∷ []), length-reversed xs)

margin_from-le :
    (t total consumed : ℕ) (counts : List ℕ)
    → (consumed ≤ margin_from t total consumed counts)
      × (margin_from t total consumed counts ≤ consumed + length counts)
unfolding margin_from
margin_from-le t total consumed [] = (omega arith, omega arith)
margin_from-le t total consumed (c ∷ counts) =
    let ih = margin_from-le t (total + c) (suc consumed) counts in
    (ground (arith, ih.0), ground (arith, ih.1))

-- A margin takes a word where there is one, and a wider margin takes no fewer.
margin_words-bounds :
    (counts : List ℕ) (t : ℕ)
    → (margin_words counts t ≤ length counts) × (0 < length counts → 0 < margin_words counts t)
unfolding margin_words margin_from
margin_words-bounds [] t = (omega arith, λ h. absurd (omega arith))
margin_words-bounds (c ∷ counts) t =
    let ih = margin_from-le t (0 + c) 1 counts in
    (ground (arith, ih.0, ih.1), λ h. ground (arith, ih.0))

margin_from-monotone :
    (s t total consumed : ℕ) (counts : List ℕ)
    → s ≤ t
    → margin_from s total consumed counts ≤ margin_from t total consumed counts
unfolding margin_from
margin_from-monotone s t total consumed [] h = omega arith
margin_from-monotone s t total consumed (c ∷ counts) h = ground (
  arith,
  margin_from-monotone s t (total + c) (suc consumed) counts h,
  margin_from-le t (total + c) (suc consumed) counts,
)

margin_words-monotone :
    (counts : List ℕ) (s t : ℕ) → s ≤ t → margin_words counts s ≤ margin_words counts t
unfolding margin_words
margin_words-monotone counts s t h = margin_from-monotone s t 0 0 counts h

pub window_end_from-bounds :
    (total end : ℕ) (counts : List ℕ)
    → (end ≤ window_end_from total end counts)
      × (window_end_from total end counts ≤ end + length counts)
unfolding window_end_from
window_end_from-bounds total end [] = (omega arith, omega arith)
window_end_from-bounds total end (c ∷ counts) =
    let ih = window_end_from-bounds (total + c) (suc end) counts in
    (ground (arith, ih.0), ground (arith, ih.1))

drop-cons :
    (n : ℕ) (xs : List ℕ) → n < length xs → (x : ℕ) × (rest : List ℕ) × (drop n xs ≡ x ∷ rest)
drop-cons zero [] h = absurd (omega arith)
drop-cons zero (x ∷ xs) h = (x, xs, refl)
drop-cons (suc n) [] h = absurd (omega arith)
drop-cons (suc n) (x ∷ xs) h = drop-cons n xs (omega arith)

-- The counts that the tokenizer's checks let through.
abbrev pub Fits : List ℕ → Type 0
Fits counts = All (λ (c : ℕ). c ≤ budget) counts

pub window_end-bounds :
    (counts : List ℕ) (start : ℕ)
    → start ≤ length counts
    → (start ≤ window_end counts start) × (window_end counts start ≤ length counts)
unfolding window_end
window_end-bounds counts start h =
    let b = window_end_from-bounds 0 start (drop start counts) in
    (b.0, omega (arith, b.1, length-drop start counts))

window_end_grows :
    (counts : List ℕ) (start : ℕ)
    → Fits counts
    → start < length counts
    → start < window_end counts start
unfolding window_end window_end_from
window_end_grows counts start fits h =
    let (c, rest, e) = drop-cons start counts h in
    let (small, others) = subst Fits e (All-drop (λ (c : ℕ). c ≤ budget) start counts fits) in
    let b = window_end_from-bounds (0 + c) (suc start) rest in rw e (ground (arith, b.0))

-- What the bounds of a window have to do with the words that are written before it, and after it.
pub record Step (counts : List ℕ) (start next : ℕ) : Type 0 where
  pub grows : start < window_end counts start
  pub ends : window_end counts start ≤ length counts
  pub meets : start + (ownership counts start (window_end counts start) next).0 ≤ next
  pub owned :
      (ownership counts start (window_end counts start) next).1 ≤ window_end counts start - start
  pub last :
      window_end counts start ≡ length counts
      → start + (ownership counts start (window_end counts start) next).1 ≡ length counts
  pub goes_on :
      window_end counts start < length counts
      → (start < next_start counts start (window_end counts start))
        × (next_start counts start (window_end counts start) < length counts)
        × (next_start counts start (window_end counts start)
            ≤ start + (ownership counts start (window_end counts start) next).1)

pub window-Step :
    (counts : List ℕ) (start next : ℕ)
    → Fits counts
    → start < length counts
    → start ≤ next
    → Step counts start next
unfolding ownership next_start
window-Step counts start next fits h k =
    let grows = window_end_grows counts start fits h in
    let ends = (window_end-bounds counts start (omega arith)).1 in
    let n : length (slice counts start (window_end counts start))
        ≡ window_end counts start - start =
      length-slice counts start (window_end counts start) (omega arith) ends in
    let m : length (reversed (slice counts start (window_end counts start)))
        ≡ window_end counts start - start =
      length-reversed (slice counts start (window_end counts start)) ∙ n in
    let half =
      margin_words-bounds (reversed (slice counts start (window_end counts start))) (overlap / 2) in
    let whole =
      margin_words-bounds (reversed (slice counts start (window_end counts start))) overlap in
    let wider : margin_words (reversed (slice counts start (window_end counts start))) (overlap / 2)
        ≤ margin_words (reversed (slice counts start (window_end counts start))) overlap =
      margin_words-monotone (reversed (slice counts start (window_end counts start))) (overlap / 2)
        overlap (omega arith) in
    let some_half : 0
        < margin_words (reversed (slice counts start (window_end counts start))) (overlap / 2) =
      half.1 (omega (arith, m)) in
    record {
      grows = grows;
      ends = ends;
      meets = ground arith;
      owned = ground (arith, half.0, m, n, some_half);
      last = λ e. ground (arith, n);
      goes_on = λ less. (
        ground (arith, whole.0),
        ground (arith, some_half, whole.1, wider),
        ground (arith, half.0, wider, m, n),
      );
    }
