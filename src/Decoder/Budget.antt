-- ===== src/Decoder/Budget.antt =====
-- The subwords of a window are within the budget of the model, and its positions within them.
use seif_pii.Base.{
  ℕ, zero, suc, ◌+◌, ◌-◌, ◌≤◌, ◌≡◌, refl, ap, ◌∙◌, inl, inr, Bool-cases, leb, leb→le, List, [], ◌∷◌,
  arith, length, length-drop, drop,
}
use seif_pii.Decoder.Windows.{budget, window_end_from, window_end, boundaries_from, entry}
use seif_pii.Decoder.Coverage.{window_end_from-bounds, window_end-bounds}

-- `sum(counts)`
abbrev pub sum : List ℕ → ℕ
sum [] = 0
sum (c ∷ counts) = c + sum counts

pub entry-drop : (i k : ℕ) (xs : List ℕ) → entry xs (i + k) ≡ entry (drop i xs) k
entry-drop zero k xs = let e : 0 + k ≡ k = omega arith in rw e refl
entry-drop (suc i) k [] = refl
entry-drop (suc i) k (x ∷ xs) =
    let e : suc i + k ≡ suc (i + k) = omega arith in rw e (entry-drop i k xs)

entry_front : (t : ℕ) (counts : List ℕ) → entry (boundaries_from t counts) 0 ≡ t
entry_front t [] = refl
entry_front t (c ∷ counts) = refl

drop-boundaries :
    (t i : ℕ) (counts : List ℕ)
    → i ≤ length counts
    → drop i (boundaries_from t counts)
      ≡ boundaries_from (entry (boundaries_from t counts) i) (drop i counts)
drop-boundaries t zero [] h = refl
drop-boundaries t zero (c ∷ counts) h = refl
drop-boundaries t (suc i) [] h = absurd (omega arith)
drop-boundaries t (suc i) (c ∷ counts) h = drop-boundaries (t + c) i counts (omega arith)

pub entry-bounds :
    (t i : ℕ) (counts : List ℕ)
    → i ≤ length counts
    → (t ≤ entry (boundaries_from t counts) i)
      × (entry (boundaries_from t counts) i ≤ t + sum counts)
entry-bounds t zero [] h = (omega arith, omega arith)
entry-bounds t zero (c ∷ counts) h = (omega arith, omega arith)
entry-bounds t (suc i) [] h = absurd (omega arith)
entry-bounds t (suc i) (c ∷ counts) h =
    let (a, b) = entry-bounds (t + c) i counts (omega arith) in (omega arith, omega arith)

-- Boundaries do not decrease.
pub entry_monotone :
    (i j : ℕ) (counts : List ℕ)
    → i ≤ j
    → j ≤ length counts
    → entry (boundaries_from 0 counts) i ≤ entry (boundaries_from 0 counts) j
entry_monotone i j counts h k =
    let b : entry (boundaries_from 0 counts) i
        ≤ entry (boundaries_from (entry (boundaries_from 0 counts) i) (drop i counts)) (j - i) =
      (entry-bounds (entry (boundaries_from 0 counts) i) (j - i) (drop i counts)
        (omega (arith, length-drop i counts))).0 in
    let e : j ≡ i + (j - i) = omega arith in
    rw e (
      rw (entry-drop i (j - i) (boundaries_from 0 counts), drop-boundaries 0 i counts (omega arith))
        b)

window_end_from-budget :
    (t total end : ℕ) (counts : List ℕ)
    → total ≤ budget
    → entry (boundaries_from t counts) (window_end_from total end counts - end) + total ≤ t + budget
unfolding window_end_from
window_end_from-budget t total end [] h = let e : end - end ≡ 0 = omega arith in rw e (omega arith)
window_end_from-budget t total end (c ∷ counts) h = elim (Bool-cases (leb (total + c) budget)) [
  | inl more ↦
      let e : window_end_from (total + c) (suc end) counts - end
          ≡ suc (window_end_from (total + c) (suc end) counts - suc end) =
        omega (arith, (window_end_from-bounds (total + c) (suc end) counts).0) in
      rw (more, e)
        (omega (
          arith,
          window_end_from-budget (t + c) (total + c) (suc end) counts
              (leb→le (total + c) budget more),
        ))
  | inr stop ↦ let e : end - end ≡ 0 = omega arith in rw (stop, e) (omega arith)
]

pub window-budget :
    (counts : List ℕ) (start : ℕ)
    → start ≤ length counts
    → entry (boundaries_from 0 counts) (window_end counts start)
      ≤ entry (boundaries_from 0 counts) start + budget
unfolding window_end
window-budget counts start h =
    let b =
      window_end_from-budget (entry (boundaries_from 0 counts) start) 0 start (drop start counts)
        (omega arith) in
    let grows = window_end-bounds counts start h in
    let e : window_end counts start ≡ start + (window_end counts start - start) =
      omega (arith, grows.0) in
    let same : entry (boundaries_from 0 counts) (window_end counts start)
        ≡ entry (boundaries_from (entry (boundaries_from 0 counts) start) (drop start counts))
            (window_end counts start - start) =
      ap (λ (i : ℕ). entry (boundaries_from 0 counts) i) e
      ∙ entry-drop start (window_end counts start - start) (boundaries_from 0 counts)
      ∙ ap (λ xs. entry xs (window_end counts start - start)) (drop-boundaries 0 start counts h) in
    omega (arith, b, same)
