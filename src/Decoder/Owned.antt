-- ===== src/Decoder/Owned.antt =====
-- The windows of a document one behind the other: what holds of each, and that together they own all words.
use seif_pii.Base.{
  ℕ, zero, suc, ◌+◌, ◌-◌, ◌≤◌, ◌<◌, ◌≡◌, refl, inl, inr, Bool-cases, List, [], ◌∷◌, arith, max,
  length, length-slice, ◌==◌, All, lt→ltb,
}
use seif_pii.Decoder.Windows.{
  budget, window_end, positions_from, boundaries_from, entry, next_start,
}
use seif_pii.Decoder.Prepared.{Window, window_at, windows_from}
use seif_pii.Decoder.Coverage.{Fits, window-Step}
use seif_pii.Decoder.Budget.{sum, entry_monotone, entry-bounds, window-budget}

-- What a call of the model is given: no more subwords than it takes, and places of theirs, each
-- behind the special token in front.
pub record IsCall (tokens positions : List ℕ) : Type 0 where
  pub size : length tokens ≤ budget
  pub places : All (λ (p : ℕ). p < length tokens + 2) positions

pub record IsWindow (ids counts : List ℕ) (w : Window) : Type 0 where
  pub inside : w.start < window_end counts w.start
  pub ends : window_end counts w.start ≤ length counts
  pub owned : w.right ≤ window_end counts w.start - w.start
  pub words : length w.positions ≡ window_end counts w.start - w.start
  pub call : IsCall w.token_ids w.positions

-- The windows from the word `next` on: each begins to write where all is written before.
abbrev pub Owned : List ℕ → List ℕ → ℕ → List Window → Type 0
Owned ids counts next [] = next ≡ length counts
Owned ids counts next (w ∷ ws) =
    IsWindow ids counts w
    × (w.start + w.left ≤ next)
    × Owned ids counts (max next (w.start + w.right)) ws

length-positions_from :
    (boundaries : List ℕ) (offset start n : ℕ)
    → length (positions_from boundaries offset start n) ≡ n
unfolding positions_from
length-positions_from boundaries offset start zero = refl
length-positions_from boundaries offset start (suc n) =
    omega (arith, length-positions_from boundaries offset (suc start) n)

positions_from-bound :
    (counts : List ℕ) (offset start n end top : ℕ)
    → start + n ≤ end
    → end ≤ length counts
    → entry (boundaries_from 0 counts) end - offset + 1 < top
    → All (λ (p : ℕ). p < top) (positions_from (boundaries_from 0 counts) offset start n)
unfolding positions_from
positions_from-bound counts offset start zero end top h k l = tt
positions_from-bound counts offset start (suc n) end top h k l = (
  omega (arith, entry_monotone start end counts (omega arith) k),
  positions_from-bound counts offset (suc start) n end top (omega arith) k l,
)

module _ (ids counts : List ℕ) (fits : Fits counts) (aligned : length ids ≡ sum counts) where
  window_at-IsWindow :
      (start next : ℕ)
      → start < length counts
      → start ≤ next
      → IsWindow ids counts (window_at ids counts start next)
  unfolding window_at
  window_at-IsWindow start next h k =
      let s = window-Step counts start next fits h k in
      let whole = entry-bounds 0 (window_end counts start) counts s.ends in
      let n =
        length-slice ids (entry (boundaries_from 0 counts) start)
          (entry (boundaries_from 0 counts) (window_end counts start))
          (entry_monotone start (window_end counts start) counts (omega (arith, s.grows)) s.ends)
          (omega (arith, whole.1, aligned)) in
      record {
        inside = s.grows;
        ends = s.ends;
        owned = s.owned;
        words =
            length-positions_from (boundaries_from 0 counts)
              (entry (boundaries_from 0 counts) start) start (window_end counts start - start);
        call = record {
          size = omega (arith, n, window-budget counts start (omega arith));
          places =
              positions_from-bound counts (entry (boundaries_from 0 counts) start) start
                (window_end counts start - start) (window_end counts start) _
                (omega (arith, s.grows)) s.ends (omega (arith, n));
        };
      }

  pub windows_from-Owned :
      (fuel start next : ℕ)
      → length counts ≤ start + fuel
      → start < length counts
      → start ≤ next
      → next ≤ length counts
      → Owned ids counts next (windows_from ids counts fuel start next)
  unfolding windows_from window_at
  windows_from-Owned zero start next f h k l = absurd (omega arith)
  windows_from-Owned (suc fuel) start next f h k l =
      let s = window-Step counts start next fits h k in
      let w = window_at-IsWindow start next h k in
      rw (lt→ltb start (length counts) h) (
        w,
        s.meets,
        elim (Bool-cases (window_end counts start == length counts)) [
          | inl last ↦ rw last (
              let e : window_end counts start ≡ length counts = ground arith in
              let same = s.last e in omega (arith, same))
          | inr more ↦
              let less : window_end counts start < length counts = ground (arith, s.ends) in
              let g = s.goes_on less in
              rw more (
                windows_from-Owned fuel (next_start counts start (window_end counts start)) _
                  (omega (arith, g.0)) g.1 (omega (arith, g.2))
                  (omega (arith, s.owned, s.grows, s.ends)))
        ],
      )
