-- ===== src/Boundaries/Parts.antt =====
-- The two bisections of `preserve_model_boundaries` find exactly the model spans that overlap.
use seif_pii.Base.{
  ℕ, ◌≤◌, ◌≡◌, refl, inl, inr, Bool, false, ◌&&◌, List, [], ◌∷◌, arith, take, slice, keep, map, ltb,
  leb, max, All, Bool-cases, tests,
}
use seif_pii.Text.{codes}
use seif_pii.Span.{Span}
use seif_pii.Detector.Order.Comparison.{
  lex-IsComparison, on-IsComparison, compare_ℕ-IsComparison, compare_text-IsComparison,
}
use seif_pii.Detector.Order.Rank.{IsOrder, is_less-IsOrder}
use seif_pii.Detector.Order.Sorting.{Sorted}
use seif_pii.Detector.Resolve.{bisect_left}
use seif_pii.Boundaries.{bisect_right, running_max, model_before, parts_of}

pub model_before-IsOrder : IsOrder model_before
unfolding model_before
model_before-IsOrder = is_less-IsOrder (
    lex-IsComparison (on-IsComparison (λ (s : Span). s.start) compare_ℕ-IsComparison) (
      lex-IsComparison (on-IsComparison (λ (s : Span). s.end) compare_ℕ-IsComparison)
        (on-IsComparison (λ (s : Span). codes s.type) compare_text-IsComparison)))

pub model_before-start : (a b : Span) → model_before b a ≡ false → a.start ≤ b.start
unfolding model_before
model_before-start a b h = ground arith

-- The model span shares a position with the resolved one.
abbrev pub meets : Span → Span → Bool
meets original m = ltb original.start m.end && ltb m.start original.end

abbrev ends_of : List Span → List ℕ
ends_of models = map (λ (m : Span). m.end) models

abbrev starts_of : List Span → List ℕ
starts_of models = map (λ (m : Span). m.start) models

module _ (o : Span) where
  keep_none : (ms : List Span) → All (λ m. o.end ≤ m.start) ms → keep (meets o) ms ≡ []
  keep_none [] h = refl
  keep_none (m ∷ ms) (h, hs) = ground (arith, keep_none ms hs)

  later_starts :
      (m : Span) (ms : List Span)
      → All (λ n. model_before n m ≡ false) ms
      → o.end ≤ m.start
      → All (λ n. o.end ≤ n.start) ms
  later_starts m [] low h = tt
  later_starts m (n ∷ ms) (l, low) h =
      (omega (arith, model_before-start m n l), later_starts m ms low h)

  -- Nothing is cut off in front.
  keep-take :
      (ms : List Span)
      → Sorted model_before ms
      → keep (λ (m : Span). ltb o.start m.end) (take (bisect_left (starts_of ms) o.end) ms)
        ≡ keep (meets o) ms
  unfolding bisect_left
  keep-take [] st = refl
  keep-take (m ∷ ms) (low, st) = elim (Bool-cases (ltb m.start o.end)) [
    | inl early ↦ ground (arith, keep-take ms st)
    | inr late ↦
        let e = keep_none (m ∷ ms) (omega tests, later_starts m ms low (omega tests)) in
        ground (arith, e)
  ]

  keep-slice :
      (mx : ℕ) (ms : List Span)
      → Sorted model_before ms
      → keep
          (λ (m : Span). ltb o.start m.end)
          (slice ms
            (bisect_right (running_max mx (ends_of ms)) o.start)
            (bisect_left (starts_of ms) o.end))
        ≡ keep (meets o) ms
  unfolding bisect_left bisect_right running_max
  keep-slice mx [] st = refl
  keep-slice mx (m ∷ ms) (low, st) = elim (Bool-cases (leb (max mx m.end) o.start)) [
    | inr reaches ↦ ground (arith, keep-take (m ∷ ms) (low, st))
    | inl behind ↦ elim (Bool-cases (ltb m.start o.end)) [
      | inl early ↦
          let no_hit : meets o m ≡ false = ground arith in
          ground (arith, keep-slice (max mx m.end) ms st)
      | inr late ↦
          let e = keep_none (m ∷ ms) (omega tests, later_starts m ms low (omega tests)) in
          ground (arith, e)
    ]
  ]

-- For model spans in order, the slice between the bisections, filtered, is every model span that
-- shares a position with the resolved one, in order.
pub parts_of-keep :
    (models : List Span) (original : Span)
    → Sorted model_before models
    → parts_of models original ≡ keep (meets original) models
unfolding parts_of
parts_of-keep models original st = keep-slice original 0 models st
