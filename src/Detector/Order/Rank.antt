-- ===== src/Detector/Order/Rank.antt =====
-- The order of `_select_cluster` is a total preorder on spans; that of `_resolve` is by the starts.
use seif_pii.Base.{◌-◌, ◌≤◌, ◌≡◌, ◌≢◌, Bool, true, false, arith}
use seif_pii.Text.{codes}
use seif_pii.Span.{Span}
use seif_pii.Detector.Order.{
  is_less, Sign, more, compare_rank, cluster_priority, ranks_before, place_before,
}
use seif_pii.Detector.Order.Comparison.{
  IsComparison, lex-IsComparison, on-IsComparison, down-IsComparison, compare_ℕ-IsComparison,
  compare_text-IsComparison,
}

compare_rank-IsComparison : IsComparison compare_rank
unfolding compare_rank
compare_rank-IsComparison =
    let num = compare_ℕ-IsComparison in
    let text = compare_text-IsComparison in
    lex-IsComparison (on-IsComparison cluster_priority (down-IsComparison num)) (
      lex-IsComparison (on-IsComparison (λ (s : Span). s.end - s.start) (down-IsComparison num)) (
        lex-IsComparison (on-IsComparison (λ (s : Span). s.confidence) (down-IsComparison num)) (
          lex-IsComparison (on-IsComparison (λ (s : Span). s.start) num) (
            lex-IsComparison (on-IsComparison (λ (s : Span). codes s.type) text)
              (on-IsComparison (λ (s : Span). codes s.reason) text)))))

-- `before` as a strict order: irreflexive both ways, and its negation is transitive.
pub record IsOrder {ℓ} {A : Type ℓ} (before : A → A → Bool) : Type ℓ where
  pub asym : (a b : A) → before a b ≡ true → before b a ≡ false
  pub trans : (a b c : A) → before b a ≡ false → before c b ≡ false → before c a ≡ false

pub is_less-IsOrder {ℓ} :
    {A : Type ℓ} {cmp : A → A → Sign} → IsComparison cmp → IsOrder (λ a b. is_less (cmp a b))
is_less-IsOrder {cmp = cmp} law = record {
  asym = λ a b h. ground (arith, law.flipped a b);
  trans = λ a b c h k.
      let p : cmp a b ≢ more = λ m. ground (arith, law.flipped a b) in
      let q : cmp b c ≢ more = λ m. ground (arith, law.flipped b c) in
      ground (arith, law.flipped a c, law.trans a b c p q);
}

pub ranks_before-IsOrder : IsOrder ranks_before
unfolding ranks_before
ranks_before-IsOrder = is_less-IsOrder compare_rank-IsComparison

pub place_before-IsOrder : IsOrder place_before
unfolding place_before
place_before-IsOrder = record { asym = λ a b h. ground arith; trans = λ a b c h k. ground arith }

pub place_before-start : (a b : Span) → place_before b a ≡ false → a.start ≤ b.start
unfolding place_before
place_before-start a b h = ground arith
