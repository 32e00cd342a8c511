-- ===== src/Detector/Resolve/Admit.antt =====
-- `_select_cluster` on a cluster of spans that are not empty.
use seif_pii.Base.{
  ℕ, ◌≤◌, ◌≡◌, refl, sym, ◌⊎◌, inl, inr, false, List, [], ◌∷◌, All, In, All-of_In, All-In,
}
use seif_pii.Span.{Span, InOrder, Within, Overlap}
use seif_pii.Detector.Order.{ranks_before, sort}
use seif_pii.Detector.Order.Rank.{ranks_before-IsOrder}
use seif_pii.Detector.Order.Sorting.{Sorted, sort-In, In-sort, All-sort, Sorted-sort}
use seif_pii.Detector.Resolve.{admit, admit_all, select_cluster}
use seif_pii.Detector.Resolve.Select.{admit-InOrder, admit_sound, admit_keeps, admit_decides}

-- The candidate is in the result, or one is that overlaps it and does not rank behind it.
pub record Settled (out : List Span) (c : Span) : Type 0 where
  pub winner : Span
  pub kept : In winner out
  pub reason : (winner ≡ c) ⊎ (Overlap winner c × (ranks_before c winner ≡ false))

module _ (lo size : ℕ) where
  admit_all-InOrder :
      (spans accepted : List Span)
      → InOrder lo size accepted
      → All (Within lo size) spans
      → InOrder lo size (admit_all accepted spans)
  unfolding admit_all
  admit_all-InOrder [] accepted o h = o
  admit_all-InOrder (s ∷ spans) accepted o (w, h) =
      admit_all-InOrder spans (admit accepted s) (admit-InOrder lo size s accepted o w) h

  admit_all_sound :
      (x : Span) (spans accepted : List Span)
      → InOrder lo size accepted
      → All (Within lo size) spans
      → In x (admit_all accepted spans)
      → In x accepted ⊎ In x spans
  unfolding admit_all
  admit_all_sound x [] accepted o h m = inl m
  admit_all_sound x (s ∷ spans) accepted o (w, h) m =
      elim (admit_all_sound x spans (admit accepted s) (admit-InOrder lo size s accepted o w) h m) [
        | inr later ↦ inr (inr later)
        | inl now ↦ elim (admit_sound lo size s accepted o w x now) [
          | inl e ↦ inr (inl e)
          | inr old ↦ inl old
        ]
      ]

  admit_all_keeps :
      (x : Span) (spans accepted : List Span)
      → InOrder lo size accepted
      → All (Within lo size) spans
      → In x accepted
      → In x (admit_all accepted spans)
  unfolding admit_all
  admit_all_keeps x [] accepted o h m = m
  admit_all_keeps x (s ∷ spans) accepted o (w, h) m =
      admit_all_keeps x spans (admit accepted s) (admit-InOrder lo size s accepted o w) h
        (admit_keeps lo size s accepted o w x m)

  -- What was accepted ranks no lower than what is still to come.
  abbrev Ahead : List Span → List Span → Type 0
  Ahead accepted spans = All (λ c. All (λ a. ranks_before c a ≡ false) accepted) spans

  admit_all_settles :
      (c : Span) (spans accepted : List Span)
      → InOrder lo size accepted
      → All (Within lo size) spans
      → Sorted ranks_before spans
      → Ahead accepted spans
      → In c spans
      → Settled (admit_all accepted spans) c
  unfolding admit_all
  admit_all_settles c [] accepted o h st ahead m = absurd m
  admit_all_settles c (s ∷ spans) accepted o (w, h) (low, st) (front, ahead) (inl e) =
      let o' = admit-InOrder lo size s accepted o w in
      elim (admit_decides lo size s accepted o w) [
        | inl taken ↦ record {
          winner = s;
          kept = admit_all_keeps s spans (admit accepted s) o' h taken;
          reason = inl (sym e);
        }
        | inr (a, old, clash) ↦ record {
          winner = a;
          kept =
              admit_all_keeps a spans (admit accepted s) o' h
                (admit_keeps lo size s accepted o w a old);
          reason = inr (rw e (clash, All-In (λ b. ranks_before s b ≡ false) a accepted front old));
        }
      ]
  admit_all_settles c (s ∷ spans) accepted o (w, h) (low, st) (front, ahead) (inr m) =
      let ahead' : Ahead (admit accepted s) spans = All-of_In _ spans λ d n.
        All-of_In _ (admit accepted s) λ b k. elim (admit_sound lo size s accepted o w b k) [
          | inl e ↦ rw e (All-In (λ y. ranks_before y s ≡ false) d spans low n)
          | inr old ↦
              All-In (λ z. ranks_before d z ≡ false) b accepted
                (All-In (λ y. All (λ a. ranks_before y a ≡ false) accepted) d spans ahead n) old
        ] in
      admit_all_settles c spans (admit accepted s) (admit-InOrder lo size s accepted o w) h st
        ahead' m

  nothing-Ahead : (spans : List Span) → Ahead [] spans
  nothing-Ahead [] = tt
  nothing-Ahead (s ∷ spans) = (tt, nothing-Ahead spans)

-- A cluster of one span needs no sorting.
select_cluster-admit_all :
    (cluster : List Span) → select_cluster cluster ≡ admit_all [] (sort ranks_before cluster)
unfolding select_cluster admit sort
select_cluster-admit_all [] = refl
select_cluster-admit_all (s ∷ []) = refl
select_cluster-admit_all (s ∷ t ∷ cluster) = refl

module _ (lo size : ℕ) (cluster : List Span) (h : All (Within lo size) cluster) where
  pub select_cluster-InOrder : lo ≤ size → InOrder lo size (select_cluster cluster)
  select_cluster-InOrder le = rw select_cluster-admit_all (
      admit_all-InOrder lo size (sort ranks_before cluster) [] le
        (All-sort ranks_before (Within lo size) cluster h))

  pub select_cluster_sound : lo ≤ size → (x : Span) → In x (select_cluster cluster) → In x cluster
  select_cluster_sound le x m =
      elim (admit_all_sound lo size x (sort ranks_before cluster) [] le
        (All-sort ranks_before (Within lo size) cluster h) (rw select_cluster-admit_all at m)) [
          | inl none_yet ↦ absurd none_yet
          | inr sorted ↦ sort-In ranks_before x cluster sorted
        ]

  pub select_cluster_settles :
      lo ≤ size → (c : Span) → In c cluster → Settled (select_cluster cluster) c
  select_cluster_settles le c m = rw select_cluster-admit_all (
      admit_all_settles lo size c (sort ranks_before cluster) [] le
        (All-sort ranks_before (Within lo size) cluster h)
        (Sorted-sort ranks_before ranks_before-IsOrder cluster)
        (nothing-Ahead lo size (sort ranks_before cluster)) (In-sort ranks_before c cluster m))
