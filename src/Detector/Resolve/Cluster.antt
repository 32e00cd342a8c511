-- ===== src/Detector/Resolve/Cluster.antt =====
-- `_resolve`: the cut into clusters, and what holds of the whole result.
use seif_pii.Base.{
  ℕ, ◌≤◌, ◌≡◌, ◌⊎◌, inl, inr, false, ◌&&◌, not, List, [], ◌∷◌, ◌++◌, append_assoc, append-nil,
  arith, null, leb, max, All, In, In-append_left, In-append_right, In-append, Bool-cases,
}
use seif_pii.Span.{InOrder-append, Span, InOrder, Within}
use seif_pii.Detector.Order.{place_before}
use seif_pii.Detector.Order.Rank.{place_before-start}
use seif_pii.Detector.Order.Sorting.{Sorted}
use seif_pii.Detector.Resolve.{select_cluster, resolve_from}
use seif_pii.Detector.Resolve.Admit.{
  Settled, select_cluster-InOrder, select_cluster_sound, select_cluster_settles,
}

Settled-left : (xs ys : List Span) (c : Span) → Settled xs c → Settled (xs ++ ys) c
Settled-left xs ys c s = record {
  winner = s.winner;
  kept = In-append_left s.winner xs ys s.kept;
  reason = s.reason;
}

Settled-right : (xs ys : List Span) (c : Span) → Settled ys c → Settled (xs ++ ys) c
Settled-right xs ys c s = record {
  winner = s.winner;
  kept = In-append_right s.winner xs ys s.kept;
  reason = s.reason;
}

-- The loop's state: the cluster lies between `lo` and `end`, the spans left come in order of start.
pub record Going (lo end size : ℕ) (cluster spans : List Span) : Type 0 where
  pub room : (lo ≤ end) × (end ≤ size)
  pub within : All (Within lo end) cluster
  pub left : All (Within lo size) spans
  pub sorted : Sorted place_before spans

Within-widen :
    (lo end size : ℕ) (xs : List Span)
    → All (Within lo end) xs
    → end ≤ size
    → All (Within lo size) xs
Within-widen lo end size [] h le = tt
Within-widen lo end size (x ∷ xs) ((h1, h2, h3), h) le =
    ((h1, h2, omega arith), Within-widen lo end size xs h le)

-- The two steps: the cluster is closed, or it takes the span.
resolve_from-step :
    (cluster : List Span) (end : ℕ) (s : Span) (spans : List Span)
    → ((end ≤ s.start)
        × (resolve_from cluster end (s ∷ spans)
            ≡ select_cluster cluster ++ resolve_from (s ∷ []) (max end s.end) spans))
      ⊎ (resolve_from cluster end (s ∷ spans)
          ≡ resolve_from (cluster ++ s ∷ []) (max end s.end) spans)
unfolding resolve_from
resolve_from-step cluster end s spans = elim (Bool-cases (not (null cluster) && leb end s.start)) [
  | inl closed ↦ inl (ground arith, ground arith)
  | inr open_still ↦ inr (ground arith)
]

-- The cluster with one more span, below a later end.
Within-grow :
    (lo end end' : ℕ) (xs : List Span) (s : Span)
    → All (Within lo end) xs
    → end ≤ end'
    → Within lo end' s
    → All (Within lo end') (xs ++ s ∷ [])
Within-grow lo end end' [] s h le w = (w, tt)
Within-grow lo end end' (x ∷ xs) s ((h1, h2, h3), h) le w =
    ((h1, h2, omega arith), Within-grow lo end end' xs s h le w)

-- Spans that come behind `s` in the order lie behind what ends before `s` starts.
Within-from :
    (lo end size : ℕ) (s : Span) (xs : List Span)
    → All (Within lo size) xs
    → All (λ y. place_before y s ≡ false) xs
    → end ≤ s.start
    → All (Within end size) xs
Within-from lo end size s [] h low le = tt
Within-from lo end size s (x ∷ xs) ((h1, h2, h3), h) (l, low) le =
    ((omega (arith, place_before-start s x l), h2, h3), Within-from lo end size s xs h low le)

module _ {lo end size : ℕ} {cluster : List Span} {s : Span} {spans : List Span}
    (g : Going lo end size cluster (s ∷ spans)) where
  Going-close : end ≤ s.start → Going end (max end s.end) size (s ∷ []) spans
  Going-close h = record {
    room = (omega arith, omega (arith, g.left.0.2, g.room.1));
    within = ((h, g.left.0.1, omega arith), tt);
    left = Within-from lo end size s spans g.left.1 g.sorted.0 h;
    sorted = g.sorted.1;
  }

  Going-grow : Going lo (max end s.end) size (cluster ++ s ∷ []) spans
  Going-grow = record {
    room = (omega (arith, g.room.0), omega (arith, g.left.0.2, g.room.1));
    within =
        Within-grow lo end (max end s.end) cluster s g.within (omega arith)
          (g.left.0.0, g.left.0.1, omega arith);
    left = g.left.1;
    sorted = g.sorted.1;
  }

pub resolve_from-InOrder :
    (lo end size : ℕ) (cluster spans : List Span)
    → Going lo end size cluster spans
    → InOrder lo size (resolve_from cluster end spans)
unfolding resolve_from
resolve_from-InOrder lo end size cluster [] g =
    let o =
      select_cluster-InOrder lo size cluster (Within-widen lo end size cluster g.within g.room.1)
        (omega (arith, g.room.0, g.room.1)) in
    elim (Bool-cases (null cluster)) [
      | inl empty ↦ rw empty (omega (arith, g.room.0, g.room.1))
      | inr full ↦ rw full o
    ]
resolve_from-InOrder lo end size cluster (s ∷ spans) g =
    elim (resolve_from-step cluster end s spans) [
      | inl (behind, e) ↦ rw e (
          InOrder-append lo end size (select_cluster cluster)
            (resolve_from (s ∷ []) (max end s.end) spans)
            (select_cluster-InOrder lo end cluster g.within g.room.0)
            (resolve_from-InOrder end (max end s.end) size (s ∷ []) spans (Going-close g behind)))
      | inr e ↦
          rw e
            (resolve_from-InOrder lo (max end s.end) size (cluster ++ s ∷ []) spans (Going-grow g))
    ]

pub resolve_from_sound :
    (x : Span) (lo end size : ℕ) (cluster spans : List Span)
    → Going lo end size cluster spans
    → In x (resolve_from cluster end spans)
    → In x (cluster ++ spans)
unfolding resolve_from
resolve_from_sound x lo end size cluster [] g m = elim (Bool-cases (null cluster)) [
  | inl empty ↦ absurd (rw empty at m)
  | inr full ↦
      In-append_left x cluster []
        (select_cluster_sound lo end cluster g.within g.room.0 x (rw full at m))
]
resolve_from_sound x lo end size cluster (s ∷ spans) g m =
    elim (resolve_from-step cluster end s spans) [
      | inl (behind, e) ↦
          elim (In-append x (select_cluster cluster) (resolve_from (s ∷ []) (max end s.end) spans)
            (rw e at m)) [
              | inl early ↦
                  In-append_left x cluster (s ∷ spans)
                    (select_cluster_sound lo end cluster g.within g.room.0 x early)
              | inr late ↦ In-append_right x cluster (s ∷ spans) (
                  resolve_from_sound x end (max end s.end) size (s ∷ []) spans
                    (Going-close g behind) late)
            ]
      | inr e ↦
          let m' =
            resolve_from_sound x lo (max end s.end) size (cluster ++ s ∷ []) spans (Going-grow g)
              (rw e at m) in
          rw (append_assoc cluster (s ∷ []) spans) at m'
    ]

pub resolve_from_settles :
    (c : Span) (lo end size : ℕ) (cluster spans : List Span)
    → Going lo end size cluster spans
    → In c (cluster ++ spans)
    → Settled (resolve_from cluster end spans) c
unfolding resolve_from
resolve_from_settles c lo end size [] [] g m = absurd m
resolve_from_settles c lo end size (x ∷ cluster) [] g m =
    select_cluster_settles lo end (x ∷ cluster) g.within g.room.0 c (rw append-nil at m)
resolve_from_settles c lo end size cluster (s ∷ spans) g m =
    elim (resolve_from-step cluster end s spans) [
      | inr e ↦ rw e (
          resolve_from_settles c lo (max end s.end) size (cluster ++ s ∷ []) spans (Going-grow g)
            (rw (append_assoc cluster (s ∷ []) spans) m))
      | inl (behind, e) ↦
          let first = select_cluster cluster in
          let others = resolve_from (s ∷ []) (max end s.end) spans in
          rw e (elim (In-append c cluster (s ∷ spans) m) [
            | inl early ↦
                Settled-left first others c
                  (select_cluster_settles lo end cluster g.within g.room.0 c early)
            | inr late ↦ Settled-right first others c (
                resolve_from_settles c end (max end s.end) size (s ∷ []) spans
                  (Going-close g behind) late)
          ])
    ]
