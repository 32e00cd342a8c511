-- ===== src/Detector/Resolve/Result.antt =====
-- What `_resolve` returns, for candidates that are not empty and lie within the text.
use seif_pii.Base.{
  ℕ, ◌≡◌, sym, subst, inl, inr, true, List, [], ◌∷◌, arith, any, All, In, All-of_In, All-In,
  Bool-cases,
}
use seif_pii.Span.{Span, span_eq, span_eq_sound, InOrder, Within}
use seif_pii.Detector.Order.{place_before, sort}
use seif_pii.Detector.Order.Rank.{place_before-IsOrder}
use seif_pii.Detector.Order.Sorting.{sort-In, In-sort, All-sort, Sorted-sort}
use seif_pii.Detector.Resolve.{dedup, resolve}
use seif_pii.Detector.Resolve.Admit.{Settled}
use seif_pii.Detector.Resolve.Cluster.{
  Going, resolve_from-InOrder, resolve_from_sound, resolve_from_settles,
}

any-In : (s : Span) (xs : List Span) → any (span_eq s) xs ≡ true → In s xs
any-In s [] h = ground arith
any-In s (x ∷ xs) h = elim (Bool-cases (span_eq s x)) [
  | inl hit ↦ inl (span_eq_sound s x hit)
  | inr miss ↦ inr (any-In s xs (rw miss at h))
]

dedup-In : (x : Span) (xs : List Span) → In x (dedup xs) → In x xs
unfolding dedup
dedup-In x [] m = m
dedup-In x (s ∷ xs) m = elim (Bool-cases (any (span_eq s) (dedup xs))) [
  | inl again ↦ inr (dedup-In x xs (rw again at m))
  | inr new ↦
      let m' : In x (s ∷ dedup xs) = rw new at m in
      elim m' [ inl e ↦ inl e | inr n ↦ inr (dedup-In x xs n) ]
]

In-dedup : (x : Span) (xs : List Span) → In x xs → In x (dedup xs)
unfolding dedup
In-dedup x [] m = m
In-dedup x (s ∷ xs) m = elim (Bool-cases (any (span_eq s) (dedup xs))) [
  | inl again ↦ rw again (elim m [
    | inl e ↦ subst (λ (y : Span). In y (dedup xs)) (sym e) (any-In s (dedup xs) again)
    | inr n ↦ In-dedup x xs n
  ])
  | inr new ↦ rw new (elim m [ inl e ↦ inl e | inr n ↦ inr (In-dedup x xs n) ])
]

module _ (size : ℕ) (candidates : List Span) (h : All (Within 0 size) candidates) where
  start-Going : Going 0 0 size [] (sort place_before (dedup candidates))
  start-Going = record {
    room = omega arith;
    within = tt;
    left = All-sort place_before (Within 0 size) (dedup candidates) (
        All-of_In (Within 0 size) (dedup candidates)
          (λ a m. All-In (Within 0 size) a candidates h (dedup-In a candidates m)));
    sorted = Sorted-sort place_before place_before-IsOrder (dedup candidates);
  }

  -- The spans come back in order, none overlapping another, and within the text.
  pub resolve-InOrder : InOrder 0 size (resolve candidates)
  unfolding resolve
  resolve-InOrder =
      resolve_from-InOrder 0 0 size [] (sort place_before (dedup candidates)) start-Going

  -- What comes back is among the candidates; and each candidate comes back, or one does that overlaps
  -- it and does not rank behind it in the order of priority, length, confidence, start, type, reason.
  pub resolve_settles :
      ((x : Span) → In x (resolve candidates) → In x candidates)
      × ((c : Span) → In c candidates → Settled (resolve candidates) c)
  unfolding resolve
  resolve_settles = (
    λ x m. dedup-In x candidates (
        sort-In place_before x (dedup candidates)
          (resolve_from_sound x 0 0 size [] (sort place_before (dedup candidates)) start-Going m)),
    λ c m.
        resolve_from_settles c 0 0 size [] (sort place_before (dedup candidates)) start-Going
          (In-sort place_before c (dedup candidates) (In-dedup c candidates m)),
  )
