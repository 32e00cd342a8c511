-- ===== src/Detector/Tails/Fragments.antt =====
-- The fragments of a candidate are clear of every resolved span.
use seif_pii.Base.{
  ℕ, zero, suc, ◌+◌, ◌-◌, ◌≤◌, ◌<◌, ◌≡◌, refl, sym, ◌⊎◌, inl, inr, Bool, true, false, not, ◌||◌,
  Bool-cases, Option, none, some, List, [], ◌∷◌, max, keep, any, null, slice, length, length-drop,
  length-take-le, take, drop, ltb, leb, leb→le, ltb→lt, ◌==◌, str_eq, arith, All, All-append,
  All-impl, All-keep, All-take, All-drop, In,
}
use seif_pii.Text.{Text, Unicode}
use seif_pii.Span.{Span, InOrder, InOrder-le, Within}
use seif_pii.Detector.Resolve.{bisect_left}
use seif_pii.Boundaries.{bisect_right}
use seif_pii.Detector.Tails.{
  Patterns, is_foreign, margin_front, length_without_margin, address_fragment,
  address_tail_overlaps, with_fragment, fragments_from, address_tail_fragments, additions,
}
use seif_pii.Detector.Tails.Gaps.{
  starts_of, reaches, Clear, InOrder-start, ℕ-cases, few, found, found-front, found-cons,
  next_start, found-Clear,
}

module _ (u : Unicode) (p : Patterns) (text : Text) where
  margin_front-le : (t : Text) → margin_front u t ≤ length t
  unfolding margin_front
  margin_front-le [] = omega arith
  margin_front-le (c ∷ t) = ground (arith, margin_front-le t)

  length_without_margin-le : (t : Text) → length_without_margin u t ≤ length t
  unfolding length_without_margin
  length_without_margin-le [] = omega arith
  length_without_margin-le (c ∷ t) = ground (arith, length_without_margin-le t)

  address_fragment-bounds :
      (c f : Span) (start end : ℕ)
      → address_fragment u p text c start end ≡ some f
      → (start ≤ f.start) × (f.start < f.end) × (f.end ≤ end)
  unfolding address_fragment
  address_fragment-bounds c f start end e =
      let front : ℕ = margin_front u (slice text start end) in
      let size : ℕ = length_without_margin u (drop front (slice text start end)) in
      let n1 = length-take-le (end - start) (drop start text) in
      let n2 = margin_front-le (slice text start end) in
      let n3 = length_without_margin-le (drop front (slice text start end)) in
      let n4 = length-drop front (slice text start end) in
      elim (Bool-cases (
        size == 0
        || not (
            p.has_marker (take size (drop front (slice text start end)))
            || p.is_number (take size (drop front (slice text start end)))))) [
              | inl dropped ↦ absurd (ground (arith, dropped))
              | inr kept ↦
                  let e1 : start + front ≡ f.start = ground (arith, kept) in
                  let e2 : start + front + size ≡ f.end = ground (arith, kept) in
                  let more : 0 < size = ground (arith, kept) in
                  (
                    omega (arith, e1),
                    omega (arith, e1, e2, more),
                    omega (arith, e2, n1, n2, n3, n4, more),
                  )
            ]

  -- A fragment behind the cursor, within the candidate, and clear of the spans.
  record Gap (c : Span) (cursor : ℕ) (spans : List Span) (f : Span) : Type 0 where
    behind : cursor ≤ f.start
    proper : f.start < f.end
    within : f.end ≤ c.end
    clear : (s : Span) → In s spans → Clear s f

  Gap-cons :
      (c s f : Span) (cursor lo : ℕ) (spans : List Span)
      → cursor ≤ lo
      → s.end ≤ lo
      → Gap c lo spans f
      → Gap c cursor (s ∷ spans) f
  Gap-cons c s f cursor lo spans h k g = record {
    behind = omega (arith, g.behind);
    proper = g.proper;
    within = g.within;
    clear = λ x m. elim m [
      | inl e ↦ inr (rw e (omega (arith, g.behind)))
      | inr later ↦ g.clear x later
    ];
  }

  with_fragment-All :
      (P : Span → Type 0) (o : Option Span) (spans : List Span)
      → ((f : Span) → o ≡ some f → P f)
      → All P spans
      → All P (with_fragment o spans)
  with_fragment-All P none spans h k = k
  with_fragment-All P (some f) spans h k = (h f refl, k)

  fragments_from-Gap :
      (c : Span) (cursor lo size : ℕ) (spans : List Span)
      → InOrder lo size spans
      → All (λ (s : Span). s.start < c.end) spans
      → All (Gap c cursor spans) (fragments_from u p text c cursor spans)
  unfolding fragments_from
  fragments_from-Gap c cursor lo size [] o h = elim (Bool-cases (ltb cursor c.end)) [
    | inl more ↦ rw more (
        with_fragment-All (Gap c cursor []) (address_fragment u p text c cursor c.end) []
          (λ f e.
            let (a, b, d) = address_fragment-bounds c f cursor c.end e in
            record { behind = a; proper = b; within = d; clear = λ s m. absurd m })
          tt)
    | inr done ↦ rw done tt
  ]
  fragments_from-Gap c cursor lo size (s ∷ spans) (o1, o2, o) (h, hs) =
      let rest =
        All-impl (Gap c (max cursor s.end) spans) (Gap c cursor (s ∷ spans))
          (fragments_from u p text c (max cursor s.end) spans)
          (λ f g. Gap-cons c s f cursor (max cursor s.end) spans (omega arith) (omega arith) g)
          (fragments_from-Gap c (max cursor s.end) s.end size spans o hs) in
      elim (Bool-cases (ltb cursor s.start)) [
        | inl more ↦ rw more (
            with_fragment-All (Gap c cursor (s ∷ spans))
              (address_fragment u p text c cursor s.start) _
              (λ f e.
                let (a, b, d) = address_fragment-bounds c f cursor s.start e in
                record {
                  behind = a;
                  proper = b;
                  within = omega arith;
                  clear = λ x m. elim m [
                    | inl same ↦ inl (rw same d)
                    | inr later ↦ inl (omega (arith, InOrder-start s.end size spans x o later))
                  ];
                })
              rest)
        | inr done ↦ rw done rest
      ]

InOrder-keep :
    (q : Span → Bool) (lo lo' size : ℕ) (xs : List Span)
    → lo' ≤ lo
    → InOrder lo size xs
    → InOrder lo' size (keep q xs)
InOrder-keep q lo lo' size [] h o = omega arith
InOrder-keep q lo lo' size (x ∷ xs) h (o1, o2, o) =
    elim (q x) as (λ b. InOrder lo' size (elim b [ true ↦ x ∷ keep q xs | false ↦ keep q xs ])) [
      | true ↦ (omega arith, o2, InOrder-keep q x.end x.end size xs (omega arith) o)
      | false ↦ InOrder-keep q x.end lo' size xs (omega arith) o
    ]

InOrder-take : (n lo size : ℕ) (xs : List Span) → InOrder lo size xs → InOrder lo size (take n xs)
InOrder-take zero lo size xs o = InOrder-le lo size xs o
InOrder-take (suc n) lo size [] o = o
InOrder-take (suc n) lo size (x ∷ xs) (o1, o2, o) = (o1, o2, InOrder-take n x.end size xs o)

InOrder-weaken :
    (lo lo' size : ℕ) (xs : List Span) → lo' ≤ lo → InOrder lo size xs → InOrder lo' size xs
InOrder-weaken lo lo' size [] h o = omega arith
InOrder-weaken lo lo' size (x ∷ xs) h (o1, o2, o) = (omega arith, o2, o)

InOrder-drop : (n lo size : ℕ) (xs : List Span) → InOrder lo size xs → InOrder lo size (drop n xs)
InOrder-drop zero lo size xs o = o
InOrder-drop (suc n) lo size [] o = o
InOrder-drop (suc n) lo size (x ∷ xs) (o1, o2, o) =
    InOrder-weaken x.end lo size (drop n xs) (omega arith) (InOrder-drop n x.end size xs o)

found-InOrder :
    (c : Span) (lo size : ℕ) (spans : List Span)
    → InOrder lo size spans
    → InOrder lo size (found c spans)
found-InOrder c lo size spans o = InOrder-keep (reaches c) lo lo size _ (omega arith) (
    InOrder-take _ lo size _
      (InOrder-drop (bisect_right (starts_of spans) c.start - 1) lo size spans o))

take-early :
    (c : Span) (spans : List Span)
    → All (λ (s : Span). s.start < c.end) (take (bisect_left (starts_of spans) c.end) spans)
unfolding bisect_left
take-early c [] = tt
take-early c (x ∷ spans) =
    elim (ltb x.start c.end)
        as (λ b.
          (b ≡ ltb x.start c.end)
          → All (λ (s : Span). s.start < c.end)
              (take (elim b [ true ↦ suc (bisect_left (starts_of spans) c.end) | false ↦ 0 ])
                (x ∷ spans))) [
                  | true ↦ λ e. (ltb→lt x.start c.end (sym e), take-early c spans)
                  | false ↦ λ e. tt
                ]
      refl

found-early :
    (c : Span) (lo size : ℕ) (spans : List Span)
    → c.start < c.end
    → InOrder lo size spans
    → All (λ (s : Span). s.start < c.end) (found c spans)
found-early c lo size [] l o =
    All-keep (λ (s : Span). s.start < c.end) (reaches c) _
      (All-take (λ (s : Span). s.start < c.end) _ _
        (All-drop (λ (s : Span). s.start < c.end) _ [] tt))
found-early c lo size (x ∷ spans) l (o1, o2, o) =
    elim (ℕ-cases (bisect_right (starts_of spans) c.start)) [
      | inl none_more ↦
          rw (found-front c (x ∷ spans) (few c x spans none_more))
            (All-keep (λ (s : Span). s.start < c.end) (reaches c) _ (take-early c (x ∷ spans)))
      | inr (k, e) ↦ elim (Bool-cases (leb x.start c.start)) [
        | inr high ↦ absurd (let le = next_start c x.end size k spans o e in ground (arith, le))
        | inl low ↦
            rw (found-cons c x spans k (leb→le x.start c.start low) l e)
              (found-early c x.end size spans l o)
      ]
    ]

module _ (u : Unicode) (p : Patterns) (text : Text) (size : ℕ) (resolved : List Span)
    (o : InOrder 0 size resolved) where
  -- What is added lies within the text and is clear of all that is resolved.
  pub record IsAdded (f : Span) : Type 0 where
    pub within : Within 0 size f
    pub clear : (s : Span) → In s resolved → Clear s f

  Gap-IsAdded :
      (c f : Span) → Within 0 size c → Gap u p text c c.start (found c resolved) f → IsAdded f
  Gap-IsAdded c f (w1, w2, w3) g = record {
    within = (omega arith, g.proper, omega (arith, g.within));
    clear = λ s m. elim (found-Clear c 0 size resolved w2 o s m) [
      | inl there ↦ g.clear s there
      | inr (inl before) ↦ inl (omega (arith, g.within))
      | inr (inr after) ↦ inr (omega (arith, g.behind))
    ];
  }

  overlaps-either :
      (c : Span)
      → (address_tail_overlaps c resolved ≡ [])
        ⊎ (address_tail_overlaps c resolved ≡ found c resolved)
  unfolding address_tail_overlaps
  overlaps-either c = elim (Bool-cases (not (str_eq c.type "LOCATION"))) [
    | inl other ↦ inl (rw other refl)
    | inr place ↦ elim (Bool-cases (null (found c resolved) || any is_foreign (found c resolved))) [
      | inl foreign ↦ inl (rw (place, foreign) refl)
      | inr own ↦ inr (rw (place, own) refl)
    ]
  ]

  pub additions-IsAdded :
      (candidates : List Span)
      → All (Within 0 size) candidates
      → All IsAdded (additions u p text resolved candidates)
  unfolding additions address_tail_fragments
  additions-IsAdded [] h = tt
  additions-IsAdded (c ∷ candidates) (w, h) =
      let rest = additions-IsAdded candidates h in
      elim (overlaps-either c) [
        | inl none_found ↦ rw none_found rest
        | inr all_found ↦ rw all_found (elim (Bool-cases (null (found c resolved))) [
          | inl bare ↦ rw bare rest
          | inr some_found ↦ rw some_found (
              All-append IsAdded _ _
                (All-impl (Gap u p text c c.start (found c resolved)) IsAdded _
                  (λ f g. Gap-IsAdded c f w g)
                  (fragments_from-Gap u p text c c.start 0 size (found c resolved)
                    (found-InOrder c 0 size resolved o) (found-early c 0 size resolved w.1 o)))
                rest)
        ])
      ]
