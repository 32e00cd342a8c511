-- ===== src/Detector/Tails/Gaps.antt =====
-- A fragment of an address lies in a gap between the resolved spans.
use seif_pii.Base.{
  ℕ, zero, suc, ◌-◌, ◌≤◌, ◌<◌, ◌≡◌, refl, ap, ◌⊎◌, inl, inr, Bool, true, false, Bool-cases, List,
  [], ◌∷◌, map, keep, slice, take, ltb, leb, leb→le, arith, In,
}
use seif_pii.Span.{Span, InOrder}
use seif_pii.Detector.Resolve.{bisect_left}
use seif_pii.Boundaries.{bisect_right}

abbrev pub starts_of : List Span → List ℕ
starts_of spans = map (λ (s : Span). s.start) spans

abbrev pub reaches : Span → Span → Bool
reaches c s = ltb c.start s.end

abbrev pub Clear : Span → Span → Type 0
Clear s f = (f.end ≤ s.start) ⊎ (s.end ≤ f.start)

pub InOrder-start :
    (lo size : ℕ) (spans : List Span) (s : Span) → InOrder lo size spans → In s spans → lo ≤ s.start
InOrder-start lo size [] s o m = absurd m
InOrder-start lo size (x ∷ spans) s (o1, o2, o) (inl e) =
    let same = ap (λ (y : Span). y.start) e in omega (arith, same)
InOrder-start lo size (x ∷ spans) s (o1, o2, o) (inr m) =
    omega (arith, InOrder-start x.end size spans s o m)

module _ (c x : Span) (spans : List Span) where
  pub keep_hit : reaches c x ≡ true → keep (reaches c) (x ∷ spans) ≡ x ∷ keep (reaches c) spans
  keep_hit h = ground (arith, h)

  pub keep_miss : reaches c x ≡ false → keep (reaches c) (x ∷ spans) ≡ keep (reaches c) spans
  keep_miss h = ground (arith, h)

  left_early :
      ltb x.start c.end ≡ true
      → bisect_left (starts_of (x ∷ spans)) c.end ≡ suc (bisect_left (starts_of spans) c.end)
  unfolding bisect_left
  left_early h = ground (arith, h)

  right_low :
      leb x.start c.start ≡ true
      → bisect_right (starts_of (x ∷ spans)) c.start ≡ suc (bisect_right (starts_of spans) c.start)
  unfolding bisect_right
  right_low h = ground (arith, h)

In-keep_cons :
    (c s x : Span) (spans kept : List Span)
    → keep (reaches c) spans ≡ kept
    → In s kept
    → In s (keep (reaches c) (x ∷ spans))
In-keep_cons c s x spans kept e m = elim (Bool-cases (reaches c x)) [
  | inl hit ↦ rw (keep_hit c x spans hit, e) (inr m)
  | inr miss ↦ rw (keep_miss c x spans miss, e) m
]

-- A span is found by the second bisection, or clear of the candidate.
take-Clear :
    (c : Span) (lo size : ℕ) (spans : List Span)
    → InOrder lo size spans
    → (s : Span) → In s spans
    → In s (keep (reaches c) (take (bisect_left (starts_of spans) c.end) spans)) ⊎ Clear s c
take-Clear c lo size [] o s m = absurd m
take-Clear c lo size (x ∷ spans) (o1, o2, o) s m = elim (Bool-cases (ltb x.start c.end)) [
  | inl early ↦ rw (left_early c x spans early) (elim m [
    | inl e ↦ rw e (elim (Bool-cases (reaches c x)) [
      | inl hit ↦
          rw (keep_hit c x (take (bisect_left (starts_of spans) c.end) spans) hit) (inl (inl refl))
      | inr miss ↦ inr (inr (ground arith))
    ])
    | inr later ↦ elim (take-Clear c x.end size spans o s later) [
      | inl there ↦
          inl (In-keep_cons c s x (take (bisect_left (starts_of spans) c.end) spans) _ refl there)
      | inr clear ↦ inr clear
    ]
  ])
  | inr late ↦ inr (
      inl (elim m [
        | inl e ↦ let same = ap (λ (y : Span). y.start) e in ground (arith, same)
        | inr later ↦ let le = InOrder-start x.end size spans s o later in ground (arith, le)
      ]))
]

abbrev pub found : Span → List Span → List Span
found c spans =
    keep (reaches c) (
      slice spans (bisect_right (starts_of spans) c.start - 1)
        (bisect_left (starts_of spans) c.end))

pub found-front :
    (c : Span) (spans : List Span)
    → bisect_right (starts_of spans) c.start ≤ 1
    → found c spans ≡ keep (reaches c) (take (bisect_left (starts_of spans) c.end) spans)
found-front c spans h =
    let zero_first : bisect_right (starts_of spans) c.start - 1 ≡ 0 = omega arith in
    let same : bisect_left (starts_of spans) c.end - 0 ≡ bisect_left (starts_of spans) c.end =
      omega arith in
    rw (zero_first, same) refl

pub found-cons :
    (c x : Span) (spans : List Span) (k : ℕ)
    → x.start ≤ c.start
    → c.start < c.end
    → bisect_right (starts_of spans) c.start ≡ suc k
    → found c (x ∷ spans) ≡ found c spans
found-cons c x spans k h l e =
    let early : ltb x.start c.end ≡ true = ground arith in
    let low : leb x.start c.start ≡ true = ground arith in
    let n : suc (suc k) - 1 ≡ suc k = omega arith in
    let m : suc k - 1 ≡ k = omega arith in
    let size : suc (bisect_left (starts_of spans) c.end) - suc k
        ≡ bisect_left (starts_of spans) c.end - k =
      omega arith in
    rw (left_early c x spans early, right_low c x spans low, e, n, m, size) refl

-- A span that starts behind the candidate is not the first of those in order.
pub next_start :
    (c : Span) (lo size k : ℕ) (spans : List Span)
    → InOrder lo size spans
    → bisect_right (starts_of spans) c.start ≡ suc k
    → lo ≤ c.start
unfolding bisect_right
next_start c lo size k [] o e = absurd (omega (arith, e))
next_start c lo size k (x ∷ spans) (o1, o2, o) e = ground (arith, e)

pub ℕ-cases : (n : ℕ) → (n ≡ 0) ⊎ ((k : ℕ) × (n ≡ suc k))
ℕ-cases zero = inl refl
ℕ-cases (suc k) = inr (k, refl)

pub few :
    (c x : Span) (spans : List Span)
    → bisect_right (starts_of spans) c.start ≡ 0
    → bisect_right (starts_of (x ∷ spans)) c.start ≤ 1
unfolding bisect_right
few c x spans e = ground (arith, e)

pub found-Clear :
    (c : Span) (lo size : ℕ) (spans : List Span)
    → c.start < c.end
    → InOrder lo size spans
    → (s : Span) → In s spans
    → In s (found c spans) ⊎ Clear s c
found-Clear c lo size [] l o s m = absurd m
found-Clear c lo size (x ∷ spans) l (o1, o2, o) s m =
    elim (ℕ-cases (bisect_right (starts_of spans) c.start)) [
      | inl none_more ↦
          rw (found-front c (x ∷ spans) (few c x spans none_more))
            (take-Clear c lo size (x ∷ spans) (o1, o2, o) s m)
      | inr (k, e) ↦ elim (Bool-cases (leb x.start c.start)) [
        | inr high ↦ absurd (let le = next_start c x.end size k spans o e in ground (arith, le))
        | inl low ↦ rw (found-cons c x spans k (leb→le x.start c.start low) l e) (elim m [
          | inl same ↦ inr (inr (rw same (next_start c x.end size k spans o e)))
          | inr later ↦ found-Clear c x.end size spans l o s later
        ])
      ]
    ]
