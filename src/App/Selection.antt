-- ===== src/App/Selection.antt =====
-- `_select_spans` against the policy.
use seif_pii.Base.{
  ◌≤◌, String, ◌≢◌, Pairs, ◌≡◌, refl, sym, subst, ◌⊎◌, inl, inr, Bool, true, not, ◌&&◌, ◌||◌, List,
  [], ◌∷◌, arith, length, null, keep, all, In, ltb, str_eq, eq_iff, &&-true, Bool-cases,
}
use seif_pii.Span.{Span}
use seif_pii.App.Types.{type_set_differ}
use seif_pii.App.Policies.{Policy, member, add_type, type_set, select_spans}

-- A member of the set is the type of a span.
member-add_type :
    (t x : String) (xs : List String)
    → member t (add_type x xs) ≡ true
    → (str_eq t x ≡ true) ⊎ (member t xs ≡ true)
unfolding add_type
member-add_type t x [] h = ground arith
member-add_type t x (y ∷ xs) h = ground (arith, member-add_type t x xs)

member-type_set :
    (t : String) (spans : List Span)
    → member t (type_set spans) ≡ true
    → (s : Span) × In s spans × (s.type ≡ t)
unfolding type_set
member-type_set t [] h = absurd (ground arith)
member-type_set t (s ∷ spans) h = elim (member-add_type t s.type (type_set spans) h) [
  | inl here ↦ (s, inl refl, sym ((eq_iff t s.type).0 here))
  | inr there ↦ let (s', place, same) = member-type_set t spans there in (s', inr place, same)
]

In-member : (t : String) (xs : List String) → In t xs → member t xs ≡ true
In-member t [] h = absurd h
In-member t (x ∷ xs) (inl here) = let e : str_eq t x ≡ true = (eq_iff t x).1 here in rw e refl
In-member t (x ∷ xs) (inr there) = elim (Bool-cases (str_eq t x)) [
  | inl same ↦ rw same refl
  | inr other ↦ rw other (In-member t xs there)
]

all-member :
    (p : String → Bool) (t : String) (xs : List String)
    → all p xs ≡ true
    → member t xs ≡ true
    → p t ≡ true
all-member p t [] h k = absurd (ground arith)
all-member p t (x ∷ xs) h k = elim (Bool-cases (str_eq t x)) [
  | inl same ↦
      let e : x ≡ t = sym ((eq_iff t x).0 same) in subst (λ y. p y ≡ true) e ((&&-true _ _ h).0)
  | inr other ↦ all-member p t xs (&&-true _ _ h).1 (ground arith)
]

In-keep :
    (p : Span → Bool) (s : Span) (spans : List Span)
    → In s (keep p spans)
    → In s spans × (p s ≡ true)
In-keep p s [] h = absurd h
In-keep p s (x ∷ spans) h = elim (Bool-cases (p x)) [
  | inl kept ↦
      let e : keep p (x ∷ spans) ≡ x ∷ keep p spans = ground arith in
      elim (subst (λ z. In s z) e h) [
        | inl same ↦ (inl same, rw same kept)
        | inr there ↦ let (place, good) = In-keep p s spans there in (inr place, good)
      ]
  | inr dropped ↦
      let e : keep p (x ∷ spans) ≡ keep p spans = ground arith in
      let (place, good) = In-keep p s spans (subst (λ z. In s z) e h) in (inr place, good)
]

-- What `select_spans` chooses from, and when.
module _ (spans : List Span) (policy : Policy) where
  abbrev allowed : List Span
  allowed = keep (λ s. null policy.types || member s.type policy.types) spans

  abbrev enough : Bool
  enough =
      not (ltb (length (type_set allowed)) policy.min_types)
      && all (λ t. member t (type_set allowed)) policy.required_types

  In-select_spans :
      (s : Span)
      → In s (select_spans spans policy).0
      → (policy.masking_enabled ≡ true) × (enough ≡ true)
  unfolding select_spans
  In-select_spans s h = elim (Bool-cases policy.masking_enabled) [
    | inr off ↦ absurd (rw off at h)
    | inl on ↦ elim (Bool-cases enough) [
      | inr few ↦ absurd (rw (on, few) at h)
      | inl many ↦ (on, many)
    ]
  ]

  select_spans-allowed :
      policy.masking_enabled ≡ true → enough ≡ true → (select_spans spans policy).0 ≡ allowed
  unfolding select_spans
  select_spans-allowed on many = rw (on, many)

  -- A span that `_select_spans` selects was found, and its type is one of the policy's, which names
  -- all by naming none. The policy then masks; the types found are at least `min_types`, no two of them are
  -- equal, and each is the type of a selected span; and each required type is the type of a selected span.
  pub select_spans-policy :
      (s : Span)
      → In s (select_spans spans policy).0
      → In s spans
        × ((null policy.types || member s.type policy.types) ≡ true)
        × (policy.masking_enabled ≡ true)
        × (policy.min_types ≤ length (select_spans spans policy).1)
        × Pairs (λ x y. x ≢ y) (select_spans spans policy).1
        × ((t : String)
            → In t (select_spans spans policy).1
            → (s' : Span) × In s' (select_spans spans policy).0 × (s'.type ≡ t))
        × ((t : String)
            → member t policy.required_types ≡ true
            → (s' : Span) × In s' (select_spans spans policy).0 × (s'.type ≡ t))
  unfolding select_spans
  select_spans-policy s h =
      let (on, many) = In-select_spans s h in
      let same = select_spans-allowed on many in
      let (place, good) =
        In-keep (λ x. null policy.types || member x.type policy.types) s spans (rw same at h) in
      let (count, required) =
        &&-true (not (ltb (length (type_set allowed)) policy.min_types))
          (all (λ x. member x (type_set allowed)) policy.required_types) many in
      (
        place,
        good,
        on,
        ground arith,
        type_set_differ allowed,
        λ t k. rw same (member-type_set t allowed (In-member t (type_set allowed) k)),
        λ t k. rw same (
            member-type_set t allowed
              (all-member (λ x. member x (type_set allowed)) t policy.required_types required k)),
      )
