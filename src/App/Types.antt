-- ===== src/App/Types.antt =====
-- `sorted` of a set of types: no type is there twice.
use seif_pii.Base.{
  String, ◌≡◌, ◌≢◌, sym, subst, ap, ◌∙◌, inl, inr, List, [], ◌∷◌, arith, All, All-impl, Pairs,
}
use seif_pii.Text.{codes}
use seif_pii.Span.{Span}
use seif_pii.Detector.Order.{less, same, more, compare_text}
use seif_pii.Detector.Order.Comparison.{flip, Sign-cases, same_left, compare_text-IsComparison}
use seif_pii.App.Policies.{add_type, type_set}

abbrev Before : String → String → Type 0
Before x y = compare_text (codes x) (codes y) ≡ less

Before-trans : (x y z : String) → Before x y → Before y z → Before x z
Before-trans x y z h k =
    let low : compare_text (codes x) (codes y) ≢ more = λ m. ground arith in
    let high : compare_text (codes y) (codes z) ≢ more = λ m. ground arith in
    let whole = compare_text-IsComparison.trans (codes x) (codes y) (codes z) low high in
    elim (Sign-cases (compare_text (codes x) (codes z))) [
      | inl lt ↦ lt
      | inr (inl eq) ↦
          let e = same_left compare_text-IsComparison (codes x) (codes y) (codes z) low high eq in
          absurd (ground arith)
      | inr (inr gt) ↦ absurd (whole gt)
    ]

Before-differs : (x y : String) → Before x y → x ≢ y
Before-differs x y h e =
    let self : compare_text (codes x) (codes x) ≡ less =
      subst (λ z. compare_text (codes x) (codes z) ≡ less) (sym e) h in
    let turned = compare_text-IsComparison.flipped (codes x) (codes x) in absurd (ground arith)

module _ (t x : String) (xs : List String) where
  add_type-less : Before t x → add_type t (x ∷ xs) ≡ t ∷ x ∷ xs
  unfolding add_type
  add_type-less h = ground (arith, h)

  add_type-same : compare_text (codes t) (codes x) ≡ same → add_type t (x ∷ xs) ≡ x ∷ xs
  unfolding add_type
  add_type-same h = ground (arith, h)

  add_type-more : compare_text (codes t) (codes x) ≡ more → add_type t (x ∷ xs) ≡ x ∷ add_type t xs
  unfolding add_type
  add_type-more h = ground (arith, h)

All-add_type :
    (P : String → Type 0) (t : String) (xs : List String) → P t → All P xs → All P (add_type t xs)
unfolding add_type
All-add_type P t [] h hs = (h, tt)
All-add_type P t (x ∷ xs) h (k, ks) = elim (Sign-cases (compare_text (codes t) (codes x))) [
  | inl lt ↦ rw (add_type-less t x xs lt) (h, (k, ks))
  | inr (inl eq) ↦ rw (add_type-same t x xs eq) (k, ks)
  | inr (inr gt) ↦ rw (add_type-more t x xs gt) (k, All-add_type P t xs h ks)
]

add_type-Pairs : (t : String) (xs : List String) → Pairs Before xs → Pairs Before (add_type t xs)
unfolding add_type
add_type-Pairs t [] h = (tt, tt)
add_type-Pairs t (x ∷ xs) (h, hs) = elim (Sign-cases (compare_text (codes t) (codes x))) [
  | inl lt ↦
      rw (add_type-less t x xs lt)
        ((lt, All-impl (Before x) (Before t) xs (λ y k. Before-trans t x y lt k) h), (h, hs))
  | inr (inl eq) ↦ rw (add_type-same t x xs eq) (h, hs)
  | inr (inr gt) ↦
      let turned = compare_text-IsComparison.flipped (codes t) (codes x) in
      let lt : Before x t = turned ∙ ap flip gt in
      rw (add_type-more t x xs gt) (All-add_type (Before x) t xs lt h, add_type-Pairs t xs hs)
]

type_set-Pairs : (spans : List Span) → Pairs Before (type_set spans)
unfolding type_set
type_set-Pairs [] = tt
type_set-Pairs (s ∷ spans) = add_type-Pairs s.type (type_set spans) (type_set-Pairs spans)

Pairs-impl : (xs : List String) → Pairs Before xs → Pairs (λ x y. x ≢ y) xs
Pairs-impl [] h = tt
Pairs-impl (x ∷ xs) (h, hs) =
    (All-impl (Before x) (λ y. x ≢ y) xs (λ y. Before-differs x y) h, Pairs-impl xs hs)

pub type_set_differ : (spans : List Span) → Pairs (λ x y. x ≢ y) (type_set spans)
type_set_differ spans = Pairs-impl (type_set spans) (type_set-Pairs spans)
