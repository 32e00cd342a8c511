-- ===== src/Detector/Tails/Kept.antt =====
-- `_preserve_address_tails` keeps every resolved span, and adds fragments of addresses beside them.
use seif_pii.Base.{
  ℕ, ◌≡◌, sym, ap, subst, ◌∙◌, ◌⊎◌, inl, inr, Bool-cases, List, [], ◌∷◌, ◌++◌, null, arith, All,
  All-append, All-impl, All-In, In, In-append, In-append_left,
}
use seif_pii.Text.{Text, Unicode}
use seif_pii.Span.{Span, InOrder, InOrder-le, Within, Overlap}
use seif_pii.Detector.Resolve.{resolve}
use seif_pii.Detector.Resolve.Result.{resolve-InOrder, resolve_settles}
use seif_pii.Detector.Tails.{Patterns, additions, preserve_address_tails}
use seif_pii.Detector.Tails.Gaps.{Clear, InOrder-start}
use seif_pii.Detector.Tails.Fragments.{IsAdded, additions-IsAdded}

InOrder-Within : (lo size : ℕ) (xs : List Span) → InOrder lo size xs → All (Within lo size) xs
InOrder-Within lo size [] o = tt
InOrder-Within lo size (x ∷ xs) (o1, o2, o) = (
  (o1, o2, InOrder-le x.end size xs o),
  All-impl (Within x.end size) (Within lo size) xs (λ s (a, b, c). (omega arith, b, c))
      (InOrder-Within x.end size xs o),
)

-- Of spans in order, no two overlap.
InOrder-Overlap :
    (lo size : ℕ) (xs : List Span) (a b : Span)
    → InOrder lo size xs
    → In a xs
    → In b xs
    → Overlap a b
    → a ≡ b
InOrder-Overlap lo size [] a b o m n v = absurd m
InOrder-Overlap lo size (x ∷ xs) a b (o1, o2, o) (inl e) (inl f) v = e ∙ sym f
InOrder-Overlap lo size (x ∷ xs) a b (o1, o2, o) (inl e) (inr n) v =
    let end = ap (λ (s : Span). s.end) e in
    absurd (let le = InOrder-start x.end size xs b o n in omega (arith, v.ends, le, end))
InOrder-Overlap lo size (x ∷ xs) a b (o1, o2, o) (inr m) (inl f) v =
    let end = ap (λ (s : Span). s.end) f in
    absurd (let le = InOrder-start x.end size xs a o m in omega (arith, v.starts, le, end))
InOrder-Overlap lo size (x ∷ xs) a b (o1, o2, o) (inr m) (inr n) v =
    InOrder-Overlap x.end size xs a b o m n v

module _ (u : Unicode) (p : Patterns) (text : Text) (size : ℕ) (resolved candidates : List Span)
    (o : InOrder 0 size resolved) (h : All (Within 0 size) candidates) where
  all-Within : All (Within 0 size) (resolved ++ additions u p text resolved candidates)
  all-Within = All-append (Within 0 size) resolved _ (InOrder-Within 0 size resolved o) (
      All-impl (IsAdded u p text size resolved o) (Within 0 size) _ (λ f a. a.within)
        (additions-IsAdded u p text size resolved o candidates h))

  resolved_stays :
      (s : Span)
      → In s resolved
      → In s (resolve (resolved ++ additions u p text resolved candidates))
  resolved_stays s m =
      let (among, settled) =
        resolve_settles size (resolved ++ additions u p text resolved candidates) all-Within in
      let k = settled s (In-append_left s resolved (additions u p text resolved candidates) m) in
      elim k.reason [
        | inl same ↦
            subst
              (λ (x : Span). In x (resolve (resolved ++ additions u p text resolved candidates)))
              same k.kept
        | inr (overlap, rank) ↦ elim (In-append k.winner resolved _ (among k.winner k.kept)) [
          | inl there ↦
              let same = InOrder-Overlap 0 size resolved k.winner s o there m overlap in
              subst
                (λ (x : Span). In x (resolve (resolved ++ additions u p text resolved candidates)))
                same k.kept
          | inr added ↦
              let a =
                All-In (IsAdded u p text size resolved o) k.winner _
                  (additions-IsAdded u p text size resolved o candidates h) added in
              elim (a.clear s m) [
                | inl before ↦ absurd (omega (arith, overlap.ends, before))
                | inr behind ↦ absurd (omega (arith, overlap.starts, behind))
              ]
        ]
      ]

  -- The resolved spans are in order, and the candidates lie within the text. Then so are the spans that
  -- `_preserve_address_tails` returns; each resolved span is still among them; and each other one lies within
  -- the text and overlaps no resolved span.
  pub preserve_address_tails-keeps :
      InOrder 0 size (preserve_address_tails u p text resolved candidates)
      × ((s : Span) → In s resolved → In s (preserve_address_tails u p text resolved candidates))
      × ((f : Span)
          → In f (preserve_address_tails u p text resolved candidates)
          → In f resolved ⊎ (Within 0 size f × ((s : Span) → In s resolved → Clear s f)))
  unfolding preserve_address_tails
  preserve_address_tails-keeps = elim (Bool-cases (null (additions u p text resolved candidates))) [
    | inl none_added ↦ rw none_added (o, λ s m. m, λ f m. inl m)
    | inr more ↦ rw more (
      resolve-InOrder size (resolved ++ additions u p text resolved candidates) all-Within,
      resolved_stays,
      λ f m.
          elim (In-append f resolved _ (
            (resolve_settles size (resolved ++ additions u p text resolved candidates) all-Within).0
              f m)) [
                | inl there ↦ inl there
                | inr added ↦
                    let a =
                      All-In (IsAdded u p text size resolved o) f _
                        (additions-IsAdded u p text size resolved o candidates h) added in
                    inr (a.within, a.clear)
              ],
    )
  ]
