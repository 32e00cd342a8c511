-- ===== src/Transform/RoundTrip.antt =====
-- `restore_exact` undoes `mask`, in every mode.
use seif_pii.Base.{
  ℕ, ◌+◌, ◌≤◌, ◌<◌, ◌≡◌, ap, ◌∙◌, inl, inr, some, List, [], ◌∷◌, ◌++◌, append_assoc, append-nil,
  arith, length, drop, slice, Option-cases, length-append, length-slice, slice-append-drop,
  drop-append_length,
}
use seif_pii.Base.Result.{ok}
use seif_pii.Text.{Text, Unicode, join}
use seif_pii.Span.{Span, span_text, InOrder, InOrder-le}
use seif_pii.Transform.Masking.{Mode, Replacement, Memo, mask_from, mask_text}
use seif_pii.Transform.Totality.{Usable, mask_from-total}
use seif_pii.Transform.Restoring.{restore_from, restore_exact}
use seif_pii.Transform.Rounds.{Filled, replace-nonempty, Round, mask_from-Round, restore_from-item}

module _ (u : Unicode) where
  -- The round of `mask` for one span, undone by the round of `restore_exact` for its item.
  restore-Round :
      (mode : Mode) (text : Text) (offset : ℕ) (P : Text) (memo : Memo) (span : Span)
      (spans : List Span) (parts : List Text) (items : List Replacement)
      (k : Round u mode text offset (length P) memo span spans parts items) (outs : List Text)
      → offset ≤ span.start
      → span.start < span.end
      → 0 < length k.r
      → length (P ++ (slice text offset span.start ++ k.r))
        ≡ length P + length (slice text offset span.start) + length k.r
      → restore_from
          ((P ++ (slice text offset span.start ++ k.r)) ++ join k.parts')
          (length (P ++ (slice text offset span.start ++ k.r)))
          k.items'
        ≡ ok outs
      → join outs ≡ drop span.end text
      → (restore_from (P ++ join parts) (length P) items
          ≡ ok (slice text offset span.start ∷ span_text text span ∷ outs))
        × (join (slice text offset span.start ∷ span_text text span ∷ outs) ≡ drop offset text)
  restore-Round mode text offset P memo span spans parts items k outs h1 h2 full size done joined =
      let before = slice text offset span.start in
      let regroup : (P ++ (before ++ k.r)) ++ join k.parts'
          ≡ P ++ (before ++ (k.r ++ join k.parts')) =
        append_assoc P (before ++ k.r) (join k.parts')
        ∙ ap (λ t. P ++ t) (append_assoc before k.r (join k.parts')) in
      let done' = rw (regroup, size) at done in
      (
        rw (k.parts_eq, k.items_eq)
            (restore_from-item P before k.r (join k.parts') (span_text text span) k.items' outs full
              done'),
        rw joined (
            rw (slice-append-drop text span.start span.end (omega arith))
              (slice-append-drop text offset span.start h1)),
      )

  restore-mask_from :
      (mode : Mode) (text : Text) (spans : List Span) (P : Text) (offset : ℕ) (memo : Memo)
      (parts : List Text) (items : List Replacement)
      → InOrder offset (length text) spans
      → Filled memo
      → mask_from u mode text offset (length P) memo spans ≡ some (parts, items)
      → (outs : List Text) × (restore_from (P ++ join parts) (length P) items ≡ ok outs)
        × (join outs ≡ drop offset text)
  unfolding mask_from restore_from
  restore-mask_from mode text [] P offset memo parts items o f e =
      let e1 : parts ≡ drop offset text ∷ [] = ground arith in
      let e2 : items ≡ [] = ground arith in
      (
        drop (length P) (P ++ join parts) ∷ [],
        rw e2,
        append-nil (drop (length P) (P ++ join parts))
            ∙ drop-append_length P (join parts)
            ∙ (rw e1 (append-nil (drop offset text))),
      )
  restore-mask_from mode text (span ∷ spans) P offset memo parts items (o1, o2, o3) f e =
      let k = mask_from-Round u mode text offset (length P) memo span spans parts items e in
      let before = slice text offset span.start in
      let fill =
        replace-nonempty u mode text memo span.type (span_text text span) k.r k.memo'
          (omega (
            arith,
            length-slice text span.start span.end,
            InOrder-le span.end (length text) spans o3,
          ))
          f k.replaced in
      let size : length (P ++ (before ++ k.r)) ≡ length P + length before + length k.r =
        omega (arith, length-append P (before ++ k.r), length-append before k.r) in
      let (outs, done, joined) =
        restore-mask_from mode text spans (P ++ (before ++ k.r)) span.end k.memo' k.parts' k.items'
          o3 fill.1 (rw size k.rest) in
      let (found, whole) =
        restore-Round mode text offset P memo span spans parts items k outs o1 o2 fill.0 size done
          joined in
      (before ∷ span_text text span ∷ outs, found, whole)

  -- Whatever `mask` returns for spans in order, `restore_exact` takes back.
  pub restore_exact-masked :
      (mode : Mode) (text : Text) (draws : List Text) (spans : List Span) (masked : Text)
      (items : List Replacement)
      → InOrder 0 (length text) spans
      → mask_text u mode text draws spans ≡ some (masked, items)
      → restore_exact masked items ≡ ok text
  unfolding mask_text restore_exact
  restore_exact-masked mode text draws spans masked items o h =
      elim (Option-cases (mask_from u mode text 0 0 (record { seen = []; draws = draws }) spans)) [
        | inl lost ↦ absurd (ground arith)
        | inr ((parts, items'), made) ↦
            let (outs, done, whole) =
              restore-mask_from mode text spans [] 0 (record { seen = []; draws = draws }) parts
                items' o tt made in
            let result : restore_exact (join parts) items' ≡ ok text = rw (done, whole) in
            ground (arith, result)
      ]

  -- Spans in order, and a draw for each of them whose tokens do not occur in the text: `mask` returns,
  -- in each mode, and `restore_exact` gives the text back from what it returned.
  pub restore_exact-mask_text :
      (mode : Mode) (text : Text) (draws : List Text) (spans : List Span)
      → InOrder 0 (length text) spans
      → Usable text draws
      → length spans ≤ length draws
      → (masked : Text) × (items : List Replacement) × (mask_text u mode text draws spans
          ≡ some (masked, items))
        × (restore_exact masked items ≡ ok text)
  unfolding mask_text restore_exact
  restore_exact-mask_text mode text draws spans o h enough =
      let (parts, items, made) =
        mask_from-total u mode text spans 0 0 (record { seen = []; draws = draws }) h enough in
      let (outs, done, whole) =
        restore-mask_from mode text spans [] 0 (record { seen = []; draws = draws }) parts items o
          tt made in
      (join parts, items, rw made, rw (done, whole))
