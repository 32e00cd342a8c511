-- ===== src/Transform/Rounds.antt =====
-- One round of `mask`, and one of `restore_exact`.
use seif_pii.Base.{
  ℕ, ◌+◌, ◌<◌, String, ◌≡◌, refl, inl, inr, true, some, List, [], ◌∷◌, ◌++◌, append_assoc, arith,
  length, slice, All, Option-cases, length-append, slice-append, ltb, leb, le→leb, lt→ltb,
}
use seif_pii.Base.Result.{ok}
use seif_pii.Text.{Text, Unicode, text_eq_refl}
use seif_pii.Span.{Span, span_text}
use seif_pii.Transform.Values.{length-shape_mask, synthetic_value-nonempty}
use seif_pii.Transform.Masking.{
  Mode, mask, token, synthetic, Replacement, Memo, lookup_seen, token_text, fresh_token, replace,
  mask_from,
}
use seif_pii.Transform.Restoring.{restore_from}

-- No replacement that `seen` holds is empty.
abbrev pub Filled : Memo → Type 0
Filled memo = All (λ entry. 0 < length entry.2) memo.seen

pub lookup_seen-nonempty :
    (kind : String) (original : Text) (seen : List (String × Text × Text)) (r : Text)
    → All (λ entry. 0 < length entry.2) seen
    → lookup_seen kind original seen ≡ some r
    → 0 < length r
unfolding lookup_seen
lookup_seen-nonempty kind original [] r h e = ground arith
lookup_seen-nonempty kind original ((k, o, r') ∷ seen) r h e =
    ground (arith, h.0, lookup_seen-nonempty kind original seen r h.1)

pub token_text-nonempty : (kind : String) (hex : Text) → 0 < length (token_text kind hex)
unfolding token_text
token_text-nonempty kind hex = omega arith

pub fresh_token-nonempty :
    (text : Text) (kind : String) (draws : List Text) (r : Text) (left : List Text)
    → fresh_token text kind draws ≡ some (r, left)
    → 0 < length r
unfolding fresh_token
fresh_token-nonempty text kind [] r left e = ground arith
fresh_token-nonempty text kind (hex ∷ draws) r left e =
    ground (arith, token_text-nonempty kind hex, fresh_token-nonempty text kind draws r left)

module _ (u : Unicode) where
  pub replace-nonempty :
      (mode : Mode) (text : Text) (memo : Memo) (kind : String) (original : Text) (r : Text)
      (memo' : Memo)
      → 0 < length original
      → Filled memo
      → replace u mode text memo kind original ≡ some (r, memo')
      → (0 < length r) × Filled memo'
  unfolding replace
  replace-nonempty mask text memo kind original r memo' h f e =
      ground (arith, length-shape_mask u original)
  replace-nonempty token text memo kind original r memo' h f e =
      elim (Option-cases (lookup_seen kind original memo.seen)) [
        | inl new ↦ elim (Option-cases (fresh_token text kind memo.draws)) [
          | inl out ↦ ground arith
          | inr ((t, left), drawn) ↦
              ground (arith, fresh_token-nonempty text kind memo.draws t left drawn)
        ]
        | inr (old, found) ↦
            ground (arith, lookup_seen-nonempty kind original memo.seen old f found)
      ]
  replace-nonempty synthetic text memo kind original r memo' h f e =
      elim (Option-cases (lookup_seen kind original memo.seen)) [
        | inl new ↦
            ground (arith, synthetic_value-nonempty u kind original (length memo.seen + 1) h)
        | inr (old, found) ↦
            ground (arith, lookup_seen-nonempty kind original memo.seen old f found)
      ]

  -- What one round of the loop of `mask` did, from its result.
  pub record Round (mode : Mode) (text : Text) (offset size : ℕ) (memo : Memo) (span : Span)
      (spans : List Span) (parts : List Text) (items : List Replacement) : Type 0 where
    pub r : Text
    pub memo' : Memo
    pub parts' : List Text
    pub items' : List Replacement
    pub replaced : replace u mode text memo span.type (span_text text span) ≡ some (r, memo')
    pub rest :
        mask_from u mode text span.end
          (size + length (slice text offset span.start) + length r)
          memo'
          spans
        ≡ some (parts', items')
    pub parts_eq : parts ≡ slice text offset span.start ∷ r ∷ parts'
    pub items_eq :
        items
        ≡ record {
          start = size + length (slice text offset span.start);
          end = size + length (slice text offset span.start) + length r;
          original = span_text text span;
          replacement = r;
        }
          ∷ items'

  pub mask_from-Round :
      (mode : Mode) (text : Text) (offset size : ℕ) (memo : Memo) (span : Span) (spans : List Span)
      (parts : List Text) (items : List Replacement)
      → mask_from u mode text offset size memo (span ∷ spans) ≡ some (parts, items)
      → Round mode text offset size memo span spans parts items
  unfolding mask_from
  mask_from-Round mode text offset size memo span spans parts items e =
      elim (Option-cases (replace u mode text memo span.type (span_text text span))) [
        | inl stuck ↦ absurd (ground arith)
        | inr ((r, memo'), replaced) ↦
            let size' = size + length (slice text offset span.start) + length r in
            elim (Option-cases (mask_from u mode text span.end size' memo' spans)) [
              | inl stuck ↦ absurd (ground arith)
              | inr ((parts', items'), rest) ↦ record {
                r = r;
                memo' = memo';
                parts' = parts';
                items' = items';
                replaced = replaced;
                rest = rest;
                parts_eq = ground arith;
                items_eq = ground arith;
              }
            ]
      ]

-- One item of `restore_exact` passes its checks where its three pieces stand in the masked text.
pub restore_from-item :
    (P before r rest original : Text) (items : List Replacement) (outs : List Text)
    → 0 < length r
    → restore_from (P ++ (before ++ (r ++ rest))) (length P + length before + length r) items
      ≡ ok outs
    → restore_from (P ++ (before ++ (r ++ rest))) (length P) (
        record {
          start = length P + length before;
          end = length P + length before + length r;
          original = original;
          replacement = r;
        }
        ∷ items)
      ≡ ok (before ∷ original ∷ outs)
unfolding restore_from
restore_from-item P before r rest original items outs h e =
    let masked = P ++ (before ++ (r ++ rest)) in
    let s = length P + length before in
    let own : slice masked s (s + length r) ≡ r =
      rw (← append_assoc P before (r ++ rest))
        (slice-append (P ++ before) r rest s (s + length r) (length-append P before) refl) in
    let gap : slice masked (length P) s ≡ before =
      slice-append P before (r ++ rest) (length P) s refl refl in
    let size : length masked ≡ length P + (length before + (length r + length rest)) = omega (
      arith,
      length-append P (before ++ (r ++ rest)),
      length-append before (r ++ rest),
      length-append r rest,
    ) in
    let c1 : leb (length P) s ≡ true = le→leb (length P) s (omega arith) in
    let c2 : ltb s (s + length r) ≡ true = lt→ltb s (s + length r) (omega arith) in
    let c3 : leb (s + length r) (length masked) ≡ true =
      le→leb (s + length r) (length masked) (omega arith) in
    rw (c1, c2, c3, own, text_eq_refl r, e, gap)
