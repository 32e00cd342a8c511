-- ===== src/Transform/Totality.antt =====
-- `mask` returns where the draws are enough.
use seif_pii.Base.{
  ℕ, ◌+◌, ◌≤◌, ◌<◌, String, ◌≡◌, refl, inl, inr, false, Option, none, some, List, [], ◌∷◌, arith,
  length, slice, All, Option-cases,
}
use seif_pii.Text.{Text, Unicode, contains}
use seif_pii.Span.{Span, span_text}
use seif_pii.Transform.Values.{synthetic_value, shape_mask}
use seif_pii.Transform.Masking.{
  Mode, mask, token, synthetic, Replacement, Memo, lookup_seen, token_text, fresh_token, replace,
  mask_from,
}

-- Draws whose tokens do not occur in the text.
abbrev pub Usable : Text → List Text → Type 0
Usable text draws = All (λ hex. (kind : String) → contains (token_text kind hex) text ≡ false) draws

-- A step that needs at most one draw, and keeps the rest usable.
record Replaced (text : Text) (memo : Memo) (result : Option (Text × Memo)) : Type 0 where
  r : Text
  memo' : Memo
  is_result : result ≡ some (r, memo')
  usable : Usable text memo'.draws
  spent : length memo.draws ≤ length memo'.draws + 1

fresh_token-first :
    (text : Text) (kind : String) (hex : Text) (draws : List Text)
    → contains (token_text kind hex) text ≡ false
    → fresh_token text kind (hex ∷ draws) ≡ some (token_text kind hex, draws)
unfolding fresh_token
fresh_token-first text kind hex draws h = ground arith

module _ (u : Unicode) where
  replace_new :
      (text : Text) (kind : String) (original : Text) (seen : List (String × Text × Text))
      (draws : List Text)
      → lookup_seen kind original seen ≡ none
      → Usable text draws
      → 0 < length draws
      → Replaced text
          (record { seen = seen; draws = draws })
          (replace u token text (record { seen = seen; draws = draws }) kind original)
  unfolding replace
  replace_new text kind original seen [] new h e = absurd (omega arith)
  replace_new text kind original seen (hex ∷ draws) new h e = record {
    r = token_text kind hex;
    memo' = record { seen = (kind, original, token_text kind hex) ∷ seen; draws = draws };
    is_result = ground (arith, fresh_token-first text kind hex draws (h.0 kind));
    usable = h.1;
    spent = omega arith;
  }

  replace-Replaced :
      (mode : Mode) (text : Text) (memo : Memo) (kind : String) (original : Text)
      → Usable text memo.draws
      → 0 < length memo.draws
      → Replaced text memo (replace u mode text memo kind original)
  unfolding replace
  replace-Replaced mask text memo kind original h e = record {
    r = shape_mask u original;
    memo' = memo;
    is_result = refl;
    usable = h;
    spent = omega arith;
  }
  replace-Replaced token text memo kind original h e =
      elim (Option-cases (lookup_seen kind original memo.seen)) [
        | inl new ↦ replace_new text kind original memo.seen memo.draws new h e
        | inr (r, found) ↦ record {
          r = r;
          memo' = memo;
          is_result = ground arith;
          usable = h;
          spent = omega arith;
        }
      ]
  replace-Replaced synthetic text memo kind original h e =
      elim (Option-cases (lookup_seen kind original memo.seen)) [
        | inl new ↦
            let r = synthetic_value u kind original (length memo.seen + 1) in
            record {
              r = r;
              memo' = record memo { seen = (kind, original, r) ∷ memo.seen };
              is_result = ground arith;
              usable = h;
              spent = omega arith;
            }
        | inr (r, found) ↦ record {
          r = r;
          memo' = memo;
          is_result = ground arith;
          usable = h;
          spent = omega arith;
        }
      ]

  pub mask_from-total :
      (mode : Mode) (text : Text) (spans : List Span) (offset size : ℕ) (memo : Memo)
      → Usable text memo.draws
      → length spans ≤ length memo.draws
      → (parts : List Text) × (items : List Replacement) × (mask_from u mode text offset size memo
            spans
          ≡ some (parts, items))
  unfolding mask_from
  mask_from-total mode text [] offset size memo h e = (_, _, refl)
  mask_from-total mode text (span ∷ spans) offset size memo h e =
      let before = slice text offset span.start in
      let k = replace-Replaced mode text memo span.type (span_text text span) h (omega arith) in
      let (parts, items, made) =
        mask_from-total mode text spans span.end (size + length before + length k.r) k.memo'
          k.usable (omega (arith, k.spent)) in
      (
        before ∷ k.r ∷ parts,
        record {
          start = size + length before;
          end = size + length before + length k.r;
          original = span_text text span;
          replacement = k.r;
        }
            ∷ items,
        rw (k.is_result, made),
      )
