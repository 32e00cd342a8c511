-- ===== src/Tests/TransformTests.antt =====
-- Instances of the theorems on seif/transform.py.
use seif_pii.Base.{
  ◌≤◌, ◌≡◌, refl, true, false, ◌&&◌, some, List, [], ◌∷◌, arith, length, if◌then◌else◌,
}
use seif_pii.Base.Result.{ok, raise}
use seif_pii.Text.{Text, codes, ascii, contains, text_eq}
use seif_pii.Span.{Span, one}
use seif_pii.Transform.Masking.{
  mask, token, Replacement, mask_text, token_text, replace, fresh_token, lookup_seen,
}
use seif_pii.Transform.Restoring.{
  pieces, restore_exact, restore_tokens, original_of, substitute, exceeds, restoration_too_large,
  unknown_token,
}
use seif_pii.Transform.Totality.{Usable}
use seif_pii.Transform.RoundTrip.{restore_exact-mask_text}
use seif_pii.Transform.Shape.{paint, paint-mask_text}
use seif_pii.Transform.TokenRules.{known, has_match, restore_tokens_cases, restore_tokens-le}

abbrev pub note : Text
note = codes "PIN 2050, PIN 2050"

abbrev pub two_pins : List Span
two_pins =
    record { start = 4; end = 8; type = "PIN"; confidence = one; reason = "context" }
    ∷ record { start = 14; end = 18; type = "PIN"; confidence = one; reason = "context" }
    ∷ []

abbrev pub hex_draws : List Text
hex_draws = codes "0123456789abcdef" ∷ codes "fedcba9876543210" ∷ []

hex_draws-Usable : Usable note hex_draws
unfolding contains token_text
hex_draws-Usable = (λ kind. refl, (λ kind. refl, tt))

restore_exact-mask_text_example :
    (masked : Text) × (items : List Replacement) × (mask_text ascii token note hex_draws two_pins
      ≡ some (masked, items))
    × (restore_exact masked items ≡ ok note)
restore_exact-mask_text_example =
    restore_exact-mask_text ascii token note hex_draws two_pins (omega arith) hex_draws-Usable
      (omega arith)

paint-mask_text_example :
    (items : List Replacement) × (mask_text ascii mask note hex_draws two_pins
      ≡ some (paint ascii 0 two_pins note, items))
paint-mask_text_example = paint-mask_text ascii note hex_draws two_pins (omega arith)

-- Both occurrences of a value get the same token.
same_token_test :
    mask_text ascii token note hex_draws two_pins
    ≡ some (
      codes "PIN ⟦PD:PIN:0123456789abcdef⟧, PIN ⟦PD:PIN:0123456789abcdef⟧",
      record {
        start = 4;
        end = 29;
        original = codes "2050";
        replacement = codes "⟦PD:PIN:0123456789abcdef⟧";
      }
          ∷ record {
            start = 35;
            end = 60;
            original = codes "2050";
            replacement = codes "⟦PD:PIN:0123456789abcdef⟧";
          }
          ∷ [],
    )
unfolding mask_text replace fresh_token lookup_seen token_text contains text_eq
same_token_test = refl

abbrev pin_record : List Replacement
pin_record =
    record {
      start = 0;
      end = 26;
      original = codes "2050";
      replacement = codes "⟦PD:PIN:0123456789abcdef⟧";
    }
    ∷ []

abbrev reply : Text
reply = codes "got ⟦PD:PIN:0123456789abcdef⟧"

restore_tokens_cases_example :
    ((known pin_record (pieces reply) && has_match (pieces reply)) ≡ false
      → restore_tokens reply pin_record (some 8) ≡ raise unknown_token)
    × ((known pin_record (pieces reply) && has_match (pieces reply)) ≡ true
        → (out : Text) × (substitute pin_record (pieces reply) ≡ ok out)
          × (restore_tokens reply pin_record (some 8)
              ≡ (if exceeds (length out) (some 8) then raise restoration_too_large else ok out)))
restore_tokens_cases_example = restore_tokens_cases reply pin_record (some 8)

reply_restored : restore_tokens reply pin_record (some 8) ≡ ok (codes "got 2050")
unfolding restore_tokens original_of text_eq
reply_restored = refl

restore_tokens-le_example : length (codes "got 2050") ≤ 8
restore_tokens-le_example = restore_tokens-le reply pin_record 8 (codes "got 2050") reply_restored
