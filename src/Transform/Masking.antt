-- ===== src/Transform/Masking.antt =====
-- seif/transform.py: `mask`. The draws of `secrets.token_hex(8)` are an argument; `none` means
-- that the draws given were used up by the loop that looks for an unused token.
use seif_pii.Base.{
  ℕ, ◌+◌, String, ◌≡◌, refl, ◌&&◌, Option, none, some, List, [], ◌∷◌, ◌++◌, length, drop, slice,
  str_eq, if◌then◌else◌,
}
use seif_pii.Base.Maybe.{◌>>=◌}
use seif_pii.Text.{Text, Unicode, codes, contains, text_eq, join, ascii}
use seif_pii.Span.{Span, span_text, one}
use seif_pii.Transform.Values.{shape_mask, synthetic_value}

pub data Mode : Type 0 where
  mask token synthetic : Mode

pub record Replacement : Type 0 where
  pub start : ℕ
  pub end : ℕ
  pub original : Text
  pub replacement : Text

-- The dict `seen`, from `(span.type, original)` to the replacement, with the draws left.
pub record Memo : Type 0 where
  pub seen : List (String × Text × Text)
  pub draws : List Text

unfoldable pub lookup_seen : String → Text → List (String × Text × Text) → Option Text
lookup_seen kind original [] = none
lookup_seen kind original ((k, o, r) ∷ seen) =
    if str_eq k kind && text_eq o original then some r else lookup_seen kind original seen

-- `f"⟦PD:{span.type}:{secrets.token_hex(8)}⟧"`
unfoldable pub token_text : String → Text → Text
token_text kind hex = codes "⟦PD:" ++ (codes kind ++ (codes ":" ++ (hex ++ codes "⟧")))

unfoldable pub fresh_token : Text → String → List Text → Option (Text × List Text)
fresh_token text kind [] = none
fresh_token text kind (hex ∷ draws) =
    let again = fresh_token text kind draws in
    if contains (token_text kind hex) text then again else some (token_text kind hex, draws)

module _ (u : Unicode) where
  -- The three branches on `mode`.
  unfoldable pub replace : Mode → Text → Memo → String → Text → Option (Text × Memo)
  replace mask text memo kind original = some (shape_mask u original, memo)
  replace token text memo kind original = elim (lookup_seen kind original memo.seen) [
    | some r ↦ some (r, memo)
    | none ↦ do
      (t, draws) ← fresh_token text kind memo.draws
      some (t, record { seen = (kind, original, t) ∷ memo.seen; draws = draws })
  ]
  replace synthetic text memo kind original = elim (lookup_seen kind original memo.seen) [
    | some r ↦ some (r, memo)
    | none ↦
        let r = synthetic_value u kind original (length memo.seen + 1) in
        some (r, record memo { seen = (kind, original, r) ∷ memo.seen })
  ]

  -- The loop of `mask`: the parts and the replacements that the spans left will add.
  unfoldable pub mask_from :
      Mode → Text → ℕ → ℕ → Memo → List Span → Option (List Text × List Replacement)
  mask_from mode text offset size memo [] = some (drop offset text ∷ [], [])
  mask_from mode text offset size memo (span ∷ spans) = do
    let before = slice text offset span.start
    let start = size + length before
    (replacement, memo') ← replace mode text memo span.type (span_text text span)
    (parts, replacements) ← mask_from mode text span.end (start + length replacement) memo' spans
    some (
      before ∷ replacement ∷ parts,
      record {
        start = start;
        end = start + length replacement;
        original = span_text text span;
        replacement = replacement;
      }
          ∷ replacements,
    )

  unfoldable pub mask_text : Mode → Text → List Text → List Span → Option (Text × List Replacement)
  unfolding mask_from
  mask_text mode text draws spans = do
    (parts, replacements) ← mask_from mode text 0 0 (record { seen = []; draws = draws }) spans
    some (join parts, replacements)

abbrev sample : List Span
sample = record { start = 3; end = 7; type = "PIN"; confidence = one; reason = "context" } ∷ []

mask_text_test :
    mask_text ascii mask (codes "PIN2050.") [] sample
    ≡ some (
      codes "PIN****.",
      record { start = 3; end = 7; original = codes "2050"; replacement = codes "****" } ∷ [],
    )
unfolding mask_text replace shape_mask
mask_text_test = refl
