-- ===== src/Ner/Chunks.antt =====
-- seif/ner.py: `chunks` and `_parse_entities`.
use seif_pii.Base.{
  ℕ, zero, suc, ◌+◌, ◌-◌, Bool, ◌&&◌, ◌||◌, Option, none, some, List, [], ◌∷◌, ◌++◌, min, length,
  slice, ltb, leb, ◌==◌, if◌then◌else◌,
}
use seif_pii.Base.Maybe.{◌>>=◌}
use seif_pii.Text.{Text}
use seif_pii.Span.{Span}
use seif_pii.Ner.Contract.{Item, Entity, validate_entity, max_entities, max_ner_span}

-- The loop of `chunks` from `start` on, on fuel.
unfoldable pub chunks_from : ℕ → ℕ → ℕ → Text → ℕ → List (ℕ × Text)
chunks_from zero size overlap text start = []
chunks_from (suc fuel) size overlap text start =
    let end = min (length text) (start + size) in
    let rest = chunks_from fuel size overlap text (end - overlap) in
    if ltb start (length text)
    then (start, slice text start end) ∷ (if end == length text then [] else rest)
    else []

-- `none` is the `ValueError`. Each round begins behind the one before, within the text.
unfoldable pub chunks : ℕ → ℕ → Text → Option (List (ℕ × Text))
unfolding chunks_from
chunks size overlap text =
    if leb size overlap then none else some (chunks_from (length text) size overlap text 0)

-- The answer of the model on a chunk: the list `entities` of a body of that shape, or something else.
abbrev pub Answer : Type 0
Answer = Option (List Item)

-- An entity that an inner edge of the chunk may have cut off.
unfoldable pub clipped : ℕ → ℕ → ℕ → Entity → Bool
clipped offset size total e =
    ltb 0 offset && e.start == 0 || ltb (offset + size) total && e.end == size

unfoldable pub parse_items : ℕ → ℕ → ℕ → List Item → Option (List Span)
unfolding clipped
parse_items offset size total [] = some []
parse_items offset size total (item ∷ items) = do
  e ← validate_entity item size
  rest ← parse_items offset size total items
  some (
      if clipped offset size total e
      then rest
      else record {
        start = offset + e.start;
        end = offset + e.end;
        type = e.kind;
        confidence = e.score;
        reason = "private-ner";
      }
        ∷ rest)

-- `_parse_entities`; `none` is `NerUnavailable`.
unfoldable pub parse_entities : Answer → Text → ℕ → ℕ → Option (List Span)
unfolding parse_items
parse_entities none text offset total = none
parse_entities (some items) text offset total =
    if ltb max_entities (length items) then none else parse_items offset (length text) total items

-- The chunks' results in order, all or none: `_detect_batch` and the loop of `detect`.
unfoldable pub detect_chunks : (Text → Answer) → ℕ → List (ℕ × Text) → Option (List Span)
unfolding parse_entities
detect_chunks model total [] = some []
detect_chunks model total ((offset, part) ∷ rest) = do
  found ← parse_entities (model part) part offset total
  others ← detect_chunks model total rest
  some (found ++ others)

-- `NerClient.detect` with what the model answers on a chunk, retries included; `none` is
-- `NerUnavailable`.
unfoldable pub detect : (Text → Answer) → Text → Option (List Span)
unfolding chunks detect_chunks
detect model text = chunks 16000 (max_ner_span + 32) text >>= detect_chunks model (length text)
