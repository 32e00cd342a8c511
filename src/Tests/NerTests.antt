-- ===== src/Tests/NerTests.antt =====
-- Instances of the theorems on seif/ner.py.
use seif_pii.Base.{ℕ, ◌-◌, ◌≤◌, ◌≡◌, refl, inl, some, List, [], ◌∷◌, arith, length, In, All, le→leb}
use seif_pii.Text.{Text, codes}
use seif_pii.Span.{Span, one}
use seif_pii.Ner.Contract.{
  whole, string, Item, object, validate_entity, has_fields, field, max_entity_chars,
}
use seif_pii.Ner.Chunks.{
  Answer, detect, chunks, chunks_from, detect_chunks, parse_entities, parse_items, clipped,
}
use seif_pii.Ner.Covering.{Holds, chunks-Holds}
use seif_pii.Ner.Detection.{IsEntity, detect-IsEntity, Names, detect-Names}

abbrev letter : Text
letter = codes "Ann wrote"

abbrev person : Item
person = object (
    ("start", whole 0)
    ∷ ("end", whole 3)
    ∷ ("score", whole 1)
    ∷ ("entity_type", string "PERSON")
    ∷ [])

abbrev names_ann : Text → Answer
names_ann part = some (person ∷ [])

abbrev ann : Span
ann = record { start = 0; end = 3; type = "PERSON"; confidence = one; reason = "private-ner" }

detected : detect names_ann letter ≡ some (ann ∷ [])
unfolding detect chunks chunks_from detect_chunks parse_entities parse_items clipped validate_entity
    has_fields field max_entity_chars
detected = refl

detect-IsEntity_example : All (IsEntity 9) (ann ∷ [])
detect-IsEntity_example = detect-IsEntity names_ann letter (ann ∷ []) detected

person_valid :
    (n : ℕ)
    → 3 ≤ n
    → validate_entity person n ≡ some (record { start = 0; end = 3; score = one; kind = "PERSON" })
unfolding validate_entity has_fields field max_entity_chars
person_valid n h = rw (le→leb 3 n h)

ann-Names : Names names_ann letter 0 3 one "PERSON"
ann-Names offset part is_part left right inner outer =
    let first : 0 - offset ≡ 0 = omega arith in
    let last : 3 - offset ≡ 3 = omega arith in
    (
      person ∷ [],
      person,
      refl,
      inl refl,
      rw (first, last) (person_valid (length part) (omega arith)),
    )

detect-Names_example : In ann (ann ∷ [])
detect-Names_example =
    detect-Names names_ann letter (ann ∷ []) 0 3 one "PERSON" detected (omega arith) (omega arith)
      (omega arith) ann-Names

-- Chunks of six characters that overlap by four.
chunks-Holds_example : (cs : List (ℕ × Text)) × (chunks 6 4 letter ≡ some cs) × Holds letter 5 7 cs
chunks-Holds_example =
    chunks-Holds letter 6 4 5 7 (omega arith) (omega arith) (omega arith) (omega arith)
