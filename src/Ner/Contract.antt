-- ===== src/Ner/Contract.antt =====
-- seif/ner_contract.py: what is accepted from the model. A double is its bit pattern.
use seif_pii.Base.{
  ℕ, ◌-◌, ◌≤◌, ◌<◌, String, ◌≡◌, subst, arith, Option-cases, Bool-cases, inl, inr, Bool, ◌&&◌,
  Option, none, some, List, [], ◌∷◌, length, ltb, leb, ◌==◌, str_eq, if◌then◌else◌, any, all,
}
use seif_pii.Base.Maybe.{◌>>=◌}
use seif_pii.Span.{one}

-- A decoded JSON value, as far as the contract tells them apart; an integer below 0 is `negative`.
pub data Value : Type 0 where
  whole : ℕ → Value
  negative : ℕ → Value
  real : ℕ → Value
  string : String → Value
  other : Value

-- An element of `entities`: an object with its fields, or something else.
pub data Item : Type 0 where
  object : List (String × Value) → Item
  no_object : Item

pub record Entity : Type 0 where
  pub start : ℕ
  pub end : ℕ
  pub score : ℕ
  pub kind : String

abbrev ner_entity_types : List String
ner_entity_types =
    "PERSON" ∷ "LOCATION" ∷ "EMAIL" ∷ "PHONE" ∷ "CARD" ∷ "PASSPORT" ∷ "DRIVER_LICENSE" ∷ "INN"
    ∷ "SNILS" ∷ "OMS" ∷ "IP_ADDRESS" ∷ "URL" ∷ "MILITARY_ID" ∷ "BIRTH_CERTIFICATE" ∷ []

abbrev pub max_entities : ℕ
max_entities = 2048

abbrev pub max_ner_span : ℕ
max_ner_span = 2048

unfoldable pub max_entity_chars : String → ℕ
max_entity_chars kind =
    if str_eq kind "URL" then max_ner_span else if str_eq kind "EMAIL" then 320 else 200

unfoldable pub field : String → List (String × Value) → Option Value
field name [] = none
field name ((n, v) ∷ fields) = if str_eq n name then some v else field name fields

-- `set(item) == {"start", "end", "score", "entity_type"}` of the keys of a dict, which are distinct.
unfoldable pub has_fields : List (String × Value) → Bool
has_fields fields =
    length fields == 4
    && all
        (λ (f : String × Value). any (str_eq f.0) ("start" ∷ "end" ∷ "score" ∷ "entity_type" ∷ []))
        fields

abbrev pub as_whole : Value → Option ℕ
as_whole (whole n) = some n
as_whole _ = none

abbrev pub as_kind : Value → Option String
as_kind (string s) = if any (str_eq s) ner_entity_types then some s else none
as_kind _ = none

-- A score from 0 to 1. The pattern of -0.0 is put as that of 0.0, which it equals.
abbrev pub as_score : Value → Option ℕ
as_score (whole n) = if n == 0 then some 0 else if n == 1 then some one else none
as_score (real b) = if leb b one then some b else if b == 0x8000000000000000 then some 0 else none
as_score _ = none

-- `validate_entity`; `none` is its `ValueError`.
unfoldable pub validate_entity : Item → ℕ → Option Entity
unfolding field has_fields max_entity_chars
validate_entity no_object text_length = none
validate_entity (object fields) text_length = do
  start ← field "start" fields >>= as_whole
  end ← field "end" fields >>= as_whole
  score ← field "score" fields >>= as_score
  kind ← field "entity_type" fields >>= as_kind
  (if has_fields fields
        && ltb start end
        && leb end text_length
        && leb (end - start) (max_entity_chars kind)
      then some (record { start = start; end = end; score = score; kind = kind })
      else none)

-- What holds of an accepted entity.
pub record IsAccepted (text_length : ℕ) (e : Entity) : Type 0 where
  pub starts : e.start < e.end
  pub ends : e.end ≤ text_length
  pub small : e.end - e.start ≤ max_entity_chars e.kind

pub validate_entity-IsAccepted :
    (item : Item) (text_length : ℕ) (e : Entity)
    → validate_entity item text_length ≡ some e
    → IsAccepted text_length e
unfolding validate_entity
validate_entity-IsAccepted no_object text_length e h = absurd (ground arith)
validate_entity-IsAccepted (object fields) text_length e h =
    elim (Option-cases (field "start" fields >>= as_whole)) [
      | inl lost ↦ absurd (ground arith)
      | inr (start, h1) ↦ elim (Option-cases (field "end" fields >>= as_whole)) [
        | inl lost ↦ absurd (ground arith)
        | inr (end, h2) ↦ elim (Option-cases (field "score" fields >>= as_score)) [
          | inl lost ↦ absurd (ground arith)
          | inr (score, h3) ↦ elim (Option-cases (field "entity_type" fields >>= as_kind)) [
            | inl lost ↦ absurd (ground arith)
            | inr (kind, h4) ↦
                elim (Bool-cases (
                  has_fields fields
                  && ltb start end
                  && leb end text_length
                  && leb (end - start) (max_entity_chars kind))) [
                    | inr bad ↦ absurd (ground arith)
                    | inl good ↦
                        let same : (record { start = start; end = end; score = score; kind = kind })
                            ≡ e =
                          ground arith in
                        subst (λ x. IsAccepted text_length x) same
                          (record {
                            starts = ground arith;
                            ends = ground arith;
                            small = ground arith;
                          })
                  ]
          ]
        ]
      ]
    ]

pub max_entity_chars-le : (kind : String) → max_entity_chars kind ≤ max_ner_span
unfolding max_entity_chars
max_entity_chars-le kind = ground arith
