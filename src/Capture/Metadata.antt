-- ===== src/Capture/Metadata.antt =====
-- seif/request_capture.py: `_copy_metadata`, and the record that `_write` makes.
use seif_pii.Base.{
  ℕ, ◌+◌, ◌*◌, ◌^◌, Bool, Option, none, some, List, [], ◌∷◌, length, leb, ltb, if◌then◌else◌,
}
use seif_pii.Base.Maybe.{◌>>=◌}
use seif_pii.Text.{Text, codes, text_eq}

-- A value of the metadata: an integer by its absolute value, a float by whether it is finite.
pub data Scalar : Type 0 where
  absent foreign : Scalar
  flag : Bool → Scalar
  text : Text → Scalar
  whole : ℕ → Scalar
  real : Bool → Scalar

-- A key that is no `str` is `none`.
abbrev pub Pair : Type 0
Pair = Option Text × Scalar

unfoldable pub value_size : Scalar → Option ℕ
value_size absent = some 32
value_size foreign = none
value_size (flag b) = some 32
value_size (text t) = if ltb 4096 (length t) then none else some (length t * 4)
value_size (whole n) = if leb (2 ^ 256) n then none else some 32
value_size (real finite) = if finite then some 32 else none

-- `_metadata_item_size`; `none` is the `ValueError`.
unfoldable pub metadata_item_size : Pair → Option ℕ
metadata_item_size (none, value) = none
metadata_item_size (some key, value) =
    if ltb 128 (length key)
    then none
    else value_size value >>= λ size. some (128 + length key * 4 + size)

unfoldable pub total_size : ℕ → List Pair → Option ℕ
total_size size [] = some size
total_size size (item ∷ items) = metadata_item_size item >>= λ more. total_size (size + more) items

-- `_copy_metadata`, where a `none` is no `dict` or no `bytes`; the copy is the metadata itself.
unfoldable pub copy_metadata : Option (List Pair) → Option Text → Option (List Pair × Text × ℕ)
copy_metadata none body = none
copy_metadata (some metadata) none = none
copy_metadata (some metadata) (some body) =
    if ltb 64 (length metadata)
    then none
    else total_size (length body + 512) metadata >>= λ size. some (metadata, body, size)

-- What `json.loads` returns: an object with its fields, or another value.
pub data Parsed (Json : Type 0) : Type 0 where
  object : List (Text × Json) → Json → Parsed Json
  other : Json → Parsed Json

-- A value of the record that is written.
pub data Field (Json : Type 0) : Type 0 where
  given : Scalar → Field Json
  raised : Field Json
  part : Json → Field Json

module _ {Json : Type 0} where
  -- `record[key] = value`
  unfoldable pub put_field : Text → Field Json → List (Text × Field Json) → List (Text × Field Json)
  put_field key value [] = (key, value) ∷ []
  put_field key value ((k, v) ∷ fields) =
      let rest = put_field key value fields in
      if text_eq k key then (k, value) ∷ fields else (k, v) ∷ rest

  unfoldable pub lookup_field : Text → List (Text × Json) → Option Json
  lookup_field key [] = none
  lookup_field key ((k, v) ∷ fields) =
      let rest = lookup_field key fields in if text_eq k key then some v else rest

  abbrev pub copy_field :
      Text → List (Text × Json) → List (Text × Field Json) → List (Text × Field Json)
  copy_field key fields record' = elim (lookup_field key fields) [
    | none ↦ record'
    | some v ↦ put_field key (part v) record'
  ]

  abbrev pub fields_of : List Pair → List (Text × Field Json)
  fields_of [] = []
  fields_of ((none, value) ∷ metadata) = fields_of metadata
  fields_of ((some key, value) ∷ metadata) = (key, given value) ∷ fields_of metadata

  -- The record of `_write`; `none` is a body that does not parse.
  unfoldable pub record_of : List Pair → Option (Parsed Json) → List (Text × Field Json)
  record_of metadata none = put_field (codes "parse_error") raised (fields_of metadata)
  record_of metadata (some (other v)) = put_field (codes "request") (part v) (fields_of metadata)
  record_of metadata (some (object fields v)) = copy_field (codes "payload_id") fields (
      copy_field (codes "payload") fields
        (put_field (codes "request") (part v) (fields_of metadata)))
