-- ===== src/Decoder/Batch.antt =====
-- seif/rubert_batch.py: `word_predict_batch` and what it calls.
use seif_pii.Base.{
  ℕ, zero, suc, ◌+◌, ◌-◌, Bool, ◌&&◌, Option, none, some, List, [], ◌∷◌, ◌++◌, map, ◌==◌, length,
  take, drop, null, all, any, leb, if◌then◌else◌,
}
use seif_pii.Base.Result.{Result, ok, raise, ◌>>=◌}
use seif_pii.Text.{Text, Unicode}
use seif_pii.Decoder.Words.{Token, words_with_offsets}
use seif_pii.Decoder.Windows.{
  Failure, padding, wrong_logits, out_of_range, Prediction, entry, repeat,
}
use seif_pii.Decoder.Prepared.{Window, windows_from}
use seif_pii.Decoder.Reading.{Runtime, tokenize, model_inputs, read_rows, has_shape}
use seif_pii.Decoder.Sequential.{active_from, values}

abbrev pub length_buckets : List ℕ
length_buckets = 32 ∷ 64 ∷ 128 ∷ 256 ∷ 512 ∷ []

abbrev pub batch_buckets : List ℕ
batch_buckets = 1 ∷ 2 ∷ 4 ∷ 8 ∷ 16 ∷ 32 ∷ []

abbrev pub max_documents : ℕ
max_documents = 32

-- `next(bucket for bucket in buckets if bucket >= n)`
unfoldable pub bucket_for : ℕ → List ℕ → Option ℕ
bucket_for n [] = none
bucket_for n (b ∷ buckets) = if leb n b then some b else bucket_for n buckets

unfoldable pub is_batch_size : ℕ → Bool
is_batch_size n = any (λ b. n == b) batch_buckets

-- `_Document`; what is predicted of its visible words is kept beside it.
pub record Document : Type 0 where
  pub text : Text
  pub tokens : List Token
  pub active : List ℕ

-- A window with its number and that of its document.
pub record Item : Type 0 where
  pub number : ℕ
  pub document : ℕ
  pub window : Window

module _ {Row Score : Type 0} (u : Unicode) (runtime : Runtime Row Score) where
  -- `_document_windows`
  unfoldable pub document_windows : Text → Result Failure (Document × List Window)
  document_windows text =
      let tokens = words_with_offsets u text in
      if null tokens
      then ok (record { text = text; tokens = tokens; active = [] }, [])
      else tokenize runtime.is_control runtime.tokenizer (values tokens) >>= (λ encoded.
        let active = active_from 0 encoded.1 in
        let counts = map (entry encoded.1) active in
        ok (
          record { text = text; tokens = tokens; active = active },
          windows_from encoded.0 counts (length counts) 0 0,
        ))

  unfoldable pub prepare : List Text → Result Failure (List (Document × List Window))
  prepare [] = ok []
  prepare (text ∷ texts) =
      document_windows text >>= (λ first. prepare texts >>= (λ others. ok (first ∷ others)))

module _ {Row Score : Type 0} (runtime : Runtime Row Score) where
  -- `tokens` of each row, the dummy rows behind the windows among them, with the padding.
  unfoldable pub rows_for : ℕ → ℕ → ℕ → List Item → Result Failure (List (List ℕ × List ℕ))
  rows_for pad size zero items = ok []
  rows_for pad size (suc n) [] = model_inputs runtime [] >>= (λ inputs.
      rows_for pad size n [] >>= (λ rest. ok (
        (
          inputs ++ repeat (size - length inputs) pad,
          repeat (length inputs) 1 ++ repeat (size - length inputs) 0,
        )
        ∷ rest)))
  rows_for pad size (suc n) (i ∷ items) = model_inputs runtime i.window.token_ids >>= (λ inputs.
      rows_for pad size n items >>= (λ rest. ok (
        (
          inputs ++ repeat (size - length inputs) pad,
          repeat (length inputs) 1 ++ repeat (size - length inputs) 0,
        )
        ∷ rest)))

  -- `_batch_inputs`; the first `none` is `next` without a value.
  unfoldable pub batch_inputs : List Item → ℕ → Result Failure (List (List ℕ × List ℕ))
  batch_inputs items size = elim (bucket_for (length items) batch_buckets) [
    | none ↦ raise out_of_range
    | some rows ↦ elim runtime.pad_token_id [
      | none ↦ raise padding
      | some pad ↦ rows_for pad size rows items
    ]
  ]

  unfoldable pub read_items :
      List Text → List (List Row) → List Item → Result Failure (List (ℕ × List (Prediction Score)))
  read_items labels logits [] = ok []
  read_items labels [] (i ∷ items) = raise out_of_range
  read_items labels (rows ∷ logits) (i ∷ items) =
      read_rows runtime labels rows i.window.positions >>= (λ predicted.
        read_items labels logits items >>= (λ rest. ok ((i.number, predicted) ∷ rest)))

  -- `_predict_batch`: what it predicts, by the numbers of the windows.
  unfoldable pub predict_batch :
      List Text → List Item → ℕ → Result Failure (List (ℕ × List (Prediction Score)))
  predict_batch labels items size = batch_inputs items size >>= (λ inputs.
      elim (runtime.run inputs) [
        | none ↦ raise wrong_logits
        | some logits ↦
            if length logits == length inputs && all (has_shape runtime size (length labels)) logits
            then read_items labels logits items
            else raise wrong_logits
      ])

  -- `range(0, len(group), max_batch)`, on fuel for its steps.
  unfoldable pub predict_group :
      List Text → ℕ → ℕ → ℕ → List Item → Result Failure (List (ℕ × List (Prediction Score)))
  predict_group labels max_batch size zero items = ok []
  predict_group labels max_batch size (suc fuel) items =
      let rest = predict_group labels max_batch size fuel (drop max_batch items) in
      if null items
      then ok []
      else predict_batch labels (take max_batch items) size
        >>= (λ found. rest >>= (λ others. ok (found ++ others)))

  unfoldable pub predict_groups :
      List Text → ℕ → List (ℕ × List Item) → Result Failure (List (ℕ × List (Prediction Score)))
  predict_groups labels max_batch [] = ok []
  predict_groups labels max_batch ((size, items) ∷ groups) =
      predict_group labels max_batch size (length items) items
      >>= (λ found. predict_groups labels max_batch groups >>= (λ others. ok (found ++ others)))

-- `grouped[bucket].append(window)`, with the groups in the order of their first windows.
unfoldable pub add_to_group : ℕ → Item → List (ℕ × List Item) → List (ℕ × List Item)
add_to_group bucket i [] = (bucket, i ∷ []) ∷ []
add_to_group bucket i ((b, items) ∷ groups) =
    let rest = add_to_group bucket i groups in
    if b == bucket then (b, items ++ i ∷ []) ∷ groups else (b, items) ∷ rest

unfoldable pub group_from : List Item → List (ℕ × List Item) → Result Failure (List (ℕ × List Item))
group_from [] groups = ok groups
group_from (i ∷ items) groups = elim (bucket_for (length i.window.token_ids + 2) length_buckets) [
  | none ↦ raise out_of_range
  | some bucket ↦ group_from items (add_to_group bucket i groups)
]

-- The windows of all documents with their numbers, from `number` and `document` on.
unfoldable pub number_windows : ℕ → ℕ → List Window → List Item
number_windows number document [] = []
number_windows number document (w ∷ ws) =
    record { number = number; document = document; window = w }
    ∷ number_windows (suc number) document ws

unfoldable pub number_all : ℕ → ℕ → List (Document × List Window) → List Item
number_all number document [] = []
number_all number document ((d, ws) ∷ documents) =
    number_windows number document ws ++ number_all (number + length ws) (suc document) documents
