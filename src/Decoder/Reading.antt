-- ===== src/Decoder/Reading.antt =====
-- What seif/rubert_decoder.py asks of the tokenizer and of the model, and what it checks in the answers.
use seif_pii.Base.{
  ℕ, zero, suc, ◌+◌, ◌-◌, Bool, true, false, not, ◌&&◌, ◌||◌, Option, none, some, List, [], ◌∷◌,
  ◌++◌, ◌==◌, length, slice, all, any, leb, ltb, if◌then◌else◌, get_elem?, replace_at,
}
use seif_pii.Base.Result.{Result, ok, raise, ◌>>=◌}
use seif_pii.Text.{Text, codes, text_eq}
use seif_pii.Decoder.Windows.{
  Failure, inventory, alignment, omitted_word, wide_word, layout, wrong_logits, out_of_range,
  Prediction, budget, entry, repeat, all_some,
}

-- The runtime: a `none` among integers is an element that is no integer or is negative, and the `none`
-- of `run` an answer that is no array of finite floats. A row of logits has its width and its winner, with
-- the probability that softmax gives it.
pub record Runtime (Row Score : Type 0) : Type 0 where
  pub id2label : List (ℕ × Text)
  pub tokenizer : List Text → Option (List (Option ℕ) × List (Option ℕ))
  pub build_inputs_with_special_tokens : List ℕ → List (Option ℕ)
  pub create_token_type_ids_from_sequences : List ℕ → List (Option ℕ)
  pub pad_token_id : Option ℕ
  pub run : List (List ℕ × List ℕ) → Option (List (List Row))
  pub width : Row → ℕ
  pub winner : Row → ℕ × Score
  -- Category C of `unicodedata`, and what the code computes with scores.
  pub is_control : ℕ → Bool
  pub certain : Score
  pub weaker : Score → Score → Score
  pub mean : List Score → Score

abbrev pub names : List Text
names =
    codes "PASSPORT"
    ∷ codes "CREDIT_CARD"
    ∷ codes "DRIVER_LICENSE"
    ∷ codes "INN"
    ∷ codes "SNILS"
    ∷ codes "MILITARY_ID"
    ∷ codes "BIRTH_CERTIFICATE"
    ∷ codes "OMS"
    ∷ codes "CITY"
    ∷ codes "COUNTRY"
    ∷ codes "DISTRICT"
    ∷ codes "EMAIL"
    ∷ codes "FIRST_NAME"
    ∷ codes "HOUSE"
    ∷ codes "IP_ADDRESS"
    ∷ codes "LAST_NAME"
    ∷ codes "MIDDLE_NAME"
    ∷ codes "PHONE"
    ∷ codes "REGION"
    ∷ codes "STREET"
    ∷ codes "URL"
    ∷ []

-- `NATIVE_TYPES`, and the labels that its types give.
abbrev pub outside : Text
outside = codes "O"

unfoldable pub tags_of : List Text → List Text
tags_of [] = []
tags_of (t ∷ ts) = (codes "B-" ++ t) ∷ (codes "I-" ++ t) ∷ tags_of ts

unfoldable pub expected : List Text
unfolding tags_of
expected = outside ∷ tags_of names

unfoldable pub label_of : ℕ → List (ℕ × Text) → Option Text
label_of i [] = none
label_of i ((j, t) ∷ labels) = if i == j then some t else label_of i labels

-- `[labels[index] for index in range(43)]`, from `i` on.
unfoldable pub labels_from : List (ℕ × Text) → ℕ → ℕ → List (Option Text)
unfolding label_of
labels_from labels i zero = []
labels_from labels i (suc n) = label_of i labels ∷ labels_from labels (suc i) n

abbrev pub inventory_of : Bool → Option (List Text) → Result Failure (List Text)
inventory_of true (some found) = ok found
inventory_of good found = raise inventory

-- `_label_inventory`: the keys are those of `range(43)`, and the values those expected.
unfoldable pub label_inventory : List (ℕ × Text) → Result Failure (List Text)
unfolding labels_from expected text_eq all_some
label_inventory labels =
    let is_index = λ (l : ℕ × Text). ltb l.0 43 in
    let is_expected = λ (l : ℕ × Text). any (text_eq l.1) expected in
    let is_there = λ (t : Text). any (λ (l : ℕ × Text). text_eq t l.1) labels in
    inventory_of (all is_index labels && all is_expected labels && all is_there expected)
      (all_some (labels_from labels 0 43))

-- The loop of `_tokenize` over the owners; `previous` is one more than the code's, which begins at -1.
unfoldable pub count_owners : ℕ → ℕ → List (Option ℕ) → List ℕ → Result Failure (List ℕ)
count_owners words previous [] counts = ok counts
count_owners words previous (none ∷ owners) counts = raise alignment
count_owners words previous (some owner ∷ owners) counts =
    let rest =
      count_owners words (suc owner) owners (replace_at owner (suc (entry counts owner)) counts) in
    if ltb owner words && leb previous (suc owner) then rest else raise alignment

unfoldable pub bert_ignored_word : (ℕ → Bool) → Text → Bool
bert_ignored_word is_control word = all (λ c. c == 0xfffd || is_control c) word

unfoldable pub all_visible : (ℕ → Bool) → List Text → List ℕ → Bool
unfolding bert_ignored_word
all_visible is_control (word ∷ words) (count ∷ counts) =
    (not (count == 0) || bert_ignored_word is_control word) && all_visible is_control words counts
all_visible is_control words counts = true

unfoldable pub tokenize :
    (ℕ → Bool)
    → (List Text → Option (List (Option ℕ) × List (Option ℕ)))
    → List Text
    → Result Failure (List ℕ × List ℕ)
unfolding all_some count_owners all_visible
tokenize is_control tokenizer words = elim (tokenizer words) [
  | none ↦ raise alignment
  | some (ids, owners) ↦ elim (all_some ids) [
    | none ↦ raise alignment
    | some found ↦
        if length ids == length owners
        then count_owners (length words) 0 owners (repeat (length words) 0) >>= (λ counts.
          if all_visible is_control words counts
          then (if any (λ (c : ℕ). ltb budget c) counts
              then raise wide_word
              else ok (found, counts))
          else raise omitted_word)
        else raise alignment
  ]
]

-- `inputs[1:-1] == token_ids`
unfoldable pub is_inner : List (Option ℕ) → List ℕ → Bool
is_inner [] [] = true
is_inner (some x ∷ xs) (y ∷ ys) = x == y && is_inner xs ys
is_inner xs ys = false

abbrev pub is_zero : Option ℕ → Bool
is_zero none = false
is_zero (some n) = n == 0

module _ {Row Score : Type 0} (runtime : Runtime Row Score) where
  unfoldable pub model_inputs : List ℕ → Result Failure (List ℕ)
  unfolding is_inner all_some
  model_inputs token_ids =
      let inputs = runtime.build_inputs_with_special_tokens token_ids in
      let types = runtime.create_token_type_ids_from_sequences token_ids in
      elim (all_some inputs) [
        | none ↦ raise layout
        | some found ↦
            if length inputs == length token_ids + 2
              && leb 2 (length inputs)
              && leb (length inputs) 512
              && is_inner (slice inputs 1 (length inputs - 1)) token_ids
              && length types == length inputs
              && all is_zero types
            then ok found
            else raise layout
      ]

  -- The labels and the scores of the rows at the positions.
  unfoldable pub read_rows :
      List Text → List Row → List ℕ → Result Failure (List (Prediction Score))
  read_rows labels rows [] = ok []
  read_rows labels rows (p ∷ positions) = elim (get_elem? rows p) [
    | none ↦ raise out_of_range
    | some row ↦ elim (get_elem? labels (runtime.winner row).0) [
      | none ↦ raise out_of_range
      | some tag ↦
          read_rows labels rows positions
          >>= (λ rest. ok (record { tag = tag; score = (runtime.winner row).1 } ∷ rest))
    ]
  ]

  unfoldable pub has_shape : ℕ → ℕ → List Row → Bool
  has_shape size labels rows = length rows == size && all (λ row. runtime.width row == labels) rows

  unfoldable pub predict_window :
      List Text → List ℕ → List ℕ → Result Failure (List (Prediction Score))
  unfolding model_inputs read_rows has_shape
  predict_window labels token_ids first_positions = model_inputs token_ids >>= (λ inputs.
      elim (runtime.run ((inputs, repeat (length inputs) 1) ∷ [])) [
        | none ↦ raise wrong_logits
        | some [] ↦ raise wrong_logits
        | some (rows ∷ []) ↦
            if has_shape (length token_ids + 2) (length labels) rows
            then read_rows labels rows first_positions
            else raise wrong_logits
        | some (rows ∷ more ∷ others) ↦ raise wrong_logits
      ])
