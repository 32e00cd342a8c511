-- ===== src/Decoder/Sequential.antt =====
-- seif/rubert_decoder.py: `word_predict`.
use seif_pii.Base.{ℕ, suc, null, List, [], ◌∷◌, map, ◌==◌, length, if◌then◌else◌, replace_at}
use seif_pii.Base.Result.{Result, ok, raise, ◌>>=◌}
use seif_pii.Text.{Text, Unicode}
use seif_pii.Decoder.Words.{Token, words_with_offsets}
use seif_pii.Decoder.Windows.{Failure, uneven, Prediction, entry, repeat, predict_words}
use seif_pii.Decoder.Reading.{Runtime, outside, label_inventory, tokenize, predict_window}
use seif_pii.Decoder.Entities.{Entity, bridge_punctuation, entities}

module _ {Score : Type 0} where
  -- `predicted[index] = prediction` for each of the two lists.
  unfoldable pub place :
      List ℕ
      → List (Prediction Score)
      → List (Prediction Score)
      → Result Failure (List (Prediction Score))
  place [] [] predicted = ok predicted
  place (i ∷ indices) (p ∷ visible) predicted = place indices visible (replace_at i p predicted)
  place indices visible predicted = raise uneven

-- `[index for index, count in enumerate(counts) if count]`, from `i` on.
unfoldable pub active_from : ℕ → List ℕ → List ℕ
active_from i [] = []
active_from i (c ∷ counts) =
    let rest = active_from (suc i) counts in if c == 0 then rest else i ∷ rest

abbrev pub values : List Token → List Text
values tokens = map (λ (w : Token). w.value) tokens

module _ {Row Score : Type 0} (u : Unicode) (runtime : Runtime Row Score) where
  -- The labels of all words, those that the tokenizer leaves out among them.
  unfoldable pub labelled :
      List Text → ℕ → List ℕ → List ℕ → Result Failure (List (Prediction Score))
  labelled labels size ids counts =
      let active = active_from 0 counts in
      let predicted = repeat size (record { tag = outside; score = runtime.certain }) in
      if null active
      then ok predicted
      else predict_words (predict_window runtime labels) ids (map (entry counts) active)
        >>= (λ visible. place active visible predicted)

  unfoldable pub word_predict : Text → Result Failure (List (Entity Score))
  word_predict text =
      let tokens = words_with_offsets u text in
      let words = values tokens in
      if null tokens
      then ok []
      else label_inventory runtime.id2label >>= (λ labels.
        tokenize runtime.is_control runtime.tokenizer words >>= (λ encoded.
          labelled labels (length words) encoded.0 encoded.1 >>= (λ predicted.
            entities runtime.mean text tokens (bridge_punctuation runtime.weaker words predicted))))
