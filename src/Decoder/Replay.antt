-- ===== src/Decoder/Replay.antt =====
-- seif/rubert_batch.py: the end of `word_predict_batch`, and the whole of it.
use seif_pii.Base.{
  ℕ, zero, suc, Bool, not, Option, none, some, List, [], ◌∷◌, ◌==◌, length, null, any, ltb,
  if◌then◌else◌, replace_at,
}
use seif_pii.Base.Result.{Result, ok, raise, ◌>>=◌}
use seif_pii.Text.{Text, Unicode}
use seif_pii.Decoder.Windows.{
  Failure, not_texts, batch_size, omitted_owner, unpredicted, Prediction, repeat, all_some,
}
use seif_pii.Decoder.Prepared.{Window, write}
use seif_pii.Decoder.Reading.{Runtime, outside, label_inventory}
use seif_pii.Decoder.Entities.{Entity, bridge_punctuation, entities}
use seif_pii.Decoder.Sequential.{place, values}
use seif_pii.Decoder.Batch.{
  max_documents, is_batch_size, Document, Item, prepare, predict_groups, group_from, number_all,
}

module _ {Score : Type 0} where
  -- `window.predicted`, by the number of the window.
  unfoldable pub predicted_of :
      ℕ → List (ℕ × List (Prediction Score)) → Option (List (Prediction Score))
  predicted_of number [] = none
  predicted_of number ((n, ps) ∷ store) = if n == number then some ps else predicted_of number store

  -- The words of a document; its number is in range.
  abbrev pub visible_of :
      ℕ → List (List (Option (Prediction Score))) → List (Option (Prediction Score))
  visible_of document [] = []
  visible_of zero (v ∷ visible) = v
  visible_of (suc document) (v ∷ visible) = visible_of document visible

  -- The loop over the windows in their original order.
  unfoldable pub replay :
      List (ℕ × List (Prediction Score))
      → List Item
      → List (List (Option (Prediction Score)))
      → Result Failure (List (List (Option (Prediction Score))))
  replay store [] visible = ok visible
  replay store (i ∷ items) visible = elim (predicted_of i.number store) [
    | none ↦ raise unpredicted
    | some ps ↦
        replay store items
          (replace_at i.document (write i.window ps (visible_of i.document visible)) visible)
  ]

  -- `document.visible = [None] * len(counts)`
  abbrev pub unwritten : List (Document × List Window) → List (List (Option (Prediction Score)))
  unwritten [] = []
  unwritten ((d, ws) ∷ documents) = repeat (length d.active) none ∷ unwritten documents

abbrev pub has_words : Document × List Window → Bool
has_words (d, ws) = not (null d.tokens)

module _ {Row Score : Type 0} (runtime : Runtime Row Score) where
  -- `_finish`
  unfoldable pub finish_document :
      Document → List (Option (Prediction Score)) → Result Failure (List (Entity Score))
  finish_document d visible =
      let words = values d.tokens in
      elim (all_some visible) [
        | none ↦ raise omitted_owner
        | some found ↦
            place d.active found
              (repeat (length words) (record { tag = outside; score = runtime.certain }))
            >>= (λ predicted.
                entities runtime.mean d.text d.tokens
                  (bridge_punctuation runtime.weaker words predicted))
      ]

  unfoldable pub finish_documents :
      List (Document × List Window)
      → List (List (Option (Prediction Score)))
      → Result Failure (List (List (Entity Score)))
  finish_documents ((d, ws) ∷ documents) (v ∷ visible) =
      finish_document d v
      >>= (λ first. finish_documents documents visible >>= (λ others. ok (first ∷ others)))
  finish_documents documents visible = ok []

  -- From the windows to the answers.
  unfoldable pub predict_documents :
      ℕ → List Text → List (Document × List Window) → Result Failure (List (List (Entity Score)))
  predict_documents max_batch labels documents =
      let items = number_all 0 0 documents in
      if null items
      then ok (repeat (length documents) [])
      else group_from items [] >>= (λ groups.
        predict_groups runtime labels max_batch groups >>= (λ store.
          replay store items (unwritten documents)
          >>= (λ visible. finish_documents documents visible)))

  unfoldable pub word_predict_batch :
      Unicode → ℕ → List Text → Result Failure (List (List (Entity Score)))
  word_predict_batch u max_batch texts =
      if not (is_batch_size max_batch)
      then raise batch_size
      else if ltb max_documents (length texts)
      then raise not_texts
      else prepare u runtime texts >>= (λ documents.
        (if any has_words documents then label_inventory runtime.id2label else ok [])
        >>= (λ labels. predict_documents max_batch labels documents))
