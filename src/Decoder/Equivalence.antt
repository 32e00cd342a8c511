-- ===== src/Decoder/Equivalence.antt =====
-- `word_predict_batch` returns what `word_predict` returns of each text.
use seif_pii.Base.{
  List-cases, ℕ, suc, ◌+◌, ◌≤◌, ◌<◌, ◌≡◌, refl, ap, ◌∙◌, true, false, not, inl, inr, Bool-cases,
  Option, List, [], ◌∷◌, arith, length, null, any, ltb, if◌then◌else◌, All, All-append, All-of_In,
  All-In,
}
use seif_pii.Base.Result.{Result, ok, ◌>>=◌, Result-cases}
use seif_pii.Text.{Text, Unicode}
use seif_pii.Decoder.Windows.{Failure, Prediction, repeat}
use seif_pii.Decoder.Prepared.{Window}
use seif_pii.Decoder.Reading.{Runtime, label_inventory, predict_window}
use seif_pii.Decoder.Entities.{Entity}
use seif_pii.Decoder.Sequential.{word_predict}
use seif_pii.Decoder.Model.{IsModel, length-label_inventory}
use seif_pii.Decoder.Batch.{
  is_batch_size, Document, Item, prepare, number_windows, number_all, group_from, predict_groups,
}
use seif_pii.Decoder.Replay.{
  replay, unwritten, finish_documents, has_words, predict_documents, word_predict_batch,
}
use seif_pii.Decoder.Predicted.{items_of, predict_groups-Answered}
use seif_pii.Decoder.Grouping.{Calls, Numbered, group_from-Groups, Answered-predicted_of}
use seif_pii.Decoder.Replaying.{
  AllAlone, number_all-Numbered, number_windows-Calls, replay-finish_documents,
}
use seif_pii.Decoder.Alone.{word_predict-Alone}

null-empty : {A : Type 0} (xs : List A) → not (null xs) ≡ false → xs ≡ []
null-empty [] h = refl
null-empty (x ∷ xs) h = absurd (ground arith)

batch_size-bounds : (n : ℕ) → is_batch_size n ≡ true → (0 < n) × (n ≤ 32)
unfolding is_batch_size
batch_size-bounds n h = (ground arith, ground arith)

module _ {Row Score : Type 0} (u : Unicode) (runtime : Runtime Row Score) where
  -- Reference: the texts one by one.
  unfoldable pub one_by_one : List Text → Result Failure (List (List (Entity Score)))
  one_by_one [] = ok []
  one_by_one (text ∷ texts) =
      word_predict u runtime text
      >>= (λ answer. one_by_one texts >>= (λ answers. ok (answer ∷ answers)))

  predict_documents-empty :
      (max_batch : ℕ) (labels : List Text) (documents : List (Document × List Window))
      → number_all 0 0 documents ≡ []
      → predict_documents runtime max_batch labels documents ≡ ok (repeat (length documents) [])
  unfolding predict_documents
  predict_documents-empty max_batch labels documents e = rw e refl

  predict_documents_step :
      (max_batch : ℕ) (labels : List Text) (documents : List (Document × List Window))
      (groups : List (ℕ × List Item)) (store : List (ℕ × List (Prediction Score)))
      (outputs : List (List (Option (Prediction Score)))) (answers : List (List (Entity Score)))
      (i : Item) (items : List Item)
      → number_all 0 0 documents ≡ i ∷ items
      → group_from (number_all 0 0 documents) [] ≡ ok groups
      → predict_groups runtime labels max_batch groups ≡ ok store
      → replay store (number_all 0 0 documents) (unwritten documents) ≡ ok outputs
      → finish_documents runtime documents outputs ≡ ok answers
      → predict_documents runtime max_batch labels documents ≡ ok answers
  unfolding predict_documents
  predict_documents_step max_batch labels documents groups store outputs answers i items more e f g
        k =
      let e' = rw more at e in let g' = rw more at g in rw (more, e', f, g', k) refl

  batch_step :
      (max_batch : ℕ) (texts : List Text) (documents : List (Document × List Window))
      (labels : List Text)
      → is_batch_size max_batch ≡ true
      → length texts ≤ 32
      → prepare u runtime texts ≡ ok documents
      → (if any has_words documents then label_inventory runtime.id2label else ok []) ≡ ok labels
      → word_predict_batch runtime u max_batch texts
        ≡ predict_documents runtime max_batch labels documents
  unfolding word_predict_batch
  batch_step max_batch texts documents labels good few e f =
      let fits : ltb 32 (length texts) ≡ false = ground arith in rw (good, fits, e, f) refl

  module _ (logits : List ℕ → List Row) (pad : ℕ) (model : IsModel runtime logits pad)
      (labels : List Text) (inventory : label_inventory runtime.id2label ≡ ok labels) where
    one_by_one-AllAlone :
        (texts : List Text) (answers : List (List (Entity Score)))
        → one_by_one texts ≡ ok answers
        → (documents : List (Document × List Window)) × (prepare u runtime texts ≡ ok documents)
          × AllAlone u runtime (predict_window runtime labels) texts documents answers
    unfolding one_by_one prepare
    one_by_one-AllAlone [] answers e =
        let bare : [] ≡ answers = ground arith in ([], refl, rw (← bare) tt)
    one_by_one-AllAlone (text ∷ texts) answers e =
        elim (Result-cases (word_predict u runtime text)) [
          | inl (f, failed) ↦ absurd (ground (arith, failed))
          | inr (answer, here) ↦ elim (Result-cases (one_by_one texts)) [
            | inl (f, failed) ↦ absurd (ground (arith, here, failed))
            | inr (rest, there) ↦
                let same : answer ∷ rest ≡ answers = ground (arith, here, there) in
                let (document, alone) =
                  word_predict-Alone u runtime logits pad model labels inventory text answer here in
                let (documents, prepared, others) = one_by_one-AllAlone texts rest there in
                (
                  document ∷ documents,
                  rw (alone.prepared, prepared) refl,
                  rw (← same) (alone, others),
                )
          ]
        ]

    number_all-Calls :
        (number document : ℕ) (texts : List Text) (documents : List (Document × List Window))
        (answers : List (List (Entity Score)))
        → AllAlone u runtime (predict_window runtime labels) texts documents answers
        → All Calls (number_all number document documents)
    unfolding number_all
    number_all-Calls number document texts [] answers h = tt
    number_all-Calls number document [] (d ∷ documents) answers h = absurd h
    number_all-Calls number document (t ∷ texts) (d ∷ documents) [] h = absurd h
    number_all-Calls number document (t ∷ texts) (d ∷ documents) (a ∷ answers) (h, hs) =
        All-append Calls (number_windows number document d.1)
          (number_all (number + length d.1) (suc document) documents)
          (number_windows-Calls number document d.1 h.calls)
          (number_all-Calls (number + length d.1) (suc document) texts documents answers hs)

    -- Without a window, no text has an entity.
    number_all-empty :
        (number document : ℕ) (texts : List Text) (documents : List (Document × List Window))
        (answers : List (List (Entity Score)))
        → AllAlone u runtime (predict_window runtime labels) texts documents answers
        → number_all number document documents ≡ []
        → repeat (length documents) [] ≡ answers
    unfolding number_all number_windows
    number_all-empty number document [] [] [] h e = refl
    number_all-empty number document [] [] (a ∷ answers) h e = absurd h
    number_all-empty number document [] (d ∷ documents) answers h e = absurd h
    number_all-empty number document (t ∷ texts) [] answers h e = absurd h
    number_all-empty number document (t ∷ texts) (d ∷ documents) [] h e = absurd h
    number_all-empty number document (t ∷ texts) ((d, w ∷ ws) ∷ documents) (a ∷ answers) (h, hs) e =
        absurd (ground arith)
    number_all-empty number document (t ∷ texts) ((d, []) ∷ documents) (a ∷ answers) (h, hs) e =
        rw (h.empty refl) (
          ap (λ xs. [] ∷ xs)
            (number_all-empty (number + 0) (suc document) texts documents answers hs e))

    wordless-number_all :
        (number document : ℕ) (texts : List Text) (documents : List (Document × List Window))
        (answers : List (List (Entity Score)))
        → AllAlone u runtime (predict_window runtime labels) texts documents answers
        → any has_words documents ≡ false
        → number_all number document documents ≡ []
    unfolding number_all number_windows
    wordless-number_all number document texts [] answers h e = refl
    wordless-number_all number document [] (d ∷ documents) answers h e = absurd h
    wordless-number_all number document (t ∷ texts) (d ∷ documents) [] h e = absurd h
    wordless-number_all number document (t ∷ texts) ((d, ws) ∷ documents) (a ∷ answers) (h, hs) e =
        let bare : d.tokens ≡ [] = null-empty d.tokens (ground (arith, e)) in
        let later : any has_words documents ≡ false = ground (arith, e) in
        let none_here = h.wordless bare in
        rw none_here
          (wordless-number_all (number + 0) (suc document) texts documents answers hs later)

    -- The windows predicted in groups, written in their order.
    predict_documents-answers :
        (max_batch : ℕ) (texts : List Text) (documents : List (Document × List Window))
        (answers : List (List (Entity Score)))
        → 0 < max_batch
        → max_batch ≤ 32
        → AllAlone u runtime (predict_window runtime labels) texts documents answers
        → predict_documents runtime max_batch labels documents ≡ ok answers
    predict_documents-answers max_batch texts documents answers p q alone =
        elim (List-cases (number_all 0 0 documents)) [
          | inl none_left ↦
              predict_documents-empty max_batch labels documents none_left
              ∙ ap (λ x. ok x) (number_all-empty 0 0 texts documents answers alone none_left)
          | inr (i, items, more) ↦
              let all_items : List Item = number_all 0 0 documents in
              let n : length labels ≡ 43 =
                length-label_inventory runtime.id2label labels inventory in
              let calls = number_all-Calls 0 0 texts documents answers alone in
              let numbered = number_all-Numbered [] 0 0 documents refl in
              let (groups, e, grouped, numbered', all_in) =
                group_from-Groups (Numbered all_items) all_items [] calls numbered tt tt in
              let (store, f, answered) =
                predict_groups-Answered runtime logits pad model labels n max_batch groups p q
                  grouped in
              let (outputs, g, k) =
                replay-finish_documents u runtime (predict_window runtime labels) store 0 texts
                  documents answers [] alone
                  (All-of_In _ all_items (λ j m.
                    Answered-predicted_of runtime logits pad model labels n all_items
                      (items_of groups) store j numbered'
                      (All-In (Numbered all_items) j all_items numbered m) answered
                      (all_in j (inl m)))) in
              predict_documents_step max_batch labels documents groups store outputs answers i items
                more e f g k
        ]

    -- The model has the labels it should have and answers each row of a batch by itself, whatever the padding;
    -- `max_batch` is one of 1, 2, 4, 8, 16 and 32, and there are at most 32 texts. If `word_predict` returns
    -- for each of the texts, then `word_predict_batch` returns their answers in the same order, although the
    -- windows of all texts were predicted in groups of the same padded length.
    pub word_predict_batch-one_by_one :
        (max_batch : ℕ) (texts : List Text) (answers : List (List (Entity Score)))
        → is_batch_size max_batch ≡ true
        → length texts ≤ 32
        → one_by_one texts ≡ ok answers
        → word_predict_batch runtime u max_batch texts ≡ ok answers
    word_predict_batch-one_by_one max_batch texts answers good few e =
        let (documents, prepared, alone) = one_by_one-AllAlone texts answers e in
        let (p, q) = batch_size-bounds max_batch good in
        elim (Bool-cases (any has_words documents)) [
          | inl some_words ↦
              batch_step max_batch texts documents labels good few prepared
                (rw some_words inventory)
              ∙ predict_documents-answers max_batch texts documents answers p q alone
          | inr no_words ↦
              let none_left = wordless-number_all 0 0 texts documents answers alone no_words in
              batch_step max_batch texts documents [] good few prepared (rw no_words refl)
              ∙ predict_documents-empty max_batch [] documents none_left
              ∙ ap (λ x. ok x) (number_all-empty 0 0 texts documents answers alone none_left)
        ]
