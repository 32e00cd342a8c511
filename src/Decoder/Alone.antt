-- ===== src/Decoder/Alone.antt =====
-- What `_document_windows` prepares of a text, and `_finish` makes of it, is what `word_predict` returns.
use seif_pii.Base.{
  List-cases, ℕ, ◌≡◌, refl, sym, ◌∙◌, inl, inr, Option, some, List, [], ◌∷◌, arith, map, length,
}
use seif_pii.Base.Result.{Result, ok, raise, ◌>>=◌, Result-cases}
use seif_pii.Text.{Text, Unicode}
use seif_pii.Decoder.Words.{Token, words_with_offsets}
use seif_pii.Decoder.Windows.{
  Failure, Prediction, entry, repeat, all_some, predict_from, predict_words,
}
use seif_pii.Decoder.Prepared.{Window, windows_from}
use seif_pii.Decoder.Predicting.{in_turn-windows_from, all_some-Filled, collected}
use seif_pii.Decoder.Assigning.{length-map}
use seif_pii.Decoder.Reading.{Runtime, outside, label_inventory, tokenize, predict_window}
use seif_pii.Decoder.Entities.{Entity, bridge_punctuation, entities_from, entities}
use seif_pii.Decoder.Sequential.{place, active_from, values, labelled, word_predict}
use seif_pii.Decoder.Counting.{tokenize-IsCounted, kept, kept-Fits, kept-sum}
use seif_pii.Decoder.Model.{IsModel, length-label_inventory, predict_window-answers}
use seif_pii.Decoder.Budget.{sum}
use seif_pii.Decoder.Batch.{Document, document_windows}
use seif_pii.Decoder.Replay.{finish_document}
use seif_pii.Decoder.Replaying.{Alone}
use seif_pii.Decoder.Outside.{outsides, entities-outsides, windows_from-calls, windows_from-empty}

module _ {Row Score : Type 0} (u : Unicode) (runtime : Runtime Row Score) where
  abbrev blank : List Text → List (Prediction Score)
  blank words = repeat (length words) (record { tag = outside; score = runtime.certain })

  -- The end that `word_predict` and `_finish` have in common.
  abbrev ending :
      Text → List Token → List ℕ → List (Prediction Score) → Result Failure (List (Entity Score))
  ending text tokens active found = place active found (blank (values tokens)) >>= (λ predicted.
      entities runtime.mean text tokens
        (bridge_punctuation runtime.weaker (values tokens) predicted))

  finish_document-ending :
      (d : Document) (output : List (Option (Prediction Score))) (found : List (Prediction Score))
      → all_some output ≡ some found
      → finish_document runtime d output ≡ ending d.text d.tokens d.active found
  unfolding finish_document
  finish_document-ending d output found e = ground (arith, e)

  predict_words-empty :
      (predict : List ℕ → List ℕ → Result Failure (List (Prediction Score))) (ids : List ℕ)
      (found : List (Prediction Score))
      → predict_words predict ids [] ≡ ok found
      → found ≡ []
  unfolding predict_words predict_from all_some
  predict_words-empty predict ids found e = ground arith

  labelled-place :
      (labels words : List Text) (ids counts : List ℕ) (found : List (Prediction Score))
      → predict_words (predict_window runtime labels) ids (kept counts) ≡ ok found
      → labelled u runtime labels (length words) ids counts
        ≡ place (active_from 0 counts) found (blank words)
  unfolding labelled place
  labelled-place labels words ids counts found e = elim (List-cases (active_from 0 counts)) [
    | inl none_left ↦
        let e' : predict_words (predict_window runtime labels) ids [] ≡ ok found =
          rw none_left at e in
        let none_found : found ≡ [] =
          predict_words-empty (predict_window runtime labels) ids found e' in
        rw (none_left, none_found) refl
    | inr (i, rest, more) ↦ rw more (let e' = rw more at e in ground (arith, e'))
  ]

  word_predict-ending :
      (text : Text) (labels : List Text) (encoded : List ℕ × List ℕ)
      (found : List (Prediction Score)) (t : Token) (ts : List Token)
      → words_with_offsets u text ≡ t ∷ ts
      → label_inventory runtime.id2label ≡ ok labels
      → tokenize runtime.is_control runtime.tokenizer (values (words_with_offsets u text))
        ≡ ok encoded
      → predict_words (predict_window runtime labels) encoded.0 (kept encoded.1) ≡ ok found
      → word_predict u runtime text
        ≡ ending text (words_with_offsets u text) (active_from 0 encoded.1) found
  unfolding word_predict
  word_predict-ending text labels encoded found t ts e f g h =
      let g' = rw e at g in
      rw (e, f, g', labelled-place labels (values (t ∷ ts)) encoded.0 encoded.1 found h) refl

  ending-empty :
      (text : Text) (tokens : List Token) (active : List ℕ) (found : List (Prediction Score))
      → active ≡ []
      → found ≡ []
      → ending text tokens active found ≡ ok []
  unfolding place outsides
  ending-empty text tokens active found e f =
      rw (e, f) (entities-outsides runtime.certain runtime.mean runtime.weaker text tokens)

  map-empty : (f : ℕ → ℕ) (xs : List ℕ) → map f xs ≡ [] → xs ≡ []
  map-empty f [] e = refl
  map-empty f (x ∷ xs) e = absurd (ground arith)

  bare-ending :
      (labels : List Text) (text : Text) (tokens : List Token) (ids counts : List ℕ)
      (found : List (Prediction Score))
      → kept counts ≡ []
      → predict_words (predict_window runtime labels) ids (kept counts) ≡ ok found
      → ending text tokens (active_from 0 counts) found ≡ ok []
  bare-ending labels text tokens ids counts found bare predicted =
      ending-empty text tokens (active_from 0 counts) found
        (map-empty (entry counts) (active_from 0 counts) bare)
        (predict_words-empty (predict_window runtime labels) ids found (rw bare at predicted))

  document_windows-some :
      (text : Text) (encoded : List ℕ × List ℕ) (t : Token) (ts : List Token)
      → words_with_offsets u text ≡ t ∷ ts
      → tokenize runtime.is_control runtime.tokenizer (values (words_with_offsets u text))
        ≡ ok encoded
      → document_windows u runtime text
        ≡ ok (
          record {
            text = text;
            tokens = words_with_offsets u text;
            active = active_from 0 encoded.1;
          },
          windows_from encoded.0 (kept encoded.1) (length (kept encoded.1)) 0 0,
        )
  unfolding document_windows
  document_windows-some text encoded t ts e g = let g' = rw e at g in rw (e, g') refl

  tokenized_text :
      (logits : List ℕ → List Row) (pad : ℕ)
      → IsModel runtime logits pad
      → (labels : List Text) → label_inventory runtime.id2label ≡ ok labels
      → (text : Text) (t : Token) (ts : List Token) (encoded : List ℕ × List ℕ)
        (answer : List (Entity Score))
      → words_with_offsets u text ≡ t ∷ ts
      → tokenize runtime.is_control runtime.tokenizer (values (words_with_offsets u text))
        ≡ ok encoded
      → word_predict u runtime text ≡ ok answer
      → (document : Document × List Window) × Alone u runtime
          (predict_window runtime labels)
          text
          document
          answer
  tokenized_text logits pad model labels f text t ts encoded answer e g w =
      let c =
        tokenize-IsCounted runtime.is_control runtime.tokenizer (values (words_with_offsets u text))
          encoded g in
      let fits = kept-Fits encoded.1 c.fits in
      let aligned : length encoded.0 ≡ sum (kept encoded.1) =
        c.aligned ∙ sym (kept-sum encoded.1) in
      let answers =
        predict_window-answers runtime logits pad model labels
          (length-label_inventory runtime.id2label labels f) in
      let (output, turned, size, filled) =
        in_turn-windows_from (predict_window runtime labels) encoded.0 (kept encoded.1) answers fits
          aligned in
      let (found, some_all, back) =
        all_some-Filled (predict_window runtime labels) encoded.0 (kept encoded.1) answers output
          (λ i h. let (p, here, origin) = filled i (omega (arith, size)) in (p, here)) in
      let predicted =
        collected (predict_window runtime labels) encoded.0 (kept encoded.1) answers output found
          turned some_all in
      let d : Document = record {
        text = text;
        tokens = words_with_offsets u text;
        active = active_from 0 encoded.1;
      } in
      let end : finish_document runtime d output ≡ ok answer =
        finish_document-ending d output found some_all
        ∙ sym (word_predict-ending text labels encoded found t ts e f g predicted)
        ∙ w in
      (
        (d, windows_from encoded.0 (kept encoded.1) (length (kept encoded.1)) 0 0),
        record {
          prepared = document_windows-some text encoded t ts e g;
          calls = windows_from-calls encoded.0 (kept encoded.1) fits aligned;
          output = output;
          turned = rw (sym (length-map (entry encoded.1) (active_from 0 encoded.1))) turned;
          finished = end;
          empty = λ none_left.
              let bare = windows_from-empty encoded.0 (kept encoded.1) none_left in
              let e' =
                word_predict-ending text labels encoded found t ts e f g predicted
                ∙ bare-ending labels text (words_with_offsets u text) encoded.0 encoded.1 found bare
                    predicted in
              ground (arith, e', w);
          wordless = λ bare. absurd (ground (arith, bare, e));
        },
      )

  tokenize-ok :
      (text : Text) (t : Token) (ts : List Token) (labels : List Text)
      (answer : List (Entity Score))
      → words_with_offsets u text ≡ t ∷ ts
      → label_inventory runtime.id2label ≡ ok labels
      → word_predict u runtime text ≡ ok answer
      → (encoded : List ℕ × List ℕ) × (tokenize runtime.is_control runtime.tokenizer
            (values (words_with_offsets u text))
          ≡ ok encoded)
  unfolding word_predict
  tokenize-ok text t ts labels answer e f w =
      elim (Result-cases
        (tokenize runtime.is_control runtime.tokenizer (values (words_with_offsets u text)))) [
          | inl (failure, g) ↦
              let g' = rw e at g in
              let w' : ◌≡◌ {A = Result Failure (List (Entity Score))} (raise failure) (ok answer) =
                rw (e, f, g') at w in
              absurd (ground arith)
          | inr (encoded, g) ↦ (encoded, g)
        ]

  wordless-Alone :
      (labels : List Text) (text : Text) (answer : List (Entity Score))
      → words_with_offsets u text ≡ []
      → word_predict u runtime text ≡ ok answer
      → (document : Document × List Window) × Alone u runtime
          (predict_window runtime labels)
          text
          document
          answer
  unfolding word_predict document_windows finish_document all_some place bridge_punctuation entities
      entities_from
  wordless-Alone labels text answer e w =
      let d : Document = record { text = text; tokens = []; active = [] } in
      let bare : answer ≡ [] = ground (arith, e, w) in
      (
        (d, []),
        record {
          prepared = rw e refl;
          calls = tt;
          output = [];
          turned = refl;
          finished = rw bare refl;
          empty = λ h. bare;
          wordless = λ h. refl;
        },
      )

  -- Each text that `word_predict` answers is prepared for the batch.
  pub word_predict-Alone :
      (logits : List ℕ → List Row) (pad : ℕ)
      → IsModel runtime logits pad
      → (labels : List Text) → label_inventory runtime.id2label ≡ ok labels
      → (text : Text) (answer : List (Entity Score)) → word_predict u runtime text ≡ ok answer
      → (document : Document × List Window) × Alone u runtime
          (predict_window runtime labels)
          text
          document
          answer
  word_predict-Alone logits pad model labels f text answer w =
      elim (List-cases (words_with_offsets u text)) [
        | inl e ↦ wordless-Alone labels text answer e w
        | inr (t, ts, e) ↦
            let (encoded, g) = tokenize-ok text t ts labels answer e f w in
            tokenized_text logits pad model labels f text t ts encoded answer e g w
      ]
