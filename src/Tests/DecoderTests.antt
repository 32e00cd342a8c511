-- ===== src/Tests/DecoderTests.antt =====
-- Instances of the theorems on seif/rubert_decoder.py and seif/rubert_batch.py.
use seif_pii.Base.{ℕ, ◌≡◌, refl, Bool, true, List, [], ◌∷◌, map, arith, length, get_elem?, some}
use seif_pii.Base.Result.{Result, ok}
use seif_pii.Text.{Text, codes, ascii, text_eq}
use seif_pii.Tests.DecoderModel.{toy, toy-IsModel, number_from}
use seif_pii.Decoder.Words.{
  Token, words_with_offsets, split_all, split_dots, dots, lstrip_dots, rstrip_dots, matches_from,
  run_length, is_delimiter,
}
use seif_pii.Decoder.Slicing.{Tiles, words_with_offsets-Tiles}
use seif_pii.Decoder.Windows.{
  Failure, Prediction, predict_words, predict_from, all_some, window_end, window_end_from,
  ownership, margin_words, margin_from, positions_from, next_start,
}
use seif_pii.Decoder.Assigning.{length-map}
use seif_pii.Decoder.Predicting.{IsPredicted, predict_words-IsPredicted}
use seif_pii.Decoder.Reading.{
  outside, names, tags_of, expected, label_of, labels_from, label_inventory, count_owners,
  all_visible, bert_ignored_word, tokenize, is_inner, model_inputs, read_rows, has_shape,
  predict_window,
}
use seif_pii.Decoder.Entities.{
  Entity, is_bridge, bridge, bridge_from, bridge_punctuation, finish, label_in, entities_from,
  entities,
}
use seif_pii.Decoder.Sequential.{place, active_from, labelled, word_predict}
use seif_pii.Decoder.Batch.{is_batch_size}
use seif_pii.Decoder.Replay.{word_predict_batch}
use seif_pii.Decoder.Equivalence.{one_by_one, word_predict_batch-one_by_one}
use seif_pii.Decoder.Placing.{Ordered, AllPlaced, entities-AllPlaced}
use seif_pii.Decoder.Graphs.{
  Shape, Backend, is_kept_shape, new_backend, run, inner, plain, batched, install, Reachable, start,
  installed, ran,
}
use seif_pii.Decoder.Capping.{Capped, Reachable-Capped}

abbrev word : Text → ℕ → ℕ → Token
word t i j = record { value = t; start = i; end = j }

words_test :
    words_with_offsets ascii (codes ".A.b.. (x")
    ≡ word (codes ".") 0 1
      ∷ word (codes "A.b") 1 4
      ∷ word (codes ".") 4 5
      ∷ word (codes ".") 5 6
      ∷ word (codes "(") 7 8
      ∷ word (codes "x") 8 9
      ∷ []
unfolding words_with_offsets split_all split_dots dots lstrip_dots rstrip_dots matches_from
    run_length is_delimiter
words_test = refl

dotted : Text
dotted = codes ".A.b.. (x"

words_with_offsets-Tiles_example :
    Tiles ascii 0 (codes ".A.b.. (x") (words_with_offsets ascii (codes ".A.b.. (x"))
words_with_offsets-Tiles_example = words_with_offsets-Tiles ascii (codes ".A.b.. (x")

-- Every subword gets the label `O`.
abbrev outsider : ℕ → Prediction ℕ
outsider p = record { tag = outside; score = p }

abbrev say_outside : List ℕ → List ℕ → Result Failure (List (Prediction ℕ))
say_outside tokens positions = ok (map outsider positions)

predict_words-IsPredicted_example :
    (out : List (Prediction ℕ)) × (predict_words say_outside (5 ∷ 6 ∷ 7 ∷ []) (2 ∷ 1 ∷ []) ≡ ok out)
    × (length out ≡ 2)
    × ((i : ℕ) (p : Prediction ℕ)
        → get_elem? out i ≡ some p
        → IsPredicted say_outside (5 ∷ 6 ∷ 7 ∷ []) (2 ∷ 1 ∷ []) i p)
predict_words-IsPredicted_example =
    predict_words-IsPredicted say_outside (5 ∷ 6 ∷ 7 ∷ []) (2 ∷ 1 ∷ [])
      (λ tokens positions h. (map outsider positions, refl, length-map outsider positions))
      (omega arith, (omega arith, tt)) refl

abbrev tagged : Text → ℕ → Prediction ℕ
tagged t s = record { tag = codes "B-"; score = s }

abbrev anna : List (Prediction ℕ)
anna = record { tag = codes "B-CITY"; score = 3 } ∷ record { tag = outside; score = 1 } ∷ []

abbrev found_city : Entity ℕ
found_city = record { start = 0; end = 4; label = codes "CITY"; score = 1; text = codes "Oslo" }

grouped_city :
    entities
      (λ (s : List ℕ). length s)
      (codes "Oslo is")
      (words_with_offsets ascii (codes "Oslo is"))
      anna
    ≡ ok (found_city ∷ [])
unfolding entities entities_from finish label_in text_eq words_with_offsets split_all split_dots
    dots lstrip_dots rstrip_dots matches_from run_length is_delimiter
grouped_city = refl

entities-AllPlaced_example :
    Ordered (codes "Oslo is") 0 (found_city ∷ [])
    × AllPlaced (found_city ∷ []) (words_with_offsets ascii (codes "Oslo is")) anna
entities-AllPlaced_example =
    entities-AllPlaced ascii (λ (s : List ℕ). length s) (codes "Oslo is") anna (found_city ∷ [])
      grouped_city

abbrev found_labels : List Text
found_labels = outside ∷ tags_of names

toy_inventory : label_inventory (number_from 0 expected) ≡ ok expected
unfolding label_inventory labels_from label_of expected tags_of text_eq all_some
toy_inventory = refl

abbrev two_words : Entity ℕ
two_words = record { start = 0; end = 4; label = codes "PASSPORT"; score = 2; text = codes "a bb" }

abbrev two_texts : List Text
two_texts = codes "a bb" ∷ codes " " ∷ []

one_by_one-toy : one_by_one ascii toy two_texts ≡ ok ((two_words ∷ []) ∷ [] ∷ [])
unfolding one_by_one word_predict labelled place active_from tokenize count_owners all_visible
    bert_ignored_word predict_words predict_from window_end window_end_from ownership margin_words
    margin_from positions_from next_start all_some predict_window model_inputs is_inner read_rows
    has_shape label_inventory labels_from label_of expected tags_of text_eq bridge_punctuation
    bridge_from bridge is_bridge entities entities_from finish label_in words_with_offsets split_all
    split_dots dots lstrip_dots rstrip_dots matches_from run_length is_delimiter
one_by_one-toy = refl

one_of_the_sizes : is_batch_size 8 ≡ true
unfolding is_batch_size
one_of_the_sizes = refl

word_predict_batch-one_by_one_example :
    word_predict_batch toy ascii 8 two_texts ≡ ok ((two_words ∷ []) ∷ [] ∷ [])
word_predict_batch-one_by_one_example =
    word_predict_batch-one_by_one ascii toy (λ inputs. inputs) 0 toy-IsModel expected toy_inventory
      8 two_texts ((two_words ∷ []) ∷ [] ∷ []) one_of_the_sizes (omega arith) one_by_one-toy

-- A cap of one context: the first shape is captured, the second is not.
abbrev capped : Backend
capped = record { max_batch = 8; max_contexts = 1; contexts = (4, 64) ∷ [] }

abbrev always : Shape → Bool
always s = true

installed_toy : Reachable (batched (record { max_batch = 8; max_contexts = 1; contexts = [] }))
unfolding install new_backend is_batch_size
installed_toy = installed 8 1 (plain true) (start true)

captured_toy : Reachable (batched capped)
unfolding run is_kept_shape
captured_toy =
    ran always (4 ∷ 64 ∷ []) (record { max_batch = 8; max_contexts = 1; contexts = [] })
      installed_toy

not_captured : run always (2 ∷ 64 ∷ []) capped ≡ (ok inner, capped)
unfolding run is_kept_shape
not_captured = refl

Reachable-Capped_example : Capped (batched capped)
Reachable-Capped_example = Reachable-Capped (batched capped) captured_toy
