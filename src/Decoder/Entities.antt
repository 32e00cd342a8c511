-- ===== src/Decoder/Entities.antt =====
-- seif/rubert_decoder.py: `_bridge_punctuation`, `_entities` and `word_predict`.
use seif_pii.Base.{
  ℕ, Bool, true, false, not, ◌&&◌, ◌||◌, Option, none, some, List, [], ◌∷◌, ◌++◌, ◌==◌, slice, drop,
  all, any, if◌then◌else◌,
}
use seif_pii.Base.Result.{Result, ok, raise, ◌>>=◌}
use seif_pii.Text.{Text, codes, text_eq}
use seif_pii.Decoder.Words.{Token}
use seif_pii.Decoder.Windows.{Failure, uneven, Prediction}
use seif_pii.Decoder.Reading.{outside}

abbrev pub unbridged : List Text
unbridged =
    codes "FIRST_NAME"
    ∷ codes "LAST_NAME"
    ∷ codes "MIDDLE_NAME"
    ∷ codes "CITY"
    ∷ codes "COUNTRY"
    ∷ codes "DISTRICT"
    ∷ codes "REGION"
    ∷ codes "STREET"
    ∷ codes "HOUSE"
    ∷ []

-- `_BRIDGE`
abbrev pub bridges : Text
bridges = codes ".,;:!?"

-- An element of the result of `_entities`.
pub record Entity (Score : Type 0) : Type 0 where
  pub start : ℕ
  pub end : ℕ
  pub label : Text
  pub score : Score
  pub text : Text

pub record Active : Type 0 where
  pub start : ℕ
  pub end : ℕ
  pub label : Text

unfoldable pub is_bridge : Text → Bool
is_bridge word = all (λ c. any (λ b. c == b) bridges) word

-- `None if tag == "O" else tag[2:]`
unfoldable pub label_in : Text → Option Text
unfolding text_eq
label_in tag = if text_eq tag outside then none else some (drop 2 tag)

-- The active run, if it has the label.
abbrev pub continued : Option Active → Option Text → Bool
continued none label = true
continued (some a) none = false
continued (some a) (some label) = text_eq a.label label

-- The run that the word begins or goes on with.
abbrev pub extended : Option Active → Option Text → Token → Option Active
extended active none w = active
extended none (some label) w = some (record { start = w.start; end = w.end; label = label })
extended (some a) (some label) w = some (record a { end = w.end })

module _ {Score : Type 0} where
  -- One round of the loop of `_bridge_punctuation`, between the neighbours as they are then.
  unfoldable pub bridge :
      (Score → Score → Score)
      → Text
      → Prediction Score
      → Prediction Score
      → Prediction Score
      → Prediction Score
  unfolding text_eq is_bridge
  bridge weaker word previous here following =
      let label = drop 2 previous.tag in
      if not (text_eq here.tag outside) || not (is_bridge word)
      then here
      else if not (text_eq previous.tag outside)
          && not (text_eq following.tag outside)
          && text_eq label (drop 2 following.tag)
          && not (any (text_eq label) unbridged)
      then record { tag = codes "I-" ++ label; score = weaker previous.score following.score }
      else here

  -- The loop, behind a word with its prediction; the last word stays.
  unfoldable pub bridge_from :
      (Score → Score → Score)
      → Prediction Score
      → List Text
      → List (Prediction Score)
      → List (Prediction Score)
  unfolding bridge
  bridge_from weaker previous (word ∷ words) (here ∷ following ∷ rest) =
      let result = bridge weaker word previous here following in
      result ∷ bridge_from weaker result words (following ∷ rest)
  bridge_from weaker previous words predicted = predicted

  unfoldable pub bridge_punctuation :
      (Score → Score → Score) → List Text → List (Prediction Score) → List (Prediction Score)
  unfolding bridge_from
  bridge_punctuation weaker (word ∷ words) (first ∷ predicted) =
      first ∷ bridge_from weaker first words predicted
  bridge_punctuation weaker words predicted = predicted

  -- The entity that the active run of words makes, and the list with it.
  unfoldable pub finish : (List Score → Score) → Text → Active → List Score → Entity Score
  finish mean text a scores = record {
    start = a.start;
    end = a.end;
    label = a.label;
    score = mean scores;
    text = slice text a.start a.end;
  }

  abbrev pub close : (List Score → Score) → Text → Option Active → List Score → List (Entity Score)
  close mean text none scores = []
  close mean text (some a) scores = finish mean text a scores ∷ []

  abbrev pub scored : Option Text → Score → List Score → List Score
  scored none score scores = scores
  scored (some label) score scores = scores ++ score ∷ []

  -- The loop of `_entities`, which fails where the two lists end at different places.
  unfoldable pub entities_from :
      (List Score → Score)
      → Text
      → Option Active
      → List Score
      → List Token
      → List (Prediction Score)
      → Result Failure (List (Entity Score))
  unfolding label_in
  entities_from mean text active scores [] [] = ok (close mean text active scores)
  entities_from mean text active scores (w ∷ ws) (p ∷ ps) =
      let label = label_in p.tag in
      if continued active label
      then entities_from mean text (extended active label w) (scored label p.score scores) ws ps
      else entities_from mean text (extended none label w) (scored label p.score []) ws ps
        >>= (λ rest. ok (close mean text active scores ++ rest))
  entities_from mean text active scores ws ps = raise uneven

  unfoldable pub entities :
      (List Score → Score)
      → Text
      → List Token
      → List (Prediction Score)
      → Result Failure (List (Entity Score))
  unfolding entities_from
  entities mean text tokens predicted = entities_from mean text none [] tokens predicted
