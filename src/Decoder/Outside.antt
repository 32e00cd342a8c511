-- ===== src/Decoder/Outside.antt =====
-- Words labelled as outside make no entities, and windows are missing only where there is no word.
use seif_pii.Base.{
  ℕ, zero, suc, ◌+◌, ◌≡◌, refl, ap, inl, inr, Bool-cases, none, List, [], ◌∷◌, arith, length, max,
  All,
}
use seif_pii.Base.Result.{ok}
use seif_pii.Text.{Text}
use seif_pii.Decoder.Words.{Token}
use seif_pii.Decoder.Windows.{Prediction, repeat}
use seif_pii.Decoder.Prepared.{Window, windows_from}
use seif_pii.Decoder.Owned.{IsCall, Owned, windows_from-Owned}
use seif_pii.Decoder.Reading.{outside}
use seif_pii.Decoder.Entities.{
  is_bridge, bridge, bridge_from, bridge_punctuation, entities_from, entities, label_in,
}
use seif_pii.Decoder.Sequential.{values}
use seif_pii.Decoder.Coverage.{Fits}
use seif_pii.Decoder.Budget.{sum}

module _ {Score : Type 0} (certain : Score) where
  unfoldable pub outsides : ℕ → List (Prediction Score)
  outsides n = repeat n (record { tag = outside; score = certain })

  bridge-outside :
      (weaker : Score → Score → Score) (word : Text)
      → bridge weaker word
          (record { tag = outside; score = certain })
          (record { tag = outside; score = certain })
          (record { tag = outside; score = certain })
        ≡ record { tag = outside; score = certain }
  unfolding bridge
  bridge-outside weaker word = elim (Bool-cases (is_bridge word)) [
    | inl yes_it_is ↦ rw yes_it_is refl
    | inr other ↦ rw other refl
  ]

  bridge_from-outsides :
      (weaker : Score → Score → Score) (words : List Text) (n : ℕ)
      → bridge_from weaker (record { tag = outside; score = certain }) words (outsides n)
        ≡ outsides n
  unfolding bridge_from outsides
  bridge_from-outsides weaker [] n = refl
  bridge_from-outsides weaker (w ∷ words) zero = refl
  bridge_from-outsides weaker (w ∷ words) (suc zero) = refl
  bridge_from-outsides weaker (w ∷ words) (suc (suc n)) = rw (bridge-outside weaker w) (
      ap (λ xs. record { tag = outside; score = certain } ∷ xs)
        (bridge_from-outsides weaker words (suc n)))

  bridge_punctuation-outsides :
      (weaker : Score → Score → Score) (words : List Text) (n : ℕ)
      → bridge_punctuation weaker words (outsides n) ≡ outsides n
  unfolding bridge_punctuation outsides
  bridge_punctuation-outsides weaker [] n = refl
  bridge_punctuation-outsides weaker (w ∷ words) zero = refl
  bridge_punctuation-outsides weaker (w ∷ words) (suc n) =
      ap (λ xs. record { tag = outside; score = certain } ∷ xs)
        (bridge_from-outsides weaker words n)

  entities_from-outsides :
      (mean : List Score → Score) (text : Text) (tokens : List Token)
      → entities_from mean text none [] tokens (outsides (length (values tokens))) ≡ ok []
  unfolding entities_from label_in outsides
  entities_from-outsides mean text [] = refl
  entities_from-outsides mean text (w ∷ tokens) = entities_from-outsides mean text tokens

  pub entities-outsides :
      (mean : List Score → Score) (weaker : Score → Score → Score) (text : Text)
      (tokens : List Token)
      → entities mean text tokens
          (bridge_punctuation weaker (values tokens) (outsides (length (values tokens))))
        ≡ ok []
  unfolding entities
  entities-outsides mean weaker text tokens =
      rw (bridge_punctuation-outsides weaker (values tokens) (length (values tokens)))
        (entities_from-outsides mean text tokens)

Owned-calls :
    (ids counts : List ℕ) (next : ℕ) (ws : List Window)
    → Owned ids counts next ws
    → All (λ (w : Window). IsCall w.token_ids w.positions) ws
Owned-calls ids counts next [] h = tt
Owned-calls ids counts next (w ∷ ws) (k, meets, h) =
    (k.call, Owned-calls ids counts (max next (w.start + w.right)) ws h)

-- There is no window only where there is no word.
pub windows_from-calls :
    (ids counts : List ℕ)
    → Fits counts
    → length ids ≡ sum counts
    → All
        (λ (w : Window). IsCall w.token_ids w.positions)
        (windows_from ids counts (length counts) 0 0)
unfolding windows_from
windows_from-calls ids [] fits aligned = tt
windows_from-calls ids (c ∷ counts) fits aligned =
    Owned-calls ids (c ∷ counts) 0 (windows_from ids (c ∷ counts) (suc (length counts)) 0 0) (
      windows_from-Owned ids (c ∷ counts) fits aligned (suc (length counts)) 0 0 (omega arith)
        (omega arith) (omega arith) (omega arith))

pub windows_from-empty :
    (ids counts : List ℕ) → windows_from ids counts (length counts) 0 0 ≡ [] → counts ≡ []
unfolding windows_from
windows_from-empty ids [] e = refl
windows_from-empty ids (c ∷ counts) e = absurd (ground arith)
