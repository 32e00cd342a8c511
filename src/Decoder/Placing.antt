-- ===== src/Decoder/Placing.antt =====
-- `_entities` groups the words: each labelled word lies in an entity of its label, and no other word does.
use seif_pii.Base.{
  ℕ, ◌≤◌, ◌<◌, ◌≡◌, refl, ◌∙◌, ◌⊎◌, true, false, inl, inr, Bool-cases, Option, none, some, List, [],
  ◌∷◌, ◌++◌, arith, slice, All, In,
}
use seif_pii.Base.Result.{ok, Result-cases}
use seif_pii.Text.{Text, Unicode, text_eq_sound}
use seif_pii.Decoder.Words.{Token, words_with_offsets}
use seif_pii.Decoder.Slicing.{Tiles, words_with_offsets-Tiles}
use seif_pii.Decoder.Windows.{Prediction}
use seif_pii.Decoder.Entities.{
  Entity, Active, finish, close, label_in, continued, extended, scored, entities_from, entities,
}

-- Words in order from `pos` on, none of them empty.
abbrev Follows : ℕ → List Token → Type 0
Follows pos [] = Unit
Follows pos (w ∷ ws) = (pos ≤ w.start) × (w.start < w.end) × Follows w.end ws

Tiles-Follows :
    (u : Unicode) (pos : ℕ) (rest : Text) (ws : List Token) → Tiles u pos rest ws → Follows pos ws
Tiles-Follows u pos rest [] h = tt
Tiles-Follows u pos rest (w ∷ ws) (gap, behind, e, space, a, b, c, solid, h) =
    (omega (arith, a), omega (arith, b, c), Tiles-Follows u w.end behind ws h)

-- The run that is active, where the words before `pos` end.
abbrev Runs : ℕ → Option Active → Type 0
Runs pos none = Unit
Runs pos (some a) = (a.start < a.end) × (a.end ≤ pos)

abbrev from : ℕ → Option Active → ℕ
from pos none = pos
from pos (some a) = a.start

Runs-extended :
    (pos : ℕ) (active : Option Active) (label : Option Text) (w : Token)
    → pos ≤ w.start
    → w.start < w.end
    → Runs pos active
    → Runs w.end (extended active label w)
Runs-extended pos none none w h k r = tt
Runs-extended pos (some a) none w h k (r, s) = (r, omega arith)
Runs-extended pos none (some label) w h k r = (k, omega arith)
Runs-extended pos (some a) (some label) w h k (r, s) = (omega arith, omega arith)

module _ {Score : Type 0} where
  -- Entities in order from `lo` on, none of them empty, each with its piece of the text.
  abbrev pub Ordered : Text → ℕ → List (Entity Score) → Type 0
  Ordered text lo [] = Unit
  Ordered text lo (e ∷ es) =
      (lo ≤ e.start)
      × (e.start < e.end)
      × (e.text ≡ slice text e.start e.end)
      × Ordered text e.end es

  -- Where a word of the label is found among the entities: in one of that label, or clear of all.
  abbrev pub Placed : List (Entity Score) → Token → Option Text → Type 0
  Placed es w none = All (λ (e : Entity Score). (e.end ≤ w.start) ⊎ (w.end ≤ e.start)) es
  Placed es w (some label) =
      (e : Entity Score) × In e es × (e.label ≡ label) × (e.start ≤ w.start) × (w.end ≤ e.end)

  abbrev pub AllPlaced : List (Entity Score) → List Token → List (Prediction Score) → Type 0
  AllPlaced es (w ∷ ws) (p ∷ ps) = Placed es w (label_in p.tag) × AllPlaced es ws ps
  AllPlaced es ws ps = Unit

  -- The entity that a run becomes.
  abbrev Kept : List (Entity Score) → Option Active → Type 0
  Kept es none = Unit
  Kept es (some a) =
      (e : Entity Score) × In e es × (e.label ≡ a.label) × (e.start ≡ a.start) × (a.end ≤ e.end)

  record ResultOf (text : Text) (pos : ℕ) (active : Option Active) (ws : List Token)
      (ps : List (Prediction Score)) (es : List (Entity Score)) : Type 0 where
    ordered : Ordered text (from pos active) es
    placed : AllPlaced es ws ps
    keeps : Kept es active

  Ordered-le :
      (text : Text) (lo lo' : ℕ) (es : List (Entity Score))
      → lo' ≤ lo
      → Ordered text lo es
      → Ordered text lo' es
  Ordered-le text lo lo' [] h k = tt
  Ordered-le text lo lo' (e ∷ es) h (a, b, c, k) = (omega arith, b, c, k)

  -- Entities from `lo` on are clear of what ends there.
  Ordered-clear :
      (text : Text) (lo : ℕ) (w : Token) (es : List (Entity Score))
      → w.end ≤ lo
      → Ordered text lo es
      → All (λ (e : Entity Score). (e.end ≤ w.start) ⊎ (w.end ≤ e.start)) es
  Ordered-clear text lo w [] h k = tt
  Ordered-clear text lo w (e ∷ es) h (a, b, c, k) =
      (inr (omega arith), Ordered-clear text e.end w es (omega arith) k)

  -- An entity in front of all words does not change where they are.
  Placed-front :
      (e : Entity Score) (es : List (Entity Score)) (w : Token) (label : Option Text)
      → e.end ≤ w.start
      → Placed es w label
      → Placed (e ∷ es) w label
  Placed-front e es w none h k = (inl h, k)
  Placed-front e es w (some label) h (e', m, k, l, n) = (e', inr m, k, l, n)

  AllPlaced-front :
      (e : Entity Score) (es : List (Entity Score)) (pos : ℕ) (ws : List Token)
      (ps : List (Prediction Score))
      → e.end ≤ pos
      → Follows pos ws
      → AllPlaced es ws ps
      → AllPlaced (e ∷ es) ws ps
  AllPlaced-front e es pos [] ps h k a = tt
  AllPlaced-front e es pos (w ∷ ws) [] h k a = tt
  AllPlaced-front e es pos (w ∷ ws) (p ∷ ps) h (k1, k2, k) (a, as_before) = (
    Placed-front e es w (label_in p.tag) (omega arith) a,
    AllPlaced-front e es w.end ws ps (omega arith) k as_before,
  )

  -- What the words behind a run say of the word that goes on with it.
  goes_on-ResultOf :
      (text : Text) (pos : ℕ) (active : Option Active) (label : Option Text) (w : Token)
      (ws : List Token) (ps : List (Prediction Score)) (es : List (Entity Score))
      → continued active label ≡ true
      → pos ≤ w.start
      → w.start < w.end
      → Runs pos active
      → ResultOf text w.end (extended active label w) ws ps es
      → Ordered text (from pos active) es × Placed es w label × Kept es active
  goes_on-ResultOf text pos none none w ws ps es c h k r x = (
    Ordered-le text w.end pos es (omega arith) x.ordered,
    Ordered-clear text w.end w es (omega arith) x.ordered,
    tt,
  )
  goes_on-ResultOf text pos (some a) none w ws ps es c h k r x = absurd (ground arith)
  goes_on-ResultOf text pos none (some label) w ws ps es c h k r x =
      let (e, m, l, s, n) = x.keeps in
      (Ordered-le text w.start pos es h x.ordered, (e, m, l, omega (arith, s), n), tt)
  goes_on-ResultOf text pos (some a) (some label) w ws ps es c h k (r, q) x =
      let (e, m, l, s, n) = x.keeps in
      let same = text_eq_sound a.label label c in
      (x.ordered, (e, m, l ∙ same, omega (arith, s), n), (e, m, l, s, omega (arith, n)))

  close-ResultOf :
      (mean : List Score → Score) (text : Text) (active : Option Active) (scores : List Score)
      (pos : ℕ)
      → Runs pos active
      → ResultOf text pos active [] [] (close mean text active scores)
  unfolding finish
  close-ResultOf mean text none scores pos r = record { ordered = tt; placed = tt; keeps = tt }
  close-ResultOf mean text (some a) scores pos (r, s) = record {
    ordered = (omega arith, r, refl, tt);
    placed = tt;
    keeps = (finish mean text a scores, inl refl, refl, refl, omega arith);
  }

  -- A word that does not go on with the run ends it.
  stops-ResultOf :
      (mean : List Score → Score) (text : Text) (pos : ℕ) (active : Option Active)
      (scores : List Score) (w : Token) (ws : List Token) (p : Prediction Score)
      (ps : List (Prediction Score)) (rest : List (Entity Score))
      → continued active (label_in p.tag) ≡ false
      → pos ≤ w.start
      → w.start < w.end
      → Follows w.end ws
      → Runs pos active
      → Ordered text pos rest
      → Placed rest w (label_in p.tag)
      → AllPlaced rest ws ps
      → ResultOf text pos active (w ∷ ws) (p ∷ ps) (close mean text active scores ++ rest)
  unfolding finish
  stops-ResultOf mean text pos none scores w ws p ps rest stops f1 f2 f r o q k =
      absurd (ground arith)
  stops-ResultOf mean text pos (some a) scores w ws p ps rest stops f1 f2 f (r, s) o q k = record {
    ordered = (omega arith, r, refl, Ordered-le text pos a.end rest s o);
    placed = (
      Placed-front (finish mean text a scores) rest w (label_in p.tag) (omega arith) q,
      AllPlaced-front (finish mean text a scores) rest w.end ws ps (omega arith) f k,
    );
    keeps = (finish mean text a scores, inl refl, refl, refl, omega arith);
  }

  entities_from-ResultOf :
      (mean : List Score → Score) (text : Text) (active : Option Active) (scores : List Score)
      (pos : ℕ) (ws : List Token) (ps : List (Prediction Score)) (es : List (Entity Score))
      → Follows pos ws
      → Runs pos active
      → entities_from mean text active scores ws ps ≡ ok es
      → ResultOf text pos active ws ps es
  unfolding entities_from
  entities_from-ResultOf mean text active scores pos [] [] es f r e =
      let same : close mean text active scores ≡ es = ground arith in
      rw (← same) (close-ResultOf mean text active scores pos r)
  entities_from-ResultOf mean text active scores pos [] (p ∷ ps) es f r e = absurd (ground arith)
  entities_from-ResultOf mean text active scores pos (w ∷ ws) [] es f r e = absurd (ground arith)
  entities_from-ResultOf mean text active scores pos (w ∷ ws) (p ∷ ps) es (f1, f2, f) r e =
      let label : Option Text = label_in p.tag in
      elim (Bool-cases (continued active label)) [
        | inl goes_on ↦
            let e' : entities_from mean text (extended active label w) (scored label p.score scores)
                  ws ps
                ≡ ok es =
              rw goes_on at e in
            let k =
              entities_from-ResultOf mean text (extended active label w)
                (scored label p.score scores) w.end ws ps es f
                (Runs-extended pos active label w f1 f2 r) e' in
            let (o, q, m) = goes_on-ResultOf text pos active label w ws ps es goes_on f1 f2 r k in
            record { ordered = o; placed = (q, k.placed); keeps = m }
        | inr stops ↦
            elim (Result-cases
              (entities_from mean text (extended none label w) (scored label p.score []) ws ps)) [
                | inl (x, failed) ↦ absurd (ground arith)
                | inr (rest, there) ↦
                    let same : close mean text active scores ++ rest ≡ es = ground arith in
                    let k =
                      entities_from-ResultOf mean text (extended none label w)
                        (scored label p.score []) w.end ws ps rest f
                        (Runs-extended pos none label w f1 f2 tt) there in
                    let (o, q, m) =
                      goes_on-ResultOf text pos none label w ws ps rest refl f1 f2 tt k in
                    rw (← same) (
                      stops-ResultOf mean text pos active scores w ws p ps rest stops f1 f2 f r o q
                        k.placed)
              ]
      ]

  -- `_entities` on the words of a text and a prediction for each: the entities are in order, not empty, and
  -- carry their piece of the text; a word with a label lies in an entity of that label, and a word with
  -- the label `O` overlaps no entity.
  pub entities-AllPlaced :
      (u : Unicode) (mean : List Score → Score) (text : Text) (predicted : List (Prediction Score))
      (es : List (Entity Score))
      → entities mean text (words_with_offsets u text) predicted ≡ ok es
      → Ordered text 0 es × AllPlaced es (words_with_offsets u text) predicted
  unfolding entities
  entities-AllPlaced u mean text predicted es e =
      let follows =
        Tiles-Follows u 0 text (words_with_offsets u text) (words_with_offsets-Tiles u text) in
      let k =
        entities_from-ResultOf mean text none [] 0 (words_with_offsets u text) predicted es follows
          tt e in
      (k.ordered, k.placed)
