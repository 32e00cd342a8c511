-- ===== src/Decoder/Replaying.antt =====
-- Writing the windows of all documents in their order gives each document what it gets alone.
use seif_pii.Base.{
  ℕ, suc, ◌+◌, ◌≡◌, refl, sym, subst, ap, ◌∙◌, Option, none, some, List, [], ◌∷◌, ◌++◌, arith,
  length, length-append, get_elem?, replace_at, All, All-append, append_assoc,
}
use seif_pii.Base.Result.{Result, ok}
use seif_pii.Text.{Text, Unicode}
use seif_pii.Decoder.Windows.{Failure, Prediction, repeat}
use seif_pii.Decoder.Prepared.{Window, write, in_turn}
use seif_pii.Decoder.Owned.{IsCall}
use seif_pii.Decoder.Reading.{Runtime}
use seif_pii.Decoder.Entities.{Entity}
use seif_pii.Decoder.Batch.{Document, Item, number_windows, number_all, document_windows}
use seif_pii.Decoder.Replay.{
  predicted_of, visible_of, replay, unwritten, finish_document, finish_documents,
}
use seif_pii.Decoder.Grouping.{Calls, Numbered}

module _ {A : Type 0} where
  get_elem?-middle :
      (xs : List A) (x : A) (ys : List A) → get_elem? (xs ++ x ∷ ys) (length xs) ≡ some x
  get_elem?-middle [] x ys = refl
  get_elem?-middle (z ∷ xs) x ys = get_elem?-middle xs x ys

  replace_at-middle :
      (xs : List A) (x y : A) (ys : List A) → replace_at (length xs) y (xs ++ x ∷ ys) ≡ xs ++ y ∷ ys
  replace_at-middle [] x y ys = refl
  replace_at-middle (z ∷ xs) x y ys = ap (λ t. z ∷ t) (replace_at-middle xs x y ys)

abbrev item : ℕ → ℕ → Window → Item
item number document w = record { number = number; document = document; window = w }

number_windows-Numbered :
    (front : List Item) (number document : ℕ) (ws : List Window) (back : List Item)
    → length front ≡ number
    → All
        (Numbered (front ++ (number_windows number document ws ++ back)))
        (number_windows number document ws)
unfolding number_windows
number_windows-Numbered front number document [] back e = tt
number_windows-Numbered front number document (w ∷ ws) back e = (
  rw (← e) (
      get_elem?-middle front (item (length front) document w)
        (number_windows (suc (length front)) document ws ++ back)),
  subst (λ x. All (Numbered x) (number_windows (suc number) document ws))
      (append_assoc front (item number document w ∷ [])
        (number_windows (suc number) document ws ++ back))
      (number_windows-Numbered (front ++ item number document w ∷ []) (suc number) document ws back
        (omega (arith, length-append front (item number document w ∷ []), e))),
)

length-number_windows :
    (number document : ℕ) (ws : List Window)
    → length (number_windows number document ws) ≡ length ws
unfolding number_windows
length-number_windows number document [] = refl
length-number_windows number document (w ∷ ws) =
    ap (λ (n : ℕ). suc n) (length-number_windows (suc number) document ws)

-- The number of each window is its place among all of them.
pub number_all-Numbered :
    (front : List Item) (number document : ℕ) (documents : List (Document × List Window))
    → length front ≡ number
    → All
        (Numbered (front ++ number_all number document documents))
        (number_all number document documents)
unfolding number_all
number_all-Numbered front number document [] e = tt
number_all-Numbered front number document ((d, ws) ∷ documents) e =
    let here : List Item = number_windows number document ws in
    let there : List Item = number_all (number + length ws) (suc document) documents in
    All-append (Numbered (front ++ (here ++ there))) here there
      (number_windows-Numbered front number document ws there e)
      (subst (λ x. All (Numbered x) there) (append_assoc front here there)
        (number_all-Numbered (front ++ here) (number + length ws) (suc document) documents
          (omega (arith, length-append front here, length-number_windows number document ws, e))))

pub number_windows-Calls :
    (number document : ℕ) (ws : List Window)
    → All (λ (w : Window). IsCall w.token_ids w.positions) ws
    → All Calls (number_windows number document ws)
unfolding number_windows
number_windows-Calls number document [] h = tt
number_windows-Calls number document (w ∷ ws) (h, hs) =
    (h, number_windows-Calls (suc number) document ws hs)

module _ {Row Score : Type 0} (u : Unicode) (runtime : Runtime Row Score)
    (predict : List ℕ → List ℕ → Result Failure (List (Prediction Score))) where
  -- A text on its own way: its windows, what they write in turn, and the answer.
  pub record Alone (text : Text) (document : Document × List Window) (answer : List (Entity Score))
      : Type 0 where
    pub prepared : document_windows u runtime text ≡ ok document
    pub calls : All (λ (w : Window). IsCall w.token_ids w.positions) document.1
    pub output : List (Option (Prediction Score))
    pub turned : in_turn predict document.1 (repeat (length document.0.active) none) ≡ ok output
    pub finished : finish_document runtime document.0 output ≡ ok answer
    pub empty : document.1 ≡ [] → answer ≡ []
    pub wordless : document.0.tokens ≡ [] → document.1 ≡ []

  -- The same of each text of a list.
  abbrev pub AllAlone :
      List Text → List (Document × List Window) → List (List (Entity Score)) → Type 0
  AllAlone [] [] [] = Unit
  AllAlone (t ∷ texts) (d ∷ documents) (a ∷ answers) =
      Alone t d a × AllAlone texts documents answers
  AllAlone texts documents answers = ⊥

  -- Each of the windows is predicted in the store as the model says.
  Stored : List (ℕ × List (Prediction Score)) → Item → Type 0
  Stored store i =
      (ps : List (Prediction Score)) × (predicted_of i.number store ≡ some ps)
      × (predict i.window.token_ids i.window.positions ≡ ok ps)

  visible_of-middle :
      (xs : List (List (Option (Prediction Score)))) (v : List (Option (Prediction Score)))
      (ys : List (List (Option (Prediction Score))))
      → visible_of (length xs) (xs ++ v ∷ ys) ≡ v
  visible_of-middle [] v ys = refl
  visible_of-middle (x ∷ xs) v ys = visible_of-middle xs v ys

  replay_step :
      (store : List (ℕ × List (Prediction Score))) (i : Item) (items : List Item)
      (visible : List (List (Option (Prediction Score)))) (ps : List (Prediction Score))
      → predicted_of i.number store ≡ some ps
      → replay store (i ∷ items) visible
        ≡ replay store items
            (replace_at i.document (write i.window ps (visible_of i.document visible)) visible)
  unfolding replay
  replay_step store i items visible ps e = ground (arith, e)

  replay-in_turn :
      (store : List (ℕ × List (Prediction Score))) (number document : ℕ) (ws : List Window)
      (rest : List Item) (front : List (List (Option (Prediction Score))))
      (v v' : List (Option (Prediction Score))) (back : List (List (Option (Prediction Score))))
      → length front ≡ document
      → All (Stored store) (number_windows number document ws)
      → in_turn predict ws v ≡ ok v'
      → replay store (number_windows number document ws ++ rest) (front ++ v ∷ back)
        ≡ replay store rest (front ++ v' ∷ back)
  unfolding number_windows Stored
  replay-in_turn store number document [] rest front v v' back n h e =
      let same : v ≡ v' = ground arith in rw same refl
  replay-in_turn store number document (w ∷ ws) rest front v v' back n ((ps, p, q), h) e =
      let e' : in_turn predict ws (write w ps v) ≡ ok v' = ground (arith, q, e) in
      replay_step store (item number document w) (number_windows (suc number) document ws ++ rest)
        (front ++ v ∷ back) ps p
      ∙ rw (← n, visible_of-middle front v back, replace_at-middle front v (write w ps v) back)
          (replay-in_turn store (suc number) (length front) ws rest front (write w ps v) v' back
            refl (rw n h) e')

  finished_step :
      (d : Document × List Window) (documents : List (Document × List Window))
      (v : List (Option (Prediction Score))) (visible : List (List (Option (Prediction Score))))
      (a : List (Entity Score)) (answers : List (List (Entity Score)))
      → finish_document runtime d.0 v ≡ ok a
      → finish_documents runtime documents visible ≡ ok answers
      → finish_documents runtime (d ∷ documents) (v ∷ visible) ≡ ok (a ∷ answers)
  unfolding finish_documents
  finished_step d documents v visible a answers e f = ground (arith, e, f)

  split_All : (P : Item → Type 0) (xs ys : List Item) → All P (xs ++ ys) → All P xs × All P ys
  split_All P [] ys h = (tt, h)
  split_All P (x ∷ xs) ys (h, hs) = let (a, b) = split_All P xs ys hs in ((h, a), b)

  -- All windows are written, and each document has its answer.
  pub replay-finish_documents :
      (store : List (ℕ × List (Prediction Score))) (number : ℕ) (texts : List Text)
      (documents : List (Document × List Window)) (answers : List (List (Entity Score)))
      (front : List (List (Option (Prediction Score))))
      → AllAlone texts documents answers
      → All
          (λ (i : Item).
            (ps : List (Prediction Score)) × (predicted_of i.number store ≡ some ps)
            × (predict i.window.token_ids i.window.positions ≡ ok ps))
          (number_all number (length front) documents)
      → (outputs : List (List (Option (Prediction Score)))) × (replay store
            (number_all number (length front) documents)
            (front ++ unwritten documents)
          ≡ ok (front ++ outputs))
        × (finish_documents runtime documents outputs ≡ ok answers)
  unfolding number_all replay finish_documents Stored
  replay-finish_documents store number [] [] [] front h s = ([], refl, refl)
  replay-finish_documents store number [] [] (a ∷ answers) front h s = absurd h
  replay-finish_documents store number [] (d ∷ documents) answers front h s = absurd h
  replay-finish_documents store number (t ∷ texts) [] answers front h s = absurd h
  replay-finish_documents store number (t ∷ texts) (d ∷ documents) [] front h s = absurd h
  replay-finish_documents store number (t ∷ texts) (d ∷ documents) (a ∷ answers) front (h, hs) s =
      let here : List Item = number_windows number (length front) d.1 in
      let there : List Item = number_all (number + length d.1) (suc (length front)) documents in
      let (s1, s2) = split_All (Stored store) here there s in
      let one : length (front ++ h.output ∷ []) ≡ suc (length front) =
        omega (arith, length-append front (h.output ∷ [])) in
      let (outs, e, f) =
        replay-finish_documents store (number + length d.1) texts documents answers
          (front ++ h.output ∷ []) hs (rw one s2) in
      (
        h.output ∷ outs,
        replay-in_turn store number (length front) d.1 there front (repeat (length d.0.active) none)
              h.output (unwritten documents) refl s1 h.turned
            ∙ ap (λ x. replay store there x)
                (sym (append_assoc front (h.output ∷ []) (unwritten documents)))
            ∙ subst
                (λ (k : ℕ).
                  replay store (number_all (number + length d.1) k documents)
                    ((front ++ h.output ∷ []) ++ unwritten documents)
                  ≡ ok ((front ++ h.output ∷ []) ++ outs))
                one e
            ∙ ap (λ x. ok x) (append_assoc front (h.output ∷ []) outs),
        finished_step d documents h.output outs a answers h.finished f,
      )
