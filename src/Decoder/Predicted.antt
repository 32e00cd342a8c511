-- ===== src/Decoder/Predicted.antt =====
-- `_predict_batch` predicts for each of its windows what the model says of the window alone.
use seif_pii.Base.{
  ℕ, zero, suc, ◌+◌, ◌≤◌, ◌<◌, ◌≡◌, refl, sym, subst, ap, ◌∙◌, true, inl, inr, Bool-cases, some,
  List, [], ◌∷◌, ◌++◌, map, arith, length, take, drop, all, leb, All, All-take, All-drop, In,
  le→leb, leb→le, take-append-drop, length-drop, length-take-le,
}
use seif_pii.Base.Result.{ok}
use seif_pii.Text.{Text}
use seif_pii.Decoder.Windows.{Prediction}
use seif_pii.Decoder.Assigning.{length-map}
use seif_pii.Decoder.Owned.{IsCall}
use seif_pii.Decoder.Reading.{Runtime, model_inputs, read_rows, has_shape, predict_window}
use seif_pii.Decoder.Batch.{
  batch_buckets, bucket_for, Item, rows_for, batch_inputs, read_items, predict_batch, predict_group,
  predict_groups,
}
use seif_pii.Decoder.Model.{
  padded, Answers, IsModel, length-model_inputs, read_rows_front, predict_window-rows,
  predict_window-answers,
}

-- An item that is a call of the model and fits into rows of `size`.
pub record FitsInto (size : ℕ) (i : Item) : Type 0 where
  pub call : IsCall i.window.token_ids i.window.positions
  pub room : length i.window.token_ids + 2 ≤ size

-- The windows of the groups, one group behind the other.
abbrev pub items_of : List (ℕ × List Item) → List Item
items_of [] = []
items_of ((size, items) ∷ groups) = items ++ items_of groups

pub bucket_for-some :
    (m b : ℕ) (buckets : List ℕ)
    → In b buckets
    → m ≤ b
    → (rows : ℕ) × (bucket_for m buckets ≡ some rows) × (m ≤ rows)
unfolding bucket_for
bucket_for-some m b [] h k = absurd h
bucket_for-some m b (c ∷ buckets) (inl e) k =
    (c, rw (le→leb m c (omega (arith, e))) refl, omega (arith, e))
bucket_for-some m b (c ∷ buckets) (inr h) k = elim (Bool-cases (leb m c)) [
  | inl first ↦ (c, rw first refl, leb→le m c first)
  | inr more ↦ let (rows, e, room) = bucket_for-some m b buckets h k in (rows, rw more e, room)
]

module _ {Row Score : Type 0} (runtime : Runtime Row Score) (logits : List ℕ → List Row) (pad : ℕ)
    (model : IsModel runtime logits pad) (labels : List Text) (n : length labels ≡ 43) where
  -- What is predicted of the items one by one.
  abbrev pub Answered : List Item → List (ℕ × List (Prediction Score)) → Type 0
  Answered [] [] = Unit
  Answered [] (entry ∷ store) = ⊥
  Answered (i ∷ items) [] = ⊥
  Answered (i ∷ items) (entry ∷ store) =
      (entry.0 ≡ i.number)
      × (predict_window runtime labels i.window.token_ids i.window.positions ≡ ok entry.1)
      × Answered items store

  Answered-append :
      (xs ys : List Item) (s t : List (ℕ × List (Prediction Score)))
      → Answered xs s
      → Answered ys t
      → Answered (xs ++ ys) (s ++ t)
  Answered-append [] ys [] t a b = b
  Answered-append [] ys (e ∷ s) t a b = absurd a
  Answered-append (x ∷ xs) ys [] t a b = absurd a
  Answered-append (x ∷ xs) ys (e ∷ s) t (p, q, a) b = (p, q, Answered-append xs ys s t a b)

  -- The inputs that the rows in front of the batch are made of.
  Fronts : List Item → List (List ℕ) → Type 0
  Fronts [] batch = Unit
  Fronts (i ∷ items) [] = ⊥
  Fronts (i ∷ items) (inputs ∷ batch) =
      (model_inputs runtime i.window.token_ids ≡ ok inputs) × Fronts items batch

  rows_for-padded :
      (size rows : ℕ) (items : List Item)
      → 2 ≤ size
      → length items ≤ rows
      → All (FitsInto size) items
      → (batch : List (List ℕ)) × (rows_for runtime pad size rows items
          ≡ ok (map (padded pad size) batch))
        × All (λ (inputs : List ℕ). length inputs ≤ size) batch
        × (length batch ≡ rows)
        × Fronts items batch
  unfolding rows_for Fronts
  rows_for-padded size zero [] h k fits = ([], refl, tt, refl, tt)
  rows_for-padded size zero (i ∷ items) h k fits = absurd (omega arith)
  rows_for-padded size (suc rows) [] h k fits =
      let (inputs, e) = model.lays_out [] (omega arith) in
      let m = length-model_inputs runtime [] inputs e in
      let (batch, e', small, size', fronts) = rows_for-padded size rows [] h (omega arith) tt in
      (inputs ∷ batch, rw (e, e') refl, (omega (arith, m), small), omega arith, tt)
  rows_for-padded size (suc rows) (i ∷ items) h k (fit, fits) =
      let (inputs, e) = model.lays_out i.window.token_ids fit.call.size in
      let m = length-model_inputs runtime i.window.token_ids inputs e in
      let (batch, e', small, size', fronts) =
        rows_for-padded size rows items h (omega arith) fits in
      (
        inputs ∷ batch,
        rw (e, e') refl,
        (omega (arith, m, fit.room), small),
        omega arith,
        (e, fronts),
      )

  Answers-shape :
      (size : ℕ) (batch : List (List ℕ)) (answers : List (List Row))
      → Answers runtime logits pad size batch answers
      → (length answers ≡ length batch)
        × (all (has_shape runtime size (length labels)) answers ≡ true)
  Answers-shape size [] [] a = (refl, refl)
  Answers-shape size [] (rows ∷ answers) a = absurd a
  Answers-shape size (inputs ∷ batch) [] a = absurd a
  Answers-shape size (inputs ∷ batch) (rows ∷ answers) (shape, k, front, a) =
      let (m, e) = Answers-shape size batch answers a in
      let here : has_shape runtime size (length labels) rows ≡ true = rw n shape in
      (omega arith, rw (here, e) refl)

  read_items-Answered :
      (size : ℕ) (items : List Item) (batch : List (List ℕ)) (answers : List (List Row))
      → All (FitsInto size) items
      → Fronts items batch
      → Answers runtime logits pad size batch answers
      → (found : List (ℕ × List (Prediction Score))) × (read_items runtime labels answers items
          ≡ ok found)
        × Answered items found
  unfolding read_items Fronts
  read_items-Answered size [] batch answers fits fronts a = ([], refl, tt)
  read_items-Answered size (i ∷ items) [] answers fits fronts a = absurd fronts
  read_items-Answered size (i ∷ items) (inputs ∷ batch) [] fits fronts a = absurd a
  read_items-Answered size (i ∷ items) (inputs ∷ batch) (rows ∷ answers) (fit, fits) (e, fronts)
        (shape, k, front, a) =
      let (found, e', answered) = read_items-Answered size items batch answers fits fronts a in
      let (ps, known, m) =
        predict_window-answers runtime logits pad model labels n i.window.token_ids
          i.window.positions fit.call in
      let w = length-model_inputs runtime i.window.token_ids inputs e in
      let (extra, front_eq) = front in
      let there : All (λ (p : ℕ). p < length (logits inputs)) i.window.positions =
        rw (k, w) fit.call.places in
      let here : read_rows runtime labels rows i.window.positions ≡ ok ps =
        ap (λ x. read_rows runtime labels x i.window.positions) front_eq
        ∙ read_rows_front runtime labels (logits inputs) extra i.window.positions there
        ∙ sym (
            predict_window-rows runtime logits pad model labels n i.window.token_ids inputs
              i.window.positions fit.call e)
        ∙ known in
      ((i.number, ps) ∷ found, rw (here, e') refl, (refl, known, answered))

  predict_batch_step :
      (items : List Item) (size rows : ℕ) (batch : List (List ℕ × List ℕ))
      (answers : List (List Row))
      → bucket_for (length items) batch_buckets ≡ some rows
      → rows_for runtime pad size rows items ≡ ok batch
      → runtime.run batch ≡ some answers
      → length answers ≡ length batch
      → all (has_shape runtime size (length labels)) answers ≡ true
      → predict_batch runtime labels items size ≡ read_items runtime labels answers items
  unfolding predict_batch batch_inputs
  predict_batch_step items size rows batch answers e f g h k =
      ground (arith, e, f, g, h, k, model.pads)

  predict_batch-Answered :
      (items : List Item) (size : ℕ)
      → length items ≤ 32
      → 2 ≤ size
      → All (FitsInto size) items
      → (found : List (ℕ × List (Prediction Score))) × (predict_batch runtime labels items size
          ≡ ok found)
        × Answered items found
  predict_batch-Answered items size h k fits =
      let (rows, e, room) =
        bucket_for-some (length items) 32 batch_buckets (inr (inr (inr (inr (inr (inl refl))))))
          h in
      let (batch, f, small, m, fronts) = rows_for-padded size rows items k room fits in
      let (answers, g, a) = model.runs size batch small in
      let (m', shape) = Answers-shape size batch answers a in
      let (found, e', answered) = read_items-Answered size items batch answers fits fronts a in
      (
        found,
        predict_batch_step items size rows (map (padded pad size) batch) answers e f g
              (m' ∙ sym (length-map (padded pad size) batch)) shape
            ∙ e',
        answered,
      )

  predict_group_step :
      (max_batch size fuel : ℕ) (i : Item) (items : List Item)
      (found others : List (ℕ × List (Prediction Score)))
      → predict_batch runtime labels (take max_batch (i ∷ items)) size ≡ ok found
      → predict_group runtime labels max_batch size fuel (drop max_batch (i ∷ items)) ≡ ok others
      → predict_group runtime labels max_batch size (suc fuel) (i ∷ items) ≡ ok (found ++ others)
  unfolding predict_group
  predict_group_step max_batch size fuel i items found others e f = ground (arith, e, f)

  pub predict_group-Answered :
      (max_batch size fuel : ℕ) (items : List Item)
      → 0 < max_batch
      → max_batch ≤ 32
      → 2 ≤ size
      → length items ≤ fuel
      → All (FitsInto size) items
      → (found : List (ℕ × List (Prediction Score))) × (predict_group runtime labels max_batch size
            fuel items
          ≡ ok found)
        × Answered items found
  unfolding predict_group
  predict_group-Answered max_batch size zero [] p q k h fits = ([], refl, tt)
  predict_group-Answered max_batch size zero (i ∷ items) p q k h fits = absurd (omega arith)
  predict_group-Answered max_batch size (suc fuel) [] p q k h fits = ([], refl, tt)
  predict_group-Answered max_batch size (suc fuel) (i ∷ items) p q k h fits =
      let (found, e, a) =
        predict_batch-Answered (take max_batch (i ∷ items)) size
          (omega (arith, length-take-le max_batch (i ∷ items))) k
          (All-take (FitsInto size) max_batch (i ∷ items) fits) in
      let (others, f, b) =
        predict_group-Answered max_batch size fuel (drop max_batch (i ∷ items)) p q k
          (omega (arith, length-drop max_batch (i ∷ items)))
          (All-drop (FitsInto size) max_batch (i ∷ items) fits) in
      (
        found ++ others,
        predict_group_step max_batch size fuel i items found others e f,
        subst (λ x. Answered x (found ++ others)) (take-append-drop max_batch (i ∷ items))
            (Answered-append (take max_batch (i ∷ items)) (drop max_batch (i ∷ items)) found others
              a b),
      )

  -- The groups with their lengths, and their windows one group behind the other.
  abbrev pub Groups : List (ℕ × List Item) → Type 0
  Groups groups = All (λ (g : ℕ × List Item). (2 ≤ g.0) × All (FitsInto g.0) g.1) groups

  pub predict_groups-Answered :
      (max_batch : ℕ) (groups : List (ℕ × List Item))
      → 0 < max_batch
      → max_batch ≤ 32
      → Groups groups
      → (found : List (ℕ × List (Prediction Score))) × (predict_groups runtime labels max_batch
            groups
          ≡ ok found)
        × Answered (items_of groups) found
  unfolding predict_groups
  predict_groups-Answered max_batch [] p q h = ([], refl, tt)
  predict_groups-Answered max_batch ((size, items) ∷ groups) p q ((k, fits), h) =
      let (found, e, a) =
        predict_group-Answered max_batch size (length items) items p q k (omega arith) fits in
      let (others, f, b) = predict_groups-Answered max_batch groups p q h in
      (found ++ others, rw (e, f) refl, Answered-append items (items_of groups) found others a b)
