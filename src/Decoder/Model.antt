-- ===== src/Decoder/Model.antt =====
-- A model that answers each row of a batch by itself, whatever the padding behind it: what the attention
-- mask of the network is for.
use seif_pii.Base.{
  ℕ, zero, suc, ◌+◌, ◌-◌, ◌≤◌, ◌<◌, ◌≡◌, refl, sym, ap, ◌∙◌, Bool, true, false, inl, inr,
  Option-cases, Option, none, some, List, [], ◌∷◌, ◌++◌, append-nil, map, arith, length, All,
}
use seif_pii.Base.Result.{ok}
use seif_pii.Text.{Text}
use seif_pii.Decoder.Windows.{Prediction, budget, repeat, all_some}
use seif_pii.Decoder.Assigning.{get_elem?-append_left, get_elem?-some}
use seif_pii.Decoder.Owned.{IsCall}
use seif_pii.Decoder.Counting.{length-all_some}
use seif_pii.Decoder.Reading.{
  Runtime, model_inputs, read_rows, has_shape, predict_window, label_inventory, labels_from,
  inventory_of,
}

-- A row of inputs with its attention mask, both filled up to `size`.
abbrev pub padded : ℕ → ℕ → List ℕ → List ℕ × List ℕ
padded pad size inputs = (
  inputs ++ repeat (size - length inputs) pad,
  repeat (length inputs) 1 ++ repeat (size - length inputs) 0,
)

padded_alone :
    (pad : ℕ) (inputs : List ℕ)
    → padded pad (length inputs) inputs ≡ (inputs, repeat (length inputs) 1)
padded_alone pad inputs =
    let none_left : length inputs - length inputs ≡ 0 = omega arith in
    let ones : List ℕ = repeat (length inputs) 1 in
    rw none_left
      (ap (λ xs. (xs, ones ++ [])) (append-nil inputs) ∙ ap (λ xs. (inputs, xs)) (append-nil ones))

module _ {Row Score : Type 0} (runtime : Runtime Row Score) (logits : List ℕ → List Row)
    (pad : ℕ) where
  -- The answers to the rows of a batch: of each, in front, what `logits` says of its inputs alone.
  abbrev pub Answers : ℕ → List (List ℕ) → List (List Row) → Type 0
  Answers size [] [] = Unit
  Answers size [] (rows ∷ answers) = ⊥
  Answers size (inputs ∷ batch) [] = ⊥
  Answers size (inputs ∷ batch) (rows ∷ answers) =
      (has_shape runtime size 43 rows ≡ true)
      × (length (logits inputs) ≡ length inputs)
      × ((extra : List Row) × (rows ≡ logits inputs ++ extra))
      × Answers size batch answers

  pub record IsModel : Type 0 where
    pub lays_out :
        (tokens : List ℕ)
        → length tokens ≤ budget
        → (inputs : List ℕ) × (model_inputs runtime tokens ≡ ok inputs)
    pub pads : runtime.pad_token_id ≡ some pad
    pub picks : (row : Row) → (runtime.winner row).0 < 43
    pub runs :
        (size : ℕ) (batch : List (List ℕ))
        → All (λ (inputs : List ℕ). length inputs ≤ size) batch
        → (answers : List (List Row)) × (runtime.run (map (padded pad size) batch) ≡ some answers)
          × Answers size batch answers

module _ {Row Score : Type 0} (runtime : Runtime Row Score) where
  pub length-model_inputs :
      (tokens inputs : List ℕ)
      → model_inputs runtime tokens ≡ ok inputs
      → length inputs ≡ length tokens + 2
  unfolding model_inputs
  length-model_inputs tokens inputs e =
      elim (Option-cases (all_some (runtime.build_inputs_with_special_tokens tokens))) [
        | inl bad ↦ absurd (ground arith)
        | inr (found, good) ↦
            let n = length-all_some (runtime.build_inputs_with_special_tokens tokens) found good in
            ground (arith, n)
      ]

  pub read_rows_front :
      (labels : List Text) (rows extra : List Row) (positions : List ℕ)
      → All (λ (p : ℕ). p < length rows) positions
      → read_rows runtime labels (rows ++ extra) positions ≡ read_rows runtime labels rows positions
  unfolding read_rows
  read_rows_front labels rows extra [] h = refl
  read_rows_front labels rows extra (p ∷ positions) (h, hs) =
      ground (
        arith,
        get_elem?-append_left rows extra p h,
        read_rows_front labels rows extra positions hs,
      )

  pub read_rows-answers :
      (labels : List Text) (rows : List Row) (positions : List ℕ)
      → length labels ≡ 43
      → ((row : Row) → (runtime.winner row).0 < 43)
      → All (λ (p : ℕ). p < length rows) positions
      → (ps : List (Prediction Score)) × (read_rows runtime labels rows positions ≡ ok ps)
        × (length ps ≡ length positions)
  unfolding read_rows
  read_rows-answers labels rows [] n picks h = ([], refl, refl)
  read_rows-answers labels rows (p ∷ positions) n picks (h, hs) =
      let (row, e) = get_elem?-some rows p h in
      let (tag, e') = get_elem?-some labels (runtime.winner row).0 (omega (arith, picks row)) in
      let (ps, e'', m) = read_rows-answers labels rows positions n picks hs in
      (
        record { tag = tag; score = (runtime.winner row).1 } ∷ ps,
        ground (arith, e, e', e''),
        omega arith,
      )

length-labels_from : (labels : List (ℕ × Text)) (i n : ℕ) → length (labels_from labels i n) ≡ n
unfolding labels_from
length-labels_from labels i zero = refl
length-labels_from labels i (suc n) = ap (λ (k : ℕ). suc k) (length-labels_from labels (suc i) n)

length-inventory_of :
    (good : Bool) (o : Option (List Text)) (found : List Text)
    → inventory_of good o ≡ ok found
    → o ≡ some found
length-inventory_of true (some ts) found e = ground arith
length-inventory_of true none found e = absurd (ground arith)
length-inventory_of false o found e = absurd (ground arith)

pub length-label_inventory :
    (labels : List (ℕ × Text)) (found : List Text)
    → label_inventory labels ≡ ok found
    → length found ≡ 43
unfolding label_inventory
length-label_inventory labels found e =
    sym (
      length-all_some (labels_from labels 0 43) found
        (length-inventory_of _ (all_some (labels_from labels 0 43)) found e))
    ∙ length-labels_from labels 0 43

module _ {Row Score : Type 0} (runtime : Runtime Row Score) (logits : List ℕ → List Row) (pad : ℕ)
    (model : IsModel runtime logits pad) (labels : List Text) (n : length labels ≡ 43) where
  one_answer :
      (size : ℕ) (inputs : List ℕ) (answers : List (List Row))
      → Answers runtime logits pad size (inputs ∷ []) answers
      → (rows : List Row) × (answers ≡ rows ∷ [])
        × (has_shape runtime size 43 rows ≡ true)
        × (length (logits inputs) ≡ length inputs)
        × ((extra : List Row) × (rows ≡ logits inputs ++ extra))
  one_answer size inputs [] a = absurd a
  one_answer size inputs (rows ∷ []) (shape, k, front, rest) = (rows, refl, shape, k, front)
  one_answer size inputs (rows ∷ more ∷ others) (shape, k, front, rest) = absurd rest

  -- One row as a batch of its own.
  runs_alone :
      (inputs : List ℕ)
      → (rows : List Row) × (runtime.run ((inputs, repeat (length inputs) 1) ∷ [])
          ≡ some (rows ∷ []))
        × (has_shape runtime (length inputs) 43 rows ≡ true)
        × (length (logits inputs) ≡ length inputs)
        × ((extra : List Row) × (rows ≡ logits inputs ++ extra))
  runs_alone inputs =
      let (answers, e, a) = model.runs (length inputs) (inputs ∷ []) (omega arith, tt) in
      let (rows, one, shape, size, front) = one_answer (length inputs) inputs answers a in
      (
        rows,
        ap (λ x. runtime.run (x ∷ [])) (sym (padded_alone pad inputs)) ∙ e ∙ ap (λ x. some x) one,
        shape,
        size,
        front,
      )

  predict_window_step :
      (tokens inputs positions : List ℕ) (rows : List Row)
      → model_inputs runtime tokens ≡ ok inputs
      → runtime.run ((inputs, repeat (length inputs) 1) ∷ []) ≡ some (rows ∷ [])
      → has_shape runtime (length tokens + 2) (length labels) rows ≡ true
      → predict_window runtime labels tokens positions ≡ read_rows runtime labels rows positions
  unfolding predict_window
  predict_window_step tokens inputs positions rows e h k = ground (arith, e, h, k)

  -- What the model says of a window alone.
  pub predict_window-rows :
      (tokens inputs positions : List ℕ)
      → IsCall tokens positions
      → model_inputs runtime tokens ≡ ok inputs
      → predict_window runtime labels tokens positions
        ≡ read_rows runtime labels (logits inputs) positions
  predict_window-rows tokens inputs positions call e =
      let m = length-model_inputs runtime tokens inputs e in
      let (rows, h, shape, size, behind) = runs_alone inputs in
      let (extra, front) = behind in
      let there : All (λ (p : ℕ). p < length (logits inputs)) positions =
        rw (size, m) call.places in
      predict_window_step tokens inputs positions rows e h (rw (← m, n) shape)
      ∙ ap (λ x. read_rows runtime labels x positions) front
      ∙ read_rows_front runtime labels (logits inputs) extra positions there

  pub predict_window-answers :
      (tokens positions : List ℕ)
      → IsCall tokens positions
      → (ps : List (Prediction Score)) × (predict_window runtime labels tokens positions ≡ ok ps)
        × (length ps ≡ length positions)
  predict_window-answers tokens positions call =
      let (inputs, e) = model.lays_out tokens call.size in
      let m = length-model_inputs runtime tokens inputs e in
      let (rows, h, shape, size, front) = runs_alone inputs in
      let (ps, e', k) =
        read_rows-answers runtime labels (logits inputs) positions n model.picks
          (rw (size, m) call.places) in
      (ps, predict_window-rows tokens inputs positions call e ∙ e', k)
