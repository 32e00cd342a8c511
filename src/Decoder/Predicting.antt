-- ===== src/Decoder/Predicting.antt =====
-- `_predict_words` gives each word the prediction of a window that it lies in.
use seif_pii.Base.{
  ℕ, zero, suc, ◌+◌, ◌-◌, ◌≤◌, ◌<◌, ◌≡◌, refl, sym, subst, ◌∙◌, ap, inl, inr, Bool-cases, Option,
  none, some, List, [], ◌∷◌, map, arith, max, length, length-take, length-drop, slice, drop,
  get_elem?, get_elem?-slice, get_elem?-lt, ltb, ◌==◌,
}
use seif_pii.Base.Result.{Result, ok, bind_ext}
use seif_pii.Decoder.Windows.{
  Failure, Prediction, window_end, next_start, predict_from, predict_words, repeat, all_some,
}
use seif_pii.Decoder.Prepared.{Window, window_at, windows_from, write, in_turn}
use seif_pii.Decoder.Coverage.{Fits}
use seif_pii.Decoder.Budget.{sum}
use seif_pii.Decoder.Assigning.{
  get_elem?-some, length-map, get_elem?-map, length-assign, assign_before, assign_inside,
  assign_behind,
}
use seif_pii.Decoder.Owned.{IsCall, IsWindow, Owned, windows_from-Owned}

module _ {Score : Type 0} (predict : List ℕ → List ℕ → Result Failure (List (Prediction Score)))
    (ids counts : List ℕ) where
  -- The loop predicts and writes the windows in turn.
  pub predict_from-in_turn :
      (fuel start next : ℕ) (output : List (Option (Prediction Score)))
      → predict_from predict ids counts fuel start next output
        ≡ in_turn predict (windows_from ids counts fuel start next) output
  unfolding predict_from windows_from window_at write
  predict_from-in_turn zero start next output = refl
  predict_from-in_turn (suc fuel) start next output =
      let w : Window = window_at ids counts start next in
      let end : ℕ = window_end counts start in
      elim (Bool-cases (ltb start (length counts))) [
        | inl more ↦ elim (Bool-cases (window_end counts start == length counts)) [
          | inl last ↦ rw (more, last) refl
          | inr behind ↦
              rw (more, behind)
                (bind_ext (predict w.token_ids w.positions) _ _ (λ predicted.
                  predict_from-in_turn fuel (next_start counts start end)
                    (max next (start + w.right)) (write w predicted output)))
        ]
        | inr stop ↦ rw stop refl
      ]

  -- The prediction of the word `i` is what the model says of it in a window around it.
  pub record IsPredicted (i : ℕ) (p : Prediction Score) : Type 0 where
    pub window : Window
    pub is_window : IsWindow ids counts window
    pub behind : window.start ≤ i
    pub before : i < window_end counts window.start
    pub answer : List (Prediction Score)
    pub predicted : predict window.token_ids window.positions ≡ ok answer
    pub here : get_elem? answer (i - window.start) ≡ some p

  abbrev pub Filled : ℕ → List (Option (Prediction Score)) → Type 0
  Filled next output =
      (i : ℕ)
      → i < next
      → (p : Prediction Score) × (get_elem? output i ≡ some (some p)) × IsPredicted i p

  module _
      (answers : (tokens positions : List ℕ)
        → IsCall tokens positions
        → (ps : List (Prediction Score)) × (predict tokens positions ≡ ok ps)
          × (length ps ≡ length positions)) where
    Owned-le : (ws : List Window) (next : ℕ) → Owned ids counts next ws → next ≤ length counts
    Owned-le [] next h = omega (arith, h)
    Owned-le (w ∷ ws) next (a, b, h) = omega (arith, Owned-le ws (max next (w.start + w.right)) h)

    write-Filled :
        (w : Window) (ps : List (Prediction Score)) (next : ℕ)
        (output : List (Option (Prediction Score)))
        → IsWindow ids counts w
        → w.start + w.left ≤ next
        → next ≤ length counts
        → predict w.token_ids w.positions ≡ ok ps
        → length ps ≡ length w.positions
        → length output ≡ length counts
        → Filled next output
        → (length (write w ps output) ≡ length counts)
          × Filled (max next (w.start + w.right)) (write w ps output)
    unfolding write
    write-Filled w ps next output k meets small e n size filled =
        let fits : length (map some (slice ps w.left w.right))
            ≡ w.start + w.right - (w.start + w.left) =
          omega (
            arith,
            length-map some (slice ps w.left w.right),
            length-take (w.right - w.left) (drop w.left ps),
            length-drop w.left ps,
            k.owned,
            k.words,
            n,
          ) in
        let within : w.start + w.right ≤ length output = omega (arith, k.owned, k.inside, k.ends) in
        let start : w.start + w.left ≤ length output = omega arith in
        let there =
          assign_inside (w.start + w.left) (w.start + w.right) (map some (slice ps w.left w.right))
            output fits within start in
        (
          length-assign (w.start + w.left) (w.start + w.right) (map some (slice ps w.left w.right))
                output fits within start
              ∙ size,
          λ i h. elim (Bool-cases (ltb i (w.start + w.left))) [
            | inl first ↦
                let (p, e', origin) = filled i (ground arith) in
                (
                  p,
                  assign_before (w.start + w.left) (w.start + w.right)
                        (map some (slice ps w.left w.right)) output fits within start i
                        (ground arith)
                      ∙ e',
                  origin,
                )
            | inr later ↦ elim (Bool-cases (ltb i (w.start + w.right))) [
              | inl in_it ↦
                  let (p, e') =
                    get_elem?-some ps (i - w.start) (ground (arith, k.owned, k.words, n)) in
                  let j : w.left + (i - (w.start + w.left)) ≡ i - w.start = ground arith in
                  let e'' : get_elem? (slice ps w.left w.right) (i - (w.start + w.left)) ≡ some p =
                    get_elem?-slice ps w.left w.right (i - (w.start + w.left)) (ground arith)
                    ∙ rw j e' in
                  (
                    p,
                    there i (ground arith) (ground arith)
                        ∙ get_elem?-map some (slice ps w.left w.right) (i - (w.start + w.left)) p
                            e'',
                    record {
                      window = w;
                      is_window = k;
                      behind = ground arith;
                      before = ground (arith, k.owned);
                      answer = ps;
                      predicted = e;
                      here = e';
                    },
                  )
              | inr behind ↦
                  let (p, e', origin) = filled i (ground arith) in
                  (
                    p,
                    assign_behind (w.start + w.left) (w.start + w.right)
                          (map some (slice ps w.left w.right)) output fits within start i
                          (ground arith)
                        ∙ e',
                    origin,
                  )
            ]
          ],
        )

    in_turn-Filled :
        (ws : List Window) (next : ℕ) (output : List (Option (Prediction Score)))
        → Owned ids counts next ws
        → length output ≡ length counts
        → Filled next output
        → (output' : List (Option (Prediction Score))) × (in_turn predict ws output ≡ ok output')
          × (length output' ≡ length counts)
          × Filled (length counts) output'
    in_turn-Filled [] next output e size filled = (output, refl, size, rw (← e) filled)
    in_turn-Filled (w ∷ ws) next output (k, meets, owned) size filled =
        let (ps, e, n) = answers w.token_ids w.positions k.call in
        let (size', filled') =
          write-Filled w ps next output k meets
            (omega (arith, Owned-le ws (max next (w.start + w.right)) owned)) e n size filled in
        let (output', e', size'', all_filled) =
          in_turn-Filled ws (max next (w.start + w.right)) (write w ps output) owned size'
            filled' in
        (output', rw e e', size'', all_filled)

    pub all_some-Filled :
        (output : List (Option (Prediction Score)))
        → ((i : ℕ)
            → i < length output
            → (p : Prediction Score) × (get_elem? output i ≡ some (some p)))
        → (out : List (Prediction Score)) × (all_some output ≡ some out) × (map some out ≡ output)
    unfolding all_some
    all_some-Filled [] filled = ([], refl, refl)
    all_some-Filled (none ∷ output) filled =
        let (p, e) = filled 0 (omega arith) in absurd (ground arith)
    all_some-Filled (some p ∷ output) filled =
        let (out, e, back) = all_some-Filled output (λ i h. filled (suc i) (omega arith)) in
        (p ∷ out, rw e refl, ap (λ xs. some p ∷ xs) back)

    length-repeat : {A : Type 0} (n : ℕ) (x : A) → length (repeat n x) ≡ n
    length-repeat zero x = refl
    length-repeat (suc n) x = ap (λ (k : ℕ). suc k) (length-repeat n x)

    pub in_turn-windows_from :
        Fits counts
        → length ids ≡ sum counts
        → (output : List (Option (Prediction Score))) × (in_turn predict
              (windows_from ids counts (length counts) 0 0)
              (repeat (length counts) none)
            ≡ ok output)
          × (length output ≡ length counts)
          × Filled (length counts) output
    unfolding windows_from
    in_turn-windows_from fits aligned = elim (Bool-cases (ltb 0 (length counts))) [
      | inl more ↦
          in_turn-Filled (windows_from ids counts (length counts) 0 0) 0
            (repeat (length counts) none)
            (windows_from-Owned ids counts fits aligned (length counts) 0 0 (omega arith)
              (ground arith) (omega arith) (omega arith))
            (length-repeat (length counts) none) (λ i h. absurd (omega arith))
      | inr empty ↦
          let zero_words : length counts ≡ 0 = ground arith in
          rw zero_words ([], refl, refl, λ i h. absurd (omega arith))
    ]

    pub collected :
        (output : List (Option (Prediction Score))) (out : List (Prediction Score))
        → in_turn predict
            (windows_from ids counts (length counts) 0 0)
            (repeat (length counts) none)
          ≡ ok output
        → all_some output ≡ some out
        → predict_words predict ids counts ≡ ok out
    unfolding predict_words
    collected output out e k =
        rw (predict_from-in_turn (length counts) 0 0 (repeat (length counts) none), e)
          (ground (arith, k))

    -- The counts are those of at most 510 subwords that `_tokenize` lets through, and the model answers each
    -- call of at most 510 subwords with one prediction for each position. Then `_predict_words` returns: it
    -- has one prediction for each word, never fails for a word that no window owns, and the prediction of each
    -- word is what the model said of it in a window that the word lies in.
    pub predict_words-IsPredicted :
        Fits counts
        → length ids ≡ sum counts
        → (out : List (Prediction Score)) × (predict_words predict ids counts ≡ ok out)
          × (length out ≡ length counts)
          × ((i : ℕ) (p : Prediction Score) → get_elem? out i ≡ some p → IsPredicted i p)
    predict_words-IsPredicted fits aligned =
        let (output, e, size, filled) = in_turn-windows_from fits aligned in
        let (out, e', back) =
          all_some-Filled output
            (λ i h. let (p, here, origin) = filled i (omega arith) in (p, here)) in
        let n : length out ≡ length counts =
          sym (length-map some out) ∙ ap (λ xs. length xs) back ∙ size in
        (
          out,
          collected output out e e',
          n,
          λ i p h.
              let (q, here, origin) = filled i (omega (arith, get_elem?-lt out i p h, n)) in
              let there : get_elem? output i ≡ some (some p) =
                rw (← back) (get_elem?-map some out i p h) in
              let same : q ≡ p = cc in subst (λ x. IsPredicted i x) same origin,
        )
