-- ===== src/Tests/DecoderModel.antt =====
-- A model for the tests of Decoder: a word is one subword, its length, and the logits of a subword are itself.
use seif_pii.Base.{
  ℕ, zero, suc, ◌+◌, ◌-◌, ◌≤◌, ◌≡◌, refl, ap, true, false, Option, some, List, [], ◌∷◌, ◌++◌, map,
  arith, min, length, length-append, take, take-append_length, all, ◌==◌, All,
}
use seif_pii.Base.Result.{ok}
use seif_pii.Text.{Text}
use seif_pii.Decoder.Windows.{budget, repeat, all_some}
use seif_pii.Decoder.Assigning.{length-map}
use seif_pii.Decoder.Reading.{Runtime, expected, is_inner, is_zero, model_inputs, has_shape}
use seif_pii.Decoder.Model.{padded, Answers, IsModel}

abbrev pub number_from : ℕ → List Text → List (ℕ × Text)
number_from i [] = []
number_from i (t ∷ ts) = (i, t) ∷ number_from (i + 1) ts

abbrev pub owners_from : ℕ → List Text → List (Option ℕ)
owners_from i [] = []
owners_from i (t ∷ ts) = some i ∷ owners_from (i + 1) ts

abbrev pub toy : Runtime ℕ ℕ
toy = record {
  id2label = number_from 0 expected;
  tokenizer = λ words. some (map (λ w. some (length w)) words, owners_from 0 words);
  build_inputs_with_special_tokens = λ tokens. some 101 ∷ (map some tokens ++ some 102 ∷ []);
  create_token_type_ids_from_sequences = λ tokens. repeat (length tokens + 2) (some 0);
  pad_token_id = some 0;
  run = λ batch. some (map (λ (row : List ℕ × List ℕ). row.0) batch);
  width = λ row. 43;
  winner = λ row. (min row 42, row);
  is_control = λ c. false;
  certain = 1;
  weaker = min;
  mean = λ scores. length scores;
}

all_some-map : (xs ys : List ℕ) → all_some (map some xs ++ map some ys) ≡ some (xs ++ ys)
unfolding all_some
all_some-map [] [] = refl
all_some-map [] (y ∷ ys) = ground (arith, all_some-map [] ys)
all_some-map (x ∷ xs) ys = ground (arith, all_some-map xs ys)

is_inner_refl : (xs : List ℕ) → is_inner (map some xs) xs ≡ true
unfolding is_inner
is_inner_refl [] = refl
is_inner_refl (x ∷ xs) = ground (arith, is_inner_refl xs)

zeros :
    (n : ℕ)
    → (all is_zero (repeat n (some 0)) ≡ true) × (length {A = Option ℕ} (repeat n (some 0)) ≡ n)
zeros zero = (refl, refl)
zeros (suc n) = let (a, b) = zeros n in (a, omega arith)

repeat-length : (n x : ℕ) → length (repeat n x) ≡ n
repeat-length zero x = refl
repeat-length (suc n) x = ap (λ (k : ℕ). suc k) (repeat-length n x)

toy-lays_out :
    (tokens : List ℕ)
    → length tokens ≤ budget
    → (inputs : List ℕ) × (model_inputs toy tokens ≡ ok inputs)
unfolding model_inputs all_some
toy-lays_out tokens h =
    let body : List (Option ℕ) = map some tokens ++ some 102 ∷ [] in
    let m : length {A = Option ℕ} (map some tokens) ≡ length tokens = length-map some tokens in
    let n : length body ≡ length tokens + 1 =
      omega (arith, length-append (map some tokens) (some 102 ∷ []), m) in
    let size : length body - 1 ≡ length {A = Option ℕ} (map some tokens) = omega (arith, n, m) in
    let inner : is_inner (take (length body - 1) body) tokens ≡ true =
      rw (size, take-append_length (map some tokens) (some 102 ∷ [])) (is_inner_refl tokens) in
    let (z, k) = zeros (length tokens + 2) in
    (101 ∷ (tokens ++ 102 ∷ []), ground (arith, all_some-map tokens (102 ∷ []), n, inner, z, k, h))

widths : (xs : List ℕ) → all (λ (row : ℕ). 43 == 43) xs ≡ true
widths [] = refl
widths (x ∷ xs) = widths xs

toy-Answers :
    (size : ℕ) (batch : List (List ℕ))
    → All (λ (inputs : List ℕ). length inputs ≤ size) batch
    → Answers toy
        (λ inputs. inputs)
        0
        size
        batch
        (map (λ (row : List ℕ × List ℕ). row.0) (map (padded 0 size) batch))
unfolding has_shape
toy-Answers size [] h = tt
toy-Answers size (inputs ∷ batch) (h, hs) =
    let n : length (inputs ++ repeat (size - length inputs) 0) ≡ size = omega (
      arith,
      length-append inputs (repeat (size - length inputs) 0),
      repeat-length (size - length inputs) 0,
      h,
    ) in
    (
      rw (n, widths (inputs ++ repeat (size - length inputs) 0)) (ground arith),
      refl,
      (repeat (size - length inputs) 0, refl),
      toy-Answers size batch hs,
    )

pub toy-IsModel : IsModel toy (λ inputs. inputs) 0
toy-IsModel = record {
  lays_out = toy-lays_out;
  pads = refl;
  picks = λ row. omega arith;
  runs = λ size batch h. (
    map (λ (row : List ℕ × List ℕ). row.0) (map (padded 0 size) batch),
    refl,
    toy-Answers size batch h,
  );
}
