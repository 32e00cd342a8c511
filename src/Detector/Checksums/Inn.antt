-- ===== src/Detector/Checksums/Inn.antt =====
-- The numbers that `_valid_inn` accepts, in terms of one row of weights.
use seif_pii.Base.{
  ℕ, ◌≡◌, ◌≢◌, ◌↔◌, ◌⊎◌, refl, sym, ◌∙◌, inl, inr, true, false, List, [], ◌∷◌, ◌++◌, arith, map,
  length, ◌≤◌, ◌==◌, ==_iff, Bool-cases, ◌&&◌, &&-true, all, In,
}
use seif_pii.Text.{Text}
use seif_pii.Detector.Checksums.{digit, all_same, checks, valid_inn}
use seif_pii.Detector.Checksums.Controls.{
  backwards, weights, IsControl, checks-IsControl, IsControl-checks,
}

abbrev pub IsInn : Text → Type 0
IsInn value =
    ((c : ℕ) × (d : ℕ) × In c value × In d value × (c ≢ d))
    × (((length value ≡ 10) × IsControl (map (λ c. digit c) value) 9)
        ⊎ ((length value ≡ 12)
            × IsControl (map (λ c. digit c) value) 10
            × IsControl (map (λ c. digit c) value) 11))

length-map : (xs : Text) → length (map (λ c. digit c) xs) ≡ length xs
length-map [] = refl
length-map (x ∷ xs) = omega (arith, length-map xs)

-- What is not all the same has two elements that differ.
other_of : (x : ℕ) (xs : List ℕ) → all (λ y. y == x) xs ≡ false → (y : ℕ) × In y xs × (y ≢ x)
other_of x [] h = absurd (ground arith)
other_of x (y ∷ xs) h = elim (Bool-cases (y == x)) [
  | inr differs ↦ (y, inl refl, λ e. absurd (ground (arith, (==_iff y x).1 e)))
  | inl same ↦ let (z, place, other) = other_of x xs (ground (arith, h)) in (z, inr place, other)
]

In-all : (x y : ℕ) (xs : List ℕ) → all (λ z. z == x) xs ≡ true → In y xs → y ≡ x
In-all x y [] h k = absurd k
In-all x y (z ∷ xs) h (inl e) = e ∙ (==_iff z x).0 (&&-true _ _ h).0
In-all x y (z ∷ xs) h (inr k) = In-all x y xs (&&-true _ _ h).1 k

all_same-false :
    (value : Text) → all_same value ≡ false → (c : ℕ) × (d : ℕ) × In c value × In d value × (c ≢ d)
all_same-false [] h = absurd (ground arith)
all_same-false (x ∷ xs) h =
    let (y, place, other) = other_of x xs h in (y, x, inr place, inl refl, other)

all_same-eq : (value : Text) (c d : ℕ) → all_same value ≡ true → In c value → In d value → c ≡ d
all_same-eq [] c d h k k' = absurd k
all_same-eq (x ∷ xs) c d h (inl e) (inl e') = e ∙ sym e'
all_same-eq (x ∷ xs) c d h (inl e) (inr k) = e ∙ sym (In-all x d xs h k)
all_same-eq (x ∷ xs) c d h (inr k) (inl e) = In-all x c xs h k ∙ sym e
all_same-eq (x ∷ xs) c d h (inr k) (inr k') = In-all x c xs h k ∙ sym (In-all x d xs h k')

-- `_valid_inn` on texts of ten and of twelve characters, and on others.
module _ (value : Text) (differ : all_same value ≡ false) where
  abbrev ds : List ℕ
  ds = map (λ c. digit c) value

  valid_inn-ten :
      length ds ≡ 10 → valid_inn value ≡ checks ds (2 ∷ 4 ∷ 10 ∷ 3 ∷ 5 ∷ 9 ∷ 4 ∷ 6 ∷ 8 ∷ []) 9
  unfolding valid_inn
  valid_inn-ten h = rw (differ, h) refl

  valid_inn-twelve :
      length ds ≡ 12
      → valid_inn value ≡ (
          checks ds (7 ∷ 2 ∷ 4 ∷ 10 ∷ 3 ∷ 5 ∷ 9 ∷ 4 ∷ 6 ∷ 8 ∷ []) 10
          && checks ds (3 ∷ 7 ∷ 2 ∷ 4 ∷ 10 ∷ 3 ∷ 5 ∷ 9 ∷ 4 ∷ 6 ∷ 8 ∷ []) 11)
  unfolding valid_inn
  valid_inn-twelve h = rw (differ, h) refl

  valid_inn-other : (length ds == 10) ≡ false → (length ds == 12) ≡ false → valid_inn value ≡ false
  unfolding valid_inn
  valid_inn-other h k = rw (differ, h, k) refl

  ten_weights : weights ≡ backwards (2 ∷ 4 ∷ 10 ∷ 3 ∷ 5 ∷ 9 ∷ 4 ∷ 6 ∷ 8 ∷ []) ++ 7 ∷ 3 ∷ []
  unfolding backwards
  ten_weights = refl

  ten-IsControl :
      length ds ≡ 10
      → (checks ds (2 ∷ 4 ∷ 10 ∷ 3 ∷ 5 ∷ 9 ∷ 4 ∷ 6 ∷ 8 ∷ []) 9 ≡ true) ↔ IsControl ds 9
  ten-IsControl h =
      let ws : List ℕ = 2 ∷ 4 ∷ 10 ∷ 3 ∷ 5 ∷ 9 ∷ 4 ∷ 6 ∷ 8 ∷ [] in
      let enough : 9 ≤ length ds = omega (arith, h) in
      (
        checks-IsControl ds ws (7 ∷ 3 ∷ []) 9 refl enough ten_weights,
        IsControl-checks ds ws (7 ∷ 3 ∷ []) 9 refl enough ten_weights,
      )

  eleven_weights : weights ≡ backwards (7 ∷ 2 ∷ 4 ∷ 10 ∷ 3 ∷ 5 ∷ 9 ∷ 4 ∷ 6 ∷ 8 ∷ []) ++ 3 ∷ []
  unfolding backwards
  eleven_weights = refl

  twelve_weights : weights ≡ backwards (3 ∷ 7 ∷ 2 ∷ 4 ∷ 10 ∷ 3 ∷ 5 ∷ 9 ∷ 4 ∷ 6 ∷ 8 ∷ []) ++ []
  unfolding backwards
  twelve_weights = refl

  twelve-IsControl :
      length ds ≡ 12
      → ((checks ds (7 ∷ 2 ∷ 4 ∷ 10 ∷ 3 ∷ 5 ∷ 9 ∷ 4 ∷ 6 ∷ 8 ∷ []) 10
            && checks ds (3 ∷ 7 ∷ 2 ∷ 4 ∷ 10 ∷ 3 ∷ 5 ∷ 9 ∷ 4 ∷ 6 ∷ 8 ∷ []) 11)
          ≡ true)
        ↔ (IsControl ds 10 × IsControl ds 11)
  twelve-IsControl h =
      let ws : List ℕ = 7 ∷ 2 ∷ 4 ∷ 10 ∷ 3 ∷ 5 ∷ 9 ∷ 4 ∷ 6 ∷ 8 ∷ [] in
      let ws' : List ℕ = 3 ∷ 7 ∷ 2 ∷ 4 ∷ 10 ∷ 3 ∷ 5 ∷ 9 ∷ 4 ∷ 6 ∷ 8 ∷ [] in
      let enough : 10 ≤ length ds = omega (arith, h) in
      let enough' : 11 ≤ length ds = omega (arith, h) in
      (
        λ e.
            let (first, second) = &&-true (checks ds ws 10) (checks ds ws' 11) e in
            (
              checks-IsControl ds ws (3 ∷ []) 10 refl enough eleven_weights first,
              checks-IsControl ds ws' [] 11 refl enough' twelve_weights second,
            ),
        λ k.
            let first = IsControl-checks ds ws (3 ∷ []) 10 refl enough eleven_weights k.0 in
            let second = IsControl-checks ds ws' [] 11 refl enough' twelve_weights k.1 in
            rw (first, second) refl,
      )

  -- The controls, where the digits differ.
  valid_inn-controls :
      valid_inn value ≡ true
      → ((length value ≡ 10) × IsControl ds 9)
        ⊎ ((length value ≡ 12) × IsControl ds 10 × IsControl ds 11)
  valid_inn-controls h =
      let size = length-map value in
      elim (Bool-cases (length ds == 10)) [
        | inl ten ↦
            let ten' = (==_iff (length ds) 10).0 ten in
            inl (sym size ∙ ten', (ten-IsControl ten').0 (sym (valid_inn-ten ten') ∙ h))
        | inr not_ten ↦ elim (Bool-cases (length ds == 12)) [
          | inl twelve ↦
              let twelve' = (==_iff (length ds) 12).0 twelve in
              let controls = (twelve-IsControl twelve').0 (sym (valid_inn-twelve twelve') ∙ h) in
              inr (sym size ∙ twelve', controls.0, controls.1)
          | inr not_twelve ↦ let off = valid_inn-other not_ten not_twelve in absurd (ground arith)
        ]
      ]

  controls-valid_inn :
      ((length value ≡ 10) × IsControl ds 9)
        ⊎ ((length value ≡ 12) × IsControl ds 10 × IsControl ds 11)
      → valid_inn value ≡ true
  controls-valid_inn (inl (size, k)) =
      let ten = length-map value ∙ size in valid_inn-ten ten ∙ (ten-IsControl ten).1 k
  controls-valid_inn (inr (size, first, second)) =
      let twelve = length-map value ∙ size in
      valid_inn-twelve twelve ∙ (twelve-IsControl twelve).1 (first, second)

valid_inn-same : (value : Text) → all_same value ≡ true → valid_inn value ≡ false
unfolding valid_inn
valid_inn-same value h = rw h refl

-- `_valid_inn` accepts a text of ASCII digits just if two of its digits differ and it has ten of them, the last a
-- control digit, or twelve, the last two control digits. A control digit is the sum of the digits before it, each
-- times its weight, modulo 11 and then 10; the weights are the same for each, counted from the control digit to
-- the left.
pub valid_inn_iff : (value : Text) → (valid_inn value ≡ true) ↔ IsInn value
valid_inn_iff value = elim (Bool-cases (all_same value)) [
  | inl alike ↦
      let off = valid_inn-same value alike in
      (
        λ h. absurd (ground arith),
        λ k.
            let ((c, d, place, place', other), controls) = k in
            absurd (other (all_same-eq value c d alike place place')),
      )
  | inr differ ↦ (
    λ h. (all_same-false value differ, valid_inn-controls value differ h),
    λ k. controls-valid_inn value differ k.1,
  )
]
