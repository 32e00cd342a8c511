-- ===== src/Decoder/Assigning.antt =====
-- A slice assignment in Python, read by the index.
use seif_pii.Base.{
  ℕ, zero, suc, ◌+◌, ◌-◌, ◌≤◌, ◌<◌, ◌≡◌, refl, ◌∙◌, ap, some, List, [], ◌∷◌, ◌++◌, map, arith, max,
  length, length-append, length-take, length-drop, take, drop, get_elem?, get_elem?-take,
  get_elem?-drop,
}
use seif_pii.Decoder.Windows.{assign}

pub get_elem?-append_left :
    {A : Type 0} (xs ys : List A) (i : ℕ) → i < length xs → get_elem? (xs ++ ys) i ≡ get_elem? xs i
get_elem?-append_left [] ys i h = absurd (omega arith)
get_elem?-append_left (x ∷ xs) ys zero h = refl
get_elem?-append_left (x ∷ xs) ys (suc i) h = get_elem?-append_left xs ys i (omega arith)

pub get_elem?-append_right :
    {A : Type 0} (xs ys : List A) (i : ℕ)
    → length xs ≤ i
    → get_elem? (xs ++ ys) i ≡ get_elem? ys (i - length xs)
get_elem?-append_right [] ys i h = let e : i - 0 ≡ i = omega arith in rw e refl
get_elem?-append_right (x ∷ xs) ys zero h = absurd (omega arith)
get_elem?-append_right (x ∷ xs) ys (suc i) h =
    let e : suc i - suc (length xs) ≡ i - length xs = omega arith in
    rw e (get_elem?-append_right xs ys i (omega arith))

pub length-map : {A B : Type 0} (f : A → B) (xs : List A) → length (map f xs) ≡ length xs
length-map f [] = refl
length-map f (x ∷ xs) = ap (λ (n : ℕ). suc n) (length-map f xs)

pub get_elem?-some :
    {A : Type 0} (xs : List A) (i : ℕ) → i < length xs → (x : A) × (get_elem? xs i ≡ some x)
get_elem?-some [] i h = absurd (omega arith)
get_elem?-some (x ∷ xs) zero h = (x, refl)
get_elem?-some (x ∷ xs) (suc i) h = get_elem?-some xs i (omega arith)

pub get_elem?-map :
    {A B : Type 0} (f : A → B) (xs : List A) (i : ℕ) (x : A)
    → get_elem? xs i ≡ some x
    → get_elem? (map f xs) i ≡ some (f x)
get_elem?-map f [] i x e = absurd (ground arith)
get_elem?-map f (y ∷ xs) zero x e = let same : y ≡ x = ground arith in rw same refl
get_elem?-map f (y ∷ xs) (suc i) x e = get_elem?-map f xs i x e

-- A slice assignment of a list of the slice's length.
module _ {A : Type 0} (a b : ℕ) (new xs : List A) (fits : length new ≡ b - a)
    (within : b ≤ length xs) (start : a ≤ length xs) where
  pub length-assign : length (assign a b new xs) ≡ length xs
  length-assign = omega (
    arith,
    length-append (take a xs) (new ++ drop (max a b) xs),
    length-append new (drop (max a b) xs),
    length-take a xs start,
    length-drop (max a b) xs,
  )

  pub assign_before : (i : ℕ) → i < a → get_elem? (assign a b new xs) i ≡ get_elem? xs i
  assign_before i h =
      get_elem?-append_left (take a xs) (new ++ drop (max a b) xs) i
        (omega (arith, length-take a xs start))
      ∙ get_elem?-take xs a i h

  pub assign_inside :
      (i : ℕ) → a ≤ i → i < b → get_elem? (assign a b new xs) i ≡ get_elem? new (i - a)
  assign_inside i h k =
      let n = length-take a xs start in
      get_elem?-append_right (take a xs) (new ++ drop (max a b) xs) i (omega (arith, n))
      ∙ rw n (get_elem?-append_left new (drop (max a b) xs) (i - a) (omega (arith, fits)))

  pub assign_behind : (i : ℕ) → max a b ≤ i → get_elem? (assign a b new xs) i ≡ get_elem? xs i
  assign_behind i h =
      let n = length-take a xs start in
      let e : max a b + (i - a - length new) ≡ i = omega (arith, fits) in
      get_elem?-append_right (take a xs) (new ++ drop (max a b) xs) i (omega (arith, n))
      ∙ rw n (get_elem?-append_right new (drop (max a b) xs) (i - a) (omega (arith, fits)))
      ∙ get_elem?-drop xs (max a b) (i - a - length new)
      ∙ ap (λ (j : ℕ). get_elem? xs j) e
