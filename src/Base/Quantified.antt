-- ===== src/Base/Quantified.antt =====
-- Statements about all elements, or all pairs of elements in order, under filtering and appending.
use Prim.Native.Nat.{ℕ, zero, suc}
use mathlib.Core.Path.{◌≡◌, refl, subst}
use mathlib.Core.Logic.{◌⊎◌, inl, inr}
use mathlib.Core.Option.{some}
use native.Mathlib.Omega.{arith}
use mathlib.Core.Bool.{Bool, true, false}
use mathlib.Core.List.{List, [], ◌∷◌, ◌++◌}
use seif_pii.Base.Lists.{All, keep, get_elem?, take, drop, replace_at, remove_at}

-- `P x y` for each `x` and each `y` behind it.
abbrev pub Pairs {ℓ κ} : {A : Type ℓ} → (A → A → Type κ) → List A → Type κ
Pairs P [] = Unit
Pairs P (x ∷ xs) = All (P x) xs × Pairs P xs

module _ {ℓ κ} {A : Type ℓ} where
  pub All-keep : (P : A → Type κ) (q : A → Bool) (xs : List A) → All P xs → All P (keep q xs)
  All-keep P q [] h = tt
  All-keep P q (x ∷ xs) (h, hs) =
      elim (q x) as (λ b. All P (elim b [ true ↦ x ∷ keep q xs | false ↦ keep q xs ])) [
        | true ↦ (h, All-keep P q xs hs)
        | false ↦ All-keep P q xs hs
      ]

  pub All-append : (P : A → Type κ) (xs ys : List A) → All P xs → All P ys → All P (xs ++ ys)
  All-append P [] ys h k = k
  All-append P (x ∷ xs) ys (h, hs) k = (h, All-append P xs ys hs k)

  pub All-snoc : (P : A → Type κ) (xs : List A) (a : A) → All P xs → P a → All P (xs ++ a ∷ [])
  All-snoc P [] a h p = (p, tt)
  All-snoc P (x ∷ xs) a (h, hs) p = (h, All-snoc P xs a hs p)

  pub All-impl : (P Q : A → Type κ) (xs : List A) → ((a : A) → P a → Q a) → All P xs → All Q xs
  All-impl P Q [] f h = tt
  All-impl P Q (x ∷ xs) f (h, hs) = (f x h, All-impl P Q xs f hs)

module _ {ℓ κ} {A : Type ℓ} where
  pub Pairs-keep :
      (P : A → A → Type κ) (q : A → Bool) (xs : List A) → Pairs P xs → Pairs P (keep q xs)
  Pairs-keep P q [] h = tt
  Pairs-keep P q (x ∷ xs) (h, hs) =
      elim (q x) as (λ b. Pairs P (elim b [ true ↦ x ∷ keep q xs | false ↦ keep q xs ])) [
        | true ↦ (All-keep (P x) q xs h, Pairs-keep P q xs hs)
        | false ↦ Pairs-keep P q xs hs
      ]

  pub Pairs-snoc :
      (P : A → A → Type κ) (xs : List A) (a : A)
      → Pairs P xs
      → All (λ x. P x a) xs
      → Pairs P (xs ++ a ∷ [])
  Pairs-snoc P [] a h hs = (tt, tt)
  Pairs-snoc P (x ∷ xs) a (h, k) (p, ps) = (All-snoc (P x) xs a h p, Pairs-snoc P xs a k ps)

module _ {ℓ κ} {A : Type ℓ} (P : A → Type κ) where
  pub All-replace_at : (i : ℕ) (xs : List A) (y : A) → All P xs → P y → All P (replace_at i y xs)
  All-replace_at i [] y h p = tt
  All-replace_at zero (x ∷ xs) y (h, hs) p = (p, hs)
  All-replace_at (suc i) (x ∷ xs) y (h, hs) p = (h, All-replace_at i xs y hs p)

  pub All-remove_at : (i : ℕ) (xs : List A) → All P xs → All P (remove_at i xs)
  All-remove_at i [] h = tt
  All-remove_at zero (x ∷ xs) (h, hs) = hs
  All-remove_at (suc i) (x ∷ xs) (h, hs) = (h, All-remove_at i xs hs)

  pub All-get_elem? : (i : ℕ) (xs : List A) (x : A) → All P xs → get_elem? xs i ≡ some x → P x
  All-get_elem? i [] x h e = absurd (ground arith)
  All-get_elem? zero (y ∷ xs) x (h, hs) e = let same : y ≡ x = ground arith in subst P same h
  All-get_elem? (suc i) (y ∷ xs) x (h, hs) e = All-get_elem? i xs x hs e

  pub All-drop : (n : ℕ) (xs : List A) → All P xs → All P (drop n xs)
  All-drop zero xs h = h
  All-drop (suc n) [] h = tt
  All-drop (suc n) (x ∷ xs) (h, hs) = All-drop n xs hs

  pub All-take : (n : ℕ) (xs : List A) → All P xs → All P (take n xs)
  All-take zero xs h = tt
  All-take (suc n) [] h = tt
  All-take (suc n) (x ∷ xs) (h, hs) = (h, All-take n xs hs)

pub List-cases :
    {A : Type 0} (xs : List A) → (xs ≡ []) ⊎ ((x : A) × (rest : List A) × (xs ≡ x ∷ rest))
List-cases [] = inl refl
List-cases (x ∷ xs) = inr (x, xs, refl)
