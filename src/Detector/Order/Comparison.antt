-- ===== src/Detector/Order/Comparison.antt =====
-- Three-way comparisons, and the lexicographic order of two of them.
use seif_pii.Base.{◌≡◌, ◌≢◌, refl, ◌⊎◌, inl, inr, arith, [], ◌∷◌}
use seif_pii.Text.{Text}
use seif_pii.Detector.Order.{Sign, less, same, more, compare_ℕ, compare_text, ◌then_by◌}

abbrev pub flip : Sign → Sign
flip less = more
flip same = same
flip more = less

-- A total preorder, as a comparison.
pub record IsComparison {ℓ} {A : Type ℓ} (cmp : A → A → Sign) : Type ℓ where
  pub flipped : (a b : A) → cmp b a ≡ flip (cmp a b)
  pub trans : (a b c : A) → cmp a b ≢ more → cmp b c ≢ more → cmp a c ≢ more

module _ {ℓ} {A : Type ℓ} {cmp : A → A → Sign} (law : IsComparison cmp) where
  -- A chain whose ends compare equal is equal throughout.
  pub same_left : (a b c : A) → cmp a b ≢ more → cmp b c ≢ more → cmp a c ≡ same → cmp a b ≡ same
  same_left a b c h k e =
      let back : cmp c a ≢ more = λ m. ground (arith, law.flipped a c) in
      let low : cmp b a ≢ more = law.trans b c a k back in ground (arith, law.flipped a b)

  pub same_right : (a b c : A) → cmp a b ≢ more → cmp b c ≢ more → cmp a c ≡ same → cmp b c ≡ same
  same_right a b c h k e =
      let back : cmp c a ≢ more = λ m. ground (arith, law.flipped a c) in
      let low : cmp c b ≢ more = law.trans c a b back h in ground (arith, law.flipped b c)

pub Sign-cases : (s : Sign) → (s ≡ less) ⊎ (s ≡ same) ⊎ (s ≡ more)
Sign-cases less = inl refl
Sign-cases same = inr (inl refl)
Sign-cases more = inr (inr refl)

then_by_flip : (s t s' t' : Sign) → s' ≡ flip s → t' ≡ flip t → (s' then_by t') ≡ flip (s then_by t)
then_by_flip less t s' t' p q = ground arith
then_by_flip same t s' t' p q = ground arith
then_by_flip more t s' t' p q = ground arith

module _ {ℓ} {A : Type ℓ} {c1 c2 : A → A → Sign} (l1 : IsComparison c1) (l2 : IsComparison c2) where
  lex_trans :
      (a b c : A)
      → (c1 a b then_by c2 a b) ≢ more
      → (c1 b c then_by c2 b c) ≢ more
      → (c1 a c then_by c2 a c) ≢ more
  lex_trans a b c h k =
      let h1 : c1 a b ≢ more = λ m. ground (arith, h) in
      let k1 : c1 b c ≢ more = λ m. ground (arith, k) in
      let t1 = l1.trans a b c h1 k1 in
      elim (Sign-cases (c1 a c)) [
        | inl lt ↦ rw lt (λ m. ground arith)
        | inr (inl eq) ↦ rw eq (
            l2.trans a b c (λ m. h (rw (same_left l1 a b c h1 k1 eq) m))
              (λ m. k (rw (same_right l1 a b c h1 k1 eq) m)))
        | inr (inr gt) ↦ absurd (t1 gt)
      ]

  pub lex-IsComparison : IsComparison (λ a b. c1 a b then_by c2 a b)
  lex-IsComparison = record {
    flipped = λ a b. then_by_flip (c1 a b) (c2 a b) _ _ (l1.flipped a b) (l2.flipped a b);
    trans = lex_trans;
  }

pub compare_ℕ-IsComparison : IsComparison compare_ℕ
unfolding compare_ℕ
compare_ℕ-IsComparison = record { flipped = λ a b. ground arith; trans = λ a b c h k. ground arith }

pub on-IsComparison {ℓ κ} :
    {A : Type ℓ} {B : Type κ} {cmp : B → B → Sign} (f : A → B)
    → IsComparison cmp
    → IsComparison (λ a b. cmp (f a) (f b))
on-IsComparison f l = record {
  flipped = λ a b. l.flipped (f a) (f b);
  trans = λ a b c. l.trans (f a) (f b) (f c);
}

pub down-IsComparison {ℓ} :
    {A : Type ℓ} {cmp : A → A → Sign} → IsComparison cmp → IsComparison (λ a b. cmp b a)
down-IsComparison l = record {
  flipped = λ a b. l.flipped b a;
  trans = λ a b c h k. l.trans c b a k h;
}

compare_text-flip : (xs ys : Text) → compare_text ys xs ≡ flip (compare_text xs ys)
unfolding compare_text
compare_text-flip [] [] = refl
compare_text-flip [] (y ∷ ys) = refl
compare_text-flip (x ∷ xs) [] = refl
compare_text-flip (x ∷ xs) (y ∷ ys) =
    then_by_flip (compare_ℕ x y) (compare_text xs ys) _ _ (compare_ℕ-IsComparison.flipped x y)
      (compare_text-flip xs ys)

compare_text_trans :
    (xs ys zs : Text)
    → compare_text xs ys ≢ more
    → compare_text ys zs ≢ more
    → compare_text xs zs ≢ more
unfolding compare_text
compare_text_trans [] [] zs h k = k
compare_text_trans [] (y ∷ ys) [] h k = λ m. ground arith
compare_text_trans [] (y ∷ ys) (z ∷ zs) h k = λ m. ground arith
compare_text_trans (x ∷ xs) [] zs h k = absurd (h refl)
compare_text_trans (x ∷ xs) (y ∷ ys) [] h k = absurd (k refl)
compare_text_trans (x ∷ xs) (y ∷ ys) (z ∷ zs) h k = ground (arith, compare_text_trans xs ys zs)

pub compare_text-IsComparison : IsComparison compare_text
compare_text-IsComparison = record { flipped = compare_text-flip; trans = compare_text_trans }
