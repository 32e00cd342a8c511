-- ===== src/Detector/Order/Sorting.antt =====
-- `sort` orders its list and keeps its elements.
use seif_pii.Base.{
  ◌≡◌, inl, inr, Bool, true, false, List, [], ◌∷◌, All, In, Bool-cases, All-of_In, All-In, arith,
}
use seif_pii.Detector.Order.{insert_sorted, sort}
use seif_pii.Detector.Order.Rank.{IsOrder}

module _ {A : Type 0} (before : A → A → Bool) where
  -- No element sorts before one in front of it.
  abbrev pub Sorted : List A → Type 0
  Sorted [] = Unit
  Sorted (x ∷ xs) = All (λ y. before y x ≡ false) xs × Sorted xs

  insert_behind :
      (x y : A) (ys : List A)
      → before y x ≡ true
      → insert_sorted before x (y ∷ ys) ≡ y ∷ insert_sorted before x ys
  unfolding insert_sorted
  insert_behind x y ys h = ground arith

  insert_front :
      (x y : A) (ys : List A) → before y x ≡ false → insert_sorted before x (y ∷ ys) ≡ x ∷ y ∷ ys
  unfolding insert_sorted
  insert_front x y ys h = ground arith

  insert-In : (a x : A) (ys : List A) → In a (insert_sorted before x ys) → In a (x ∷ ys)
  unfolding insert_sorted
  insert-In a x [] h = h
  insert-In a x (y ∷ ys) h = elim (Bool-cases (before y x)) [
    | inr front ↦ rw (insert_front x y ys front) at h
    | inl behind ↦
        let h' : In a (y ∷ insert_sorted before x ys) = rw (insert_behind x y ys behind) at h in
        elim h' [
          | inl e ↦ inr (inl e)
          | inr m ↦ elim (insert-In a x ys m) [ inl e ↦ inl e | inr n ↦ inr (inr n) ]
        ]
  ]

  In-insert : (a x : A) (ys : List A) → In a (x ∷ ys) → In a (insert_sorted before x ys)
  unfolding insert_sorted
  In-insert a x [] h = h
  In-insert a x (y ∷ ys) h = elim (Bool-cases (before y x)) [
    | inr front ↦ rw (insert_front x y ys front) h
    | inl behind ↦ rw (insert_behind x y ys behind) (elim h [
      | inl e ↦ inr (In-insert a x ys (inl e))
      | inr (inl e) ↦ inl e
      | inr (inr m) ↦ inr (In-insert a x ys (inr m))
    ])
  ]

  pub sort-In : (a : A) (xs : List A) → In a (sort before xs) → In a xs
  unfolding sort
  sort-In a [] h = h
  sort-In a (x ∷ xs) h = elim (insert-In a x (sort before xs) h) [
    | inl e ↦ inl e
    | inr m ↦ inr (sort-In a xs m)
  ]

  pub In-sort : (a : A) (xs : List A) → In a xs → In a (sort before xs)
  unfolding sort
  In-sort a [] h = h
  In-sort a (x ∷ xs) (inl e) = In-insert a x (sort before xs) (inl e)
  In-sort a (x ∷ xs) (inr m) = In-insert a x (sort before xs) (inr (In-sort a xs m))

  pub All-sort {κ} : (P : A → Type κ) (xs : List A) → All P xs → All P (sort before xs)
  All-sort P xs h = All-of_In P (sort before xs) (λ a m. All-In P a xs h (sort-In a xs m))

  module _ (law : IsOrder before) where
    Sorted-insert : (x : A) (ys : List A) → Sorted ys → Sorted (insert_sorted before x ys)
    unfolding insert_sorted
    Sorted-insert x [] h = (tt, tt)
    Sorted-insert x (y ∷ ys) (low, h) = elim (Bool-cases (before y x)) [
      | inl behind ↦ rw (insert_behind x y ys behind) (
        All-of_In _ (insert_sorted before x ys) (λ a m. elim (insert-In a x ys m) [
          | inl e ↦ rw e (law.asym y x behind)
          | inr n ↦ All-In (λ z. before z y ≡ false) a ys low n
        ]),
        Sorted-insert x ys h,
      )
      | inr front ↦ rw (insert_front x y ys front) (
        (
          front,
          All-of_In _ ys
              (λ a m. law.trans x y a front (All-In (λ z. before z y ≡ false) a ys low m)),
        ),
        (low, h),
      )
    ]

    pub Sorted-sort : (xs : List A) → Sorted (sort before xs)
    unfolding sort
    Sorted-sort [] = tt
    Sorted-sort (x ∷ xs) = Sorted-insert x (sort before xs) (Sorted-sort xs)
