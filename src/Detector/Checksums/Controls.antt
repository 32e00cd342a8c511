-- ===== src/Detector/Checksums/Controls.antt =====
-- The control digits of a number, in terms of one row of weights.
use seif_pii.Base.{
  ℕ, ◌+◌, ◌%◌, ◌≡◌, refl, sym, ap, ◌∙◌, inl, inr, true, some, List, [], ◌∷◌, ◌++◌, arith, length,
  length-append, length-take, append_assoc, append-nil, ◌≤◌, take, get_elem?, ◌==◌, ==_iff,
  Option-cases,
}
use seif_pii.Detector.Checksums.{weighted, checks}

unfoldable pub backwards : List ℕ → List ℕ
backwards [] = []
backwards (x ∷ xs) = backwards xs ++ x ∷ []

-- The weights of the digits before a control digit, from the nearest on.
abbrev pub weights : List ℕ
weights = 8 ∷ 6 ∷ 4 ∷ 9 ∷ 5 ∷ 3 ∷ 10 ∷ 4 ∷ 2 ∷ 7 ∷ 3 ∷ []

-- The digit at this place is the control digit of those before it.
abbrev pub IsControl : List ℕ → ℕ → Type 0
IsControl ds place =
    (d : ℕ) × (get_elem? ds place ≡ some d)
    × (weighted (backwards (take place ds)) weights % 11 % 10 ≡ d)

weighted-append :
    (xs ys ws vs : List ℕ)
    → length xs ≡ length ws
    → weighted (xs ++ ys) (ws ++ vs) ≡ weighted xs ws + weighted ys vs
unfolding weighted
weighted-append [] ys [] vs h = omega arith
weighted-append [] ys (w ∷ ws) vs h = absurd (omega (arith, h))
weighted-append (x ∷ xs) ys [] vs h = absurd (omega (arith, h))
weighted-append (x ∷ xs) ys (w ∷ ws) vs h =
    omega (arith, weighted-append xs ys ws vs (omega (arith, h)))

length-backwards : (xs : List ℕ) → length (backwards xs) ≡ length xs
unfolding backwards
length-backwards [] = refl
length-backwards (x ∷ xs) =
    omega (arith, length-backwards xs, length-append (backwards xs) (x ∷ []))

-- Both rows may be read from the other end, with any weights behind the last.
weighted-backwards :
    (xs ws vs : List ℕ)
    → length xs ≡ length ws
    → weighted (backwards xs) (backwards ws ++ vs) ≡ weighted xs ws
unfolding weighted backwards
weighted-backwards [] [] vs h = refl
weighted-backwards [] (w ∷ ws) vs h = absurd (omega (arith, h))
weighted-backwards (x ∷ xs) [] vs h = absurd (omega (arith, h))
weighted-backwards (x ∷ xs) (w ∷ ws) vs h =
    let whole : (backwards ws ++ w ∷ []) ++ vs ≡ backwards ws ++ w ∷ vs =
      append_assoc (backwards ws) (w ∷ []) vs in
    let sizes : length (backwards xs) ≡ length (backwards ws) =
      omega (arith, length-backwards xs, length-backwards ws, h) in
    let front : weighted (backwards xs) (backwards ws) ≡ weighted xs ws =
      rw (append-nil (backwards ws)) at (weighted-backwards xs ws [] (omega (arith, h))) in
    rw whole
      (omega (arith, front, weighted-append (backwards xs) (x ∷ []) (backwards ws) (w ∷ vs) sizes))

-- The test of one control digit, with the weights of the source.
module _ (ds ws vs : List ℕ) (place : ℕ) (size : length ws ≡ place) (enough : place ≤ length ds)
    (same_weights : weights ≡ backwards ws ++ vs) where
  weighted-weights : weighted (backwards (take place ds)) weights ≡ weighted (take place ds) ws
  weighted-weights =
      rw same_weights
        (weighted-backwards (take place ds) ws vs (length-take place ds enough ∙ sym size))

  pub checks-IsControl : checks ds ws place ≡ true → IsControl ds place
  checks-IsControl h = elim (Option-cases (get_elem? ds place)) [
    | inl missing ↦ absurd (ground (arith, missing))
    | inr (d, there) ↦
        let test : (weighted (take place ds) ws % 11 % 10 == d) ≡ true = ground (arith, there) in
        (
          d,
          there,
          ap (λ n. n % 11 % 10) weighted-weights
              ∙ (==_iff (weighted (take place ds) ws % 11 % 10) d).0 test,
        )
  ]

  pub IsControl-checks : IsControl ds place → checks ds ws place ≡ true
  IsControl-checks (d, there, e) =
      let test =
        (==_iff (weighted (take place ds) ws % 11 % 10) d).1
          (ap (λ n. n % 11 % 10) (sym weighted-weights) ∙ e) in
      ground (arith, there, test)
