-- ===== src/Boundaries/Trim.antt =====
-- `_remainder`: what is left between model components.
use seif_pii.Base.{
  ℕ, zero, suc, ◌+◌, ◌-◌, ◌≤◌, ◌<◌, ◌≡◌, ◌≢◌, sym, ap, ◌∙◌, ◌⊎◌, inl, inr, Bool, true, false, some,
  [], ◌∷◌, arith, length, drop, get_elem?, slice, any, Bool-cases, Option-cases, any-get_elem?,
  any-false, get_elem?-slice, get_elem?-lt, length-take-le,
}
use seif_pii.Text.{Text, Unicode}
use seif_pii.Span.{Span}
use seif_pii.Boundaries.{char_test, moved, skip_left, skip_right, remainder}

-- The Unicode database: no letter or digit is white space.
pub record UnicodeLaws (u : Unicode) : Type 0 where
  pub alnum_not_space : (c : ℕ) → u.is_alnum c ≡ true → u.is_space c ≡ false

-- The position holds a letter or a digit.
abbrev pub alnum_at : Unicode → Text → ℕ → Bool
alnum_at u text i = char_test u.is_alnum text i

module _ (u : Unicode) (laws : UnicodeLaws u) (text : Text) where
  alnum_at-space : (i : ℕ) → alnum_at u text i ≡ true → char_test u.is_space text i ≡ false
  alnum_at-space i h = elim (Option-cases (get_elem? text i)) [
    | inl out ↦ absurd (ground arith)
    | inr (c, e) ↦ ground (arith, laws.alnum_not_space c)
  ]

  -- The loop stops in range, and a letter or digit that was in range stays in range.
  skip_left_keeps :
      (n start i : ℕ)
      → start ≤ i
      → i < start + n
      → alnum_at u text i ≡ true
      → (start ≤ skip_left u text n start) × (skip_left u text n start ≤ i)
  unfolding skip_left
  skip_left_keeps zero start i h k a = omega arith
  skip_left_keeps (suc n) start i h k a = elim (Bool-cases (char_test u.is_space text start)) [
    | inr stop ↦ rw stop (omega arith)
    | inl space ↦
        let here : start ≢ i = λ e. ground (arith, alnum_at-space i a) in
        let (p, q) = skip_left_keeps n (start + 1) i (omega arith) (omega arith) a in
        rw space (omega arith)
  ]

  skip_right_keeps :
      (n end i : ℕ)
      → i < end
      → end ≤ i + n
      → alnum_at u text i ≡ true
      → (i < skip_right u text n end) × (skip_right u text n end ≤ end)
  unfolding skip_right
  skip_right_keeps zero end i h k a = omega arith
  skip_right_keeps (suc n) end i h k a = elim (Bool-cases (char_test u.is_space text (end - 1))) [
    | inr stop ↦ rw stop (omega arith)
    | inl space ↦
        let here : end - 1 ≢ i = λ e. ground (arith, alnum_at-space i a) in
        let (p, q) = skip_right_keeps n (end - 1) i (omega arith) (omega arith) a in
        rw space (omega arith)
  ]

  alnum_in_slice :
      (start end i : ℕ)
      → start ≤ i
      → i < end
      → alnum_at u text i ≡ true
      → any u.is_alnum (slice text start end) ≡ true
  alnum_in_slice start end i h k a = elim (Bool-cases (any u.is_alnum (slice text start end))) [
    | inl hit ↦ hit
    | inr miss ↦ elim (Option-cases (get_elem? text i)) [
      | inl out ↦ absurd (ground arith)
      | inr (c, e) ↦
          let there : start + (i - start) ≡ i = omega arith in
          let e' : get_elem? (slice text start end) (i - start) ≡ some c =
            get_elem?-slice text start end (i - start) (omega arith)
            ∙ ap (λ (j : ℕ). get_elem? text j) there
            ∙ e in
          let no_alnum = any-false u.is_alnum (slice text start end) (i - start) c miss e' in
          absurd (ground arith)
    ]
  ]

  slice_has_alnum :
      (start end : ℕ)
      → any u.is_alnum (slice text start end) ≡ true
      → (i : ℕ) × (start ≤ i) × (i < end) × (alnum_at u text i ≡ true)
  slice_has_alnum start end h =
      let (k, c, e, hit) = any-get_elem? u.is_alnum (slice text start end) h in
      let short : length (slice text start end) ≤ end - start =
        omega (arith, length-take-le (end - start) (drop start text)) in
      let k_in : k < end - start = omega (arith, get_elem?-lt (slice text start end) k c e) in
      let e' : get_elem? text (start + k) ≡ some c =
        sym (get_elem?-slice text start end k (omega arith)) ∙ e in
      (start + k, omega arith, omega arith, ground arith)

  left_end :
      (start end i : ℕ)
      → start ≤ i
      → i < end
      → alnum_at u text i ≡ true
      → (start ≤ skip_left u text (end - start) start) × (skip_left u text (end - start) start ≤ i)
  left_end start end i h k a = skip_left_keeps (end - start) start i h (omega arith) a

  right_end :
      (s end i : ℕ)
      → s ≤ i
      → i < end
      → alnum_at u text i ≡ true
      → (i < skip_right u text (end - s) end) × (skip_right u text (end - s) end ≤ end)
  right_end s end i h k a = skip_right_keeps (end - s) end i k (omega arith) a

  -- The two outcomes of `remainder`: no letter or digit, or one span between the bounds that holds
  -- every letter and digit between them.
  pub remainder_cases :
      (original : Span) (start end : ℕ)
      → ((remainder u text original start end ≡ [])
          × ((i : ℕ) → start ≤ i → i < end → alnum_at u text i ≡ false))
        ⊎ ((s e : ℕ) × (remainder u text original start end ≡ moved original s e ∷ [])
            × (start ≤ s)
            × (s < e)
            × (e ≤ end)
            × ((i : ℕ) → start ≤ i → i < end → alnum_at u text i ≡ true → (s ≤ i) × (i < e)))
  unfolding remainder
  remainder_cases original start end = elim (Bool-cases (any u.is_alnum (slice text start end))) [
    | inr bare ↦ inl (
      rw bare,
      λ i h k. elim (Bool-cases (alnum_at u text i)) [
        | inl hit ↦ absurd (let t = alnum_in_slice start end i h k hit in ground arith)
        | inr miss ↦ miss
      ],
    )
    | inl some_alnum ↦
        let (j, hj, kj, aj) = slice_has_alnum start end some_alnum in
        let s = skip_left u text (end - start) start in
        let e = skip_right u text (end - s) end in
        let lj = left_end start end j hj kj aj in
        let rj = right_end s end j lj.1 kj aj in
        inr (
          s,
          e,
          rw some_alnum,
          lj.0,
          omega arith,
          rj.1,
          λ i h k a. let l = left_end start end i h k a in (l.1, (right_end s end i l.1 k a).0),
        )
  ]
