-- ===== src/Decoder/Slicing.antt =====
-- The words of a text are pieces of it, in order, with nothing but spaces between them.
use seif_pii.Base.{
  ℕ, zero, suc, ◌+◌, ◌-◌, ◌≤◌, ◌<◌, ◌≡◌, refl, sym, ap, subst, Bool, true, false, not, ◌||◌, List,
  [], ◌∷◌, ◌++◌, append_assoc, append-nil, arith, max, inl, inr, length, length-append, length-drop,
  length-take, take-append-drop, slice-append-drop, length-slice, slice, take, drop, all, ltb,
  if◌then◌else◌, ◌==◌, Bool-cases,
}
use seif_pii.Text.{Text, Unicode}
use seif_pii.Decoder.Words.{
  Token, dot, is_delimiter, run_length, matches_from, lstrip_dots, rstrip_dots, dots, split_dots,
  split_all, words_with_offsets,
}

-- `rest`, which begins at `pos` of the text, is cut into the words and the spaces between them.
abbrev pub Tiles : Unicode → ℕ → Text → List Token → Type 0
Tiles u pos rest [] = all u.is_space rest ≡ true
Tiles u pos rest (w ∷ ws) =
    (gap : Text) × (behind : Text) × (rest ≡ gap ++ (w.value ++ behind))
    × (all u.is_space gap ≡ true)
    × (w.start ≡ pos + length gap)
    × (w.end ≡ w.start + length w.value)
    × (0 < length w.value)
    × (all (λ c. not (u.is_space c)) w.value ≡ true)
    × Tiles u w.end behind ws

-- The same with no spaces.
abbrev Flush : ℕ → Text → List Token → Type 0
Flush pos value [] = value ≡ []
Flush pos value (w ∷ ws) =
    (behind : Text) × (value ≡ w.value ++ behind)
    × (w.start ≡ pos)
    × (w.end ≡ pos + length w.value)
    × (0 < length w.value)
    × Flush w.end behind ws

Flush-append :
    (pos : ℕ) (v v' : Text) (ws ws' : List Token)
    → Flush pos v ws
    → Flush (pos + length v) v' ws'
    → Flush pos (v ++ v') (ws ++ ws')
Flush-append pos v v' [] ws' h k =
    let e : pos + length v ≡ pos = rw h (omega arith) in
    rw h (subst (λ (i : ℕ). Flush i v' ws') e k)
Flush-append pos v v' (w ∷ ws) ws' (behind, e, a, b, c, h) k =
    let size : length v ≡ length w.value + length behind = rw e (length-append w.value behind) in
    let at_end : pos + length v ≡ w.end + length behind = omega (arith, size, b) in
    (
      behind ++ v',
      rw e (append_assoc w.value behind v'),
      a,
      b,
      c,
      Flush-append w.end behind v' ws ws' h (subst (λ (i : ℕ). Flush i v' ws') at_end k),
    )

all-append :
    (p : ℕ → Bool) (xs ys : Text) → all p (xs ++ ys) ≡ true → (all p xs ≡ true) × (all p ys ≡ true)
all-append p [] ys h = (refl, h)
all-append p (x ∷ xs) ys h =
    let first : p x ≡ true = ground arith in
    let (k, l) = all-append p xs ys (ground arith) in (rw (first, k) refl, l)

module _ (u : Unicode) where
  Flush-Tiles :
      (pos : ℕ) (v rest : Text) (ws ws' : List Token)
      → all (λ c. not (u.is_space c)) v ≡ true
      → Flush pos v ws
      → Tiles u (pos + length v) rest ws'
      → Tiles u pos (v ++ rest) (ws ++ ws')
  Flush-Tiles pos v rest [] ws' no_space h k =
      let e : pos + length v ≡ pos = rw h (omega arith) in
      rw h (subst (λ (i : ℕ). Tiles u i rest ws') e k)
  Flush-Tiles pos v rest (w ∷ ws) ws' no_space (behind, e, a, b, c, h) k =
      let size : length v ≡ length w.value + length behind = rw e (length-append w.value behind) in
      let at_end : pos + length v ≡ w.end + length behind = omega (arith, size, b) in
      let (here, there) = all-append (λ x. not (u.is_space x)) w.value behind (rw (← e) no_space) in
      (
        [],
        behind ++ rest,
        rw e (append_assoc w.value behind rest),
        refl,
        omega (arith, a),
        omega (arith, a, b),
        c,
        here,
        Flush-Tiles w.end behind rest ws ws' there h
            (subst (λ (i : ℕ). Tiles u i rest ws') at_end k),
      )

  Tiles-space :
      (pos c : ℕ) (rest : Text) (ws : List Token)
      → u.is_space c ≡ true
      → Tiles u (pos + 1) rest ws
      → Tiles u pos (c ∷ rest) ws
  Tiles-space pos c rest [] h k = rw (h, k) refl
  Tiles-space pos c rest (w ∷ ws) h (gap, behind, e, a, b, c', d, f, k) =
      (c ∷ gap, behind, ap (λ t. c ∷ t) e, rw (h, a) refl, omega (arith, b), c', d, f, k)

abbrev dots_text : ℕ → Text
dots_text zero = []
dots_text (suc n) = dot ∷ dots_text n

dots-Flush : (n pos : ℕ) → Flush pos (dots_text n) (dots n pos)
unfolding dots
dots-Flush zero pos = refl
dots-Flush (suc n) pos = (dots_text n, refl, refl, refl, omega arith, dots-Flush n (pos + 1))

length-dots_text : (n : ℕ) → length (dots_text n) ≡ n
length-dots_text zero = refl
length-dots_text (suc n) = ap (λ (k : ℕ). suc k) (length-dots_text n)

length-lstrip_dots : (v : Text) → length (lstrip_dots v) ≤ length v
unfolding lstrip_dots
length-lstrip_dots [] = omega arith
length-lstrip_dots (c ∷ t) = ground (arith, length-lstrip_dots t)

length-rstrip_dots : (v : Text) → length (rstrip_dots v) ≤ length v
unfolding rstrip_dots
length-rstrip_dots [] = omega arith
length-rstrip_dots (c ∷ t) = ground (arith, length-rstrip_dots t)

-- What stands in front of the stripped text, and behind it, is dots.
take-lstrip_dots :
    (v : Text)
    → take (length v - length (lstrip_dots v)) v ≡ dots_text (length v - length (lstrip_dots v))
unfolding lstrip_dots
take-lstrip_dots [] = refl
take-lstrip_dots (c ∷ t) = elim (Bool-cases (c == dot)) [
  | inl hit ↦
      let c_dot : c ≡ dot = ground arith in
      let n : suc (length t) - length (lstrip_dots t) ≡ suc (length t - length (lstrip_dots t)) =
        omega (arith, length-lstrip_dots t) in
      rw (hit, n, c_dot) (ap (λ x. dot ∷ x) (take-lstrip_dots t))
  | inr miss ↦ let n : suc (length t) - suc (length t) ≡ 0 = omega arith in rw (miss, n) refl
]

drop-rstrip_dots :
    (v : Text) (k : ℕ) → length (rstrip_dots v) ≤ k → drop k v ≡ dots_text (length v - k)
unfolding rstrip_dots
drop-rstrip_dots [] zero h = refl
drop-rstrip_dots [] (suc k) h = let n : 0 - suc k ≡ 0 = omega arith in rw n refl
drop-rstrip_dots (c ∷ t) zero h =
    let bare : length (rstrip_dots t) ≤ 0 = ground arith in
    let c_dot : c ≡ dot = ground arith in
    let n : suc (length t) - 0 ≡ suc (length t - 0) = omega arith in
    rw (c_dot, n) (ap (λ x. dot ∷ x) (drop-rstrip_dots t zero bare))
drop-rstrip_dots (c ∷ t) (suc k) h =
    let less : length (rstrip_dots t) ≤ k = ground arith in
    let n : suc (length t) - suc k ≡ length t - k = omega arith in rw n (drop-rstrip_dots t k less)

abbrev middle_of : ℕ → Text → ℕ → ℕ → List Token
middle_of pos v l m =
    if ltb l m then record { value = slice v l m; start = pos + l; end = pos + m } ∷ [] else []

middle_of-Flush :
    (pos : ℕ) (v : Text) (l m : ℕ)
    → l ≤ m
    → m ≤ length v
    → Flush (pos + l) (slice v l m) (middle_of pos v l m)
middle_of-Flush pos v l m h k = elim (Bool-cases (ltb l m)) [
  | inl more ↦
      let size = length-slice v l m h k in
      rw more
        ([], sym (append-nil (slice v l m)), refl, omega (arith, size), ground (arith, size), refl)
  | inr none_left ↦ let n : m - l ≡ 0 = ground arith in rw (none_left, n) refl
]

split_dots-Flush : (pos : ℕ) (v : Text) → Flush pos v (split_dots pos v)
unfolding split_dots
split_dots-Flush pos v =
    let l : ℕ = length v - length (lstrip_dots v) in
    let m : ℕ = max l (length (rstrip_dots v)) in
    let size : l ≤ m = omega arith in
    let fits : m ≤ length v = omega (arith, length-lstrip_dots v, length-rstrip_dots v) in
    let pieces : v ≡ dots_text l ++ (slice v l m ++ dots_text (length v - m)) =
      rw
        (
          ← take-lstrip_dots v,
          ← drop-rstrip_dots v m (omega arith),
          slice-append-drop v l m size,
          take-append-drop l v,
        )
        refl in
    let front : pos + length (dots_text l) ≡ pos + l = omega (arith, length-dots_text l) in
    let at_end : pos + l + length (slice v l m) ≡ pos + m =
      omega (arith, size, length-slice v l m size fits) in
    let rear : Flush (pos + l + length (slice v l m)) (dots_text (length v - m))
        (dots (length v - m) (pos + m)) =
      rw at_end (dots-Flush (length v - m) (pos + m)) in
    let behind =
      Flush-append (pos + l) (slice v l m) (dots_text (length v - m)) (middle_of pos v l m)
        (dots (length v - m) (pos + m)) (middle_of-Flush pos v l m size fits) rear in
    subst (λ t. Flush pos t (split_dots pos v)) (sym pieces)
      (Flush-append pos (dots_text l) (slice v l m ++ dots_text (length v - m)) (dots l pos)
        (middle_of pos v l m ++ dots (length v - m) (pos + m)) (dots-Flush l pos) (rw front behind))

module _ (u : Unicode) where
  run-no_space : (t : Text) → all (λ c. not (u.is_space c)) (take (run_length u t) t) ≡ true
  unfolding run_length
  run-no_space [] = refl
  run-no_space (c ∷ t) = elim (Bool-cases (u.is_space c || is_delimiter c)) [
    | inl stop ↦ rw stop refl
    | inr go ↦ let here : u.is_space c ≡ false = ground arith in rw (go, here, run-no_space t) refl
  ]

  run_length-le : (t : Text) → run_length u t ≤ length t
  unfolding run_length
  run_length-le [] = omega arith
  run_length-le (c ∷ t) = ground (arith, run_length-le t)

  matches_from-Tiles :
      (fuel start : ℕ) (t : Text)
      → length t ≤ fuel
      → Tiles u start t (split_all (matches_from u fuel start t))
  unfolding matches_from split_all
  matches_from-Tiles zero start [] h = refl
  matches_from-Tiles zero start (c ∷ t) h = absurd (omega arith)
  matches_from-Tiles (suc fuel) start [] h = refl
  matches_from-Tiles (suc fuel) start (c ∷ t) h = elim (Bool-cases (u.is_space c)) [
    | inl space ↦ rw space (
        Tiles-space u start c t (split_all (matches_from u fuel (start + 1) t)) space
          (matches_from-Tiles fuel (start + 1) t (omega arith)))
    | inr solid ↦ elim (Bool-cases (is_delimiter c)) [
      | inl hit ↦
          rw (solid, hit)
            (Flush-Tiles u start (c ∷ []) t (split_dots start (c ∷ []))
              (split_all (matches_from u fuel (start + 1) t)) (rw solid refl)
              (split_dots-Flush start (c ∷ []))
              (matches_from-Tiles fuel (start + 1) t (omega arith)))
      | inr miss ↦
          let n : ℕ = run_length u t in
          let size : length (take n t) ≡ n = length-take n t (run_length-le t) in
          let less : length (drop n t) ≤ fuel = omega (arith, length-drop n t) in
          rw (solid, miss)
            (subst
              (λ x. Tiles u start (c ∷ x) (
                split_dots start (c ∷ take n t)
                ++ split_all (matches_from u fuel (start + suc n) (drop n t))))
              (take-append-drop n t)
              (Flush-Tiles u start (c ∷ take n t) (drop n t) (split_dots start (c ∷ take n t))
                (split_all (matches_from u fuel (start + suc n) (drop n t)))
                (rw (solid, run-no_space t) refl) (split_dots-Flush start (c ∷ take n t))
                (rw size (matches_from-Tiles fuel (start + suc n) (drop n t) less))))
    ]
  ]

  -- The words are pieces of the text in order, none of them empty and none with a space in it, whose
  -- offsets are theirs; and what lies between them, before the first and behind the last is spaces.
  pub words_with_offsets-Tiles : (text : Text) → Tiles u 0 text (words_with_offsets u text)
  unfolding words_with_offsets
  words_with_offsets-Tiles text = matches_from-Tiles (length text) 0 text (omega arith)
