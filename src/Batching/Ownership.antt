-- ===== src/Batching/Ownership.antt =====
-- Each future is owned until it is settled: by the queue, by the batch being taken, or by the call.
use seif_pii.Base.{
  ℕ, ◌≤◌, ◌≡◌, ◌≢◌, refl, subst, ◌⊎◌, inl, inr, true, false, List, [], ◌∷◌, ◌++◌, arith, length,
  ◌==◌, ==_iff, map, Bool-cases, In,
}
use seif_pii.Text.{Text}
use seif_pii.Batching.{
  Status, waiting, running, cancelled, failed, finished, with_status, is_waiting, cancel,
  cancel_all, activate, fail_all, finish_all,
}

-- The future is of one of the jobs.
abbrev pub Owns : List (ℕ × Text) → ℕ → Type 0
Owns jobs i = In i (map (λ (job : ℕ × Text). job.0) jobs)

pub Owns-append_left : (xs ys : List (ℕ × Text)) (i : ℕ) → Owns xs i → Owns (xs ++ ys) i
Owns-append_left [] ys i h = absurd h
Owns-append_left (x ∷ xs) ys i (inl e) = inl e
Owns-append_left (x ∷ xs) ys i (inr h) = inr (Owns-append_left xs ys i h)

pub Owns-append_right : (xs ys : List (ℕ × Text)) (i : ℕ) → Owns ys i → Owns (xs ++ ys) i
Owns-append_right [] ys i h = h
Owns-append_right (x ∷ xs) ys i h = inr (Owns-append_right xs ys i h)

pub Owns-append : (xs ys : List (ℕ × Text)) (i : ℕ) → Owns (xs ++ ys) i → Owns xs i ⊎ Owns ys i
Owns-append [] ys i h = inr h
Owns-append (x ∷ xs) ys i (inl e) = inl (inl e)
Owns-append (x ∷ xs) ys i (inr h) = elim (Owns-append xs ys i h) [
  | inl left ↦ inl (inr left)
  | inr right ↦ inr right
]

module _ {R : Type 0} where
  is_waiting-true : (s : Status R) → is_waiting s ≡ true → s ≡ waiting
  is_waiting-true waiting h = refl
  is_waiting-true running h = absurd (ground arith)
  is_waiting-true cancelled h = absurd (ground arith)
  is_waiting-true failed h = absurd (ground arith)
  is_waiting-true (finished r) h = absurd (ground arith)

  pub with_status-cases :
      (i j : ℕ) (s : Status R) (f : ℕ → Status R)
      → ((j ≡ i) × (with_status i s f j ≡ s)) ⊎ ((j ≢ i) × (with_status i s f j ≡ f j))
  with_status-cases i j s f = elim (Bool-cases (j == i)) [
    | inl here ↦ inl (ground (arith, ==_iff j i), rw here)
    | inr there ↦ inr (ground (arith, ==_iff j i), rw there)
  ]

  -- A future that waits or runs after a cancellation did so before, and one that runs still does.
  pub cancel_keeps :
      (i j : ℕ) (f : ℕ → Status R)
      → (cancel i f j ≡ waiting → (f j ≡ waiting) × (j ≢ i))
        × (cancel i f j ≡ running → f j ≡ running)
        × (f j ≡ running → cancel i f j ≡ running)
  unfolding cancel
  cancel_keeps i j f = elim (Bool-cases (is_waiting (f i))) [
    | inl waits ↦
        let waits' = is_waiting-true (f i) waits in
        elim (with_status-cases i j cancelled f) [
          | inl (e, now) ↦ rw waits (
            λ h. absurd (ground arith),
            λ h. absurd (ground arith),
            λ h. let h' : f i ≡ running = rw (← e) h in absurd (ground arith),
          )
          | inr (e, now) ↦ rw (waits, now) (λ h. (h, e), λ h. h, λ h. h)
        ]
    | inr other ↦
        rw other
          (λ h. (h, λ e. let h' : f i ≡ waiting = rw (← e) h in ground arith), λ h. h, λ h. h)
  ]

  pub cancel_all_keeps :
      (jobs : List (ℕ × Text)) (j : ℕ) (f : ℕ → Status R)
      → (cancel_all jobs f j ≡ waiting → (f j ≡ waiting) × (Owns jobs j → ⊥))
        × (cancel_all jobs f j ≡ running → f j ≡ running)
        × (f j ≡ running → cancel_all jobs f j ≡ running)
  unfolding cancel_all
  cancel_all_keeps [] j f = (λ h. (h, λ m. m), λ h. h, λ h. h)
  cancel_all_keeps ((i, text) ∷ jobs) j f =
      let (waits, runs, still) = cancel_all_keeps jobs j (cancel i f) in
      let (waits', runs', still') = cancel_keeps i j f in
      (
        λ h.
            let (w, free) = waits h in
            let (w', e) = waits' w in
            (w', λ m. elim m [ inl same ↦ e same | inr later ↦ free later ]),
        λ h. runs' (runs h),
        λ h. still (still' h),
      )

  activate_waiting :
      (i : ℕ) (text : Text) (jobs : List (ℕ × Text)) (f : ℕ → Status R)
      → is_waiting (f i) ≡ true
      → activate ((i, text) ∷ jobs) f ≡ (
        (i, text) ∷ (activate jobs (with_status i running f)).0,
        (activate jobs (with_status i running f)).1,
      )
  unfolding activate
  activate_waiting i text jobs f h = ground arith

  activate_other :
      (i : ℕ) (text : Text) (jobs : List (ℕ × Text)) (f : ℕ → Status R)
      → is_waiting (f i) ≡ false
      → activate ((i, text) ∷ jobs) f ≡ activate jobs f
  unfolding activate
  activate_other i text jobs f h = ground arith

  pub activate_keeps :
      (jobs : List (ℕ × Text)) (j : ℕ) (f : ℕ → Status R)
      → ((activate jobs f).1 j ≡ waiting → (f j ≡ waiting) × (Owns jobs j → ⊥))
        × ((activate jobs f).1 j ≡ running → (f j ≡ running) ⊎ Owns (activate jobs f).0 j)
        × (f j ≡ running → (activate jobs f).1 j ≡ running)
        × (Owns (activate jobs f).0 j → (activate jobs f).1 j ≡ running)
  unfolding activate
  activate_keeps [] j f = (λ h. (h, λ m. m), λ h. inl h, λ h. h, λ m. absurd m)
  activate_keeps ((i, text) ∷ jobs) j f = elim (Bool-cases (is_waiting (f i))) [
    | inr other ↦
        let (waits, runs, still, own) = activate_keeps jobs j f in
        rw (activate_other i text jobs f other) (
          λ h.
              let (w, free) = waits h in
              (
                w,
                λ m. elim m [
                  | inl same ↦ let w' : f i ≡ waiting = rw (← same) w in ground arith
                  | inr later ↦ free later
                ],
              ),
          runs,
          still,
          own,
        )
    | inl here ↦
        let here' = is_waiting-true (f i) here in
        let (waits, runs, still, own) = activate_keeps jobs j (with_status i running f) in
        elim (with_status-cases i j running f) [
          | inl (e, now) ↦ rw (activate_waiting i text jobs f here) (
            λ h. let (w, free) = waits h in absurd (ground arith),
            λ h. inr (inl e),
            λ h. still now,
            λ m. still now,
          )
          | inr (e, now) ↦ rw (activate_waiting i text jobs f here) (
            λ h.
                let (w, free) = waits h in
                (rw (← now) w, λ m. elim m [ inl same ↦ e same | inr later ↦ free later ]),
            λ h. elim (runs h) [ inl r ↦ inl (rw (← now) r) | inr m ↦ inr (inr m) ],
            λ h. still (rw now h),
            λ m. elim m [ inl same ↦ absurd (e same) | inr later ↦ own later ],
          )
        ]
  ]

  -- A status that a job gets at the end.
  abbrev Settled : Status R → Type 0
  Settled s = (s ≢ waiting) × (s ≢ running)

  settle_keeps :
      (i j : ℕ) (s : Status R) (f : ℕ → Status R)
      → Settled s
      → (with_status i s f j ≡ waiting → f j ≡ waiting)
        × (with_status i s f j ≡ running → (f j ≡ running) × (j ≢ i))
  settle_keeps i j s f (w, r) = elim (with_status-cases i j s f) [
    | inl (e, now) ↦ (λ h. absurd (w (rw now at h)), λ h. absurd (r (rw now at h)))
    | inr (e, now) ↦ (λ h. rw now at h, λ h. (rw now at h, e))
  ]

  pub fail_all_keeps :
      (jobs : List (ℕ × Text)) (j : ℕ) (f : ℕ → Status R)
      → (fail_all jobs f j ≡ waiting → f j ≡ waiting)
        × (fail_all jobs f j ≡ running → (f j ≡ running) × (Owns jobs j → ⊥))
  unfolding fail_all
  fail_all_keeps [] j f = (λ h. h, λ h. (h, λ m. m))
  fail_all_keeps ((i, text) ∷ jobs) j f =
      let (waits, runs) = fail_all_keeps jobs j (with_status i failed f) in
      let (waits', runs') = settle_keeps i j failed f ((λ h. ground arith), (λ h. ground arith)) in
      (
        λ h. waits' (waits h),
        λ h.
            let (r, free) = runs h in
            let (r', e) = runs' r in
            (r', λ m. elim m [ inl same ↦ e same | inr later ↦ free later ]),
      )

  pub finish_all_keeps :
      (jobs : List (ℕ × Text)) (results : List R) (j : ℕ) (f : ℕ → Status R)
      → length results ≡ length jobs
      → (finish_all jobs results f j ≡ waiting → f j ≡ waiting)
        × (finish_all jobs results f j ≡ running → (f j ≡ running) × (Owns jobs j → ⊥))
  unfolding finish_all
  finish_all_keeps [] results j f k = (λ h. h, λ h. (h, λ m. m))
  finish_all_keeps ((i, text) ∷ jobs) [] j f k = absurd (omega arith)
  finish_all_keeps ((i, text) ∷ jobs) (r ∷ results) j f k =
      let (waits, runs) =
        finish_all_keeps jobs results j (with_status i (finished r) f) (omega arith) in
      let (waits', runs') =
        settle_keeps i j (finished r) f ((λ h. ground arith), (λ h. ground arith)) in
      (
        λ h. waits' (waits h),
        λ h.
            let (r, free) = runs h in
            let (r', e) = runs' r in
            (r', λ m. elim m [ inl same ↦ e same | inr later ↦ free later ]),
      )

  pub activate-Owns :
      (jobs : List (ℕ × Text)) (j : ℕ) (f : ℕ → Status R) → Owns (activate jobs f).0 j → Owns jobs j
  unfolding activate
  activate-Owns [] j f m = m
  activate-Owns ((i, text) ∷ jobs) j f m = elim (Bool-cases (is_waiting (f i))) [
    | inl here ↦
        let m' = subst (λ x. Owns x.0 j) (activate_waiting i text jobs f here) m in
        elim m' [
          | inl same ↦ inl same
          | inr later ↦ inr (activate-Owns jobs j (with_status i running f) later)
        ]
    | inr other ↦
        inr
          (activate-Owns jobs j f (subst (λ x. Owns x.0 j) (activate_other i text jobs f other) m))
  ]

  pub length-activate :
      (jobs : List (ℕ × Text)) (f : ℕ → Status R) → length (activate jobs f).0 ≤ length jobs
  unfolding activate
  length-activate [] f = omega arith
  length-activate ((i, text) ∷ jobs) f = elim (Bool-cases (is_waiting (f i))) [
    | inl here ↦
        rw (activate_waiting i text jobs f here)
          (omega (arith, length-activate jobs (with_status i running f)))
    | inr other ↦ rw (activate_other i text jobs f other) (omega (arith, length-activate jobs f))
  ]
