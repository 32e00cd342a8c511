-- ===== src/App/Slots/Counting.antt =====
-- `large_inflight` in every reachable state.
use seif_pii.Base.{
  ℕ, zero, suc, ◌+◌, ◌≤◌, ◌≡◌, ◌≢◌, refl, inl, inr, true, false, Option, none, some, List, [], ◌∷◌,
  ◌++◌, arith, leb, if◌then◌else◌, get_elem?, replace_at, All, All-snoc, All-replace_at, Bool-cases,
}
use seif_pii.App.Slots.{
  Pending, awaited, cancelled, failed, answered, Job, Slots, start_job, settle, cancel_wait,
  complete_cpu_work, cancel_request, Step, calls, completes, cancels, Reachable, starts, steps,
}

module _ {R : Type 0} where
  unfoldable pub working : List (Job R) → ℕ
  working [] = 0
  working (j ∷ jobs) = if j.at_work then suc (working jobs) else working jobs

  working-snoc :
      (jobs : List (Job R)) (j : Job R)
      → working (jobs ++ j ∷ []) ≡ working jobs + (if j.at_work then 1 else 0)
  unfolding working
  working-snoc [] j = ground arith
  working-snoc (x ∷ jobs) j = ground (arith, working-snoc jobs j)

  working-replace_at :
      (i : ℕ) (jobs : List (Job R)) (x y : Job R)
      → get_elem? jobs i ≡ some x
      → working (replace_at i y jobs) + (if x.at_work then 1 else 0)
        ≡ working jobs + (if y.at_work then 1 else 0)
  unfolding working
  working-replace_at i [] x y h = absurd (ground arith)
  working-replace_at zero (z ∷ jobs) x y h = ground arith
  working-replace_at (suc i) (z ∷ jobs) x y h = ground (arith, working-replace_at i jobs x y h)

  -- A request that still waits has its job at work.
  pub Attended : Job R → Type 0
  Attended j = j.pending ≡ awaited → j.at_work ≡ true

  settle-done : (outcome : Option R) (p : Pending R) → settle outcome p ≢ awaited
  unfolding settle
  settle-done none awaited = λ h. ground arith
  settle-done (some r) awaited = λ h. ground arith
  settle-done outcome cancelled = λ h. ground arith
  settle-done outcome failed = λ h. ground arith
  settle-done outcome (answered r) = λ h. ground arith

  cancel_wait-done : (p : Pending R) → cancel_wait p ≢ awaited
  unfolding cancel_wait
  cancel_wait-done awaited = λ h. ground arith
  cancel_wait-done cancelled = λ h. ground arith
  cancel_wait-done failed = λ h. ground arith
  cancel_wait-done (answered r) = λ h. ground arith

module _ (R : Type 0) (cpu_workers : ℕ) where
  pub record IsCounted (s : Slots R) : Type 0 where
    pub exact : s.large_inflight ≡ working s.jobs
    pub bounded : s.large_inflight ≤ cpu_workers
    pub attended : All Attended s.jobs

  Step-IsCounted : (s s' : Slots R) → IsCounted s → Step R cpu_workers s s' → IsCounted s'
  unfolding start_job complete_cpu_work cancel_request Attended
  Step-IsCounted _ _ k (calls submitted s) = elim (Bool-cases (leb cpu_workers s.large_inflight)) [
    | inl full ↦ rw full k
    | inr free ↦ elim (Bool-cases submitted) [
      | inl done ↦
          rw (free, done)
            (record {
              exact = omega (
                arith,
                working-snoc s.jobs (record { at_work = true; pending = awaited }),
                k.exact,
              );
              bounded = ground arith;
              attended = All-snoc Attended s.jobs _ k.attended (λ h. refl);
            })
      | inr raised ↦
          rw (free, raised)
            (record {
              exact = omega (arith, k.exact);
              bounded = omega (arith, k.bounded);
              attended = k.attended;
            })
    ]
  ]
  Step-IsCounted _ _ k (completes i outcome job s there works) =
      let new : Job R = record { at_work = false; pending = settle outcome job.pending } in
      let count = rw works at (working-replace_at i s.jobs job new there) in
      record {
        exact = omega (arith, count, k.exact);
        bounded = omega (arith, k.bounded);
        attended =
            All-replace_at Attended i s.jobs new k.attended
              (λ h. absurd (settle-done outcome job.pending h));
      }
  Step-IsCounted _ _ k (cancels i job s there) =
      let new : Job R = record job { pending = cancel_wait job.pending } in
      record {
        exact = omega (arith, working-replace_at i s.jobs job new there, k.exact);
        bounded = k.bounded;
        attended =
            All-replace_at Attended i s.jobs new k.attended
              (λ h. absurd (cancel_wait-done job.pending h));
      }

  -- In every reachable state `large_inflight` is the number of jobs at work, at most `cpu_workers`, also
  -- where requests were cancelled meanwhile; and a request that still waits has its job at work.
  pub Reachable-IsCounted : (s : Slots R) → Reachable R cpu_workers s → IsCounted s
  unfolding working
  Reachable-IsCounted _ starts = record { exact = refl; bounded = omega arith; attended = tt }
  Reachable-IsCounted _ (steps s s' r step) = Step-IsCounted s s' (Reachable-IsCounted s r) step
