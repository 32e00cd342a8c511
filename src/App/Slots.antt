-- ===== src/App/Slots.antt =====
-- seif/app.py: `_detect_large`, which lets at most `cpu_workers` large texts be worked on at a time. A step
-- is what runs on the event loop between two waits; a job ends on its own thread, and its completion is
-- called on the loop.
pub mod Counting
use seif_pii.Base.{
  ℕ, zero, suc, ◌+◌, ◌-◌, ◌≡◌, refl, Bool, true, false, Option, none, some, List, [], ◌∷◌, ◌++◌,
  leb, if◌then◌else◌, get_elem?, replace_at,
}

module _ (R : Type 0) where
  -- The future that a request awaits.
  pub data Pending : Type 0 where
    awaited cancelled failed : Pending
    answered : R → Pending

  -- A job of the pool, and whether its completion is still to come.
  pub record Job : Type 0 where
    pub at_work : Bool
    pub pending : Pending

  pub record Slots : Type 0 where
    pub large_inflight : ℕ
    pub jobs : List Job

  abbrev pub no_jobs : Slots
  no_jobs = record { large_inflight = 0; jobs = [] }

module _ {R : Type 0} where
  -- From the call to the wait: `none` is the refusal, `some false` the exception of `submit`.
  unfoldable pub start_job : ℕ → Bool → Slots R → Option Bool × Slots R
  start_job cpu_workers submitted s =
      if leb cpu_workers s.large_inflight
      then (none, s)
      else if submitted
      then (
        some true,
        record {
          large_inflight = s.large_inflight + 1;
          jobs = s.jobs ++ record { at_work = true; pending = awaited } ∷ [];
        },
      )
      else (some false, record s { large_inflight = s.large_inflight + 1 - 1 })

  -- `set_result` or `set_exception`, unless the future is done; `none` is a failure.
  unfoldable pub settle : Option R → Pending R → Pending R
  settle outcome cancelled = cancelled
  settle outcome failed = failed
  settle outcome (answered r) = answered r
  settle none awaited = failed
  settle (some r) awaited = answered r

  unfoldable pub cancel_wait : Pending R → Pending R
  cancel_wait awaited = cancelled
  cancel_wait p = p

  -- `complete_cpu_work` of the job at place `i`.
  unfoldable pub complete_cpu_work : ℕ → Option R → Job R → Slots R → Slots R
  unfolding settle
  complete_cpu_work i outcome job s = record {
    large_inflight = s.large_inflight - 1;
    jobs = replace_at i (record { at_work = false; pending = settle outcome job.pending }) s.jobs;
  }

  -- The request that awaits the job at place `i` is cancelled; the job goes on.
  unfoldable pub cancel_request : ℕ → Job R → Slots R → Slots R
  unfolding cancel_wait
  cancel_request i job s = record s {
    jobs = replace_at i (record job { pending = cancel_wait job.pending }) s.jobs;
  }

module _ (R : Type 0) (cpu_workers : ℕ) where
  pub data Step : Slots R → Slots R → Type 0 where
    calls : (submitted : Bool) (s : Slots R) → Step s (start_job cpu_workers submitted s).1
    completes :
        (i : ℕ) (outcome : Option R) (job : Job R) (s : Slots R)
        → get_elem? s.jobs i ≡ some job
        → job.at_work ≡ true
        → Step s (complete_cpu_work i outcome job s)
    cancels :
        (i : ℕ) (job : Job R) (s : Slots R)
        → get_elem? s.jobs i ≡ some job
        → Step s (cancel_request i job s)

  pub data Reachable : Slots R → Type 0 where
    starts : Reachable (no_jobs R)
    steps : (s s' : Slots R) → Reachable s → Step s s' → Reachable s'
