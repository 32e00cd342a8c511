-- ===== src/Batching/Draining.antt =====
-- The worker of `BatchExecutor` empties the queue in a bounded number of its own steps.
use seif_pii.Base.{
  ℕ, zero, suc, ◌+◌, ◌*◌, ◌-◌, ◌≤◌, ◌≡◌, true, ◌||◌, Option, none, some, List, length, leb, null,
  if◌then◌else◌,
}
use seif_pii.Text.{Text}
use seif_pii.Batching.{
  Capacity, Outcome, returned, raised, Executor, take_job, begin_batch, end_batch, Reachable,
}

-- The model answers each batch, by a list of results or by an `Exception`.
module _ (R : Type 0) (c : Capacity) (answer : List (ℕ × Text) → Option (List R)) where
  abbrev pub outcome : List (ℕ × Text) → Outcome R
  outcome jobs = elim (answer jobs) [ none ↦ raised true | some results ↦ returned results ]

  -- What the worker does next: it takes jobs while there are some and its batch has room.
  unfoldable pub work : Executor R c → Executor R c
  work s =
      if s.in_call
      then end_batch R c (outcome s.batch) s
      else if null s.pending || leb c.batch_size (length s.batch)
      then begin_batch R c s
      else take_job R c s

  unfoldable pub work_on : ℕ → Executor R c → Executor R c
  work_on zero s = s
  work_on (suc n) s = work_on n (work s)

  abbrev pub drained : Executor R c → Executor R c
  drained s = work_on (3 * length s.pending + 2 * length s.batch + 1) s

  -- The steps that are left at most.
  abbrev pub left : Executor R c → ℕ
  left s = 3 * length s.pending + (if s.in_call then 1 else 2 * length s.batch)

  -- One step of the worker: it is a step of the executor, the thread goes on, and less is left.
  Goes : Executor R c → Executor R c → Type 0
  Goes s s' = Reachable R c s' × (s'.alive ≡ true) × (left s' ≤ left s - 1)
