-- ===== src/Batching.antt =====
-- seif/ner_batching.py: `BatchExecutor`. What runs under the lock, or between two waits of the worker, is
-- one step; the waits of the worker only choose when the next step comes. A future is its number.
pub mod Ownership
pub mod Queue
pub mod Processing
pub mod Accounting
pub mod Draining
use seif_pii.Base.{
  ℕ, zero, suc, ◌+◌, ◌≤◌, ◌<◌, ◌≡◌, refl, Bool, true, false, ◌&&◌, ◌||◌, Option, none, some, List,
  [], ◌∷◌, ◌++◌, length, leb, ltb, ◌==◌, if◌then◌else◌,
}
use seif_pii.Text.{Text}

pub record Capacity : Type 0 where
  pub batch_size : ℕ
  pub capacity : ℕ

module _ (R : Type 0) where
  pub data Status : Type 0 where
    waiting running cancelled failed : Status
    finished : R → Status

  -- What the call of the model ends in: a list of results, or an exception. `raised false` is one that is no
  -- `Exception`; a result that is no list is a `ValueError`.
  pub data Outcome : Type 0 where
    returned : List R → Outcome
    raised : Bool → Outcome

module _ {R : Type 0} where
  abbrev pub with_status : ℕ → Status R → (ℕ → Status R) → ℕ → Status R
  with_status i s f j = if j == i then s else f j

  abbrev pub is_waiting : Status R → Bool
  is_waiting waiting = true
  is_waiting _ = false

  -- `Future.cancel`: a future that runs or is done stays as it is.
  unfoldable pub cancel : ℕ → (ℕ → Status R) → ℕ → Status R
  cancel i f = if is_waiting (f i) then with_status i cancelled f else f

  unfoldable pub cancel_all : List (ℕ × Text) → (ℕ → Status R) → ℕ → Status R
  unfolding cancel
  cancel_all [] f = f
  cancel_all ((i, text) ∷ jobs) f = cancel_all jobs (cancel i f)

  -- `set_running_or_notify_cancel` of each job: those that now run, and the futures.
  unfoldable pub activate : List (ℕ × Text) → (ℕ → Status R) → List (ℕ × Text) × (ℕ → Status R)
  activate [] f = ([], f)
  activate ((i, text) ∷ jobs) f = elim (is_waiting (f i)) [
    | true ↦ let rest = activate jobs (with_status i running f) in ((i, text) ∷ rest.0, rest.1)
    | false ↦ activate jobs f
  ]

  -- `set_exception` of each job, or `set_result` with its own result.
  unfoldable pub fail_all : List (ℕ × Text) → (ℕ → Status R) → ℕ → Status R
  fail_all [] f = f
  fail_all ((i, text) ∷ jobs) f = fail_all jobs (with_status i failed f)

  unfoldable pub finish_all : List (ℕ × Text) → List R → (ℕ → Status R) → ℕ → Status R
  finish_all [] results f = f
  finish_all (job ∷ jobs) [] f = f
  finish_all ((i, text) ∷ jobs) (r ∷ results) f =
      finish_all jobs results (with_status i (finished r) f)

module _ (R : Type 0) (c : Capacity) where
  -- `batch` is what the worker has taken; `in_call` is set while the model has it; `alive` is whether no
  -- exception has ended the thread.
  pub record Executor : Type 0 where
    pub pending : List (ℕ × Text)
    pub batch : List (ℕ × Text)
    pub in_call : Bool
    pub alive : Bool
    pub created : ℕ
    pub status : ℕ → Status R
    pub stopping : Bool
    pub cancel_queued : Bool

  abbrev pub fresh : Executor
  fresh = record {
    pending = [];
    batch = [];
    in_call = false;
    alive = true;
    created = 0;
    status = λ i. cancelled;
    stopping = false;
    cancel_queued = false;
  }

  -- `none` is the `RuntimeError`.
  unfoldable pub submit : Text → Executor → Option ℕ × Executor
  submit text s = if s.stopping || leb c.capacity (length s.pending) then (none, s) else (
    some s.created,
    record s {
      pending = s.pending ++ (s.created, text) ∷ [];
      created = suc s.created;
      status = with_status s.created waiting s.status;
    },
  )

  -- `_take_batch`: one more job into the batch.
  unfoldable pub take_job : Executor → Executor
  take_job s = elim s.pending [
    | [] ↦ s
    | job ∷ jobs ↦ record s { pending = jobs; batch = s.batch ++ job ∷ [] }
  ]

  -- `_process_batch` up to the call of the model.
  unfoldable pub begin_batch : Executor → Executor
  unfolding cancel_all activate
  begin_batch s =
      if s.cancel_queued
      then record s { batch = []; status = cancel_all s.batch s.status }
      else (let active = activate s.batch s.status in
          record s {
            batch = active.0;
            in_call = elim active.0 [ [] ↦ false | job ∷ jobs ↦ true ];
            status = active.1;
          })

  -- `_process_batch` from the end of the call; what is no `Exception` is raised again and ends the thread.
  unfoldable pub end_batch : Outcome R → Executor → Executor
  unfolding fail_all finish_all
  end_batch (raised ordinary) s = record s {
    batch = [];
    in_call = false;
    alive = ordinary;
    status = fail_all s.batch s.status;
  }
  end_batch (returned results) s = record s {
    batch = [];
    in_call = false;
    status =
        if length results == length s.batch
        then finish_all s.batch results s.status
        else fail_all s.batch s.status;
  }

  unfoldable pub shutdown : Bool → Executor → Executor
  unfolding cancel_all
  shutdown cancel_futures s = record s {
    stopping = true;
    cancel_queued = s.cancel_queued || cancel_futures;
    pending = if cancel_futures then [] else s.pending;
    status = if cancel_futures then cancel_all s.pending s.status else s.status;
  }

  pub data Step : Executor → Executor → Type 0 where
    submits : (text : Text) (s : Executor) → Step s (submit text s).1
    cancels : (i : ℕ) (s : Executor) → Step s (record s { status = cancel i s.status })
    takes :
        (s : Executor)
        → s.alive ≡ true
        → s.in_call ≡ false
        → length s.batch < c.batch_size
        → Step s (take_job s)
    begins : (s : Executor) → s.alive ≡ true → s.in_call ≡ false → Step s (begin_batch s)
    ends : (outcome : Outcome R) (s : Executor) → s.in_call ≡ true → Step s (end_batch outcome s)
    shuts : (cancel_futures : Bool) (s : Executor) → Step s (shutdown cancel_futures s)

  pub data Reachable : Executor → Type 0 where
    starts : Reachable fresh
    steps : (s s' : Executor) → Reachable s → Step s s' → Reachable s'
