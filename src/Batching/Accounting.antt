-- ===== src/Batching/Accounting.antt =====
-- The queue, the batch and the futures of `BatchExecutor` in every reachable state.
use seif_pii.Base.{ℕ, ◌≡◌, ◌≢◌, subst, inl, inr, [], arith}
use seif_pii.Batching.{
  Capacity, waiting, running, Executor, Step, submits, cancels, takes, begins, ends, shuts,
  Reachable, starts, steps,
}
use seif_pii.Batching.Ownership.{Owns}
use seif_pii.Batching.Queue.{IsOwned, submit-IsOwned, cancel-IsOwned, take_job-IsOwned}
use seif_pii.Batching.Processing.{begin_batch-IsOwned, end_batch-IsOwned, shutdown-IsOwned}

module _ (R : Type 0) (c : Capacity) where
  Step-IsOwned : (s s' : Executor R c) → IsOwned R c s → Step R c s s' → IsOwned R c s'
  Step-IsOwned _ _ k (submits text s) = submit-IsOwned R c text s k
  Step-IsOwned _ _ k (cancels i s) = cancel-IsOwned R c i s k
  Step-IsOwned _ _ k (takes s alive idle small) = take_job-IsOwned R c s k idle small
  Step-IsOwned _ _ k (begins s alive idle) = begin_batch-IsOwned R c s k idle
  Step-IsOwned _ _ k (ends outcome s called) = end_batch-IsOwned R c outcome s k called
  Step-IsOwned _ _ k (shuts cancel_futures s) = shutdown-IsOwned R c cancel_futures s k

  -- In every reachable state the queue is within `capacity` and the batch within `batch_size`; a future
  -- that waits is in the queue, or in the batch that is being taken; one that runs is in the batch that the
  -- model has, and all of that batch run. So no future is lost before it is settled.
  pub Reachable-IsOwned : (s : Executor R c) → Reachable R c s → IsOwned R c s
  Reachable-IsOwned _ starts = record {
    queue = omega arith;
    taken = omega arith;
    made = λ i m. elim m [ inl queued ↦ absurd queued | inr held ↦ absurd held ];
    waits = λ i h. absurd (ground arith);
    runs = λ i h. absurd (ground arith);
    active = λ called i held. absurd held;
  }
  Reachable-IsOwned _ (steps s s' r step) = Step-IsOwned s s' (Reachable-IsOwned s r) step

  -- When nothing is queued and the worker holds no batch, every future is settled.
  pub Reachable-settles :
      (s : Executor R c)
      → Reachable R c s
      → s.pending ≡ []
      → s.batch ≡ []
      → (i : ℕ) → (s.status i ≢ waiting) × (s.status i ≢ running)
  Reachable-settles s r no_queue no_batch i =
      let k = Reachable-IsOwned s r in
      (
        λ h. elim (k.waits i h) [
          | inl queued ↦ subst (λ x. Owns x i) no_queue queued
          | inr held ↦ subst (λ x. Owns x i) no_batch held.1
        ],
        λ h. subst (λ x. Owns x i) no_batch (k.runs i h).1,
      )
