-- ===== src/Tests/BatchingTests.antt =====
-- Instances of the theorems on seif/ner_batching.py: one job from the queue to its result.
use seif_pii.Base.{ℕ, List, Option, map, false, ◌≡◌, refl, some, [], ◌∷◌, arith}
use seif_pii.Text.{Text, codes}
use seif_pii.Batching.{
  Capacity, finished, returned, raised, Executor, fresh, submit, take_job, begin_batch, end_batch,
  finish_all, activate, submits, takes, begins, ends, Reachable, starts, steps,
}
use seif_pii.Batching.Queue.{IsOwned}
use seif_pii.Batching.Draining.{drained, work, work_on}
use seif_pii.Batching.Accounting.{Reachable-IsOwned}

abbrev pair : Capacity
pair = record { batch_size = 2; capacity = 2 }

abbrev queued : Executor ℕ pair
queued = (submit ℕ pair (codes "a") (fresh ℕ pair)).1

abbrev taken : Executor ℕ pair
taken = take_job ℕ pair queued

abbrev called : Executor ℕ pair
called = begin_batch ℕ pair taken

abbrev done : Executor ℕ pair
done = end_batch ℕ pair (returned (7 ∷ [])) called

taken-Reachable : Reachable ℕ pair taken
unfolding submit take_job
taken-Reachable =
    steps _ _ (steps _ _ starts (submits (codes "a") (fresh ℕ pair)))
      (takes queued refl refl (omega arith))

done-Reachable : Reachable ℕ pair done
unfolding submit take_job begin_batch activate
done-Reachable =
    steps _ _ (steps _ _ taken-Reachable (begins taken refl refl))
      (ends (returned (7 ∷ [])) called refl)

done_test : done.status 0 ≡ finished 7
unfolding submit take_job begin_batch activate end_batch finish_all
done_test = refl

Reachable-IsOwned_example : IsOwned ℕ pair done
Reachable-IsOwned_example = Reachable-IsOwned ℕ pair done done-Reachable

-- A model that answers each text by 7.
abbrev sevens : List (ℕ × Text) → Option (List ℕ)
sevens jobs = some (map (λ job. 7) jobs)

drained_test : (drained ℕ pair sevens queued).status 0 ≡ finished 7
unfolding work_on work submit take_job begin_batch activate end_batch finish_all
drained_test = refl

-- An exception that is no `Exception` ends the thread, and `submit` still takes a job.
ended_test :
    ((end_batch ℕ pair (raised false) called).alive ≡ false)
    × ((submit ℕ pair (codes "b") (end_batch ℕ pair (raised false) called)).0 ≡ some 1)
unfolding submit take_job begin_batch activate end_batch
ended_test = (refl, refl)
