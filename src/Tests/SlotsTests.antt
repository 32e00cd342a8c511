-- ===== src/Tests/SlotsTests.antt =====
-- Instances of the theorem on `_detect_large` of seif/app.py.
use seif_pii.Base.{ℕ, ◌≡◌, refl, true, none}
use seif_pii.App.Slots.{Slots, no_jobs, start_job, calls, starts, steps}
use seif_pii.App.Slots.Counting.{IsCounted, Reachable-IsCounted}

abbrev one_called : Slots ℕ
one_called = (start_job 2 true (no_jobs ℕ)).1

abbrev two_called : Slots ℕ
two_called = (start_job 2 true one_called).1

third_refused_test : (start_job 2 true two_called).0 ≡ none
unfolding start_job
third_refused_test = refl

Reachable-IsCounted_example : IsCounted ℕ 2 two_called
Reachable-IsCounted_example = Reachable-IsCounted ℕ 2 two_called (
    steps one_called two_called (steps (no_jobs ℕ) one_called starts (calls true (no_jobs ℕ)))
      (calls true one_called))
