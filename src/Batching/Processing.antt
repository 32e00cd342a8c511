-- ===== src/Batching/Processing.antt =====
-- The steps around the call of the model, and the shutdown, keep what `BatchExecutor` owns.
use seif_pii.Base.{ℕ, ◌≡◌, inl, inr, Bool, true, false, [], arith, length, ◌==◌, ==_iff, Bool-cases}
use seif_pii.Batching.{
  Capacity, Status, waiting, running, activate, fail_all, finish_all, Executor, begin_batch,
  end_batch, Outcome, returned, raised, shutdown,
}
use seif_pii.Batching.Ownership.{
  Owns, cancel_all_keeps, activate_keeps, activate-Owns, length-activate, fail_all_keeps,
  finish_all_keeps,
}
use seif_pii.Batching.Queue.{owner_in_call, IsOwned, not_both}

module _ (R : Type 0) (c : Capacity) where
  pub begin_batch-IsOwned :
      (s : Executor R c) → IsOwned R c s → s.in_call ≡ false → IsOwned R c (begin_batch R c s)
  unfolding begin_batch
  begin_batch-IsOwned s k idle = elim (Bool-cases s.cancel_queued) [
    | inl stop ↦ rw stop (record {
      queue = k.queue;
      taken = omega arith;
      made = λ i m. elim m [ inl queued ↦ k.made i (inl queued) | inr held ↦ absurd held ];
      waits = λ i h.
          let (w, free) = (cancel_all_keeps s.batch i s.status).0 h in
          elim (k.waits i w) [ inl queued ↦ inl queued | inr held ↦ absurd (free held.1) ];
      runs = λ i h.
          let r = k.runs i ((cancel_all_keeps s.batch i s.status).1 h) in
          absurd (not_both R c idle r.0);
      active = λ called i held. absurd held;
    })
    | inr go ↦ rw go (record {
      queue = k.queue;
      taken = omega (arith, length-activate s.batch s.status, k.taken);
      made = λ i m. elim m [
        | inl queued ↦ k.made i (inl queued)
        | inr held ↦ k.made i (inr (activate-Owns s.batch i s.status held))
      ];
      waits = λ i h.
          let (w, free) = (activate_keeps s.batch i s.status).0 h in
          elim (k.waits i w) [ inl queued ↦ inl queued | inr held ↦ absurd (free held.1) ];
      runs = λ i h. elim ((activate_keeps s.batch i s.status).1 h) [
        | inl before ↦ absurd (not_both R c idle (k.runs i before).0)
        | inr held ↦ (owner_in_call (activate s.batch s.status).0 i held, held)
      ];
      active = λ called i held. (activate_keeps s.batch i s.status).3 held;
    })
  ]

  pub settled :
      (alive : Bool) (s : Executor R c) (f : ℕ → Status R)
      → IsOwned R c s
      → s.in_call ≡ true
      → ((i : ℕ) → f i ≡ waiting → s.status i ≡ waiting)
      → ((i : ℕ) → f i ≡ running → (s.status i ≡ running) × (Owns s.batch i → ⊥))
      → IsOwned R c (record s { batch = []; in_call = false; alive = alive; status = f })
  settled alive s f k called w r = record {
    queue = k.queue;
    taken = omega arith;
    made = λ i m. elim m [ inl queued ↦ k.made i (inl queued) | inr held ↦ absurd held ];
    waits = λ i h. elim (k.waits i (w i h)) [
      | inl queued ↦ inl queued
      | inr held ↦ absurd (not_both R c held.0 called)
    ];
    runs = λ i h. let (before, free) = r i h in absurd (free (k.runs i before).1);
    active = λ called' i held. absurd held;
  }

  pub end_batch-IsOwned :
      (outcome : Outcome R) (s : Executor R c)
      → IsOwned R c s
      → s.in_call ≡ true
      → IsOwned R c (end_batch R c outcome s)
  unfolding end_batch
  end_batch-IsOwned (raised ordinary) s k called =
      settled ordinary s (fail_all s.batch s.status) k called
        (λ i h. (fail_all_keeps s.batch i s.status).0 h)
        (λ i h. (fail_all_keeps s.batch i s.status).1 h)
  end_batch-IsOwned (returned results) s k called =
      elim (Bool-cases (length results == length s.batch)) [
        | inl fits ↦
            let same : length results ≡ length s.batch =
              ground (arith, ==_iff (length results) (length s.batch)) in
            rw fits (
              settled s.alive s (finish_all s.batch results s.status) k called
                (λ i h. (finish_all_keeps s.batch results i s.status same).0 h)
                (λ i h. (finish_all_keeps s.batch results i s.status same).1 h))
        | inr other ↦ rw other (
            settled s.alive s (fail_all s.batch s.status) k called
              (λ i h. (fail_all_keeps s.batch i s.status).0 h)
              (λ i h. (fail_all_keeps s.batch i s.status).1 h))
      ]

  pub shutdown-IsOwned :
      (cancel_futures : Bool) (s : Executor R c)
      → IsOwned R c s
      → IsOwned R c (shutdown R c cancel_futures s)
  unfolding shutdown
  shutdown-IsOwned false s k = record {
    queue = k.queue;
    taken = k.taken;
    made = k.made;
    waits = k.waits;
    runs = k.runs;
    active = k.active;
  }
  shutdown-IsOwned true s k = record {
    queue = omega arith;
    taken = k.taken;
    made = λ i m. elim m [ inl queued ↦ absurd queued | inr held ↦ k.made i (inr held) ];
    waits = λ i h.
        let (w, free) = (cancel_all_keeps s.pending i s.status).0 h in
        elim (k.waits i w) [ inl queued ↦ absurd (free queued) | inr held ↦ inr held ];
    runs = λ i h. k.runs i ((cancel_all_keeps s.pending i s.status).1 h);
    active = λ called i held. (cancel_all_keeps s.pending i s.status).2 (k.active called i held);
  }
