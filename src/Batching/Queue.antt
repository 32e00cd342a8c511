-- ===== src/Batching/Queue.antt =====
-- What `BatchExecutor` owns, and the steps that change its queue.
use seif_pii.Base.{
  ℕ, suc, ◌≤◌, ◌<◌, ◌≡◌, refl, subst, ◌⊎◌, inl, inr, Bool, true, false, ◌||◌, List, [], ◌∷◌, ◌++◌,
  arith, length, length-append, leb, Bool-cases, List-cases,
}
use seif_pii.Text.{Text}
use seif_pii.Batching.{Capacity, waiting, running, cancel, Executor, submit, take_job}
use seif_pii.Batching.Ownership.{
  Owns, Owns-append_left, Owns-append_right, Owns-append, with_status-cases, cancel_keeps,
}

pub owner_in_call :
    (jobs : List (ℕ × Text)) (i : ℕ)
    → Owns jobs i
    → (elim jobs as (λ x. Bool) [ [] ↦ false | job ∷ rest ↦ true ]) ≡ true
owner_in_call [] i m = absurd m
owner_in_call (job ∷ jobs) i m = refl

module _ (R : Type 0) (c : Capacity) where
  pub take_none : (s : Executor R c) → s.pending ≡ [] → take_job R c s ≡ s
  unfolding take_job
  take_none s h = ground arith

  pub take_some :
      (s : Executor R c) (job : ℕ × Text) (jobs : List (ℕ × Text))
      → s.pending ≡ job ∷ jobs
      → take_job R c s ≡ record s { pending = jobs; batch = s.batch ++ job ∷ [] }
  unfolding take_job
  take_some s job jobs h = ground arith

  pub record IsOwned (s : Executor R c) : Type 0 where
    pub queue : length s.pending ≤ c.capacity
    pub taken : length s.batch ≤ c.batch_size
    pub made : (i : ℕ) → Owns s.pending i ⊎ Owns s.batch i → i < s.created
    pub waits :
        (i : ℕ) → s.status i ≡ waiting → Owns s.pending i ⊎ ((s.in_call ≡ false) × Owns s.batch i)
    pub runs : (i : ℕ) → s.status i ≡ running → (s.in_call ≡ true) × Owns s.batch i
    pub active : s.in_call ≡ true → (i : ℕ) → Owns s.batch i → s.status i ≡ running

  pub not_both : {b : Bool} → b ≡ false → b ≡ true → ⊥
  not_both {b} h k = ground arith

  pub submit-IsOwned : (text : Text) (s : Executor R c) → IsOwned s → IsOwned (submit R c text s).1
  unfolding submit
  submit-IsOwned text s k = elim (Bool-cases (s.stopping || leb c.capacity (length s.pending))) [
    | inl full ↦ rw full k
    | inr free ↦ rw free (record {
      queue = ground (arith, length-append s.pending ((s.created, text) ∷ []), k.queue);
      taken = k.taken;
      made = λ i m. elim m [
        | inl queued ↦ elim (Owns-append s.pending ((s.created, text) ∷ []) i queued) [
          | inl old ↦ omega (arith, k.made i (inl old))
          | inr new ↦ elim new [ inl e ↦ omega arith | inr none_left ↦ absurd none_left ]
        ]
        | inr held ↦ omega (arith, k.made i (inr held))
      ];
      waits = λ i h. elim (with_status-cases s.created i waiting s.status) [
        | inl (e, now) ↦ inl (Owns-append_right s.pending ((s.created, text) ∷ []) i (inl e))
        | inr (e, now) ↦ elim (k.waits i (rw now at h)) [
          | inl old ↦ inl (Owns-append_left s.pending ((s.created, text) ∷ []) i old)
          | inr held ↦ inr held
        ]
      ];
      runs = λ i h. elim (with_status-cases s.created i waiting s.status) [
        | inl (e, now) ↦ absurd (ground arith)
        | inr (e, now) ↦ k.runs i (rw now at h)
      ];
      active = λ called i held. elim (with_status-cases s.created i waiting s.status) [
        | inl (e, now) ↦ let less = k.made i (inr held) in absurd (omega arith)
        | inr (e, now) ↦ rw now (k.active called i held)
      ];
    })
  ]

  pub cancel-IsOwned :
      (i : ℕ) (s : Executor R c) → IsOwned s → IsOwned (record s { status = cancel i s.status })
  cancel-IsOwned i s k = record {
    queue = k.queue;
    taken = k.taken;
    made = k.made;
    waits = λ j h. k.waits j ((cancel_keeps i j s.status).0 h).0;
    runs = λ j h. k.runs j ((cancel_keeps i j s.status).1 h);
    active = λ called j held. (cancel_keeps i j s.status).2 (k.active called j held);
  }

  pub take_job-IsOwned :
      (s : Executor R c)
      → IsOwned s
      → s.in_call ≡ false
      → length s.batch < c.batch_size
      → IsOwned (take_job R c s)
  take_job-IsOwned s k idle small = elim (List-cases s.pending) [
    | inl none_left ↦ rw (take_none s none_left) k
    | inr (job, jobs, e) ↦ rw (take_some s job jobs e) (record {
      queue =
          let size : length s.pending ≡ suc (length jobs) = rw e in omega (arith, k.queue, size);
      taken = omega (arith, length-append s.batch (job ∷ []));
      made = λ i m. elim m [
        | inl queued ↦ k.made i (inl (rw e (inr queued)))
        | inr held ↦ elim (Owns-append s.batch (job ∷ []) i held) [
          | inl old ↦ k.made i (inr old)
          | inr new ↦ elim new [
            | inl same ↦ k.made i (inl (rw e (inl same)))
            | inr none_left ↦ absurd none_left
          ]
        ]
      ];
      waits = λ i h. elim (k.waits i h) [
        | inl queued ↦ elim (subst (λ x. Owns x i) e queued) [
          | inl same ↦ inr (idle, Owns-append_right s.batch (job ∷ []) i (inl same))
          | inr later ↦ inl later
        ]
        | inr held ↦ inr (idle, Owns-append_left s.batch (job ∷ []) i held.1)
      ];
      runs = λ i h. absurd (not_both idle (k.runs i h).0);
      active = λ called i held. absurd (not_both idle called);
    })
  ]
