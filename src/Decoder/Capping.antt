-- ===== src/Decoder/Capping.antt =====
-- The contexts of `BatchGraphBackend` are capped, and no two have one shape.
use seif_pii.Base.{
  ℕ, ◌≤◌, ◌≡◌, ◌≢◌, ap, Bool, true, false, not, ◌&&◌, ◌||◌, inl, inr, Bool-cases, List, [], ◌∷◌,
  length, length-append, any, leb, ltb, ||-false, ltb→ge, ◌==◌, arith, All, Pairs, All-snoc,
  Pairs-snoc,
}
use seif_pii.Base.Result.{ok, raise, Result-cases}
use seif_pii.Decoder.Batch.{length_buckets, batch_buckets, is_batch_size}
use seif_pii.Decoder.Graphs.{
  max_graph_contexts, GraphError, Shape, Backend, is_kept_shape, new_backend, run, Installed, plain,
  batched, install, Reachable, start, installed, ran,
}

-- A shape of the profile that no batch of one has.
pub record InProfile (max_batch : ℕ) (s : Shape) : Type 0 where
  pub several : s.0 ≢ 1
  pub within : s.0 ≤ max_batch
  pub rows : any (λ (n : ℕ). s.0 == n) batch_buckets ≡ true
  pub size : any (λ (n : ℕ). s.1 == n) length_buckets ≡ true

pub record IsCapped (b : Backend) : Type 0 where
  pub cap : b.max_contexts ≤ max_graph_contexts
  pub profile : is_batch_size b.max_batch ≡ true
  pub few : length b.contexts ≤ b.max_contexts
  pub shapes : All (InProfile b.max_batch) b.contexts
  pub distinct : Pairs (λ (s t : Shape). s ≢ t) b.contexts

abbrev pub Capped : Installed → Type 0
Capped (plain pinned) = Unit
Capped (batched b) = IsCapped b

not-false : (b : Bool) → not b ≡ false → b ≡ true
not-false b h = ground arith

new-shape :
    (s : Shape) (contexts : List Shape)
    → is_kept_shape s contexts ≡ false
    → All (λ (c : Shape). c ≢ s) contexts
unfolding is_kept_shape
new-shape s [] h = tt
new-shape s (c ∷ contexts) h = (
  λ e.
      let e0 : c.0 ≡ s.0 = ap (λ (x : Shape). x.0) e in
      let e1 : c.1 ≡ s.1 = ap (λ (x : Shape). x.1) e in absurd (ground (arith, e0, e1)),
  new-shape s contexts (ground arith),
)

new_backend-IsCapped :
    (max_batch max_contexts : ℕ) (pinned : Bool) (b : Backend)
    → new_backend max_batch max_contexts pinned ≡ ok b
    → IsCapped b
unfolding new_backend
new_backend-IsCapped max_batch max_contexts pinned b e =
    elim (Bool-cases (is_batch_size max_batch)) [
      | inl good ↦
          let cap : max_contexts ≤ max_graph_contexts = ground arith in
          let same : record { max_batch = max_batch; max_contexts = max_contexts; contexts = [] }
              ≡ b =
            ground arith in
          rw (← same)
            (record { cap = cap; profile = good; few = omega arith; shapes = tt; distinct = tt })
      | inr bad ↦ absurd (ground arith)
    ]

profile_of :
    (max_batch batch size : ℕ)
    → (not (any (λ (n : ℕ). batch == n) batch_buckets) || ltb max_batch batch) ≡ false
    → (batch == 1) ≡ false
    → not (any (λ (n : ℕ). size == n) length_buckets) ≡ false
    → InProfile max_batch (batch, size)
profile_of max_batch batch size h k l =
    let (found, fits) =
      ||-false (not (any (λ (n : ℕ). batch == n) batch_buckets)) (ltb max_batch batch) h in
    record {
      several = λ e. absurd (ground arith);
      within = ltb→ge max_batch batch fits;
      rows = not-false (any (λ (n : ℕ). batch == n) batch_buckets) found;
      size = not-false (any (λ (n : ℕ). size == n) length_buckets) l;
    }

run-IsCapped :
    (captures : Shape → Bool) (dimensions : List ℕ) (b : Backend)
    → IsCapped b
    → IsCapped (run captures dimensions b).1
unfolding run
run-IsCapped captures [] b k = k
run-IsCapped captures (batch ∷ []) b k = k
run-IsCapped captures (batch ∷ size ∷ more ∷ rest) b k = k
run-IsCapped captures (batch ∷ size ∷ []) b k =
    elim (Bool-cases (not (any (λ n. batch == n) batch_buckets) || ltb b.max_batch batch)) [
      | inl over ↦ rw over k
      | inr inside ↦ elim (Bool-cases (batch == 1)) [
        | inl one ↦ rw (inside, one) k
        | inr several ↦ elim (Bool-cases (not (any (λ n. size == n) length_buckets))) [
          | inl other ↦ rw (inside, several, other) k
          | inr bucket ↦ elim (Bool-cases (is_kept_shape (batch, size) b.contexts)) [
            | inl kept ↦ rw (inside, several, bucket, kept) k
            | inr new ↦ elim (Bool-cases (leb b.max_contexts (length b.contexts))) [
              | inl full ↦ rw (inside, several, bucket, new, full) k
              | inr room ↦ elim (Bool-cases (captures (batch, size))) [
                | inl made ↦
                    rw (inside, several, bucket, new, room, made)
                      (record {
                        cap = k.cap;
                        profile = k.profile;
                        few = ground (arith, length-append b.contexts ((batch, size) ∷ []));
                        shapes =
                            All-snoc (InProfile b.max_batch) b.contexts (batch, size) k.shapes
                              (profile_of b.max_batch batch size inside several bucket);
                        distinct =
                            Pairs-snoc (λ (s t : Shape). s ≢ t) b.contexts (batch, size) k.distinct
                              (new-shape (batch, size) b.contexts new);
                      })
                | inr not_made ↦ rw (inside, several, bucket, new, room, not_made) k
              ]
            ]
          ]
        ]
      ]
    ]

install_failed :
    (max_batch max_contexts : ℕ) (pinned : Bool) (e : GraphError)
    → new_backend max_batch max_contexts pinned ≡ raise e
    → (install max_batch max_contexts (plain pinned)).1 ≡ plain pinned
unfolding install
install_failed max_batch max_contexts pinned e h = ground (arith, h)

install_made :
    (max_batch max_contexts : ℕ) (pinned : Bool) (b : Backend)
    → new_backend max_batch max_contexts pinned ≡ ok b
    → (install max_batch max_contexts (plain pinned)).1 ≡ batched b
unfolding install
install_made max_batch max_contexts pinned b h = ground (arith, h)

install-Capped :
    (max_batch max_contexts : ℕ) (r : Installed)
    → Capped r
    → Capped (install max_batch max_contexts r).1
unfolding install
install-Capped max_batch max_contexts (batched b) k =
    elim (Bool-cases (b.max_batch == max_batch && b.max_contexts == max_contexts)) [
      | inl same ↦ rw same k
      | inr other ↦ rw other k
    ]
install-Capped max_batch max_contexts (plain pinned) k =
    elim (Result-cases (new_backend max_batch max_contexts pinned)) [
      | inl (e, failed) ↦ rw (install_failed max_batch max_contexts pinned e failed) tt
      | inr (b, made) ↦
          rw (install_made max_batch max_contexts pinned b made)
            (new_backend-IsCapped max_batch max_contexts pinned b made)
    ]

-- However a runtime is installed and run: the contexts stay at most 25 and within the cap, they all have
-- different shapes, and each shape is of a batch of more than one row within the profile and of one of the
-- fixed lengths.
pub Reachable-Capped : (r : Installed) → Reachable r → Capped r
Reachable-Capped r (start pinned) = tt
Reachable-Capped r (installed max_batch max_contexts r' h) =
    install-Capped max_batch max_contexts r' (Reachable-Capped r' h)
Reachable-Capped r (ran captures dimensions b h) =
    run-IsCapped captures dimensions b (Reachable-Capped (batched b) h)
