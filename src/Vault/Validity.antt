-- ===== src/Vault/Validity.antt =====
-- The invariant of the in-memory vault, and that each method keeps it.
use seif_pii.Base.{
  ℕ, ◌+◌, ◌≤◌, String, ◌≡◌, ◌≢◌, refl, inl, inr, ◌||◌, none, some, List, [], ◌∷◌, ◌++◌, arith,
  length, ltb, leb, eq_iff, Bool-cases, Option-cases, All, All-keep, All-impl, All-snoc, Pairs,
  Pairs-keep, Pairs-snoc, length-append,
}
use seif_pii.Vault.{
  Cipher, Limits, Vault, Entry, expire, find, opened, get, commit, put_if_absent, empty,
}
use seif_pii.Vault.Expiry.{ByExpiry, bytes, live, expire-live}

module _ {R : Type 0} (c : Cipher R) where
  abbrev pub Distinct : List (Entry c) → Type 0
  Distinct es = Pairs (λ (e f : Entry c). f.key ≢ e.key) es

  pub record IsValid (limits : Limits) (clock : ℕ) (v : Vault c) : Type 0 where
    pub counted : length v.records ≤ limits.max_records
    pub bounded : v.total_bytes ≤ limits.max_store_bytes
    pub total : v.total_bytes ≡ bytes c v.records
    pub ordered : ByExpiry c v.records
    pub ahead : All (λ (e : Entry c). e.expiry ≤ clock + limits.ttl) v.records
    pub distinct : Distinct v.records
    pub sealed : All (λ (e : Entry c). (r : R) × (c.unseal e.key e.blob ≡ some r)) v.records

  live_size :
      (now : ℕ) (es : List (Entry c))
      → (length (live c now es) ≤ length es) × (bytes c (live c now es) ≤ bytes c es)
  unfolding bytes
  live_size now [] = omega arith
  live_size now (e ∷ es) = ground (arith, live_size now es)

  module _ (limits : Limits) where
    -- What `_expire` leaves is valid at the new reading of the clock.
    pub expire-IsValid :
        (clock now : ℕ) (v : Vault c)
        → IsValid limits clock v
        → clock ≤ now
        → IsValid limits now (expire c now v)
    expire-IsValid clock now v k le =
        let (es, total) = expire-live c now v k.ordered k.total in
        let (fewer, smaller) = live_size now v.records in
        let q = λ (e : Entry c). ltb now e.expiry in
        record {
          counted = rw es (omega (arith, k.counted));
          bounded = omega (arith, k.bounded, k.total);
          total = rw es total;
          ordered = rw es (Pairs-keep _ q v.records k.ordered);
          ahead = rw es (
              All-keep _ q v.records (
                All-impl (λ (e : Entry c). e.expiry ≤ clock + limits.ttl)
                  (λ (e : Entry c). e.expiry ≤ now + limits.ttl) v.records (λ e h. omega arith)
                  k.ahead));
          distinct = rw es (Pairs-keep _ q v.records k.distinct);
          sealed = rw es (All-keep _ q v.records k.sealed);
        }

    find-none :
        (key : String) (es : List (Entry c))
        → find c key es ≡ none
        → All (λ (e : Entry c). key ≢ e.key) es
    unfolding find
    find-none key [] h = tt
    find-none key (e ∷ es) h = (
      λ same. ground (arith, eq_iff e.key key),
      find-none key es (ground (arith, eq_iff e.key key)),
    )

    bytes-snoc :
        (es : List (Entry c)) (e : Entry c) → bytes c (es ++ e ∷ []) ≡ bytes c es + c.size e.blob
    unfolding bytes
    bytes-snoc [] e = omega arith
    bytes-snoc (f ∷ es) e = omega (arith, bytes-snoc es e)

    commit-IsValid :
        (now later nonce : ℕ) (key : String) (r : R) (v : Vault c)
        → IsValid limits now v
        → now ≤ later
        → find c key v.records ≡ none
        → IsValid limits later (commit c limits key (c.seal nonce key r) r later v).1
    unfolding commit
    commit-IsValid now later nonce key r v k le absent =
        let blob = c.seal nonce key r in
        let e : Entry c = record { key = key; expiry = later + limits.ttl; blob = blob } in
        let ahead : All (λ (f : Entry c). f.expiry ≤ later + limits.ttl) v.records =
          All-impl (λ (f : Entry c). f.expiry ≤ now + limits.ttl)
            (λ (f : Entry c). f.expiry ≤ later + limits.ttl) v.records (λ f h. omega arith)
            k.ahead in
        elim (Bool-cases (
          leb limits.max_records (length v.records)
          || ltb limits.max_store_bytes (v.total_bytes + c.size blob))) [
            | inl full ↦ rw full (record {
              counted = k.counted;
              bounded = k.bounded;
              total = k.total;
              ordered = k.ordered;
              ahead = ahead;
              distinct = k.distinct;
              sealed = k.sealed;
            })
            | inr free ↦ rw free (record {
              counted = ground (arith, length-append v.records (e ∷ []));
              bounded = ground arith;
              total = omega (arith, bytes-snoc v.records e, k.total);
              ordered = Pairs-snoc _ v.records e k.ordered ahead;
              ahead =
                  All-snoc (λ (f : Entry c). f.expiry ≤ later + limits.ttl) v.records e ahead
                    (omega arith);
              distinct = Pairs-snoc _ v.records e k.distinct (find-none key v.records absent);
              sealed = All-snoc _ v.records e k.sealed (r, c.unseal-seal nonce key r);
            })
          ]

    IsValid-later :
        (now later : ℕ) (v : Vault c) → IsValid limits now v → now ≤ later → IsValid limits later v
    IsValid-later now later v k le = record {
      counted = k.counted;
      bounded = k.bounded;
      total = k.total;
      ordered = k.ordered;
      ahead =
          All-impl (λ (f : Entry c). f.expiry ≤ now + limits.ttl)
            (λ (f : Entry c). f.expiry ≤ later + limits.ttl) v.records (λ f h. omega arith) k.ahead;
      distinct = k.distinct;
      sealed = k.sealed;
    }

    -- The two ways through `put_if_absent`.
    pub put_absent :
        (nonce now later : ℕ) (key : String) (r : R) (v : Vault c)
        → find c key (expire c now v).records ≡ none
        → put_if_absent c limits nonce key r now later v
          ≡ commit c limits key (c.seal nonce key r) r later (expire c now v)
    unfolding put_if_absent
    put_absent nonce now later key r v h = ground arith

    pub put_there :
        (nonce now later : ℕ) (key : String) (r : R) (v : Vault c) (e : Entry c)
        → find c key (expire c now v).records ≡ some e
        → put_if_absent c limits nonce key r now later v ≡ (opened c key e.blob, expire c now v)
    unfolding put_if_absent
    put_there nonce now later key r v e h = ground arith

    -- Both methods, at readings of the clock that do not go back, keep the vault valid: within both
    -- capacities, the byte count exact, the entries in order of expiry, no key twice, and each blob
    -- sealed under its key.
    pub methods-IsValid :
        (clock now later nonce : ℕ) (key : String) (r : R) (v : Vault c)
        → IsValid limits clock v
        → clock ≤ now
        → now ≤ later
        → IsValid limits now (get c key now v).1
          × IsValid limits later (put_if_absent c limits nonce key r now later v).1
    unfolding get
    methods-IsValid clock now later nonce key r v k le le' =
        let v' = expire c now v in
        let k' = expire-IsValid clock now v k le in
        (
          k',
          elim (Option-cases (find c key v'.records)) [
            | inl absent ↦
                rw (put_absent nonce now later key r v absent)
                  (commit-IsValid now later nonce key r v' k' le' absent)
            | inr (e, there) ↦
                rw (put_there nonce now later key r v e there) (IsValid-later now later v' k' le')
          ],
        )

    pub empty-IsValid : (clock : ℕ) → IsValid limits clock (empty c)
    unfolding bytes
    empty-IsValid clock = record {
      counted = omega arith;
      bounded = omega arith;
      total = refl;
      ordered = tt;
      ahead = tt;
      distinct = tt;
      sealed = tt;
    }
