-- ===== src/Vault/Putting.antt =====
-- `put_if_absent` as a client sees it.
use seif_pii.Base.{
  ℕ, ◌+◌, ◌≤◌, String, ◌≡◌, refl, ◌∙◌, inl, inr, Bool, true, false, ◌&&◌, ◌||◌, none, some, [], ◌∷◌,
  ◌++◌, arith, length, ltb, leb, str_eq, eq_iff, if◌then◌else◌, Bool-cases, Option-cases, All-keep,
}
use seif_pii.Base.Result.{ok, raise}
use seif_pii.Vault.{Cipher, Limits, Vault, Entry, vault_full, expire, find, commit, put_if_absent}
use seif_pii.Vault.Expiry.{bytes, live, expire-live}
use seif_pii.Vault.Validity.{IsValid, put_absent, put_there}
use seif_pii.Vault.View.{
  view, find-live-snoc, find-live-none, opened_opens, view-none, view-some, view-find, view-expire,
  expired, absent_live,
}

module _ {R : Type 0} (c : Cipher R) where
  -- From `now` on, every key has the same record.
  abbrev pub Unchanged : ℕ → Vault c → Vault c → Type 0
  Unchanged now v v' = (t : ℕ) (j : String) → now ≤ t → view c t v' j ≡ view c t v j

  -- The live entries and the new blob exceed a capacity.
  abbrev pub full : Limits → ℕ → Vault c → c.Blob → Bool
  full limits now v blob =
      leb limits.max_records (length (live c now v.records))
      || ltb limits.max_store_bytes (bytes c (live c now v.records) + c.size blob)

  module _ (limits : Limits) (nonce : ℕ) (key : String) (r : R) (later : ℕ) where
    blob : c.Blob
    blob = c.seal nonce key r

    entry : Entry c
    entry = record { key = key; expiry = later + limits.ttl; blob = c.seal nonce key r }

    commit_full :
        (v : Vault c)
        → (leb limits.max_records (length v.records)
            || ltb limits.max_store_bytes (v.total_bytes + c.size (c.seal nonce key r)))
          ≡ true
        → commit c limits key (c.seal nonce key r) r later v ≡ (raise vault_full, v)
    unfolding commit
    commit_full v h = rw h

    commit_free :
        (v : Vault c)
        → (leb limits.max_records (length v.records)
            || ltb limits.max_store_bytes (v.total_bytes + c.size (c.seal nonce key r)))
          ≡ false
        → ((commit c limits key (c.seal nonce key r) r later v).0 ≡ ok r)
          × ((commit c limits key (c.seal nonce key r) r later v).1.records
              ≡ v.records ++ entry ∷ [])
    unfolding commit entry
    commit_free v h = (rw h, rw h)

    -- What is seen of a vault to whose entries one is added under a new key.
    view-snoc :
        (v w : Vault c) (t : ℕ) (j : String)
        → find c key v.records ≡ none
        → w.records ≡ v.records ++ entry ∷ []
        → view c t w j ≡ (
            if str_eq key j
            then (if ltb t (later + limits.ttl) then some r else none)
            else view c t v j)
    unfolding entry
    view-snoc v w t j absent e =
        let gone = find-live-none c key t v.records absent in
        let found : find c j (live c t w.records) ≡ elim (find c j (live c t v.records)) [
          | none ↦ if str_eq key j && ltb t (later + limits.ttl) then some entry else none
          | some x ↦ some x
        ] =
          rw e (find-live-snoc c j t v.records entry) in
        elim (Bool-cases (str_eq key j)) [
          | inl hit ↦
              let same : key ≡ j = ground (arith, eq_iff key j) in
              let gone' : find c j (live c t v.records) ≡ none = rw same at gone in
              elim (Bool-cases (ltb t (later + limits.ttl))) [
                | inl fresh ↦
                    let f : find c j (live c t w.records) ≡ some entry = ground arith in
                    rw (view-some c t w j entry f, hit, fresh, ← same) (c.unseal-seal nonce key r)
                | inr stale ↦
                    let f : find c j (live c t w.records) ≡ none = ground arith in
                    rw (view-none c t w j f, hit, stale)
              ]
          | inr miss ↦
              let f : find c j (live c t w.records) ≡ find c j (live c t v.records) =
                ground arith in
              rw miss (view-find c t w v j f)
        ]

    module _ (clock now : ℕ) (v : Vault c) (k : IsValid c limits clock v) (le : clock ≤ now) where
      -- A key that is there: its record is opened.
      put_known :
          (w : R)
          → view c now v key ≡ some w
          → ((put_if_absent c limits nonce key r now later v).0 ≡ ok w)
            × Unchanged now v (put_if_absent c limits nonce key r now later v).1
      put_known w h =
          let records = expired c limits clock now v k le in
          let sealed =
            All-keep (λ (f : Entry c). (x : R) × (c.unseal f.key f.blob ≡ some x))
              (λ (f : Entry c). ltb now f.expiry) v.records k.sealed in
          elim (Option-cases (find c key (live c now v.records))) [
            | inl absent ↦ let e = view-none c now v key absent in absurd (ground arith)
            | inr (e, there) ↦
                let opens : c.unseal key e.blob ≡ some w =
                  rw (view-some c now v key e there) at h in
                rw
                  (
                    put_there c limits nonce now later key r v e (rw records there),
                    opened_opens c key e.blob w opens,
                  )
                  (refl, λ t j le'. view-expire c limits clock now v k le t j le')
          ]

      view_absent : view c now v key ≡ none → find c key (expire c now v).records ≡ none
      view_absent h =
          rw (expired c limits clock now v k le) (absent_live c limits clock now v k le key h)

      -- The test of the capacities, in terms of the live entries.
      full-live :
          (leb limits.max_records (length (expire c now v).records)
            || ltb limits.max_store_bytes
                ((expire c now v).total_bytes + c.size (c.seal nonce key r)))
          ≡ full limits now v (c.seal nonce key r)
      full-live =
          let (records, total) = expire-live c now v k.ordered k.total in rw (records, total)

      put_new :
          view c now v key ≡ none
          → full limits now v (c.seal nonce key r) ≡ false
          → ((put_if_absent c limits nonce key r now later v).0 ≡ ok r)
            × ((t : ℕ) (j : String)
                → now ≤ t
                → view c t (put_if_absent c limits nonce key r now later v).1 j ≡ (
                    if str_eq key j
                    then (if ltb t (later + limits.ttl) then some r else none)
                    else view c t v j))
      put_new h free =
          let absent = view_absent h in
          let v' = expire c now v in
          let (done, added) = commit_free v' (full-live ∙ free) in
          rw (put_absent c limits nonce now later key r v absent) (
            done,
            λ t j le'. rw (
              view-snoc v' (commit c limits key (c.seal nonce key r) r later v').1 t j absent added,
              view-expire c limits clock now v k le t j le',
            ),
          )

      put_full :
          view c now v key ≡ none
          → full limits now v (c.seal nonce key r) ≡ true
          → ((put_if_absent c limits nonce key r now later v).0 ≡ raise vault_full)
            × Unchanged now v (put_if_absent c limits nonce key r now later v).1
      put_full h busy =
          rw
            (
              put_absent c limits nonce now later key r v (view_absent h),
              commit_full (expire c now v) (full-live ∙ busy),
            )
            (refl, λ t j le'. view-expire c limits clock now v k le t j le')

      -- `put_if_absent` on a valid vault, on every branch. If the key has a live record, that record is
      -- returned and nothing changes. If it has none and the live entries with the new blob exceed a
      -- capacity, `VaultFull` is raised and nothing changes. Otherwise the new record is returned, and is
      -- seen under its key for the time to live, while the other keys are as before.
      pub put_if_absent-view :
          ((w : R)
            → view c now v key ≡ some w
            → ((put_if_absent c limits nonce key r now later v).0 ≡ ok w)
              × Unchanged now v (put_if_absent c limits nonce key r now later v).1)
          × (view c now v key ≡ none
              → full limits now v (c.seal nonce key r) ≡ true
              → ((put_if_absent c limits nonce key r now later v).0 ≡ raise vault_full)
                × Unchanged now v (put_if_absent c limits nonce key r now later v).1)
          × (view c now v key ≡ none
              → full limits now v (c.seal nonce key r) ≡ false
              → ((put_if_absent c limits nonce key r now later v).0 ≡ ok r)
                × ((t : ℕ) (j : String)
                    → now ≤ t
                    → view c t (put_if_absent c limits nonce key r now later v).1 j ≡ (
                        if str_eq key j
                        then (if ltb t (later + limits.ttl) then some r else none)
                        else view c t v j)))
      put_if_absent-view = (put_known, put_full, put_new)
