-- ===== src/Vault/View.antt =====
-- The vault as a client sees it: a map whose bindings last for the time to live.
use seif_pii.Base.{
  ℕ, ◌≤◌, String, ◌≡◌, refl, ap, ◌∙◌, inl, inr, ◌&&◌, Option, none, some, List, [], ◌∷◌, ◌++◌,
  arith, ltb, str_eq, eq_iff, if◌then◌else◌, Bool-cases, Option-cases, All, All-keep,
}
use seif_pii.Base.Result.{ok}
use seif_pii.Vault.{Cipher, Limits, Vault, Entry, expire, find, found, opened, get}
use seif_pii.Vault.Expiry.{live, expire-live}
use seif_pii.Vault.Validity.{IsValid}

module _ {R : Type 0} (c : Cipher R) where
  -- The record under a key, if it has not expired.
  unfoldable pub view : ℕ → Vault c → String → Option R
  view now v key = elim (find c key (live c now v.records)) [
    | none ↦ none
    | some e ↦ c.unseal key e.blob
  ]

  live-live : (now t : ℕ) (es : List (Entry c)) → now ≤ t → live c t (live c now es) ≡ live c t es
  live-live now t [] h = refl
  live-live now t (e ∷ es) h = ground (arith, live-live now t es h)

  pub find-live-snoc :
      (key : String) (t : ℕ) (es : List (Entry c)) (e : Entry c)
      → find c key (live c t (es ++ e ∷ [])) ≡ elim (find c key (live c t es)) [
        | none ↦ if str_eq e.key key && ltb t e.expiry then some e else none
        | some x ↦ some x
      ]
  unfolding find
  find-live-snoc key t [] e = ground arith
  find-live-snoc key t (f ∷ es) e = ground (arith, find-live-snoc key t es e)

  pub find-live-none :
      (key : String) (t : ℕ) (es : List (Entry c))
      → find c key es ≡ none
      → find c key (live c t es) ≡ none
  unfolding find
  find-live-none key t [] h = refl
  find-live-none key t (e ∷ es) h = ground (arith, find-live-none key t es)

  pub find_unseals :
      (key : String) (es : List (Entry c)) (e : Entry c)
      → All (λ (f : Entry c). (r : R) × (c.unseal f.key f.blob ≡ some r)) es
      → find c key es ≡ some e
      → (r : R) × (c.unseal key e.blob ≡ some r)
  unfolding find
  find_unseals key [] e h found = absurd (ground arith)
  find_unseals key (f ∷ es) e ((r, q), hs) found = elim (Bool-cases (str_eq f.key key)) [
    | inl hit ↦ (r, ground (arith, eq_iff f.key key))
    | inr miss ↦ find_unseals key es e hs (ground arith)
  ]

  found_opens :
      (key : String) (e : Entry c) (r : R)
      → c.unseal key e.blob ≡ some r
      → found c key (some e) ≡ ok (some r)
  unfolding found opened
  found_opens key e r h = ground arith

  pub opened_opens :
      (key : String) (blob : c.Blob) (r : R) → c.unseal key blob ≡ some r → opened c key blob ≡ ok r
  unfolding opened
  opened_opens key blob r h = ground arith

  pub view-none :
      (t : ℕ) (v : Vault c) (key : String)
      → find c key (live c t v.records) ≡ none
      → view t v key ≡ none
  unfolding view
  view-none t v key h = ground arith

  pub view-find :
      (t : ℕ) (v w : Vault c) (key : String)
      → find c key (live c t v.records) ≡ find c key (live c t w.records)
      → view t v key ≡ view t w key
  unfolding view
  view-find t v w key h =
      ap (λ (o : Option (Entry c)). elim o [ none ↦ none | some e ↦ c.unseal key e.blob ]) h

  pub view-some :
      (t : ℕ) (v : Vault c) (key : String) (e : Entry c)
      → find c key (live c t v.records) ≡ some e
      → view t v key ≡ c.unseal key e.blob
  unfolding view
  view-some t v key e h = ground arith

  module _ (limits : Limits) (clock now : ℕ) (v : Vault c) (k : IsValid c limits clock v)
      (le : clock ≤ now) where
    -- After `_expire` the entries are the live ones, and every later view is as before.
    pub expired : (expire c now v).records ≡ live c now v.records
    expired = (expire-live c now v k.ordered k.total).0

    pub view-expire : (t : ℕ) (j : String) → now ≤ t → view t (expire c now v) j ≡ view t v j
    unfolding view
    view-expire t j h =
        let same : live c t (expire c now v).records ≡ live c t v.records =
          ap (live c t) expired ∙ live-live now t v.records h in
        ap (λ es. elim (find c j es) [ none ↦ none | some e ↦ c.unseal j e.blob ]) same

    -- A stored record is opened as the view has it.
    found-view :
        (key : String) → found c key (find c key (expire c now v).records) ≡ ok (view now v key)
    unfolding found
    found-view key =
        let sealed =
          All-keep (λ (f : Entry c). (r : R) × (c.unseal f.key f.blob ≡ some r))
            (λ (f : Entry c). ltb now f.expiry) v.records k.sealed in
        elim (Option-cases (find c key (live c now v.records))) [
          | inl absent ↦ rw (expired, absent, view-none now v key absent)
          | inr (e, there) ↦
              let (r, opens) = find_unseals key (live c now v.records) e sealed there in
              rw (expired, there, found_opens key e r opens, view-some now v key e there, opens)
        ]

    pub absent_live :
        (key : String) → view now v key ≡ none → find c key (live c now v.records) ≡ none
    absent_live key h =
        let sealed =
          All-keep (λ (f : Entry c). (r : R) × (c.unseal f.key f.blob ≡ some r))
            (λ (f : Entry c). ltb now f.expiry) v.records k.sealed in
        elim (Option-cases (find c key (live c now v.records))) [
          | inl absent ↦ absent
          | inr (e, there) ↦
              let (x, opens) = find_unseals key (live c now v.records) e sealed there in
              let seen = view-some now v key e there in absurd (ground arith)
        ]

    -- A key without a live record has none later.
    pub view_later : (t : ℕ) (key : String) → view now v key ≡ none → now ≤ t → view t v key ≡ none
    view_later t key h le' = view-none t v key (
        rw (← live-live now t v.records le')
          (find-live-none key t (live c now v.records) (absent_live key h)))

    -- On a valid vault `get` returns the record that the view holds under the key, if any, and from `now`
    -- on it changes no view.
    pub get-view :
        (key : String)
        → ((get c key now v).0 ≡ ok (view now v key))
          × ((t : ℕ) (j : String) → now ≤ t → view t (get c key now v).1 j ≡ view t v j)
    unfolding get
    get-view key = (found-view key, λ t j h. view-expire t j h)
