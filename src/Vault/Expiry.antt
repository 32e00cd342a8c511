-- ===== src/Vault/Expiry.antt =====
-- `_expire` pops from the front. On entries in the order of their expiry that removes exactly the
-- expired ones.
use seif_pii.Base.{
  ℕ, ◌+◌, ◌-◌, ◌≤◌, ◌≡◌, refl, inl, inr, true, List, [], ◌∷◌, arith, keep, ltb, Bool-cases, All,
  Pairs, tests,
}
use seif_pii.Vault.{Cipher, Vault, Entry, expire_from, expire}

module _ {R : Type 0} (c : Cipher R) where
  -- Each entry expires no later than those behind it.
  abbrev pub ByExpiry : List (Entry c) → Type 0
  ByExpiry es = Pairs (λ (e f : Entry c). e.expiry ≤ f.expiry) es

  unfoldable pub bytes : List (Entry c) → ℕ
  bytes [] = 0
  bytes (e ∷ es) = c.size e.blob + bytes es

  -- The entries that have not expired.
  abbrev pub live : ℕ → List (Entry c) → List (Entry c)
  live now es = keep (λ (e : Entry c). ltb now e.expiry) es

  live_all :
      (now : ℕ) (es : List (Entry c))
      → All (λ (f : Entry c). ltb now f.expiry ≡ true) es
      → live now es ≡ es
  live_all now [] h = refl
  live_all now (e ∷ es) (h, hs) = ground (arith, live_all now es hs)

  later_live :
      (now n : ℕ) (es : List (Entry c))
      → ltb now n ≡ true
      → All (λ (f : Entry c). n ≤ f.expiry) es
      → All (λ (f : Entry c). ltb now f.expiry ≡ true) es
  later_live now n [] h hs = tt
  later_live now n (e ∷ es) h (k, ks) = (omega tests, later_live now n es h ks)

  expire_from-live :
      (now total : ℕ) (es : List (Entry c))
      → ByExpiry es
      → total ≡ bytes es
      → ((expire_from c now es total).records ≡ live now es)
        × ((expire_from c now es total).total_bytes ≡ bytes (live now es))
  unfolding expire_from bytes
  expire_from-live now total [] o h = (refl, h)
  expire_from-live now total (e ∷ es) (low, o) h = elim (Bool-cases (ltb now e.expiry)) [
    | inl stays ↦
        let whole = live_all now es (later_live now e.expiry es stays low) in
        (ground arith, ground arith)
    | inr gone ↦
        let (p, q) = expire_from-live now (total - c.size e.blob) es o (omega arith) in
        (ground arith, ground arith)
  ]

  pub expire-live :
      (now : ℕ) (v : Vault c)
      → ByExpiry v.records
      → v.total_bytes ≡ bytes v.records
      → ((expire c now v).records ≡ live now v.records)
        × ((expire c now v).total_bytes ≡ bytes (live now v.records))
  unfolding expire
  expire-live now v o h = expire_from-live now v.total_bytes v.records o h
