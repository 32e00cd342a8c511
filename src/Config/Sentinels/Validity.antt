-- ===== src/Config/Sentinels/Validity.antt =====
-- What `parse_sentinels` accepts.
use seif_pii.Base.{
  ℕ, ◌+◌, ◌≤◌, ◌≡◌, subst, inl, inr, Bool, true, false, ◌&&◌, ◌||◌, some, List, [], ◌∷◌, ◌++◌,
  arith, length, length-append, leb, ltb, any, null, All, All-snoc, Pairs, Pairs-snoc, Bool-cases,
  Option-cases,
}
use seif_pii.Text.{Text}
use seif_pii.Config.Sentinels.{
  Readers, split, drop_front, drop_end, validate_host, bracketed, named, accepted, parse_endpoint,
  same_address, parse_entries, parse_sentinels,
}

module _ (r : Readers) where
  -- A port of TCP, and a host that one of the two tests accepts.
  pub record IsEndpoint (address : Text × ℕ) : Type 0 where
    pub low : 1 ≤ address.1
    pub high : address.1 ≤ 65535
    pub host : (ipv6 : Bool) × (validate_host r address.0 ipv6 ≡ true)

  accepted-IsEndpoint :
      (ipv6 : Bool) (e address : Text × ℕ) → accepted r ipv6 e ≡ some address → IsEndpoint address
  unfolding accepted
  accepted-IsEndpoint ipv6 e address h =
      elim (Bool-cases (leb 1 e.1 && leb e.1 65535 && validate_host r e.0 ipv6)) [
        | inr bad ↦ absurd (ground arith)
        | inl good ↦
            let same : e ≡ address = ground arith in
            subst (λ x. IsEndpoint x) same
              (record { low = ground arith; high = ground arith; host = (ipv6, ground arith) })
      ]

  parse_endpoint-IsEndpoint :
      (t : Text) (address : Text × ℕ) → parse_endpoint r t ≡ some address → IsEndpoint address
  unfolding parse_endpoint
  parse_endpoint-IsEndpoint t address h = elim (Option-cases (bracketed r t)) [
    | inr (e, found) ↦ accepted-IsEndpoint true e address (ground arith)
    | inl missing ↦ elim (Option-cases (named r t)) [
      | inl none_left ↦ absurd (ground arith)
      | inr (e, found) ↦ accepted-IsEndpoint false e address (ground arith)
    ]
  ]

any-All : {A : Type 0} (p : A → Bool) (xs : List A) → any p xs ≡ false → All (λ x. p x ≡ false) xs
any-All p [] h = tt
any-All p (x ∷ xs) h = (ground arith, any-All p xs (ground arith))

module _ (r : Readers) where
  abbrev pub Distinct : List (Text × ℕ) → Type 0
  Distinct = Pairs (λ (x y : Text × ℕ). same_address r y x ≡ false)

  parse_entries-Valid :
      (entries : List Text) (addresses out : List (Text × ℕ))
      → All (IsEndpoint r) addresses
      → Distinct addresses
      → parse_entries r addresses entries ≡ some out
      → All (IsEndpoint r) out × Distinct out × (length out ≡ length addresses + length entries)
  unfolding parse_entries
  parse_entries-Valid [] addresses out a d h =
      let same : addresses ≡ out = ground arith in
      subst (λ x. All (IsEndpoint r) x × Distinct x × (length x ≡ length addresses + 0)) same
        (a, d, omega arith)
  parse_entries-Valid (entry ∷ entries) addresses out a d h =
      elim (Option-cases (parse_endpoint r (drop_front r.is_space (drop_end r.is_space entry)))) [
        | inl bad ↦ absurd (ground arith)
        | inr (address, good) ↦ elim (Bool-cases (any (same_address r address) addresses)) [
          | inl twice ↦ absurd (ground arith)
          | inr new ↦
              let (valid, distinct, size) =
                parse_entries-Valid entries (addresses ++ address ∷ []) out
                  (All-snoc (IsEndpoint r) addresses address a (
                    parse_endpoint-IsEndpoint r (drop_front r.is_space (drop_end r.is_space entry))
                      address good))
                  (Pairs-snoc (λ (x y : Text × ℕ). same_address r y x ≡ false) addresses address d
                    (any-All (same_address r address) addresses new))
                  (ground arith) in
              (valid, distinct, omega (arith, length-append addresses (address ∷ [])))
        ]
      ]

  -- What `parse_sentinels` returns are at most 16 endpoints, each with a port from 1 to 65535 and a host
  -- that passes `_validate_host`, and no two equal.
  pub parse_sentinels-IsEndpoint :
      (value : Text) (out : List (Text × ℕ))
      → parse_sentinels r value ≡ some out
      → All (IsEndpoint r) out × Distinct out × (length out ≤ 16)
  unfolding parse_sentinels
  parse_sentinels-IsEndpoint value out h = elim (Bool-cases (null value)) [
    | inl empty ↦
        let same : [] ≡ out = ground arith in
        subst (λ x. All (IsEndpoint r) x × Distinct x × (length x ≤ 16)) same (tt, tt, omega arith)
    | inr given ↦
        elim (Bool-cases (ltb 16 (length (split b',' value)) || ltb 4096 (length value))) [
          | inl many ↦ absurd (ground arith)
          | inr few ↦
              let small : length (split b',' value) ≤ 16 = ground arith in
              let (valid, distinct, size) =
                parse_entries-Valid (split b',' value) [] out tt tt (ground arith) in
              (valid, distinct, omega arith)
        ]
  ]
