-- ===== src/Vault.antt =====
-- seif/vault.py: the bounded store with expiry, as it works without Redis. Each method runs under
-- the lock `guard`, so it is one step. Times are readings of `time.monotonic`, in a unit in which
-- `ttl_seconds` is a whole number. The cipher is a parameter: `cryptography` is not in this repository.
pub mod Expiry
pub mod Validity
pub mod View
pub mod Putting
pub mod Shared
use seif_pii.Base.{
  ℕ, zero, suc, ◌+◌, ◌-◌, ◌≤◌, ◌<◌, String, ◌≡◌, Bool, true, false, ◌||◌, Option, none, some, List,
  [], ◌∷◌, ◌++◌, length, ltb, leb, str_eq, if◌then◌else◌,
}
use seif_pii.Base.Result.{Result, ok, raise}

-- `_seal` draws its nonce; `_open` fails on a blob that was not sealed under the key.
pub record Cipher (R : Type 0) : Type 1 where
  pub Blob : Type 0
  pub seal : ℕ → String → R → Blob
  pub unseal : String → Blob → Option R
  pub size : Blob → ℕ
  pub unseal-seal : (nonce : ℕ) (key : String) (r : R) → unseal key (seal nonce key r) ≡ some r

-- The fields of `Settings` that the vault reads.
pub record Limits : Type 0 where
  pub ttl : ℕ
  pub max_records : ℕ
  pub max_store_bytes : ℕ

pub data VaultError : Type 0 where
  vault_full invalid_tag : VaultError

module _ {R : Type 0} (c : Cipher R) where
  open c use {Blob, seal, unseal, size}

  pub record Entry : Type 0 where
    pub key : String
    pub expiry : ℕ
    pub blob : Blob

  -- `records` in the order of the `OrderedDict`, oldest first.
  pub record Vault : Type 0 where
    pub records : List Entry
    pub total_bytes : ℕ

  abbrev pub empty : Vault
  empty = record { records = []; total_bytes = 0 }

  -- The loop of `_expire`: entries leave from the front until one has not expired.
  unfoldable pub expire_from : ℕ → List Entry → ℕ → Vault
  expire_from now [] total = record { records = []; total_bytes = total }
  expire_from now (e ∷ es) total =
      let rest = expire_from now es (total - size e.blob) in
      if ltb now e.expiry then record { records = e ∷ es; total_bytes = total } else rest

  unfoldable pub expire : ℕ → Vault → Vault
  unfolding expire_from
  expire now v = expire_from now v.records v.total_bytes

  -- `self.records.get(key)`
  unfoldable pub find : String → List Entry → Option Entry
  find key [] = none
  find key (e ∷ es) = if str_eq e.key key then some e else find key es

  unfoldable pub opened : String → Blob → Result VaultError R
  opened key blob = elim (unseal key blob) [ none ↦ raise invalid_tag | some r ↦ ok r ]

  unfoldable pub found : String → Option Entry → Result VaultError (Option R)
  found key none = ok none
  found key (some e) = elim (opened key e.blob) [ raise x ↦ raise x | ok r ↦ ok (some r) ]

  unfoldable pub get : String → ℕ → Vault → Result VaultError (Option R) × Vault
  unfolding found opened
  get key now v = let v' = expire now v in (found key (find key v'.records), v')

  -- The branch for a key that is not there; `later` is the second reading of the clock.
  unfoldable pub commit : Limits → String → Blob → R → ℕ → Vault → Result VaultError R × Vault
  commit limits key blob r later v =
      if leb limits.max_records (length v.records)
        || ltb limits.max_store_bytes (v.total_bytes + size blob)
      then (raise vault_full, v)
      else (
        ok r,
        record {
          records =
              v.records ++ (record { key = key; expiry = later + limits.ttl; blob = blob } ∷ []);
          total_bytes = v.total_bytes + size blob;
        },
      )

  unfoldable pub put_if_absent :
      Limits → ℕ → String → R → ℕ → ℕ → Vault → Result VaultError R × Vault
  unfolding opened commit
  put_if_absent limits nonce key r now later v =
      let v' = expire now v in
      elim (find key v'.records) [
        | some e ↦ (opened key e.blob, v')
        | none ↦ commit limits key (seal nonce key r) r later v'
      ]
