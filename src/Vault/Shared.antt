-- ===== src/Vault/Shared.antt =====
-- seif/vault.py over Redis: the same two methods on a store that other processes share. What `GET` and
-- `SET key value EX seconds NX` do is the interface `Redis`, with the documented laws as its fields; time
-- passes for the store between two commands, at the readings given.
use seif_pii.Base.{
  ℕ, ◌+◌, ◌≤◌, ◌<◌, String, ◌≡◌, Bool, true, false, Option, none, some, arith, if◌then◌else◌,
}
use seif_pii.Base.Result.{Result, ok, raise, ◌>>=◌}
use seif_pii.Vault.{Cipher, VaultError, vault_full, opened}
use seif_pii.Vault.View.{opened_opens}

module _ {R : Type 0} (c : Cipher R) where
  pub record Redis : Type 1 where
    pub Store : Type 0
    -- The value of a key at a time, and the store after `SET` at a time, for a number of seconds.
    pub value : ℕ → String → Store → Option c.Blob
    pub set_nx : ℕ → String → c.Blob → ℕ → Store → Bool × Store
    pub set-absent :
        (t : ℕ) (key : String) (blob : c.Blob) (ttl : ℕ) (s : Store)
        → value t key s ≡ none
        → ((set_nx t key blob ttl s).0 ≡ true)
          × ((t' : ℕ)
              → t ≤ t'
              → t' < t + ttl
              → value t' key (set_nx t key blob ttl s).1 ≡ some blob)
    pub set-there :
        (t : ℕ) (key : String) (blob old : c.Blob) (ttl : ℕ) (s : Store)
        → value t key s ≡ some old
        → set_nx t key blob ttl s ≡ (false, s)

  module _ (redis : Redis) where
    open redis use {Store, value, set_nx}

    unfoldable pub get_shared : ℕ → String → Store → Result VaultError (Option R)
    unfolding opened
    get_shared t key s = elim (value t key s) [
      | none ↦ ok none
      | some blob ↦ opened c key blob >>= λ r. ok (some r)
    ]

    -- `put_if_absent` sends `SET` and, if it was not the first, `GET`: the two commands.
    unfoldable pub set_shared : ℕ → ℕ → String → R → ℕ → Store → Bool × Store
    set_shared ttl nonce key r t s = set_nx t key (c.seal nonce key r) ttl s

    unfoldable pub put_result : String → R → Bool → ℕ → Store → Result VaultError R
    unfolding get_shared
    put_result key r won t s =
        if won
        then ok r
        else (get_shared t key s >>= λ winner. elim winner [
          | none ↦ raise vault_full
          | some w ↦ ok w
        ])

    get_shared-opens :
        (t : ℕ) (key : String) (s : Store) (nonce : ℕ) (r : R)
        → value t key s ≡ some (c.seal nonce key r)
        → get_shared t key s ≡ ok (some r)
    unfolding get_shared
    get_shared-opens t key s nonce r h =
        let opens = opened_opens c key (c.seal nonce key r) r (c.unseal-seal nonce key r) in
        ground arith

    -- Of two processes that put under one key that has no value, the second within the time to live of the
    -- first, both return the record of the first, and so does a later `get` within that time.
    pub put_result-agrees :
        (ttl nonce nonce' t t' t2 : ℕ) (key : String) (r r' : R) (s : Store)
        → value t key s ≡ none
        → t ≤ t'
        → t' ≤ t2
        → t2 < t + ttl
        → (put_result key r
              (set_shared ttl nonce key r t s).0
              t2
              (set_shared ttl nonce' key r' t' (set_shared ttl nonce key r t s).1).1
            ≡ ok r)
          × (put_result key r'
                (set_shared ttl nonce' key r' t' (set_shared ttl nonce key r t s).1).0
                t2
                (set_shared ttl nonce' key r' t' (set_shared ttl nonce key r t s).1).1
              ≡ ok r)
          × (get_shared t2 key
                (set_shared ttl nonce' key r' t' (set_shared ttl nonce key r t s).1).1
              ≡ ok (some r))
    unfolding set_shared put_result
    put_result-agrees ttl nonce nonce' t t' t2 key r r' s new first second until =
        let (won, held) = redis.set-absent t key (c.seal nonce key r) ttl s new in
        let lost =
          redis.set-there t' key (c.seal nonce' key r') (c.seal nonce key r) ttl
            (set_nx t key (c.seal nonce key r) ttl s).1 (held t' first (omega arith)) in
        let read =
          get_shared-opens t2 key (set_nx t key (c.seal nonce key r) ttl s).1 nonce r
            (held t2 (omega arith) until) in
        (rw won, rw (lost, read), rw (lost, read))
