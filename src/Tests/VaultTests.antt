-- ===== src/Tests/VaultTests.antt =====
-- Instances of the theorems on seif/vault.py, with a cipher that keeps the key beside the record.
use seif_pii.Base.{
  ℕ, ◌≤◌, String, ◌≡◌, refl, true, false, none, some, [], ◌∷◌, arith, ltb, str_eq, eq_iff,
  if◌then◌else◌,
}
use seif_pii.Base.Result.{Result, ok, raise}
use seif_pii.Vault.{
  Cipher, Limits, Vault, empty, VaultError, vault_full, get, put_if_absent, find, commit, expire,
  expire_from,
}
use seif_pii.Vault.Validity.{IsValid, methods-IsValid}
use seif_pii.Vault.Expiry.{bytes}
use seif_pii.Vault.View.{view, get-view}
use seif_pii.Vault.Putting.{Unchanged, full, put_if_absent-view}

pub str_eq_same : (s : String) → str_eq s s ≡ true
str_eq_same s = (eq_iff s s).1 refl

abbrev pub toy : (R : Type 0) → Cipher R
toy R = record {
  Blob = String × R;
  seal = λ nonce key r. (key, r);
  unseal = λ key blob. if str_eq blob.0 key then some blob.1 else none;
  size = λ blob. 10;
  unseal-seal = λ nonce key r. rw (str_eq_same key);
}

-- One record at a time.
abbrev pub one_record : Limits
one_record = record { ttl = 900; max_records = 1; max_store_bytes = 64 }

abbrev put : ℕ → String → ℕ → Vault (toy ℕ) → Result VaultError ℕ × Vault (toy ℕ)
put now key r v = put_if_absent (toy ℕ) one_record 0 key r now now v

abbrev one_stored : Vault (toy ℕ)
one_stored = record {
  records = record { key = "a"; expiry = 907; blob = ("a", 5) } ∷ [];
  total_bytes = 10;
}

first_put_test : put 7 "a" 5 (empty (toy ℕ)) ≡ (ok 5, one_stored)
unfolding put_if_absent find expire expire_from commit
first_put_test = refl

second_put_test : (put 8 "b" 6 one_stored).0 ≡ raise vault_full
unfolding put_if_absent find expire expire_from commit
second_put_test = refl

put_after_expiry_test : (put 907 "b" 6 one_stored).0 ≡ ok 6
unfolding put_if_absent find expire expire_from commit
put_after_expiry_test = refl

one_stored-IsValid : IsValid (toy ℕ) one_record 7 one_stored
unfolding bytes
one_stored-IsValid = record {
  counted = omega arith;
  bounded = omega arith;
  total = refl;
  ordered = (tt, tt);
  ahead = (omega arith, tt);
  distinct = (tt, tt);
  sealed = ((5, refl), tt);
}

methods-IsValid_example :
    IsValid (toy ℕ) one_record 8 (get (toy ℕ) "b" 8 one_stored).1
    × IsValid (toy ℕ) one_record 9 (put_if_absent (toy ℕ) one_record 3 "b" 6 8 9 one_stored).1
methods-IsValid_example =
    methods-IsValid (toy ℕ) one_record 7 8 9 3 "b" 6 one_stored one_stored-IsValid (omega arith)
      (omega arith)

get-view_example :
    ((get (toy ℕ) "a" 8 one_stored).0 ≡ ok (view (toy ℕ) 8 one_stored "a"))
    × ((t : ℕ) (j : String)
        → 8 ≤ t
        → view (toy ℕ) t (get (toy ℕ) "a" 8 one_stored).1 j ≡ view (toy ℕ) t one_stored j)
get-view_example = get-view (toy ℕ) one_record 7 8 one_stored one_stored-IsValid (omega arith) "a"

put_if_absent-view_example :
    ((w : ℕ)
      → view (toy ℕ) 8 one_stored "b" ≡ some w
      → ((put_if_absent (toy ℕ) one_record 3 "b" 6 8 9 one_stored).0 ≡ ok w)
        × Unchanged
            (toy ℕ)
            8
            one_stored
            (put_if_absent (toy ℕ) one_record 3 "b" 6 8 9 one_stored).1)
    × (view (toy ℕ) 8 one_stored "b" ≡ none
        → full (toy ℕ) one_record 8 one_stored ("b", 6) ≡ true
        → ((put_if_absent (toy ℕ) one_record 3 "b" 6 8 9 one_stored).0 ≡ raise vault_full)
          × Unchanged
              (toy ℕ)
              8
              one_stored
              (put_if_absent (toy ℕ) one_record 3 "b" 6 8 9 one_stored).1)
    × (view (toy ℕ) 8 one_stored "b" ≡ none
        → full (toy ℕ) one_record 8 one_stored ("b", 6) ≡ false
        → ((put_if_absent (toy ℕ) one_record 3 "b" 6 8 9 one_stored).0 ≡ ok 6)
          × ((t : ℕ) (j : String)
              → 8 ≤ t
              → view (toy ℕ) t (put_if_absent (toy ℕ) one_record 3 "b" 6 8 9 one_stored).1 j ≡ (
                  if str_eq "b" j
                  then (if ltb t 909 then some 6 else none)
                  else view (toy ℕ) t one_stored j)))
put_if_absent-view_example =
    put_if_absent-view (toy ℕ) one_record 3 "b" 6 9 7 8 one_stored one_stored-IsValid (omega arith)
