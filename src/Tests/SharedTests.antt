-- ===== src/Tests/SharedTests.antt =====
-- An instance of the theorem on the vault over Redis, with a store that is a list of deadlines.
use seif_pii.Base.{
  ℕ, ◌+◌, ◌≤◌, ◌<◌, String, ◌≡◌, refl, Bool, true, false, Option, none, some, List, [], ◌∷◌, arith,
  ltb, str_eq, if◌then◌else◌, lt→ltb,
}
use seif_pii.Base.Result.{ok}
use seif_pii.Vault.Shared.{Redis, get_shared, set_shared, put_result, put_result-agrees}
use seif_pii.Tests.VaultTests.{toy, str_eq_same}

abbrev Cells : Type 0
Cells = List (String × (ℕ × (String × ℕ)))

abbrev cell : ℕ → String → Cells → Option (String × ℕ)
cell t key [] = none
cell t key ((k, e) ∷ cells) =
    if str_eq k key then (if ltb t e.0 then some e.1 else none) else cell t key cells

abbrev set_cell : ℕ → String → String × ℕ → ℕ → Cells → Bool × Cells
set_cell t key blob ttl cells = elim (cell t key cells) [
  | none ↦ (true, (key, (t + ttl, blob)) ∷ cells)
  | some old ↦ (false, cells)
]

set_cell_new :
    (t : ℕ) (key : String) (blob : String × ℕ) (ttl : ℕ) (s : Cells)
    → cell t key s ≡ none
    → set_cell t key blob ttl s ≡ (true, (key, (t + ttl, blob)) ∷ s)
set_cell_new t key blob ttl s h = ground arith

pub set_cell_old :
    (t : ℕ) (key : String) (blob old : String × ℕ) (ttl : ℕ) (s : Cells)
    → cell t key s ≡ some old
    → set_cell t key blob ttl s ≡ (false, s)
set_cell_old t key blob old ttl s h = ground arith

pub set_cell_absent :
    (t : ℕ) (key : String) (blob : String × ℕ) (ttl : ℕ) (s : Cells)
    → cell t key s ≡ none
    → ((set_cell t key blob ttl s).0 ≡ true)
      × ((t' : ℕ) → t ≤ t' → t' < t + ttl → cell t' key (set_cell t key blob ttl s).1 ≡ some blob)
set_cell_absent t key blob ttl s h =
    rw (set_cell_new t key blob ttl s h)
      (refl, λ t' from until. rw (str_eq_same key, lt→ltb t' (t + ttl) until))

abbrev toy_redis : Redis (toy ℕ)
toy_redis = record {
  Store = Cells;
  value = cell;
  set_nx = set_cell;
  set-absent = set_cell_absent;
  set-there = set_cell_old;
}

put_result-agrees_example :
    (put_result
        (toy ℕ)
        toy_redis
        "a"
        5
        (set_shared (toy ℕ) toy_redis 9 0 "a" 5 1 []).0
        4
        (set_shared (toy ℕ) toy_redis 9 0 "a" 6 3 (set_shared (toy ℕ) toy_redis 9 0 "a" 5 1 []).1).1
      ≡ ok 5)
    × (put_result
          (toy ℕ)
          toy_redis
          "a"
          6
          (set_shared
            (toy ℕ)
            toy_redis
            9
            0
            "a"
            6
            3
            (set_shared (toy ℕ) toy_redis 9 0 "a" 5 1 []).1).0
          4
          (set_shared
            (toy ℕ)
            toy_redis
            9
            0
            "a"
            6
            3
            (set_shared (toy ℕ) toy_redis 9 0 "a" 5 1 []).1).1
        ≡ ok 5)
    × (get_shared
          (toy ℕ)
          toy_redis
          4
          "a"
          (set_shared
            (toy ℕ)
            toy_redis
            9
            0
            "a"
            6
            3
            (set_shared (toy ℕ) toy_redis 9 0 "a" 5 1 []).1).1
        ≡ ok (some 5))
put_result-agrees_example =
    put_result-agrees (toy ℕ) toy_redis 9 0 0 1 3 4 "a" 5 6 [] refl (omega arith) (omega arith)
      (omega arith)
