-- ===== src/Splinter.antt =====
-- What the program takes from SplinterDB, a git submodule: the operations that it calls, and what
-- their documentation promises of the contents. A return code of 0 is success.
use distributed_replicated_c.Prelude.{ℕ, ℤ, pos, InInt32, ◌≡◌, ◌≢◌, Option, none, some, List}

-- Keys and values are the bytes of slices.
pub record SplinterApi : Type 1 where
  pub Config : Type 0
  pub Db : Type 0
  pub LookupResult : Type 0
  pub create : Config → ℤ × Db
  pub register_thread : Db → Db
  pub insert : Db → List ℕ → List ℕ → ℤ × Db
  pub update : Db → List ℕ → List ℕ → ℤ × Db
  pub delete : Db → List ℕ → ℤ × Db
  pub lookup : Db → List ℕ → ℤ × LookupResult
  pub lookup_result_value : LookupResult → ℤ × List ℕ
  pub print_cache : Db → Db
  pub clear_cache : Db → Db

-- `contents` is the value stored under each key. An update merges by a rule of the data
-- configuration, and nothing is assumed of its effect.
pub record SplinterLaws (s : SplinterApi) : Type 0 where
  pub contents : s.Db → List ℕ → Option (List ℕ)
  pub contents-register_thread :
      (d : s.Db) (k : List ℕ) → contents (s.register_thread d) k ≡ contents d k
  pub contents-print_cache : (d : s.Db) (k : List ℕ) → contents (s.print_cache d) k ≡ contents d k
  pub contents-clear_cache : (d : s.Db) (k : List ℕ) → contents (s.clear_cache d) k ≡ contents d k
  pub insert_rc : (d : s.Db) (k v : List ℕ) → InInt32 (s.insert d k v).0
  pub update_rc : (d : s.Db) (k v : List ℕ) → InInt32 (s.update d k v).0
  pub delete_rc : (d : s.Db) (k : List ℕ) → InInt32 (s.delete d k).0
  pub insert_self :
      (d : s.Db) (k v : List ℕ)
      → (s.insert d k v).0 ≡ pos 0
      → contents (s.insert d k v).1 k ≡ some v
  pub insert_ne :
      (d : s.Db) (k v j : List ℕ)
      → (s.insert d k v).0 ≡ pos 0
      → k ≢ j
      → contents (s.insert d k v).1 j ≡ contents d j
  pub delete_self :
      (d : s.Db) (k : List ℕ) → (s.delete d k).0 ≡ pos 0 → contents (s.delete d k).1 k ≡ none
  pub delete_ne :
      (d : s.Db) (k j : List ℕ)
      → (s.delete d k).0 ≡ pos 0
      → k ≢ j
      → contents (s.delete d k).1 j ≡ contents d j
  pub lookup_found :
      (d : s.Db) (k v : List ℕ)
      → contents d k ≡ some v
      → ((s.lookup d k).0 ≡ pos 0) × (s.lookup_result_value (s.lookup d k).1 ≡ (pos 0, v))
  pub lookup_missing :
      (d : s.Db) (k : List ℕ)
      → contents d k ≡ none
      → ((s.lookup d k).0 ≡ pos 0) × ((s.lookup_result_value (s.lookup d k).1).0 ≢ pos 0)
