-- ===== src/Tests/Databases.antt =====
-- A database in memory on which every call succeeds: it satisfies the documented laws.
use mathlib.Core.Logic.{ite, if_pos, if_neg}
use distributed_replicated_c.Prelude.{
  ℕ, ℤ, pos, ◌≡◌, ◌≢◌, refl, ap, Option, none, some, List, [], arith,
}
use distributed_replicated_c.Splinter.{SplinterApi, SplinterLaws}
use distributed_replicated_c.StateMachine.Refinement.{bytes_discrete, Contents}

abbrev store : Contents → List ℕ → Option (List ℕ) → Contents
store d k v j = ite (bytes_discrete k j) v (d j)

abbrev value_of : Option (List ℕ) → ℤ × List ℕ
value_of none = (pos 1, [])
value_of (some v) = (pos 0, v)

-- An update overwrites.
abbrev pub map_db : SplinterApi
map_db = record {
  Config = Unit {0};
  Db = Contents;
  LookupResult = Option (List ℕ);
  create = λ c. (pos 0, λ k. none);
  register_thread = λ d. d;
  insert = λ d k v. (pos 0, store d k (some v));
  update = λ d k v. (pos 0, store d k (some v));
  delete = λ d k. (pos 0, store d k none);
  lookup = λ d k. (pos 0, d k);
  lookup_result_value = value_of;
  print_cache = λ d. d;
  clear_cache = λ d. d;
}

pub missing_value : (o : Option (List ℕ)) → o ≡ none → (value_of o).0 ≢ pos 0
missing_value none h e = cc
missing_value (some v) h e = cc

unfoldable pub map_db_laws : SplinterLaws map_db
map_db_laws = record {
  contents = λ d. d;
  contents-register_thread = λ d k. refl;
  contents-print_cache = λ d k. refl;
  contents-clear_cache = λ d k. refl;
  insert_rc = λ d k v. omega arith;
  update_rc = λ d k v. omega arith;
  delete_rc = λ d k. omega arith;
  insert_self = λ d k v h. if_pos (bytes_discrete k k) refl (some v) (d k);
  insert_ne = λ d k v j h ne. if_neg (bytes_discrete k j) ne (some v) (d j);
  delete_self = λ d k h. if_pos (bytes_discrete k k) refl none (d k);
  delete_ne = λ d k j h ne. if_neg (bytes_discrete k j) ne none (d j);
  lookup_found = λ d k v h. (refl, ap value_of h);
  lookup_missing = λ d k h. (refl, missing_value (d k) h);
}
