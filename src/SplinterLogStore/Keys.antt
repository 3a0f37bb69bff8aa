-- ===== src/SplinterLogStore/Keys.antt =====
-- The keys of the log entries and their order.
use distributed_replicated_c.Prelude.{
  ℕ, ◌+◌, ◌<◌, ◌≤◌, ◌≡◌, ◌≢◌, ◌↔◌, refl, subst, pos, negsuc, none, add64_lem, u64_mod, IsU64, take,
  List, ◌∙◌, ◌⊎◌, inl, inr, zero, suc, arith,
}
use distributed_replicated_c.Bytes.{le_bytes, of_le_bytes, u64_round_trip, le_bytes-injective}
use distributed_replicated_c.Splinter.{SplinterApi, SplinterLaws}
use distributed_replicated_c.SplinterLogStore.{log_key_create, log_key_compare, delete_keys}

pub log_key_create-ne : (i j : ℕ) → IsU64 i → IsU64 j → i ≢ j → log_key_create i ≢ log_key_create j
unfolding log_key_create
log_key_create-ne i j h k ne e = ne (le_bytes-injective i j h k e)

key_value : (i : ℕ) → IsU64 i → of_le_bytes (take 8 (log_key_create i)) ≡ i
unfolding log_key_create le_bytes
key_value i h = u64_round_trip i h

-- The database orders the keys of two indices as the indices: it answers 1, -1 or 0 exactly when the
-- first index is the larger one, the smaller one or the same.
pub log_key_compare-order :
    (i j : ℕ)
    → IsU64 i
    → IsU64 j
    → ((log_key_compare (log_key_create i) (log_key_create j) ≡ pos 1) ↔ (j < i))
      × ((log_key_compare (log_key_create i) (log_key_create j) ≡ negsuc 0) ↔ (i < j))
      × ((log_key_compare (log_key_create i) (log_key_create j) ≡ pos 0) ↔ (i ≡ j))
unfolding log_key_compare
log_key_compare-order i j h k = rw (key_value i h, key_value j k) (ground arith)

module _ {s : SplinterApi} (sl : SplinterLaws s)
    (deletes : (d : s.Db) (k : List ℕ) → (s.delete d k).0 ≡ pos 0) where
  pub delete_keys-outside :
      (count index j : ℕ) (db : s.Db)
      → index + count < u64_mod
      → IsU64 j
      → (j < index) ⊎ (index + count ≤ j)
      → sl.contents (delete_keys s count index db) (log_key_create j)
        ≡ sl.contents db (log_key_create j)
  unfolding delete_keys
  delete_keys-outside zero index j db h k out = refl
  delete_keys-outside (suc count) index j db h k out = rw (add64_lem index 1 (omega arith)) (
      delete_keys-outside count (index + 1) j (s.delete db (log_key_create index)).1 (omega arith) k
        (later out)
      ∙ sl.delete_ne db (log_key_create index) (log_key_create j)
          (deletes db (log_key_create index))
          (log_key_create-ne index j (omega arith) k (apart out)))
    where
      later : (j < index) ⊎ (index + suc count ≤ j) → (j < index + 1) ⊎ (index + 1 + count ≤ j)
      later (inl l) = inl (omega arith)
      later (inr l) = inr (omega arith)

      apart : (j < index) ⊎ (index + suc count ≤ j) → index ≢ j
      apart (inl l) e = omega arith
      apart (inr l) e = omega arith

  pub delete_keys-inside :
      (count index j : ℕ) (db : s.Db)
      → index + count < u64_mod
      → index ≤ j
      → j < index + count
      → sl.contents (delete_keys s count index db) (log_key_create j) ≡ none
  unfolding delete_keys
  delete_keys-inside zero index j db h low high = absurd (omega arith)
  delete_keys-inside (suc count) index j db h low high = rw (add64_lem index 1 (omega arith)) (
      by_order (omega arith) (
        delete_keys-inside count (index + 1) j (s.delete db (log_key_create index)).1
          (omega arith)))
    where
      db' : s.Db
      db' = (s.delete db (log_key_create index)).1

      by_order :
          (index ≡ j) ⊎ (index + 1 ≤ j)
          → (index + 1 ≤ j
              → j < index + 1 + count
              → sl.contents (delete_keys s count (index + 1) db') (log_key_create j) ≡ none)
          → sl.contents (delete_keys s count (index + 1) db') (log_key_create j) ≡ none
      by_order (inl e) next =
          delete_keys-outside count (index + 1) j db' (omega arith) (omega arith)
            (inl (omega arith))
          ∙ subst (λ (i : ℕ). sl.contents db' (log_key_create i) ≡ none) e
              (sl.delete_self db (log_key_create index) (deletes db (log_key_create index)))
      by_order (inr l) next = next l (omega arith)
