-- ===== src/SplinterLogStore/Compact.antt =====
-- What lies under the key of each index, and what compact leaves there.
use distributed_replicated_c.Prelude.{
  ℕ, ◌+◌, ◌-◌, ◌<◌, ◌≤◌, ◌≡◌, refl, ap, ◌∙◌, pos, Bool, true, ◌&&◌, Bool-cases, ltb, leb, ltb-false,
  if◌then◌else◌, Option, none, List, add64, add64_lem, sub64, u64_mod, IsU64, inl, inr, arith,
}
use distributed_replicated_c.Result.{ok}
use distributed_replicated_c.Splinter.{SplinterApi, SplinterLaws}
use distributed_replicated_c.SplinterLogStore.{
  SplinterLogStore, log_key_create, delete_keys, compact,
}
use distributed_replicated_c.SplinterLogStore.Keys.{delete_keys-outside, delete_keys-inside}

-- The bytes under the key of an index.
abbrev pub stored : {s : SplinterApi} → SplinterLaws s → SplinterLogStore s → ℕ → Option (List ℕ)
stored sl st j = sl.contents st.spl (log_key_create j)

-- How many indices there are from `start` up to `last`, which may be the one in front.
pub count_lem :
    (start last : ℕ)
    → start ≤ last + 1
    → last + 1 < u64_mod
    → add64 (sub64 last start) 1 ≡ last + 1 - start
unfolding add64 sub64
count_lem start last h k = omega arith

compact_run :
    {s : SplinterApi} (max_size last_log_index : ℕ) (st : SplinterLogStore s)
    → st.start_idx ≤ last_log_index + 1
    → last_log_index + 1 < u64_mod
    → last_log_index + 1 - st.start_idx ≤ max_size
    → compact max_size last_log_index st ≡ (
      ok true,
      record {
        spl = delete_keys s (last_log_index + 1 - st.start_idx) st.start_idx st.spl;
        start_idx = last_log_index + 1;
        last_idx = st.last_idx;
      },
    )
unfolding compact
compact_run {s} max_size last_log_index st h room fits =
    rw
      (
        count_lem st.start_idx last_log_index h room,
        ltb-false max_size (last_log_index + 1 - st.start_idx) fits,
      )
      (ap
        (λ (i : ℕ). (
          ok true,
          record {
            spl = delete_keys s (last_log_index + 1 - st.start_idx) st.start_idx st.spl;
            start_idx = i;
            last_idx = st.last_idx;
          },
        ))
        (behind (add64_lem last_log_index 1 room)))
  where
    behind :
        add64 last_log_index 1 ≡ last_log_index + 1
        → (if leb st.start_idx last_log_index then add64 last_log_index 1 else st.start_idx)
          ≡ last_log_index + 1
    behind e = rw e (ground arith)

module _ {s : SplinterApi} (sl : SplinterLaws s)
    (deletes : (d : s.Db) (k : List ℕ) → (s.delete d k).0 ≡ pos 0) where
  pub delete_keys_lem :
      (count index j : ℕ) (db : s.Db)
      → index + count < u64_mod
      → IsU64 j
      → sl.contents (delete_keys s count index db) (log_key_create j)
        ≡ (if leb index j && ltb j (index + count) then none else sl.contents db (log_key_create j))
  delete_keys_lem count index j db h k = elim (Bool-cases (leb index j && ltb j (index + count))) [
    | inl e ↦ rw e (delete_keys-inside sl deletes count index j db h (ground arith) (ground arith))
    | inr e ↦ rw e (delete_keys-outside sl deletes count index j db h k (ground arith))
  ]

  -- Compacting up to an index, when the indices from the first one on fit a vector and SplinterDB
  -- deletes each of them, returns true, leaves nothing under them and every other index as it was,
  -- and the index behind is the first one.
  pub compact-stored :
      (max_size last_log_index j : ℕ) (st : SplinterLogStore s)
      → st.start_idx ≤ last_log_index + 1
      → last_log_index + 1 < u64_mod
      → last_log_index + 1 - st.start_idx ≤ max_size
      → IsU64 j
      → let (r, st') = compact max_size last_log_index st in
        (r ≡ ok true)
        × (stored sl st' j
            ≡ (if leb st.start_idx j && leb j last_log_index then none else stored sl st j))
        × (st'.start_idx ≡ last_log_index + 1)
        × (st'.last_idx ≡ st.last_idx)
  compact-stored max_size last_log_index j st h room fits k =
      rw (compact_run max_size last_log_index st h room fits) (
        refl,
        delete_keys_lem (last_log_index + 1 - st.start_idx) st.start_idx j st.spl (omega arith) k
            ∙ ap (λ (t : Bool). if t then none else stored sl st j) (ground arith),
        refl,
        refl,
      )
