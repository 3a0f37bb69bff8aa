-- ===== src/SplinterLogStore/Writes.antt =====
-- What append and write_at leave in the database, under the key of each index.
use distributed_replicated_c.Prelude.{
  ℕ, ◌+◌, ◌-◌, ◌<◌, ◌≤◌, ◌≡◌, refl, subst, ap, ◌∙◌, pos, Bool, ◌&&◌, Bool-cases, leb, ◌==◌,
  ltb-false, if◌then◌else◌, none, some, List, add64_lem, sub64_lem, u64_mod, IsU64, inl, inr, arith,
}
use distributed_replicated_c.Result.{ok}
use distributed_replicated_c.Nuraft.Buffer.{BufferApi}
use distributed_replicated_c.Nuraft.LogEntry.{EntryApi}
use distributed_replicated_c.Splinter.{SplinterApi, SplinterLaws}
use distributed_replicated_c.SplinterLogStore.{
  LogApi, SplinterLogStore, log_key_create, next_slot, delete_keys, append, write_at,
}
use distributed_replicated_c.SplinterLogStore.Keys.{log_key_create-ne}
use distributed_replicated_c.SplinterLogStore.Compact.{stored, count_lem, delete_keys_lem}

pub append_run :
    {s : SplinterApi} {b : BufferApi} {a : EntryApi b} (api : LogApi s a) (entry : a.LogEntry)
    (st : SplinterLogStore s)
    → st.last_idx + 1 < u64_mod
    → (s.insert st.spl (log_key_create st.last_idx) (api.bytes_of (a.serialize entry))).0 ≡ pos 0
    → append api entry st ≡ (
      ok st.last_idx,
      record {
        spl = (s.insert st.spl (log_key_create st.last_idx) (api.bytes_of (a.serialize entry))).1;
        start_idx = st.start_idx;
        last_idx = st.last_idx + 1;
      },
    )
unfolding append
append_run api entry st room accepted = rw (accepted, add64_lem st.last_idx 1 room) refl

module _ {s : SplinterApi} (sl : SplinterLaws s) {b : BufferApi} {a : EntryApi b}
    (api : LogApi s a) where
  pub insert_lem :
      (db : s.Db) (index j : ℕ) (bytes : List ℕ)
      → (s.insert db (log_key_create index) bytes).0 ≡ pos 0
      → IsU64 index
      → IsU64 j
      → sl.contents (s.insert db (log_key_create index) bytes).1 (log_key_create j)
        ≡ (if j == index then some bytes else sl.contents db (log_key_create j))
  insert_lem db index j bytes accepted h k = elim (Bool-cases (j == index)) [
    | inl e ↦
        let same : index ≡ j = ground arith in
        rw e (
          subst
            (λ (i : ℕ).
              sl.contents (s.insert db (log_key_create index) bytes).1 (log_key_create i)
              ≡ some bytes)
            same (sl.insert_self db (log_key_create index) bytes accepted))
    | inr e ↦ rw e (
        sl.insert_ne db (log_key_create index) bytes (log_key_create j) accepted
          (log_key_create-ne index j h k (ground arith)))
  ]

  -- An append that SplinterDB accepts returns the last index, which is one below the next slot, puts
  -- the serialized entry under it and leaves every other index alone. The next slot goes up by one.
  pub append-stored :
      (entry : a.LogEntry) (j : ℕ) (st : SplinterLogStore s)
      → st.last_idx + 2 < u64_mod
      → (s.insert st.spl (log_key_create st.last_idx) (api.bytes_of (a.serialize entry))).0 ≡ pos 0
      → IsU64 j
      → let (r, st') = append api entry st in
        (r ≡ ok st.last_idx)
        × (st.last_idx + 1 ≡ next_slot st)
        × (stored sl st' j ≡ (
            if j == st.last_idx then some (api.bytes_of (a.serialize entry)) else stored sl st j))
        × (next_slot st' ≡ next_slot st + 1)
  unfolding next_slot
  append-stored entry j st room accepted k =
      rw
        (
          append_run api entry st (omega arith) accepted,
          add64_lem st.last_idx 1 (omega arith),
          add64_lem (st.last_idx + 1) 1 (omega arith),
        )
        (refl, refl, insert_lem st.spl st.last_idx j _ accepted (omega arith) k, refl)

  -- Overwriting an index above 0, at most one behind the last, when the indices from it to the last
  -- fit a vector and SplinterDB accepts the deletes and the insert, puts the serialized entry under
  -- the index in front of it, leaves nothing under the indices from it to the last, and every other
  -- index as it was. The index becomes the last one.
  pub write_at-stored :
      (deletes : (d : s.Db) (k : List ℕ) → (s.delete d k).0 ≡ pos 0) (max_size index : ℕ)
      (entry : a.LogEntry) (j : ℕ) (st : SplinterLogStore s)
      → 0 < index
      → index ≤ st.last_idx + 1
      → st.last_idx + 2 < u64_mod
      → st.last_idx + 1 - index ≤ max_size
      → (s.insert
          (delete_keys s (st.last_idx + 1 - index) index st.spl)
          (log_key_create (index - 1))
          (api.bytes_of (a.serialize entry))).0
        ≡ pos 0
      → IsU64 j
      → let (r, st') = write_at api max_size index entry st in
        (r ≡ ok tt)
        × (stored sl st' j ≡ (
            if j == index - 1
            then some (api.bytes_of (a.serialize entry))
            else if leb index j && leb j st.last_idx
            then none
            else stored sl st j))
        × (st'.last_idx ≡ index)
        × (st'.start_idx ≡ st.start_idx)
  unfolding write_at
  write_at-stored deletes max_size index entry j st low high room fits accepted k =
      rw
        (
          write_at,
          count_lem index st.last_idx high (omega arith),
          ltb-false max_size (st.last_idx + 1 - index) fits,
          sub64_lem index 1 (omega arith) low,
          append_run api entry
              (record {
                spl = delete_keys s (st.last_idx + 1 - index) index st.spl;
                start_idx = st.start_idx;
                last_idx = index - 1;
              })
              (omega arith) accepted,
        )
        (
          refl,
          insert_lem (delete_keys s (st.last_idx + 1 - index) index st.spl) (index - 1) j _ accepted
                (omega arith) k
              ∙ ap (λ o. if j == index - 1 then some (api.bytes_of (a.serialize entry)) else o)
                  (delete_keys_lem sl deletes (st.last_idx + 1 - index) index j st.spl (omega arith)
                      k
                    ∙ ap (λ (t : Bool). if t then none else stored sl st j) (ground arith)),
          omega arith,
          refl,
        )
