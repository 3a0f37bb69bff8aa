-- ===== src/SplinterLogStore/Packed.antt =====
-- What apply_pack makes of a pack that is well formed.
use distributed_replicated_c.Prelude.{
  ℕ, zero, suc, ◌+◌, ◌<◌, ◌^◌, ◌≡◌, refl, sym, ap, ◌∙◌, pos, false, ◌==◌, if◌then◌else◌, Option,
  some, List, [], ◌∷◌, ◌++◌, All, length, add64_lem, u64_mod, IsU64, arith,
}
use distributed_replicated_c.Result.{ok}
use distributed_replicated_c.Nuraft.Buffer.{BufferApi, BufferLaws}
use distributed_replicated_c.Nuraft.LogEntry.{EntryApi, EntryLaws}
use distributed_replicated_c.InmemLogStore.Pack.{to_u64}
use distributed_replicated_c.Replica.Launch.{is_not_positive}
use distributed_replicated_c.Splinter.{SplinterApi, SplinterLaws}
use distributed_replicated_c.SplinterLogStore.{
  LogApi, LogLaws, SplinterLogStore, log_key_create, next_slot,
}
use distributed_replicated_c.SplinterLogStore.Writes.{insert_lem}
use distributed_replicated_c.SplinterLogStore.Compact.{stored}
use distributed_replicated_c.SplinterLogStore.Pack.{
  unpack_bytes, insert_entry, insert_entries, apply_pack,
}

-- The entries of a pack: each with its size in front.
abbrev pub packed_entries : {b : BufferApi} → BufferLaws b → List (List ℕ) → List ℕ
packed_entries laws [] = []
packed_entries laws (bytes ∷ entries) =
    laws.i32_bytes (pos (length bytes)) ++ (bytes ++ packed_entries laws entries)

-- The size of an entry is positive and fits an int32.
abbrev pub HasSize : List ℕ → Type 0
HasSize bytes = (0 < length bytes) × (length bytes < 2 ^ 31)

-- What is stored under `j` once the entries lie at the indices from `index` on.
abbrev pub overlaid : ℕ → List (List ℕ) → ℕ → Option (List ℕ) → Option (List ℕ)
overlaid index [] j before = before
overlaid index (bytes ∷ entries) j before =
    overlaid (index + 1) entries j (if j == index then some bytes else before)

positive : (n : ℕ) → 0 < n → is_not_positive (pos n) ≡ false
unfolding is_not_positive
positive zero h = absurd (omega arith)
positive (suc n) h = refl

module _ {s : SplinterApi} {b : BufferApi} {a : EntryApi b} (api : LogApi s a) where
  unpack_run :
      (n : ℕ) (c c1 c2 : b.Cursor) (filled : b.Buffer) (bytes : List ℕ)
      → 0 < n
      → b.get_i32 c ≡ some (pos n, c1)
      → a.get_buffer (b.alloc n) c1 ≡ some (filled, c2)
      → api.bytes_of filled ≡ bytes
      → unpack_bytes api c ≡ ok (bytes, c2)
  unfolding unpack_bytes to_u64
  unpack_run n c c1 c2 filled bytes low e1 e2 same = rw (e1, positive n low, e2, same) refl

  insert_run :
      (index : ℕ) (bytes : List ℕ) (db : s.Db)
      → (s.insert db (log_key_create index) bytes).0 ≡ pos 0
      → insert_entry api index bytes db ≡ (ok tt, (s.insert db (log_key_create index) bytes).1)
  unfolding insert_entry
  insert_run index bytes db inserted = rw inserted refl

  insert_step :
      (rounds index : ℕ) (c c1 : b.Cursor) (bytes : List ℕ) (db db' : s.Db)
      → unpack_bytes api c ≡ ok (bytes, c1)
      → (s.insert db (log_key_create index) bytes).0 ≡ pos 0
      → index + 1 < u64_mod
      → insert_entries api rounds (index + 1) c1 (s.insert db (log_key_create index) bytes).1
        ≡ (ok tt, db')
      → insert_entries api (suc rounds) index c db ≡ (ok tt, db')
  unfolding insert_entries
  insert_step rounds index c c1 bytes db db' e inserted room rest =
      let run = insert_run index bytes db inserted in
      let accepted : (insert_entry api index bytes db).0 ≡ ok tt = ap (λ t. t.0) run in
      let new_db : (insert_entry api index bytes db).1
          ≡ (s.insert db (log_key_create index) bytes).1 =
        ap (λ t. t.1) run in
      rw (insert_entries, e, accepted, new_db, add64_lem index 1 room, rest) refl

module _ {s : SplinterApi} (sl : SplinterLaws s) {b : BufferApi} {laws : BufferLaws b}
    {a : EntryApi b} (entry_laws : EntryLaws laws a) (api : LogApi s a)
    (log_laws : LogLaws laws api)
    (inserts : (d : s.Db) (k v : List ℕ) → (s.insert d k v).0 ≡ pos 0) where
  unpack_bytes_lem :
      (bytes rest : List ℕ) (c : b.Cursor)
      → HasSize bytes
      → laws.left c ≡ laws.i32_bytes (pos (length bytes)) ++ (bytes ++ rest)
      → (c' : b.Cursor) × (unpack_bytes api c ≡ ok (bytes, c')) × (laws.left c' ≡ rest)
  unpack_bytes_lem bytes rest c (low, high) e =
      let n = length bytes in
      let (c1, e1, l1) = laws.get_i32_lem (pos n) high c (bytes ++ rest) e in
      let (filled, c2, e2, bs, l2) =
        entry_laws.get_buffer_lem (b.alloc n) bytes rest c1 (sym (laws.length-left-alloc n)) l1 in
      (c2, unpack_run api n c c1 c2 filled bytes low e1 e2 (log_laws.bytes_of_lem filled ∙ bs), l2)

  insert_entries_lem :
      (entries : List (List ℕ)) (index j : ℕ) (c : b.Cursor) (db : s.Db)
      → All HasSize entries
      → laws.left c ≡ packed_entries laws entries
      → index + length entries + 1 < u64_mod
      → IsU64 j
      → (db' : s.Db) × (insert_entries api (length entries) index c db ≡ (ok tt, db'))
        × (sl.contents db' (log_key_create j)
            ≡ overlaid index entries j (sl.contents db (log_key_create j)))
  unfolding insert_entries
  insert_entries_lem [] index j c db sizes e room k = (db, refl, refl)
  insert_entries_lem (bytes ∷ entries) index j c db (size, sizes) e room k =
      let (c1, e1, l1) = unpack_bytes_lem bytes (packed_entries laws entries) c size e in
      let db1 = (s.insert db (log_key_create index) bytes).1 in
      let (db', run, at) =
        insert_entries_lem entries (index + 1) j c1 db1 sizes l1 (omega arith) k in
      (
        db',
        insert_step api (length entries) index c c1 bytes db db' e1
            (inserts db (log_key_create index) bytes) (omega arith) run,
        at
            ∙ ap (λ o. overlaid (index + 1) entries j o)
                (insert_lem sl api db index j bytes (inserts db (log_key_create index) bytes)
                  (omega arith) k),
      )

  -- A pack of entries, at least one and each of a positive size that fits an int32, is accepted when
  -- the indices fit a u64 and SplinterDB accepts every insert: the entries are stored at the
  -- consecutive indices from the given one on, every other index is left alone, and the first index
  -- and the next slot stay as they were, wherever the entries lie.
  pub apply_pack-stored :
      (entries : List (List ℕ)) (index j : ℕ) (packed : b.Buffer) (st : SplinterLogStore s)
      → 0 < length entries
      → length entries < 2 ^ 31
      → All HasSize entries
      → laws.left (b.start packed)
        ≡ laws.i32_bytes (pos (length entries)) ++ packed_entries laws entries
      → index + length entries + 1 < u64_mod
      → IsU64 j
      → let (r, st') = apply_pack api index packed st in
        (r ≡ ok tt)
        × (stored sl st' j ≡ overlaid index entries j (stored sl st j))
        × (st'.start_idx ≡ st.start_idx)
        × (next_slot st' ≡ next_slot st)
  unfolding apply_pack to_u64 next_slot
  apply_pack-stored entries index j packed st some_entry few sizes e room k =
      let (c, e1, l1) = laws.get_i32_lem (pos (length entries)) few (b.start packed) _ e in
      let (db', run, at) = insert_entries_lem entries index j c st.spl sizes l1 room k in
      rw (apply_pack, e1, positive (length entries) some_entry, run) (refl, at, refl, refl)
