-- ===== src/InmemLogStore/Transfer.antt =====
-- Packs between two log stores: what `pack` writes, and what `apply_pack` makes of it.
use distributed_replicated_c.Prelude.{
  ℕ, suc, ◌+◌, ◌-◌, ◌*◌, ◌^◌, ◌<◌, ◌≤◌, ◌≡◌, refl, sym, ap, ◌∙◌, subst, pos, ltb-true, some, List,
  [], ◌∷◌, ◌++◌, map, length, take, drop, All, arith, append-nil, append_assoc, length-append,
  u64_mod, add64_lem, take, length-take, length-drop,
}
use distributed_replicated_c.Result.{ok}
use distributed_replicated_c.Nuraft.Buffer.{BufferApi, BufferLaws}
use distributed_replicated_c.Nuraft.LogEntry.{EntryApi, EntryLaws, SameEntry}
use distributed_replicated_c.OrdMap.{OrdMap, number_from, insert, upper_bound}
use distributed_replicated_c.InmemLogStore.{InmemLogStore}
use distributed_replicated_c.InmemLogStore.View.{Represents}
use distributed_replicated_c.InmemLogStore.Write.{insert_last}
use distributed_replicated_c.InmemLogStore.PackBytes.{
  to_int32_lem, bytes_of, IsSmall, packed_bytes, sizes, pack_lem,
}
use distributed_replicated_c.InmemLogStore.Pack.{
  to_u64, to_int32, pack, unpack_entry, apply_entries, restarted, applied, apply_pack,
}

module _ {b : BufferApi} (laws : BufferLaws b) {a : EntryApi b} (entries : EntryLaws laws a) where
  open a use {LogEntry}

  unpack_entry_lem :
      (x : LogEntry) (c : b.Cursor) (rest : List ℕ)
      → IsSmall laws entries (a.serialize x)
      → laws.left c
        ≡ laws.i32_bytes (to_int32 (a.size (a.serialize x)))
          ++ (bytes_of laws entries (a.serialize x) ++ rest)
      → (y : LogEntry) × (c' : b.Cursor) × (unpack_entry a c ≡ ok (y, c'))
        × SameEntry laws a y x
        × (laws.left c' ≡ rest)
  unfolding unpack_entry to_u64
  unpack_entry_lem x c rest small e =
      let n = a.size (a.serialize x) in
      let (c1, e1, l1) =
        laws.get_i32_lem (pos n) small c (bytes_of laws entries (a.serialize x) ++ rest) (
          subst
            (λ v. laws.left c ≡ laws.i32_bytes v ++ (bytes_of laws entries (a.serialize x) ++ rest))
            (to_int32_lem n small) e) in
      let (filled, c2, e2, bs, l2) =
        entries.get_buffer_lem (b.alloc n) (bytes_of laws entries (a.serialize x)) rest c1
          (sym (entries.size_lem (a.serialize x)) ∙ sym (laws.length-left-alloc n)) l1 in
      let (y, e3, same) = entries.deserialize-serialize x filled bs in
      (y, c2, rw (e1, e2, e3) refl, same, l2)

  -- The entries of two lists agree one by one, in what a serialized entry keeps.
  abbrev pub AllSame : List LogEntry → List LogEntry → Type 0
  AllSame [] [] = Unit {0}
  AllSame (y ∷ ys) (x ∷ xs) = SameEntry laws a y x × AllSame ys xs
  AllSame _ _ = ⊥

  apply_entries_lem :
      (xs ys : List LogEntry) (c : b.Cursor) (dummy : LogEntry) (start cur : ℕ)
      (logs : OrdMap LogEntry)
      → All (IsSmall laws entries) (map a.serialize xs)
      → laws.left c ≡ packed_bytes laws entries (map a.serialize xs)
      → 0 < start
      → cur ≡ start + length ys
      → cur + length xs + 1 < u64_mod
      → logs ≡ (0, dummy) ∷ number_from start ys
      → (zs : List LogEntry) × AllSame zs xs
        × (apply_entries a (length xs) cur c logs
            ≡ (ok tt, (0, dummy) ∷ number_from start (ys ++ zs)))
  unfolding apply_entries
  apply_entries_lem [] ys c dummy start cur logs small e h k room l =
      ([], tt, rw (l, append-nil ys) refl)
  apply_entries_lem (x ∷ xs) ys c dummy start cur logs small e h k room l =
      let (y, c1, e1, same, l1) =
        unpack_entry_lem x c (packed_bytes laws entries (map a.serialize xs)) small.0 e in
      let (zs, all_same, e2) =
        apply_entries_lem xs (ys ++ y ∷ []) c1 dummy start (cur + 1) (insert cur y logs) small.1 l1
          h (omega (arith, length-append ys (y ∷ []))) (omega arith)
          (insert_last dummy y cur start ys logs h k l) in
      (
        y ∷ zs,
        (same, all_same),
        rw (e1, apply_entries, add64_lem cur 1 (omega arith), e2, append_assoc ys (y ∷ []) zs) refl,
      )

  upper_bound_first :
      (dummy z : LogEntry) (i : ℕ) (zs : List LogEntry)
      → 0 < i
      → upper_bound 0 ((0, dummy) ∷ number_from i (z ∷ zs)) ≡ some i
  unfolding upper_bound
  upper_bound_first dummy z i zs h = rw (ltb-true 0 i h) refl

  restarted_lem :
      (t : InmemLogStore LogEntry) (dummy z : LogEntry) (index : ℕ) (zs : List LogEntry)
      → 0 < index
      → (restarted a ((0, dummy) ∷ number_from index (z ∷ zs)) t).start_idx ≡ index
  unfolding restarted
  restarted_lem t dummy z index zs h = rw (restarted, upper_bound_first dummy z index zs h) refl

  length-AllSame : (ys xs : List LogEntry) → AllSame ys xs → length ys ≡ length xs
  length-AllSame [] [] h = refl
  length-AllSame (y ∷ ys) (x ∷ xs) h = ap suc (length-AllSame ys xs h.1)
  length-AllSame [] (x ∷ xs) h = absurd h
  length-AllSame (y ∷ ys) [] h = absurd h

  restarted-Represents :
      (t : InmemLogStore LogEntry) (dummy : LogEntry) (index : ℕ) (zs : List LogEntry)
      → 0 < index
      → 0 < length zs
      → index + length zs + 1 < u64_mod
      → let t' = restarted a ((0, dummy) ∷ number_from index zs) t in
        Represents t' dummy zs × (t'.start_idx ≡ index)
  unfolding restarted
  restarted-Represents t dummy index [] h k room = absurd (omega arith)
  restarted-Represents t dummy index (z ∷ zs) h k room =
      let start = restarted_lem t dummy z index zs h in
      (
        record {
          logs = ap (λ i. (0, dummy) ∷ number_from i (z ∷ zs)) (sym start);
          start_pos = omega (arith, start, h);
          bound = omega (arith, start, room);
        },
        start,
      )

  apply_pack_lem :
      (xs : List LogEntry) (t : InmemLogStore LogEntry) (dummy : LogEntry) (packed : b.Buffer)
      (index : ℕ)
      → t.logs ≡ (0, dummy) ∷ []
      → 0 < index
      → 0 < length xs
      → index + length xs + 1 < u64_mod
      → length xs < 2 ^ 31
      → All (IsSmall laws entries) (map a.serialize xs)
      → bytes_of laws entries packed
        ≡ laws.i32_bytes (pos (length xs)) ++ packed_bytes laws entries (map a.serialize xs)
      → (zs : List LogEntry) × AllSame zs xs
        × ((apply_pack a index packed t).0 ≡ ok tt)
        × Represents (apply_pack a index packed t).1 dummy zs
        × ((apply_pack a index packed t).1.start_idx ≡ index)
  unfolding apply_pack applied
  apply_pack_lem xs t dummy packed index fresh h nonempty room fits small e =
      let (c1, e1, l1) =
        laws.get_i32_lem (pos (length xs)) fits (b.start packed)
          (packed_bytes laws entries (map a.serialize xs)) e in
      let (zs, same, run) =
        apply_entries_lem xs [] c1 dummy index index t.logs small l1 h (omega arith) room fresh in
      let count = length-AllSame zs xs same in
      let t' = restarted a ((0, dummy) ∷ number_from index zs) t in
      let done : apply_pack a index packed t ≡ (ok tt, t') = rw (apply_pack, e1, run) refl in
      let (represents, start) =
        restarted-Represents t dummy index zs h (omega (arith, count)) (omega (arith, count)) in
      (
        zs,
        same,
        ap (λ q. q.0) done,
        subst (λ q. Represents q dummy zs) (sym (ap (λ q. q.1) done)) represents,
        ap (λ q. q.1.start_idx) done ∙ start,
      )

  length-map : (f : LogEntry → b.Buffer) (xs : List LogEntry) → length (map f xs) ≡ length xs
  length-map f [] = refl
  length-map f (x ∷ xs) = ap suc (length-map f xs)

  -- A pack of `n` entries of one store, where `n` and the size of each serialized entry fit an int32
  -- and the whole fits a u64, is made and is accepted by a store with an empty log: that store then
  -- stands for a log with the pack's first index, whose entries agree one by one with those packed, in
  -- the term, the type and the payload.
  pub apply_pack-pack :
      (s : InmemLogStore LogEntry) (dummy : LogEntry) (log : List LogEntry)
      (t : InmemLogStore LogEntry) (empty : LogEntry) (index n : ℕ)
      → Represents s dummy log
      → Represents t empty []
      → s.start_idx ≤ index
      → index + n ≤ s.start_idx + length log
      → 0 < n
      → n < 2 ^ 31
      → All (IsSmall laws entries) (map a.serialize (take n (drop (index - s.start_idx) log)))
      → 4 + n * 4 + sizes laws entries (map a.serialize (take n (drop (index - s.start_idx) log)))
        < u64_mod
      → (packed : b.Buffer) × (zs : List LogEntry) × (pack a index (pos n) s ≡ ok packed)
        × ((apply_pack a index packed t).0 ≡ ok tt)
        × Represents (apply_pack a index packed t).1 empty zs
        × ((apply_pack a index packed t).1.start_idx ≡ index)
        × AllSame zs (take n (drop (index - s.start_idx) log))
  apply_pack-pack s dummy log t empty index n r rt h k nonempty fits small total =
      let xs = take n (drop (index - s.start_idx) log) in
      let count : length xs ≡ n =
        length-take n (drop (index - s.start_idx) log)
          (omega (arith, length-drop (index - s.start_idx) log)) in
      let (packed, made, bytes) =
        pack_lem laws entries s dummy log r index n h k fits small
          (length-map a.serialize xs ∙ count) total in
      let bytes' : bytes_of laws entries packed
          ≡ laws.i32_bytes (pos (length xs)) ++ packed_bytes laws entries (map a.serialize xs) =
        bytes
        ∙ ap (λ m. laws.i32_bytes (pos m) ++ packed_bytes laws entries (map a.serialize xs))
            (sym count) in
      let (zs, same, done, represents, start) =
        apply_pack_lem xs t empty packed index rt.logs (omega (arith, r.start_pos))
          (omega (arith, count)) (omega (arith, count, r.bound)) (omega (arith, count)) small
          bytes' in
      (packed, zs, made, done, represents, start, same)
