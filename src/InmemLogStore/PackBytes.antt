-- ===== src/InmemLogStore/PackBytes.antt =====
-- The bytes of a pack: what `pack` writes for a range of the log.
use distributed_replicated_c.Prelude.{
  ℕ, zero, suc, ◌+◌, ◌-◌, ◌*◌, ◌%◌, ◌^◌, ◌<◌, ◌≤◌, ◌≡◌, refl, sym, ◌∙◌, ℤ, pos, ltb-true, some,
  List, [], ◌∷◌, ◌++◌, map, length, take, drop, All, arith, append-nil, length-append, drop-cons,
  drop-all, u64_mod, add64_lem, take, length-drop,
}
use distributed_replicated_c.Result.{ok}
use distributed_replicated_c.Nuraft.Buffer.{BufferApi, BufferLaws}
use distributed_replicated_c.Nuraft.LogEntry.{EntryApi, EntryLaws}
use distributed_replicated_c.Nuraft.Wire.{Writes, Writes-bind, Writes-put}
use distributed_replicated_c.OrdMap.{find, find-number_from}
use distributed_replicated_c.InmemLogStore.{InmemLogStore}
use distributed_replicated_c.InmemLogStore.View.{Represents}
use distributed_replicated_c.InmemLogStore.Read.{find_pos}
use distributed_replicated_c.InmemLogStore.Pack.{
  to_u64, to_int32, collect_serialized, total_bytes, put_all, pack_end, pack_size, pack,
}

pub to_int32_lem : (n : ℕ) → n < 2 ^ 31 → to_int32 n ≡ pos n
unfolding to_int32
to_int32_lem n h = let e : n % 2 ^ 32 ≡ n = omega arith in rw e (rw (ltb-true n (2 ^ 31) h) refl)

module _ {b : BufferApi} (laws : BufferLaws b) {a : EntryApi b} (entries : EntryLaws laws a) where
  open a use {LogEntry}

  abbrev pub bytes_of : b.Buffer → List ℕ
  bytes_of buf = laws.left (b.start buf)

  -- A size that fits the 32 bits that a pack has for it.
  abbrev pub IsSmall : b.Buffer → Type 0
  IsSmall buf = a.size buf < 2 ^ 31

  abbrev pub packed_bytes : List b.Buffer → List ℕ
  packed_bytes [] = []
  packed_bytes (buf ∷ bufs) =
      laws.i32_bytes (to_int32 (a.size buf)) ++ (bytes_of buf ++ packed_bytes bufs)

  abbrev pub sizes : List b.Buffer → ℕ
  sizes [] = 0
  sizes (buf ∷ bufs) = a.size buf + sizes bufs

  length-packed_bytes :
      (bufs : List b.Buffer) → length (packed_bytes bufs) ≡ length bufs * 4 + sizes bufs
  length-packed_bytes [] = refl
  length-packed_bytes (buf ∷ bufs) = omega (
    arith,
    length-append (laws.i32_bytes (to_int32 (a.size buf))) (bytes_of buf ++ packed_bytes bufs),
    length-append (bytes_of buf) (packed_bytes bufs),
    laws.length-i32_bytes (to_int32 (a.size buf)),
    entries.size_lem buf,
    length-packed_bytes bufs,
  )

  put_all-Writes :
      (bufs : List b.Buffer) → All IsSmall bufs → Writes laws (put_all a bufs) (packed_bytes bufs)
  unfolding put_all
  put_all-Writes [] h = record { at = λ c room. (c, refl, sym (append-nil _), refl) }
  put_all-Writes (buf ∷ bufs) h =
      Writes-bind laws
        (Writes-put laws _
          (laws.put_i32_lem (to_int32 (a.size buf)) (rw (to_int32_lem (a.size buf) h.0) h.0)))
        (Writes-bind laws (Writes-put laws _ (entries.put_buffer_lem buf))
          (put_all-Writes bufs h.1))

  total_bytes_lem :
      (acc : ℕ) (bufs : List b.Buffer)
      → acc + sizes bufs < u64_mod
      → total_bytes a acc bufs ≡ acc + sizes bufs
  unfolding total_bytes
  total_bytes_lem acc [] h = omega arith
  total_bytes_lem acc (buf ∷ bufs) h =
      rw (add64_lem acc (a.size buf) (omega arith))
        (total_bytes_lem (acc + a.size buf) bufs (omega arith) ∙ omega arith)

  module _ (s : InmemLogStore LogEntry) (dummy : LogEntry) (log : List LogEntry)
      (r : Represents s dummy log) where
    collect_serialized_lem :
        (n ii : ℕ)
        → s.start_idx ≤ ii
        → ii + n ≤ s.start_idx + length log
        → collect_serialized a n ii s.logs
          ≡ ok (map a.serialize (take n (drop (ii - s.start_idx) log)))
    unfolding collect_serialized
    collect_serialized_lem zero ii h k = refl
    collect_serialized_lem (suc n) ii h k =
        let (x, e, d) = drop-cons (ii - s.start_idx) log (omega arith) in
        let found : find ii s.logs ≡ some x =
          find_pos s dummy log r ii (omega (arith, r.start_pos))
          ∙ find-number_from s.start_idx ii log h
          ∙ e in
        let next : suc (ii - s.start_idx) ≡ suc ii - s.start_idx = omega arith in
        rw (found, d, next, collect_serialized_lem n (suc ii) (omega arith) (omega arith)) refl

  pack_run :
      (index : ℕ) (cnt : ℤ) (s : InmemLogStore LogEntry) (rounds room : ℕ) (bufs : List b.Buffer)
      (c1 c2 : b.Cursor)
      → pack_end a index cnt - index ≡ rounds
      → collect_serialized a rounds index s.logs ≡ ok bufs
      → pack_size a cnt bufs ≡ room
      → b.put_i32 cnt (b.start (b.alloc room)) ≡ some c1
      → put_all a bufs c1 ≡ ok c2
      → pack a index cnt s ≡ ok (b.buffer_of c2)
  unfolding pack
  pack_run index cnt s rounds room bufs c1 c2 e1 e2 e3 e4 e5 = rw (e1, e2, e3, e4, e5) refl

  -- The pack is the count followed by the entries.
  pub pack_lem :
      (s : InmemLogStore LogEntry) (dummy : LogEntry) (log : List LogEntry)
      (r : Represents s dummy log) (index n : ℕ)
      → s.start_idx ≤ index
      → index + n ≤ s.start_idx + length log
      → n < 2 ^ 31
      → let bufs = map a.serialize (take n (drop (index - s.start_idx) log)) in
        All IsSmall bufs
        → length bufs ≡ n
        → 4 + n * 4 + sizes bufs < u64_mod
        → (packed : b.Buffer) × (pack a index (pos n) s ≡ ok packed)
          × (bytes_of packed ≡ laws.i32_bytes (pos n) ++ packed_bytes bufs)
  unfolding to_u64
  pack_lem s dummy log r index n h k fits small count total =
      let bufs = map a.serialize (take n (drop (index - s.start_idx) log)) in
      let room = 4 + n * 4 + sizes bufs in
      let rounds : pack_end a index (pos n) - index ≡ n =
        omega (arith, add64_lem index n (omega (arith, r.bound))) in
      let len = length-packed_bytes bufs in
      let ints : (n * 4) % u64_mod ≡ n * 4 = omega arith in
      let summed : total_bytes a 0 bufs ≡ sizes bufs =
        total_bytes_lem 0 bufs (omega arith) ∙ omega arith in
      let size : pack_size a (pos n) bufs ≡ room =
        rw (ints, add64_lem 4 (n * 4) (omega arith), summed)
          (add64_lem (4 + n * 4) (sizes bufs) (omega arith)) in
      let c0 = b.start (b.alloc room) in
      let (c1, e1, p1, l1) =
        laws.put_i32_lem (pos n) fits c0
          (omega (arith, laws.length-i32_bytes (pos n), laws.length-left-alloc room)) in
      let (c2, e2, p2, l2) = (put_all-Writes bufs small).at c1 (
        rw l1 (
          omega (
            arith,
            len,
            laws.length-i32_bytes (pos n),
            laws.length-left-alloc room,
            length-drop (length (laws.i32_bytes (pos n))) (laws.left c0),
          ))) in
      let full : laws.left c2 ≡ [] =
        l2
        ∙ drop-all (length (packed_bytes bufs)) (laws.left c1) (
            rw l1 (
              omega (
                arith,
                len,
                laws.length-i32_bytes (pos n),
                laws.length-left-alloc room,
                length-drop (length (laws.i32_bytes (pos n))) (laws.left c0),
              ))) in
      (
        b.buffer_of c2,
        pack_run index (pos n) s n room bufs c1 c2 rounds
            (collect_serialized_lem s dummy log r n index h k) size e1 e2,
        laws.left-start c2 ∙ rw (full, p2, p1, laws.passed-start (b.alloc room)) (append-nil _),
      )
