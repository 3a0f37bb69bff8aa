-- ===== src/InmemLogStore/Write.antt =====
-- The writes: the constructor, `append` and `write_at` as operations on the log.
use distributed_replicated_c.Prelude.{
  ℕ, ◌+◌, ◌-◌, ◌<◌, ◌≤◌, ◌≡◌, refl, ap, ◌∙◌, List, [], ◌∷◌, ◌++◌, length, take, length-append,
  length-take, arith, ltb-true, ltb-false, eqb_false, u64_mod,
}
use distributed_replicated_c.Nuraft.Buffer.{BufferApi}
use distributed_replicated_c.Nuraft.LogEntry.{EntryApi}
use distributed_replicated_c.OrdMap.{
  OrdMap, insert, erase_from, number_from, insert_next, erase_from-number_from,
}
use distributed_replicated_c.InmemLogStore.{
  InmemLogStore, new_log_store, next_slot, append, write_at, make_clone,
}
use distributed_replicated_c.InmemLogStore.View.{Represents, next_slot_lem}

-- The dummy entry at 0 is out of the way of both.
insert_behind_dummy {ℓ} :
    {V : Type ℓ} (dummy v : V) (k : ℕ) (m : OrdMap V)
    → 0 < k
    → insert k v ((0, dummy) ∷ m) ≡ (0, dummy) ∷ insert k v m
unfolding insert
insert_behind_dummy dummy v k m h =
    rw (ltb-false k 0 (omega arith), eqb_false 0 k (omega arith)) refl

erase_from_behind_dummy {ℓ} :
    {V : Type ℓ} (dummy : V) (k : ℕ) (m : OrdMap V)
    → 0 < k
    → erase_from k ((0, dummy) ∷ m) ≡ (0, dummy) ∷ erase_from k m
unfolding erase_from
erase_from_behind_dummy dummy k m h = rw (ltb-true 0 k h) refl

-- A write at the index behind the last entry.
pub insert_last {ℓ} :
    {V : Type ℓ} (dummy v : V) (k start : ℕ) (log : List V) (m : OrdMap V)
    → 0 < start
    → k ≡ start + length log
    → m ≡ (0, dummy) ∷ number_from start log
    → insert k v m ≡ (0, dummy) ∷ number_from start (log ++ v ∷ [])
insert_last dummy v k start log m h e f =
    rw (e, f)
      (insert_behind_dummy dummy v (start + length log) (number_from start log) (omega arith)
        ∙ ap (λ t. (0, dummy) ∷ t) (insert_next start v log))

module _ {b : BufferApi} (a : EntryApi b) where
  -- A new store stands for the empty log, whose first index is 1.
  pub new_log_store-Represents :
      Represents (new_log_store a) (a.new_default 0 (b.alloc 8)) []
      × (next_slot (new_log_store a) ≡ 1)
  unfolding new_log_store
  new_log_store-Represents =
      let r : Represents (new_log_store a) (a.new_default 0 (b.alloc 8)) [] = record {
        logs = refl;
        start_pos = omega arith;
        bound = omega arith;
      } in
      (r, next_slot_lem _ _ [] r)

  module _ (s : InmemLogStore a.LogEntry) (dummy : a.LogEntry) (log : List a.LogEntry)
      (r : Represents s dummy log) (cur_time : ℕ) (entry : a.LogEntry) where
    -- With an index to spare, `append` returns the next slot and puts a clone of the entry at the end
    -- of the log; the first index and the dummy stay.
    pub append-refines :
        s.start_idx + length log + 2 < u64_mod
        → ((append a cur_time entry s).0 ≡ next_slot s)
          × Represents (append a cur_time entry s).1 dummy (log ++ make_clone a entry ∷ [])
          × (next_slot (append a cur_time entry s).1 ≡ next_slot s + 1)
    unfolding append
    append-refines room =
        let idx = next_slot_lem s dummy log r in
        let new_log = log ++ make_clone a entry ∷ [] in
        let count = length-append log (make_clone a entry ∷ []) in
        let r' : Represents (append a cur_time entry s).1 dummy new_log = record {
          logs =
              insert_last dummy (make_clone a entry) _ s.start_idx log s.logs r.start_pos
                (unfold next_slot in idx) r.logs;
          start_pos = r.start_pos;
          bound = omega (arith, count);
        } in
        (
          unfold next_slot in refl,
          r',
          next_slot_lem (append a cur_time entry s).1 dummy new_log r' ∙ omega (arith, count, idx),
        )

    -- Overwriting an index of the log, or its next slot, keeps the entries before the index, drops
    -- those from it on and ends the log with a clone of the new entry, at that index.
    pub write_at-refines :
        (index : ℕ)
        → s.start_idx ≤ index
        → index ≤ next_slot s
        → index + 2 < u64_mod
        → Represents
            (write_at a cur_time index entry s)
            dummy
            (take (index - s.start_idx) log ++ make_clone a entry ∷ [])
          × (next_slot (write_at a cur_time index entry s) ≡ index + 1)
    unfolding write_at
    write_at-refines index h k room =
        let kept = take (index - s.start_idx) log in
        let new_log = kept ++ make_clone a entry ∷ [] in
        let len : length kept ≡ index - s.start_idx =
          length-take (index - s.start_idx) log (omega (arith, next_slot_lem s dummy log r)) in
        let count = length-append kept (make_clone a entry ∷ []) in
        let cut : erase_from index s.logs ≡ (0, dummy) ∷ number_from s.start_idx kept =
          ap (erase_from index) r.logs
          ∙ erase_from_behind_dummy dummy index (number_from s.start_idx log)
              (omega (arith, r.start_pos))
          ∙ ap (λ m. (0, dummy) ∷ m) (erase_from-number_from s.start_idx index log h) in
        let r' : Represents (write_at a cur_time index entry s) dummy new_log = record {
          logs =
              insert_last dummy (make_clone a entry) index s.start_idx kept
                (erase_from index s.logs) r.start_pos (omega (arith, len)) cut;
          start_pos = r.start_pos;
          bound = omega (arith, count, len);
        } in
        (
          r',
          next_slot_lem (write_at a cur_time index entry s) dummy new_log r'
              ∙ omega (arith, count, len),
        )
