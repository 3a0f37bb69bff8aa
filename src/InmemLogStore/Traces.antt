-- ===== src/InmemLogStore/Traces.antt =====
-- Sequences of calls of the log store, each of which holds its lock, against the list that the store
-- stands for. A transfer to an empty store, `apply_pack`, is in InmemLogStore/Transfer.
use distributed_replicated_c.Prelude.{
  ℕ, ◌+◌, ◌-◌, ◌<◌, ◌≤◌, ◌≡◌, refl, ap, sym, ◌∙◌, subst, leb, if◌then◌else◌, List, [], ◌∷◌, ◌++◌,
  length, take, drop, Option, none, some, u64_mod, arith,
}
use distributed_replicated_c.Nuraft.Buffer.{BufferApi}
use distributed_replicated_c.Nuraft.LogEntry.{EntryApi}
use mathlib.Core.Option
use distributed_replicated_c.OrdMap.{number_from}
use distributed_replicated_c.InmemLogStore.{
  InmemLogStore, append, write_at, compact, flush, set_disk_delay, next_slot, make_clone,
}
use distributed_replicated_c.InmemLogStore.Pack.{disk_emul_round}
use distributed_replicated_c.InmemLogStore.View.{Represents, next_slot_lem}
use distributed_replicated_c.InmemLogStore.Write.{append-refines, write_at-refines}
use distributed_replicated_c.InmemLogStore.Compact.{compact-refines}

-- The calls that Raft makes as it writes its log, with what the clock shows where they read it, and
-- `wakes`, a round of the thread that emulates a disk. `apply_pack` is not among them.
pub data Call (LogEntry : Type 0) : Type 0 where
  appends : (cur_time : ℕ) → LogEntry → Call LogEntry
  writes_at : (cur_time index : ℕ) → LogEntry → Call LogEntry
  compacts : (last_log_index : ℕ) → Call LogEntry
  flushes : Call LogEntry
  delays : (delay_ms : ℕ) → Call LogEntry
  wakes : (cur_time : ℕ) → Call LogEntry

-- The specification: a list of entries whose first has the index `start`.
pub record Log (LogEntry : Type 0) : Type 0 where
  pub start : ℕ
  pub entries : List LogEntry

-- The first index behind those that are compacted.
abbrev pub compacted_start : ℕ → ℕ → ℕ
compacted_start start last_log_index =
    if leb start last_log_index then last_log_index + 1 else start

-- What Raft keeps to: an index to spare for a new entry, and it overwrites an index of the log or the
-- next slot.
abbrev pub IsAllowed : {LogEntry : Type 0} → Call LogEntry → Log LogEntry → Type 0
IsAllowed (appends cur_time entry) l = l.start + length l.entries + 2 < u64_mod
IsAllowed (writes_at cur_time index entry) l =
    (l.start ≤ index) × (index ≤ l.start + length l.entries) × (index + 2 < u64_mod)
IsAllowed (compacts last_log_index) l = last_log_index + 2 < u64_mod
IsAllowed _ l = Unit {0}

module _ {b : BufferApi} (a : EntryApi b) where
  open a use {LogEntry}

  abbrev pub logged : Call LogEntry → Log LogEntry → Log LogEntry
  logged (appends cur_time entry) l = record l { entries = l.entries ++ make_clone a entry ∷ [] }
  logged (writes_at cur_time index entry) l = record l {
    entries = take (index - l.start) l.entries ++ make_clone a entry ∷ [];
  }
  logged (compacts last_log_index) l = record {
    start = compacted_start l.start last_log_index;
    entries = drop (last_log_index + 1 - l.start) l.entries;
  }
  logged _ l = l

  abbrev pub logged_all : List (Call LogEntry) → Log LogEntry → Log LogEntry
  logged_all [] l = l
  logged_all (c ∷ calls) l = logged_all calls (logged c l)

  abbrev pub AreAllowed : List (Call LogEntry) → Log LogEntry → Type 0
  AreAllowed [] l = Unit {0}
  AreAllowed (c ∷ calls) l = IsAllowed c l × AreAllowed calls (logged c l)

  -- The call itself. `none` is a call that does not return; the fuel of `compact` is one round more
  -- than there are indices.
  unfoldable pub perform : Call LogEntry → InmemLogStore LogEntry → Option (InmemLogStore LogEntry)
  perform (appends cur_time entry) s = some (append a cur_time entry s).1
  perform (writes_at cur_time index entry) s = some (write_at a cur_time index entry s)
  perform (compacts last_log_index) s =
      Option.map (λ r. r.1) (compact (last_log_index + 2) last_log_index s)
  perform flushes s = some (flush s).1
  perform (delays delay_ms) s = some (set_disk_delay delay_ms s)
  perform (wakes cur_time) s = some (disk_emul_round cur_time s).1

  unfoldable pub perform_all :
      List (Call LogEntry) → InmemLogStore LogEntry → Option (InmemLogStore LogEntry)
  perform_all [] s = some s
  perform_all (c ∷ calls) s = elim (perform c s) [ none ↦ none | some s' ↦ perform_all calls s' ]

  -- The store stands for the log.
  pub record StandsFor (s : InmemLogStore LogEntry) (dummy : LogEntry) (l : Log LogEntry)
      : Type 0 where
    pub represents : Represents s dummy l.entries
    pub start : s.start_idx ≡ l.start

  append-start_idx :
      (cur_time : ℕ) (entry : LogEntry) (s : InmemLogStore LogEntry)
      → (append a cur_time entry s).1.start_idx ≡ s.start_idx
  unfolding append
  append-start_idx cur_time entry s = refl

  write_at-start_idx :
      (cur_time index : ℕ) (entry : LogEntry) (s : InmemLogStore LogEntry)
      → (write_at a cur_time index entry s).start_idx ≡ s.start_idx
  unfolding write_at
  write_at-start_idx cur_time index entry s = refl

  -- The calls that leave the log alone.
  same-StandsFor :
      (s s' : InmemLogStore LogEntry) (dummy : LogEntry) (l : Log LogEntry)
      → s'.logs ≡ s.logs
      → s'.start_idx ≡ s.start_idx
      → StandsFor s dummy l
      → StandsFor s' dummy l
  same-StandsFor s s' dummy l logs start h =
      let r = h.represents in
      record {
        represents = record {
          logs = logs ∙ r.logs ∙ ap (λ t. (0, dummy) ∷ number_from t l.entries) (sym start);
          start_pos = omega (arith, r.start_pos, start);
          bound = omega (arith, r.bound, start);
        };
        start = start ∙ h.start;
      }

  perform-StandsFor :
      (c : Call LogEntry) (s : InmemLogStore LogEntry) (dummy : LogEntry) (l : Log LogEntry)
      → IsAllowed c l
      → StandsFor s dummy l
      → (s' : InmemLogStore LogEntry) × (perform c s ≡ some s') × StandsFor s' dummy (logged c l)
  unfolding perform flush set_disk_delay disk_emul_round
  perform-StandsFor (appends cur_time entry) s dummy l room h =
      let (_, r, _) =
        append-refines a s dummy l.entries h.represents cur_time entry
          (omega (arith, h.start, room)) in
      (
        (append a cur_time entry s).1,
        refl,
        record { represents = r; start = append-start_idx cur_time entry s ∙ h.start },
      )
  perform-StandsFor (writes_at cur_time index entry) s dummy l (low, high, room) h =
      let next = next_slot_lem s dummy l.entries h.represents in
      let (r, _) =
        write_at-refines a s dummy l.entries h.represents cur_time entry index
          (omega (arith, h.start, low)) (omega (arith, h.start, high, next)) room in
      (
        write_at a cur_time index entry s,
        refl,
        record {
          represents =
              subst
                (λ n.
                  Represents (write_at a cur_time index entry s) dummy
                    (take (index - n) l.entries ++ make_clone a entry ∷ []))
                h.start r;
          start = write_at-start_idx cur_time index entry s ∙ h.start;
        },
      )
  perform-StandsFor (compacts last) s dummy l room h =
      let (s', run, r, start) =
        compact-refines s dummy l.entries h.represents (last + 2) last room
          (omega (arith, h.start)) in
      (
        s',
        ap (Option.map (λ t. t.1)) run,
        record {
          represents = subst (λ n. Represents s' dummy (drop (last + 1 - n) l.entries)) h.start r;
          start = start ∙ ap (λ n. compacted_start n last) h.start;
        },
      )
  perform-StandsFor flushes s dummy l _ h =
      ((flush s).1, refl, same-StandsFor s (flush s).1 dummy l refl refl h)
  perform-StandsFor (delays delay_ms) s dummy l _ h = (
    set_disk_delay delay_ms s,
    refl,
    same-StandsFor s (set_disk_delay delay_ms s) dummy l refl refl h,
  )
  perform-StandsFor (wakes cur_time) s dummy l _ h = (
    (disk_emul_round cur_time s).1,
    refl,
    same-StandsFor s (disk_emul_round cur_time s).1 dummy l refl refl h,
  )

  -- Any sequence of these calls (append, write_at, compact, flush, set_disk_delay, a round of the
  -- disk's thread) that Raft may make returns, and leaves a store that stands for the log that
  -- the specification makes of them: the appends and overwrites put clones of their entries at the
  -- end, the compactions take entries off the front, and the disk's delay has no part in it. Raft may
  -- append while there is an index to spare, overwrite an index of the log or the next slot, and
  -- compact up to an index below 2^64 - 2.
  pub perform_all-StandsFor :
      (calls : List (Call LogEntry)) (s : InmemLogStore LogEntry) (dummy : LogEntry)
      (l : Log LogEntry)
      → AreAllowed calls l
      → StandsFor s dummy l
      → (s' : InmemLogStore LogEntry) × (perform_all calls s ≡ some s')
        × StandsFor s' dummy (logged_all calls l)
        × (next_slot s' ≡ (logged_all calls l).start + length (logged_all calls l).entries)
  unfolding perform_all
  perform_all-StandsFor [] s dummy l allowed h = (
    s,
    refl,
    h,
    next_slot_lem s dummy l.entries h.represents ∙ ap (λ n. n + length l.entries) h.start,
  )
  perform_all-StandsFor (c ∷ calls) s dummy l (allowed, more) h =
      let (s1, run, h1) = perform-StandsFor c s dummy l allowed h in
      let (s', rest, final, next) = perform_all-StandsFor calls s1 dummy (logged c l) more h1 in
      (s', rw (run, perform_all) rest, final, next)
