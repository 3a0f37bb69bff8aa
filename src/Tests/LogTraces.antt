-- ===== src/Tests/LogTraces.antt =====
-- A sequence of calls of the log store at concrete inputs.
use distributed_replicated_c.Prelude.{◌+◌, ◌≡◌, refl, [], ◌∷◌, List, length, some, arith}
use distributed_replicated_c.InmemLogStore.{InmemLogStore, next_slot, make_clone}
use distributed_replicated_c.InmemLogStore.Traces.{
  Call, appends, writes_at, compacts, flushes, delays, wakes, Log, StandsFor, logged_all,
  perform_all, perform_all-StandsFor,
}
use distributed_replicated_c.Tests.Logs.{
  ListEntry, list_entries, entry, store, dummy, three, store-Represents,
}

-- An append, an overwrite of the entry before it, and a compaction, with the disk at work.
abbrev calls : List (Call ListEntry)
calls =
    delays 10
    ∷ appends 100 (entry 3 (1 ∷ []))
    ∷ writes_at 200 6 (entry 4 (2 ∷ []))
    ∷ wakes 10300
    ∷ compacts 4
    ∷ flushes
    ∷ []

abbrev before : Log ListEntry
before = record { start = 4; entries = three }

perform_all-StandsFor_example :
    (s' : InmemLogStore ListEntry) × (perform_all list_entries calls store ≡ some s')
    × StandsFor list_entries s' dummy (logged_all list_entries calls before)
    × (next_slot s'
        ≡ (logged_all list_entries calls before).start
          + length (logged_all list_entries calls before).entries)
perform_all-StandsFor_example =
    perform_all-StandsFor list_entries calls store dummy before (omega arith)
      (record { represents = store-Represents; start = refl })

logged_after :
    logged_all list_entries calls before
    ≡ record { start = 5; entries = entry 1 (9 ∷ []) ∷ entry 4 (2 ∷ []) ∷ [] }
unfolding make_clone
logged_after = refl
