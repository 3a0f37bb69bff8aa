-- ===== src/Tests/SplinterLogs.antt =====
-- The log store on SplinterDB at concrete inputs.
use distributed_replicated_c.Prelude.{
  ℕ, ◌≡◌, refl, ltb, leb, ◌==◌, ltb-true, true, ◌&&◌, if◌then◌else◌, none, some, List, [], ◌∷◌,
  length, arith,
}
use distributed_replicated_c.Result.{ok, throws, runtime_error}
use distributed_replicated_c.SplinterLogStore.{
  LogApi, LogLaws, SplinterLogStore, next_slot, start_index, compact, write_at, entry_at,
  last_entry, term_at,
}
use distributed_replicated_c.SplinterLogStore.Compact.{stored, compact-stored}
use distributed_replicated_c.SplinterLogStore.Writes.{write_at-stored}
use distributed_replicated_c.SplinterLogStore.Reads.{read_back, reads-read_back}
use distributed_replicated_c.SplinterLogStore.Pack.{apply_pack}
use distributed_replicated_c.SplinterLogStore.Packed.{overlaid, apply_pack-stored}
use distributed_replicated_c.Bytes.{le_bytes}
use distributed_replicated_c.Tests.Buffers.{list_buffer_laws, to_word}
use distributed_replicated_c.Tests.Databases.{map_db, map_db_laws}
use distributed_replicated_c.Tests.Logs.{list_entry_laws, list_entries, entry, read_entry}

abbrev api : LogApi map_db list_entries
api = record {
  deserialize_at = λ c. if ltb (length c.1) 9 then none else read_entry c.1;
  bytes_of = λ buf. buf;
  null_entry = entry 0 [];
  log_config = λ name disk cache. tt;
}

log_laws : LogLaws list_buffer_laws api
unfolding list_buffer_laws
log_laws = record { deserialize_at_short = λ c h. rw (ltb-true _ _ h); bytes_of_lem = λ buf. refl }

-- The indices from 1 to 3, with a byte under every key of the database.
abbrev log : SplinterLogStore map_db
log = record { spl = λ k. some (5 ∷ []); start_idx = 1; last_idx = 3 }

compact-stored_example :
    let (r, st') = compact 1000 2 log in
    (r ≡ ok true)
    × (stored map_db_laws st' 2 ≡ (if leb 1 2 && leb 2 2 then none else stored map_db_laws log 2))
    × (st'.start_idx ≡ 3)
    × (st'.last_idx ≡ 3)
compact-stored_example =
    compact-stored map_db_laws (λ d k. refl) 1000 2 2 log (omega arith) (omega arith) (omega arith)
      (omega arith)

write_at-stored_example :
    let (r, st') = write_at api 1000 2 (entry 7 (8 ∷ [])) log in
    (r ≡ ok tt)
    × (stored map_db_laws st' 1 ≡ (
        if 1 == 1
        then some (7 ∷ 1 ∷ 8 ∷ [])
        else if leb 2 1 && leb 1 3
        then none
        else stored map_db_laws log 1))
    × (st'.last_idx ≡ 2)
    × (st'.start_idx ≡ 1)
write_at-stored_example =
    write_at-stored map_db_laws api (λ d k. refl) 1000 2 (entry 7 (8 ∷ [])) 1 log (omega arith)
      (omega arith) (omega arith) (omega arith) refl (omega arith)

reads-read_back_example :
    (entry_at api 2 log ≡ read_back none (stored map_db_laws log 2))
    × (last_entry api log ≡ read_back (entry 0 []) (stored map_db_laws log 3))
    × (term_at api 2 log ≡ (
        if leb (next_slot log) 2
        then throws (runtime_error "Log index out of range")
        else if ltb 2 (start_index log)
        then ok 0
        else read_back 0 (stored map_db_laws log 2)))
reads-read_back_example = reads-read_back map_db_laws list_buffer_laws api log_laws 2 log

-- A pack of one entry of two bytes.
abbrev one_packed : List ℕ
one_packed = 1 ∷ 0 ∷ 0 ∷ 0 ∷ 2 ∷ 0 ∷ 0 ∷ 0 ∷ 8 ∷ 9 ∷ []

apply_pack-stored_example :
    let (r, st') = apply_pack api 6 one_packed log in
    (r ≡ ok tt)
    × (stored map_db_laws st' 6 ≡ overlaid 6 ((8 ∷ 9 ∷ []) ∷ []) 6 (stored map_db_laws log 6))
    × (st'.start_idx ≡ 1)
    × (next_slot st' ≡ next_slot log)
unfolding list_buffer_laws to_word le_bytes
apply_pack-stored_example =
    apply_pack-stored map_db_laws list_entry_laws api log_laws (λ d k v. refl) ((8 ∷ 9 ∷ []) ∷ []) 6
      6 one_packed log (omega arith) (omega arith) ((omega arith, omega arith), tt) refl
      (omega arith) (omega arith)
