-- ===== src/SplClient.antt =====
-- apps/spl_client.cpp: the commands of the command-line client. A string is the list of its
-- characters' codes; the second part of a result is what the command printed on std::cout, without
-- the warnings of client.cpp.
pub mod Tokens
pub mod Main
pub mod ExitCode
pub mod Reports
use distributed_replicated_c.Prelude.{
  ℕ, zero, suc, ◌+◌, ℤ, pos, eq_ℤ, leb, ◌==◌, Bool, true, false, not, ◌&&◌, String, if◌then◌else◌,
  List, [], ◌∷◌, ◌++◌, map, length,
}
use distributed_replicated_c.Exec.{Exec, pure, ◌>>=◌}
use distributed_replicated_c.Text.{codes, to_string}
use distributed_replicated_c.Types.{MutationResult, ReadResult}
use distributed_replicated_c.Client.{
  RpcApi, Client, ClientState, put, update, del, get, all_servers, find_leader_id,
  trigger_cache_dumps, trigger_cache_clear, with_world,
}

-- tokens.push_back, unless begin == str
unfoldable pub push_token : List ℕ → List (List ℕ) → List (List ℕ)
push_token [] tokens = tokens
push_token (x ∷ token) tokens = (x ∷ token) ∷ tokens

-- The two loops of `tokenize` as one, with the characters since `begin`.
unfoldable pub tokenize_from : ℕ → List ℕ → List ℕ → List (List ℕ)
unfolding push_token
tokenize_from c token [] = push_token token []
tokenize_from c token (x ∷ str) =
    let ended = push_token token (tokenize_from c [] str) in
    let longer = tokenize_from c (token ++ x ∷ []) str in if x == c then ended else longer

unfoldable pub tokenize : List ℕ → ℕ → List (List ℕ)
unfolding tokenize_from
tokenize str c = tokenize_from c [] str

-- std::endl
abbrev pub endl : List ℕ
endl = 10 ∷ []

unfoldable pub handle_mutation_result : MutationResult → Bool × List ℕ
handle_mutation_result result =
    if eq_ℤ result.raft_rc (pos 0) && eq_ℤ result.spl_rc (pos 0)
    then (true, codes "succeeded" ++ endl)
    else if not (eq_ℤ result.raft_rc (pos 0))
    then (
      false,
      codes "append log failed, rc="
          ++ codes (to_string result.raft_rc)
          ++ codes ": "
          ++ codes result.msg
          ++ endl,
    )
    else if not (eq_ℤ result.spl_rc (pos 0))
    then (false, codes "put failed, rc=" ++ codes (to_string result.spl_rc) ++ endl)
    else (false, [])

unfoldable pub handle_read_result : ReadResult → Bool × List ℕ
handle_read_result result =
    if eq_ℤ result.spl_rc (pos 0)
    then (true, codes "value: " ++ result.value ++ endl)
    else (false, codes "get failed, rc=" ++ codes (to_string result.spl_rc) ++ endl)

-- The loop over the servers of the command ls.
unfoldable pub print_servers : ℤ → List (ℤ × String) → List ℕ
print_servers leader_id [] = []
print_servers leader_id ((srv_id, endpoint) ∷ srvs) =
    let extra = if eq_ℤ srv_id leader_id then codes " (LEADER)" else [] in
    codes (to_string srv_id)
    ++ codes " : "
    ++ codes endpoint
    ++ extra
    ++ endl
    ++ print_servers leader_id srvs

unfoldable pub help_text : List ℕ
help_text =
    codes "Commands:"
    ++ endl
    ++ codes "  put <key> <value>"
    ++ endl
    ++ codes "  update <key> <value>"
    ++ endl
    ++ codes "  delete <key>"
    ++ endl
    ++ codes "  get <key>"
    ++ endl
    ++ codes "  ls"
    ++ endl
    ++ codes "  dumpcache"
    ++ endl
    ++ codes "  help"
    ++ endl
    ++ codes "  exit (interactive mode only)"
    ++ endl

-- std::tolower in the C locale
unfoldable pub to_lower : ℕ → ℕ
to_lower c = if leb 65 c && leb c 90 then c + 32 else c

abbrev pub eq_string : List ℕ → List ℕ → Bool
eq_string [] [] = true
eq_string (x ∷ xs) (y ∷ ys) = (x == y) && eq_string xs ys
eq_string _ _ = false

-- The names of the commands.
abbrev put_command : List ℕ
put_command = 112 ∷ 117 ∷ 116 ∷ []

abbrev update_command : List ℕ
update_command = 117 ∷ 112 ∷ 100 ∷ 97 ∷ 116 ∷ 101 ∷ []

abbrev delete_command : List ℕ
delete_command = 100 ∷ 101 ∷ 108 ∷ 101 ∷ 116 ∷ 101 ∷ []

abbrev get_command : List ℕ
get_command = 103 ∷ 101 ∷ 116 ∷ []

abbrev ls_command : List ℕ
ls_command = 108 ∷ 115 ∷ []

abbrev dumpcache_command : List ℕ
dumpcache_command = 100 ∷ 117 ∷ 109 ∷ 112 ∷ 99 ∷ 97 ∷ 99 ∷ 104 ∷ 101 ∷ []

abbrev clearcache_command : List ℕ
clearcache_command = 99 ∷ 108 ∷ 101 ∷ 97 ∷ 114 ∷ 99 ∷ 97 ∷ 99 ∷ 104 ∷ 101 ∷ []

abbrev help_command : List ℕ
help_command = 104 ∷ 101 ∷ 108 ∷ 112 ∷ []

-- tokens[i], where the size was tested before.
abbrev token_at : ℕ → List (List ℕ) → List ℕ
token_at i [] = []
token_at zero (token ∷ tokens) = token
token_at (suc i) (token ∷ tokens) = token_at i tokens

module _ (rpc : RpcApi) (cl : Client rpc) where
  -- The if chain of handle_command, with the name in lower case.
  unfoldable pub run_command : List ℕ → List (List ℕ) → Exec (ClientState rpc) (Bool × List ℕ)
  unfolding handle_mutation_result handle_read_result print_servers help_text
  run_command cmd tokens =
      let size = length tokens in
      if eq_string cmd put_command && leb 3 size
      then (do
        res ← put rpc cl (token_at 1 tokens) (token_at 2 tokens)
        pure (handle_mutation_result res))
      else if eq_string cmd update_command && leb 3 size
      then (do
        res ← update rpc cl (token_at 1 tokens) (token_at 2 tokens)
        pure (handle_mutation_result res))
      else if eq_string cmd delete_command && leb 2 size
      then (do res ← del rpc cl (token_at 1 tokens); pure (handle_mutation_result res))
      else if eq_string cmd get_command && leb 2 size
      then (do res ← get rpc cl (token_at 1 tokens); pure (handle_read_result res))
      else if eq_string cmd ls_command
      then (do
        srvs ← with_world rpc cl (all_servers rpc cl)
        leader_id ← with_world rpc cl (find_leader_id rpc cl)
        pure (
          true,
          codes "server id : client-facing endpoint" ++ endl ++ print_servers leader_id srvs,
        ))
      else if eq_string cmd dumpcache_command
      then (do u ← with_world rpc cl (trigger_cache_dumps rpc cl); pure (true, []))
      else if eq_string cmd clearcache_command
      then (do u ← with_world rpc cl (trigger_cache_clear rpc cl); pure (true, []))
      else if eq_string cmd help_command
      then pure (true, help_text)
      else pure (false, codes "ERROR: unrecognized command" ++ endl)

  unfoldable pub handle_command : List (List ℕ) → Exec (ClientState rpc) (Bool × List ℕ)
  unfolding run_command to_lower
  handle_command [] = pure (false, [])
  handle_command (name ∷ tokens) = run_command (map to_lower name) (name ∷ tokens)
