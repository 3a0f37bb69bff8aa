-- ===== src/SplClient/Main.antt =====
-- main of apps/spl_client.cpp. What is printed on std::cerr is left out.
use text.Mathlib.Text.{◌==◌ as ◌==ˢ◌}
use distributed_replicated_c.Prelude.{
  ℕ, ℤ, pos, negsuc, leb, ◌==◌, Bool, ◌&&◌, if◌then◌else◌, Option, none, some, List, [], ◌∷◌, ◌++◌,
  length, String,
}
use distributed_replicated_c.Result.{ok, undefined, Start, ready, exits, ◌>>=◌ as ◌>>=ʳ◌}
use distributed_replicated_c.Exec.{Exec, pure, raise, lift, ◌>>=◌}
use distributed_replicated_c.Text.{codes, split_at, stoi}
use distributed_replicated_c.Client.{RpcApi, Client, ClientState}
use distributed_replicated_c.Client.Connect.{ConnectApi, Connected, start_state, new_client}
use distributed_replicated_c.SplClient.{tokenize, eq_string, handle_command}

-- The flags -endpoint and -e.
pub record ClientFlags : Type 0 where
  pub endpoint : String
  pub e : String

abbrev exit_command : List ℕ
exit_command = 101 ∷ 120 ∷ 105 ∷ 116 ∷ []

-- The text of a char array ends at its first 0.
unfoldable pub c_string : List ℕ → List ℕ
c_string [] = []
c_string (x ∷ cmd) = let rest = c_string cmd in if x == 0 then [] else x ∷ rest

-- port < 1024 || port > 65535, and the cast to uint16_t.
unfoldable pub client_port : ℤ → Option ℕ
client_port (pos port) = if leb 1024 port && leb port 65535 then some port else none
client_port (negsuc n) = none

abbrev pub exit_code : Bool → ℕ
exit_code succeeded = if succeeded then 0 else 1

-- The prompt, between the codes for green text and for the end of it.
unfoldable pub prompt : List ℕ
prompt =
    let green = 27 ∷ codes "[32m" in
    let end = 27 ∷ codes "[0m" in green ++ codes "spl-client> " ++ end

-- What was printed before, and the rest of a run.
abbrev pub print {ℓ} :
    {S : Type ℓ} {A : Type ℓ} → List ℕ → Exec S (A × List ℕ) → Exec S (A × List ℕ)
print text m = do r ← m; pure (r.0, text ++ r.1)

module _ {rpc : RpcApi} (cl : Client rpc) where
  -- A round of the loop, with the tokens of the line and what the rounds after it do.
  unfoldable pub run_tokens :
      ℕ
      → List (List ℕ)
      → (ℕ → Exec (ClientState rpc) (ℕ × List ℕ))
      → Exec (ClientState rpc) (ℕ × List ℕ)
  run_tokens rc [] next = raise undefined
  run_tokens rc (name ∷ tokens) next = if eq_string name exit_command then pure (rc, []) else (do
    handled ← handle_command rpc cl (name ∷ tokens)
    print handled.1 (next (exit_code handled.0)))

  -- The loop over the lines of the input, with the exit code so far. getline fails at the end of the
  -- input and on a line of 1000 characters or more.
  unfoldable pub run_lines : ℕ → List (List ℕ) → Exec (ClientState rpc) (ℕ × List ℕ)
  unfolding prompt
  run_lines rc [] = pure (rc, prompt)
  run_lines rc (cmd ∷ lines) =
      let rest = λ (code : ℕ). run_lines code lines in
      print prompt (
        if leb 1000 (length cmd)
        then pure (rc, [])
        else run_tokens rc (tokenize (c_string cmd) 32) rest)

  -- The end of main: the command of -e, or the loop.
  unfoldable pub run_client : ClientFlags → List (List ℕ) → Exec (ClientState rpc) (ℕ × List ℕ)
  run_client flags lines = if flags.e ==ˢ "" then run_lines 0 lines else (do
    handled ← handle_command rpc cl (tokenize (codes flags.e) 32)
    pure (exit_code handled.0, handled.1))

module _ {rpc : RpcApi} (api : ConnectApi rpc) where
  open rpc use {World}

  unfoldable pub with_client :
      ClientFlags → List (List ℕ) → Start (Connected rpc) → Exec World (Start (ℕ × List ℕ))
  with_client flags lines exits w = (ok exits, w)
  with_client flags lines (ready made) w =
      let (result, s) = run_client made.client flags lines (start_state made w) in
      (result >>=ʳ λ r. ok (ready r), s.world)

  unfoldable pub connect_and_run :
      ClientFlags → List (List ℕ) → String → Option ℕ → Exec World (Start (ℕ × List ℕ))
  connect_and_run flags lines host none = pure (ready (1, []))
  connect_and_run flags lines host (some port) = do
    made ← new_client api host port 10000 3
    with_client flags lines made

  -- What main returns and prints; `lines` is the input.
  unfoldable pub main : ClientFlags → List (List ℕ) → Exec World (Start (ℕ × List ℕ))
  main flags lines =
      if flags.endpoint ==ˢ "" then pure (ready (1, [])) else elim (split_at 58 flags.endpoint) [
        | none ↦ pure (ready (1, []))
        | some (host, port_text) ↦ do
          port ← lift (stoi port_text)
          connect_and_run flags lines host (client_port port)
      ]
