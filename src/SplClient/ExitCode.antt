-- ===== src/SplClient/ExitCode.antt =====
-- What the exit code of apps/spl_client.cpp says.
use text.Mathlib.Text.{◌==◌ as ◌==ˢ◌}
use distributed_replicated_c.Prelude.{
  ℕ, ◌≤◌, ◌≡◌, ◌≢◌, refl, sym, ap, ◌∙◌, ℤ, pos, negsuc, leb, Bool, true, false, ◌&&◌, Bool-cases,
  inl, inr, if◌then◌else◌, Option, none, some, List, [], String, arith,
}
use distributed_replicated_c.Result.{
  ok-injective, Result, ok, throws, undefined, Start, ready, exits, ◌>>=◌ as ◌>>=ʳ◌,
}
use distributed_replicated_c.Result
use distributed_replicated_c.Exec.{Exec, pure, lift, ◌>>=◌, >>=-eq-ok}
use distributed_replicated_c.Text.{codes, split_at, stoi}
use distributed_replicated_c.Client.{RpcApi, Client, ClientState}
use distributed_replicated_c.Client.Connect.{ConnectApi, Connected, start_state, new_client}
use distributed_replicated_c.SplClient.{tokenize, handle_command}
use distributed_replicated_c.SplClient.Main.{
  ClientFlags, client_port, exit_code, run_client, with_client, connect_and_run, main,
}

module _ {rpc : RpcApi} (api : ConnectApi rpc) where
  open rpc use {World}

  -- The command of -e was run on a client of the server at the endpoint, succeeded, and printed all
  -- that was printed.
  pub record HasSucceeded (flags : ClientFlags) (printed : List ℕ) (w : World) : Type 0 where
    pub host : String
    pub port_text : String
    pub endpoint : split_at 58 flags.endpoint ≡ some (host, port_text)
    pub port : ℕ
    pub number : stoi port_text ≡ ok (pos port)
    pub low : 1024 ≤ port
    pub high : port ≤ 65535
    pub made : Connected rpc
    pub connected : World
    pub constructed : new_client api host port 10000 3 w ≡ (ok (ready made), connected)
    pub succeeded :
        (handle_command rpc made.client
          (tokenize (codes flags.e) 32)
          (start_state made connected)).0
        ≡ ok (true, printed)

  ready_value :
      {x y : ℕ × List ℕ}
      → ◌≡◌ {A = Result (Start (ℕ × List ℕ))} (ok (ready x)) (ok (ready y))
      → x ≡ y
  ready_value h = cc

  one_not_zero :
      {before after : List ℕ}
      → ◌≢◌ {A = Result (Start (ℕ × List ℕ))} (ok (ready (1, before))) (ok (ready (0, after)))
  one_not_zero h = let k : ◌≡◌ {A = ℕ} 1 0 = ap (λ t. t.0) (ready_value h) in absurd (omega arith)

  by_code :
      (handled : Bool × List ℕ) (printed : List ℕ)
      → ◌≡◌ {A = Result (ℕ × List ℕ)} (ok (exit_code handled.0, handled.1)) (ok (0, printed))
      → handled ≡ (true, printed)
  by_code (true, text) printed e = ap (λ t. (true, t)) (ap (λ t. t.1) (ok-injective e))
  by_code (false, text) printed e =
      let k : ◌≡◌ {A = ℕ} 1 0 = ap (λ t. t.0) (ok-injective e) in absurd (omega arith)

  run_command :
      (cl : Client rpc) (flags : ClientFlags) (lines : List (List ℕ)) (s : ClientState rpc)
      → (flags.e ==ˢ "") ≡ false
      → run_client cl flags lines s
        ≡ (handle_command rpc cl (tokenize (codes flags.e) 32) >>= λ handled.
              pure (exit_code handled.0, handled.1))
            s
  unfolding run_client
  run_command cl flags lines s given = rw given refl

  run_client-0 :
      (cl : Client rpc) (flags : ClientFlags) (lines : List (List ℕ)) (printed : List ℕ)
      (s s' : ClientState rpc)
      → (flags.e ==ˢ "") ≡ false
      → run_client cl flags lines s ≡ (ok (0, printed), s')
      → (handle_command rpc cl (tokenize (codes flags.e) 32) s).0 ≡ ok (true, printed)
  run_client-0 cl flags lines printed s s' given h =
      let command = handle_command rpc cl (tokenize (codes flags.e) 32) in
      let (handled, s1, e1, k1) =
        >>=-eq-ok command (λ handled. pure (exit_code handled.0, handled.1)) s
          (sym (run_command cl flags lines s given) ∙ h) in
      ap (λ t. t.0) e1 ∙ ap ok (by_code handled printed (ap (λ t. t.0) k1))

  client_port-some :
      (z : ℤ) (port : ℕ)
      → client_port z ≡ some port
      → (z ≡ pos port) × (1024 ≤ port) × (port ≤ 65535)
  unfolding client_port
  client_port-some (pos n) port h = (by_test (leb 1024 n && leb n 65535) refl h)
    where
      by_test :
          (t : Bool)
          → (leb 1024 n && leb n 65535) ≡ t
          → (if t then some n else none) ≡ some port
          → (pos n ≡ pos port) × (1024 ≤ port) × (port ≤ 65535)
      by_test true e k = let same : n ≡ port = cc in (ap pos same, ground arith, ground arith)
      by_test false e k = cc
  client_port-some (negsuc n) port h = cc

  with_client-0 :
      (flags : ClientFlags) (lines : List (List ℕ)) (printed : List ℕ) (host port_text : String)
      (port : ℕ) (start : Start (Connected rpc)) (w w1 w' : World)
      → split_at 58 flags.endpoint ≡ some (host, port_text)
      → stoi port_text ≡ ok (pos port)
      → (1024 ≤ port) × (port ≤ 65535)
      → new_client api host port 10000 3 w ≡ (ok start, w1)
      → with_client api flags lines start w1 ≡ (ok (ready (0, printed)), w')
      → (flags.e ==ˢ "") ≡ false
      → HasSucceeded flags printed w
  unfolding with_client
  with_client-0 flags lines printed host port_text port exits w w1 w' split number range made h
        given =
      let k : ◌≡◌ {A = Result (Start (ℕ × List ℕ))} (ok exits) (ok (ready (0, printed))) =
        ap (λ t. t.0) h in
      cc
  with_client-0 flags lines printed host port_text port (ready c) w w1 w' split number range made h
        given =
      let run = run_client c.client flags lines (start_state c w1) in
      let (code, e, k) = Result.>>=-eq-ok run.0 (λ rc. ok (ready rc)) (ap (λ t. t.0) h) in
      record {
        host = host;
        port_text = port_text;
        endpoint = split;
        port = port;
        number = number;
        low = range.0;
        high = range.1;
        made = c;
        connected = w1;
        constructed = made;
        succeeded =
            run_client-0 c.client flags lines printed (start_state c w1) run.1 given
              (ap (λ r. (r, run.1)) (e ∙ ap ok (ready_value k)));
      }

  connect_and_run-0 :
      (flags : ClientFlags) (lines : List (List ℕ)) (printed : List ℕ) (host port_text : String)
      (z : ℤ) (w w' : World)
      → split_at 58 flags.endpoint ≡ some (host, port_text)
      → stoi port_text ≡ ok z
      → connect_and_run api flags lines host (client_port z) w ≡ (ok (ready (0, printed)), w')
      → (flags.e ==ˢ "") ≡ false
      → HasSucceeded flags printed w
  unfolding connect_and_run
  connect_and_run-0 flags lines printed host port_text z w w' split number h given =
      by_port (client_port z) refl h
    where
      by_port :
          (o : Option ℕ)
          → client_port z ≡ o
          → connect_and_run api flags lines host o w ≡ (ok (ready (0, printed)), w')
          → HasSucceeded flags printed w
      by_port none e k = absurd (one_not_zero (ap (λ t. t.0) k))
      by_port (some port) e k =
          let (same, low, high) = client_port-some z port e in
          let (start, w1, e1, k1) = >>=-eq-ok (new_client api host port 10000 3) _ w k in
          with_client-0 flags lines printed host port_text port start w w1 w' split
            (number ∙ ap ok same) (low, high) e1 k1 given

  -- When the client exits with 0 on a command line with -e, the endpoint had a ':' and behind it a port
  -- from 1024 to 65535, a client was constructed with that host and port, and the command succeeded
  -- on it; and the program printed what the command did, and no more.
  pub main-HasSucceeded :
      (flags : ClientFlags) (lines : List (List ℕ)) (printed : List ℕ) (w w' : World)
      → main api flags lines w ≡ (ok (ready (0, printed)), w')
      → (flags.e ==ˢ "") ≡ false
      → HasSucceeded flags printed w
  unfolding main
  main-HasSucceeded flags lines printed w w' h given = elim (Bool-cases (flags.endpoint ==ˢ "")) [
    | inl e ↦
        let refused : main api flags lines w ≡ (ok (ready (1, [])), w) = rw e refl in
        absurd (one_not_zero (ap (λ t. t.0) (sym refused ∙ h)))
    | inr e ↦ by_split (split_at 58 flags.endpoint) refl (sym (named e) ∙ h)
  ]
    where
      at_endpoint : Option (String × String) → Exec World (Start (ℕ × List ℕ))
      at_endpoint parts = elim parts [
        | none ↦ pure (ready (1, []))
        | some (host, port_text) ↦ do
          port ← lift (stoi port_text)
          connect_and_run api flags lines host (client_port port)
      ]

      named :
          (flags.endpoint ==ˢ "") ≡ false
          → main api flags lines w ≡ at_endpoint (split_at 58 flags.endpoint) w
      named e = rw e refl

      by_split :
          (o : Option (String × String))
          → split_at 58 flags.endpoint ≡ o
          → at_endpoint o w ≡ (ok (ready (0, printed)), w')
          → HasSucceeded flags printed w
      by_split none e k = absurd (one_not_zero (ap (λ t. t.0) k))
      by_split (some (host, port_text)) e k =
          let (z, w1, e1, k1) =
            >>=-eq-ok (lift (stoi port_text))
              (λ port. connect_and_run api flags lines host (client_port port)) w k in
          connect_and_run-0 flags lines printed host port_text z w w' e (ap (λ t. t.0) e1)
            (ap (λ v. connect_and_run api flags lines host (client_port z) v) (ap (λ t. t.1) e1)
              ∙ k1)
            given
