-- ===== src/SplClient/Reports.antt =====
-- What the commands of apps/spl_client.cpp that change the store do, and what they report.
use distributed_replicated_c.Prelude.{
  ℕ, ◌≡◌, ◌↔◌, refl, sym, ap, ◌∙◌, pos, eq_ℤ, Bool, true, false, ◌&&◌, Bool-cases, inl, inr, List,
  [], ◌∷◌, ◌++◌, map, length, leb, suc, subst, arith,
}
use distributed_replicated_c.Result.{Result, ok, throws}
use distributed_replicated_c.Exec.{Exec, pure, continue, ◌>>=◌}
use distributed_replicated_c.Text.{codes}
use distributed_replicated_c.Types.{MutationResult, is_success}
use distributed_replicated_c.Operation.Request.{Request, put, update, delete}
use distributed_replicated_c.Client.{RpcApi, Client, ClientState}
use distributed_replicated_c.Client.Answers.{mutate}
use distributed_replicated_c.SplClient.{
  endl, handle_mutation_result, handle_command, run_command, to_lower, put_command, update_command,
  delete_command,
}

-- The words of the command line for a request: the name of the command and what is behind it.
abbrev pub command_of : Request → List ℕ
command_of (put key value) = put_command
command_of (update key value) = update_command
command_of (delete key) = delete_command

abbrev pub words_of : Request → List (List ℕ)
words_of (put key value) = key ∷ value ∷ []
words_of (update key value) = key ∷ value ∷ []
words_of (delete key) = key ∷ []

abbrev pub success_line : List ℕ
success_line = codes "succeeded" ++ endl

and_false : (t : Bool) → (t && false) ≡ false
and_false true = refl
and_false false = refl

three_words : (n : ℕ) → leb 3 (suc (suc (suc n))) ≡ true
three_words n = ground arith

two_words : (n : ℕ) → leb 2 (suc (suc n)) ≡ true
two_words n = ground arith

reported :
    (result : MutationResult)
    → ((handle_mutation_result result).0 ≡ is_success result)
      × (((handle_mutation_result result).0 ≡ true)
          ↔ ((handle_mutation_result result).1 ≡ success_line))
unfolding handle_mutation_result is_success codes
reported result = elim (Bool-cases (eq_ℤ result.raft_rc (pos 0))) [
  | inl raft ↦ elim (Bool-cases (eq_ℤ result.spl_rc (pos 0))) [
    | inl spl ↦ rw (raft, spl) (refl, (λ h. refl, λ h. refl))
    | inr spl ↦ rw (raft, spl) (refl, (λ h. cc, λ h. cc))
  ]
  | inr raft ↦ rw raft (sym (and_false (eq_ℤ result.spl_rc (pos 0))), (λ h. cc, λ h. cc))
]

continue-pure :
    {S A B : Type 0} (f g : A → B)
    → ((a : A) → f a ≡ g a)
    → (r : Result A) (s : S) → continue r (λ a. pure (f a)) s ≡ continue r (λ a. pure (g a)) s
continue-pure f g h (ok a) s = ap (λ b. (ok b, s)) (h a)
continue-pure f g h (throws e) s = refl

module _ {rpc : RpcApi} (cl : Client rpc) where
  command_lem :
      (req : Request) (name : List ℕ) (rest : List (List ℕ))
      → run_command rpc cl (command_of req) (name ∷ words_of req ++ rest)
        ≡ (do res ← mutate cl req; pure (handle_mutation_result res))
  unfolding run_command
  command_lem (put key value) name rest = rw (three_words (length rest)) refl
  command_lem (update key value) name rest = rw (three_words (length rest)) refl
  command_lem (delete key) name rest = rw (two_words (length rest)) refl

  -- A command put, update or delete with its key and its value, whatever the case of its name and
  -- whatever follows, makes this mutation through the client and nothing else, and throws what it
  -- throws. It succeeds exactly if the result is a success, and exactly then it prints the line
  -- "succeeded".
  pub handle_command-mutate :
      (req : Request) (name : List ℕ) (rest : List (List ℕ)) (s : ClientState rpc)
      → map to_lower name ≡ command_of req
      → (printed : MutationResult → List ℕ) × (handle_command rpc cl (name ∷ words_of req ++ rest) s
          ≡ (do res ← mutate cl req; pure (is_success res, printed res)) s)
        × ((res : MutationResult) → (is_success res ≡ true) ↔ (printed res ≡ success_line))
  unfolding handle_command
  handle_command-mutate req name rest s named =
      let at = λ (m : Exec (ClientState rpc) (Bool × List ℕ)). m s in
      let printed = λ (res : MutationResult). (handle_mutation_result res).1 in
      (
        printed,
        ap (λ cmd. run_command rpc cl cmd (name ∷ words_of req ++ rest) s) named
            ∙ ap at (command_lem req name rest)
            ∙ continue-pure handle_mutation_result (λ res. (is_success res, printed res))
                (λ res. ap (λ flag. (flag, printed res)) (reported res).0) (mutate cl req s).0
                (mutate cl req s).1,
        λ res.
            subst (λ flag. (flag ≡ true) ↔ (printed res ≡ success_line)) (reported res).0
              (reported res).1,
      )
