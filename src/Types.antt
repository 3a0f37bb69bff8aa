-- ===== src/Types.antt =====
-- include/common/types.h and src/common/types.cpp: what the RPCs return.
use distributed_replicated_c.Prelude.{ℕ, ℤ, pos, eq_ℤ, Bool, ◌&&◌, List, String}

-- rpc_read_result: the value and the return code of SplinterDB.
pub record ReadResult : Type 0 where
  pub value : List ℕ
  pub spl_rc : ℤ

-- rpc_mutation_result: the return codes of SplinterDB and of Raft, and Raft's message.
pub record MutationResult : Type 0 where
  pub spl_rc : ℤ
  pub raft_rc : ℤ
  pub msg : String

unfoldable pub is_success : MutationResult → Bool
is_success result = eq_ℤ result.spl_rc (pos 0) && eq_ℤ result.raft_rc (pos 0)

abbrev pub get_nuraft_return_code : MutationResult → ℤ
get_nuraft_return_code result = result.raft_rc

unfoldable pub was_accepted : MutationResult → Bool
was_accepted result = eq_ℤ (get_nuraft_return_code result) (pos 0)
