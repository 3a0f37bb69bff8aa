-- ===== src/SplServer/Flags.antt =====
-- The flags of apps/spl_server.cpp, with their defaults and the checks that gflags makes of them.
use distributed_replicated_c.Prelude.{ℕ, ℤ, pos, negsuc, ltb, leb, Bool, false, ◌&&◌, String}

pub record ServerFlags : Type 0 where
  pub serverid : ℤ
  pub raftport : ℤ
  pub joinport : ℤ
  pub clientport : ℤ
  pub seed : String
  pub nthreads : ℤ
  pub dbfilesize : ℕ
  pub cachesize : ℕ
  pub maxkeysize : ℕ

abbrev pub default_flags : ServerFlags
default_flags = record {
  serverid = negsuc 0;
  raftport = pos 10001;
  joinport = pos 10002;
  clientport = pos 10003;
  seed = "";
  nthreads = pos 4;
  dbfilesize = 1024;
  cachesize = 64;
  maxkeysize = 100;
}

unfoldable pub validate_port : ℤ → Bool
validate_port (pos value) = ltb 0 value && ltb value 32768
validate_port (negsuc n) = false

unfoldable pub validate_nthreads : ℤ → Bool
validate_nthreads (pos value) = leb 4 value && leb value 50
validate_nthreads (negsuc n) = false

-- gflags refuses a command line on which a validator gives false.
unfoldable pub is_accepted : ServerFlags → Bool
is_accepted flags =
    validate_port flags.raftport
    && validate_port flags.clientport
    && validate_port flags.joinport
    && validate_nthreads flags.nthreads
