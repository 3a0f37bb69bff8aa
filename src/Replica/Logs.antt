-- ===== src/Replica/Logs.antt =====
-- include/server/log_level.h, and the log files of src/server/replica.cpp: their names and levels.
-- SimpleLogger (src/server/logger.h) is a copy of another project.
use Prim.Native.String.{◌++◌}
use distributed_replicated_c.Prelude.{ℤ, Option, none, some, String}
use distributed_replicated_c.Text.{to_string}

pub data LogLevel : Type 0 where
  disabled sys fatal error warning info debug trace unknown : LogLevel

-- std::optional::value_or
abbrev pub value_or : Option String → String → String
value_or none default = default
value_or (some name) default = name

unfoldable pub raft_log_file_name : Option String → ℤ → String
raft_log_file_name raft_log_file server_id =
    value_or raft_log_file (".logs/srv-" ++ (to_string server_id ++ ".log"))

unfoldable pub spl_log_file_name : Option String → ℤ → String
spl_log_file_name splinterdb_log_file server_id =
    value_or splinterdb_log_file (".logs/spl-" ++ (to_string server_id ++ ".log"))
