-- ===== src/Nuraft.antt =====
-- What the program takes from NuRaft, a git submodule: buffers, log entries, Raft results.
pub mod Buffer
pub mod Wire
pub mod LogEntry
pub mod Raft
