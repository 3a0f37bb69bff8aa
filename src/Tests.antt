-- ===== src/Tests.antt =====
-- The development at concrete inputs.
pub mod Buffers
pub mod Databases
pub mod Rafts
pub mod Operations
pub mod Machines
pub mod Logs
pub mod Servers
pub mod Clients
pub mod Launches
pub mod Commands
pub mod StateMgrs
pub mod Timers
pub mod SplinterLogs
pub mod Connections
pub mod Casts
pub mod Joins
pub mod Clusters
pub mod LogTraces
pub mod Sessions
pub mod Conversations
pub mod Leaders
