-- ===== src/Lib.antt =====
-- Replicated SplinterDB: a key-value store whose replicas keep a SplinterDB database each and agree
-- on its operations through Raft (the NuRaft library).
--
-- A client sends an RPC to a server (src/server/server.cpp). A mutation becomes a
-- splinterdb_operation, whose serialized form the replica (src/server/replica.cpp) appends to the
-- Raft log. Raft commits each entry on every replica: the state machine
-- (src/server/splinterdb_state_machine.cpp) reads the operation back, calls SplinterDB and replies
-- with the return code, which the server hands to the client. A read asks the database of the server
-- itself. The Raft log of a replica is kept in memory (src/server/in_memory_log_store.cpp).
--
-- Prelude            numbers, tests, lists, signed integers, words of 64 bits
-- Bytes, Text        words of 8, 32 and 64 bits as bytes; strings, std::stoi and std::to_string
-- Result, Exec       C++ exceptions; methods that change an object and may throw
-- Nuraft, Splinter   the operations of NuRaft and SplinterDB, which are not part of the repository, as
--                    records of functions, with what their documentation promises as records of laws
-- Types              include/common/types.h: the results of RPCs
-- Slice              owned_slice
-- Operation          splinterdb_operation; Operation/Request the operations that the program makes
-- StateMachine       splinterdb_state_machine, with the specification in StateMachine/Refinement
-- OrdMap             std::map, as a list in the order of its keys
-- InmemLogStore      inmem_log_store, with the list that it stands for in InmemLogStore/View and
--                    sequences of its calls in InmemLogStore/Traces
-- SplinterLogStore   splinterdb_log_store (src/server/splinterdb_log_store.cpp), the log kept in a
--                    SplinterDB database of its own, which no other part of the program uses yet
-- InmemStateMgr      inmem_state_mgr
-- Replica            replica, with its construction in Replica/Launch and replica_config
-- Server             the handlers of server::initialize, with the class server in Server/Lifecycle;
--                    Server/Followers a server and a replica that commits its log
-- Cluster            the servers of a cluster, as a step relation on what can happen to each of them;
--                    Cluster/Durable a mutation that was answered with a success, Cluster/Clients and
--                    Cluster/Sessions the clients around a cluster, with what rpclib and Raft promise
--                    of the world between them as records of laws. A commit that SplinterDB refuses
--                    is an event like any other: it marks its server, whose data is then its own
-- SplServer          apps/spl_server.cpp: its flags, the configuration that it makes of them, and how
--                    it joins a cluster through the server at -seed
-- Endpoint           host:port, as a server announces it and as the client takes it apart
-- ReadPolicy         round_robin_read_policy
-- Client             client, which reaches the servers through a record of functions for rpclib;
--                    Client/Connect is its constructor, Client/Settled the rounds of a mutation that
--                    is refused at first, Client/Applied the client and the servers together,
--                    Client/Casts the types that it asks for with as<T>()
-- SplClient          apps/spl_client.cpp: the words of a command line and what each command does;
--                    SplClient/Main is the program with its two modes, SplClient/Reports what it reports
-- Timer              include/common/timer.h, which no other part of the program uses
-- Tests              instances of the libraries' records, and the theorems at concrete inputs
--
-- A method is a function of the object's state with the source's name; a constructor is `new_...`.
-- An exception is a value beside the state that it leaves, and undefined behaviour is an exception of
-- its own. Words of 64 bits wrap around (`add64`, `sub64`). The one loop that may not end, that of
-- `compact` of inmem_log_store, runs on fuel, one unit for each test of its condition. The loops with
-- a number of retries or of entries recur on the rounds that are left. `digits`, the decimal digits
-- of a number, has fuel for 19 divisions by ten, enough for any number of 64 bits.
--
-- What the call of append_entries on a server means for that server's own data is a law of the Raft
-- server under a condition, `LeadsAlone`: it leads, and nothing else is committed while the call
-- runs. A follower may forward the call (auto_forwarding_ is set), and other workers may append.
--
-- Not modelled: threads, locks and sockets (a method that holds a lock is one step; the loop of the
-- thread that emulates a disk is a function of the times at which it is woken up), and with them the
-- destructors that stop sockets or close handles; logging (src/server/logger.cpp is a third-party
-- library) and console output but that of apps/spl_client.cpp on std::cout; apps/splinterdb.cpp, a
-- sample program of SplinterDB. How the clock is read and how double computes are parameters of the
-- timer.
pub mod Prelude
pub mod Result
pub mod Exec
pub mod Bytes
pub mod Text
pub mod Endpoint
pub mod Types
pub mod Nuraft
pub mod Slice
pub mod Operation
pub mod Splinter
pub mod StateMachine
pub mod OrdMap
pub mod InmemLogStore
pub mod SplinterLogStore
pub mod InmemStateMgr
pub mod Replica
pub mod Server
pub mod Cluster
pub mod ReadPolicy
pub mod Client
pub mod SplClient
pub mod SplServer
pub mod Timer
pub mod Tests
