-- ===== src/SplServer/Settings.antt =====
-- The configuration that a server makes of its flags.
use Prim.Native.String.{◌++◌}
use distributed_replicated_c.Prelude.{
  ℕ, ◌*◌, ◌%◌, ◌<◌, ◌^◌, ◌≡◌, refl, ℤ, pos, negsuc, true, u64_mod, arith,
}
use distributed_replicated_c.Result.{ok}
use distributed_replicated_c.Text.{to_string}
use distributed_replicated_c.Endpoint.{parse_endpoint, endpoint_of}
use distributed_replicated_c.Endpoint.Announced.{Lacks, parse_endpoint-endpoint_of}
use distributed_replicated_c.Splinter.{SplinterApi}
use distributed_replicated_c.Replica.Launch.{new_replica_config}
use distributed_replicated_c.SplServer.Flags.{ServerFlags, validate_port, is_accepted}
use distributed_replicated_c.SplServer.{to_u16, MachineApi, config_of}

accepted_ports :
    (flags : ServerFlags)
    → is_accepted flags ≡ true
    → (validate_port flags.raftport ≡ true) × (validate_port flags.clientport ≡ true)
unfolding is_accepted
accepted_ports flags h = (ground arith, ground arith)

megabytes : (n : ℕ) → n < 2 ^ 44 → (n * 1024 * 1024) % u64_mod ≡ n * 2 ^ 20
megabytes n h = omega arith

-- A port that was accepted is not changed by the cast, and is from 1 to 2^15 - 1.
to_u16-validate_port :
    (value : ℤ)
    → validate_port value ≡ true
    → (pos (to_u16 value) ≡ value) × (0 < to_u16 value) × (to_u16 value < 2 ^ 15)
unfolding validate_port
to_u16-validate_port (pos n) h = (ground arith, ground arith, ground arith)
to_u16-validate_port (negsuc n) h = absurd (ground arith)

module _ {s : SplinterApi} (machine : MachineApi s) (flags : ServerFlags) where
  -- On an accepted command line with sizes below 2^44 MB, on a machine whose name has no ':', no cast
  -- and no product of the configuration wraps around: it has the ports of the flags and the sizes in
  -- bytes, and a client reads the endpoints that the server announces when it joins as the name of
  -- the machine and those ports.
  pub config_of-exact :
      is_accepted flags ≡ true
      → flags.dbfilesize < 2 ^ 44
      → flags.cachesize < 2 ^ 44
      → Lacks 58 machine.hostname
      → let cfg = config_of machine flags in
        (pos cfg.raft_port ≡ flags.raftport)
        × (pos cfg.client_port ≡ flags.clientport)
        × (cfg.splinterdb_cfg
            ≡ machine.splinterdb_config
                ("sm-state-" ++ (to_string flags.serverid ++ ".db"))
                (flags.dbfilesize * 2 ^ 20)
                (flags.cachesize * 2 ^ 20)
                flags.maxkeysize)
        × (parse_endpoint (endpoint_of cfg.addr cfg.raft_port)
            ≡ ok (machine.hostname, cfg.raft_port))
        × (parse_endpoint (endpoint_of cfg.addr cfg.client_port)
            ≡ ok (machine.hostname, cfg.client_port))
  unfolding config_of new_replica_config
  config_of-exact h size cache plain =
      let (raft, client) = accepted_ports flags h in
      let (raft_same, raft_low, raft_high) = to_u16-validate_port flags.raftport raft in
      let (same, low, high) = to_u16-validate_port flags.clientport client in
      (
        raft_same,
        same,
        rw (megabytes flags.dbfilesize size, megabytes flags.cachesize cache) refl,
        parse_endpoint-endpoint_of machine.hostname (to_u16 flags.raftport) plain raft_low
            (omega arith),
        parse_endpoint-endpoint_of machine.hostname (to_u16 flags.clientport) plain low
            (omega arith),
      )
