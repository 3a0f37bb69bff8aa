-- ===== src/Replica/Waits.antt =====
-- The wait of replica::initialize for the Raft server.
use distributed_replicated_c.Prelude.{
  ℕ, zero, suc, ◌<◌, ◌≡◌, refl, sym, ap, ◌∙◌, true, false, Bool-cases, inl, inr, arith,
}
use distributed_replicated_c.Result.{ready}
use distributed_replicated_c.Nuraft.Buffer.{BufferApi}
use distributed_replicated_c.Nuraft.Raft.{RaftApi}
use distributed_replicated_c.Splinter.{SplinterApi}
use distributed_replicated_c.Replica.Launch.{LaunchApi, wait_ready}

module _ {b : BufferApi} {s : SplinterApi} {Snapshot : Type 0} {raft : RaftApi b s Snapshot}
    (launch : LaunchApi raft) where
  wait_now :
      (delay_ms rounds : ℕ) (srv : raft.Server)
      → launch.is_initialized srv ≡ true
      → wait_ready launch delay_ms (suc rounds) srv ≡ ready srv
  unfolding wait_ready
  wait_now delay_ms rounds srv now = rw now refl

  wait_later :
      (delay_ms rounds : ℕ) (srv : raft.Server)
      → launch.is_initialized srv ≡ false
      → wait_ready launch delay_ms (suc rounds) srv
        ≡ wait_ready launch delay_ms rounds (launch.sleep_ms delay_ms srv)
  unfolding wait_ready
  wait_later delay_ms rounds srv later = rw later refl

  ready-injective : {x y : raft.Server} → ready x ≡ ready y → x ≡ y
  ready-injective h = cc

  pub wait_ready-ready :
      (delay_ms rounds : ℕ) (srv : raft.Server) {srv' : raft.Server}
      → wait_ready launch delay_ms rounds srv ≡ ready srv'
      → launch.is_initialized srv' ≡ true
  unfolding wait_ready
  wait_ready-ready delay_ms zero srv h = cc
  wait_ready-ready delay_ms (suc rounds) srv h = elim (Bool-cases (launch.is_initialized srv)) [
    | inl now ↦
        ap launch.is_initialized
          (sym (ready-injective (sym (wait_now delay_ms rounds srv now) ∙ h)))
        ∙ now
    | inr later ↦
        wait_ready-ready delay_ms rounds (launch.sleep_ms delay_ms srv)
          (sym (wait_later delay_ms rounds srv later) ∙ h)
  ]

  -- The server after `k` sleeps.
  abbrev pub slept : ℕ → ℕ → raft.Server → raft.Server
  slept delay_ms zero srv = srv
  slept delay_ms (suc k) srv = slept delay_ms k (launch.sleep_ms delay_ms srv)

  -- If the Raft server is initialized after `k` sleeps, and there are more rounds than that, the wait
  -- ends with an initialized server.
  pub wait_ready-finds :
      (delay_ms rounds k : ℕ) (srv : raft.Server)
      → k < rounds
      → launch.is_initialized (slept delay_ms k srv) ≡ true
      → (srv' : raft.Server) × (wait_ready launch delay_ms rounds srv ≡ ready srv')
        × (launch.is_initialized srv' ≡ true)
  unfolding wait_ready
  wait_ready-finds delay_ms zero k srv h up = absurd (omega arith)
  wait_ready-finds delay_ms (suc rounds) zero srv h up = (srv, rw up refl, up)
  wait_ready-finds delay_ms (suc rounds) (suc k) srv h up =
      elim (Bool-cases (launch.is_initialized srv)) [
        | inl now ↦ (srv, rw now refl, now)
        | inr later ↦
            let (srv', e, i) =
              wait_ready-finds delay_ms rounds k (launch.sleep_ms delay_ms srv) (omega arith) up in
            (srv', rw later e, i)
      ]
