-- ===== src/AgentRun/Supervisor/LeaseLaws.antt =====
-- The run lease of agent_run_supervisor.py, between two workers.
use aixion_control_tower.Prelude.{
  ℕ, ◌+◌, ◌*◌, ◌<◌, ◌≡◌, ◌≢◌, ◌⊎◌, true, some, String, arith, eq_iff, truthy, option_eq, string_eq,
}
use aixion_control_tower.Prelude.Exec.{ok, err, conflict}
use aixion_control_tower.AgentRun.Models.{Instant, second}
use aixion_control_tower.AgentRun.Supervisor.State.{Mission}
use aixion_control_tower.AgentRun.Supervisor.Leases.{
  expires_after, is_leased, acquire_run_lease, heartbeat_run,
}

-- A worker that acquires the lease owns it, with the token that it is given and an expiry in the
-- future.
pub acquire-owner :
    (w : String) (n : ℕ) (now : Instant) (fresh token : String) (m m' : Mission)
    → 0 < n
    → acquire_run_lease w n now fresh m ≡ (ok token, m')
    → (m'.run.lease_owner ≡ some w)
      × (m'.run.lease_token ≡ some token)
      × (expires_after m'.run.lease_expires_at now ≡ true)
unfolding acquire_run_lease
acquire-owner w n now fresh token m m' pos h = ground (arith, eq_iff m.run.lease_owner (some w))

-- While a lease holds, another worker's request raises AgentRunConflict and changes nothing.
pub acquire-excluded :
    (w : String) (n : ℕ) (now : Instant) (fresh : String) (m : Mission)
    → is_leased m.run now ≡ true
    → m.run.lease_owner ≢ some w
    → acquire_run_lease w n now fresh m ≡ (err conflict, m)
unfolding acquire_run_lease
acquire-excluded w n now fresh m h ne = ground (arith, eq_iff m.run.lease_owner (some w))

-- Once a worker with a name that is not empty has acquired the lease for a positive time, any other
-- worker that asks before the granted expiry is refused and changes nothing.
pub acquire_mutual_exclusion :
    (w v : String) (n k : ℕ) (now later : Instant) (fresh fresh' token : String) (m m' : Mission)
    → 0 < n
    → truthy w ≡ true
    → v ≢ w
    → acquire_run_lease w n now fresh m ≡ (ok token, m')
    → expires_after m'.run.lease_expires_at later ≡ true
    → acquire_run_lease v k later fresh' m' ≡ (err conflict, m')
acquire_mutual_exclusion w v n k now later fresh fresh' token m m' pos named ne got live =
    let (owner, _, _) = acquire-owner w n now fresh token m m' pos got in
    acquire-excluded v k later fresh' m' (rw owner (ground arith)) (λ e. ground (arith, owner, e))

-- A heartbeat is accepted exactly from the owner with the lease's token; refused, it changes
-- nothing, and accepted, it keeps owner and token and moves the expiry.
pub heartbeat_run_lem :
    (w token : String) (n : ℕ) (now : Instant) (m : Mission)
    → let (r, m') = heartbeat_run w token n now m in
      ((r ≡ ok tt)
        × (m.run.lease_owner ≡ some w)
        × (m.run.lease_token ≡ some token)
        × (m'.run.lease_owner ≡ some w)
        × (m'.run.lease_token ≡ some token)
        × (m'.run.lease_expires_at ≡ some (now + n * second)))
      ⊎ ((r ≡ err conflict)
          × (m' ≡ m)
          × ((m.run.lease_owner ≢ some w) ⊎ (m.run.lease_token ≢ some token)))
unfolding heartbeat_run
heartbeat_run_lem w token n now m =
    ground (arith, eq_iff m.run.lease_owner (some w), eq_iff m.run.lease_token (some token))
