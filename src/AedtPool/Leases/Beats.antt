-- ===== src/AedtPool/Leases/Beats.antt =====
-- How long a heartbeat may go unwritten.
use slurm_scheduler.Prelude.{
  ℕ, ◌-◌, ◌*◌, ◌/◌, ◌≤◌, ◌<◌, true, ◌&&◌, ◌||◌, String, min, max, ◌≡◌, arith, ltb, leb, str_eq,
  and-split, ltb→lt, leb→le,
}
use slurm_scheduler.AedtPool.{Lease, AedtPoolConfig, is_attaching, is_active, is_releasing}
use slurm_scheduler.AedtPool.Leases.{
  heartbeat_persist_interval_seconds, heartbeat_is_fresh, needs_no_write,
}

less : (a b : ℕ) → a - b ≤ a
less a b = omega arith

ceiling-le :
    (timeout : ℕ)
    → (max 1 (min 30 (max 1 (timeout / 3))) ≤ 30)
      × (3 * max 1 (min 30 (max 1 (timeout / 3))) ≤ max 3 timeout)
ceiling-le timeout = (omega arith, omega arith)

interval-le :
    (timeout identity : ℕ)
    → heartbeat_persist_interval_seconds timeout identity ≤ max 1 (min 30 (max 1 (timeout / 3)))
unfolding heartbeat_persist_interval_seconds
interval-le timeout identity = less _ _

-- A heartbeat of a lease is left unwritten only if the last written one is not in the future, and is less
-- than a third of the lease lifetime ago that is configured at the time, a lifetime below three seconds
-- counting as three, and less than half a minute.
pub unwritten_heartbeats_are_early :
    (token_hash : String → String) (config : AedtPoolConfig) (now : ℕ) (phase : String) (l : Lease)
    → needs_no_write token_hash config now phase l ≡ true
    → (l.last_heartbeat_at ≤ now)
      × (3 * (now - l.last_heartbeat_at) < max 3 config.lease_ttl_seconds)
      × (now - l.last_heartbeat_at < 30)
unfolding heartbeat_is_fresh
unwritten_heartbeats_are_early token_hash config now phase l h =
    let interval = heartbeat_persist_interval_seconds config.lease_ttl_seconds l.id in
    let is_fresh : heartbeat_is_fresh l.last_heartbeat_at now interval ≡ true =
      (and-split
        ((is_attaching l.state || is_active l.state || is_releasing l.state)
          && (str_eq phase "" || str_eq phase l.fault_phase))
        (heartbeat_is_fresh l.last_heartbeat_at now interval) h).1 in
    let (early, fresh) =
      and-split (leb l.last_heartbeat_at now) (ltb (now - l.last_heartbeat_at) (max 1 interval))
        is_fresh in
    let before = leb→le l.last_heartbeat_at now early in
    let young = ltb→lt (now - l.last_heartbeat_at) (max 1 interval) fresh in
    let short = interval-le config.lease_ttl_seconds l.id in
    let (low, third) = ceiling-le config.lease_ttl_seconds in (before, omega arith, omega arith)
