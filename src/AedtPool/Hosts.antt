-- ===== src/AedtPool/Hosts.antt =====
-- What a running session's host reports and asks: its heartbeat and its commands.
use slurm_scheduler.Prelude.{
  ℕ, Bool, true, false, not, ◌&&◌, ◌||◌, Option, none, some, is_some, List, [], inl, inr, keep, any,
  length, String, codes, lower, contains, starts_with, ltb, leb, ◌==◌, str_eq, if◌then◌else◌,
}
use slurm_scheduler.Models.{AllocationStatus}
use slurm_scheduler.Store.{Allocation, SessionState, ready, busy, draining, unhealthy}
use slurm_scheduler.Store.Queries.{is_at, get_allocation}
use slurm_scheduler.AedtPool.{
  Lease, Session, Pool, PoolError, key_error, permission_error, value_error, Outcome,
  AedtPoolConfig, accepts_projects, is_assignable, is_releasing, get_session, set_sessions,
  occupies, occupants, refresh_session_state,
}
use slurm_scheduler.AedtPool.Refresh.{for_each}
use slurm_scheduler.AedtPool.Placement.{place_queued_leases}
use slurm_scheduler.AedtPool.Leases.{heartbeat_persist_interval_seconds, heartbeat_is_fresh}
use slurm_scheduler.AedtPool.Starts.{unhealthy_recycle_reason}
use slurm_scheduler.AedtPool.Registering.{revive_allocation, is_registered}

-- The proof of life of a heartbeat; a port of 0 and empty texts are not compared.
pub record Proof : Type 0 where
  pub liveness_confirmed : Bool
  pub process_id : String
  pub port : ℕ
  pub native_probe : String

-- `port_of` is the number after the last colon of an endpoint, 0 where none can be read.
module _ (token_hash : String → String) (port_of : String → ℕ) (config : AedtPoolConfig) where
  abbrev pub heartbeat_problem : Session → String → Proof → Option PoolError
  heartbeat_problem s token proof =
      if str_eq s.host_token_hash "" || not (str_eq s.host_token_hash (token_hash token))
      then some permission_error
      else if not (is_registered token_hash config s.state)
      then some (value_error "session is not running")
      else if not proof.liveness_confirmed
      then some (value_error "host heartbeat requires fresh Desktop liveness proof")
      else if not (str_eq proof.process_id "") && not (str_eq proof.process_id s.process_id)
      then some (value_error "heartbeat Desktop process_id does not match registration")
      else if not (proof.port == 0) && not (proof.port == port_of s.endpoint)
      then some (value_error "heartbeat Desktop port does not match registration")
      else if not (str_eq proof.native_probe "") && not (str_eq proof.native_probe "GetVersion")
      then some (value_error "unsupported Desktop native liveness probe")
      else none

  abbrev is_clean : Session → Bool
  is_clean s = str_eq s.failure_message "" && str_eq s.quarantine_reason ""

  abbrev was_heard : ℕ → Session → Bool
  was_heard now s = elim s.last_heartbeat_at [
    | none ↦ false
    | some beat ↦
        heartbeat_is_fresh beat now
          (heartbeat_persist_interval_seconds config.session_heartbeat_timeout_seconds s.id)
  ]

  abbrev pub needs_no_write : ℕ → Session → Bool
  needs_no_write now s =
      is_assignable s.state && is_clean s && not (is_some s.reuse_blocked_at) && was_heard now s

  abbrev is_before : ℕ → Option ℕ → Bool
  is_before now none = false
  is_before now (some at) = ltb at now

  -- The barrier falls at a heartbeat later than it, when no project is being released.
  abbrev pub clears_barrier : Pool → Session → Bool
  clears_barrier p s =
      is_before p.now s.reuse_blocked_at
      && is_assignable s.state
      && is_clean s
      && not (any (λ l. is_at s.id l.session_id && is_releasing l.state) p.leases)

  abbrev pub clear_barrier : Session → Pool → Pool
  clear_barrier s p =
      if clears_barrier p s
      then set_sessions (λ o. o.id == s.id)
          (λ o. record o { reuse_blocked_at = none; last_heartbeat_at = some p.now }) p
      else p

  abbrev is_unhealthy : SessionState → Bool
  is_unhealthy unhealthy = true
  is_unhealthy _ = false

  -- Suspicions that a heartbeat disproves.
  abbrev is_suspicion : String → Bool
  is_suspicion message =
      str_eq message "session heartbeat expired"
      || starts_with (codes message) (codes "client transport suspect:")
      || starts_with (codes message) (codes "host native liveness suspect:")

  abbrev allocation_recovers : Allocation → Bool
  allocation_recovers a = accepts_projects a.state || elim a.state [
    | AllocationStatus.draining ↦ str_eq a.drain_reason unhealthy_recycle_reason
    | _ ↦ false
  ]

  abbrev pub recovers : Pool → Session → Bool
  recovers p s =
      is_unhealthy s.state
      && is_suspicion s.failure_message
      && str_eq s.quarantine_reason ""
      && elim (get_allocation p.db s.allocation_id) [
        | none ↦ false
        | some a ↦ allocation_recovers a
      ]

  abbrev pub recovered : Bool → ℕ → Session → Session
  recovered live now s = record s {
    state = if live then busy else ready;
    failure_message = "";
    drain_requested_at = none;
    last_heartbeat_at = some now;
    idle_since = if live then none else some now;
  }

  abbrev pub record_beat : Bool → Session → Pool → Pool
  record_beat operational s p =
      if operational && recovers p s
      then revive_allocation s.allocation_id (
          set_sessions (λ o. o.id == s.id) (recovered (not (length (occupants p s.id) == 0)) p.now)
            p)
      else set_sessions (λ o. o.id == s.id) (λ o. record o { last_heartbeat_at = some p.now }) p

  abbrev pub write_beat : Bool → Session → Pool → Outcome
  write_beat operational s p =
      if operational && clears_barrier p s
      then place_queued_leases config [] true (record_beat operational s (clear_barrier s p))
      else inr (record_beat operational s (clear_barrier s p))

  abbrev pub beat_checked : Option PoolError → Bool → Session → Pool → Outcome
  beat_checked (some problem) operational s p = inl problem
  beat_checked none operational s p =
      if needs_no_write p.now s then inr p else write_beat operational s p

  abbrev pub beat_row : String → Proof → Bool → Option Session → Pool → Outcome
  beat_row token proof operational none p = inl key_error
  beat_row token proof operational (some s) p =
      beat_checked (heartbeat_problem s token proof) operational s p

  -- `operational` is read afresh from the settings and the last validation.
  unfoldable pub heartbeat_session : ℕ → String → Proof → Bool → Pool → Outcome
  unfolding get_session starts_with place_queued_leases heartbeat_is_fresh
      heartbeat_persist_interval_seconds
  heartbeat_session i token proof operational p =
      beat_row token proof operational (get_session p i) p

-- What the host is told to do.
pub record Commands : Type 0 where
  pub close_projects : List Lease
  pub deferred_projects : List Lease
  pub drain : Bool
  pub sibling_live_count : ℕ
  pub global_stop_allowed : Bool

abbrev owns_timeout : Lease → Bool
owns_timeout l =
    contains (lower (codes l.failure_message)) (codes "timeout")
    || contains (lower (codes l.failure_message)) (codes "heartbeat expired")

abbrev is_draining : SessionState → Bool
is_draining draining = true
is_draining unhealthy = true
is_draining _ = false

abbrev has_passed : ℕ → Option ℕ → Bool
has_passed now none = false
has_passed now (some deadline) = leb deadline now

-- A quarantined session is stopped as a whole: a project that timed out is not closed on its own.
unfoldable pub session_commands : Session → Pool → Commands
unfolding contains lower
session_commands s p =
    let releasing = keep (λ l. is_at s.id l.session_id && is_releasing l.state) p.leases in
    let live = length (keep (λ l. occupies s.id l && not (is_releasing l.state)) p.leases) in
    let quarantined = not (str_eq s.quarantine_reason "") in
    record {
      close_projects = keep (λ l. not (quarantined && owns_timeout l)) releasing;
      deferred_projects = keep (λ l. quarantined && owns_timeout l) releasing;
      drain = is_draining s.state;
      sibling_live_count = live;
      global_stop_allowed =
          is_draining s.state && quarantined && (live == 0 || has_passed p.now s.quarantine_until);
    }

abbrev is_busy : SessionState → Bool
is_busy busy = true
is_busy _ = false

-- A busy session that is to be drained and has lost its last project.
unfoldable pub refresh_zero_owner_draining_sessions : Pool → Pool
unfolding refresh_session_state
refresh_zero_owner_draining_sessions p =
    for_each (λ s. refresh_session_state s.id)
      (keep
        (λ s. is_busy s.state && is_some s.drain_requested_at && not (any (occupies s.id) p.leases))
        p.sessions)
      p
