-- ===== src/AedtPool/Faults.antt =====
-- Faults that a project's client and a session's host report.
use slurm_scheduler.Prelude.{
  ℕ, ◌+◌, Bool, true, false, not, ◌&&◌, ◌||◌, Option, none, some, or_else, [], ◌∷◌, inl, inr, any,
  min, max, String, leb, ◌==◌, str_eq, if◌then◌else◌, format,
}
use slurm_scheduler.Store.{SessionState, ready, busy, draining, unhealthy}
use slurm_scheduler.Store.Queries.{is_at}
use slurm_scheduler.AedtPool.{
  LeaseState, Lease, Session, Pool, PoolError, key_error, permission_error, value_error, Outcome,
  AedtPoolConfig, is_leased, is_attaching, is_active, is_releasing, is_assignable, id_or_zero,
  find_lease, get_session, set_leases, set_sessions, block_reuse, with_session, drain_allocation,
  recycle_reason,
}
use slurm_scheduler.AedtPool.Owners.{cancel_lease}

pub data FaultKind : Type 0 where
  admission_timeout attach_failed project_create_failed pre_solve script_error : FaultKind
  solver_timeout aedt_transport_death aedt_death : FaultKind

abbrev pub kind_text : FaultKind → String
kind_text admission_timeout = "admission_timeout"
kind_text attach_failed = "attach_failed"
kind_text project_create_failed = "project_create_failed"
kind_text pre_solve = "pre_solve"
kind_text script_error = "script_error"
kind_text solver_timeout = "solver_timeout"
kind_text aedt_transport_death = "aedt_transport_death"
kind_text aedt_death = "aedt_death"

-- `normalized.replace("_", " ")`
abbrev pub spaced : FaultKind → String
spaced admission_timeout = "admission timeout"
spaced attach_failed = "attach failed"
spaced project_create_failed = "project create failed"
spaced pre_solve = "pre solve"
spaced script_error = "script error"
spaced solver_timeout = "solver timeout"
spaced aedt_transport_death = "aedt transport death"
spaced aedt_death = "aedt death"

-- Faults before the solver runs end the project alone.
abbrev pub is_local : FaultKind → Bool
is_local solver_timeout = false
is_local aedt_transport_death = false
is_local aedt_death = false
is_local _ = true

abbrev pub or_text : String → String → String
or_text s default = if str_eq s "" then default else s

abbrev pub is_running : SessionState → Bool
is_running ready = true
is_running busy = true
is_running draining = true
is_running _ = false

-- What the client says of its fault; the texts are the stripped ones, the kind is a known one.
pub record FaultReport : Type 0 where
  pub kind : FaultKind
  pub phase : String
  pub evidence_json : String
  pub sibling_grace_seconds : ℕ
  pub failure_message : String

module _ (token_hash : String → String) (config : AedtPoolConfig) where
  abbrev pub note_fault : FaultReport → Lease → Lease
  note_fault f l = record l {
    fault_phase = f.phase;
    fault_kind = kind_text f.kind;
    fault_evidence_json = f.evidence_json;
    failure_message = or_text f.failure_message l.failure_message;
  }

  abbrev pub suspect : String → Session → Session
  suspect message s = record s {
    state = unhealthy;
    failure_message = format ("client transport suspect: " ∷ message ∷ []);
    drain_requested_at = none;
  }

  -- What an earlier transaction wrote stays where a later one raises.
  abbrev pub committed : Pool → Outcome → Pool × Option PoolError
  committed p (inl error) = (p, some error)
  committed p (inr q) = (q, none)

  abbrev pub cancelled : ℕ → String → String → Pool → Pool × Option PoolError
  cancelled i token reason p = committed p (cancel_lease token_hash config i token reason p)

  abbrev pub transport_death : ℕ → String → ℕ → String → Pool → Pool × Option PoolError
  transport_death i token session_id message p =
      cancelled i token message
        (set_sessions (λ s. s.id == session_id && is_assignable s.state) (suspect message) p)

  abbrev pub dead : String → ℕ → Session → Session
  dead message now s = record s {
    state = unhealthy;
    failure_message = message;
    quarantine_reason = "aedt_death_reported";
    drain_requested_at = or_else s.drain_requested_at (some now);
  }

  abbrev pub allocation_of : Pool → ℕ → ℕ
  allocation_of p i = elim (get_session p i) [ none ↦ 0 | some s ↦ s.allocation_id ]

  abbrev pub desktop_death : Option Session → String → Pool → Pool × Option PoolError
  desktop_death none message p = (p, some key_error)
  desktop_death (some s) message p = (
    drain_allocation "AEDT pool reported AEDT/gRPC death" s.allocation_id
        (set_sessions (λ o. o.id == s.id && is_running o.state) (dead message p.now) p),
    none,
  )

  abbrev pub stop_solver : String → ℕ → Lease → Lease
  stop_solver message now l = record l {
    state = LeaseState.releasing;
    failure_message = or_text message "solver timeout";
    release_requested_at = some now;
  }

  abbrev pub quarantined : FaultReport → ℕ → Session → Session
  quarantined f now s = record (block_reuse now s) {
    state = draining;
    quarantine_reason = "solver_timeout";
    quarantine_until = some (now + max 60 (min 3600 f.sibling_grace_seconds));
    failure_message = or_text f.failure_message "solver timeout; sibling grace active";
    drain_requested_at = or_else s.drain_requested_at (some now);
  }

  -- The siblings get a bounded time; the Desktop takes no new lease.
  abbrev pub solver_timed_out : ℕ → ℕ → FaultReport → Pool → Pool
  solver_timed_out i session_id f p =
      let p =
        set_leases
          (λ l. l.id == i && (is_leased l.state || is_attaching l.state || is_active l.state))
          (stop_solver f.failure_message p.now) p in
      let p =
        set_sessions (λ s. s.id == session_id && is_running s.state) (quarantined f p.now) p in
      drain_allocation "AEDT pool solver fault quarantine" (allocation_of p session_id) p

  abbrev pub lost_desktop : String
  lost_desktop = "project client lost AEDT/gRPC connection"

  abbrev pub act_on_shared :
      ℕ → String → FaultReport → FaultKind → ℕ → Pool → Pool × Option PoolError
  act_on_shared i token f aedt_transport_death session_id p =
      transport_death i token session_id
        (or_text f.failure_message "project client lost AEDT transport") p
  act_on_shared i token f aedt_death session_id p =
      desktop_death (get_session p session_id) (or_text f.failure_message lost_desktop) p
  act_on_shared i token f _ session_id p = (solver_timed_out i session_id f p, none)

  abbrev pub act_on_fault : ℕ → String → FaultReport → ℕ → Pool → Pool × Option PoolError
  act_on_fault i token f session_id p =
      if is_local f.kind
      then cancelled i token (or_text f.failure_message (spaced f.kind)) p
      else if session_id == 0
      then cancelled i token (kind_text f.kind) p
      else act_on_shared i token f f.kind session_id p

  abbrev pub report_row : ℕ → String → FaultReport → Option Lease → Pool → Pool × Option PoolError
  report_row i token f none p = (p, some key_error)
  report_row i token f (some l) p =
      if str_eq l.client_token_hash (token_hash token)
      then act_on_fault i token f (id_or_zero l.session_id)
          (set_leases (λ o. o.id == i) (note_fault f) p)
      else (p, some permission_error)

  -- The report is written first, in a transaction of its own. The pool afterwards, and what is raised.
  unfoldable pub report_project_fault : ℕ → String → FaultReport → Pool → Pool × Option PoolError
  unfolding find_lease get_session cancel_lease format
  report_project_fault i token f p = report_row i token f (find_lease p i) p

  -- Accepted work whose client is still heard of.
  abbrev pub live_native_owner : Pool → ℕ → Bool
  live_native_owner p i =
      any
        (λ l.
          is_at i l.session_id
          && (is_leased l.state
              || is_attaching l.state
              || is_active l.state
              || is_releasing l.state)
          && leb p.now l.expires_at)
        p.leases

  abbrev pub evident : String → String → ℕ → Session → Session
  evident evidence snapshot now s = record s {
    state = unhealthy;
    last_fault_evidence_json = evidence;
    last_fault_at = some now;
    native_snapshot_path = or_text snapshot s.native_snapshot_path;
  }

  abbrev pub wedged : String → String → String → Bool → ℕ → Session → Session
  wedged message evidence snapshot owner now s = record (evident evidence snapshot now s) {
    quarantine_reason = "";
    failure_message = format ("host native liveness suspect: " ∷ message ∷ []);
    drain_requested_at = if owner then none else or_else s.drain_requested_at (some now);
    last_heartbeat_at = if owner then some now else s.last_heartbeat_at;
  }

  abbrev pub died : String → String → String → ℕ → Session → Session
  died message evidence snapshot now s = record (evident evidence snapshot now s) {
    quarantine_reason = "confirmed_aedt_death";
    failure_message = message;
    drain_requested_at = or_else s.drain_requested_at (some now);
  }

  abbrev pub is_probed : SessionState → Bool
  is_probed state = elim state [ ready ↦ true | busy ↦ true | unhealthy ↦ true | _ ↦ false ]

  abbrev pub may_die : SessionState → Bool
  may_die state = is_probed state || is_running state

  abbrev pub act_on_session_fault : Bool → String → String → String → Session → Pool → Pool
  act_on_session_fault confirmed message evidence snapshot s p =
      if confirmed
      then drain_allocation recycle_reason s.allocation_id (
          set_sessions (λ o. o.id == s.id && may_die o.state) (died message evidence snapshot p.now)
            p)
      else set_sessions (λ o. o.id == s.id && is_probed o.state)
          (wedged message evidence snapshot (live_native_owner p s.id) p.now) p

  -- The kind is `confirmed_aedt_death` or `native_probe_suspect`; the texts are the stripped ones.
  unfoldable pub report_session_fault :
      ℕ → String → String → String → String → String → Pool → Outcome
  unfolding get_session format
  report_session_fault i token kind message evidence snapshot p =
      with_session token_hash i token p (λ s.
        if not (str_eq kind "confirmed_aedt_death" || str_eq kind "native_probe_suspect")
        then inl
            (value_error "session fault kind must be confirmed_aedt_death or native_probe_suspect")
        else inr (
            act_on_session_fault (str_eq kind "confirmed_aedt_death")
              (or_text message "session host confirmed AEDT process death") evidence snapshot s p))
