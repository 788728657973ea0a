-- ===== src/AedtPool/Registering.antt =====
-- How a host registers its session, and an allocation that is drained comes back.
use slurm_scheduler.Prelude.{
  ℕ, Bool, true, false, not, ◌&&◌, ◌||◌, Option, none, some, is_some, inl, inr, any, String, ◌==◌,
  str_eq, if◌then◌else◌,
}
use slurm_scheduler.Models.{AllocationStatus}
use slurm_scheduler.Store.{Allocation, SessionState, ready, busy, draining, unhealthy}
use slurm_scheduler.Store.Queries.{get_allocation, update_allocation}
use slurm_scheduler.AedtPool.{
  Session, Pool, key_error, permission_error, value_error, Outcome, AedtPoolConfig,
  accepts_projects, get_session, set_sessions,
}
use slurm_scheduler.AedtPool.Starts.{
  is_starting, or_text, unhealthy_recycle_reason, not_owned, HostFiles, put_files,
}

-- What a host registers; the profile is the canonical one, the token the one that it presents.
pub record Registration : Type 0 where
  pub session_id : ℕ
  pub host_id : String
  pub endpoint : String
  pub process_id : String
  pub session_profile : String
  pub host_token : String
  pub files : HostFiles

abbrev is_draining : AllocationStatus → Bool
is_draining AllocationStatus.draining = true
is_draining _ = false

-- The scheduler's own drain of an allocation with an unhealthy session ends with it.
abbrev revived : Allocation → Allocation
revived a =
    if is_draining a.state && str_eq a.drain_reason unhealthy_recycle_reason
    then record a {
      state = AllocationStatus.active;
      drain_reason = "AEDT pool project demand";
      drain_at = none;
      failure_message = "";
    }
    else a

abbrev is_unhealthy : SessionState → Bool
is_unhealthy unhealthy = true
is_unhealthy _ = false

abbrev pub revive_allocation : ℕ → Pool → Pool
revive_allocation i p =
    if any
      (λ s. s.allocation_id == i && (is_unhealthy s.state || not (str_eq s.quarantine_reason "")))
      p.sessions
    then p
    else record p { db = update_allocation i revived p.db }

module _ (token_hash : String → String) (config : AedtPoolConfig) where
  abbrev owns_claim : Registration → Session → Bool
  owns_claim r s = str_eq s.host_id r.host_id

  abbrev pub is_registered : SessionState → Bool
  is_registered state = elim state [
    | ready ↦ true
    | busy ↦ true
    | draining ↦ true
    | unhealthy ↦ true
    | _ ↦ false
  ]

  -- A registration that is sent again.
  abbrev pub same_registration : Registration → Session → Bool
  same_registration r s =
      owns_claim r s
      && not (str_eq r.host_token "")
      && not (str_eq s.host_token_hash "")
      && str_eq s.host_token_hash (token_hash r.host_token)
      && str_eq s.endpoint r.endpoint
      && str_eq s.process_id r.process_id
      && is_registered s.state

  abbrev recovers_timeout : Registration → Session → Bool
  recovers_timeout r s =
      owns_claim r s
      && is_unhealthy s.state
      && str_eq s.failure_message "session start acknowledgement timed out"
      && not (is_some s.started_at)
      && str_eq s.host_token_hash ""

  abbrev put_registration : Registration → String → SessionState → ℕ → Session → Session
  put_registration r token state now s = record (put_files r.files s) {
    state = state;
    endpoint = r.endpoint;
    process_id = r.process_id;
    session_profile = or_text r.session_profile s.session_profile;
    host_token_hash = token_hash token;
    started_at = some now;
    last_heartbeat_at = some now;
    idle_since = some now;
    failure_message = "";
    drain_requested_at = none;
  }

  abbrev write_registration : Registration → String → SessionState → Pool → Pool
  write_registration r token state p =
      set_sessions (λ s. s.id == r.session_id) (put_registration r token state p.now) p

  abbrev first_state : SessionState
  first_state = if config.enabled then ready else draining

  -- A late owner of a start that timed out: an unrelated drain of the allocation stays.
  abbrev recover : Registration → String → Session → Option Allocation → Pool → Outcome
  recover r token s none p = inl (value_error "session allocation is no longer available")
  recover r token s (some a) p =
      if is_draining a.state && not (str_eq a.drain_reason unhealthy_recycle_reason)
      then inr (write_registration r token draining p)
      else if not (accepts_projects a.state || is_draining a.state)
      then inl (value_error "session allocation is no longer available")
      else if config.enabled
      then inr (revive_allocation s.allocation_id (write_registration r token ready p))
      else inr (write_registration r token draining p)

  abbrev register_row : Registration → String → Session → Pool → Outcome
  register_row r token s p =
      if not (str_eq s.session_profile "") && not (str_eq s.session_profile r.session_profile)
      then inl (value_error "session host profile does not match admitted lease profile")
      else if same_registration r s
      then inr p
      else if recovers_timeout r s
      then recover r token s (get_allocation p.db s.allocation_id) p
      else if is_starting s.state && owns_claim r s
      then inr (write_registration r token first_state p)
      else inl (value_error not_owned)

  -- The token is the one presented, or the fresh one. The pass of `reconcile` that follows the
  -- transaction is not part of it.
  unfoldable pub register_session : Bool → String → Registration → Pool → Outcome
  unfolding get_session
  register_session authorized fresh_token r p =
      if not authorized
      then inl permission_error
      else if str_eq r.host_id ""
      then inl (value_error "host_id is required")
      else elim (get_session p r.session_id) [
        | none ↦ inl key_error
        | some s ↦ register_row r (or_text r.host_token fresh_token) s p
      ]
