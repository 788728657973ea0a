-- ===== src/AedtPool/Release.antt =====
-- The host's word that a project is closed, and the end of a session.
use slurm_scheduler.Prelude.{
  ℕ, ◌+◌, Bool, true, not, ◌&&◌, ◌||◌, Option, none, some, [], ◌∷◌, inl, inr, length, String, ◌==◌,
  str_eq, if◌then◌else◌, format, show,
}
use slurm_scheduler.Store.{SessionState, unhealthy}
use slurm_scheduler.Store.Queries.{is_at}
use slurm_scheduler.AedtPool.{
  LeaseState, Lease, Session, Pool, key_error, lease_is, value_error, Outcome, AedtPoolConfig,
  operational, is_releasing, is_ended, find_lease, get_session, set_leases, set_sessions, occupants,
  occupies, claim_lease, and_then, refresh_session_state, same_state, with_session,
  drain_allocation, recycle_reason,
}
use slurm_scheduler.AedtPool.Refresh.{finish_lease, fail_exact_session_reservations_for_target}
use slurm_scheduler.AedtPool.Upkeep.{refresh_exact_session_reservations}
use slurm_scheduler.AedtPool.Placement.{place_queued_leases}

abbrev or_text : String → String → String
or_text s default = if str_eq s "" then default else s

-- The texts are the stripped ones.
module _ (token_hash : String → String) (config : AedtPoolConfig) where
  abbrev pub expected_state : Bool → LeaseState
  expected_state success = if success then LeaseState.released else LeaseState.failed

  abbrev pub normalized_failure : Bool → String → String
  normalized_failure success message = if success then "" else message

  abbrev unclean : String → ℕ → Session → Session
  unclean message now s = record s {
    state = unhealthy;
    drain_requested_at = some now;
    quarantine_until = some now;
    quarantine_reason = "project release cleanup failed";
    failure_message = or_text message "session host could not confirm project cleanup";
  }

  -- The acknowledgement starts the barrier before the slot is used again.
  abbrev pub bar_reuse : ℕ → Bool → String → Pool → Pool
  bar_reuse session_id success message p =
      let p =
        set_sessions (λ s. s.id == session_id && not (is_ended s.state))
          (λ s. record s { reuse_blocked_at = some p.now }) p in
      if success
      then p
      else set_sessions (λ s. s.id == session_id && not (is_ended s.state)) (unclean message p.now)
          p

  abbrev pub place_again : Pool → Outcome
  place_again p = if operational config then place_queued_leases config [] true p else inr p

  abbrev pub finish_release : ℕ → ℕ → Bool → String → Pool → Outcome
  finish_release session_id lease_id success message p =
      and_then
        (λ q. place_again (
          refresh_exact_session_reservations (
            refresh_session_state session_id
              (bar_reuse session_id success (normalized_failure success message) q))))
        (claim_lease
          (λ l. l.id == lease_id && is_at session_id l.session_id && is_releasing l.state)
          (finish_lease (expected_state success) (normalized_failure success message) p.now)
          "lease changed while completing release" p)

  abbrev pub is_replay : Bool → String → Lease → Bool
  is_replay success message l =
      same_state l.state (expected_state success)
      && str_eq l.failure_message (normalized_failure success message)

  abbrev pub release_found : ℕ → Bool → String → Option Lease → Pool → Outcome
  release_found session_id success message none p = inl key_error
  release_found session_id success message (some l) p =
      if not (is_at session_id l.session_id)
      then inl key_error
      else if is_releasing l.state
      then finish_release session_id l.id success message p
      else if is_replay success message l
      then inr p
      else inl (lease_is l.state)

  unfoldable pub complete_release : ℕ → String → ℕ → Bool → String → Pool → Outcome
  unfolding get_session find_lease operational refresh_session_state
      refresh_exact_session_reservations place_queued_leases
  complete_release session_id token lease_id success message p =
      with_session token_hash session_id token p
        (λ s. release_found session_id success message (find_lease p lease_id) p)

  abbrev pub exact_message : ℕ → Bool → String → String
  exact_message i success message = format (
      "exact-session reservation target "
      ∷ show i
      ∷ " "
      ∷ (if str_eq message ""
          then (if success
              then "closed before cohort completion"
              else "failed before cohort completion")
          else format ("failed: " ∷ message ∷ []))
      ∷ [])

  abbrev pub requeued : String → ℕ → Lease → Lease
  requeued message now l = record l {
    state = LeaseState.queued;
    session_id = none;
    slot_index = none;
    requested_allocation_id = 0;
    requested_node_name = "";
    acquired_at = none;
    release_requested_at = none;
    solve_permit_at = none;
    solve_permit_generation = 0;
    failure_message = or_text message "AEDT session died; lease requeued";
    last_heartbeat_at = now;
    expires_at = now + config.lease_ttl_seconds;
  }

  abbrev pub end_occupants : ℕ → Bool → String → Pool → Pool
  end_occupants i requeue_siblings message p =
      if requeue_siblings
      then set_leases (λ l. occupies i l && l.exact_session_reservation_id == 0)
          (requeued message p.now) p
      else set_leases (occupies i)
          (finish_lease LeaseState.failed (or_text message "AEDT session failed") p.now) p

  abbrev pub end_session : Bool → String → ℕ → Session → Session
  end_session success message now s = record s {
    state = if success then SessionState.closed else SessionState.failed;
    failure_message = if success then "" else message;
    closed_at = some now;
  }

  -- A Desktop that failed taints its allocation.
  abbrev pub close_row : Session → Bool → String → Pool → Pool
  close_row s success message p =
      let p = set_sessions (λ o. o.id == s.id) (end_session success message p.now) p in
      if success || s.allocation_id == 0
      then p
      else drain_allocation recycle_reason s.allocation_id p

  abbrev pub close_with : Session → Bool → String → Bool → Pool → Outcome
  close_with s success message requeue_siblings p =
      let live = not (length (occupants p s.id) == 0) in
      if live && success
      then inl (value_error "session still has live project leases")
      else let p =
          fail_exact_session_reservations_for_target s.id (exact_message s.id success message) p in
        let p = if live then end_occupants s.id requeue_siblings message p else p in
        inr (close_row s success message p)

  unfoldable pub close_session : ℕ → String → Bool → String → Bool → Pool → Outcome
  unfolding get_session fail_exact_session_reservations_for_target format show
  close_session i token success message requeue_siblings p =
      with_session token_hash i token p (λ s. close_with s success message requeue_siblings p)
