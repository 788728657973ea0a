-- ===== src/AedtPool/Owners.antt =====
-- A client that owns its project: activate, bind a project name, cancel and release.
pub mod TwoPhase
use slurm_scheduler.Prelude.{
  ℕ, ◌+◌, ◌-◌, ◌/◌, ◌%◌, Bool, true, false, not, ◌&&◌, ◌||◌, Option, none, some, is_some, or_else,
  List, [], ◌∷◌, ◌⊎◌, inl, inr, any, max, min, is_blank, String, Text, codes, text_eq, strip, lower,
  is_empty, mem_str, ltb, leb, ◌==◌, str_eq, if◌then◌else◌,
}
use slurm_scheduler.Store.{SessionState}
use slurm_scheduler.Store.Queries.{is_at, get_allocation}
use slurm_scheduler.AedtPool.{
  LeaseState, ReservationState, Lease, Session, Reservation, Pool, PoolError, lease_is, value_error,
  runtime_error, Outcome, AedtPoolConfig, operational, is_live, is_terminal, is_queued, is_offered,
  is_leased, is_attaching, is_active, is_releasing, is_assignable, is_ended, accepts_projects,
  id_or_zero, find_lease, get_session, set_leases, set_sessions, set_reservations, claim_lease,
  and_then, block_reuse, refresh_session_state, same_state,
}
use slurm_scheduler.AedtPool.Refresh.{
  is_consumed, finish_lease, fail_exact_session_reservation_cohort,
}
use slurm_scheduler.AedtPool.Canary.{cancelled_lease}
use slurm_scheduler.AedtPool.Placement.{place_queued_leases, beats}
use slurm_scheduler.AedtPool.Solve.{grant_solve_batch_if_ready, with_lease, renewed}
use slurm_scheduler.AedtPool.Leases.{older, refresh_own}

module _ (token_hash : String → String) (config : AedtPoolConfig) where
  abbrev pub grant_after : Lease → Pool → Outcome
  grant_after l p = inr (grant_solve_batch_if_ready (id_or_zero l.session_id) false p).0

  abbrev pub activated : ℕ → Lease → Lease
  activated now l = record (renewed config now l) {
    state = LeaseState.active;
    activated_at = or_else l.activated_at (some now);
  }

  unfoldable pub activate_lease : ℕ → String → Pool → Outcome
  unfolding find_lease grant_solve_batch_if_ready
  activate_lease i token p = with_lease token_hash i token p (λ l.
      if is_active l.state
      then inr p
      else if not (if older l then is_leased l.state else is_attaching l.state)
      then inl (lease_is l.state)
      else and_then (grant_after l) (
          claim_lease (λ o. o.id == l.id && same_state o.state l.state) (activated p.now)
            "lease state changed while activating" p))

  abbrev pub is_own : String → Lease → Lease → Bool
  is_own token l o =
      o.id == l.id && same_state o.state l.state && str_eq o.client_token_hash (token_hash token)

  -- Another live lease has the name.
  abbrev pub is_taken : Pool → Lease → String → Bool
  is_taken p l project_name =
      any (λ o. not (o.id == l.id) && str_eq o.project_name project_name && is_live o.state)
        p.leases

  -- The name is the stripped one.
  unfoldable pub bind_lease_project_name : ℕ → String → String → Pool → Outcome
  unfolding find_lease
  bind_lease_project_name i token project_name p =
      if str_eq project_name ""
      then inl (value_error "project_name is required")
      else with_lease token_hash i token p (λ l.
        if is_terminal l.state || is_releasing l.state
        then inl (lease_is l.state)
        else if not (older l) && is_taken p l project_name
        then inl (value_error "project_name is already owned by a live lease")
        else claim_lease (is_own token l) (λ o. record o { project_name = project_name })
            "lease state changed while binding project name" p)

  abbrev pub owns_project : Lease → Bool
  owns_project l =
      is_attaching l.state
      || is_active l.state
      || is_releasing l.state
      || (is_leased l.state && older l)

  abbrev pub request_release : String → ℕ → Lease → Lease
  request_release reason now l = record l {
    state = LeaseState.releasing;
    failure_message = reason;
    release_requested_at = some now;
  }

  abbrev pub changed : String
  changed = "lease state changed while cancelling"

  abbrev pub bar_session : Lease → ℕ → Pool → Pool
  bar_session l now =
      set_sessions (λ s. s.id == id_or_zero l.session_id && not (is_ended s.state))
        (block_reuse now)

  -- Only the host can confirm that an owned project is closed, so its slot stays taken.
  abbrev pub cancel_live : String → String → Lease → Pool → Outcome
  cancel_live token reason l p =
      if owns_project l && not (id_or_zero l.session_id == 0)
      then and_then (λ q. inr (bar_session l p.now q))
          (claim_lease (is_own token l) (request_release reason p.now) changed p)
      else and_then (λ q. inr (refresh_own l q))
          (claim_lease (is_own token l) (cancelled_lease reason p.now) changed p)

  -- The reason is the stripped one.
  unfoldable pub cancel_lease : ℕ → String → String → Pool → Outcome
  unfolding find_lease refresh_session_state
  cancel_lease i token reason p =
      with_lease token_hash i token p
        (λ l. if is_terminal l.state then inr p else cancel_live token reason l p)

  unfoldable pub release_lease : ℕ → String → Pool → Outcome
  unfolding cancel_lease
  release_lease i token p = cancel_lease i token "client released lease" p
