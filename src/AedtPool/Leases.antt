-- ===== src/AedtPool/Leases.antt =====
-- What the client of a lease asks for: its heartbeat, and the acceptance of an offer.
pub mod Beats
use slurm_scheduler.Prelude.{
  ℕ, ◌+◌, ◌-◌, ◌/◌, ◌%◌, Bool, true, false, not, ◌&&◌, ◌||◌, Option, none, some, is_some, or_else,
  List, [], ◌∷◌, ◌⊎◌, inl, inr, any, max, min, is_blank, String, Text, codes, text_eq, strip, lower,
  is_empty, mem_str, ltb, leb, ◌==◌, str_eq, if◌then◌else◌,
}
use slurm_scheduler.Store.{SessionState}
use slurm_scheduler.Store.Queries.{is_at, get_allocation}
use slurm_scheduler.AedtPool.{
  LeaseState, ReservationState, Lease, Session, Reservation, Pool, PoolError, lease_is, value_error,
  runtime_error, Outcome, AedtPoolConfig, operational, is_live, is_terminal, is_queued, is_offered,
  is_leased, is_attaching, is_active, is_releasing, is_assignable, is_ended, accepts_projects,
  id_or_zero, find_lease, get_session, set_leases, set_sessions, set_reservations, claim_lease,
  and_then, block_reuse, refresh_session_state, same_state,
}
use slurm_scheduler.AedtPool.Refresh.{
  is_consumed, finish_lease, fail_exact_session_reservation_cohort,
}
use slurm_scheduler.AedtPool.Canary.{cancelled_lease}
use slurm_scheduler.AedtPool.Placement.{place_queued_leases, beats}
use slurm_scheduler.AedtPool.Solve.{grant_solve_batch_if_ready, with_lease, renewed}

-- HEARTBEAT_PERSIST_MAX_SECONDS is 30.
unfoldable pub heartbeat_persist_interval_seconds : ℕ → ℕ → ℕ
heartbeat_persist_interval_seconds timeout_seconds identity =
    let ceiling = max 1 (min 30 (max 1 (timeout_seconds / 3))) in
    let spread = min 6 (ceiling - 1) in
    ceiling - (if spread == 0 then 0 else identity % (spread + 1))

unfoldable pub heartbeat_is_fresh : ℕ → ℕ → ℕ → Bool
heartbeat_is_fresh value now interval_seconds =
    leb value now && ltb (now - value) (max 1 interval_seconds)

abbrev pub phases : List String
phases = "" ∷ "waiting" ∷ "attaching" ∷ "solving" ∷ "postprocess" ∷ "releasing" ∷ []

abbrev pub older : Lease → Bool
older l = ltb l.protocol_version 2

abbrev pub refresh_own : Lease → Pool → Pool
refresh_own l p =
    if id_or_zero l.session_id == 0 then p else refresh_session_state (id_or_zero l.session_id) p

-- The phase is the normalised one, an empty one for none.
module _ (token_hash : String → String) (config : AedtPoolConfig) where
  abbrev pub beaten : ℕ → String → Lease → Lease
  beaten now phase l = record (renewed config now l) {
    state = if older l && is_leased l.state then LeaseState.active else l.state;
    offer_expires_at =
        if not (older l) && is_offered l.state
        then some (now + config.offer_ack_seconds)
        else l.offer_expires_at;
    fault_phase = if str_eq phase "" then l.fault_phase else phase;
  }

  abbrev pub needs_no_write : ℕ → String → Lease → Bool
  needs_no_write now phase l =
      (is_attaching l.state || is_active l.state || is_releasing l.state)
      && (str_eq phase "" || str_eq phase l.fault_phase)
      && heartbeat_is_fresh l.last_heartbeat_at now
          (heartbeat_persist_interval_seconds config.lease_ttl_seconds l.id)

  abbrev pub place_if_queued : Lease → Pool → Outcome
  place_if_queued l p =
      if is_queued l.state && operational config
      then place_queued_leases config (l.id ∷ []) true p
      else inr p

  abbrev pub write_beat : String → String → Lease → Pool → Outcome
  write_beat token phase l p = and_then (place_if_queued l) (
      claim_lease
        (λ o.
          o.id == l.id
          && same_state o.state l.state
          && str_eq o.client_token_hash (token_hash token))
        (beaten p.now phase) "lease state changed while heartbeating" p)

  -- The read before the write and the write see the same rows.
  unfoldable pub heartbeat_lease : ℕ → String → String → Pool → Outcome
  unfolding heartbeat_persist_interval_seconds heartbeat_is_fresh operational find_lease
      place_queued_leases
  heartbeat_lease i token phase p =
      if not (mem_str phase phases)
      then inl (value_error "invalid lease heartbeat phase")
      else with_lease token_hash i token p (λ l.
        if is_terminal l.state
        then inl (lease_is l.state)
        else if needs_no_write p.now phase l
        then inr p
        else write_beat token phase l p)

  abbrev pub get_reservation : Pool → Lease → Option Reservation
  get_reservation p l =
      if l.exact_session_reservation_id == 0
      then none
      else slurm_scheduler.AedtPool.Placement.get_reservation p l.exact_session_reservation_id

  abbrev exact_target_invalid : Lease → Option Reservation → Bool
  exact_target_invalid l none = not (l.exact_session_reservation_id == 0)
  exact_target_invalid l (some r) =
      not (is_consumed r.state)
      || not (is_at l.id r.lease_id)
      || not (r.session_id == id_or_zero l.session_id)
      || not (r.session_generation == l.requested_session_generation)
      || not (str_eq r.session_profile l.session_profile)
      || (not (str_eq r.workload_family "")
          && (not (str_eq r.workload_family l.workload_family)
              || not (str_eq r.isolation_policy l.isolation_policy)))

  abbrev allocation_open : Pool → ℕ → Bool
  allocation_open p i = elim (get_allocation p.db i) [
    | none ↦ false
    | some a ↦ accepts_projects a.state
  ]

  -- The session of an offer is still the one that was offered, and alive.
  abbrev pub session_valid : Pool → Lease → Option Session → Bool
  session_valid p l none = false
  session_valid p l (some s) =
      is_assignable s.state
      && allocation_open p s.allocation_id
      && not (is_some s.solve_batch_sealed_at)
      && not (is_some s.drain_requested_at)
      && (l.requested_session_id == 0 || s.id == l.requested_session_id)
      && (l.requested_session_generation == 0 || s.generation == l.requested_session_generation)
      && str_eq s.session_profile l.session_profile
      && beats config.session_heartbeat_timeout_seconds p.now s.last_heartbeat_at
      && not (is_blank s.endpoint)
      && not (is_blank s.process_id)

  abbrev pub hard_target_invalid : Pool → Lease → Bool
  hard_target_invalid p l =
      exact_target_invalid l (get_reservation p l)
      || not (session_valid p l (get_session p (id_or_zero l.session_id)))

  abbrev pub offer_live : ℕ → Lease → Bool
  offer_live now l = elim l.offer_expires_at [ none ↦ false | some expires ↦ ltb now expires ]

  abbrev reuse_pending : Pool → Option Session → Bool
  reuse_pending p none = false
  reuse_pending p (some s) =
      is_some s.reuse_blocked_at
      || any (λ o. is_at s.id o.session_id && is_releasing o.state) p.leases

  abbrev pub transient_invalid : Pool → Lease → Bool
  transient_invalid p l =
      not (offer_live p.now l) || reuse_pending p (get_session p (id_or_zero l.session_id))

  abbrev pub fail_cohort : Option Reservation → String → Pool → Pool
  fail_cohort none message p = p
  fail_cohort (some r) message p =
      fail_exact_session_reservation_cohort r.reservation_key message false p

  abbrev pub ownership_message : String
  ownership_message =
      "exact-session reservation target failed accept-time ownership/liveness validation"

  abbrev pub fail_offer : Lease → Pool → Pool
  fail_offer l p = refresh_own l (
      set_leases (λ o. o.id == l.id && is_offered o.state)
        (finish_lease LeaseState.failed ownership_message p.now)
        (fail_cohort (get_reservation p l) ownership_message p))

  abbrev pub requeued : ℕ → Lease → Lease
  requeued now l = record (renewed config now l) {
    state = LeaseState.queued;
    session_id = none;
    slot_index = none;
    acquired_at = none;
    offered_at = none;
    offer_expires_at = none;
    accepted_at = none;
    activated_at = none;
    solve_permit_at = none;
    solve_permit_generation = 0;
    failure_message = "session reuse/liveness changed before offer acceptance";
  }

  abbrev pub is_consumed_by : Lease → Reservation → Bool
  is_consumed_by l r =
      r.id == l.exact_session_reservation_id && is_at l.id r.lease_id && is_consumed r.state

  abbrev pub put_back : Lease → Pool → Pool
  put_back l p =
      set_reservations (is_consumed_by l)
        (λ r. record r { state = ReservationState.claimed; consumed_at = none }) p

  abbrev pub restore_claim : Lease → Pool → Outcome
  restore_claim l p =
      if l.exact_session_reservation_id == 0
      then inr p
      else if any (is_consumed_by l) p.reservations
      then inr (put_back l p)
      else inl runtime_error

  abbrev pub revoke_offer : Lease → Pool → Outcome
  revoke_offer l p =
      and_then (λ q. inr (refresh_own l q))
        (and_then (restore_claim l) (
          claim_lease (λ o. o.id == l.id && is_offered o.state) (requeued p.now)
            "lease changed while revoking stale offer" p))

  abbrev pub accept_offer : Lease → Pool → Outcome
  accept_offer l p =
      if hard_target_invalid p l || transient_invalid p l
      then (if not (l.exact_session_reservation_id == 0) && hard_target_invalid p l
          then inr (fail_offer l p)
          else revoke_offer l p)
      else claim_lease (λ o. o.id == l.id && is_offered o.state && offer_live p.now o)
          (λ o. record (renewed config p.now o) {
            state = LeaseState.attaching;
            accepted_at = some p.now;
          })
          "lease offer expired or was already claimed" p

  unfoldable pub accept_lease : ℕ → String → Pool → Outcome
  unfolding find_lease get_session fail_exact_session_reservation_cohort refresh_session_state
  accept_lease i token p = with_lease token_hash i token p (λ l.
      if older l
      then (if is_leased l.state || is_active l.state then inr p else inl (lease_is l.state))
      else if is_attaching l.state || is_active l.state
      then inr p
      else if is_offered l.state
      then accept_offer l p
      else inl (lease_is l.state))
