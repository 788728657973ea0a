-- ===== src/AedtPool/History/Operations.antt =====
-- The operations of clients and hosts leave ended leases alone.
use slurm_scheduler.Prelude.{
  ℕ, Bool, true, false, not, ◌&&◌, ◌||◌, Option, none, some, [], ◌∷◌, inl, inr, String, ◌≡◌, refl,
  any, mem_str, str_eq, ◌==◌,
}
use slurm_scheduler.AedtPool.{
  LeaseState, Lease, Reservation, Pool, runtime_error, lease_is, value_error, AedtPoolConfig,
  operational, is_terminal, is_queued, is_active, is_offered, is_leased, is_attaching, id_or_zero,
  find_lease, set_leases, claim_lease, and_then, refresh_session_state, same_state,
}
use slurm_scheduler.AedtPool.Refresh.{finish_lease}
use slurm_scheduler.AedtPool.Placement.{place_queued_leases}
use slurm_scheduler.AedtPool.Leases.{
  older, refresh_own, beaten, needs_no_write, place_if_queued, write_beat, heartbeat_lease, phases,
  hard_target_invalid, transient_invalid, fail_offer, fail_cohort, get_reservation,
  ownership_message, requeued, restore_claim, revoke_offer, accept_offer, offer_live, accept_lease,
  is_consumed_by, put_back,
}
use slurm_scheduler.AedtPool.History.{
  Follows, Keeps, follows_refl, follows_trans, follows-set, Keeps-if, Keeps-and_then, Keeps-claim,
  Keeps-with_lease, off_ended, off_right, off_left, off_same,
}
use slurm_scheduler.AedtPool.History.Writes.{fail-cohort-Keeps}
use slurm_scheduler.AedtPool.History.Placing.{follows-if, place_queued-Keeps}

ended-offered : (x : LeaseState) → is_terminal x ≡ true → is_offered x ≡ false
ended-offered = off_ended is_offered refl refl refl refl

pub ended-active : (x : LeaseState) → is_terminal x ≡ true → is_active x ≡ false
ended-active = off_ended is_active refl refl refl refl

pub own-Keeps : (l : Lease) (p : Pool) → Follows p.leases (refresh_own l p).leases
unfolding refresh_session_state
own-Keeps l p =
    follows-if p.leases (id_or_zero l.session_id == 0) p _ (follows_refl p.leases)
      (follows_refl p.leases)

-- A write that is aimed at the row of a live lease in its state.
pub claim-same :
    (l : Lease) (hash : Lease → Bool) (f : Lease → Lease) (message : String) (p : Pool)
    → ((o : Lease) → ((f o).id ≡ o.id) × ((f o).client_token_hash ≡ o.client_token_hash))
    → is_terminal l.state ≡ false
    → Keeps p (claim_lease (λ o. o.id == l.id && same_state o.state l.state && hash o) f message p)
claim-same l hash f message p same live =
    Keeps-claim p (λ o. o.id == l.id && same_state o.state l.state && hash o) f message
      (follows-set (λ o. o.id == l.id && same_state o.state l.state && hash o) f p.leases same
        (λ o h. off_left (o.id == l.id && same_state o.state l.state) (hash o) (
          off_right (o.id == l.id) (same_state o.state l.state) (off_same o.state l.state live h))))

claim-offered :
    (i : ℕ) (more : Lease → Bool) (f : Lease → Lease) (message : String) (p : Pool)
    → ((o : Lease) → ((f o).id ≡ o.id) × ((f o).client_token_hash ≡ o.client_token_hash))
    → Follows p.leases (set_leases (λ o. o.id == i && is_offered o.state && more o) f p).leases
claim-offered i more f message p same =
    follows-set (λ o. o.id == i && is_offered o.state && more o) f p.leases same
      (λ o h.
        off_left (o.id == i && is_offered o.state) (more o)
          (off_right (o.id == i) (is_offered o.state) (ended-offered o.state h)))

set-offered :
    (i : ℕ) (f : Lease → Lease) (p : Pool)
    → ((o : Lease) → ((f o).id ≡ o.id) × ((f o).client_token_hash ≡ o.client_token_hash))
    → Follows p.leases (set_leases (λ o. o.id == i && is_offered o.state) f p).leases
set-offered i f p same =
    follows-set (λ o. o.id == i && is_offered o.state) f p.leases same
      (λ o h. off_right (o.id == i) (is_offered o.state) (ended-offered o.state h))

module _ (token_hash : String → String) (config : AedtPoolConfig) where
  queued-Keeps : (l : Lease) (p : Pool) → Keeps p (place_if_queued token_hash config l p)
  queued-Keeps l p =
      Keeps-if p (is_queued l.state && operational config)
        (place_queued_leases config (l.id ∷ []) true p) (inr p)
        (λ h. place_queued-Keeps config (l.id ∷ []) true p) (λ h. follows_refl p.leases)

  beat-Keeps :
      (token phase : String) (l : Lease) (p : Pool)
      → is_terminal l.state ≡ false
      → Keeps p (write_beat token_hash config token phase l p)
  beat-Keeps token phase l p live =
      Keeps-and_then p (place_if_queued token_hash config l)
        (claim_lease
          (λ o.
            o.id == l.id
            && same_state o.state l.state
            && str_eq o.client_token_hash (token_hash token))
          (beaten token_hash config p.now phase) "lease state changed while heartbeating" p)
        (claim-same l (λ o. str_eq o.client_token_hash (token_hash token))
          (beaten token_hash config p.now phase) _ p (λ o. (refl, refl)) live)
        (queued-Keeps l)

  pub heartbeat-Keeps :
      (i : ℕ) (token phase : String) (p : Pool)
      → Keeps p (heartbeat_lease token_hash config i token phase p)
  unfolding heartbeat_lease
  heartbeat-Keeps i token phase p =
      Keeps-if p (not (mem_str phase phases)) (inl (value_error "invalid lease heartbeat phase")) _
        (λ h. tt)
        (λ h. Keeps-with_lease token_hash token p (find_lease p i) _ (λ l.
          Keeps-if p (is_terminal l.state) (inl (lease_is l.state)) _ (λ e. tt)
            (λ live.
              Keeps-if p (needs_no_write token_hash config p.now phase l) (inr p)
                (write_beat token_hash config token phase l p) (λ g. follows_refl p.leases)
                (λ g. beat-Keeps token phase l p live))))

  cohort-Keeps :
      (r : Option Reservation) (message : String) (p : Pool)
      → Follows p.leases (fail_cohort token_hash config r message p).leases
  cohort-Keeps none message p = follows_refl p.leases
  cohort-Keeps (some r) message p = fail-cohort-Keeps r.reservation_key message false p

  fail_offer-Keeps :
      (l : Lease) (p : Pool) → Follows p.leases (fail_offer token_hash config l p).leases
  fail_offer-Keeps l p =
      let message = ownership_message token_hash config in
      let q = fail_cohort token_hash config (get_reservation token_hash config p l) message p in
      let r =
        set_leases (λ o. o.id == l.id && is_offered o.state)
          (finish_lease LeaseState.failed message p.now) q in
      follows_trans p.leases q.leases (fail_offer token_hash config l p).leases
        (cohort-Keeps (get_reservation token_hash config p l) message p)
        (follows_trans q.leases r.leases (refresh_own l r).leases
          (set-offered l.id (finish_lease LeaseState.failed message p.now) q (λ o. (refl, refl)))
          (own-Keeps l r))

  restore-Keeps : (l : Lease) (p : Pool) → Keeps p (restore_claim token_hash config l p)
  restore-Keeps l p =
      Keeps-if p (l.exact_session_reservation_id == 0) (inr p) _ (λ h. follows_refl p.leases)
        (λ h.
          Keeps-if p (any (is_consumed_by token_hash config l) p.reservations)
            (inr (put_back token_hash config l p)) (inl runtime_error) (λ g. follows_refl p.leases)
            (λ g. tt))

  revoke-Keeps : (l : Lease) (p : Pool) → Keeps p (revoke_offer token_hash config l p)
  revoke-Keeps l p =
      let claim =
        claim_lease (λ o. o.id == l.id && is_offered o.state) (requeued token_hash config p.now)
          "lease changed while revoking stale offer" p in
      Keeps-and_then p (λ q. inr (refresh_own l q))
        (and_then (restore_claim token_hash config l) claim)
        (Keeps-and_then p (restore_claim token_hash config l) claim
          (Keeps-claim p _ _ _
            (set-offered l.id (requeued token_hash config p.now) p (λ o. (refl, refl))))
          (restore-Keeps l))
        (own-Keeps l)

  offer-Keeps : (l : Lease) (p : Pool) → Keeps p (accept_offer token_hash config l p)
  offer-Keeps l p =
      Keeps-if p
        (hard_target_invalid token_hash config p l || transient_invalid token_hash config p l) _ _
        (λ h.
          Keeps-if p
            (not (l.exact_session_reservation_id == 0) && hard_target_invalid token_hash config p l)
            (inr (fail_offer token_hash config l p)) (revoke_offer token_hash config l p)
            (λ g. fail_offer-Keeps l p) (λ g. revoke-Keeps l p))
        (λ h.
          Keeps-claim p _ _ _
            (claim-offered l.id (offer_live token_hash config p.now) _ "" p (λ o. (refl, refl))))

  pub accept-Keeps :
      (i : ℕ) (token : String) (p : Pool) → Keeps p (accept_lease token_hash config i token p)
  unfolding accept_lease
  accept-Keeps i token p = Keeps-with_lease token_hash token p (find_lease p i) _ (λ l.
      Keeps-if p (older l) _ _
        (λ h.
          Keeps-if p (is_leased l.state || is_active l.state) (inr p) (inl (lease_is l.state))
            (λ g. follows_refl p.leases) (λ g. tt))
        (λ h.
          Keeps-if p (is_attaching l.state || is_active l.state) (inr p) _
            (λ g. follows_refl p.leases)
            (λ g.
              Keeps-if p (is_offered l.state) (accept_offer token_hash config l p)
                (inl (lease_is l.state)) (λ e. offer-Keeps l p) (λ e. tt))))
