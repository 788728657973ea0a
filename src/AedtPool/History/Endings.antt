-- ===== src/AedtPool/History/Endings.antt =====
-- The ends of projects and sessions leave ended leases alone.
use slurm_scheduler.Prelude.{
  ℕ, Bool, true, false, not, ◌&&◌, ◌||◌, Option, none, some, is_some, [], inl, inr, String, ◌≡◌,
  refl, length, arith, any, str_eq, ◌==◌, if◌then◌else◌,
}
use slurm_scheduler.Store.Queries.{is_at}
use slurm_scheduler.AedtPool.{
  LeaseState, Lease, Session, Pool, lease_is, value_error, key_error, AedtPoolConfig, operational,
  is_terminal, is_active, is_leased, is_attaching, is_releasing, id_or_zero, find_lease,
  get_session, claim_lease, and_then, refresh_session_state, same_state, occupies, occupants,
  holds_slot,
}
use slurm_scheduler.AedtPool.Refresh.{finish_lease, fail_exact_session_reservations_for_target}
use slurm_scheduler.AedtPool.Upkeep.{refresh_exact_session_reservations}
use slurm_scheduler.AedtPool.Canary.{cancelled_lease}
use slurm_scheduler.AedtPool.Placement.{place_queued_leases}
use slurm_scheduler.AedtPool.Solve.{
  request_solve_permit, renew_waiting, complete_native_pipeline, complete_pipeline, is_granted_row,
  was_granted, renewed, mark_complete, grant_solve_batch_if_ready,
}
use slurm_scheduler.AedtPool.Leases.{older, refresh_own}
use slurm_scheduler.AedtPool.Owners.{
  activate_lease, activated, grant_after, bind_lease_project_name, is_taken, cancel_live, is_own,
  owns_project, cancel_lease, request_release, bar_session, changed,
}
use slurm_scheduler.AedtPool.Release.{
  complete_release, release_found, finish_release, is_replay, bar_reuse, place_again,
  expected_state, normalized_failure, close_session, close_with, end_occupants, close_row, requeued,
  exact_message,
}
use slurm_scheduler.AedtPool.History.{
  Follows, Keeps, follows_refl, follows_trans, follows-set, follows-map, Keeps-if, Keeps-and_then,
  Keeps-claim, Keeps-with_lease, Keeps-with_session, off_ended, off_right, off_left, off_same,
}
use slurm_scheduler.AedtPool.History.Writes.{fail-target-Keeps, refresh-exact-Keeps}
use slurm_scheduler.AedtPool.History.Placing.{follows-if, place_queued-Keeps, grant-Keeps}
use slurm_scheduler.AedtPool.History.Operations.{claim-same, own-Keeps}

ended-releasing : (x : LeaseState) → is_terminal x ≡ true → is_releasing x ≡ false
ended-releasing = off_ended is_releasing refl refl refl refl

ended-holds : (x : LeaseState) → is_terminal x ≡ true → holds_slot x ≡ false
ended-holds = off_ended holds_slot refl refl refl refl

-- A lease that is ready to be activated is live.
ready-live :
    (b : Bool) (x : LeaseState)
    → not (if b then is_leased x else is_attaching x) ≡ false
    → is_terminal x ≡ false
ready-live b x h =
    ground (
      arith,
      off_ended is_leased refl refl refl refl x,
      off_ended is_attaching refl refl refl refl x,
    )

module _ (token_hash : String → String) (config : AedtPoolConfig) where
  pub permit-Keeps :
      (i : ℕ) (token : String) (seal : Bool) (p : Pool)
      → Keeps p (request_solve_permit token_hash config i token seal p)
  unfolding request_solve_permit
  permit-Keeps i token seal p =
      let q = renew_waiting token_hash config i token p in
      Keeps-with_lease token_hash token p (find_lease p i) _ (λ l.
        Keeps-if p (not (is_active l.state)) (inl (lease_is l.state))
          (inr (grant_solve_batch_if_ready (id_or_zero l.session_id) seal q).0) (λ h. tt)
          (λ h.
            follows_trans p.leases q.leases
              (grant_solve_batch_if_ready (id_or_zero l.session_id) seal q).0.leases
              (follows-map
                (λ o.
                  o.id == i && is_active o.state && str_eq o.client_token_hash (token_hash token))
                (λ o. record (renewed config p.now o) { fault_phase = "waiting" }) p.leases
                (λ o. (refl, refl, λ e. refl)))
              (grant-Keeps (id_or_zero l.session_id) seal q)))

  pipeline-Keeps :
      (i : ℕ) (token : String) (generation : ℕ) (l : Lease) (p : Pool)
      → Keeps p (complete_pipeline token_hash config i token generation l p)
  pipeline-Keeps i token generation l p =
      let session_id = id_or_zero l.session_id in
      Keeps-if p
        (not (is_some l.solve_permit_at) || session_id == 0 || l.solve_permit_generation == 0)
        (inl _) _ (λ h. tt)
        (λ h.
          Keeps-if p (not (generation == l.solve_permit_generation)) (inl _) _ (λ g. tt)
            (λ g.
              Keeps-if p (not (any (was_granted session_id generation) p.leases)) (inl _) _
                (λ e. tt)
                (λ e.
                  Keeps-claim p (is_granted_row token_hash config i token session_id generation)
                    (mark_complete token_hash config p.now session_id generation) _
                    (follows-map (is_granted_row token_hash config i token session_id generation)
                      (mark_complete token_hash config p.now session_id generation) p.leases
                      (λ o. (refl, refl, λ d. refl))))))

  pub complete-Keeps :
      (i : ℕ) (token : String) (generation : ℕ) (p : Pool)
      → Keeps p (complete_native_pipeline token_hash config i token generation p)
  unfolding complete_native_pipeline
  complete-Keeps i token generation p =
      Keeps-if p (generation == 0)
        (inl (value_error "solve_permit_generation must be a positive integer")) _ (λ h. tt)
        (λ h. Keeps-with_lease token_hash token p (find_lease p i) _ (λ l.
          Keeps-if p (is_active l.state)
            (complete_pipeline token_hash config i token generation l p) (inl (lease_is l.state))
            (λ g. pipeline-Keeps i token generation l p) (λ g. tt)))

  pub activate-Keeps :
      (i : ℕ) (token : String) (p : Pool) → Keeps p (activate_lease token_hash config i token p)
  unfolding activate_lease
  activate-Keeps i token p = Keeps-with_lease token_hash token p (find_lease p i) _ (λ l.
      Keeps-if p (is_active l.state) (inr p) _ (λ h. follows_refl p.leases)
        (λ h.
          Keeps-if p (not (if older l then is_leased l.state else is_attaching l.state))
            (inl (lease_is l.state)) _ (λ g. tt)
            (λ g.
              Keeps-and_then p (grant_after token_hash config l)
                (claim_lease (λ o. o.id == l.id && same_state o.state l.state)
                  (activated token_hash config p.now) "lease state changed while activating" p)
                (Keeps-claim p (λ o. o.id == l.id && same_state o.state l.state)
                  (activated token_hash config p.now) _
                  (follows-set (λ o. o.id == l.id && same_state o.state l.state)
                    (activated token_hash config p.now) p.leases (λ o. (refl, refl))
                    (λ o e.
                      off_right (o.id == l.id) (same_state o.state l.state)
                        (off_same o.state l.state (ready-live (older l) l.state g) e))))
                (λ q. grant-Keeps (id_or_zero l.session_id) false q))))

  pub bind-Keeps :
      (i : ℕ) (token name : String) (p : Pool)
      → Keeps p (bind_lease_project_name token_hash config i token name p)
  unfolding bind_lease_project_name
  bind-Keeps i token name p =
      Keeps-if p (str_eq name "") (inl (value_error "project_name is required")) _ (λ h. tt)
        (λ h. Keeps-with_lease token_hash token p (find_lease p i) _ (λ l.
          Keeps-if p (is_terminal l.state || is_releasing l.state) (inl (lease_is l.state)) _
            (λ g. tt)
            (λ g.
              Keeps-if p (not (older l) && is_taken token_hash config p l name)
                (inl (value_error "project_name is already owned by a live lease")) _ (λ e. tt)
                (λ e.
                  Keeps-claim p (is_own token_hash config token l)
                    (λ o. record o { project_name = name }) _
                    (follows-map (is_own token_hash config token l)
                      (λ o. record o { project_name = name }) p.leases
                      (λ o. (refl, refl, λ d. refl)))))))

  own-claim :
      (token : String) (f : Lease → Lease) (l : Lease) (p : Pool)
      → ((o : Lease) → ((f o).id ≡ o.id) × ((f o).client_token_hash ≡ o.client_token_hash))
      → is_terminal l.state ≡ false
      → Keeps p (claim_lease (is_own token_hash config token l) f (changed token_hash config) p)
  own-claim token f l p same live =
      claim-same l (λ o. str_eq o.client_token_hash (token_hash token)) f _ p same live

  cancel_live-Keeps :
      (token reason : String) (l : Lease) (p : Pool)
      → is_terminal l.state ≡ false
      → Keeps p (cancel_live token_hash config token reason l p)
  cancel_live-Keeps token reason l p live =
      Keeps-if p (owns_project token_hash config l && not (id_or_zero l.session_id == 0))
        (and_then (λ q. inr (bar_session token_hash config l p.now q))
          (claim_lease (is_own token_hash config token l)
            (request_release token_hash config reason p.now) (changed token_hash config) p))
        (and_then (λ q. inr (refresh_own l q))
          (claim_lease (is_own token_hash config token l) (cancelled_lease reason p.now)
            (changed token_hash config) p))
        (λ h.
          Keeps-and_then p (λ q. inr (bar_session token_hash config l p.now q))
            (claim_lease (is_own token_hash config token l)
              (request_release token_hash config reason p.now) (changed token_hash config) p)
            (own-claim token (request_release token_hash config reason p.now) l p
              (λ o. (refl, refl)) live)
            (λ q. follows_refl q.leases))
        (λ h.
          Keeps-and_then p (λ q. inr (refresh_own l q))
            (claim_lease (is_own token_hash config token l) (cancelled_lease reason p.now)
              (changed token_hash config) p)
            (own-claim token (cancelled_lease reason p.now) l p (λ o. (refl, refl)) live)
            (own-Keeps l))

  pub cancel-Keeps :
      (i : ℕ) (token reason : String) (p : Pool)
      → Keeps p (cancel_lease token_hash config i token reason p)
  unfolding cancel_lease
  cancel-Keeps i token reason p = Keeps-with_lease token_hash token p (find_lease p i) _ (λ l.
      Keeps-if p (is_terminal l.state) (inr p) (cancel_live token_hash config token reason l p)
        (λ h. follows_refl p.leases) (cancel_live-Keeps token reason l p))

  again-Keeps : (p : Pool) → Keeps p (place_again token_hash config p)
  again-Keeps p =
      Keeps-if p (operational config) (place_queued_leases config [] true p) (inr p)
        (λ h. place_queued-Keeps config [] true p) (λ h. follows_refl p.leases)

  bar-Keeps :
      (i : ℕ) (success : Bool) (message : String) (p : Pool)
      → Follows p.leases (bar_reuse token_hash config i success message p).leases
  bar-Keeps i true message p = follows_refl p.leases
  bar-Keeps i false message p = follows_refl p.leases

  after-release :
      (i : ℕ) (success : Bool) (message : String) (p : Pool)
      → Keeps p (
          place_again token_hash config (
            refresh_exact_session_reservations
              (refresh_session_state i (bar_reuse token_hash config i success message p))))
  unfolding refresh_session_state
  after-release i success message p =
      let q = refresh_session_state i (bar_reuse token_hash config i success message p) in
      Keeps-and_then p (place_again token_hash config) (inr (refresh_exact_session_reservations q))
        (follows_trans p.leases q.leases (refresh_exact_session_reservations q).leases
          (bar-Keeps i success message p) (refresh-exact-Keeps q))
        again-Keeps

  finish-Keeps :
      (i lease_id : ℕ) (success : Bool) (message : String) (p : Pool)
      → Keeps p (finish_release token_hash config i lease_id success message p)
  finish-Keeps i lease_id success message p =
      let failure = normalized_failure token_hash config success message in
      let aim = λ (l : Lease). l.id == lease_id && is_at i l.session_id && is_releasing l.state in
      let f = finish_lease (expected_state token_hash config success) failure p.now in
      Keeps-and_then p
        (λ q. place_again token_hash config (
          refresh_exact_session_reservations
            (refresh_session_state i (bar_reuse token_hash config i success failure q))))
        (claim_lease aim f "lease changed while completing release" p)
        (Keeps-claim p aim f _ (
          follows-set aim f p.leases (λ o. (refl, refl))
            (λ o h.
              off_right (o.id == lease_id && is_at i o.session_id) (is_releasing o.state)
                (ended-releasing o.state h))))
        (after-release i success failure)

  found-Keeps :
      (i : ℕ) (success : Bool) (message : String) (l : Option Lease) (p : Pool)
      → Keeps p (release_found token_hash config i success message l p)
  found-Keeps i success message none p = tt
  found-Keeps i success message (some l) p =
      Keeps-if p (not (is_at i l.session_id)) (inl key_error) _ (λ h. tt)
        (λ h.
          Keeps-if p (is_releasing l.state)
            (finish_release token_hash config i l.id success message p) _
            (λ g. finish-Keeps i l.id success message p)
            (λ g.
              Keeps-if p (is_replay token_hash config success message l) (inr p)
                (inl (lease_is l.state)) (λ e. follows_refl p.leases) (λ e. tt)))

  pub release-Keeps :
      (i : ℕ) (token : String) (lease_id : ℕ) (success : Bool) (message : String) (p : Pool)
      → Keeps p (complete_release token_hash config i token lease_id success message p)
  unfolding complete_release
  release-Keeps i token lease_id success message p =
      Keeps-with_session token_hash token p (get_session p i) _
        (λ s. found-Keeps i success message (find_lease p lease_id) p)

  occupants-keep :
      (i : ℕ) (requeue : Bool) (message : String) (p : Pool)
      → Follows p.leases (end_occupants token_hash config i requeue message p).leases
  occupants-keep i true message p =
      follows-set (λ l. occupies i l && l.exact_session_reservation_id == 0)
        (requeued token_hash config message p.now) p.leases (λ o. (refl, refl))
        (λ o h.
          off_left (occupies i o) (o.exact_session_reservation_id == 0)
            (off_right (is_at i o.session_id) (holds_slot o.state) (ended-holds o.state h)))
  occupants-keep i false message p =
      follows-set (occupies i) _ p.leases (λ o. (refl, refl))
        (λ o h. off_right (is_at i o.session_id) (holds_slot o.state) (ended-holds o.state h))

  close_with-Keeps :
      (s : Session) (success : Bool) (message : String) (requeue : Bool) (p : Pool)
      → Keeps p (close_with token_hash config s success message requeue p)
  close_with-Keeps s success message requeue p =
      let live = not (length (occupants p s.id) == 0) in
      let q =
        fail_exact_session_reservations_for_target s.id
          (exact_message token_hash config s.id success message) p in
      let r = if live then end_occupants token_hash config s.id requeue message q else q in
      let z = close_row token_hash config s success message r in
      Keeps-if p (live && success) (inl (value_error "session still has live project leases"))
        (inr _) (λ h. tt)
        (λ h. follows_trans p.leases q.leases z.leases (fail-target-Keeps s.id _ p) (
          follows-if q.leases (success || s.allocation_id == 0) _ _
            (follows-if q.leases live (end_occupants token_hash config s.id requeue message q) q
              (occupants-keep s.id requeue message q) (follows_refl q.leases))
            (follows-if q.leases live (end_occupants token_hash config s.id requeue message q) q
              (occupants-keep s.id requeue message q) (follows_refl q.leases))))

  pub close-Keeps :
      (i : ℕ) (token : String) (success : Bool) (message : String) (requeue : Bool) (p : Pool)
      → Keeps p (close_session token_hash config i token success message requeue p)
  unfolding close_session
  close-Keeps i token success message requeue p =
      Keeps-with_session token_hash token p (get_session p i) _
        (λ s. close_with-Keeps s success message requeue p)
