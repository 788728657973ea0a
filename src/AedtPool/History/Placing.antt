-- ===== src/AedtPool/History/Placing.antt =====
-- Placement and solve waves leave ended leases alone.
use slurm_scheduler.Prelude.{
  ℕ, ◌+◌, Bool, true, false, not, ◌&&◌, ◌||◌, Option, none, some, is_some, List, [], ◌∷◌, keep, inl,
  inr, ◌≡◌, refl, arith, any, is_empty, str_eq, ◌==◌, if◌then◌else◌,
}
use slurm_scheduler.AedtPool.{
  LeaseState, Lease, Session, Pool, runtime_error, Outcome, AedtPoolConfig, operational,
  is_terminal, is_live, is_queued, is_active, is_assignable, get_session, set_leases,
  refresh_session_state,
}
use slurm_scheduler.Store.Queries.{is_at}
use slurm_scheduler.AedtPool.Placement.{
  place_lease, place_all, place_on, put_in_slot, settle_place, consume, is_placeable, offer,
  slot_on, select_session, may_place, place_queued_leases, queued_leases, is_claim, last_id,
  has_deadline_after,
}
use slurm_scheduler.AedtPool.Upkeep.{refresh_exact_session_reservations}
use slurm_scheduler.AedtPool.Canary.{refresh_mixed_canary_admissions}
use slurm_scheduler.AedtPool.Solve.{
  grant_wave, gets_permit, give_permit, selected, seal_batch, next_generation, follow_wave,
  continue_wave, refuse_continuation, waiting_on, may_seal, was_granted, is_attested,
  grant_on_session, grant_if_assignable, grant_solve_batch_if_ready, is_waiting,
}
use slurm_scheduler.AedtPool.History.{
  Follows, Keeps, follows_refl, follows_trans, follows-set, Keeps-if, Keeps-and_then, off_ended,
  off_right, off_left,
}
use slurm_scheduler.AedtPool.History.Writes.{refresh-exact-Keeps, refresh-mixed-Keeps}

ended-queued : (x : LeaseState) → is_terminal x ≡ true → is_queued x ≡ false
ended-queued = off_ended is_queued refl refl refl refl

ended-active : (x : LeaseState) → is_terminal x ≡ true → is_active x ≡ false
ended-active = off_ended is_active refl refl refl refl

pub follows-if :
    (ls : List Lease) (b : Bool) (p q : Pool)
    → Follows ls p.leases
    → Follows ls q.leases
    → Follows ls (if b then p else q).leases
follows-if ls true p q f g = f
follows-if ls false p q f g = g

module _ (config : AedtPoolConfig) where
  offer-Keeps :
      (l : Lease) (s : Session) (slot : ℕ) (p : Pool)
      → Follows p.leases (set_leases (is_placeable p.now l) (offer config p.now s slot) p).leases
  offer-Keeps l s slot p =
      follows-set (is_placeable p.now l) (offer config p.now s slot) p.leases (λ o. (refl, refl))
        (λ o h.
          off_left (o.id == l.id && is_queued o.state)
            (has_deadline_after p.now o.client_deadline_at)
            (off_right (o.id == l.id) (is_queued o.state) (ended-queued o.state h)))

  consume-Keeps : (l : Lease) (p : Pool) → Keeps p (consume l p)
  consume-Keeps l p =
      Keeps-if p (l.exact_session_reservation_id == 0) _ _ (λ h. follows_refl p.leases)
        (λ h.
          Keeps-if p (any (is_claim l) p.reservations) _ (inl runtime_error)
            (λ g. follows_refl p.leases) (λ g. tt))

  settle-Keeps :
      (l : Lease) (s : Session) (p : Pool) (o : Outcome) → Keeps p o → Keeps p (settle_place l s o)
  unfolding refresh_session_state
  settle-Keeps l s p (inl error) k = tt
  settle-Keeps l s p (inr q) k =
      follows-if p.leases (str_eq l.session_profile "" || not (str_eq s.session_profile "")) q _ k k

  put-Keeps :
      (l : Lease) (s : Session) (slot : Option ℕ) (p : Pool)
      → Keeps p (put_in_slot config l s slot p)
  put-Keeps l s none p = tt
  put-Keeps l s (some slot) p =
      Keeps-if p (any (is_placeable p.now l) p.leases) _ (inr p)
        (λ h. settle-Keeps l s p _ (
          Keeps-and_then p (consume l)
            (inr (set_leases (is_placeable p.now l) (offer config p.now s slot) p))
            (offer-Keeps l s slot p) (consume-Keeps l)))
        (λ h. follows_refl p.leases)

  on-Keeps : (l : Lease) (s : Option Session) (p : Pool) → Keeps p (place_on config l s p)
  on-Keeps l none p = follows_refl p.leases
  on-Keeps l (some s) p = put-Keeps l s (slot_on p s) p

  place-Keeps : (l : Lease) (p : Pool) → Keeps p (place_lease config l p)
  unfolding place_lease
  place-Keeps l p =
      Keeps-if p (may_place config p l) (place_on config l (select_session config p l) p) (inr p)
        (λ h. on-Keeps l (select_session config p l) p) (λ h. follows_refl p.leases)

  all-Keeps : (ls : List Lease) (p : Pool) → Keeps p (place_all config ls p)
  all-Keeps [] p = follows_refl p.leases
  all-Keeps (l ∷ ls) p =
      Keeps-and_then p (place_all config ls) (place_lease config l p) (place-Keeps l p)
        (all-Keeps ls)

  pub place_queued-Keeps :
      (ids : List ℕ) (refresh : Bool) (p : Pool)
      → Keeps p (place_queued_leases config ids refresh p)
  unfolding place_queued_leases
  place_queued-Keeps ids refresh p =
      let m = refresh_mixed_canary_admissions p in
      let r = if refresh then refresh_exact_session_reservations m else m in
      let queued = queued_leases config ids r in
      let c = if is_empty ids then record r { placement_cursor = last_id 0 queued } else r in
      Keeps-if p (not (operational config)) (inr p) (place_all config queued c)
        (λ h. follows_refl p.leases)
        (λ h.
          Keeps-and_then p (place_all config queued) (inr c)
            (follows-if p.leases (is_empty ids) (record r { placement_cursor = last_id 0 queued }) r
              (follows_trans p.leases m.leases r.leases (refresh-mixed-Keeps p) (
                follows-if m.leases refresh (refresh_exact_session_reservations m) m
                  (refresh-exact-Keeps m) (follows_refl m.leases)))
              (follows_trans p.leases m.leases r.leases (refresh-mixed-Keeps p) (
                follows-if m.leases refresh (refresh_exact_session_reservations m) m
                  (refresh-exact-Keeps m) (follows_refl m.leases))))
            (all-Keeps queued))

wave-Keeps :
    (i generation : ℕ) (ls : List Lease) (p : Pool)
    → Follows p.leases (grant_wave i generation ls p).0.leases
wave-Keeps i generation [] p = follows_refl p.leases
wave-Keeps i generation (l ∷ ls) p =
    follows-set (gets_permit i (selected (l ∷ ls))) (give_permit p.now generation) p.leases
      (λ o. (refl, refl)) (λ o h. ground (arith, ended-active o.state h))

refuse-Keeps : (s : Session) (p : Pool) → Follows p.leases (refuse_continuation s p).leases
refuse-Keeps s p =
    follows-set (λ l. is_at s.id l.session_id && is_waiting l) _ p.leases (λ o. (refl, refl))
      (λ o h.
        off_right (is_at s.id o.session_id) (is_waiting o)
          (off_left (is_active o.state) (not (is_some o.solve_permit_at)) (ended-active o.state h)))

continue-Keeps :
    (s : Session) (ls : List Lease) (p : Pool) → Follows p.leases (continue_wave s ls p).0.leases
continue-Keeps s [] p = follows_refl p.leases
continue-Keeps s (l ∷ ls) p =
    wave-Keeps s.id (s.solve_batch_generation + 1) (l ∷ ls) (next_generation s p)

pair-if :
    (ls : List Lease) (b : Bool) (x y : Pool × Bool)
    → Follows ls x.0.leases
    → Follows ls y.0.leases
    → Follows ls (if b then x else y).0.leases
pair-if ls true x y f g = f
pair-if ls false x y f g = g

follow-Keeps :
    (s : Session) (granted : List Lease) (p : Pool)
    → Follows p.leases (follow_wave s granted p).0.leases
follow-Keeps s granted p =
    pair-if p.leases (is_empty granted || any (λ l. is_live l.state) granted) (p, false) _
      (follows_refl p.leases)
      (pair-if p.leases (any (λ l. not (is_attested s.id s.solve_batch_generation l)) granted)
        (refuse_continuation s p, false) (continue_wave s (waiting_on p s) p) (refuse-Keeps s p)
        (continue-Keeps s (waiting_on p s) p))

on_session-Keeps :
    (s : Session) (allow : Bool) (p : Pool) → Follows p.leases (grant_on_session s allow p).0.leases
unfolding grant_on_session
on_session-Keeps s allow p =
    pair-if p.leases (is_some s.solve_batch_sealed_at)
      (follow_wave s (keep (was_granted s.id s.solve_batch_generation) p.leases) p) _
      (follow-Keeps s (keep (was_granted s.id s.solve_batch_generation) p.leases) p)
      (pair-if p.leases (may_seal p s allow)
        (grant_wave s.id (s.solve_batch_generation + 1) (waiting_on p s) (seal_batch s p))
        (p, false)
        (wave-Keeps s.id (s.solve_batch_generation + 1) (waiting_on p s) (seal_batch s p))
        (follows_refl p.leases))

assignable-Keeps :
    (s : Option Session) (allow : Bool) (p : Pool)
    → Follows p.leases (grant_if_assignable s allow p).0.leases
assignable-Keeps none allow p = follows_refl p.leases
assignable-Keeps (some s) allow p =
    pair-if p.leases (is_assignable s.state) (grant_on_session s allow p) (p, false)
      (on_session-Keeps s allow p) (follows_refl p.leases)

pub grant-Keeps :
    (i : ℕ) (allow : Bool) (p : Pool)
    → Follows p.leases (grant_solve_batch_if_ready i allow p).0.leases
unfolding grant_solve_batch_if_ready
grant-Keeps i allow p =
    let m = refresh_mixed_canary_admissions p in
    let r = refresh_exact_session_reservations m in
    pair-if p.leases (i == 0) (p, false) (grant_if_assignable (get_session r i) allow r)
      (follows_refl p.leases)
      (follows_trans p.leases r.leases (grant_if_assignable (get_session r i) allow r).0.leases
        (follows_trans p.leases m.leases r.leases (refresh-mixed-Keeps p) (refresh-exact-Keeps m))
        (assignable-Keeps (get_session r i) allow r))
