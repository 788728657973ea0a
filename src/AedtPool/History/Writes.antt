-- ===== src/AedtPool/History/Writes.antt =====
-- The upkeep and the placement leave ended leases alone.
use slurm_scheduler.Prelude.{ℕ, Bool, true, false, ◌&&◌, ◌||◌, keep, String, ◌≡◌, refl}
use slurm_scheduler.AedtPool.{
  LeaseState, Admission, Pool, is_terminal, is_live, is_queued, is_offered, is_leased, is_attaching,
  is_active, refresh_session_state,
}
use slurm_scheduler.AedtPool.Refresh.{
  fail_exact_session_reservation_cohort, expire_exact_session_reservation_cohort,
  fail_exact_session_reservations_for_target, target_keys, keys_where, in_cohort, owns_project,
  before_project, settle_owners, fail_members, expire_owners, expire_members, unpermitted,
  set_releasing, finish_lease,
}
use slurm_scheduler.AedtPool.Upkeep.{
  refresh_exact_session_reservations, fail_terminal_siblings, fail_sibling, sibling_rows,
  expire_cohorts, expired_keys, release_finished, fail_invalid, fail_invalid_targets,
  affected_sessions, is_invalid, target_reason,
}
use slurm_scheduler.AedtPool.Canary.{
  refresh_mixed_canary_admissions, abort_admission, cancel_slots, must_abort, in_slots,
}
use slurm_scheduler.AedtPool.History.{
  Follows, follows_refl, follows_trans, follows-set, follows-for_each, off_ended, off_right,
  off_left,
}

pub ended-owns : (x : LeaseState) → is_terminal x ≡ true → owns_project x ≡ false
ended-owns = off_ended owns_project refl refl refl refl

ended-before : (x : LeaseState) → is_terminal x ≡ true → before_project x ≡ false
ended-before = off_ended before_project refl refl refl refl

ended-live : (x : LeaseState) → is_terminal x ≡ true → is_live x ≡ false
ended-live = off_ended is_live refl refl refl refl

module _ (key : String) (reason : String) (p : Pool) where
  members-keep :
      (ends : LeaseState → Bool)
      → ((x : LeaseState) → is_terminal x ≡ true → ends x ≡ false)
      → Follows p.leases (fail_members ends key reason p).leases
  members-keep ends off =
      follows-set (λ l. in_cohort p.reservations key l && ends l.state)
        (finish_lease LeaseState.failed reason p.now) p.leases (λ l. (refl, refl))
        (λ l h. off_right (in_cohort p.reservations key l) (ends l.state) (off l.state h))

  owners-keep : Follows p.leases (settle_owners key reason p).leases
  owners-keep =
      follows-set (λ l. in_cohort p.reservations key l && owns_project l.state)
        (set_releasing reason p.now) p.leases (λ l. (refl, refl))
        (λ l h.
          off_right (in_cohort p.reservations key l) (owns_project l.state) (ended-owns l.state h))

pub fail-cohort-Keeps :
    (key reason : String) (settle : Bool) (p : Pool)
    → Follows p.leases (fail_exact_session_reservation_cohort key reason settle p).leases
unfolding fail_exact_session_reservation_cohort
fail-cohort-Keeps key reason true p =
    follows_trans p.leases (settle_owners key reason p).leases
      (fail_members before_project key reason (settle_owners key reason p)).leases
      (owners-keep key reason p)
      (members-keep key reason (settle_owners key reason p) before_project ended-before)
fail-cohort-Keeps key reason false p = members-keep key reason p is_live ended-live

pub expire-cohort-Keeps :
    (key : String) (p : Pool)
    → Follows p.leases (expire_exact_session_reservation_cohort key p).leases
unfolding expire_exact_session_reservation_cohort
expire-cohort-Keeps key p =
    follows_trans p.leases (expire_owners key p).leases
      (expire_members key (expire_owners key p)).leases
      (follows-set (λ l. in_cohort p.reservations key l && owns_project l.state && unpermitted l) _
        p.leases (λ l. (refl, refl))
        (λ l h. off_left (in_cohort p.reservations key l && owns_project l.state) (unpermitted l) (
          off_right (in_cohort p.reservations key l) (owns_project l.state)
            (ended-owns l.state h))))
      (follows-set
        (λ l.
          in_cohort (expire_owners key p).reservations key l
          && before_project l.state
          && unpermitted l)
        _ (expire_owners key p).leases (λ l. (refl, refl))
        (λ l h.
          off_left (in_cohort (expire_owners key p).reservations key l && before_project l.state)
            (unpermitted l)
            (off_right (in_cohort (expire_owners key p).reservations key l) (before_project l.state)
              (ended-before l.state h))))

pub fail-target-Keeps :
    (i : ℕ) (reason : String) (p : Pool)
    → Follows p.leases (fail_exact_session_reservations_for_target i reason p).leases
unfolding fail_exact_session_reservations_for_target
fail-target-Keeps i reason p =
    follows-for_each (λ key. fail_exact_session_reservation_cohort key reason false)
      (target_keys i p) p (λ key q. fail-cohort-Keeps key reason false q)

session-Keeps : (i : ℕ) (p : Pool) → Follows p.leases (refresh_session_state i p).leases
unfolding refresh_session_state
session-Keeps i p = follows_refl p.leases

invalid-Keeps : (key : String) (p : Pool) → Follows p.leases (fail_invalid key p).leases
invalid-Keeps key p =
    let q = fail_exact_session_reservation_cohort key target_reason false p in
    follows_trans p.leases q.leases (fail_invalid key p).leases
      (fail-cohort-Keeps key target_reason false p)
      (follows-for_each refresh_session_state (affected_sessions key p) q session-Keeps)

pub refresh-exact-Keeps :
    (p : Pool) → Follows p.leases (refresh_exact_session_reservations p).leases
unfolding refresh_exact_session_reservations
refresh-exact-Keeps p =
    let a = fail_terminal_siblings p in
    let b = expire_cohorts a in
    let d = release_finished b in
    follows_trans p.leases a.leases (fail_invalid_targets d).leases
      (follows-for_each (fail_sibling p) (sibling_rows p) p
        (λ r q. fail-cohort-Keeps r.reservation_key _ true q))
      (follows_trans a.leases b.leases (fail_invalid_targets d).leases
        (follows-for_each expire_exact_session_reservation_cohort (expired_keys a) a
          expire-cohort-Keeps)
        (follows-for_each fail_invalid (keys_where (is_invalid d) d) d invalid-Keeps))

ended-unowned : (x : LeaseState) → is_terminal x ≡ true → (is_queued x || is_offered x) ≡ false
ended-unowned = off_ended (λ x. is_queued x || is_offered x) refl refl refl refl

ended-owned :
    (x : LeaseState) → is_terminal x ≡ true → (is_leased x || is_attaching x || is_active x) ≡ false
ended-owned = off_ended (λ x. is_leased x || is_attaching x || is_active x) refl refl refl refl

abort-Keeps : (ca : Admission) (p : Pool) → Follows p.leases (abort_admission ca p).leases
unfolding refresh_session_state
abort-Keeps ca p =
    let q = cancel_slots ca.id p in
    follows_trans p.leases q.leases (abort_admission ca p).leases
      (follows-set (λ l. in_slots p ca.id l && (is_queued l.state || is_offered l.state)) _ p.leases
        (λ l. (refl, refl)) (λ l h. off_right (in_slots p ca.id l) _ (ended-unowned l.state h)))
      (follows-set
        (λ l.
          in_slots q ca.id l && (is_leased l.state || is_attaching l.state || is_active l.state))
        _ q.leases (λ l. (refl, refl))
        (λ l h. off_right (in_slots q ca.id l) _ (ended-owned l.state h)))

pub refresh-mixed-Keeps : (p : Pool) → Follows p.leases (refresh_mixed_canary_admissions p).leases
unfolding refresh_mixed_canary_admissions
refresh-mixed-Keeps p =
    follows-for_each abort_admission (keep (must_abort p) p.admissions) p abort-Keeps
