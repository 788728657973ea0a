-- ===== src/AedtPool/Refresh.antt =====
-- The upkeep of exact-session reservations and mixed canary admissions that runs before a
-- placement and before a solve wave.
use slurm_scheduler.Prelude.{
  ℕ, Bool, true, false, not, ◌&&◌, ◌||◌, some, is_some, or_else, List, [], ◌∷◌, keep, any, map,
  String, sorted_set, ◌==◌, str_eq, if◌then◌else◌,
}
use slurm_scheduler.Models.{TaskStatus}
use slurm_scheduler.Store.Queries.{is_at}
use slurm_scheduler.AedtPool.{
  LeaseState, ReservationState, reserved, claimed, consumed, Lease, Session, Reservation, Pool,
  is_live, is_queued, is_offered, is_leased, is_attaching, is_active, is_releasing, is_ended,
  set_leases, set_sessions, set_reservations, block_reuse,
}

abbrev pub is_open_reservation : ReservationState → Bool
is_open_reservation reserved = true
is_open_reservation claimed = true
is_open_reservation consumed = true
is_open_reservation _ = false

abbrev pub is_consumed : ReservationState → Bool
is_consumed consumed = true
is_consumed _ = false

abbrev pub is_claimed : ReservationState → Bool
is_claimed claimed = true
is_claimed _ = false

abbrev pub is_terminal_task : TaskStatus → Bool
is_terminal_task TaskStatus.completed = true
is_terminal_task TaskStatus.failed = true
is_terminal_task TaskStatus.cancelled = true
is_terminal_task _ = false

-- The lease's reservation is one of the cohort's.
abbrev pub in_cohort : List Reservation → String → Lease → Bool
in_cohort rs key l =
    any (λ r. r.id == l.exact_session_reservation_id && str_eq r.reservation_key key) rs

-- A text on a row is `reason.strip()`; the reasons here have no outer blanks.
abbrev pub set_releasing : String → ℕ → Lease → Lease
set_releasing reason now l = record l {
  state = LeaseState.releasing;
  failure_message = reason;
  release_requested_at = or_else l.release_requested_at (some now);
}

abbrev pub finish_lease : LeaseState → String → ℕ → Lease → Lease
finish_lease state reason now l = record l {
  state = state;
  failure_message = reason;
  finished_at = some now;
}

abbrev pub finish_reservation : ReservationState → String → ℕ → Reservation → Reservation
finish_reservation state reason now r = record r {
  state = state;
  failure_message = reason;
  finished_at = some now;
}

abbrev pub owns_project : LeaseState → Bool
owns_project state = is_attaching state || is_active state || is_releasing state

abbrev pub before_project : LeaseState → Bool
before_project state = is_queued state || is_offered state || is_leased state

-- The sessions on which a member of the cohort is being released.
abbrev releases_on : Pool → String → Session → Bool
releases_on p key s =
    any (λ l. is_at s.id l.session_id && is_releasing l.state && in_cohort p.reservations key l)
      p.leases
    && not (is_ended s.state)

abbrev pub settle_owners : String → String → Pool → Pool
settle_owners key reason p =
    let p =
      set_leases (λ l. in_cohort p.reservations key l && owns_project l.state)
        (set_releasing reason p.now) p in
    set_sessions (releases_on p key) (block_reuse p.now) p

abbrev pub fail_members : (LeaseState → Bool) → String → String → Pool → Pool
fail_members ends key reason p =
    set_leases (λ l. in_cohort p.reservations key l && ends l.state)
      (finish_lease LeaseState.failed reason p.now) p

abbrev fail_reservations : String → String → Pool → Pool
fail_reservations key reason p =
    set_reservations (λ r. str_eq r.reservation_key key && is_open_reservation r.state)
      (finish_reservation ReservationState.failed reason p.now) p

unfoldable pub fail_exact_session_reservation_cohort : String → String → Bool → Pool → Pool
fail_exact_session_reservation_cohort key reason settle_project_owners p =
    if settle_project_owners
    then fail_reservations key reason
        (fail_members before_project key reason (settle_owners key reason p))
    else fail_reservations key reason (fail_members is_live key reason p)

abbrev pub unpermitted : Lease → Bool
unpermitted l = not (is_some l.solve_permit_at)

abbrev expiry_reason : String
expiry_reason = "exact-session reservation cohort expired before solve permit"

-- The lease that a reservation names has a solve permit.
abbrev pub has_permit : Pool → Reservation → Bool
has_permit p r = any (λ l. is_at l.id r.lease_id && is_some l.solve_permit_at) p.leases

abbrev pub expire_owners : String → Pool → Pool
expire_owners key p =
    let p =
      set_leases (λ l. in_cohort p.reservations key l && owns_project l.state && unpermitted l)
        (set_releasing expiry_reason p.now) p in
    set_sessions (releases_on p key) (block_reuse p.now) p

abbrev pub expire_members : String → Pool → Pool
expire_members key p =
    set_leases (λ l. in_cohort p.reservations key l && before_project l.state && unpermitted l)
      (finish_lease LeaseState.expired expiry_reason p.now) p

unfoldable pub expire_exact_session_reservation_cohort : String → Pool → Pool
expire_exact_session_reservation_cohort key p =
    let p = expire_members key (expire_owners key p) in
    set_reservations
      (λ r. str_eq r.reservation_key key && is_open_reservation r.state && not (has_permit p r))
      (finish_reservation ReservationState.expired expiry_reason p.now) p

-- One write after another, for each key.
abbrev pub for_each {ℓ} : {A : Type ℓ} → (A → Pool → Pool) → List A → Pool → Pool
for_each f [] p = p
for_each f (x ∷ xs) p = for_each f xs (f x p)

abbrev names_live_lease : Pool → Reservation → Bool
names_live_lease p r = any (λ l. is_at l.id r.lease_id && is_live l.state) p.leases

abbrev pub keys_where : (Reservation → Bool) → Pool → List String
keys_where p pool = sorted_set (map (λ r. r.reservation_key) (keep p pool.reservations))

abbrev pub target_keys : ℕ → Pool → List String
target_keys i p =
    keys_where (λ r. r.session_id == i && (is_open_reservation r.state || names_live_lease p r)) p

unfoldable pub fail_exact_session_reservations_for_target : ℕ → String → Pool → Pool
unfolding fail_exact_session_reservation_cohort sorted_set
fail_exact_session_reservations_for_target i reason p =
    for_each (λ key. fail_exact_session_reservation_cohort key reason false) (target_keys i p) p
