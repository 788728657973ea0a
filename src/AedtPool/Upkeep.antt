-- ===== src/AedtPool/Upkeep.antt =====
-- `_refresh_exact_session_reservations`, in the order of its passes.
use slurm_scheduler.Prelude.{
  ℕ, Bool, true, false, not, ◌&&◌, ◌||◌, Option, none, some, is_some, List, [], ◌∷◌, keep, any, map,
  is_blank, String, sorted_set, mem_str, leb, ◌==◌, str_eq, if◌then◌else◌, format, show,
}
use slurm_scheduler.Models.{TaskStatus}
use slurm_scheduler.Store.{SessionState, busy}
use slurm_scheduler.Store.Queries.{is_at, get_task, get_allocation}
use slurm_scheduler.AedtPool.{
  ReservationState, Lease, Session, Reservation, Pool, is_terminal, holds_slot, is_active,
  is_assignable, accepts_projects, get_session, find_lease, set_reservations, refresh_session_state,
}
use slurm_scheduler.AedtPool.Refresh.{
  is_open_reservation, is_consumed, is_claimed, is_terminal_task, has_permit, keys_where, for_each,
  fail_exact_session_reservation_cohort, expire_exact_session_reservation_cohort,
}

abbrev pub lease_of : Pool → Reservation → Option Lease
lease_of p r = elim r.lease_id [ none ↦ none | some i ↦ find_lease p i ]

abbrev status_text : TaskStatus → String
status_text TaskStatus.completed = "completed"
status_text TaskStatus.cancelled = "cancelled"
status_text TaskStatus.failed = "failed"
status_text _ = ""

-- The task of a reservation, if it has ended.
abbrev ended_status : Pool → Reservation → Option TaskStatus
ended_status p r = elim (get_task p.db r.task_id) [
  | none ↦ none
  | some t ↦ if is_terminal_task t.status then some t.status else none
]

abbrev is_sealed : Session → Bool
is_sealed s = is_some s.solve_batch_sealed_at

abbrev unsealed_target : Pool → Reservation → Bool
unsealed_target p r = elim (get_session p r.session_id) [ none ↦ true | some s ↦ not (is_sealed s) ]

-- Another open reservation of the same cohort.
abbrev has_open_sibling : Pool → Reservation → Bool
has_open_sibling p r =
    any
      (λ o.
        str_eq o.reservation_key r.reservation_key
        && not (o.id == r.id)
        && is_open_reservation o.state)
      p.reservations

abbrev sibling_reason : Pool → Reservation → String
sibling_reason p r = elim (ended_status p r) [
  | none ↦ ""
  | some status ↦ format (
      "exact-session reservation sibling task "
      ∷ show r.task_id
      ∷ " became "
      ∷ status_text status
      ∷ " before solve permit"
      ∷ [])
]

-- The first row of each cohort decides the text; the cohort is failed once.
abbrev first_of_keys : List String → List Reservation → List Reservation
first_of_keys seen [] = []
first_of_keys seen (r ∷ rs) = elim (mem_str r.reservation_key seen) [
  | true ↦ first_of_keys seen rs
  | false ↦ r ∷ first_of_keys (r.reservation_key ∷ seen) rs
]

abbrev pub sibling_rows : Pool → List Reservation
sibling_rows p = first_of_keys [] (
    keep
      (λ r.
        is_open_reservation r.state
        && is_some (ended_status p r)
        && unsealed_target p r
        && has_open_sibling p r)
      p.reservations)

abbrev pub fail_sibling : Pool → Reservation → Pool → Pool
fail_sibling p r q =
    fail_exact_session_reservation_cohort r.reservation_key (sibling_reason p r) true q

abbrev pub fail_terminal_siblings : Pool → Pool
fail_terminal_siblings p = for_each (fail_sibling p) (sibling_rows p) p

abbrev pub expired_keys : Pool → List String
expired_keys p =
    keys_where
      (λ r.
        is_open_reservation r.state
        && leb r.expires_at p.now
        && unsealed_target p r
        && not (has_permit p r))
      p

abbrev pub expire_cohorts : Pool → Pool
expire_cohorts p = for_each expire_exact_session_reservation_cohort (expired_keys p) p

abbrev pub set_released : ℕ → Reservation → Reservation
set_released now r = record r { state = ReservationState.released; finished_at = some now }

abbrev has_terminal_lease : Pool → Reservation → Bool
has_terminal_lease p r = elim (lease_of p r) [ none ↦ false | some l ↦ is_terminal l.state ]

abbrev pub release_finished : Pool → Pool
release_finished p =
    let p =
      set_reservations (λ r. is_open_reservation r.state && is_some (ended_status p r))
        (set_released p.now) p in
    set_reservations (λ r. (is_claimed r.state || is_consumed r.state) && has_terminal_lease p r)
      (set_released p.now) p

-- The open members of a reservation's cohort.
abbrev members : Pool → Reservation → List Reservation
members p r =
    keep (λ m. str_eq m.reservation_key r.reservation_key && is_open_reservation m.state)
      p.reservations

-- `x.session_id != r.session_id` is not true of a missing value.
abbrev is_elsewhere : ℕ → Option ℕ → Bool
is_elsewhere i none = false
is_elsewhere i (some j) = not (j == i)

abbrev is_detached : Pool → ℕ → Reservation → Bool
is_detached p i m = not (is_consumed m.state) || elim (lease_of p m) [
  | none ↦ true
  | some l ↦ is_elsewhere i l.session_id || not (holds_slot l.state)
]

abbrev breaks_seal : Pool → Reservation → Bool
breaks_seal p m = not (is_consumed m.state) || elim (lease_of p m) [
  | none ↦ true
  | some l ↦ not (is_some l.solve_permit_at) && not (is_active l.state)
]

abbrev awaits_permit : Pool → Reservation → Bool
awaits_permit p m =
    not (is_consumed m.state)
    || elim (lease_of p m) [ none ↦ true | some l ↦ not (is_some l.solve_permit_at) ]

abbrev is_busy : SessionState → Bool
is_busy busy = true
is_busy _ = false

-- An active owner on a sealed session that is alive keeps its place.
abbrev keeps_owner : Pool → Reservation → Session → Bool
keeps_owner p r s =
    is_sealed s
    && is_consumed r.state
    && not (is_blank s.process_id)
    && not (is_blank s.host_id)
    && not (is_blank s.host_token_hash)
    && any
        (λ l.
          is_at l.id r.lease_id
          && l.exact_session_reservation_id == r.id
          && is_at r.session_id l.session_id
          && is_active l.state)
        p.leases

abbrev allocation_gone : Pool → ℕ → Bool
allocation_gone p i = elim (get_allocation p.db i) [
  | none ↦ false
  | some a ↦ not (accepts_projects a.state)
]

abbrev target_gone : Pool → Reservation → Session → Bool
target_gone p r s =
    not (s.generation == r.session_generation)
    || not (str_eq s.session_profile r.session_profile)
    || not (is_assignable s.state)
    || (is_some s.drain_requested_at
        && not (is_busy s.state && not (any (is_detached p r.session_id) (members p r))))
    || (allocation_gone p s.allocation_id && not (keeps_owner p r s))
    || (is_sealed s && any (breaks_seal p) (members p r))

abbrev pub is_invalid : Pool → Reservation → Bool
is_invalid p r =
    is_open_reservation r.state
    && elim (get_session p r.session_id) [ none ↦ true | some s ↦ target_gone p r s ]
    && any (awaits_permit p) (members p r)

abbrev pub target_reason : String
target_reason = "exact-session reservation target became unavailable before solve permit"

-- Refreshing a session twice changes nothing more, so the list may repeat an id.
abbrev pub affected_sessions : String → Pool → List ℕ
affected_sessions key p =
    map (λ r. r.session_id) (keep (λ r. str_eq r.reservation_key key) p.reservations)

abbrev pub fail_invalid : String → Pool → Pool
fail_invalid key p =
    let affected =
      map (λ r. r.session_id) (keep (λ r. str_eq r.reservation_key key) p.reservations) in
    for_each refresh_session_state affected
      (fail_exact_session_reservation_cohort key target_reason false p)

abbrev pub fail_invalid_targets : Pool → Pool
fail_invalid_targets p = for_each fail_invalid (keys_where (is_invalid p) p) p

unfoldable pub refresh_exact_session_reservations : Pool → Pool
unfolding fail_exact_session_reservation_cohort expire_exact_session_reservation_cohort
    refresh_session_state sorted_set
refresh_exact_session_reservations p =
    fail_invalid_targets (release_finished (expire_cohorts (fail_terminal_siblings p)))
