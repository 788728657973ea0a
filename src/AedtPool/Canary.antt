-- ===== src/AedtPool/Canary.antt =====
-- `_refresh_mixed_canary_admissions`, and what holds a session for a canary or a reservation.
use slurm_scheduler.Prelude.{
  ℕ, Bool, true, false, not, ◌&&◌, ◌||◌, Option, none, some, is_some, keep, any, first, length, map,
  String, leb, ◌==◌, if◌then◌else◌,
}
use mathlib.Core.List.{reverse}
use slurm_scheduler.Store.Queries.{is_at}
use slurm_scheduler.AedtPool.{
  LeaseState, AdmissionState, Lease, Session, Reservation, Admission, AdmissionSlot, Pool,
  is_terminal, is_live, is_queued, is_offered, is_leased, is_attaching, is_active, is_releasing,
  is_ended, get_session, find_lease, set_leases, set_sessions, block_reuse, refresh_session_state,
}
use slurm_scheduler.AedtPool.Refresh.{
  is_open_reservation, is_consumed, set_releasing, finish_lease, for_each,
}
use slurm_scheduler.AedtPool.Upkeep.{lease_of}

abbrev is_gathering : AdmissionState → Bool
is_gathering AdmissionState.«open» = true
is_gathering AdmissionState.filled = true
is_gathering _ = false

abbrev pub is_aborting : AdmissionState → Bool
is_aborting AdmissionState.aborting = true
is_aborting _ = false

abbrev pub is_filled : AdmissionState → Bool
is_filled AdmissionState.filled = true
is_filled _ = false

-- A lease of the admission's slots.
abbrev pub in_slots : Pool → ℕ → Lease → Bool
in_slots p i l = any (λ s. s.admission_id == i && is_at l.id s.lease_id) p.admission_slots

abbrev some_slot : Pool → ℕ → (Lease → Bool) → Bool
some_slot p i test = any (λ l. in_slots p i l && test l) p.leases

abbrev pub must_abort : Pool → Admission → Bool
must_abort p ca =
    is_gathering ca.state
    && not (some_slot p ca.id (λ l. is_some l.solve_permit_at))
    && (leb ca.expires_at p.now
        || some_slot p ca.id (λ l. is_releasing l.state || is_terminal l.state))

abbrev set_admissions : (Admission → Bool) → (Admission → Admission) → Pool → Pool
set_admissions p f pool = record pool {
  admissions = map (λ c. if p c then f c else c) pool.admissions;
}

abbrev abort_reason : String
abort_reason = "mixed canary admission aborted before exact batch activation"

abbrev pub cancelled_lease : String → ℕ → Lease → Lease
cancelled_lease reason now l = record (finish_lease LeaseState.cancelled reason now l) {
  session_id = none;
  slot_index = none;
}

abbrev pub cancel_slots : ℕ → Pool → Pool
cancel_slots i p =
    set_leases (λ l. in_slots p i l && (is_queued l.state || is_offered l.state))
      (cancelled_lease abort_reason p.now) p

abbrev pub release_slots : ℕ → Pool → Pool
release_slots i p =
    set_leases
      (λ l. in_slots p i l && (is_leased l.state || is_attaching l.state || is_active l.state))
      (set_releasing abort_reason p.now) p

abbrev start_abort : Admission → Pool → Pool
start_abort ca =
    set_admissions (λ c. c.id == ca.id && is_gathering c.state)
      (λ c. record c { state = AdmissionState.aborting })

abbrev pub abort_admission : Admission → Pool → Pool
abort_admission ca p =
    let q = release_slots ca.id (cancel_slots ca.id (start_abort ca p)) in
    refresh_session_state ca.session_id
      (set_sessions (λ s. s.id == ca.session_id && not (is_ended s.state)) (block_reuse p.now) q)

abbrev pub finish_admissions : (AdmissionState → Bool) → AdmissionState → Pool → Pool
finish_admissions from state p =
    set_admissions (λ c. from c.state && not (some_slot p c.id (λ l. is_live l.state)))
      (λ c. record c { state = state; finished_at = some p.now }) p

unfoldable pub refresh_mixed_canary_admissions : Pool → Pool
unfolding refresh_session_state
refresh_mixed_canary_admissions p = finish_admissions is_filled AdmissionState.closed (
    finish_admissions is_aborting AdmissionState.aborted
      (for_each abort_admission (keep (must_abort p) p.admissions) p))

abbrev is_reserving : AdmissionState → Bool
is_reserving state = is_gathering state || is_aborting state

abbrev pub reserves_session : Pool → ℕ → Bool
reserves_session p i = any (λ c. c.session_id == i && is_reserving c.state) p.admissions

abbrev slot_is_active : Pool → Admission → AdmissionSlot → Bool
slot_is_active p ca slot = elim slot.lease_id [
  | none ↦ false
  | some i ↦ elim (find_lease p i) [
    | none ↦ false
    | some l ↦ is_at ca.session_id l.session_id && is_active l.state
  ]
]

abbrev batch_complete : Pool → Option Session → Option Admission → Bool
batch_complete p s none = true
batch_complete p none (some ca) = true
batch_complete p (some s) (some ca) =
    let slots = keep (λ slot. slot.admission_id == ca.id) p.admission_slots in
    is_filled ca.state
    && ca.expected_projects == s.slots_total
    && length slots == ca.expected_projects
    && length (keep (slot_is_active p ca) slots) == ca.expected_projects

-- The newest admission of the session decides.
unfoldable pub mixed_canary_batch_is_complete : Pool → ℕ → Bool
mixed_canary_batch_is_complete p i =
    batch_complete p (get_session p i)
      (first (λ c. c.session_id == i && is_reserving c.state) (reverse p.admissions))

abbrev reservation_is_active : Pool → Reservation → Bool
reservation_is_active p r = is_consumed r.state && elim (lease_of p r) [
  | none ↦ false
  | some l ↦ is_at r.session_id l.session_id && is_active l.state
]

unfoldable pub exact_session_reservations_are_active : Pool → ℕ → Bool
exact_session_reservations_are_active p i = not (
    any (λ r. r.session_id == i && is_open_reservation r.state && not (reservation_is_active p r))
      p.reservations)
