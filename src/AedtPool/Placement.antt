-- ===== src/AedtPool/Placement.antt =====
-- `_place_queued_leases`: which queued lease gets a slot on which session.
pub mod Slots
use slurm_scheduler.Prelude.{
  ℕ, zero, suc, ◌+◌, Bool, true, false, not, ◌&&◌, ◌||◌, Option, none, some, is_some, List, [], ◌∷◌,
  ◌++◌, ◌⊎◌, inl, inr, keep, any, first, take, length, map, max, is_empty, String, mem_nat, ltb,
  leb, ◌==◌, str_eq, if◌then◌else◌,
}
use slurm_scheduler.Store.{Allocation, Task, SessionState}
use slurm_scheduler.Store.Queries.{is_at, get_task, get_allocation}
use slurm_scheduler.AedtPool.{
  LeaseState, ReservationState, Lease, Session, Reservation, Pool, PoolError, runtime_error,
  stop_iteration, Outcome, AedtPoolConfig, operational, is_queued, holds_slot, is_assignable,
  accepts_projects, id_or_zero, set_leases, set_sessions, set_reservations, occupants,
  refresh_session_state, and_then,
}
use slurm_scheduler.AedtPool.Refresh.{is_claimed, is_terminal_task}
use slurm_scheduler.AedtPool.Upkeep.{refresh_exact_session_reservations}
use slurm_scheduler.AedtPool.Canary.{refresh_mixed_canary_admissions, reserves_session}
use slurm_scheduler.AedtPool.Compat.{is_pinned_here, lease_fits_session}

-- The keys of the admissions that a count leaves out; 0 leaves out nothing.
pub record Exclusion : Type 0 where
  pub task_id : ℕ
  pub reservation_id : ℕ
  pub lease_id : ℕ

abbrev is_kept : ℕ → ℕ → Bool
is_kept excluded i = excluded == 0 || not (i == excluded)

abbrev distinct : List ℕ → List ℕ
distinct [] = []
distinct (n ∷ ns) = let rest = distinct ns in if mem_nat n ns then rest else n ∷ rest

abbrev is_pending_reservation : ReservationState → Bool
is_pending_reservation ReservationState.reserved = true
is_pending_reservation ReservationState.claimed = true
is_pending_reservation _ = false

-- The UNION of the keys `task:…` and `lease:…` counts every task once.
unfoldable pub admitted_project_count : Pool → Exclusion → ℕ
admitted_project_count p e =
    let held =
      keep (λ l. holds_slot l.state && is_kept e.lease_id l.id && is_kept e.task_id l.task_id)
        p.leases in
    let reserved =
      keep
        (λ r.
          is_pending_reservation r.state
          && is_kept e.reservation_id r.id
          && is_kept e.task_id r.task_id)
        p.reservations in
    length (
      distinct
        (map (λ l. l.task_id) (keep (λ l. ltb 0 l.task_id) held) ++ map (λ r. r.task_id) reserved))
    + length (keep (λ l. l.task_id == 0) held)

-- `next(index for index in range(slots_total) if index not in occupied)`, from an index on.
unfoldable pub free_slot : ℕ → ℕ → List ℕ → Option ℕ
free_slot index zero occupied = none
free_slot index (suc n) occupied =
    if mem_nat index occupied then free_slot (suc index) n occupied else some index

abbrev pub slots : List Lease → List ℕ
slots [] = []
slots (l ∷ ls) = id_or_zero l.slot_index ∷ slots ls

abbrev young_enough : AedtPoolConfig → ℕ → Option ℕ → Bool
young_enough config now none = config.allocation_max_age_seconds == 0
young_enough config now (some created) =
    config.allocation_max_age_seconds == 0 || ltb now (created + config.allocation_max_age_seconds)

abbrev pub beats : ℕ → ℕ → Option ℕ → Bool
beats timeout now none = false
beats timeout now (some beat) = leb now (beat + timeout)

abbrev allocation_takes : AedtPoolConfig → Pool → ℕ → Bool
allocation_takes config p i = elim (get_allocation p.db i) [
  | none ↦ false
  | some a ↦ accepts_projects a.state && young_enough config p.now a.created_at
]

-- The WHERE of the SELECT over the sessions, for one lease.
abbrev pub is_candidate : AedtPoolConfig → Pool → Lease → Session → Bool
is_candidate config p l s =
    is_assignable s.state
    && beats config.session_heartbeat_timeout_seconds p.now s.last_heartbeat_at
    && not (is_some s.solve_batch_sealed_at)
    && not (is_some s.reuse_blocked_at)
    && allocation_takes config p s.allocation_id
    && (l.requested_allocation_id == 0 || s.allocation_id == l.requested_allocation_id)
    && (str_eq l.requested_node_name "" || str_eq s.node_name l.requested_node_name)
    && is_pinned_here l s
    && (ltb 0 l.mixed_canary_session_id || not (reserves_session p s.id))
    && (ltb l.protocol_version 2 || str_eq s.session_profile l.session_profile)

-- ORDER BY used_slots DESC, id ASC of sessions in the order of their ids.
abbrev insert_session : Pool → Session → List Session → List Session
insert_session p s [] = s ∷ []
insert_session p s (o ∷ os) =
    let rest = insert_session p s os in
    if leb (length (occupants p o.id)) (length (occupants p s.id)) then s ∷ o ∷ os else o ∷ rest

abbrev pub by_used_slots : Pool → List Session → List Session
by_used_slots p [] = []
by_used_slots p (s ∷ rest) = insert_session p s (by_used_slots p rest)

abbrev pub get_reservation : Pool → ℕ → Option Reservation
get_reservation p i = first (λ r. r.id == i) p.reservations

abbrev pub is_own_claim : Lease → Option Reservation → Bool
is_own_claim l none = false
is_own_claim l (some r) = is_claimed r.state && is_at l.id r.lease_id

abbrev cohort_key : Option Reservation → String
cohort_key none = ""
cohort_key (some r) = r.reservation_key

-- The exact reservation of a lease; an id of 0 is none.
abbrev pub exact_of : Pool → Lease → Option Reservation
exact_of p l =
    if l.exact_session_reservation_id == 0
    then none
    else get_reservation p l.exact_session_reservation_id

abbrev pub fits : Pool → Lease → Session → Bool
fits p l s =
    let key = cohort_key (exact_of p l) in
    let pending =
      keep
        (λ r.
          r.session_id == s.id
          && is_pending_reservation r.state
          && is_kept l.exact_session_reservation_id r.id)
        p.reservations in
    lease_fits_session l s (length (occupants p s.id)) (occupants p s.id) (length pending)
      (keep (λ r. str_eq key "" || not (str_eq r.reservation_key key)) pending)

abbrev pub select_session : AedtPoolConfig → Pool → Lease → Option Session
select_session config p l =
    if l.exact_session_reservation_id == 0 || is_own_claim l (exact_of p l)
    then first (fits p l) (by_used_slots p (keep (is_candidate config p l) p.sessions))
    else none

abbrev pub has_deadline_after : ℕ → Option ℕ → Bool
has_deadline_after now none = false
has_deadline_after now (some deadline) = ltb now deadline

abbrev task_ended : Pool → ℕ → Bool
task_ended p i =
    not (i == 0) && elim (get_task p.db i) [ none ↦ false | some t ↦ is_terminal_task t.status ]

abbrev has_room : AedtPoolConfig → Pool → Lease → Bool
has_room config p l =
    ltb
      (admitted_project_count p record {
        task_id = l.task_id;
        reservation_id = l.exact_session_reservation_id;
        lease_id = l.id;
      })
      config.target_projects

abbrev pub may_place : AedtPoolConfig → Pool → Lease → Bool
may_place config p l =
    has_deadline_after p.now l.client_deadline_at
    && not (task_ended p l.task_id)
    && has_room config p l

abbrev pub offer : AedtPoolConfig → ℕ → Session → ℕ → Lease → Lease
offer config now s slot l = record l {
  session_id = some s.id;
  slot_index = some slot;
  state = if ltb l.protocol_version 2 then LeaseState.leased else LeaseState.offered;
  acquired_at = some now;
  offered_at = some now;
  offer_expires_at = some (now + config.offer_ack_seconds);
}

abbrev pub adopt_profile : Lease → Session → Pool → Pool
adopt_profile l s p =
    if str_eq l.session_profile "" || not (str_eq s.session_profile "")
    then p
    else set_sessions (λ o. o.id == s.id && str_eq o.session_profile "")
        (λ o. record o { session_profile = l.session_profile }) p

abbrev pub is_claim : Lease → Reservation → Bool
is_claim l r = r.id == l.exact_session_reservation_id && is_claimed r.state && is_at l.id r.lease_id

abbrev pub consume : Lease → Pool → Outcome
consume l p =
    if l.exact_session_reservation_id == 0
    then inr p
    else if any (is_claim l) p.reservations
    then inr (
        set_reservations (is_claim l)
          (λ r. record r { state = ReservationState.consumed; consumed_at = some p.now }) p)
    else inl runtime_error

abbrev pub is_placeable : ℕ → Lease → Lease → Bool
is_placeable now l o =
    o.id == l.id && is_queued o.state && has_deadline_after now o.client_deadline_at

abbrev pub settle_place : Lease → Session → Outcome → Outcome
settle_place l s (inl error) = inl error
settle_place l s (inr p) = inr (refresh_session_state s.id (adopt_profile l s p))

abbrev pub put_in_slot : AedtPoolConfig → Lease → Session → Option ℕ → Pool → Outcome
put_in_slot config l s none p = inl stop_iteration
put_in_slot config l s (some slot) p =
    if any (is_placeable p.now l) p.leases
    then settle_place l s
        (consume l (set_leases (is_placeable p.now l) (offer config p.now s slot) p))
    else inr p

abbrev pub slot_on : Pool → Session → Option ℕ
slot_on p s = free_slot 0 s.slots_total (slots (occupants p s.id))

abbrev pub place_on : AedtPoolConfig → Lease → Option Session → Pool → Outcome
place_on config l none p = inr p
place_on config l (some s) p = put_in_slot config l s (slot_on p s) p

-- One round of the loop over the queued rows.
unfoldable pub place_lease : AedtPoolConfig → Lease → Pool → Outcome
unfolding lease_fits_session admitted_project_count free_slot refresh_session_state
place_lease config l p =
    if may_place config p l then place_on config l (select_session config p l) p else inr p

abbrev pub place_all : AedtPoolConfig → List Lease → Pool → Outcome
place_all config [] p = inr p
place_all config (l ∷ ls) p = and_then (place_all config ls) (place_lease config l p)

abbrev is_ready : AedtPoolConfig → ℕ → List ℕ → Lease → Bool
is_ready config now lease_ids l =
    is_queued l.state
    && (ltb l.protocol_version 2 || leb now (l.last_heartbeat_at + config.queued_stale_seconds))
    && (is_empty lease_ids || mem_nat l.id lease_ids)

-- RECONCILE_PLACEMENT_BATCH_SIZE
abbrev batch_size : ℕ
batch_size = 32

-- The rows after the cursor first, then the others.
abbrev pub queued_leases : AedtPoolConfig → List ℕ → Pool → List Lease
queued_leases config lease_ids p =
    let ready = keep (is_ready config p.now lease_ids) p.leases in
    if is_empty lease_ids
    then take batch_size (
        keep (λ l. ltb p.placement_cursor l.id) ready
        ++ keep (λ l. leb l.id p.placement_cursor) ready)
    else take (max 1 (length lease_ids)) ready

abbrev pub last_id : ℕ → List Lease → ℕ
last_id i [] = i
last_id i (l ∷ ls) = last_id l.id ls

-- No ids stand for a pass over all; the number of the placed leases is left out.
unfoldable pub place_queued_leases : AedtPoolConfig → List ℕ → Bool → Pool → Outcome
unfolding operational place_lease refresh_exact_session_reservations refresh_mixed_canary_admissions
place_queued_leases config lease_ids refresh_reservations p =
    if not (operational config)
    then inr p
    else let p = refresh_mixed_canary_admissions p in
      let p = if refresh_reservations then refresh_exact_session_reservations p else p in
      let queued = queued_leases config lease_ids p in
      place_all config queued
        (if is_empty lease_ids then record p { placement_cursor = last_id 0 queued } else p)
