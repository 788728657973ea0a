-- ===== src/AedtPool.antt =====
-- slurm_scheduler/aedt_pool.py: the rows of the pool of AEDT sessions, and the updates that its
-- transactions are made of. The tables are lists, oldest id first. A transaction that raises is
-- rolled back, so its outcome is the error alone.
pub mod Refresh
pub mod Upkeep
pub mod Canary
pub mod Compat
pub mod Placement
pub mod Solve
pub mod Leases
pub mod Owners
pub mod Release
pub mod Faults
pub mod Starts
pub mod Registering
pub mod Hosts
pub mod History
mod Rows
pub use Rows.*
use slurm_scheduler.Prelude.{
  ℕ, Bool, true, false, not, ◌&&◌, ◌||◌, Option, none, some, is_some, or_else, List, keep, any,
  first, length, map, ◌⊎◌, inl, inr, String, ◌==◌, str_eq, if◌then◌else◌,
}
use slurm_scheduler.Models.{AllocationStatus}
use slurm_scheduler.Store.{Allocation, SessionState, ready, busy, draining, unhealthy, Db}
use slurm_scheduler.Store.Queries.{is_at, update_allocation}

unfoldable pub operational : AedtPoolConfig → Bool
operational config = config.enabled && config.adapter_ready && config.validation_passed

-- LEASE_LIVE_STATES, LEASE_SLOT_STATES and LEASE_TERMINAL_STATES.
abbrev pub is_terminal : LeaseState → Bool
is_terminal LeaseState.released = true
is_terminal LeaseState.failed = true
is_terminal LeaseState.cancelled = true
is_terminal LeaseState.expired = true
is_terminal _ = false

abbrev pub is_live : LeaseState → Bool
is_live state = not (is_terminal state)

abbrev pub is_queued : LeaseState → Bool
is_queued LeaseState.queued = true
is_queued _ = false

abbrev pub holds_slot : LeaseState → Bool
holds_slot state = is_live state && not (is_queued state)

abbrev pub is_offered : LeaseState → Bool
is_offered LeaseState.offered = true
is_offered _ = false

abbrev pub is_leased : LeaseState → Bool
is_leased LeaseState.leased = true
is_leased _ = false

abbrev pub is_attaching : LeaseState → Bool
is_attaching LeaseState.attaching = true
is_attaching _ = false

abbrev pub is_active : LeaseState → Bool
is_active LeaseState.active = true
is_active _ = false

abbrev pub is_releasing : LeaseState → Bool
is_releasing LeaseState.releasing = true
is_releasing _ = false

-- SESSION_ASSIGNABLE_STATES
abbrev pub is_assignable : SessionState → Bool
is_assignable ready = true
is_assignable busy = true
is_assignable _ = false

abbrev pub is_ended : SessionState → Bool
is_ended SessionState.failed = true
is_ended SessionState.closed = true
is_ended _ = false

abbrev pub accepts_projects : AllocationStatus → Bool
accepts_projects AllocationStatus.warm = true
accepts_projects AllocationStatus.active = true
accepts_projects _ = false

-- `int(x or 0)`
abbrev pub id_or_zero : Option ℕ → ℕ
id_or_zero none = 0
id_or_zero (some i) = i

unfoldable pub get_session : Pool → ℕ → Option Session
get_session p i = first (λ s. s.id == i) p.sessions

unfoldable pub find_lease : Pool → ℕ → Option Lease
find_lease p i = first (λ l. l.id == i) p.leases

-- UPDATE … SET … WHERE …
abbrev pub set_leases : (Lease → Bool) → (Lease → Lease) → Pool → Pool
set_leases p f pool = record pool { leases = map (λ l. if p l then f l else l) pool.leases }

abbrev pub set_sessions : (Session → Bool) → (Session → Session) → Pool → Pool
set_sessions p f pool = record pool { sessions = map (λ s. if p s then f s else s) pool.sessions }

abbrev pub set_reservations : (Reservation → Bool) → (Reservation → Reservation) → Pool → Pool
set_reservations p f pool = record pool {
  reservations = map (λ r. if p r then f r else r) pool.reservations;
}

-- The occupants of a session's slots.
abbrev pub occupies : ℕ → Lease → Bool
occupies i l = is_at i l.session_id && holds_slot l.state

abbrev pub occupants : Pool → ℕ → List Lease
occupants p i = keep (occupies i) p.leases

abbrev pub block_reuse : ℕ → Session → Session
block_reuse now s = record s { reuse_blocked_at = or_else s.reuse_blocked_at (some now) }

abbrev next_state : Bool → ℕ → SessionState
next_state graceful live =
    if graceful && live == 0 then draining else if live == 0 then ready else busy

abbrev is_settled : SessionState → Bool
is_settled draining = true
is_settled unhealthy = true
is_settled SessionState.closed = true
is_settled SessionState.failed = true
is_settled _ = false

abbrev refreshed : ℕ → ℕ → Session → Session
refreshed now live s = record s {
  state = next_state (is_some s.drain_requested_at) live;
  idle_since = if not (live == 0) || is_some s.drain_requested_at then none else some now;
  solve_batch_sealed_at = if live == 0 then none else s.solve_batch_sealed_at;
}

unfoldable pub refresh_session_state : ℕ → Pool → Pool
refresh_session_state i p =
    set_sessions (λ s. s.id == i && not (is_settled s.state))
      (refreshed p.now (length (occupants p i))) p

abbrev may_drain : AllocationStatus → Bool
may_drain AllocationStatus.warm = true
may_drain AllocationStatus.active = true
may_drain AllocationStatus.draining = true
may_drain _ = false

abbrev drained : String → ℕ → Allocation → Allocation
drained reason now a =
    if may_drain a.state
    then record a {
      state = AllocationStatus.draining;
      drain_reason = reason;
      drain_at = or_else a.drain_at (some now);
    }
    else a

abbrev pub drain_allocation : String → ℕ → Pool → Pool
drain_allocation reason i p = record p { db = update_allocation i (drained reason p.now) p.db }

abbrev pub state_number : LeaseState → ℕ
state_number LeaseState.queued = 0
state_number LeaseState.offered = 1
state_number LeaseState.leased = 2
state_number LeaseState.attaching = 3
state_number LeaseState.active = 4
state_number LeaseState.releasing = 5
state_number LeaseState.released = 6
state_number LeaseState.failed = 7
state_number LeaseState.cancelled = 8
state_number LeaseState.expired = 9

abbrev pub same_state : LeaseState → LeaseState → Bool
same_state x y = state_number x == state_number y

abbrev pub and_then : (Pool → Outcome) → Outcome → Outcome
and_then f (inl error) = inl error
and_then f (inr p) = f p

-- An update that must change a row: `cursor.rowcount` is not 0.
abbrev pub claim_lease : (Lease → Bool) → (Lease → Lease) → String → Pool → Outcome
claim_lease p f message pool =
    if any p pool.leases then inr (set_leases p f pool) else inl (value_error message)

-- A session without a token refuses everyone.
abbrev pub authorize_session :
    (String → String) → String → Option Session → (Session → Outcome) → Outcome
authorize_session token_hash token none f = inl key_error
authorize_session token_hash token (some s) f =
    if not (str_eq s.host_token_hash "") && str_eq s.host_token_hash (token_hash token)
    then f s
    else inl permission_error

abbrev pub with_session : (String → String) → ℕ → String → Pool → (Session → Outcome) → Outcome
with_session token_hash i token p f = authorize_session token_hash token (get_session p i) f

-- FAULTED_DESKTOP_ALLOCATION_RECYCLE_REASON
abbrev pub recycle_reason : String
recycle_reason = "AEDT pool faulted Desktop allocation recycle"
