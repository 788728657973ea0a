-- ===== src/Store/Queries.antt =====
-- slurm_scheduler/db.py: the queries and updates that the scheduler uses.
use slurm_scheduler.Prelude.{
  ℕ, Bool, true, false, not, ◌||◌, ◌&&◌, Option, none, some, List, ◌∷◌, String, codes, lower,
  starts_with, keep, any, take, mem_nat, map, length, ◌==◌, str_eq, if◌then◌else◌, is_some,
}
use mathlib.Core.List.{reverse}
use slurm_scheduler.Models.{AllocationStatus, TaskStatus}
use slurm_scheduler.Store.Table.{get, update}
use slurm_scheduler.Store.{Allocation, Task, SessionState, Event, Db}

abbrev pub allocation_key : Allocation → ℕ
allocation_key a = a.id

abbrev pub task_key : Task → ℕ
task_key t = t.id

unfoldable pub get_allocation : Db → ℕ → Option Allocation
get_allocation db i = get allocation_key i db.allocations

unfoldable pub get_task : Db → ℕ → Option Task
get_task db i = get task_key i db.tasks

-- `_update_row`: the fields given, by a function on the row.
unfoldable pub update_allocation : ℕ → (Allocation → Allocation) → Db → Db
update_allocation i f db = record db { allocations = update allocation_key i f db.allocations }

unfoldable pub update_task : ℕ → (Task → Task) → Db → Db
update_task i f db = record db { tasks = update task_key i f db.tasks }

abbrev pub is_live_state : AllocationStatus → Bool
is_live_state AllocationStatus.closed = false
is_live_state AllocationStatus.failed = false
is_live_state _ = true

-- The newest `limit` rows with the newest `live_limit` live rows, by id, newest first.
unfoldable pub list_allocations_with_live : Db → ℕ → ℕ → List Allocation
list_allocations_with_live db limit live_limit =
    let recent = map allocation_key (take limit db.allocations) in
    let live =
      map allocation_key (take live_limit (keep (λ a. is_live_state a.state) db.allocations)) in
    keep (λ a. mem_nat a.id recent || mem_nat a.id live) db.allocations

-- `WHERE status IN (…) ORDER BY id DESC LIMIT ?`, the set of statuses given by its test.
unfoldable pub list_tasks_by_statuses : Db → (TaskStatus → Bool) → ℕ → List Task
list_tasks_by_statuses db wanted limit = take limit (keep (λ t. wanted t.status) db.tasks)

-- ATTACHING or RUNNING
abbrev pub is_active_status : TaskStatus → Bool
is_active_status TaskStatus.attaching = true
is_active_status TaskStatus.running = true
is_active_status _ = false

abbrev pub is_at : ℕ → Option ℕ → Bool
is_at i none = false
is_at i (some j) = j == i

abbrev pub claims_allocation : ℕ → Task → Bool
claims_allocation i t = is_at i t.allocation_id && is_active_status t.status

-- Every claim on one allocation, with no limit, oldest first.
unfoldable pub list_live_task_claims_for_allocation : Db → ℕ → List Task
list_live_task_claims_for_allocation db i = reverse (keep (claims_allocation i) db.tasks)

abbrev pub is_counted_session : SessionState → Bool
is_counted_session SessionState.failed = false
is_counted_session SessionState.closed = false
is_counted_session _ = true

unfoldable pub allocation_has_aedt_pool_claim : Db → ℕ → Bool
allocation_has_aedt_pool_claim db i = elim db.aedt_sessions [
  | none ↦ false
  | some rows ↦ any (λ s. s.allocation_id == i && is_counted_session s.state) rows
]

unfoldable pub task_has_auto_aedt_reservation : Db → ℕ → Bool
unfolding starts_with
task_has_auto_aedt_reservation db i = elim db.exact_reservations [
  | none ↦ false
  | some rows ↦
      any
        (λ r. r.task_id == i && starts_with (lower (codes r.reservation_key)) (codes "aedt-auto:"))
        rows
]

-- The optimistic update: `true` if the row was there in one of the expected statuses.
unfoldable pub update_task_if_status : ℕ → (TaskStatus → Bool) → (Task → Task) → Db → Db × Bool
update_task_if_status i expected f db = (
  record db { tasks = map (λ t. if t.id == i && expected t.status then f t else t) db.tasks },
  any (λ t. t.id == i && expected t.status) db.tasks,
)

abbrev pub owns_claim : ℕ → String → Bool → Task → Bool
owns_claim i token unlaunched t =
    t.id == i
    && is_attaching t.status
    && str_eq t.attach_token token
    && (not unlaunched || not (is_some t.launch_started_at))
  where
    is_attaching : TaskStatus → Bool
    is_attaching TaskStatus.attaching = true
    is_attaching _ = false

-- The update of one exact attach attempt. A database that stays locked raises, which is not modelled.
unfoldable pub update_task_if_attach_claim : ℕ → String → Bool → (Task → Task) → Db → Db × Bool
update_task_if_attach_claim i token unlaunched f db = if str_eq token "" then (db, false) else (
  record db { tasks = map (λ t. if owns_claim i token unlaunched t then f t else t) db.tasks },
  any (owns_claim i token unlaunched) db.tasks,
)

unfoldable pub count_tasks_by_project : Db → String → (TaskStatus → Bool) → ℕ
count_tasks_by_project db project wanted =
    if str_eq project ""
    then 0
    else length (keep (λ t. str_eq t.project project && wanted t.status) db.tasks)

unfoldable pub record_event : Event → Db → Db
record_event e db = record db { events = e ∷ db.events }
