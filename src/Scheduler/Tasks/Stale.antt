-- ===== src/Scheduler/Tasks/Stale.antt =====
-- Tasks that can no longer run, because the task or the allocation that they are tied to is gone.
use slurm_scheduler.Prelude.{
  Bool, true, false, ◌&&◌, Option, none, some, List, [], ◌∷◌, String, ◌==◌, show, format,
  if◌then◌else◌,
}
use slurm_scheduler.Models.{AllocationStatus, TaskStatus}
use slurm_scheduler.Config.{Config}
use slurm_scheduler.Store.{Allocation, Task, Db}
use slurm_scheduler.Store.Queries.{
  get_task, get_allocation, list_tasks_by_statuses, task_has_auto_aedt_reservation,
}
use slurm_scheduler.Policy.{is_pooled}
use slurm_scheduler.Scheduler.{Scheduler, update_task, on_task_terminal}
use slurm_scheduler.Scheduler.Lifecycle.{fail_task}
use slurm_scheduler.Scheduler.Tasks.Cancel.{is_cancellable, free_allocation}

abbrev finished_text : TaskStatus → Option String
finished_text TaskStatus.completed = some "completed"
finished_text TaskStatus.failed = some "failed"
finished_text TaskStatus.cancelled = some "cancelled"
finished_text _ = none

-- Why a task that shares the node of another one cannot go on.
unfoldable pub same_node_failure : Db → Task → Option String
same_node_failure db t =
    if t.same_node_as_task_id == 0 then none else (elim (get_task db t.same_node_as_task_id) [
      | none ↦
          some (format ("same_node_as task " ∷ show t.same_node_as_task_id ∷ " not found" ∷ []))
      | some reference ↦ (elim (finished_text reference.status) [
        | none ↦ none
        | some text ↦
            some (format ("same_node_as task " ∷ show t.same_node_as_task_id ∷ " is " ∷ text ∷ []))
      ])
    ])

abbrev terminate : Config → Task → String → Scheduler → Scheduler
terminate c t message s =
    on_task_terminal c t "failed" (update_task t.id (fail_task message s.clock) s)

abbrev same_node_each : Config → List Task → Scheduler → Scheduler
same_node_each c [] s = s
same_node_each c (t ∷ ts) s = same_node_each c ts (elim (same_node_failure s.db t) [
  | none ↦ s
  | some message ↦ free_allocation t (terminate c t message s)
])

unfoldable pub fail_stale_same_node_tasks : Config → Scheduler → Scheduler
unfolding same_node_failure list_tasks_by_statuses
fail_stale_same_node_tasks c s =
    same_node_each c (list_tasks_by_statuses s.db is_cancellable 5000) s

abbrev lost_text : AllocationStatus → Option String
lost_text AllocationStatus.draining = some "draining"
lost_text AllocationStatus.closing = some "closing"
lost_text AllocationStatus.closed = some "closed"
lost_text AllocationStatus.failed = some "failed"
lost_text _ = none

abbrev lost_parent : Option Allocation → Option String
lost_parent none = some "not found"
lost_parent (some a) = lost_text a.state

-- Why a task that asked for one allocation cannot get it. An automatic pin is renewed elsewhere.
unfoldable pub requested_allocation_failure : Db → Task → Option String
requested_allocation_failure db t =
    if t.requested_allocation_id == 0
    then none
    else (elim (lost_parent (get_allocation db t.requested_allocation_id)) [
      | none ↦ none
      | some text ↦
          if is_pooled t.aedt_backend && task_has_auto_aedt_reservation db t.id
          then none
          else some (
              format
                ("requested allocation " ∷ show t.requested_allocation_id ∷ " is " ∷ text ∷ []))
    ])

abbrev requested_each : Config → List Task → Scheduler → Scheduler
requested_each c [] s = s
requested_each c (t ∷ ts) s = requested_each c ts (elim (requested_allocation_failure s.db t) [
  | none ↦ s
  | some message ↦ terminate c t message s
])

abbrev pub is_queued : TaskStatus → Bool
is_queued TaskStatus.queued = true
is_queued _ = false

unfoldable pub fail_stale_requested_allocation_tasks : Config → Scheduler → Scheduler
unfolding requested_allocation_failure list_tasks_by_statuses
fail_stale_requested_allocation_tasks c s =
    requested_each c (list_tasks_by_statuses s.db is_queued 5000) s
