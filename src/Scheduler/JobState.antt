-- ===== src/Scheduler/JobState.antt =====
-- `_apply_allocation_state`: what a Slurm job state does to the row of its allocation.
pub mod Graph
use slurm_scheduler.Prelude.{
  ℕ, Bool, true, false, not, ◌&&◌, Option, none, some, List, ◌∷◌, [], String, codes, contains,
  str_eq, format, show, if◌then◌else◌,
}
use slurm_scheduler.Models.{AllocationStatus, JobStatus}
use slurm_scheduler.Store.{Allocation}
use slurm_scheduler.Scheduler.{Scheduler, update_allocation, record_event}

-- slurm.py: the fields of a probe's answer that are read here.
pub record JobStateInfo : Type 0 where
  pub status : JobStatus
  pub node_name : String
  pub partition : String
  pub pending_reason : String

abbrev or_text : String → String → String
or_text s t = if str_eq s "" then t else s

abbrev is_spread : String → Bool
is_spread partition = contains (codes partition) (codes ",")

-- A list of partitions gives way to the one that Slurm granted.
abbrev granted : JobStateInfo → Allocation → Allocation → String
granted info seen a =
    if is_spread seen.partition && not (str_eq info.partition "") && not (is_spread info.partition)
    then info.partition
    else a.partition

abbrev node_of : JobStateInfo → Allocation → String
node_of info a = or_text a.node_name info.node_name

abbrev pub set_warm : JobStateInfo → ℕ → Allocation → Allocation → Allocation
set_warm info now seen a = record a {
  state = AllocationStatus.warm;
  partition = granted info seen a;
  started_at = some now;
  pending_reason = "";
  node_name = node_of info seen;
}

abbrev pub set_state : AllocationStatus → ℕ → Allocation → Allocation
set_state state now a = record a { state = state; closed_at = some now }

module _ (seen : Allocation) (info : JobStateInfo) where
  abbrev event : String → List String → Scheduler → Scheduler
  event kind pieces = record_event kind (format pieces) "allocation" seen.id seen.account_name

  abbrev job_text : List String → List String
  job_text pieces = "slurm job " ∷ seen.slurm_job_id ∷ pieces

  abbrev started : Scheduler → Scheduler
  started s =
      event "allocation_warm"
        ("allocation started on " ∷ or_text (node_of info seen) "unknown node" ∷ [])
        (update_allocation seen.id (set_warm info s.clock seen) s)

  abbrev fill_node : Scheduler → Scheduler
  fill_node s =
      if str_eq seen.node_name "" && not (str_eq info.node_name "")
      then update_allocation seen.id (λ a. record a { node_name = info.node_name }) s
      else s

  abbrev note_reason : Scheduler → Scheduler
  note_reason s =
      if not (str_eq info.pending_reason "") && not (str_eq info.pending_reason seen.pending_reason)
      then update_allocation seen.id (λ a. record a { pending_reason = info.pending_reason }) s
      else s

  abbrev ended : AllocationStatus → String → List String → Scheduler → Scheduler
  ended state kind pieces s =
      event kind (job_text pieces) (update_allocation seen.id (set_state state s.clock) s)

  abbrev left_queue : String → Scheduler → Scheduler
  left_queue status =
      ended AllocationStatus.closed "allocation_closed" (" left the queue (" ∷ status ∷ ")" ∷ [])

  -- On the state of the row as it was read, and the job's status.
  abbrev dispatch : AllocationStatus → JobStatus → Scheduler → Scheduler
  dispatch AllocationStatus.pending JobStatus.running = started
  dispatch _ JobStatus.running = fill_node
  dispatch AllocationStatus.pending JobStatus.submitted = note_reason
  dispatch AllocationStatus.closing JobStatus.submitted =
      ended AllocationStatus.closed "allocation_closed" (" vanished while closing" ∷ [])
  dispatch _ JobStatus.completed = left_queue "completed"
  dispatch _ JobStatus.cancelled = left_queue "cancelled"
  dispatch _ JobStatus.failed = ended AllocationStatus.failed "allocation_failed" (" failed" ∷ [])
  dispatch _ _ = λ s. s

  unfoldable pub apply_allocation_state : Scheduler → Scheduler
  apply_allocation_state = dispatch seen.state info.status
