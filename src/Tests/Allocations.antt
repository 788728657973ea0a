-- ===== src/Tests/Allocations.antt =====
-- Allocations: closing them, the answers of Slurm, and the recalculation of what is free.
use slurm_scheduler.Prelude.{
  str_eq, ltb, if◌then◌else◌, ◌≡◌, refl, inl, inr, arith, true, false, some, none, [], ◌∷◌, codes,
  starts_with,
}
use slurm_scheduler.Models.{AllocationStatus, warm, active, pending, JobStatus, TaskStatus}
use slurm_scheduler.Store.{Allocation}
use slurm_scheduler.Store.Queries.{get_allocation}
use slurm_scheduler.Scheduler.{Scheduler}
use slurm_scheduler.Scheduler.Rows.{row}
use slurm_scheduler.Scheduler.Close.{close_allocation}
use slurm_scheduler.Scheduler.Close.Safety.{IsFree, close-IsFree}
use slurm_scheduler.Scheduler.Close.States.{Leaves, has_owner, close-Leaves}
use slurm_scheduler.Scheduler.Close.Forced.{refused_force_forgets_pool}
use slurm_scheduler.Policy.{allocation_is_dedicated_aedt_pool}
use slurm_scheduler.Scheduler.JobState.{JobStateInfo, apply_allocation_state}
use slurm_scheduler.Scheduler.JobState.Graph.{stale_answer_revives}
use slurm_scheduler.Scheduler.Capacity.{recalculate_all, recalculate_scoped}
use slurm_scheduler.Scheduler.Capacity.Exact.{measured_row, recalculated_exact}
use slurm_scheduler.Scheduler.Expiry.{set_until, allocation_pool_in_backoff}
use slurm_scheduler.Scheduler.Expiry.Backoff.{backs_off_until}
use slurm_scheduler.Tests.{config, task, allocation, scheduler_of, remote_of}

abbrev idle : Scheduler
idle =
    scheduler_of (allocation 4 active ∷ allocation 3 warm ∷ [])
      (task 8 TaskStatus.running "standard" (some 4) ∷ [])

close-IsFree_example :
    (current : Allocation) × (get_allocation idle.db 3 ≡ some current)
    × IsFree config (remote_of none) false idle current
unfolding close_allocation get_allocation slurm_scheduler.Store.Table.get
    slurm_scheduler.Policy.allocation_is_dedicated_aedt_pool
    slurm_scheduler.Store.Queries.allocation_has_aedt_pool_claim
    slurm_scheduler.Store.Queries.list_live_task_claims_for_allocation
    slurm_scheduler.Scheduler.Close.has_client slurm_scheduler.Policy.account_by_name
close-IsFree_example = close-IsFree config (remote_of none) "idle" false 3 idle refl

close-Leaves_example :
    Leaves 3
      (has_owner (remote_of (some "no scancel")) idle (allocation 3 warm))
      warm
      (close_allocation config (remote_of (some "no scancel")) "idle" false false 3 idle)
unfolding get_allocation slurm_scheduler.Store.Table.get
close-Leaves_example =
    close-Leaves config (remote_of (some "no scancel")) "idle" false false 3 idle
      (allocation 3 warm) refl

abbrev dedicated : Allocation
dedicated = record (allocation 3 warm) { drain_reason = "AEDT pool sessions" }

abbrev pooled : Scheduler
pooled = scheduler_of (dedicated ∷ []) []

refused_force_forgets_pool_example :
    (after : Allocation) × (row 3
        (close_allocation config (remote_of (some "no scancel")) "expired" true false 3 pooled).0
      ≡ some after)
    × (after.state ≡ warm)
    × (allocation_is_dedicated_aedt_pool after ≡ starts_with (codes "expired") (codes "AEDT pool"))
unfolding get_allocation slurm_scheduler.Store.Table.get close_allocation
    allocation_is_dedicated_aedt_pool slurm_scheduler.Store.Queries.allocation_has_aedt_pool_claim
    slurm_scheduler.Store.Queries.list_live_task_claims_for_allocation
    slurm_scheduler.Scheduler.Close.has_client slurm_scheduler.Policy.account_by_name
refused_force_forgets_pool_example =
    refused_force_forgets_pool config (remote_of (some "no scancel")) "expired" false 3 pooled
      dedicated refl refl refl

abbrev running_job : JobStateInfo
running_job = record {
  status = JobStatus.running;
  node_name = "n02";
  partition = "cpu";
  pending_reason = "";
}

abbrev waiting : Scheduler
waiting = scheduler_of (allocation 3 pending ∷ []) []

abbrev gone : Scheduler
gone = (close_allocation config (remote_of none) "idle" false false 3 waiting).0

stale_answer_revives_example :
    (closed after : Allocation) × (row 3 gone ≡ some closed)
    × (closed.state ≡ AllocationStatus.closed)
    × (row 3 (apply_allocation_state (allocation 3 pending) running_job gone) ≡ some after)
    × (after.state ≡ warm)
unfolding get_allocation slurm_scheduler.Store.Table.get close_allocation
    allocation_is_dedicated_aedt_pool slurm_scheduler.Store.Queries.allocation_has_aedt_pool_claim
    slurm_scheduler.Store.Queries.list_live_task_claims_for_allocation
    slurm_scheduler.Scheduler.Close.has_client slurm_scheduler.Policy.account_by_name
stale_answer_revives_example =
    stale_answer_revives config (remote_of none) "idle" false false 3 waiting (allocation 3 pending)
      running_job refl refl refl refl

recalculated_exact_example :
    (get_allocation (recalculate_all idle.db) 4 ≡ some (measured_row idle.db (allocation 4 active)))
    × (get_allocation (recalculate_scoped (4 ∷ []) idle.db) 4
        ≡ some (measured_row idle.db (allocation 4 active)))
unfolding get_allocation slurm_scheduler.Store.Table.get
recalculated_exact_example =
    recalculated_exact idle.db (allocation 4 active) (omega arith) refl (inl refl, (inr refl, tt))
      refl (omega arith) (omega arith)

backs_off_until_example :
    (allocation_pool_in_backoff "cpu"
      (record idle { pool_backoff = set_until config str_eq "cpu" 2800 idle.pool_backoff })).1
    ≡ (if str_eq "cpu" "cpu"
        then ltb idle.clock 2800
        else (allocation_pool_in_backoff "cpu" idle).1)
backs_off_until_example = backs_off_until config idle "cpu" "cpu" 2800
