-- ===== src/Scheduler/JobState/Graph.antt =====
-- An answer of Slurm against a close that comes between the read and the answer.
use slurm_scheduler.Prelude.{ℕ, Bool, String, ◌≡◌, refl, ◌∙◌, ap, subst, some}
use slurm_scheduler.Models.{AllocationStatus, JobStatus}
use slurm_scheduler.Config.{Config}
use slurm_scheduler.Store.{Allocation}
use slurm_scheduler.Store.Laws.{get_allocation-id}
use slurm_scheduler.Scheduler.{Scheduler, Remote}
use slurm_scheduler.Scheduler.Rows.{row, row-update, row-record_event}
use slurm_scheduler.Scheduler.Close.{Outcome, closed_it, close_allocation}
use slurm_scheduler.Scheduler.Close.States.{Ends, ended, kept, reactivated, close-Leaves}
use slurm_scheduler.Scheduler.JobState.{JobStateInfo, set_warm, apply_allocation_state}

-- A pending row that a running job's answer is applied to becomes WARM, in whatever state it is by then.
answered :
    (seen current : Allocation) (info : JobStateInfo) (s : Scheduler)
    → seen.state ≡ AllocationStatus.pending
    → info.status ≡ JobStatus.running
    → row seen.id s ≡ some current
    → row seen.id (apply_allocation_state seen info s) ≡ some (set_warm info s.clock seen current)
unfolding apply_allocation_state
answered seen current info s pending running found =
    rw (pending, running)
      (row-record_event seen.id _ _ _ _ seen.id _
        ∙ row-update seen.id (set_warm info s.clock seen) current s (λ r. refl) found)

closed-state :
    {owned : Bool} {before : AllocationStatus} {after : Allocation} {o : Outcome}
    → Ends owned before after o
    → o ≡ closed_it
    → after.state ≡ AllocationStatus.closed
closed-state (ended h live) e = h
closed-state (kept other h) e = absurd (other e)
closed-state (reactivated owner h g) e = cc

-- A pending row is read, an attempt to close it reports that it closed it, and the answer that Slurm had
-- given for the row that was read, that its job runs, is applied then: the close has left the row CLOSED,
-- and the answer makes it WARM again.
pub stale_answer_revives :
    (c : Config) (remote : Remote) (reason : String) (force allow_owner : Bool) (i : ℕ)
    (s : Scheduler) (seen : Allocation) (info : JobStateInfo)
    → row i s ≡ some seen
    → seen.state ≡ AllocationStatus.pending
    → info.status ≡ JobStatus.running
    → (close_allocation c remote reason force allow_owner i s).1 ≡ closed_it
    → let later = (close_allocation c remote reason force allow_owner i s).0 in
      (closed after : Allocation) × (row i later ≡ some closed)
      × (closed.state ≡ AllocationStatus.closed)
      × (row i (apply_allocation_state seen info later) ≡ some after)
      × (after.state ≡ AllocationStatus.warm)
stale_answer_revives c remote reason force allow_owner i s seen info found pending running did =
    let left = close-Leaves c remote reason force allow_owner i s seen found in
    let later = (close_allocation c remote reason force allow_owner i s).0 in
    let same = get_allocation-id s.db i seen found in
    (
      left.0,
      set_warm info later.clock seen left.0,
      left.1,
      closed-state left.2 did,
      subst
          (λ j.
            row j (apply_allocation_state seen info later)
            ≡ some (set_warm info later.clock seen left.0))
          same
          (answered seen left.0 info later pending running (ap (λ j. row j later) same ∙ left.1)),
      refl,
    )
