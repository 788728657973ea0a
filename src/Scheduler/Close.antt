-- ===== src/Scheduler/Close.antt =====
-- Closing one Slurm allocation: `close_allocation` and the two entry points in front of it.
pub mod Safety
pub mod States
pub mod Forced
use slurm_scheduler.Prelude.{
  ℕ, Bool, true, false, not, ◌&&◌, ◌||◌, Option, none, some, is_some, List, [], ◌∷◌, String,
  is_empty, codes, starts_with, ◌==◌, str_eq, show, format, map, if◌then◌else◌,
}
use slurm_scheduler.Models.{
  AllocationStatus, pending, warm, active, draining, closing, closed, failed,
}
use slurm_scheduler.Config.{Config}
use slurm_scheduler.Store.{Allocation, Task}
use slurm_scheduler.Store.Queries.{
  get_allocation, allocation_has_aedt_pool_claim, list_live_task_claims_for_allocation,
}
use slurm_scheduler.Policy.{account_by_name, allocation_is_dedicated_aedt_pool}
use slurm_scheduler.Scheduler.{Scheduler, Remote, update_allocation, record_event}

-- `True`, `False`, and the exception of an account that the tick has given up.
pub data Outcome : Type 0 where
  closed_it refused unavailable : Outcome

-- CLOSED, FAILED or CLOSING
abbrev pub is_ending : AllocationStatus → Bool
is_ending closed = true
is_ending failed = true
is_ending closing = true
is_ending _ = false

abbrev pub is_warm : AllocationStatus → Bool
is_warm warm = true
is_warm _ = false

-- The columns that each `update_allocation` of this file sets.
abbrev pub reactivate : ℕ → Allocation → Allocation
reactivate now a = record a { state = active; last_active_at = some now }

abbrev pub mark_closing : String → Allocation → Allocation
mark_closing reason a = record a { state = closing; drain_reason = reason }

abbrev pub mark_closed : ℕ → Allocation → Allocation
mark_closed now a = record a { state = closed; failure_message = ""; closed_at = some now }

abbrev pub restore : AllocationStatus → String → Allocation → Allocation
restore before exc a = record a { state = before; failure_message = exc }

abbrev pub note_failure : String → Allocation → Allocation
note_failure text a = record a { failure_message = text }

-- A warm row with an owner is stale: it is put back to ACTIVE.
unfoldable pub refuse_owned : Allocation → Scheduler → Scheduler × Outcome
refuse_owned current s = (
  (if is_warm current.state then update_allocation current.id (reactivate s.clock) s else s),
  refused,
)

module _ (current : Allocation) (reason : String) where
  unfoldable pub finish_close : Scheduler → Scheduler × Outcome
  finish_close s = (
    record_event "allocation_closed" reason "allocation" current.id current.account_name
        (update_allocation current.id (mark_closed s.clock) s),
    closed_it,
  )

  -- The state goes back where `scancel` fails; the drain reason does not.
  unfoldable pub cancel_and_close : Option String → Scheduler → Scheduler × Outcome
  unfolding finish_close
  cancel_and_close error s =
      let marked = update_allocation current.id (mark_closing reason) s in
      elim error [
        | none ↦ finish_close marked
        | some exc ↦ (update_allocation current.id (restore current.state exc) marked, refused)
      ]

  unfoldable pub probe_and_close : Remote → Scheduler → Scheduler × Outcome
  unfolding cancel_and_close refuse_owned
  probe_and_close remote s = elim (remote.live_allocation_task_steps current.slurm_job_id) [
    | none ↦ (
      update_allocation current.id
          (note_failure (
            format (
              "allocation close safety probe failed: "
              ∷ remote.probe_error current.slurm_job_id
              ∷ [])))
          s,
      refused,
    )
    | some steps ↦
        if is_empty steps
        then cancel_and_close (remote.cancel_error current.slurm_job_id) s
        else refuse_owned current s
  ]

unfoldable pub has_client : Config → Allocation → Bool
has_client c current =
    is_some (account_by_name c current.account_name) && not (str_eq current.slurm_job_id "")

module _ (c : Config) (remote : Remote) (reason : String) (force allow_owner : Bool) where
  unfoldable pub close_current : Allocation → Scheduler → Scheduler × Outcome
  unfolding probe_and_close refuse_owned
  close_current current s =
      if is_ending current.state
      then (s, refused)
      else if not force && not allow_owner && allocation_is_dedicated_aedt_pool current
      then (s, refused)
      else if not force && allocation_has_aedt_pool_claim s.db current.id
      then (s, refused)
      else if not force && not (is_empty (list_live_task_claims_for_allocation s.db current.id))
      then refuse_owned current s
      else if not (has_client c current)
      then cancel_and_close current reason none s
      else if not (remote.client current.account_name)
      then (s, unavailable)
      else if force
      then cancel_and_close current reason (remote.cancel_error current.slurm_job_id) s
      else probe_and_close current reason remote s

  unfoldable pub close_allocation : ℕ → Scheduler → Scheduler × Outcome
  unfolding close_current
  close_allocation allocation_id s = elim (get_allocation s.db allocation_id) [
    | none ↦ (s, refused)
    | some current ↦ close_current current s
  ]
