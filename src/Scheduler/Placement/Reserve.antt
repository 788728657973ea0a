-- ===== src/Scheduler/Placement/Reserve.antt =====
-- `reserve_task_on_allocation`: the claim of a place under the assignment lock, on rows read afresh.
pub mod Unclaimed
pub mod Fits
pub mod Granting
pub mod Strict
use slurm_scheduler.Prelude.{
  ℕ, ◌-◌, Bool, true, false, not, ◌&&◌, ◌||◌, Option, none, some, List, [], ◌∷◌, String, ltb, leb,
  ◌==◌, str_eq, if◌then◌else◌,
}
use slurm_scheduler.Models.{AllocationStatus, warm, active, TaskStatus, queued, attaching}
use slurm_scheduler.Config.{Account, Config}
use slurm_scheduler.Store.{Allocation, Task, Db}
use slurm_scheduler.Store.Queries.{get_task, get_allocation, update_task_if_status}
use slurm_scheduler.License.{Reason, LicenseState}
use slurm_scheduler.License.Claims.{license_record_claim}
use slurm_scheduler.License.Admission.{license_task_admitted}
use slurm_scheduler.Policy.{
  is_pooled, task_is_fea_bursty, task_is_fea_infra, task_can_relax_preferred_node,
  relaxed_preferred_node_task, account_by_name,
}
use slurm_scheduler.Scheduler.{Scheduler}
use slurm_scheduler.Scheduler.Capacity.{recalculate_scoped}
use slurm_scheduler.Scheduler.Caps.{standalone_aedt_running_cap_reached}
use slurm_scheduler.Scheduler.Tasks.{set_claims}
use slurm_scheduler.Scheduler.Tasks.Stale.{is_queued}
use slurm_scheduler.Scheduler.Placement.{
  Gates, apply_dynamic_env_profile, allocation_profile_conflicts, allocation_can_run_task,
  fit_slots_for_allocation, allocation_accepts_new_tasks,
}

abbrev is_open : AllocationStatus → Bool
is_open warm = true
is_open active = true
is_open _ = false

-- `claim_fields`
abbrev pub claimed_by : ℕ → Allocation → String → Task → Task
claimed_by now a attach_token t = record t {
  status = attaching;
  allocation_id = some a.id;
  account_name = a.account_name;
  remote_dir = "";
  stdout_path = "";
  stderr_path = "";
  exit_code_path = "";
  wrapper_pid = "";
  attach_token = attach_token;
  launch_started_at = none;
  failure_message = "";
  attached_at = some now;
  started_at = none;
  finished_at = none;
  exit_code = none;
}

-- The row's account: the one that is given, unless the row has another.
abbrev pub account_of : Config → Account → Allocation → Option Account
account_of c account a =
    if str_eq account.name a.account_name then some account else account_by_name c a.account_name

-- The task that the constraints are checked for: without its node if that is only preferred.
unfoldable pub validation_task : Config → Allocation → Task → Task
validation_task c a t =
    if task_can_relax_preferred_node c t && not (str_eq a.node_name t.node_name)
    then relaxed_preferred_node_task c t
    else t

module _ (c : Config) (gates : Gates) where
  -- Every check before the license, on the rows read afresh.
  unfoldable pub is_reservable : Db → Account → Allocation → Task → Bool
  unfolding validation_task
  is_reservable db account a t =
      is_queued t.status
      && not (gates.backend_blocks t)
      && not (standalone_aedt_running_cap_reached c db t)
      && not (allocation_profile_conflicts db a t)
      && is_open a.state
      && not (str_eq a.slurm_job_id "")
      && allocation_accepts_new_tasks c db.clock a
      && allocation_can_run_task c gates db a (validation_task c a t) false
      && (not (task_is_fea_bursty t)
          || (ltb 0 (fit_slots_for_allocation c gates db a t)
              && not (gates.storage_blocked account true (if task_is_fea_infra t then 0 else 1))))

  -- A pooled task's claim looks at its session's reservation in the same statement.
  abbrev pub claim_row : String → Allocation → Task → Db → Db × Bool
  claim_row attach_token a t db =
      if is_pooled t.aedt_backend && not (gates.pooled_has_room db t a)
      then (db, false)
      else update_task_if_status t.id is_queued (claimed_by db.clock a attach_token) db

  abbrev pub finish_claim :
      String → Account → Allocation → Task → Scheduler → Db × Bool → Scheduler × Option Task
  finish_claim attach_token account a t s (db, false) = (record s { db = db }, none)
  finish_claim attach_token account a t s (db, true) = (
    set_claims
        (license_record_claim c.license s.clock (apply_dynamic_env_profile gates account t)
          attach_token)
        (record s { db = recalculate_scoped (a.id ∷ []) db }),
    some (record (apply_dynamic_env_profile gates account t) {
      status = attaching;
      allocation_id = some a.id;
      account_name = a.account_name;
      attach_token = attach_token;
      launch_started_at = none;
    }),
  )

  abbrev pub claim_admitted :
      String
      → Account
      → Allocation
      → Task
      → Scheduler
      → LicenseState × Bool × Option Reason
      → Scheduler × Option Task
  claim_admitted attach_token account a t s (license, false, reason) =
      (record s { license = license }, none)
  claim_admitted attach_token account a t s (license, true, reason) =
      finish_claim attach_token account a t (record s { license = license })
        (claim_row attach_token a t s.db)

  abbrev pub reserve_checked :
      String → Scheduler → Allocation → Task → Option Account → Scheduler × Option Task
  reserve_checked attach_token s a t none = (s, none)
  reserve_checked attach_token s a t (some own) =
      if is_reservable s.db own a t
      then claim_admitted attach_token own a t s
          (license_task_admitted c.license s.license s.clock t)
      else (s, none)

  abbrev pub reserve_rows :
      String → Account → Scheduler → Option Allocation → Option Task → Scheduler × Option Task
  reserve_rows attach_token account s none t = (s, none)
  reserve_rows attach_token account s (some a) none = (s, none)
  reserve_rows attach_token account s (some a) (some t) =
      reserve_checked attach_token s a t (account_of c account a)

  -- The token is the one that `uuid4` gives.
  unfoldable pub reserve_task_on_allocation :
      String → ℕ → ℕ → Account → Scheduler → Scheduler × Option Task
  unfolding is_reservable get_allocation get_task license_record_claim recalculate_scoped
      update_task_if_status
  reserve_task_on_allocation attach_token task_id allocation_id account s =
      reserve_rows attach_token account s (get_allocation s.db allocation_id)
        (get_task s.db task_id)
