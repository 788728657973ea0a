-- ===== src/Tests/Placement.antt =====
-- A place on an allocation: the reservation of it and the launch of the worker.
use slurm_scheduler.Prelude.{
  ℕ, ◌+◌, ◌≡◌, refl, arith, true, false, Bool, some, none, is_some, [], ◌∷◌, String, inr, Option,
  ◌⊎◌,
}
use slurm_scheduler.Models.{
  AllocationStatus, TaskStatus, warm, queued, attaching, running, SchedulingProfile,
}
use slurm_scheduler.Config.{Account}
use slurm_scheduler.Store.{Allocation, Task, Db}
use slurm_scheduler.Store.Queries.{update_task_if_attach_claim, get_task, get_allocation}
use slurm_scheduler.Scheduler.{Scheduler}
use slurm_scheduler.Scheduler.Placement.{Gates}
use slurm_scheduler.Scheduler.Placement.Reserve.{reserve_task_on_allocation}
use slurm_scheduler.Scheduler.Placement.Reserve.Fits.{IsWithin, reserved, reserve_never_overbooks}
use slurm_scheduler.Scheduler.Placement.Reserve.Strict.{strict_gets_its_node}
use slurm_scheduler.Scheduler.Attach.{
  AttachClient, World, begin_launch, finish_reserved_task_attach,
}
use slurm_scheduler.Scheduler.Attach.Launch.{
  launches, one_if, may_launch, launch_needs_the_claim, launch_is_recorded_once,
}
use slurm_scheduler.Tests.{config, task, allocation, scheduler_of}

abbrev gates : Gates
gates = record {
  overlays = λ account. [];
  overlay_setup = λ account profile. none;
  backend_blocks = λ t. false;
  storage_blocked = λ account pool n. false;
  pooled_has_room = λ db t a. true;
  worker_count = λ a t. 1;
  fea_worker_limit = λ a t m n. 4;
  fea_accepts = λ a. true;
  fea_slots = λ a t. 2;
}

abbrev alice : Account
alice = record { name = "alice"; capabilities = []; env_profiles = [] }

abbrev place : Allocation
place = record (allocation 3 warm) { drain_reason = "" }

abbrev waiting : Task
waiting = record (task 7 queued "standard" none) { node_name = "n01"; node_name_policy = "strict" }

abbrev open_place : Scheduler
open_place = scheduler_of (place ∷ []) (waiting ∷ [])

abbrev started : Scheduler
started = scheduler_of (place ∷ []) (task 7 running "standard" (some 3) ∷ [])

reserve_never_overbooks_example :
    IsWithin place (reserved config gates "token" alice 7 3 open_place place waiting).0.db
unfolding get_allocation get_task slurm_scheduler.Store.Table.get reserve_task_on_allocation
    slurm_scheduler.Policy.explicit_task_node_name_policy
    slurm_scheduler.Models.normalize_node_name_policy
    slurm_scheduler.Scheduler.Caps.standalone_aedt_running_cap_reached
    slurm_scheduler.Policy.task_is_fea_infra slurm_scheduler.Policy.task_is_fea_bursty
    slurm_scheduler.Models.normalize_scheduling_profile
    slurm_scheduler.Scheduler.Placement.allocation_profile_conflicts
    slurm_scheduler.Scheduler.Placement.allocation_accepts_new_tasks
    slurm_scheduler.Scheduler.Placement.allocation_can_run_task
    slurm_scheduler.Scheduler.Placement.account_supports
    slurm_scheduler.Policy.allocation_is_dedicated_aedt_pool
    slurm_scheduler.Policy.task_can_relax_preferred_node
    slurm_scheduler.Policy.task_node_name_policy
    slurm_scheduler.License.Admission.license_admission_diagnostics
    slurm_scheduler.License.Admission.check_features slurm_scheduler.Prelude.sorted_set
    slurm_scheduler.License.Admission.license_configured_features
    slurm_scheduler.License.Admission.license_unsettled_costs
    slurm_scheduler.Policy.task_requested_account_name slurm_scheduler.Policy.account_by_name
    slurm_scheduler.Prelude.is_blank slurm_scheduler.Policy.task_requires_gpu
    slurm_scheduler.Scheduler.Placement.allocation_gpu_matches_task
    slurm_scheduler.License.Admission.license_task_admitted
    slurm_scheduler.License.license_costs_for_task
reserve_never_overbooks_example =
    reserve_never_overbooks config gates "token" alice 7 3 open_place place waiting refl refl
      (refl, tt) refl refl (refl, refl, refl) (omega arith, omega arith, omega arith) refl

strict_gets_its_node_example : place.node_name ≡ waiting.node_name
unfolding get_allocation get_task slurm_scheduler.Store.Table.get reserve_task_on_allocation
    slurm_scheduler.Policy.task_has_strict_node_contract
    slurm_scheduler.Policy.explicit_task_node_name_policy
    slurm_scheduler.Models.normalize_node_name_policy
    slurm_scheduler.Scheduler.Caps.standalone_aedt_running_cap_reached
    slurm_scheduler.Policy.task_is_fea_infra slurm_scheduler.Policy.task_is_fea_bursty
    slurm_scheduler.Models.normalize_scheduling_profile
    slurm_scheduler.Scheduler.Placement.allocation_profile_conflicts
    slurm_scheduler.Scheduler.Placement.allocation_accepts_new_tasks
    slurm_scheduler.Scheduler.Placement.allocation_can_run_task
    slurm_scheduler.Scheduler.Placement.account_supports
    slurm_scheduler.Policy.allocation_is_dedicated_aedt_pool
    slurm_scheduler.Policy.task_can_relax_preferred_node
    slurm_scheduler.Policy.task_node_name_policy
    slurm_scheduler.License.Admission.license_admission_diagnostics
    slurm_scheduler.License.Admission.check_features slurm_scheduler.Prelude.sorted_set
    slurm_scheduler.License.Admission.license_configured_features
    slurm_scheduler.License.Admission.license_unsettled_costs
    slurm_scheduler.Policy.task_requested_account_name slurm_scheduler.Policy.account_by_name
    slurm_scheduler.Prelude.is_blank slurm_scheduler.Policy.task_requires_gpu
    slurm_scheduler.Scheduler.Placement.allocation_gpu_matches_task
    slurm_scheduler.License.Admission.license_task_admitted
    slurm_scheduler.License.license_costs_for_task
strict_gets_its_node_example =
    strict_gets_its_node config gates "token" alice 7 3 open_place place waiting refl refl refl refl
      refl

abbrev claimed : Task
claimed = record (task 7 attaching "standard" (some 3)) { attach_token = "token" }

abbrev client : AttachClient
client = record {
  allocation_node_name = λ job. inr "n01";
  attach_task = λ t a. inr (record {
    remote_dir = "/runs/task-7";
    stdout_path = "/runs/task-7/stdout.log";
    stderr_path = "/runs/task-7/stderr.log";
    exit_code_path = "/runs/task-7/exit_code";
    wrapper_pid = "4711";
  });
  cancel_task = λ t job. none;
}

abbrev quiet : World
quiet = record {
  before_read = λ db. db;
  before_launch = λ db. db;
  during_launch = λ db. db;
  before_start = λ db. db;
  strict_text = λ error. "wrong node";
}

abbrev ready : Scheduler
ready = scheduler_of (place ∷ []) (claimed ∷ [])

launch_needs_the_claim_example :
    launches (finish_reserved_task_attach config client quiet claimed place ready).0
    ≡ launches ready
      + one_if config client quiet claimed place
          (may_launch config client quiet claimed place ready)
launch_needs_the_claim_example = launch_needs_the_claim config client quiet claimed place ready

launch_is_recorded_once_example :
    (update_task_if_attach_claim 7 "token" true
      (begin_launch 1001)
      (update_task_if_attach_claim 7 "token" true (begin_launch 1000) ready.db).0).1
    ≡ false
launch_is_recorded_once_example =
    launch_is_recorded_once 7 1000 "token" (begin_launch 1001) ready.db
