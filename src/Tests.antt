-- ===== src/Tests.antt =====
-- A small cluster to evaluate the definitions on: one account, two allocations and their tasks.
mod Admission
mod Allocations
mod Jobs
mod Services
mod Placement
mod Retention
mod Pool
use slurm_scheduler.Prelude.{ℕ, pos, String, Bool, true, false, Option, none, some, List, [], ◌∷◌}
use slurm_scheduler.Models.{AllocationStatus, TaskStatus, preferred, standalone, AedtBackend}
use slurm_scheduler.Config.{Account, Config, LicenseConfig}
use slurm_scheduler.Store.{Allocation, Task, Db}
use slurm_scheduler.License.{ClaimTable, FeatureRow, Usage, LicenseState}
use slurm_scheduler.Scheduler.{Scheduler, Remote}

abbrev pub license_config : LicenseConfig
license_config = record {
  admission_enabled = true;
  monitor_enabled = true;
  monitor_interval_seconds = 60;
  snapshot_max_age_seconds = 120;
  settlement_seconds = 300;
  reserve_by_feature = ("hfss", 2) ∷ [];
  persistent_cost_by_project =
      ("chips", ("hfss", 1) ∷ [])
      ∷ ("_aedt_pool_hosts", ("electronics_desktop", 1) ∷ ("hfss", 1) ∷ [])
      ∷ [];
  reserve_exempt_projects = [];
  block_unknown_fea_projects = true;
}

abbrev pub config : Config
config = record {
  accounts = record { name = "alice"; capabilities = []; env_profiles = [] } ∷ [];
  license = license_config;
  poll_interval_seconds = 30;
  allocation_drain_after_seconds = 129600;
  allocation_force_cancel_after_seconds = 171000;
  allocation_attach_stop_before_drain_seconds = 600;
  allocation_pending_timeout_seconds = 1800;
  allocation_pending_backoff_seconds = 1800;
  gpu_prewarm_pinned_pending_timeout_seconds = 300;
  gpu_prewarm_gpus_per_allocation = 4;
  gpu_prewarm_cpu_reserve_per_free_gpu = 4;
  fea_node_name_policy = some preferred;
  fea_pressure_max_attempts = 3;
  standalone_aedt_running_lanes = [];
  standalone_aedt_max_running_by_project = ("chips", 2) ∷ [];
}

abbrev pub task : ℕ → TaskStatus → String → Option ℕ → Task
task i status profile allocation_id = record {
  id = i;
  name = "sweep";
  project = "chips";
  status = status;
  scheduling_profile = profile;
  aedt_backend = AedtBackend.standalone;
  cpus = 4;
  memory_mb = 8000;
  gpus = 1;
  partition = "auto";
  node_name = "";
  node_name_policy = "";
  exclusive_node = false;
  priority = 0;
  timeout_seconds = 0;
  same_node_as_task_id = 0;
  requested_allocation_id = 0;
  requested_account_name = none;
  account_name = "alice";
  allocation_id = allocation_id;
  attach_token = "";
  remote_dir = "";
  stdout_path = "";
  stderr_path = "";
  exit_code_path = "";
  wrapper_pid = "";
  required_capability = "";
  env_profile = "";
  env_setup = [];
  gpu_model = "";
  max_workers_per_node = 0;
  cleanup_globs = "";
  exit_code = none;
  failure_message = "";
  attempt_count = 0;
  created_at = some 100;
  attached_at = none;
  launch_started_at = none;
  started_at = none;
  finished_at = none;
}

abbrev pub allocation : ℕ → AllocationStatus → Allocation
allocation i state = record {
  id = i;
  account_name = "alice";
  slurm_job_id = "9001";
  state = state;
  partition = "cpu";
  node_name = "n01";
  resource_pool = "cpu";
  gpu_model = "";
  exclusive_node = false;
  total_cpus = 32;
  total_memory_mb = 128000;
  total_gpus = 2;
  free_cpus = 32;
  free_memory_mb = 128000;
  free_gpus = 2;
  drain_reason = "queued FEA demand";
  pending_reason = "";
  failure_message = "";
  created_at = some 100;
  submitted_at = some 110;
  started_at = some 120;
  last_active_at = none;
  drain_at = none;
  closed_at = none;
  reserved_profile = none;
}

abbrev pub db_of : List Allocation → List Task → Db
db_of allocations tasks = record {
  allocations = allocations;
  tasks = tasks;
  aedt_sessions = some [];
  exact_reservations = none;
  events = [];
  clock = 1000;
}

-- One `hfss` of six is in use in a snapshot of 20 seconds ago.
abbrev pub license_of : ClaimTable → LicenseState
license_of claims = record {
  claims = claims;
  usage = some (record {
    error = "";
    server_up = true;
    features = some (
        record { feature = "hfss"; total = some (pos 6); used = some (pos 1) }
        ∷ record { feature = "electronics_desktop"; total = some (pos 6); used = some (pos 1) }
        ∷ []);
  });
  snapshot_completed = some 980;
  snapshot_query_started = some 970;
  last_tick_duration = none;
  last_blocked_reason = none;
}

abbrev pub scheduler_of : List Allocation → List Task → Scheduler
scheduler_of allocations tasks = record {
  db = db_of allocations tasks;
  license = license_of [];
  pool_backoff = [];
  node_backoff = [];
  requests = [];
}

-- Slurm answers, and its `scancel` gives the error that is given.
abbrev pub remote_of : Option String → Remote
remote_of error = record {
  client = λ account. true;
  live_allocation_task_steps = λ job. some [];
  probe_error = λ job. "";
  cancel_error = λ job. error;
}
