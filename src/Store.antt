-- ===== src/Store.antt =====
-- slurm_scheduler/db.py: the rows of the tables `allocations`, `tasks`, `aedt_sessions` and
-- `aedt_exact_session_reservations`, the event log, and the clock that CURRENT_TIMESTAMP reads.
-- Tables are lists, newest id first, so ORDER BY id DESC is the order of the list.
pub mod Table
pub mod Queries
pub mod Laws
use slurm_scheduler.Prelude.{ℕ, Bool, String, Option, List}
use slurm_scheduler.Models.{AllocationStatus, TaskStatus, SchedulingProfile, AedtBackend}

pub record Allocation : Type 0 where
  pub id : ℕ
  pub account_name : String
  pub slurm_job_id : String
  pub state : AllocationStatus
  pub partition : String
  pub node_name : String
  pub resource_pool : String
  pub gpu_model : String
  pub exclusive_node : Bool
  pub total_cpus : ℕ
  pub total_memory_mb : ℕ
  pub total_gpus : ℕ
  pub free_cpus : ℕ
  pub free_memory_mb : ℕ
  pub free_gpus : ℕ
  pub drain_reason : String
  pub pending_reason : String
  pub failure_message : String
  pub created_at : Option ℕ
  pub submitted_at : Option ℕ
  pub started_at : Option ℕ
  pub last_active_at : Option ℕ
  pub drain_at : Option ℕ
  pub closed_at : Option ℕ
  -- the transient annotation `_reserved_scheduling_profile` of a planning pass
  pub reserved_profile : Option SchedulingProfile

pub record Task : Type 0 where
  pub id : ℕ
  pub name : String
  pub project : String
  pub status : TaskStatus
  pub scheduling_profile : String
  pub aedt_backend : AedtBackend
  pub cpus : ℕ
  pub memory_mb : ℕ
  pub gpus : ℕ
  pub partition : String
  pub node_name : String
  pub node_name_policy : String
  pub exclusive_node : Bool
  pub priority : ℕ
  pub timeout_seconds : ℕ
  pub same_node_as_task_id : ℕ
  pub requested_allocation_id : ℕ
  pub requested_account_name : Option String
  pub account_name : String
  pub allocation_id : Option ℕ
  pub attach_token : String
  pub remote_dir : String
  pub stdout_path : String
  pub stderr_path : String
  pub exit_code_path : String
  pub wrapper_pid : String
  pub required_capability : String
  pub env_profile : String
  pub env_setup : List ℕ
  pub gpu_model : String
  pub max_workers_per_node : ℕ
  pub cleanup_globs : String
  pub exit_code : Option ℕ
  pub failure_message : String
  pub attempt_count : ℕ
  pub created_at : Option ℕ
  pub attached_at : Option ℕ
  pub launch_started_at : Option ℕ
  pub started_at : Option ℕ
  pub finished_at : Option ℕ

pub data SessionState : Type 0 where
  starting ready busy draining unhealthy failed closed : SessionState

pub record SessionRow : Type 0 where
  pub allocation_id : ℕ
  pub state : SessionState

pub record ReservationRow : Type 0 where
  pub task_id : ℕ
  pub reservation_key : String

pub record Event : Type 0 where
  pub kind : String
  pub message : String
  pub entity_type : String
  pub entity_id : ℕ
  pub account_name : String

pub record Db : Type 0 where
  pub allocations : List Allocation
  pub tasks : List Task
  -- `none` where the optional pool service has not installed its table
  pub aedt_sessions : Option (List SessionRow)
  pub exact_reservations : Option (List ReservationRow)
  pub events : List Event
  pub clock : ℕ
