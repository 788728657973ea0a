-- ===== src/AedtPool/Rows.antt =====
-- The rows of the pool's tables, its settings and what its operations raise.
use slurm_scheduler.Prelude.{ℕ, Bool, Option, List, ◌⊎◌, String}
use slurm_scheduler.Store.{SessionState, Db}

pub data LeaseState : Type 0 where
  queued offered leased attaching active releasing released failed cancelled expired : LeaseState

pub data ReservationState : Type 0 where
  reserved claimed consumed released failed expired : ReservationState

pub data AdmissionState : Type 0 where
  «open» filled aborting aborted closed : AdmissionState

pub record Lease : Type 0 where
  pub id : ℕ
  pub task_id : ℕ
  pub project_name : String
  pub placement_group : String
  pub workload_family : String
  pub session_profile : String
  pub isolation_policy : String
  pub protocol_version : ℕ
  pub requested_allocation_id : ℕ
  pub requested_node_name : String
  pub requested_session_id : ℕ
  pub requested_session_generation : ℕ
  pub exact_session_reservation_id : ℕ
  pub mixed_canary_admission_id : ℕ
  pub mixed_canary_session_id : ℕ
  pub exclusive_session : Bool
  pub session_id : Option ℕ
  pub slot_index : Option ℕ
  pub state : LeaseState
  pub client_token_hash : String
  pub failure_message : String
  pub offered_at : Option ℕ
  pub offer_expires_at : Option ℕ
  pub accepted_at : Option ℕ
  pub activated_at : Option ℕ
  pub solve_permit_at : Option ℕ
  pub solve_permit_generation : ℕ
  pub native_pipeline_completed_at : Option ℕ
  pub native_pipeline_session_id : ℕ
  pub native_pipeline_generation : ℕ
  pub client_deadline_at : Option ℕ
  pub acquired_at : Option ℕ
  pub last_heartbeat_at : ℕ
  pub expires_at : ℕ
  pub release_requested_at : Option ℕ
  pub finished_at : Option ℕ
  pub fault_phase : String
  pub fault_kind : String
  pub fault_evidence_json : String

pub record Session : Type 0 where
  pub id : ℕ
  pub allocation_id : ℕ
  pub node_name : String
  pub host_id : String
  pub host_task_id : ℕ
  pub host_process_id : String
  pub host_slurm_job_id : String
  pub actual_node_name : String
  pub start_claimed_at : Option ℕ
  pub artifact_dir : String
  pub host_stdout_path : String
  pub host_stderr_path : String
  pub error_log_path : String
  pub journal_path : String
  pub runtime_metadata_json : String
  pub endpoint : String
  pub process_id : String
  pub session_profile : String
  pub host_token_hash : String
  pub slots_total : ℕ
  pub state : SessionState
  pub generation : ℕ
  pub failure_message : String
  pub started_at : Option ℕ
  pub last_heartbeat_at : Option ℕ
  pub reuse_blocked_at : Option ℕ
  pub idle_since : Option ℕ
  pub drain_requested_at : Option ℕ
  pub quarantine_until : Option ℕ
  pub quarantine_reason : String
  pub last_fault_at : Option ℕ
  pub last_fault_evidence_json : String
  pub native_snapshot_path : String
  pub solve_batch_sealed_at : Option ℕ
  pub solve_batch_generation : ℕ
  pub closed_at : Option ℕ

pub record Reservation : Type 0 where
  pub id : ℕ
  pub reservation_key : String
  pub task_id : ℕ
  pub session_id : ℕ
  pub session_generation : ℕ
  pub session_profile : String
  pub workload_family : String
  pub isolation_policy : String
  pub state : ReservationState
  pub lease_id : Option ℕ
  pub failure_message : String
  pub expires_at : ℕ
  pub consumed_at : Option ℕ
  pub finished_at : Option ℕ

pub record Admission : Type 0 where
  pub id : ℕ
  pub session_id : ℕ
  pub state : AdmissionState
  pub expected_projects : ℕ
  pub expires_at : ℕ
  pub finished_at : Option ℕ

pub record AdmissionSlot : Type 0 where
  pub admission_id : ℕ
  pub lease_id : Option ℕ

-- The allocations and tasks are those of the scheduler's own tables.
pub record Pool : Type 0 where
  pub now : ℕ
  pub db : Db
  pub sessions : List Session
  pub leases : List Lease
  pub reservations : List Reservation
  pub admissions : List Admission
  pub admission_slots : List AdmissionSlot
  pub placement_cursor : ℕ

pub record AedtPoolConfig : Type 0 where
  pub enabled : Bool
  pub adapter_ready : Bool
  pub validation_passed : Bool
  pub target_projects : ℕ
  pub lease_ttl_seconds : ℕ
  pub queued_stale_seconds : ℕ
  pub offer_ack_seconds : ℕ
  pub session_heartbeat_timeout_seconds : ℕ
  pub allocation_max_age_seconds : ℕ

-- What an operation raises.
pub data PoolError : Type 0 where
  key_error permission_error runtime_error stop_iteration : PoolError
  lease_is : LeaseState → PoolError
  value_error : String → PoolError

abbrev pub Outcome : Type 0
Outcome = PoolError ⊎ Pool
