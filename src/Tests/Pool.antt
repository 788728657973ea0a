-- ===== src/Tests/Pool.antt =====
-- A session with two slots: a lease that solves, one that waits, one that is over, and one that is queued.
use slurm_scheduler.Prelude.{
  ℕ, ◌≤◌, ◌<◌, ◌-◌, ◌*◌, max, ◌≡◌, ◌≢◌, refl, arith, true, false, some, none, [], ◌∷◌, List, String,
  inl, inr, Option, length, mem_nat,
}
use slurm_scheduler.Store.{Db, SessionState}
use slurm_scheduler.AedtPool.{
  LeaseState, Lease, Session, Pool, Outcome, AedtPoolConfig, find_lease, occupants, stop_iteration,
  is_terminal,
}
use slurm_scheduler.AedtPool.Placement.{place_lease, slot_on, slots}
use slurm_scheduler.AedtPool.Placement.Slots.{
  chosen_session_has_free_slot, placement_never_runs_out_of_slots,
}
use slurm_scheduler.AedtPool.Solve.{grant_on_session}
use slurm_scheduler.AedtPool.Solve.Serial.{
  solving, FollowsWave, one_solver_at_a_time, waves_follow_attested_waves,
}
use slurm_scheduler.AedtPool.Owners.{cancel_lease}
use slurm_scheduler.AedtPool.Owners.TwoPhase.{cancel_keeps_slots_of_owners}
use slurm_scheduler.AedtPool.Leases.Beats.{unwritten_heartbeats_are_early}
use slurm_scheduler.AedtPool.History.Steps.{here, onward, cancel, pass, ended_lease_stays}
use slurm_scheduler.Models.{AllocationStatus}
use slurm_scheduler.Tests.{allocation, db_of}

abbrev token_hash : String → String
token_hash token = token

abbrev port_of : String → ℕ
port_of endpoint = 0

abbrev config : AedtPoolConfig
config = record {
  enabled = true;
  adapter_ready = true;
  validation_passed = true;
  target_projects = 10;
  lease_ttl_seconds = 1800;
  queued_stale_seconds = 90;
  offer_ack_seconds = 60;
  session_heartbeat_timeout_seconds = 1800;
  allocation_max_age_seconds = 158400;
}

abbrev lease : ℕ → LeaseState → Option ℕ → Option ℕ → Lease
lease i state session_id slot = record {
  id = i;
  task_id = 0;
  project_name = "motor";
  placement_group = "motor";
  workload_family = "motor";
  session_profile = "default";
  isolation_policy = "family";
  protocol_version = 2;
  requested_allocation_id = 0;
  requested_node_name = "";
  requested_session_id = 0;
  requested_session_generation = 0;
  exact_session_reservation_id = 0;
  mixed_canary_admission_id = 0;
  mixed_canary_session_id = 0;
  exclusive_session = false;
  session_id = session_id;
  slot_index = slot;
  state = state;
  client_token_hash = "secret";
  failure_message = "";
  offered_at = none;
  offer_expires_at = none;
  accepted_at = none;
  activated_at = none;
  solve_permit_at = none;
  solve_permit_generation = 0;
  native_pipeline_completed_at = none;
  native_pipeline_session_id = 0;
  native_pipeline_generation = 0;
  client_deadline_at = some 5000;
  acquired_at = none;
  last_heartbeat_at = 990;
  expires_at = 2800;
  release_requested_at = none;
  finished_at = none;
  fault_phase = "";
  fault_kind = "";
  fault_evidence_json = "{}";
}

abbrev session : Session
session = record {
  id = 1;
  allocation_id = 3;
  node_name = "n01";
  host_id = "host";
  host_task_id = 0;
  host_process_id = "";
  host_slurm_job_id = "9001";
  actual_node_name = "n01";
  start_claimed_at = some 800;
  artifact_dir = "";
  host_stdout_path = "";
  host_stderr_path = "";
  error_log_path = "";
  journal_path = "";
  runtime_metadata_json = "{}";
  endpoint = "n01:50051";
  process_id = "77";
  session_profile = "default";
  host_token_hash = "host secret";
  slots_total = 2;
  state = SessionState.busy;
  generation = 1;
  failure_message = "";
  started_at = some 900;
  last_heartbeat_at = some 995;
  reuse_blocked_at = none;
  idle_since = none;
  drain_requested_at = none;
  quarantine_until = none;
  quarantine_reason = "";
  last_fault_at = none;
  last_fault_evidence_json = "{}";
  native_snapshot_path = "";
  solve_batch_sealed_at = none;
  solve_batch_generation = 0;
  closed_at = none;
}

abbrev pool_of : Session → List Lease → Pool
pool_of s leases = record {
  now = 1000;
  db = db_of (allocation 3 AllocationStatus.warm ∷ []) [];
  sessions = s ∷ [];
  leases = leases;
  reservations = [];
  admissions = [];
  admission_slots = [];
  placement_cursor = 0;
}

-- Lease 4 is queued, lease 5 solves nothing yet, lease 6 was cancelled.
abbrev queued : Lease
queued = lease 4 LeaseState.queued none none

abbrev owner : Lease
owner = lease 5 LeaseState.active (some 1) (some 0)

abbrev over : Lease
over = lease 6 LeaseState.cancelled none none

abbrev pool : Pool
pool = pool_of session (queued ∷ owner ∷ over ∷ [])

chosen_session_has_free_slot_example :
    (slot : ℕ) × (slot_on pool session ≡ some slot)
    × (slot < 2)
    × (mem_nat slot (slots (occupants pool 1)) ≡ false)
unfolding slurm_scheduler.Store.Queries.get_allocation slurm_scheduler.Store.Table.get
    slurm_scheduler.AedtPool.Compat.lease_fits_session
chosen_session_has_free_slot_example = chosen_session_has_free_slot config pool queued session refl

placement_never_runs_out_of_slots_example : place_lease config queued pool ≢ inl stop_iteration
placement_never_runs_out_of_slots_example = placement_never_runs_out_of_slots config queued pool

-- The lease of generation 1 was released with its pipeline completed; lease 5 waits for the next wave.
abbrev solved : Lease
solved = record (lease 2 LeaseState.released (some 1) (some 1)) {
  solve_permit_at = some 950;
  solve_permit_generation = 1;
  native_pipeline_completed_at = some 980;
  native_pipeline_session_id = 1;
  native_pipeline_generation = 1;
}

abbrev sealed : Session
sealed = record session { solve_batch_sealed_at = some 950; solve_batch_generation = 1 }

abbrev cohort : Pool
cohort = pool_of sealed (solved ∷ owner ∷ [])

one_solver_at_a_time_example : solving 1 (grant_on_session sealed false cohort).0 ≤ 1
one_solver_at_a_time_example =
    one_solver_at_a_time sealed false cohort (λ i. ground arith) (λ h. cc, (λ h. cc, tt))
      (omega arith)

waves_follow_attested_waves_example : FollowsWave sealed cohort
unfolding grant_on_session
waves_follow_attested_waves_example = waves_follow_attested_waves sealed false cohort refl

cancel_keeps_slots_of_owners_example :
    (q : Pool) × (cancel_lease token_hash config 5 "secret" "stop" pool ≡ inr q)
    × ((m : Lease) × (find_lease q 5 ≡ some m)
        × (m.state ≡ LeaseState.releasing)
        × (m.session_id ≡ owner.session_id)
        × (m.slot_index ≡ owner.slot_index))
    × ((j : ℕ) → length (occupants q j) ≡ length (occupants pool j))
unfolding find_lease
cancel_keeps_slots_of_owners_example =
    cancel_keeps_slots_of_owners token_hash config 5 "secret" "stop" pool owner refl refl refl refl

unwritten_heartbeats_are_early_example :
    (990 ≤ 1000) × (3 * (1000 - 990) < max 3 1800) × (1000 - 990 < 30)
unfolding slurm_scheduler.AedtPool.Leases.heartbeat_is_fresh
    slurm_scheduler.AedtPool.Leases.heartbeat_persist_interval_seconds
unwritten_heartbeats_are_early_example =
    unwritten_heartbeats_are_early token_hash config 1000 "" owner refl

abbrev outcome : Pool → Outcome → Pool
outcome p (inl error) = p
outcome p (inr q) = q

-- The owner cancels, and an hour later lease 6 is where it was.
abbrev asked : Pool
asked = outcome pool (cancel_lease token_hash config 5 "secret" "stop" pool)

ended_lease_stays_example :
    (m : Lease) × (find_lease (record asked { now = 4600; db = pool.db }) 6 ≡ some m)
    × (m.state ≡ LeaseState.cancelled)
unfolding cancel_lease find_lease
ended_lease_stays_example =
    ended_lease_stays token_hash port_of config
      (onward (cancel {p = pool} {q = asked} 5 "secret" "stop" refl)
        (onward (pass 4600 pool.db) here))
      6 over refl refl
