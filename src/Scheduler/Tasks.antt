-- ===== src/Scheduler/Tasks.antt =====
-- What moves a task from one status to the next: the probe of its process, its timeout, and the
-- requeue of a worker that the scheduler took down.
pub mod Cancel
pub mod Race
pub mod Recovery
pub mod Attempts
pub mod Stale
use slurm_scheduler.Prelude.{
  ℕ, suc, ◌+◌, Bool, true, false, not, ◌&&◌, Option, none, some, or_else, is_some, List, [], ◌∷◌,
  String, text_prefix, leb, ◌==◌, str_eq, show, format, if◌then◌else◌,
}
use slurm_scheduler.Models.{JobStatus, TaskStatus}
use slurm_scheduler.Config.{Config}
use slurm_scheduler.Store.{Task}
use slurm_scheduler.Store.Queries.{update_task_if_attach_claim, list_tasks_by_statuses}
use slurm_scheduler.License.{ClaimTable}
use slurm_scheduler.License.Claims.{
  license_mark_running, license_mark_terminal, license_release_prelaunch_claim,
  reconstruct_license_admission_claims,
}
use slurm_scheduler.Policy.{task_requested_account_name}
use slurm_scheduler.Scheduler.{Scheduler, Remote, update_task, record_event, on_task_terminal}
use slurm_scheduler.Scheduler.Capacity.{recalculate_all}
use slurm_scheduler.Scheduler.Close.{Outcome, refused}
use slurm_scheduler.Scheduler.Lifecycle.{close_allocation_after_exclusive_task}

-- slurm.py: the answer about the process of one task.
pub record TaskProbe : Type 0 where
  pub status : JobStatus
  pub exit_code : Option ℕ

abbrev pub set_claims : (ClaimTable → ClaimTable) → Scheduler → Scheduler
set_claims f s = record s { license = record s.license { claims = f s.license.claims } }

abbrev pub recalculate : Scheduler → Scheduler
recalculate s = record s { db = recalculate_all s.db }

abbrev name_or_id : Task → String
name_or_id t = if str_eq t.name "" then show t.id else t.name

abbrev pub task_event : Task → String → List String → String → Scheduler → Scheduler
task_event t kind pieces account = record_event kind (format pieces) "task" t.id account

abbrev exit_text : Option ℕ → String
exit_text none = "None"
exit_text (some n) = show n

abbrev is_running : TaskStatus → Bool
is_running TaskStatus.running = true
is_running _ = false

abbrev set_running : ℕ → Task → Task
set_running now t = record t { status = TaskStatus.running; started_at = some now }

abbrev set_completed : Option ℕ → ℕ → Task → Task
set_completed code now t = record t {
  status = TaskStatus.completed;
  exit_code = code;
  finished_at = some now;
}

abbrev pub set_cancelled : ℕ → Task → Task
set_cancelled now t = record t { status = TaskStatus.cancelled; finished_at = some now }

abbrev set_failed : Option ℕ → String → ℕ → Task → Task
set_failed code message now t = record t {
  status = TaskStatus.failed;
  exit_code = code;
  failure_message = message;
  finished_at = some now;
}

-- `messages` reads the result file and the error output of a task on its account: the first text
-- that is not empty, "" where there is none, or `none` where the reading raises.
module _ (c : Config) (remote : Remote) (messages : Task → Option String) where
  abbrev failure_message_of : Task → String
  failure_message_of t =
      if str_eq t.failure_message ""
      then (elim (messages t) [ none ↦ "" | some message ↦ message ])
      else t.failure_message

  abbrev end_task : Task → String → Scheduler → Scheduler × Outcome
  end_task t word s = close_allocation_after_exclusive_task c remote t (on_task_terminal c t word s)

  abbrev run_task : Task → Scheduler → Scheduler
  run_task t s =
      if is_running t.status
      then s
      else set_claims (license_mark_running c.license s.clock t)
          (update_task t.id (set_running s.clock) s)

  abbrev complete_task : Task → TaskProbe → Scheduler → Scheduler × Outcome
  complete_task t probe s = end_task t "completed" (
      task_event t "task_completed" ("task " ∷ name_or_id t ∷ " completed" ∷ []) t.account_name
        (update_task t.id (set_completed probe.exit_code s.clock) s))

  abbrev fail_task : Task → TaskProbe → Scheduler → Scheduler × Outcome
  fail_task t probe s =
      let message = failure_message_of t in
      end_task t "failed" (
        task_event t "task_failed"
          ("task "
            ∷ name_or_id t
            ∷ " failed (exit "
            ∷ exit_text probe.exit_code
            ∷ "): "
            ∷ text_prefix 200 message
            ∷ [])
          t.account_name (update_task t.id (set_failed probe.exit_code message s.clock) s))

  unfoldable pub apply_task_probe : Task → TaskProbe → Scheduler → Scheduler × Outcome
  apply_task_probe t probe s = elim probe.status [
    | JobStatus.running ↦ (run_task t s, refused)
    | JobStatus.completed ↦ complete_task t probe s
    | JobStatus.cancelled ↦ end_task t "cancelled" (update_task t.id (set_cancelled s.clock) s)
    | JobStatus.failed ↦ fail_task t probe s
    | _ ↦ (s, refused)
  ]

unfoldable pub task_timed_out : Task → ℕ → Bool
task_timed_out t now =
    if t.timeout_seconds == 0
    then false
    else (elim (or_else t.started_at (or_else t.attached_at t.created_at)) [
      | none ↦ false
      | some at ↦ leb (at + t.timeout_seconds) now
    ])

-- The columns that a requeue clears; `attempts` is the new attempt count, if it changes.
abbrev pub requeued : String → ℕ → Task → Task
requeued account attempts t = record t {
  status = TaskStatus.queued;
  attempt_count = attempts;
  allocation_id = none;
  account_name = account;
  remote_dir = "";
  stdout_path = "";
  stderr_path = "";
  exit_code_path = "";
  wrapper_pid = "";
  attach_token = "";
  launch_started_at = none;
  failure_message = "";
  attached_at = none;
  started_at = none;
}

abbrev pub rebalanced : Task → Task → Task
rebalanced seen t = requeued (task_requested_account_name seen) t.attempt_count t

unfoldable pub requeue_task_for_rebalance : Config → Task → String → Scheduler → Scheduler
requeue_task_for_rebalance c t reason s = update_task t.id (rebalanced t) (
    set_claims (license_mark_terminal c.license t) (
      task_event t "task_requeued" ("task " ∷ name_or_id t ∷ " requeued: " ∷ reason ∷ [])
        t.account_name s))

abbrev pub give_up : ℕ → ℕ → Task → Task
give_up attempts now t = record t {
  status = TaskStatus.failed;
  attempt_count = attempts;
  failure_message = format ("memory pressure hard limit after " ∷ show attempts ∷ " attempts" ∷ []);
  finished_at = some now;
}

unfoldable pub requeue_pressure_killed_task : Config → Task → Scheduler → Scheduler
requeue_pressure_killed_task c t s =
    let attempts = t.attempt_count + 1 in
    if leb c.fea_pressure_max_attempts attempts
    then on_task_terminal c t "failed" (update_task t.id (give_up attempts s.clock) s)
    else update_task t.id (requeued (task_requested_account_name t) attempts) (
        set_claims (license_mark_terminal c.license t) (
          task_event t "task_requeued"
            ("task "
              ∷ name_or_id t
              ∷ " requeued after memory-pressure kill (attempt "
              ∷ show attempts
              ∷ "/"
              ∷ show c.fea_pressure_max_attempts
              ∷ ")"
              ∷ [])
            t.account_name s))

abbrev pub is_attaching : TaskStatus → Bool
is_attaching TaskStatus.attaching = true
is_attaching _ = false

abbrev pub take_back : Task → Scheduler → Scheduler × Bool
take_back t s =
    let (db, won) = update_task_if_attach_claim t.id t.attach_token true (rebalanced t) s.db in
    (record s { db = db }, won)

abbrev pub recovered : Config → Task → Scheduler × Bool → Scheduler
recovered c t (s, false) = s
recovered c t (s, true) =
    set_claims (license_release_prelaunch_claim c.license t)
      (task_event t "recovered" ("task reserved before remote launch requeued" ∷ []) "" s)

-- A claim whose launch has started, or may have, is held: to requeue it could run it twice.
unfoldable pub recover_attaching_task : Config → Task → Scheduler → Scheduler
unfolding update_task_if_attach_claim
recover_attaching_task c t s =
    if not (str_eq t.attach_token "") && not (is_some t.launch_started_at)
    then recovered c t (take_back t s)
    else if str_eq t.exit_code_path ""
    then task_event t "recovery_held"
        ("task attach launch may have started; claim preserved to prevent duplicate execution" ∷ [])
        t.account_name s
    else s

abbrev pub recover_each : Config → List Task → Scheduler → Scheduler
recover_each c [] s = s
recover_each c (t ∷ ts) s = recover_each c ts (recover_attaching_task c t s)

-- The jobs and the submission claims of allocations are not modelled.
unfoldable pub recover_transient_states : Config → Scheduler → Scheduler
unfolding recover_attaching_task list_tasks_by_statuses
recover_transient_states c s =
    let recovered_tasks = recover_each c (list_tasks_by_statuses s.db is_attaching 5000) s in
    set_claims (reconstruct_license_admission_claims c.license recovered_tasks.db) recovered_tasks
