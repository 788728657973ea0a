-- ===== src/Scheduler/Attach.antt =====
-- From a claimed place to a running worker: `finish_reserved_task_attach`, the read-back of a strict
-- node, and the test of a cancellation that is still pending. Other threads have a turn before the
-- node is read back, before the claim is written, during the launch, and before the start is written.
pub mod Launch
use slurm_scheduler.Prelude.{
  ℕ, Bool, true, false, not, ◌&&◌, ◌||◌, Option, none, some, is_some, List, [], ◌∷◌, ◌⊎◌, inl, inr,
  String, Text, codes, text_eq, strip, starts_with, is_empty, is_blank, show, format, ◌==◌, str_eq,
  if◌then◌else◌,
}
use slurm_scheduler.Models.{TaskStatus, attaching, running, failed}
use slurm_scheduler.Config.{Config}
use slurm_scheduler.Store.{Allocation, Task, Db}
use slurm_scheduler.Store.Queries.{get_task, get_allocation, update_task_if_attach_claim, is_at}
use slurm_scheduler.License.Claims.{
  license_mark_launch_started, license_mark_running, license_release_prelaunch_claim,
}
use slurm_scheduler.Policy.{task_has_strict_node_contract}
use slurm_scheduler.Scheduler.{Scheduler, Request, request, remote_cancel, on_task_terminal}
use slurm_scheduler.Scheduler.Capacity.{recalculate_all, recalculate_scoped}
use slurm_scheduler.Scheduler.Tasks.{set_claims, recalculate}

-- slurm.py: what the launch of a worker gives back.
pub record AttachResult : Type 0 where
  pub remote_dir : String
  pub stdout_path : String
  pub stderr_path : String
  pub exit_code_path : String
  pub wrapper_pid : String

-- The account's client: the node of a Slurm job or the exception's text, the launch with its result
-- or its failure and what is known of the worker by then, and the cancel with its exception's text.
pub record AttachClient : Type 0 where
  pub allocation_node_name : String → String ⊎ String
  pub attach_task : Task → Allocation → (String × Option AttachResult) ⊎ AttachResult
  pub cancel_task : Task → String → Option String

abbrev pub put_result : AttachResult → Task → Task
put_result r t = record t {
  remote_dir = r.remote_dir;
  stdout_path = r.stdout_path;
  stderr_path = r.stderr_path;
  exit_code_path = r.exit_code_path;
  wrapper_pid = r.wrapper_pid;
}

-- The fields of a `RemoteExecutionError`, where it has them.
abbrev pub put_known : Option AttachResult → Task → Task
put_known none t = t
put_known (some r) t = put_result r t

unfoldable pub strict_task_node_name : Task → Text
unfolding strip
strict_task_node_name t = if task_has_strict_node_contract t then strip (codes t.node_name) else []

-- Why a strict placement is wrong at the remote boundary; the texts are constructors.
pub data StrictError : Type 0 where
  no_requested_node no_job_id : StrictError
  allocation_mismatch : ℕ → StrictError
  row_on_other_node : String → StrictError
  readback_failed : String → StrictError
  job_on_other_node : String → StrictError

abbrev pub slurm_node_error : Text → String ⊎ String → Option StrictError
slurm_node_error expected (inl exc) = some (readback_failed exc)
slurm_node_error expected (inr node) =
    if text_eq (strip (codes node)) expected then none else some (job_on_other_node node)

abbrev row_error : AttachClient → Task → Option Allocation → ℕ → Option StrictError
row_error client t none expected_id = some (allocation_mismatch expected_id)
row_error client t (some a) expected_id =
    if not (is_at expected_id t.allocation_id && a.id == expected_id)
    then some (allocation_mismatch expected_id)
    else if not (text_eq (strip (codes a.node_name)) (strict_task_node_name t))
    then some (row_on_other_node a.node_name)
    else if is_blank a.slurm_job_id
    then some no_job_id
    else slurm_node_error (strict_task_node_name t) (client.allocation_node_name a.slurm_job_id)

unfoldable pub strict_node_attach_readback_error :
    AttachClient → Task → Option Allocation → ℕ → Option StrictError
unfolding strict_task_node_name strip
strict_node_attach_readback_error client t a expected_id =
    if not (task_has_strict_node_contract t)
    then none
    else if is_empty (strict_task_node_name t)
    then some no_requested_node
    else row_error client t a expected_id

-- The columns that the writes of an attach set.
abbrev pub begin_launch : ℕ → Task → Task
begin_launch now t = record t { launch_started_at = some now }

abbrev pub set_failure : String → ℕ → Task → Task
set_failure message now t = record t {
  status = failed;
  failure_message = message;
  finished_at = some now;
}

abbrev pub start_running : AttachResult → ℕ → Task → Task
start_running r now t = record (put_result r t) { status = running; started_at = some now }

-- The turns of other threads, and the text of a strict error.
pub record World : Type 0 where
  pub before_read : Db → Db
  pub before_launch : Db → Db
  pub during_launch : Db → Db
  pub before_start : Db → Db
  pub strict_text : StrictError → String

module _ (c : Config) (client : AttachClient) (w : World) (t : Task) (a : Allocation) where
  abbrev pub owned : Bool → (Task → Task) → Scheduler → Scheduler × Bool
  owned unlaunched f s =
      let updated = update_task_if_attach_claim t.id t.attach_token unlaunched f s.db in
      (record s { db = updated.0 }, updated.1)

  abbrev pub recalculate_own : Scheduler → Scheduler
  recalculate_own s =
      if a.id == 0 then recalculate s else record s { db = recalculate_scoped (a.id ∷ []) s.db }

  -- The set of one id, which is empty of allocations where the id is 0.
  abbrev pub recalculate_exact : Scheduler → Scheduler
  recalculate_exact s = record s { db = recalculate_scoped (a.id ∷ []) s.db }

  abbrev pub row_or : Task → Option Task → Task
  row_or t none = t
  row_or t (some r) = r

  -- The row as it is, and the task given if it is gone.
  abbrev pub current_task : Scheduler → Task
  current_task s = row_or t (get_task s.db t.id)

  abbrev pub current_allocation : Scheduler → Option Allocation
  current_allocation s = if a.id == 0 then none else get_allocation s.db a.id

  abbrev pub strict_error : Scheduler → Option StrictError
  strict_error s =
      strict_node_attach_readback_error client (current_task s) (current_allocation s) a.id

  -- A write that still owned the claim ends the task; one that did not leaves it alone.
  abbrev pub end_if_won : Task → String → Scheduler × Bool → Scheduler
  end_if_won ended word (s, false) = s
  end_if_won ended word (s, true) = on_task_terminal c ended word s

  abbrev pub reject : StrictError → (Task → Task) → Scheduler → Scheduler × Bool
  reject error known s = (
    recalculate_own (
        end_if_won (current_task s) "strict placement rejected"
          (owned false (λ r. set_failure (w.strict_text error) s.clock (known r)) s)),
    false,
  )

  abbrev pub allocation_or : Option Allocation → Allocation
  allocation_or none = a
  allocation_or (some r) = r

  abbrev pub pending_text : StrictError → String → String
  pending_text error exc = format (
      "strict node placement cancellation pending: "
      ∷ w.strict_text error
      ∷ "; last cancel error: "
      ∷ exc
      ∷ [])

  abbrev pub hold_pending : StrictError → String → AttachResult → Task → Task
  hold_pending error exc result r = record (put_result result r) {
    failure_message = pending_text error exc;
  }

  -- A worker on the wrong node is stopped first; while that fails, its claim stays.
  abbrev pub stopped : StrictError → AttachResult → Option String → Scheduler → Scheduler × Bool
  stopped error result none s = reject error (put_result result) s
  stopped error result (some exc) s =
      (recalculate_own (owned false (hold_pending error exc result) s).0, false)

  abbrev pub reject_started : StrictError → AttachResult → Scheduler → Scheduler × Bool
  reject_started error result s =
      stopped error result
        (client.cancel_task (put_result result (current_task s))
          (allocation_or (current_allocation s)).slurm_job_id)
        s

  abbrev pub settle : AttachResult → Scheduler × Bool → Scheduler × Bool
  settle result (s, true) = (set_claims (license_mark_running c.license s.clock t) s, true)
  settle result (s, false) = (recalculate_exact (request (remote_cancel t.id) s), false)

  abbrev pub checked : AttachResult → Option StrictError → Scheduler → Scheduler × Bool
  checked result (some error) s = reject_started error result s
  checked result none s =
      let later = record s { db = w.before_start s.db } in
      settle result (owned false (start_running result later.clock) later)

  abbrev pub launched : (String × Option AttachResult) ⊎ AttachResult → Scheduler → Scheduler × Bool
  launched (inl (exc, known)) s = (
    recalculate_exact (
        end_if_won t "attach failed"
          (owned false (λ r. set_failure exc s.clock (put_known known r)) s)),
    false,
  )
  launched (inr result) s = checked result (strict_error s) s

  -- What is asked of the remote side is noted in `requests`, the launch among it. The allocation is
  -- the row that was read before the claim.
  abbrev pub launch : Allocation → Scheduler × Bool → Scheduler × Bool
  launch target (s, false) =
      (recalculate_exact (set_claims (license_release_prelaunch_claim c.license t) s), false)
  launch target (s, true) =
      let marked =
        request (Request.launch t.id)
          (set_claims (license_mark_launch_started c.license s.clock t) s) in
      launched (client.attach_task t target) (record marked { db = w.during_launch marked.db })

  abbrev pub begin : Option StrictError → Scheduler → Scheduler × Bool
  begin (some error) s = reject error (λ r. r) s
  begin none s =
      let later = record s { db = w.before_launch s.db } in
      launch (allocation_or (current_allocation s)) (owned true (begin_launch later.clock) later)

  unfoldable pub finish_reserved_task_attach : Scheduler → Scheduler × Bool
  unfolding strict_node_attach_readback_error update_task_if_attach_claim get_task get_allocation
  finish_reserved_task_attach s =
      let later = record s { db = w.before_read s.db } in begin (strict_error later) later

-- `none` is a task whose placement is not being undone.
unfoldable pub strict_node_cancellation_is_pending : Task → Bool
unfolding starts_with
strict_node_cancellation_is_pending t =
    is_attaching t.status
    && task_has_strict_node_contract t
    && starts_with (codes t.failure_message) (codes "strict node placement cancellation pending: ")
  where
    is_attaching : TaskStatus → Bool
    is_attaching attaching = true
    is_attaching _ = false
