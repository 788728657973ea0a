-- ===== src/Scheduler/Lifecycle.antt =====
-- One pass of the scheduler over the allocations: `apply_allocation_lifecycle`, with the failing of
-- the tasks of a lost allocation and the closes that people and finished tasks ask for.
pub mod Failing
use slurm_scheduler.Prelude.{
  ℕ, ◌-◌, Bool, true, false, not, ◌&&◌, ◌||◌, Option, none, some, or_else, List, [], ◌∷◌, ◌⊎◌, inl,
  inr, String, codes, starts_with, is_empty, map, length, keep, leb, ◌==◌, show, format,
  if◌then◌else◌,
}
use slurm_scheduler.Models.{
  AllocationStatus, pending, warm, active, draining, closing, closed, failed, TaskStatus,
}
use slurm_scheduler.Config.{Config}
use slurm_scheduler.Store.{Allocation, Task}
use slurm_scheduler.Store.Queries.{
  get_allocation, allocation_has_aedt_pool_claim, list_live_task_claims_for_allocation,
  list_tasks_by_statuses, list_allocations_with_live, is_active_status, is_at, task_key,
}
use slurm_scheduler.Policy.{allocation_is_dedicated_aedt_pool, protected_gpu_warm_pool}
use slurm_scheduler.Scheduler.{Scheduler, Remote, update_allocation, update_task, on_task_terminal}
use slurm_scheduler.Scheduler.Close.{Outcome, closed_it, refused, unavailable, close_allocation}
use slurm_scheduler.Scheduler.Expiry.{expire_pending_allocation_if_stale}

-- A row without a time has age 0, and so has one whose time is still to come.
unfoldable pub age_seconds : Allocation → ℕ → ℕ
age_seconds a now = elim (or_else a.started_at (or_else a.submitted_at a.created_at)) [
  | none ↦ 0
  | some at ↦ now - at
]

abbrev active_tasks : Scheduler → List Task
active_tasks s = list_tasks_by_statuses s.db is_active_status 5000

unfoldable pub running_task_count : ℕ → Scheduler → ℕ
unfolding list_tasks_by_statuses
running_task_count i s = length (keep (λ t. is_at i t.allocation_id) (active_tasks s))

abbrev pub fail_task : String → ℕ → Task → Task
fail_task message now t = record t {
  status = TaskStatus.failed;
  failure_message = message;
  finished_at = some now;
}

module _ (c : Config) where
  abbrev pub fail_each : ℕ → String → List Task → Scheduler → Scheduler
  fail_each i message [] s = s
  fail_each i message (t ∷ ts) s = fail_each i message ts (
      if is_at i t.allocation_id
      then on_task_terminal c t "allocation lost" (update_task t.id (fail_task message s.clock) s)
      else s)

  unfoldable pub fail_running_tasks : ℕ → String → Scheduler → Scheduler
  unfolding list_tasks_by_statuses
  fail_running_tasks i message s = fail_each i message (active_tasks s) s

  unfoldable pub close_allocation_after_exclusive_task :
      Remote → Task → Scheduler → Scheduler × Outcome
  close_allocation_after_exclusive_task remote t s =
      if not t.exclusive_node then (s, refused) else (elim t.allocation_id [
        | none ↦ (s, refused)
        | some i ↦
            if i == 0
            then (s, refused)
            else close_allocation c remote
                (format ("exclusive task " ∷ show t.id ∷ " finished" ∷ [])) false false i s
      ])

  unfoldable pub close_empty_aedt_pool_allocation :
      Remote → ℕ → Option (AllocationStatus → Bool) → Scheduler → Scheduler × Outcome
  unfolding allocation_is_dedicated_aedt_pool allocation_has_aedt_pool_claim
      list_live_task_claims_for_allocation
  close_empty_aedt_pool_allocation remote i expected s = elim (get_allocation s.db i) [
    | none ↦ (s, refused)
    | some a ↦
        if not (is_expected a)
          || not (allocation_is_dedicated_aedt_pool a)
          || allocation_has_aedt_pool_claim s.db i
          || not (is_empty (list_live_task_claims_for_allocation s.db i))
        then (s, refused)
        else close_allocation c remote "AEDT pool empty" false true a.id s
  ]
    where
      is_expected : Allocation → Bool
      is_expected a = elim expected [ none ↦ true | some test ↦ test a.state ]

-- The answers of `request_close_allocation`, and its exceptions.
pub data CloseError : Type 0 where
  not_found : CloseError
  protected_warm_pool : CloseError
  has_active_tasks : List ℕ → CloseError
  account_unavailable : CloseError

pub record CloseReply : Type 0 where
  pub ok : Bool
  pub previous_state : AllocationStatus
  pub state : AllocationStatus
  pub closed_task_ids : List ℕ

abbrev is_over : AllocationStatus → Bool
is_over closed = true
is_over failed = true
is_over _ = false

abbrev is_closed : AllocationStatus → Bool
is_closed closed = true
is_closed _ = false

abbrev state_or : AllocationStatus → Option Allocation → AllocationStatus
state_or state none = state
state_or state (some a) = a.state

abbrev closed_reply :
    Allocation → List ℕ → Scheduler × Outcome → Scheduler × (CloseError ⊎ CloseReply)
closed_reply a ids (s, unavailable) = (s, inl account_unavailable)
closed_reply a ids (s, _) =
    let state = state_or a.state (get_allocation s.db a.id) in
    (
      s,
      inr (record {
        ok = is_closed state;
        previous_state = a.state;
        state = state;
        closed_task_ids = ids;
      }),
    )

module _ (c : Config) (remote : Remote) (force allow_protected : Bool) where
  abbrev close_requested : Allocation → Scheduler → Scheduler × (CloseError ⊎ CloseReply)
  close_requested a s =
      let ids = map task_key (list_live_task_claims_for_allocation s.db a.id) in
      if protected_gpu_warm_pool a && not allow_protected
      then (s, inl protected_warm_pool)
      else if not (is_empty ids) && not force
      then (s, inl (has_active_tasks ids))
      else closed_reply a ids (
          close_allocation c remote "manual close" force false a.id
            (if is_empty ids then s else fail_running_tasks c a.id "allocation manually closed" s))

  unfoldable pub request_close_allocation : ℕ → Scheduler → Scheduler × (CloseError ⊎ CloseReply)
  unfolding list_live_task_claims_for_allocation get_allocation
  request_close_allocation i s = elim (get_allocation s.db i) [
    | none ↦ (s, inl not_found)
    | some a ↦
        if is_over a.state
        then (
          s,
          inr (record {
            ok = true;
            previous_state = a.state;
            state = a.state;
            closed_task_ids = [];
          }),
        )
        else close_requested a s
  ]

-- `pass` goes on to the next allocation unless an account is unavailable.
abbrev and_then : Scheduler × Outcome → (Scheduler → Scheduler × Outcome) → Scheduler × Outcome
and_then (s, unavailable) next = (s, unavailable)
and_then (s, _) next = next s

abbrev is_draining : AllocationStatus → Bool
is_draining draining = true
is_draining _ = false

abbrev pub start_drain : ℕ → Allocation → Allocation
start_drain now a = record a { state = draining; drain_at = some now; drain_reason = "age limit" }

module _ (c : Config) (remote : Remote) (protected : List ℕ) where
  abbrev close_if_empty : ℕ → Scheduler → Scheduler × Outcome
  close_if_empty i s =
      if running_task_count i s == 0
      then close_allocation c remote "drained" false false i s
      else (s, refused)

  abbrev age_out : Allocation → Scheduler → Scheduler × Outcome
  age_out a s =
      let age = age_seconds a s.clock in
      if leb c.allocation_drain_after_seconds age && not (is_draining a.state)
      then close_if_empty a.id (update_allocation a.id (start_drain s.clock) s)
      else if is_draining a.state && running_task_count a.id s == 0
      then close_allocation c remote "drained" false false a.id s
      else if leb c.allocation_force_cancel_after_seconds age
      then close_allocation c remote "force timeout" true false a.id
          (fail_running_tasks c a.id "allocation force-cancelled near walltime" s)
      else (s, refused)

  unfoldable pub step_allocation : Allocation → Scheduler → Scheduler × Outcome
  unfolding running_task_count age_seconds
  step_allocation a s = elim a.state [
    | pending ↦ expire_pending_allocation_if_stale c remote protected a s
    | warm ↦ age_out a s
    | active ↦ age_out a s
    | draining ↦ age_out a s
    | _ ↦ (s, refused)
  ]

  abbrev step_each : List Allocation → Scheduler → Scheduler × Outcome
  step_each [] s = (s, refused)
  step_each (a ∷ rest) s = and_then (step_allocation a s) (step_each rest)

  unfoldable pub apply_allocation_lifecycle : Scheduler → Scheduler × Outcome
  unfolding step_allocation list_allocations_with_live
  apply_allocation_lifecycle s = step_each (list_allocations_with_live s.db 500 5000) s
