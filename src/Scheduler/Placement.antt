-- ===== src/Scheduler/Placement.antt =====
-- Whether an allocation can run a task: `allocation_matches_task_constraints`,
-- `allocation_can_run_task` and what they ask, and the claim of a place, `reserve_task_on_allocation`.
pub mod Reserve
use slurm_scheduler.Prelude.{
  ℕ, suc, ◌+◌, ◌-◌, ◌/◌, min, max, Bool, true, false, not, ◌&&◌, ◌||◌, Option, none, some, is_some,
  or_else, List, [], ◌∷◌, ◌++◌, String, Text, codes, text_eq, strip, split_on, is_blank, is_empty,
  any, keep, mem_nat, mem_str, ltb, leb, ◌==◌, str_eq, if◌then◌else◌,
}
use slurm_scheduler.Models.{AllocationStatus, pending, SchedulingProfile, standard, fea_bursty}
use slurm_scheduler.Config.{Account, Config}
use slurm_scheduler.Store.{Allocation, Task, Db}
use slurm_scheduler.Store.Queries.{
  list_tasks_by_statuses, is_active_status, is_at, get_task, get_allocation,
}
use slurm_scheduler.Inventory.{split_models, gpu_model_candidates, normalize_gpu_model, mem_text}
use slurm_scheduler.Policy.{
  task_requires_gpu, task_is_fea_bursty, task_is_fea_infra, task_scheduling_profile,
  allocation_is_dedicated_aedt_pool, task_can_share_dedicated_aedt_pool,
  task_uses_reserved_aedt_pool_capacity, task_requested_account_name, account_by_name,
  borrowable_cpus, allocation_demand_profile, allocation_has_gpu_pool, same_node_target_for_task,
  task_can_overlap_same_node_allocation, is_pooled,
}
use slurm_scheduler.Scheduler.Lifecycle.{age_seconds}

-- What placement asks of parts that are not modelled: the overlays of an account's environments, by
-- capability and profile with their set-up, the installed checks of the pooled AEDT backend, the
-- storage guard, and the load-driven limits of shared-memory FEA workers on a node.
pub record Gates : Type 0 where
  pub overlays : String → List (String × String)
  pub overlay_setup : String → Text → Option Text
  pub backend_blocks : Task → Bool
  pub storage_blocked : Account → Bool → ℕ → Bool
  pub pooled_has_room : Db → Task → Allocation → Bool
  pub worker_count : Allocation → Task → ℕ
  pub fea_worker_limit : Allocation → Task → ℕ → ℕ → ℕ
  pub fea_accepts : Allocation → Bool
  pub fea_slots : Allocation → Task → ℕ

abbrev mem_code : Text → List String → Bool
mem_code t [] = false
mem_code t (s ∷ rest) = text_eq t (codes s) || mem_code t rest

abbrev offers : (String × String → String) → Text → List (String × String) → Bool
offers field t overlays = any (λ o. text_eq t (codes (field o))) overlays

unfoldable pub account_supports : Gates → Option Account → String → String → Bool
unfolding strip
account_supports gates none capability profile = false
account_supports gates (some account) capability profile =
    let overlays = gates.overlays account.name in
    (is_blank capability
      || mem_code (strip (codes capability)) account.capabilities
      || offers (λ o. o.0) (strip (codes capability)) overlays)
    && (is_blank profile
        || mem_code (strip (codes profile)) account.env_profiles
        || offers (λ o. o.1) (strip (codes profile)) overlays)

abbrev join_setup : Text → Text → Text
join_setup setup existing = if is_empty existing then setup else setup ++ b'\n' ∷ existing

-- The set-up of the account's overlay goes before the task's own.
unfoldable pub apply_dynamic_env_profile : Gates → Account → Task → Task
unfolding strip
apply_dynamic_env_profile gates account t =
    if is_blank t.env_profile || mem_code (strip (codes t.env_profile)) account.env_profiles
    then t
    else (elim (gates.overlay_setup account.name (strip (codes t.env_profile))) [
      | none ↦ t
      | some setup ↦
          if is_empty (strip setup)
          then t
          else record t { env_setup = join_setup (strip setup) (strip t.env_setup) }
    ])

abbrev pub words : List Text → List Text
words [] = []
words (w ∷ ws) = let rest = words ws in if is_empty (strip w) then rest else strip w ∷ rest

unfoldable pub partition_spec_names : String → List Text
unfolding split_on strip
partition_spec_names spec = words (split_on b',' (codes spec))

unfoldable pub partition_spec_allows : String → String → Bool
unfolding partition_spec_names
partition_spec_allows spec partition =
    is_empty (partition_spec_names spec) || mem_text (codes partition) (partition_spec_names spec)

unfoldable pub requested_accounts : String → List Text
unfolding split_models strip
requested_accounts name = words (split_models (codes name))

-- ATTACHING and RUNNING tasks, the newest 5000.
abbrev pub active_tasks : Db → List Task
active_tasks db = list_tasks_by_statuses db is_active_status 5000

-- Allocations with an id that is not 0, by a test on the tasks on them.
abbrev pub has_active : (Task → Bool) → ℕ → Db → Bool
has_active test i db = ltb 0 i && any (λ t. is_at i t.allocation_id && test t) (active_tasks db)

abbrev is_exclusive : Task → Bool
is_exclusive t = t.exclusive_node

abbrev any_task : Task → Bool
any_task t = true

-- `active_task_allocation_sets`, as the test that its sets are asked.
unfoldable pub active_task_allocation_sets : Db → ℕ → Bool × Bool
unfolding list_tasks_by_statuses
active_task_allocation_sets db i = (has_active any_task i db, has_active is_exclusive i db)

abbrev is_standard : Task → Bool
is_standard t = not (task_is_fea_bursty t)

-- `active_profile_allocation_sets`, freshly read: the FEA and the standard tasks on an allocation.
unfoldable pub active_profile_allocation_sets : Db → ℕ → Bool × Bool
unfolding list_tasks_by_statuses
active_profile_allocation_sets db i =
    (has_active task_is_fea_bursty i db, has_active is_standard i db)

abbrev other_profile : Option SchedulingProfile → SchedulingProfile → Bool
other_profile none p = false
other_profile (some standard) standard = false
other_profile (some fea_bursty) fea_bursty = false
other_profile (some _) _ = true

unfoldable pub allocation_profile_conflicts : Db → Allocation → Task → Bool
unfolding active_profile_allocation_sets task_scheduling_profile allocation_demand_profile
allocation_profile_conflicts db a t =
    other_profile a.reserved_profile (task_scheduling_profile t)
    || other_profile (allocation_demand_profile a) (task_scheduling_profile t)
    || (if task_is_fea_bursty t
        then (active_profile_allocation_sets db a.id).1
        else (active_profile_allocation_sets db a.id).0)

abbrev eq_bool : Bool → Bool → Bool
eq_bool true b = b
eq_bool false b = not b

unfoldable pub allocation_gpu_matches_task : Allocation → Task → Bool
unfolding gpu_model_candidates normalize_gpu_model
allocation_gpu_matches_task a t =
    not (task_requires_gpu t)
    || ((is_empty (gpu_model_candidates (codes t.gpu_model))
          || mem_text (normalize_gpu_model (codes a.gpu_model))
              (gpu_model_candidates (codes t.gpu_model)))
        && leb t.gpus a.free_gpus)

module _ (c : Config) (gates : Gates) (db : Db) where
  abbrev shape_matches : Allocation → Task → Bool
  shape_matches a t =
      if allocation_is_dedicated_aedt_pool a
      then task_can_share_dedicated_aedt_pool db a t
      else eq_bool a.exclusive_node t.exclusive_node

  abbrev pins_match : Allocation → Task → Bool
  pins_match a t =
      let accounts = requested_accounts (task_requested_account_name t) in
      (t.requested_allocation_id == 0 || a.id == t.requested_allocation_id)
      && (is_empty accounts || mem_text (codes a.account_name) accounts)
      && (t.same_node_as_task_id == 0 || (elim (same_node_target_for_task db t) [
        | none ↦ false
        | some target ↦ a.id == target.id
      ]))

  abbrev storage_allows : Allocation → Task → Bool
  storage_allows a t = elim (account_by_name c a.account_name) [
    | none ↦ true
    | some account ↦ not (task_is_fea_bursty t && gates.storage_blocked account true 0)
  ]

  abbrev workers_fit : Allocation → Task → Bool → Bool
  workers_fit a t include_pending =
      let count = gates.worker_count a t in
      t.max_workers_per_node == 0
      || include_pending
      || (if task_is_fea_bursty t
          then ltb count (gates.fea_worker_limit a t count t.max_workers_per_node)
          else ltb count t.max_workers_per_node)

  abbrev is_untouched : Allocation → Bool
  is_untouched a =
      a.free_cpus == a.total_cpus
      && a.free_memory_mb == a.total_memory_mb
      && a.free_gpus == a.total_gpus

  abbrev exclusive_fits : Allocation → Task → Bool → Bool
  exclusive_fits a t include_pending =
      let (tasks, exclusive) = active_task_allocation_sets db a.id in
      if t.exclusive_node
      then (include_pending || not tasks) && is_untouched a
      else include_pending || not exclusive

  abbrev pub place_matches : Allocation → Task → Bool
  place_matches a t =
      (str_eq t.partition ""
        || str_eq t.partition "auto"
        || partition_spec_allows t.partition a.partition)
      && (str_eq t.node_name "" || str_eq a.node_name t.node_name)

  unfoldable pub allocation_matches_task_constraints : Allocation → Task → Bool → Bool
  unfolding partition_spec_allows active_task_allocation_sets same_node_target_for_task
      requested_accounts
  allocation_matches_task_constraints a t include_pending =
      shape_matches a t
      && pins_match a t
      && account_supports gates (account_by_name c a.account_name) t.required_capability
          t.env_profile
      && not (task_is_fea_bursty t && not (task_requires_gpu t) && allocation_has_gpu_pool a)
      && not (allocation_profile_conflicts db a t)
      && storage_allows a t
      && workers_fit a t include_pending
      && exclusive_fits a t include_pending
      && place_matches a t

  abbrev pub standard_fits : Allocation → Task → Bool → Bool
  standard_fits a t include_pending =
      task_can_overlap_same_node_allocation db a t include_pending
      || (leb t.memory_mb a.free_memory_mb
          && (if task_requires_gpu t
              then allocation_gpu_matches_task a t && leb t.cpus a.free_cpus
              else if ltb 0 a.total_gpus
              then leb t.cpus (borrowable_cpus c a)
              else leb t.cpus a.free_cpus))

  abbrev pub fea_fits : Allocation → Task → Bool → Bool
  fea_fits a t include_pending =
      allocation_gpu_matches_task a t
      && (task_is_fea_infra t
          || task_uses_reserved_aedt_pool_capacity db a t
          || include_pending
          || gates.fea_accepts a)

  unfoldable pub allocation_can_run_task : Allocation → Task → Bool → Bool
  unfolding allocation_matches_task_constraints task_can_overlap_same_node_allocation
  allocation_can_run_task a t include_pending =
      allocation_matches_task_constraints a t include_pending
      && (if task_is_fea_bursty t
          then fea_fits a t include_pending
          else standard_fits a t include_pending)

  abbrev is_pending : AllocationStatus → Bool
  is_pending pending = true
  is_pending _ = false

  -- How many more tasks of this shape fit. The count for generic FEA workers is the gate's.
  unfoldable pub fit_slots_for_allocation : Allocation → Task → ℕ
  unfolding task_can_overlap_same_node_allocation borrowable_cpus
  fit_slots_for_allocation a t =
      let memory_slots = a.free_memory_mb / max 1 t.memory_mb in
      let gpu_slots = a.free_gpus / max 1 t.gpus in
      if task_is_fea_bursty t
      then (if task_is_fea_infra t || task_uses_reserved_aedt_pool_capacity db a t
          then 1
          else gates.fea_slots a t)
      else if task_requires_gpu t
      then min (min memory_slots gpu_slots)
          (if leb t.cpus 4 && ltb 0 gpu_slots then gpu_slots else a.free_cpus / max 1 t.cpus)
      else if task_can_overlap_same_node_allocation db a t (is_pending a.state)
      then 1
      else min memory_slots (borrowable_cpus c a / max 1 t.cpus)

-- An allocation that is soon to drain takes no new task.
unfoldable pub allocation_accepts_new_tasks : Config → ℕ → Allocation → Bool
unfolding age_seconds
allocation_accepts_new_tasks c now a =
    c.allocation_drain_after_seconds == 0
    || ltb (age_seconds a now)
        (c.allocation_drain_after_seconds - c.allocation_attach_stop_before_drain_seconds)

-- "" where the wait of a task that shares a node is over.
abbrev is_over : AllocationStatus → Bool
is_over AllocationStatus.closed = true
is_over AllocationStatus.failed = true
is_over _ = false

abbrev waits_for_allocation : Option Allocation → Bool
waits_for_allocation none = true
waits_for_allocation (some a) = is_over a.state || is_blank a.node_name

abbrev waits_for : Db → Option Task → Bool
waits_for db none = true
waits_for db (some reference) =
    not (is_active_status reference.status) || (elim reference.allocation_id [
      | none ↦ true
      | some i ↦ i == 0 || waits_for_allocation (get_allocation db i)
    ])

-- Whether `same_node_wait_reason` is not "".
unfoldable pub same_node_waits : Db → Task → Bool
unfolding get_task get_allocation
same_node_waits db t =
    not (t.same_node_as_task_id == 0) && waits_for db (get_task db t.same_node_as_task_id)
