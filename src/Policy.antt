-- ===== src/Policy.antt =====
-- slurm_scheduler/scheduler.py: what a task row asks for and what an allocation row is, read from
-- their columns alone or with a look at the database.
use slurm_scheduler.Prelude.{
  ℕ, Bool, true, false, not, ◌||◌, ◌&&◌, ◌-◌, ◌*◌, Option, none, some, List, [], ◌∷◌, String, codes,
  text_eq, strip, is_blank, lower, starts_with, contains, first, ltb, leb, ◌==◌, str_eq, or_else,
  if◌then◌else◌,
}
use slurm_scheduler.Models.{
  AllocationStatus, SchedulingProfile, standard, fea_bursty, NodeNamePolicy, preferred, strict,
  AedtBackend, standalone, pooled, normalize_scheduling_profile, normalize_node_name_policy,
}
use slurm_scheduler.Config.{Account, Config}
use slurm_scheduler.Store.{Allocation, Task, Db}
use slurm_scheduler.Store.Queries.{
  get_allocation, get_task, is_active_status, task_has_auto_aedt_reservation,
}

unfoldable pub task_requires_gpu : Task → Bool
task_requires_gpu t = ltb 0 t.gpus

unfoldable pub task_scheduling_profile : Task → SchedulingProfile
task_scheduling_profile t = normalize_scheduling_profile t.scheduling_profile

abbrev pub is_fea : SchedulingProfile → Bool
is_fea standard = false
is_fea fea_bursty = true

abbrev pub is_pooled : AedtBackend → Bool
is_pooled standalone = false
is_pooled pooled = true

unfoldable pub task_is_fea_bursty : Task → Bool
unfolding task_scheduling_profile
task_is_fea_bursty t = is_fea (task_scheduling_profile t)

unfoldable pub task_is_fea_infra : Task → Bool
unfolding strip
task_is_fea_infra t = text_eq (strip (codes t.project)) (codes "_aedt_pool_hosts")

unfoldable pub allocation_is_dedicated_aedt_pool : Allocation → Bool
unfolding starts_with
allocation_is_dedicated_aedt_pool a = starts_with (codes a.drain_reason) (codes "AEDT pool")

-- An id of 0 is no allocation.
unfoldable pub task_can_share_dedicated_aedt_pool : Db → Allocation → Task → Bool
task_can_share_dedicated_aedt_pool db a t =
    ltb 0 a.id
    && t.requested_allocation_id == a.id
    && (task_is_fea_infra t
        || (ltb 0 t.id && is_pooled t.aedt_backend && task_has_auto_aedt_reservation db t.id))

unfoldable pub task_uses_reserved_aedt_pool_capacity : Db → Allocation → Task → Bool
task_uses_reserved_aedt_pool_capacity db a t =
    allocation_is_dedicated_aedt_pool a && task_can_share_dedicated_aedt_pool db a t

-- A text that is no policy counts as strict.
unfoldable pub explicit_task_node_name_policy : Task → Option NodeNamePolicy
explicit_task_node_name_policy t = elim (normalize_node_name_policy t.node_name_policy) [
  | none ↦ some strict
  | some policy ↦ policy
]

abbrev pub has_node_name : Task → Bool
has_node_name t = not (is_blank t.node_name)

unfoldable pub task_node_name_policy : Config → Task → Option NodeNamePolicy
task_node_name_policy c t = or_else (explicit_task_node_name_policy t) (
    if task_is_fea_bursty t
    then c.fea_node_name_policy
    else if has_node_name t
    then some strict
    else none)

abbrev is_strict : Option NodeNamePolicy → Bool
is_strict (some strict) = true
is_strict _ = false

abbrev is_preferred : Option NodeNamePolicy → Bool
is_preferred (some preferred) = true
is_preferred _ = false

unfoldable pub task_has_strict_node_contract : Task → Bool
task_has_strict_node_contract t = is_strict (explicit_task_node_name_policy t)

unfoldable pub task_can_relax_preferred_node : Config → Task → Bool
task_can_relax_preferred_node c t =
    is_preferred (task_node_name_policy c t)
    && task_is_fea_bursty t
    && has_node_name t
    && t.same_node_as_task_id == 0
    && t.requested_allocation_id == 0
    && not (task_requires_gpu t)
    && not t.exclusive_node

-- The copy keeps the name under `requested_node_name`, which only reports read.
unfoldable pub relaxed_preferred_node_task : Config → Task → Task
relaxed_preferred_node_task c t =
    if task_can_relax_preferred_node c t then record t { node_name = "" } else t

unfoldable pub effective_task_variants : Config → Task → List (Task × Bool)
unfolding relaxed_preferred_node_task
effective_task_variants c t =
    (t, false)
    ∷ (if task_can_relax_preferred_node c t
        then (relaxed_preferred_node_task c t, true) ∷ []
        else [])

-- `none` asks for the last assignment's account, as rows older than the column do.
unfoldable pub task_requested_account_name : Task → String
task_requested_account_name t = elim t.requested_account_name [ none ↦ t.account_name | some n ↦ n ]

unfoldable pub account_by_name : Config → String → Option Account
account_by_name c name = first (λ a. str_eq a.name name) c.accounts

unfoldable pub borrowable_cpus : Config → Allocation → ℕ
borrowable_cpus c a =
    if ltb 0 a.total_gpus && a.free_gpus == a.total_gpus
    then a.free_cpus
    else a.free_cpus - a.free_gpus * c.gpu_prewarm_cpu_reserve_per_free_gpu

unfoldable pub allocation_demand_profile : Allocation → Option SchedulingProfile
unfolding starts_with
allocation_demand_profile a =
    if starts_with (codes a.drain_reason) (codes "queued FEA ") then some fea_bursty else none

unfoldable pub allocation_has_gpu_pool : Allocation → Bool
unfolding starts_with
allocation_has_gpu_pool a = ltb 0 a.total_gpus || starts_with (codes a.resource_pool) (codes "gpu:")

unfoldable pub protected_gpu_warm_pool : Allocation → Bool
unfolding starts_with contains lower
protected_gpu_warm_pool a =
    starts_with (codes a.resource_pool) (codes "gpu:")
    && contains (lower (codes a.drain_reason)) (codes "warm pool")

abbrev is_gone : AllocationStatus → Bool
is_gone AllocationStatus.closed = true
is_gone AllocationStatus.failed = true
is_gone _ = false

abbrev live_target : Option Allocation → Option Allocation
live_target none = none
live_target (some a) = if is_gone a.state || is_blank a.node_name then none else some a

abbrev reference_allocation : Db → Option Task → Option Allocation
reference_allocation db none = none
reference_allocation db (some r) =
    if is_active_status r.status
    then (elim r.allocation_id [ none ↦ none | some i ↦ live_target (get_allocation db i) ])
    else none

-- The allocation of the task that this one must share a node with.
unfoldable pub same_node_target_for_task : Db → Task → Option Allocation
same_node_target_for_task db t =
    if t.same_node_as_task_id == 0
    then none
    else reference_allocation db (get_task db t.same_node_as_task_id)

unfoldable pub task_can_overlap_same_node_allocation : Db → Allocation → Task → Bool → Bool
task_can_overlap_same_node_allocation db a t include_pending =
    not include_pending
    && not (t.same_node_as_task_id == 0)
    && not (task_requires_gpu t || t.exclusive_node)
    && leb t.cpus 4
    && (elim (same_node_target_for_task db t) [ none ↦ false | some target ↦ a.id == target.id ])
