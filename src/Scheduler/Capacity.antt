-- ===== src/Scheduler/Capacity.antt =====
-- `recalculate_allocation_capacity`: the free resources and the state of allocations, recomputed from
-- the tasks that are attaching or running, for all allocations or for the ids given.
pub mod Sums
pub mod Listed
pub mod Exact
use slurm_scheduler.Prelude.{
  ℕ, suc, ◌+◌, ◌-◌, Bool, true, false, ◌&&◌, Option, none, some, List, [], ◌∷◌, ◌++◌, ltb, ◌==◌,
  if◌then◌else◌,
}
use slurm_scheduler.Models.{AllocationStatus, warm, active, draining}
use slurm_scheduler.Store.{Allocation, Task, Db}
use slurm_scheduler.Store.Queries.{
  get_allocation, update_allocation, list_tasks_by_statuses, list_allocations_with_live,
  list_live_task_claims_for_allocation, is_active_status,
}
use slurm_scheduler.Policy.{task_is_fea_bursty}

pub record Stats : Type 0 where
  pub active_tasks : ℕ
  pub reserved_cpus : ℕ
  pub reserved_mem : ℕ
  pub reserved_gpus : ℕ

abbrev pub no_stats : Stats
no_stats = record { active_tasks = 0; reserved_cpus = 0; reserved_mem = 0; reserved_gpus = 0 }

-- An FEA task reserves its GPUs only.
unfoldable pub add_task : Task → Stats → Stats
add_task t s =
    if task_is_fea_bursty t
    then record s { active_tasks = s.active_tasks + 1; reserved_gpus = s.reserved_gpus + t.gpus }
    else record {
      active_tasks = s.active_tasks + 1;
      reserved_cpus = s.reserved_cpus + t.cpus;
      reserved_mem = s.reserved_mem + t.memory_mb;
      reserved_gpus = s.reserved_gpus + t.gpus;
    }

-- The dict `running_by_allocation`.
abbrev pub StatsTable : Type 0
StatsTable = List (ℕ × Stats)

abbrev pub stats_of : ℕ → StatsTable → Stats
stats_of i [] = no_stats
stats_of i ((j, s) ∷ rest) = if j == i then s else stats_of i rest

abbrev pub add_at : ℕ → Task → StatsTable → StatsTable
add_at i t [] = (i, add_task t no_stats) ∷ []
add_at i t ((j, s) ∷ rest) =
    let more = add_at i t rest in if j == i then (j, add_task t s) ∷ rest else (j, s) ∷ more

-- An `allocation_id` of NULL or 0 is skipped.
abbrev pub add_claim : Option ℕ → Task → StatsTable → StatsTable
add_claim none t table = table
add_claim (some i) t table = if ltb 0 i then add_at i t table else table

unfoldable pub collect : List Task → StatsTable → StatsTable
unfolding add_task
collect [] table = table
collect (t ∷ ts) table =
    collect ts (if is_active_status t.status then add_claim t.allocation_id t table else table)

pub record CapacityRow : Type 0 where
  pub id : ℕ
  pub state : AllocationStatus
  pub free_cpus : ℕ
  pub free_memory_mb : ℕ
  pub free_gpus : ℕ
  pub active_tasks : ℕ

abbrev pub is_measured : AllocationStatus → Bool
is_measured warm = true
is_measured active = true
is_measured draining = true
is_measured _ = false

abbrev pub measured_state : AllocationStatus → ℕ → AllocationStatus
measured_state draining n = draining
measured_state _ n = if ltb 0 n then active else warm

unfoldable pub capacity_row : Allocation → Stats → CapacityRow
capacity_row a s = record {
  id = a.id;
  state = measured_state a.state s.active_tasks;
  free_cpus = a.total_cpus - s.reserved_cpus;
  free_memory_mb = a.total_memory_mb - s.reserved_mem;
  free_gpus = a.total_gpus - s.reserved_gpus;
  active_tasks = s.active_tasks;
}

unfoldable pub capacity_rows : StatsTable → List Allocation → List CapacityRow
unfolding capacity_row
capacity_rows table [] = []
capacity_rows table (a ∷ rest) =
    let more = capacity_rows table rest in
    if is_measured a.state then capacity_row a (stats_of a.id table) ∷ more else more

abbrev pub set_capacity : ℕ → CapacityRow → Allocation → Allocation
set_capacity now r a = record a {
  state = r.state;
  free_cpus = r.free_cpus;
  free_memory_mb = r.free_memory_mb;
  free_gpus = r.free_gpus;
  last_active_at = if ltb 0 r.active_tasks then some now else a.last_active_at;
}

-- db.py: one UPDATE for each row.
unfoldable pub update_allocation_capacities : List CapacityRow → Db → Db
update_allocation_capacities [] db = db
update_allocation_capacities (r ∷ rs) db =
    update_allocation_capacities rs (update_allocation r.id (set_capacity db.clock r) db)

abbrev pub recompute : List Task → List Allocation → Db → Db
recompute tasks rows db = update_allocation_capacities (capacity_rows (collect tasks []) rows) db

unfoldable pub recalculate_all : Db → Db
unfolding update_allocation_capacities capacity_rows collect list_tasks_by_statuses
    list_allocations_with_live
recalculate_all db =
    recompute (list_tasks_by_statuses db is_active_status 5000)
      (list_allocations_with_live db 500 5000) db

abbrev pub scoped_tasks : Db → List ℕ → List Task
scoped_tasks db [] = []
scoped_tasks db (i ∷ is) = list_live_task_claims_for_allocation db i ++ scoped_tasks db is

abbrev pub scoped_rows : Db → List ℕ → List Allocation
scoped_rows db [] = []
scoped_rows db (i ∷ is) =
    let rest = scoped_rows db is in elim (get_allocation db i) [ none ↦ rest | some a ↦ a ∷ rest ]

abbrev pub insert_id : ℕ → List ℕ → List ℕ
insert_id i [] = i ∷ []
insert_id i (j ∷ js) =
    let rest = insert_id i js in if i == j then j ∷ js else if ltb i j then i ∷ j ∷ js else j ∷ rest

-- `sorted({id for id in allocation_ids if id > 0})`
abbrev pub sorted_ids : List ℕ → List ℕ
sorted_ids [] = []
sorted_ids (i ∷ is) = if ltb 0 i then insert_id i (sorted_ids is) else sorted_ids is

unfoldable pub recalculate_scoped : List ℕ → Db → Db
unfolding update_allocation_capacities capacity_rows collect list_live_task_claims_for_allocation
    get_allocation
recalculate_scoped ids db =
    recompute (scoped_tasks db (sorted_ids ids)) (scoped_rows db (sorted_ids ids)) db
