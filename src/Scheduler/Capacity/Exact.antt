-- ===== src/Scheduler/Capacity/Exact.antt =====
-- The row of one allocation after a recalculation, of all allocations or of that one alone.
use slurm_scheduler.Prelude.{
  ℕ, ◌-◌, ◌<◌, ◌≤◌, ◌≡◌, refl, ◌∙◌, sym, ap, subst, ◌⊎◌, inl, inr, arith, true, false, some, List,
  [], ◌∷◌, ltb, ◌==◌, keep, take-all, any, All, length, if◌then◌else◌, ==_iff, ==_refl, Bool-cases,
}
use slurm_scheduler.Models.{warm, active, draining}
use slurm_scheduler.Store.{Allocation, Task, Db}
use slurm_scheduler.Store.Laws.{get-update_allocation, get-update_allocation_ne}
use slurm_scheduler.Store.Queries.{
  get_allocation, update_allocation, is_live_state, is_active_status, list_tasks_by_statuses,
  list_allocations_with_live, list_live_task_claims_for_allocation,
}
use slurm_scheduler.Scheduler.Capacity.{
  CapacityRow, StatsTable, stats_of, collect, is_measured, capacity_row, capacity_rows,
  set_capacity, update_allocation_capacities, recalculate_all, recalculate_scoped, sorted_ids,
  scoped_rows,
}
use slurm_scheduler.Scheduler.Capacity.Listed.{
  All-keep, live-listed, claimed-active, claimed-scoped,
}
use slurm_scheduler.Scheduler.Capacity.Sums.{claimed, reserves, total_stats, collect-total}

abbrev step : CapacityRow → Db → Db
step r db = update_allocation r.id (set_capacity db.clock r) db

step-own :
    (i : ℕ) (R : CapacityRow) (b : Allocation) (db : Db)
    → R.id ≡ i
    → get_allocation db i ≡ some b
    → get_allocation (step R db) i ≡ some (set_capacity db.clock R b)
step-own i R b db own found =
    subst
      (λ j.
        get_allocation (update_allocation j (set_capacity db.clock R) db) i
        ≡ some (set_capacity db.clock R b))
      (sym own) (get-update_allocation db i (set_capacity db.clock R) b (λ x. refl) found)

step-other :
    (i : ℕ) (r : CapacityRow) (b : Allocation) (db : Db)
    → (r.id == i) ≡ false
    → get_allocation db i ≡ some b
    → get_allocation (step r db) i ≡ some b
step-other i r b db other found =
    get-update_allocation_ne db r.id i (set_capacity db.clock r) (λ x. refl)
      (λ e. cc (other, (==_iff r.id i).1 e))
    ∙ found

abbrev OnlyBy : ℕ → CapacityRow → List CapacityRow → Type 0
OnlyBy i R = All λ r. (r ≡ R) ⊎ ((r.id == i) ≡ false)

-- The updates of other rows, and repeated updates by one capacity row, leave the row as it is.
applied-stays :
    (i : ℕ) (R : CapacityRow) (b : Allocation) (rows : List CapacityRow) (db : Db)
    → R.id ≡ i
    → get_allocation db i ≡ some b
    → set_capacity db.clock R b ≡ b
    → OnlyBy i R rows
    → get_allocation (update_allocation_capacities rows db) i ≡ some b
unfolding update_allocation_capacities update_allocation
applied-stays i R b [] db own found fixed all = found
applied-stays i R b (r ∷ rs) db own found fixed (this, all) =
    applied-stays i R b rs (step r db) own (kept this) fixed all
  where
    kept : (r ≡ R) ⊎ ((r.id == i) ≡ false) → get_allocation (step r db) i ≡ some b
    kept (inl same) =
        subst (λ x. get_allocation (step x db) i ≡ some b) (sym same)
          (step-own i R b db own found ∙ ap some fixed)
    kept (inr other) = step-other i r b db other found

applied :
    (i : ℕ) (R : CapacityRow) (a : Allocation) (rows : List CapacityRow) (db : Db)
    → R.id ≡ i
    → get_allocation db i ≡ some a
    → OnlyBy i R rows
    → any (λ r. r.id == i) rows ≡ true
    → get_allocation (update_allocation_capacities rows db) i ≡ some (set_capacity db.clock R a)
unfolding update_allocation_capacities update_allocation
applied i R a [] db own found all some_row = cc
applied i R a (r ∷ rs) db own found (inl same, all) some_row =
    applied-stays i R (set_capacity db.clock R a) rs (step r db) own
      (subst (λ x. get_allocation (step x db) i ≡ some (set_capacity db.clock R a)) (sym same)
        (step-own i R a db own found))
      (ground arith) all
applied i R a (r ∷ rs) db own found (inr other, all) some_row =
    applied i R a rs (step r db) own (step-other i r a db other found) all (rw other at some_row)

-- Row `a` is the only one in the table with its id.
abbrev pub OnlyRow : Allocation → List Allocation → Type 0
OnlyRow a = All λ r. (r ≡ a) ⊎ ((r.id == a.id) ≡ false)

rows-OnlyBy :
    (a : Allocation) (table : StatsTable) (rs : List Allocation)
    → OnlyRow a rs
    → OnlyBy a.id (capacity_row a (stats_of a.id table)) (capacity_rows table rs)
unfolding capacity_rows
rows-OnlyBy a table [] all = tt
rows-OnlyBy a table (r ∷ rs) (this, all) = elim (Bool-cases (is_measured r.state)) [
  | inr skipped ↦ rw (skipped, capacity_rows) (rows-OnlyBy a table rs all)
  | inl measured ↦ rw (measured, capacity_rows) (own this, rows-OnlyBy a table rs all)
]
  where
    own :
        (r ≡ a) ⊎ ((r.id == a.id) ≡ false)
        → (capacity_row r (stats_of r.id table) ≡ capacity_row a (stats_of a.id table))
          ⊎ ((r.id == a.id) ≡ false)
    own (inl same) = inl (ap (λ x. capacity_row x (stats_of x.id table)) same)
    own (inr other) = inr other

rows-any :
    (a : Allocation) (table : StatsTable) (rs : List Allocation)
    → is_measured a.state ≡ true
    → OnlyRow a rs
    → any (λ r. r.id == a.id) rs ≡ true
    → any (λ r. r.id == a.id) (capacity_rows table rs) ≡ true
unfolding capacity_rows
rows-any a table [] measured all some_row = cc
rows-any a table (r ∷ rs) measured (inl same, all) some_row =
    rw (ap (λ x. is_measured x.state) same ∙ measured, capacity_rows)
      (rw (ap (λ x. x.id == a.id) same ∙ ==_refl a.id))
rows-any a table (r ∷ rs) measured (inr other, all) some_row =
    ground (arith, rows-any a table rs measured all)

-- The row with what is left of its resources beside all the claims on it; ACTIVE if there is a
-- claim and WARM if there is none, but DRAINING stays.
abbrev pub claims_on : Allocation → Db → (Task → ℕ) → ℕ
claims_on a db amount = claimed a.id amount db.tasks

abbrev pub measured_row : Db → Allocation → Allocation
measured_row db a = record a {
  state = elim a.state [
    | draining ↦ draining
    | _ ↦ if ltb 0 (claims_on a db (λ t. 1)) then active else warm
  ];
  free_cpus = a.total_cpus - claims_on a db (reserves (λ t. t.cpus));
  free_memory_mb = a.total_memory_mb - claims_on a db (reserves (λ t. t.memory_mb));
  free_gpus = a.total_gpus - claims_on a db (λ t. t.gpus);
  last_active_at = if ltb 0 (claims_on a db (λ t. 1)) then some db.clock else a.last_active_at;
}

measured-row :
    (db : Db) (a : Allocation)
    → set_capacity db.clock (capacity_row a (total_stats a.id db.tasks)) a ≡ measured_row db a
unfolding capacity_row
measured-row db a = ground arith

same-stats :
    (a : Allocation) (ts all : List Task)
    → 0 < a.id
    → ((amount : Task → ℕ) → claimed a.id amount ts ≡ claimed a.id amount all)
    → stats_of a.id (collect ts []) ≡ total_stats a.id all
same-stats a ts all pos same =
    collect-total a.id ts [] pos
    ∙ ground (
      arith,
      same (λ t. 1),
      same (reserves (λ t. t.cpus)),
      same (reserves (λ t. t.memory_mb)),
      same (λ t. t.gpus),
    )

recomputed :
    (db : Db) (a : Allocation) (ts : List Task) (rs : List Allocation)
    → 0 < a.id
    → get_allocation db a.id ≡ some a
    → is_measured a.state ≡ true
    → OnlyRow a rs
    → any (λ r. r.id == a.id) rs ≡ true
    → ((amount : Task → ℕ) → claimed a.id amount ts ≡ claimed a.id amount db.tasks)
    → get_allocation (update_allocation_capacities (capacity_rows (collect ts []) rs) db) a.id
      ≡ some (measured_row db a)
recomputed db a ts rs pos found measured only listed same =
    applied a.id (capacity_row a (stats_of a.id (collect ts []))) a
      (capacity_rows (collect ts []) rs) db (unfold capacity_row in refl) found
      (rows-OnlyBy a (collect ts []) rs only) (rows-any a (collect ts []) rs measured only listed)
    ∙ (ap (λ s. some (set_capacity db.clock (capacity_row a s) a))
          (same-stats a ts db.tasks pos same)
        ∙ ap some (measured-row db a))

sorted_one : (i : ℕ) → 0 < i → sorted_ids (i ∷ []) ≡ i ∷ []
sorted_one i pos = ground arith

scoped_row :
    (db : Db) (a : Allocation)
    → get_allocation db a.id ≡ some a
    → scoped_rows db (a.id ∷ []) ≡ a ∷ []
scoped_row db a found = ground (arith, found)

-- If the id of a row is not 0 and no other row has it, the row is WARM, ACTIVE or DRAINING, and
-- there are at most 5000 live rows and 5000 active tasks, then the recalculation of every allocation
-- and the one of this allocation alone leave the same row: what the claims on it in the whole table
-- of tasks do not reserve is free, and nothing where they reserve more than there is, where a claim
-- of an FEA task reserves its GPUs only; the state is ACTIVE if there is a claim and else WARM, but
-- DRAINING stays; with a claim the time of the last activity is the clock; all else is as it was.
pub recalculated_exact :
    (db : Db) (a : Allocation)
    → 0 < a.id
    → get_allocation db a.id ≡ some a
    → OnlyRow a db.allocations
    → is_measured a.state ≡ true
    → length (keep (λ r. is_live_state r.state) db.allocations) ≤ 5000
    → length (keep (λ t. is_active_status t.status) db.tasks) ≤ 5000
    → (get_allocation (recalculate_all db) a.id ≡ some (measured_row db a))
      × (get_allocation (recalculate_scoped (a.id ∷ []) db) a.id ≡ some (measured_row db a))
unfolding recalculate_all recalculate_scoped
recalculated_exact db a pos found only measured few_rows few_tasks = (
  recomputed db a (list_tasks_by_statuses db is_active_status 5000)
      (list_allocations_with_live db 500 5000) pos found measured
      (unfold list_allocations_with_live in All-keep _ _ db.allocations only)
      (live-listed db a.id a found (ground arith) few_rows)
      (λ amount.
        unfold list_tasks_by_statuses in
        rw (take-all 5000 (keep (λ t. is_active_status t.status) db.tasks) few_tasks)
          (claimed-active a.id amount db.tasks)),
  rw (sorted_one a.id pos) (
      rw (scoped_row db a found) (
        recomputed db a _ (a ∷ []) pos found measured (inl refl, tt) (ground (arith, ==_refl a.id))
          (λ amount.
            unfold list_live_task_claims_for_allocation in claimed-scoped a.id amount db.tasks))),
)
