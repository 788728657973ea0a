-- ===== src/Scheduler/Capacity/Sums.antt =====
-- The dict of `collect` against the sums over the claims of one allocation.
use slurm_scheduler.Prelude.{
  ℕ, suc, zero, ◌+◌, ◌<◌, ◌≡◌, refl, ◌∙◌, ap, arith, Bool, true, false, Option, none, some, List,
  [], ◌∷◌, ◌==◌, if◌then◌else◌,
}
use slurm_scheduler.Store.{Task}
use slurm_scheduler.Store.Queries.{claims_allocation, is_active_status, is_at}
use slurm_scheduler.Policy.{task_is_fea_bursty}
use slurm_scheduler.Scheduler.Capacity.{
  Stats, add_task, StatsTable, stats_of, add_at, add_claim, collect,
}

-- What one task reserves, and what all the claims on allocation `i` reserve together.
abbrev pub reserves : (Task → ℕ) → Task → ℕ
reserves amount t = if task_is_fea_bursty t then 0 else amount t

abbrev pub claimed : ℕ → (Task → ℕ) → List Task → ℕ
claimed i amount [] = 0
claimed i amount (t ∷ ts) = (if claims_allocation i t then amount t else 0) + claimed i amount ts

abbrev pub total_stats : ℕ → List Task → Stats
total_stats i ts = record {
  active_tasks = claimed i (λ t. 1) ts;
  reserved_cpus = claimed i (reserves (λ t. t.cpus)) ts;
  reserved_mem = claimed i (reserves (λ t. t.memory_mb)) ts;
  reserved_gpus = claimed i (λ t. t.gpus) ts;
}

abbrev plus : Stats → Stats → Stats
plus s u = record {
  active_tasks = s.active_tasks + u.active_tasks;
  reserved_cpus = s.reserved_cpus + u.reserved_cpus;
  reserved_mem = s.reserved_mem + u.reserved_mem;
  reserved_gpus = s.reserved_gpus + u.reserved_gpus;
}

stats_of-add_at :
    (i j : ℕ) (t : Task) (table : StatsTable)
    → stats_of i (add_at j t table)
      ≡ (if j == i then add_task t (stats_of i table) else stats_of i table)
stats_of-add_at i j t [] = ground arith
stats_of-add_at i j t ((k, s) ∷ rest) = ground (arith, stats_of-add_at i j t rest)

abbrev one_task : Task → StatsTable → StatsTable
one_task t table = if is_active_status t.status then add_claim t.allocation_id t table else table

claim-step :
    (i : ℕ) (o : Option ℕ) (t : Task) (table : StatsTable)
    → 0 < i
    → stats_of i (add_claim o t table)
      ≡ (if is_at i o then add_task t (stats_of i table) else stats_of i table)
claim-step i none t table pos = refl
claim-step i (some zero) t table pos = ground arith
claim-step i (some (suc j)) t table pos = ground (arith, stats_of-add_at i (suc j) t table)

step-cases :
    (i : ℕ) (b : Bool) (t : Task) (table : StatsTable)
    → 0 < i
    → stats_of i (if b then add_claim t.allocation_id t table else table) ≡ (
        if b
        then (if is_at i t.allocation_id then add_task t (stats_of i table) else stats_of i table)
        else stats_of i table)
step-cases i true t table pos = claim-step i t.allocation_id t table pos
step-cases i false t table pos = refl

add-total :
    (i : ℕ) (t : Task) (s : Stats)
    → (if is_active_status t.status
        then (if is_at i t.allocation_id then add_task t s else s)
        else s)
      ≡ plus s (total_stats i (t ∷ []))
unfolding add_task
add-total i t s = ground arith

step-total :
    (i : ℕ) (t : Task) (table : StatsTable)
    → 0 < i
    → stats_of i (one_task t table) ≡ plus (stats_of i table) (total_stats i (t ∷ []))
step-total i t table pos =
    step-cases i (is_active_status t.status) t table pos ∙ add-total i t (stats_of i table)

plus_assoc : (a b c d : Stats) → d ≡ plus b c → plus (plus a b) c ≡ plus a d
plus_assoc a b c d h = ground arith

-- What the dict holds of an allocation is what it held before and what the claims on the allocation
-- among the tasks reserve together.
pub collect-total :
    (i : ℕ) (ts : List Task) (table : StatsTable)
    → 0 < i
    → stats_of i (collect ts table) ≡ plus (stats_of i table) (total_stats i ts)
unfolding collect
collect-total i [] table pos = ground arith
collect-total i (t ∷ ts) table pos =
    collect-total i ts (one_task t table) pos
    ∙ (ap (λ s. plus s (total_stats i ts)) (step-total i t table pos)
        ∙ plus_assoc (stats_of i table) (total_stats i (t ∷ [])) (total_stats i ts)
            (total_stats i (t ∷ ts)) (ground arith))
