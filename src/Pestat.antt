-- ===== src/Pestat.antt =====
-- slurm_scheduler/pestat.py: the nodes that `pestat` reports, and the plan that spreads a number of
-- simulations over them.
pub mod Plan
use slurm_scheduler.Prelude.{
  ℕ, zero, suc, ◌+◌, ◌-◌, ◌*◌, ◌/◌, min, max, Bool, true, false, not, ◌&&◌, ◌||◌, List, [], ◌∷◌,
  String, take, ltb, leb, ◌==◌, str_eq, if◌then◌else◌,
}

-- `cpu_load_ceil` is `ceil(cpu_load)`, the only thing that the planner reads of the load.
pub record PestatNode : Type 0 where
  pub hostname : String
  pub partition : String
  pub state : String
  pub cpu_used : ℕ
  pub cpu_total : ℕ
  pub cpu_load_ceil : ℕ
  pub memory_mb : ℕ
  pub free_memory_mb : ℕ

unfoldable pub sched_free_cpus : PestatNode → ℕ
sched_free_cpus n = n.cpu_total - n.cpu_used

unfoldable pub load_free_cpus : PestatNode → ℕ
load_free_cpus n = n.cpu_total - n.cpu_load_ceil

unfoldable pub effective_free_cpus : PestatNode → ℕ
unfolding sched_free_cpus load_free_cpus
effective_free_cpus n = min (sched_free_cpus n) (load_free_cpus n)

unfoldable pub usable : PestatNode → Bool
unfolding effective_free_cpus
usable n = (str_eq n.state "idle" || str_eq n.state "mix") && ltb 0 (effective_free_cpus n)

pub record AllocationPlan : Type 0 where
  pub partition : String
  pub node_name : String
  pub workers : ℕ
  pub initial_workers : ℕ
  pub cpus_per_worker : ℕ
  pub total_cpus : ℕ
  pub simulation_start : ℕ
  pub simulation_count : ℕ

pub record Candidate : Type 0 where
  pub node : PestatNode
  pub workers : ℕ
  pub baseline_workers : ℕ

-- What a plan is asked for. The memory is in MB, and the factor is the function that it is on
-- numbers: `int(baseline * max(1.0, factor))`.
pub record PlanRequest : Type 0 where
  pub total_simulations : ℕ
  pub cpus_per_simulation : ℕ
  pub mem_per_simulation_mb : ℕ
  pub max_workers_per_allocation : ℕ
  pub max_allocations : ℕ
  pub partition : String
  pub start_index : ℕ
  pub oversubscribed : ℕ → ℕ

module _ (q : PlanRequest) where
  unfoldable pub candidate_of : PestatNode → Candidate
  unfolding effective_free_cpus
  candidate_of n =
      let baseline = effective_free_cpus n / max 1 q.cpus_per_simulation in
      record {
        node = n;
        workers =
            min (min (q.oversubscribed baseline) (n.free_memory_mb / max 1 q.mem_per_simulation_mb))
              q.max_workers_per_allocation;
        baseline_workers = baseline;
      }

  abbrev in_partition : PestatNode → Bool
  in_partition n =
      str_eq q.partition "" || str_eq q.partition "auto" || str_eq n.partition q.partition

  abbrev has_room : Candidate → Bool
  has_room k = ltb 0 k.workers && ltb 0 k.baseline_workers

  unfoldable pub candidates : List PestatNode → List Candidate
  unfolding usable candidate_of
  candidates [] = []
  candidates (n ∷ ns) =
      let rest = candidates ns in
      if usable n && in_partition n && has_room (candidate_of n)
      then candidate_of n ∷ rest
      else rest

  abbrev plan_of : Candidate → ℕ → ℕ → AllocationPlan
  plan_of k count start = record {
    partition = k.node.partition;
    node_name = k.node.hostname;
    workers = count;
    initial_workers = min count k.baseline_workers;
    cpus_per_worker = q.cpus_per_simulation;
    total_cpus = min count k.baseline_workers * q.cpus_per_simulation;
    simulation_start = start;
    simulation_count = count;
  }

  -- The loop: `remaining` simulations from `next` on.
  unfoldable pub plan_loop : List Candidate → ℕ → ℕ → List AllocationPlan
  plan_loop [] next remaining = []
  plan_loop (k ∷ ks) next zero = []
  plan_loop (k ∷ ks) next (suc r) =
      let count = min k.workers (suc r) in
      plan_of k count next ∷ plan_loop ks (next + count) (suc r - count)

-- The sort key, compared from the left.
abbrev key_of : Candidate → List ℕ
key_of k = k.workers ∷ k.baseline_workers ∷ effective_free_cpus k.node ∷ k.node.free_memory_mb ∷ []

abbrev before : List ℕ → List ℕ → Bool
before [] [] = false
before [] (y ∷ ys) = false
before (x ∷ xs) [] = true
before (x ∷ xs) (y ∷ ys) = ltb y x || (x == y && before xs ys)

-- `sort(reverse=True)` keeps the order of equal keys.
unfoldable pub insert_candidate : Candidate → List Candidate → List Candidate
insert_candidate k [] = k ∷ []
insert_candidate k (j ∷ js) =
    let rest = insert_candidate k js in
    if before (key_of j) (key_of k) then j ∷ rest else k ∷ j ∷ js

unfoldable pub sort_candidates : List Candidate → List Candidate
unfolding insert_candidate
sort_candidates [] = []
sort_candidates (k ∷ ks) = insert_candidate k (sort_candidates ks)

unfoldable pub plan_dynamic_allocations : PlanRequest → List PestatNode → List AllocationPlan
unfolding plan_loop candidates sort_candidates
plan_dynamic_allocations q nodes =
    plan_loop q (take q.max_allocations (sort_candidates (candidates q nodes))) q.start_index
      q.total_simulations
