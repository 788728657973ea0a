-- ===== src/Tests/Services.antt =====
-- The planner of simulations, the web cache, the parent of the web worker, and the GPU models.
use slurm_scheduler.Prelude.{
  ltb, if◌then◌else◌, ◌+◌, ℕ, ◌*◌, ◌/◌, ◌≤◌, ◌≡◌, refl, arith, min, false, none, [], ◌∷◌, String,
  codes, length, take, List, some,
}
use slurm_scheduler.Inventory.{normalize_gpu_model}
use slurm_scheduler.Inventory.Laws.{normalize_gpu_model_idem}
use slurm_scheduler.Pestat.{
  PestatNode, PlanRequest, plan_dynamic_allocations, sort_candidates, candidates,
}
use slurm_scheduler.Pestat.Plan.{IsConsecutive, total_count, total_workers, plan_covers}
use slurm_scheduler.WebReadGuard.{
  Message, CacheKey, response_start, response_body, Guard, new_guard, cached, store,
}
use slurm_scheduler.WebReadGuard.Bounds.{cache_within_bound}
use slurm_scheduler.WebReadGuard.Answers.{stored_until_expiry}
use slurm_scheduler.WebSupervisor.{listener_failed, new_gate, Round, run}
use slurm_scheduler.WebSupervisor.Threshold.{
  streak, seen, gives_up_after_threshold, dead_listener_gives_up,
}

normalize_gpu_model_idem_example :
    normalize_gpu_model (normalize_gpu_model (codes "RTX 3090 Ti"))
    ≡ normalize_gpu_model (codes "RTX 3090 Ti")
normalize_gpu_model_idem_example = normalize_gpu_model_idem (codes "RTX 3090 Ti")

abbrev node : String → ℕ → PestatNode
node name used = record {
  hostname = name;
  partition = "cpu";
  state = "mix";
  cpu_used = used;
  cpu_total = 32;
  cpu_load_ceil = used;
  memory_mb = 256000;
  free_memory_mb = 200000;
}

abbrev plan_request : PlanRequest
plan_request = record {
  total_simulations = 11;
  cpus_per_simulation = 4;
  mem_per_simulation_mb = 8192;
  max_workers_per_allocation = 8;
  max_allocations = 3;
  partition = "auto";
  start_index = 1;
  oversubscribed = λ n. n * 3 / 2;
}

plan_covers_example :
    let nodes = node "n01" 4 ∷ node "n02" 20 ∷ [] in
    let plans = plan_dynamic_allocations plan_request nodes in
    IsConsecutive 1 plans
    × (total_count plans
        ≡ min 11 (total_workers (take 3 (sort_candidates (candidates plan_request nodes)))))
plan_covers_example = plan_covers plan_request (node "n01" 4 ∷ node "n02" 20 ∷ [])

abbrev key : CacheKey
key = record { path = codes "/api/tasks"; query_string = []; accept_encoding = codes "gzip" }

abbrev full : Guard
full = store key (response_start 200 ∷ response_body (codes "[]") ∷ []) 10 (new_guard 2 1 1000)

cache_within_bound_example :
    (length (cached key 11 full).0.cache ≤ full.max_entries)
    × (length (store key (response_start 200 ∷ []) 11 full).cache ≤ full.max_entries)
unfolding store new_guard
cache_within_bound_example = cache_within_bound full key 11 (response_start 200 ∷ []) (omega arith)

abbrev round : ℕ → Round
round age = record {
  stop_requested = false;
  exit_code = none;
  age = age;
  healthy = false;
  stop_after = false;
}

gives_up_after_threshold_example :
    3 ≤ streak 30 0 (seen 30 3 (round 31 ∷ round 36 ∷ round 41 ∷ []) (new_gate 3))
unfolding run
gives_up_after_threshold_example =
    gives_up_after_threshold 30 3 (round 31 ∷ round 36 ∷ round 41 ∷ []) (new_gate 3) (omega arith)
      refl refl

abbrev answer : List Message
answer = response_start 200 ∷ response_body (codes "[]") ∷ []

stored_until_expiry_example :
    (cached key 11 (store key answer 10 (new_guard 2 1 1000))).1
    ≡ (if ltb 11 (10 + (new_guard 2 1 1000).ttl_seconds) then some answer else none)
unfolding new_guard
stored_until_expiry_example =
    stored_until_expiry (new_guard 2 1 1000) key answer 10 11 (omega arith) (omega arith) refl
      (omega arith)

dead_listener_gives_up_example :
    run 30 3 (round 31 ∷ round 36 ∷ round 41 ∷ []) (new_gate 3) ≡ listener_failed
dead_listener_gives_up_example =
    dead_listener_gives_up 30 3 (round 31 ∷ round 36 ∷ round 41 ∷ []) (new_gate 3) (omega arith)
      refl (omega arith) (omega arith)
      (
        (refl, refl, refl, refl, refl),
        ((refl, refl, refl, refl, refl), ((refl, refl, refl, refl, refl), tt)),
      )
