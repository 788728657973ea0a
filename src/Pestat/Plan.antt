-- ===== src/Pestat/Plan.antt =====
-- What a plan hands out: consecutive simulations, each once, no more than were asked for, and on each
-- node no more workers than there are simulations for them.
use slurm_scheduler.Prelude.{ℕ, zero, suc, ◌+◌, ◌-◌, ◌≡◌, refl, min, arith, List, [], ◌∷◌, take}
use slurm_scheduler.Pestat.{
  AllocationPlan, Candidate, PestatNode, PlanRequest, plan_loop, plan_dynamic_allocations,
  candidates, sort_candidates,
}

-- Each plan starts where the one before it ended.
abbrev pub IsConsecutive : ℕ → List AllocationPlan → Type 0
IsConsecutive start [] = Unit
IsConsecutive start (p ∷ ps) =
    (p.simulation_start ≡ start) × IsConsecutive (start + p.simulation_count) ps

abbrev pub total_count : List AllocationPlan → ℕ
total_count [] = 0
total_count (p ∷ ps) = p.simulation_count + total_count ps

abbrev pub total_workers : List Candidate → ℕ
total_workers [] = 0
total_workers (k ∷ ks) = k.workers + total_workers ks

plan_loop-IsConsecutive :
    (q : PlanRequest) (ks : List Candidate) (next remaining : ℕ)
    → IsConsecutive next (plan_loop q ks next remaining)
unfolding plan_loop
plan_loop-IsConsecutive q [] next remaining = tt
plan_loop-IsConsecutive q (k ∷ ks) next zero = tt
plan_loop-IsConsecutive q (k ∷ ks) next (suc r) =
    let count = min k.workers (suc r) in
    (refl, plan_loop-IsConsecutive q ks (next + count) (suc r - count))

plan_loop-count :
    (q : PlanRequest) (ks : List Candidate) (next remaining : ℕ)
    → total_count (plan_loop q ks next remaining) ≡ min remaining (total_workers ks)
unfolding plan_loop
plan_loop-count q [] next remaining = omega arith
plan_loop-count q (k ∷ ks) next zero = omega arith
plan_loop-count q (k ∷ ks) next (suc r) =
    omega
      (arith, plan_loop-count q ks (next + min k.workers (suc r)) (suc r - min k.workers (suc r)))

-- The plans of a request hand out consecutive simulations from its start index on, with no gap and
-- no overlap, and in all as many as were asked for or as the chosen nodes have workers, whichever is
-- less.
pub plan_covers :
    (q : PlanRequest) (nodes : List PestatNode)
    → let plans = plan_dynamic_allocations q nodes in
      let chosen = take q.max_allocations (sort_candidates (candidates q nodes)) in
      IsConsecutive q.start_index plans
      × (total_count plans ≡ min q.total_simulations (total_workers chosen))
unfolding plan_dynamic_allocations
plan_covers q nodes =
    let chosen = take q.max_allocations (sort_candidates (candidates q nodes)) in
    (
      plan_loop-IsConsecutive q chosen q.start_index q.total_simulations,
      plan_loop-count q chosen q.start_index q.total_simulations,
    )
