-- ===== src/License/Admission/Ledger.antt =====
-- The sum of the unsettled claims, feature by feature, and what an admitted task adds to it.
use slurm_scheduler.Prelude.{
  ℕ, ◌+◌, ◌≡◌, arith, false, String, [], ◌∷◌, str_eq, eq_iff, if◌then◌else◌,
}
use slurm_scheduler.Config.{Costs}
use slurm_scheduler.License.{Claim, ClaimKey, ClaimTable, cost_of}
use slurm_scheduler.License.Claims.{has_claim, put_claim}
use slurm_scheduler.License.Admission.{add_cost, add_costs, sum_claims, license_unsettled_costs}

-- All that one claim, and all that the claims of a table, hold of a feature.
abbrev pub entries : String → Costs → ℕ
entries f [] = 0
entries f ((g, n) ∷ rest) = (if str_eq f g then n else 0) + entries f rest

abbrev pub held : String → ClaimTable → ℕ
held f [] = 0
held f ((k, c) ∷ rest) = entries f c.costs + held f rest

cost_of-add_cost :
    (f g : String) (n : ℕ) (out : Costs)
    → cost_of f (add_cost g n out) ≡ cost_of f out + (if str_eq f g then n else 0)
cost_of-add_cost f g n [] = ground arith
cost_of-add_cost f g n ((h, m) ∷ rest) =
    ground (arith, cost_of-add_cost f g n rest, eq_iff f g, eq_iff g h, eq_iff f h)

cost_of-add_costs :
    (f : String) (costs out : Costs)
    → cost_of f (add_costs costs out) ≡ cost_of f out + entries f costs
cost_of-add_costs f [] out = omega arith
cost_of-add_costs f ((g, n) ∷ rest) out =
    omega (arith, cost_of-add_costs f rest (add_cost g n out), cost_of-add_cost f g n out)

cost_of-sum_claims :
    (f : String) (claims : ClaimTable) (out : Costs)
    → cost_of f (sum_claims claims out) ≡ cost_of f out + held f claims
cost_of-sum_claims f [] out = omega arith
cost_of-sum_claims f ((k, c) ∷ rest) out =
    omega
      (arith, cost_of-sum_claims f rest (add_costs c.costs out), cost_of-add_costs f c.costs out)

-- What the running sum reports of a feature is what the claims of the table hold of it together.
pub unsettled-held :
    (f : String) (claims : ClaimTable) → cost_of f (license_unsettled_costs claims) ≡ held f claims
unfolding license_unsettled_costs
unsettled-held f claims = omega (arith, cost_of-sum_claims f claims [])

-- A claim under a new key adds its own costs and nothing else.
pub held-put_claim :
    (f : String) (key : ClaimKey) (new : Claim) (claims : ClaimTable)
    → has_claim key claims ≡ false
    → held f (put_claim key new claims) ≡ held f claims + entries f new.costs
held-put_claim f key new [] h = omega arith
held-put_claim f key new ((k, c) ∷ rest) h = ground (arith, held-put_claim f key new rest)
