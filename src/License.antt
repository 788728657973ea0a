-- ===== src/License.antt =====
-- License admission of slurm_scheduler/scheduler.py: the claims of tasks that were admitted and that
-- the last license snapshot may not show, and the snapshot itself.
pub mod Claims
pub mod Admission
pub mod Spare
pub mod Settling
use slurm_scheduler.Prelude.{
  ℕ, ℤ, ◌+◌, Bool, true, false, ◌&&◌, not, Option, none, some, List, [], ◌∷◌, ◌++◌, String, ◌≡◌,
  refl, map, keep, Text, codes, text_eq, strip, lower, str_eq, if◌then◌else◌,
}
use slurm_scheduler.Config.{Costs, LicenseConfig}
use slurm_scheduler.Store.{Task}
use slurm_scheduler.Policy.{task_is_fea_bursty, is_pooled}

pub data ClaimState : Type 0 where
  attaching running terminal : ClaimState

pub record Claim : Type 0 where
  pub task_id : ℕ
  pub project : String
  pub costs : Costs
  pub state : ClaimState
  pub claimed_at : ℕ
  pub launch_started_at : Option ℕ
  pub running_at : Option ℕ

-- The key of a claim: the attach token, or for rows older than the tokens the arguments of
-- `legacy:{id}:{stamp}`.
pub data ClaimKey : Type 0 where
  token : Text → ClaimKey
  legacy : ℕ → Option ℕ → ClaimKey

-- `_license_admission_claims`, in order of insertion.
abbrev pub ClaimTable : Type 0
ClaimTable = List (ClaimKey × Claim)

-- One row of `features` of a snapshot. `none` is a count that `int` refuses.
pub record FeatureRow : Type 0 where
  pub feature : String
  pub total : Option ℤ
  pub used : Option ℤ

pub record Usage : Type 0 where
  pub error : String
  pub server_up : Bool
  pub features : Option (List FeatureRow)

-- The texts of `blocked_reason`, each as its template with its arguments.
pub data Reason : Type 0 where
  monitor_disabled no_snapshot server_not_up no_feature_list : Reason
  monitor_error : String → Reason
  snapshot_stale : ℕ → ℕ → Reason
  feature_missing invalid_counts : String → Reason
  counts_out_of_range : String → ℤ → ℤ → Reason
  capacity_exhausted : String → ℕ → ℕ → ℕ → ℕ → ℕ → Reason
  unconfigured_profile : Text → Reason
  admission_disabled no_desktop_headroom : Reason
  partial_headroom : ℕ → ℕ → Reason

-- `license_usage`: `none` until the first successful snapshot.
pub record LicenseState : Type 0 where
  pub claims : ClaimTable
  pub usage : Option Usage
  pub snapshot_completed : Option ℕ
  pub snapshot_query_started : Option ℕ
  pub last_tick_duration : Option ℕ
  pub last_blocked_reason : Option Reason

-- `costs.get(feature, 0)`
abbrev pub cost_of : String → Costs → ℕ
cost_of f [] = 0
cost_of f ((g, n) ∷ rest) = if str_eq f g then n else cost_of f rest

abbrev pub costs_for_project : Text → List (String × Costs) → Costs
costs_for_project p [] = []
costs_for_project p ((q, costs) ∷ rest) =
    if text_eq p (codes q) then costs else costs_for_project p rest

-- The ASCII letters' `casefold` is `lower`.
unfoldable pub is_desktop_feature : String → Bool
unfolding lower
is_desktop_feature f = text_eq (lower (codes f)) (codes "electronics_desktop")

abbrev costs_with_profile : Bool → Bool → Text → Costs → Costs × Option Reason
costs_with_profile pooled blocks project [] =
    ([], if blocks then some (unconfigured_profile project) else none)
costs_with_profile pooled blocks project (c ∷ costs) =
    ((if pooled then keep (λ (f, n). not (is_desktop_feature f)) (c ∷ costs) else c ∷ costs), none)

unfoldable pub project_name : Task → Text
unfolding strip
project_name t = strip (codes t.project)

-- The costs that a task holds while it runs, or why its project may not run.
unfoldable pub license_costs_for_task : LicenseConfig → Task → Costs × Option Reason
license_costs_for_task c t =
    if c.admission_enabled
    then costs_with_profile (is_pooled t.aedt_backend)
        (task_is_fea_bursty t && c.block_unknown_fea_projects) (project_name t)
        (costs_for_project (project_name t) c.persistent_cost_by_project)
    else ([], none)
