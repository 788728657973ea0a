-- ===== src/License/Admission.antt =====
-- Whether the last license snapshot, with the claims that it may not show, leaves room for a task.
pub mod Ledger
pub mod Room
pub mod Sound
use slurm_scheduler.Prelude.{
  ℕ, ℤ, pos, negsuc, sub_ℕ, ◌+◌, ◌-◌, ◌*◌, max, Bool, true, false, ◌&&◌, ◌||◌, not, Option, none,
  some, List, [], ◌∷◌, ◌++◌, ◌⊎◌, inl, inr, String, map, any, ltb, leb, str_eq, text_eq, codes,
  is_empty, is_some, length, sorted_set, if◌then◌else◌,
}
use slurm_scheduler.Config.{Costs, LicenseConfig}
use slurm_scheduler.Store.{Task}
use slurm_scheduler.License.{
  Claim, ClaimTable, FeatureRow, Usage, Reason, monitor_disabled, no_snapshot, server_not_up,
  no_feature_list, monitor_error, snapshot_stale, feature_missing, invalid_counts,
  counts_out_of_range, capacity_exhausted, LicenseState, cost_of, license_costs_for_task,
  project_name,
}

-- `out[feature] = out.get(feature, 0) + cost`
abbrev pub add_cost : String → ℕ → Costs → Costs
add_cost f n [] = (f, n) ∷ []
add_cost f n ((g, m) ∷ rest) =
    let more = add_cost f n rest in if str_eq f g then (g, m + n) ∷ rest else (g, m) ∷ more

abbrev pub add_costs : Costs → Costs → Costs
add_costs [] out = out
add_costs ((f, n) ∷ rest) out = add_costs rest (add_cost f n out)

abbrev pub sum_claims : ClaimTable → Costs → Costs
sum_claims [] out = out
sum_claims ((k, c) ∷ rest) out = sum_claims rest (add_costs c.costs out)

unfoldable pub license_unsettled_costs : ClaimTable → Costs
license_unsettled_costs claims = sum_claims claims []

abbrev pub names : Costs → List String
names [] = []
names ((f, n) ∷ rest) = f ∷ names rest

abbrev project_features : List (String × Costs) → List String
project_features [] = []
project_features ((p, costs) ∷ rest) = names costs ++ project_features rest

unfoldable pub license_configured_features : LicenseConfig → List String
license_configured_features c =
    names c.reserve_by_feature ++ project_features c.persistent_cost_by_project

pub record FeatureStatus : Type 0 where
  pub feature : String
  pub used : ℕ
  pub total : ℕ
  pub reserve : ℕ
  pub unsettled : ℕ
  pub effective_used : ℕ
  pub admit_capacity : ℕ
  pub admit_headroom : ℤ
  pub candidate_cost : ℕ

pub record Diagnostics : Type 0 where
  pub snapshot_valid : Bool
  pub snapshot_age_seconds : Option ℕ
  pub snapshot_max_age_seconds : ℕ
  pub unsettled_by_feature : Costs
  pub features : List FeatureStatus
  pub blocked_reason : Option Reason

-- The comprehension `by_name` keeps the last row of a name, and no row without one.
abbrev pub row_named : String → List FeatureRow → Option FeatureRow
row_named f [] = none
row_named f (r ∷ rest) =
    let later = row_named f rest in
    if is_some later
    then later
    else if str_eq f r.feature && not (str_eq r.feature "")
    then some r
    else none

-- `total <= 0 or used < 0 or used > total` refuses the counts.
abbrev pub counts : Option ℤ → Option ℤ → String → Reason ⊎ (ℕ × ℕ)
counts none used f = inl (invalid_counts f)
counts (some total) none f = inl (invalid_counts f)
counts (some (negsuc t)) (some used) f = inl (counts_out_of_range f used (negsuc t))
counts (some (pos t)) (some (negsuc u)) f = inl (counts_out_of_range f (negsuc u) (pos t))
counts (some (pos t)) (some (pos u)) f =
    if ltb 0 t && leb u t then inr (t, u) else inl (counts_out_of_range f (pos u) (pos t))

abbrev pub checked_row : String → Option FeatureRow → Reason ⊎ (ℕ × ℕ)
checked_row f none = inl (feature_missing f)
checked_row f (some r) = counts r.total r.used f

-- `total if exempt_reserve else max(0, total - reserve)`
abbrev pub capacity_of : Bool → ℕ → ℕ → ℕ
capacity_of exempt total reserve = if exempt then total else total - reserve

module _ (c : LicenseConfig) (exempt : Bool) (rows : List FeatureRow)
    (unsettled candidate : Costs) where
  unfoldable pub feature_status : String → ℕ → ℕ → FeatureStatus
  feature_status f total used =
      let reserve = cost_of f c.reserve_by_feature in
      let held = cost_of f unsettled in
      record {
        feature = f;
        used = used;
        total = total;
        reserve = reserve;
        unsettled = held;
        effective_used = used + held;
        admit_capacity = capacity_of exempt total reserve;
        admit_headroom = sub_ℕ (capacity_of exempt total reserve) (used + held);
        candidate_cost = cost_of f candidate;
      }

  abbrev pub exhausts : FeatureStatus → Bool
  exhausts s = ltb s.admit_capacity (s.effective_used + s.candidate_cost)

  abbrev pub exhausted_reason : FeatureStatus → Reason
  exhausted_reason s =
      capacity_exhausted s.feature s.used s.unsettled s.candidate_cost s.reserve s.total

  -- The loop over the features: the first bad row ends it, the first feature that is exhausted is
  -- reported at its end. The statuses come back newest first.
  unfoldable pub check_features :
      List String → List FeatureStatus → Option Reason → Bool × List FeatureStatus × Option Reason
  unfolding feature_status
  check_features [] done capacity_reason = (true, done, capacity_reason)
  check_features (f ∷ fs) done capacity_reason = elim (checked_row f (row_named f rows)) [
    | inl reason ↦ (false, done, some reason)
    | inr (total, used) ↦
        let s = feature_status f total used in
        check_features fs (s ∷ done) (
          if exhausts s && not (is_some capacity_reason)
          then some (exhausted_reason s)
          else capacity_reason)
  ]

abbrev stretched : ℕ → ℕ → Option ℕ → ℕ
stretched interval limit none = limit
stretched interval limit (some tick) = max limit (interval + 2 * tick)

abbrev pub required_features : LicenseConfig → Costs → List String
required_features c candidate = sorted_set (license_configured_features c ++ names candidate)

module _ (c : LicenseConfig) (s : LicenseState) (now : ℕ) (candidate : Costs) (exempt : Bool) where
  abbrev no_diagnosis : Option ℕ → ℕ → Option Reason → Diagnostics
  no_diagnosis age max_age reason = record {
    snapshot_valid = false;
    snapshot_age_seconds = age;
    snapshot_max_age_seconds = max_age;
    unsettled_by_feature = license_unsettled_costs s.claims;
    features = [];
    blocked_reason = reason;
  }

  abbrev checked : ℕ → ℕ → Bool × List FeatureStatus × Option Reason → Diagnostics
  checked age max_age (valid, features, reason) = record {
    snapshot_valid = valid;
    snapshot_age_seconds = some age;
    snapshot_max_age_seconds = max_age;
    unsettled_by_feature = license_unsettled_costs s.claims;
    features = features;
    blocked_reason = reason;
  }

  abbrev with_rows : ℕ → ℕ → Option (List FeatureRow) → Diagnostics
  with_rows age max_age none = no_diagnosis (some age) max_age (some no_feature_list)
  with_rows age max_age (some rows) = checked age max_age (
      check_features c exempt rows (license_unsettled_costs s.claims) candidate
        (required_features c candidate) [] none)

  abbrev with_age : Usage → ℕ → ℕ → Diagnostics
  with_age usage age max_age =
      if ltb max_age age
      then no_diagnosis (some age) max_age (some (snapshot_stale age max_age))
      else with_rows age max_age usage.features

  abbrev with_usage : Option Usage → Option ℕ → Diagnostics
  with_usage none completed = no_diagnosis none c.snapshot_max_age_seconds (some no_snapshot)
  with_usage (some usage) completed =
      if not (str_eq usage.error "")
      then no_diagnosis none c.snapshot_max_age_seconds (some (monitor_error usage.error))
      else if not usage.server_up
      then no_diagnosis none c.snapshot_max_age_seconds (some server_not_up)
      else (elim completed [
        | none ↦ no_diagnosis none c.snapshot_max_age_seconds (some no_snapshot)
        | some at ↦
            with_age usage (now - at)
              (stretched c.monitor_interval_seconds c.snapshot_max_age_seconds s.last_tick_duration)
      ])

  unfoldable pub license_admission_diagnostics : Diagnostics
  license_admission_diagnostics =
      if not c.admission_enabled
      then no_diagnosis none c.snapshot_max_age_seconds none
      else if not c.monitor_enabled
      then no_diagnosis none c.snapshot_max_age_seconds (some monitor_disabled)
      else with_usage s.usage s.snapshot_completed

unfoldable pub is_reserve_exempt : LicenseConfig → Task → Bool
unfolding project_name
is_reserve_exempt c t = any (λ p. text_eq (project_name t) (codes p)) c.reserve_exempt_projects

abbrev block : LicenseState → Option Reason → LicenseState × Bool × Option Reason
block s (some reason) = (record s { last_blocked_reason = some reason }, false, some reason)
block s none = (record s { last_blocked_reason = none }, true, none)

abbrev admit :
    LicenseConfig
    → LicenseState
    → ℕ
    → Task
    → Costs × Option Reason
    → LicenseState × Bool × Option Reason
admit c s now t (costs, some reason) = block s (some reason)
admit c s now t ([], none) = (s, true, none)
admit c s now t (f ∷ costs, none) =
    block s
      (license_admission_diagnostics c s now (f ∷ costs) (is_reserve_exempt c t)).blocked_reason

unfoldable pub license_task_admitted :
    LicenseConfig → LicenseState → ℕ → Task → LicenseState × Bool × Option Reason
unfolding is_reserve_exempt
license_task_admitted c s now t =
    if not c.admission_enabled
    then (s, true, none)
    else admit c s now t (license_costs_for_task c t)
