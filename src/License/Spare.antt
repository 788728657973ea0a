-- ===== src/License/Spare.antt =====
-- `aedt_pool_warm_spare_admission`: how many new AEDT processes the license headroom permits.
use slurm_scheduler.Prelude.{
  ℕ, pos_part, ◌+◌, ◌*◌, ◌/◌, min, ◌≤◌, ◌≡◌, ap, ◌⊎◌, zero, suc, arith, Bool, true, false, not,
  Option, none, some, List, [], ◌∷◌, String, ltb, ◌==◌, str_eq, if◌then◌else◌, inl, inr,
}
use mathlib.Core.List.{Memᴰ}
use slurm_scheduler.Models.{TaskStatus, AedtBackend}
use slurm_scheduler.Config.{Costs, LicenseConfig}
use slurm_scheduler.Store.{Task}
use slurm_scheduler.License.{
  LicenseState, Reason, admission_disabled, no_desktop_headroom, partial_headroom,
  license_costs_for_task, is_desktop_feature,
}
use slurm_scheduler.License.Admission.{
  FeatureStatus, Diagnostics, license_admission_diagnostics, is_reserve_exempt,
}

-- The dict `host_task`; the columns that it lacks are those that its costs do not read.
unfoldable pub host_task : Task
host_task = record {
  id = 0;
  name = "";
  project = "_aedt_pool_hosts";
  status = TaskStatus.queued;
  scheduling_profile = "fea_bursty";
  aedt_backend = AedtBackend.standalone;
  cpus = 0;
  memory_mb = 0;
  gpus = 0;
  partition = "";
  node_name = "";
  node_name_policy = "";
  exclusive_node = false;
  priority = 0;
  timeout_seconds = 0;
  same_node_as_task_id = 0;
  requested_allocation_id = 0;
  requested_account_name = none;
  account_name = "";
  allocation_id = none;
  attach_token = "";
  remote_dir = "";
  stdout_path = "";
  stderr_path = "";
  exit_code_path = "";
  wrapper_pid = "";
  required_capability = "";
  env_profile = "";
  env_setup = [];
  gpu_model = "";
  max_workers_per_node = 0;
  cleanup_globs = "";
  exit_code = none;
  failure_message = "";
  attempt_count = 0;
  created_at = none;
  attached_at = none;
  launch_started_at = none;
  started_at = none;
  finished_at = none;
}

abbrev desktop_cost : Costs → ℕ
desktop_cost [] = 0
desktop_cost ((f, n) ∷ rest) = (if is_desktop_feature f then n else 0) + desktop_cost rest

-- `max(0, features.get(feature, {}).get("admit_headroom") or 0)`
abbrev pub headroom_of : String → List FeatureStatus → ℕ
headroom_of f [] = 0
headroom_of f (s ∷ rest) =
    if str_eq f s.feature then pos_part s.admit_headroom else headroom_of f rest

unfoldable pub allowed_sessions : List FeatureStatus → Costs → ℕ → ℕ
allowed_sessions features [] allowed = allowed
allowed_sessions features ((f, cost) ∷ rest) allowed =
    allowed_sessions features rest
      (if cost == 0 then allowed else min allowed (headroom_of f features / cost))

abbrev times : ℕ → Costs → Costs
times n [] = []
times n ((f, cost) ∷ rest) = (f, cost * n) ∷ times n rest

abbrev refuse : LicenseState → ℕ → Reason → LicenseState × ℕ × Option Reason
refuse s n reason = (record s { last_blocked_reason = some reason }, n, some reason)

module _ (c : LicenseConfig) (s : LicenseState) (now requested : ℕ) where
  abbrev grant : Costs → Bool → ℕ → LicenseState × ℕ × Option Reason
  grant costs exempt allowed =
      if ltb allowed requested
      then (elim (license_admission_diagnostics c s now (times requested costs)
          exempt).blocked_reason [
            | some reason ↦ refuse s allowed reason
            | none ↦ refuse s allowed (partial_headroom allowed requested)
          ])
      else (record s { last_blocked_reason = none }, allowed, none)

  abbrev diagnosed : Costs → Bool → Diagnostics → LicenseState × ℕ × Option Reason
  diagnosed costs exempt d = elim d.blocked_reason [
    | some reason ↦ refuse s 0 reason
    | none ↦ grant costs exempt (allowed_sessions d.features costs requested)
  ]

  abbrev costed : Costs × Option Reason → LicenseState × ℕ × Option Reason
  costed (costs, some reason) = refuse s 0 reason
  costed (costs, none) =
      if desktop_cost costs == 0
      then refuse s 0 no_desktop_headroom
      else diagnosed costs (is_reserve_exempt c host_task)
          (license_admission_diagnostics c s now [] (is_reserve_exempt c host_task))

  -- The new license state, the sessions allowed, and the reason for fewer than requested.
  unfoldable pub aedt_pool_warm_spare_admission : LicenseState × ℕ × Option Reason
  unfolding allowed_sessions
  aedt_pool_warm_spare_admission =
      if requested == 0
      then (s, requested, none)
      else if not c.admission_enabled
      then refuse s 0 admission_disabled
      else costed (license_costs_for_task c host_task)

allowed-le : (fs : List FeatureStatus) (costs : Costs) (n : ℕ) → allowed_sessions fs costs n ≤ n
unfolding allowed_sessions
allowed-le fs [] n = omega arith
allowed-le fs ((f, cost) ∷ rest) n = omega (
  arith,
  allowed-le fs rest (if cost == 0 then n else min n (headroom_of f fs / cost)),
  shrinks (cost == 0) n (headroom_of f fs / cost),
)
  where
    shrinks : (b : Bool) (n m : ℕ) → (if b then n else min n m) ≤ n
    shrinks true n m = omega arith
    shrinks false n m = omega arith

quotient_bound : (n h cost : ℕ) → n ≤ h / cost → n * cost ≤ h
quotient_bound n h cost le = grind arith

-- The round at one feature leaves at most its headroom.
round_bound :
    (n h cost rest : ℕ) → rest ≤ (if cost == 0 then n else min n (h / cost)) → rest * cost ≤ h
round_bound n h zero rest le = omega arith
round_bound n h (suc k) rest le = quotient_bound rest h (suc k) (ground arith)

allowed-room :
    (fs : List FeatureStatus) (costs : Costs) (n : ℕ) (f : String) (cost : ℕ)
    → Memᴰ (f, cost) costs
    → allowed_sessions fs costs n * cost ≤ headroom_of f fs
unfolding allowed_sessions
allowed-room fs [] n f cost m = elim m [ ]
allowed-room fs ((g, k) ∷ rest) n f cost (Memᴰ.head e) =
    rw (ap (λ p. p.0) e, ap (λ p. p.1) e)
      (round_bound n (headroom_of g fs) k _ (allowed-le fs rest _))
allowed-room fs ((g, k) ∷ rest) n f cost (Memᴰ.tail m) =
    allowed-room fs rest (if k == 0 then n else min n (headroom_of g fs / k)) f cost m

module _ (c : LicenseConfig) (s : LicenseState) (now requested : ℕ) where
  abbrev pub host_costs : Costs
  host_costs = (license_costs_for_task c host_task).0

  abbrev pub host_statuses : List FeatureStatus
  host_statuses =
      (license_admission_diagnostics c s now [] (is_reserve_exempt c host_task)).features

  spare-cases :
      ((aedt_pool_warm_spare_admission c s now requested).1 ≡ 0)
      ⊎ ((aedt_pool_warm_spare_admission c s now requested).1
          ≡ allowed_sessions host_statuses host_costs requested)
  unfolding aedt_pool_warm_spare_admission
  spare-cases = ground arith

  -- The warm-spare admission never permits more sessions than were requested, and the sessions that
  -- it permits, each at the cost of a session host, fit in the admission headroom of every feature.
  pub spare_within_headroom :
      (f : String) (cost : ℕ)
      → Memᴰ (f, cost) host_costs
      → let allowed = (aedt_pool_warm_spare_admission c s now requested).1 in
        (allowed ≤ requested) × (allowed * cost ≤ headroom_of f host_statuses)
  spare_within_headroom f cost m = elim spare-cases [
    | inl e ↦ rw e (omega arith, omega arith)
    | inr e ↦ rw e (
      allowed-le host_statuses host_costs requested,
      allowed-room host_statuses host_costs requested f cost m,
    )
  ]
