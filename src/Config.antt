-- ===== src/Config.antt =====
-- The settings that `Scheduler.__init__` (slurm_scheduler/scheduler.py) keeps and that never change
-- while it runs, and the accounts (slurm_scheduler/config.py).
use slurm_scheduler.Prelude.{ℕ, Bool, String, Option, List}
use slurm_scheduler.Models.{NodeNamePolicy, AedtBackend}

pub record Account : Type 0 where
  pub name : String
  pub capabilities : List String
  pub env_profiles : List String

pub record Lane : Type 0 where
  pub name : String
  pub project : String
  pub name_prefix : String
  pub aedt_backend : AedtBackend
  pub max_running : ℕ

-- Feature names with a count.
abbrev pub Costs : Type 0
Costs = List (String × ℕ)

pub record LicenseConfig : Type 0 where
  pub admission_enabled : Bool
  pub monitor_enabled : Bool
  pub monitor_interval_seconds : ℕ
  pub snapshot_max_age_seconds : ℕ
  pub settlement_seconds : ℕ
  pub reserve_by_feature : Costs
  pub persistent_cost_by_project : List (String × Costs)
  pub reserve_exempt_projects : List String
  pub block_unknown_fea_projects : Bool

pub record Config : Type 0 where
  pub accounts : List Account
  pub license : LicenseConfig
  pub poll_interval_seconds : ℕ
  pub allocation_drain_after_seconds : ℕ
  pub allocation_force_cancel_after_seconds : ℕ
  pub allocation_attach_stop_before_drain_seconds : ℕ
  pub allocation_pending_timeout_seconds : ℕ
  pub allocation_pending_backoff_seconds : ℕ
  pub gpu_prewarm_pinned_pending_timeout_seconds : ℕ
  pub gpu_prewarm_gpus_per_allocation : ℕ
  pub gpu_prewarm_cpu_reserve_per_free_gpu : ℕ
  pub fea_node_name_policy : Option NodeNamePolicy
  pub fea_pressure_max_attempts : ℕ
  pub standalone_aedt_running_lanes : List Lane
  pub standalone_aedt_max_running_by_project : Costs
