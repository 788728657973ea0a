-- ===== src/Tests/Admission.antt =====
-- License admission: one task against a snapshot, its claim, and the spare sessions.
use slurm_scheduler.Prelude.{
  ℕ, ◌+◌, ◌*◌, ◌≤◌, ◌≡◌, refl, inl, inr, arith, Bool, true, false, some, none, List, [], ◌∷◌,
  String,
}
use mathlib.Core.List.{Memᴰ}
use slurm_scheduler.Models.{TaskStatus, running}
use slurm_scheduler.Store.{Task}
use slurm_scheduler.License.{Claim, ClaimState, ClaimTable, token, legacy, cost_of, LicenseState}
use slurm_scheduler.License.Claims.{
  license_mark_terminal, license_release_prelaunch_claim, license_record_claim,
  license_reconcile_claims,
}
use slurm_scheduler.License.Admission.{
  license_task_admitted, checked_row, row_named, capacity_of, is_reserve_exempt,
}
use slurm_scheduler.License.Admission.Ledger.{held}
use slurm_scheduler.License.Admission.Sound.{usage_rows, admitted-Fits, recorded_within_capacity}
use slurm_scheduler.License.Settling.{
  launched_held, launched_survives_end, unseen_held, reconcile_keeps_unsettled,
}
use slurm_scheduler.License.Spare.{
  headroom_of, host_statuses, aedt_pool_warm_spare_admission, spare_within_headroom,
}
use slurm_scheduler.Tests.{license_config, task, license_of}

abbrev candidate : Task
candidate = task 7 TaskStatus.queued "fea_bursty" none

abbrev launched : ClaimTable
launched =
    (
      legacy 8 (some 100),
      record {
        task_id = 8;
        project = "chips";
        costs = ("hfss", 1) ∷ [];
        state = ClaimState.running;
        claimed_at = 900;
        launch_started_at = some 910;
        running_at = some 920;
      },
    )
    ∷ []

abbrev state : LicenseState
state = license_of launched

admitted-Fits_example :
    (total : ℕ) × (used : ℕ) × (checked_row "hfss" (row_named "hfss" (usage_rows state.usage))
      ≡ inr (total, used))
    × (used + held "hfss" state.claims + cost_of "hfss" (("hfss", 1) ∷ [])
        ≤ capacity_of
            (is_reserve_exempt license_config candidate)
            total
            (cost_of "hfss" license_config.reserve_by_feature))
unfolding slurm_scheduler.License.license_costs_for_task slurm_scheduler.License.project_name
    license_task_admitted slurm_scheduler.License.Admission.license_admission_diagnostics
    slurm_scheduler.License.Admission.check_features slurm_scheduler.Prelude.sorted_set
    slurm_scheduler.License.Admission.license_configured_features
    slurm_scheduler.License.Admission.license_unsettled_costs
admitted-Fits_example =
    admitted-Fits license_config state 1000 candidate (("hfss", 1) ∷ []) refl refl refl "hfss" refl

recorded_within_capacity_example :
    (total : ℕ) × (used : ℕ) × (checked_row "hfss" (row_named "hfss" (usage_rows state.usage))
      ≡ inr (total, used))
    × (used + held "hfss" (license_record_claim license_config 1000 candidate "t7" state.claims)
        ≤ capacity_of
            (is_reserve_exempt license_config candidate)
            total
            (cost_of "hfss" license_config.reserve_by_feature))
unfolding slurm_scheduler.License.license_costs_for_task slurm_scheduler.License.project_name
    license_task_admitted slurm_scheduler.License.Admission.license_admission_diagnostics
    slurm_scheduler.License.Admission.check_features slurm_scheduler.Prelude.sorted_set
    slurm_scheduler.License.Admission.license_configured_features
    slurm_scheduler.License.Admission.license_unsettled_costs
recorded_within_capacity_example =
    recorded_within_capacity license_config state 1000 candidate "t7" (("hfss", 1) ∷ []) refl refl
      (refl, tt) refl refl "hfss" refl

launched_survives_end_example :
    (launched_held "hfss"
        (license_mark_terminal license_config (task 8 running "fea_bursty" none) launched)
      ≡ launched_held "hfss" launched)
    × (launched_held "hfss" (
          license_release_prelaunch_claim license_config
            (task 8 running "fea_bursty" none)
            launched)
        ≡ launched_held "hfss" launched)
launched_survives_end_example =
    launched_survives_end license_config (task 8 running "fea_bursty" none) launched "hfss"

reconcile_keeps_unsettled_example :
    held "hfss" (license_reconcile_claims license_config 1300 launched)
    ≡ unseen_held license_config.settlement_seconds 1300 "hfss" launched
reconcile_keeps_unsettled_example = reconcile_keeps_unsettled license_config 1300 launched "hfss"

spare_within_headroom_example :
    let allowed = (aedt_pool_warm_spare_admission license_config state 1000 5).1 in
    (allowed ≤ 5) × (allowed * 1 ≤ headroom_of "hfss" (host_statuses license_config state 1000 5))
unfolding slurm_scheduler.License.license_costs_for_task slurm_scheduler.License.project_name
    slurm_scheduler.License.Spare.host_task
spare_within_headroom_example =
    spare_within_headroom license_config state 1000 5 "hfss" 1 (Memᴰ.tail (Memᴰ.head refl))
