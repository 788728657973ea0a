-- ===== src/License/Admission/Sound.antt =====
-- What an admission by `_license_task_admitted_locked` guarantees.
use slurm_scheduler.Prelude.{
  ℕ, ◌+◌, ◌≤◌, ◌≡◌, ◌≢◌, refl, inr, arith, Bool, true, false, Option, none, some, List, [], ◌∷◌,
  ◌++◌, String, codes, eq_iff, mem_str, mem_str-sorted_set, mem_str-append,
}
use slurm_scheduler.Config.{Costs, LicenseConfig}
use slurm_scheduler.Store.{Task}
use slurm_scheduler.License.{
  FeatureRow, Usage, LicenseState, ClaimTable, token, cost_of, license_costs_for_task,
}
use slurm_scheduler.License.Claims.{has_claim, new_claim, license_record_claim}
use slurm_scheduler.License.Admission.{
  names, check_features, capacity_of, checked_row, row_named, required_features,
  license_unsettled_costs, license_admission_diagnostics, license_configured_features,
  license_task_admitted, is_reserve_exempt,
}
use slurm_scheduler.License.Admission.Ledger.{entries, held, unsettled-held, held-put_claim}
use slurm_scheduler.License.Admission.Room.{check_features-Fits}

abbrev pub usage_rows : Option Usage → List FeatureRow
usage_rows none = []
usage_rows (some u) = elim u.features [ none ↦ [] | some rows ↦ rows ]

-- A diagnosis without a reason to block went through the loop, which left none either.
diagnostics-loop :
    (c : LicenseConfig) (s : LicenseState) (now : ℕ) (candidate : Costs) (exempt : Bool)
    → c.admission_enabled ≡ true
    → (license_admission_diagnostics c s now candidate exempt).blocked_reason ≡ none
    → (check_features c exempt
        (usage_rows s.usage)
        (license_unsettled_costs s.claims)
        candidate
        (required_features c candidate)
        []
        none).2
      ≡ none
unfolding license_admission_diagnostics
diagnostics-loop c s now candidate exempt on h = ground arith

required-candidate :
    (c : LicenseConfig) (candidate : Costs) (f : String)
    → mem_str f (names candidate) ≡ true
    → mem_str f (required_features c candidate) ≡ true
required-candidate c candidate f m = ground (
  arith,
  mem_str-sorted_set f (license_configured_features c ++ names candidate),
  mem_str-append f (license_configured_features c) (names candidate),
)

admitted-reason :
    (c : LicenseConfig) (s : LicenseState) (now : ℕ) (t : Task) (g : String) (n : ℕ) (costs : Costs)
    → c.admission_enabled ≡ true
    → license_costs_for_task c t ≡ ((g, n) ∷ costs, none)
    → (license_task_admitted c s now t).1 ≡ true
    → (license_admission_diagnostics c s now
        ((g, n) ∷ costs)
        (is_reserve_exempt c t)).blocked_reason
      ≡ none
unfolding license_task_admitted
admitted-reason c s now t g n costs on profile ok = ground (arith, profile)

-- If admission is on and a task with costs is admitted, then for each feature among its costs the
-- snapshot has a row with counts that are in order, and the use that the row shows, what all the
-- claims hold and the task's own cost stay together within the total, less the reserve unless the
-- task's project is exempt from it.
pub admitted-Fits :
    (c : LicenseConfig) (s : LicenseState) (now : ℕ) (t : Task) (costs : Costs)
    → c.admission_enabled ≡ true
    → license_costs_for_task c t ≡ (costs, none)
    → (license_task_admitted c s now t).1 ≡ true
    → (f : String) → mem_str f (names costs) ≡ true
    → (total : ℕ) × (used : ℕ) × (checked_row f (row_named f (usage_rows s.usage))
        ≡ inr (total, used))
      × (used + held f s.claims + cost_of f costs
          ≤ capacity_of (is_reserve_exempt c t) total (cost_of f c.reserve_by_feature))
admitted-Fits c s now t [] on profile ok f m = cc
admitted-Fits c s now t ((g, n) ∷ costs) on profile ok f m =
    let reason = admitted-reason c s now t g n costs on profile ok in
    let loop = diagnostics-loop c s now ((g, n) ∷ costs) (is_reserve_exempt c t) on reason in
    rw (← unsettled-held) (
      check_features-Fits c (is_reserve_exempt c t) (usage_rows s.usage)
        (license_unsettled_costs s.claims) ((g, n) ∷ costs) (required_features c ((g, n) ∷ costs))
        [] loop f (required-candidate c ((g, n) ∷ costs) f m))

-- The costs are a dict: no feature has two entries.
abbrev pub IsDict : Costs → Type 0
IsDict [] = Unit
IsDict ((g, n) ∷ rest) = (mem_str g (names rest) ≡ false) × IsDict rest

entries-absent :
    (f : String) (costs : Costs) → mem_str f (names costs) ≡ false → entries f costs ≡ 0
entries-absent f [] h = refl
entries-absent f ((g, n) ∷ rest) h = ground (arith, entries-absent f rest)

entries-cost_of : (f : String) (costs : Costs) → IsDict costs → entries f costs ≡ cost_of f costs
entries-cost_of f [] d = refl
entries-cost_of f ((g, n) ∷ rest) d =
    ground (arith, entries-cost_of f rest, entries-absent f rest, eq_iff f g)

recorded-held :
    (c : LicenseConfig) (now : ℕ) (t : Task) (attach_token : String) (costs : Costs)
    (claims : ClaimTable) (f : String)
    → license_costs_for_task c t ≡ (costs, none)
    → costs ≢ []
    → has_claim (token (codes attach_token)) claims ≡ false
    → IsDict costs
    → held f (license_record_claim c now t attach_token claims) ≡ held f claims + cost_of f costs
unfolding license_record_claim
recorded-held c now t attach_token [] claims f profile some_cost fresh d = absurd (some_cost refl)
recorded-held c now t attach_token ((g, n) ∷ costs) claims f profile some_cost fresh d =
    let new = new_claim now t ((g, n) ∷ costs) in
    rw (profile, license_record_claim)
      (omega (
        arith,
        held-put_claim f (token (codes attach_token)) new claims fresh,
        entries-cost_of f ((g, n) ∷ costs) d,
      ))

-- After the claim of an admitted task is recorded under a token that no claim has, the use that
-- the snapshot shows and what all the claims now hold still stay within the capacity, for each
-- feature among the task's costs, if admission is on and the costs name no feature twice.
pub recorded_within_capacity :
    (c : LicenseConfig) (s : LicenseState) (now : ℕ) (t : Task) (attach_token : String)
    (costs : Costs)
    → c.admission_enabled ≡ true
    → license_costs_for_task c t ≡ (costs, none)
    → IsDict costs
    → has_claim (token (codes attach_token)) s.claims ≡ false
    → (license_task_admitted c s now t).1 ≡ true
    → (f : String) → mem_str f (names costs) ≡ true
    → (total : ℕ) × (used : ℕ) × (checked_row f (row_named f (usage_rows s.usage))
        ≡ inr (total, used))
      × (used + held f (license_record_claim c now t attach_token s.claims)
          ≤ capacity_of (is_reserve_exempt c t) total (cost_of f c.reserve_by_feature))
recorded_within_capacity c s now t attach_token [] on profile d fresh ok f m = cc
recorded_within_capacity c s now t attach_token ((g, n) ∷ costs) on profile d fresh ok f m =
    let (total, used, row, room) = admitted-Fits c s now t ((g, n) ∷ costs) on profile ok f m in
    (
      total,
      used,
      row,
      omega (
        arith,
        recorded-held c now t attach_token ((g, n) ∷ costs) s.claims f profile (λ e. cc) fresh d,
      ),
    )
