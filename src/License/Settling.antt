-- ===== src/License/Settling.antt =====
-- A claim whose remote launch may hold a license is given up only when a later snapshot shows it.
use slurm_scheduler.Prelude.{
  ℕ, ◌+◌, ◌≡◌, refl, ◌∙◌, arith, Bool, true, not, none, some, or_else, [], ◌∷◌, String, ltb,
  if◌then◌else◌, Bool-cases, inl, inr, keep,
}
use slurm_scheduler.Config.{LicenseConfig}
use slurm_scheduler.Store.{Task}
use slurm_scheduler.License.{Claim, ClaimKey, ClaimTable, attaching}
use slurm_scheduler.License.Claims.{
  is_claim_of, is_unlaunched, on_claims, drop_unlaunched, license_mark_terminal,
  license_release_prelaunch_claim, license_reconcile_claims, is_settled,
}
use slurm_scheduler.License.Admission.Ledger.{entries, held}

-- What the claims with a launch behind them hold of a feature.
abbrev pub launched_held : String → ClaimTable → ℕ
launched_held f [] = 0
launched_held f ((k, c) ∷ rest) =
    (if is_unlaunched c then 0 else entries f c.costs) + launched_held f rest

launched-drop :
    (mine : ClaimKey × Claim → Bool) (f : String) (claims : ClaimTable)
    → launched_held f (drop_unlaunched mine claims) ≡ launched_held f claims
launched-drop mine f [] = refl
launched-drop mine f ((k, c) ∷ rest) = ground (arith, launched-drop mine f rest)

launched-on_claims :
    (mine : ClaimKey × Claim → Bool) (g : Claim → Claim) (f : String) (claims : ClaimTable)
    → ((c : Claim) → (is_unlaunched (g c) ≡ is_unlaunched c) × ((g c).costs ≡ c.costs))
    → launched_held f (on_claims mine g claims) ≡ launched_held f claims
launched-on_claims mine g f [] same = refl
launched-on_claims mine g f ((k, c) ∷ rest) same =
    ground (arith, same c, launched-on_claims mine g f rest same)

-- Neither the end of a task nor the release of a claim before its launch lets go of what a launched
-- claim holds: of every feature the launched claims hold the same as before.
pub launched_survives_end :
    (c : LicenseConfig) (t : Task) (claims : ClaimTable) (f : String)
    → (launched_held f (license_mark_terminal c t claims) ≡ launched_held f claims)
      × (launched_held f (license_release_prelaunch_claim c t claims) ≡ launched_held f claims)
unfolding license_mark_terminal license_release_prelaunch_claim
launched_survives_end c t claims f = elim (Bool-cases c.admission_enabled) [
  | inl on ↦ rw on (
    launched-on_claims (is_claim_of t claims) _ f (drop_unlaunched (is_claim_of t claims) claims)
          (λ k. (refl, refl))
        ∙ launched-drop (is_claim_of t claims) f claims,
    launched-drop (is_claim_of t claims) f claims,
  )
  | inr off ↦ rw off (refl, refl)
]

-- Whether a capture begun at `query_started` need not show what a claim holds: it is attaching, or the
-- time since when it runs, or where that is missing its launch time, is missing or less than the
-- settlement time before.
abbrev pub may_be_unseen : ℕ → ℕ → Claim → Bool
may_be_unseen settlement query_started c = elim c.state [
  | attaching ↦ true
  | _ ↦ elim (or_else c.running_at c.launch_started_at) [
    | none ↦ true
    | some at ↦ ltb query_started (at + settlement)
  ]
]

abbrev pub unseen_held : ℕ → ℕ → String → ClaimTable → ℕ
unseen_held settlement query_started f [] = 0
unseen_held settlement query_started f ((k, c) ∷ rest) =
    (if may_be_unseen settlement query_started c then entries f c.costs else 0)
    + unseen_held settlement query_started f rest

unseen-settled :
    (settlement query_started : ℕ) (c : Claim)
    → may_be_unseen settlement query_started c ≡ not (is_settled settlement query_started c)
unseen-settled settlement query_started c = ground arith

reconcile-keep :
    (settlement query_started : ℕ) (f : String) (claims : ClaimTable)
    → held f (keep (λ (k, c). not (is_settled settlement query_started c)) claims)
      ≡ unseen_held settlement query_started f claims
reconcile-keep settlement query_started f [] = refl
reconcile-keep settlement query_started f ((k, c) ∷ rest) = ground (
  arith,
  unseen-settled settlement query_started c,
  reconcile-keep settlement query_started f rest,
)

-- After a reconciliation the claims hold of each feature exactly what was held by the claims that
-- are still attaching, and by those whose anchor is missing or lies less than the settlement time before
-- the capture began; the anchor of a claim is the time since when it runs, and its launch time where
-- that is missing.
pub reconcile_keeps_unsettled :
    (c : LicenseConfig) (query_started : ℕ) (claims : ClaimTable) (f : String)
    → held f (license_reconcile_claims c query_started claims)
      ≡ unseen_held c.settlement_seconds query_started f claims
unfolding license_reconcile_claims
reconcile_keeps_unsettled c query_started claims f =
    reconcile-keep c.settlement_seconds query_started f claims
