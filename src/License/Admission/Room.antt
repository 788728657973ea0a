-- ===== src/License/Admission/Room.antt =====
-- An admitted task fits beside the snapshot and every claim, for each feature that it holds.
use slurm_scheduler.Prelude.{
  ℕ, ◌+◌, ◌≤◌, ◌≡◌, refl, inl, inr, arith, Bool, true, Option, none, some, List, [], ◌∷◌, String,
  str_eq, eq_iff, mem_str, Bool-cases, Sum-cases, ◌≢◌,
}
use slurm_scheduler.Config.{Costs, LicenseConfig}
use slurm_scheduler.License.{FeatureRow, Reason, cost_of}
use slurm_scheduler.License.Admission.{
  FeatureStatus, feature_status, exhausted_reason, checked_row, row_named, capacity_of,
  check_features,
}

-- The snapshot has the feature with counts that are in order, and with what the claims hold and
-- the candidate asks the use stays within what may be admitted.
abbrev pub Fits : LicenseConfig → Bool → List FeatureRow → Costs → Costs → String → Type 0
Fits c exempt rows unsettled candidate f =
    (total : ℕ) × (used : ℕ) × (checked_row f (row_named f rows) ≡ inr (total, used))
    × (used + cost_of f unsettled + cost_of f candidate
        ≤ capacity_of exempt total (cost_of f c.reserve_by_feature))

module _ (c : LicenseConfig) (exempt : Bool) (rows : List FeatureRow)
    (unsettled candidate : Costs) where
  abbrev check :
      List String → List FeatureStatus → Option Reason → Bool × List FeatureStatus × Option Reason
  check = check_features c exempt rows unsettled candidate

  abbrev status : String → ℕ → ℕ → FeatureStatus
  status = feature_status c exempt rows unsettled candidate

  check_features-some :
      (fs : List String) (done : List FeatureStatus) (reason : Reason)
      → (check fs done (some reason)).2 ≢ none
  unfolding check_features
  check_features-some [] done reason h = cc
  check_features-some (f ∷ fs) done reason h = elim (Sum-cases (checked_row f (row_named f rows))) [
    | inl (bad, e) ↦ cc (rw (e, check_features) at h)
    | inr ((t, u), e) ↦ ground (arith, e, check_features-some fs (status f t u ∷ done) reason)
  ]

  -- One round that leaves no reason behind checked its row and found room.
  check_features-step :
      (g : String) (fs : List String) (done : List FeatureStatus)
      → (check (g ∷ fs) done none).2 ≡ none
      → (t : ℕ) × (u : ℕ) × (checked_row g (row_named g rows) ≡ inr (t, u))
        × (u + cost_of g unsettled + cost_of g candidate
            ≤ capacity_of exempt t (cost_of g c.reserve_by_feature))
        × ((check fs (status g t u ∷ done) none).2 ≡ none)
  unfolding check_features
  check_features-step g fs done h = elim (Sum-cases (checked_row g (row_named g rows))) [
    | inl (bad, e) ↦ absurd (cc (rw (e, check_features) at h))
    | inr ((t, u), e) ↦
        let open_reason =
          check_features-some fs (status g t u ∷ done)
            (exhausted_reason c exempt rows unsettled candidate (status g t u)) in
        (t, u, e, ground (arith, e), ground (arith, e))
  ]

  check_features-valid :
      (fs : List String) (done : List FeatureStatus)
      → (check fs done none).2 ≡ none
      → (check fs done none).0 ≡ true
  unfolding check_features
  check_features-valid [] done h = refl
  check_features-valid (g ∷ fs) done h = elim (Sum-cases (checked_row g (row_named g rows))) [
    | inl (bad, e) ↦ absurd (cc (rw (e, check_features) at h))
    | inr ((t, u), e) ↦
        let open_reason =
          check_features-some fs (status g t u ∷ done)
            (exhausted_reason c exempt rows unsettled candidate (status g t u)) in
        ground (arith, e, check_features-valid fs (status g t u ∷ done))
  ]

  pub check_features-Fits :
      (fs : List String) (done : List FeatureStatus)
      → (check fs done none).2 ≡ none
      → (f : String) → mem_str f fs ≡ true
      → Fits c exempt rows unsettled candidate f
  check_features-Fits [] done h f m = cc
  check_features-Fits (g ∷ fs) done h f m =
      let (t, u, row, room, h') = check_features-step g fs done h in
      elim (Bool-cases (str_eq f g)) [
        | inl same ↦ rw ((eq_iff f g).0 same) (t, u, row, room)
        | inr other ↦ check_features-Fits fs (status g t u ∷ done) h' f (rw other at m)
      ]
