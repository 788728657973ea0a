-- ===== src/License/Claims.antt =====
-- The claim table: what a task's way from admission to its end does to it.
use slurm_scheduler.Prelude.{
  ℕ, ◌+◌, Bool, true, false, ◌&&◌, not, Option, none, some, List, [], ◌∷◌, String, Text, codes,
  text_eq, strip, map, keep, leb, ◌==◌, is_empty, is_some, or_else, if◌then◌else◌,
}
use slurm_scheduler.Models.{TaskStatus}
use slurm_scheduler.Config.{Costs, LicenseConfig}
use slurm_scheduler.Store.{Task, Db}
use slurm_scheduler.Store.Queries.{list_tasks_by_statuses, is_active_status}
use slurm_scheduler.License.{
  Claim, ClaimState, attaching, running, terminal, ClaimKey, token, legacy, ClaimTable, Reason,
  license_costs_for_task,
}

abbrev same_time : Option ℕ → Option ℕ → Bool
same_time none none = true
same_time (some a) (some b) = a == b
same_time _ _ = false

abbrev pub key_eq : ClaimKey → ClaimKey → Bool
key_eq (token s) (token t) = text_eq s t
key_eq (legacy i a) (legacy j b) = i == j && same_time a b
key_eq _ _ = false

-- `key in claims`
abbrev pub has_claim : ClaimKey → ClaimTable → Bool
has_claim key [] = false
has_claim key ((k, c) ∷ rest) = if key_eq key k then true else has_claim key rest

-- `claims[key] = claim`
abbrev pub put_claim : ClaimKey → Claim → ClaimTable → ClaimTable
put_claim key new [] = (key, new) ∷ []
put_claim key new ((k, c) ∷ rest) =
    let more = put_claim key new rest in if key_eq key k then (k, new) ∷ rest else (k, c) ∷ more

-- `str(task.get("attach_token") or "").strip()`
unfoldable pub attach_token_of : Task → Text
unfolding strip
attach_token_of t = strip (codes t.attach_token)

unfoldable pub license_claim_key : Task → ClaimKey
license_claim_key t =
    if is_empty (attach_token_of t)
    then legacy t.id (or_else t.attached_at (or_else t.started_at t.created_at))
    else token (attach_token_of t)

abbrev claim_state : TaskStatus → ClaimState
claim_state TaskStatus.running = running
claim_state _ = attaching

-- A claim rebuilt from a row after a restart.
unfoldable pub license_claim_from_task : ℕ → Task → Costs → Claim
license_claim_from_task now t costs = record {
  task_id = t.id;
  project = t.project;
  costs = costs;
  state = claim_state t.status;
  claimed_at = elim (or_else t.attached_at t.created_at) [ none ↦ now | some at ↦ at ];
  launch_started_at = t.launch_started_at;
  running_at = t.started_at;
}

abbrev rebuild : ℕ → Task → Costs × Option Reason → ClaimTable → ClaimTable
rebuild now t (costs, some reason) claims = claims
rebuild now t ([], none) claims = claims
rebuild now t (c ∷ costs, none) claims =
    if has_claim (license_claim_key t) claims
    then claims
    else put_claim (license_claim_key t) (license_claim_from_task now t (c ∷ costs)) claims

abbrev rebuild_all : LicenseConfig → ℕ → List Task → ClaimTable → ClaimTable
rebuild_all c now [] claims = claims
rebuild_all c now (t ∷ ts) claims =
    rebuild_all c now ts (rebuild now t (license_costs_for_task c t) claims)

unfoldable pub reconstruct_license_admission_claims : LicenseConfig → Db → ClaimTable → ClaimTable
unfolding license_claim_key license_claim_from_task list_tasks_by_statuses
reconstruct_license_admission_claims c db claims =
    if c.admission_enabled
    then rebuild_all c db.clock (list_tasks_by_statuses db is_active_status 5000) claims
    else claims

abbrev pub new_claim : ℕ → Task → Costs → Claim
new_claim now t costs = record {
  task_id = t.id;
  project = t.project;
  costs = costs;
  state = attaching;
  claimed_at = now;
  launch_started_at = none;
  running_at = none;
}

abbrev record_costs : ℕ → Task → String → Costs × Option Reason → ClaimTable → ClaimTable
record_costs now t attach_token (costs, some reason) claims = claims
record_costs now t attach_token ([], none) claims = claims
record_costs now t attach_token (c ∷ costs, none) claims =
    put_claim (token (codes attach_token)) (new_claim now t (c ∷ costs)) claims

unfoldable pub license_record_claim : LicenseConfig → ℕ → Task → String → ClaimTable → ClaimTable
license_record_claim c now t attach_token claims =
    record_costs now t attach_token (license_costs_for_task c t) claims

-- Whether a claim is one of `_license_claims_for_task_locked`: the one of the task's own token if
-- the table has it, and else each one of the task.
unfoldable pub is_claim_of : Task → ClaimTable → ClaimKey × Claim → Bool
is_claim_of t claims (k, c) =
    if not (is_empty (attach_token_of t)) && has_claim (token (attach_token_of t)) claims
    then key_eq (token (attach_token_of t)) k
    else c.task_id == t.id

abbrev pub is_unlaunched : Claim → Bool
is_unlaunched c = not (is_some c.launch_started_at) && not (is_some c.running_at)

-- `claim.setdefault`-like: a time that is already there stays.
abbrev launch : ℕ → Claim → Claim
launch now c = record c { launch_started_at = or_else c.launch_started_at (some now) }

abbrev run : ℕ → Claim → Claim
run now c = record c { state = running; running_at = or_else c.running_at (some now) }

-- The loop over the claims of one task, each changed in place.
abbrev pub on_claims : (ClaimKey × Claim → Bool) → (Claim → Claim) → ClaimTable → ClaimTable
on_claims mine f claims = map (λ (k, c). if mine (k, c) then (k, f c) else (k, c)) claims

unfoldable pub license_mark_launch_started : LicenseConfig → ℕ → Task → ClaimTable → ClaimTable
unfolding is_claim_of attach_token_of
license_mark_launch_started c now t claims =
    if c.admission_enabled then on_claims (is_claim_of t claims) (launch now) claims else claims

unfoldable pub license_mark_running : LicenseConfig → ℕ → Task → ClaimTable → ClaimTable
unfolding is_claim_of attach_token_of
license_mark_running c now t claims =
    if c.admission_enabled then on_claims (is_claim_of t claims) (run now) claims else claims

abbrev pub drop_unlaunched : (ClaimKey × Claim → Bool) → ClaimTable → ClaimTable
drop_unlaunched mine = keep λ (k, c). not (mine (k, c) && is_unlaunched c)

unfoldable pub license_mark_terminal : LicenseConfig → Task → ClaimTable → ClaimTable
unfolding is_claim_of attach_token_of
license_mark_terminal c t claims =
    if c.admission_enabled
    then on_claims (is_claim_of t claims) (λ k. record k { state = terminal })
        (drop_unlaunched (is_claim_of t claims) claims)
    else claims

unfoldable pub license_release_prelaunch_claim : LicenseConfig → Task → ClaimTable → ClaimTable
unfolding is_claim_of attach_token_of
license_release_prelaunch_claim c t claims =
    if c.admission_enabled then drop_unlaunched (is_claim_of t claims) claims else claims

abbrev is_attaching : ClaimState → Bool
is_attaching attaching = true
is_attaching _ = false

-- The launch that a snapshot has to show: a capture begun `settlement` after it is sure to.
abbrev pub is_settled : ℕ → ℕ → Claim → Bool
is_settled settlement query_started c =
    if is_attaching c.state then false else (elim (or_else c.running_at c.launch_started_at) [
      | none ↦ false
      | some anchor ↦ leb (anchor + settlement) query_started
    ])

unfoldable pub license_reconcile_claims : LicenseConfig → ℕ → ClaimTable → ClaimTable
license_reconcile_claims c query_started =
    keep λ (k, claim). not (is_settled c.settlement_seconds query_started claim)
