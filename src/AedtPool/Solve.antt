-- ===== src/AedtPool/Solve.antt =====
-- The serialised solve waves of one session: `_grant_solve_batch_if_ready`, `request_solve_permit`
-- and `complete_native_pipeline`.
pub mod Serial
use slurm_scheduler.Prelude.{
  ℕ, ◌+◌, Bool, true, false, not, ◌&&◌, ◌||◌, Option, none, some, is_some, or_else, List, [], ◌∷◌,
  ◌⊎◌, inl, inr, keep, any, first, take, length, map, is_empty, String, Text, codes, text_eq, strip,
  lower, mem_nat, ltb, leb, ◌==◌, str_eq, if◌then◌else◌,
}
use slurm_scheduler.Store.{SessionState, draining}
use slurm_scheduler.Store.Queries.{is_at}
use slurm_scheduler.AedtPool.{
  LeaseState, Lease, Session, Pool, PoolError, key_error, permission_error, lease_is, value_error,
  Outcome, AedtPoolConfig, is_live, is_active, is_assignable, id_or_zero, find_lease, get_session,
  set_leases, set_sessions, occupants, occupies, claim_lease, block_reuse,
}
use slurm_scheduler.AedtPool.Refresh.{set_releasing}
use slurm_scheduler.AedtPool.Upkeep.{refresh_exact_session_reservations}
use slurm_scheduler.AedtPool.Canary.{
  refresh_mixed_canary_admissions, mixed_canary_batch_is_complete,
  exact_session_reservations_are_active,
}

-- `_parallel_safe_native_solve_families`: no family is.
abbrev parallel_safe_native_solve_families : List Text
parallel_safe_native_solve_families = []

abbrev family : Lease → Text
family l = lower (strip (codes l.workload_family))

abbrev pub is_waiting : Lease → Bool
is_waiting l = is_active l.state && not (is_some l.solve_permit_at)

abbrev ids : List Lease → List ℕ
ids = map (λ l. l.id)

-- The oldest waiting family, and of a family that is not safe to run in parallel its first lease.
abbrev pub selected : List Lease → List ℕ
selected [] = []
selected (l ∷ ls) =
    if any (text_eq (family l)) parallel_safe_native_solve_families
    then ids (keep (λ o. text_eq (family o) (family l)) (l ∷ ls))
    else l.id ∷ []

abbrev pub give_permit : ℕ → ℕ → Lease → Lease
give_permit now generation l = record l {
  solve_permit_at = some now;
  solve_permit_generation = generation;
}

abbrev pub gets_permit : ℕ → List ℕ → Lease → Bool
gets_permit i chosen l = is_at i l.session_id && is_waiting l && mem_nat l.id chosen

abbrev pub grant_wave : ℕ → ℕ → List Lease → Pool → Pool × Bool
grant_wave i generation [] p = (p, false)
grant_wave i generation (l ∷ ls) p =
    (set_leases (gets_permit i (selected (l ∷ ls))) (give_permit p.now generation) p, true)

abbrev pub seal : ℕ → Session → Session
seal now s = record s {
  solve_batch_sealed_at = some now;
  solve_batch_generation = s.solve_batch_generation + 1;
}

abbrev pub seal_batch : Session → Pool → Pool
seal_batch s p =
    set_sessions (λ o. o.id == s.id && not (is_some o.solve_batch_sealed_at)) (seal p.now) p

abbrev pub next_generation : Session → Pool → Pool
next_generation s p =
    set_sessions (λ o. o.id == s.id)
      (λ o. record o { solve_batch_generation = o.solve_batch_generation + 1 }) p

-- The leases that the sealed generation's permit was given to.
abbrev pub was_granted : ℕ → ℕ → Lease → Bool
was_granted i generation l =
    is_at i l.session_id && l.solve_permit_generation == generation && is_some l.solve_permit_at

abbrev is_released : LeaseState → Bool
is_released LeaseState.released = true
is_released _ = false

abbrev pub is_attested : ℕ → ℕ → Lease → Bool
is_attested i generation l =
    is_released l.state
    && is_some l.native_pipeline_completed_at
    && l.native_pipeline_session_id == i
    && l.native_pipeline_generation == generation

abbrev pub wave_failure : String
wave_failure = "sealed native solve predecessor wave failed; refusing mixed-family continuation"

abbrev stop_session : ℕ → Session → Session
stop_session now s = record (block_reuse now s) {
  state = draining;
  failure_message = wave_failure;
  drain_requested_at = or_else s.drain_requested_at (some now);
}

abbrev pub refuse_continuation : Session → Pool → Pool
refuse_continuation s p =
    set_leases (λ l. is_at s.id l.session_id && is_waiting l) (set_releasing wave_failure p.now)
      (set_sessions (λ o. o.id == s.id && is_assignable o.state) (stop_session p.now) p)

abbrev pub may_seal : Pool → Session → Bool → Bool
may_seal p s allow_underfilled =
    let occ = occupants p s.id in
    mixed_canary_batch_is_complete p s.id
    && exact_session_reservations_are_active p s.id
    && not (is_empty occ)
    && not (any (λ l. not (is_active l.state)) occ)
    && (leb s.slots_total (length occ) || any (λ l. l.exclusive_session) occ || allow_underfilled)

abbrev pub waiting_on : Pool → Session → List Lease
waiting_on p s = keep is_waiting (occupants p s.id)

abbrev pub continue_wave : Session → List Lease → Pool → Pool × Bool
continue_wave s [] p = (p, false)
continue_wave s (l ∷ ls) p =
    grant_wave s.id (s.solve_batch_generation + 1) (l ∷ ls) (next_generation s p)

abbrev pub follow_wave : Session → List Lease → Pool → Pool × Bool
follow_wave s granted p =
    if is_empty granted || any (λ l. is_live l.state) granted
    then (p, false)
    else if any (λ l. not (is_attested s.id s.solve_batch_generation l)) granted
    then (refuse_continuation s p, false)
    else continue_wave s (waiting_on p s) p

-- The decision, on rows that are up to date.
unfoldable pub grant_on_session : Session → Bool → Pool → Pool × Bool
grant_on_session s allow_underfilled p =
    if is_some s.solve_batch_sealed_at
    then follow_wave s (keep (was_granted s.id s.solve_batch_generation) p.leases) p
    else if may_seal p s allow_underfilled
    then grant_wave s.id (s.solve_batch_generation + 1) (waiting_on p s) (seal_batch s p)
    else (p, false)

abbrev pub grant_if_assignable : Option Session → Bool → Pool → Pool × Bool
grant_if_assignable none allow_underfilled p = (p, false)
grant_if_assignable (some s) allow_underfilled p =
    if is_assignable s.state then grant_on_session s allow_underfilled p else (p, false)

unfoldable pub grant_solve_batch_if_ready : ℕ → Bool → Pool → Pool × Bool
unfolding grant_on_session refresh_mixed_canary_admissions refresh_exact_session_reservations
    mixed_canary_batch_is_complete exact_session_reservations_are_active get_session strip lower
grant_solve_batch_if_ready i allow_underfilled p =
    if i == 0
    then (p, false)
    else let p = refresh_exact_session_reservations (refresh_mixed_canary_admissions p) in
      grant_if_assignable (get_session p i) allow_underfilled p

-- `secrets.compare_digest` of the stored and the presented token's digest, after the row is found.
abbrev pub authorize_lease : (String → String) → String → Option Lease → (Lease → Outcome) → Outcome
authorize_lease token_hash token none f = inl key_error
authorize_lease token_hash token (some l) f =
    if str_eq l.client_token_hash (token_hash token) then f l else inl permission_error

abbrev pub with_lease : (String → String) → ℕ → String → Pool → (Lease → Outcome) → Outcome
with_lease token_hash i token p f = authorize_lease token_hash token (find_lease p i) f

abbrev pub renewed : AedtPoolConfig → ℕ → Lease → Lease
renewed config now l = record l {
  last_heartbeat_at = now;
  expires_at = now + config.lease_ttl_seconds;
}

module _ (token_hash : String → String) (config : AedtPoolConfig) where
  abbrev pub renew_waiting : ℕ → String → Pool → Pool
  renew_waiting i token p =
      set_leases
        (λ o. o.id == i && is_active o.state && str_eq o.client_token_hash (token_hash token))
        (λ o. record (renewed config p.now o) { fault_phase = "waiting" }) p

  unfoldable pub request_solve_permit : ℕ → String → Bool → Pool → Outcome
  unfolding grant_solve_batch_if_ready find_lease
  request_solve_permit i token seal_underfilled p = with_lease token_hash i token p (λ l.
      if not (is_active l.state)
      then inl (lease_is l.state)
      else inr
          (grant_solve_batch_if_ready (id_or_zero l.session_id) seal_underfilled
            (renew_waiting i token p)).0)

  -- A marker of the same session and generation keeps its time.
  abbrev pub mark_complete : ℕ → ℕ → ℕ → Lease → Lease
  mark_complete now i generation l = record (renewed config now l) {
    native_pipeline_completed_at =
        if l.native_pipeline_session_id == i && l.native_pipeline_generation == generation
        then or_else l.native_pipeline_completed_at (some now)
        else some now;
    native_pipeline_session_id = i;
    native_pipeline_generation = generation;
    fault_phase = "postprocess";
  }

  abbrev pub is_granted_row : ℕ → String → ℕ → ℕ → Lease → Bool
  is_granted_row i token session_id generation o =
      o.id == i
      && is_active o.state
      && str_eq o.client_token_hash (token_hash token)
      && is_at session_id o.session_id
      && o.solve_permit_generation == generation

  abbrev pub complete_pipeline : ℕ → String → ℕ → Lease → Pool → Outcome
  complete_pipeline i token generation l p =
      let session_id = id_or_zero l.session_id in
      if not (is_some l.solve_permit_at) || session_id == 0 || l.solve_permit_generation == 0
      then inl (value_error "lease has no sealed native solve permit")
      else if not (generation == l.solve_permit_generation)
      then inl (value_error "native pipeline generation mismatch")
      else if not (any (was_granted session_id generation) p.leases)
      then inl (value_error "sealed native solve cohort is unavailable")
      else claim_lease (is_granted_row i token session_id generation)
          (mark_complete p.now session_id generation)
          "lease changed while completing its native pipeline" p

  -- The two generations in the mismatch's text are left out.
  unfoldable pub complete_native_pipeline : ℕ → String → ℕ → Pool → Outcome
  unfolding find_lease
  complete_native_pipeline i token generation p =
      if generation == 0
      then inl (value_error "solve_permit_generation must be a positive integer")
      else with_lease token_hash i token p (λ l.
        if is_active l.state
        then complete_pipeline i token generation l p
        else inl (lease_is l.state))
