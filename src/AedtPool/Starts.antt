-- ===== src/AedtPool/Starts.antt =====
-- How a host claims a start, binds its task, or gives up.
use slurm_scheduler.Prelude.{
  ℕ, Bool, true, false, not, ◌&&◌, ◌||◌, Option, none, some, or_else, List, [], ◌∷◌, ◌⊎◌, inl, inr,
  any, first, String, Text, codes, text_eq, strip, lower, split_on, ◌==◌, str_eq, if◌then◌else◌,
}
use slurm_scheduler.Store.{Allocation, Task, SessionState, starting}
use slurm_scheduler.Store.Queries.{is_at, get_task, get_allocation, is_active_status}
use slurm_scheduler.AedtPool.{
  Session, Pool, PoolError, permission_error, value_error, Outcome, get_session, set_sessions,
}

abbrev head_or_empty : List Text → Text
head_or_empty [] = []
head_or_empty (w ∷ ws) = w

-- The separator is the full stop.
unfoldable pub short_node_name : String → Text
unfolding strip lower split_on
short_node_name value = head_or_empty (split_on 46 (lower (strip (codes value))))

abbrev pub is_starting : SessionState → Bool
is_starting starting = true
is_starting _ = false

abbrev pub or_text : String → String → String
or_text s default = if str_eq s "" then default else s

-- UNHEALTHY_ALLOCATION_RECYCLE_REASON
abbrev pub unhealthy_recycle_reason : String
unhealthy_recycle_reason = "AEDT pool unhealthy/quarantined session allocation recycle"

-- What a host says of itself when it claims a start; a session id of 0 takes any.
pub record StartClaim : Type 0 where
  pub allocation_id : ℕ
  pub node_name : String
  pub host_id : String
  pub actual_node_name : String
  pub slurm_job_id : String
  pub host_process_id : String
  pub session_id : ℕ

abbrev pub is_claimable : StartClaim → Session → Bool
is_claimable k s =
    is_starting s.state
    && s.allocation_id == k.allocation_id
    && str_eq s.node_name k.node_name
    && (str_eq s.host_id "" || str_eq s.host_id k.host_id)

-- A host's own claim first, then the oldest row.
abbrev claimable_row : StartClaim → Pool → Option Session
claimable_row k p =
    if k.session_id == 0
    then or_else (first (λ s. is_claimable k s && str_eq s.host_id k.host_id) p.sessions)
        (first (is_claimable k) p.sessions)
    else first (λ s. s.id == k.session_id && is_claimable k s) p.sessions

abbrev expected_node : Session → Allocation → String
expected_node s a = or_text s.node_name a.node_name

abbrev task_pinned : Pool → ℕ → ℕ → Option String
task_pinned p task_id allocation_id = if task_id == 0 then none else elim (get_task p.db task_id) [
  | none ↦ some "session host task no longer exists"
  | some t ↦
      if t.requested_allocation_id == allocation_id
        && is_at allocation_id t.allocation_id
        && is_active_status t.status
      then none
      else some "session host task is not pinned to its allocation"
]

-- Why a claim is refused; the node, job and allocation in two of the texts are left out.
abbrev claim_problem : Pool → StartClaim → Session → Allocation → Option String
claim_problem p k s a =
    if not (str_eq k.actual_node_name "")
      && not (text_eq (short_node_name k.actual_node_name) (short_node_name (expected_node s a)))
    then some "host is running on another node than expected"
    else if not (str_eq k.slurm_job_id "")
        && not (str_eq a.slurm_job_id "")
        && not (str_eq k.slurm_job_id a.slurm_job_id)
    then some "host Slurm job does not own allocation"
    else task_pinned p s.host_task_id k.allocation_id

abbrev take_claim : StartClaim → Allocation → ℕ → Session → Session
take_claim k a now s = record s {
  host_id = k.host_id;
  start_claimed_at = or_else s.start_claimed_at (some now);
  actual_node_name = or_text k.actual_node_name (expected_node s a);
  host_slurm_job_id = or_text k.slurm_job_id a.slurm_job_id;
  host_process_id = k.host_process_id;
}

abbrev claim_row :
    StartClaim → Session → Allocation → Option String → Pool → PoolError ⊎ (Pool × Option ℕ)
claim_row k s a (some problem) p = inl (value_error problem)
claim_row k s a none p = inr (
  set_sessions
      (λ o.
        o.id == s.id && is_starting o.state && (str_eq o.host_id "" || str_eq o.host_id k.host_id))
      (take_claim k a p.now) p,
  some s.id,
)

abbrev claim_found : StartClaim → Option Session → Pool → PoolError ⊎ (Pool × Option ℕ)
claim_found k none p = inr (p, none)
claim_found k (some s) p = elim (get_allocation p.db s.allocation_id) [
  | none ↦ inl (value_error "session allocation no longer exists")
  | some a ↦ claim_row k s a (claim_problem p k s a) p
]

-- The bootstrap secret is checked first; the texts of the claim are the stripped ones. What comes
-- back is the id of the row that is claimed.
unfoldable pub claim_start : Bool → StartClaim → Pool → PoolError ⊎ (Pool × Option ℕ)
unfolding short_node_name
claim_start authorized k p =
    if not authorized
    then inl permission_error
    else if str_eq k.host_id ""
    then inl (value_error "host_id is required")
    else claim_found k (claimable_row k p) p

abbrev owned_start : ℕ → String → Session → Bool
owned_start i host_id s = s.id == i && is_starting s.state && str_eq s.host_id host_id

abbrev pub not_owned : String
not_owned = "session start claim is not owned by this host"

-- The paths and the metadata of a host.
pub record HostFiles : Type 0 where
  pub artifact_dir : String
  pub error_log_path : String
  pub journal_path : String
  pub runtime_metadata_json : String

abbrev pub put_files : HostFiles → Session → Session
put_files f s = record s {
  artifact_dir = f.artifact_dir;
  error_log_path = f.error_log_path;
  journal_path = f.journal_path;
  runtime_metadata_json = f.runtime_metadata_json;
}

abbrev start_failed : String → HostFiles → ℕ → Session → Session
start_failed message f now s = record (put_files f s) {
  state = SessionState.failed;
  failure_message = or_text message "AEDT session start failed";
  closed_at = some now;
}

unfoldable pub fail_session_start : Bool → ℕ → String → String → HostFiles → Pool → Outcome
fail_session_start authorized i host_id message f p =
    if not authorized
    then inl permission_error
    else if any (owned_start i host_id) p.sessions
    then inr (set_sessions (owned_start i host_id) (start_failed message f p.now) p)
    else inl (value_error not_owned)

abbrev pub may_bind : ℕ → ℕ → Session → Bool
may_bind i task_id s =
    s.id == i && is_starting s.state && (s.host_task_id == 0 || s.host_task_id == task_id)

abbrev put_task : Task → Session → Session
put_task t s = record s {
  host_task_id = t.id;
  host_stdout_path = t.stdout_path;
  host_stderr_path = t.stderr_path;
}

abbrev bind_rows : ℕ → Option Session → Option Task → Pool → Outcome
bind_rows i (some s) (some t) p =
    if not (t.requested_allocation_id == s.allocation_id)
    then inl (value_error "session host task is not allocation-pinned")
    else if any (may_bind i t.id) p.sessions
    then inr (set_sessions (may_bind i t.id) (put_task t) p)
    else inl (value_error "session host task is already owned")
bind_rows i _ _ p = inl (value_error "session or host task no longer exists")

unfoldable pub bind_session_host_task : ℕ → ℕ → Pool → Outcome
unfolding get_session
bind_session_host_task i task_id p = bind_rows i (get_session p i) (get_task p.db task_id) p
