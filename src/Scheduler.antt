-- ===== src/Scheduler.antt =====
-- The state that `Scheduler` (slurm_scheduler/scheduler.py) keeps beside its settings, what it asks
-- of Slurm through a client, and the handling of a task's end. The operations that hold
-- `_task_assignment_lock` run one after the other.
pub mod Rows
pub mod Close
pub mod Capacity
pub mod JobState
pub mod Expiry
pub mod Lifecycle
pub mod Tasks
pub mod Placement
pub mod Attach
pub mod Caps
use slurm_scheduler.Prelude.{
  ℕ, Bool, true, false, not, ◌&&◌, ◌||◌, Option, none, some, is_some, List, [], ◌∷◌, String, Text,
  codes, strip, contains, is_empty, split_on, any, keep, ◌==◌, text_eq, str_eq, if◌then◌else◌,
  mem_nat,
}
use slurm_scheduler.Models.{AedtBackend}
use slurm_scheduler.Config.{Config}
use slurm_scheduler.Store.{Allocation, Task, Event, Db}
use slurm_scheduler.Store.Queries
use slurm_scheduler.License.{LicenseState}
use slurm_scheduler.License.Claims.{license_mark_terminal}
use slurm_scheduler.Policy.{is_pooled, account_by_name}

-- What is handed to a background thread, which works outside the database.
pub data Request : Type 0 where
  workspace_cleanup : ℕ → String → Request
  workdir_cleanup : ℕ → List Text → String → Request
  remote_cancel : ℕ → Request
  launch : ℕ → Request

pub record Scheduler : Type 0 where
  pub db : Db
  pub open db use *
  pub license : LicenseState
  pub pool_backoff : List (String × ℕ)
  pub node_backoff : List ((String × Text) × ℕ)
  pub requests : List Request

-- The answers of Slurm. `client` says whether the account can be reached in this tick; the other
-- calls give `none` for an answer and for no error, where they raise the text of the exception.
pub record Remote : Type 0 where
  pub client : String → Bool
  pub live_allocation_task_steps : String → Option (List String)
  pub probe_error : String → String
  pub cancel_error : String → Option String

unfoldable pub update_allocation : ℕ → (Allocation → Allocation) → Scheduler → Scheduler
update_allocation i f s = record s { db = Queries.update_allocation i f s.db }

unfoldable pub update_task : ℕ → (Task → Task) → Scheduler → Scheduler
update_task i f s = record s { db = Queries.update_task i f s.db }

unfoldable pub record_event : String → String → String → ℕ → String → Scheduler → Scheduler
record_event kind message entity_type entity_id account_name s = record s {
  db =
      Queries.record_event
        (record {
          kind = kind;
          message = message;
          entity_type = entity_type;
          entity_id = entity_id;
          account_name = account_name;
        })
        s.db;
}

-- The characters `*`, `?`, `.` and `[` alone match too much.
unfoldable pub workspace_prune_glob_ok : Text → Bool
unfolding strip contains
workspace_prune_glob_ok glob =
    let pattern = strip glob in
    not (
      is_empty pattern
      || contains pattern (codes "/")
      || contains pattern (codes "\\")
      || contains pattern (codes ".."))
    && any (λ ch. not (mem_nat ch (codes "*?.["))) pattern

abbrev stripped : List Text → List Text
stripped [] = []
stripped (g ∷ gs) =
    let rest = stripped gs in
    if not (is_empty (strip g)) && workspace_prune_glob_ok g then strip g ∷ rest else rest

unfoldable pub cleanup_globs_of : Task → List Text
unfolding workspace_prune_glob_ok split_on strip
cleanup_globs_of t = stripped (split_on b',' (codes t.cleanup_globs))

abbrev pub request : Request → Scheduler → Scheduler
request r s = record s { requests = r ∷ s.requests }

abbrev pub workdir_request : Task → String → List Text → Bool → Scheduler → Scheduler
workdir_request t state [] known s = s
workdir_request t state (g ∷ gs) known s =
    if known then request (workdir_cleanup t.id (g ∷ gs) state) s else s

unfoldable pub on_task_terminal : Config → Task → String → Scheduler → Scheduler
on_task_terminal c t state s =
    workdir_request t state (cleanup_globs_of t) (is_some (account_by_name c t.account_name)) (
      let ended = record s {
        license = record s.license { claims = license_mark_terminal c.license t s.license.claims };
      } in
      if is_pooled t.aedt_backend then request (workspace_cleanup t.id state) ended else ended)
