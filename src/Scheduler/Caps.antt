-- ===== src/Scheduler/Caps.antt =====
-- The limits on how many tasks of a project may be active at once, and on its standalone AEDT tasks.
pub mod Limits
use slurm_scheduler.Prelude.{
  ℕ, ◌+◌, Bool, true, false, not, ◌&&◌, ◌||◌, Option, none, some, List, [], ◌∷◌, String, Text,
  codes, text_eq, strip, lower, starts_with, is_empty, length, keep, ltb, leb, ◌==◌, if◌then◌else◌,
}
use slurm_scheduler.Models.{AedtBackend, standalone, pooled}
use slurm_scheduler.Config.{Config, Lane, Costs}
use slurm_scheduler.Store.{Task, Db}
use slurm_scheduler.Store.Queries.{is_active_status}
use slurm_scheduler.License.{project_name}
use slurm_scheduler.Policy.{task_is_fea_infra, task_is_fea_bursty, is_pooled}

-- SQLite's TRIM takes off spaces only.
abbrev trim_left : Text → Text
trim_left [] = []
trim_left (c ∷ s) = let rest = trim_left s in if c == b' ' then rest else c ∷ s

abbrev trim_end : ℕ → Text → Text
trim_end c [] = if c == b' ' then [] else c ∷ []
trim_end c (d ∷ r) = c ∷ d ∷ r

abbrev trim_right : Text → Text
trim_right [] = []
trim_right (c ∷ s) = trim_end c (trim_right s)

unfoldable pub sql_trim : Text → Text
sql_trim s = trim_right (trim_left s)

abbrev pub is_infra_name : Text → Bool
is_infra_name name = text_eq name (codes "_aedt_pool_hosts")

-- The WHERE clause of the count. The prefix is literal, and "" is none.
unfoldable pub counts_in_scope : Text → Text → Task → Bool
unfolding sql_trim lower starts_with
counts_in_scope project name_prefix t =
    text_eq (codes t.project) project
    && is_active_status t.status
    && text_eq (lower (sql_trim (codes t.scheduling_profile))) (codes "fea_bursty")
    && not (is_pooled t.aedt_backend)
    && not (is_infra_name (sql_trim (codes t.project)))
    && starts_with (codes t.name) name_prefix

-- db.py
unfoldable pub count_active_standalone_fea_tasks_by_scope : Db → Text → Text → ℕ
unfolding counts_in_scope
count_active_standalone_fea_tasks_by_scope db project name_prefix =
    let name = strip project in
    if is_empty name || is_infra_name name
    then 0
    else length (keep (counts_in_scope name name_prefix) db.tasks)

pub record CapDetails : Type 0 where
  pub active : ℕ
  pub limit : ℕ
  pub lane : String
  pub name_prefix : String

abbrev no_cap : CapDetails
no_cap = record { active = 0; limit = 0; lane = ""; name_prefix = "" }

abbrev same_backend : AedtBackend → AedtBackend → Bool
same_backend standalone standalone = true
same_backend pooled pooled = true
same_backend _ _ = false

abbrev pub in_lane : Task → Lane → Bool
in_lane t lane =
    text_eq (project_name t) (codes lane.project)
    && same_backend t.aedt_backend lane.aedt_backend
    && starts_with (codes t.name) (codes lane.name_prefix)

abbrev pub limit_of : Text → Costs → ℕ
limit_of name [] = 0
limit_of name ((p, n) ∷ rest) = if text_eq name (codes p) then n else limit_of name rest

module _ (c : Config) (db : Db) (t : Task) where
  abbrev lane_details : Lane → CapDetails
  lane_details lane = record {
    active =
        count_active_standalone_fea_tasks_by_scope db (project_name t) (codes lane.name_prefix);
    limit = lane.max_running;
    lane = lane.name;
    name_prefix = lane.name_prefix;
  }

  abbrev project_details : CapDetails
  project_details =
      let limit = limit_of (project_name t) c.standalone_aedt_max_running_by_project in
      if limit == 0 then no_cap else record {
        active = count_active_standalone_fea_tasks_by_scope db (project_name t) [];
        limit = limit;
        lane = "";
        name_prefix = "";
      }

  -- The first lane that matches goes before the limit of the project.
  abbrev pub lane_or_project : List Lane → CapDetails
  lane_or_project [] = project_details
  lane_or_project (lane ∷ rest) = if in_lane t lane then lane_details lane else lane_or_project rest

  unfoldable pub standalone_aedt_running_cap_details : CapDetails
  unfolding count_active_standalone_fea_tasks_by_scope starts_with project_name
  standalone_aedt_running_cap_details =
      if is_empty (project_name t)
        || task_is_fea_infra t
        || not (task_is_fea_bursty t)
        || is_pooled t.aedt_backend
      then no_cap
      else lane_or_project c.standalone_aedt_running_lanes

  -- Whether `standalone_aedt_running_cap_reason` is not "".
  unfoldable pub standalone_aedt_running_cap_reached : Bool
  unfolding standalone_aedt_running_cap_details
  standalone_aedt_running_cap_reached =
      let details = standalone_aedt_running_cap_details in
      not (details.limit == 0 || ltb details.active details.limit)

-- Whether `project_active_cap_reason` is not "". The limit is `max_active_tasks` of the project's row,
-- and 0 where there is no row.
unfoldable pub project_active_cap_reached : (Text → ℕ) → Db → Task → Bool
unfolding project_name
project_active_cap_reached max_active_tasks db t =
    let name = project_name t in
    let limit = max_active_tasks name in
    if is_empty name || limit == 0
    then false
    else leb limit
        (length (keep (λ u. text_eq (codes u.project) name && is_active_status u.status) db.tasks))
