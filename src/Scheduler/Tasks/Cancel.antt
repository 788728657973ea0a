-- ===== src/Scheduler/Tasks/Cancel.antt =====
-- Cancelling tasks, against the writes of other threads: `request_cancel_task` reads a row, others may
-- write, and only a row that still has the status it read is cancelled.
use slurm_scheduler.Prelude.{
  ℕ, zero, suc, Bool, true, false, ◌&&◌, ◌||◌, Option, none, some, is_some, List, [], ◌∷◌, Text,
  codes, strip, lower, contains, is_empty, take, leb, ◌==◌, if◌then◌else◌,
}
use slurm_scheduler.Models.{TaskStatus}
use slurm_scheduler.Config.{Config}
use slurm_scheduler.Store.{Task, Db}
use slurm_scheduler.Store.Queries.{get_task, update_task_if_status, is_active_status}
use slurm_scheduler.Policy.{account_by_name}
use slurm_scheduler.Scheduler.{Scheduler, update_task, on_task_terminal, request, remote_cancel}
use slurm_scheduler.Scheduler.Tasks.{recalculate, set_cancelled}

-- QUEUED, ATTACHING or RUNNING
abbrev pub is_cancellable : TaskStatus → Bool
is_cancellable TaskStatus.queued = true
is_cancellable s = is_active_status s

-- `status IN (previous)`
abbrev pub same_status : TaskStatus → TaskStatus → Bool
same_status TaskStatus.queued TaskStatus.queued = true
same_status TaskStatus.attaching TaskStatus.attaching = true
same_status TaskStatus.running TaskStatus.running = true
same_status TaskStatus.completed TaskStatus.completed = true
same_status TaskStatus.failed TaskStatus.failed = true
same_status TaskStatus.cancelled TaskStatus.cancelled = true
same_status _ _ = false

abbrev pub free_allocation : Task → Scheduler → Scheduler
free_allocation t s = elim t.allocation_id [
  | none ↦ s
  | some i ↦ if i == 0 then s else recalculate s
]

abbrev cancel_remote : Config → Task → Scheduler → Scheduler
cancel_remote c t s =
    if is_active_status t.status && is_some (account_by_name c t.account_name)
    then request (remote_cancel t.id) s
    else s

-- `none` is the `ValueError` of a task that is not there.
unfoldable pub cancel_task : Config → ℕ → Scheduler → Option Scheduler
cancel_task c i s = elim (get_task s.db i) [
  | none ↦ none
  | some t ↦
      if is_cancellable t.status
      then some (
          free_allocation t (
            on_task_terminal c t "cancelled"
              (update_task i (set_cancelled s.clock) (cancel_remote c t s))))
      else some s
]

pub data CancelReason : Type 0 where
  status_mismatch concurrent_transition : CancelReason

pub data CancelReply : Type 0 where
  not_found : CancelReply
  kept : TaskStatus → CancelReason → CancelReply
  cancelled_from : TaskStatus → CancelReply

-- Every write of other threads goes through the one compare, so `others n` is all that they do to
-- the database between the read and the write of a round with `n` rounds left.
module _ (c : Config) (wanted : TaskStatus → Bool) (others : ℕ → Db → Db) (i : ℕ) where
  abbrev pub interrupted : ℕ → Scheduler → Scheduler
  interrupted n s = record s { db = others n s.db }

  abbrev pub finish_cancel : Task → Scheduler → Scheduler
  finish_cancel t s = cancel_remote c t (free_allocation t (on_task_terminal c t "cancelled" s))

  abbrev final_reply : Option Task → CancelReply
  final_reply none = not_found
  final_reply (some t) = kept t.status concurrent_transition

  unfoldable pub cancel_rounds : ℕ → Scheduler → Scheduler × CancelReply
  unfolding update_task_if_status get_task
  cancel_rounds zero s = (s, final_reply (get_task s.db i))
  cancel_rounds (suc n) s = elim (get_task s.db i) [
    | none ↦ (s, not_found)
    | some t ↦ elim (is_cancellable t.status && wanted t.status) [
      | false ↦ (s, kept t.status status_mismatch)
      | true ↦
          let later = interrupted n s in
          let (db, won) =
            update_task_if_status i (same_status t.status) (set_cancelled s.clock) later.db in
          elim won [
            | false ↦ cancel_rounds n (record later { db = db })
            | true ↦ (finish_cancel t (record later { db = db }), cancelled_from t.status)
          ]
    ]
  ]

  unfoldable pub request_cancel_task : Scheduler → Scheduler × CancelReply
  unfolding cancel_rounds
  request_cancel_task s = cancel_rounds 4 s

module _ (c : Config) (wanted : TaskStatus → Bool) (needle : Text) where
  abbrev matches : Task → Bool
  matches t = wanted t.status && (is_empty needle || contains (lower (codes t.name)) needle)

  abbrev insert_id : ℕ → List ℕ → List ℕ
  insert_id i [] = i ∷ []
  insert_id i (j ∷ js) = let rest = insert_id i js in if leb i j then i ∷ j ∷ js else j ∷ rest

  abbrev cancelled_id : ℕ → CancelReply → List ℕ → List ℕ
  cancelled_id i (cancelled_from t) ids = insert_id i ids
  cancelled_id i _ ids = ids

  abbrev cancel_each : List Task → Scheduler → Scheduler × List ℕ
  cancel_each [] s = (s, [])
  cancel_each (t ∷ ts) s =
      if matches t
      then (let (s', reply) = request_cancel_task c wanted (λ n db. db) t.id s in
          let (s'', ids) = cancel_each ts s' in (s'', cancelled_id t.id reply ids))
      else cancel_each ts s

-- No other thread writes in between. `statuses or {…}` is the caller's: the set is given.
unfoldable pub cancel_tasks :
    Config → (TaskStatus → Bool) → Text → ℕ → Scheduler → Scheduler × List ℕ
unfolding request_cancel_task contains strip lower
cancel_tasks c wanted name_contains limit s =
    cancel_each c wanted (lower (strip name_contains)) (take limit s.db.tasks) s
