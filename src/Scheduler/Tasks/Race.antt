-- ===== src/Scheduler/Tasks/Race.antt =====
-- A cancel against the writes of other threads.
use slurm_scheduler.Prelude.{
  ℕ, zero, suc, ◌+◌, ◌≡◌, refl, ◌≢◌, sym, ap, subst, arith, Bool, true, false, ◌&&◌, none, some,
  map, any, ◌==◌, if◌then◌else◌, Bool-cases, Option-cases, inl, inr, ◌≤◌,
}
use slurm_scheduler.Models.{TaskStatus}
use slurm_scheduler.Config.{Config}
use slurm_scheduler.Store.{Task, Db}
use slurm_scheduler.Store.Queries.{get_task, update_task_if_status}
use slurm_scheduler.Store.Laws.{lost-writes_nothing}
use slurm_scheduler.Scheduler.{Scheduler}
use slurm_scheduler.Scheduler.Tasks.{set_cancelled}
use slurm_scheduler.Scheduler.Tasks.Cancel.{
  is_cancellable, same_status, CancelReply, not_found, kept, cancelled_from, status_mismatch,
  concurrent_transition, interrupted, finish_cancel, cancel_rounds, request_cancel_task,
}

module _ (c : Config) (wanted : TaskStatus → Bool) (others : ℕ → Db → Db) (i : ℕ) where
  -- What the compare-and-set finds when a round reads `t` and the others write before it.
  abbrev pub still_there : ℕ → Task → Scheduler → Bool
  still_there n t s = any (λ u. u.id == i && same_status t.status u.status) (others n s.db).tasks

  abbrev pub struck : ℕ → Task → Scheduler → Scheduler
  struck n t s = record s {
    db = (update_task_if_status i (same_status t.status) (set_cancelled s.clock) (others n s.db)).0;
  }

  -- How a cancel with some rounds left ends. A round is retried after a lost race, and then no row
  -- had the status that the round had read.
  pub data Ends : ℕ → Scheduler → Scheduler × CancelReply → Type 0 where
    missing : {n : ℕ} {s : Scheduler} → get_task s.db i ≡ none → Ends n s (s, not_found)
    unwanted :
        {n : ℕ} {s : Scheduler} (t : Task)
        → get_task s.db i ≡ some t
        → (is_cancellable t.status && wanted t.status) ≡ false
        → Ends n s (s, kept t.status status_mismatch)
    exhausted :
        {s : Scheduler} (t : Task)
        → get_task s.db i ≡ some t
        → Ends 0 s (s, kept t.status concurrent_transition)
    won :
        {n : ℕ} {s : Scheduler} (t : Task)
        → get_task s.db i ≡ some t
        → (is_cancellable t.status && wanted t.status) ≡ true
        → still_there n t s ≡ true
        → Ends (suc n) s (finish_cancel c wanted others i t (struck n t s), cancelled_from t.status)
    retried :
        {n : ℕ} {s : Scheduler} {r : Scheduler × CancelReply} (t : Task)
        → get_task s.db i ≡ some t
        → still_there n t s ≡ false
        → Ends n (interrupted c wanted others i n s) r
        → Ends (suc n) s r

  lost_round :
      (n : ℕ) (t : Task) (s : Scheduler)
      → still_there n t s ≡ false
      → struck n t s ≡ interrupted c wanted others i n s
  unfolding update_task_if_status
  lost_round n t s h =
      ap (λ ts. record s { db = record (others n s.db) { tasks = ts } })
        (lost-writes_nothing i (same_status t.status) (set_cancelled s.clock) (others n s.db).tasks
          h)

  cancel_rounds-Ends : (n : ℕ) (s : Scheduler) → Ends n s (cancel_rounds c wanted others i n s)
  unfolding cancel_rounds
  cancel_rounds-Ends zero s = elim (Option-cases (get_task s.db i)) [
    | inl e ↦ rw e (missing e)
    | inr (t, e) ↦ rw e (exhausted t e)
  ]
  cancel_rounds-Ends (suc n) s = elim (Option-cases (get_task s.db i)) [
    | inl e ↦ rw (e, cancel_rounds) (missing e)
    | inr (t, e) ↦ elim (Bool-cases (is_cancellable t.status && wanted t.status)) [
      | inl asked ↦ elim (Bool-cases (still_there n t s)) [
        | inl there ↦ rw (e, asked, there, cancel_rounds) (won t e asked there)
        | inr gone ↦
            rw (e, asked, gone, cancel_rounds)
              (retried t e gone (
                subst
                  (λ x.
                    Ends n (interrupted c wanted others i n s)
                      (cancel_rounds c wanted others i n x))
                  (sym (lost_round n t s gone))
                  (cancel_rounds-Ends n (interrupted c wanted others i n s))))
      ]
      | inr other ↦ rw (e, other, cancel_rounds) (unwanted t e other)
    ]
  ]

  -- What the other threads do to the database in the first rounds of those that are left.
  abbrev pub replay : ℕ → ℕ → Db → Db
  replay zero n db = db
  replay (suc k) zero db = db
  replay (suc k) (suc n) db = replay k n (others n db)

  Ends-kept :
      {n : ℕ} {s : Scheduler} {r : Scheduler × CancelReply}
      → Ends n s r
      → ((status : TaskStatus) → r.1 ≢ cancelled_from status)
      → (k : ℕ) × (k ≤ n) × (r.0 ≡ record s { db = replay k n s.db })
  Ends-kept (missing e) h = (0, omega arith, refl)
  Ends-kept (unwanted t e other) h = (0, omega arith, refl)
  Ends-kept (exhausted t e) h = (0, omega arith, refl)
  Ends-kept (won t e asked there) h = absurd (h t.status refl)
  Ends-kept (retried t e gone rest) h =
      let (k, few, same) = Ends-kept rest h in (suc k, omega arith, same)

  -- The rows that stand at the status when it is written are cancelled, and no other row changes.
  abbrev pub cancelled_rows : TaskStatus → ℕ → Db → Db
  cancelled_rows status now db = record db {
    tasks =
        map (λ u. if u.id == i && same_status status u.status then set_cancelled now u else u)
          db.tasks;
  }

  -- A win after `k` lost rounds: the row that was read, the turn of the others, and the write.
  pub record Won (n k : ℕ) (status : TaskStatus) (s : Scheduler) (r : Scheduler × CancelReply)
      : Type 0 where
    pub seen : Task
    pub turns : k + 1 ≤ n
    pub read : get_task (replay k n s.db) i ≡ some seen
    pub same : seen.status ≡ status
    pub asked : (is_cancellable status && wanted status) ≡ true
    pub there :
        any (λ u. u.id == i && same_status status u.status) (replay (suc k) n s.db).tasks ≡ true
    pub written :
        r.0
        ≡ finish_cancel c wanted others i seen (record s {
          db = cancelled_rows status (replay k n s.db).clock (replay (suc k) n s.db);
        })

  Ends-Won :
      {n : ℕ} {s : Scheduler} {r : Scheduler × CancelReply} {status : TaskStatus}
      → Ends n s r
      → r.1 ≡ cancelled_from status
      → (k : ℕ) × Won n k status s r
  unfolding update_task_if_status
  Ends-Won (missing e) h = cc
  Ends-Won (unwanted t e other) h = cc
  Ends-Won (exhausted t e) h = cc
  Ends-Won {n = suc n} {s = s} {status = status} (won t e asked there) h =
      let same : t.status ≡ status = cc in
      (
        0,
        record {
          seen = t;
          turns = omega arith;
          read = e;
          same = same;
          asked = subst (λ x. (is_cancellable x && wanted x) ≡ true) same asked;
          there =
              subst
                (λ x. any (λ u. u.id == i && same_status x u.status) (others n s.db).tasks ≡ true)
                same there;
          written =
              ap
                (λ x.
                  finish_cancel c wanted others i t
                    (record s { db = cancelled_rows x s.clock (others n s.db) }))
                same;
        },
      )
  Ends-Won (retried t e gone rest) h =
      let (k, w) = Ends-Won rest h in
      (
        suc k,
        record {
          seen = w.seen;
          turns = omega (arith, w.turns);
          read = w.read;
          same = w.same;
          asked = w.asked;
          there = w.there;
          written = w.written;
        },
      )

  -- A cancel that does not report a cancelled task leaves the state as the other threads left it, after
  -- at most four of their turns, and changes nothing itself.
  pub kept_writes_nothing :
      (s : Scheduler)
      → ((status : TaskStatus)
          → (request_cancel_task c wanted others i s).1 ≢ cancelled_from status)
      → (k : ℕ) × (k ≤ 4)
        × ((request_cancel_task c wanted others i s).0 ≡ record s { db = replay k 4 s.db })
  unfolding request_cancel_task
  kept_writes_nothing s h = Ends-kept (cancel_rounds-Ends 4 s) h

  -- A cancel that reports that it cancelled a task from some status was asked for that status. After at
  -- most three lost rounds it read a row of the task with it; when the other threads had had their next
  -- turn a row of the task still had that very status, and the outcome is the database as they had left
  -- it with the rows of the task at that status cancelled and no other row written, and then the end of
  -- the cancel.
  pub cancels_only_wanted :
      (s : Scheduler) (status : TaskStatus)
      → (request_cancel_task c wanted others i s).1 ≡ cancelled_from status
      → (k : ℕ) × Won 4 k status s (request_cancel_task c wanted others i s)
  unfolding request_cancel_task
  cancels_only_wanted s status h = Ends-Won (cancel_rounds-Ends 4 s) h
