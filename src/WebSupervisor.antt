-- ===== src/WebSupervisor.antt =====
-- slurm_scheduler/web_supervisor.py: the gate that turns failed probes of a listener into one verdict,
-- and the loop of the parent process.
pub mod Threshold
use slurm_scheduler.Prelude.{
  ℕ, zero, suc, ◌+◌, max, Bool, true, false, not, ◌&&◌, ◌||◌, Option, none, some, List, [], ◌∷◌,
  leb, if◌then◌else◌,
}

pub record ListenerFailureGate : Type 0 where
  pub threshold : ℕ
  pub consecutive_failures : ℕ
  pub was_healthy : Bool

abbrev pub new_gate : ℕ → ListenerFailureGate
new_gate threshold = record { threshold = threshold; consecutive_failures = 0; was_healthy = false }

unfoldable pub observe : Bool → ListenerFailureGate → ListenerFailureGate × Bool
observe true g = (record g { was_healthy = true; consecutive_failures = 0 }, false)
observe false g = (
  record g { consecutive_failures = g.consecutive_failures + 1 },
  g.was_healthy && leb (max 1 g.threshold) (g.consecutive_failures + 1),
)

-- What one round of the loop sees: whether a stop was asked for, the exit code of a worker that has
-- ended, its age, the answer of the probe, and whether a stop was asked for by its end.
pub record Round : Type 0 where
  pub stop_requested : Bool
  pub exit_code : Option ℕ
  pub age : ℕ
  pub healthy : Bool
  pub stop_after : Bool

pub data Verdict : Type 0 where
  stopped : Verdict
  listener_failed : Verdict
  worker_exited : ℕ → Verdict
  watching : ListenerFailureGate → Verdict

module _ (startup_grace_seconds failure_threshold : ℕ) where
  -- A listener that was never healthy fails by the same count, once the grace is over.
  unfoldable pub probe_round : Round → ListenerFailureGate → ListenerFailureGate × Bool
  unfolding observe
  probe_round r g =
      if r.healthy
      then ((observe true g).0, false)
      else if leb startup_grace_seconds r.age
      then (let (g', failed) = observe false g in
          (g', failed || (not g'.was_healthy && leb failure_threshold g'.consecutive_failures)))
      else (g, false)

  -- `watching` where the rounds given are over before the loop is.
  unfoldable pub run : List Round → ListenerFailureGate → Verdict
  unfolding probe_round
  run [] g = watching g
  run (r ∷ rs) g = if r.stop_requested then stopped else (elim r.exit_code [
    | some code ↦ if r.stop_after then stopped else worker_exited code
    | none ↦ elim (probe_round r g).1 [
      | true ↦ if r.stop_after then stopped else listener_failed
      | false ↦ run rs (probe_round r g).0
    ]
  ])

unfoldable pub exit_status : Verdict → Option ℕ
exit_status stopped = some 0
exit_status listener_failed = some 70
exit_status (worker_exited code) = some code
exit_status (watching g) = none
