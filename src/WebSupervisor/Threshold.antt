-- ===== src/WebSupervisor/Threshold.antt =====
-- When the parent gives a worker up.
use slurm_scheduler.Prelude.{
  All, length, Bool-cases, inl, inr, none, false, true, arith, ◌≡◌, leb, ℕ, ◌+◌, ◌≤◌, List, [], ◌∷◌,
  if◌then◌else◌,
}
use slurm_scheduler.WebSupervisor.{
  ListenerFailureGate, observe, Round, listener_failed, probe_round, run,
}

-- The failed probes after the grace time, in the rounds since the last healthy probe.
abbrev pub streak : ℕ → ℕ → List Round → ℕ
streak grace n [] = n
streak grace n (r ∷ rs) =
    streak grace (if r.healthy then 0 else if leb grace r.age then n + 1 else n) rs

-- The rounds that the loop goes through until the verdict.
abbrev pub seen : ℕ → ℕ → List Round → ListenerFailureGate → List Round
seen grace threshold [] g = []
seen grace threshold (r ∷ rs) g =
    let (g', failed) = probe_round grace threshold r g in
    let rest = seen grace threshold rs g' in if failed then r ∷ [] else r ∷ rest

-- If the loop, in the rounds that are given, gives a worker up for its listener, with a gate whose threshold is the loop's and is
-- at least 1, then the probes that failed after the grace time since the last healthy one, with the
-- failures that the gate had counted, are as many as the threshold or more.
pub gives_up_after_threshold :
    (grace threshold : ℕ) (rs : List Round) (g : ListenerFailureGate)
    → 1 ≤ threshold
    → g.threshold ≡ threshold
    → run grace threshold rs g ≡ listener_failed
    → threshold ≤ streak grace g.consecutive_failures (seen grace threshold rs g)
unfolding run probe_round observe
gives_up_after_threshold grace threshold [] g pos same h = cc
gives_up_after_threshold grace threshold (r ∷ rs) g pos same h =
    ground
      (arith, gives_up_after_threshold grace threshold rs (probe_round grace threshold r g).0 pos)

-- A round in which the worker runs, is past the grace time, and cannot be reached.
abbrev pub IsDead : ℕ → Round → Type 0
IsDead grace r =
    (r.stop_requested ≡ false)
    × (r.exit_code ≡ none)
    × (r.healthy ≡ false)
    × (leb grace r.age ≡ true)
    × (r.stop_after ≡ false)

-- If the worker runs on, past the grace time, and cannot be reached in any of the rounds that are given,
-- and these with the failures that the gate has counted are as many as the threshold or more, then
-- the loop gives the worker up for its listener, whether it was ever healthy or not, if the threshold
-- is at least 1 and is the gate's own and the count is still below it.
pub dead_listener_gives_up :
    (grace threshold : ℕ) (rs : List Round) (g : ListenerFailureGate)
    → 1 ≤ threshold
    → g.threshold ≡ threshold
    → g.consecutive_failures + 1 ≤ threshold
    → threshold ≤ g.consecutive_failures + length rs
    → All (IsDead grace) rs
    → run grace threshold rs g ≡ listener_failed
unfolding run probe_round observe
dead_listener_gives_up grace threshold [] g pos same below enough dead = absurd (omega arith)
dead_listener_gives_up grace threshold (r ∷ rs) g pos same below enough
      ((going, alive, down, old, kept), dead) =
    let next = (observe false g).0 in
    elim (Bool-cases (leb threshold (g.consecutive_failures + 1))) [
      | inl reached ↦ ground (arith, going, alive, down, old, kept, reached)
      | inr short ↦ ground (
        arith,
        going,
        alive,
        down,
        old,
        short,
        dead_listener_gives_up grace threshold rs next pos same (ground arith) (ground arith) dead,
      )
    ]
