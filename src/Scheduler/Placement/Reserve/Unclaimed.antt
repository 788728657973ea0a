-- ===== src/Scheduler/Placement/Reserve/Unclaimed.antt =====
-- A reservation that is refused, and what it leaves behind.
use slurm_scheduler.Config.{Config}
use slurm_scheduler.Scheduler.{Scheduler}
