-- ===== src/Models.antt =====
-- slurm_scheduler/models.py: the status enumerations and the normalised spellings.
use slurm_scheduler.Prelude.{
  Option, none, some, String, codes, text_eq, strip, lower, is_empty, ◌||◌, if◌then◌else◌,
}

pub data JobStatus : Type 0 where
  queued submitting submitted running completed failed cancelled : JobStatus

pub data AllocationStatus : Type 0 where
  pending warm active draining closing closed failed : AllocationStatus

pub data TaskStatus : Type 0 where
  queued attaching running completed failed cancelled : TaskStatus

pub data SchedulingProfile : Type 0 where
  standard fea_bursty : SchedulingProfile

pub data NodeNamePolicy : Type 0 where
  preferred strict : NodeNamePolicy

pub data AedtBackend : Type 0 where
  standalone pooled : AedtBackend

-- `none` is the `ValueError`.
unfoldable pub normalize_aedt_backend : String → Option AedtBackend
unfolding strip lower
normalize_aedt_backend value =
    let raw = lower (strip (codes value)) in
    if is_empty raw || text_eq raw (codes "standalone")
    then some AedtBackend.standalone
    else if text_eq raw (codes "pooled")
    then some AedtBackend.pooled
    else none

unfoldable pub normalize_scheduling_profile : String → SchedulingProfile
unfolding strip lower
normalize_scheduling_profile value =
    if text_eq (lower (strip (codes value))) (codes "fea_bursty")
    then SchedulingProfile.fea_bursty
    else SchedulingProfile.standard

-- The outer `none` is the `ValueError`, the inner one the empty text (inherit the default).
unfoldable pub normalize_node_name_policy : String → Option (Option NodeNamePolicy)
unfolding strip lower
normalize_node_name_policy value =
    let raw = lower (strip (codes value)) in
    if is_empty raw
    then some none
    else if text_eq raw (codes "preferred")
    then some (some NodeNamePolicy.preferred)
    else if text_eq raw (codes "strict")
    then some (some NodeNamePolicy.strict)
    else none
