-- ===== src/Tests/Retention.antt =====
-- The marker paths of an artifact (slurm_scheduler/retention.py) at concrete paths.
use slurm_scheduler.Prelude.{◌≡◌, refl, true, List, [], ◌∷◌, Text, codes, All, any, text_eq}
use slurm_scheduler.Retention.{
  workspace_prune_protection_marker_paths, normalized_remote_path, normpath, dirname, is_answered,
  marker_path, markers, outside, bad_path,
}
use slurm_scheduler.Retention.Walk.{IsBelow, marker_walk_ends, markers_stay_in_workspace}

normpath_example : normpath (codes "///home//w/./a/../runs/") ≡ codes "/home/w/runs"
unfolding normpath
normpath_example = refl

dirname_example : dirname (codes "/home/w//runs") ≡ codes "/home/w"
unfolding dirname
dirname_example = refl

root_example : dirname (codes "/home") ≡ codes "/"
unfolding dirname
root_example = refl

outside_example :
    workspace_prune_protection_marker_paths (codes "/home/w") (codes "/home/w/../x") ≡ outside
unfolding workspace_prune_protection_marker_paths
outside_example = refl

blank_example : workspace_prune_protection_marker_paths (codes "/home/w") (codes " ") ≡ bad_path
unfolding workspace_prune_protection_marker_paths
blank_example = refl

abbrev workspace : Text
workspace = codes "/home/w/"

abbrev artifact : Text
artifact = codes "/home/w/runs/r1"

abbrev found : List Text
found =
    codes "/home/w/runs/r1/.slurm-scheduler-preserve.json"
    ∷ codes "/home/w/runs/.slurm-scheduler-preserve.json"
    ∷ codes "/home/w/.slurm-scheduler-preserve.json"
    ∷ []

found_example : workspace_prune_protection_marker_paths workspace artifact ≡ markers found
unfolding workspace_prune_protection_marker_paths
found_example = refl

marker_walk_ends_example :
    is_answered (workspace_prune_protection_marker_paths workspace artifact) ≡ true
marker_walk_ends_example = marker_walk_ends workspace artifact

markers_stay_in_workspace_example :
    All (IsBelow (codes "/home/w")) found
    × (any (text_eq (marker_path (codes "/home/w"))) found ≡ true)
unfolding normalized_remote_path workspace_prune_protection_marker_paths
markers_stay_in_workspace_example =
    markers_stay_in_workspace workspace artifact (codes "/home/w") found refl refl
