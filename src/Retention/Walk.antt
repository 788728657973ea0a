-- ===== src/Retention/Walk.antt =====
-- The walk from an artifact up to its workspace ends, and every marker it names is within.
use slurm_scheduler.Prelude.{
  All, any, subst, Option, some, none, ◌||◌, starts_with, if◌then◌else◌, Bool, not, ap, sym, ℕ,
  zero, suc, ◌≡◌, refl, true, false, List, [], ◌∷◌, Text, text_eq, length, ◌<◌, arith, inl, inr,
  ◌⊎◌,
}
use slurm_scheduler.Retention.{
  dirname, walk, leaves, marker_path, is_within, escaped, markers, Markers, add_marker, is_answered,
  from_paths, prefix_of, both_paths, without_slashes, normalized_remote_path,
  workspace_prune_protection_marker_paths, bad_path, outside, ran_out,
}
use slurm_scheduler.Retention.Paths.{text_eq-path, text_eq_refl, dirname-shrinks, dirname-rooted}

leaves-stuck : (root p : Text) → dirname p ≡ p → leaves root p (dirname p) ≡ true
unfolding leaves
leaves-stuck root p h =
    ground (arith, text_eq_refl p, subst (λ q. text_eq q p ≡ true) (sym h) (text_eq_refl p))

goes_on : (root p : Text) → leaves root p (dirname p) ≡ false → length (dirname p) < length p
goes_on root p h = elim (dirname-shrinks p) [
  | inl e ↦ absurd (ground (arith, leaves-stuck root p e))
  | inr l ↦ l
]

leaves-is_within :
    (root p : Text)
    → is_within root p ≡ true
    → text_eq p root ≡ false
    → leaves root p (dirname p) ≡ false
    → is_within root (dirname p) ≡ true
unfolding leaves is_within
leaves-is_within root p w a l = ground (arith, dirname-rooted p)

abbrev pub Ends : Markers → Type 0
Ends m = ((ms : List Text) × (m ≡ markers ms)) ⊎ (m ≡ escaped)

add_marker-Ends : (m : Text) (w : Markers) → Ends w → Ends (add_marker m w)
add_marker-Ends m w (inl (ms, e)) = inl (m ∷ ms, ap (add_marker m) e)
add_marker-Ends m w (inr e) = inr (ap (add_marker m) e)

round-Ends :
    (at_root out : Bool) (m : Text) (w : Markers)
    → (out ≡ false → Ends w)
    → Ends (if at_root then markers (m ∷ []) else if out then escaped else add_marker m w)
round-Ends true out m w h = inl (m ∷ [], refl)
round-Ends false true m w h = inr refl
round-Ends false false m w h = add_marker-Ends m w (h refl)

-- With more fuel than the directory has characters, the walk comes to the root or is refused.
walk-Ends : (root : Text) (fuel : ℕ) (p : Text) → length p < fuel → Ends (walk root fuel p)
unfolding walk
walk-Ends root zero p h = absurd (omega arith)
walk-Ends root (suc fuel) p h =
    round-Ends (text_eq p root) (leaves root p (dirname p)) (marker_path p)
      (walk root fuel (dirname p))
      (λ e. walk-Ends root fuel (dirname p) (omega (arith, goes_on root p e)))

-- A marker is the marker of a directory of the workspace.
unfoldable pub IsBelow : Text → Text → Type 0
IsBelow root m = (d : Text) × (m ≡ marker_path d) × (is_within root d ≡ true)

-- The markers of a walk that came to its end: each is below the root, and the root's is there.
unfoldable pub Guards : Text → Markers → Type 0
Guards root (markers ms) = All (IsBelow root) ms × (any (text_eq (marker_path root)) ms ≡ true)
Guards root bad_path = Unit
Guards root outside = Unit
Guards root escaped = Unit
Guards root ran_out = Unit

add_marker-Guards :
    (root m : Text) (w : Markers) → IsBelow root m → Guards root w → Guards root (add_marker m w)
unfolding Guards
add_marker-Guards root m (markers ms) b (h, t) = ((b, h), ground (arith, t))
add_marker-Guards root m bad_path b h = h
add_marker-Guards root m outside b h = h
add_marker-Guards root m escaped b h = h
add_marker-Guards root m ran_out b h = h

round-Guards :
    (root p : Text) (at_root out : Bool) (w : Markers)
    → text_eq p root ≡ at_root
    → is_within root p ≡ true
    → (at_root ≡ false → out ≡ false → Guards root w)
    → Guards root (
        if at_root
        then markers (marker_path p ∷ [])
        else if out
        then escaped
        else add_marker (marker_path p) w)
unfolding Guards IsBelow
round-Guards root p true out w e b h = (
  ((p, refl, b), tt),
  let q = text_eq-path p root e in
      ground (
        arith,
        subst (λ d. text_eq (marker_path d) (marker_path p) ≡ true) q
            (text_eq_refl (marker_path p)),
      ),
)
round-Guards root p false true w e b h = tt
round-Guards root p false false w e b h =
    add_marker-Guards root (marker_path p) w (p, refl, b) (h refl refl)

walk-Guards :
    (root : Text) (fuel : ℕ) (p : Text) → is_within root p ≡ true → Guards root (walk root fuel p)
unfolding walk Guards
walk-Guards root zero p b = tt
walk-Guards root (suc fuel) p b =
    round-Guards root p (text_eq p root) (leaves root p (dirname p)) (walk root fuel (dirname p))
      refl b (λ a l. walk-Guards root fuel (dirname p) (leaves-is_within root p b a l))

within-of :
    (root p : Text)
    → (text_eq p root || not (starts_with p (prefix_of root))) ≡ false
    → is_within root p ≡ true
unfolding is_within
within-of root p h = ground arith

guarded :
    (root : Text) (refused : Bool) (w : Markers)
    → (refused ≡ false → Guards root w)
    → Guards root (if refused then outside else w)
unfolding Guards
guarded root true w h = tt
guarded root false w h = h refl

from_paths-is_answered : (root p : Text) → is_answered (from_paths root p) ≡ true
unfolding from_paths
from_paths-is_answered root p = elim (walk-Ends root (suc (length p)) p (omega arith)) [
  | inl (ms, e) ↦ ground (arith, e)
  | inr e ↦ ground (arith, e)
]

from_paths-Guards : (root p : Text) → Guards root (from_paths root p)
unfolding from_paths Guards
from_paths-Guards root p =
    guarded root (text_eq p root || not (starts_with p (prefix_of root)))
      (walk root (suc (length p)) p) (λ e. walk-Guards root (suc (length p)) p (within-of root p e))

both_paths-is_answered :
    (workspace artifact : Option Text) → is_answered (both_paths workspace artifact) ≡ true
unfolding both_paths
both_paths-is_answered none artifact = refl
both_paths-is_answered (some root) none = refl
both_paths-is_answered (some root) (some p) =
    from_paths-is_answered (without_slashes root) (without_slashes p)

both_paths-Guards :
    (root : Text) (artifact : Option Text)
    → Guards (without_slashes root) (both_paths (some root) artifact)
unfolding both_paths Guards
both_paths-Guards root none = tt
both_paths-Guards root (some p) = from_paths-Guards (without_slashes root) (without_slashes p)

-- The walk up from an artifact ends for all texts: `workspace_prune_protection_marker_paths`
-- answers with marker paths or with one of its errors, and never runs out of the fuel that the
-- artifact's length gives.
pub marker_walk_ends :
    (workspace artifact : Text)
    → is_answered (workspace_prune_protection_marker_paths workspace artifact) ≡ true
unfolding workspace_prune_protection_marker_paths
marker_walk_ends workspace artifact =
    both_paths-is_answered (normalized_remote_path workspace) (normalized_remote_path artifact)

-- When a workspace has a normal path and the marker paths of an artifact are found, each is the
-- marker of a directory that is the workspace's root or below it, and the root's own is there.
pub markers_stay_in_workspace :
    (workspace artifact root : Text) (ms : List Text)
    → normalized_remote_path workspace ≡ some root
    → workspace_prune_protection_marker_paths workspace artifact ≡ markers ms
    → All (IsBelow (without_slashes root)) ms
      × (any (text_eq (marker_path (without_slashes root))) ms ≡ true)
unfolding workspace_prune_protection_marker_paths Guards
markers_stay_in_workspace workspace artifact root ms h e = subst (Guards (without_slashes root)) e (
    subst (λ w. Guards (without_slashes root) (both_paths w (normalized_remote_path artifact)))
      (sym h) (both_paths-Guards root (normalized_remote_path artifact)))
