-- ===== src/Retention.antt =====
-- The marker paths that protect an artifact from pruning (slurm_scheduler/retention.py), with the
-- functions of posixpath that they use, on texts as lists of code points.
use slurm_scheduler.Prelude.{
  ℕ, zero, suc, ◌≡◌, refl, Bool, true, false, not, ◌&&◌, ◌||◌, Option, none, some, List, [], ◌∷◌,
  ◌++◌, Text, text_eq, if◌then◌else◌, ◌==◌, any, length, codes, strip, split_on, starts_with,
}
mod Paths
pub mod Walk

-- `posixpath.normpath`: one component on the stack of those before it, the newest first.
abbrev push_part : Bool → Text → List Text → List Text
push_part absolute part [] =
    if text_eq part [] || text_eq part (codes ".")
    then []
    else if text_eq part (codes "..") && absolute
    then []
    else part ∷ []
push_part absolute part (top ∷ stack) =
    if text_eq part [] || text_eq part (codes ".")
    then top ∷ stack
    else if not (text_eq part (codes "..")) || text_eq top (codes "..")
    then part ∷ top ∷ stack
    else stack

abbrev push_parts : Bool → List Text → List Text → List Text
push_parts absolute [] stack = stack
push_parts absolute (part ∷ parts) stack = push_parts absolute parts (push_part absolute part stack)

-- `"/".join(parts)`, from the stack of the parts.
abbrev join_parts : List Text → Text → Text
join_parts [] rest = rest
join_parts (part ∷ []) rest = part ++ rest
join_parts (part ∷ more ∷ stack) rest = join_parts (more ∷ stack) (b'/' ∷ part ++ rest)

-- POSIX keeps two leading slashes, and takes more of them for one.
abbrev leading_slashes : Text → Text
leading_slashes path =
    if starts_with path (codes "//") && not (starts_with path (codes "///"))
    then codes "//"
    else if starts_with path (codes "/")
    then codes "/"
    else []

abbrev or_text : Text → Text → Text
or_text [] other = other
or_text (c ∷ s) other = c ∷ s

unfoldable pub normpath : Text → Text
unfolding starts_with split_on
normpath path =
    let lead = leading_slashes path in
    let stack = push_parts (not (text_eq lead [])) (split_on b'/' path) [] in
    or_text (lead ++ join_parts stack []) (codes ".")

abbrev is_control : ℕ → Bool
is_control c = c == 0 || c == 10 || c == 13 || c == 9

-- A path that is blank or holds a control character is refused.
unfoldable pub normalized_remote_path : Text → Option Text
unfolding strip normpath
normalized_remote_path value =
    let path = strip value in
    if text_eq path [] || any is_control path
    then none
    else let normalized = normpath path in
      if text_eq normalized [] || text_eq normalized (codes ".") then none else some normalized

-- `posixpath.dirname`: what stands up to the last slash, without its slashes at the end unless
-- there is nothing else in it.
abbrev pub up_to : ℕ → Text → Text
up_to c [] = if c == b'/' then c ∷ [] else []
up_to c (d ∷ r) = c ∷ d ∷ r

abbrev pub up_to_slash : Text → Text
up_to_slash [] = []
up_to_slash (c ∷ s) = up_to c (up_to_slash s)

abbrev pub drop_slash : ℕ → Text → Text
drop_slash c [] = if c == b'/' then [] else c ∷ []
drop_slash c (d ∷ r) = c ∷ d ∷ r

abbrev pub rstrip_slashes : Text → Text
rstrip_slashes [] = []
rstrip_slashes (c ∷ s) = drop_slash c (rstrip_slashes s)

abbrev pub all_slashes : Text → Bool
all_slashes [] = true
all_slashes (c ∷ s) = c == b'/' && all_slashes s

unfoldable pub dirname : Text → Text
dirname path = let head = up_to_slash path in if all_slashes head then head else rstrip_slashes head

abbrev ends_with_slash : Text → Bool
ends_with_slash [] = false
ends_with_slash (c ∷ []) = c == b'/'
ends_with_slash (c ∷ d ∷ s) = ends_with_slash (d ∷ s)

-- `posixpath.join(directory, ".slurm-scheduler-preserve.json")`
unfoldable pub marker_path : Text → Text
marker_path directory =
    let name = codes ".slurm-scheduler-preserve.json" in
    if text_eq directory [] || ends_with_slash directory
    then directory ++ name
    else directory ++ b'/' ∷ name

pub data Markers : Type 0 where
  markers : List Text → Markers
  bad_path : Markers
  outside : Markers
  escaped : Markers
  ran_out : Markers

abbrev pub add_marker : Text → Markers → Markers
add_marker m (markers ms) = markers (m ∷ ms)
add_marker m bad_path = bad_path
add_marker m outside = outside
add_marker m escaped = escaped
add_marker m ran_out = ran_out

-- The loop came to an answer, an error among them.
abbrev pub is_answered : Markers → Bool
is_answered (markers ms) = true
is_answered bad_path = true
is_answered outside = true
is_answered escaped = true
is_answered ran_out = false

abbrev pub slash : Text
slash = b'/' ∷ []

abbrev pub prefix_of : Text → Text
prefix_of root = if text_eq root slash then slash else root ++ slash

-- The walk may not go on to this parent of the current directory.
unfoldable pub leaves : Text → Text → Text → Bool
unfolding starts_with
leaves root current parent =
    text_eq parent current
    || (not (text_eq root slash)
        && not (text_eq parent root)
        && not (starts_with parent (prefix_of root)))

-- The `while` loop, with one round of fuel for each directory.
unfoldable pub walk : Text → ℕ → Text → Markers
unfolding marker_path dirname leaves
walk root zero current = ran_out
walk root (suc fuel) current =
    let rest = walk root fuel (dirname current) in
    if text_eq current root
    then markers (marker_path current ∷ [])
    else if leaves root current (dirname current)
    then escaped
    else add_marker (marker_path current) rest

abbrev pub without_slashes : Text → Text
without_slashes path = or_text (rstrip_slashes path) slash

-- The directory of each round is shorter than the one before, so the artifact's length bounds
-- the rounds.
unfoldable pub from_paths : Text → Text → Markers
unfolding walk starts_with
from_paths root current =
    if text_eq current root || not (starts_with current (prefix_of root))
    then outside
    else walk root (suc (length current)) current

unfoldable pub both_paths : Option Text → Option Text → Markers
unfolding from_paths
both_paths none artifact = bad_path
both_paths (some root) none = bad_path
both_paths (some root) (some current) = from_paths (without_slashes root) (without_slashes current)

unfoldable pub workspace_prune_protection_marker_paths : Text → Text → Markers
unfolding both_paths normalized_remote_path
workspace_prune_protection_marker_paths workspace artifact =
    both_paths (normalized_remote_path workspace) (normalized_remote_path artifact)

-- A directory is the workspace's root or below it.
unfoldable pub is_within : Text → Text → Bool
unfolding starts_with
is_within root directory = text_eq directory root || starts_with directory (prefix_of root)
