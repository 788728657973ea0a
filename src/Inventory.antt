-- ===== src/Inventory.antt =====
-- slurm_scheduler/inventory.py: the spelling of GPU models.
pub mod Laws
use slurm_scheduler.Prelude.{
  ℕ, ◌≡◌, refl, Bool, true, false, not, ◌&&◌, ◌||◌, List, [], ◌∷◌, String, Text, codes, text_eq,
  is_space, strip, lower, contains, is_empty, any, keep, leb, ◌==◌, if◌then◌else◌,
}

abbrev pub is_word : ℕ → Bool
is_word c = (leb b'a' c && leb c b'z') || (leb b'0' c && leb c b'9')

-- `re.sub(r"[^a-z0-9]+", "", model.strip().lower())`
unfoldable pub clean_model : Text → Text
unfolding strip lower
clean_model m = keep is_word (lower (strip m))

unfoldable pub model_name : Text → Text
unfolding contains
model_name raw =
    if is_empty raw
    then []
    else if contains raw (codes "6000") && contains raw (codes "ada")
    then codes "a6000ada"
    else if contains raw (codes "a6000")
        || text_eq raw (codes "rtxa6000")
        || text_eq raw (codes "nvidiaa6000")
    then codes "a6000"
    else if contains raw (codes "3090")
    then codes "rtx3090"
    else if text_eq raw (codes "a10")
        || text_eq raw (codes "rtxa10")
        || text_eq raw (codes "nvidiaa10")
    then codes "a10"
    else raw

unfoldable pub normalize_gpu_model : Text → Text
unfolding clean_model model_name
normalize_gpu_model m = model_name (clean_model m)

abbrev is_separator : ℕ → Bool
is_separator c = is_space c || c == b',' || c == b';' || c == b'/' || c == b'|'

abbrev join_word : ℕ → List Text → List Text
join_word c [] = (c ∷ []) ∷ []
join_word c (w ∷ ws) = (c ∷ w) ∷ ws

-- `re.split(r"[\s,;/|]+", models)`. A run of separators gives empty words here and none or one
-- there; the caller drops them.
unfoldable pub split_models : Text → List Text
unfolding is_space
split_models [] = [] ∷ []
split_models (c ∷ s) =
    let rest = split_models s in if is_separator c then [] ∷ rest else join_word c rest

abbrev pub mem_text : Text → List Text → Bool
mem_text t xs = any (λ x. text_eq t x) xs

abbrev add_models : List Text → List Text → List Text
add_models found [] = found
add_models found (w ∷ ws) =
    let model = normalize_gpu_model w in
    add_models (if is_empty model || mem_text model found then found else add_last model found) ws
  where
    add_last : Text → List Text → List Text
    add_last m [] = m ∷ []
    add_last m (x ∷ xs) = x ∷ add_last m xs

abbrev or_whole : Text → List Text → List Text
or_whole models [] =
    let model = normalize_gpu_model models in if is_empty model then [] else model ∷ []
or_whole models (m ∷ ms) = m ∷ ms

unfoldable pub gpu_model_candidates : Text → List Text
unfolding split_models normalize_gpu_model
gpu_model_candidates models = or_whole models (add_models [] (split_models models))

-- A model with its vendor, spaces and dashes is one of the four known names.
spelling : text_eq (normalize_gpu_model (codes " NVIDIA RTX-6000 Ada ")) (codes "a6000ada") ≡ true
unfolding normalize_gpu_model
spelling = refl
