-- ===== src/Prelude/Strings.antt =====
-- Texts as lists of code points, and the `str` methods that the program uses on them.
use Prim.Native.Nat.{ℕ, zero, suc, ◌+◌, ◌/◌, ◌%◌}
use Prim.Native.Char.{code}
use Prim.Native.String.{String, compare, slice, ◌++◌ as append_text}
use mathlib.Core.Path.{◌≡◌, refl}
use mathlib.Core.Bool.{Bool, true, false, ◌||◌, ◌&&◌}
use mathlib.Core.List.{List, [], ◌∷◌, ◌++◌, map}
use native.Mathlib.Omega.{arith}
use text.Mathlib.Text.{◌==◌ as str_eq, is_lt}
use text.Mathlib.TextEquality.{eq_iff}
use slurm_scheduler.Prelude.Tests.{if◌then◌else◌, ◌==◌, leb}

abbrev pub Text : Type 0
Text = List ℕ

abbrev pub codes : String → Text
codes String.[] = []
codes (String.◌∷◌ c s) = code c ∷ codes s

abbrev pub text_eq : Text → Text → Bool
text_eq [] [] = true
text_eq [] (d ∷ t) = false
text_eq (c ∷ s) [] = false
text_eq (c ∷ s) (d ∷ t) = c == d && text_eq s t

-- `str.isspace` on one code point.
unfoldable pub is_space : ℕ → Bool
is_space c =
    (leb 9 c && leb c 13)
    || (leb 28 c && leb c 32)
    || c == 133
    || c == 160
    || c == 5760
    || (leb 8192 c && leb c 8202)
    || (leb 8232 c && leb c 8233)
    || c == 8239
    || c == 8287
    || c == 12288

unfoldable pub lstrip : Text → Text
unfolding is_space
lstrip [] = []
lstrip (c ∷ s) = if is_space c then lstrip s else c ∷ s

abbrev keep_end : ℕ → Text → Text
keep_end c [] = if is_space c then [] else c ∷ []
keep_end c (d ∷ r) = c ∷ d ∷ r

unfoldable pub rstrip : Text → Text
unfolding is_space
rstrip [] = []
rstrip (c ∷ s) = keep_end c (rstrip s)

unfoldable pub strip : Text → Text
unfolding lstrip rstrip
strip s = rstrip (lstrip s)

-- `not text.strip()`
unfoldable pub is_blank : String → Bool
unfolding strip
is_blank s = text_eq (strip (codes s)) []

-- `str.lower` on the ASCII letters; other code points are left as they are.
unfoldable pub lower : Text → Text
lower = map (λ c. if leb b'A' c && leb c b'Z' then c + 32 else c)

unfoldable pub starts_with : Text → Text → Bool
starts_with s [] = true
starts_with [] (d ∷ t) = false
starts_with (c ∷ s) (d ∷ t) = c == d && starts_with s t

-- `needle in text`
unfoldable pub contains : Text → Text → Bool
unfolding starts_with
contains [] t = starts_with [] t
contains (c ∷ s) t = starts_with (c ∷ s) t || contains s t

abbrev cons_head : ℕ → List Text → List Text
cons_head c [] = (c ∷ []) ∷ []
cons_head c (w ∷ ws) = (c ∷ w) ∷ ws

-- `text.split(sep)` for a separator of one character.
unfoldable pub split_on : ℕ → Text → List Text
split_on sep [] = [] ∷ []
split_on sep (c ∷ s) = let rest = split_on sep s in if c == sep then [] ∷ rest else cons_head c rest

-- The decimal digits of a number, with one round of fuel for each digit.
abbrev digits : ℕ → ℕ → String
digits zero n = ""
digits (suc f) n =
    let more = digits f (n / 10) in
    append_text (if leb 10 n then more else "") (slice "0123456789" (n % 10) (n % 10 + 1))

-- `str(n)`. A number has at most as many digits as its own value, and one for 0.
unfoldable pub show : ℕ → String
show n = digits (suc n) n

-- An f-string is the concatenation of its pieces.
unfoldable pub format : List String → String
format [] = ""
format (s ∷ rest) = append_text s (format rest)

-- `s[:n]`
abbrev pub text_prefix : ℕ → String → String
text_prefix n s = slice s 0 n

-- `s in xs` for a list or a set of strings.
abbrev pub mem_str : String → List String → Bool
mem_str s [] = false
mem_str s (x ∷ xs) = str_eq s x || mem_str s xs

abbrev insert_str : String → List String → List String
insert_str s [] = s ∷ []
insert_str s (x ∷ xs) =
    let rest = insert_str s xs in
    if str_eq s x then x ∷ xs else if is_lt (compare s x) then s ∷ x ∷ xs else x ∷ rest

-- `sorted(set(xs))`, by code points.
unfoldable pub sorted_set : List String → List String
sorted_set [] = []
sorted_set (x ∷ xs) = insert_str x (sorted_set xs)

mem_str-insert_str :
    (s x : String) (xs : List String) → mem_str s (insert_str x xs) ≡ (str_eq s x || mem_str s xs)
mem_str-insert_str s x [] = refl
mem_str-insert_str s x (y ∷ ys) =
    ground (arith, mem_str-insert_str s x ys, eq_iff x y, eq_iff s x, eq_iff s y)

pub mem_str-sorted_set : (s : String) (xs : List String) → mem_str s (sorted_set xs) ≡ mem_str s xs
unfolding sorted_set
mem_str-sorted_set s [] = refl
mem_str-sorted_set s (x ∷ xs) =
    ground (arith, mem_str-sorted_set s xs, mem_str-insert_str s x (sorted_set xs))

pub mem_str-append :
    (s : String) (xs ys : List String) → mem_str s (xs ++ ys) ≡ (mem_str s xs || mem_str s ys)
mem_str-append s [] ys = refl
mem_str-append s (x ∷ xs) ys = ground (arith, mem_str-append s xs ys)

show_example :
    text_eq (codes (format ("after " ∷ show 1207 ∷ "s" ∷ []))) (codes "after 1207s") ≡ true
unfolding show format
show_example = refl

strip_example : text_eq (lower (strip (codes "  Warm Pool "))) (codes "warm pool") ≡ true
unfolding strip lower
strip_example = refl

contains_example : contains (codes "gpu warm pool x") (codes "warm pool") ≡ true
unfolding contains
contains_example = refl
