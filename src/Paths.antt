-- ===== src/Paths.antt =====
-- The paths of src/index/build.rs: which are refused, and the components of those that are not. A
-- path is a list of bytes.
pub mod Normal
pub mod Safe
use zipfs.Base.{
  ℕ, ◌+◌, Bool, true, false, not, ◌||◌, ◌&&◌, Option, none, some, List, [], ◌∷◌, ◌++◌, ltb, leb,
  ◌==◌, if◌then◌else◌, length,
}

abbrev pub slash : ℕ
slash = 47

abbrev pub backslash : ℕ
backslash = 92

abbrev pub colon : ℕ
colon = 58

abbrev pub dot : ℕ
dot = 46

abbrev pub max_depth : ℕ
max_depth = 256

abbrev pub max_component : ℕ
max_component = 255

-- Why a path is refused, for the source's messages.
pub data Reason : Type 0 where
  empty_path contains_nul absolute_path drive_prefix escapes component_too_long too_deep
        no_components :
      Reason

unfoldable pub is_empty : List ℕ → Bool
is_empty [] = true
is_empty (b ∷ bs) = false

unfoldable pub contains : ℕ → List ℕ → Bool
contains a [] = false
contains a (b ∷ bs) = let rest = contains a bs in b == a || rest

-- `path.split(|&b| b == b'/')`: there is always a first piece.
unfoldable pub push_first : ℕ → List (List ℕ) → List (List ℕ)
push_first b [] = (b ∷ []) ∷ []
push_first b (c ∷ cs) = (b ∷ c) ∷ cs

unfoldable pub split : List ℕ → List (List ℕ)
unfolding push_first
split [] = [] ∷ []
split (b ∷ bs) = let rest = split bs in if b == slash then [] ∷ rest else push_first b rest

unfoldable pub is_dot : List ℕ → Bool
is_dot (a ∷ []) = a == dot
is_dot _ = false

unfoldable pub is_dot_dot : List ℕ → Bool
is_dot_dot (a ∷ b ∷ []) = a == dot && b == dot
is_dot_dot _ = false

unfoldable pub is_meaningful : List ℕ → Bool
unfolding is_empty is_dot
is_meaningful c = not (is_empty c) && not (is_dot c)

unfoldable pub filter : (List ℕ → Bool) → List (List ℕ) → List (List ℕ)
filter p [] = []
filter p (c ∷ cs) = let rest = filter p cs in if p c then c ∷ rest else rest

unfoldable pub components : List ℕ → List (List ℕ)
unfolding split filter is_meaningful
components path = filter is_meaningful (split path)

-- The loop of `reject_reason` over the components.
unfoldable pub reject_component : ℕ → List (List ℕ) → Option Reason
unfolding is_dot_dot
reject_component depth [] = if depth == 0 then some no_components else none
reject_component depth (c ∷ cs) =
    let rest = reject_component (depth + 1) cs in
    if is_dot_dot c
    then some escapes
    else if ltb max_component (length c)
    then some component_too_long
    else if ltb max_depth (depth + 1)
    then some too_deep
    else rest

unfoldable pub is_alphabetic : ℕ → Bool
is_alphabetic b = (leb 65 b && leb b 90) || (leb 97 b && leb b 122)

unfoldable pub is_absolute : List ℕ → Bool
is_absolute [] = false
is_absolute (b ∷ bs) = b == slash || b == backslash

unfoldable pub has_drive : List ℕ → Bool
unfolding is_alphabetic
has_drive (a ∷ b ∷ bs) = b == colon && is_alphabetic a
has_drive _ = false

unfoldable pub reject_reason : List ℕ → Option Reason
unfolding is_empty contains is_absolute has_drive reject_component components
reject_reason path =
    if is_empty path
    then some empty_path
    else if contains 0 path
    then some contains_nul
    else if is_absolute path
    then some absolute_path
    else if has_drive path
    then some drive_prefix
    else reject_component 0 (components path)

-- The loop of `normalize_path`, from what was written so far.
unfoldable pub normalize_onto : List ℕ → List (List ℕ) → List ℕ
unfolding is_empty
normalize_onto normalized [] = normalized
normalize_onto normalized (c ∷ cs) =
    normalize_onto (if is_empty normalized then c else normalized ++ slash ∷ c) cs

unfoldable pub normalize_path : List ℕ → List ℕ
unfolding normalize_onto components
normalize_path path = normalize_onto [] (components path)
