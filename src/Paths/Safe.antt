-- ===== src/Paths/Safe.antt =====
-- A path that is not refused has only components that can be names in the tree.
use zipfs.Base.{
  ℕ, ◌+◌, ◌≤◌, ◌≡◌, ◌≢◌, refl, ap, Bool, true, false, none, List, [], ◌∷◌, ◌==◌, length, Bool-cases,
  inl, inr, arith,
}
use zipfs.Paths.{
  slash, dot, max_depth, max_component, contains, split, push_first, filter, is_empty, is_dot,
  is_dot_dot, is_meaningful, components, reject_component, reject_reason,
}
use zipfs.Paths.Normal.{AllNames, components-AllNames}

-- A name that stays in its directory: it is not empty, not `.` and not `..`, it has no slash and no
-- NUL in it, and it is not longer than `NAME_MAX`.
pub record IsName (c : List ℕ) : Type 0 where
  pub some_bytes : c ≢ []
  pub not_dot : c ≢ dot ∷ []
  pub not_dot_dot : c ≢ dot ∷ dot ∷ []
  pub no_slash : contains slash c ≡ false
  pub no_nul : contains 0 c ≡ false
  pub short : length c ≤ max_component

abbrev pub AllIsName : List (List ℕ) → Type 0
AllIsName [] = Unit {0}
AllIsName (c ∷ cs) = IsName c × AllIsName cs

abbrev HaveNoNul : List (List ℕ) → Type 0
HaveNoNul [] = Unit {0}
HaveNoNul (c ∷ cs) = (contains 0 c ≡ false) × HaveNoNul cs

push_first-HaveNoNul :
    (b : ℕ) (cs : List (List ℕ)) → (b == 0) ≡ false → HaveNoNul cs → HaveNoNul (push_first b cs)
unfolding push_first contains
push_first-HaveNoNul b [] h n = (ground arith, tt)
push_first-HaveNoNul b (c ∷ cs) h (first, n) = (ground arith, n)

split-HaveNoNul : (path : List ℕ) → contains 0 path ≡ false → HaveNoNul (split path)
unfolding split contains
split-HaveNoNul [] h = (refl, tt)
split-HaveNoNul (b ∷ bs) h =
    let rest = split-HaveNoNul bs (ground arith) in
    elim (Bool-cases (b == slash)) [
      | inl e ↦ rw e (refl, rest)
      | inr e ↦ rw e (push_first-HaveNoNul b (split bs) (ground arith) rest)
    ]

filter-HaveNoNul : (p : List ℕ → Bool) (cs : List (List ℕ)) → HaveNoNul cs → HaveNoNul (filter p cs)
unfolding filter
filter-HaveNoNul p [] n = tt
filter-HaveNoNul p (c ∷ cs) (first, n) =
    let rest = filter-HaveNoNul p cs n in
    elim (Bool-cases (p c)) [ inl e ↦ rw e (first, rest) | inr e ↦ rw e rest ]

accepted-IsName :
    (c : List ℕ)
    → is_meaningful c ≡ true
    → contains slash c ≡ false
    → contains 0 c ≡ false
    → is_dot_dot c ≡ false
    → length c ≤ max_component
    → IsName c
unfolding is_meaningful is_empty is_dot is_dot_dot
accepted-IsName c m s z d l = record {
  some_bytes = λ e. absurd (ground (arith, ap is_meaningful e, m));
  not_dot = λ e. absurd (ground (arith, ap is_meaningful e, m));
  not_dot_dot = λ e. absurd (ground (arith, ap is_dot_dot e, d));
  no_slash = s;
  no_nul = z;
  short = l;
}

accepted-AllIsName :
    (depth : ℕ) (cs : List (List ℕ))
    → AllNames cs
    → HaveNoNul cs
    → reject_component depth cs ≡ none
    → AllIsName cs × (1 ≤ depth + length cs) × (depth ≤ max_depth → depth + length cs ≤ max_depth)
unfolding reject_component
accepted-AllIsName depth [] n z h = (tt, ground arith, λ le. omega arith)
accepted-AllIsName depth (c ∷ cs) (m, s, n) (first, z) h =
    let dots : is_dot_dot c ≡ false = ground arith in
    let short : length c ≤ max_component = ground arith in
    let shallow : depth + 1 ≤ max_depth = ground arith in
    let rest : reject_component (depth + 1) cs ≡ none = ground arith in
    let (names, some_left, deep) = accepted-AllIsName (depth + 1) cs n z rest in
    (
      (accepted-IsName c m s first dots short, names),
      omega arith,
      λ le. let sum = deep shallow in omega (arith, sum),
    )

-- A path that is not refused has between one and `max_depth` components, and each can be a name in
-- a directory: none is empty, `.` or `..`, has a slash or a NUL in it, or is too long.
pub reject_reason-none :
    (path : List ℕ)
    → reject_reason path ≡ none
    → AllIsName (components path)
      × (1 ≤ length (components path))
      × (length (components path) ≤ max_depth)
unfolding reject_reason components
reject_reason-none path h =
    let no_nul : contains 0 path ≡ false = ground arith in
    let checked : reject_component 0 (components path) ≡ none = ground arith in
    let (names, some_left, deep) =
      accepted-AllIsName 0 (components path) (components-AllNames path)
        (filter-HaveNoNul is_meaningful (split path) (split-HaveNoNul path no_nul)) checked in
    (names, omega (arith, some_left), omega (arith, deep (omega arith)))
