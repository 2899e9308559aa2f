-- ===== src/Paths/Normal.antt =====
-- The canonical path has the components of the path it was made from.
use zipfs.Base.{
  ℕ, ◌≡◌, refl, sym, ap, ◌∙◌, Bool, true, false, List, [], ◌∷◌, ◌++◌, ◌==◌, Bool-cases, inl, inr,
  arith, append_assoc, append-nil,
}
use zipfs.Paths.{
  slash, contains, push_first, split, filter, is_empty, is_meaningful, components, normalize_onto,
  normalize_path,
}

-- Pieces that are meaningful and have no slash in them.
abbrev pub AllNames : List (List ℕ) → Type 0
AllNames [] = Unit {0}
AllNames (c ∷ cs) = (is_meaningful c ≡ true) × (contains slash c ≡ false) × AllNames cs

-- A split path has a first piece.
split_cons : (path : List ℕ) → (c : List ℕ) × (cs : List (List ℕ)) × (split path ≡ c ∷ cs)
unfolding split push_first
split_cons [] = ([], [], refl)
split_cons (b ∷ bs) =
    let (c, cs, e) = split_cons bs in
    elim (Bool-cases (b == slash)) [
      | inl h ↦ rw h ([], split bs, refl)
      | inr h ↦ rw (h, e) (b ∷ c, cs, refl)
    ]

pub split-append : (a b : List ℕ) → split (a ++ slash ∷ b) ≡ split a ++ split b
unfolding split push_first
split-append [] b = refl
split-append (x ∷ a) b =
    let (c, cs, e) = split_cons a in
    let rest = split-append a b in
    elim (Bool-cases (x == slash)) [ inl h ↦ rw (h, rest) refl | inr h ↦ rw (h, rest, e) refl ]

pub split_one : (c : List ℕ) → contains slash c ≡ false → split c ≡ c ∷ []
unfolding split push_first contains
split_one [] h = refl
split_one (b ∷ bs) h =
    let rest = split_one bs (ground arith) in
    let other : (b == slash) ≡ false = ground arith in rw (other, rest) refl

pub filter-append :
    (p : List ℕ → Bool) (a b : List (List ℕ)) → filter p (a ++ b) ≡ filter p a ++ filter p b
unfolding filter
filter-append p [] b = refl
filter-append p (c ∷ a) b =
    let rest = filter-append p a b in
    elim (Bool-cases (p c)) [ inl h ↦ rw (h, rest) refl | inr h ↦ rw (h, rest) refl ]

abbrev HaveNoSlash : List (List ℕ) → Type 0
HaveNoSlash [] = Unit {0}
HaveNoSlash (c ∷ cs) = (contains slash c ≡ false) × HaveNoSlash cs

push_first-HaveNoSlash :
    (b : ℕ) (cs : List (List ℕ))
    → (b == slash) ≡ false
    → HaveNoSlash cs
    → HaveNoSlash (push_first b cs)
unfolding push_first contains
push_first-HaveNoSlash b [] h n = (ground arith, tt)
push_first-HaveNoSlash b (c ∷ cs) h (first, n) = (ground arith, n)

split-HaveNoSlash : (path : List ℕ) → HaveNoSlash (split path)
unfolding split contains
split-HaveNoSlash [] = (refl, tt)
split-HaveNoSlash (b ∷ bs) =
    let rest = split-HaveNoSlash bs in
    elim (Bool-cases (b == slash)) [
      | inl h ↦ rw h (refl, rest)
      | inr h ↦ rw h (push_first-HaveNoSlash b (split bs) h rest)
    ]

filter-AllNames : (cs : List (List ℕ)) → HaveNoSlash cs → AllNames (filter is_meaningful cs)
unfolding filter
filter-AllNames [] n = tt
filter-AllNames (c ∷ cs) (first, n) =
    let rest = filter-AllNames cs n in
    elim (Bool-cases (is_meaningful c)) [ inl h ↦ rw h (h, first, rest) | inr h ↦ rw h rest ]

-- The components of a path are meaningful and have no slash in them.
pub components-AllNames : (path : List ℕ) → AllNames (components path)
unfolding components
components-AllNames path = filter-AllNames (split path) (split-HaveNoSlash path)

-- A component written behind a path that is not empty is one more component.
components_push :
    (path c : List ℕ)
    → is_meaningful c ≡ true
    → contains slash c ≡ false
    → components (path ++ slash ∷ c) ≡ components path ++ c ∷ []
unfolding components filter
components_push path c m s =
    ap (filter is_meaningful) (split-append path c ∙ ap (◌++◌ (split path)) (split_one c s))
    ∙ filter-append is_meaningful (split path) (c ∷ [])
    ∙ rw m refl

pub not_empty : (path c : List ℕ) → is_empty (path ++ slash ∷ c) ≡ false
unfolding is_empty
not_empty [] c = refl
not_empty (b ∷ path) c = refl

components-normalize_onto :
    (path : List ℕ) (cs : List (List ℕ))
    → is_empty path ≡ false
    → AllNames cs
    → components (normalize_onto path cs) ≡ components path ++ cs
unfolding normalize_onto
components-normalize_onto path [] h n = sym (append-nil (components path))
components-normalize_onto path (c ∷ cs) h (m, s, n) = rw h (
    components-normalize_onto (path ++ slash ∷ c) cs (not_empty path c) n
    ∙ ap (λ x. x ++ cs) (components_push path c m s)
    ∙ append_assoc (components path) (c ∷ []) cs)

pub components_one :
    (c : List ℕ) → is_meaningful c ≡ true → contains slash c ≡ false → components c ≡ c ∷ []
unfolding components filter
components_one c m s = ap (filter is_meaningful) (split_one c s) ∙ rw m refl

pub meaningful_cons : (c : List ℕ) → is_meaningful c ≡ true → is_empty c ≡ false
unfolding is_meaningful is_empty
meaningful_cons [] h = absurd (ground arith)
meaningful_cons (b ∷ bs) h = refl

pub components-join : (cs : List (List ℕ)) → AllNames cs → components (normalize_onto [] cs) ≡ cs
unfolding normalize_onto is_empty components split filter is_meaningful
components-join [] n = refl
components-join (c ∷ cs) (m, s, n) =
    components-normalize_onto c cs (meaningful_cons c m) n
    ∙ ap (λ x. x ++ cs) (components_one c m s)

-- The canonical path has exactly the components of the path, in their order.
pub components-normalize_path : (path : List ℕ) → components (normalize_path path) ≡ components path
unfolding normalize_path components
components-normalize_path path = components-join (components path) (components-AllNames path)
