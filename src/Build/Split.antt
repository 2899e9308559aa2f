-- ===== src/Build/Split.antt =====
-- `split_parent` of a canonical path: the components of the directory, and the last one.
use zipfs.Base.{
  ℕ, suc, ◌≡◌, refl, sym, ap, ap₂, subst, ◌∙◌, true, false, none, some, List, [], ◌∷◌, ◌++◌,
  append-nil, length, take, drop, ◌==◌, if◌then◌else◌, arith,
}
use zipfs.Base.Bytes.{Bytes}
use zipfs.Build.{without_slash, or_here, last_slash, split_behind, split_parent}
use zipfs.Paths.{
  slash, contains, split, filter, is_empty, is_meaningful, components, normalize_onto,
  normalize_path,
}
use zipfs.Paths.Normal.{
  AllNames, split-append, filter-append, not_empty, meaningful_cons, components-join,
  components-AllNames,
}

without_slash-append :
    (a : Bytes) (c : ℕ) (cs : Bytes) → without_slash (a ++ c ∷ cs) ≡ a ++ without_slash (c ∷ cs)
unfolding without_slash
without_slash-append [] c cs = refl
without_slash-append (x ∷ []) c cs = refl
without_slash-append (x ∷ y ∷ a) c cs = ap (◌∷◌ x) (without_slash-append (y ∷ a) c cs)

without_slash-name : (c : Bytes) → contains slash c ≡ false → without_slash c ≡ c
unfolding without_slash contains
without_slash-name [] h = refl
without_slash-name (a ∷ []) h = let e : (a == slash) ≡ false = ground arith in rw e refl
without_slash-name (a ∷ b ∷ c) h = ap (◌∷◌ a) (without_slash-name (b ∷ c) (ground arith))

last_slash-name : (c : Bytes) → contains slash c ≡ false → last_slash c ≡ none
unfolding last_slash or_here contains
last_slash-name [] h = refl
last_slash-name (a ∷ c) h =
    let e : (a == slash) ≡ false = ground arith in
    let rest = last_slash-name c (ground arith) in rw (e, rest) refl

last_slash-append :
    (a c : Bytes) → contains slash c ≡ false → last_slash (a ++ slash ∷ c) ≡ some (length a)
unfolding last_slash or_here
last_slash-append [] c h = let e = last_slash-name c h in rw e refl
last_slash-append (x ∷ a) c h = let e = last_slash-append a c h in rw e refl

take_behind : (a c : Bytes) → take (suc (length a)) (a ++ slash ∷ c) ≡ a ++ slash ∷ []
take_behind [] c = refl
take_behind (x ∷ a) c = ap (◌∷◌ x) (take_behind a c)

drop_behind : (a c : Bytes) → drop (suc (length a)) (a ++ slash ∷ c) ≡ c
drop_behind [] c = refl
drop_behind (x ∷ a) c = drop_behind a c

split_parent-name : (c : Bytes) → contains slash c ≡ false → split_parent c ≡ ([], c)
unfolding split_parent split_behind
split_parent-name c h =
    let w = without_slash-name c h in let l = last_slash-name c h in rw (w, l) refl

split_parent-append :
    (a : Bytes) (b : ℕ) (c : Bytes)
    → contains slash (b ∷ c) ≡ false
    → split_parent (a ++ slash ∷ b ∷ c) ≡ (a ++ slash ∷ [], b ∷ c)
unfolding split_parent split_behind without_slash
split_parent-append a b c h =
    let w : without_slash (a ++ slash ∷ b ∷ c) ≡ a ++ slash ∷ b ∷ c =
      without_slash-append a slash (b ∷ c)
      ∙ ap (λ x. a ++ slash ∷ x) (without_slash-name (b ∷ c) h) in
    let l = last_slash-append a (b ∷ c) h in
    rw (w, l) (ap₂ (λ x y. (x, y)) (take_behind a (b ∷ c)) (drop_behind a (b ∷ c)))

components-slash : (a : Bytes) → components (a ++ slash ∷ []) ≡ components a
unfolding components split filter is_meaningful is_empty
components-slash a =
    ap (filter is_meaningful) (split-append a [])
    ∙ filter-append is_meaningful (split a) ([] ∷ [])
    ∙ append-nil (components a)

-- All but the last of a list that is not empty, and the last.
abbrev pub init : Bytes → List Bytes → List Bytes
init c [] = []
init c (d ∷ ds) = c ∷ init d ds

abbrev pub last : Bytes → List Bytes → Bytes
last c [] = c
last c (d ∷ ds) = last d ds

pub init-append-last : (c : Bytes) (cs : List Bytes) → init c cs ++ last c cs ∷ [] ≡ c ∷ cs
init-append-last c [] = refl
init-append-last c (d ∷ ds) = ap (◌∷◌ c) (init-append-last d ds)

normalize_onto-step :
    (path d : Bytes) (ds : List Bytes)
    → is_empty path ≡ false
    → normalize_onto path (d ∷ ds) ≡ normalize_onto (path ++ slash ∷ d) ds
unfolding normalize_onto
normalize_onto-step path d ds h = ap (λ b. normalize_onto (if b then d else path ++ slash ∷ d) ds) h

normalize_onto-last :
    (path d : Bytes) (ds : List Bytes)
    → is_empty path ≡ false
    → normalize_onto path (d ∷ ds) ≡ normalize_onto path (init d ds) ++ slash ∷ last d ds
unfolding normalize_onto is_empty
normalize_onto-last path d [] h = rw h refl
normalize_onto-last path d (e ∷ ds) h =
    normalize_onto-step path d (e ∷ ds) h
    ∙ normalize_onto-last (path ++ slash ∷ d) e ds (not_empty path d)
    ∙ ap (λ x. x ++ slash ∷ last e ds) (sym (normalize_onto-step path d (init e ds) h))

AllNames-init : (c : Bytes) (cs : List Bytes) → AllNames (c ∷ cs) → AllNames (init c cs)
AllNames-init c [] n = tt
AllNames-init c (d ∷ ds) (m, s, n) = (m, s, AllNames-init d ds n)

AllNames-last :
    (c : Bytes) (cs : List Bytes)
    → AllNames (c ∷ cs)
    → (is_meaningful (last c cs) ≡ true) × (contains slash (last c cs) ≡ false)
AllNames-last c [] (m, s, n) = (m, s)
AllNames-last c (d ∷ ds) (m, s, n) = AllNames-last d ds n

-- What `split_parent` gives for the path made of these components.
abbrev Splits : Bytes → Bytes → List Bytes → Type 0
Splits path c cs =
    (components (split_parent path).0 ≡ init c cs) × ((split_parent path).1 ≡ last c cs)

split_parent-cons :
    (a leaf : Bytes)
    → is_empty leaf ≡ false
    → contains slash leaf ≡ false
    → split_parent (a ++ slash ∷ leaf) ≡ (a ++ slash ∷ [], leaf)
unfolding is_empty
split_parent-cons a [] h s = absurd (cc h)
split_parent-cons a (b ∷ leaf) h s = split_parent-append a b leaf s

join-Splits : (c : Bytes) (cs : List Bytes) → AllNames (c ∷ cs) → Splits (normalize_onto c cs) c cs
unfolding normalize_onto components split filter is_meaningful is_empty
join-Splits c [] (m, s, n) = let e = split_parent-name c s in (rw e refl, rw e refl)
join-Splits c (d ∷ ds) (m, s, n) =
    let a = normalize_onto c (init d ds) in
    let (ml, sl) = AllNames-last d ds n in
    let e : split_parent (normalize_onto c (d ∷ ds)) ≡ (a ++ slash ∷ [], last d ds) =
      ap split_parent (normalize_onto-last c d ds (meaningful_cons c m))
      ∙ split_parent-cons a (last d ds) (meaningful_cons (last d ds) ml) sl in
    let names = components-join (c ∷ init d ds) (m, s, AllNames-init d ds n) in
    (
      ap (λ (x : Bytes × Bytes). components x.0) e ∙ components-slash a ∙ names,
      ap (λ (x : Bytes × Bytes). x.1) e,
    )

-- The canonical form of a path with components splits into a part whose components are all of these
-- but the last, and that last one.
pub split_parent-components :
    (path c : Bytes) (cs : List Bytes)
    → components path ≡ c ∷ cs
    → (components (split_parent (normalize_path path)).0 ≡ init c cs)
      × ((split_parent (normalize_path path)).1 ≡ last c cs)
unfolding normalize_path normalize_onto is_empty
split_parent-components path c cs h =
    let names = subst AllNames h (components-AllNames path) in
    subst (λ comps. Splits (normalize_onto [] comps) c cs) (sym h) (join-Splits c cs names)
