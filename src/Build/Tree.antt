-- ===== src/Build/Tree.antt =====
-- The invariant of the builder: what it has found is a tree of directories.
use zipfs.Base.{
  ℕ, suc, ◌+◌, ◌≤◌, ◌<◌, ◌≡◌, ◌↔◌, ◌⊎◌, refl, sym, ap, subst, ◌∙◌, inl, inr, true, Bool-cases, leb,
  leb→le, Option, none, some, eq_of_some, List, ◌++◌, length, length-append, take, drop,
  drop-append, drop-append_le, take-append_le, take-length, length-drop, get_elem?, Result, ok, err,
  ◌>>=◌, ltb, ltb→lt, arith,
}
use zipfs.Base.Bytes.{Bytes}
use zipfs.Entry.{NodeKind, EntryMeta}
use zipfs.Index.{no_meta}
use zipfs.Intern.{TmpNode, Interner, node_name}
use zipfs.Intern.Held.{Key, Stored, key_of, Placed, IsTable}
use zipfs.Intern.Find.{Found}
use zipfs.Intern.Grow.{Holds}
use zipfs.Paths.Safe.{IsName}
use zipfs.Build.{Builder, Stop, Limit, too_large, panicked, or_panic, try_from}

-- There is a directory at an index.
abbrev pub IsDir : List TmpNode → ℕ → Type 0
IsDir nodes p = (d : TmpNode) × (get_elem? nodes p ≡ some d) × (d.kind ≡ NodeKind.dir)

-- A node has an entry, or is a directory that no entry declared.
abbrev pub HasEntry : List EntryMeta → TmpNode → Type 0
HasEntry metas n = ((n.kind ≡ NodeKind.dir) × (n.meta ≡ no_meta)) ⊎ (n.meta < length metas)

-- The node at an index that is not the root's: it stands in a directory that was found before it,
-- under a name that is safe.
pub record IsNode (nodes : List TmpNode) (names : Bytes) (metas : List EntryMeta) (i : ℕ)
    (n : TmpNode) : Type 0 where
  pub parent_lt : n.parent < i
  pub parent_dir : IsDir nodes n.parent
  pub named : (name : Bytes) × (node_name n names ≡ some name) × IsName name
  pub entry : HasEntry metas n

-- The first node is a directory, each other is a node of the tree, and the interner has exactly
-- those, of which no two have the same parent and name.
pub record IsTree (nodes : List TmpNode) (names : Bytes) (metas : List EntryMeta)
    (interner : Interner) (memo : ℕ) : Type 0 where
  pub table : IsTable nodes names interner
  pub held : (x : ℕ) → Holds interner.slots x ↔ ((1 ≤ x) × (x < length nodes))
  pub root : IsDir nodes 0
  pub child :
      (i : ℕ) (n : TmpNode) → get_elem? nodes (suc i) ≡ some n → IsNode nodes names metas (suc i) n
  pub memo_dir : IsDir nodes memo

abbrev pub Tree : Builder → Type 0
Tree b = IsTree b.nodes b.names b.metas b.interner b.memo_id

-- A step of the builder that does not panic, and whose result has a property.
abbrev pub Safe {ℓ} : {A : Type ℓ} → (A → Type 0) → Result Stop A → Type 0
Safe P (ok a) = P a
Safe P (err (too_large limit)) = Unit {0}
Safe P (err panicked) = ⊥

pub Safe-bind {ℓ κ} :
    {A : Type ℓ} {B : Type κ} (P : A → Type 0) (Q : B → Type 0) (r : Result Stop A)
    (f : A → Result Stop B)
    → Safe P r
    → ((a : A) → P a → Safe Q (f a))
    → Safe Q (r >>= f)
Safe-bind P Q (ok a) f p q = q a p
Safe-bind P Q (err (too_large limit)) f p q = tt
Safe-bind P Q (err panicked) f p q = absurd p

pub try_from-Safe :
    (bound : ℕ) (limit : Limit) (n : ℕ) → Safe (λ m. (m ≡ n) × (n < bound)) (try_from bound limit n)
unfolding try_from
try_from-Safe bound limit n = elim (Bool-cases (ltb n bound)) [
  | inl t ↦ simp t (refl, ltb→lt n bound t)
  | inr f ↦ simp f tt
]

pub or_panic-Safe {ℓ} :
    {A : Type ℓ} (P : A → Type 0) (o : Option A) (a : A) → o ≡ some a → P a → Safe P (or_panic o)
unfolding or_panic
or_panic-Safe P none a e p = absurd (cc e)
or_panic-Safe P (some b) a e p = subst P (sym (eq_of_some e)) p

-- Names stay where they are when the blob gets longer.
pub node_name-append :
    (n : TmpNode) (names more name : Bytes)
    → node_name n names ≡ some name
    → node_name n (names ++ more) ≡ some name
unfolding node_name
node_name-append n names more name h =
    elim (Bool-cases (leb (n.name_off + n.name_len) (length names))) [
      | inl t ↦
          let le = leb→le _ _ t in
          let fits : leb (n.name_off + n.name_len) (length (names ++ more)) ≡ true =
            ground (arith, le, length-append names more) in
          let same : take n.name_len (drop n.name_off (names ++ more))
              ≡ take n.name_len (drop n.name_off names) =
            ap (take n.name_len) (drop-append_le n.name_off names more (omega arith))
            ∙ take-append_le n.name_len (drop n.name_off names) more
                (omega (arith, length-drop n.name_off names)) in
          let here : some (take n.name_len (drop n.name_off names)) ≡ some name = simp t at h in
          simp fits (ap some same ∙ here)
      | inr f ↦ let none_here : none ≡ some name = simp f at h in absurd (cc none_here)
    ]

-- A name that was just written.
pub node_name-last :
    (n : TmpNode) (names name : Bytes)
    → n.name_off ≡ length names
    → n.name_len ≡ length name
    → node_name n (names ++ name) ≡ some name
unfolding node_name
node_name-last n names name off len =
    let fits : leb (n.name_off + n.name_len) (length (names ++ name)) ≡ true =
      ground (arith, off, len, length-append names name) in
    let same : take n.name_len (drop n.name_off (names ++ name)) ≡ name =
      ap (λ k. take n.name_len (drop k (names ++ name))) off
      ∙ ap (take n.name_len) (drop-append names name)
      ∙ take-length name n.name_len (omega (arith, len)) in
    simp fits (ap some same)

-- A table stays one when its nodes keep their keys.
pub IsTable-along :
    (nodes nodes₁ : List TmpNode) (names names₁ : Bytes) (t : Interner)
    → ((id : ℕ) (key : Key) → key_of nodes names id ≡ some key → key_of nodes₁ names₁ id ≡ some key)
    → IsTable nodes names t
    → IsTable nodes₁ names₁ t
IsTable-along nodes nodes₁ names names₁ t along table = record {
  power = table.power;
  hashed = record { size = table.hashed.size; placed = placed; unique = unique };
  mask = table.mask;
  used = table.used;
  load = table.load;
}
  where
    placed :
        (j id : ℕ) → Stored t.slots j id → Placed nodes₁ names₁ (IsTable.power table) t.slots j id
    placed j id s =
        let p = table.hashed.placed j id s in
        record {
          key = p.key;
          has_key = along id p.key p.has_key;
          is_word = p.is_word;
          steps = p.steps;
          at = p.at;
          before = p.before;
        }

    old_key :
        (j id : ℕ) (key : Key)
        → Stored t.slots j id
        → key_of nodes₁ names₁ id ≡ some key
        → key_of nodes names id ≡ some key
    old_key j id key s h =
        let p = table.hashed.placed j id s in p.has_key ∙ sym (along id p.key p.has_key) ∙ h

    unique :
        (i j x y : ℕ) (key : Key)
        → Stored t.slots i x
        → Stored t.slots j y
        → key_of nodes₁ names₁ x ≡ some key
        → key_of nodes₁ names₁ y ≡ some key
        → i ≡ j
    unique i j x y key s u p q =
        table.hashed.unique i j x y key s u (old_key i x key s p) (old_key j y key u q)

pub Found-along :
    (nodes nodes₁ : List TmpNode) (names names₁ : Bytes) (t : Interner) (sought : Key)
    → ((id : ℕ) (key : Key) → key_of nodes names id ≡ some key → key_of nodes₁ names₁ id ≡ some key)
    → IsTable nodes names t
    → Found nodes names t.slots sought none
    → Found nodes₁ names₁ t.slots sought none
Found-along nodes nodes₁ names names₁ t sought along table fresh j id s h =
    let p = table.hashed.placed j id s in
    fresh j id s (p.has_key ∙ sym (along id p.key p.has_key) ∙ h)
