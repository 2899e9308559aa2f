-- ===== src/Build/Parents.antt =====
-- `resolve_parent` keeps the tree, and gives a directory of it.
use zipfs.Base.{
  ℕ, suc, ◌+◌, ◌≤◌, ◌<◌, ◌≡◌, refl, inl, inr, Bool, true, false, Bool-cases, some, List, [], ◌∷◌,
  length, length-set, get_elem?, get_elem?-set_same, ok, err, ◌>>=◌, arith,
}
use zipfs.Base.Bytes.{Bytes, eq_bytes}
use zipfs.Base.Word.{u32_mod}
use zipfs.Entry.{NodeKind}
use zipfs.Index.{no_meta, is_dir}
use zipfs.Intern.{TmpNode}
use zipfs.Paths.{components}
use zipfs.Paths.Safe.{IsName, AllIsName}
use zipfs.Build.{
  Builder, Built, Stop, or_panic, complain_dup, as_synthetic, take_over_as_dir, count_synthetic,
  as_parent, after_intern, step_into, resolve_from, resolve_parent, Complaint, intern,
}
use zipfs.Build.Tree.{IsDir, Tree, Safe, Safe-bind}
use zipfs.Build.Changes.{set-IsTree}
use zipfs.Build.Interned.{Interned, AsInterned, intern-Safe}

-- A builder whose nodes are a tree, at most so many, and a directory of it.
pub record InTree (count : ℕ) (b : Builder) (p : ℕ) : Type 0 where
  pub tree : Tree b
  pub room : length b.nodes ≤ count
  pub is_dir : IsDir b.nodes p

abbrev pub AsInTree : ℕ → Builder × ℕ → Type 0
AsInTree count (b, p) = InTree count b p

is_dir-dir : (kind : NodeKind) → is_dir kind ≡ true → kind ≡ NodeKind.dir
unfolding is_dir
is_dir-dir NodeKind.dir h = refl
is_dir-dir NodeKind.file h = absurd (cc h)
is_dir-dir NodeKind.symlink h = absurd (cc h)

-- Complaining changes nothing of the tree.
pub complain_dup-nodes :
    (b : Builder) (c : Complaint)
    → Tree b
    → Tree (complain_dup b c) × ((complain_dup b c).nodes ≡ b.nodes)
unfolding complain_dup
complain_dup-nodes b c tree = (tree, refl)

as_synthetic-same :
    (n : TmpNode)
    → ((as_synthetic n).kind ≡ NodeKind.dir)
      × ((as_synthetic n).meta ≡ no_meta)
      × ((as_synthetic n).name_off ≡ n.name_off)
      × ((as_synthetic n).name_len ≡ n.name_len)
      × ((as_synthetic n).parent ≡ n.parent)
unfolding as_synthetic
as_synthetic-same n = (refl, refl, refl, refl, refl)

take_over_as_dir-InTree :
    (count : ℕ) (b : Builder) (id : ℕ) (n : TmpNode) (comp : Bytes)
    → Tree b
    → length b.nodes ≤ count
    → get_elem? b.nodes id ≡ some n
    → InTree count (take_over_as_dir b id n comp) id
unfolding take_over_as_dir complain_dup
take_over_as_dir-InTree count b id n comp tree room at =
    let (is, no_entry, off, len, parent) = as_synthetic-same n in
    let m = as_synthetic n in
    record {
      tree =
          set-IsTree b.nodes id n m at off len parent b.names b.metas b.metas b.interner b.memo_id
            tree (omega arith) (inl (is, no_entry)) (inl is);
      room = omega (arith, room, length-set b.nodes id m);
      is_dir = (m, get_elem?-set_same b.nodes id n m at, is);
    }

as_parent-InTree :
    (count : ℕ) (b : Builder) (id : ℕ) (n : TmpNode) (comp : Bytes)
    → Tree b
    → length b.nodes ≤ count
    → get_elem? b.nodes id ≡ some n
    → InTree count (as_parent b id comp n) id
unfolding as_parent
as_parent-InTree count b id n comp tree room at = elim (Bool-cases (is_dir n.kind)) [
  | inl t ↦ simp t (record { tree = tree; room = room; is_dir = (n, at, is_dir-dir n.kind t) })
  | inr f ↦ simp f (take_over_as_dir-InTree count b id n comp tree room at)
]

after_intern-Safe :
    (count : ℕ) (comp : Bytes) (b : Builder) (id : ℕ) (fresh : Bool)
    → Interned count b id fresh
    → Safe (AsInTree (count + 1)) (after_intern comp (b, id, fresh))
unfolding after_intern count_synthetic or_panic
after_intern-Safe count comp b id true i = record {
  tree = i.tree;
  room = i.room;
  is_dir = i.fresh_dir refl;
}
after_intern-Safe count comp b id false i =
    let (n, at) = i.is_node in rw at (as_parent-InTree (count + 1) b id n comp i.tree i.room at)

pub step_into-Safe :
    (b : Builder) (cur : ℕ) (comp : Bytes)
    → Tree b
    → IsDir b.nodes cur
    → IsName comp
    → suc (length b.nodes) < u32_mod
    → Safe (AsInTree (length b.nodes + 1)) (step_into b cur comp)
unfolding step_into
step_into-Safe b cur comp tree up safe word =
    Safe-bind (AsInterned (length b.nodes)) (AsInTree (length b.nodes + 1)) (intern b cur comp)
      (after_intern comp) (intern-Safe b cur comp tree up safe word)
      (λ (b₁, id, fresh) i. after_intern-Safe (length b.nodes) comp b₁ id fresh i)

InTree-more : (m n : ℕ) (b : Builder) (p : ℕ) → m ≤ n → InTree m b p → InTree n b p
InTree-more m n b p le i = record { tree = i.tree; room = omega (arith, i.room); is_dir = i.is_dir }

Safe-more : (m n : ℕ) (r : Built (Builder × ℕ)) → m ≤ n → Safe (AsInTree m) r → Safe (AsInTree n) r
Safe-more m n (ok (b, p)) le i = InTree-more m n b p le i
Safe-more m n (err (Stop.too_large limit)) le i = tt
Safe-more m n (err Stop.panicked) le i = i

resolve_from-Safe :
    (comps : List Bytes) (b : Builder) (cur : ℕ)
    → Tree b
    → IsDir b.nodes cur
    → AllIsName comps
    → length b.nodes + length comps < u32_mod
    → Safe (AsInTree (length b.nodes + length comps)) (resolve_from b cur comps)
unfolding resolve_from
resolve_from-Safe [] b cur tree up safe word = record {
  tree = tree;
  room = omega arith;
  is_dir = up;
}
resolve_from-Safe (comp ∷ comps) b cur tree up (safe, all) word =
    let count = length b.nodes + length (comp ∷ comps) in
    Safe-bind (AsInTree (length b.nodes + 1)) (AsInTree count) (step_into b cur comp)
      (λ (b₁, id). resolve_from b₁ id comps)
      (step_into-Safe b cur comp tree up safe (omega (arith, word)))
      (λ (b₁, id) i.
        Safe-more (length b₁.nodes + length comps) count (resolve_from b₁ id comps)
          (omega (arith, i.room))
          (resolve_from-Safe comps b₁ id i.tree i.is_dir all (omega (arith, i.room, word))))

-- The directory that was resolved is the one of the last entry.
remember-Safe :
    (count : ℕ) (path : Bytes) (r : Built (Builder × ℕ))
    → Safe (AsInTree count) r
    → Safe
        (λ (b, p). InTree count b p × (b.memo_id ≡ p))
        (r >>= λ (b, cur). ok (record b { memo_path = path; memo_id = cur }, cur))
remember-Safe count path (ok (b, p)) i =
    let tree = i.tree in
    (
      record {
        tree = record {
          table = tree.table;
          held = tree.held;
          root = tree.root;
          child = tree.child;
          memo_dir = i.is_dir;
        };
        room = i.room;
        is_dir = i.is_dir;
      },
      refl,
    )
remember-Safe count path (err (Stop.too_large limit)) i = tt
remember-Safe count path (err Stop.panicked) i = i

pub resolve_parent-Safe :
    (b : Builder) (path : Bytes)
    → Tree b
    → AllIsName (components path)
    → length b.nodes + length (components path) < u32_mod
    → Safe
        (λ (b₁, p). InTree (length b.nodes + length (components path)) b₁ p × (b₁.memo_id ≡ p))
        (resolve_parent b path)
unfolding resolve_parent
resolve_parent-Safe b path tree all word = elim (Bool-cases (eq_bytes path b.memo_path)) [
  | inl t ↦ simp t (record { tree = tree; room = omega arith; is_dir = tree.memo_dir }, refl)
  | inr f ↦ simp f (
      remember-Safe (length b.nodes + length (components path)) path
        (resolve_from b 0 (components path))
        (resolve_from-Safe (components path) b 0 tree tree.root all word))
]
