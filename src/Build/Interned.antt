-- ===== src/Build/Interned.antt =====
-- `intern` keeps the tree, and gives the node that has the name.
use zipfs.Base.{
  ℕ, zero, suc, ◌+◌, ◌≤◌, ◌<◌, ◌≡◌, ◌↔◌, ◌⊎◌, refl, sym, ap, subst, ◌∙◌, inl, inr, Bool, true,
  false, Option, none, some, List, [], ◌∷◌, ◌++◌, length, length-append, get_elem?, get_elem?-last,
  get_elem?-push, lt-length_of_get_elem?, arith,
}
use zipfs.Base.Bytes.{Bytes}
use zipfs.Base.Word.{u32_mod}
use zipfs.Entry.{NodeKind}
use zipfs.Index.{no_meta}
use zipfs.Intern.{TmpNode, Interner, node_name}
use zipfs.Intern.Held.{key_of, IsTable}
use zipfs.Intern.Find.{Found, find-Found}
use zipfs.Intern.Grow.{Holds}
use zipfs.Intern.Insert.{insert-IsTable}
use zipfs.Paths.Safe.{IsName}
use zipfs.Build.{
  Builder, name_blob, node_count, component_length, flag_synthetic, try_from, or_panic, intern,
  intern_found, intern_new, push_node,
}
use zipfs.Build.Tree.{
  IsDir, IsNode, Tree, Safe, Safe-bind, try_from-Safe, node_name-last, IsTable-along, Found-along,
}
use zipfs.Build.Changes.{key_of-append, push-IsTree, IsLeaf}

-- What `intern` leaves, from a builder with so many nodes: the node that it gives, and, if that is
-- fresh, that it is a directory in which nothing stands.
pub record Interned (count : ℕ) (b : Builder) (id : ℕ) (fresh : Bool) : Type 0 where
  pub tree : Tree b
  pub room : length b.nodes ≤ count + 1
  pub positive : 1 ≤ id
  pub is_node : (n : TmpNode) × (get_elem? b.nodes id ≡ some n)
  pub fresh_dir : fresh ≡ true → IsDir b.nodes id
  pub fresh_leaf : fresh ≡ true → IsLeaf b.nodes b.memo_id id

abbrev pub AsInterned : ℕ → Builder × ℕ × Bool → Type 0
AsInterned count (b, id, fresh) = Interned count b id fresh

-- An element within a list's length.
elem_of : {A : Type 0} (xs : List A) (i : ℕ) → i < length xs → (a : A) × (get_elem? xs i ≡ some a)
elem_of [] i h = absurd (omega arith)
elem_of (x ∷ xs) zero h = (x, refl)
elem_of (x ∷ xs) (suc i) h = elem_of xs i (omega arith)

Found-Interned :
    (b : Builder) (parent id : ℕ) (name : Bytes)
    → Tree b
    → Found b.nodes b.names b.interner.slots (parent, name) (some id)
    → Interned (length b.nodes) b id false
Found-Interned b parent id name tree (j, stored, has) =
    let (pos, lt) = (tree.held id).0 (j, stored) in
    record {
      tree = tree;
      room = omega arith;
      positive = pos;
      is_node = elem_of b.nodes id lt;
      fresh_dir = λ h. absurd (cc h);
      fresh_leaf = λ h. absurd (cc h);
    }

abbrev new_node : ℕ → ℕ → ℕ → TmpNode
new_node off len parent = record {
  name_off = off;
  name_len = len;
  kind = NodeKind.dir;
  flags = flag_synthetic;
  parent = parent;
  meta = no_meta;
}

module _ (b : Builder) (parent : ℕ) (name : Bytes) (tree : Tree b) (up : IsDir b.nodes parent)
    (safe : IsName name) where
  abbrev pushed : TmpNode
  pushed = new_node (length b.names) (length name) parent

  abbrev nodes₁ : List TmpNode
  nodes₁ = b.nodes ++ pushed ∷ []

  named : node_name pushed (b.names ++ name) ≡ some name
  named = node_name-last pushed b.names name refl refl

  has_key : key_of nodes₁ (b.names ++ name) (length b.nodes) ≡ some (parent, name)
  unfolding key_of
  has_key = rw (get_elem?-last b.nodes pushed, named) refl

  parent_lt : parent < length b.nodes
  parent_lt = let (d, e, k) = up in lt-length_of_get_elem? b.nodes parent d e

  is_new : IsNode b.nodes (b.names ++ name) b.metas (length b.nodes) pushed
  is_new = record {
    parent_lt = parent_lt;
    parent_dir = up;
    named = (name, named, safe);
    entry = inl (refl, refl);
  }

  no_child :
      (i : ℕ) (m : TmpNode) → get_elem? nodes₁ (suc i) ≡ some m → m.parent ≡ length b.nodes → ⊥
  no_child i m h e = elim (get_elem?-push b.nodes pushed m (suc i) h) [
    | inl old ↦
        let n = tree.child i m old in
        let lt = lt-length_of_get_elem? b.nodes (suc i) m old in
        absurd (omega (arith, n.parent_lt, lt, e))
    | inr (_, m_is) ↦
        let p : parent ≡ length b.nodes = ap (λ (x : TmpNode). x.parent) (sym m_is) ∙ e in
        absurd (omega (arith, p, parent_lt))
  ]

  pushed-Interned :
      (t₁ : Interner)
      → IsTable nodes₁ (b.names ++ name) t₁
      → ((x : ℕ) → Holds t₁.slots x ↔ (Holds b.interner.slots x ⊎ (x ≡ length b.nodes)))
      → Interned
          (length b.nodes)
          (record b { nodes = nodes₁; names = b.names ++ name; interner = t₁ })
          (length b.nodes)
          true
  pushed-Interned t₁ table holds =
      let (m, e, k) = tree.memo_dir in
      let memo_lt = lt-length_of_get_elem? b.nodes b.memo_id m e in
      let last = get_elem?-last b.nodes pushed in
      record {
        tree =
            push-IsTree b.nodes b.names b.metas b.interner t₁ b.memo_id name pushed tree is_new
              table holds (omega (arith, parent_lt));
        room = omega (arith, length-append b.nodes (pushed ∷ []));
        positive = omega (arith, parent_lt);
        is_node = (pushed, last);
        fresh_dir = λ _. (pushed, last, refl);
        fresh_leaf =
            λ _. ((no_child, λ e. absurd (omega (arith, e, memo_lt))), omega (arith, parent_lt));
      }

  push_node-Safe :
      suc (length b.nodes) < u32_mod
      → Found b.nodes b.names b.interner.slots (parent, name) none
      → Safe
          (AsInterned (length b.nodes))
          (push_node b parent name (length b.names) (length b.nodes) (length name))
  unfolding push_node or_panic
  push_node-Safe word fresh =
      let along = key_of-append b.nodes (pushed ∷ []) b.names name in
      let table =
        IsTable-along b.nodes nodes₁ b.names (b.names ++ name) b.interner along tree.table in
      let fresh₁ =
        Found-along b.nodes nodes₁ b.names (b.names ++ name) b.interner (parent, name) along
          tree.table fresh in
      let (t₁, runs, table₁, holds) =
        insert-IsTable nodes₁ (b.names ++ name) b.interner (length b.nodes) (parent, name) table
          has_key word fresh₁ in
      rw runs (pushed-Interned t₁ table₁ holds)

  intern_new-Safe :
      suc (length b.nodes) < u32_mod
      → Found b.nodes b.names b.interner.slots (parent, name) none
      → Safe (AsInterned (length b.nodes)) (intern_new b parent name)
  unfolding intern_new
  intern_new-Safe word fresh =
      let Q = AsInterned (length b.nodes) in
      Safe-bind _ Q (try_from u32_mod name_blob (length b.names)) _
        (try_from-Safe u32_mod name_blob (length b.names))
        (λ off (off_is, _).
          Safe-bind _ Q (try_from u32_mod node_count (length b.nodes)) _
            (try_from-Safe u32_mod node_count (length b.nodes))
            (λ id (id_is, _).
              Safe-bind _ Q (try_from 65536 component_length (length name)) _
                (try_from-Safe 65536 component_length (length name))
                (λ len (len_is, _).
                  subst (λ o. Safe Q (push_node b parent name o id len)) (sym off_is)
                    (subst (λ i. Safe Q (push_node b parent name (length b.names) i len))
                      (sym id_is)
                      (subst
                        (λ l. Safe Q (push_node b parent name (length b.names) (length b.nodes) l))
                        (sym len_is) (push_node-Safe word fresh))))))

  intern_found-Safe :
      suc (length b.nodes) < u32_mod
      → (r : Option ℕ) → Found b.nodes b.names b.interner.slots (parent, name) r
      → Safe (AsInterned (length b.nodes)) (intern_found b parent name r)
  unfolding intern_found
  intern_found-Safe word none fresh = intern_new-Safe word fresh
  intern_found-Safe word (some id) found = Found-Interned b parent id name tree found

  pub intern-Safe :
      suc (length b.nodes) < u32_mod → Safe (AsInterned (length b.nodes)) (intern b parent name)
  unfolding intern or_panic
  intern-Safe word =
      let (r, e, found) = find-Found b.nodes b.names b.interner parent name tree.table in
      rw e (intern_found-Safe word r found)
