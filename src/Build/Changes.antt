-- ===== src/Build/Changes.antt =====
-- The two changes of the builder's nodes: one more at the end, and a new kind and entry of one.
use zipfs.Base.{
  ℕ, suc, ◌+◌, ◌≤◌, ◌<◌, ◌≡◌, ◌↔◌, ◌⊎◌, refl, sym, ap, subst, ◌∙◌, inl, inr, Bool-cases, some,
  eq_of_some, List, [], ◌∷◌, ◌++◌, length, length-append, length-set, get_elem?, get_elem?-append,
  get_elem?-push, set, get_elem?-set_same, get_elem?-set_other, ◌==◌, ==_iff, arith,
}
use zipfs.Base.Bytes.{Bytes}
use zipfs.Entry.{NodeKind, EntryMeta}
use zipfs.Intern.{TmpNode, Interner, node_name}
use zipfs.Intern.Held.{Key, key_of, key_of-some, IsTable}
use zipfs.Intern.Grow.{Holds}
use zipfs.Build.Tree.{IsDir, HasEntry, IsNode, IsTree, node_name-append, IsTable-along}

pub IsDir-append : (nodes more : List TmpNode) (p : ℕ) → IsDir nodes p → IsDir (nodes ++ more) p
IsDir-append nodes more p (d, e, k) = (d, get_elem?-append nodes more p d e, k)

pub key_of-append :
    (nodes more : List TmpNode) (names bytes : Bytes) (id : ℕ) (key : Key)
    → key_of nodes names id ≡ some key
    → key_of (nodes ++ more) (names ++ bytes) id ≡ some key
unfolding key_of
key_of-append nodes more names bytes id key h =
    let (n, e, named, parent) = key_of-some nodes names id key h in
    rw (get_elem?-append nodes more id n e, node_name-append n names bytes key.1 named, parent) refl

HasEntry-more :
    (metas metas₁ : List EntryMeta) (n : TmpNode)
    → length metas ≤ length metas₁
    → HasEntry metas n
    → HasEntry metas₁ n
HasEntry-more metas metas₁ n le (inl h) = inl h
HasEntry-more metas metas₁ n le (inr lt) = inr (omega arith)

-- A node with a new name is one more node of the tree.
pub push-IsTree :
    (nodes : List TmpNode) (names : Bytes) (metas : List EntryMeta) (t t₁ : Interner) (memo : ℕ)
    (name : Bytes) (n : TmpNode)
    → IsTree nodes names metas t memo
    → IsNode nodes (names ++ name) metas (length nodes) n
    → IsTable (nodes ++ n ∷ []) (names ++ name) t₁
    → ((x : ℕ) → Holds t₁.slots x ↔ (Holds t.slots x ⊎ (x ≡ length nodes)))
    → 1 ≤ length nodes
    → IsTree (nodes ++ n ∷ []) (names ++ name) metas t₁ memo
push-IsTree nodes names metas t t₁ memo name n tree new table holds some_nodes = record {
  table = table;
  held = held;
  root = IsDir-append nodes (n ∷ []) 0 tree.root;
  child = child;
  memo_dir = IsDir-append nodes (n ∷ []) memo tree.memo_dir;
}
  where
    len : length (nodes ++ n ∷ []) ≡ length nodes + 1
    len = length-append nodes (n ∷ [])

    held : (x : ℕ) → Holds t₁.slots x ↔ ((1 ≤ x) × (x < length (nodes ++ n ∷ [])))
    held x =
        let (to, of) = holds x in
        let (old, back) = tree.held x in
        (
          λ h. elim (to h) [
            | inl o ↦ let (pos, lt) = old o in (pos, omega (arith, len, lt))
            | inr e ↦ (omega (arith, e, some_nodes), omega (arith, e, len))
          ],
          λ (pos, lt). elim (Bool-cases (x == length nodes)) [
            | inl t ↦ of (inr ((==_iff x (length nodes)).0 t))
            | inr f ↦
                let ne : x < length nodes = ground (arith, len, lt, f) in of (inl (back (pos, ne)))
          ],
        )

    moved :
        (i : ℕ) (m : TmpNode)
        → IsNode nodes (names ++ name) metas i m
        → IsNode (nodes ++ n ∷ []) (names ++ name) metas i m
    moved i m node = record {
      parent_lt = node.parent_lt;
      parent_dir = IsDir-append nodes (n ∷ []) m.parent node.parent_dir;
      named = node.named;
      entry = node.entry;
    }

    renamed :
        (i : ℕ) (m : TmpNode)
        → IsNode nodes names metas i m
        → IsNode nodes (names ++ name) metas i m
    renamed i m node = record {
      parent_lt = node.parent_lt;
      parent_dir = node.parent_dir;
      named = let (x, e, safe) = node.named in (x, node_name-append m names name x e, safe);
      entry = node.entry;
    }

    child :
        (i : ℕ) (m : TmpNode)
        → get_elem? (nodes ++ n ∷ []) (suc i) ≡ some m
        → IsNode (nodes ++ n ∷ []) (names ++ name) metas (suc i) m
    child i m h = elim (get_elem?-push nodes n m (suc i) h) [
      | inl e ↦ moved (suc i) m (renamed (suc i) m (tree.child i m e))
      | inr (e, g) ↦ moved (suc i) m (
          subst (λ k. IsNode nodes (names ++ name) metas k m) (sym e)
            (subst (IsNode nodes (names ++ name) metas (length nodes)) (sym g) new))
    ]

-- No node stands in a node, and it is not the directory of the last entry.
abbrev pub IsLeaf : List TmpNode → ℕ → ℕ → Type 0
IsLeaf nodes memo id =
    (((i : ℕ) (m : TmpNode) → get_elem? nodes (suc i) ≡ some m → m.parent ≡ id → ⊥)
      × (memo ≡ id → ⊥))
    × (1 ≤ id)

module _ (nodes : List TmpNode) (id : ℕ) (n n₁ : TmpNode) (at : get_elem? nodes id ≡ some n) where
  -- A node of the changed list is the changed one or an old one.
  get_elem?-change :
      (i : ℕ) (m : TmpNode)
      → get_elem? (set nodes id n₁) i ≡ some m
      → ((i ≡ id) × (m ≡ n₁)) ⊎ ((i ≡ id → ⊥) × (get_elem? nodes i ≡ some m))
  get_elem?-change i m h = elim (Bool-cases (i == id)) [
    | inl t ↦
        let e = (==_iff i id).0 t in
        let here = get_elem?-set_same nodes id n n₁ at in
        inl (e, eq_of_some (sym h ∙ ap (get_elem? (set nodes id n₁)) e ∙ here))
    | inr f ↦
        let ne : i ≡ id → ⊥ = λ e. let t = (==_iff i id).1 e in cc in
        inr (ne, sym (get_elem?-set_other nodes id i n₁ (λ e. ne (sym e))) ∙ h)
  ]

  pub IsDir-change :
      (p : ℕ) → (n₁.kind ≡ NodeKind.dir) ⊎ (p ≡ id → ⊥) → IsDir nodes p → IsDir (set nodes id n₁) p
  IsDir-change p how (d, e, k) = elim (Bool-cases (p == id)) [
    | inl t ↦
        let same = (==_iff p id).0 t in
        elim how [
          | inl is_dir ↦ (
            n₁,
            ap (get_elem? (set nodes id n₁)) same ∙ get_elem?-set_same nodes id n n₁ at,
            is_dir,
          )
          | inr ne ↦ absurd (ne same)
        ]
    | inr f ↦
        let ne : id ≡ p → ⊥ = λ e. let t = (==_iff p id).1 (sym e) in cc in
        (d, get_elem?-set_other nodes id p n₁ ne ∙ e, k)
  ]

  module _ (off : n₁.name_off ≡ n.name_off) (len : n₁.name_len ≡ n.name_len)
      (parent : n₁.parent ≡ n.parent) where
    node_name-change : (names : Bytes) → node_name n₁ names ≡ node_name n names
    unfolding node_name
    node_name-change names = rw (off, len) refl

    key_of-change :
        (names : Bytes) (i : ℕ) (key : Key)
        → key_of nodes names i ≡ some key
        → key_of (set nodes id n₁) names i ≡ some key
    unfolding key_of
    key_of-change names i key h = elim (Bool-cases (i == id)) [
      | inl t ↦
          let same = (==_iff i id).0 t in
          let (m, e, named, up) = key_of-some nodes names i key h in
          let m_is : m ≡ n = eq_of_some (sym e ∙ ap (get_elem? nodes) same ∙ at) in
          let here : get_elem? (set nodes id n₁) i ≡ some n₁ =
            ap (get_elem? (set nodes id n₁)) same ∙ get_elem?-set_same nodes id n n₁ at in
          let name : node_name n₁ names ≡ some key.1 =
            node_name-change names ∙ ap (λ x. node_name x names) (sym m_is) ∙ named in
          let par : n₁.parent ≡ key.0 = parent ∙ ap (λ (x : TmpNode). x.parent) (sym m_is) ∙ up in
          rw (here, name, par) refl
      | inr f ↦
          let ne : id ≡ i → ⊥ = λ e. let t = (==_iff i id).1 (sym e) in cc in
          rw (get_elem?-set_other nodes id i n₁ ne) h
    ]

    -- A node whose place and name stay the same gets another kind or another entry.
    pub set-IsTree :
        (names : Bytes) (metas metas₁ : List EntryMeta) (t : Interner) (memo : ℕ)
        → IsTree nodes names metas t memo
        → length metas ≤ length metas₁
        → HasEntry metas₁ n₁
        → (n₁.kind ≡ NodeKind.dir) ⊎ IsLeaf nodes memo id
        → IsTree (set nodes id n₁) names metas₁ t memo
    set-IsTree names metas metas₁ t memo tree le entry how = record {
      table = IsTable-along nodes (set nodes id n₁) names names t (key_of-change names) tree.table;
      held = λ x.
          subst (λ k. Holds t.slots x ↔ ((1 ≤ x) × (x < k))) (sym (length-set nodes id n₁))
            (tree.held x);
      root = IsDir-change 0 (other_root how) tree.root;
      child = child;
      memo_dir = IsDir-change memo (other_memo how) tree.memo_dir;
    }
      where
        other_root :
            (n₁.kind ≡ NodeKind.dir) ⊎ IsLeaf nodes memo id
            → (n₁.kind ≡ NodeKind.dir) ⊎ (0 ≡ id → ⊥)
        other_root (inl k) = inl k
        other_root (inr (_, pos)) = inr (λ e. absurd (omega (arith, e, pos)))

        other_memo :
            (n₁.kind ≡ NodeKind.dir) ⊎ IsLeaf nodes memo id
            → (n₁.kind ≡ NodeKind.dir) ⊎ (memo ≡ id → ⊥)
        other_memo (inl k) = inl k
        other_memo (inr ((_, ne), pos)) = inr ne

        parent_of :
            (i : ℕ) (m : TmpNode)
            → get_elem? nodes (suc i) ≡ some m
            → (n₁.kind ≡ NodeKind.dir) ⊎ IsLeaf nodes memo id
            → (n₁.kind ≡ NodeKind.dir) ⊎ (m.parent ≡ id → ⊥)
        parent_of i m e (inl k) = inl k
        parent_of i m e (inr ((leaf, _), _)) = inr (leaf i m e)

        child :
            (i : ℕ) (m : TmpNode)
            → get_elem? (set nodes id n₁) (suc i) ≡ some m
            → IsNode (set nodes id n₁) names metas₁ (suc i) m
        child i m h = elim (get_elem?-change (suc i) m h) [
          | inl (i_is, m_is) ↦
              let old : get_elem? nodes (suc i) ≡ some n = ap (get_elem? nodes) i_is ∙ at in
              let node = tree.child i n old in
              subst (IsNode (set nodes id n₁) names metas₁ (suc i)) (sym m_is) (record {
                parent_lt = subst (λ k. k < suc i) (sym parent) node.parent_lt;
                parent_dir =
                    subst (IsDir (set nodes id n₁)) (sym parent)
                      (IsDir-change n.parent (parent_of i n old how) node.parent_dir);
                named = let (x, e, safe) = node.named in (x, node_name-change names ∙ e, safe);
                entry = entry;
              })
          | inr (_, old) ↦
              let node = tree.child i m old in
              record {
                parent_lt = node.parent_lt;
                parent_dir = IsDir-change m.parent (parent_of i m old how) node.parent_dir;
                named = node.named;
                entry = HasEntry-more metas metas₁ m le node.entry;
              }
        ]
