-- ===== src/Build/Attach.antt =====
-- An entry that becomes that of a node keeps the tree.
use zipfs.Base.{
  ℕ, ◌+◌, ◌≤◌, ◌≡◌, ◌⊎◌, refl, sym, subst, inl, inr, false, not, Bool-cases, some, [], ◌∷◌, ◌++◌,
  length, length-append, length-set, get_elem?, set, ok, ◌>>=◌, ltb, arith,
}
use zipfs.Base.Word.{u32_mod}
use zipfs.Entry.{NodeKind, EntryMeta}
use zipfs.Index.{is_dir}
use zipfs.Intern.{TmpNode}
use zipfs.Build.{Builder, metadata_count, try_from, or_panic}
use zipfs.Build.Entries.{count_entry, take_slot, is_symlink, as_entry, attach_meta, attach}
use zipfs.Build.Tree.{Tree, Safe, Safe-bind, try_from-Safe}
use zipfs.Build.Changes.{IsLeaf, set-IsTree}

-- A builder whose nodes are a tree, at most so many.
pub record IsBuilt (count : ℕ) (b : Builder) : Type 0 where
  pub tree : Tree b
  pub room : length b.nodes ≤ count

-- A node of the tree may become one of this kind.
pub record Ready (count : ℕ) (b : Builder) (id : ℕ) (kind : NodeKind) : Type 0 where
  pub tree : Tree b
  pub room : length b.nodes ≤ count
  pub node : (n : TmpNode) × (get_elem? b.nodes id ≡ some n)
  pub free : (kind ≡ NodeKind.dir) ⊎ IsLeaf b.nodes b.memo_id id

count_entry-Ready :
    (count : ℕ) (b : Builder) (id : ℕ) (kind : NodeKind) (meta : EntryMeta)
    → Ready count b id kind
    → Ready count (count_entry b meta) id kind
unfolding count_entry
count_entry-Ready count b id kind meta r = record {
  tree = r.tree;
  room = r.room;
  node = r.node;
  free = r.free;
}

take_slot-Ready :
    (count : ℕ) (b : Builder) (id : ℕ) (kind : NodeKind) (meta : EntryMeta)
    → Ready count b id kind
    → Safe (λ (b₁, _). Ready count b₁ id kind) (take_slot b kind meta)
unfolding take_slot
take_slot-Ready count b id kind meta r = elim (Bool-cases (is_symlink kind)) [
  | inl t ↦ elim (Bool-cases (ltb (b.symlink_count + 1) u32_mod)) [
    | inl h ↦ simp (t, h) (record { tree = r.tree; room = r.room; node = r.node; free = r.free })
    | inr h ↦ simp (t, h) tt
  ]
  | inr f ↦ simp f r
]

as_entry-same :
    (kind : NodeKind) (meta : ℕ) (n : TmpNode)
    → ((as_entry kind meta n).kind ≡ kind)
      × ((as_entry kind meta n).meta ≡ meta)
      × ((as_entry kind meta n).name_off ≡ n.name_off)
      × ((as_entry kind meta n).name_len ≡ n.name_len)
      × ((as_entry kind meta n).parent ≡ n.parent)
unfolding as_entry
as_entry-same kind meta n = (refl, refl, refl, refl, refl)

attach_meta-Safe :
    (count : ℕ) (b : Builder) (id : ℕ) (kind : NodeKind) (meta : EntryMeta)
    → Ready count b id kind
    → Safe (IsBuilt count) (attach_meta id kind (b, meta))
unfolding attach_meta or_panic
attach_meta-Safe count b id kind meta r =
    Safe-bind _ (IsBuilt count) (try_from u32_mod metadata_count (length b.metas)) _
      (try_from-Safe u32_mod metadata_count (length b.metas))
      (λ idx (idx_is, _). attached idx idx_is r.node)
  where
    attached :
        (idx : ℕ)
        → idx ≡ length b.metas
        → (n : TmpNode) × (get_elem? b.nodes id ≡ some n)
        → Safe (IsBuilt count) (
            or_panic (get_elem? b.nodes id) >>= λ n. ok (record b {
              metas = b.metas ++ meta ∷ [];
              nodes = set b.nodes id (as_entry kind idx n);
            }))
    attached idx idx_is (n, at) =
        let (is, entry, off, len, parent) = as_entry-same kind idx n in
        let m = as_entry kind idx n in
        let longer = length-append b.metas (meta ∷ []) in
        let free = subst (λ k. (k ≡ NodeKind.dir) ⊎ IsLeaf b.nodes b.memo_id id) (sym is) r.free in
        rw at (record {
          tree =
              set-IsTree b.nodes id n m at off len parent b.names b.metas (b.metas ++ meta ∷ [])
                b.interner b.memo_id r.tree (omega (arith, longer))
                (inr (omega (arith, entry, idx_is, longer))) free;
          room = omega (arith, r.room, length-set b.nodes id m);
        })

pub attach-Safe :
    (count : ℕ) (b : Builder) (id : ℕ) (kind : NodeKind) (meta : EntryMeta)
    → Ready count b id kind
    → Safe (IsBuilt count) (attach b id kind meta)
unfolding attach
attach-Safe count b id kind meta r =
    Safe-bind (λ (b₁, _). Ready count b₁ id kind) (IsBuilt count)
      (take_slot (count_entry b meta) kind meta) (attach_meta id kind)
      (take_slot-Ready count (count_entry b meta) id kind meta
        (count_entry-Ready count b id kind meta r))
      (λ (b₁, meta₁) r₁. attach_meta-Safe count b₁ id kind meta₁ r₁)

pub is_dir-dir : (kind : NodeKind) → not (is_dir kind) ≡ false → kind ≡ NodeKind.dir
unfolding is_dir
is_dir-dir NodeKind.dir h = refl
is_dir-dir NodeKind.file h = absurd (cc h)
is_dir-dir NodeKind.symlink h = absurd (cc h)
