-- ===== src/Build/Adds.antt =====
-- `add` keeps the tree, whatever the entry.
use zipfs.Base.{
  ℕ, suc, ◌+◌, ◌≤◌, ◌<◌, ◌≡◌, refl, sym, ap, subst, ◌∙◌, inl, inr, Bool, true, false, not, ◌&&◌,
  Bool-cases, Option, none, some, List, [], ◌∷◌, length, get_elem?, ok, err, ltb, ◌==◌, arith,
}
use Prim.Native.Nat.{bit_and}
use zipfs.Base.Bytes.{Bytes}
use zipfs.Base.Word.{u32_mod}
use zipfs.Entry.{NodeKind, EntryMeta}
use zipfs.Index.{is_dir}
use zipfs.Intern.{TmpNode}
use zipfs.Paths.{Reason, components, normalize_path, reject_reason}
use zipfs.Paths.Safe.{IsName, AllIsName, reject_reason-none}
use zipfs.Intern.Insert.{with_capacity-IsTable}
use zipfs.Build
use zipfs.Build.{
  Builder, Built, Stop, Limit, Complaint, file_and_directory, duplicate_entry, sizes_differ,
  size_is_zero, metadata_count, try_from, or_panic, complain_dup, complain_reject, split_parent,
  resolve_parent, intern, new, root,
}
use zipfs.Build.Entries.{
  Record, count_duplicate, uncount_synthetic, add_again, add_interned, add_leaf, add_accepted,
  kind_of, reject, reject_size, add_sized, sizes_differ_in, add_unless, add, add_all,
}
use zipfs.Build.Split.{init, last, split_parent-components}
use zipfs.Build.Tree.{Tree, Safe, Safe-bind}
use zipfs.Build.Interned.{Interned, AsInterned, intern-Safe}
use zipfs.Build.Parents.{InTree, resolve_parent-Safe}
use zipfs.Build.Attach.{IsBuilt, Ready, attach-Safe, is_dir-dir}

count_duplicate-IsBuilt :
    (count : ℕ) (b : Builder) → IsBuilt count b → IsBuilt count (count_duplicate b)
unfolding count_duplicate
count_duplicate-IsBuilt count b i = record { tree = i.tree; room = i.room }

complain_dup-IsBuilt :
    (count : ℕ) (b : Builder) (c : Complaint)
    → IsBuilt count b
    → IsBuilt count (count_duplicate (complain_dup b c))
unfolding count_duplicate complain_dup
complain_dup-IsBuilt count b c i = record { tree = i.tree; room = i.room }

reject_size-IsBuilt :
    (count : ℕ) (b : Builder) (c : Complaint) → IsBuilt count b → IsBuilt count (reject_size b c)
unfolding reject_size complain_reject
reject_size-IsBuilt count b c i = record { tree = i.tree; room = i.room }

add_again-Safe :
    (count : ℕ) (b : Builder) (path : Bytes) (id : ℕ) (kind : NodeKind) (meta : EntryMeta)
    (n : TmpNode)
    → IsBuilt count b
    → get_elem? b.nodes id ≡ some n
    → Safe (IsBuilt count) (add_again b path id kind meta n)
unfolding add_again uncount_synthetic
add_again-Safe count b path id kind meta n i at =
    elim (Bool-cases (is_dir n.kind && not (is_dir kind))) [
      | inl t ↦ simp t (complain_dup-IsBuilt count b (file_and_directory path) i)
      | inr f ↦ elim (Bool-cases (bit_and n.flags Build.flag_synthetic == 0)) [
        | inl t ↦ simp f (simp t (complain_dup-IsBuilt count b (duplicate_entry path) i))
        | inr g ↦ elim (Bool-cases (not (is_dir kind))) [
          | inl t ↦ simp f (simp g (simp t (count_duplicate-IsBuilt count b i)))
          | inr h ↦
              let ready : Ready count (uncount_synthetic b) id kind = record {
                tree = i.tree;
                room = i.room;
                node = (n, at);
                free = inl (is_dir-dir kind h);
              } in
              simp f (simp g (simp h (attach-Safe count (uncount_synthetic b) id kind meta ready)))
        ]
      ]
    ]

add_interned-Safe :
    (count : ℕ) (path : Bytes) (kind : NodeKind) (meta : EntryMeta) (b : Builder) (id : ℕ)
    (fresh : Bool)
    → Interned count b id fresh
    → Safe (IsBuilt (count + 1)) (add_interned path kind meta (b, id, fresh))
unfolding add_interned or_panic
add_interned-Safe count path kind meta b id true i =
    attach-Safe (count + 1) b id kind meta
      (record { tree = i.tree; room = i.room; node = i.is_node; free = inr (i.fresh_leaf refl) })
add_interned-Safe count path kind meta b id false i =
    let (n, at) = i.is_node in
    rw at (
      add_again-Safe (count + 1) b path id kind meta n (record { tree = i.tree; room = i.room }) at)

IsBuilt-more : (m n : ℕ) (r : Built Builder) → m ≤ n → Safe (IsBuilt m) r → Safe (IsBuilt n) r
IsBuilt-more m n (ok b) le i = record { tree = i.tree; room = omega (arith, i.room) }
IsBuilt-more m n (err (Stop.too_large limit)) le i = tt
IsBuilt-more m n (err Stop.panicked) le i = i

add_leaf-Safe :
    (count : ℕ) (path : Bytes) (kind : NodeKind) (meta : EntryMeta) (leaf : Bytes) (b : Builder)
    (p : ℕ)
    → InTree count b p
    → IsName leaf
    → suc count < u32_mod
    → Safe (IsBuilt (count + 1)) (add_leaf path kind meta leaf (b, p))
unfolding add_leaf
add_leaf-Safe count path kind meta leaf b p i name word =
    Safe-bind (AsInterned (length b.nodes)) (IsBuilt (count + 1)) (intern b p leaf)
      (add_interned path kind meta)
      (intern-Safe b p leaf i.tree i.is_dir name (omega (arith, i.room, word)))
      (λ (b₁, id, fresh) j.
        IsBuilt-more (length b.nodes + 1) (count + 1) (add_interned path kind meta (b₁, id, fresh))
          (omega (arith, i.room)) (add_interned-Safe (length b.nodes) path kind meta b₁ id fresh j))

AllIsName-init : (c : Bytes) (cs : List Bytes) → AllIsName (c ∷ cs) → AllIsName (init c cs)
AllIsName-init c [] n = tt
AllIsName-init c (d ∷ ds) (first, n) = (first, AllIsName-init d ds n)

AllIsName-last : (c : Bytes) (cs : List Bytes) → AllIsName (c ∷ cs) → IsName (last c cs)
AllIsName-last c [] (first, n) = first
AllIsName-last c (d ∷ ds) (first, n) = AllIsName-last d ds n

length-init : (c : Bytes) (cs : List Bytes) → length (init c cs) ≡ length cs
length-init c [] = refl
length-init c (d ∷ ds) = ap suc (length-init d ds)

add_accepted-Safe :
    (b : Builder) (path : Bytes) (entry_is_dir : Bool) (meta : EntryMeta) (c : Bytes)
    (cs : List Bytes)
    → Tree b
    → components path ≡ c ∷ cs
    → AllIsName (c ∷ cs)
    → length b.nodes + length (c ∷ cs) < u32_mod
    → Safe (IsBuilt (length b.nodes + length (c ∷ cs))) (add_accepted b path entry_is_dir meta)
unfolding add_accepted
add_accepted-Safe b path entry_is_dir meta c cs tree is all word =
    let split = split_parent (normalize_path path) in
    let (front, leaf) = split_parent-components path c cs is in
    let size : length (components split.0) ≡ length cs = ap length front ∙ length-init c cs in
    let names = subst AllIsName (sym front) (AllIsName-init c cs all) in
    let name = subst IsName (sym leaf) (AllIsName-last c cs all) in
    let count = length b.nodes + length (components split.0) in
    let count₁ = length b.nodes + length (c ∷ cs) in
    Safe-bind (λ (b₁, p). InTree count b₁ p × (b₁.memo_id ≡ p)) (IsBuilt count₁)
      (resolve_parent b split.0) (add_leaf path (kind_of entry_is_dir meta) meta split.1)
      (resolve_parent-Safe b split.0 tree names (omega (arith, word, size)))
      (λ (b₁, p) (i, _).
        IsBuilt-more (count + 1) count₁
          (add_leaf path (kind_of entry_is_dir meta) meta split.1 (b₁, p)) (omega (arith, size))
          (add_leaf-Safe count path (kind_of entry_is_dir meta) meta split.1 b₁ p i name
            (omega (arith, word, size))))

accepted-Safe :
    (b : Builder) (path : Bytes) (entry_is_dir : Bool) (meta : EntryMeta) (comps : List Bytes)
    → Tree b
    → components path ≡ comps
    → AllIsName comps
    → 1 ≤ length comps
    → length b.nodes + length comps < u32_mod
    → Safe (IsBuilt (length b.nodes + length comps)) (add_accepted b path entry_is_dir meta)
accepted-Safe b path entry_is_dir meta [] tree is all some_left word = absurd (omega arith)
accepted-Safe b path entry_is_dir meta (c ∷ cs) tree is all some_left word =
    add_accepted-Safe b path entry_is_dir meta c cs tree is all word

add_sized-Safe :
    (b : Builder) (path : Bytes) (entry_is_dir : Bool) (meta : EntryMeta)
    → Tree b
    → reject_reason path ≡ none
    → length b.nodes + length (components path) < u32_mod
    → Safe
        (IsBuilt (length b.nodes + length (components path)))
        (add_sized b path entry_is_dir meta)
unfolding add_sized
add_sized-Safe b path entry_is_dir meta tree accepted word =
    let count = length b.nodes + length (components path) in
    let kept : IsBuilt count b = record { tree = tree; room = omega arith } in
    elim (Bool-cases (sizes_differ_in meta)) [
      | inl t ↦ simp t (reject_size-IsBuilt count b (sizes_differ path) kept)
      | inr f ↦ elim (Bool-cases (ltb 0 meta.uncompressed_size && meta.compressed_size == 0)) [
        | inl t ↦ simp f (simp t (reject_size-IsBuilt count b (size_is_zero path) kept))
        | inr g ↦
            let (names, some_left, _) = reject_reason-none path accepted in
            simp f (
              simp g (
                accepted-Safe b path entry_is_dir meta (components path) tree refl names some_left
                  word))
      ]
    ]

add_unless-Safe :
    (b : Builder) (path : Bytes) (entry_is_dir : Bool) (meta : EntryMeta) (why : Option Reason)
    → Tree b
    → reject_reason path ≡ why
    → length b.nodes + length (components path) < u32_mod
    → Safe
        (IsBuilt (length b.nodes + length (components path)))
        (add_unless b path entry_is_dir meta why)
unfolding add_unless reject complain_reject
add_unless-Safe b path entry_is_dir meta none tree accepted word =
    add_sized-Safe b path entry_is_dir meta tree accepted word
add_unless-Safe b path entry_is_dir meta (some why) tree e word = record {
  tree = tree;
  room = omega arith;
}

add-Safe :
    (b : Builder) (path : Bytes) (entry_is_dir : Bool) (meta : EntryMeta)
    → Tree b
    → length b.nodes + length (components path) < u32_mod
    → Safe (IsBuilt (length b.nodes + length (components path))) (add b path entry_is_dir meta)
unfolding add
add-Safe b path entry_is_dir meta tree word =
    add_unless-Safe b path entry_is_dir meta (reject_reason path) tree refl word

-- How many components the paths of the records have.
abbrev pub total : List Record → ℕ
total [] = 0
total (r ∷ rs) = length (components r.path) + total rs

add_all-Safe :
    (rs : List Record) (b : Builder)
    → Tree b
    → length b.nodes + total rs < u32_mod
    → Safe (λ b₁. Tree b₁) (add_all b rs)
unfolding add_all
add_all-Safe [] b tree word = tree
add_all-Safe (r ∷ rs) b tree word =
    let count = length b.nodes + length (components r.path) in
    Safe-bind (IsBuilt count) (λ b₁. Tree b₁) (add b r.path r.entry_is_dir r.meta)
      (λ b₁. add_all b₁ rs) (add-Safe b r.path r.entry_is_dir r.meta tree (omega (arith, word)))
      (λ b₁ i. add_all-Safe rs b₁ i.tree (omega (arith, i.room, word)))

new-Tree : (hint : ℕ) → Tree (new hint)
unfolding new root
new-Tree hint =
    let nodes = root ∷ [] in
    let (table, empty) = with_capacity-IsTable nodes [] hint in
    record {
      table = table;
      held = λ x. (λ h. absurd (empty x h), λ (pos, lt). absurd (omega (arith, pos, lt)));
      root = (root, refl, refl);
      child = λ i n h. absurd (cc h);
      memo_dir = (root, refl, refl);
    }

-- Whatever records the central directory has, with fewer than `2 ^ 32 - 1` path components in all:
-- adding them one after the other never panics. It stops because the index has no room for more, or
-- leaves a tree: each node but the first stands in a directory that was found before it, under a name
-- that is safe and that no other node of the directory has; each has an entry or is a directory; and
-- the interner finds exactly these nodes.
pub add_all-Tree :
    (hint : ℕ) (rs : List Record)
    → 1 + total rs < u32_mod
    → Safe (λ b. Tree b) (add_all (new hint) rs)
unfolding new
add_all-Tree hint rs word = add_all-Safe rs (new hint) (new-Tree hint) word
