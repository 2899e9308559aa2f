-- ===== src/Index.antt =====
-- src/index.rs: the tree of names, whose nodes are found by their inode numbers. A name is a list of
-- bytes; a slice of the nodes or of the names that goes past their end, on which the source panics,
-- is cut off here. `symlinks` are the cells of the targets; writing to one returns the new index.
pub mod Order
pub mod Lookup
use mathlib.Core.Option
use Prim.Native.Nat.{compare, Ordering}
use Prim.Native.Nat.Ordering.{lt, eq, gt}
use zipfs.Base.{
  ℕ, zero, suc, ◌+◌, ◌-◌, ◌/◌, Bool, true, false, Option, none, some, List, [], ◌∷◌, ltb, leb, ◌==◌,
  if◌then◌else◌, length, get_elem?, set, take, drop,
}
use zipfs.Entry.{NodeKind, EntryMeta}

abbrev pub no_meta : ℕ
no_meta = 4294967295

pub record Node : Type 0 where
  pub name_off : ℕ
  pub name_len : ℕ
  pub kind : NodeKind
  pub flags : ℕ
  pub parent : ℕ
  pub first_child : ℕ
  pub child_len : ℕ
  pub subdir_count : ℕ
  pub meta : ℕ

pub record Index : Type 0 where
  pub nodes : List Node
  pub metas : List EntryMeta
  pub names : List ℕ
  pub symlinks : List (Option (List ℕ))
  pub total_uncompressed : ℕ

unfoldable pub is_dir : NodeKind → Bool
is_dir NodeKind.dir = true
is_dir NodeKind.file = false
is_dir NodeKind.symlink = false

-- `Ord` for byte slices.
unfoldable pub compare_bytes : List ℕ → List ℕ → Ordering
compare_bytes [] [] = eq
compare_bytes [] (y ∷ ys) = lt
compare_bytes (x ∷ xs) [] = gt
compare_bytes (x ∷ xs) (y ∷ ys) =
    let rest = compare_bytes xs ys in elim (compare x y) [ lt ↦ lt | eq ↦ rest | gt ↦ gt ]

unfoldable pub is_greater : Ordering → Bool
is_greater lt = false
is_greater eq = false
is_greater gt = true

-- One turn of the bisection of `binary_search_by` in the standard library, over the `size` elements
-- from `base` on: it keeps the upper half unless the middle one is greater, and ends with one
-- element. `ask` compares the element at an index with the one sought.
unfoldable pub halve : (ℕ → Ordering) → ℕ → ℕ → Option (ℕ × ℕ)
unfolding is_greater
halve ask base size =
    let mid = base + size / 2 in
    if leb size 1 then none else some (if is_greater (ask mid) then base else mid, size - size / 2)

-- The fuel bounds the number of elements left.
unfoldable pub bisect : (ℕ → Ordering) → ℕ → ℕ → ℕ → ℕ
unfolding halve
bisect ask zero base size = base
bisect ask (suc fuel) base size = elim (halve ask base size) [
  | none ↦ base
  | some (base₁, size₁) ↦ bisect ask fuel base₁ size₁
]

unfoldable pub binary_search_by : (ℕ → Ordering) → ℕ → Option ℕ
unfolding bisect
binary_search_by ask size =
    if size == 0
    then none
    else let at = bisect ask size 0 size in elim (ask at) [ eq ↦ some at | _ ↦ none ]

module _ (index : Index) where
  unfoldable pub node : ℕ → Option Node
  node ino = if ino == 0 then none else get_elem? index.nodes ino

  unfoldable pub meta : Node → Option EntryMeta
  meta n = if n.meta == no_meta then none else get_elem? index.metas n.meta

  unfoldable pub name : Node → List ℕ
  name n = take n.name_len (drop n.name_off index.names)

  unfoldable pub children : Node → List Node
  unfolding is_dir
  children n = if is_dir n.kind then take n.child_len (drop n.first_child index.nodes) else []

  unfoldable pub first_child_ino : Node → ℕ
  first_child_ino n = n.first_child

  -- The comparison that `lookup` bisects with: the child at an index, if there is one.
  unfoldable pub compare_child : List ℕ → Option Node → Ordering
  unfolding compare_bytes name
  compare_child sought none = gt
  compare_child sought (some c) = compare_bytes (name c) sought

  -- The search among the children that start at `start`.
  unfoldable pub lookup_among : List ℕ → ℕ → List Node → Option ℕ
  unfolding binary_search_by compare_child
  lookup_among sought start kids =
      Option.map (λ i. start + i)
        (binary_search_by (λ i. compare_child sought (get_elem? kids i)) (length kids))

  unfoldable pub lookup_in : List ℕ → Node → Option ℕ
  unfolding is_dir lookup_among
  lookup_in sought dir =
      let kids = take dir.child_len (drop dir.first_child index.nodes) in
      if is_dir dir.kind then lookup_among sought dir.first_child kids else none

  unfoldable pub lookup : ℕ → List ℕ → Option ℕ
  unfolding node lookup_in
  lookup parent sought = Option.bind (node parent) (lookup_in sought)

  unfoldable pub is_empty : Bool
  is_empty = leb (length index.nodes) 2

  -- The target of a symlink, if it was read.
  unfoldable pub symlink : ℕ → Option (List ℕ)
  symlink slot = Option.bind (get_elem? index.symlinks slot) (λ cell. cell)

-- `OnceLock::set` keeps a value that is there.
unfoldable pub set_once : Option (List ℕ) → List ℕ → List ℕ
set_once none target = target
set_once (some kept) target = kept

unfoldable pub set_symlink : Index → ℕ → List ℕ → Option (List ℕ) × Index
unfolding set_once
set_symlink index slot target = elim (get_elem? index.symlinks slot) [
  | none ↦ (none, index)
  | some cell ↦
      let kept = set_once cell target in
      (some kept, record index { symlinks = set index.symlinks slot (some kept) })
]
