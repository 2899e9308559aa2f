-- ===== src/Index/Lookup.antt =====
-- Looking a name up finds it exactly where it is.
use mathlib.Core.Option
use Prim.Native.Nat.{Ordering}
use Prim.Native.Nat.Ordering.{lt, eq, gt}
use zipfs.Base.{
  ℕ, zero, suc, ◌+◌, ◌-◌, ◌/◌, ◌≤◌, ◌<◌, ◌≡◌, ◌↔◌, inl, inr, refl, sym, ap, subst, ◌∙◌, true, false,
  Option, none, some, List, [], ◌∷◌, leb, leb→le, leb→lt, ◌==◌, if◌then◌else◌, length, get_elem?,
  take, drop, Bool-cases, Option-cases, eq_of_some, lt-length_of_get_elem?, arith,
}
use zipfs.Index.{
  Index, Node, is_dir, compare_bytes, bisect, halve, is_greater, binary_search_by, node, name,
  children, compare_child, lookup_in, lookup_among, lookup,
}
use zipfs.Index.Order.{Ordering-cases, compare_bytes_refl, eq_of_compare_bytes, compare_bytes_swap}

module _ (ask : ℕ → Ordering) where
  -- The element sought is at `at`, and those around it compare as in a sorted sequence.
  abbrev IsAt : ℕ → ℕ → Type 0
  IsAt count at =
      (i : ℕ) → i < count → (i < at → ask i ≡ lt) × (i ≡ at → ask i ≡ eq) × (at < i → ask i ≡ gt)

  halve-one : (base size : ℕ) → size ≤ 1 → halve ask base size ≡ none
  unfolding halve
  halve-one base size h = ground arith

  halve-more :
      (base size : ℕ)
      → 1 < size
      → halve ask base size
        ≡ some
            (if is_greater (ask (base + size / 2)) then base else base + size / 2, size - size / 2)
  unfolding halve
  halve-more base size h = ground arith

  -- The half that is kept has the element sought.
  kept-at :
      (base size count at : ℕ)
      → IsAt count at
      → 1 < size
      → base ≤ at
      → at < base + size
      → base + size ≤ count
      → let kept = if is_greater (ask (base + size / 2)) then base else base + size / 2 in
        (kept ≤ at) × (at < kept + (size - size / 2)) × (kept + (size - size / 2) ≤ count)
  unfolding is_greater
  kept-at base size count at s two low high in_range =
      let (below, same, above) = s (base + size / 2) (omega arith) in
      elim (Ordering-cases (ask (base + size / 2))) [
        | inl l ↦
            let upper : base + size / 2 ≤ at = ground (arith, above, l) in
            rw l (upper, omega arith, omega arith)
        | inr (inl q) ↦
            let upper : base + size / 2 ≤ at = ground (arith, above, q) in
            rw q (upper, omega arith, omega arith)
        | inr (inr g) ↦
            let lower : at < base + size / 2 = ground (arith, below, same, g) in
            rw g (low, omega arith, omega arith)
      ]

  bisect-at :
      (fuel base size count at : ℕ)
      → IsAt count at
      → size ≤ fuel
      → base ≤ at
      → at < base + size
      → base + size ≤ count
      → bisect ask fuel base size ≡ at
  unfolding bisect
  bisect-at zero base size count at s f low high in_range = absurd (omega arith)
  bisect-at (suc fuel) base size count at s f low high in_range = elim (Bool-cases (leb size 1)) [
    | inl e ↦ let one = leb→le _ _ e in rw (halve-one base size one, bisect) (omega arith)
    | inr e ↦
        let two = leb→lt _ _ e in
        let (low', high', in_range') = kept-at base size count at s two low high in_range in
        rw (halve-more base size two, bisect)
          (bisect-at fuel _ (size - size / 2) count at s (omega arith) low' high' in_range')
  ]

  found-at : (count at : ℕ) → IsAt count at → at < count → binary_search_by ask count ≡ some at
  unfolding binary_search_by
  found-at count at s h =
      let (_, same, _) = s at h in
      let found : bisect ask count 0 count ≡ at =
        bisect-at count 0 count count at s (omega arith) (omega arith) (omega arith)
          (omega arith) in
      let some_left : (count == 0) ≡ false = ground arith in
      let hit : ask (bisect ask count 0 count) ≡ eq = ap ask found ∙ same refl in
      rw (some_left, hit) (ap some found)

  at-found : (count i : ℕ) → binary_search_by ask count ≡ some i → ask i ≡ eq
  unfolding binary_search_by
  at-found count i h = elim (Bool-cases (count == 0)) [
    | inl e ↦ absurd (ground (arith, rw e at h))
    | inr e ↦ elim (Ordering-cases (ask (bisect ask count 0 count))) [
      | inl l ↦ absurd (ground (arith, rw (e, l) at h))
      | inr (inl q) ↦ subst (λ k. ask k ≡ eq) (eq_of_some (rw (e, q) at h)) q
      | inr (inr g) ↦ absurd (ground (arith, rw (e, g) at h))
    ]
  ]

some_of_lt :
    {A : Type 0} (xs : List A) (i : ℕ) → i < length xs → (a : A) × (get_elem? xs i ≡ some a)
some_of_lt [] i h = absurd (omega arith)
some_of_lt (x ∷ xs) zero h = (x, refl)
some_of_lt (x ∷ xs) (suc i) h = some_of_lt xs i (omega arith)

module _ (index : Index) where
  -- The children of a directory are nodes, in the order of their names, no two of the same name.
  pub record IsSorted (dir : Node) : Type 0 where
    pub kind : is_dir dir.kind ≡ true
    pub order :
        (i j : ℕ) (a b : Node)
        → i < j
        → get_elem? (children index dir) i ≡ some a
        → get_elem? (children index dir) j ≡ some b
        → compare_bytes (name index a) (name index b) ≡ lt

  module _ (sought : List ℕ) (dir : Node) where
    ask : ℕ → Ordering
    ask i = compare_child index sought (get_elem? (children index dir) i)

    children-kids :
        is_dir dir.kind ≡ true
        → children index dir ≡ take dir.child_len (drop dir.first_child index.nodes)
    unfolding children
    children-kids h = simp h refl

    lookup_in-bisects :
        is_dir dir.kind ≡ true
        → lookup_in index sought dir
          ≡ Option.map
              (λ i. dir.first_child + i)
              (binary_search_by ask (length (children index dir)))
    unfolding lookup_in lookup_among ask
    lookup_in-bisects h =
        simp h (ap (lookup_among index sought dir.first_child) (sym (children-kids h)))

    compare_child-eq :
        (o : Option Node)
        → compare_child index sought o ≡ eq
        → (child : Node) × (o ≡ some child) × (name index child ≡ sought)
    unfolding compare_child
    compare_child-eq none h = absurd (ground arith)
    compare_child-eq (some c) h = (c, refl, eq_of_compare_bytes (name index c) sought h)

    ask-IsAt :
        (i : ℕ) (child : Node)
        → IsSorted dir
        → get_elem? (children index dir) i ≡ some child
        → name index child ≡ sought
        → IsAt ask (length (children index dir)) i
    unfolding ask compare_child
    ask-IsAt i child s at same j h =
        let (c, e) = some_of_lt (children index dir) j h in
        let there : ask j ≡ compare_bytes (name index c) sought =
          ap (compare_child index sought) e in
        (
          λ less.
              there
              ∙ subst (λ n. compare_bytes (name index c) n ≡ lt) same
                  (s.order j i c child less e at),
          λ equal.
              let node_same : c ≡ child =
                eq_of_some (sym e ∙ ap (get_elem? (children index dir)) equal ∙ at) in
              there
              ∙ subst (λ n. compare_bytes (name index c) n ≡ eq) (ap (name index) node_same ∙ same)
                  (compare_bytes_refl (name index c)),
          λ more.
              there
              ∙ compare_bytes_swap sought (name index c) (
                  subst (λ n. compare_bytes n (name index c) ≡ lt) same
                    (s.order i j child c more at e)),
        )

    found-child :
        (ino : ℕ)
        → IsSorted dir
        → lookup_in index sought dir ≡ some ino
        → (i : ℕ) × (child : Node) × (get_elem? (children index dir) i ≡ some child)
          × (name index child ≡ sought)
          × (ino ≡ dir.first_child + i)
    unfolding ask
    found-child ino s h =
        let g = sym (lookup_in-bisects s.kind) ∙ h in
        elim (Option-cases (binary_search_by ask (length (children index dir)))) [
          | inl e ↦ absurd (ground (arith, rw e at g))
          | inr (i, e) ↦
              let (child, at, same) =
                compare_child-eq (get_elem? (children index dir) i)
                  (at-found ask (length (children index dir)) i e) in
              (i, child, at, same, sym (eq_of_some (rw e at g)))
        ]

    child-found :
        (i : ℕ) (child : Node)
        → IsSorted dir
        → get_elem? (children index dir) i ≡ some child
        → name index child ≡ sought
        → lookup_in index sought dir ≡ some (dir.first_child + i)
    child-found i child s at same =
        lookup_in-bisects s.kind
        ∙ ap (Option.map (λ i. dir.first_child + i)) (
            found-at ask (length (children index dir)) i (ask-IsAt i child s at same)
              (lt-length_of_get_elem? (children index dir) i child at))

  -- Looking a name up in a directory whose children are in order gives an inode exactly if it is
  -- that of a child of that name.
  pub lookup-children :
      (parent ino : ℕ) (sought : List ℕ) (dir : Node)
      → node index parent ≡ some dir
      → IsSorted dir
      → (lookup index parent sought ≡ some ino) ↔ (
          (i : ℕ) × (child : Node) × (get_elem? (children index dir) i ≡ some child)
          × (name index child ≡ sought)
          × (ino ≡ dir.first_child + i))
  unfolding lookup Option.bind
  lookup-children parent ino sought dir at s =
      let opened : lookup index parent sought ≡ lookup_in index sought dir =
        ap (λ o. Option.bind o (lookup_in index sought)) at in
      (
        λ h. found-child sought dir ino s (sym opened ∙ h),
        λ (i, child, there, same, e).
            opened ∙ child-found sought dir i child s there same ∙ ap some (sym e),
      )
