-- ===== src/Tests/Tree.antt =====
-- A directory of two names, a table of handles, and a stored entry that is read in two blocks.
use zipfs.Base.{
  ℕ, suc, ◌+◌, ◌≡◌, ◌↔◌, refl, none, some, List, [], ◌∷◌, ◌<◌, if◌then◌else◌, get_elem?, arith,
  ◌==◌, zero, ap₂, sym, eq_of_some,
}
use Prim.Native.Nat.Ordering.{lt}
use zipfs.Entry.{NodeKind}
use zipfs.Handle.{new, new_table, insert, get}
use zipfs.Handle.Table.{inserts, removes, Call, run, opened, get-insert}
use zipfs.Handle.Stored.{Right, deserved, sum, observe_all, observe_all-Right, observe_all-in_order}
use zipfs.Index.{Index, Node, node, name, children, lookup, is_dir, compare_bytes}
use zipfs.Index.Lookup.{IsSorted, lookup-children}
use zipfs.Tests.Data.{crc, crc-IsHasher, entry}

abbrev calls : List (Call ℕ)
calls = inserts 10 ∷ inserts 11 ∷ removes 1 ∷ []

get-insert_example :
    let t = run calls new_table in
    let (fh, u) = insert 12 t in
    (0 < fh)
    × (get fh t ≡ none)
    × (get fh (run calls u) ≡ (if opened fh calls then some 12 else none))
get-insert_example = get-insert calls calls 12 (omega arith)

abbrev content : List ℕ
content = 1 ∷ 4 ∷ 1 ∷ 5 ∷ []

abbrev blocks : List (ℕ × List ℕ)
blocks = (0, 1 ∷ 4 ∷ []) ∷ (2, 1 ∷ 5 ∷ []) ∷ []

observe_all-Right_example :
    let (fine, v, meta) = observe_all crc crc-IsHasher content blocks (new crc) entry in
    Right crc crc-IsHasher content entry fine meta
observe_all-Right_example =
    observe_all-Right crc crc-IsHasher content (omega arith) blocks entry
      ((omega arith, refl), ((omega arith, refl), tt)) refl

observe_all-in_order_example :
    let (fine, v, meta) = observe_all crc crc-IsHasher content blocks (new crc) entry in
    (meta ≡ deserved crc crc-IsHasher content entry)
    × (fine ≡ (sum crc crc-IsHasher content == entry.crc32))
observe_all-in_order_example =
    observe_all-in_order crc crc-IsHasher content (omega arith) blocks entry
      ((omega arith, refl), ((omega arith, refl), tt)) (refl, (refl, refl)) (omega arith) refl

abbrev pub file_node : ℕ → Node
file_node at = record {
  name_off = at;
  name_len = 1;
  kind = NodeKind.file;
  flags = 0;
  parent = 1;
  first_child = 0;
  child_len = 0;
  subdir_count = 0;
  meta = 0;
}

abbrev pub root : Node
root = record (file_node 0) { name_len = 0; kind = NodeKind.dir; first_child = 2; child_len = 2 }

abbrev pub index : Index
index = record {
  nodes = root ∷ root ∷ file_node 0 ∷ file_node 1 ∷ [];
  metas = entry ∷ [];
  names = 97 ∷ 98 ∷ [];
  symlinks = [];
  total_uncompressed = 4;
}

root_order :
    (i j : ℕ) (a b : Node)
    → i < j
    → get_elem? (children index root) i ≡ some a
    → get_elem? (children index root) j ≡ some b
    → compare_bytes (name index a) (name index b) ≡ lt
unfolding children name is_dir compare_bytes
root_order i zero a b h p q = absurd (omega arith)
root_order zero (suc zero) a b h p q =
    ap₂ (λ x y. compare_bytes (name index x) (name index y)) (sym (eq_of_some p))
      (sym (eq_of_some q))
root_order (suc i) (suc zero) a b h p q = absurd (omega arith)
root_order i (suc (suc j)) a b h p q = absurd (ground arith)

root-IsSorted : IsSorted index root
unfolding children name is_dir compare_bytes
root-IsSorted = record { kind = refl; order = root_order }

lookup-children_example : (lookup index 1 (98 ∷ []) ≡ some 3) ↔ (
    (i : ℕ) × (child : Node) × (get_elem? (children index root) i ≡ some child)
    × (name index child ≡ 98 ∷ [])
    × (3 ≡ root.first_child + i))
unfolding node
lookup-children_example = lookup-children index 1 3 (98 ∷ []) root refl root-IsSorted
