-- ===== src/Tests/Names.antt =====
-- A tree of two nodes while it is being built, and a central directory of four records.
use zipfs.Base.{
  ℕ, ◌≡◌, ◌↔◌, ◌⊎◌, refl, true, false, Option, none, some, List, [], ◌∷◌, ok, err, arith,
}
use zipfs.Base.Bytes.{Bytes, codes}
use zipfs.Entry.{NodeKind}
use zipfs.Hash.{add, rotate_left_5, from_le_bytes, write, write_word, write_u32}
use zipfs.Index.{no_meta}
use zipfs.Intern.{TmpNode, Interner, find, insert, with_capacity, node_name, hash_key}
use zipfs.Intern.Held.{Key, key_of, IsTable}
use zipfs.Intern.Find.{Found, find-Found}
use zipfs.Intern.Grow.{Holds}
use zipfs.Intern.Insert.{with_capacity-IsTable, insert-IsTable}
use zipfs.Paths.{escapes, components, split, push_first, filter, is_meaningful, is_empty, is_dot}
use zipfs.Build.{Builder, Built, Complaint, duplicate_entry, unusable, new}
use zipfs.Build.Entries.{Record, add_all}
use zipfs.Build.Tree.{Tree, Safe}
use zipfs.Build.Adds.{add_all-Tree}
use zipfs.Tests.Data.{entry}

abbrev lib : TmpNode
lib = record {
  name_off = 0;
  name_len = 3;
  kind = NodeKind.dir;
  flags = 1;
  parent = 0;
  meta = no_meta;
}

abbrev nodes : List TmpNode
nodes = lib ∷ lib ∷ []

abbrev names : Bytes
names = codes "lib"

abbrev key : Key
key = (0, codes "lib")

key_of_lib : key_of nodes names 1 ≡ some key
unfolding key_of node_name
key_of_lib = refl

nothing_yet : Found nodes names (with_capacity 1).slots key none
nothing_yet j id stored has = (with_capacity-IsTable nodes names 1).1 id (j, stored)

insert-IsTable_example :
    (t₁ : Interner) × (insert nodes names (with_capacity 1) 1 ≡ some t₁)
    × IsTable nodes names t₁
    × ((x : ℕ) → Holds t₁.slots x ↔ (Holds (with_capacity 1).slots x ⊎ (x ≡ 1)))
insert-IsTable_example =
    insert-IsTable nodes names (with_capacity 1) 1 key (with_capacity-IsTable nodes names 1).0
      key_of_lib (omega arith) nothing_yet

inserted :
    (t₁ : Interner) × (insert nodes names (with_capacity 1) 1 ≡ some t₁)
    × IsTable nodes names t₁
    × ((x : ℕ) → Holds t₁.slots x ↔ (Holds (with_capacity 1).slots x ⊎ (x ≡ 1)))
inserted =
    insert-IsTable nodes names (with_capacity 1) 1 key (with_capacity-IsTable nodes names 1).0
      key_of_lib (omega arith) nothing_yet

-- The table of 32 slots that has the node.
abbrev table : Interner
table = inserted.0

find-Found_example :
    (r : Option ℕ) × (find nodes names table 0 (codes "lib") ≡ some r)
    × Found nodes names table.slots (0, codes "lib") r
find-Found_example =
    let (_, _, is_table, _) = inserted in find-Found nodes names table 0 (codes "lib") is_table

hash_of_lib : hash_key 0 (codes "lib") ≡ 12984673057111905244
unfolding hash_key write write_u32 write_word add rotate_left_5 from_le_bytes
hash_of_lib = refl

-- A file in a directory that is declared later, a second file of the same name, and a path that is
-- refused.
abbrev records : List Record
records =
    record { path = codes "lib/a"; entry_is_dir = false; meta = entry }
    ∷ record { path = codes "lib/"; entry_is_dir = true; meta = entry }
    ∷ record { path = codes "lib/a"; entry_is_dir = false; meta = entry }
    ∷ record { path = codes "../a"; entry_is_dir = false; meta = entry }
    ∷ []

add_all-Tree_example : Safe (λ b. Tree b) (add_all (new 1) records)
unfolding components split push_first filter is_meaningful is_empty is_dot
add_all-Tree_example = add_all-Tree 1 records (omega arith)

-- The kinds of the nodes found, and the path of the one complaint about a duplicate.
abbrev Summary : Type 0
Summary = List NodeKind × List Complaint

abbrev kinds : List TmpNode → List NodeKind
kinds [] = []
kinds (n ∷ ns) = n.kind ∷ kinds ns

abbrev summary : Built Builder → Option Summary
summary (ok b) = some (kinds b.nodes, b.log)
summary (err stop) = none

tree_of_records :
    summary (add_all (new 1) records)
    ≡ some (
      NodeKind.dir ∷ NodeKind.dir ∷ NodeKind.file ∷ [],
      duplicate_entry (codes "lib/a") ∷ unusable escapes (codes "../a") ∷ [],
    )
unfolding add_all new
tree_of_records = refl
