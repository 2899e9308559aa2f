-- ===== src/Build.antt =====
-- The builder of src/index/build.rs, which finds the nodes of the tree in the order of the archive: its
-- state, and how the directory of a path is found. A method gives the builder back, or why it stopped:
-- the index has no room for more, or a panic. Log lines are kept in the order they are written.
pub mod Entries
pub mod Split
pub mod Tree
pub mod Changes
pub mod Interned
pub mod Parents
pub mod Attach
pub mod Adds
use Prim.Native.Nat.{bit_and, bit_or}
use zipfs.Base.{
  ℕ, zero, suc, ◌+◌, ◌-◌, ◌*◌, ◌%◌, Bool, true, false, not, ◌&&◌, ◌||◌, Option, none, some, List,
  [], ◌∷◌, ◌++◌, ltb, leb, ◌==◌, if◌then◌else◌, length, get_elem?, set, take, drop, Result, ok, err,
  ◌>>=◌,
}
use zipfs.Base.Bytes.{Bytes, eq_bytes}
use zipfs.Base.Word.{u32_mod, u64_mod, add64, sub64}
use zipfs.Entry.{NodeKind, EntryMeta, method, method_store}
use zipfs.Index.{no_meta, is_dir}
use zipfs.Intern.{TmpNode, Interner, with_capacity, find, insert}
use zipfs.Paths.{slash, Reason, components, reject_reason, normalize_path}

abbrev pub flag_synthetic : ℕ
flag_synthetic = 1

abbrev pub max_warnings : ℕ
max_warnings = 16

pub record BuildStats : Type 0 where
  pub entries : ℕ
  pub rejected_paths : ℕ
  pub rejected_sizes : ℕ
  pub duplicates : ℕ
  pub encrypted : ℕ
  pub unsupported : ℕ
  pub synthetic_dirs : ℕ
  pub symlinks : ℕ

abbrev pub no_stats : BuildStats
no_stats = record {
  entries = 0;
  rejected_paths = 0;
  rejected_sizes = 0;
  duplicates = 0;
  encrypted = 0;
  unsupported = 0;
  synthetic_dirs = 0;
  symlinks = 0;
}

-- What is logged of a path.
pub data Complaint : Type 0 where
  unusable : Reason → Bytes → Complaint
  sizes_differ size_is_zero file_and_directory duplicate_entry : Bytes → Complaint

-- `Warner.allow`, and whether it allows.
unfoldable pub allow : ℕ → ℕ × Bool
allow seen = let next = (seen + 1) % u32_mod in (next, leb next max_warnings)

-- Why the builder stopped.
pub data Limit : Type 0 where
  name_blob node_count component_length symlink_count metadata_count child_count : Limit

pub data Stop : Type 0 where
  too_large : Limit → Stop
  panicked : Stop

abbrev pub Built : Type 0 → Type 0
Built A = Result Stop A

unfoldable pub or_panic {ℓ} : {A : Type ℓ} → Option A → Result Stop A
or_panic none = err panicked
or_panic (some a) = ok a

-- `try_from` for an unsigned type of values below `bound`.
unfoldable pub try_from : ℕ → Limit → ℕ → Built ℕ
try_from bound limit n = if ltb n bound then ok n else err (too_large limit)

pub record Builder : Type 0 where
  pub nodes : List TmpNode
  pub names : Bytes
  pub metas : List EntryMeta
  pub interner : Interner
  pub memo_path : Bytes
  pub memo_id : ℕ
  pub symlink_count : ℕ
  pub stats : BuildStats
  pub dup_seen : ℕ
  pub reject_seen : ℕ
  pub log : List Complaint

unfoldable pub root : TmpNode
root = record {
  name_off = 0;
  name_len = 0;
  kind = NodeKind.dir;
  flags = flag_synthetic;
  parent = 0;
  meta = no_meta;
}

unfoldable pub new : ℕ → Builder
unfolding with_capacity root
new hint = record {
  nodes = root ∷ [];
  names = [];
  metas = [];
  interner = with_capacity hint;
  memo_path = [];
  memo_id = 0;
  symlink_count = 0;
  stats = no_stats;
  dup_seen = 0;
  reject_seen = 0;
  log = [];
}

-- `split_last`, of a slash.
unfoldable pub without_slash : Bytes → Bytes
without_slash [] = []
without_slash (b ∷ []) = if b == slash then [] else b ∷ []
without_slash (b ∷ c ∷ rest) = b ∷ without_slash (c ∷ rest)

-- `rposition`, of a slash.
unfoldable pub or_here : Bool → Option ℕ → Option ℕ
or_here here (some i) = some (suc i)
or_here true none = some 0
or_here false none = none

unfoldable pub last_slash : Bytes → Option ℕ
unfolding or_here
last_slash [] = none
last_slash (b ∷ bs) = or_here (b == slash) (last_slash bs)

unfoldable pub split_behind : Option ℕ → Bytes → Bytes × Bytes
split_behind none body = ([], body)
split_behind (some i) body = (take (suc i) body, drop (suc i) body)

unfoldable pub split_parent : Bytes → Bytes × Bytes
unfolding without_slash last_slash split_behind
split_parent path = let body = without_slash path in split_behind (last_slash body) body

-- The end of `intern`, for a name that is new.
unfoldable pub push_node : Builder → ℕ → Bytes → ℕ → ℕ → ℕ → Built (Builder × ℕ × Bool)
unfolding or_panic insert
push_node b parent name name_off id name_len =
    let names = b.names ++ name in
    let node : TmpNode = record {
      name_off = name_off;
      name_len = name_len;
      kind = NodeKind.dir;
      flags = flag_synthetic;
      parent = parent;
      meta = no_meta;
    } in
    let nodes = b.nodes ++ node ∷ [] in
    or_panic (insert nodes names b.interner id) >>= λ interner.
    ok (record b { nodes = nodes; names = names; interner = interner }, id, true)

unfoldable pub intern_new : Builder → ℕ → Bytes → Built (Builder × ℕ × Bool)
unfolding try_from push_node
intern_new b parent name = try_from u32_mod name_blob (length b.names) >>= λ name_off.
    try_from u32_mod node_count (length b.nodes) >>= λ id.
    try_from 65536 component_length (length name) >>= push_node b parent name name_off id

unfoldable pub intern_found : Builder → ℕ → Bytes → Option ℕ → Built (Builder × ℕ × Bool)
unfolding intern_new
intern_found b parent name (some id) = ok (b, id, false)
intern_found b parent name none = intern_new b parent name

unfoldable pub intern : Builder → ℕ → Bytes → Built (Builder × ℕ × Bool)
unfolding intern_found or_panic find
intern b parent name =
    or_panic (find b.nodes b.names b.interner parent name) >>= intern_found b parent name

-- A complaint about a duplicate, if one is still logged, and one about a refusal.
unfoldable pub complain_dup : Builder → Complaint → Builder
unfolding allow
complain_dup b c =
    let (seen, allowed) = allow b.dup_seen in
    record b { dup_seen = seen; log = if allowed then b.log ++ c ∷ [] else b.log }

unfoldable pub complain_reject : Builder → Complaint → Builder
unfolding allow
complain_reject b c =
    let (seen, allowed) = allow b.reject_seen in
    record b { reject_seen = seen; log = if allowed then b.log ++ c ∷ [] else b.log }

-- `node.flags |= FLAG_SYNTHETIC` and the two stores beside it.
unfoldable pub as_synthetic : TmpNode → TmpNode
as_synthetic n = record n {
  kind = NodeKind.dir;
  flags = bit_or n.flags flag_synthetic;
  meta = no_meta;
}

unfoldable pub take_over_as_dir : Builder → ℕ → TmpNode → Bytes → Builder
unfolding complain_dup as_synthetic
take_over_as_dir b id n name =
    let b₁ = complain_dup b (file_and_directory name) in
    record b₁ {
      nodes = set b₁.nodes id (as_synthetic n);
      stats = record (b₁.stats) {
        duplicates = add64 b₁.stats.duplicates 1;
        synthetic_dirs = add64 b₁.stats.synthetic_dirs 1;
      };
    }

-- The turn of the loop of `resolve_parent`, once the component is interned.
unfoldable pub count_synthetic : Builder → Builder
count_synthetic b = record b {
  stats = record (b.stats) { synthetic_dirs = add64 b.stats.synthetic_dirs 1 };
}

unfoldable pub as_parent : Builder → ℕ → Bytes → TmpNode → Builder
unfolding take_over_as_dir is_dir
as_parent b id comp n = if is_dir n.kind then b else take_over_as_dir b id n comp

unfoldable pub after_intern : Bytes → Builder × ℕ × Bool → Built (Builder × ℕ)
unfolding count_synthetic as_parent or_panic
after_intern comp (b, id, true) = ok (count_synthetic b, id)
after_intern comp (b, id, false) =
    or_panic (get_elem? b.nodes id) >>= λ n. ok (as_parent b id comp n, id)

unfoldable pub step_into : Builder → ℕ → Bytes → Built (Builder × ℕ)
unfolding intern after_intern
step_into b cur comp = intern b cur comp >>= after_intern comp

unfoldable pub resolve_from : Builder → ℕ → List Bytes → Built (Builder × ℕ)
unfolding step_into
resolve_from b cur [] = ok (b, cur)
resolve_from b cur (comp ∷ comps) = step_into b cur comp >>= λ (b₁, id). resolve_from b₁ id comps

unfoldable pub resolve_parent : Builder → Bytes → Built (Builder × ℕ)
unfolding resolve_from eq_bytes components
resolve_parent b parent_path =
    if eq_bytes parent_path b.memo_path
    then ok (b, b.memo_id)
    else resolve_from b 0 (components parent_path) >>= λ (b₁, cur).
        ok (record b₁ { memo_path = parent_path; memo_id = cur }, cur)
