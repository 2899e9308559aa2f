-- ===== src/Build/Entries.antt =====
-- `add` of the builder in src/index/build.rs, and the loop over the records of the central directory.
use Prim.Native.Nat.{bit_and}
use zipfs.Base.{
  ℕ, ◌+◌, Bool, true, false, not, ◌&&◌, Option, none, some, List, [], ◌∷◌, ◌++◌, ltb, ◌==◌,
  if◌then◌else◌, length, get_elem?, set, ok, err, ◌>>=◌,
}
use zipfs.Base.Bytes.{Bytes}
use zipfs.Base.Word.{u32_mod, add64, sub64}
use zipfs.Entry.{NodeKind, EntryMeta, method, method_store}
use zipfs.Index.{is_dir}
use zipfs.Intern.{TmpNode}
use zipfs.Paths.{Reason, reject_reason, normalize_path}
use zipfs.Build.{
  too_large, symlink_count, metadata_count, file_and_directory, duplicate_entry, unusable,
  sizes_differ, size_is_zero, flag_synthetic, Complaint, Built, or_panic, try_from, Builder,
  split_parent, intern, complain_dup, complain_reject, resolve_parent,
}

-- `S_IFMT` and `S_IFLNK` of Linux.
unfoldable pub is_symlink_mode : ℕ → Bool
is_symlink_mode mode = bit_and mode 0o170000 == 0o120000

unfoldable pub kind_of : Bool → EntryMeta → NodeKind
unfolding is_symlink_mode
kind_of entry_is_dir meta =
    if entry_is_dir
    then NodeKind.dir
    else if is_symlink_mode meta.mode
    then NodeKind.symlink
    else NodeKind.file

unfoldable pub is_symlink : NodeKind → Bool
is_symlink NodeKind.dir = false
is_symlink NodeKind.file = false
is_symlink NodeKind.symlink = true

unfoldable pub count_duplicate : Builder → Builder
count_duplicate b = record b {
  stats = record (b.stats) { duplicates = add64 b.stats.duplicates 1 };
}

-- The counters of an entry that is kept.
unfoldable pub count_entry : Builder → EntryMeta → Builder
unfolding method
count_entry b meta =
    let s = record (b.stats) { entries = add64 b.stats.entries 1 } in
    record b {
      stats =
          if meta.encrypted
          then record s { encrypted = add64 s.encrypted 1 }
          else elim (method meta) [
            | none ↦ record s { unsupported = add64 s.unsupported 1 }
            | some _ ↦ s
          ];
    }

-- The slot of a symbolic link, given out in order.
unfoldable pub take_slot : Builder → NodeKind → EntryMeta → Built (Builder × EntryMeta)
unfolding is_symlink
take_slot b kind meta =
    if is_symlink kind
    then (if ltb (b.symlink_count + 1) u32_mod
        then ok (
          record b {
            symlink_count = b.symlink_count + 1;
            stats = record (b.stats) { symlinks = add64 b.stats.symlinks 1 };
          },
          record meta { symlink_slot = b.symlink_count },
        )
        else err (too_large symlink_count))
    else ok (b, meta)

-- `node.flags &= !FLAG_SYNTHETIC`, of eight bits, and the two stores beside it.
unfoldable pub as_entry : NodeKind → ℕ → TmpNode → TmpNode
as_entry kind meta n = record n { kind = kind; flags = bit_and n.flags 254; meta = meta }

-- The end of `add`: the entry becomes that of the node.
unfoldable pub attach_meta : ℕ → NodeKind → Builder × EntryMeta → Built Builder
unfolding try_from or_panic as_entry
attach_meta id kind (b, meta) = try_from u32_mod metadata_count (length b.metas) >>= λ meta_idx.
    or_panic (get_elem? b.nodes id) >>= λ n.
    ok
      (record b { metas = b.metas ++ meta ∷ []; nodes = set b.nodes id (as_entry kind meta_idx n) })

unfoldable pub attach : Builder → ℕ → NodeKind → EntryMeta → Built Builder
unfolding count_entry take_slot attach_meta
attach b id kind meta = take_slot (count_entry b meta) kind meta >>= attach_meta id kind

unfoldable pub uncount_synthetic : Builder → Builder
uncount_synthetic b = record b {
  stats = record (b.stats) { synthetic_dirs = sub64 b.stats.synthetic_dirs 1 };
}

-- What an entry does whose name is a node already.
unfoldable pub add_again : Builder → Bytes → ℕ → NodeKind → EntryMeta → TmpNode → Built Builder
unfolding complain_dup count_duplicate attach uncount_synthetic is_dir
add_again b path id kind meta existing =
    if is_dir existing.kind && not (is_dir kind)
    then ok (count_duplicate (complain_dup b (file_and_directory path)))
    else if bit_and existing.flags flag_synthetic == 0
    then ok (count_duplicate (complain_dup b (duplicate_entry path)))
    else if not (is_dir kind)
    then ok (count_duplicate b)
    else attach (uncount_synthetic b) id kind meta

unfoldable pub add_interned : Bytes → NodeKind → EntryMeta → Builder × ℕ × Bool → Built Builder
unfolding attach add_again or_panic
add_interned path kind meta (b, id, true) = attach b id kind meta
add_interned path kind meta (b, id, false) =
    or_panic (get_elem? b.nodes id) >>= add_again b path id kind meta

unfoldable pub add_leaf : Bytes → NodeKind → EntryMeta → Bytes → Builder × ℕ → Built Builder
unfolding intern add_interned
add_leaf path kind meta leaf (b, parent) = intern b parent leaf >>= add_interned path kind meta

-- An entry whose path and sizes are acceptable.
unfoldable pub add_accepted : Builder → Bytes → Bool → EntryMeta → Built Builder
unfolding split_parent normalize_path resolve_parent add_leaf kind_of
add_accepted b path entry_is_dir meta =
    let (parent_path, leaf) = split_parent (normalize_path path) in
    resolve_parent b parent_path >>= add_leaf path (kind_of entry_is_dir meta) meta leaf

unfoldable pub reject : Builder → Bytes → Reason → Builder
unfolding complain_reject
reject b path why =
    let b₁ = complain_reject b (unusable why path) in
    record b₁ { stats = record (b₁.stats) { rejected_paths = add64 b₁.stats.rejected_paths 1 } }

unfoldable pub reject_size : Builder → Complaint → Builder
unfolding complain_reject
reject_size b c =
    let b₁ = complain_reject b c in
    record b₁ { stats = record (b₁.stats) { rejected_sizes = add64 b₁.stats.rejected_sizes 1 } }

unfoldable pub sizes_differ_in : EntryMeta → Bool
sizes_differ_in meta =
    not meta.encrypted
    && meta.method_raw == method_store
    && not (meta.compressed_size == meta.uncompressed_size)

unfoldable pub add_sized : Builder → Bytes → Bool → EntryMeta → Built Builder
unfolding sizes_differ_in reject_size add_accepted
add_sized b path entry_is_dir meta =
    if sizes_differ_in meta
    then ok (reject_size b (sizes_differ path))
    else if ltb 0 meta.uncompressed_size && meta.compressed_size == 0
    then ok (reject_size b (size_is_zero path))
    else add_accepted b path entry_is_dir meta

unfoldable pub add_unless : Builder → Bytes → Bool → EntryMeta → Option Reason → Built Builder
unfolding reject add_sized
add_unless b path entry_is_dir meta none = add_sized b path entry_is_dir meta
add_unless b path entry_is_dir meta (some why) = ok (reject b path why)

unfoldable pub add : Builder → Bytes → Bool → EntryMeta → Built Builder
unfolding reject_reason add_unless
add b path entry_is_dir meta = add_unless b path entry_is_dir meta (reject_reason path)

-- What is taken of a record of the central directory.
pub record Record : Type 0 where
  pub path : Bytes
  pub entry_is_dir : Bool
  pub meta : EntryMeta

-- The loop of `build`, over the records that the reader gives.
unfoldable pub add_all : Builder → List Record → Built Builder
unfolding add
add_all b [] = ok b
add_all b (r ∷ rs) = add b r.path r.entry_is_dir r.meta >>= λ b₁. add_all b₁ rs
