-- ===== src/Attr.antt =====
-- src/attr.rs: the attributes of an inode. The platform's clock, `SystemTime`, is a parameter.
use mathlib.Core.Option
use zipfs.Base.{
  ℕ, ◌+◌, ◌/◌, ◌%◌, ◌<◌, ◌≡◌, min, not, Option, none, some, ◌==◌, if◌then◌else◌, arith, suc,
}
use zipfs.Base.Int.{ℤ, pos, negsuc}
use zipfs.Base.Word.{u32_mod}
use zipfs.Config.{Config}
use zipfs.Entry.{NodeKind, EntryMeta}
use zipfs.Index.{Index, Node, meta, is_dir}

abbrev pub block_size : ℕ
block_size = 4096

-- `SystemTime`: moving by seconds and nanoseconds may leave what the platform can hold.
pub record Clock (T : Type 0) : Type 0 where
  pub unix_epoch : T
  pub checked_add : T → ℕ → ℕ → Option T
  pub checked_sub : T → ℕ → ℕ → Option T

pub record FileAttr (T : Type 0) : Type 0 where
  pub ino : ℕ
  pub size : ℕ
  pub blocks : ℕ
  pub atime : T
  pub mtime : T
  pub ctime : T
  pub crtime : T
  pub kind : NodeKind
  pub perm : ℕ
  pub nlink : ℕ
  pub uid : ℕ
  pub gid : ℕ
  pub rdev : ℕ
  pub blksize : ℕ
  pub flags : ℕ

unfoldable pub or_else : {A : Type 0} → Option A → A → A
or_else none a = a
or_else (some x) a = x

unfoldable pub recorded_mode : Option EntryMeta → ℕ
recorded_mode none = 0
recorded_mode (some m) = m.mode % 512

unfoldable pub permissions : Node → Option EntryMeta → Config → ℕ
unfolding recorded_mode is_dir
permissions node m config =
    let recorded = recorded_mode m in
    (if not (recorded == 0)
      then recorded
      else if is_dir node.kind
      then config.dir_mode
      else config.file_mode)
    % 512

unfoldable pub size_of : Node → Option EntryMeta → ℕ
unfolding is_dir
size_of node none = 0
size_of node (some m) = if is_dir node.kind then 0 else m.uncompressed_size

module _ {T : Type 0} (clock : Clock T) where
  unfoldable pub whole_seconds : ℤ → Option T
  whole_seconds (pos n) = clock.checked_add clock.unix_epoch n 0
  whole_seconds (negsuc n) = clock.checked_sub clock.unix_epoch (suc n) 0

  unfoldable pub to_system_time : ℤ → ℕ → T
  unfolding whole_seconds or_else
  to_system_time secs nanos =
      or_else (Option.bind (whole_seconds secs) (λ t. clock.checked_add t 0 (min nanos 999999999)))
        clock.unix_epoch

  unfoldable pub mtime_of : Option EntryMeta → T
  unfolding to_system_time
  mtime_of none = clock.unix_epoch
  mtime_of (some m) = to_system_time m.mtime_sec m.mtime_nsec

  unfoldable pub file_attr : Index → ℕ → Node → Config → FileAttr T
  unfolding size_of mtime_of permissions is_dir meta
  file_attr index ino node config =
      let m = meta index node in
      let size = size_of node m in
      let mtime = mtime_of m in
      record {
        ino = ino;
        size = size;
        blocks = (size + 511) / 512;
        atime = mtime;
        mtime = mtime;
        ctime = mtime;
        crtime = mtime;
        kind = node.kind;
        perm = permissions node m config;
        nlink = if is_dir node.kind then (2 + node.subdir_count) % u32_mod else 1;
        uid = config.uid;
        gid = config.gid;
        rdev = 0;
        blksize = block_size;
        flags = 0;
      }

  -- No inode has a set-user-id, set-group-id or sticky bit, whatever the archive and the
  -- configuration say; and a mode that the archive records is the one reported, if any of its
  -- permission bits is set.
  pub file_attr-perm :
      (index : Index) (ino : ℕ) (node : Node) (config : Config)
      → ((file_attr index ino node config).perm < 512)
        × ((m : EntryMeta)
            → meta index node ≡ some m
            → 0 < m.mode % 512
            → (file_attr index ino node config).perm ≡ m.mode % 512)
  unfolding file_attr permissions recorded_mode
  file_attr-perm index ino node config = (omega arith, λ m h s. rw h (ground arith))
