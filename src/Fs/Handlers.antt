-- ===== src/Fs/Handlers.antt =====
-- The handlers of src/fs.rs that answer from the index, and `open`. The filesystem's state is passed
-- along; `data_start` of src/archive.rs is an argument.
use mathlib.Core.Option
use zipfs.Base.{
  ℕ, ◌≡◌, refl, Bool, true, false, not, Option, none, some, List, Result, ok, err, if◌then◌else◌,
  set, Bool-cases, inl, inr, arith,
}
use zipfs.Io.{Error, enoent, enotdir, eisdir, erofs, eio}
use zipfs.Config.{Config}
use zipfs.Entry.{EntryMeta}
use zipfs.Index.{Index, Node, node, meta, lookup, is_dir}
use zipfs.Attr.{Clock, FileAttr, file_attr}
use zipfs.Guard.{Os, GuardedFile}
use zipfs.Pool.{DecoderBudget}
use zipfs.Decode.{Crc, EntryLocation}
use zipfs.Handle.{OpenFile, HandleTable, new_file, insert, get, find_key, remove}
use zipfs.Fs.{Reply, diagnose, locate}

pub record ZipFs (C S K W : Type 0) : Type 0 where
  pub index : Index
  pub reader : GuardedFile
  pub handles : HandleTable (OpenFile C S K)
  pub budget : DecoderBudget C
  pub config : Config
  pub outside : W

pub data OpenAccMode : Type 0 where
  rdonly wronly rdwr : OpenAccMode

unfoldable pub is_rdonly : OpenAccMode → Bool
is_rdonly rdonly = true
is_rdonly wronly = false
is_rdonly rdwr = false

unfoldable pub reply_some : {A : Type 0} → Option A → Reply A
reply_some none = err enoent
reply_some (some a) = ok a

module _ {T : Type 0} (clock : Clock T) (index : Index) (config : Config) where
  unfoldable pub attr : ℕ → Option (FileAttr T)
  unfolding file_attr node
  attr ino = Option.map (λ n. file_attr clock index ino n config) (node index ino)

  unfoldable pub getattr : ℕ → Reply (FileAttr T)
  unfolding attr reply_some
  getattr ino = reply_some (attr ino)

  unfoldable pub lookup_attr : ℕ → List ℕ → Reply (FileAttr T)
  unfolding attr reply_some lookup
  lookup_attr parent name = reply_some (Option.bind (lookup index parent name) attr)

unfoldable pub is_directory : Option Node → Reply (Unit {0})
unfolding is_dir
is_directory none = err enoent
is_directory (some n) = if is_dir n.kind then ok tt else err enotdir

unfoldable pub opendir : Index → ℕ → Reply (Unit {0})
unfolding is_directory node
opendir index ino = is_directory (node index ino)

unfoldable pub access : Index → ℕ → Reply (Unit {0})
unfolding reply_some node
access index ino = reply_some (Option.map (λ _. tt) (node index ino))

module _ {W : Type 0} (os : Os W)
    (data_start : EntryMeta
      → GuardedFile × W
      → Result Error ℕ × EntryMeta × (GuardedFile × W)) where
  locate-fresh :
      (m : EntryMeta) (g : GuardedFile) (w : W) (loc : EntryLocation)
      → (locate os data_start m (g, w)).0 ≡ ok loc
      → g.is_stale ≡ false
  unfolding locate
  locate-fresh m g w loc h = elim (Bool-cases g.is_stale) [
    | inl e ↦ absurd (ground (arith, rw e at h))
    | inr e ↦ e
  ]

module _ {C S K W : Type 0} (os : Os W) (crc : Crc K)
    (data_start : EntryMeta
      → GuardedFile × W
      → Result Error ℕ × EntryMeta × (GuardedFile × W)) where
  -- The end of `open`, once the entry was located or not.
  unfoldable pub open_located :
      ℕ
      → Node
      → Reply EntryLocation × EntryMeta × (GuardedFile × W)
      → ZipFs C S K W
      → Reply ℕ × ZipFs C S K W
  unfolding diagnose new_file insert
  open_located ino n (err e, m, (g, w)) z =
      let (e₁, g₁, w₁) = diagnose os e g w in
      (
        err e₁,
        record z {
          index = record z.index { metas = set z.index.metas n.meta m };
          reader = g₁;
          outside = w₁;
        },
      )
  open_located ino n (ok loc, m, (g, w)) z =
      let (fh, handles) =
        insert (new_file crc z.budget.verify ino n.meta m loc z.config) z.handles in
      (
        ok fh,
        record z {
          index = record z.index { metas = set z.index.metas n.meta m };
          reader = g;
          outside = w;
          handles = handles;
        },
      )

  unfoldable pub open_meta : ℕ → Node → Option EntryMeta → ZipFs C S K W → Reply ℕ × ZipFs C S K W
  unfolding open_located locate
  open_meta ino n none z = (err eio, z)
  open_meta ino n (some m) z = open_located ino n (locate os data_start m (z.reader, z.outside)) z

  unfoldable pub open_node : ℕ → OpenAccMode → Option Node → ZipFs C S K W → Reply ℕ × ZipFs C S K W
  unfolding is_dir is_rdonly open_meta meta
  open_node ino mode none z = (err enoent, z)
  open_node ino mode (some n) z =
      if is_dir n.kind
      then (err eisdir, z)
      else if not (is_rdonly mode)
      then (err erofs, z)
      else open_meta ino n (meta z.index n) z

  unfoldable pub open_file : ℕ → OpenAccMode → ZipFs C S K W → Reply ℕ × ZipFs C S K W
  unfolding open_node node
  open_file ino mode z = open_node ino mode (node z.index ino) z

  unfoldable pub release : ℕ → ZipFs C S K W → ZipFs C S K W
  unfolding remove
  release fh z = record z { handles = (remove fh z.handles).1 }

  -- What an open that answered `r` and left `z'` promises: on success the handle is open on that
  -- inode, and the archive had not been found changed; on failure no handle is given out.
  abbrev pub Opened : ℕ → Reply ℕ → ZipFs C S K W → ZipFs C S K W → Type 0
  Opened ino (err e) z z' = z'.handles ≡ z.handles
  Opened ino (ok fh) z z' =
      (z.reader.is_stale ≡ false)
      × (fh ≡ z.handles.next)
      × ((file : OpenFile C S K) × (get fh z'.handles ≡ some file) × (file.ino ≡ ino))

  located-Opened :
      (ino : ℕ) (n : Node) (a : Reply EntryLocation × EntryMeta × (GuardedFile × W))
      (z : ZipFs C S K W)
      → ((loc : EntryLocation) → a.0 ≡ ok loc → z.reader.is_stale ≡ false)
      → Opened ino (open_located ino n a z).0 z (open_located ino n a z).1
  unfolding open_located get insert find_key new_file
  located-Opened ino n (err e, m, (g, w)) z fresh = refl
  located-Opened ino n (ok loc, m, (g, w)) z fresh =
      let file = new_file crc z.budget.verify ino n.meta m loc z.config in
      (fresh loc refl, refl, (file, ground arith, refl))

  meta-Opened :
      (ino : ℕ) (n : Node) (o : Option EntryMeta) (z : ZipFs C S K W)
      → Opened ino (open_meta ino n o z).0 z (open_meta ino n o z).1
  unfolding open_meta
  meta-Opened ino n none z = refl
  meta-Opened ino n (some m) z =
      located-Opened ino n (locate os data_start m (z.reader, z.outside)) z
        (λ loc h. locate-fresh os data_start m z.reader z.outside loc h)

  node-Opened :
      (ino : ℕ) (mode : OpenAccMode) (o : Option Node) (z : ZipFs C S K W)
      → Opened ino (open_node ino mode o z).0 z (open_node ino mode o z).1
  unfolding open_node
  node-Opened ino mode none z = refl
  node-Opened ino mode (some n) z = elim (Bool-cases (is_dir n.kind)) [
    | inl d ↦ simp d refl
    | inr d ↦ elim (Bool-cases (is_rdonly mode)) [
      | inl r ↦ simp (d, r) (meta-Opened ino n (meta z.index n) z)
      | inr r ↦ simp (d, r) refl
    ]
  ]

  -- `open` gives out a handle only while the archive was not found changed; the handle is then the
  -- next one of the table and is open on the inode. A failed open leaves the table as it was.
  pub open_file-Opened :
      (ino : ℕ) (mode : OpenAccMode) (z : ZipFs C S K W)
      → Opened ino (open_file ino mode z).0 z (open_file ino mode z).1
  unfolding open_file
  open_file-Opened ino mode z = node-Opened ino mode (node z.index ino) z
