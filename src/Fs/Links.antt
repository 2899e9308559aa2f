-- ===== src/Fs/Links.antt =====
-- `readlink` of src/fs.rs, and `read_all`, which reads the target. An answer is `none` when the fuel of
-- a decoder ran out. The drops at the end of `read_all` give the decoder back to its pool, which then
-- ends.
use mathlib.Core.Option
use zipfs.Base.{
  ℕ, Bool, true, false, not, ◌||◌, Option, none, some, List, [], Result, ok, err, ltb, ◌==◌,
  if◌then◌else◌, replicate, set,
}
use zipfs.Io.{Io, Error, os_errno, eio, einval, enoent}
use zipfs.Entry.{NodeKind, Method, eq_Method, EntryMeta, verify_bad}
use zipfs.Codec.{Codec, Flate, ZstdRaw, codec}
use zipfs.Guard.{Os, GuardedFile}
use zipfs.Source.{BufSource, source}
use zipfs.Decode.{Crc, EntryLocation}
use zipfs.Decode.ReadAt.{ReadAnswer}
use zipfs.Decode.ReadAt
use zipfs.Pool.{EntryPool, DecoderBudget}
use zipfs.Pool.Exchange.{checkout, give_back, drop_idle}
use zipfs.Handle.{new_pool}
use zipfs.Index.{Node, node, meta, symlink, set_symlink}
use zipfs.Fs.{Reply, diagnose, locate, verify_stored, read_direct}
use zipfs.Fs.Handlers.{ZipFs}

abbrev pub max_symlink : ℕ
max_symlink = 4096

-- The target, if all of it was read.
unfoldable pub whole : ℕ → Io ℕ → List ℕ → Reply (List ℕ)
whole size (err x) out = err (os_errno x)
whole size (ok n) out = if size == 0 || n == size then ok out else err eio

-- A stored target, once it was checked.
unfoldable pub checked : List ℕ → Reply (Unit {0}) × EntryMeta → Reply (List ℕ) × EntryMeta
checked out (ok _, m) = (ok out, m)
checked out (err e, m) = (err e, m)

unfoldable pub is_symlink : NodeKind → Bool
is_symlink NodeKind.dir = false
is_symlink NodeKind.file = false
is_symlink NodeKind.symlink = true

module _ {D Z W K : Type 0} (os : Os W) (flate : Flate D) (raw : ZstdRaw Z) (crc : Crc K) where
  abbrev pub Budget : Type 0
  Budget = DecoderBudget (Codec D Z)

  abbrev pub Target : Type 0
  Target = Reply (List ℕ) × EntryMeta × Budget × (GuardedFile × W)

  unfoldable pub with_rest : Budget → GuardedFile × W → Reply (List ℕ) × EntryMeta → Target
  with_rest b s (r, m) = (r, m, b, s)

  -- A stored target, once it was read.
  unfoldable pub stored_target : EntryMeta → Budget → Io (List ℕ) × (GuardedFile × W) → Target
  unfolding with_rest checked verify_stored
  stored_target m b (err x, s) = (err eio, m, b, s)
  stored_target m b (ok out, s) = with_rest b s (checked out (verify_stored crc b.verify out m))

  -- The drops of the decoder and of its pool.
  unfoldable pub coded_target :
      ℕ
      → EntryPool (Codec D Z) BufSource K
      → Budget
      → ReadAnswer (codec flate raw) (source os) crc
      → Target
  unfolding give_back drop_idle whole
  coded_target size pool b (r, out, d, m, s) =
      let (pool₁, b₁) = give_back flate raw (source os) crc d pool b in
      (whole size r out, m, drop_idle flate raw (source os) crc pool₁.idle b₁, s)

  unfoldable pub read_coded :
      ℕ → EntryLocation → EntryMeta → Budget → GuardedFile × W → Option Target
  unfolding new_pool checkout coded_target ReadAt.read_at
  read_coded fuel loc m b s =
      let size = m.uncompressed_size in
      let (d, pool, b₁) = checkout flate raw (source os) crc 0 (new_pool crc loc 1) b in
      Option.map (coded_target size pool b₁)
        (ReadAt.read_at (codec flate raw) (source os) crc fuel 0 (replicate size 0) d m s)

  unfoldable pub read_stored : EntryLocation → EntryMeta → Budget → GuardedFile × W → Target
  unfolding stored_target read_direct
  read_stored loc m b s =
      if m.uncompressed_size == 0
      then stored_target m b (ok [], s)
      else stored_target m b (read_direct os loc 0 m.uncompressed_size s)

  -- The rest of `read_all`, once the entry was located or not.
  unfoldable pub read_located :
      ℕ → ℕ → Budget → Reply EntryLocation × EntryMeta × (GuardedFile × W) → Option Target
  unfolding read_stored read_coded
  read_located fuel limit b (err e, m, s) = some (err e, m, b, s)
  read_located fuel limit b (ok loc, m, s) =
      if ltb limit m.uncompressed_size
      then some (err eio, m, b, s)
      else if eq_Method loc.method Method.store
      then some (read_stored loc m b s)
      else read_coded fuel loc m b s

  module _
      (data_start : EntryMeta
        → GuardedFile × W
        → Result Error ℕ × EntryMeta × (GuardedFile × W)) where
    unfoldable pub read_all : ℕ → ℕ → EntryMeta → Budget → GuardedFile × W → Option Target
    unfolding read_located locate
    read_all fuel limit m b s =
        if m.verify_state == verify_bad
        then some (err eio, m, b, s)
        else read_located fuel limit b (locate os data_start m s)

    abbrev pub Fs : Type 0
    Fs = ZipFs (Codec D Z) BufSource K W

    -- A target that was read is kept, unless there is no cell for it.
    unfoldable pub keep_target : ℕ → List ℕ → Fs → Reply (List ℕ) × Fs
    unfolding set_symlink
    keep_target slot target z =
        let (kept, index) = set_symlink z.index slot target in
        (elim kept [ none ↦ err eio | some t ↦ ok t ], record z { index = index })

    unfoldable pub finish_link : Node → ℕ → Fs → Target → Reply (List ℕ) × Fs
    unfolding keep_target diagnose
    finish_link n slot z (ok target, m, b, (g, w)) = keep_target slot target (record z {
      index = record z.index { metas = set z.index.metas n.meta m };
      budget = b;
      reader = g;
      outside = w;
    })
    finish_link n slot z (err e, m, b, (g, w)) =
        let (e₁, g₁, w₁) = diagnose os e g w in
        (
          err e₁,
          record z {
            index = record z.index { metas = set z.index.metas n.meta m };
            budget = b;
            reader = g₁;
            outside = w₁;
          },
        )

    unfoldable pub read_link_of :
        ℕ → Node → EntryMeta → Option (List ℕ) → Fs → Option (Reply (List ℕ) × Fs)
    unfolding read_all finish_link
    read_link_of fuel n m (some target) z = some (ok target, z)
    read_link_of fuel n m none z =
        Option.map (finish_link n m.symlink_slot z)
          (read_all fuel max_symlink m z.budget (z.reader, z.outside))

    unfoldable pub readlink_meta : ℕ → Node → Option EntryMeta → Fs → Option (Reply (List ℕ) × Fs)
    unfolding read_link_of symlink
    readlink_meta fuel n none z = some (err eio, z)
    readlink_meta fuel n (some m) z = read_link_of fuel n m (symlink z.index m.symlink_slot) z

    unfoldable pub readlink_node : ℕ → Option Node → Fs → Option (Reply (List ℕ) × Fs)
    unfolding is_symlink readlink_meta meta
    readlink_node fuel none z = some (err enoent, z)
    readlink_node fuel (some n) z =
        if not (is_symlink n.kind)
        then some (err einval, z)
        else readlink_meta fuel n (meta z.index n) z

    unfoldable pub readlink : ℕ → ℕ → Fs → Option (Reply (List ℕ) × Fs)
    unfolding readlink_node node
    readlink fuel ino z = readlink_node fuel (node z.index ino) z
