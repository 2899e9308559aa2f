-- ===== src/Fs.antt =====
-- src/fs.rs: what the request handlers do before and after a read. `data_start` of src/archive.rs,
-- which parses a local header with rawzip, is a parameter.
pub mod Direct
pub mod Listing
pub mod Handlers
pub mod Plus
pub mod Links
pub mod Targets
pub mod Read
use mathlib.Core.Option
use zipfs.Base.{
  ℕ, ◌+◌, ◌-◌, ◌≡◌, Bool, true, false, not, ◌||◌, ◌&&◌, Option, none, some, List, [], ◌∷◌, Result,
  ok, err, ltb, ◌==◌, if◌then◌else◌, min, length,
}
use zipfs.Base.Word.{checked_add64}
use zipfs.Io.{
  Io, ErrorKind, io_error, os_errno, Error, errno, eio, estale, eacces, eopnotsupp, enoent, ebadf,
  eisdir, einval, erofs,
}
use zipfs.Entry.{Method, eq_Method, EntryMeta, method, set_verify_state, verify_ok, verify_bad}
use zipfs.Guard.{Os, GuardedFile, Freshness, current, stale, unknown}
use zipfs.Guard
use zipfs.Decode.{Crc, EntryLocation}

-- The number of an error, or a value.
abbrev pub Reply : Type 0 → Type 0
Reply A = Result ℕ A

unfoldable pub method_or : Option Method → Reply Method
method_or none = err eopnotsupp
method_or (some m) = ok m

unfoldable pub readable : EntryMeta → Reply Method
unfolding method_or method
readable meta = if meta.encrypted then err eacces else method_or (method meta)

unfoldable pub is_stale_freshness : Freshness → Bool
is_stale_freshness stale = true
is_stale_freshness current = false
is_stale_freshness unknown = false

-- Where an entry starts, once its local header was found.
unfoldable pub located : EntryMeta → Method → Result Error ℕ → Reply EntryLocation
unfolding errno
located meta m (ok start) =
    ok (record { data_start = start; compressed_size = meta.compressed_size; method = m })
located meta m (err e) = err (errno e)

unfoldable pub verify_stored :
    {K : Type 0} → Crc K → Bool → List ℕ → EntryMeta → Reply (Unit {0}) × EntryMeta
unfolding set_verify_state
verify_stored crc verify bytes meta =
    let matches = crc.finalize (crc.update crc.new bytes) == meta.crc32 in
    if not verify
    then (ok tt, meta)
    else if matches
    then (ok tt, set_verify_state verify_ok meta)
    else (err eio, set_verify_state verify_bad meta)

module _ {W : Type 0} (os : Os W) where
  unfoldable pub diagnose : ℕ → GuardedFile → W → ℕ × GuardedFile × W
  unfolding Guard.check is_stale_freshness
  diagnose e g w =
      let (fresh, g₁, w₁) = Guard.check os g w in
      if e == eio then ((if is_stale_freshness fresh then estale else e), g₁, w₁) else (e, g, w)

  -- The end of `locate`, for an entry that can be read.
  unfoldable pub locate_with :
      (EntryMeta → GuardedFile × W → Result Error ℕ × EntryMeta × (GuardedFile × W))
      → EntryMeta
      → Reply Method
      → GuardedFile × W
      → Reply EntryLocation × EntryMeta × (GuardedFile × W)
  unfolding located
  locate_with data_start meta (err e) s = (err e, meta, s)
  locate_with data_start meta (ok m) s =
      let (r, meta₁, s₁) = data_start meta s in
      if eq_Method m Method.store && not (meta.compressed_size == meta.uncompressed_size)
      then (err eio, meta, s)
      else (located meta m r, meta₁, s₁)

  unfoldable pub locate :
      (EntryMeta → GuardedFile × W → Result Error ℕ × EntryMeta × (GuardedFile × W))
      → EntryMeta
      → GuardedFile × W
      → Reply EntryLocation × EntryMeta × (GuardedFile × W)
  unfolding locate_with readable
  locate data_start meta s =
      if s.0.is_stale then (err estale, meta, s) else locate_with data_start meta (readable meta) s

  -- The end of `read_direct`, with the end of the read in the archive if it does not overflow.
  unfoldable pub read_before : ℕ → ℕ → Option ℕ → GuardedFile × W → Io (List ℕ) × (GuardedFile × W)
  unfolding Guard.read_exact_at
  read_before absolute n none s = (err (io_error ErrorKind.invalid_input), s)
  read_before absolute n (some end) (g, w) =
      let (r, g₁, w₁) = Guard.read_exact_at os g absolute n w in (r, (g₁, w₁))

  -- The rest of `read_direct`, with the first byte's place in the archive if it does not overflow.
  unfoldable pub read_within : ℕ → Option ℕ → GuardedFile × W → Io (List ℕ) × (GuardedFile × W)
  unfolding read_before checked_add64
  read_within n none s = (err (io_error ErrorKind.invalid_input), s)
  read_within n (some absolute) s = read_before absolute n (checked_add64 absolute n) s

  -- The rest of `read_direct`, with the end of the read in the entry if it does not overflow.
  unfoldable pub read_until :
      EntryLocation → ℕ → ℕ → Option ℕ → GuardedFile × W → Io (List ℕ) × (GuardedFile × W)
  unfolding read_within checked_add64
  read_until loc offset n none s = (err (io_error ErrorKind.invalid_input), s)
  read_until loc offset n (some end) s =
      if ltb loc.compressed_size end
      then (err (io_error ErrorKind.invalid_input), s)
      else read_within n (checked_add64 loc.data_start offset) s

  unfoldable pub read_direct :
      EntryLocation → ℕ → ℕ → GuardedFile × W → Io (List ℕ) × (GuardedFile × W)
  unfolding read_until checked_add64
  read_direct loc offset n s = read_until loc offset n (checked_add64 offset n) s
