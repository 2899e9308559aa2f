-- ===== src/Guard.antt =====
-- src/guard.rs: the archive file, verified after each read. The system calls are the parameter
-- `Os`, over a state `W` of everything outside the process. The log is part of the guard's state.
pub mod Stale
pub mod Reads
use zipfs.Base.{
  ℕ, ◌≡◌, Option, none, some, Bool, true, false, not, ◌&&◌, List, [], ◌∷◌, Result, ok, err, ◌==◌,
  if◌then◌else◌,
}
use zipfs.Base.Int.{ℤ, eq_ℤ, as_u64}
use zipfs.Io.{Io, IoError, ErrorKind, io_error, estale}

-- What `fstat` reports through `std::fs::Metadata`.
pub record Metadata : Type 0 where
  pub dev : ℕ
  pub ino : ℕ
  pub size : ℕ
  pub mtime : ℤ
  pub mtime_nsec : ℤ

-- `libc::stat`, whose size is signed.
pub record LibcStat : Type 0 where
  pub st_dev : ℕ
  pub st_ino : ℕ
  pub st_size : ℤ
  pub st_mtime : ℤ
  pub st_mtime_nsec : ℤ

-- The system calls on the open descriptor and on the directory: `fstat`, `fstatat`, and the two
-- positional reads, which give the bytes read.
pub record Os (W : Type 0) : Type 0 where
  pub metadata : W → Io Metadata × W
  pub fstatat : W → Io LibcStat × W
  pub read_at : ℕ → ℕ → W → Io (List ℕ) × W
  pub read_exact_at : ℕ → ℕ → W → Io (List ℕ) × W

pub record Stamp : Type 0 where
  pub dev : ℕ
  pub ino : ℕ
  pub len : ℕ
  pub mtime : ℤ × ℤ

unfoldable pub of : Metadata → Stamp
of m = record { dev = m.dev; ino = m.ino; len = m.size; mtime = (m.mtime, m.mtime_nsec) }

unfoldable pub of_stat : LibcStat → Stamp
of_stat st = record {
  dev = st.st_dev;
  ino = st.st_ino;
  len = as_u64 st.st_size;
  mtime = (st.st_mtime, st.st_mtime_nsec);
}

unfoldable pub same_file : Stamp → Stamp → Bool
same_file s t = s.dev == t.dev && s.ino == t.ino

unfoldable pub unchanged : Stamp → Stamp → Bool
unchanged s t = s.len == t.len && (eq_ℤ s.mtime.0 t.mtime.0 && eq_ℤ s.mtime.1 t.mtime.1)

pub data Change : Type 0 where
  removed replaced modified : Change

pub data Freshness : Type 0 where
  current stale unknown : Freshness

-- The three records that the guard logs.
pub data Report : Type 0 where
  changed : Change → Report
  cannot_examine : Report
  examined_again : Report

-- `named` says whether the path is examined too; `log` is what was logged, newest first.
pub record GuardedFile : Type 0 where
  pub named : Bool
  pub opened : Stamp
  pub is_stale : Bool
  pub unsure : Bool
  pub log : List Report

unfoldable pub stale_error : IoError
stale_error = record { kind = ErrorKind.stale_network_file_handle; raw_os_error = some estale }

-- The part of `new` after the name was looked for.
unfoldable pub new : Metadata → Bool → GuardedFile
unfolding of
new m named = record { named = named; opened = of m; is_stale = false; unsure = false; log = [] }

is_not_found : ErrorKind → Bool
is_not_found ErrorKind.not_found = true
is_not_found _ = false

-- The verdict on the path's stamp.
unfoldable pub compare_named : Stamp → Io LibcStat → Io (Option Change)
unfolding is_not_found of_stat same_file unchanged
compare_named opened (ok st) =
    let named = of_stat st in
    if not (same_file named opened)
    then ok (some replaced)
    else if not (unchanged named opened)
    then ok (some modified)
    else ok none
compare_named opened (err e) = if is_not_found e.kind then ok (some removed) else err e

unfoldable pub mark : Change → GuardedFile → GuardedFile
mark c g = if g.is_stale then g else record g { is_stale = true; log = changed c ∷ g.log }

-- What `verify` does with the verdict.
unfoldable pub conclude : GuardedFile → Io (Option Change) → Io (Unit {0}) × GuardedFile
unfolding mark stale_error
conclude g (ok none) =
    (ok tt, if g.unsure then record g { unsure = false; log = examined_again ∷ g.log } else g)
conclude g (ok (some c)) = (err stale_error, mark c g)
conclude g (err e) = (
  err (io_error ErrorKind.other),
  if g.unsure then g else record g { unsure = true; log = cannot_examine ∷ g.log },
)

unfoldable pub freshness : Io (Unit {0}) → Bool → Freshness
freshness (ok _) _ = current
freshness (err _) is_stale = if is_stale then stale else unknown

-- The read's own result is used only when the archive was verified after it.
unfoldable pub guarded : Io (Unit {0}) → Io (List ℕ) → Io (List ℕ)
guarded (ok _) read = read
guarded (err e) read = err e

module _ {W : Type 0} (os : Os W) where
  -- The rest of `compare_stamps`, after the open file was examined.
  unfoldable pub compare_opened : GuardedFile → Io Metadata → W → Io (Option Change) × W
  unfolding of unchanged compare_named
  compare_opened g (err e) w = (err e, w)
  compare_opened g (ok m) w =
      if not (unchanged (of m) g.opened)
      then (ok (some modified), w)
      else if not g.named
      then (ok none, w)
      else let (named, w₁) = os.fstatat w in (compare_named g.opened named, w₁)

  unfoldable pub compare_stamps : GuardedFile → W → Io (Option Change) × W
  unfolding compare_opened
  compare_stamps g w = let (st, w₁) = os.metadata w in compare_opened g st w₁

  unfoldable pub verify : GuardedFile → W → Io (Unit {0}) × GuardedFile × W
  unfolding conclude compare_stamps stale_error
  verify g w =
      if g.is_stale
      then (err stale_error, g, w)
      else let (verdict, w₁) = compare_stamps g w in let (r, g₁) = conclude g verdict in (r, g₁, w₁)

  unfoldable pub check : GuardedFile → W → Freshness × GuardedFile × W
  unfolding verify freshness
  check g w = let (r, g₁, w₁) = verify g w in (freshness r g₁.is_stale, g₁, w₁)

  unfoldable pub read_at : GuardedFile → ℕ → ℕ → W → Io (List ℕ) × GuardedFile × W
  unfolding verify guarded
  read_at g offset n w =
      let (read, w₁) = os.read_at offset n w in
      let (r, g₁, w₂) = verify g w₁ in (guarded r read, g₁, w₂)

  unfoldable pub read_exact_at : GuardedFile → ℕ → ℕ → W → Io (List ℕ) × GuardedFile × W
  unfolding verify guarded
  read_exact_at g offset n w =
      let (read, w₁) = os.read_exact_at offset n w in
      let (r, g₁, w₂) = verify g w₁ in (guarded r read, g₁, w₂)
