-- ===== src/Entry.antt =====
-- The entry of the archive that src/index.rs describes: its compression method and `EntryMeta`.
use zipfs.Base.{ℕ, Bool, Option, none, some, ◌==◌, if◌then◌else◌}
use zipfs.Base.Int.{ℤ}

pub data NodeKind : Type 0 where
  dir file symlink : NodeKind

pub data Method : Type 0 where
  store deflate zstd : Method

-- The numbers that the zip format gives the methods, which rawzip's constants stand for.
abbrev pub method_store : ℕ
method_store = 0

abbrev pub method_deflate : ℕ
method_deflate = 8

abbrev pub method_zstd_deprecated : ℕ
method_zstd_deprecated = 20

abbrev pub method_zstd : ℕ
method_zstd = 93

-- With the feature `zstd`, which is on by default.
unfoldable pub from_raw : ℕ → Option Method
from_raw raw =
    if raw == method_store
    then some Method.store
    else if raw == method_deflate
    then some Method.deflate
    else if raw == method_zstd
    then some Method.zstd
    else if raw == method_zstd_deprecated
    then some Method.zstd
    else none

unfoldable pub eq_Method : Method → Method → Bool
eq_Method Method.store Method.store = Bool.true
eq_Method Method.deflate Method.deflate = Bool.true
eq_Method Method.zstd Method.zstd = Bool.true
eq_Method _ _ = Bool.false

-- The index of the method's list in the store of recycled parts, `method as usize`.
abbrev pub as_usize : Method → ℕ
as_usize Method.store = 0
as_usize Method.deflate = 1
as_usize Method.zstd = 2

abbrev pub verify_unknown : ℕ
verify_unknown = 0

abbrev pub verify_ok : ℕ
verify_ok = 1

abbrev pub verify_bad : ℕ
verify_bad = 2

-- `wayfinder` is a token that only rawzip reads. The two atomic fields are plain ones here, and a
-- function that stores to one returns the new entry.
pub record EntryMeta : Type 0 where
  pub wayfinder : ℕ
  pub uncompressed_size : ℕ
  pub compressed_size : ℕ
  pub mtime_sec : ℤ
  pub mtime_nsec : ℕ
  pub crc32 : ℕ
  pub method_raw : ℕ
  pub mode : ℕ
  pub encrypted : Bool
  pub data_start : ℕ
  pub verify_state : ℕ
  pub symlink_slot : ℕ

unfoldable pub method : EntryMeta → Option Method
unfolding from_raw
method m = from_raw m.method_raw

unfoldable pub set_verify_state : ℕ → EntryMeta → EntryMeta
set_verify_state state m = record m { verify_state = state }
