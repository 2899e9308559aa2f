-- ===== src/Io.antt =====
-- The errors of `std::io`, the error numbers of Linux that the program names, and `Error` of
-- src/lib.rs with the error number that it reports.
use zipfs.Base.{ℕ, Option, none, some, Result}

-- The kinds of `io::ErrorKind` that the program makes or tests; every other kind is `other`.
pub data ErrorKind : Type 0 where
  not_found invalid_input invalid_data unexpected_eof stale_network_file_handle other : ErrorKind

pub record IoError : Type 0 where
  pub kind : ErrorKind
  pub raw_os_error : Option ℕ

abbrev pub Io : Type 0 → Type 0
Io A = Result IoError A

-- `io::Error::new`, which keeps no error number. The message is left out.
abbrev pub io_error : ErrorKind → IoError
io_error k = record { kind = k; raw_os_error = none }

abbrev pub enoent : ℕ
enoent = 2

abbrev pub eio : ℕ
eio = 5

abbrev pub ebadf : ℕ
ebadf = 9

abbrev pub eacces : ℕ
eacces = 13

abbrev pub enotdir : ℕ
enotdir = 20

abbrev pub eisdir : ℕ
eisdir = 21

abbrev pub einval : ℕ
einval = 22

abbrev pub erofs : ℕ
erofs = 30

abbrev pub enosys : ℕ
enosys = 38

abbrev pub eoverflow : ℕ
eoverflow = 75

abbrev pub eopnotsupp : ℕ
eopnotsupp = 95

abbrev pub estale : ℕ
estale = 116

-- `Option::unwrap_or(libc::EIO)` on the error number of an I/O error.
unfoldable pub os_errno : IoError → ℕ
os_errno e = elim e.raw_os_error [ none ↦ eio | some n ↦ n ]

-- `Error`. The text of a message and the fields of a `rawzip::Error` are left out.
pub data Error : Type 0 where
  zip : Error
  io : IoError → Error
  encrypted : Error
  unsupported : ℕ → Error
  corrupt : Error
  index_too_large : Error

unfoldable pub errno : Error → ℕ
unfolding os_errno
errno encrypted = eacces
errno (unsupported _) = eopnotsupp
errno (io e) = os_errno e
errno zip = eio
errno corrupt = eio
errno index_too_large = eoverflow
