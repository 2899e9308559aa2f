-- ===== src/Source.antt =====
-- src/source.rs: the buffered reader over one byte range of the archive. What all readers share is
-- the guarded file and the world outside the process.
pub mod Range
use zipfs.Base.{ℕ, ◌-◌, min, Bool, List, [], ◌++◌, ok, err, ◌==◌, if◌then◌else◌, length, take, drop}
use zipfs.Base.Word.{add64, sub64}
use zipfs.Io.{Io}
use zipfs.Guard.{Os, GuardedFile}
use zipfs.Guard
use zipfs.Stream.{ByteSource}

-- A failed read leaves the contents of `buf` open; the model keeps them, and `filled` is 0 then.
pub record BufSource : Type 0 where
  pub start : ℕ
  pub len : ℕ
  pub consumed : ℕ
  pub buf : List ℕ
  pub filled : ℕ
  pub pos : ℕ

unfoldable pub new : ℕ → ℕ → List ℕ → BufSource
new start len buf = record {
  start = start;
  len = len;
  consumed = 0;
  buf = buf;
  filled = 0;
  pos = 0;
}

unfoldable pub rewind : BufSource → BufSource
rewind s = record s { consumed = 0; filled = 0; pos = 0 }

unfoldable pub retarget : ℕ → ℕ → BufSource → BufSource
unfolding rewind
retarget start len s = rewind (record s { start = start; len = len })

unfoldable pub remaining : BufSource → ℕ
remaining s = sub64 (sub64 s.len s.consumed) s.pos

unfoldable pub into_buf : BufSource → List ℕ
into_buf s = s.buf

-- `&self.buf[self.pos..self.filled]`
unfoldable pub window : BufSource → List ℕ
window s = take (s.filled - s.pos) (drop s.pos s.buf)

unfoldable pub consume : ℕ → BufSource → BufSource
consume amount s = record s { pos = min (add64 s.pos amount) s.filled }

-- After the `pread` of `want` bytes.
unfoldable pub refilled : Io (List ℕ) → ℕ → BufSource → Io (List ℕ) × BufSource
unfolding window
refilled (err e) want s = (err e, s)
refilled (ok bytes) want s =
    let s' = record s { buf = bytes ++ drop want s.buf; filled = want } in (ok (window s'), s')

module _ {W : Type 0} (os : Os W) where
  -- The refill of an empty buffer.
  unfoldable pub refill : BufSource → GuardedFile × W → Io (List ℕ) × BufSource × (GuardedFile × W)
  unfolding refilled
  refill s (g, w) =
      let left = sub64 s.len s.consumed in
      if left == 0
      then (ok [], s, (g, w))
      else let want = min left (length s.buf) in
        let (r, g₁, w₁) = Guard.read_exact_at os g (add64 s.start s.consumed) want w in
        let (r₁, s₁) = refilled r want s in (r₁, s₁, (g₁, w₁))

  unfoldable pub fill_buf :
      BufSource → GuardedFile × W → Io (List ℕ) × BufSource × (GuardedFile × W)
  unfolding refill window
  fill_buf s e =
      let again =
        refill (record s { consumed = add64 s.consumed s.filled; pos = 0; filled = 0 }) e in
      if s.pos == s.filled then again else (ok (window s), s, e)

  -- `Read::read` into a buffer of `room` bytes, with the bytes read.
  unfoldable pub read :
      BufSource → ℕ → GuardedFile × W → Io (List ℕ) × BufSource × (GuardedFile × W)
  unfolding fill_buf consume
  read s room e =
      let (r, s₁, e₁) = fill_buf s e in
      elim r [
        | err x ↦ (err x, s₁, e₁)
        | ok available ↦
            let n = min (length available) room in (ok (take n available), consume n s₁, e₁)
      ]

  abbrev pub source : ByteSource BufSource (GuardedFile × W)
  source = record {
    fill_buf = fill_buf;
    consume = consume;
    create = new;
    retarget = retarget;
    into_buf = into_buf;
  }
