-- ===== src/Decode/ReadAt.antt =====
-- `PositionedDecoder::read_at` of src/decode.rs: the loop that discards bytes, the loop that fills the
-- caller's buffer, and the checksum at the end of the entry.
use mathlib.Core.Option
use zipfs.Base.{
  ℕ, zero, suc, ◌+◌, ◌-◌, min, true, false, ◌||◌, ◌&&◌, Option, none, some, List, [], ◌∷◌, ◌++◌, ok,
  err, ltb, leb, ◌==◌, if◌then◌else◌, length, take, drop, not,
}
use zipfs.Io.{Io, ErrorKind, io_error}
use zipfs.Entry.{EntryMeta, set_verify_state, verify_ok, verify_bad}
use zipfs.Codec.{Decompressor}
use zipfs.Stream.{ByteSource}
use zipfs.Decode.{Crc, PositionedDecoder, Answer, truncated, proves_bad, pump}

module _ {C S E K : Type 0} (codec : Decompressor C) (source : ByteSource S E) (crc : Crc K) where
  -- One turn of the loop that discards bytes: it stops, or goes on.
  pub data Skipping : Type 0 where
    stops : Io (Unit {0}) → PositionedDecoder C S K → E → Skipping
    goes : PositionedDecoder C S K → E → Skipping

  -- The skip buffer is written over up to `want`.
  unfoldable pub after_skip : ℕ → List ℕ → Answer codec source crc → Skipping
  unfolding truncated
  after_skip want skip (r, out, d, e) =
      let d₁ = record d { skip = out ++ drop want skip } in
      elim r [
        | err x ↦ stops (err x) d₁ e
        | ok zero ↦ stops (err truncated) d₁ e
        | ok (suc n) ↦ goes d₁ e
      ]

  unfoldable pub skip_turn : ℕ → ℕ → PositionedDecoder C S K → E → Option Skipping
  skip_turn fuel offset d e =
      let want = min (offset - d.pos) (length d.skip) in
      if ltb d.pos offset
      then Option.map (after_skip want d.skip) (pump codec source crc fuel (take want d.skip) d e)
      else some (stops (ok tt) d e)

  -- The loop that discards bytes up to `offset`. The second fuel is its own, the first that of
  -- `pump`.
  unfoldable pub skip_to :
      ℕ → ℕ → ℕ → PositionedDecoder C S K → E → Option (Io (Unit {0}) × PositionedDecoder C S K × E)
  skip_to fuel zero offset d e = none
  skip_to fuel (suc steps) offset d e = elim (skip_turn fuel offset d e) [
    | none ↦ none
    | some (stops r d₁ e₁) ↦ some (r, d₁, e₁)
    | some (goes d₁ e₁) ↦ skip_to fuel steps offset d₁ e₁
  ]

  -- One turn of the loop that fills the caller's buffer.
  pub data Filling : Type 0 where
    stops : Io ℕ → List ℕ → PositionedDecoder C S K → E → Filling
    goes : ℕ → List ℕ → PositionedDecoder C S K → E → Filling

  unfoldable pub after_fill_turn : ℕ → ℕ → List ℕ → Answer codec source crc → Filling
  after_fill_turn written room out (r, slice, d, e) =
      let out₁ = take written out ++ (slice ++ drop (written + room) out) in
      elim r [
        | err x ↦ stops (err x) out₁ d e
        | ok zero ↦ stops (ok written) out₁ d e
        | ok (suc n) ↦ goes (written + suc n) out₁ d e
      ]

  unfoldable pub fill_turn : ℕ → ℕ → ℕ → List ℕ → PositionedDecoder C S K → E → Option Filling
  fill_turn fuel total written out d e =
      let room = min (total - d.pos) (length out - written) in
      if ltb written (length out) && ltb d.pos total
      then Option.map (after_fill_turn written room out)
          (pump codec source crc fuel (take room (drop written out)) d e)
      else some (stops (ok written) out d e)

  -- The loop that fills `out` from `written` on.
  unfoldable pub fill_out :
      ℕ → ℕ → ℕ → ℕ → List ℕ → PositionedDecoder C S K → E → Option (Answer codec source crc)
  fill_out fuel zero total written out d e = none
  fill_out fuel (suc steps) total written out d e = elim (fill_turn fuel total written out d e) [
    | none ↦ none
    | some (stops r out₁ d₁ e₁) ↦ some (r, out₁, d₁, e₁)
    | some (goes written₁ out₁ d₁ e₁) ↦ fill_out fuel steps total written₁ out₁ d₁ e₁
  ]

  -- A decoder, the entry that it reads, and the shared state.
  abbrev pub Checked : Type 0
  Checked = Io (Unit {0}) × PositionedDecoder C S K × EntryMeta × E

  -- The end of `verify`, with the checksum of the bytes delivered and the answer to one more byte.
  unfoldable pub conclude : ℕ → EntryMeta → Answer codec source crc → Checked
  unfolding proves_bad set_verify_state
  conclude sum meta (err x, _, d, e) =
      if proves_bad x
      then (err x, d, set_verify_state verify_bad meta, e)
      else (err x, record d { verified = false }, meta, e)
  conclude sum meta (ok n, _, d, e) =
      if not (sum == meta.crc32) || ltb 0 n
      then (err (io_error ErrorKind.invalid_data), d, set_verify_state verify_bad meta, e)
      else (ok tt, d, set_verify_state verify_ok meta, e)

  -- The rest of `verify`, after the length was compared.
  unfoldable pub verify_sum :
      ℕ → Option K → PositionedDecoder C S K → EntryMeta → E → Option Checked
  verify_sum fuel none d meta e = some (ok tt, d, meta, e)
  verify_sum fuel (some k) d meta e =
      Option.map (conclude (crc.finalize k) meta) (pump codec source crc fuel (0 ∷ []) d e)

  unfoldable pub verify : ℕ → PositionedDecoder C S K → EntryMeta → E → Option Checked
  unfolding verify_sum truncated set_verify_state
  verify fuel d meta e =
      let d₁ = record d { verified = true } in
      if d.verified
      then some (ok tt, d, meta, e)
      else if not (d.pos == meta.uncompressed_size)
      then some (err truncated, d₁, set_verify_state verify_bad meta, e)
      else verify_sum fuel d.crc d₁ meta e

  -- The result of `read_at`: the bytes written, the caller's buffer, and the states.
  abbrev pub ReadAnswer : Type 0
  ReadAnswer = Io ℕ × List ℕ × PositionedDecoder C S K × EntryMeta × E

  unfoldable pub after_verify : ℕ → List ℕ → Checked → ReadAnswer
  after_verify written out (ok _, d, meta, e) = (ok written, out, d, meta, e)
  after_verify written out (err x, d, meta, e) = (err x, out, d, meta, e)

  unfoldable pub finish_read : ℕ → EntryMeta → Answer codec source crc → Option ReadAnswer
  unfolding verify after_verify
  finish_read fuel meta (err x, out, d, e) = some (err x, out, d, meta, e)
  finish_read fuel meta (ok written, out, d, e) =
      if leb meta.uncompressed_size d.pos
      then Option.map (after_verify written out) (verify fuel d meta e)
      else some (ok written, out, d, meta, e)

  -- `read_at` after the bytes before the offset were discarded.
  unfoldable pub read_out :
      ℕ → List ℕ → EntryMeta → Io (Unit {0}) × PositionedDecoder C S K × E → Option ReadAnswer
  unfolding finish_read fill_out
  read_out fuel out meta (err x, d, e) = some (err x, out, d, meta, e)
  read_out fuel out meta (ok _, d, e) =
      Option.bind (fill_out fuel fuel meta.uncompressed_size 0 out d e) (finish_read fuel meta)

  unfoldable pub read_at :
      ℕ → ℕ → List ℕ → PositionedDecoder C S K → EntryMeta → E → Option ReadAnswer
  unfolding skip_to read_out
  read_at fuel offset out d meta e =
      if ltb offset d.pos
      then some (err (io_error ErrorKind.invalid_input), out, d, meta, e)
      else Option.bind (skip_to fuel fuel offset d e) (read_out fuel out meta)
