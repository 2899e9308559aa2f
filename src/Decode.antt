-- ===== src/Decode.antt =====
-- src/decode.rs: a decompressor positioned inside one entry. The decompressor, the buffered reader
-- and the CRC-32 hasher are arguments: the first two are the interfaces of Codec.antt and
-- Stream.antt, the hasher is crc32fast's. Loops run on fuel, and `none` says that it ran out.
-- A `usize` has 64 bits, so `usize::try_from` of a `u64` does not fail.
pub mod ReadAt
pub mod Follows
pub mod Rounds
pub mod Pump
pub mod Skip
pub mod Fill
pub mod Start
pub mod Checksum
pub mod Reads
use zipfs.Base.{
  ℕ, zero, suc, ◌+◌, ◌-◌, min, Bool, true, false, ◌||◌, ◌&&◌, Option, none, some, List, [], ◌∷◌,
  ◌++◌, Result, ok, err, ltb, leb, ◌==◌, if◌then◌else◌, length, take, drop, not,
}
use mathlib.Core.Option
use zipfs.Base.Word.{add64}
use zipfs.Io.{Io, IoError, ErrorKind, io_error}
use zipfs.Entry.{Method, EntryMeta, set_verify_state, verify_ok, verify_bad}
use zipfs.Codec.{CodecError, Decompressor, Step, into_io}
use zipfs.Stream.{ByteSource}

-- `crc32fast::Hasher`.
pub record Crc (K : Type 0) : Type 0 where
  pub new : K
  pub update : K → List ℕ → K
  pub finalize : K → ℕ
  pub reset : K → K

pub record CoreParts (C : Type 0) : Type 0 where
  pub codec : C
  pub buf : List ℕ
  pub skip : List ℕ

pub record EntryLocation : Type 0 where
  pub data_start : ℕ
  pub compressed_size : ℕ
  pub method : Method

pub record PositionedDecoder (C S K : Type 0) : Type 0 where
  pub pos : ℕ
  pub finished : Bool
  pub verified : Bool
  pub crc : Option K
  pub codec : C
  pub src : S
  pub skip : List ℕ

unfoldable pub is_empty : List ℕ → Bool
is_empty [] = true
is_empty (x ∷ xs) = false

unfoldable pub truncated : IoError
truncated = io_error ErrorKind.unexpected_eof

unfoldable pub proves_bad : IoError → Bool
proves_bad e = elim e.kind [
  | ErrorKind.invalid_data ↦ true
  | ErrorKind.unexpected_eof ↦ true
  | _ ↦ false
]

module _ {C S E K : Type 0} (codec : Decompressor C) (source : ByteSource S E) (crc : Crc K) where
  -- `PositionedDecoder::new` at a location, from recycled parts.
  unfoldable pub new : EntryLocation → CoreParts C → Bool → PositionedDecoder C S K
  new loc parts verify = record {
    pos = 0;
    finished = false;
    verified = false;
    crc = if verify then some crc.new else none;
    codec = codec.reinit parts.codec;
    src = source.create loc.data_start loc.compressed_size parts.buf;
    skip = parts.skip;
  }

  unfoldable pub reinit : EntryLocation → PositionedDecoder C S K → PositionedDecoder C S K
  reinit loc d = record d {
    pos = 0;
    finished = false;
    verified = false;
    crc = Option.map crc.reset d.crc;
    codec = codec.reinit d.codec;
    src = source.retarget loc.data_start loc.compressed_size d.src;
  }

  unfoldable pub into_parts : PositionedDecoder C S K → CoreParts C
  into_parts d = record { codec = d.codec; buf = source.into_buf d.src; skip = d.skip }

  -- What one round of the loop in `Pump::step` does: it returns, or goes round again. The output
  -- buffer, the decoder and the shared state are as the round leaves them.
  pub data Round : Type 0 where
    returns : Io ℕ → List ℕ → PositionedDecoder C S K → E → Round
    again : List ℕ → PositionedDecoder C S K → E → Round

  -- The part of a round after the decompressor made a step on `input` that produced nothing.
  unfoldable pub after_silence : List ℕ → Step → List ℕ → PositionedDecoder C S K → E → Round
  unfolding is_empty
  after_silence input step out d e =
      if step.done
      then returns (ok 0) out (record d { finished = true }) e
      else if step.consumed == 0
      then (if is_empty input
          then returns (ok 0) out (record d { finished = true }) e
          else returns (err (io_error ErrorKind.invalid_data)) out d e)
      else again out d e

  -- The part of a round after the decompressor made a step on `input`.
  unfoldable pub after_step : List ℕ → Step → List ℕ → PositionedDecoder C S K → E → Round
  after_step input step out d e =
      let d₁ = record d { src = source.consume step.consumed d.src } in
      if ltb 0 step.produced
      then returns (ok step.produced) out
          (record d₁ {
            crc = Option.map (λ k. crc.update k (take step.produced out)) d.crc;
            pos = add64 d.pos step.produced;
            finished = step.done || d.finished;
          })
          e
      else after_silence input step out d₁ e

  -- The part of a round after the decompressor was called on `input`.
  unfoldable pub after_codec :
      List ℕ → Result CodecError Step → List ℕ → PositionedDecoder C S K → E → Round
  unfolding into_io
  after_codec input (err x) out d e = returns (err (into_io x)) out d e
  after_codec input (ok step) out d e = after_step input step out d e

  -- The part of a round after the source gave `filled`.
  unfoldable pub after_fill : Io (List ℕ) → List ℕ → PositionedDecoder C S K → E → Round
  after_fill (err x) out d e = returns (err x) out d e
  after_fill (ok input) out d e =
      let (r, out₁, codec₁) = codec.step d.codec input out in
      after_codec input r out₁ (record d { codec = codec₁ }) e

  unfoldable pub round : List ℕ → PositionedDecoder C S K → E → Round
  round out d e =
      let (filled, src₁, e₁) = source.fill_buf d.src e in
      after_fill filled out (record d { src = src₁ }) e₁

  -- What a call that writes into a buffer gives: its result, the buffer, and the states.
  abbrev pub Answer : Type 0
  Answer = Io ℕ × List ℕ × PositionedDecoder C S K × E

  unfoldable pub pump_loop : ℕ → List ℕ → PositionedDecoder C S K → E → Option Answer
  pump_loop zero out d e = none
  pump_loop (suc fuel) out d e = elim (round out d e) [
    | returns r out₁ d₁ e₁ ↦ some (r, out₁, d₁, e₁)
    | again out₁ d₁ e₁ ↦ pump_loop fuel out₁ d₁ e₁
  ]

  -- `Pump::step`.
  unfoldable pub pump : ℕ → List ℕ → PositionedDecoder C S K → E → Option Answer
  unfolding is_empty
  pump fuel out d e =
      if is_empty out || d.finished then some (ok 0, out, d, e) else pump_loop fuel out d e
