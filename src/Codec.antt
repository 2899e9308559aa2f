-- ===== src/Codec.antt =====
-- src/codec.rs, src/codec/deflate.rs and src/codec/zstd.rs: decompressors driven a buffer at a time.
-- The inflater of flate2 and the decoder of zstd are parameters.
pub mod Streaming
use zipfs.Base.{
  ℕ, ◌-◌, min, ◌≡◌, Bool, true, false, List, [], ◌++◌, Result, ok, err, ◌==◌, if◌then◌else◌, length,
  take, drop,
}
use zipfs.Io.{IoError, ErrorKind, io_error}
use zipfs.Entry.{Method}

pub record Step : Type 0 where
  pub consumed : ℕ
  pub produced : ℕ
  pub done : Bool

-- `CodecError`, without its message.
pub data CodecError : Type 0 where
  codec_error : CodecError

unfoldable pub into_io : CodecError → IoError
into_io codec_error = io_error ErrorKind.invalid_data

-- The trait. `step` gives the output buffer as the call leaves it.
pub record Decompressor (C : Type 0) : Type 0 where
  pub reinit : C → C
  pub step : C → List ℕ → List ℕ → Result CodecError Step × List ℕ × C

-- `Store::step`.
unfoldable pub store_step : List ℕ → List ℕ → Step × List ℕ
store_step input output =
    let n = min (length input) (length output) in
    (record { consumed = n; produced = n; done = false }, take n input ++ drop n output)

-- `flate2::Decompress`: `decompress` says whether the stream ended.
pub record Flate (D : Type 0) : Type 0 where
  pub fresh : D
  pub reset : D → D
  pub total_in : D → ℕ
  pub total_out : D → ℕ
  pub decompress : D → List ℕ → List ℕ → Result (Unit {0}) Bool × List ℕ × D

-- `zstd::stream::raw::Decoder`: `run_on_buffers` gives the bytes read, the bytes written, and the
-- remaining hint.
pub record ZstdRaw (Z : Type 0) : Type 0 where
  pub fresh : Z
  pub reinit : Z → Z
  pub run_on_buffers : Z → List ℕ → List ℕ → Result (Unit {0}) (ℕ × ℕ × ℕ) × List ℕ × Z

-- The counts never go down, and `usize::try_from` of a difference of two `u64` does not fail on a
-- 64-bit target.
unfoldable pub deflated :
    {D : Type 0} → Flate D → D → D → Result (Unit {0}) Bool → Result CodecError Step
deflated flate d d₁ (err _) = err codec_error
deflated flate d d₁ (ok ended) = ok (record {
  consumed = flate.total_in d₁ - flate.total_in d;
  produced = flate.total_out d₁ - flate.total_out d;
  done = ended;
})

unfoldable pub deflate_step :
    {D : Type 0} → Flate D → D → List ℕ → List ℕ → Result CodecError Step × List ℕ × D
unfolding deflated
deflate_step flate d input output =
    let (r, output₁, d₁) = flate.decompress d input output in (deflated flate d d₁ r, output₁, d₁)

-- The frame ends when nothing remains.
unfoldable pub unpacked : Result (Unit {0}) (ℕ × ℕ × ℕ) → Result CodecError Step
unpacked (err _) = err codec_error
unpacked (ok (bytes_read, bytes_written, remaining)) =
    ok (record { consumed = bytes_read; produced = bytes_written; done = remaining == 0 })

unfoldable pub zstd_step :
    {Z : Type 0} → ZstdRaw Z → Z → List ℕ → List ℕ → Result CodecError Step × List ℕ × Z
unfolding unpacked
zstd_step raw z input output =
    let (r, output₁, z₁) = raw.run_on_buffers z input output in (unpacked r, output₁, z₁)

pub data Codec (D Z : Type 0) : Type 0 where
  store : Codec D Z
  deflate : D → Codec D Z
  zstd : Z → Codec D Z

module _ {D Z : Type 0} (flate : Flate D) (raw : ZstdRaw Z) where
  unfoldable pub new : Method → Codec D Z
  new Method.store = store
  new Method.deflate = deflate flate.fresh
  new Method.zstd = zstd raw.fresh

  unfoldable pub reinit : Codec D Z → Codec D Z
  reinit store = store
  reinit (deflate d) = deflate (flate.reset d)
  reinit (zstd z) = zstd (raw.reinit z)

  unfoldable pub step : Codec D Z → List ℕ → List ℕ → Result CodecError Step × List ℕ × Codec D Z
  step store input output = let (s, output₁) = store_step input output in (ok s, output₁, store)
  step (deflate d) input output =
      let (r, output₁, d₁) = deflate_step flate d input output in (r, output₁, deflate d₁)
  step (zstd z) input output =
      let (r, output₁, z₁) = zstd_step raw z input output in (r, output₁, zstd z₁)

  abbrev pub codec : Decompressor (Codec D Z)
  codec = record { reinit = reinit; step = step }

unfoldable pub codec_method : {D Z : Type 0} → Codec D Z → Method
codec_method store = Method.store
codec_method (deflate d) = Method.deflate
codec_method (zstd z) = Method.zstd
