-- ===== src/Pool/Exchange.antt =====
-- The exchange of decoders in src/pool.rs: `checkout`, `give_back`, the end of a pool, and the parts
-- that the budget recycles. A `Checkout` is the decoder itself; its end is `give_back`.
use mathlib.Core.Option
use zipfs.Base.{
  ℕ, Bool, ◌&&◌, Option, none, some, List, [], ◌∷◌, ◌++◌, ltb, if◌then◌else◌, length, get_elem?,
  replicate,
}
use zipfs.Entry.{Method}
use zipfs.Codec.{Codec, Flate, ZstdRaw, codec, codec_method}
use zipfs.Codec
use zipfs.Stream.{ByteSource}
use zipfs.Decode.{Crc, CoreParts, PositionedDecoder, reinit, into_parts}
use zipfs.Decode
use zipfs.Pool.{
  DecoderBudget, EntryPool, try_retain, release_retain, pop_or, push_below, update, swap_remove,
  choose,
}

module _ {D Z S E K : Type 0} (flate : Flate D) (raw : ZstdRaw Z) (source : ByteSource S E)
    (crc : Crc K) where
  abbrev pub Decoder : Type 0
  Decoder = PositionedDecoder (Codec D Z) S K

  abbrev pub Pool : Type 0
  Pool = EntryPool (Codec D Z) S K

  abbrev pub Budget : Type 0
  Budget = DecoderBudget (Codec D Z)

  unfoldable pub take_core : Method → Budget → CoreParts (Codec D Z) × Budget
  unfolding pop_or update
  take_core method b =
      let (codec, codecs) = pop_or (b.cores.codecs method) (Codec.new flate raw method) in
      let (buf, buffers) = pop_or b.cores.buffers (replicate b.source_buffer 0) in
      let (skip, skips) = pop_or b.cores.skips (replicate b.skip_buffer 0) in
      (
        record { codec = codec; buf = buf; skip = skip },
        record b {
          cores = record {
            codecs = update b.cores.codecs method codecs;
            buffers = buffers;
            skips = skips;
          };
        },
      )

  unfoldable pub recycle_core : CoreParts (Codec D Z) → Budget → Budget
  unfolding push_below update codec_method
  recycle_core parts b =
      let slot = codec_method parts.codec in
      record b {
        cores = record {
          codecs =
              update b.cores.codecs slot (push_below b.max_cores parts.codec (b.cores.codecs slot));
          buffers = push_below b.max_cores parts.buf b.cores.buffers;
          skips = push_below b.max_cores parts.skip b.cores.skips;
        };
      }

  -- What the lock of `checkout` covers: the decoder taken, whether it has to be rewound, and the
  -- decoders left.
  unfoldable pub taken : List Decoder → Option (ℕ × Bool) → Option (Decoder × Bool × List Decoder)
  unfolding swap_remove
  taken idle none = none
  taken idle (some (i, rewind)) =
      Option.map (λ d. (d, rewind, swap_remove i idle)) (get_elem? idle i)

  unfoldable pub pick : ℕ → List Decoder → Option (Decoder × Bool × List Decoder)
  unfolding taken choose
  pick offset idle = taken idle (choose offset idle)

  unfoldable pub checkout_picked :
      Pool → Budget → Option (Decoder × Bool × List Decoder) → Decoder × Pool × Budget
  unfolding release_retain reinit take_core Decode.new
  checkout_picked pool b (some (d, rewind, rest)) = (
    if rewind then reinit (codec flate raw) source crc pool.loc d else d,
    record pool { idle = rest },
    release_retain b,
  )
  checkout_picked pool b none =
      let (parts, b₁) = take_core pool.loc.method b in
      (Decode.new (codec flate raw) source crc pool.loc parts b.verify, pool, b₁)

  unfoldable pub checkout : ℕ → Pool → Budget → Decoder × Pool × Budget
  unfolding checkout_picked pick
  checkout offset pool b = checkout_picked pool b (pick offset pool.idle)

  unfoldable pub give_back : Decoder → Pool → Budget → Pool × Budget
  unfolding try_retain recycle_core into_parts
  give_back d pool b =
      let (claimed, b₁) = try_retain b in
      let recycled = recycle_core (into_parts (codec flate raw) source crc d) b in
      if ltb (length pool.idle) pool.per_handle_cap && claimed
      then (record pool { idle = pool.idle ++ d ∷ [] }, b₁)
      else (pool, recycled)

  -- `Drop for EntryPool`.
  unfoldable pub drop_idle : List Decoder → Budget → Budget
  unfolding release_retain recycle_core into_parts
  drop_idle [] b = b
  drop_idle (d ∷ ds) b =
      drop_idle ds (recycle_core (into_parts (codec flate raw) source crc d) (release_retain b))
