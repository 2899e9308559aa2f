-- ===== src/Tests/Entries.antt =====
-- Reads of an entry of four bytes that is stored, with buffers of two and three bytes.
use zipfs.Base.{◌≡◌, refl, false, some, [], ◌∷◌}
use zipfs.Base.{arith}
use zipfs.Codec.{codec, Codec}
use zipfs.Codec
use zipfs.Source.{source}
use zipfs.Source
use zipfs.Source.Range.{retarget-IsValid, new-IsValid}
use zipfs.Decode.{Answer, reinit, pump}
use zipfs.Decode
use zipfs.Decode.ReadAt.{Checked, ReadAnswer, verify, read_at}
use zipfs.Decode.Follows.{Follows, Pumped, has_crc}
use zipfs.Decode.Pump.{pump-Pumped}
use zipfs.Decode.Skip.{Arrives, skip_to-Arrives}
use zipfs.Decode.Fill.{Fills, Wrote, fill_out-Fills}
use zipfs.Decode.Start.{reinit-Follows}
use zipfs.Decode.Checksum.{Verdict, verify-Verdict}
use zipfs.Decode.Reads.{Read, read_at-Read}
use zipfs.Tests.Data.{archive_bytes, guard, stored, location, decoder, decoder-Follows, entry}

pump-Pumped_example :
    (a : Answer stored.codec stored.source stored.crc) × (pump stored.codec stored.source stored.crc
        9
        (0 ∷ 0 ∷ [])
        decoder
        (guard, 6)
      ≡ some a)
    × Pumped stored decoder (0 ∷ 0 ∷ []) a
unfolding Decode.new Source.new
pump-Pumped_example =
    pump-Pumped stored 9 (0 ∷ 0 ∷ []) decoder (guard, 6) (omega arith) (omega arith) decoder-Follows

skip_to-Arrives_example : Arrives stored 9 9 3 decoder (guard, 6)
unfolding Decode.new Source.new
skip_to-Arrives_example =
    skip_to-Arrives stored 9 9 3 decoder (guard, 6) (omega arith) (omega arith) (omega arith)
      (omega arith) decoder-Follows

nothing_written : Wrote stored 0 4 0 (0 ∷ 0 ∷ 0 ∷ []) decoder
unfolding Decode.new
nothing_written = record { follows = decoder-Follows; at = refl; fits = omega arith; bytes = refl }

fill_out-Fills_example : Fills stored 0 4 9 9 0 (0 ∷ 0 ∷ 0 ∷ []) decoder (guard, 6)
unfolding Decode.new Source.new
fill_out-Fills_example =
    fill_out-Fills stored 0 4 9 9 0 (0 ∷ 0 ∷ 0 ∷ []) decoder (guard, 6) (omega arith) (omega arith)
      nothing_written

verify-Verdict_example :
    (a : Checked stored.codec stored.source stored.crc) × (verify stored.codec stored.source
        stored.crc 9 decoder entry
        (guard, 6)
      ≡ some a)
    × Verdict stored decoder entry a
unfolding Decode.new Source.new
verify-Verdict_example =
    verify-Verdict stored decoder entry 9 (guard, 6) (omega arith) decoder-Follows

reinit-Follows_example :
    let d = reinit stored.codec stored.source stored.crc location decoder in
    Follows stored d
    × (d.pos ≡ 0)
    × (d.verified ≡ false)
    × (d.skip ≡ decoder.skip)
    × (has_crc d.crc ≡ has_crc decoder.crc)
unfolding Decode.new Source.new Codec.reinit
reinit-Follows_example =
    reinit-Follows stored location (1 ∷ 4 ∷ 1 ∷ 5 ∷ []) Codec.store decoder
      (λ s v. retarget-IsValid archive_bytes 1 4 s (omega arith) v) refl (λ _. refl)
      (new-IsValid archive_bytes 1 4 (0 ∷ 0 ∷ 0 ∷ []) (omega arith) (omega arith) (omega arith)).0

read_at-Read_example :
    (a : ReadAnswer stored.codec stored.source stored.crc) × (read_at stored.codec stored.source
        stored.crc 9 1
        (0 ∷ 0 ∷ 0 ∷ [])
        decoder
        entry
        (guard, 6)
      ≡ some a)
    × Read stored 1 (0 ∷ 0 ∷ 0 ∷ []) decoder entry a
unfolding Decode.new Source.new
read_at-Read_example =
    read_at-Read stored 1 (0 ∷ 0 ∷ 0 ∷ []) decoder entry 9 (guard, 6) decoder-Follows (omega arith)
      (omega arith) (omega arith) (omega arith) (omega arith)
