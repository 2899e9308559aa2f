-- ===== src/Tests/Data.antt =====
-- The archives, the entry and the decoders of the tests.
use zipfs.Base.{
  ℕ, ◌+◌, min, ◌≡◌, refl, true, false, List, [], ◌∷◌, ◌++◌, ok, err, leb, if◌then◌else◌, length,
  take, drop, Bool-cases, inl, inr, arith, length-take, length-drop, leb→le, append_assoc,
  append-nil, ap,
}
use zipfs.Base.Int.{pos, as_u64}
use zipfs.Io.{ErrorKind, io_error}
use zipfs.Entry.{Method, EntryMeta}
use zipfs.Guard.{Os, Metadata, LibcStat, GuardedFile, of, of_stat}
use zipfs.Guard
use zipfs.Guard.Reads.{IsCurrent}
use zipfs.Codec.{Codec, Flate, ZstdRaw, codec}
use zipfs.Codec
use zipfs.Codec.Streaming.{
  IsInflater, IsUnpacker, codec_decoded, codec-IsStreaming, store_step-copies,
}
use zipfs.Source.{BufSource, source}
use zipfs.Source
use zipfs.Source.Range.{ReadsFile, IsValid, unread, source-IsStream, new-IsValid}
use zipfs.Decode.{Crc, EntryLocation, CoreParts, PositionedDecoder}
use zipfs.Decode
use zipfs.Decode.Follows.{IsHasher, Reading, Follows}
use zipfs.Decode.Start.{new-Follows}

abbrev pub archive_bytes : List ℕ
archive_bytes = 3 ∷ 1 ∷ 4 ∷ 1 ∷ 5 ∷ 9 ∷ []

abbrev pub archive_metadata : ℕ → Metadata
archive_metadata size = record {
  dev = 7;
  ino = 12;
  size = size;
  mtime = pos 100;
  mtime_nsec = pos 5;
}

abbrev pub archive_stat : LibcStat
archive_stat = record {
  st_dev = 7;
  st_ino = 12;
  st_size = pos 6;
  st_mtime = pos 100;
  st_mtime_nsec = pos 5;
}

-- The state is the size that the open file has.
abbrev pub os : Os ℕ
os = record {
  metadata = λ size. (ok (archive_metadata size), size);
  fstatat = λ size. (ok archive_stat, size);
  read_at = λ offset n size. (ok (take n (drop offset archive_bytes)), size);
  read_exact_at = λ offset n size. (
    if leb (offset + n) (length archive_bytes)
        then ok (take n (drop offset archive_bytes))
        else err (io_error ErrorKind.unexpected_eof),
    size,
  );
}

-- The archive cannot be examined.
abbrev pub blind_os : Os ℕ
blind_os = record os { metadata = λ size. (err (io_error ErrorKind.other), size) }

abbrev pub guard : GuardedFile
guard = Guard.new (archive_metadata 6) true

pub guard-IsCurrent : IsCurrent os guard 6
unfolding Guard.new of of_stat as_u64
guard-IsCurrent = (
  archive_metadata 6,
  refl,
  (refl, refl, refl),
  λ _. (archive_stat, refl, (refl, refl), (refl, refl, refl)),
)

pub os-ReadsFile : ReadsFile os archive_bytes
os-ReadsFile = record {
  bytes = λ offset n w bs h.
      let range = drop offset archive_bytes in
      elim (Bool-cases (leb (offset + n) 6)) [
        | inl e ↦
            let same : bs ≡ take n range = cc (rw e at h) in
            (
              same,
              omega (
                arith,
                leb→le _ _ e,
                ap length same,
                length-take n range,
                length-drop offset archive_bytes,
              ),
            )
        | inr e ↦ absurd (ground (arith, rw e at h))
      ];
}

-- An inflater and a decoder of streams that copy.
abbrev pub flate : Flate (ℕ × ℕ)
flate = record {
  fresh = (0, 0);
  reset = λ _. (0, 0);
  total_in = λ d. d.0;
  total_out = λ d. d.1;
  decompress = λ d input output.
      let n = min (length input) (length output) in
      (ok false, take n input ++ drop n output, (d.0 + n, d.1 + n));
}

abbrev pub raw : ZstdRaw (Unit {0})
raw = record {
  fresh = tt;
  reinit = λ _. tt;
  run_on_buffers = λ z input output.
      let n = min (length input) (length output) in
      (ok (n, n, 1), take n input ++ drop n output, z);
}

pub flate-IsInflater : IsInflater flate (λ _ bytes. bytes)
unfolding Codec.store_step
flate-IsInflater = record {
  decompress_lem = λ d input more output.
      let (size, took, made, split) = store_step-copies input more output in
      let n = min (length input) (length output) in
      (
        size,
        (
          n,
          n,
          refl,
          refl,
          (
            omega arith,
            omega arith,
            (drop n (input ++ more), split, (λ h. absurd (cc h)), λ _. refl),
            λ _ _ _ nothing. nothing,
          ),
        ),
      );
}

pub raw-IsUnpacker : IsUnpacker raw (λ _ bytes. bytes)
unfolding Codec.store_step
raw-IsUnpacker = record {
  run_on_buffers_lem = λ z input more output.
      let (size, took, made, split) = store_step-copies input more output in
      let n = min (length input) (length output) in
      (
        size,
        (
          omega arith,
          omega arith,
          (drop n (input ++ more), split, (λ h. absurd (ground arith)), λ _. refl),
          λ _ _ _ nothing. nothing,
        ),
      );
}

-- A hasher that keeps what it hashed.
abbrev pub sum : List ℕ → ℕ
sum [] = 0
sum (b ∷ bytes) = b + sum bytes

abbrev pub crc : Crc (List ℕ)
crc = record { new = []; update = λ k bytes. k ++ bytes; finalize = sum; reset = λ _. [] }

pub crc-IsHasher : IsHasher crc
crc-IsHasher = record {
  update_nil = λ k. append-nil k;
  update-update = λ k a b. append_assoc k a b;
  reset-new = λ _. refl;
}

abbrev pub stored : Reading (Codec (ℕ × ℕ) (Unit {0})) BufSource (GuardedFile × ℕ) (List ℕ)
stored = record {
  codec = codec flate raw;
  source = source os;
  crc = crc;
  decoded = codec_decoded flate raw (λ _ bytes. bytes) (λ _ bytes. bytes);
  IsValid = IsValid archive_bytes;
  unread = unread archive_bytes;
  streaming =
      codec-IsStreaming flate raw (λ _ bytes. bytes) (λ _ bytes. bytes) flate-IsInflater
        raw-IsUnpacker;
  stream = source-IsStream archive_bytes os os-ReadsFile;
  laws = crc-IsHasher;
  content = 1 ∷ 4 ∷ 1 ∷ 5 ∷ [];
  small = omega arith;
}

abbrev pub location : EntryLocation
location = record { data_start = 1; compressed_size = 4; method = Method.store }

abbrev pub parts : CoreParts (Codec (ℕ × ℕ) (Unit {0}))
parts = record { codec = Codec.store; buf = 0 ∷ 0 ∷ 0 ∷ []; skip = 0 ∷ 0 ∷ [] }

abbrev pub decoder : PositionedDecoder (Codec (ℕ × ℕ) (Unit {0})) BufSource (List ℕ)
decoder = Decode.new (codec flate raw) (source os) crc location parts true

pub decoder-Follows : Follows stored decoder
unfolding Decode.new Source.new Codec.reinit
decoder-Follows =
    (new-Follows stored location parts true
      (new-IsValid archive_bytes 1 4 (0 ∷ 0 ∷ 0 ∷ []) (omega arith) (omega arith) (omega arith)).0
      refl).0

abbrev pub entry : EntryMeta
entry = record {
  wayfinder = 0;
  uncompressed_size = 4;
  compressed_size = 4;
  mtime_sec = pos 0;
  mtime_nsec = 0;
  crc32 = 11;
  method_raw = 0;
  mode = 420;
  encrypted = false;
  data_start = 1;
  verify_state = 0;
  symlink_slot = 0;
}
