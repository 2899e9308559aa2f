-- ===== src/Fs/Read.antt =====
-- The handler `read` of src/fs.rs. `scratch` is what the thread's buffer holds before a read of that
-- many bytes. An answer is `none` when the fuel of a decoder ran out, or where the source panics, on
-- an open file whose entry is not in the index.
pub mod Stored
use mathlib.Core.Option
use zipfs.Base.{
  ℕ, ◌-◌, ◌≡◌, min, Bool, true, false, Option, none, some, List, [], ◌∷◌, ok, err, ◌==◌,
  if◌then◌else◌, get_elem?, set, take, ◌+◌, ap, refl, Bool-cases, inl, inr, arith,
}
use zipfs.Io.{Io, os_errno, ebadf, eio, estale}
use zipfs.Entry.{Method, EntryMeta, verify_bad}
use zipfs.Codec.{Codec, Flate, ZstdRaw, codec}
use zipfs.Guard.{Os, GuardedFile}
use zipfs.Guard.Reads.{IsCurrent, read_exact_at-ok}
use zipfs.Source.{BufSource, source}
use zipfs.Decode.{Crc, EntryLocation}
use zipfs.Decode.ReadAt.{ReadAnswer}
use zipfs.Decode.ReadAt
use zipfs.Pool.{EntryPool, DecoderBudget}
use zipfs.Pool.Exchange.{checkout, give_back}
use zipfs.Handle.{
  OpenKind, empty, store, coded, OpenFile, StoreVerify, observe_store, get, remove_key,
}
use zipfs.Fs.{Reply, diagnose, read_direct}
use zipfs.Fs.Direct.{IsInside, read_direct-ok}
use zipfs.Fs.Handlers.{ZipFs}

unfoldable pub observed : List ℕ → Bool → Reply (List ℕ)
observed bytes true = ok bytes
observed bytes false = err eio

unfoldable pub bytes_read : Io ℕ → List ℕ → Reply (List ℕ)
bytes_read (ok n) out = ok (take n out)
bytes_read (err x) out = err (os_errno x)

module _ {D Z W K : Type 0} (os : Os W) (flate : Flate D) (raw : ZstdRaw Z) (crc : Crc K)
    (scratch : ℕ → List ℕ) where
  abbrev pub File : Type 0
  File = OpenFile (Codec D Z) BufSource K

  abbrev pub Fs : Type 0
  Fs = ZipFs (Codec D Z) BufSource K W

  -- What the read of one open file gives: the reply, the file, its entry, the budget, and the
  -- archive.
  abbrev pub FileAnswer : Type 0
  FileAnswer = Reply (List ℕ) × File × EntryMeta × DecoderBudget (Codec D Z) × (GuardedFile × W)

  unfoldable pub after_direct :
      ℕ → File → EntryMeta → DecoderBudget (Codec D Z) → Io (List ℕ) → GuardedFile × W → FileAnswer
  unfolding observe_store observed
  after_direct offset file m b (err x) s = (err (os_errno x), file, m, b, s)
  after_direct offset file m b (ok bytes) s =
      let (fine, file₁, m₁) = observe_store crc offset bytes file m in
      (observed bytes fine, file₁, m₁, b, s)

  unfoldable pub after_coded :
      File
      → EntryPool (Codec D Z) BufSource K
      → DecoderBudget (Codec D Z)
      → ReadAnswer (codec flate raw) (source os) crc
      → FileAnswer
  unfolding give_back bytes_read
  after_coded file pool b (r, out, d, m, s) =
      let (pool₁, b₁) = give_back flate raw (source os) crc d pool b in
      (bytes_read r out, record file { kind = coded pool₁ }, m, b₁, s)

  unfoldable pub read_kind :
      ℕ
      → ℕ
      → ℕ
      → File
      → OpenKind (Codec D Z) BufSource K
      → EntryMeta
      → DecoderBudget (Codec D Z)
      → GuardedFile × W
      → Option FileAnswer
  unfolding after_direct after_coded read_direct checkout ReadAt.read_at
  read_kind fuel offset want file empty m b s = some (ok [], file, m, b, s)
  read_kind fuel offset want file (store start size verify) m b s =
      let (r, s₁) =
        read_direct os
          (record { data_start = start; compressed_size = size; method = Method.store }) offset want
          s in
      some (after_direct offset file m b r s₁)
  read_kind fuel offset want file (coded pool) m b s =
      let (d, pool₁, b₁) = checkout flate raw (source os) crc offset pool b in
      Option.map (after_coded file pool₁ b₁)
        (ReadAt.read_at (codec flate raw) (source os) crc fuel offset (scratch want) d m s)

  -- The reply, once the open file was read.
  unfoldable pub finish : ℕ → Fs → FileAnswer → Reply (List ℕ) × Fs
  unfolding diagnose remove_key
  finish fh z (r, file, m, b, (g, w)) =
      let z₁ = record z {
        index = record z.index { metas = set z.index.metas file.meta_idx m };
        handles = record z.handles { map = (fh, file) ∷ remove_key fh z.handles.map };
        budget = b;
      } in
      elim r [
        | ok bytes ↦ (ok bytes, record z₁ { reader = g; outside = w })
        | err e ↦
            let (e₁, g₁, w₁) = diagnose os e g w in
            (err e₁, record z₁ { reader = g₁; outside = w₁ })
      ]

  unfoldable pub read_entry :
      ℕ → ℕ → ℕ → ℕ → File → Option EntryMeta → Fs → Option (Reply (List ℕ) × Fs)
  unfolding diagnose finish read_kind
  read_entry fuel fh offset size file none z = none
  read_entry fuel fh offset size file (some m) z =
      let want = min size (file.size - offset) in
      let (e₁, g₁, w₁) = diagnose os eio z.reader z.outside in
      if m.verify_state == verify_bad
      then some (err e₁, record z { reader = g₁; outside = w₁ })
      else if want == 0
      then some (ok [], z)
      else Option.map (finish fh z)
          (read_kind fuel offset want file file.kind m z.budget (z.reader, z.outside))

  unfoldable pub read_open : ℕ → ℕ → ℕ → ℕ → Option File → Fs → Option (Reply (List ℕ) × Fs)
  unfolding read_entry
  read_open fuel fh offset size none z = some (err ebadf, z)
  read_open fuel fh offset size (some file) z =
      if z.reader.is_stale
      then some (err estale, z)
      else read_entry fuel fh offset size file (get_elem? z.index.metas file.meta_idx) z

  unfoldable pub read : ℕ → ℕ → ℕ → ℕ → Fs → Option (Reply (List ℕ) × Fs)
  unfolding read_open get
  read fuel fh offset size z = read_open fuel fh offset size (get fh z.handles) z

  after_direct-ok :
      (offset : ℕ) (file : File) (m : EntryMeta) (b : DecoderBudget (Codec D Z)) (r : Io (List ℕ))
      (s : GuardedFile × W) (bytes : List ℕ)
      → (after_direct offset file m b r s).0 ≡ ok bytes
      → r ≡ ok bytes
  unfolding after_direct observed
  after_direct-ok offset file m b (err x) s bytes h = absurd (ground arith)
  after_direct-ok offset file m b (ok got) s bytes h =
      elim (Bool-cases (observe_store crc offset got file m).0) [
        | inl e ↦ let same : got ≡ bytes = cc (rw e at h) in ap ok same
        | inr e ↦ absurd (ground (arith, rw e at h))
      ]

  -- A read of an open file that is stored always answers. If it answers with bytes, the range asked
  -- for is inside the entry, the bytes are those that the system call read from the archive at the
  -- entry's start plus the offset, and the archive was not found changed before and, examined after
  -- that call, is still the one that was opened.
  pub read_kind-stored :
      (fuel offset want start size : ℕ) (file : File) (verify : Option (StoreVerify K))
      (m : EntryMeta) (b : DecoderBudget (Codec D Z)) (g : GuardedFile) (w : W)
      → (a : FileAnswer) × (read_kind fuel offset want file (store start size verify) m b (g, w)
          ≡ some a)
        × ((bytes : List ℕ)
            → a.0 ≡ ok bytes
            → IsInside os
                (record { data_start = start; compressed_size = size; method = Method.store })
                offset
                want
              × ((os.read_exact_at (start + offset) want w).0 ≡ ok bytes)
              × (g.is_stale ≡ false)
              × IsCurrent os g (os.read_exact_at (start + offset) want w).1)
  unfolding read_kind
  read_kind-stored fuel offset want start size file verify m b g w =
      let loc : EntryLocation = record {
        data_start = start;
        compressed_size = size;
        method = Method.store;
      } in
      let (r, s) = read_direct os loc offset want (g, w) in
      (
        after_direct offset file m b r s,
        refl,
        λ bytes h.
            let (inside, read) =
              (read_direct-ok os loc offset want g w bytes).0
                (after_direct-ok offset file m b r s bytes h) in
            let (got, fresh, current) =
              (read_exact_at-ok os g (start + offset) want w bytes).0 read in
            (inside, got, fresh, current),
      )
