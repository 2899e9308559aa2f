-- ===== src/Fs/Read/Stored.antt =====
-- The handler `read` on an open file that is stored.
use mathlib.Core.Option
use zipfs.Base.{
  ℕ, ◌+◌, ◌-◌, min, ◌≡◌, refl, ap, ◌∙◌, ◌⊎◌, inl, inr, false, Option, some, List, [], ok, err, ◌==◌,
  ==_iff, get_elem?, Bool-cases, arith,
}
use zipfs.Entry.{Method, EntryMeta, verify_bad}
use zipfs.Codec.{Flate, ZstdRaw}
use zipfs.Guard.{Os, GuardedFile}
use zipfs.Guard.Reads.{IsCurrent}
use zipfs.Decode.{Crc}
use zipfs.Handle.{StoreVerify, store, get}
use zipfs.Fs.{Reply}
use zipfs.Fs.Direct.{IsInside}
use zipfs.Fs.Read.{File, Fs, FileAnswer, finish, read_entry, read_open, read, read_kind-stored}

module _ {D Z W K : Type 0} (os : Os W) (flate : Flate D) (raw : ZstdRaw Z) (crc : Crc K)
    (scratch : ℕ → List ℕ) where
  -- Bytes that were read out of an archive that did not change: those at the entry's start plus the
  -- offset, inside the entry, with the archive examined after the call that read them.
  abbrev pub Authentic : ℕ → ℕ → ℕ → ℕ → GuardedFile → W → List ℕ → Type 0
  Authentic start size offset want g w bytes =
      IsInside os (record { data_start = start; compressed_size = size; method = Method.store })
        offset want
      × ((os.read_exact_at (start + offset) want w).0 ≡ ok bytes)
      × (g.is_stale ≡ false)
      × IsCurrent os g (os.read_exact_at (start + offset) want w).1

  finish-ok :
      (fh : ℕ) (z : Fs os flate raw crc scratch) (a : FileAnswer os flate raw crc scratch)
      (bytes : List ℕ)
      → (finish os flate raw crc scratch fh z a).0 ≡ ok bytes
      → a.0 ≡ ok bytes
  unfolding finish
  finish-ok fh z (ok got, file, m, b, (g, w)) bytes h = h
  finish-ok fh z (err e, file, m, b, (g, w)) bytes h = absurd (ground arith)

  module _ (fuel fh offset size start length : ℕ) (file : File os flate raw crc scratch)
      (check : Option (StoreVerify K)) (m : EntryMeta) (z : Fs os flate raw crc scratch) where
    abbrev want : ℕ
    want = min size (file.size - offset)

    -- The handler answered `a`: with no bytes only if none were asked for or are there, and else with
    -- authentic ones.
    abbrev pub Answered : Reply (List ℕ) × Fs os flate raw crc scratch → Type 0
    Answered a =
        (bytes : List ℕ)
        → a.0 ≡ ok bytes
        → ((want ≡ 0) × (bytes ≡ [])) ⊎ Authentic start length offset want z.reader z.outside bytes

    entry-Answered :
        file.kind ≡ store start length check
        → (a : Reply (List ℕ) × Fs os flate raw crc scratch) × (read_entry os flate raw crc scratch
              fuel fh offset size file
              (some m)
              z
            ≡ some a)
          × Answered a
    unfolding read_entry
    entry-Answered k = elim (Bool-cases (m.verify_state == verify_bad)) [
      | inl bad ↦ rw bad (_, refl, λ bytes h. absurd (ground arith))
      | inr fine ↦ elim (Bool-cases (want == 0)) [
        | inl nothing ↦
            rw (fine, nothing) (_, refl, λ bytes h. inl ((==_iff want 0).0 nothing, cc h))
        | inr some_bytes ↦
            let (a, answered, authentic) =
              read_kind-stored os flate raw crc scratch fuel offset want start length file check m
                z.budget z.reader z.outside in
            (
              finish os flate raw crc scratch fh z a,
              simp (fine, some_bytes, k)
                  (ap (Option.map (finish os flate raw crc scratch fh z)) answered),
              λ bytes h. inr (authentic bytes (finish-ok fh z a bytes h)),
            )
      ]
    ]

    open_fresh :
        z.reader.is_stale ≡ false
        → read_open os flate raw crc scratch fuel fh offset size (some file) z
          ≡ read_entry os flate raw crc scratch fuel fh offset size file
              (get_elem? z.index.metas file.meta_idx)
              z
    unfolding read_open
    open_fresh h = simp h refl

    -- A read through a handle that is open on a stored file whose entry is in the index always
    -- answers. Bytes come out only as follows: none if none were asked for or the offset is at or
    -- past the end of the file; else those of the archive at the entry's start plus the offset, as
    -- many as were asked for and the file has, inside the entry, read before the archive was
    -- examined and found to be the one that was opened.
    pub read-stored :
        get fh z.handles ≡ some file
        → file.kind ≡ store start length check
        → get_elem? z.index.metas file.meta_idx ≡ some m
        → (a : Reply (List ℕ) × Fs os flate raw crc scratch) × (read os flate raw crc scratch fuel
              fh offset size z
            ≡ some a)
          × Answered a
    unfolding read read_open
    read-stored found k there = elim (Bool-cases z.reader.is_stale) [
      | inl e ↦ rw (found, e) (_, refl, λ bytes h. absurd (ground arith))
      | inr e ↦
          let (a, answered, authentic) = entry-Answered k in
          (
            a,
            ap (λ o. read_open os flate raw crc scratch fuel fh offset size o z) found
                ∙ open_fresh e
                ∙ ap (λ o. read_entry os flate raw crc scratch fuel fh offset size file o z) there
                ∙ answered,
            authentic,
          )
    ]
