-- ===== src/Decode/Reads.antt =====
-- What `read_at` promises: the bytes of the entry from the offset on, and a read that reaches the end
-- of the entry succeeds only if the checksum of the whole entry is right.
use mathlib.Core.Option
use zipfs.Base.{
  ℕ, ◌+◌, ◌-◌, ◌≤◌, ◌<◌, min, max, ◌≡◌, refl, sym, ap, ◌∙◌, ◌⊎◌, some, List, ok, err, ltb, leb,
  true, false, length, take, drop, Bool-cases, inl, inr, arith, leb→lt, length-drop,
}
use zipfs.Io.{Io}
use zipfs.Entry.{EntryMeta, set_verify_state, verify_ok, verify_bad}
use zipfs.Decode.{PositionedDecoder, Answer}
use zipfs.Decode.ReadAt.{Checked, ReadAnswer, after_verify, finish_read, read_out, read_at}
use zipfs.Decode.Follows.{Reading, Follows, has_crc}
use zipfs.Decode.Skip.{Held, Arrived, skip_to-Arrives}
use zipfs.Decode.Fill
use zipfs.Decode.Fill.{Wrote, Complete, fill_out-Fills}
use zipfs.Decode.Checksum.{checksum, Passed, Verdict, verify-Verdict}

module _ {C S E K : Type 0} (x : Reading C S E K) where
  open x use {codec, source, crc, unread, content}

  -- The entry is as the central directory says: its length and its checksum.
  abbrev pub Matches : EntryMeta → Type 0
  Matches meta =
      (length content ≡ meta.uncompressed_size) × (checksum x (length content) ≡ meta.crc32)

  -- A read at `offset` into `out` gave this answer.
  abbrev pub Read :
      ℕ → List ℕ → PositionedDecoder C S K → EntryMeta → ReadAnswer codec source crc → Type 0
  Read offset out d meta (err _, out', d', meta', _) =
      (length out' ≡ length out) × ((meta' ≡ meta) ⊎ (meta' ≡ set_verify_state verify_bad meta))
  Read offset out d meta (ok n, out', d', meta', _) =
      (length out' ≡ length out)
      × (n ≡ min (length out) (min meta.uncompressed_size (length content) - offset))
      × (take n out' ≡ take n (drop offset content))
      × Follows x d'
      × (d'.pos ≡ offset + n)
      × (d.verified ≡ false
          → has_crc d.crc ≡ true
          → meta.uncompressed_size ≤ offset + n
          → Matches meta × (meta' ≡ set_verify_state verify_ok meta))
      × (d.verified ≡ true → meta' ≡ meta)

  module _ (offset : ℕ) (out : List ℕ) (d : PositionedDecoder C S K) (meta : EntryMeta) where
    -- The number of bytes that the loop stopped at.
    written-min :
        (n : ℕ) (out' : List ℕ) (d' : PositionedDecoder C S K)
        → length out' ≡ length out
        → Wrote x offset meta.uncompressed_size n out' d'
        → Complete x offset meta.uncompressed_size n out' d'
        → d'.pos ≤ max offset meta.uncompressed_size
        → n ≡ min (length out) (min meta.uncompressed_size (length content) - offset)
    written-min n out' d' size w (inl full) le =
        omega (arith, size, full, w.at, w.fits, le, w.follows.within)
    written-min n out' d' size w (inr (inl end)) le =
        omega (arith, size, end, w.at, w.fits, le, w.follows.within)
    written-min n out' d' size w (inr (inr end)) le =
        omega (
          arith,
          size,
          ap length end,
          length-drop d'.pos content,
          w.at,
          w.fits,
          le,
          w.follows.within,
        )

    Passed-Matches :
        (d' : PositionedDecoder C S K) (meta' : EntryMeta)
        → Follows x d'
        → has_crc d'.crc ≡ true
        → d'.pos ≡ meta.uncompressed_size
        → Passed x d' meta meta'
        → Matches meta × (meta' ≡ set_verify_state verify_ok meta)
    Passed-Matches d' meta' f has at (inl (no_crc, _)) = absurd (cc (sym has ∙ no_crc))
    Passed-Matches d' meta' f has at (inr (end, sum, ok_)) =
        let whole : length content ≡ d'.pos =
          omega (arith, ap length end, length-drop d'.pos content, f.within) in
        ((whole ∙ at, ap (checksum x) whole ∙ sum), ok_)

    -- The answer after the verdict on the decoder that the fill loop left.
    after_verify-Read :
        (n : ℕ) (out' : List ℕ) (d' : PositionedDecoder C S K) (v : Checked codec source crc)
        → length out' ≡ length out
        → Wrote x offset meta.uncompressed_size n out' d'
        → n ≡ min (length out) (min meta.uncompressed_size (length content) - offset)
        → d'.verified ≡ d.verified
        → has_crc d'.crc ≡ has_crc d.crc
        → Verdict x d' meta v
        → Read offset out d meta (after_verify codec source crc n out' v)
    unfolding after_verify
    after_verify-Read n out' d' (err y, d₂, meta', e) size w m v h p = (size, p.1)
    after_verify-Read n out' d' (ok u, d₂, meta', e) size w m v h (f, at, q) =
        (size, m, w.bytes, f, at ∙ w.at, (λ fresh has _. judge fresh has q), λ old. stays old q)
      where
        Ruled : Type 0
        Ruled =
            ((d'.verified ≡ true) × (meta' ≡ meta))
            ⊎ ((d'.verified ≡ false) × (d'.pos ≡ meta.uncompressed_size) × Passed x d' meta meta')

        stays : d.verified ≡ true → Ruled → meta' ≡ meta
        stays old (inl (_, same)) = same
        stays old (inr (fresh, _, _)) = absurd (cc (sym old ∙ sym v ∙ fresh))

        judge :
            d.verified ≡ false
            → has_crc d.crc ≡ true
            → Ruled
            → Matches meta × (meta' ≡ set_verify_state verify_ok meta)
        judge fresh has (inl (old, _)) = absurd (cc (sym old ∙ v ∙ fresh))
        judge fresh has (inr (_, end, passed)) =
            Passed-Matches d' meta' w.follows (h ∙ has) end passed

    finish_read-Read :
        (fuel : ℕ) (d₁ : PositionedDecoder C S K) (a : Answer codec source crc)
        → d₁.pos ≡ offset
        → Held x d d₁
        → length (unread d.src) < fuel
        → Fill.Filled x offset meta.uncompressed_size out d₁ a
        → (r : ReadAnswer codec source crc) × (finish_read codec source crc fuel meta a ≡ some r)
          × Read offset out d meta r
    unfolding finish_read
    finish_read-Read fuel d₁ (err y, out', d', e) at g enough size =
        ((err y, out', d', meta, e), refl, (size, inl refl))
    finish_read-Read fuel d₁ (ok n, out', d', e) at g enough (size, w, h, c, le) =
        let m = written-min n out' d' size w c (omega arith) in
        let has = h.crc ∙ g.crc in
        let old = h.verified ∙ g.verified in
        elim (Bool-cases (leb meta.uncompressed_size d'.pos)) [
          | inl t ↦
              let (v, run, p) =
                verify-Verdict x d' meta fuel e (omega (arith, h.fewer, g.fewer)) w.follows in
              (
                after_verify codec source crc n out' v,
                simp t (ap (Option.map (after_verify codec source crc n out')) run),
                after_verify-Read n out' d' v size w m old has p,
              )
          | inr t ↦ (
            (ok n, out', d', meta, e),
            simp t,
            (
              size,
              m,
              w.bytes,
              w.follows,
              w.at,
              (λ _ _ over. absurd (omega (arith, leb→lt _ _ t, w.at))),
              λ _. refl,
            ),
          )
        ]

    read_out-Read :
        (fuel : ℕ) (a : Io (Unit {0}) × PositionedDecoder C S K × E)
        → length (unread d.src) < fuel
        → length out < fuel
        → Arrived x d offset a.0 a.1
        → (r : ReadAnswer codec source crc) × (read_out codec source crc fuel out meta a ≡ some r)
          × Read offset out d meta r
    unfolding read_out Option.bind
    read_out-Read fuel (err y, d₁, e) enough long p =
        ((err y, out, d₁, meta, e), refl, (refl, inl refl))
    read_out-Read fuel (ok u, d₁, e) enough long (f, at, g) =
        let (a, run, p) =
          fill_out-Fills x offset meta.uncompressed_size fuel fuel 0 out d₁ e
            (omega (arith, g.fewer)) (omega arith)
            (record { follows = f; at = omega arith; fits = omega arith; bytes = refl }) in
        let (r, done, q) = finish_read-Read fuel d₁ a at g enough p in
        (r, rw (run, Option.bind) done, q)

    -- `read_at` always answers, given enough fuel. When it succeeds, the bytes are those of the
    -- entry from the offset on, as many as fit in the buffer and as both the entry and the central
    -- directory have; and the decoder stands behind them. If the read succeeds and reached the
    -- declared size with a hasher at work, and the decoder was not checked before, the entry has that
    -- size and the recorded checksum, and is marked as verified, over whatever mark it had. A success
    -- of a decoder that was checked before, whether it passed then or not, leaves the mark alone and
    -- says nothing of the checksum. A failure leaves the mark alone or marks the entry as bad.
    pub read_at-Read :
        (fuel : ℕ) (e : E)
        → Follows x d
        → d.pos ≤ offset
        → 0 < length d.skip
        → length (unread d.src) < fuel
        → offset < fuel
        → length out < fuel
        → (a : ReadAnswer codec source crc) × (read_at codec source crc fuel offset out d meta e
            ≡ some a)
          × Read offset out d meta a
    unfolding read_at Option.bind
    read_at-Read fuel e f le room a b c =
        let ahead : ltb offset d.pos ≡ false = ground arith in
        let (s, run, p) = skip_to-Arrives x fuel fuel offset d e a room le (omega arith) f in
        let (r, done, q) = read_out-Read fuel s a c p in
        (r, simp ahead (rw (run, Option.bind) done), q)
