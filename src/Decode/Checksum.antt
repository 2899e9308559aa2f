-- ===== src/Decode/Checksum.antt =====
-- What `verify` concludes about an entry that was read to its end.
use mathlib.Core.Option
use zipfs.Base.{
  ℕ, zero, suc, ◌<◌, ◌≡◌, refl, sym, ap, subst, ◌∙◌, ◌⊎◌, Option, none, some, List, [], ◌∷◌, ok,
  err, ltb, ◌==◌, ==_iff, true, false, length, take, drop, Bool-cases, inl, inr, arith, lt→ltb,
}
use zipfs.Entry.{EntryMeta, set_verify_state, verify_ok, verify_bad}
use zipfs.Decode.{PositionedDecoder, Answer, proves_bad, truncated}
use zipfs.Decode.ReadAt.{Checked, conclude, verify_sum, verify}
use zipfs.Decode.Follows.{Reading, Follows, Pumped, Hashed, has_crc}
use zipfs.Decode.Pump.{pump-Pumped}

module _ {C S E K : Type 0} (x : Reading C S E K) where
  open x use {codec, source, crc, unread, content}

  -- The checksum of the entry's first `n` bytes.
  abbrev pub checksum : ℕ → ℕ
  checksum n = crc.finalize (crc.update crc.new (take n content))

  -- The entry was checked with a hasher and found right, and that is recorded; or there is no
  -- hasher, and nothing is recorded.
  abbrev pub Passed : PositionedDecoder C S K → EntryMeta → EntryMeta → Type 0
  Passed d meta meta' =
      ((has_crc d.crc ≡ false) × (meta' ≡ meta))
      ⊎ ((drop d.pos content ≡ [])
          × (checksum d.pos ≡ meta.crc32)
          × (meta' ≡ set_verify_state verify_ok meta))

  -- The answer of `verify`. A decoder that was checked before is not checked again.
  abbrev pub Verdict : PositionedDecoder C S K → EntryMeta → Checked codec source crc → Type 0
  Verdict d meta (err _, d', meta', _) =
      (d.verified ≡ false) × ((meta' ≡ meta) ⊎ (meta' ≡ set_verify_state verify_bad meta))
  Verdict d meta (ok _, d', meta', _) =
      Follows x d'
      × (d'.pos ≡ d.pos)
      × (((d.verified ≡ true) × (meta' ≡ meta))
          ⊎ ((d.verified ≡ false) × (d.pos ≡ meta.uncompressed_size) × Passed d meta meta'))

  module _ (d : PositionedDecoder C S K) (meta : EntryMeta) where
    -- The verdict after one more byte was asked for, once the length is right.
    abbrev Summed : Checked codec source crc → Type 0
    Summed (err _, d', meta', _) = (meta' ≡ meta) ⊎ (meta' ≡ set_verify_state verify_bad meta)
    Summed (ok _, d', meta', _) = Follows x d' × (d'.pos ≡ d.pos) × Passed d meta meta'

    conclude-Summed :
        (d₀ : PositionedDecoder C S K) (out : List ℕ) (a : Answer codec source crc)
        → d₀.pos ≡ d.pos
        → Pumped x d₀ out a
        → Summed (conclude codec source crc (checksum d.pos) meta a)
    unfolding conclude
    conclude-Summed d₀ out (err y, o, d', e) at p = elim (Bool-cases (proves_bad y)) [
      | inl h ↦ simp h (inr refl)
      | inr h ↦ simp h (inl refl)
    ]
    conclude-Summed d₀ out (ok zero, o, d', e) at (_, _, (f, _, p, _, end, _)) =
        elim (Bool-cases (checksum d.pos == meta.crc32)) [
          | inl h ↦ simp h (
            f,
            omega (arith, p, at),
            inr (ap (λ k. drop k content) (sym at) ∙ end refl, (==_iff _ _).0 h, refl),
          )
          | inr h ↦ simp h (inr refl)
        ]
    conclude-Summed d₀ out (ok (suc n), o, d', e) at p =
        let over : ltb 0 (suc n) ≡ true = lt→ltb 0 (suc n) (omega arith) in
        elim (Bool-cases (checksum d.pos == meta.crc32)) [
          | inl h ↦ simp (h, over) (inr refl)
          | inr h ↦ simp (h, over) (inr refl)
        ]

    verify_sum-Summed :
        (fuel : ℕ) (o : Option K) (d₀ : PositionedDecoder C S K) (e : E)
        → length (unread d₀.src) < fuel
        → has_crc d.crc ≡ has_crc o
        → Hashed crc o (take d.pos content)
        → d₀.pos ≡ d.pos
        → Follows x d₀
        → (a : Checked codec source crc) × (verify_sum codec source crc fuel o d₀ meta e ≡ some a)
          × Summed a
    unfolding verify_sum
    verify_sum-Summed fuel none d₀ e enough has h at f =
        ((ok tt, d₀, meta, e), refl, (f, at, inl (has, refl)))
    verify_sum-Summed fuel (some k) d₀ e enough has h at f =
        let (a, run, p) = pump-Pumped x fuel (0 ∷ []) d₀ e enough (omega arith) f in
        (
          conclude codec source crc (crc.finalize k) meta a,
          ap (Option.map (conclude codec source crc (crc.finalize k) meta)) run,
          subst (λ s. Summed (conclude codec source crc s meta a)) (ap crc.finalize (sym h))
              (conclude-Summed d₀ (0 ∷ []) a at p),
        )

    Summed-Verdict :
        (a : Checked codec source crc)
        → d.verified ≡ false
        → d.pos ≡ meta.uncompressed_size
        → Summed a
        → Verdict d meta a
    Summed-Verdict (err _, d', meta', e) fresh at p = (fresh, p)
    Summed-Verdict (ok _, d', meta', e) fresh at (f, p, q) = (f, p, inr (fresh, at, q))

    -- `verify` answers, if the fuel exceeds the number of bytes left. A decoder that was checked
    -- before passes, and the mark of the entry stays. One that was not passes only if it stands at the
    -- declared size, and either has no hasher, and the mark stays, or has the end of the entry there
    -- and the recorded checksum, and the entry is marked as right, over whatever mark it has. The
    -- decoder stands where it stood. A failure leaves the mark alone or marks the entry as bad, over
    -- whatever mark it has.
    pub verify-Verdict :
        (fuel : ℕ) (e : E)
        → length (unread d.src) < fuel
        → Follows x d
        → (a : Checked codec source crc) × (verify codec source crc fuel d meta e ≡ some a)
          × Verdict d meta a
    unfolding verify
    verify-Verdict fuel e enough f = elim (Bool-cases d.verified) [
      | inl h ↦ ((ok tt, d, meta, e), simp h, (f, refl, inl (h, refl)))
      | inr h ↦ elim (Bool-cases (d.pos == meta.uncompressed_size)) [
        | inr p ↦ (
          (err truncated, record d { verified = true }, set_verify_state verify_bad meta, e),
          simp (h, p),
          (h, inr refl),
        )
        | inl p ↦
            let (a, run, s) =
              verify_sum-Summed fuel d.crc (record d { verified = true }) e enough refl f.hashed
                refl
                (record {
                  valid = f.valid;
                  rest = f.rest;
                  within = f.within;
                  ended = f.ended;
                  hashed = f.hashed;
                }) in
            (a, simp (h, p) run, Summed-Verdict a h ((==_iff _ _).0 p) s)
      ]
    ]
