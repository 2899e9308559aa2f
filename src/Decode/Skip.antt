-- ===== src/Decode/Skip.antt =====
-- The loop that discards bytes reaches the offset asked for, inside the entry.
use mathlib.Core.Option
use zipfs.Base.{
  ℕ, zero, suc, ◌+◌, ◌-◌, ◌≤◌, ◌<◌, min, ◌≡◌, refl, ap, ◌∙◌, some, ok, err, ltb, length, take, drop,
  Bool-cases, inl, inr, arith, ltb→lt, ltb→le, length-append, length-take, length-drop,
}
use zipfs.Io.{Io}
use zipfs.Decode.{PositionedDecoder, Answer}
use zipfs.Decode.ReadAt.{Skipping, stops, goes, after_skip, skip_turn, skip_to}
use zipfs.Decode.Follows.{Reading, Follows, Pumped, has_crc}
use zipfs.Decode.Pump.{pump-Pumped}

module _ {C S E K : Type 0} (x : Reading C S E K) where
  open x use {codec, source, crc, unread, content}

  -- What a read leaves alone in the decoder, and that it gives back no input.
  pub record Held (d d' : PositionedDecoder C S K) : Type 0 where
    pub skip : length d'.skip ≡ length d.skip
    pub verified : d'.verified ≡ d.verified
    pub crc : has_crc d'.crc ≡ has_crc d.crc
    pub fewer : length (unread d'.src) ≤ length (unread d.src)

  pub Held-trans : {a b c : PositionedDecoder C S K} → Held a b → Held b c → Held a c
  Held-trans g h = record {
    skip = h.skip ∙ g.skip;
    verified = h.verified ∙ g.verified;
    crc = h.crc ∙ g.crc;
    fewer = omega (arith, g.fewer, h.fewer);
  }

  pub Held-refl : (d : PositionedDecoder C S K) → Held d d
  Held-refl d = record { skip = refl; verified = refl; crc = refl; fewer = omega arith }

  -- What the loop promises of its answer `r` and the decoder that it leaves.
  abbrev pub Arrived :
      PositionedDecoder C S K → ℕ → Io (Unit {0}) → PositionedDecoder C S K → Type 0
  Arrived d offset (err _) d' = Unit
  Arrived d offset (ok _) d' = Follows x d' × (d'.pos ≡ offset) × Held d d'

  abbrev TurnOk : PositionedDecoder C S K → ℕ → Skipping codec source crc → Type 0
  TurnOk d offset (stops r d' e') = Arrived d offset r d'
  TurnOk d offset (goes d' e') = Follows x d' × Held d d' × (d.pos < d'.pos) × (d'.pos ≤ offset)

  after_skip-TurnOk :
      (d : PositionedDecoder C S K) (offset want : ℕ) (a : Answer codec source crc)
      → d.pos + want ≤ offset
      → want ≤ length d.skip
      → Pumped x d (take want d.skip) a
      → TurnOk d offset (after_skip codec source crc want d.skip a)
  unfolding after_skip
  after_skip-TurnOk d offset want (err y, out, d', e) h k p = tt
  after_skip-TurnOk d offset want (ok zero, out, d', e) h k p = tt
  after_skip-TurnOk d offset want (ok (suc n), out, d', e) h k
        (size, (skip, verified, has), (f, le, at, _, _, fewer)) =
      let t = length-take want d.skip in
      (
        record {
          valid = f.valid;
          rest = f.rest;
          within = f.within;
          ended = f.ended;
          hashed = f.hashed;
        },
        record {
          skip =
              omega (arith, size, t, length-append out (drop want d.skip), length-drop want d.skip);
          verified = verified;
          crc = has;
          fewer = fewer;
        },
        omega (arith, at),
        omega (arith, at, le, t),
      )

  skip_turn-TurnOk :
      (fuel offset : ℕ) (d : PositionedDecoder C S K) (e : E)
      → length (unread d.src) < fuel
      → 0 < length d.skip
      → d.pos ≤ offset
      → Follows x d
      → (t : Skipping codec source crc) × (skip_turn codec source crc fuel offset d e ≡ some t)
        × TurnOk d offset t
  unfolding skip_turn
  skip_turn-TurnOk fuel offset d e enough room le f = elim (Bool-cases (ltb d.pos offset)) [
    | inr h ↦ (stops (ok tt) d e, simp h, (f, omega (arith, ltb→le _ _ h), Held-refl d))
    | inl h ↦
        let want : ℕ = min (offset - d.pos) (length d.skip) in
        let ahead : d.pos < offset = ltb→lt _ _ h in
        let (a, run, p) =
          pump-Pumped x fuel (take want d.skip) d e enough (omega (arith, length-take want d.skip))
            f in
        (
          after_skip codec source crc want d.skip a,
          simp h (ap (Option.map (after_skip codec source crc want d.skip)) run),
          after_skip-TurnOk d offset want a (omega arith) (omega arith) p,
        )
  ]

  -- The loop answers: with an error, or at the offset.
  abbrev pub Arrives : ℕ → ℕ → ℕ → PositionedDecoder C S K → E → Type 0
  Arrives fuel steps offset d e =
      (a : Io (Unit {0}) × PositionedDecoder C S K × E) × (skip_to codec source crc fuel steps
          offset d e
        ≡ some a)
      × Arrived d offset a.0 a.1

  Arrived-trans :
      (d d' d₂ : PositionedDecoder C S K) (offset : ℕ) (r : Io (Unit {0}))
      → Held d d'
      → Arrived d' offset r d₂
      → Arrived d offset r d₂
  Arrived-trans d d' d₂ offset (err _) g h = tt
  Arrived-trans d d' d₂ offset (ok _) g (f, at, h) = (f, at, Held-trans g h)

  -- From a position at or before the offset, with room in the skip buffer, the loop that discards
  -- bytes answers, if the first fuel exceeds the bytes left and the second the bytes to discard:
  -- with an error, or with a decoder that stands at the offset, behind exactly the bytes before it.
  pub skip_to-Arrives :
      (fuel steps offset : ℕ) (d : PositionedDecoder C S K) (e : E)
      → length (unread d.src) < fuel
      → 0 < length d.skip
      → d.pos ≤ offset
      → offset - d.pos < steps
      → Follows x d
      → Arrives fuel steps offset d e
  unfolding skip_to
  skip_to-Arrives fuel zero offset d e enough room le many f = absurd (omega arith)
  skip_to-Arrives fuel (suc steps) offset d e enough room le many f =
      let (t, run, p) = skip_turn-TurnOk fuel offset d e enough room le f in
      turn t run p λ d' e' f' g less le'.
        skip_to-Arrives fuel steps offset d' e' (omega (arith, g.fewer)) (omega (arith, g.skip)) le'
          (omega arith) f'
    where
      turn :
          (t : Skipping codec source crc)
          → skip_turn codec source crc fuel offset d e ≡ some t
          → TurnOk d offset t
          → ((d' : PositionedDecoder C S K) (e' : E)
              → Follows x d'
              → Held d d'
              → d.pos < d'.pos
              → d'.pos ≤ offset
              → Arrives fuel steps offset d' e')
          → Arrives fuel (suc steps) offset d e
      turn (stops r d' e') run p next = ((r, d', e'), rw (run, skip_to), p)
      turn (goes d' e') run (f', g, less, le') next =
          let (a, done, p) = next d' e' f' g less le' in
          (a, rw (run, skip_to) done, Arrived-trans d d' a.1 offset a.0 g p)
