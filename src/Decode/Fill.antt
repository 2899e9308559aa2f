-- ===== src/Decode/Fill.antt =====
-- The loop that fills the caller's buffer writes the bytes of the entry from the offset on, as many
-- as fit, as the entry has, and as the central directory says.
use mathlib.Core.Option
use zipfs.Base.{
  ℕ, zero, suc, ◌+◌, ◌-◌, ◌≤◌, ◌<◌, min, max, ◌≡◌, refl, sym, ap, ap₂, subst, ◌∙◌, ◌⊎◌, some, List,
  [], ◌++◌, ok, err, ltb, ◌&&◌, false, length, take, drop, Bool-cases, inl, inr, arith, ltb→le,
  length-append, length-take, length-drop, take-add, take-append, drop-append, take-append_le,
  drop-drop,
}
use zipfs.Decode.{PositionedDecoder, Answer}
use zipfs.Decode.ReadAt.{Filling, stops, goes, after_fill_turn, fill_turn, fill_out}
use zipfs.Decode.Follows.{Reading, Follows, Pumped}
use zipfs.Decode.Pump.{pump-Pumped}
use zipfs.Decode.Skip.{Held, Held-trans, Held-refl}

module _ {C S E K : Type 0} (x : Reading C S E K) (offset total : ℕ) where
  open x use {codec, source, crc, unread, content}

  -- `written` bytes from the offset on stand in `out`, and the decoder is behind them.
  pub record Wrote (written : ℕ) (out : List ℕ) (d : PositionedDecoder C S K) : Type 0 where
    pub follows : Follows x d
    pub at : d.pos ≡ offset + written
    pub fits : written ≤ length out
    pub bytes : take written out ≡ take written (drop offset content)

  -- Why the loop stopped with `written` bytes: the buffer is full, the entry's declared size is
  -- reached, or the stream ended.
  abbrev pub Complete : ℕ → List ℕ → PositionedDecoder C S K → Type 0
  Complete written out d = (written ≡ length out) ⊎ ((total ≤ d.pos) ⊎ (drop d.pos content ≡ []))

  abbrev pub Filled : List ℕ → PositionedDecoder C S K → Answer codec source crc → Type 0
  Filled out d (err _, out', d', _) = length out' ≡ length out
  Filled out d (ok n, out', d', _) =
      (length out' ≡ length out)
      × Wrote n out' d'
      × Held x d d'
      × Complete n out' d'
      × (d'.pos ≤ max d.pos total)

  abbrev TurnOk : ℕ → List ℕ → PositionedDecoder C S K → Filling codec source crc → Type 0
  TurnOk written out d (stops r out' d' e') = Filled out d (r, out', d', e')
  TurnOk written out d (goes written' out' d' e') =
      (length out' ≡ length out)
      × Wrote written' out' d'
      × Held x d d'
      × (written < written')
      × (d'.pos ≤ total)

  -- The bytes of a slice behind those that stand there.
  extend :
      (written n : ℕ) (out slice back : List ℕ)
      → written ≤ length out
      → n ≤ length slice
      → take written out ≡ take written (drop offset content)
      → take n slice ≡ take n (drop (offset + written) content)
      → take (written + n) (take written out ++ (slice ++ back))
        ≡ take (written + n) (drop offset content)
  extend written n out slice back w le got next =
      let front = take written out in
      let size : length front ≡ written = omega (arith, length-take written out) in
      let zs = front ++ (slice ++ back) in
      take-add written n zs
      ∙ ap₂ ◌++◌ (subst (λ k. take k zs ≡ front) size (take-append front (slice ++ back)) ∙ got) (
          ap (take n)
            (subst (λ k. drop k zs ≡ slice ++ back) size (drop-append front (slice ++ back)))
          ∙ take-append_le n slice back le
          ∙ next
          ∙ ap (take n) (sym (drop-drop written offset content)))
      ∙ sym (take-add written n (drop offset content))

  module _ (written : ℕ) (out : List ℕ) (d : PositionedDecoder C S K) where
    length-splice :
        (room : ℕ) (slice : List ℕ)
        → written + room ≤ length out
        → length slice ≡ room
        → length (take written out ++ (slice ++ drop (written + room) out)) ≡ length out
    length-splice room slice h e =
        let back = drop (written + room) out in
        omega (
          arith,
          length-append (take written out) (slice ++ back),
          length-append slice back,
          length-take written out,
          length-drop (written + room) out,
          e,
        )

    after_fill_turn-TurnOk :
        (room : ℕ) (a : Answer codec source crc)
        → Wrote written out d
        → written + room ≤ length out
        → d.pos + room ≤ total
        → Pumped x d (take room (drop written out)) a
        → TurnOk written out d (after_fill_turn codec source crc written room out a)
    unfolding after_fill_turn
    after_fill_turn-TurnOk room (err y, slice, d', e) w h k (size, _, _) =
        length-splice room slice h
          (omega (arith, size, length-take room (drop written out), length-drop written out))
    after_fill_turn-TurnOk room (ok zero, slice, d', e) w h k
          (size, (skip, verified, has), (f, le, at, same, end, fewer)) =
        let slice_size : length slice ≡ room =
          omega (arith, size, length-take room (drop written out), length-drop written out) in
        let back = drop (written + room) out in
        let total_size = length-splice room slice h slice_size in
        let grown = extend written 0 out slice back w.fits (omega arith) w.bytes refl in
        (
          total_size,
          record {
            follows = f;
            at = omega (arith, at, w.at);
            fits = omega (arith, total_size, w.fits);
            bytes =
                subst
                  (λ k. take k (take written out ++ (slice ++ back)) ≡ take k (drop offset content))
                  (let e : written + 0 ≡ written = omega arith in e) grown;
          },
          record { skip = ap length skip; verified = verified; crc = has; fewer = fewer },
          inr (
              inr (
                ap (λ p. drop p content) (let e : d'.pos ≡ d.pos = omega (arith, at) in e)
                ∙ end refl)),
          omega (arith, at),
        )
    after_fill_turn-TurnOk room (ok (suc n), slice, d', e) w h k
          (size, (skip, verified, has), (f, le, at, same, end, fewer)) =
        let slice_size : length slice ≡ room =
          omega (arith, size, length-take room (drop written out), length-drop written out) in
        let back = drop (written + room) out in
        let total_size = length-splice room slice h slice_size in
        let short : suc n ≤ room = omega (arith, le, size, slice_size) in
        (
          total_size,
          record {
            follows = f;
            at = omega (arith, at, w.at);
            fits = omega (arith, total_size, short, h);
            bytes =
                extend written (suc n) out slice back w.fits (omega (arith, short, slice_size))
                  w.bytes (same ∙ ap (λ p. take (suc n) (drop p content)) w.at);
          },
          record { skip = ap length skip; verified = verified; crc = has; fewer = fewer },
          omega arith,
          omega (arith, at, short, k),
        )

    fill_turn-TurnOk :
        (fuel : ℕ) (e : E)
        → length (unread d.src) < fuel
        → Wrote written out d
        → (t : Filling codec source crc) × (fill_turn codec source crc fuel total written out d e
            ≡ some t)
          × TurnOk written out d t
    unfolding fill_turn
    fill_turn-TurnOk fuel e enough w =
        elim (Bool-cases (ltb written (length out) && ltb d.pos total)) [
          | inr h ↦
              (stops (ok written) out d e, simp h, (refl, w, Held-refl x d, stopped h, omega arith))
          | inl h ↦
              let room : ℕ = min (total - d.pos) (length out - written) in
              let open_ : (written < length out) × (d.pos < total) = ground arith in
              let (a, run, p) =
                pump-Pumped x fuel (take room (drop written out)) d e enough
                  (omega
                    (arith, length-take room (drop written out), length-drop written out, open_))
                  w.follows in
              (
                after_fill_turn codec source crc written room out a,
                simp h (ap (Option.map (after_fill_turn codec source crc written room out)) run),
                after_fill_turn-TurnOk room a w (omega (arith, open_)) (omega (arith, open_)) p,
              )
        ]
      where
        stopped : (ltb written (length out) && ltb d.pos total) ≡ false → Complete written out d
        stopped h = elim (Bool-cases (ltb written (length out))) [
          | inr a ↦ inl (omega (arith, ltb→le _ _ a, w.fits))
          | inl a ↦ inr (inl (ground arith))
        ]

  -- The loop answers, with an error or with the bytes.
  abbrev pub Fills : ℕ → ℕ → ℕ → List ℕ → PositionedDecoder C S K → E → Type 0
  Fills fuel steps written out d e =
      (a : Answer codec source crc) × (fill_out codec source crc fuel steps total written out d e
        ≡ some a)
      × Filled out d a

  Filled-moved :
      (out out' : List ℕ) (d d' : PositionedDecoder C S K) (a : Answer codec source crc)
      → length out' ≡ length out
      → Held x d d'
      → d'.pos ≤ total
      → Filled out' d' a
      → Filled out d a
  Filled-moved out out' d d' (err _, o, d₂, e) size g le p = p ∙ size
  Filled-moved out out' d d' (ok n, o, d₂, e) size g le (s, w, h, c, b) =
      (s ∙ size, w, Held-trans x g h, c, omega (arith, b, le))

  -- Given that `written` bytes stand in the buffer already, the loop that fills it answers, if the
  -- first fuel exceeds the bytes left and the second the room: with an error, or with the entry's
  -- bytes from the offset on, and it stops only when the buffer is full, the declared size is reached,
  -- or the entry ended.
  pub fill_out-Fills :
      (fuel steps written : ℕ) (out : List ℕ) (d : PositionedDecoder C S K) (e : E)
      → length (unread d.src) < fuel
      → length out - written < steps
      → Wrote written out d
      → Fills fuel steps written out d e
  unfolding fill_out
  fill_out-Fills fuel zero written out d e enough many w = absurd (omega arith)
  fill_out-Fills fuel (suc steps) written out d e enough many w =
      let (t, run, p) = fill_turn-TurnOk written out d fuel e enough w in
      turn t run p λ written' out' d' e' size w' g less.
        fill_out-Fills fuel steps written' out' d' e' (omega (arith, g.fewer))
          (omega (arith, w'.fits)) w'
    where
      turn :
          (t : Filling codec source crc)
          → fill_turn codec source crc fuel total written out d e ≡ some t
          → TurnOk written out d t
          → ((written' : ℕ) (out' : List ℕ) (d' : PositionedDecoder C S K) (e' : E)
              → length out' ≡ length out
              → Wrote written' out' d'
              → Held x d d'
              → written < written'
              → Fills fuel steps written' out' d' e')
          → Fills fuel (suc steps) written out d e
      turn (stops r out' d' e') run p next = ((r, out', d', e'), rw (run, fill_out), p)
      turn (goes written' out' d' e') run (size, w', g, less, le) next =
          let (a, done, p) = next written' out' d' e' size w' g less in
          (a, rw (run, fill_out) done, Filled-moved out out' d d' a size g le p)
