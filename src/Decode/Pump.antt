-- ===== src/Decode/Pump.antt =====
-- One step of the pump delivers the next bytes of the entry, hashes them, and ends.
use zipfs.Base.{
  ℕ, zero, suc, ◌+◌, ◌<◌, ◌≡◌, refl, sym, ap, ◌∙◌, false, some, List, [], ◌∷◌, ok, err, length,
  take, drop, Bool-cases, inl, inr, arith,
}
use zipfs.Decode.{
  PositionedDecoder, Answer, Round, returns, again, round, pump_loop, pump, is_empty,
}
use zipfs.Decode.Follows.{Reading, Follows, Kept, Pumped}
use zipfs.Decode.Rounds.{RoundOk, round-RoundOk}

module _ {C S E K : Type 0} (x : Reading C S E K) where
  open x use {codec, source, crc, decoded, IsValid, unread, streaming, stream, laws, content, small}

  -- A pumped answer for a decoder at the same place.
  Pumped-moved :
      (d d' : PositionedDecoder C S K) (out out' : List ℕ) (a : Answer codec source crc)
      → length out' ≡ length out
      → Kept x d d'
      → d'.pos ≡ d.pos
      → length (unread d'.src) < length (unread d.src)
      → Pumped x d' out' a
      → Pumped x d out a
  Pumped-moved d d' out out' (err y, o, d₂, e) size (k, l, c) at less (s, (m, n, b), h) =
      (s ∙ size, (m ∙ k, n ∙ l, b ∙ c), tt)
  Pumped-moved d d' out out' (ok n, o, d₂, e) size (k, l, c) at less
        (s, (m, q, b), (f, le, p, t, z, u)) =
      (
        s ∙ size,
        (m ∙ k, q ∙ l, b ∙ c),
        (
          f,
          omega (arith, le, size),
          p ∙ ap (λ p. p + n) at,
          t ∙ ap (λ p. take n (drop p content)) at,
          (λ h. ap (λ p. drop p content) (sym at) ∙ z h),
          omega (arith, u, less),
        ),
      )

  -- What the loop has to give.
  abbrev Answers : ℕ → List ℕ → PositionedDecoder C S K → E → Type 0
  Answers fuel out d e =
      (a : Answer codec source crc) × (pump_loop codec source crc fuel out d e ≡ some a)
      × Pumped x d out a

  loop-Answers :
      (fuel : ℕ) (out : List ℕ) (d : PositionedDecoder C S K) (e : E)
      → length (unread d.src) < suc fuel
      → ((out' : List ℕ) (d' : PositionedDecoder C S K) (e' : E)
          → length (unread d'.src) < fuel
          → length out' ≡ length out
          → d'.finished ≡ false
          → Follows x d'
          → Answers fuel out' d' e')
      → (r : Round codec source crc) → round codec source crc out d e ≡ r
      → RoundOk x d out r
      → Answers (suc fuel) out d e
  unfolding pump_loop
  loop-Answers fuel out d e enough next (returns r out' d' e') eq h =
      ((r, out', d', e'), rw (eq, pump_loop), h)
  loop-Answers fuel out d e enough next (again out' d' e') eq (size, kept, f, going, at, fewer) =
      let (a, run, h) = next out' d' e' (omega arith) size going f in
      (a, rw (eq, pump_loop) run, Pumped-moved d d' out out' a size kept at fewer h)

  -- The loop goes on until it has an answer, which takes no more rounds than bytes are left.
  pump_loop-Answers :
      (fuel : ℕ) (out : List ℕ) (d : PositionedDecoder C S K) (e : E)
      → length (unread d.src) < fuel
      → 0 < length out
      → d.finished ≡ false
      → Follows x d
      → Answers fuel out d e
  pump_loop-Answers zero out d e enough room going f = absurd (omega arith)
  pump_loop-Answers (suc fuel) out d e enough room going f =
      loop-Answers fuel out d e enough
        (λ out' d' e' enough' size going' f'.
          pump_loop-Answers fuel out' d' e' enough' (omega arith) going' f')
        (round codec source crc out d e) refl (round-RoundOk x d out e room going f)

  -- A step of the pump into a buffer with room answers, if the fuel exceeds the number of bytes
  -- left, and what it delivers is the next bytes of the entry.
  pub pump-Pumped :
      (fuel : ℕ) (out : List ℕ) (d : PositionedDecoder C S K) (e : E)
      → length (unread d.src) < fuel
      → 0 < length out
      → Follows x d
      → (a : Answer codec source crc) × (pump codec source crc fuel out d e ≡ some a)
        × Pumped x d out a
  unfolding pump is_empty
  pump-Pumped fuel [] d e enough room f = absurd (omega arith)
  pump-Pumped fuel (b ∷ out) d e enough room f = elim (Bool-cases d.finished) [
    | inl h ↦ (
      (ok 0, b ∷ out, d, e),
      simp h,
      (
        refl,
        (refl, refl, refl),
        (f, omega arith, omega arith, refl, (λ _. f.ended h), omega arith),
      ),
    )
    | inr h ↦
        let (a, run, p) = pump_loop-Answers fuel (b ∷ out) d e enough room h f in (a, simp h run, p)
  ]
