-- ===== src/Decode/Rounds.antt =====
-- One round of the pump's loop keeps the decoder inside the entry, and either delivers or takes some
-- input.
use mathlib.Core.Option
use zipfs.Base.{
  ℕ, Result, ◌+◌, ◌≤◌, ◌<◌, ◌≡◌, refl, sym, ap, ◌∙◌, subst, Bool, true, false, ◌||◌, List, [], ◌∷◌,
  ◌++◌, ok, err, ltb, ◌==◌, ==_iff, if◌then◌else◌, length, take, drop, Bool-cases, inl, inr, arith,
  ltb→lt, ltb→le, length-append, length-drop,
}
use zipfs.Base.Word.{add64, add64_exact}
use zipfs.Io.{Io, ErrorKind, io_error}
use zipfs.Codec.{Step, CodecError}
use zipfs.Codec.Streaming.{Stepped}
use zipfs.Stream.{Filled}
use zipfs.Decode.{
  PositionedDecoder, Round, returns, again, after_step, after_silence, after_codec, after_fill,
  round, is_empty,
}
use zipfs.Decode.Follows.{
  Reading, Hashed, Hashed-update, has_crc-map, Follows, Kept, Pumped, advance,
}

module _ {C S E K : Type 0} (x : Reading C S E K) where
  open x use {codec, source, crc, decoded, IsValid, unread, streaming, stream, laws, content, small}

  abbrev pub RoundOk : PositionedDecoder C S K → List ℕ → Round codec source crc → Type 0
  RoundOk d out (returns r out' d' e') = Pumped x d out (r, out', d', e')
  RoundOk d out (again out' d' e') =
      (length out' ≡ length out)
      × Kept x d d'
      × Follows x d'
      × (d'.finished ≡ false)
      × (d'.pos ≡ d.pos)
      × (length (unread d'.src) < length (unread d.src))

  module _ (d : PositionedDecoder C S K) (out : List ℕ) where
    -- The decompressor has made a step on `input` into `out'`, and `d'` is the decoder before the
    -- step is counted.
    record Ready (input : List ℕ) (step : Step) (out' : List ℕ) (d' : PositionedDecoder C S K)
        : Type 0 where
      size : length out' ≡ length out
      kept : Kept x d d'
      at : d'.pos ≡ d.pos
      going : d'.finished ≡ false
      valid : IsValid (source.consume step.consumed d'.src)
      left : unread (source.consume step.consumed d'.src) ≡ drop step.consumed (unread d'.src)
      took : step.consumed ≤ length (unread d'.src)
      whole : length (unread d'.src) ≡ length (unread d.src)
      fits : step.produced ≤ length out
      later : List ℕ
      rest : drop d.pos content ≡ take step.produced out' ++ later
      over : step.done ≡ true → later ≡ []
      more :
          step.done ≡ false
          → later ≡ decoded d'.codec (unread (source.consume step.consumed d'.src))
      stuck : step.produced ≡ 0 → step.consumed ≡ 0 → input ≡ [] → drop d.pos content ≡ []
      hashed : Hashed crc d'.crc (take d.pos content)
      within : d.pos ≤ length content

    module _ (input : List ℕ) (step : Step) (out' : List ℕ) (d' : PositionedDecoder C S K)
        (ready : Ready input step out' d') where
      quiet_rest : step.produced ≡ 0 → ready.later ≡ drop d.pos content
      quiet_rest z = sym (ready.rest ∙ ap (λ k. take k out' ++ ready.later) z)

      quiet-Follows :
          (f : Bool)
          → step.produced ≡ 0
          → (f ≡ true → drop d.pos content ≡ [])
          → (f ≡ false → step.done ≡ false)
          → Follows x (record d' { src = source.consume step.consumed d'.src; finished = f })
      quiet-Follows f z h g = record {
        valid = ready.valid;
        rest = λ e. sym (ready.more (g e)) ∙ quiet_rest z ∙ ap (λ k. drop k content) (sym ready.at);
        within = omega (arith, ready.at, ready.within);
        ended = λ e. ap (λ k. drop k content) ready.at ∙ h e;
        hashed = subst (λ k. Hashed crc d'.crc (take k content)) (sym ready.at) ready.hashed;
      }

      loud-Follows :
          Follows x (record d' {
            src = source.consume step.consumed d'.src;
            crc = Option.map (λ k. crc.update k (take step.produced out')) d'.crc;
            pos = add64 d'.pos step.produced;
            finished = step.done || d'.finished;
          })
          × (add64 d'.pos step.produced ≡ d.pos + step.produced)
          × (take step.produced out' ≡ take step.produced (drop d.pos content))
      loud-Follows =
          let le : step.produced ≤ length out' = omega (arith, ready.size, ready.fits) in
          let (inside, back, same, whole) =
            advance x d.pos step.produced out' _ le ready.within ready.rest in
          let at : add64 d'.pos step.produced ≡ d.pos + step.produced =
            ap (λ k. add64 k step.produced) ready.at
            ∙ add64_exact d.pos step.produced (omega (arith, inside, small)) in
          (
            record {
              valid = ready.valid;
              rest =
                  λ e. sym (ready.more (ground arith)) ∙ back ∙ ap (λ k. drop k content) (sym at);
              within = omega (arith, at, inside);
              ended = λ e.
                  ap (λ k. drop k content) at
                  ∙ sym back
                  ∙ ready.over (ground (arith, ready.going, e));
              hashed =
                  subst
                    (Hashed crc (Option.map (λ k. crc.update k (take step.produced out')) d'.crc))
                    (whole ∙ ap (λ k. take k content) (sym at))
                    (Hashed-update crc laws d'.crc _ (take step.produced out') ready.hashed);
            },
            at,
            same,
          )

      shrinks : length (unread (source.consume step.consumed d'.src)) ≤ length (unread d.src)
      shrinks =
          omega
            (arith, ap length ready.left, length-drop step.consumed (unread d'.src), ready.whole)

      quiet-Pumped :
          step.produced ≡ 0
          → drop d.pos content ≡ []
          → let d₁ = record d' { src = source.consume step.consumed d'.src; finished = true } in
            (e : E) → Pumped x d out (ok 0, out', d₁, e)
      quiet-Pumped z end e = (
        ready.size,
        ready.kept,
        (
          quiet-Follows true z (λ _. end) (λ h. absurd (cc h)),
          omega arith,
          omega (arith, ready.at),
          refl,
          (λ _. end),
          shrinks,
        ),
      )

      after_silence-RoundOk :
          (e : E)
          → step.produced ≡ 0
          → RoundOk d out (
              after_silence codec source crc input step out'
                (record d' { src = source.consume step.consumed d'.src })
                e)
      unfolding after_silence is_empty
      after_silence-RoundOk e z = elim (Bool-cases step.done) [
        | inl h ↦ rw h (quiet-Pumped z (sym (quiet_rest z) ∙ ready.over h) e)
        | inr h ↦ rw h (elim (Bool-cases (step.consumed == 0)) [
          | inl c ↦
              rw c (
                stalled input
                  λ nothing. quiet-Pumped z (ready.stuck z ((==_iff _ 0).0 c) nothing) e)
          | inr c ↦ rw c (goes_on h (ground arith))
        ])
      ]
        where
          d₁ : PositionedDecoder C S K
          d₁ = record d' { src = source.consume step.consumed d'.src }

          stalled :
              (l : List ℕ)
              → (l ≡ [] → Pumped x d out (ok 0, out', record d₁ { finished = true }, e))
              → RoundOk d out (
                  if is_empty l
                  then returns (ok 0) out' (record d₁ { finished = true }) e
                  else returns (err (io_error ErrorKind.invalid_data)) out' d₁ e)
          stalled [] h = h refl
          stalled (b ∷ l) h = (ready.size, ready.kept, tt)

          goes_on : step.done ≡ false → 0 < step.consumed → RoundOk d out (again out' d₁ e)
          goes_on going c = (
            ready.size,
            ready.kept,
            quiet-Follows d'.finished z (λ f. absurd (cc (sym ready.going ∙ f))) (λ _. going),
            ready.going,
            ready.at,
            omega (
              arith,
              ap length ready.left,
              length-drop step.consumed (unread d'.src),
              ready.took,
              ready.whole,
            ),
          )

      after_step-RoundOk :
          (e : E) → RoundOk d out (after_step codec source crc input step out' d' e)
      unfolding after_step
      after_step-RoundOk e = elim (Bool-cases (ltb 0 step.produced)) [
        | inl h ↦
            let (follows, at, same) = loud-Follows in
            rw h (
              ready.size,
              (ready.kept.0, ready.kept.1, has_crc-map _ d'.crc ∙ ready.kept.2),
              (follows, ready.fits, at, same, (λ z. absurd (omega (arith, ltb→lt _ _ h))), shrinks),
            )
        | inr h ↦
            let z : step.produced ≡ 0 = omega (arith, ltb→le _ _ h) in
            rw h (after_silence-RoundOk e z)
      ]

    after_codec-RoundOk :
        (input more : List ℕ) (r : Result CodecError Step) (out' : List ℕ) (c : C) (src₁ : S)
        (e : E)
        → 0 < length out
        → d.finished ≡ false
        → Follows x d
        → unread src₁ ≡ unread d.src
        → unread src₁ ≡ input ++ more
        → (input ≡ [] → unread src₁ ≡ [])
        → ((k : ℕ)
            → k ≤ length input
            → IsValid (source.consume k src₁)
              × (unread (source.consume k src₁) ≡ drop k (unread src₁)))
        → length out' ≡ length out
        → Stepped decoded d.codec input more out r out' c
        → RoundOk d out
            (after_codec codec source crc input r out' (record d { src = src₁; codec = c }) e)
    unfolding after_codec
    after_codec-RoundOk input more (err y) out' c src₁ e room going f same split last eats size st =
        (size, (refl, refl, refl), tt)
    after_codec-RoundOk input more (ok step) out' c src₁ e room going f same split last eats size
          st =
        let (took, fits, (later, rest, over, more_to_come), stuck) = st in
        let (valid, left) = eats step.consumed took in
        let back : drop step.consumed (input ++ more) ≡ unread (source.consume step.consumed src₁) =
          ap (drop step.consumed) (sym split) ∙ sym left in
        let start : decoded d.codec (input ++ more) ≡ drop d.pos content =
          ap (decoded d.codec) (sym split ∙ same) ∙ f.rest going in
        after_step-RoundOk input step out' (record d { src = src₁; codec = c })
          (record {
            size = size;
            kept = (refl, refl, refl);
            at = refl;
            going = going;
            valid = valid;
            left = left;
            took = omega (arith, took, ap length split, length-append input more);
            whole = ap length same;
            fits = fits;
            later = later;
            rest = sym start ∙ rest;
            over = over;
            more = λ h. more_to_come h ∙ ap (decoded c) back;
            stuck = λ p k nothing. sym start ∙ stuck room p k (sym split ∙ last nothing);
            hashed = f.hashed;
            within = f.within;
          })
          e

    after_fill-RoundOk :
        (filled : Io (List ℕ)) (src₁ : S) (e : E)
        → 0 < length out
        → d.finished ≡ false
        → Follows x d
        → IsValid src₁
        → unread src₁ ≡ unread d.src
        → Filled source IsValid unread filled src₁
        → RoundOk d out (after_fill codec source crc filled out (record d { src = src₁ }) e)
    unfolding after_fill
    after_fill-RoundOk (err y) src₁ e room going f v same h = (refl, (refl, refl, refl), tt)
    after_fill-RoundOk (ok input) src₁ e room going f v same ((more, split), last, eats) =
        let (size, st) = streaming.step_lem d.codec input more out in
        after_codec-RoundOk input more _ _ _ src₁ e room going f same split last eats size st

    pub round-RoundOk :
        (e : E)
        → 0 < length out
        → d.finished ≡ false
        → Follows x d
        → RoundOk d out (round codec source crc out d e)
    unfolding round
    round-RoundOk e room going f =
        let (v, same, h) = stream.fill_lem d.src e f.valid in
        after_fill-RoundOk _ _ _ room going f v same h
