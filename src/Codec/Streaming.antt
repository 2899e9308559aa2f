-- ===== src/Codec/Streaming.antt =====
-- What a decoder relies on in a decompressor, and that the three codecs have it.
use zipfs.Base.{
  ℕ, ◌+◌, ◌-◌, ◌≤◌, ◌<◌, ◌≡◌, refl, sym, ap, subst, ◌∙◌, ◌==◌, Bool, true, false, List, [], ◌++◌,
  Result, ok, err, arith, length, take, drop, length-append, length-take, length-drop, take-append,
  take-append-drop, take-append_le, min,
}
use zipfs.Codec.{
  Step, CodecError, Decompressor, Codec, Flate, ZstdRaw, codec, step, store, deflate, zstd,
  store_step, deflated, deflate_step, unpacked, zstd_step,
}

module _ {C : Type 0} (decoded : C → List ℕ → List ℕ) where
  -- A call on the bytes `input ++ more` into `output`, which took `n` bytes, wrote `m` and left
  -- `output'` and `c'`: what it wrote, followed by what comes later, is what `c` makes of all the
  -- bytes. Nothing comes later if the stream ended; else it is what `c'` makes of the bytes that
  -- were not taken. What `c'` would make of bytes behind the end is not asked.
  abbrev pub Moved : C → List ℕ → List ℕ → List ℕ → ℕ → ℕ → Bool → List ℕ → C → Type 0
  Moved c input more output n m ended output' c' =
      (n ≤ length input)
      × (m ≤ length output)
      × ((later : List ℕ) × (decoded c (input ++ more) ≡ take m output' ++ later)
          × (ended ≡ true → later ≡ [])
          × (ended ≡ false → later ≡ decoded c' (drop n (input ++ more))))
      × (0 < length output → m ≡ 0 → n ≡ 0 → input ++ more ≡ [] → decoded c (input ++ more) ≡ [])

  -- A step that gave `r`.
  abbrev pub Stepped : C → List ℕ → List ℕ → List ℕ → Result CodecError Step → List ℕ → C → Type 0
  Stepped c input more output (err _) output' c' = Unit
  Stepped c input more output (ok s) output' c' =
      Moved c input more output s.consumed s.produced s.done output' c'

module _ {C : Type 0} (decompressor : Decompressor C) (decoded : C → List ℕ → List ℕ) where
  -- A decompressor of streams: `decoded c bytes` is what is still to come out of `c`, up to the end
  -- of its stream, when `bytes` are still to go in.
  pub record IsStreaming : Type 0 where
    pub step_lem :
        (c : C) (input more output : List ℕ)
        → let (r, output', c') = decompressor.step c input output in
          (length output' ≡ length output) × Stepped decoded c input more output r output' c'

-- The copying codec decodes every stream to itself: it takes as many bytes as fit, writes them, and
-- what it did not take is still to come.
pub store_step-copies :
    (input more output : List ℕ)
    → let (s, output') = store_step input output in
      (length output' ≡ length output)
      × (s.consumed ≡ min (length input) (length output))
      × (s.produced ≡ s.consumed)
      × (input ++ more ≡ take s.produced output' ++ drop s.consumed (input ++ more))
unfolding store_step
store_step-copies input more output =
    let n : ℕ = min (length input) (length output) in
    let written = drop n output in
    let size : length (take n input) ≡ n = omega (arith, length-take n input) in
    let front : take n (take n input ++ written) ≡ take n input =
      subst (λ k. take k (take n input ++ written) ≡ take n input) size
        (take-append (take n input) written) in
    (
      omega (arith, length-append (take n input) written, size, length-drop n output),
      refl,
      refl,
      sym (
          ap (λ l. l ++ drop n (input ++ more))
            (front ∙ sym (take-append_le n input more (omega arith)))
          ∙ take-append-drop n (input ++ more)),
    )

store_step-goes_on : (input output : List ℕ) → (store_step input output).0.done ≡ false
unfolding store_step
store_step-goes_on input output = refl

-- What the program relies on in the inflater: a call either fails, or the counts of bytes taken and
-- written go up by those of the call, and it says whether the stream ended.
module _ {D : Type 0} (flate : Flate D) (f : D → List ℕ → List ℕ) where
  abbrev pub Inflated : D → List ℕ → List ℕ → List ℕ → Result (Unit {0}) Bool → List ℕ → D → Type 0
  Inflated d input more output (err _) output' d' = Unit
  Inflated d input more output (ok ended) output' d' =
      (n m : ℕ) × (flate.total_in d' ≡ flate.total_in d + n)
      × (flate.total_out d' ≡ flate.total_out d + m)
      × Moved f d input more output n m ended output' d'

  pub record IsInflater : Type 0 where
    pub decompress_lem :
        (d : D) (input more output : List ℕ)
        → let (r, output', d') = flate.decompress d input output in
          (length output' ≡ length output) × Inflated d input more output r output' d'

-- What it relies on in the decoder of zstd: a call either fails, or gives the numbers of bytes taken
-- and written, and that nothing remains when the frame ended.
module _ {Z : Type 0} (raw : ZstdRaw Z) (g : Z → List ℕ → List ℕ) where
  abbrev pub Unpacked :
      Z → List ℕ → List ℕ → List ℕ → Result (Unit {0}) (ℕ × ℕ × ℕ) → List ℕ → Z → Type 0
  Unpacked z input more output (err _) output' z' = Unit
  Unpacked z input more output (ok (n, m, remaining)) output' z' =
      Moved g z input more output n m (remaining == 0) output' z'

  pub record IsUnpacker : Type 0 where
    pub run_on_buffers_lem :
        (z : Z) (input more output : List ℕ)
        → let (r, output', z') = raw.run_on_buffers z input output in
          (length output' ≡ length output) × Unpacked z input more output r output' z'

module _ {D Z : Type 0} (flate : Flate D) (raw : ZstdRaw Z) where
  -- What is still to come out of a codec, from what is still to come out of the libraries'.
  abbrev pub codec_decoded :
      (D → List ℕ → List ℕ) → (Z → List ℕ → List ℕ) → Codec D Z → List ℕ → List ℕ
  codec_decoded f g store bytes = bytes
  codec_decoded f g (deflate d) bytes = f d bytes
  codec_decoded f g (zstd z) bytes = g z bytes

  module _ (f : D → List ℕ → List ℕ) (g : Z → List ℕ → List ℕ) where
    deflated-Stepped :
        (d d' : D) (input more output output' : List ℕ) (r : Result (Unit {0}) Bool)
        → Inflated flate f d input more output r output' d'
        → Stepped
            (codec_decoded f g)
            (deflate d)
            input
            more
            output
            (deflated flate d d' r)
            output'
            (deflate d')
    unfolding deflated
    deflated-Stepped d d' input more output output' (err e) h = tt
    deflated-Stepped d d' input more output output' (ok ended) (n, m, took, wrote, moved) =
        let n_eq : n ≡ flate.total_in d' - flate.total_in d = omega (arith, took) in
        let m_eq : m ≡ flate.total_out d' - flate.total_out d = omega (arith, wrote) in
        subst
          (λ k.
            Moved (codec_decoded f g) (deflate d) input more output k
              (flate.total_out d' - flate.total_out d) ended output' (deflate d'))
          n_eq
          (subst
            (λ k.
              Moved (codec_decoded f g) (deflate d) input more output n k ended output'
                (deflate d'))
            m_eq moved)

    unpacked-Stepped :
        (z z' : Z) (input more output output' : List ℕ) (r : Result (Unit {0}) (ℕ × ℕ × ℕ))
        → Unpacked raw g z input more output r output' z'
        → Stepped (codec_decoded f g) (zstd z) input more output (unpacked r) output' (zstd z')
    unfolding unpacked
    unpacked-Stepped z z' input more output output' (err e) h = tt
    unpacked-Stepped z z' input more output output' (ok (n, m, remaining)) h = h

    store-Stepped :
        (input more output : List ℕ)
        → let (s, output') = store_step input output in
          (length output' ≡ length output)
          × Stepped (codec_decoded f g) store input more output (ok s) output' store
    store-Stepped input more output =
        let (s, output') = store_step input output in
        let (size, took, made, split) = store_step-copies input more output in
        (
          size,
          (
            omega (arith, took),
            omega (arith, took, made),
            (
              drop s.consumed (input ++ more),
              split,
              (λ h. absurd (cc (sym (store_step-goes_on input output) ∙ h))),
              λ _. refl,
            ),
            λ _ _ _ nothing. nothing,
          ),
        )

  -- If the inflater counts what it takes and writes and says when its stream ends, and the decoder
  -- of zstd gives what it takes and writes and has nothing remaining when its frame ends, then every
  -- codec is a decompressor of streams: a step gives how much it took and wrote, what it wrote goes
  -- before what is still to come, and the step is the last one only if nothing is still to come.
  pub codec-IsStreaming :
      (f : D → List ℕ → List ℕ) (g : Z → List ℕ → List ℕ)
      → IsInflater flate f
      → IsUnpacker raw g
      → IsStreaming (codec flate raw) (codec_decoded f g)
  unfolding step deflate_step zstd_step
  codec-IsStreaming f g hf hg = record { step_lem = steps }
    where
      steps :
          (c : Codec D Z) (input more output : List ℕ)
          → let (r, output', c') = step flate raw c input output in
            (length output' ≡ length output)
            × Stepped (codec_decoded f g) c input more output r output' c'
      steps store input more output = store-Stepped f g input more output
      steps (deflate d) input more output =
          let (a, b) = hf.decompress_lem d input more output in
          (a, deflated-Stepped f g d _ input more output _ _ b)
      steps (zstd z) input more output =
          let (a, b) = hg.run_on_buffers_lem z input more output in
          (a, unpacked-Stepped f g z _ input more output _ _ b)
