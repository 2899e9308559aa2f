-- ===== src/Decode/Follows.antt =====
-- A decoder that stands inside an entry, and what a step of the pump promises.
use mathlib.Core.Option
use zipfs.Base.{
  ℕ, ◌+◌, ◌≤◌, ◌<◌, ◌≡◌, refl, sym, ap, ◌∙◌, subst, Bool, true, false, Option, none, some, List, [],
  ◌++◌, ok, err, length, take, drop, arith, length-append, length-take, length-drop, drop-drop,
  take-add, take-append, drop-append,
}
use zipfs.Base.Word.{u64_mod}
use zipfs.Io.{Io}
use zipfs.Codec.{Decompressor}
use zipfs.Codec.Streaming.{IsStreaming}
use zipfs.Stream.{ByteSource, IsStream}
use zipfs.Decode.{Crc, PositionedDecoder, Answer}

-- What the program relies on in the hasher: hashing in pieces is hashing at once, and a reset hasher
-- is a new one.
pub record IsHasher {K : Type 0} (crc : Crc K) : Type 0 where
  pub update_nil : (k : K) → crc.update k [] ≡ k
  pub update-update : (k : K) (a b : List ℕ) → crc.update (crc.update k a) b ≡ crc.update k (a ++ b)
  pub reset-new : (k : K) → crc.reset k ≡ crc.new

-- A decoder's hasher, if it has one, has hashed `bytes`.
abbrev pub Hashed : {K : Type 0} → Crc K → Option K → List ℕ → Type 0
Hashed crc none bytes = Unit
Hashed crc (some k) bytes = k ≡ crc.update crc.new bytes

pub Hashed-update :
    {K : Type 0} (crc : Crc K) (laws : IsHasher crc) (o : Option K) (a b : List ℕ)
    → Hashed crc o a
    → Hashed crc (Option.map (λ k. crc.update k b) o) (a ++ b)
Hashed-update crc laws none a b h = tt
Hashed-update crc laws (some k) a b h = ap (λ x. crc.update x b) h ∙ laws.update-update crc.new a b

abbrev pub has_crc : {K : Type 0} → Option K → Bool
has_crc none = false
has_crc (some k) = true

pub has_crc-map : {K : Type 0} (f : K → K) (o : Option K) → has_crc (Option.map f o) ≡ has_crc o
has_crc-map f none = refl
has_crc-map f (some k) = refl

-- An entry being read: the parts of the decoder with their laws, and the bytes of the entry.
pub record Reading (C S E K : Type 0) : Type 1 where
  pub codec : Decompressor C
  pub source : ByteSource S E
  pub crc : Crc K
  pub decoded : C → List ℕ → List ℕ
  pub IsValid : S → Type 0
  pub unread : S → List ℕ
  pub streaming : IsStreaming codec decoded
  pub stream : IsStream source IsValid unread
  pub laws : IsHasher crc
  pub content : List ℕ
  pub small : length content < u64_mod

module _ {C S E K : Type 0} (x : Reading C S E K) where
  open x use {codec, source, crc, decoded, IsValid, unread, streaming, stream, laws, content, small}

  -- The decoder `d` stands at its position in an entry whose bytes are `content`: what it is still
  -- to produce is the rest of them, none if it is finished, and its hasher has hashed those before.
  pub record Follows (d : PositionedDecoder C S K) : Type 0 where
    pub valid : IsValid d.src
    pub rest : d.finished ≡ false → decoded d.codec (unread d.src) ≡ drop d.pos content
    pub within : d.pos ≤ length content
    pub ended : d.finished ≡ true → drop d.pos content ≡ []
    pub hashed : Hashed crc d.crc (take d.pos content)

  -- A step of the pump into `out` gave `r`: on success `n` bytes, the next ones, and none only at
  -- the end of the entry.
  abbrev pub Delivered :
      PositionedDecoder C S K → List ℕ → Io ℕ → List ℕ → PositionedDecoder C S K → Type 0
  Delivered d out (err _) out' d' = Unit
  Delivered d out (ok n) out' d' =
      Follows d'
      × (n ≤ length out)
      × (d'.pos ≡ d.pos + n)
      × (take n out' ≡ take n (drop d.pos content))
      × (n ≡ 0 → drop d.pos content ≡ [])
      × (length (unread d'.src) ≤ length (unread d.src))

  -- The skip buffer, the flag `verified`, and whether there is a hasher are left alone.
  abbrev pub Kept : PositionedDecoder C S K → PositionedDecoder C S K → Type 0
  Kept d d' = (d'.skip ≡ d.skip) × (d'.verified ≡ d.verified) × (has_crc d'.crc ≡ has_crc d.crc)

  abbrev pub Pumped : PositionedDecoder C S K → List ℕ → Answer codec source crc → Type 0
  Pumped d out (r, out', d', _) = (length out' ≡ length out) × Kept d d' × Delivered d out r out' d'

  -- Bytes that a step took off the front of what is still to come.
  pub advance :
      (at n : ℕ) (out rest : List ℕ)
      → n ≤ length out
      → at ≤ length content
      → drop at content ≡ take n out ++ rest
      → (at + n ≤ length content)
        × (rest ≡ drop (at + n) content)
        × (take n out ≡ take n (drop at content))
        × (take at content ++ take n out ≡ take (at + n) content)
  advance at n out rest h w e =
      let size : length (take n out) ≡ n = omega (arith, length-take n out) in
      let front : take n (take n out ++ rest) ≡ take n out =
        subst (λ k. take k (take n out ++ rest) ≡ take n out) size
          (take-append (take n out) rest) in
      let back : drop n (take n out ++ rest) ≡ rest =
        subst (λ k. drop k (take n out ++ rest) ≡ rest) size (drop-append (take n out) rest) in
      let same : take n out ≡ take n (drop at content) = sym front ∙ ap (take n) (sym e) in
      (
        omega (arith, ap length e, length-append (take n out) rest, length-drop at content, size),
        sym back ∙ ap (drop n) (sym e) ∙ drop-drop n at content,
        same,
        ap (◌++◌ (take at content)) same ∙ sym (take-add at n content),
      )
