-- ===== src/Decode/Start.antt =====
-- A decoder at the start of an entry, new or rewound.
use mathlib.Core.Option
use zipfs.Base.{
  ℕ, List, ap, ◌≡◌, refl, sym, ◌∙◌, Bool, true, false, Option, none, some, [], arith, if◌then◌else◌,
}
use zipfs.Decode.{EntryLocation, CoreParts, PositionedDecoder, new, reinit}
use zipfs.Decode.Follows.{Reading, Follows, Hashed, has_crc, has_crc-map}

module _ {C S E K : Type 0} (x : Reading C S E K) where
  open x use {codec, source, crc, decoded, IsValid, unread, laws, content}

  Hashed-fresh : (verify : Bool) → Hashed crc (if verify then some crc.new else none) []
  Hashed-fresh true = sym (laws.update_nil crc.new)
  Hashed-fresh false = tt

  Hashed-reset : (o : Option K) → Hashed crc (Option.map crc.reset o) []
  Hashed-reset none = tt
  Hashed-reset (some k) = laws.reset-new k ∙ sym (laws.update_nil crc.new)

  -- A new decoder stands at the start of the entry whose compressed bytes its reader holds.
  pub new-Follows :
      (loc : EntryLocation) (parts : CoreParts C) (verify : Bool)
      → let d = new codec source crc loc parts verify in
        IsValid d.src
        → decoded d.codec (unread d.src) ≡ content
        → Follows x d × (d.pos ≡ 0) × (d.skip ≡ parts.skip)
  unfolding new
  new-Follows loc parts verify v e = (
    record {
      valid = v;
      rest = λ _. e;
      within = omega arith;
      ended = λ h. absurd (cc h);
      hashed = Hashed-fresh verify;
    },
    refl,
    refl,
  )

  -- Rewinding a decoder, whatever it had read before: if pointing a reader at the entry makes it hold
  -- the compressed bytes of the entry, and a new codec decodes these to the bytes of the entry, and a
  -- codec that was started anew decodes like the new one, then the decoder stands at the start of the
  -- entry, and is to be checked again; it keeps its skip buffer and its hasher.
  pub reinit-Follows :
      (loc : EntryLocation) (compressed : List ℕ) (fresh : C) (old : PositionedDecoder C S K)
      → ((s : S)
          → IsValid s
          → let s' = source.retarget loc.data_start loc.compressed_size s in
            IsValid s' × (unread s' ≡ compressed))
      → decoded fresh compressed ≡ content
      → ((bytes : List ℕ) → decoded (codec.reinit old.codec) bytes ≡ decoded fresh bytes)
      → IsValid old.src
      → let d = reinit codec source crc loc old in
        Follows x d
        × (d.pos ≡ 0)
        × (d.verified ≡ false)
        × (d.skip ≡ old.skip)
        × (has_crc d.crc ≡ has_crc old.crc)
  unfolding reinit
  reinit-Follows loc compressed fresh old points decodes anew v =
      let (valid, holds) = points old.src v in
      (
        record {
          valid = valid;
          rest = λ _. anew _ ∙ ap (decoded fresh) holds ∙ decodes;
          within = omega arith;
          ended = λ h. absurd (cc h);
          hashed = Hashed-reset old.crc;
        },
        refl,
        refl,
        refl,
        has_crc-map crc.reset old.crc,
      )
