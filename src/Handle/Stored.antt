-- ===== src/Handle/Stored.antt =====
-- The checksum of a stored entry, over the blocks that reads deliver in any order.
use zipfs.Base.{
  ℕ, ◌+◌, ◌≤◌, ◌<◌, ◌≡◌, refl, ap, sym, subst, ◌∙◌, ◌⊎◌, inl, inr, Bool, true, false, not, ◌||◌,
  ◌&&◌, List, [], ◌∷◌, ◌++◌, ltb, ltb→le, ltb→lt, ◌==◌, ==_iff, if◌then◌else◌, length, take, drop,
  Bool-cases, arith, take-add, take-length,
}
use zipfs.Base.Word.{u64_mod, add64, add64_exact}
use zipfs.Entry.{EntryMeta, set_verify_state, verify_ok, verify_bad}
use zipfs.Decode.{Crc}
use zipfs.Decode.Follows.{IsHasher}
use zipfs.Handle.{StoreVerify, new, conclude, observe}

module _ {K : Type 0} (crc : Crc K) (laws : IsHasher crc) (content : List ℕ) where
  -- A block that was read from the entry.
  abbrev pub IsBlock : ℕ × List ℕ → Type 0
  IsBlock (offset, bytes) =
      (offset + length bytes ≤ length content) × (bytes ≡ take (length bytes) (drop offset content))

  abbrev pub AllBlocks : List (ℕ × List ℕ) → Type 0
  AllBlocks [] = Unit {0}
  AllBlocks (b ∷ bs) = IsBlock b × AllBlocks bs

  abbrev pub sum : ℕ
  sum = crc.finalize (crc.update crc.new content)

  -- What observing the blocks one after another leaves, and whether every answer was that nothing
  -- is wrong.
  pub observe_all : List (ℕ × List ℕ) → StoreVerify K → EntryMeta → Bool × StoreVerify K × EntryMeta
  observe_all [] v meta = (true, v, meta)
  observe_all ((offset, bytes) ∷ bs) v meta =
      let (fine, v₁, meta₁) = observe crc offset bytes v meta in
      let (rest, v₂, meta₂) = observe_all bs v₁ meta₁ in (fine && rest, v₂, meta₂)

  -- The mark that the entry deserves.
  abbrev pub deserved : EntryMeta → EntryMeta
  deserved meta = set_verify_state (if sum == meta.crc32 then verify_ok else verify_bad) meta

  -- The checksum is given up or finished, or it is that of the bytes before the position.
  pub record Tracks (v : StoreVerify K) : Type 0 where
    pub within : v.pos ≤ length content
    pub hashed : v.disabled ≡ false → v.crc ≡ crc.update crc.new (take v.pos content)

  -- Nothing was recorded and nothing was reported, or the checksum was finished: what was recorded
  -- is what the entry deserves, and a report says that its checksum is wrong.
  abbrev pub Right : EntryMeta → Bool → EntryMeta → Type 0
  Right meta fine meta' =
      ((meta' ≡ meta) × (fine ≡ true)) ⊎ ((meta' ≡ deserved meta) × (fine ≡ (sum == meta.crc32)))

  fed-hashed :
      (offset : ℕ) (bytes : List ℕ) (v : StoreVerify K)
      → length content < u64_mod
      → IsBlock (offset, bytes)
      → v.disabled ≡ false
      → offset ≡ v.pos
      → Tracks v
      → (add64 v.pos (length bytes) ≡ v.pos + length bytes)
        × (crc.update v.crc bytes ≡ crc.update crc.new (take (v.pos + length bytes) content))
  fed-hashed offset bytes v small b d e t = (
    add64_exact v.pos (length bytes) (omega (arith, b.0, e, small)),
    ap (λ k. crc.update k bytes) (t.hashed d)
        ∙ laws.update-update crc.new (take v.pos content) bytes
        ∙ ap (λ x. crc.update crc.new (take v.pos content ++ x))
            (subst (λ at. bytes ≡ take (length bytes) (drop at content)) e b.1)
        ∙ ap (crc.update crc.new) (sym (take-add v.pos (length bytes) content)),
  )

  module _ (small : length content < u64_mod) where
    -- The checksum goes on after the block, or ends with it.
    observe-next :
        (offset : ℕ) (bytes : List ℕ) (v : StoreVerify K) (meta : EntryMeta)
        → IsBlock (offset, bytes)
        → meta.uncompressed_size ≡ length content
        → v.disabled ≡ false
        → offset ≡ v.pos
        → Tracks v
        → let (fine, v', meta') = observe crc offset bytes v meta in
          Tracks v'
          × (((meta' ≡ meta)
                × (fine ≡ true)
                × (v'.disabled ≡ false)
                × (v'.pos ≡ v.pos + length bytes)
                × (v.pos + length bytes < length content))
              ⊎ ((length content ≤ v.pos + length bytes)
                  × (meta' ≡ deserved meta)
                  × (fine ≡ (sum == meta.crc32))))
    unfolding observe conclude
    observe-next offset bytes v meta b size d e t =
        let (at, hash) = fed-hashed offset bytes v small b d e t in
        let here : (offset == v.pos) ≡ true = (==_iff offset v.pos).1 e in
        elim (Bool-cases (ltb (add64 v.pos (length bytes)) meta.uncompressed_size)) [
          | inl l ↦
              simp (d, here, l)
                (
                  record {
                    within = omega (arith, at, b.0, e);
                    hashed = λ _. hash ∙ ap (λ n. crc.update crc.new (take n content)) (sym at);
                  },
                  inl (refl, refl, refl, at, omega (arith, at, ltb→lt _ _ l, size)),
                )
          | inr l ↦
              let full : length content ≤ v.pos + length bytes =
                omega (arith, ltb→le _ _ l, at, size) in
              let all : crc.update v.crc bytes ≡ crc.update crc.new content =
                hash ∙ ap (crc.update crc.new) (take-length content (v.pos + length bytes) full) in
              simp (d, here, l)
                (
                  record {
                    within = omega (arith, at, b.0, e);
                    hashed = λ h. absurd (ground arith);
                  },
                  inr (
                    full,
                    ap
                        (λ k.
                          set_verify_state
                            (if crc.finalize k == meta.crc32 then verify_ok else verify_bad) meta)
                        all,
                    ap (λ k. crc.finalize k == meta.crc32) all,
                  ),
                )
        ]

    observe-gives_up :
        (offset : ℕ) (bytes : List ℕ) (v : StoreVerify K) (meta : EntryMeta)
        → (v.disabled || not (offset == v.pos)) ≡ true
        → observe crc offset bytes v meta ≡ (true, record v { disabled = true }, meta)
    unfolding observe
    observe-gives_up offset bytes v meta h = rw h refl

    observe-Right :
        (offset : ℕ) (bytes : List ℕ) (v : StoreVerify K) (meta : EntryMeta)
        → IsBlock (offset, bytes)
        → meta.uncompressed_size ≡ length content
        → Tracks v
        → let (fine, v', meta') = observe crc offset bytes v meta in
          Right meta fine meta' × Tracks v'
    observe-Right offset bytes v meta b size t =
        elim (Bool-cases (v.disabled || not (offset == v.pos))) [
          | inl g ↦
              rw (observe-gives_up offset bytes v meta g) (
                inl (refl, refl),
                record { within = t.within; hashed = λ h. absurd (ground arith) },
              )
          | inr g ↦
              let (t', r) =
                observe-next offset bytes v meta b size (ground arith) (ground arith) t in
              elim r [ inl (m, f, _, _, _) ↦ (inl (m, f), t') | inr (_, m, f) ↦ (inr (m, f), t') ]
        ]

    and_true : (f : Bool) → (f && true) ≡ f
    and_true true = refl
    and_true false = refl

    and_same : (f : Bool) → (f && f) ≡ f
    and_same true = refl
    and_same false = refl

    Right-trans : (a b c : EntryMeta) (f g : Bool) → Right a f b → Right b g c → Right a (f && g) c
    unfolding set_verify_state
    Right-trans a b c f g (inl (m, e)) (inl (n, h)) = inl (n ∙ m, ground arith)
    Right-trans a b c f g (inl (m, e)) (inr (n, h)) =
        inr (n ∙ ap deserved m, ap (λ x. x && g) e ∙ h ∙ ap (λ x. sum == x.crc32) m)
    Right-trans a b c f g (inr (m, e)) (inl (n, h)) =
        inr (n ∙ m, ap (λ x. f && x) h ∙ and_true f ∙ e)
    Right-trans a b c f g (inr (m, e)) (inr (n, h)) =
        let same : g ≡ f = h ∙ ap (λ x. sum == x.crc32) m ∙ sym e in
        inr (n ∙ ap deserved m, ap (λ x. f && x) same ∙ and_same f ∙ e)

    Right-size :
        (a b : EntryMeta) (f : Bool)
        → Right a f b
        → a.uncompressed_size ≡ length content
        → b.uncompressed_size ≡ length content
    unfolding set_verify_state
    Right-size a b f (inl (m, e)) h = ap (λ x. x.uncompressed_size) m ∙ h
    Right-size a b f (inr (m, e)) h = ap (λ x. x.uncompressed_size) m ∙ h

    all-Right :
        (bs : List (ℕ × List ℕ)) (v : StoreVerify K) (meta : EntryMeta)
        → AllBlocks bs
        → meta.uncompressed_size ≡ length content
        → Tracks v
        → let (fine, v', meta') = observe_all bs v meta in Right meta fine meta'
    unfolding observe_all
    all-Right [] v meta b size t = inl (refl, refl)
    all-Right ((offset, bytes) ∷ bs) v meta b size t =
        let (r, t') = observe-Right offset bytes v meta b.0 size t in
        Right-trans meta _ _ _ _ r (all-Right bs _ _ b.1 (Right-size meta _ _ r size) t')

    new-Tracks : Tracks (new crc)
    unfolding new
    new-Tracks = record { within = omega arith; hashed = λ _. sym (laws.update_nil crc.new) }

    -- Blocks of an entry of the declared size, in whatever order they are read: either nothing is
    -- recorded and nothing is reported, or the entry gets the mark that it deserves, over whatever
    -- mark it had before, and a report says that its checksum is wrong.
    pub observe_all-Right :
        (bs : List (ℕ × List ℕ)) (meta : EntryMeta)
        → AllBlocks bs
        → meta.uncompressed_size ≡ length content
        → let (fine, v, meta') = observe_all bs (new crc) meta in Right meta fine meta'
    observe_all-Right bs meta b size = all-Right bs (new crc) meta b size new-Tracks

    -- Each block starts where the one before ends, and the last one ends the entry.
    abbrev pub Consecutive : ℕ → List (ℕ × List ℕ) → Type 0
    Consecutive at [] = at ≡ length content
    Consecutive at ((offset, bytes) ∷ bs) = (offset ≡ at) × Consecutive (at + length bytes) bs

    -- What was recorded once stays recorded.
    Right-deserved :
        (a b c : EntryMeta) (f g : Bool)
        → b ≡ deserved a
        → f ≡ (sum == a.crc32)
        → Right b g c
        → (c ≡ deserved a) × ((f && g) ≡ (sum == a.crc32))
    unfolding set_verify_state
    Right-deserved a b c f g m e (inl (n, h)) = (n ∙ m, ap (λ x. f && x) h ∙ and_true f ∙ e)
    Right-deserved a b c f g m e (inr (n, h)) =
        let same : g ≡ f = h ∙ ap (λ x. sum == x.crc32) m ∙ sym e in
        (n ∙ ap deserved m, ap (λ x. f && x) same ∙ and_same f ∙ e)

    Right-next :
        (a b c : EntryMeta) (f g : Bool)
        → b ≡ a
        → f ≡ true
        → (c ≡ deserved b) × (g ≡ (sum == b.crc32))
        → (c ≡ deserved a) × ((f && g) ≡ (sum == a.crc32))
    Right-next a b c f g m e (n, h) =
        (n ∙ ap deserved m, ap (λ x. x && g) e ∙ h ∙ ap (λ x. sum == x.crc32) m)

    all-in_order :
        (bs : List (ℕ × List ℕ)) (v : StoreVerify K) (meta : EntryMeta)
        → AllBlocks bs
        → Consecutive v.pos bs
        → v.pos < length content
        → v.disabled ≡ false
        → meta.uncompressed_size ≡ length content
        → Tracks v
        → let (fine, v', meta') = observe_all bs v meta in
          (meta' ≡ deserved meta) × (fine ≡ (sum == meta.crc32))
    unfolding observe_all set_verify_state
    all-in_order [] v meta b c less d size t = absurd (omega (arith, c, less))
    all-in_order ((offset, bytes) ∷ bs) v meta b c less d size t =
        let (t', r) = observe-next offset bytes v meta b.0 size d c.0 t in
        elim r [
          | inl (m, f, d', at, l) ↦ Right-next meta _ _ _ _ m f (
              all-in_order bs _ _ b.1 (subst (λ n. Consecutive n bs) (sym at) c.1)
                (omega (arith, at, l)) d' (ap (λ x. x.uncompressed_size) m ∙ size) t')
          | inr (full, m, f) ↦
              Right-deserved meta _ _ _ _ m f
                (all-Right bs _ _ b.1 (ap (λ x. x.uncompressed_size) m ∙ size) t')
        ]

    -- Consecutive blocks that make up an entry that is not empty and has the declared size: the
    -- entry gets the mark that it deserves, over whatever mark it had before, and an answer reports it
    -- if its checksum is wrong.
    pub observe_all-in_order :
        (bs : List (ℕ × List ℕ)) (meta : EntryMeta)
        → AllBlocks bs
        → Consecutive 0 bs
        → 0 < length content
        → meta.uncompressed_size ≡ length content
        → let (fine, v, meta') = observe_all bs (new crc) meta in
          (meta' ≡ deserved meta) × (fine ≡ (sum == meta.crc32))
    unfolding new
    observe_all-in_order bs meta b c some_bytes size =
        all-in_order bs (new crc) meta b c some_bytes refl size new-Tracks
