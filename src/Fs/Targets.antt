-- ===== src/Fs/Targets.antt =====
-- What is known of the target of a symbolic link that `read_all` of src/fs.rs gives.
use zipfs.Base.{
  ℕ, ◌≡◌, ◌≤◌, ◌⊎◌, refl, sym, ap, ◌∙◌, eq_of_some, false, Option, some, List, [], Result, ok, err,
  ltb, ltb→le, ◌==◌, ==_iff, Bool-cases, inl, inr,
}
use zipfs.Io.{Io, Error, eio}
use zipfs.Entry.{Method, eq_Method, EntryMeta, verify_bad}
use zipfs.Codec.{Flate, ZstdRaw}
use zipfs.Guard.{Os, GuardedFile}
use zipfs.Decode.{Crc, EntryLocation}
use zipfs.Fs.{Reply, locate, verify_stored, read_direct}
use zipfs.Fs.Links.{
  Budget, Target, with_rest, checked, stored_target, read_stored, read_located, read_all,
}

module _ {D Z W K : Type 0} (os : Os W) (flate : Flate D) (raw : ZstdRaw Z) (crc : Crc K) where
  -- What is known of the target of a stored entry.
  abbrev pub IsChecked : Budget os flate raw crc → EntryMeta → List ℕ → Type 0
  IsChecked b m target = (b.verify ≡ false) ⊎ (crc.finalize (crc.update crc.new target) ≡ m.crc32)

  checked-IsChecked :
      (m m₁ : EntryMeta) (b : Budget os flate raw crc) (out target : List ℕ)
      → checked out (verify_stored crc b.verify out m) ≡ (ok target, m₁)
      → IsChecked b m target
  unfolding checked verify_stored
  checked-IsChecked m m₁ b out target h = elim (Bool-cases b.verify) [
    | inl v ↦ elim (Bool-cases (crc.finalize (crc.update crc.new out) == m.crc32)) [
      | inl t ↦
          let same : out ≡ target = cc (simp (v, t) at h) in
          inr (ap (λ x. crc.finalize (crc.update crc.new x)) (sym same) ∙ (==_iff _ m.crc32).0 t)
      | inr f ↦ absurd (cc (simp (v, f) at h))
    ]
    | inr v ↦ inl v
  ]

  stored_target-IsChecked :
      (m m₁ : EntryMeta) (b b₁ : Budget os flate raw crc) (r : Io (List ℕ)) (s s₁ : GuardedFile × W)
      (target : List ℕ)
      → stored_target os flate raw crc m b (r, s) ≡ (ok target, m₁, b₁, s₁)
      → IsChecked b m target
  unfolding stored_target with_rest
  stored_target-IsChecked m m₁ b b₁ (err x) s s₁ target h = absurd (cc h)
  stored_target-IsChecked m m₁ b b₁ (ok out) s s₁ target h =
      checked-IsChecked m m₁ b out target (ap (λ (t : Target os flate raw crc). (t.0, t.1)) h)

  read_stored-IsChecked :
      (loc : EntryLocation) (m m₁ : EntryMeta) (b b₁ : Budget os flate raw crc)
      (s s₁ : GuardedFile × W) (target : List ℕ)
      → read_stored os flate raw crc loc m b s ≡ (ok target, m₁, b₁, s₁)
      → IsChecked b m target
  unfolding read_stored
  read_stored-IsChecked loc m m₁ b b₁ s s₁ target h = elim (Bool-cases (m.uncompressed_size == 0)) [
    | inl t ↦ stored_target-IsChecked m m₁ b b₁ (ok []) s s₁ target (simp t at h)
    | inr f ↦
        let (r, s₂) = read_direct os loc 0 m.uncompressed_size s in
        stored_target-IsChecked m m₁ b b₁ r s₂ s₁ target (simp f at h)
  ]

  -- The target of an entry that was located: it is not too long, and one that is stored was checked.
  abbrev pub IsTarget : ℕ → Budget os flate raw crc → EntryLocation → EntryMeta → List ℕ → Type 0
  IsTarget limit b loc m target =
      (m.uncompressed_size ≤ limit)
      × ((eq_Method loc.method Method.store ≡ false) ⊎ IsChecked b m target)

  read_located-IsTarget :
      (fuel limit : ℕ) (loc : EntryLocation) (m m₁ : EntryMeta) (b b₁ : Budget os flate raw crc)
      (s s₁ : GuardedFile × W) (target : List ℕ)
      → read_located os flate raw crc fuel limit b (ok loc, m, s) ≡ some (ok target, m₁, b₁, s₁)
      → IsTarget limit b loc m target
  unfolding read_located
  read_located-IsTarget fuel limit loc m m₁ b b₁ s s₁ target h =
      elim (Bool-cases (ltb limit m.uncompressed_size)) [
        | inl t ↦
            let g : ◌≡◌ {A = Option (Target os flate raw crc)} (some (err eio, m, b, s))
                (some (ok target, m₁, b₁, s₁)) =
              simp t at h in
            absurd (cc g)
        | inr f ↦ (
          ltb→le limit m.uncompressed_size f,
          elim (Bool-cases (eq_Method loc.method Method.store)) [
            | inl t ↦
                let g : some (read_stored os flate raw crc loc m b s)
                    ≡ some (ok target, m₁, b₁, s₁) =
                  simp (f, t) at h in
                inr (read_stored-IsChecked loc m m₁ b b₁ s s₁ target (eq_of_some g))
            | inr e ↦ inl e
          ],
        )
      ]

  module _
      (data_start : EntryMeta
        → GuardedFile × W
        → Result Error ℕ × EntryMeta × (GuardedFile × W)) where
    located-IsTarget :
        (fuel limit : ℕ) (b b₁ : Budget os flate raw crc)
        (l : Reply EntryLocation × EntryMeta × (GuardedFile × W)) (m₁ : EntryMeta)
        (s₁ : GuardedFile × W) (target : List ℕ)
        → read_located os flate raw crc fuel limit b l ≡ some (ok target, m₁, b₁, s₁)
        → (loc : EntryLocation) × (l.0 ≡ ok loc) × IsTarget limit b loc l.1 target
    unfolding read_located
    located-IsTarget fuel limit b b₁ (err e, m, s) m₁ s₁ target h = absurd (cc h)
    located-IsTarget fuel limit b b₁ (ok loc, m, s) m₁ s₁ target h =
        (loc, refl, read_located-IsTarget fuel limit loc m m₁ b b₁ s s₁ target h)

    -- `read_all` gives the target of a symbolic link only if its entry is not marked as bad and was
    -- located; the size that the central directory declares is then within the limit, and if the entry
    -- is stored, the target has the checksum of the central directory, unless checking is switched
    -- off.
    pub read_all-IsTarget :
        (fuel limit : ℕ) (m m₁ : EntryMeta) (b b₁ : Budget os flate raw crc)
        (s s₁ : GuardedFile × W) (target : List ℕ)
        → read_all os flate raw crc data_start fuel limit m b s ≡ some (ok target, m₁, b₁, s₁)
        → ((m.verify_state == verify_bad) ≡ false)
          × ((loc : EntryLocation) × ((locate os data_start m s).0 ≡ ok loc)
              × IsTarget limit b loc (locate os data_start m s).1 target)
    unfolding read_all
    read_all-IsTarget fuel limit m m₁ b b₁ s s₁ target h =
        elim (Bool-cases (m.verify_state == verify_bad)) [
          | inl t ↦
              let g : ◌≡◌ {A = Option (Target os flate raw crc)} (some (err eio, m, b, s))
                  (some (ok target, m₁, b₁, s₁)) =
                simp t at h in
              absurd (cc g)
          | inr f ↦
              let g : read_located os flate raw crc fuel limit b (locate os data_start m s)
                  ≡ some (ok target, m₁, b₁, s₁) =
                simp f at h in
              (f, located-IsTarget fuel limit b b₁ (locate os data_start m s) m₁ s₁ target g)
        ]
