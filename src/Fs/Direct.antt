-- ===== src/Fs/Direct.antt =====
-- The read of a stored entry, straight out of the archive.
use zipfs.Base.{
  ℕ, ◌+◌, ◌≤◌, ◌<◌, ◌≡◌, ◌↔◌, refl, sym, ◌∙◌, false, none, some, List, ok, ltb, ltb→lt, ltb→le,
  Bool-cases, inl, inr, arith,
}
use zipfs.Base.Word.{u64_mod, checked_add64}
use zipfs.Guard.{Os, GuardedFile}
use zipfs.Guard
use zipfs.Decode.{EntryLocation}
use zipfs.Fs.{read_before, read_within, read_until, read_direct}

checked_add64-some : (a b : ℕ) → a + b < u64_mod → checked_add64 a b ≡ some (a + b)
unfolding checked_add64
checked_add64-some a b h = ground arith

checked_add64-none : (a b : ℕ) → u64_mod ≤ a + b → checked_add64 a b ≡ none
unfolding checked_add64
checked_add64-none a b h = ground arith

module _ {W : Type 0} (os : Os W) (loc : EntryLocation) (offset n : ℕ) where
  -- The bytes asked for are inside the entry, and their places in the archive do not overflow.
  abbrev pub IsInside : Type 0
  IsInside =
      (offset + n ≤ loc.compressed_size)
      × (offset + n < u64_mod)
      × (loc.data_start + offset + n < u64_mod)

  inside-read :
      (g : GuardedFile) (w : W)
      → IsInside
      → (read_direct os loc offset n (g, w)).0
        ≡ (Guard.read_exact_at os g (loc.data_start + offset) n w).0
  unfolding read_direct read_until read_within read_before
  inside-read g w (a, b, c) =
      let end = checked_add64-some offset n b in
      let start = checked_add64-some loc.data_start offset (omega arith) in
      let last = checked_add64-some (loc.data_start + offset) n c in
      let within : ltb loc.compressed_size (offset + n) ≡ false = ground arith in
      rw (end, within, start, last) refl

  read-inside :
      (g : GuardedFile) (w : W) (bytes : List ℕ)
      → (read_direct os loc offset n (g, w)).0 ≡ ok bytes
      → IsInside
  unfolding read_direct read_until read_within read_before
  read-inside g w bytes h = elim (Bool-cases (ltb (offset + n) u64_mod)) [
    | inr e ↦ absurd (ground (arith, rw (checked_add64-none offset n (ltb→le _ _ e)) at h))
    | inl e ↦
        let end = checked_add64-some offset n (ltb→lt _ _ e) in
        elim (Bool-cases (ltb loc.compressed_size (offset + n))) [
          | inl f ↦ absurd (ground (arith, rw (end, f) at h))
          | inr f ↦ elim (Bool-cases (ltb (loc.data_start + offset) u64_mod)) [
            | inr k ↦ absurd (
                ground (
                  arith,
                  rw (end, f, checked_add64-none loc.data_start offset (ltb→le _ _ k)) at h,
                ))
            | inl k ↦
                let start = checked_add64-some loc.data_start offset (ltb→lt _ _ k) in
                elim (Bool-cases (ltb (loc.data_start + offset + n) u64_mod)) [
                  | inr l ↦
                      let last = checked_add64-none (loc.data_start + offset) n (ltb→le _ _ l) in
                      absurd (ground (arith, rw (end, f, start, last) at h))
                  | inl l ↦ (ltb→le _ _ f, ltb→lt _ _ e, ltb→lt _ _ l)
                ]
          ]
        ]
  ]

  -- A read of a stored entry succeeds exactly when it is inside the entry, nothing overflows, and
  -- the guarded read of those bytes of the archive succeeds, whose bytes it gives.
  pub read_direct-ok :
      (g : GuardedFile) (w : W) (bytes : List ℕ)
      → ((read_direct os loc offset n (g, w)).0 ≡ ok bytes)
        ↔ (IsInside × ((Guard.read_exact_at os g (loc.data_start + offset) n w).0 ≡ ok bytes))
  read_direct-ok g w bytes = (
    λ h. let inside = read-inside g w bytes h in (inside, sym (inside-read g w inside) ∙ h),
    λ (inside, h). inside-read g w inside ∙ h,
  )
