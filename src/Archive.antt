-- ===== src/Archive.antt =====
-- src/archive.rs: where an entry's bytes begin, which is found once. Reading the local header is the
-- rawzip library's, `get_entry` and `compressed_data_range`, a parameter. The archive is passed along
-- with everything outside the process.
use zipfs.Base.{
  ℕ, ◌+◌, ◌-◌, ◌≡◌, ◌⊎◌, refl, sym, ap, ap₂, ◌∙◌, inl, inr, false, not, Bool-cases, Result, ok, err,
  ltb, ltb→le, ==_iff, ◌==◌, if◌then◌else◌, arith,
}
use zipfs.Base.Word.{u64_mod}
use zipfs.Io.{Error, corrupt}
use zipfs.Entry.{EntryMeta}
use zipfs.Guard.{GuardedFile}

-- `u64::MAX`, for an entry whose start is not known yet.
abbrev pub unset : ℕ
unset = u64_mod - 1

unfoldable pub set_data_start : ℕ → EntryMeta → EntryMeta
set_data_start start m = record m { data_start = start }

module _ {W : Type 0}
    (compressed_data_range : ℕ → GuardedFile × W → Result Error (ℕ × ℕ) × (GuardedFile × W)) where
  abbrev pub Answer : Type 0
  Answer = Result Error ℕ × EntryMeta × (GuardedFile × W)

  -- The rest of `data_start`, for the range that the local header gives.
  unfoldable pub range_start : EntryMeta → Result Error (ℕ × ℕ) × (GuardedFile × W) → Answer
  unfolding set_data_start
  range_start meta (err e, s) = (err e, meta, s)
  range_start meta (ok (start, end), s) =
      if ltb end start
      then (err corrupt, meta, s)
      else if not (end - start == meta.compressed_size)
      then (err corrupt, meta, s)
      else (ok start, set_data_start start meta, s)

  unfoldable pub data_start : EntryMeta → GuardedFile × W → Answer
  unfolding range_start
  data_start meta s =
      if not (meta.data_start == unset)
      then (ok meta.data_start, meta, s)
      else range_start meta (compressed_data_range meta.wayfinder s)

  data_start_known :
      (meta : EntryMeta) (s : GuardedFile × W)
      → (meta.data_start == unset) ≡ false
      → data_start meta s ≡ (ok meta.data_start, meta, s)
  unfolding data_start
  data_start_known meta s h = simp h refl

  -- Where a successful answer comes from.
  abbrev pub Origin : EntryMeta → GuardedFile × W → ℕ → GuardedFile × W → Type 0
  Origin meta s start s₁ =
      ((meta.data_start ≡ start) × (s₁ ≡ s))
      ⊎ (compressed_data_range meta.wayfinder s ≡ (ok (start, start + meta.compressed_size), s₁))

  abbrev Answered : EntryMeta → GuardedFile × W → ℕ → EntryMeta → GuardedFile × W → Type 0
  Answered meta s start m₁ s₁ = Origin meta s start s₁ × (m₁ ≡ set_data_start start meta)

  range_start-Answered :
      (meta : EntryMeta) (s : GuardedFile × W) (r : Result Error (ℕ × ℕ) × (GuardedFile × W))
      (start : ℕ) (m₁ : EntryMeta) (s₁ : GuardedFile × W)
      → compressed_data_range meta.wayfinder s ≡ r
      → range_start meta r ≡ (ok start, m₁, s₁)
      → Answered meta s start m₁ s₁
  unfolding range_start
  range_start-Answered meta s (err e, s₂) start m₁ s₁ from h = absurd (cc h)
  range_start-Answered meta s (ok (first, end), s₂) start m₁ s₁ from h =
      elim (Bool-cases (ltb end first)) [
        | inl t ↦
            let g : ◌≡◌ {A = Answer} (err corrupt, meta, s₂) (ok start, m₁, s₁) = simp t at h in
            absurd (cc g)
        | inr f ↦ elim (Bool-cases (end - first == meta.compressed_size)) [
          | inl t ↦
              let g : ◌≡◌ {A = Answer} (ok first, set_data_start first meta, s₂)
                  (ok start, m₁, s₁) =
                simp (f, t) at h in
              let same : first ≡ start = cc g in
              let length = (==_iff (end - first) meta.compressed_size).0 t in
              let is_end : end ≡ start + meta.compressed_size =
                omega (arith, ltb→le end first f, length, same) in
              let state : s₂ ≡ s₁ = cc g in
              let entry : set_data_start first meta ≡ m₁ = cc g in
              (
                inr (
                    from
                    ∙ ap₂ (λ (p : ℕ × ℕ) x. (ok p, x)) (ap₂ (λ x y. (x, y)) same is_end) state),
                sym entry ∙ ap (λ n. set_data_start n meta) same,
              )
          | inr t ↦
              let g : ◌≡◌ {A = Answer} (err corrupt, meta, s₂) (ok start, m₁, s₁) =
                simp (f, t) at h in
              absurd (cc g)
        ]
      ]

  set_data_start_same :
      (meta : EntryMeta) (start : ℕ) → meta.data_start ≡ start → meta ≡ set_data_start start meta
  unfolding set_data_start
  set_data_start_same meta start e = sym (ap (λ n. record meta { data_start = n }) (sym e))

  known-Answered :
      (meta : EntryMeta) (s : GuardedFile × W) (start : ℕ) (m₁ : EntryMeta) (s₁ : GuardedFile × W)
      → data_start meta s ≡ (ok start, m₁, s₁)
      → Answered meta s start m₁ s₁
  unfolding data_start
  known-Answered meta s start m₁ s₁ h = elim (Bool-cases (meta.data_start == unset)) [
    | inl t ↦
        let g : range_start meta (compressed_data_range meta.wayfinder s) ≡ (ok start, m₁, s₁) =
          simp t at h in
        range_start-Answered meta s (compressed_data_range meta.wayfinder s) start m₁ s₁ refl g
    | inr f ↦
        let g : ◌≡◌ {A = Answer} (ok meta.data_start, meta, s) (ok start, m₁, s₁) = simp f at h in
        let same : meta.data_start ≡ start = cc g in
        let entry : meta ≡ m₁ = cc g in
        let state : s ≡ s₁ = cc g in
        (inl (same, sym state), sym entry ∙ set_data_start_same meta start same)
  ]

  -- When `data_start` finds where an entry begins, at any place but the one that stands for none, it
  -- keeps it on the entry, whose other fields stay, and every later call gives the same answer, without
  -- reading anything; the answer was kept already, or is the start of a range that the local header
  -- gives and whose length is the compressed size of the central directory.
  pub data_start-ok :
      (meta : EntryMeta) (s : GuardedFile × W) (start : ℕ) (m₁ : EntryMeta)
      (s₁ s₂ : GuardedFile × W)
      → data_start meta s ≡ (ok start, m₁, s₁)
      → (start == unset) ≡ false
      → (data_start m₁ s₂ ≡ (ok start, m₁, s₂))
        × Origin meta s start s₁
        × (m₁ ≡ set_data_start start meta)
  unfolding set_data_start
  data_start-ok meta s start m₁ s₁ s₂ h known =
      let (origin, entry) = known-Answered meta s start m₁ s₁ h in
      let same : m₁.data_start ≡ start = ap (λ (m : EntryMeta). m.data_start) entry in
      let set_now : (m₁.data_start == unset) ≡ false = ap (λ n. n == unset) same ∙ known in
      (data_start_known m₁ s₂ set_now ∙ ap (λ n. (ok n, m₁, s₂)) same, origin, entry)
