-- ===== src/Guard/Reads.antt =====
-- What the guard promises of a read: its bytes come out only when the archive was examined after
-- the read and found unchanged.
use zipfs.Base.{
  ℕ, ◌≡◌, refl, sym, ap, subst, ◌∙◌, ◌↔◌, Option, none, some, true, false, List, ok, err, arith,
  Bool-cases, inl, inr,
}
use zipfs.Base.Int.{eq_ℤ_iff}
use zipfs.Io.{Io}
use zipfs.Guard.{
  Os, Stamp, Metadata, LibcStat, GuardedFile, compare_named, compare_opened, compare_stamps,
  conclude, verify, check, current, unknown, guarded, read_exact_at, unchanged, same_file, of,
  of_stat, Change, freshness,
}

-- What the guard compares: the size and the modification time.
abbrev pub SameContents : Stamp → Stamp → Type 0
SameContents s t = (s.len ≡ t.len) × (s.mtime.0 ≡ t.mtime.0) × (s.mtime.1 ≡ t.mtime.1)

abbrev pub SameFile : Stamp → Stamp → Type 0
SameFile s t = (s.dev ≡ t.dev) × (s.ino ≡ t.ino)

pub unchanged_iff : (s t : Stamp) → (unchanged s t ≡ true) ↔ SameContents s t
unfolding unchanged
unchanged_iff s t = ground (arith, eq_ℤ_iff s.mtime.0 t.mtime.0, eq_ℤ_iff s.mtime.1 t.mtime.1)

pub same_file_iff : (s t : Stamp) → (same_file s t ≡ true) ↔ SameFile s t
unfolding same_file
same_file_iff s t = ground arith

module _ {W : Type 0} (os : Os W) where
  -- The system calls made at `w` show the archive that `g` was opened on: the open file keeps its
  -- size and time, and where the path is examined too, it names that file with that size and time.
  abbrev pub IsCurrent : GuardedFile → W → Type 0
  IsCurrent g w =
      (m : Metadata) × ((os.metadata w).0 ≡ ok m)
      × SameContents (of m) g.opened
      × (g.named ≡ true
          → (st : LibcStat) × ((os.fstatat (os.metadata w).1).0 ≡ ok st)
            × SameFile (of_stat st) g.opened
            × SameContents (of_stat st) g.opened)

  compare_named-none :
      (opened : Stamp) (r : Io LibcStat)
      → compare_named opened r ≡ ok none
      → (st : LibcStat) × (r ≡ ok st)
        × SameFile (of_stat st) opened
        × SameContents (of_stat st) opened
  unfolding compare_named
  compare_named-none opened (ok st) h = (
    st,
    refl,
    (same_file_iff (of_stat st) opened).0 (ground arith),
    (unchanged_iff (of_stat st) opened).0 (ground arith),
  )
  compare_named-none opened (err e) h = absurd (ground arith)

  compare_opened-none :
      (g : GuardedFile) (r : Io Metadata) (w : W)
      → (compare_opened os g r w).0 ≡ ok none
      → (m : Metadata) × (r ≡ ok m)
        × SameContents (of m) g.opened
        × (g.named ≡ true → compare_named g.opened (os.fstatat w).0 ≡ ok none)
  unfolding compare_opened
  compare_opened-none g (err e) w h = absurd (ground arith)
  compare_opened-none g (ok m) w h =
      (m, refl, (unchanged_iff (of m) g.opened).0 (ground arith), λ n. ground arith)

  none-compare_opened :
      (g : GuardedFile) (m : Metadata) (w : W)
      → SameContents (of m) g.opened
      → (g.named ≡ true → compare_named g.opened (os.fstatat w).0 ≡ ok none)
      → (compare_opened os g (ok m) w).0 ≡ ok none
  unfolding compare_opened
  none-compare_opened g m w c n =
      let same = (unchanged_iff (of m) g.opened).1 c in
      elim (Bool-cases g.named) [ inl e ↦ rw (same, e) (n e) | inr e ↦ rw (same, e) ]

  none-compare_named :
      (opened : Stamp) (st : LibcStat)
      → SameFile (of_stat st) opened
      → SameContents (of_stat st) opened
      → compare_named opened (ok st) ≡ ok none
  unfolding compare_named
  none-compare_named opened st f c =
      rw ((same_file_iff (of_stat st) opened).1 f, (unchanged_iff (of_stat st) opened).1 c)

  -- The comparison finds no change exactly when the system calls show the opened archive.
  pub compare_stamps-none :
      (g : GuardedFile) (w : W) → ((compare_stamps os g w).0 ≡ ok none) ↔ IsCurrent g w
  unfolding compare_stamps
  compare_stamps-none g w = (
    λ h.
        let (m, e, c, n) = compare_opened-none g (os.metadata w).0 (os.metadata w).1 h in
        (m, e, c, λ named. compare_named-none g.opened _ (n named)),
    λ (m, e, c, n). rw e (
        none-compare_opened g m (os.metadata w).1 c
          λ named. let (st, e', f, c') = n named in rw e' (none-compare_named g.opened st f c')),
  )

  conclude-ok :
      (g : GuardedFile) (r : Io (Option Change)) → ((conclude g r).0 ≡ ok tt) ↔ (r ≡ ok none)
  unfolding conclude
  conclude-ok g (ok none) = (λ _. refl, λ _. refl)
  conclude-ok g (ok (some c)) = (λ h. absurd (ground arith), λ h. absurd (ground arith))
  conclude-ok g (err e) = (λ h. absurd (ground arith), λ h. absurd (ground arith))

  verify-fresh :
      (g : GuardedFile) (w : W)
      → g.is_stale ≡ false
      → let v = compare_stamps os g w in let c = conclude g v.0 in verify os g w ≡ (c.0, c.1, v.1)
  unfolding verify
  verify-fresh g w e = simp e

  -- `verify` succeeds exactly when no change was found before and the archive is current now.
  pub verify-ok :
      (g : GuardedFile) (w : W)
      → ((verify os g w).0 ≡ ok tt) ↔ ((g.is_stale ≡ false) × IsCurrent g w)
  unfolding verify
  verify-ok g w = elim (Bool-cases g.is_stale) [
    | inl e ↦ (λ h. absurd (ground arith), λ h. absurd (ground arith))
    | inr e ↦
        let a = conclude-ok g (compare_stamps os g w).0 in
        let b = compare_stamps-none g w in
        let f = ap (λ r. r.0) (verify-fresh g w e) in
        (λ h. (e, b.0 (a.0 (sym f ∙ h))), λ h. f ∙ a.1 (b.1 h.1))
  ]

  guarded-ok :
      (v : Io (Unit {0})) (read : Io (List ℕ)) (bytes : List ℕ)
      → (guarded v read ≡ ok bytes) ↔ ((v ≡ ok tt) × (read ≡ ok bytes))
  unfolding guarded
  guarded-ok (ok u) read bytes = (λ h. (refl, h), λ h. h.1)
  guarded-ok (err e) read bytes = (λ h. absurd (ground arith), λ h. absurd (ground arith))

  -- `read_exact_at` gives bytes exactly when the system call gave them, no change was found before,
  -- and the archive, examined after the read, is still the one that was opened.
  pub read_exact_at-ok :
      (g : GuardedFile) (offset n : ℕ) (w : W) (bytes : List ℕ)
      → ((read_exact_at os g offset n w).0 ≡ ok bytes) ↔ (
          ((os.read_exact_at offset n w).0 ≡ ok bytes)
          × (g.is_stale ≡ false)
          × IsCurrent g (os.read_exact_at offset n w).1)
  unfolding read_exact_at
  read_exact_at-ok g offset n w bytes =
      let read = os.read_exact_at offset n w in
      let a = guarded-ok (verify os g read.1).0 read.0 bytes in
      let b = verify-ok g read.1 in
      (λ h. let (v, r) = a.0 h in let (s, c) = b.0 v in (r, s, c), λ (r, s, c). a.1 (b.1 (s, c), r))

  check-current :
      (g : GuardedFile) (w : W) → g.is_stale ≡ false → IsCurrent g w → (check os g w).0 ≡ current
  unfolding check freshness
  check-current g w e c =
      ap (λ r. freshness r (verify os g w).1.is_stale) ((verify-ok g w).1 (e, c))

  conclude-unknown :
      (g : GuardedFile) (v : Io (Option Change)) (w : W)
      → g.is_stale ≡ false
      → freshness (conclude g v).0 (conclude g v).1.is_stale ≡ unknown
      → let g' = (conclude g v).1 in
        (g'.is_stale ≡ false) × (g'.unsure ≡ true) × (IsCurrent g w → IsCurrent g' w)
  unfolding conclude freshness
  conclude-unknown g (ok none) w e h = absurd (ground arith)
  conclude-unknown g (ok (some c)) w e h = absurd (ground arith)
  conclude-unknown g (err x) w e h = elim (Bool-cases g.unsure) [
    | inl u ↦ simp u (e, refl, λ c. c)
    | inr u ↦ simp u (e, refl, λ c. c)
  ]

  -- A check that could not finish is not permanent: it leaves the guard fresh, and the next check
  -- at which the system calls show the opened archive says that it is current.
  pub check-unknown :
      (g : GuardedFile) (w w' : W)
      → (check os g w).0 ≡ unknown
      → let g' = (check os g w).1 in
        (g.is_stale ≡ false)
        × (g'.is_stale ≡ false)
        × (g'.unsure ≡ true)
        × (IsCurrent g w' → (check os g' w').0 ≡ current)
  unfolding check
  check-unknown g w w' h = elim (Bool-cases g.is_stale) [
    | inl e ↦ absurd (ground arith)
    | inr e ↦
        let f = verify-fresh g w e in
        let (fresh, unsure, keeps) =
          conclude-unknown g (compare_stamps os g w).0 w' e
            (ap (λ r. freshness r.0 r.1.is_stale) (sym f) ∙ h) in
        let g₁ = ap (λ (r : Io (Unit {0}) × GuardedFile × W). r.1) f in
        (
          e,
          ap (λ x. x.is_stale) g₁ ∙ fresh,
          ap (λ x. x.unsure) g₁ ∙ unsure,
          λ c.
              check-current (check os g w).1 w' (ap (λ x. x.is_stale) g₁ ∙ fresh)
                (subst (λ x. IsCurrent x w') (sym g₁) (keeps c)),
        )
  ]
