-- ===== src/Source/Range.antt =====
-- The buffered reader delivers the bytes of its range, in order and without a gap.
use zipfs.Base.{
  ℕ, ◌+◌, ◌-◌, ◌≤◌, ◌<◌, min, ◌≡◌, refl, sym, ap, ap₂, ◌∙◌, subst, List, [], ◌++◌, ok, err, arith,
  ◌==◌, ==_iff, Bool-cases, inl, inr, length, take, drop, length-append, length-take, length-drop,
  drop-take, take-append, drop-drop, take-add,
}
use zipfs.Base.Word.{u64_mod, add64, sub64, add64_exact, sub64_exact}
use zipfs.Io.{Io}
use zipfs.Guard.{Os, GuardedFile}
use zipfs.Guard
use zipfs.Guard.Reads.{read_exact_at-ok}
use zipfs.Stream.{Filled, IsStream}
use zipfs.Source.{
  retarget, rewind, BufSource, new, window, consume, refilled, refill, fill_buf, source,
}

-- The archive's bytes do not change under the reads: what a positional read of `n` bytes gives is
-- the `n` bytes of `file` that stand there.
pub record ReadsFile {W : Type 0} (os : Os W) (file : List ℕ) : Type 0 where
  pub bytes :
      (offset n : ℕ) (w : W) (bs : List ℕ)
      → (os.read_exact_at offset n w).0 ≡ ok bs
      → (bs ≡ take n (drop offset file)) × (length bs ≡ n)

module _ (file : List ℕ) where
  -- The bytes of the range that were not handed out yet.
  abbrev pub unread : BufSource → List ℕ
  unread s = take (s.len - s.consumed - s.pos) (drop (s.start + s.consumed + s.pos) file)

  -- The cursors are in order, the range does not wrap, and the buffer holds the range's bytes.
  pub record IsValid (s : BufSource) : Type 0 where
    pub ordered : s.pos ≤ s.filled
    pub fits : s.filled ≤ length s.buf
    pub room : 0 < length s.buf
    pub small : length s.buf < u64_mod
    pub inside : s.consumed + s.filled ≤ s.len
    pub no_wrap : s.start + s.len < u64_mod
    pub holds : take s.filled s.buf ≡ take s.filled (drop (s.start + s.consumed) file)
    pub long : s.filled ≤ length (drop (s.start + s.consumed) file)

  pub new-IsValid :
      (start len : ℕ) (buf : List ℕ)
      → 0 < length buf
      → length buf < u64_mod
      → start + len < u64_mod
      → IsValid (new start len buf) × (unread (new start len buf) ≡ take len (drop start file))
  unfolding new
  new-IsValid start len buf a b c = (
    record {
      ordered = omega arith;
      fits = omega arith;
      room = a;
      small = b;
      inside = omega arith;
      no_wrap = c;
      holds = refl;
      long = omega arith;
    },
    ap₂ (λ k j. take k (drop j file)) (omega arith) (omega arith),
  )

  -- A reader that is pointed at a range holds the bytes of the range, whatever it held before.
  pub retarget-IsValid :
      (start len : ℕ) (s : BufSource)
      → start + len < u64_mod
      → IsValid s
      → IsValid (retarget start len s)
        × (unread (retarget start len s) ≡ take len (drop start file))
  unfolding retarget rewind
  retarget-IsValid start len s h v = (
    record {
      ordered = omega arith;
      fits = omega arith;
      room = v.room;
      small = v.small;
      inside = omega arith;
      no_wrap = h;
      holds = refl;
      long = omega arith;
    },
    ap₂ (λ k j. take k (drop j file)) (omega arith) (omega arith),
  )

  pub window-unread :
      (s : BufSource)
      → IsValid s
      → (length (window s) ≡ s.filled - s.pos) × ((rest : List ℕ) × (unread s ≡ window s ++ rest))
  unfolding window
  window-unread s v =
      let at : ℕ = s.start + s.consumed in
      let rest = drop (at + s.pos) file in
      let here =
        sym (drop-take s.pos s.filled s.buf)
        ∙ ap (drop s.pos) v.holds
        ∙ drop-take s.pos s.filled (drop at file)
        ∙ ap (take (s.filled - s.pos)) (drop-drop s.pos at file) in
      (
        omega (
          arith,
          length-take (s.filled - s.pos) (drop s.pos s.buf),
          length-drop s.pos s.buf,
          v.ordered,
          v.fits,
        ),
        (
          take (s.len - s.consumed - s.filled) (drop (s.filled - s.pos) rest),
          ap (λ k. take k rest) (omega arith)
              ∙ take-add (s.filled - s.pos) (s.len - s.consumed - s.filled) rest
              ∙ ap (λ l. l ++ take (s.len - s.consumed - s.filled) (drop (s.filled - s.pos) rest))
                  (sym here),
        ),
      )

  pub consume-IsValid :
      (s : BufSource) (k : ℕ)
      → IsValid s
      → k ≤ s.filled - s.pos
      → IsValid (consume k s) × (unread (consume k s) ≡ drop k (unread s))
  unfolding consume
  consume-IsValid s k v h =
      let e : min (add64 s.pos k) s.filled ≡ s.pos + k =
        omega (arith, add64_exact s.pos k (omega arith)) in
      let at : ℕ = s.start + s.consumed in
      rw e (
        record {
          ordered = omega arith;
          fits = v.fits;
          room = v.room;
          small = v.small;
          inside = v.inside;
          no_wrap = v.no_wrap;
          holds = v.holds;
          long = v.long;
        },
        sym (
            drop-take k (s.len - s.consumed - s.pos) (drop (at + s.pos) file)
            ∙ ap₂ take (omega arith)
                (drop-drop k (at + s.pos) file ∙ ap (λ j. drop j file) (omega arith))),
      )

  pub window-Filled :
      {W : Type 0} (os : Os W) (s : BufSource)
      → IsValid s
      → s.pos < s.filled
      → Filled (source os) IsValid unread (ok (window s)) s
  window-Filled os s v h =
      let (n, part) = window-unread s v in
      (
        part,
        λ e. absurd (omega (arith, ap length e, n)),
        λ k le. consume-IsValid s k v (omega (arith, n)),
      )

  module _ {W : Type 0} (os : Os W) (reads : ReadsFile os file) where
    loaded-IsValid :
        (s : BufSource) (bs : List ℕ)
        → IsValid s
        → s.pos ≡ 0
        → let want : ℕ = min (s.len - s.consumed) (length s.buf) in
          bs ≡ take want (drop (s.start + s.consumed) file)
          → length bs ≡ want
          → IsValid (record s { buf = bs ++ drop want s.buf; filled = want })
    loaded-IsValid s bs v p e n =
        let want : ℕ = min (s.len - s.consumed) (length s.buf) in
        let size : length (bs ++ drop want s.buf) ≡ length s.buf =
          omega (arith, length-append bs (drop want s.buf), length-drop want s.buf, n) in
        record {
          ordered = omega arith;
          fits = omega (arith, size);
          room = omega (arith, size, v.room);
          small = omega (arith, size, v.small);
          inside = omega (arith, v.inside);
          no_wrap = v.no_wrap;
          holds =
              subst (λ k. take k (bs ++ drop want s.buf) ≡ bs) n (take-append bs (drop want s.buf))
              ∙ e;
          long = omega (arith, n, ap length e, length-take want (drop (s.start + s.consumed) file));
        }

    refilled-Filled :
        (s : BufSource) (r : Io (List ℕ))
        → IsValid s
        → s.pos ≡ 0
        → let want : ℕ = min (s.len - s.consumed) (length s.buf) in
          0 < want
          → ((bs : List ℕ)
              → r ≡ ok bs
              → (bs ≡ take want (drop (s.start + s.consumed) file)) × (length bs ≡ want))
          → let (r', s') = refilled r want s in
            IsValid s' × (unread s' ≡ unread s) × Filled (source os) IsValid unread r' s'
    unfolding refilled
    refilled-Filled s (err e) v p h read = (v, refl, tt)
    refilled-Filled s (ok bs) v p h read =
        let (e, n) = read bs refl in
        let v' = loaded-IsValid s bs v p e n in (v', refl, window-Filled os _ v' (omega arith))

    empty-Filled :
        (s : BufSource)
        → IsValid s
        → s.len - s.consumed ≡ 0
        → Filled (source os) IsValid unread (ok []) s
    empty-Filled s v z =
        let rest = drop (s.start + s.consumed + s.pos) file in
        let over : s.len - s.consumed - s.pos ≡ 0 = omega arith in
        (
          (unread s, refl),
          λ _. ap (λ k. take k rest) over,
          λ k le. consume-IsValid s k v (omega arith),
        )

    -- `fill_buf` first counts the buffer that was handed out.
    settle-IsValid :
        (s : BufSource)
        → IsValid s
        → s.pos ≡ s.filled
        → let s' = record s { consumed = add64 s.consumed s.filled; pos = 0; filled = 0 } in
          IsValid s' × (unread s' ≡ unread s)
    settle-IsValid s v p =
        let e : add64 s.consumed s.filled ≡ s.consumed + s.filled =
          add64_exact s.consumed s.filled (omega (arith, v.inside, v.no_wrap)) in
        rw e (
          record {
            ordered = omega arith;
            fits = omega arith;
            room = v.room;
            small = v.small;
            inside = omega (arith, v.inside);
            no_wrap = v.no_wrap;
            holds = refl;
            long = omega arith;
          },
          ap₂ (λ k j. take k (drop j file)) (omega arith) (omega arith),
        )

    refill-Filled :
        (s : BufSource) (e : GuardedFile × W)
        → IsValid s
        → s.pos ≡ 0
        → s.filled ≡ 0
        → let (r', s', _) = refill os s e in
          IsValid s' × (unread s' ≡ unread s) × Filled (source os) IsValid unread r' s'
    unfolding refill
    refill-Filled s (g, w) v p f =
        let left : sub64 s.len s.consumed ≡ s.len - s.consumed =
          sub64_exact s.len s.consumed (omega (arith, v.no_wrap)) (omega (arith, v.inside)) in
        let at : add64 s.start s.consumed ≡ s.start + s.consumed =
          add64_exact s.start s.consumed (omega (arith, v.no_wrap, v.inside)) in
        let want : ℕ = min (s.len - s.consumed) (length s.buf) in
        elim (Bool-cases (s.len - s.consumed == 0)) [
          | inl z ↦ rw (left, z) (v, refl, empty-Filled s v ((==_iff _ 0).0 z))
          | inr z ↦
              rw (left, at, z)
                (refilled-Filled s (Guard.read_exact_at os g (s.start + s.consumed) want w).0 v p
                  (ground (arith, v.room))
                  λ bs h. reads.bytes _ _ w bs ((read_exact_at-ok os g _ _ w bs).0 h).0)
        ]

    -- The buffered reader is a stream of the range's bytes.
    pub source-IsStream : IsStream (source os) IsValid unread
    unfolding fill_buf
    source-IsStream = record { fill_lem = fill }
      where
        fill :
            (s : BufSource) (e : GuardedFile × W)
            → IsValid s
            → let (r, s', _) = fill_buf os s e in
              IsValid s' × (unread s' ≡ unread s) × Filled (source os) IsValid unread r s'
        fill s e v = elim (Bool-cases (s.pos == s.filled)) [
          | inl h ↦
              let s' = record s { consumed = add64 s.consumed s.filled; pos = 0; filled = 0 } in
              let (v', u) = settle-IsValid s v ((==_iff _ _).0 h) in
              let (a, b, c) = refill-Filled s' e v' refl refl in rw h (a, b ∙ u, c)
          | inr h ↦ rw h (v, refl, window-Filled os s v (ground arith))
        ]
