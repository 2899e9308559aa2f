-- ===== src/Pool/Counted.antt =====
-- Each atomic step of the exchange keeps the count of idle decoders.
use zipfs.Base.{
  ◌+◌, ◌<◌, ◌≡◌, refl, ap, subst, sym, List, [], ◌∷◌, ◌++◌, length, arith, length-append, ltb→lt,
}
use zipfs.Base.Word.{u64_mod, sub64_exact}
use zipfs.Config.{Config, clamp}
use zipfs.Codec.{Flate, ZstdRaw}
use zipfs.Stream.{ByteSource}
use zipfs.Decode.{Crc}
use zipfs.Pool.{release_retain, new_budget}
use zipfs.Pool.Exchange.{Decoder, Pool, take_core, recycle_core}
use zipfs.Pool.Returns.{
  Slot, unlocked, locked, Mount, Step, opens, takes, releases, makes, claims, keeps, refuses,
  closes, drops, recycles, Reach, here, next, total, AllBelow, total-append, AllBelow-append,
  AllBelow-split, IsCounted, recycle_core-IsCapped, take_core-IsCapped,
}
use zipfs.Pool.Slots.{
  length-pick, IsCapped-retained, total-replace, AllBelow-replace, try_retain-true,
}

module _ {D Z S E K : Type 0} (flate : Flate D) (raw : ZstdRaw Z) (source : ByteSource S E)
    (crc : Crc K) where
  -- A slot is claimed for a pool that has room.
  claimed-IsCounted :
      (l r : List (Slot flate raw source crc)) (p : Pool flate raw source crc)
      (m : Mount flate raw source crc)
      → m.pools ≡ l ++ unlocked flate raw source crc p ∷ r
      → length p.idle < p.per_handle_cap
      → m.budget.retained < m.budget.max_retained
      → IsCounted flate raw source crc m
      → IsCounted flate raw source crc (record m {
        pools = l ++ locked flate raw source crc p ∷ r;
        budget = record m.budget { retained = m.budget.retained + 1 };
      })
  claimed-IsCounted l r p m h f g w =
      let free = unlocked flate raw source crc p in
      let full = locked flate raw source crc p in
      record {
        counted =
            omega (arith, w.counted, total-replace flate raw source crc m.pools l r free full h);
        bounded = omega arith;
        word = w.word;
        below =
            AllBelow-replace flate raw source crc m.pools l r free full h w.below
              (λ _. omega arith);
        capped = IsCapped-retained flate raw source crc m.budget _ w.capped;
      }

  -- A decoder of an ended pool gives up its slot.
  dropped-IsCounted :
      (l r : List (Decoder flate raw source crc)) (d : Decoder flate raw source crc)
      (m : Mount flate raw source crc)
      → m.closing ≡ l ++ d ∷ r
      → IsCounted flate raw source crc m
      → IsCounted flate raw source crc
          (record m { budget = release_retain m.budget; closing = l ++ r; spare = d ∷ m.spare })
  unfolding release_retain
  dropped-IsCounted l r d m h w =
      let fewer : length m.closing ≡ length (l ++ r) + 1 =
        omega (arith, ap length h, length-append l (d ∷ r), length-append l r) in
      let e =
        sub64_exact m.budget.retained 1 (omega (arith, w.bounded, w.word))
          (omega (arith, w.counted, fewer)) in
      record {
        counted = omega (arith, e, w.counted, fewer);
        bounded = omega (arith, e, w.bounded);
        word = w.word;
        below = w.below;
        capped = IsCapped-retained flate raw source crc m.budget _ w.capped;
      }

  -- The end of a pool moves its decoders to those whose slot is to be given up.
  closed-IsCounted :
      (l r : List (Slot flate raw source crc)) (p : Pool flate raw source crc)
      (m : Mount flate raw source crc)
      → m.pools ≡ l ++ unlocked flate raw source crc p ∷ r
      → IsCounted flate raw source crc m
      → IsCounted flate raw source crc (record m { pools = l ++ r; closing = p.idle ++ m.closing })
  closed-IsCounted l r p m h w =
      let free = unlocked flate raw source crc p in
      let (left, right) =
        AllBelow-split flate raw source crc l (free ∷ r)
          (subst (AllBelow flate raw source crc) h w.below) in
      record {
        counted = omega (
          arith,
          w.counted,
          ap (total flate raw source crc) h,
          total-append flate raw source crc l (free ∷ r),
          total-append flate raw source crc l r,
          length-append p.idle m.closing,
        );
        bounded = w.bounded;
        word = w.word;
        below = AllBelow-append flate raw source crc l r left right.1;
        capped = w.capped;
      }

  Step-IsCounted :
      (m n : Mount flate raw source crc)
      → IsCounted flate raw source crc m
      → Step flate raw source crc m n
      → IsCounted flate raw source crc n
  unfolding release_retain take_core recycle_core
  Step-IsCounted m _ w (opens limit loc) = record {
    counted = omega (arith, w.counted);
    bounded = w.bounded;
    word = w.word;
    below = (omega arith, w.below);
    capped = w.capped;
  }
  Step-IsCounted m _ w (takes l r p offset d rewind rest h k) =
      let fewer = length-pick flate raw source crc offset p.idle d rewind rest k in
      let old = unlocked flate raw source crc p in
      let new = unlocked flate raw source crc (record p { idle = rest }) in
      record {
        counted =
            omega
              (arith, w.counted, fewer, total-replace flate raw source crc m.pools l r old new h);
        bounded = w.bounded;
        word = w.word;
        below =
            AllBelow-replace flate raw source crc m.pools l r old new h w.below
              (λ b. omega (arith, fewer));
        capped = w.capped;
      }
  Step-IsCounted m _ w (releases n h) =
      let e =
        sub64_exact m.budget.retained 1 (omega (arith, w.bounded, w.word))
          (omega (arith, w.counted, h)) in
      record {
        counted = omega (arith, e, w.counted, h);
        bounded = omega (arith, e, w.bounded);
        word = w.word;
        below = w.below;
        capped = IsCapped-retained flate raw source crc m.budget _ w.capped;
      }
  Step-IsCounted m _ w (makes method) = record {
    counted = w.counted;
    bounded = w.bounded;
    word = w.word;
    below = w.below;
    capped = take_core-IsCapped flate raw source crc method m.budget w.capped;
  }
  Step-IsCounted m _ w (claims l r p h f g) =
      let (less, e) = try_retain-true flate raw source crc m.budget g in
      subst
        (λ b.
          IsCounted flate raw source crc
            (record m { pools = l ++ locked flate raw source crc p ∷ r; budget = b }))
        (sym e) (claimed-IsCounted l r p m h (ltb→lt _ _ f) less w)
  Step-IsCounted m _ w (keeps l r p d h) =
      let added = length-append p.idle (d ∷ []) in
      let old = locked flate raw source crc p in
      let new = unlocked flate raw source crc (record p { idle = p.idle ++ d ∷ [] }) in
      record {
        counted =
            omega
              (arith, w.counted, added, total-replace flate raw source crc m.pools l r old new h);
        bounded = w.bounded;
        word = w.word;
        below =
            AllBelow-replace flate raw source crc m.pools l r old new h w.below
              (λ b. omega (arith, added));
        capped = w.capped;
      }
  Step-IsCounted m _ w (refuses l r p d h g) = record {
    counted = w.counted;
    bounded = w.bounded;
    word = w.word;
    below = w.below;
    capped = w.capped;
  }
  Step-IsCounted m _ w (closes l r p h) = closed-IsCounted l r p m h w
  Step-IsCounted m _ w (drops l r d h) = dropped-IsCounted l r d m h w
  Step-IsCounted m _ w (recycles l r d h) = record {
    counted = w.counted;
    bounded = w.bounded;
    word = w.word;
    below = w.below;
    capped = recycle_core-IsCapped flate raw source crc _ m.budget w.capped;
  }

  -- The mount as `ZipFs::new` makes it, with the configuration clamped and no file open.
  abbrev pub mounted : Config → Mount flate raw source crc
  mounted c = record {
    budget = new_budget (clamp c);
    pools = [];
    pending = 0;
    closing = [];
    spare = [];
  }

  mounted-IsCounted :
      (c : Config) → c.max_retained_decoders < u64_mod → IsCounted flate raw source crc (mounted c)
  unfolding new_budget clamp
  mounted-IsCounted c h = record {
    counted = refl;
    bounded = omega arith;
    word = omega arith;
    below = tt;
    capped = record { codecs = λ _. omega arith; buffers = omega arith; skips = omega arith };
  }

  reached-IsCounted :
      (m n : Mount flate raw source crc)
      → IsCounted flate raw source crc m
      → Reach flate raw source crc m n
      → IsCounted flate raw source crc n
  reached-IsCounted m _ w here = w
  reached-IsCounted m n w (next {t} r s) = Step-IsCounted t n (reached-IsCounted m t w r) s

  -- From the mounting on, whatever the configuration and in whatever order the threads take their
  -- steps: the budget counts the idle decoders of all open files, those that a slot is claimed for
  -- and that are not in their pool yet, and those taken out by `checkout` or by the end of a pool
  -- whose slot is not given up yet, never above its limit; no open file keeps more idle decoders than
  -- its cap; and no vector of recycled parts is longer than its limit.
  pub Reach-IsCounted :
      (c : Config) (m : Mount flate raw source crc)
      → c.max_retained_decoders < u64_mod
      → Reach flate raw source crc (mounted c) m
      → IsCounted flate raw source crc m
  Reach-IsCounted c m h r = reached-IsCounted (mounted c) m (mounted-IsCounted c h) r
