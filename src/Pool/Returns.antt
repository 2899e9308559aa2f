-- ===== src/Pool/Returns.antt =====
-- The bound on idle decoders, over every interleaving. The steps are the atomic parts of the methods:
-- `checkout` takes a decoder under its pool's lock and gives up the slot after that; `give_back`
-- claims a slot and adds the decoder, two steps between which it holds the lock of its pool, and
-- recycles a decoder that is not kept after that; and the end of a pool takes the decoders out under
-- the lock, then gives up the slot of one after another and recycles it.
use zipfs.Base.{
  ℕ, ◌+◌, ◌≤◌, ◌<◌, ◌≡◌, Bool, true, false, ◌&&◌, if◌then◌else◌, some, List, [], ◌∷◌, ◌++◌, ltb,
  length, arith,
}
use zipfs.Base.Word.{u64_mod}
use zipfs.Entry.{Method}
use zipfs.Codec.{Codec, Flate, ZstdRaw, codec, codec_method}
use zipfs.Stream.{ByteSource}
use zipfs.Decode.{Crc, EntryLocation, CoreParts, into_parts}
use zipfs.Pool.{DecoderBudget, try_retain, release_retain, push_below, pop_or, update}
use zipfs.Pool.Exchange.{Decoder, Pool, Budget, pick, take_core, recycle_core}

-- The vectors of recycled parts are within the cap.
pub record IsCapped {C : Type 0} (b : DecoderBudget C) : Type 0 where
  pub codecs : (m : Method) → length (b.cores.codecs m) ≤ b.max_cores
  pub buffers : length b.cores.buffers ≤ b.max_cores
  pub skips : length b.cores.skips ≤ b.max_cores

length-push_below :
    {A : Type 0} (limit : ℕ) (a : A) (xs : List A)
    → length xs ≤ limit
    → length (push_below limit a xs) ≤ limit
unfolding push_below
length-push_below limit a xs h = ground arith

length-pop_or : {A : Type 0} (xs : List A) (a : A) → length (pop_or xs a).1 ≤ length xs
unfolding pop_or
length-pop_or [] a = omega arith
length-pop_or (x ∷ xs) a = omega arith

update-le :
    {A : Type 0} (limit : ℕ) (f : Method → List A) (m k : Method) (xs : List A)
    → length (f k) ≤ limit
    → length xs ≤ limit
    → length (update f m xs k) ≤ limit
unfolding update
update-le limit f m k xs h g = ground arith

module _ {D Z S E K : Type 0} (flate : Flate D) (raw : ZstdRaw Z) (source : ByteSource S E)
    (crc : Crc K) where
  -- An open pool, and whether a `give_back` that has claimed a slot holds its lock.
  pub record Slot : Type 0 where
    pub pool : Pool flate raw source crc
    pub claiming : Bool

  abbrev pub unlocked : Pool flate raw source crc → Slot
  unlocked p = record { pool = p; claiming = false }

  abbrev pub locked : Pool flate raw source crc → Slot
  locked p = record { pool = p; claiming = true }

  -- The mount: its budget; its open pools; how many decoders `checkout` took whose slot is not given
  -- up yet; the decoders of ended pools whose slot is not given up yet; and the decoders to recycle.
  pub record Mount : Type 0 where
    pub budget : Budget flate raw source crc
    pub pools : List Slot
    pub pending : ℕ
    pub closing : List (Decoder flate raw source crc)
    pub spare : List (Decoder flate raw source crc)

  pub data Step (m : Mount) : Mount → Type 0 where
    opens :
        (cap : ℕ) (loc : EntryLocation)
        → Step m (record m {
          pools = unlocked (record { idle = []; per_handle_cap = cap; loc = loc }) ∷ m.pools;
        })
    takes :
        (l r : List Slot) (p : Pool flate raw source crc) (offset : ℕ)
        (d : Decoder flate raw source crc) (rewind : Bool)
        (rest : List (Decoder flate raw source crc))
        → m.pools ≡ l ++ unlocked p ∷ r
        → pick flate raw source crc offset p.idle ≡ some (d, rewind, rest)
        → Step m (record m {
          pools = l ++ unlocked (record p { idle = rest }) ∷ r;
          pending = m.pending + 1;
        })
    releases :
        (n : ℕ)
        → m.pending ≡ n + 1
        → Step m (record m { budget = release_retain m.budget; pending = n })
    makes :
        (method : Method)
        → Step m (record m { budget = (take_core flate raw source crc method m.budget).1 })
    claims :
        (l r : List Slot) (p : Pool flate raw source crc)
        → m.pools ≡ l ++ unlocked p ∷ r
        → ltb (length p.idle) p.per_handle_cap ≡ true
        → (try_retain m.budget).0 ≡ true
        → Step m (record m { pools = l ++ locked p ∷ r; budget = (try_retain m.budget).1 })
    keeps :
        (l r : List Slot) (p : Pool flate raw source crc) (d : Decoder flate raw source crc)
        → m.pools ≡ l ++ locked p ∷ r
        → Step m (record m { pools = l ++ unlocked (record p { idle = p.idle ++ d ∷ [] }) ∷ r })
    refuses :
        (l r : List Slot) (p : Pool flate raw source crc) (d : Decoder flate raw source crc)
        → m.pools ≡ l ++ unlocked p ∷ r
        → (ltb (length p.idle) p.per_handle_cap && (try_retain m.budget).0) ≡ false
        → Step m (record m { spare = d ∷ m.spare })
    closes :
        (l r : List Slot) (p : Pool flate raw source crc)
        → m.pools ≡ l ++ unlocked p ∷ r
        → Step m (record m { pools = l ++ r; closing = p.idle ++ m.closing })
    drops :
        (l r : List (Decoder flate raw source crc)) (d : Decoder flate raw source crc)
        → m.closing ≡ l ++ d ∷ r
        → Step m
            (record m { budget = release_retain m.budget; closing = l ++ r; spare = d ∷ m.spare })
    recycles :
        (l r : List (Decoder flate raw source crc)) (d : Decoder flate raw source crc)
        → m.spare ≡ l ++ d ∷ r
        → Step m (record m {
          budget =
              recycle_core flate raw source crc
                (into_parts (codec flate raw) source crc d)
                m.budget;
          spare = l ++ r;
        })

  pub data Reach (m : Mount) : Mount → Type 0 where
    here : Reach m m
    next : {t u : Mount} → Reach m t → Step t u → Reach m u

  -- The idle decoders of a pool, with the one that a slot is claimed for.
  abbrev pub held : Slot → ℕ
  held s = length s.pool.idle + (if s.claiming then 1 else 0)

  abbrev pub total : List Slot → ℕ
  total [] = 0
  total (s ∷ ss) = held s + total ss

  -- No pool keeps more than its cap, or will when its lock is given up.
  abbrev pub AllBelow : List Slot → Type 0
  AllBelow [] = Unit {0}
  AllBelow (s ∷ ss) = (held s ≤ s.pool.per_handle_cap) × AllBelow ss

  pub total-append : (l r : List Slot) → total (l ++ r) ≡ total l + total r
  total-append [] r = omega arith
  total-append (s ∷ l) r = omega (arith, total-append l r)

  pub AllBelow-append : (l r : List Slot) → AllBelow l → AllBelow r → AllBelow (l ++ r)
  AllBelow-append [] r h g = g
  AllBelow-append (s ∷ l) r h g = (h.0, AllBelow-append l r h.1 g)

  pub AllBelow-split : (l r : List Slot) → AllBelow (l ++ r) → AllBelow l × AllBelow r
  AllBelow-split [] r h = (tt, h)
  AllBelow-split (s ∷ l) r h = let (a, b) = AllBelow-split l r h.1 in ((h.0, a), b)

  -- Every idle decoder, every one that a slot is claimed for, and every slot not given up yet is
  -- counted, and the counts are bounded.
  pub record IsCounted (m : Mount) : Type 0 where
    pub counted : m.budget.retained ≡ total m.pools + m.pending + length m.closing
    pub bounded : m.budget.retained ≤ m.budget.max_retained
    pub word : m.budget.max_retained < u64_mod
    pub below : AllBelow m.pools
    pub capped : IsCapped m.budget

  pub recycle_core-IsCapped :
      (parts : CoreParts (Codec D Z)) (b : Budget flate raw source crc)
      → IsCapped b
      → IsCapped (recycle_core flate raw source crc parts b)
  unfolding recycle_core
  recycle_core-IsCapped parts b c = record {
    codecs = λ m.
        update-le b.max_cores b.cores.codecs (codec_method parts.codec) m _ (c.codecs m)
          (length-push_below b.max_cores parts.codec _ (c.codecs (codec_method parts.codec)));
    buffers = length-push_below b.max_cores parts.buf b.cores.buffers c.buffers;
    skips = length-push_below b.max_cores parts.skip b.cores.skips c.skips;
  }

  pub take_core-IsCapped :
      (method : Method) (b : Budget flate raw source crc)
      → IsCapped b
      → IsCapped (take_core flate raw source crc method b).1
  unfolding take_core
  take_core-IsCapped method b c = record {
    codecs = λ m.
        update-le b.max_cores b.cores.codecs method m _ (c.codecs m)
          (omega (arith, length-pop_or (b.cores.codecs method) _, c.codecs method));
    buffers = omega (arith, length-pop_or b.cores.buffers _, c.buffers);
    skips = omega (arith, length-pop_or b.cores.skips _, c.skips);
  }
