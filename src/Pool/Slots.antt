-- ===== src/Pool/Slots.antt =====
-- What a step of the threads changes: a slot of the mount is replaced, or the budget claims a slot.
use zipfs.Base.{
  ℕ, ◌+◌, ◌≤◌, ◌<◌, ◌≡◌, refl, ap, subst, Bool, true, Option, none, some, List, ◌∷◌, ◌++◌, ltb,
  length, Bool-cases, Option-cases, inl, inr, arith, ltb→lt, get_elem?, lt-length_of_get_elem?,
  eq_of_some,
}
use zipfs.Codec.{Flate, ZstdRaw}
use zipfs.Stream.{ByteSource}
use zipfs.Decode.{Crc}
use zipfs.Pool.{try_retain, choose, swap_remove}
use zipfs.Pool.Exchange.{Decoder, Budget, taken, pick}
use zipfs.Pool.Checkouts.{length-swap_remove}
use zipfs.Pool.Returns.{
  IsCapped, Slot, held, total, AllBelow, total-append, AllBelow-append, AllBelow-split,
}

module _ {D Z S E K : Type 0} (flate : Flate D) (raw : ZstdRaw Z) (source : ByteSource S E)
    (crc : Crc K) where
  length-taken :
      (idle : List (Decoder flate raw source crc)) (choice : Option (ℕ × Bool))
      (d : Decoder flate raw source crc) (rewind : Bool)
      (rest : List (Decoder flate raw source crc))
      → taken flate raw source crc idle choice ≡ some (d, rewind, rest)
      → length rest + 1 ≡ length idle
  unfolding taken
  length-taken idle none d rewind rest h = absurd (ground arith)
  length-taken idle (some (i, w)) d rewind rest h = elim (Option-cases (get_elem? idle i)) [
    | inl e ↦ absurd (ground (arith, rw e at h))
    | inr (c, e) ↦
        let kept : swap_remove i idle ≡ rest = ap (λ t. t.2) (eq_of_some (simp e at h)) in
        subst (λ xs. length xs + 1 ≡ length idle) kept
          (length-swap_remove i idle (lt-length_of_get_elem? idle i c e))
  ]

  pub length-pick :
      (offset : ℕ) (idle : List (Decoder flate raw source crc)) (d : Decoder flate raw source crc)
      (rewind : Bool) (rest : List (Decoder flate raw source crc))
      → pick flate raw source crc offset idle ≡ some (d, rewind, rest)
      → length rest + 1 ≡ length idle
  unfolding pick
  length-pick offset idle d rewind rest h = length-taken idle (choose offset idle) d rewind rest h

  pub IsCapped-retained :
      (b : Budget flate raw source crc) (n : ℕ) → IsCapped b → IsCapped (record b { retained = n })
  IsCapped-retained b n c = record { codecs = c.codecs; buffers = c.buffers; skips = c.skips }

  pub total-replace :
      (ps l r : List (Slot flate raw source crc)) (p q : Slot flate raw source crc)
      → ps ≡ l ++ p ∷ r
      → total flate raw source crc ps + held flate raw source crc q
        ≡ total flate raw source crc (l ++ q ∷ r) + held flate raw source crc p
  total-replace ps l r p q h = omega (
    arith,
    ap (total flate raw source crc) h,
    total-append flate raw source crc l (p ∷ r),
    total-append flate raw source crc l (q ∷ r),
  )

  pub AllBelow-replace :
      (ps l r : List (Slot flate raw source crc)) (p q : Slot flate raw source crc)
      → ps ≡ l ++ p ∷ r
      → AllBelow flate raw source crc ps
      → ((held flate raw source crc p ≤ p.pool.per_handle_cap)
          → held flate raw source crc q ≤ q.pool.per_handle_cap)
      → AllBelow flate raw source crc (l ++ q ∷ r)
  AllBelow-replace ps l r p q h w k =
      let (left, right) =
        AllBelow-split flate raw source crc l (p ∷ r) (subst (AllBelow flate raw source crc) h w) in
      AllBelow-append flate raw source crc l (q ∷ r) left (k right.0, right.1)

  -- `try_retain` claims a slot only below the limit.
  pub try_retain-true :
      (b : Budget flate raw source crc)
      → (try_retain b).0 ≡ true
      → (b.retained < b.max_retained) × ((try_retain b).1 ≡ record b { retained = b.retained + 1 })
  unfolding try_retain
  try_retain-true b h = elim (Bool-cases (ltb b.retained b.max_retained)) [
    | inl t ↦ (ltb→lt _ _ t, rw t refl)
    | inr f ↦ absurd (ground (arith, rw f at h))
  ]
