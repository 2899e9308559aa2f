-- ===== src/Pool/Checkouts.antt =====
-- What `checkout` hands out, and what it leaves.
use mathlib.Core.List.{perm_append_singleton}
use mathlib.Core.List.Perm
use mathlib.Core.List.{Perm}
use zipfs.Base.{
  ℕ, zero, suc, ◌+◌, ◌≤◌, ◌<◌, ◌≡◌, refl, sym, ap, subst, ◌∙◌, Bool, true, false, Option, none,
  some, List, [], ◌∷◌, ◌++◌, ◌==◌, ==_iff, length, get_elem?, set, take, Bool-cases, eq_of_some,
  inl, inr, arith, get_elem?-take, length-take, length-set, lt-length_of_get_elem?,
}
use zipfs.Codec.{Codec, Flate, ZstdRaw, codec}
use zipfs.Stream.{ByteSource}
use zipfs.Decode.{Crc, PositionedDecoder, reinit}
use zipfs.Decode
use zipfs.Pool.{EntryPool, DecoderBudget, last_or, swap_remove, choose, release_retain}
use zipfs.Pool.Exchange.{Decoder, Pool, Budget, taken, pick, checkout_picked, checkout, take_core}
use zipfs.Pool.Choice.{Reaches, Chosen, choose-Chosen}

module _ {A : Type 0} where
  -- Every vector with an element is what stands before its last element, and that.
  take-last : (x : A) (xs : List A) → take (length xs) (x ∷ xs) ++ last_or x xs ∷ [] ≡ x ∷ xs
  unfolding last_or
  take-last x [] = refl
  take-last x (y ∷ xs) = ap (◌∷◌ x) (take-last y xs)

  set-perm :
      (front : List A) (i : ℕ) (a l : A)
      → get_elem? front i ≡ some a
      → Perm (front ++ l ∷ []) (a ∷ set front i l)
  set-perm [] i a l h = absurd (ground arith)
  set-perm (x ∷ front) zero a l h =
      Perm.trans (perm_append_singleton l (x ∷ front))
        (subst (λ b. Perm (l ∷ x ∷ front) (b ∷ l ∷ front)) (eq_of_some h) (Perm.swap x l front))
  set-perm (x ∷ front) (suc i) a l h =
      Perm.trans (Perm.cons x (set-perm front i a l h)) (Perm.swap a x _)

  get_elem?-last : (x : A) (xs : List A) → get_elem? (x ∷ xs) (length xs) ≡ some (last_or x xs)
  unfolding last_or
  get_elem?-last x [] = refl
  get_elem?-last x (y ∷ xs) = get_elem?-last y xs

  -- `swap_remove` takes out the element at the index, and no other.
  pub swap_remove-perm :
      (i : ℕ) (xs : List A) (a : A) → get_elem? xs i ≡ some a → Perm xs (a ∷ swap_remove i xs)
  unfolding swap_remove
  swap_remove-perm i [] a h = absurd (ground arith)
  swap_remove-perm i (x ∷ xs) a h = elim (Bool-cases (i == length xs)) [
    | inl e ↦
        let last : last_or x xs ≡ a =
          eq_of_some
            (sym (get_elem?-last x xs) ∙ ap (get_elem? (x ∷ xs)) (sym ((==_iff _ _).0 e)) ∙ h) in
        simp e (
          subst (λ l. Perm l (a ∷ front)) (take-last x xs)
            (subst (λ b. Perm (front ++ last_or x xs ∷ []) (b ∷ front)) last
              (perm_append_singleton (last_or x xs) front)))
    | inr e ↦
        let inside : i < length xs = ground (arith, lt-length_of_get_elem? (x ∷ xs) i a h) in
        simp e (
          subst (λ l. Perm l (a ∷ set front i (last_or x xs))) (take-last x xs)
            (set-perm front i a (last_or x xs) (get_elem?-take (length xs) i (x ∷ xs) inside ∙ h)))
  ]
    where
      front : List A
      front = take (length xs) (x ∷ xs)

  -- `swap_remove` takes out one element.
  pub length-swap_remove :
      (i : ℕ) (xs : List A) → i < length xs → length (swap_remove i xs) + 1 ≡ length xs
  unfolding swap_remove
  length-swap_remove i [] h = absurd (omega arith)
  length-swap_remove i (x ∷ xs) h = elim (Bool-cases (i == length xs)) [
    | inl e ↦ simp e (omega (arith, length-take (length xs) (x ∷ xs)))
    | inr e ↦ simp e (
        omega (
          arith,
          length-set (take (length xs) (x ∷ xs)) i (last_or x xs),
          length-take (length xs) (x ∷ xs),
        ))
  ]

module _ {D Z S E K : Type 0} (flate : Flate D) (raw : ZstdRaw Z) (source : ByteSource S E)
    (crc : Crc K) where
  abbrev pub Handed : Type 0
  Handed = Decoder flate raw source crc

  -- Where the decoder handed out comes from: an idle one as it stands, an idle one rewound to the
  -- pool's location, or one made new at that location because none is idle. An idle one leaves the
  -- list, and gives up its slot in the budget.
  pub data From (pool : EntryPool (Codec D Z) S K) (b : DecoderBudget (Codec D Z))
      : Handed → EntryPool (Codec D Z) S K → DecoderBudget (Codec D Z) → Type 0 where
    from_idle :
        (d : Handed) (rest : List Handed)
        → Perm pool.idle (d ∷ rest)
        → From pool b d (record pool { idle = rest }) (release_retain b)
    from_rewound :
        (d : Handed) (rest : List Handed)
        → Perm pool.idle (d ∷ rest)
        → From pool b
            (reinit (codec flate raw) source crc pool.loc d)
            (record pool { idle = rest })
            (release_retain b)
    from_new :
        pool.idle ≡ []
        → From pool b
            (Decode.new
              (codec flate raw)
              source
              crc
              pool.loc
              (take_core flate raw source crc pool.loc.method b).0
              b.verify)
            pool
            (take_core flate raw source crc pool.loc.method b).1

  -- What `checkout` promises of its answer.
  abbrev pub Served :
      ℕ
      → EntryPool (Codec D Z) S K
      → DecoderBudget (Codec D Z)
      → Handed × EntryPool (Codec D Z) S K × DecoderBudget (Codec D Z)
      → Type 0
  Served offset pool b (d, pool', b') =
      Reaches offset d
      × ((j : ℕ) (e : Handed) → get_elem? pool.idle j ≡ some e → Reaches offset e → e.pos ≤ d.pos)
      × From pool b d pool' b'

  picked-Served :
      (offset : ℕ) (pool : EntryPool (Codec D Z) S K) (b : DecoderBudget (Codec D Z))
      (choice : Option (ℕ × Bool))
      → Chosen offset pool.idle choice
      → Served offset pool b (
          checkout_picked flate raw source crc pool b (taken flate raw source crc pool.idle choice))
  unfolding checkout_picked taken reinit Decode.new
  picked-Served offset pool b none none_idle = (
    (omega arith, refl),
    λ j e h r. absurd (ground (arith, subst (λ l. get_elem? l j ≡ some e) none_idle h)),
    from_new none_idle,
  )
  picked-Served offset pool b (some (i, false)) (d, at, reaches, best) = rw at (
    reaches refl,
    (λ j e h r. (best j e h r).1),
    from_idle d (swap_remove i pool.idle) (swap_remove-perm i pool.idle d at),
  )
  picked-Served offset pool b (some (i, true)) (d, at, reaches, best) = rw at (
    (omega arith, refl),
    (λ j e h r. absurd (cc (best j e h r).0)),
    from_rewound d (swap_remove i pool.idle) (swap_remove-perm i pool.idle d at),
  )

  -- `checkout` hands out a decoder that reaches the offset without going back, that has not reached
  -- the end of its stream, and to which no idle decoder that reaches the offset is nearer. It is an
  -- idle one, which leaves the list and gives up its slot, such a one rewound, or, if none is idle, a
  -- new one.
  pub checkout-Served :
      (offset : ℕ) (pool : Pool flate raw source crc) (b : Budget flate raw source crc)
      → Served offset pool b (checkout flate raw source crc offset pool b)
  unfolding checkout pick
  checkout-Served offset pool b =
      picked-Served offset pool b (choose offset pool.idle) (choose-Chosen offset pool.idle)
