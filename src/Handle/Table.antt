-- ===== src/Handle/Table.antt =====
-- Handles are not used again: what the table promises, over every sequence of calls.
use zipfs.Base.{
  ℕ, suc, ◌+◌, ◌≤◌, ◌<◌, ◌≡◌, refl, ap, subst, ◌∙◌, Bool, true, false, Option, none, some, List, [],
  ◌∷◌, ◌==◌, ==_iff, if◌then◌else◌, length, Bool-cases, inl, inr, arith,
}
use zipfs.Base.Word.{u64_mod, add64, add64_exact}
use zipfs.Handle.{HandleTable, new_table, insert, get, remove, remove_key, find_key}

-- What `open` and `release` do to the table.
pub data Call (F : Type 0) : Type 0 where
  inserts : F → Call F
  removes : ℕ → Call F

module _ {F : Type 0} where
  pub step : Call F → HandleTable F → HandleTable F
  step (inserts file) t = (insert file t).1
  step (removes fh) t = (remove fh t).1

  pub run : List (Call F) → HandleTable F → HandleTable F
  run [] t = t
  run (c ∷ cs) t = run cs (step c t)

  -- The file that a handle is open on, from the calls made since it was given out: it stays until it
  -- is removed.
  abbrev pub opened : ℕ → List (Call F) → Bool
  opened fh [] = true
  opened fh (inserts file ∷ cs) = opened fh cs
  opened fh (removes k ∷ cs) = if k == fh then false else opened fh cs

  find_key-remove_key_same : (fh : ℕ) (map : List (ℕ × F)) → find_key fh (remove_key fh map) ≡ none
  unfolding find_key remove_key
  find_key-remove_key_same fh [] = refl
  find_key-remove_key_same fh ((k, f) ∷ map) = elim (Bool-cases (k == fh)) [
    | inl e ↦ rw e (find_key-remove_key_same fh map)
    | inr e ↦ rw (e, e) (find_key-remove_key_same fh map)
  ]

  find_key-remove_key_other :
      (fh k : ℕ) (map : List (ℕ × F))
      → (k == fh) ≡ false
      → find_key fh (remove_key k map) ≡ find_key fh map
  unfolding find_key remove_key
  find_key-remove_key_other fh k [] h = refl
  find_key-remove_key_other fh k ((j, f) ∷ map) h =
      let rest = find_key-remove_key_other fh k map h in ground (arith, rest)

  abbrev AllBelow : ℕ → List (ℕ × F) → Type 0
  AllBelow n [] = Unit {0}
  AllBelow n ((k, f) ∷ map) = (k < n) × AllBelow n map

  AllBelow-le : (m n : ℕ) (map : List (ℕ × F)) → m ≤ n → AllBelow m map → AllBelow n map
  AllBelow-le m n [] h g = tt
  AllBelow-le m n ((k, f) ∷ map) h g = (omega (arith, g.0), AllBelow-le m n map h g.1)

  AllBelow-remove_key :
      (n fh : ℕ) (map : List (ℕ × F)) → AllBelow n map → AllBelow n (remove_key fh map)
  unfolding remove_key
  AllBelow-remove_key n fh [] h = tt
  AllBelow-remove_key n fh ((k, f) ∷ map) h = elim (Bool-cases (k == fh)) [
    | inl e ↦ rw e (AllBelow-remove_key n fh map h.1)
    | inr e ↦ rw e (h.0, AllBelow-remove_key n fh map h.1)
  ]

  find_key-AllBelow :
      (n fh : ℕ) (map : List (ℕ × F)) → AllBelow n map → n ≤ fh → find_key fh map ≡ none
  unfolding find_key
  find_key-AllBelow n fh [] h g = refl
  find_key-AllBelow n fh ((k, f) ∷ map) h g =
      let rest = find_key-AllBelow n fh map h.1 g in ground (arith, rest, h.0)

  -- The next handle is above every handle in the table and above zero, and `left` more fit.
  pub record IsFresh (left : ℕ) (t : HandleTable F) : Type 0 where
    pub below : AllBelow t.next t.map
    pub positive : 0 < t.next
    pub room : t.next + left < u64_mod

  step-IsFresh :
      (left : ℕ) (c : Call F) (t : HandleTable F) → IsFresh (suc left) t → IsFresh left (step c t)
  unfolding step insert remove
  step-IsFresh left (inserts file) t h =
      let e = add64_exact t.next 1 (omega (arith, h.room)) in
      record {
        below = (
          omega (arith, e),
          AllBelow-le t.next (add64 t.next 1) _ (omega (arith, e))
              (AllBelow-remove_key t.next t.next t.map h.below),
        );
        positive = omega (arith, e);
        room = omega (arith, e, h.room);
      }
  step-IsFresh left (removes fh) t h = record {
    below = AllBelow-remove_key t.next fh t.map h.below;
    positive = h.positive;
    room = omega (arith, h.room);
  }

  run-IsFresh :
      (left : ℕ) (cs : List (Call F)) (t : HandleTable F)
      → IsFresh (length cs + left) t
      → IsFresh left (run cs t)
  unfolding run
  run-IsFresh left [] t h = record {
    below = h.below;
    positive = h.positive;
    room = omega (arith, h.room);
  }
  run-IsFresh left (c ∷ cs) t h = run-IsFresh left cs (step c t) (
      step-IsFresh (length cs + left) c t
        (record { below = h.below; positive = h.positive; room = omega (arith, h.room) }))

  new_table-IsFresh : (left : ℕ) → left + 1 < u64_mod → IsFresh left (new_table {F = F})
  unfolding new_table
  new_table-IsFresh left h = record { below = tt; positive = omega arith; room = omega (arith, h) }

  step-IsFresh_left :
      (cs : List (Call F)) (left : ℕ) (c : Call F) (t : HandleTable F)
      → IsFresh (length (c ∷ cs) + left) t
      → IsFresh (length cs + left) (step c t)
  step-IsFresh_left cs left c t h =
      step-IsFresh (length cs + left) c t
        (record { below = h.below; positive = h.positive; room = omega (arith, h.room) })

  get-insert_other :
      (file : F) (t : HandleTable F) (fh : ℕ)
      → fh < t.next
      → get fh (step (inserts file) t) ≡ get fh t
  unfolding step insert get
  get-insert_other file t fh h =
      let other : (t.next == fh) ≡ false = ground arith in
      let same = find_key-remove_key_other fh t.next t.map other in ground (arith, same)

  get-remove_same :
      (k fh : ℕ) (t : HandleTable F) → (k == fh) ≡ true → get fh (step (removes k) t) ≡ none
  unfolding step remove get
  get-remove_same k fh t h =
      subst (λ n. find_key n (remove_key k t.map) ≡ none) ((==_iff k fh).0 h)
        (find_key-remove_key_same k t.map)

  if_none : (b : Bool) (o : Option F) → o ≡ none → (if b then o else none) ≡ none
  if_none true o h = h
  if_none false o h = refl

  -- A handle in the table below the next one is left alone by every call but its own removal.
  get-run :
      (cs : List (Call F)) (t : HandleTable F) (fh left : ℕ)
      → IsFresh (length cs + left) t
      → fh < t.next
      → get fh (run cs t) ≡ (if opened fh cs then get fh t else none)
  unfolding run get step insert remove
  get-run [] t fh left h g = refl
  get-run (inserts file ∷ cs) t fh left h g =
      let fresh = step-IsFresh_left cs left (inserts file) t h in
      let e = add64_exact t.next 1 (omega (arith, h.room)) in
      get-run cs (step (inserts file) t) fh left fresh (omega (arith, e))
      ∙ ap (λ o. if opened fh cs then o else none) (get-insert_other file t fh g)
  get-run (removes k ∷ cs) t fh left h g =
      let fresh = step-IsFresh_left cs left (removes k) t h in
      let rest = get-run cs (step (removes k) t) fh left fresh g in
      elim (Bool-cases (k == fh)) [
        | inl e ↦ simp e (rest ∙ if_none (opened fh cs) _ (get-remove_same k fh t e))
        | inr e ↦ simp e (
            rest
            ∙ ap (λ o. if opened fh cs then o else none) (find_key-remove_key_other fh k t.map e))
      ]

  -- From the empty table on, with fewer than `2 ^ 64 - 2` calls: the next file opened gets a handle
  -- that is not zero and that no open file has; and over the calls that follow, that handle gives
  -- that file until it is removed, and nothing from then on.
  pub get-insert :
      (before after : List (Call F)) (file : F)
      → length before + length after + 2 < u64_mod
      → let t = run before new_table in
        let (fh, u) = insert file t in
        (0 < fh)
        × (get fh t ≡ none)
        × (get fh (run after u) ≡ (if opened fh after then some file else none))
  unfolding insert get step
  get-insert before after file h =
      let f =
        run-IsFresh (length after + 1) before new_table (new_table-IsFresh _ (omega (arith, h))) in
      let t = run before new_table in
      let e = add64_exact t.next 1 (omega (arith, f.room)) in
      (
        f.positive,
        find_key-AllBelow t.next t.next t.map f.below (omega arith),
        get-run after (insert file t).1 t.next 0
              (step-IsFresh (length after + 0) (inserts file) t
                (record { below = f.below; positive = f.positive; room = omega (arith, f.room) }))
              (omega (arith, e))
            ∙ ap (λ o. if opened t.next after then o else none) (found t),
      )
    where
      found : (t : HandleTable F) → get t.next (insert file t).1 ≡ some file
      found t = ground arith
