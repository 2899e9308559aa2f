-- ===== src/Intern/Find.antt =====
-- `find` answers, with exactly what the table holds.
use zipfs.Base.{
  ℕ, zero, suc, ◌-◌, ◌*◌, ◌^◌, ◌≤◌, ◌<◌, ◌≡◌, refl, sym, ap, subst, ◌∙◌, inl, inr, Bool, true,
  false, ltb, ltb→lt, ltb→le, Bool-cases, Option, none, some, eq_of_some, List, [], ◌∷◌, length,
  get_elem?, lt-length_of_get_elem?, arith,
}
use zipfs.Base.Bytes.{Bytes}
use zipfs.Intern.{TmpNode, Interner, hash_key, answers, answer, find}
use zipfs.Intern.Probes.{
  probe, pow_pos, bucket_lt, probe_lt, probe-reaches, First, search_below, probe_until-first,
}
use zipfs.Intern.Held.{
  Key, home, Stored, count, count_free, key_of, IsHashed, IsTable, eq_key, eq_key_iff,
  same_key-key_of,
}

-- A slot within bounds has a value.
pub slot_of : (slots : List ℕ) (j : ℕ) → j < length slots → (s : ℕ) × (get_elem? slots j ≡ some s)
slot_of [] j h = absurd (omega arith)
slot_of (s ∷ slots) zero h = (s, refl)
slot_of (s ∷ slots) (suc j) h = slot_of slots j (omega arith)

-- A table that is at most half full has a free slot.
pub free_slot :
    (slots : List ℕ) (k : ℕ)
    → length slots ≡ 2 ^ k
    → count slots * 2 ≤ length slots
    → (j : ℕ) × (j < 2 ^ k) × (get_elem? slots j ≡ some 0)
free_slot slots k size load =
    let (j, e) = count_free slots (omega (arith, pow_pos k)) in
    (j, omega (arith, lt-length_of_get_elem? slots j 0 e), e)

module _ (nodes : List TmpNode) (names : Bytes) where
  -- What `find` answers about a key: the node in the table that has it, or that none has.
  abbrev pub Found : List ℕ → Key → Option ℕ → Type 0
  Found slots sought none = (j id : ℕ) → Stored slots j id → key_of nodes names id ≡ some sought → ⊥
  Found slots sought (some id) = (j : ℕ) × Stored slots j id × (key_of nodes names id ≡ some sought)

  abbrev fits : Key → Option Key → Bool
  fits sought none = false
  fits sought (some key) = eq_key key sought

  -- Whether the loop of `find` returns at a slot.
  abbrev returns : Key → Option ℕ → Bool
  returns sought none = false
  returns sought (some zero) = true
  returns sought (some (suc id)) = fits sought (key_of nodes names id)

  module _ (k : ℕ) (slots : List ℕ) (hashed : IsHashed nodes names k slots) (sought : Key) where
    answers-returns :
        (j s : ℕ)
        → get_elem? slots j ≡ some s
        → answers nodes names sought.0 sought.1 (some s) ≡ some (returns sought (some s))
    unfolding answers
    answers-returns j zero e = refl
    answers-returns j (suc id) e =
        let p = hashed.placed j id e in
        same_key-key_of nodes names id p.key sought p.has_key
        ∙ sym (ap (λ (o : Option Key). some (fits sought o)) p.has_key)

    abbrev at : ℕ → Option ℕ
    at e = get_elem? slots (probe k (home k sought) e)

    at-returns :
        (e : ℕ) → answers nodes names sought.0 sought.1 (at e) ≡ some (returns sought (at e))
    at-returns e =
        let lt : probe k (home k sought) e < length slots =
          omega (arith, probe_lt k (home k sought) e, hashed.size) in
        let (s, g) = slot_of slots (probe k (home k sought) e) lt in
        ap (answers nodes names sought.0 sought.1) g
        ∙ answers-returns (probe k (home k sought) e) s g
        ∙ sym (ap (λ (o : Option ℕ). some (returns sought o)) g)

    -- The way of the probe to a node with the key.
    abbrev Way : ℕ → Key → Type 0
    Way j key =
        (steps : ℕ) × (probe k (home k key) steps ≡ j)
        × ((e : ℕ) → e < steps → (x : ℕ) × Stored slots (probe k (home k key) e) x)

    reached_by : (j id : ℕ) → Stored slots j id → key_of nodes names id ≡ some sought → Way j sought
    reached_by j id stored has =
        let p = hashed.placed j id stored in
        subst (Way j) (eq_of_some (sym p.has_key ∙ has)) (p.steps, p.at, p.before)

    -- Nothing with the key lies behind a free slot to which the probe came.
    none-Found :
        (m : ℕ) → First (λ e. returns sought (at e)) m → at m ≡ some 0 → Found slots sought none
    none-Found m (_, before) free j id stored has =
        let (steps, way, full) = reached_by j id stored has in
        let there : at steps ≡ some (suc id) = ap (get_elem? slots) way ∙ stored in
        elim (Bool-cases (ltb steps m)) [
          | inl t ↦
              let fit : fits sought (some sought) ≡ true = (eq_key_iff sought sought).1 refl in
              let yes_there : returns sought (at steps) ≡ true =
                ap (returns sought) there ∙ ap (fits sought) has ∙ fit in
              let not_there = before steps (ltb→lt steps m t) in cc
          | inr f ↦ elim (Bool-cases (ltb m steps)) [
            | inl t ↦ let (x, g) = full m (ltb→lt m steps t) in cc
            | inr g ↦
                let same : m ≡ steps = omega (arith, ltb→le steps m f, ltb→le m steps g) in
                let here : at m ≡ some (suc id) = ap at same ∙ there in cc
          ]
        ]

    -- The answer at a slot where the loop returns.
    answer-Found :
        (m : ℕ) (s : Option ℕ)
        → First (λ e. returns sought (at e)) m
        → at m ≡ s
        → (r : Option ℕ) × (answer s ≡ some r) × Found slots sought r
    unfolding answer
    answer-Found m none (hit, _) e = absurd (let h = sym (ap (returns sought) e) ∙ hit in cc)
    answer-Found m (some zero) first e = (none, refl, none-Found m first e)
    answer-Found m (some (suc id)) (hit, _) e =
        let h = sym (ap (returns sought) e) ∙ hit in
        let p = hashed.placed (probe k (home k sought) m) id e in
        let same = (eq_key_iff p.key sought).0 (sym (ap (fits sought) p.has_key) ∙ h) in
        (some id, refl, (probe k (home k sought) m, e, p.has_key ∙ ap some same))

    find-Found_in :
        (free : ℕ)
        → free < 2 ^ k
        → get_elem? slots free ≡ some 0
        → (t : Interner) → t.slots ≡ slots
        → t.mask ≡ 2 ^ k - 1
        → (r : Option ℕ) × (find nodes names t sought.0 sought.1 ≡ some r) × Found slots sought r
    unfolding find
    find-Found_in free lt is_free t same mask =
        let (e, e_lt, e_at) =
          probe-reaches k (home k sought) free (bucket_lt k (hash_key sought.0 sought.1)) lt in
        let hit : returns sought (at e) ≡ true =
          ap (returns sought) (ap (get_elem? slots) e_at ∙ is_free) in
        let (m, le, first) = search_below (λ e. returns sought (at e)) e hit in
        let stops =
          probe_until-first (λ idx. answers nodes names sought.0 sought.1 (get_elem? slots idx)) k m
            (length slots) (home k sought) (omega (arith, hashed.size))
            (bucket_lt k (hash_key sought.0 sought.1))
            (λ e lt. at-returns e ∙ ap some (first.1 e lt)) (at-returns m ∙ ap some first.0) in
        let (r, g, found) = answer-Found m (at m) first refl in (r, rw (same, mask, stops) g, found)

  -- `find` always answers: with a node of the table that has the parent and the name, or with none,
  -- and then no node of the table has them.
  pub find-Found :
      (t : Interner) (parent : ℕ) (name : Bytes)
      → IsTable nodes names t
      → (r : Option ℕ) × (find nodes names t parent name ≡ some r) × Found t.slots (parent, name) r
  find-Found t parent name table =
      let load : count t.slots * 2 ≤ length t.slots = omega (arith, table.load, table.used) in
      let (free, lt, e) = free_slot t.slots table.power table.hashed.size load in
      find-Found_in table.power t.slots table.hashed (parent, name) free lt e t refl table.mask
