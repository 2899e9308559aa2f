-- ===== src/Intern/Extend.antt =====
-- `place` puts a node into the first free slot of its probe.
use zipfs.Base.{
  ℕ, zero, suc, ◌+◌, ◌-◌, ◌%◌, ◌^◌, ◌<◌, ◌≡◌, ◌⊎◌, refl, sym, ap, subst, ◌∙◌, inl, inr, Bool, true,
  false, Bool-cases, Option, none, some, List, [], ◌∷◌, length, length-set, get_elem?, set,
  get_elem?-set_same, get_elem?-set_other, ◌==◌, ==_iff, arith,
}
use zipfs.Base.Bytes.{Bytes}
use zipfs.Base.Word.{u32_mod}
use zipfs.Intern.{TmpNode, hash_key, probe_until, is_free, place_at, home_of, place}
use zipfs.Intern.Probes.{probe, bucket_lt, probe_lt, probe-reaches, search_below, probe_until-first}
use zipfs.Intern.Held.{Key, home, Stored, count, key_of, key_of-some, Placed, IsHashed}
use zipfs.Intern.Find.{Found, slot_of}

-- `slots₁` has what `slots` has, and `id` in a slot that was free.
pub record Extended (slots slots₁ : List ℕ) (id : ℕ) : Type 0 where
  pub size : length slots₁ ≡ length slots
  pub grown : count slots₁ ≡ suc (count slots)
  pub kept : (j x : ℕ) → Stored slots j x → Stored slots₁ j x
  pub slot : ℕ
  pub added : Stored slots₁ slot id
  pub was_free : get_elem? slots slot ≡ some 0
  pub only : (j x : ℕ) → Stored slots₁ j x → Stored slots j x ⊎ ((j ≡ slot) × (x ≡ id))

count-set :
    (slots : List ℕ) (i id : ℕ)
    → get_elem? slots i ≡ some 0
    → count (set slots i (suc id)) ≡ suc (count slots)
count-set [] i id h = absurd (cc h)
count-set (zero ∷ slots) zero id h = refl
count-set (suc x ∷ slots) zero id h = absurd (ground arith)
count-set (zero ∷ slots) (suc i) id h = count-set slots i id h
count-set (suc x ∷ slots) (suc i) id h = ap suc (count-set slots i id h)

set-Extended :
    (slots : List ℕ) (i id : ℕ)
    → get_elem? slots i ≡ some 0
    → Extended slots (set slots i (suc id)) id
set-Extended slots i id free = record {
  size = length-set slots i (suc id);
  grown = count-set slots i id free;
  kept = λ j x stored. get_elem?-set_other slots i j (suc id) (other j x stored) ∙ stored;
  slot = i;
  added = get_elem?-set_same slots i 0 (suc id) free;
  was_free = free;
  only = only;
}
  where
    other : (j x : ℕ) → Stored slots j x → i ≡ j → ⊥
    other j x stored e =
        let h : some 0 ≡ some (suc x) = sym free ∙ ap (get_elem? slots) e ∙ stored in cc h

    only : (j x : ℕ) → Stored (set slots i (suc id)) j x → Stored slots j x ⊎ ((j ≡ i) × (x ≡ id))
    only j x stored = elim (Bool-cases (i == j)) [
      | inl t ↦
          let e = (==_iff i j).0 t in
          let h : some (suc id) ≡ some (suc x) =
            sym (get_elem?-set_same slots i 0 (suc id) free)
            ∙ ap (get_elem? (set slots i (suc id))) e
            ∙ stored in
          inr (sym e, cc)
      | inr f ↦
          let ne : i ≡ j → ⊥ = λ e. let t = (==_iff i j).1 e in cc in
          inl (sym (get_elem?-set_other slots i j (suc id) ne) ∙ stored)
    ]

module _ (nodes : List TmpNode) (names : Bytes) where
  module _ (k : ℕ) (slots : List ℕ) (hashed : IsHashed nodes names k slots) (id : ℕ) (key : Key)
      (has_key : key_of nodes names id ≡ some key) (is_word : suc id < u32_mod) where
    Extended-IsHashed :
        (slots₁ : List ℕ) (ext : Extended slots slots₁ id) (steps : ℕ)
        → probe k (home k key) steps ≡ ext.slot
        → ((e : ℕ) → e < steps → (x : ℕ) × Stored slots (probe k (home k key) e) x)
        → Found nodes names slots key none
        → IsHashed nodes names k slots₁
    Extended-IsHashed slots₁ ext steps at before fresh = record {
      size = ext.size ∙ hashed.size;
      placed = placed;
      unique = unique;
    }
      where
        placed : (j x : ℕ) → Stored slots₁ j x → Placed nodes names k slots₁ j x
        placed j x stored = elim (ext.only j x stored) [
          | inl old ↦
              let p = hashed.placed j x old in
              record {
                key = p.key;
                has_key = p.has_key;
                is_word = p.is_word;
                steps = p.steps;
                at = p.at;
                before = λ e lt. let (y, s) = p.before e lt in (y, ext.kept _ y s);
              }
          | inr (j_is, x_is) ↦ record {
            key = key;
            has_key = ap (key_of nodes names) x_is ∙ has_key;
            is_word = subst (λ n. suc n < u32_mod) (sym x_is) is_word;
            steps = steps;
            at = at ∙ sym j_is;
            before = λ e lt. let (y, s) = before e lt in (y, ext.kept _ y s);
          }
        ]

        clash :
            (i x y : ℕ) (other : Key)
            → Stored slots i x
            → y ≡ id
            → key_of nodes names x ≡ some other
            → key_of nodes names y ≡ some other
            → ⊥
        clash i x y other s e p q =
            let same : some key ≡ some other = sym has_key ∙ ap (key_of nodes names) (sym e) ∙ q in
            fresh i x s (p ∙ sym same)

        unique :
            (i j x y : ℕ) (other : Key)
            → Stored slots₁ i x
            → Stored slots₁ j y
            → key_of nodes names x ≡ some other
            → key_of nodes names y ≡ some other
            → i ≡ j
        unique i j x y other s t p q = elim (ext.only i x s) [
          | inl s₀ ↦ elim (ext.only j y t) [
            | inl t₀ ↦ hashed.unique i j x y other s₀ t₀ p q
            | inr (_, y_is) ↦ absurd (clash i x y other s₀ y_is p q)
          ]
          | inr (i_is, x_is) ↦ elim (ext.only j y t) [
            | inl t₀ ↦ absurd (clash j y x other t₀ x_is q p)
            | inr (j_is, _) ↦ i_is ∙ sym j_is
          ]
        ]

    -- Whether the loop of `place` ends at a slot.
    abbrev frees : Option ℕ → Bool
    frees none = false
    frees (some slot) = slot == 0

    abbrev at : ℕ → Option ℕ
    at e = get_elem? slots (probe k (home k key) e)

    at-frees : (e : ℕ) → is_free (at e) ≡ some (frees (at e))
    unfolding is_free
    at-frees e =
        let lt : probe k (home k key) e < length slots =
          omega (arith, probe_lt k (home k key) e, hashed.size) in
        let (s, g) = slot_of slots (probe k (home k key) e) lt in
        ap is_free g ∙ sym (ap (λ (o : Option ℕ). some (frees o)) g)

    frees-zero : (o : Option ℕ) → frees o ≡ true → o ≡ some 0
    frees-zero none h = absurd (cc h)
    frees-zero (some slot) h = ap some ((==_iff slot 0).0 h)

    frees-Stored :
        (o : Option ℕ) (s : ℕ) → o ≡ some s → frees o ≡ false → (x : ℕ) × (o ≡ some (suc x))
    frees-Stored none s e h = absurd (cc e)
    frees-Stored (some zero) s e h = absurd (cc h)
    frees-Stored (some (suc x)) s e h = (x, refl)

    place_at-home :
        (m : ℕ)
        → probe_until (λ idx. is_free (get_elem? slots idx)) (2 ^ k - 1) (length slots) (home k key)
          ≡ some (probe k (home k key) m)
        → place nodes names slots (2 ^ k - 1) id
          ≡ some (set slots (probe k (home k key) m) (suc id))
    unfolding place home_of place_at
    place_at-home m stops =
        let (n, e, named, parent) = key_of-some nodes names id key has_key in
        let w : (id + 1) % u32_mod ≡ suc id = omega (arith, is_word) in
        rw (e, named, parent, stops, w) refl

    -- A node whose key no node in the slots has is put into them, if one is free.
    pub place-Extended :
        (free : ℕ)
        → free < 2 ^ k
        → get_elem? slots free ≡ some 0
        → Found nodes names slots key none
        → (slots₁ : List ℕ) × (place nodes names slots (2 ^ k - 1) id ≡ some slots₁)
          × Extended slots slots₁ id
          × IsHashed nodes names k slots₁
    unfolding set-Extended
    place-Extended free lt is_zero fresh =
        let home_lt = bucket_lt k (hash_key key.0 key.1) in
        let (e, e_lt, e_at) = probe-reaches k (home k key) free home_lt lt in
        let hit : frees (at e) ≡ true = ap frees (ap (get_elem? slots) e_at ∙ is_zero) in
        let (m, le, first) = search_below (λ e. frees (at e)) e hit in
        let stops =
          probe_until-first (λ idx. is_free (get_elem? slots idx)) k m (length slots) (home k key)
            (omega (arith, hashed.size)) home_lt (λ e lt. at-frees e ∙ ap some (first.1 e lt))
            (at-frees m ∙ ap some first.0) in
        let ext = set-Extended slots (probe k (home k key) m) id (frees-zero (at m) first.0) in
        let slots₁ = set slots (probe k (home k key) m) (suc id) in
        (
          slots₁,
          place_at-home m stops,
          ext,
          Extended-IsHashed slots₁ ext m refl (λ e lt. before e (first.1 e lt)) fresh,
        )
      where
        before : (e : ℕ) → frees (at e) ≡ false → (x : ℕ) × Stored slots (probe k (home k key) e) x
        before e h =
            let lt : probe k (home k key) e < length slots =
              omega (arith, probe_lt k (home k key) e, hashed.size) in
            let (s, g) = slot_of slots (probe k (home k key) e) lt in frees-Stored (at e) s g h
