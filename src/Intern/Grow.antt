-- ===== src/Intern/Grow.antt =====
-- `grow` puts every node of the table into one of twice the size.
use zipfs.Base.{
  ℕ, zero, suc, ◌+◌, ◌-◌, ◌*◌, ◌^◌, ◌≤◌, ◌<◌, ◌≡◌, ◌↔◌, ◌⊎◌, refl, sym, ap, subst, ◌∙◌, inl, inr,
  some, eq_of_some, List, [], ◌∷◌, length, replicate, length-replicate, arith,
}
use native.Mathlib.Nat.{pow-suc}
use zipfs.Base.Bytes.{Bytes}
use zipfs.Base.Word.{u32_mod}
use zipfs.Intern.{TmpNode, Interner, place_slot, place_all, grow}
use zipfs.Intern.Held.{Key, Stored, count, key_of, IsHashed, IsTable}
use zipfs.Intern.Find.{free_slot}
use zipfs.Intern.Extend.{Extended, place-Extended}

-- The node is in one of the slots.
abbrev pub Holds : List ℕ → ℕ → Type 0
Holds slots x = (j : ℕ) × Stored slots j x

pub replicate-free : (n j x : ℕ) → Stored (replicate n 0) j x → ⊥
replicate-free zero j x h = cc h
replicate-free (suc n) zero x h = cc (eq_of_some h)
replicate-free (suc n) (suc j) x h = replicate-free n j x h

Holds-free : (n : ℕ) (old : List ℕ) (x : ℕ) → Holds (replicate n 0) x ⊎ Holds old x → Holds old x
Holds-free n old x (inl (j, s)) = absurd (replicate-free n j x s)
Holds-free n old x (inr h) = h

pub count-replicate : (n : ℕ) → count (replicate n 0) ≡ 0
count-replicate zero = refl
count-replicate (suc n) = count-replicate n

pub Extended-Holds :
    (a b : List ℕ) (id : ℕ) → Extended a b id → (x : ℕ) → Holds b x ↔ (Holds a x ⊎ (x ≡ id))
Extended-Holds a b id ext x = (
  λ (j, s). elim (ext.only j x s) [ inl o ↦ inl (j, o) | inr (_, e) ↦ inr e ],
  λ o. elim o [
    | inl (j, s) ↦ (j, ext.kept j x s)
    | inr e ↦ (ext.slot, subst (Stored b ext.slot) (sym e) ext.added)
  ],
)

-- `out` has the nodes of the slots and of what was left of the old ones.
abbrev Moves : List ℕ → List ℕ → List ℕ → ℕ → Type 0
Moves out slots old x = Holds out x ↔ (Holds slots x ⊎ Holds old x)

Moves-zero :
    (out slots old : List ℕ) (x : ℕ) → Moves out slots old x → Moves out slots (zero ∷ old) x
Moves-zero out slots old x (to, of) = (
  λ h. elim (to h) [ inl s ↦ inl s | inr (j, s) ↦ inr (suc j, s) ],
  λ o. elim o [ inl s ↦ of (inl s) | inr (j, s) ↦ of (inr (behind j s)) ],
)
  where
    behind : (j : ℕ) → Stored (zero ∷ old) j x → Holds old x
    behind zero s = absurd (cc (eq_of_some s))
    behind (suc j) s = (j, s)

Moves-suc :
    (out slots slots₁ old : List ℕ) (id x : ℕ)
    → Extended slots slots₁ id
    → Moves out slots₁ old x
    → Moves out slots (suc id ∷ old) x
Moves-suc out slots slots₁ old id x ext (to, of) = (
  λ h. elim (to h) [
    | inl s ↦ elim (placed.0 s) [
      | inl o ↦ inl o
      | inr e ↦ inr (subst (Holds (suc id ∷ old)) (sym e) (zero, refl))
    ]
    | inr (j, s) ↦ inr (suc j, s)
  ],
  λ o. elim o [ inl s ↦ of (inl (placed.1 (inl s))) | inr (j, s) ↦ behind j s ],
)
  where
    placed : Holds slots₁ x ↔ (Holds slots x ⊎ (x ≡ id))
    placed = Extended-Holds slots slots₁ id ext x

    behind : (j : ℕ) → Stored (suc id ∷ old) j x → Holds out x
    behind zero s = let e : x ≡ id = omega (arith, eq_of_some s) in of (inl (placed.1 (inr e)))
    behind (suc j) s = of (inr (j, s))

module _ (nodes : List TmpNode) (names : Bytes) where
  pub replicate-IsHashed : (k : ℕ) → IsHashed nodes names k (replicate (2 ^ k) 0)
  replicate-IsHashed k = record {
    size = length-replicate (2 ^ k) 0;
    placed = λ j id s. absurd (replicate-free (2 ^ k) j id s);
    unique = λ i j x y key s t p q. absurd (replicate-free (2 ^ k) i x s);
  }

  -- What is left of the old slots can go into `slots`.
  record CanMove (slots old : List ℕ) : Type 0 where
    has_key : (j id : ℕ) → Stored old j id → (key : Key) × (key_of nodes names id ≡ some key)
    is_word : (j id : ℕ) → Stored old j id → suc id < u32_mod
    unique :
        (i j x y : ℕ) (key : Key)
        → Stored old i x
        → Stored old j y
        → key_of nodes names x ≡ some key
        → key_of nodes names y ≡ some key
        → i ≡ j
    apart :
        (i j x y : ℕ) (key : Key)
        → Stored slots i x
        → Stored old j y
        → key_of nodes names x ≡ some key
        → key_of nodes names y ≡ some key
        → ⊥

  CanMove-zero : (slots old : List ℕ) → CanMove slots (zero ∷ old) → CanMove slots old
  CanMove-zero slots old can = record {
    has_key = λ j id s. can.has_key (suc j) id s;
    is_word = λ j id s. can.is_word (suc j) id s;
    unique = λ i j x y key s t p q. suc_inj (can.unique (suc i) (suc j) x y key s t p q);
    apart = λ i j x y key s t p q. can.apart i (suc j) x y key s t p q;
  }
    where
      suc_inj : {i j : ℕ} → suc i ≡ suc j → i ≡ j
      suc_inj h = omega arith

  CanMove-suc :
      (slots slots₁ old : List ℕ) (id : ℕ)
      → CanMove slots (suc id ∷ old)
      → Extended slots slots₁ id
      → CanMove slots₁ old
  CanMove-suc slots slots₁ old id can ext = record {
    has_key = λ j id s. can.has_key (suc j) id s;
    is_word = λ j id s. can.is_word (suc j) id s;
    unique = λ i j x y key s t p q. suc_inj (can.unique (suc i) (suc j) x y key s t p q);
    apart = apart;
  }
    where
      suc_inj : {i j : ℕ} → suc i ≡ suc j → i ≡ j
      suc_inj h = omega arith

      apart :
          (i j x y : ℕ) (key : Key)
          → Stored slots₁ i x
          → Stored old j y
          → key_of nodes names x ≡ some key
          → key_of nodes names y ≡ some key
          → ⊥
      apart i j x y key s t p q = elim (ext.only i x s) [
        | inl o ↦ can.apart i (suc j) x y key o t p q
        | inr (_, e) ↦
            let same : zero ≡ suc j =
              can.unique zero (suc j) id y key refl t (ap (key_of nodes names) (sym e) ∙ p) q in
            cc same
      ]

  -- What `place_all` makes of the old slots.
  record Moved (k : ℕ) (slots old : List ℕ) : Type 0 where
    out : List ℕ
    runs : place_all nodes names slots (2 ^ k - 1) old ≡ some out
    hashed : IsHashed nodes names k out
    counted : count out ≡ count slots + count old
    holds : (x : ℕ) → Holds out x ↔ (Holds slots x ⊎ Holds old x)

  place_all-Moved :
      (k : ℕ) (slots old : List ℕ)
      → IsHashed nodes names k slots
      → CanMove slots old
      → (count slots + count old) * 2 ≤ 2 ^ k
      → Moved k slots old
  unfolding place_all place_slot
  place_all-Moved k slots [] hashed can load = record {
    out = slots;
    runs = refl;
    hashed = hashed;
    counted = omega arith;
    holds = λ x. (λ h. inl h, λ o. elim o [ inl h ↦ h | inr (j, s) ↦ absurd (cc s) ]);
  }
  place_all-Moved k slots (zero ∷ old) hashed can load =
      let rest = place_all-Moved k slots old hashed (CanMove-zero slots old can) load in
      record {
        out = rest.out;
        runs = rest.runs;
        hashed = rest.hashed;
        counted = rest.counted;
        holds = λ x. Moves-zero rest.out slots old x (rest.holds x);
      }
  place_all-Moved k slots (suc id ∷ old) hashed can load =
      let (key, has) = can.has_key zero id refl in
      let half : count slots * 2 ≤ length slots = omega (arith, load, hashed.size) in
      let (free, lt, e) = free_slot slots k hashed.size half in
      let (slots₁, runs, ext, hashed₁) =
        place-Extended nodes names k slots hashed id key has (can.is_word zero id refl) free lt e
          (λ j x s p. can.apart j zero x id key s refl p has) in
      let rest =
        place_all-Moved k slots₁ old hashed₁ (CanMove-suc slots slots₁ old id can ext)
          (omega (arith, load, ext.grown)) in
      record {
        out = rest.out;
        runs = rw runs rest.runs;
        hashed = rest.hashed;
        counted = omega (arith, rest.counted, ext.grown);
        holds = λ x. Moves-suc rest.out slots slots₁ old id x ext (rest.holds x);
      }

  IsTable-CanMove :
      (t : Interner) (k : ℕ)
      → IsHashed nodes names k t.slots
      → CanMove (replicate (2 ^ suc k) 0) t.slots
  IsTable-CanMove t k hashed = record {
    has_key = λ j id s. let p = hashed.placed j id s in (p.key, p.has_key);
    is_word = λ j id s. let p = hashed.placed j id s in p.is_word;
    unique = hashed.unique;
    apart = λ i j x y key s t p q. absurd (replicate-free (2 ^ suc k) i x s);
  }

  -- The table has the same nodes, in twice as many slots.
  pub grow-IsTable :
      (t : Interner)
      → IsTable nodes names t
      → (t₁ : Interner) × (grow nodes names t ≡ some t₁)
        × IsTable nodes names t₁
        × (t₁.len ≡ t.len)
        × (length t₁.slots ≡ length t.slots * 2)
        × ((x : ℕ) → Holds t₁.slots x ↔ Holds t.slots x)
  unfolding grow
  grow-IsTable t table =
      let k = table.power in
      let twice : 2 ^ suc k ≡ length t.slots * 2 = omega (arith, pow-suc 2 k, table.hashed.size) in
      let none_yet = count-replicate (2 ^ suc k) in
      let moved =
        place_all-Moved (suc k) (replicate (2 ^ suc k) 0) t.slots (replicate-IsHashed (suc k))
          (IsTable-CanMove t k table.hashed)
          (omega (arith, none_yet, table.used, table.load, twice)) in
      let t₁ : Interner = record t { slots = moved.out; mask = 2 ^ suc k - 1 } in
      let runs : place_all nodes names (replicate (length t.slots * 2) 0) (length t.slots * 2 - 1)
            t.slots
          ≡ some moved.out =
        subst (λ n. place_all nodes names (replicate n 0) (n - 1) t.slots ≡ some moved.out) twice
          moved.runs in
      let table₁ : IsTable nodes names t₁ = record {
        power = suc k;
        hashed = moved.hashed;
        mask = refl;
        used = omega (arith, moved.counted, none_yet, table.used);
        load = omega (arith, moved.hashed.size, twice, table.load);
      } in
      (
        t₁,
        rw runs (ap (λ n. some (record t { slots = moved.out; mask = n - 1 })) (sym twice)),
        table₁,
        refl,
        moved.hashed.size ∙ twice,
        λ x. (
          λ h. Holds-free (2 ^ suc k) t.slots x ((moved.holds x).0 h),
          λ h. (moved.holds x).1 (inr h),
        ),
      )
