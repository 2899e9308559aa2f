-- ===== src/Intern/Insert.antt =====
-- `insert` adds a node to what the table holds.
use zipfs.Base.{
  ℕ, zero, suc, ◌+◌, ◌*◌, ◌^◌, ◌≤◌, ◌<◌, ◌≡◌, ◌↔◌, ◌⊎◌, refl, sym, subst, inl, inr, Bool-cases, ltb,
  ltb→le, none, some, List, length, leb, max, arith,
}
use native.Mathlib.Nat.{pow-suc}
use zipfs.Base.Bytes.{Bytes}
use zipfs.Base.Word.{u32_mod}
use zipfs.Intern.{
  TmpNode, Interner, place, grow_if_full, insert, power_from, empty_of, with_capacity,
}
use zipfs.Intern.Probes.{pow_pos}
use zipfs.Intern.Held.{Key, count, key_of, IsTable}
use zipfs.Intern.Find.{Found, free_slot}
use zipfs.Intern.Extend.{place-Extended}
use zipfs.Intern.Grow.{
  Holds, Extended-Holds, replicate-IsHashed, replicate-free, count-replicate, grow-IsTable,
}

power_from-power : (fuel k n : ℕ) → (j : ℕ) × (power_from fuel (2 ^ k) n ≡ 2 ^ j)
unfolding power_from
power_from-power zero k n = (k, refl)
power_from-power (suc fuel) k n = elim (Bool-cases (leb n (2 ^ k))) [
  | inl t ↦ (k, rw t refl)
  | inr f ↦
      let (j, e) = power_from-power fuel (suc k) n in
      let p : 2 ^ suc k ≡ 2 * 2 ^ k = omega (arith, pow-suc 2 k) in (j, rw (f, sym p) e)
]

-- What holds of one side of a choice, put in its place.
iff_inl : {A B C D : Type 0} → A ↔ (B ⊎ C) → B ↔ D → A ↔ (D ⊎ C)
iff_inl (to, of) (on, back) = (
  λ a. elim (to a) [ inl b ↦ inl (on b) | inr c ↦ inr c ],
  λ o. elim o [ inl d ↦ of (inl (back d)) | inr c ↦ of (inr c) ],
)

module _ (nodes : List TmpNode) (names : Bytes) where
  empty_of-IsTable : (k : ℕ) → IsTable nodes names (empty_of (2 ^ k))
  unfolding empty_of
  empty_of-IsTable k = record {
    power = k;
    hashed = replicate-IsHashed nodes names k;
    mask = refl;
    used = count-replicate (2 ^ k);
    load = omega arith;
  }

  -- The new interner is a table that holds nothing.
  pub with_capacity-IsTable :
      (cap : ℕ)
      → IsTable nodes names (with_capacity cap) × ((x : ℕ) → Holds (with_capacity cap).slots x → ⊥)
  unfolding with_capacity empty_of
  with_capacity-IsTable cap =
      let (k, e) = power_from-power 64 0 (max cap 16 * 2) in
      (
        subst (λ n. IsTable nodes names (empty_of n)) (sym e) (empty_of-IsTable k),
        λ x (j, s). replicate-free (power_from 64 1 (max cap 16 * 2)) j x s,
      )

  -- A table with the same nodes and with room for one more.
  record Roomy (t t₁ : Interner) : Type 0 where
    table : IsTable nodes names t₁
    room : (t₁.len + 1) * 2 ≤ length t₁.slots
    same : (x : ℕ) → Holds t₁.slots x ↔ Holds t.slots x

  grow_if_full-Roomy :
      (t : Interner)
      → IsTable nodes names t
      → (t₁ : Interner) × (grow_if_full nodes names t ≡ some t₁) × Roomy t t₁
  unfolding grow_if_full
  grow_if_full-Roomy t table = elim (Bool-cases (ltb (length t.slots) ((t.len + 1) * 2))) [
    | inl h ↦
        let (t₁, runs, table₁, len, size, same) = grow-IsTable nodes names t table in
        let room : (t₁.len + 1) * 2 ≤ length t₁.slots =
          omega (arith, len, size, table.load, table.hashed.size, pow_pos table.power) in
        (t₁, simp h runs, record { table = table₁; room = room; same = same })
    | inr h ↦
        let room : (t.len + 1) * 2 ≤ length t.slots = ltb→le _ _ h in
        (t, simp h refl, record { table = table; room = room; same = λ x. (λ s. s, λ s. s) })
  ]

  place-IsTable :
      (t : Interner) (id : ℕ) (key : Key)
      → IsTable nodes names t
      → (t.len + 1) * 2 ≤ length t.slots
      → key_of nodes names id ≡ some key
      → suc id < u32_mod
      → Found nodes names t.slots key none
      → (slots : List ℕ) × (place nodes names t.slots t.mask id ≡ some slots)
        × IsTable nodes names (record t { slots = slots; len = t.len + 1 })
        × ((x : ℕ) → Holds slots x ↔ (Holds t.slots x ⊎ (x ≡ id)))
  place-IsTable t id key table room has is_word fresh =
      let half : count t.slots * 2 ≤ length t.slots = omega (arith, room, table.used) in
      let (free, lt, e) = free_slot t.slots table.power table.hashed.size half in
      let (slots, runs, ext, hashed) =
        place-Extended nodes names table.power t.slots table.hashed id key has is_word free lt e
          fresh in
      (
        slots,
        rw table.mask runs,
        record {
          power = table.power;
          hashed = hashed;
          mask = table.mask;
          used = omega (arith, ext.grown, table.used);
          load = omega (arith, ext.size, room);
        },
        Extended-Holds t.slots slots id ext,
      )

  -- Given a node whose parent and name no node of the table has, `insert` always answers, and the new
  -- table is one that holds the nodes of the old and that node, and no other.
  pub insert-IsTable :
      (t : Interner) (id : ℕ) (key : Key)
      → IsTable nodes names t
      → key_of nodes names id ≡ some key
      → suc id < u32_mod
      → Found nodes names t.slots key none
      → (t₁ : Interner) × (insert nodes names t id ≡ some t₁)
        × IsTable nodes names t₁
        × ((x : ℕ) → Holds t₁.slots x ↔ (Holds t.slots x ⊎ (x ≡ id)))
  unfolding insert
  insert-IsTable t id key table has is_word fresh =
      let (t₁, grown, roomy) = grow_if_full-Roomy t table in
      let fresh₁ : Found nodes names t₁.slots key none =
        λ j x s p. let (i, o) = (roomy.same x).0 (j, s) in fresh i x o p in
      let (slots, placed, table₁, holds) =
        place-IsTable t₁ id key roomy.table roomy.room has is_word fresh₁ in
      (
        record t₁ { slots = slots; len = t₁.len + 1 },
        rw (grown, placed) refl,
        table₁,
        λ x. iff_inl (holds x) (roomy.same x),
      )
