-- ===== src/Intern/Probes.antt =====
-- A probe goes round all slots of a table whose size is a power of two, and stops at the first that it
-- is to stop at.
use native.Mathlib.Nat.{mod-lt, mod-eq_of_lt, mod-add-mod, mod-eq-sub-mod, one-le-pow}
use zipfs.Base.{
  ℕ, zero, suc, ◌+◌, ◌-◌, ◌%◌, ◌^◌, ◌≤◌, ◌<◌, ◌≡◌, refl, sym, ap, ◌∙◌, inl, inr, Bool, true, false,
  Bool-cases, Option, some, leb, leb→le, leb→lt, arith,
}
use zipfs.Base.Bits.{bit_and-mask}
use zipfs.Intern.{bucket, stop_or, probe_until}

-- The slot `e` steps behind `home`.
unfoldable pub probe : ℕ → ℕ → ℕ → ℕ
probe k home e = (home + e) % 2 ^ k

pub pow_pos : (k : ℕ) → 0 < 2 ^ k
pow_pos k = omega (arith, one-le-pow k 2 (omega arith))

pub bucket-mod : (k hash : ℕ) → bucket hash (2 ^ k - 1) ≡ hash % 2 ^ k
bucket-mod k hash = bit_and-mask k hash

pub bucket_lt : (k hash : ℕ) → bucket hash (2 ^ k - 1) < 2 ^ k
bucket_lt k hash = rw (bucket-mod k hash) (mod-lt hash (pow_pos k))

pub probe_lt : (k home e : ℕ) → probe k home e < 2 ^ k
unfolding probe
probe_lt k home e = mod-lt (home + e) (pow_pos k)

probe-zero : (k home : ℕ) → home < 2 ^ k → probe k home 0 ≡ home
unfolding probe
probe-zero k home h = let e : home + 0 ≡ home = omega arith in rw e (mod-eq_of_lt h)

probe-suc : (k home e : ℕ) → probe k (bucket (home + 1) (2 ^ k - 1)) e ≡ probe k home (suc e)
unfolding probe
probe-suc k home e =
    let s : home + 1 + e ≡ home + suc e = omega arith in
    ap (λ i. (i + e) % 2 ^ k) (bucket-mod k (home + 1))
    ∙ mod-add-mod (home + 1) (2 ^ k) e
    ∙ ap (λ i. i % 2 ^ k) s

-- Every slot is reached.
pub probe-reaches :
    (k home j : ℕ) → home < 2 ^ k → j < 2 ^ k → (e : ℕ) × (e < 2 ^ k) × (probe k home e ≡ j)
unfolding probe
probe-reaches k home j h g = elim (Bool-cases (leb home j)) [
  | inl t ↦
      let p = leb→le home j t in
      let s : home + (j - home) ≡ j = omega arith in (j - home, omega arith, rw s (mod-eq_of_lt g))
  | inr f ↦
      let p = leb→lt home j f in
      let s : home + (j + 2 ^ k - home) ≡ j + 2 ^ k = omega arith in
      let t : j + 2 ^ k - 2 ^ k ≡ j = omega arith in
      let m : (j + 2 ^ k) % 2 ^ k ≡ (j + 2 ^ k - 2 ^ k) % 2 ^ k = mod-eq-sub-mod (omega arith) in
      (j + 2 ^ k - home, omega arith, ap (λ i. i % 2 ^ k) s ∙ m ∙ rw t (mod-eq_of_lt g))
]

-- The first number at which a test holds.
abbrev pub First : (ℕ → Bool) → ℕ → Type 0
First test n = (test n ≡ true) × ((e : ℕ) → e < n → test e ≡ false)

pub search_below : (test : ℕ → Bool) (n : ℕ) → test n ≡ true → (m : ℕ) × (m ≤ n) × First test m
search_below test zero h = (0, omega arith, (h, λ e lt. absurd (omega arith)))
search_below test (suc n) h = elim (Bool-cases (test 0)) [
  | inl t ↦ (0, omega arith, (t, λ e lt. absurd (omega arith)))
  | inr f ↦
      let (m, le, (at, before)) = search_below (λ i. test (suc i)) n h in
      (suc m, omega arith, (at, later m f before))
]
  where
    later :
        (m : ℕ)
        → test 0 ≡ false
        → ((e : ℕ) → e < m → test (suc e) ≡ false)
        → (e : ℕ) → e < suc m
        → test e ≡ false
    later m f before zero lt = f
    later m f before (suc e) lt = before e (omega arith)

-- The probe ends at the first slot that it is to stop at, with one step of the fuel for each slot.
pub probe_until-first :
    (stop : ℕ → Option Bool) (k n fuel home : ℕ)
    → n < fuel
    → home < 2 ^ k
    → ((e : ℕ) → e < n → stop (probe k home e) ≡ some false)
    → stop (probe k home n) ≡ some true
    → probe_until stop (2 ^ k - 1) fuel home ≡ some (probe k home n)
unfolding probe_until stop_or
probe_until-first stop k n zero home lt h before at = absurd (omega arith)
probe_until-first stop k zero (suc fuel) home lt h before at =
    let p = probe-zero k home h in
    let s : stop home ≡ some true = ap stop (sym p) ∙ at in rw (s, p) refl
probe_until-first stop k (suc n) (suc fuel) home lt h before at =
    let s : stop home ≡ some false = ap stop (sym (probe-zero k home h)) ∙ before 0 (omega arith) in
    let next = bucket (home + 1) (2 ^ k - 1) in
    let rest =
      probe_until-first stop k n fuel next (omega arith) (bucket_lt k (home + 1))
        (λ e lt₁. ap stop (probe-suc k home e) ∙ before (suc e) (omega arith))
        (ap stop (probe-suc k home n) ∙ at) in
    rw s (rest ∙ ap some (probe-suc k home n))
