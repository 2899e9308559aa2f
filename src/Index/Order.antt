-- ===== src/Index/Order.antt =====
-- The order of byte strings.
use Prim.Native.Nat.{Ordering}
use Prim.Native.Nat.Ordering.{lt, eq, gt}
use zipfs.Base.{ℕ, ◌≡◌, ◌⊎◌, inl, inr, refl, ap₂, List, [], ◌∷◌, arith}
use zipfs.Index.{compare_bytes}

pub Ordering-cases : (o : Ordering) → (o ≡ lt) ⊎ ((o ≡ eq) ⊎ (o ≡ gt))
Ordering-cases lt = inl refl
Ordering-cases eq = inr (inl refl)
Ordering-cases gt = inr (inr refl)

pub compare_bytes_refl : (a : List ℕ) → compare_bytes a a ≡ eq
unfolding compare_bytes
compare_bytes_refl [] = refl
compare_bytes_refl (x ∷ xs) = let rest = compare_bytes_refl xs in ground (arith, rest)

pub eq_of_compare_bytes : (a b : List ℕ) → compare_bytes a b ≡ eq → a ≡ b
unfolding compare_bytes
eq_of_compare_bytes [] [] h = refl
eq_of_compare_bytes [] (y ∷ ys) h = absurd (ground arith)
eq_of_compare_bytes (x ∷ xs) [] h = absurd (ground arith)
eq_of_compare_bytes (x ∷ xs) (y ∷ ys) h =
    ap₂ (◌∷◌) (ground arith) (eq_of_compare_bytes xs ys (ground arith))

-- The greater of two is the one that the other is less than.
pub compare_bytes_swap : (a b : List ℕ) → compare_bytes a b ≡ lt → compare_bytes b a ≡ gt
unfolding compare_bytes
compare_bytes_swap [] [] h = absurd (ground arith)
compare_bytes_swap [] (y ∷ ys) h = refl
compare_bytes_swap (x ∷ xs) [] h = absurd (ground arith)
compare_bytes_swap (x ∷ xs) (y ∷ ys) h =
    let rest : compare_bytes xs ys ≡ lt → compare_bytes ys xs ≡ gt = compare_bytes_swap xs ys in
    ground (arith, rest)
