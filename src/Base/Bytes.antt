-- ===== src/Base/Bytes.antt =====
-- Texts as their bytes, and what the standard library does with them.
use Prim.Native.Char.{code}
use Prim.Native.String.{String}
use Prim.Native.Nat.{ℕ, ◌+◌, ◌-◌, ◌*◌}
use mathlib.Core.Bool.{Bool, true, false, ◌&&◌, ◌||◌}
use mathlib.Core.List.{List, [], ◌∷◌}
use mathlib.Core.Option.{Option, none, some}
use zipfs.Base.Tests.{ltb, leb, ◌==◌, if◌then◌else◌}

abbrev pub Bytes : Type 0
Bytes = List ℕ

-- The bytes of a literal that is ASCII.
abbrev pub codes : String → Bytes
codes String.[] = []
codes (String.◌∷◌ c s) = code c ∷ codes s

unfoldable pub eq_bytes : Bytes → Bytes → Bool
eq_bytes [] [] = true
eq_bytes [] (y ∷ ys) = false
eq_bytes (x ∷ xs) [] = false
eq_bytes (x ∷ xs) (y ∷ ys) = let rest = eq_bytes xs ys in x == y && rest

unfoldable pub elem_bytes : Bytes → List Bytes → Bool
unfolding eq_bytes
elem_bytes x [] = false
elem_bytes x (y ∷ ys) = let rest = elem_bytes x ys in eq_bytes y x || rest

unfoldable pub starts_with : Bytes → Bytes → Bool
starts_with xs [] = true
starts_with [] (p ∷ ps) = false
starts_with (x ∷ xs) (p ∷ ps) = let rest = starts_with xs ps in x == p && rest

-- `slice::split` at a byte: there is always a first piece.
unfoldable pub push_first : ℕ → List Bytes → List Bytes
push_first b [] = (b ∷ []) ∷ []
push_first b (c ∷ cs) = (b ∷ c) ∷ cs

unfoldable pub split_at_each : ℕ → Bytes → List Bytes
unfolding push_first
split_at_each sep [] = [] ∷ []
split_at_each sep (b ∷ bs) =
    let rest = split_at_each sep bs in if b == sep then [] ∷ rest else push_first b rest

-- `str::split_once` at a byte.
unfoldable pub push_before : ℕ → Bytes × Option Bytes → Bytes × Option Bytes
push_before b (key, value) = (b ∷ key, value)

unfoldable pub split_once : ℕ → Bytes → Bytes × Option Bytes
unfolding push_before
split_once sep [] = ([], none)
split_once sep (b ∷ bs) =
    let rest = split_once sep bs in if b == sep then ([], some bs) else push_before b rest

-- `from_str_radix` of an unsigned type of values below `bound`, for a radix up to 10.
unfoldable pub digits_below : ℕ → ℕ → ℕ → Bytes → Option ℕ
digits_below radix bound n [] = some n
digits_below radix bound n (c ∷ cs) =
    let next = n * radix + (c - b'0') in
    let rest = digits_below radix bound next cs in
    if leb b'0' c && ltb c (b'0' + radix) && ltb next bound then rest else none

unfoldable pub no_sign : ℕ → ℕ → Bytes → Option ℕ
unfolding digits_below
no_sign radix bound [] = none
no_sign radix bound (c ∷ cs) = digits_below radix bound 0 (c ∷ cs)

unfoldable pub from_str_radix : ℕ → ℕ → Bytes → Option ℕ
unfolding no_sign
from_str_radix radix bound [] = none
from_str_radix radix bound (c ∷ cs) =
    if c == b'+' then no_sign radix bound cs else no_sign radix bound (c ∷ cs)
