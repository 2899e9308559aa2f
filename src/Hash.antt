-- ===== src/Hash.antt =====
-- src/hash.rs: the two hashers. A hasher is its `hash`, a word of 64 bits; a method that writes gives
-- the new one.
use Prim.Native.Nat.{bit_or, bit_xor}
use zipfs.Base.{ℕ, ◌+◌, ◌*◌, ◌/◌, ◌%◌, [], ◌∷◌}
use zipfs.Base.Bytes.{Bytes}
use zipfs.Base.Word.{u64_mod}

abbrev pub seed : ℕ
seed = 0x517cc1b727220a95

-- `rotate_left(5)` of 64 bits: the low 59 move up, and the high 5 come in below them.
unfoldable pub rotate_left_5 : ℕ → ℕ
rotate_left_5 hash = hash % 0x800000000000000 * 32 + hash / 0x800000000000000

unfoldable pub add : ℕ → ℕ → ℕ
unfolding rotate_left_5
add hash word = bit_xor (rotate_left_5 hash) word * seed % u64_mod

-- `u64::from_le_bytes`; the zeros that fill a word up add nothing.
unfoldable pub from_le_bytes : Bytes → ℕ
from_le_bytes [] = 0
from_le_bytes (b ∷ bs) = b + 256 * from_le_bytes bs

unfoldable pub write_word : ℕ → Bytes → ℕ
unfolding add from_le_bytes
write_word hash [] = hash
write_word hash (b ∷ bs) = add hash (from_le_bytes (b ∷ bs))

-- Eight bytes at a time, and the rest.
unfoldable pub write : ℕ → Bytes → ℕ
unfolding write_word
write hash (a ∷ b ∷ c ∷ d ∷ e ∷ f ∷ g ∷ h ∷ rest) =
    write (write_word hash (a ∷ b ∷ c ∷ d ∷ e ∷ f ∷ g ∷ h ∷ [])) rest
write hash rest = write_word hash rest

unfoldable pub write_u32 : ℕ → ℕ → ℕ
unfolding add
write_u32 hash i = add hash i

-- `IdentityHasher`.
unfoldable pub identity_write : ℕ → Bytes → ℕ
identity_write hash [] = hash
identity_write hash (b ∷ bs) = identity_write (bit_or (hash * 256 % u64_mod) b) bs

unfoldable pub identity_write_u64 : ℕ → ℕ → ℕ
identity_write_u64 hash i = i
