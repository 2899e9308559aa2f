-- ===== src/Cli.antt =====
-- src/cli.rs: the settings, and the two ways of naming one. A text is its bytes; a message is the
-- reason that it gives, and what is written to the log is a list of notices, oldest first.
pub mod Settings
pub mod Names
pub mod Lines
pub mod Ends
pub mod Pieces
pub mod Wrap
pub mod Keeps
pub mod Bounds
use Prim.Native.Nat.{bit_and}
use zipfs.Base.{
  ℕ, zero, suc, ◌+◌, ◌-◌, ◌≡◌, leb, ltb, ◌==◌, if◌then◌else◌, Bool, true, false, not, ◌&&◌, ◌||◌,
  Option, none, some, List, [], ◌∷◌, ◌++◌, Result, ok, err, ◌>>=◌, length,
}
use zipfs.Base.Bytes.{
  Bytes, codes, eq_bytes, elem_bytes, starts_with, split_at_each, split_once, from_str_radix,
}
use zipfs.Base.Word.{u64_mod, u32_mod}
use zipfs.Config.{Config}

-- Why an option cannot be honoured.
pub data Reason : Type 0 where
  not_a_number not_a_mode not_text missing_value : Reason
  takes_no_value needs_a_value remount_rw remount_takes_no_value : Reason

abbrev pub Outcome : Type 0 → Type 0
Outcome A = Result Reason A

pub data Apply : Type 0 where
  flag : (Config → Config) → Apply
  value : (Config → Bytes → Outcome Config) → Apply

pub record Setting : Type 0 where
  pub name : Bytes
  pub alias : Option Bytes
  pub metavar : Option Bytes
  pub help : Bytes
  pub apply : Apply

unfoldable pub some_or : {A : Type 0} → Reason → Option A → Outcome A
some_or reason none = err reason
some_or reason (some a) = ok a

-- `number` at a type of values below `bound`.
unfoldable pub number : ℕ → Bytes → Outcome ℕ
unfolding some_or from_str_radix
number bound v = some_or not_a_number (from_str_radix 10 bound v)

-- `trim_start_matches("0o")`.
unfoldable pub trim_octal : Bytes → Bytes
trim_octal [] = []
trim_octal (a ∷ []) = a ∷ []
trim_octal (a ∷ b ∷ rest) =
    let trimmed = trim_octal rest in if a == b'0' && b == b'o' then trimmed else a ∷ b ∷ rest

abbrev pub all_modes : ℕ
all_modes = 4095

unfoldable pub mode : Bytes → Outcome ℕ
unfolding some_or from_str_radix trim_octal
mode v =
    some_or not_a_mode (from_str_radix 8 65536 (trim_octal v)) >>= λ m. ok (bit_and all_modes m)

-- `base & !mask` of two `u16`.
unfoldable pub without : ℕ → ℕ → ℕ
without base mask = bit_and base (65535 - mask)

unfoldable pub is_dash : ℕ → Bool
is_dash c = c == b'-' || c == b'_'

unfoldable pub same_char : ℕ → ℕ → Bool
unfolding is_dash
same_char a b = a == b || (is_dash a && is_dash b)

-- The lengths are equal, and so is each pair of bytes.
unfoldable pub same_name : Bytes → Bytes → Bool
unfolding same_char
same_name [] [] = true
same_name [] (b ∷ bs) = false
same_name (a ∷ as₁) [] = false
same_name (a ∷ as₁) (b ∷ bs) = let rest = same_name as₁ bs in same_char a b && rest

unfoldable pub same_alias : Option Bytes → Bytes → Bool
unfolding same_name
same_alias none name = false
same_alias (some a) name = same_name a name

unfoldable pub named : Bytes → Setting → Bool
unfolding same_name same_alias
named name s = same_name s.name name || same_alias s.alias name

unfoldable pub find_in : List Setting → Bytes → Option Setting
unfolding named
find_in [] name = none
find_in (s ∷ ss) name = let rest = find_in ss name in if named name s then some s else rest

-- What a long option does. `raw` is the parser's value, or its error, and `none` where that value is
-- not valid text.
unfoldable pub apply_raw :
    (Config → Bytes → Outcome Config) → Config → Outcome (Option Bytes) → Outcome Config
unfolding some_or
apply_raw set c raw = raw >>= λ text. some_or not_text text >>= set c

unfoldable pub apply_long_as : Apply → Config → Outcome (Option Bytes) → Outcome Config
unfolding apply_raw
apply_long_as (flag set) c raw = ok (set c)
apply_long_as (value set) c raw = apply_raw set c raw

unfoldable pub apply_long : Setting → Config → Outcome (Option Bytes) → Outcome Config
unfolding apply_long_as
apply_long s c raw = apply_long_as s.apply c raw

-- What is written to the log.
pub data Notice : Type 0 where
  rw_has_no_effect remount_mounts_again : Notice
  ignoring_unknown : Bytes → Notice

-- A list of options applied: the configuration, and what was logged.
abbrev pub Applied : Type 0
Applied = Outcome (Config × List Notice)

unfoldable pub apply_flag : (Config → Config) → Config → Option Bytes → Outcome Config
apply_flag set c none = ok (set c)
apply_flag set c (some v) = err takes_no_value

unfoldable pub apply_value :
    (Config → Bytes → Outcome Config) → Config → Option Bytes → Outcome Config
apply_value set c none = err needs_a_value
apply_value set c (some v) = set c v

unfoldable pub apply_as : Apply → Config → Option Bytes → Outcome Config
unfolding apply_flag apply_value
apply_as (flag set) c v = apply_flag set c v
apply_as (value set) c v = apply_value set c v

unfoldable pub apply_setting : Setting → Config → Option Bytes → Outcome Config
unfolding apply_as
apply_setting s c v = apply_as s.apply c v
