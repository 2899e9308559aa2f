-- ===== src/Cli/Keeps.antt =====
-- Each setting keeps every number of the configuration in its machine word, and every mode within the
-- bits of a mode.
use Prim.Native.Nat.{bit_and}
use zipfs.Base.{
  ℕ, ◌+◌, ◌-◌, ◌*◌, ◌≤◌, ◌<◌, ◌≡◌, refl, subst, Bool, true, false, Option, none, some, List, [],
  ◌∷◌, ok, err, ◌>>=◌, arith,
}
use zipfs.Base.Bits.{bit_and_le}
use zipfs.Base.Bytes.{Bytes, digits_below, no_sign, from_str_radix}
use zipfs.Base.Word.{u64_mod, u32_mod}
use zipfs.Config.{Config}
use zipfs.Cli.{
  Reason, Outcome, Apply, Setting, flag, value, not_a_number, not_a_mode, trim_octal, some_or,
  number, mode, without, all_modes,
}
use zipfs.Cli.Settings.{settings, set_umask}

-- The numbers of a configuration are those of their types, and the modes are modes.
pub record IsWord (c : Config) : Type 0 where
  pub source_buffer : c.source_buffer < u64_mod
  pub decoders_per_file : c.decoders_per_file < u64_mod
  pub max_retained_decoders : c.max_retained_decoders < u64_mod
  pub threads : c.threads < u64_mod
  pub uid : c.uid < u32_mod
  pub gid : c.gid < u32_mod
  pub file_mode : c.file_mode ≤ all_modes
  pub dir_mode : c.dir_mode ≤ all_modes
  pub attr_ttl : c.attr_ttl < u64_mod

digits_below_lt :
    (radix bound n m : ℕ) (text : Bytes)
    → n < bound
    → digits_below radix bound n text ≡ some m
    → m < bound
unfolding digits_below
digits_below_lt radix bound n m [] lt h = ground arith
digits_below_lt radix bound n m (c ∷ cs) lt h =
    ground (arith, digits_below_lt radix bound (n * radix + (c - b'0')) m cs)

no_sign_lt :
    (radix bound m : ℕ) (text : Bytes) → 0 < bound → no_sign radix bound text ≡ some m → m < bound
unfolding no_sign
no_sign_lt radix bound m [] pos h = absurd (ground arith)
no_sign_lt radix bound m (c ∷ cs) pos h = digits_below_lt radix bound 0 m (c ∷ cs) pos h

from_str_radix_lt :
    (radix bound m : ℕ) (text : Bytes)
    → 0 < bound
    → from_str_radix radix bound text ≡ some m
    → m < bound
unfolding from_str_radix
from_str_radix_lt radix bound m [] pos h = absurd (ground arith)
from_str_radix_lt radix bound m (c ∷ cs) pos h =
    ground (arith, no_sign_lt radix bound m cs, no_sign_lt radix bound m (c ∷ cs))

some_or-ok :
    {A : Type 0} (reason : Reason) (o : Option A) (a : A) → some_or reason o ≡ ok a → o ≡ some a
unfolding some_or
some_or-ok reason none a h = absurd (cc h)
some_or-ok reason (some b) a h = cc

number_lt : (bound n : ℕ) (v : Bytes) → 0 < bound → number bound v ≡ ok n → n < bound
unfolding number
number_lt bound n v pos h =
    from_str_radix_lt 10 bound n v pos (some_or-ok not_a_number (from_str_radix 10 bound v) n h)

-- A setting that keeps a configuration in its words.
abbrev pub Keeps : (Config → Bytes → Outcome Config) → Type 0
Keeps set = (c : Config) (v : Bytes) (c₁ : Config) → IsWord c → set c v ≡ ok c₁ → IsWord c₁

abbrev Sets : ℕ → (Config → ℕ → Config) → Type 0
Sets bound set = (c : Config) (n : ℕ) → IsWord c → n < bound → IsWord (set c n)

-- The outcome of a setting with a number.
bind-IsWord :
    (bound : ℕ) (set : Config → ℕ → Config)
    → Sets bound set
    → (c : Config) (r : Outcome ℕ) (c₁ : Config) → ((n : ℕ) → r ≡ ok n → n < bound)
    → IsWord c
    → (r >>= λ n. ok (set c n)) ≡ ok c₁
    → IsWord c₁
bind-IsWord bound set sets c (ok n) c₁ lt w h =
    let e : set c n ≡ c₁ = cc in subst IsWord e (sets c n w (lt n refl))
bind-IsWord bound set sets c (err e) c₁ lt w h = absurd (cc h)

number-Keeps :
    (bound : ℕ) (set : Config → ℕ → Config)
    → 0 < bound
    → Sets bound set
    → Keeps (λ c v. number bound v >>= λ n. ok (set c n))
number-Keeps bound set pos sets c v c₁ w h =
    bind-IsWord bound set sets c (number bound v) c₁ (λ n e. number_lt bound n v pos e) w h

mode_lt : (n : ℕ) (v : Bytes) → mode v ≡ ok n → n < 4096
unfolding mode
mode_lt n v h = masked (some_or not_a_mode (from_str_radix 8 65536 (trim_octal v))) h
  where
    masked : (r : Outcome ℕ) → (r >>= λ m. ok (bit_and all_modes m)) ≡ ok n → n < 4096
    masked (ok m) h = let e : bit_and all_modes m ≡ n = cc in omega (arith, bit_and_le all_modes m)
    masked (err r) h = absurd (cc h)

mode-Keeps :
    (set : Config → ℕ → Config) → Sets 4096 set → Keeps (λ c v. mode v >>= λ n. ok (set c n))
mode-Keeps set sets c v c₁ w h = bind-IsWord 4096 set sets c (mode v) c₁ (λ n e. mode_lt n v e) w h

abbrev pub Safe : Apply → Type 0
Safe (flag set) = (c : Config) → IsWord c → IsWord (set c)
Safe (value set) = Keeps set

abbrev pub AllSafe : List Setting → Type 0
AllSafe [] = Unit {0}
AllSafe (s ∷ ss) = Safe s.apply × AllSafe ss

threads-Sets : Sets u64_mod (λ c n. record c { threads = n })
threads-Sets c n w h = ground arith

source_buffer-Sets : Sets u64_mod (λ c n. record c { source_buffer = n })
source_buffer-Sets c n w h = ground arith

decoders_per_file-Sets : Sets u64_mod (λ c n. record c { decoders_per_file = n })
decoders_per_file-Sets c n w h = ground arith

max_retained_decoders-Sets : Sets u64_mod (λ c n. record c { max_retained_decoders = n })
max_retained_decoders-Sets c n w h = ground arith

uid-Sets : Sets u32_mod (λ c n. record c { uid = n })
uid-Sets c n w h = ground arith

gid-Sets : Sets u32_mod (λ c n. record c { gid = n })
gid-Sets c n w h = ground arith

attr_ttl-Sets : Sets u64_mod (λ c n. record c { attr_ttl = n })
attr_ttl-Sets c n w h = ground arith

file_mode-Sets : Sets 4096 (λ c n. record c { file_mode = n })
file_mode-Sets c n w h = ground arith

dir_mode-Sets : Sets 4096 (λ c n. record c { dir_mode = n })
dir_mode-Sets c n w h = ground arith

without_lt : (base mask : ℕ) → base < 4096 → without base mask < 4096
unfolding without
without_lt base mask h = omega (arith, bit_and_le base (65535 - mask))

fmask-Sets : Sets 4096 (λ c n. record c { file_mode = without 0o666 n })
fmask-Sets c n w h = file_mode-Sets c (without 0o666 n) w (without_lt 0o666 n (omega arith))

dmask-Sets : Sets 4096 (λ c n. record c { dir_mode = without 0o777 n })
dmask-Sets c n w h = dir_mode-Sets c (without 0o777 n) w (without_lt 0o777 n (omega arith))

set_umask-Sets : Sets 4096 set_umask
unfolding set_umask
set_umask-Sets c n w h =
    dmask-Sets (record c { file_mode = without 0o666 n }) n (fmask-Sets c n w h) h

flag-IsWord :
    (c : Config) (verify other root unmount : Bool)
    → IsWord c
    → IsWord (record c {
      verify = verify;
      allow_other = other;
      allow_root = root;
      auto_unmount = unmount;
    })
flag-IsWord c verify other root unmount w = ground arith

pub settings-AllSafe : AllSafe settings
unfolding settings
settings-AllSafe = (
  number-Keeps u64_mod _ (omega arith) threads-Sets,
  (
    (λ c w. flag-IsWord c false c.allow_other c.allow_root c.auto_unmount w),
    (
      (λ c w. flag-IsWord c true c.allow_other c.allow_root c.auto_unmount w),
      (
        number-Keeps u64_mod _ (omega arith) source_buffer-Sets,
        (
          number-Keeps u64_mod _ (omega arith) decoders_per_file-Sets,
          (
            number-Keeps u64_mod _ (omega arith) max_retained_decoders-Sets,
            (
              number-Keeps u32_mod _ (omega arith) uid-Sets,
              (
                number-Keeps u32_mod _ (omega arith) gid-Sets,
                (
                  mode-Keeps _ file_mode-Sets,
                  (
                    mode-Keeps _ dir_mode-Sets,
                    (
                      mode-Keeps _ set_umask-Sets,
                      (
                        mode-Keeps _ fmask-Sets,
                        (
                          mode-Keeps _ dmask-Sets,
                          (
                            number-Keeps u64_mod _ (omega arith) attr_ttl-Sets,
                            (
                              (λ c w. flag-IsWord c c.verify true c.allow_root c.auto_unmount w),
                              (
                                (λ c w. flag-IsWord c c.verify c.allow_other true c.auto_unmount w),
                                (
                                  (λ c w. flag-IsWord c c.verify c.allow_other c.allow_root true w),
                                  tt,
                                ),
                              ),
                            ),
                          ),
                        ),
                      ),
                    ),
                  ),
                ),
              ),
            ),
          ),
        ),
      ),
    ),
  ),
)
