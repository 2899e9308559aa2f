-- ===== src/Config.antt =====
-- src/config.rs: the settings of a mount, and the ranges that `clamp` brings them into.
use zipfs.Base.{ℕ, ◌*◌, ◌%◌, ◌≤◌, ◌<◌, ◌≡◌, refl, max, ltb, if◌then◌else◌, Bool, arith}
use zipfs.Base.Word.{u64_mod}

abbrev pub min_source_buffer : ℕ
min_source_buffer = 4096

abbrev pub max_source_buffer : ℕ
max_source_buffer = 16777216

-- `attr_ttl` is in seconds.
pub record Config : Type 0 where
  pub verify : Bool
  pub source_buffer : ℕ
  pub decoders_per_file : ℕ
  pub max_retained_decoders : ℕ
  pub threads : ℕ
  pub uid : ℕ
  pub gid : ℕ
  pub file_mode : ℕ
  pub dir_mode : ℕ
  pub attr_ttl : ℕ
  pub allow_other : Bool
  pub allow_root : Bool
  pub auto_unmount : Bool

-- `Ord::clamp`, whose lower bound is not above the upper one here.
unfoldable pub clamp_to : ℕ → ℕ → ℕ → ℕ
clamp_to low high n = if ltb n low then low else if ltb high n then high else n

-- A mode is masked with `0o7777`.
unfoldable pub clamp : Config → Config
unfolding clamp_to
clamp c =
    let retained = max c.max_retained_decoders 1 in
    record c {
      source_buffer = clamp_to min_source_buffer max_source_buffer c.source_buffer;
      threads = max c.threads 1;
      max_retained_decoders = retained;
      decoders_per_file = clamp_to 1 retained c.decoders_per_file;
      file_mode = c.file_mode % 4096;
      dir_mode = c.dir_mode % 4096;
    }

unfoldable pub max_cores : Config → ℕ
max_cores c = (c.threads * 2) % u64_mod

-- Every field is in its range.
pub record IsInRange (c : Config) : Type 0 where
  pub buffer_low : min_source_buffer ≤ c.source_buffer
  pub buffer_high : c.source_buffer ≤ max_source_buffer
  pub threads : 1 ≤ c.threads
  pub per_file_low : 1 ≤ c.decoders_per_file
  pub per_file_high : c.decoders_per_file ≤ c.max_retained_decoders
  pub file_mode : c.file_mode < 4096
  pub dir_mode : c.dir_mode < 4096

clamp_to-bounds :
    (low high n : ℕ) → low ≤ high → (low ≤ clamp_to low high n) × (clamp_to low high n ≤ high)
unfolding clamp_to
clamp_to-bounds low high n h = (ground arith, ground arith)

clamp_to-inside : (low high n : ℕ) → low ≤ n → n ≤ high → clamp_to low high n ≡ n
unfolding clamp_to
clamp_to-inside low high n h g = ground arith

clamp-IsInRange : (c : Config) → IsInRange (clamp c)
unfolding clamp
clamp-IsInRange c =
    let (low, high) =
      clamp_to-bounds min_source_buffer max_source_buffer c.source_buffer (omega arith) in
    let (one, cap) =
      clamp_to-bounds 1 (max c.max_retained_decoders 1) c.decoders_per_file (omega arith) in
    record {
      buffer_low = low;
      buffer_high = high;
      threads = omega arith;
      per_file_low = one;
      per_file_high = cap;
      file_mode = omega arith;
      dir_mode = omega arith;
    }

clamp-inside : (c : Config) → IsInRange c → clamp c ≡ c
unfolding clamp
clamp-inside c r =
    let buffer = clamp_to-inside _ _ c.source_buffer r.buffer_low r.buffer_high in
    let retained : max c.max_retained_decoders 1 ≡ c.max_retained_decoders =
      omega (arith, r.per_file_low, r.per_file_high) in
    let per_file = clamp_to-inside _ _ c.decoders_per_file r.per_file_low r.per_file_high in
    let threads : max c.threads 1 ≡ c.threads = omega (arith, r.threads) in
    let file_mode : c.file_mode % 4096 ≡ c.file_mode = omega (arith, r.file_mode) in
    let dir_mode : c.dir_mode % 4096 ≡ c.dir_mode = omega (arith, r.dir_mode) in
    simp (buffer, retained, per_file, threads, file_mode, dir_mode) refl

-- `clamp` brings every field into its range, and changes nothing in a configuration whose fields
-- are in range.
pub clamp-range : (c : Config) → IsInRange (clamp c) × (IsInRange c → clamp c ≡ c)
clamp-range c = (clamp-IsInRange c, clamp-inside c)
