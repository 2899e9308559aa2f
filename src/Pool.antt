-- ===== src/Pool.antt =====
-- src/pool.rs: the idle decoders of an open file, and the mount-wide budget. The budget that the
-- pools share through an `Arc` is passed along, and each method gives it back.
pub mod Exchange
pub mod Choice
pub mod Checkouts
pub mod Returns
pub mod Slots
pub mod Counted
pub mod Runs
use mathlib.Core.Option
use zipfs.Base.{
  ℕ, zero, suc, ◌+◌, ◌-◌, ◌≡◌, Bool, true, false, not, ◌&&◌, Option, none, some, List, [], ◌∷◌,
  ◌++◌, ltb, leb, ◌==◌, if◌then◌else◌, length, get_elem?, set, take, replicate,
}
use zipfs.Base.Word.{sub64}
use zipfs.Config.{Config, max_cores}
use zipfs.Entry.{Method, eq_Method}
use zipfs.Codec.{Codec, Flate, ZstdRaw, codec, codec_method}
use zipfs.Codec
use zipfs.Stream.{ByteSource}
use zipfs.Decode.{Crc, CoreParts, EntryLocation, PositionedDecoder, reinit, into_parts}
use zipfs.Decode

-- The vectors of recycled parts, each with its last element first.
pub record CoreStore (C : Type 0) : Type 0 where
  pub codecs : Method → List C
  pub buffers : List (List ℕ)
  pub skips : List (List ℕ)

pub record DecoderBudget (C : Type 0) : Type 0 where
  pub retained : ℕ
  pub max_retained : ℕ
  pub cores : CoreStore C
  pub max_cores : ℕ
  pub source_buffer : ℕ
  pub skip_buffer : ℕ
  pub verify : Bool

-- The size of a skip buffer, `SKIP_BUFFER`.
abbrev pub skip_buffer_size : ℕ
skip_buffer_size = 65536

module _ {C : Type 0} where
  unfoldable pub new_budget : Config → DecoderBudget C
  unfolding max_cores
  new_budget c = record {
    retained = 0;
    max_retained = c.max_retained_decoders;
    cores = record { codecs = λ _. []; buffers = []; skips = [] };
    max_cores = max_cores c;
    source_buffer = c.source_buffer;
    skip_buffer = skip_buffer_size;
    verify = c.verify;
  }

  -- Claims a slot for an idle decoder, if one is free.
  unfoldable pub try_retain : DecoderBudget C → Bool × DecoderBudget C
  try_retain b =
      if ltb b.retained b.max_retained
      then (true, record b { retained = b.retained + 1 })
      else (false, b)

  unfoldable pub release_retain : DecoderBudget C → DecoderBudget C
  release_retain b = record b { retained = sub64 b.retained 1 }

-- `Vec::pop`, or the value made for an empty vector.
unfoldable pub pop_or : {A : Type 0} → List A → A → A × List A
pop_or [] a = (a, [])
pop_or (x ∷ xs) a = (x, xs)

-- `Vec::push`, unless the vector is full.
unfoldable pub push_below : {A : Type 0} → ℕ → A → List A → List A
push_below limit x xs = if ltb (length xs) limit then x ∷ xs else xs

unfoldable pub update : {A : Type 0} → (Method → A) → Method → A → Method → A
update f m a k = if eq_Method k m then a else f k

-- `Iterator::position`.
unfoldable pub position : {A : Type 0} → (A → Bool) → List A → Option ℕ
position p [] = none
position p (x ∷ xs) = if p x then some 0 else Option.map suc (position p xs)

-- `Vec::swap_remove` of the element `x` at `i`: the last element takes its place.
unfoldable pub last_or : {A : Type 0} → A → List A → A
last_or a [] = a
last_or a (x ∷ xs) = last_or x xs

unfoldable pub swap_remove : {A : Type 0} → ℕ → List A → List A
unfolding last_or
swap_remove i [] = []
swap_remove i (x ∷ xs) =
    let n = length xs in
    let front = take n (x ∷ xs) in if i == n then front else set front i (last_or x xs)

pub record EntryPool (C S K : Type 0) : Type 0 where
  pub idle : List (PositionedDecoder C S K)
  pub per_handle_cap : ℕ
  pub loc : EntryLocation

-- The index of the decoder to take, and whether it has to be rewound.
unfoldable pub rewound : Option (ℕ × ℕ) → Option (ℕ × Bool)
rewound none = none
rewound (some (i, _)) = some (i, true)

module _ {C S K : Type 0} where
  -- The step of `max_by_key`: the later of two equal ones is kept.
  unfoldable pub better :
      (PositionedDecoder C S K → Bool)
      → ℕ
      → PositionedDecoder C S K
      → Option (ℕ × ℕ)
      → Option (ℕ × ℕ)
  better p i d none = if p d then some (i, d.pos) else none
  better p i d (some (j, top)) = if p d && leb top d.pos then some (i, d.pos) else some (j, top)

  -- `max_by_key` by position over the idle decoders that pass a test, from the index `i` on: the
  -- index and the position of the last of the furthest.
  unfoldable pub furthest :
      (PositionedDecoder C S K → Bool)
      → ℕ
      → Option (ℕ × ℕ)
      → List (PositionedDecoder C S K)
      → Option (ℕ × ℕ)
  unfolding better
  furthest p i best [] = best
  furthest p i best (d ∷ ds) = furthest p (i + 1) (better p i d best) ds

  unfoldable pub exact : ℕ → PositionedDecoder C S K → Bool
  exact offset d = d.pos == offset && not d.finished

  unfoldable pub usable : ℕ → PositionedDecoder C S K → Bool
  usable offset d = leb d.pos offset && not d.finished

  unfoldable pub usable_or_rewound :
      List (PositionedDecoder C S K) → Option (ℕ × ℕ) → Option (ℕ × Bool)
  unfolding rewound furthest
  usable_or_rewound idle (some (i, _)) = some (i, false)
  usable_or_rewound idle none = rewound (furthest (λ _. true) 0 none idle)

  unfoldable pub exact_or_usable : ℕ → List (PositionedDecoder C S K) → Option ℕ → Option (ℕ × Bool)
  unfolding usable_or_rewound furthest usable
  exact_or_usable offset idle (some i) = some (i, false)
  exact_or_usable offset idle none = usable_or_rewound idle (furthest (usable offset) 0 none idle)

  unfoldable pub choose : ℕ → List (PositionedDecoder C S K) → Option (ℕ × Bool)
  unfolding exact_or_usable position exact
  choose offset idle = exact_or_usable offset idle (position (exact offset) idle)
