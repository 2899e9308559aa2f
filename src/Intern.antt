-- ===== src/Intern.antt =====
-- src/index/intern.rs: the map from a parent and a name to a node while the tree is being built. A
-- slot out of bounds, a node that is not there and a name outside the blob are panics; a result is
-- `none` for a panic, and for a loop that runs out of fuel. The fuel of a loop over the slots is
-- their number. Sizes of vectors in memory do not overflow.
pub mod Probes
pub mod Held
pub mod Find
pub mod Extend
pub mod Grow
pub mod Insert
use Prim.Native.Nat.{bit_and}
use zipfs.Base.{
  ℕ, zero, suc, ◌+◌, ◌-◌, ◌*◌, ◌%◌, Bool, true, false, Option, none, some, List, [], ◌∷◌, ltb, leb,
  ◌==◌, if◌then◌else◌, length, get_elem?, ◌>>=?◌, set, take, drop, replicate, max,
}
use zipfs.Base.Bytes.{Bytes, eq_bytes}
use zipfs.Base.Word.{u32_mod}
use zipfs.Entry.{NodeKind}
use zipfs.Hash.{write, write_u32}

pub record TmpNode : Type 0 where
  pub name_off : ℕ
  pub name_len : ℕ
  pub kind : NodeKind
  pub flags : ℕ
  pub parent : ℕ
  pub meta : ℕ

pub record Interner : Type 0 where
  pub slots : List ℕ
  pub mask : ℕ
  pub len : ℕ

unfoldable pub hash_key : ℕ → Bytes → ℕ
unfolding write write_u32
hash_key parent name = write (write_u32 0 parent) name

abbrev pub bucket : ℕ → ℕ → ℕ
bucket hash mask = bit_and hash mask

-- A slice that goes past the end is a panic.
unfoldable pub node_name : TmpNode → Bytes → Option Bytes
node_name n names =
    if leb (n.name_off + n.name_len) (length names)
    then some (take n.name_len (drop n.name_off names))
    else none

-- `usize::next_power_of_two`: the powers from `power` on are tried, at most 64 of them.
unfoldable pub power_from : ℕ → ℕ → ℕ → ℕ
power_from zero power n = power
power_from (suc fuel) power n =
    let rest = power_from fuel (2 * power) n in if leb n power then power else rest

unfoldable pub empty_of : ℕ → Interner
empty_of size = record { slots = replicate size 0; mask = size - 1; len = 0 }

unfoldable pub with_capacity : ℕ → Interner
unfolding power_from empty_of
with_capacity cap = empty_of (power_from 64 1 (max cap 16 * 2))

-- The probing of `find` and `place`: from a slot on, one after the other and round the end, to the
-- first where `stop` says so.
unfoldable pub stop_or : ℕ → Option Bool → Option ℕ → Option ℕ
stop_or idx none rest = none
stop_or idx (some true) rest = some idx
stop_or idx (some false) rest = rest

unfoldable pub probe_until : (ℕ → Option Bool) → ℕ → ℕ → ℕ → Option ℕ
unfolding stop_or
probe_until stop mask zero idx = none
probe_until stop mask (suc fuel) idx =
    let rest = probe_until stop mask fuel (bucket (idx + 1) mask) in stop_or idx (stop idx) rest

-- `n.parent == parent && node_name(n, names) == name`.
unfoldable pub same_name : Bytes → Option Bytes → Option Bool
unfolding eq_bytes
same_name name none = none
same_name name (some other) = some (eq_bytes other name)

unfoldable pub same_key : Bytes → ℕ → Bytes → Option TmpNode → Option Bool
unfolding same_name node_name
same_key names parent name none = none
same_key names parent name (some n) =
    if n.parent == parent then same_name name (node_name n names) else some false

-- What the loop of `find` returns for the slot where it does.
unfoldable pub answer : Option ℕ → Option (Option ℕ)
answer none = none
answer (some zero) = some none
answer (some (suc id)) = some (some id)

unfoldable pub is_free : Option ℕ → Option Bool
is_free none = none
is_free (some slot) = some (slot == 0)

-- `id + 1` is a `u32`.
unfoldable pub place_at : List ℕ → ℕ → ℕ → ℕ → Option (List ℕ)
unfolding probe_until is_free
place_at slots mask id home =
    probe_until (λ idx. is_free (get_elem? slots idx)) mask (length slots) home >>=? λ idx.
    some (set slots idx ((id + 1) % u32_mod))

module _ (nodes : List TmpNode) (names : Bytes) where
  -- Whether the loop of `find` returns at a slot.
  unfoldable pub answers : ℕ → Bytes → Option ℕ → Option Bool
  unfolding same_key
  answers parent name none = none
  answers parent name (some zero) = some true
  answers parent name (some (suc id)) = same_key names parent name (get_elem? nodes id)

  unfoldable pub find : Interner → ℕ → Bytes → Option (Option ℕ)
  unfolding probe_until answers answer hash_key
  find t parent name =
      probe_until (λ idx. answers parent name (get_elem? t.slots idx)) t.mask (length t.slots)
        (bucket (hash_key parent name) t.mask)
      >>=? λ idx. answer (get_elem? t.slots idx)

  -- Where a node's key belongs.
  unfoldable pub home_of : ℕ → TmpNode → Option ℕ
  unfolding node_name hash_key
  home_of mask n = node_name n names >>=? λ name. some (bucket (hash_key n.parent name) mask)

  unfoldable pub place : List ℕ → ℕ → ℕ → Option (List ℕ)
  unfolding home_of place_at
  place slots mask id = get_elem? nodes id >>=? λ n. home_of mask n >>=? place_at slots mask id

  -- The loop of `grow` over the old slots.
  unfoldable pub place_slot : List ℕ → ℕ → ℕ → Option (List ℕ)
  unfolding place
  place_slot slots mask zero = some slots
  place_slot slots mask (suc id) = place slots mask id

  unfoldable pub place_all : List ℕ → ℕ → List ℕ → Option (List ℕ)
  unfolding place_slot
  place_all slots mask [] = some slots
  place_all slots mask (slot ∷ old) =
      place_slot slots mask slot >>=? λ slots₁. place_all slots₁ mask old

  unfoldable pub grow : Interner → Option Interner
  unfolding place_all
  grow t =
      let size = length t.slots * 2 in
      place_all (replicate size 0) (size - 1) t.slots >>=? λ slots.
      some (record t { slots = slots; mask = size - 1 })

  unfoldable pub grow_if_full : Interner → Option Interner
  unfolding grow
  grow_if_full t = if ltb (length t.slots) ((t.len + 1) * 2) then grow t else some t

  unfoldable pub insert : Interner → ℕ → Option Interner
  unfolding grow_if_full place
  insert t id = grow_if_full t >>=? λ t₁.
      place t₁.slots t₁.mask id >>=? λ slots. some (record t₁ { slots = slots; len = t₁.len + 1 })
