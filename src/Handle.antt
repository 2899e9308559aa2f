-- ===== src/Handle.antt =====
-- src/handle.rs: open files, the checksum of a stored entry, and the table of handles. The entry that
-- an open file was opened on, `index.metas[meta_idx]`, is passed to the functions that use it.
pub mod Table
pub mod Stored
use mathlib.Core.Option
use zipfs.Base.{
  ℕ, ◌≡◌, Bool, true, false, not, ◌||◌, ◌&&◌, Option, none, some, List, [], ◌∷◌, ltb, ◌==◌,
  if◌then◌else◌, length,
}
use zipfs.Base.Word.{add64}
use zipfs.Config.{Config}
use zipfs.Entry.{Method, eq_Method, EntryMeta, set_verify_state, verify_ok, verify_bad}
use zipfs.Decode.{Crc, EntryLocation}
use zipfs.Pool.{EntryPool}

pub record StoreVerify (K : Type 0) : Type 0 where
  pub crc : K
  pub pos : ℕ
  pub disabled : Bool

module _ {K : Type 0} (crc : Crc K) where
  unfoldable pub new : StoreVerify K
  new = record { crc = crc.new; pos = 0; disabled = false }

  -- The end of `observe`, once every byte was hashed.
  unfoldable pub conclude : StoreVerify K → EntryMeta → Bool × StoreVerify K × EntryMeta
  unfolding set_verify_state
  conclude v meta =
      let matches = crc.finalize v.crc == meta.crc32 in
      (
        matches,
        record v { disabled = true },
        set_verify_state (if matches then verify_ok else verify_bad) meta,
      )

  unfoldable pub observe : ℕ → List ℕ → StoreVerify K → EntryMeta → Bool × StoreVerify K × EntryMeta
  unfolding conclude
  observe offset block v meta =
      let fed = record v { crc = crc.update v.crc block; pos = add64 v.pos (length block) } in
      if v.disabled || not (offset == v.pos)
      then (true, record v { disabled = true }, meta)
      else if ltb fed.pos meta.uncompressed_size
      then (true, fed, meta)
      else conclude fed meta

pub data OpenKind (C S K : Type 0) : Type 0 where
  empty : OpenKind C S K
  store : (data_start compressed_size : ℕ) → Option (StoreVerify K) → OpenKind C S K
  coded : EntryPool C S K → OpenKind C S K

pub record OpenFile (C S K : Type 0) : Type 0 where
  pub ino : ℕ
  pub meta_idx : ℕ
  pub size : ℕ
  pub kind : OpenKind C S K

module _ {C S K : Type 0} (crc : Crc K) where
  -- `EntryPool::new`.
  unfoldable pub new_pool : EntryLocation → ℕ → EntryPool C S K
  new_pool loc cap = record { idle = []; per_handle_cap = cap; loc = loc }

  unfoldable pub open_kind : Bool → EntryMeta → EntryLocation → Config → OpenKind C S K
  unfolding new_pool new
  open_kind verify meta loc config =
      if meta.uncompressed_size == 0
      then empty
      else if eq_Method loc.method Method.store
      then store loc.data_start loc.compressed_size (if verify then some (new crc) else none)
      else coded (new_pool loc config.decoders_per_file)

  unfoldable pub new_file : Bool → ℕ → ℕ → EntryMeta → EntryLocation → Config → OpenFile C S K
  unfolding open_kind
  new_file verify ino meta_idx meta loc config = record {
    ino = ino;
    meta_idx = meta_idx;
    size = meta.uncompressed_size;
    kind = open_kind verify meta loc config;
  }

  unfoldable pub observe_kind :
      ℕ → List ℕ → OpenKind C S K → EntryMeta → Bool × OpenKind C S K × EntryMeta
  unfolding observe
  observe_kind offset block (store start size (some v)) meta =
      let (answer, v₁, meta₁) = observe crc offset block v meta in
      (answer, store start size (some v₁), meta₁)
  observe_kind offset block (store start size none) meta = (true, store start size none, meta)
  observe_kind offset block empty meta = (true, empty, meta)
  observe_kind offset block (coded pool) meta = (true, coded pool, meta)

  unfoldable pub observe_store :
      ℕ → List ℕ → OpenFile C S K → EntryMeta → Bool × OpenFile C S K × EntryMeta
  unfolding observe_kind
  observe_store offset block file meta =
      let (answer, kind, meta₁) = observe_kind offset block file.kind meta in
      (answer, record file { kind = kind }, meta₁)

-- `HashMap`, as the list of its keys and values.
unfoldable pub remove_key : {F : Type 0} → ℕ → List (ℕ × F) → List (ℕ × F)
remove_key fh [] = []
remove_key fh ((k, f) ∷ map) =
    let rest = remove_key fh map in if k == fh then rest else (k, f) ∷ rest

unfoldable pub find_key : {F : Type 0} → ℕ → List (ℕ × F) → Option F
find_key fh [] = none
find_key fh ((k, f) ∷ map) = let rest = find_key fh map in if k == fh then some f else rest

pub record HandleTable (F : Type 0) : Type 0 where
  pub map : List (ℕ × F)
  pub next : ℕ

module _ {F : Type 0} where
  unfoldable pub new_table : HandleTable F
  new_table = record { map = []; next = 1 }

  unfoldable pub insert : F → HandleTable F → ℕ × HandleTable F
  unfolding remove_key
  insert file t =
      (t.next, record { map = (t.next, file) ∷ remove_key t.next t.map; next = add64 t.next 1 })

  unfoldable pub get : ℕ → HandleTable F → Option F
  unfolding find_key
  get fh t = find_key fh t.map

  unfoldable pub remove : ℕ → HandleTable F → Option F × HandleTable F
  unfolding find_key remove_key
  remove fh t = (find_key fh t.map, record t { map = remove_key fh t.map })
