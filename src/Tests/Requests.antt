-- ===== src/Tests/Requests.antt =====
-- Requests on a mount whose root has two files, and paths.
use zipfs.Base.{
  false, ℕ, ◌+◌, ◌≡◌, ◌≤◌, ◌<◌, ◌↔◌, ◌%◌, refl, none, some, List, [], ◌∷◌, Result, ok, length, drop,
  get_elem?, ltb,
}
use zipfs.Io.{Error}
use zipfs.Entry.{EntryMeta}
use zipfs.Guard
use zipfs.Guard.{GuardedFile}
use zipfs.Attr.{Clock, file_attr, file_attr-perm}
use zipfs.Index.{node, meta, is_dir}
use zipfs.Codec.{Codec}
use zipfs.Source.{BufSource}
use zipfs.Fs.Read.{Fs, read}
use zipfs.Fs.Read.Stored.{Answered, read-stored}
use zipfs.Handle.{get, find_key}
use zipfs.Handle.{new_table}
use zipfs.Fs.{Reply, read_direct}
use zipfs.Fs.Direct.{IsInside, read_direct-ok}
use zipfs.Fs.Listing.{DirEntry, IsFilled, offered, readdir, readdir-drop}
use zipfs.Fs.Handlers.{ZipFs, rdonly, Opened, open_file, open_file-Opened}
use zipfs.Fs.Read.{File, FileAnswer, read_kind, read_kind-stored}
use zipfs.Guard.Reads.{IsCurrent}
use zipfs.Handle.{store}
use zipfs.Paths.{components, normalize_path, reject_reason, max_depth}
use zipfs.Paths.Normal.{components-normalize_path}
use zipfs.Paths.Safe.{AllIsName, reject_reason-none}
use zipfs.Tests.Data.{entry, flate, raw, os, guard, crc, location}
use zipfs.Tests.Pools.{config, budget}
use zipfs.Tests.Tree.{index, root, file_node}

abbrev clock : Clock ℕ
clock = record {
  unix_epoch = 1000000;
  checked_add = λ t secs nanos. some (t + secs);
  checked_sub = λ t secs nanos. none;
}

file_attr-perm_example :
    ((file_attr clock index 2 (file_node 0) config).perm < 512)
    × ((m : EntryMeta)
        → meta index (file_node 0) ≡ some m
        → 0 < m.mode % 512
        → (file_attr clock index 2 (file_node 0) config).perm ≡ m.mode % 512)
file_attr-perm_example = file_attr-perm clock index 2 (file_node 0) config

read_direct-ok_example :
    ((read_direct os location 1 2 (guard, 6)).0 ≡ ok (4 ∷ 1 ∷ []))
    ↔ (IsInside os location 1 2 × ((Guard.read_exact_at os guard 2 2 6).0 ≡ ok (4 ∷ 1 ∷ [])))
read_direct-ok_example = read_direct-ok os location 1 2 guard 6 (4 ∷ 1 ∷ [])

readdir-drop_example :
    (r : List DirEntry) × (readdir (λ had e. ltb 1 (length had)) index 1 1 ≡ ok r)
    × IsFilled (λ had e. ltb 1 (length had)) [] (drop 1 (offered index 1 root 0)) r
    × ((k : ℕ) (e : DirEntry) → get_elem? (offered index 1 root 0) k ≡ some e → e.cursor ≡ k + 1)
unfolding node is_dir
readdir-drop_example = readdir-drop index (λ had e. ltb 1 (length had)) 1 1 root refl refl

abbrev fs : ZipFs (Codec (ℕ × ℕ) (Unit {0})) BufSource (List ℕ) ℕ
fs = record {
  index = index;
  reader = guard;
  handles = new_table;
  budget = budget;
  config = config;
  outside = 6;
}

abbrev data_start : EntryMeta → GuardedFile × ℕ → Result Error ℕ × EntryMeta × (GuardedFile × ℕ)
data_start m s = (ok m.data_start, m, s)

open_file-Opened_example :
    Opened os crc data_start 2
      (open_file os crc data_start 2 rdonly fs).0
      fs
      (open_file os crc data_start 2 rdonly fs).1
open_file-Opened_example = open_file-Opened os crc data_start 2 rdonly fs

-- `./a//b/`
abbrev path : List ℕ
path = 46 ∷ 47 ∷ 97 ∷ 47 ∷ 47 ∷ 98 ∷ 47 ∷ []

components-normalize_path_example : components (normalize_path path) ≡ components path
components-normalize_path_example = components-normalize_path path

reject_reason-none_example :
    AllIsName (components path)
    × (1 ≤ length (components path))
    × (length (components path) ≤ max_depth)
unfolding reject_reason
reject_reason-none_example = reject_reason-none path refl

abbrev stored_file : File os flate raw crc (λ n. [])
stored_file = record { ino = 2; meta_idx = 0; size = 4; kind = store 1 4 none }

read_kind-stored_example :
    (a : FileAnswer os flate raw crc (λ n. [])) × (read_kind os flate raw crc
        (λ n. [])
        9
        1
        2
        stored_file
        (store 1 4 none)
        entry
        budget
        (guard, 6)
      ≡ some a)
    × ((bytes : List ℕ)
        → a.0 ≡ ok bytes
        → IsInside os location 1 2
          × ((os.read_exact_at 2 2 6).0 ≡ ok bytes)
          × (guard.is_stale ≡ false)
          × IsCurrent os guard (os.read_exact_at 2 2 6).1)
read_kind-stored_example =
    read_kind-stored os flate raw crc (λ n. []) 9 1 2 1 4 stored_file none entry budget guard 6

abbrev reading_fs : Fs os flate raw crc (λ n. [])
reading_fs = record fs { handles = record { map = (1, stored_file) ∷ []; next = 2 } }

read-stored_example :
    (a : Reply (List ℕ) × Fs os flate raw crc (λ n. [])) × (read os flate raw crc
        (λ n. [])
        9
        1
        1
        2
        reading_fs
      ≡ some a)
    × Answered os flate raw crc (λ n. []) 9 1 1 2 1 4 stored_file none entry reading_fs a
unfolding get find_key
read-stored_example =
    read-stored os flate raw crc (λ n. []) 9 1 1 2 1 4 stored_file none entry reading_fs refl refl
      refl
