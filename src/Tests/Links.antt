-- ===== src/Tests/Links.antt =====
-- The target of a symbolic link that is stored.
use zipfs.Base.{ℕ, ◌≡◌, refl, some, false, List, [], ◌∷◌, Result, ok, ◌==◌}
use zipfs.Io.{Error}
use zipfs.Base.Int.{as_u64}
use zipfs.Entry.{EntryMeta, verify_bad, eq_Method}
use zipfs.Guard
use zipfs.Guard.{GuardedFile}
use zipfs.Decode.{EntryLocation}
use zipfs.Archive.{data_start}
use zipfs.Fs.{locate}
use zipfs.Fs.Links.{read_all}
use zipfs.Fs.Targets.{IsTarget, read_all-IsTarget}
use zipfs.Tests.Data.{entry, guard, os, flate, raw, crc}
use zipfs.Tests.Pools.{budget}

abbrev found_at : ℕ → GuardedFile × ℕ → Result Error (ℕ × ℕ) × (GuardedFile × ℕ)
found_at wayfinder s = (ok (1, 5), s)

abbrev link : EntryMeta
link = record entry { mode = 0o120777 }

abbrev target : List ℕ
target = 1 ∷ 4 ∷ 1 ∷ 5 ∷ []

abbrev after : EntryMeta
after = record link { verify_state = 1 }

read_it :
    read_all os flate raw crc (data_start found_at) 9 4096 link budget (guard, 6)
    ≡ some (ok target, after, budget, (guard, 6))
unfolding read_all data_start Guard.new eq_Method as_u64
read_it = refl

read_all-IsTarget_example :
    ((link.verify_state == verify_bad) ≡ false)
    × ((loc : EntryLocation) × ((locate os (data_start found_at) link (guard, 6)).0 ≡ ok loc)
        × IsTarget os flate raw crc 4096 budget loc
            (locate os (data_start found_at) link (guard, 6)).1
            target)
read_all-IsTarget_example =
    read_all-IsTarget os flate raw crc (data_start found_at) 9 4096 link after budget budget
      (guard, 6) (guard, 6) target read_it
