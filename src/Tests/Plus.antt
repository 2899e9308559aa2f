-- ===== src/Tests/Plus.antt =====
-- A listing with attributes of a root that has two files, and the start of an entry's bytes that is
-- looked for once.
use zipfs.Base.{[], ℕ, ◌+◌, ◌≡◌, refl, none, some, List, Result, ok, length, take, ltb, arith}
use zipfs.Io.{Error}
use zipfs.Entry.{EntryMeta}
use zipfs.Guard.{GuardedFile}
use zipfs.Archive.{unset, set_data_start, data_start, range_start, Origin, data_start-ok}
use zipfs.Attr.{Clock}
use zipfs.Index.{node, is_dir}
use zipfs.Fs.Listing.{IsFilled, offered}
use zipfs.Fs.Plus.{
  offered_plus, PlusEntry, readdirplus, HaveAttr, plains, plains_plus, readdirplus-HaveAttr,
}
use zipfs.Tests.Data.{entry, guard}
use zipfs.Tests.Pools.{config}
use zipfs.Tests.Tree.{index, root}

abbrev clock : Clock ℕ
clock = record {
  unix_epoch = 1000000;
  checked_add = λ t secs nanos. some (t + secs);
  checked_sub = λ t secs nanos. none;
}

readdirplus-HaveAttr_example :
    (r : List (PlusEntry ℕ)) × (readdirplus clock index config (λ had e. ltb 1 (length had)) 1 1
      ≡ ok r)
    × HaveAttr clock index config r
    × (plains_plus clock index config r
        ≡ take (length r) (plains clock index config (offered index 1 root 1)))
    × IsFilled (λ had e. ltb 1 (length had)) [] (offered_plus clock index config 1 root 1) r
unfolding node is_dir
readdirplus-HaveAttr_example =
    readdirplus-HaveAttr clock index config (λ had e. ltb 1 (length had)) 1 1 root root refl refl
      refl (omega arith)

abbrev found_at : ℕ → GuardedFile × ℕ → Result Error (ℕ × ℕ) × (GuardedFile × ℕ)
found_at wayfinder s = (ok (1, 5), s)

abbrev unknown : EntryMeta
unknown = record entry { data_start = unset }

data_start-ok_example :
    (data_start found_at entry (guard, 9) ≡ (ok 1, entry, (guard, 9)))
    × Origin found_at unknown (guard, 6) 1 (guard, 6)
    × (entry ≡ set_data_start 1 unknown)
unfolding data_start range_start set_data_start
data_start-ok_example =
    data_start-ok found_at unknown (guard, 6) 1 entry (guard, 6) (guard, 9) refl refl
