-- ===== src/Tests/Archive.antt =====
-- The guard and the buffered reader on an archive of six bytes, which is found changed, which cannot
-- be examined, or which stays as it is; and the codecs.
use zipfs.Base.{◌≡◌, refl, ◌↔◌, true, false, List, [], ◌∷◌, ◌++◌, ok, err, length, take, drop}
use zipfs.Codec.{codec, store_step}
use zipfs.Codec.Streaming.{IsStreaming, codec_decoded, store_step-copies, codec-IsStreaming}
use zipfs.Guard.{
  GuardedFile, modified, stale, current, mark, new, verify, check, read_at, read_exact_at,
  stale_error, freshness,
}
use zipfs.Guard.Reads.{IsCurrent, verify-ok, read_exact_at-ok, check-unknown}
use zipfs.Guard.Stale.{
  checks, reads, reads_exactly, Call, run, run-stale, change_reports, to_nat, change_reports-run,
}
use zipfs.Source.{source}
use zipfs.Source.Range.{IsValid, unread, source-IsStream}
use zipfs.Stream.{IsStream}
use zipfs.Tests.Data.{
  archive_bytes, archive_metadata, os, blind_os, guard, os-ReadsFile, flate, raw, flate-IsInflater,
  raw-IsUnpacker,
}

abbrev calls : List Call
calls = checks ∷ reads 0 4 ∷ reads_exactly 1 2 ∷ checks ∷ []

abbrev changed_guard : GuardedFile
changed_guard = mark modified guard

run-stale_example :
    let t = run os calls (changed_guard, 6) in
    (t.0 ≡ changed_guard)
    × ((read_at os t.0 0 2 t.1).0 ≡ err stale_error)
    × ((read_exact_at os t.0 0 2 t.1).0 ≡ err stale_error)
    × ((check os t.0 t.1).0 ≡ stale)
unfolding mark new
run-stale_example = run-stale os calls (changed_guard, 6) 0 2 refl

change_reports-run_example :
    let g = (run os calls (new (archive_metadata 6) true, 7)).0 in
    change_reports g.log ≡ to_nat g.is_stale
change_reports-run_example = change_reports-run os (archive_metadata 6) true calls 7

verify-ok_example :
    ((verify os guard 6).0 ≡ ok tt) ↔ ((guard.is_stale ≡ false) × IsCurrent os guard 6)
verify-ok_example = verify-ok os guard 6

read_exact_at-ok_example : ((read_exact_at os guard 1 2 6).0 ≡ ok (1 ∷ 4 ∷ [])) ↔ (
    ((os.read_exact_at 1 2 6).0 ≡ ok (1 ∷ 4 ∷ []))
    × (guard.is_stale ≡ false)
    × IsCurrent os guard (os.read_exact_at 1 2 6).1)
read_exact_at-ok_example = read_exact_at-ok os guard 1 2 6 (1 ∷ 4 ∷ [])

check-unknown_example :
    let g' = (check blind_os guard 6).1 in
    (guard.is_stale ≡ false)
    × (g'.is_stale ≡ false)
    × (g'.unsure ≡ true)
    × (IsCurrent blind_os g' 6 → (check blind_os g' 6).0 ≡ current)
unfolding check freshness new
check-unknown_example = check-unknown blind_os guard 6 6 refl

source-IsStream_example : IsStream (source os) (IsValid archive_bytes) (unread archive_bytes)
source-IsStream_example = source-IsStream archive_bytes os os-ReadsFile

store_step-copies_example :
    let (s, output') = store_step (1 ∷ 2 ∷ 3 ∷ []) (0 ∷ 0 ∷ []) in
    (length output' ≡ 2)
    × (s.consumed ≡ 2)
    × (s.produced ≡ s.consumed)
    × (1 ∷ 2 ∷ 3 ∷ 4 ∷ [] ≡ take s.produced output' ++ drop s.consumed (1 ∷ 2 ∷ 3 ∷ 4 ∷ []))
store_step-copies_example = store_step-copies (1 ∷ 2 ∷ 3 ∷ []) (4 ∷ []) (0 ∷ 0 ∷ [])

codec-IsStreaming_example :
    IsStreaming (codec flate raw) (codec_decoded flate raw (λ _ bytes. bytes) (λ _ bytes. bytes))
codec-IsStreaming_example =
    codec-IsStreaming flate raw (λ _ bytes. bytes) (λ _ bytes. bytes) flate-IsInflater
      raw-IsUnpacker
