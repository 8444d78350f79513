-- ===== src/Examples/Races.antt =====
-- The theorems on racing acquirers, at concrete acquirers.
use loony_dev.Prelude.{true, [], none, some, Text, codes, ◌≡◌, refl}
use loony_dev.Lease.Staleness.{delivered, default_stale_after, parse_lease}
use loony_dev.Lease.Acquire.{reclaimable}
use loony_dev.Lease.Race.{
  Acquirer, run, finished, content, torn_read, both_reclaim, two_attempts, empty_disk, stale_disk,
  run-torn_read, run-both_reclaim,
}
use loony_dev.Examples.Samples.{scene_with, drive_lease}

abbrev acquirer : Text → Acquirer
acquirer payload = record {
  scene = scene_with drive_lease delivered;
  stale_after = default_stale_after;
  window = none;
  payload = payload;
}

abbrev first : Acquirer
first = acquirer (codes "first")

abbrev second : Acquirer
second = acquirer (codes "second")

torn_example :
    let (after, p, q) = run first second torn_read two_attempts two_attempts (empty_disk 0) in
    (p ≡ finished true) × (q ≡ finished true) × (content after.file ≡ some (codes "second"))
torn_example = run-torn_read first second 0 refl

both_example :
    let (after, p, q) = run first second both_reclaim two_attempts two_attempts (stale_disk 0 []) in
    (p ≡ finished true) × (q ≡ finished true) × (content after.file ≡ some (codes "second"))
unfolding reclaimable parse_lease
both_example = run-both_reclaim first second 0 [] refl refl
