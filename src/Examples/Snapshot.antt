-- ===== src/Examples/Snapshot.antt =====
-- A snapshot of a store with two sessions and no event.
use crt_master.Base.{
  integrity_error, [], err, false, length, none, ok, pos, refl, some, true, ◌+ℤ◌, ◌↔◌, ◌≡◌, ◌≤ℤ◌,
}
use crt_master.Json.{null, get, obj, str}
use crt_master.Runtime.{Dict, Runtime, Value}
use crt_master.Liquidation.Verify.{verify_snapshot}
use crt_master.Liquidation.Snapshot.{
  Store, add_hash, bad_anomalies, build_snapshot, snapshot_base, window_summary,
}
use crt_master.Liquidation.Built.{
  HashLaws, build_snapshot-quality, build_snapshot-verify_snapshot, window_summary-gap_ms,
}
use crt_master.Liquidation.Disk.{
  IsWritten, LoadsVerified, Place, PrettyLaws, partly_written, write_file, load_verified_snapshot,
  load_verified_snapshot-write_snapshot, write_snapshot,
}
use crt_master.Examples.Toy.{digest_0, toy}
use crt_master.Examples.Liquidation.{at_50, two_sessions}

-- Every digest has 64 digits here.
abbrev pub digests : Runtime
digests = record toy { hash = λ v. digest_0 }

pub digests-laws : HashLaws digests
digests-laws = record { digits = λ v. refl }

abbrev quiet : Store digests
quiet = record {
  sessions = two_sessions;
  tables = record { events = []; raw_lines = []; anomalies = [] };
  integrity_ok = true;
}

abbrev built : Dict digests
built =
    add_hash digests "snapshot_hash"
      (add_hash digests "snapshot_id" (snapshot_base digests quiet (pos 3_600_000) (pos 950_000)))

quiet-built : build_snapshot digests quiet (some (pos 3_600_000)) (pos 950_000) at_50 ≡ ok built
unfolding build_snapshot
quiet-built = refl

build_snapshot-verify_snapshot_example : verify_snapshot digests (obj built) ≡ ok built
build_snapshot-verify_snapshot_example =
    build_snapshot-verify_snapshot digests digests-laws quiet (some (pos 3_600_000)) (pos 950_000)
      at_50 quiet-built

build_snapshot-quality_example :
    (get "quality_state" built ≡ str "VALID_FRESH_COMPLETE_COVERAGE") ↔ (
      (true ≡ true)
      × (digests.floats.lt
            (window_summary digests quiet 3600 (pos 3_600_000)).coverage_ratio
            (pos 950_000)
          ≡ false)
      × (digests.floats.lt
            (window_summary digests quiet 86_400 (pos 3_600_000)).coverage_ratio
            (pos 950_000)
          ≡ false)
      × (length (bad_anomalies digests quiet.tables (pos 3_600_000)) ≡ 0))
build_snapshot-quality_example =
    build_snapshot-quality digests quiet (some (pos 3_600_000)) (pos 950_000) at_50 quiet-built

window_summary-gap_ms_example :
    let w = window_summary digests quiet 3600 (pos 3_600_000) in
    (pos 0 ≤ℤ w.gap_ms) × (w.gap_ms ≤ℤ pos 3_600_000) × ((w.covered +ℤ w.gap_ms) ≡ pos 3_600_000)
window_summary-gap_ms_example = window_summary-gap_ms digests quiet 3600 (pos 3_600_000)

abbrev stale : Place (Value digests)
stale = record { target = some null; temporary = none }

-- A value is its own text here.
printed : PrettyLaws digests (Value digests) (λ v. v) some
printed = record {
  read_back = λ d. d;
  parsed = λ d. refl;
  texts = λ d k s h. h;
  hashes = λ d k. refl;
}

built-written :
    write_snapshot digests (Value digests) (λ v. v) some stale (obj built) none
    ≡ (record { target = some (obj built); temporary = none }, ok tt)
unfolding write_snapshot write_file verify_snapshot snapshot_base
built-written = refl

built-torn :
    write_snapshot digests
      (Value digests)
      (λ v. v)
      some
      stale
      (obj built)
      (some (partly_written null integrity_error))
    ≡ (record { target = some null; temporary = some null }, err integrity_error)
unfolding write_snapshot write_file verify_snapshot snapshot_base
built-torn = refl

load_verified_snapshot-write_snapshot_example :
    IsWritten digests
      (Value digests)
      (λ v. v)
      some
      printed
      stale
      (obj built)
      (write_snapshot digests (Value digests) (λ v. v) some stale (obj built) none)
    × LoadsVerified digests
        (Value digests)
        (λ v. v)
        some
        (load_verified_snapshot digests
          (Value digests)
          (λ v. v)
          some
          (write_snapshot digests (Value digests) (λ v. v) some stale (obj built) none).0.target)
load_verified_snapshot-write_snapshot_example =
    load_verified_snapshot-write_snapshot digests (Value digests) (λ v. v) some printed stale
      (obj built) none
