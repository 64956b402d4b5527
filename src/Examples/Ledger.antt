-- ===== src/Examples/Ledger.antt =====
-- A ledger with two records.
use crt_master.Base.{List, [], false, map, none, ok, pos, refl, some, true, ◌↔◌, ◌∷◌, ◌≡◌}
use crt_master.Json.{arr, end, field, float, get, int, nil, null, obj, str}
use crt_master.Runtime.{Dict, Moment, subscript, to_float, to_int, to_list, to_str}
use crt_master.Ledger.{
  LedgerFile, Validation, body_for_hash, compute_record_hash, genesis_hash, raw_lines, read_row,
  read_rows, records, row_issues, scan_hash, scan_payload, scan_row, scan_rows, scan_sequence,
  snapshot_key, validate, validate_rows,
}
use crt_master.Ledger.Append.{
  SnapshotContext, append, append_found, append_identified, append_new, append_snapshot,
  check_after, identify, mark_appended, next_record, previous_link, seal, skipped, snapshot_exists,
  snapshot_payload, write_line,
}
use crt_master.Ledger.Chain.{row_keys}
use crt_master.Ledger.Validate.{IsSoundLedger, head_after, validate_rows_iff}
use crt_master.Ledger.Grow.{IsNew, append-IsSound, sealed_record}
use crt_master.Ledger.Left.{Left, append-Left}
use crt_master.Ledger.Twice.{append_snapshot-again}
use crt_master.Ledger.Tamper.{NoCollision, validate-same_records}
use crt_master.Liquidation.Verify.{verify_snapshot}
use crt_master.Examples.Toy.{digest_0, str-ne, toy, toy_laws}

abbrev nothing : LedgerFile toy
nothing = record { lines = []; torn = false }

abbrev noon : Moment
noon = record { now_ms = pos 1_790_000_000_000; uuid = "id-1" }

abbrev started : Dict toy
started = sealed_record toy [] "PROCESS_EVENT" (obj end) (pos 1_790_000_000_000) "id-1"

abbrev stopped : Dict toy
stopped = sealed_record toy (started ∷ []) "PROCESS_EVENT" (obj end) (pos 1_790_000_000_000) "id-1"

abbrev two_rows : List (Dict toy)
two_rows = started ∷ stopped ∷ []

started-IsNew : IsNew toy [] started
unfolding seal compute_record_hash body_for_hash row_keys
started-IsNew = record { new_hash = refl; new_key = ([], [], refl, refl) }

append-IsSound_example :
    (append toy nothing "PROCESS_EVENT" (obj end) none none noon
      ≡ (write_line toy nothing started, ok started))
    × (records toy (write_line toy nothing started) ≡ ok (started ∷ []))
    × IsSoundLedger toy (started ∷ [])
unfolding records raw_lines read_rows
append-IsSound_example =
    append-IsSound toy toy_laws nothing [] "PROCESS_EVENT" (obj end) none none noon refl refl tt
      started-IsNew

append-Left_example : Left toy nothing (append toy nothing "PROCESS_EVENT" null none none noon)
append-Left_example = append-Left toy nothing "PROCESS_EVENT" null none none noon

validate_rows_iff_example : IsSoundLedger toy two_rows ↔ (
    (v : Validation) × (validate_rows toy none two_rows ≡ ok v)
    × (v.valid ≡ true)
    × (v.record_count ≡ 2)
    × (v.head_hash ≡ head_after toy genesis_hash two_rows))
validate_rows_iff_example = validate_rows_iff toy two_rows

abbrev two_valid : Validation
two_valid = record {
  valid = true;
  record_count = 2;
  last_sequence = pos 2;
  head_hash = "two";
  errors = [];
}

two_rows-valid : validate_rows toy (some "two") two_rows ≡ ok two_valid
unfolding validate_rows scan_rows scan_row row_issues scan_hash scan_sequence seal
    compute_record_hash body_for_hash
two_rows-valid = refl

two_rows-apart : NoCollision toy two_rows two_rows
unfolding seal compute_record_hash body_for_hash
two_rows-apart = record {
  apart = (
    (λ _. refl, ((λ e. absurd (str-ne "one" "two" refl e)), tt)),
    (((λ e. absurd (str-ne "two" "one" refl e)), (λ _. refl, tt)), tt),
  );
  left_not_genesis = (str-ne "one" genesis_hash refl, (str-ne "two" genesis_hash refl, tt));
  right_not_genesis = (str-ne "one" genesis_hash refl, (str-ne "two" genesis_hash refl, tt));
}

validate-same_records_example : map (body_for_hash toy) two_rows ≡ map (body_for_hash toy) two_rows
validate-same_records_example =
    validate-same_records toy two_rows two_rows "two" two_rows-valid refl two_rows-valid refl
      two_rows-apart

-- A snapshot that `verify_snapshot` accepts.
abbrev snapshot : Dict toy
snapshot = field "schema_version" (str "CRT_LIQ_AGGREGATE_SNAPSHOT_V1") (
    field "snapshot_hash" (str digest_0) (
      field "external_action_authority" (str "NONE") (
        field "as_of_ms" (int (pos 1_790_000_000_000)) (
          field "coverage_ratio" (float (pos 990_000)) (
            field "quality_state" (str "VALID_FRESH_COMPLETE_COVERAGE")
              (field "event_set_hash" (str "e") (field "connection_set_hash" (str "c") end)))))))

abbrev context : SnapshotContext toy
context = record {
  registry_hash = str "r";
  archive_path = str "a";
  elapsed_ms = pos 5;
  process_run_id = str "p";
  observed_ms = none;
}

abbrev recorded : Dict toy
recorded = field "as_of_ms" (int (pos 1_790_000_000_000)) (
    field "registry_hash" (str "r") (
      field "snapshot_hash" (str digest_0) (
        field "archive_path" (str "a") (
          field "coverage_ratio" (float (pos 990_000)) (
            field "quality_state" (str "VALID_FRESH_COMPLETE_COVERAGE") (
              field "blocked_reasons" (arr nil) (
                field "elapsed_ms" (int (pos 5)) (
                  field "event_set_hash" (str "e") (
                    field "connection_set_hash" (str "c")
                      (field "process_run_id" (str "p") end))))))))))

abbrev snapshot_row : Dict toy
snapshot_row = sealed_record toy [] "SNAPSHOT" (obj recorded) (pos 1_790_000_000_000) "id-1"

snapshot_taken :
    append_snapshot toy nothing (obj snapshot) context noon
    ≡ (write_line toy nothing snapshot_row, ok (mark_appended toy snapshot_row))
unfolding append_snapshot identify verify_snapshot subscript to_int append_identified
    snapshot_exists records raw_lines read_rows append_found snapshot_payload to_float to_list
    append_new append next_record validate validate_rows scan_rows check_after previous_link seal
    skipped body_for_hash compute_record_hash read_row row_issues scan_hash scan_payload scan_row
    scan_sequence snapshot_key to_str
snapshot_taken = refl

append_snapshot-again_example :
    (r' : Dict toy) × (append_snapshot toy
        (write_line toy nothing snapshot_row)
        (obj snapshot)
        context
        noon
      ≡ (write_line toy nothing snapshot_row, ok r'))
    × (get "append_status" r' ≡ str "DUPLICATE_SKIPPED")
append_snapshot-again_example =
    append_snapshot-again toy toy_laws nothing (obj snapshot) context noon
      (write_line toy nothing snapshot_row) (mark_appended toy snapshot_row) snapshot_taken context
      noon
