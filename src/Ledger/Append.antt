-- ===== src/Ledger/Append.antt =====
-- radar/src/crt_radar/run_ledger.py: `append` and its callers. A call returns the file after it and
-- what it returns or raises; a call that raises after the write leaves the line behind.
use crt_master.Base.{
  Bool, List, Option, Result, String, [], err, failed_after_append, false, find_last, get_last?,
  if◌then◌else◌, keep_if, none, ok, pos, refusing_append, require, some, ℕ, ℤ, ◌&&◌, ◌++◌, ◌+◌,
  ◌>>=◌, ◌>>◌, ◌∷◌,
}
use crt_master.Json.{arr, bool, end, field, float, get, has, int, is_str, nil, obj, put, str}
use crt_master.Runtime.{
  Dict, Moment, Runtime, Value, equals_int, or_clock, or_fresh, subscript, to_float, to_int,
  to_list, to_str,
}
use crt_master.Liquidation.Verify.{verify_snapshot}
use crt_master.Ledger.{
  LedgerFile, compute_record_hash, genesis_hash, ledger_schema, records, validate,
}

module _ (rt : Runtime) where
  open rt use {dump}

  abbrev pub Outcome {ℓ} : Type ℓ → Type ℓ
  Outcome A = LedgerFile rt × Result A

  -- `open("ab")` and a write of the line with its newline.
  abbrev pub write_line : LedgerFile rt → Dict rt → LedgerFile rt
  write_line f row = record f { lines = f.lines ++ dump (obj row) ∷ [] }

  -- `previous["record_hash"] if previous else GENESIS_HASH`; an empty dictionary is false too.
  unfoldable pub previous_link : Option (Dict rt) → Result (Value rt)
  previous_link none = ok (str genesis_hash)
  previous_link (some end) = ok (str genesis_hash)
  previous_link (some row) = subscript rt row "record_hash"

  -- The dictionary `record` before its hash is added.
  abbrev pub new_body : ℕ → String → Value rt → ℤ → String → Value rt → Dict rt
  new_body n record_type payload now run_id link = field "schema_version" (str ledger_schema) (
      field "sequence" (int (pos n)) (
        field "record_type" (str record_type) (
          field "run_id" (str run_id) (
            field "observed_ms" (int now) (
              field "prev_record_hash" link (
                field "external_action_authority" (str "NONE") (
                  field "external_action_performed" (bool false)
                    (field "payload" payload end))))))))

  -- `record["record_hash"] = …`
  unfoldable pub seal : Dict rt → Dict rt
  seal body = put "record_hash" (str (compute_record_hash rt body)) body

  -- The record that `append` builds for a file.
  unfoldable pub next_record :
      LedgerFile rt → String → Value rt → Option ℤ → Option String → Moment → Result (Dict rt)
  next_record f record_type payload observed_ms run_id moment = do
    current ← validate rt none f
    require current.valid refusing_append
    rows ← records rt f
    link ← previous_link (get_last? rows)
    ok (
        seal (
          new_body (current.record_count + 1) record_type payload
            (or_clock observed_ms moment.now_ms) (or_fresh run_id moment.uuid) link))

  unfoldable pub check_after : LedgerFile rt → Dict rt → Result (Dict rt)
  check_after f row = do post ← validate rt none f; require post.valid failed_after_append; ok row

  unfoldable pub append :
      LedgerFile rt → String → Value rt → Option ℤ → Option String → Moment → Outcome (Dict rt)
  append f record_type payload observed_ms run_id moment =
      elim (next_record f record_type payload observed_ms run_id moment) [
        | err e ↦ (f, err e)
        | ok row ↦ (write_line f row, check_after (write_line f row) row)
      ]

  abbrev pub payload_matches : ℤ → String → Value rt → Bool
  payload_matches as_of_ms snapshot_hash (obj payload) =
      equals_int rt (get "as_of_ms" payload) as_of_ms
      && is_str (get "snapshot_hash" payload) snapshot_hash
  payload_matches as_of_ms snapshot_hash _ = false

  -- The test of the loop in `_snapshot_exists`.
  abbrev pub is_snapshot : ℤ → String → Dict rt → Bool
  is_snapshot as_of_ms snapshot_hash row =
      is_str (get "record_type" row) "SNAPSHOT"
      && payload_matches as_of_ms snapshot_hash (get "payload" row)

  -- `_snapshot_exists`: the last such row.
  unfoldable pub snapshot_exists : LedgerFile rt → ℤ → String → Result (Option (Dict rt))
  snapshot_exists f as_of_ms snapshot_hash = do
    rows ← records rt f
    ok (find_last (is_snapshot as_of_ms snapshot_hash) rows)

  -- The arguments of `append_snapshot` beside the snapshot.
  pub record SnapshotContext : Type 0 where
    pub registry_hash : Value rt
    pub archive_path : Value rt
    pub elapsed_ms : ℤ
    pub process_run_id : Value rt
    pub observed_ms : Option ℤ

  abbrev pub or_default : String → Value rt → Dict rt → Value rt
  or_default key default d = if has key d then get key d else default

  unfoldable pub snapshot_payload : Dict rt → ℤ → String → SnapshotContext → Result (Dict rt)
  snapshot_payload snapshot as_of_ms snapshot_hash c = do
    ratio ← subscript rt snapshot "coverage_ratio"
    coverage_ratio ← to_float rt ratio
    quality_state ← subscript rt snapshot "quality_state"
    blocked_reasons ← to_list rt (or_default "blocked_reasons" (arr nil) snapshot)
    event_set_hash ← subscript rt snapshot "event_set_hash"
    connection_set_hash ← subscript rt snapshot "connection_set_hash"
    ok (
        field "as_of_ms" (int as_of_ms) (
          field "registry_hash" c.registry_hash (
            field "snapshot_hash" (str snapshot_hash) (
              field "archive_path" c.archive_path (
                field "coverage_ratio" (float coverage_ratio) (
                  field "quality_state" quality_state (
                    field "blocked_reasons" (arr blocked_reasons) (
                      field "elapsed_ms" (int c.elapsed_ms) (
                        field "event_set_hash" event_set_hash (
                          field "connection_set_hash" connection_set_hash
                            (field "process_run_id" c.process_run_id end)))))))))))

  -- What `append_snapshot` does with the row that `_snapshot_exists` found, if any.
  unfoldable pub skipped : Dict rt → Result (Dict rt)
  skipped row = do
    existing_hash ← subscript rt row "record_hash"
    existing_sequence ← subscript rt row "sequence"
    ok (
        field "append_status" (str "DUPLICATE_SKIPPED") (
          field "existing_record_hash" existing_hash
            (field "existing_sequence" existing_sequence end)))

  -- The verified snapshot with its key.
  unfoldable pub identify : Value rt → Result (Dict rt × ℤ × String)
  identify value = do
    snapshot ← verify_snapshot rt value
    as_of ← subscript rt snapshot "as_of_ms"
    as_of_ms ← to_int rt as_of
    stored ← subscript rt snapshot "snapshot_hash"
    ok (snapshot, as_of_ms, to_str rt stored)

  abbrev pub mark_appended : Dict rt → Dict rt
  mark_appended row = put "append_status" (str "APPENDED") row

  -- `append`, with the mark on the record that is returned and not written.
  unfoldable pub append_new : LedgerFile rt → Dict rt → Option ℤ → Moment → Outcome (Dict rt)
  append_new f payload observed_ms moment =
      let outcome = append f "SNAPSHOT" (obj payload) observed_ms (some moment.uuid) moment in
      (outcome.0, (outcome.1 >>= λ row. ok (mark_appended row)))

  -- `append_snapshot` after the search for an earlier row.
  unfoldable pub append_found :
      LedgerFile rt
      → Dict rt × ℤ × String
      → SnapshotContext
      → Moment
      → Option (Dict rt)
      → Outcome (Dict rt)
  append_found f (snapshot, as_of_ms, digest) c moment (some row) = (f, skipped row)
  append_found f (snapshot, as_of_ms, digest) c moment none =
      elim (snapshot_payload snapshot as_of_ms digest c) [
        | err e ↦ (f, err e)
        | ok payload ↦ append_new f payload (some (or_clock c.observed_ms as_of_ms)) moment
      ]

  unfoldable pub append_identified :
      LedgerFile rt → Dict rt × ℤ × String → SnapshotContext → Moment → Outcome (Dict rt)
  append_identified f (snapshot, as_of_ms, digest) c moment =
      elim (snapshot_exists f as_of_ms digest) [
        | err e ↦ (f, err e)
        | ok existing ↦ append_found f (snapshot, as_of_ms, digest) c moment existing
      ]

  unfoldable pub append_snapshot :
      LedgerFile rt → Value rt → SnapshotContext → Moment → Outcome (Dict rt)
  append_snapshot f value c moment = elim (identify value) [
    | err e ↦ (f, err e)
    | ok found ↦ append_identified f found c moment
  ]

  -- `details or {}`
  abbrev pub or_empty : Option (Dict rt) → Dict rt
  or_empty none = end
  or_empty (some d) = d

  unfoldable pub append_process_event :
      LedgerFile rt → String → String → Option (Dict rt) → Option ℤ → Moment → Outcome (Dict rt)
  append_process_event f event process_run_id details observed_ms moment =
      append f "PROCESS_EVENT"
        (obj (
          field "event" (str event) (
            field "process_run_id" (str process_run_id)
              (field "details" (obj (or_empty details)) end))))
        observed_ms (some moment.uuid) moment

  unfoldable pub iter_type : LedgerFile rt → String → Result (List (Dict rt))
  iter_type f record_type = do
    rows ← records rt f
    ok (keep_if (λ row. is_str (get "record_type" row) record_type) rows)
