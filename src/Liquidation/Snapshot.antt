-- ===== src/Liquidation/Snapshot.antt =====
-- radar/src/crt_radar/liquidation_aggregator.py: `_window_summary` and `build_snapshot`. The store is
-- the table of sessions and the tables of events and anomalies, and whether SQLite's integrity check
-- says "ok".
use Prim.Native.String.{◌++◌ as append_text}
use crt_master.Base.{
  Bool, List, Option, Result, String, [], eq_ℤ, false, if◌then◌else◌, keep_if, leb_ℤ, length,
  liquidation_error, ltb_ℤ, map, not, ok, pos, require, str_eq, true, ℕ, ℤ, ◌&&◌, ◌*◌, ◌++◌, ◌-ℤ◌,
  ◌==◌, ◌>>◌, ◌||◌, ◌∷◌,
}
use crt_master.Json.{arr, bool, cons, end, field, float, int, nil, obj, put, str, to_items}
use crt_master.Texts.{sorted_set, text_leb}
use crt_master.Runtime.{Dict, Moment, Runtime, Value, or_clock}
use crt_master.Liquidation.Order.{Event}
use crt_master.Liquidation.Events.{Anomaly, EventStore}
use crt_master.Liquidation.Sessions.{SessionStore}
use crt_master.Liquidation.Overlap.{intervals_overlapping}
use crt_master.Liquidation.Intervals.{covered_ms, merge_intervals}
use crt_master.Liquidation.Verify.{snapshot_schema}

module _ (rt : Runtime) where
  open rt use {floats, hash, two_places}
  open floats use {Float, lt, le, add, sum, ratio, decimal, of_int}

  pub record Store : Type 0 where
    pub sessions : SessionStore
    pub tables : EventStore rt
    pub integrity_ok : Bool

  -- The condition of the query in `events_between`, and its order.
  abbrev pub is_between : ℤ → ℤ → Event rt → Bool
  is_between start_ms end_ms e =
      ltb_ℤ start_ms e.event_time_ms && (leb_ℤ e.event_time_ms end_ms && leb_ℤ e.received_ms end_ms)

  abbrev pub event_leb : Event rt → Event rt → Bool
  event_leb a b =
      ltb_ℤ a.event_time_ms b.event_time_ms
      || (eq_ℤ a.event_time_ms b.event_time_ms && text_leb a.event_hash b.event_hash)

  unfoldable pub insert_by_time : Event rt → List (Event rt) → List (Event rt)
  insert_by_time e [] = e ∷ []
  insert_by_time e (x ∷ xs) = elim (event_leb e x) [
    | true ↦ e ∷ x ∷ xs
    | false ↦ x ∷ insert_by_time e xs
  ]

  unfoldable pub order_events : List (Event rt) → List (Event rt)
  order_events [] = []
  order_events (e ∷ es) = insert_by_time e (order_events es)

  unfoldable pub events_between : EventStore rt → ℤ → ℤ → List (Event rt)
  events_between tables start_ms end_ms =
      order_events (keep_if (is_between start_ms end_ms) tables.events)

  unfoldable pub anomalies_between : EventStore rt → ℤ → ℤ → List (Anomaly rt)
  anomalies_between tables start_ms end_ms =
      keep_if (λ a. ltb_ℤ start_ms a.observed_ms && leb_ℤ a.observed_ms end_ms) tables.anomalies

  -- `sum` of no number is the integer 0.
  abbrev pub sum_of : List Float → Value rt
  sum_of [] = int (pos 0)
  sum_of (x ∷ xs) = float (sum (x ∷ xs))

  -- `long_usd + short_usd`
  abbrev pub add_sums : List Float → List Float → Value rt
  add_sums [] ys = sum_of ys
  add_sums (x ∷ xs) [] = sum_of (x ∷ xs)
  add_sums (x ∷ xs) (y ∷ ys) = float (add (sum (x ∷ xs)) (sum (y ∷ ys)))

  abbrev pub notionals : String → List (Event rt) → List Float
  notionals side rows =
      map (λ (e : Event rt). e.notional_usd)
        (keep_if (λ (e : Event rt). str_eq e.liquidation_side side) rows)

  pub record WindowSummary : Type 0 where
    pub window_start_ms : ℤ
    pub window_end_ms : ℤ
    pub long_liquidation_usd : Value rt
    pub short_liquidation_usd : Value rt
    pub total_liquidation_usd : Value rt
    pub event_count : ℕ
    pub coverage_ratio : Float
    pub covered : ℤ
    pub gap_ms : ℤ
    pub event_hashes : List String
    pub merged_intervals : List (ℤ × ℤ)

  unfoldable pub window_summary : Store → ℕ → ℤ → WindowSummary
  window_summary store seconds as_of_ms =
      let length_ms = pos (seconds * 1000) in
      let start_ms = as_of_ms -ℤ length_ms in
      let rows = events_between store.tables start_ms as_of_ms in
      let long = notionals "LONG" rows in
      let short = notionals "SHORT" rows in
      let merged = merge_intervals (intervals_overlapping store.sessions start_ms as_of_ms) in
      record {
        window_start_ms = start_ms;
        window_end_ms = as_of_ms;
        long_liquidation_usd = sum_of long;
        short_liquidation_usd = sum_of short;
        total_liquidation_usd = add_sums long short;
        event_count = length rows;
        coverage_ratio = ratio (covered_ms merged) length_ms;
        covered = covered_ms merged;
        gap_ms = length_ms -ℤ covered_ms merged;
        event_hashes = map (λ (e : Event rt). e.event_hash) rows;
        merged_intervals = merged;
      }

  -- `public_windows[label]`
  abbrev pub public_window : WindowSummary → Value rt
  public_window w = obj (
      field "window_start_ms" (int w.window_start_ms) (
        field "window_end_ms" (int w.window_end_ms) (
          field "long_liquidation_usd" w.long_liquidation_usd (
            field "short_liquidation_usd" w.short_liquidation_usd (
              field "total_liquidation_usd" w.total_liquidation_usd (
                field "event_count" (int (pos w.event_count)) (
                  field "coverage_ratio" (float w.coverage_ratio) (
                    field "covered_ms" (int w.covered) (
                      field "gap_ms" (int w.gap_ms)
                        (field "quiet_window" (bool (w.event_count == 0)) end))))))))))

  abbrev pub strings : List String → Value rt
  strings ss = arr (to_items (map str ss))

  abbrev pub pairs : List (ℤ × ℤ) → Value rt
  pairs xs = arr (to_items (map (λ (x : ℤ × ℤ). arr (cons (int x.0) (cons (int x.1) nil))) xs))

  abbrev pub reason_if : Bool → String → List String
  reason_if b reason = if b then reason ∷ [] else []

  abbrev pub below : String → Float → String
  below label minimum = append_text label (append_text "_COVERAGE_BELOW_" (two_places minimum))

  -- The anomalies of the day before that are not unfilled orders.
  abbrev pub bad_anomalies : EventStore rt → ℤ → List (Anomaly rt)
  bad_anomalies tables as_of =
      keep_if (λ (a : Anomaly rt). not (str_eq a.anomaly_type "UNFILLED_ORDER_EXCLUDED"))
        (anomalies_between tables (as_of -ℤ pos 86_400_000) as_of)

  unfoldable pub blocked_reasons : Store → ℤ → Float → List String
  blocked_reasons store as_of minimum =
      reason_if (not store.integrity_ok) "STORE_INTEGRITY_FAILED"
      ++ (reason_if (lt (window_summary store 3600 as_of).coverage_ratio minimum)
            (below "1H" minimum)
          ++ (reason_if (lt (window_summary store 86_400 as_of).coverage_ratio minimum)
                (below "24H" minimum)
              ++ reason_if (not (length (bad_anomalies store.tables as_of) == 0))
                  "CLOCK_OR_SCHEMA_ANOMALY_WITHIN_24H"))

  abbrev pub quality_of : List String → String
  quality_of [] = "VALID_FRESH_COMPLETE_COVERAGE"
  quality_of (r ∷ rs) = "BLOCKED"

  -- The dictionary `base` before it is hashed.
  unfoldable pub snapshot_base : Store → ℤ → Float → Dict rt
  snapshot_base store as_of minimum =
      let hour = window_summary store 3600 as_of in
      let day = window_summary store 86_400 as_of in
      let reasons = blocked_reasons store as_of minimum in
      let hashes = sorted_set day.event_hashes in
      field "schema_version" (str snapshot_schema) (
        field "store_schema_version" (str "CRT_LIQ_STORE_V1") (
          field "symbol" (str "BTCUSDT") (
            field "as_of_ms" (int as_of) (
              field "generated_at_ms" (int as_of) (
                field "minimum_coverage_ratio" (float minimum) (
                  field "coverage_ratio"
                    (float (
                      if lt day.coverage_ratio hour.coverage_ratio
                      then day.coverage_ratio
                      else hour.coverage_ratio))
                    (field "quality_state" (str (quality_of reasons)) (
                      field "blocked_reasons" (strings (sorted_set reasons)) (
                        field "windows"
                          (obj
                            (field "1h" (public_window hour) (field "24h" (public_window day) end)))
                          (field "event_set_hash" (str (hash (strings hashes))) (
                            field "connection_set_hash"
                              (str (
                                hash (
                                  obj (
                                    field "1h" (pairs hour.merged_intervals)
                                      (field "24h" (pairs day.merged_intervals) end)))))
                              (field "event_count_24h" (int (pos (length hashes))) (
                                field "anomaly_count_24h"
                                  (int (pos (length (bad_anomalies store.tables as_of))))
                                  (field "external_action_authority" (str "NONE") (
                                    field "external_action_performed" (bool false)
                                      end)))))))))))))))

  -- `base[key] = sha256_hex(canonical_json_bytes(base))`
  abbrev pub add_hash : String → Dict rt → Dict rt
  add_hash key base = put key (str (hash (obj base))) base

  unfoldable pub build_snapshot : Store → Option ℤ → Float → Moment → Result (Dict rt)
  build_snapshot store as_of_ms minimum moment = do
    require (le (decimal 0 0) minimum && le minimum (decimal 1 0))
        (liquidation_error "minimum_coverage_ratio must be between 0 and 1")
    ok (
        add_hash "snapshot_hash"
          (add_hash "snapshot_id" (snapshot_base store (or_clock as_of_ms moment.now_ms) minimum)))
