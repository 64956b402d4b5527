-- ===== src/Liquidation/Events.antt =====
-- radar/src/crt_radar/liquidation_aggregator.py: the `events` and `anomalies` tables of
-- `LiquidationStore` with the files of raw events. `utc_date` is the day of a time in milliseconds.
pub mod Ingest
use crt_master.Base.{
  Bool, Error, List, Option, Result, String, [], any, err, false, if◌then◌else◌, max_ℤ, none, ok,
  some, str_eq, true, unfilled_order, ℤ, ◌++◌, ◌∷◌, leb_ℤ, pos, negsuc, overflow_error, require,
  ◌&&◌, ◌>>◌, ◌>>=◌,
}
use crt_master.Runtime.{Moment, Runtime, Value, or_clock}
use crt_master.Liquidation.Order.{Event, is_obj, normalize_force_order}

-- What the system raises in a call: when a raw line is written, before it is in the file; when a row
-- is inserted, as by a locked database or a row of the same key that came from elsewhere meanwhile.
pub record Faults : Type 0 where
  pub line_error : Option Error
  pub insert_error : Option Error

-- An INTEGER of SQLite has 64 bits; binding another integer raises OverflowError.
abbrev pub fits_integer : ℤ → Bool
fits_integer t =
    leb_ℤ (negsuc 9_223_372_036_854_775_807) t && leb_ℤ t (pos 9_223_372_036_854_775_807)

abbrev pub raise_if : Option Error → Result (Unit {0})
raise_if none = ok tt
raise_if (some e) = err e

module _ (rt : Runtime) where
  open rt use {hash}

  -- A row of `anomalies`; the details are the error and the payload.
  pub record Anomaly : Type 0 where
    pub anomaly_type : String
    pub observed_ms : ℤ
    pub event_hash : Option String
    pub error : Error
    pub payload : Value rt

  -- The rows in the order of their insertion, and the raw lines with the day of their file.
  pub record EventStore : Type 0 where
    pub events : List (Event rt)
    pub raw_lines : List (String × Event rt)
    pub anomalies : List Anomaly

  -- SELECT MAX(event_time_ms) FROM events
  abbrev pub latest_of : List (Event rt) → Option ℤ
  latest_of [] = none
  latest_of (e ∷ rest) = elim (latest_of rest) [
    | none ↦ some e.event_time_ms
    | some t ↦ some (max_ℤ e.event_time_ms t)
  ]

  unfoldable pub latest_event_time_ms : EventStore → Option ℤ
  latest_event_time_ms store = latest_of store.events

  -- INSERT INTO anomalies, whose transaction leaves no row when it raises.
  unfoldable pub record_anomaly :
      EventStore
      → String
      → ℤ
      → Option String
      → Error
      → Value rt
      → Faults
      → EventStore × Result (Unit {0})
  record_anomaly store anomaly_type observed_ms event_hash error payload faults =
      elim (require (fits_integer observed_ms) overflow_error >> raise_if faults.insert_error) [
        | err raised ↦ (store, err raised)
        | ok _ ↦ (
          record store {
            anomalies =
                store.anomalies
                ++ record {
                  anomaly_type = anomaly_type;
                  observed_ms = observed_ms;
                  event_hash = event_hash;
                  error = error;
                  payload = payload;
                }
                  ∷ [];
          },
          ok tt,
        )
      ]

  -- `raw_hash`
  abbrev pub raw_hash : Value rt → Option String
  raw_hash payload = if is_obj payload then some (hash payload) else none

  abbrev pub anomaly_of : Error → String
  anomaly_of unfilled_order = "UNFILLED_ORDER_EXCLUDED"
  anomaly_of e = "INVALID_OR_CLOCK_ANOMALY"

  abbrev pub has_hash : String → Event rt → Bool
  has_hash event_hash e = str_eq e.event_hash event_hash

  -- The times that an INSERT INTO events binds.
  abbrev pub is_storable : Event rt → Bool
  is_storable e =
      fits_integer e.event_time_ms && fits_integer e.trade_time_ms && fits_integer e.received_ms

  abbrev pub insert_values : Event rt → Faults → Result (Unit {0})
  insert_values e faults = require (is_storable e) overflow_error >> raise_if faults.insert_error

  module _ (utc_date : ℤ → Result String) where
    -- The day of the file that the raw line of an event goes to.
    abbrev pub write_raw : Event rt → Faults → Result String
    write_raw e faults = do day ← utc_date e.event_time_ms; raise_if faults.line_error; ok day

    -- `ingest_force_order` after the message was normalized. The line is in its file before the row is
    -- inserted, and stays there if that raises.
    unfoldable pub insert_event : EventStore → Event rt → Faults → EventStore × Result Bool
    insert_event store e faults =
        if any (has_hash e.event_hash) store.events
        then (store, ok false)
        else elim (write_raw e faults) [
          | err raised ↦ (store, err raised)
          | ok day ↦ elim (insert_values e faults) [
            | err raised ↦
                (record store { raw_lines = store.raw_lines ++ (day, e) ∷ [] }, err raised)
            | ok _ ↦ (
              record store {
                events = store.events ++ e ∷ [];
                raw_lines = store.raw_lines ++ (day, e) ∷ [];
              },
              ok true,
            )
          ]
        ]

    unfoldable pub ingest_force_order :
        EventStore → Value rt → Option ℤ → Moment → Faults → EventStore × Result Bool
    ingest_force_order store payload received_ms moment faults =
        let received = or_clock received_ms moment.now_ms in
        elim (normalize_force_order rt payload received (latest_event_time_ms store)) [
          | ok e ↦ insert_event store e faults
          | err e ↦
              let (store', done) =
                record_anomaly store (anomaly_of e) received (raw_hash payload) e payload faults in
              (store', done >> ok false)
        ]
