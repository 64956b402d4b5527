-- ===== src/Examples/Liquidation.antt =====
-- Two sessions, and one message of a liquidation.
use crt_master.Base.{
  err, integrity_error, overflow_error, List, Result, String, [], any, arith, false, none, ok, pos,
  refl, some, true, ℤ, ◌&&◌, ◌+ℤ◌, ◌∷◌, ◌≡◌,
}
use crt_master.Json.{null, end, field, float, int, obj, str}
use crt_master.Runtime.{Dict, Moment, to_float}
use crt_master.Liquidation.Intervals.{
  Visible, insert, merge_intervals, merge_onto, merge_ordered, sorted, spans,
}
use crt_master.Liquidation.Intervals.Cover.{IsDisjoint, is_seen, merge_intervals-IsDisjoint, within}
use crt_master.Liquidation.Sessions.{
  Session, SessionStore, append_line, begin_session, check_touch, closed_line,
  recover_orphan_sessions, recover_rows, select_session, touch_session, update,
}
use crt_master.Liquidation.Sessions.Commands.{Command, perform_all, recover, start, touch}
use crt_master.Liquidation.Sessions.Valid.{IsValid}
use crt_master.Liquidation.Sessions.Recover.{perform_all-IsValid}
use crt_master.Liquidation.Sessions.Final.{IsListed, perform_all-IsListed}
use crt_master.Liquidation.Overlap.{intervals_overlapping}
use crt_master.Liquidation.Overlap.Moments.{intervals_overlapping-is_proven, is_proven}
use crt_master.Liquidation.Order.{
  Event, check_clocks, finite, finite_number, normalize_force_order, read_execution, read_fill,
  read_quantity, read_side, some_fill, timestamp_ms, unwrap_force_order,
}
use crt_master.Liquidation.Order.Accepted.{IsEvent, normalize_force_order-IsEvent}
use crt_master.Liquidation.Events.{
  EventStore, Faults, record_anomaly, ingest_force_order, insert_event, latest_event_time_ms,
}
use crt_master.Liquidation.Events.Ingest.{ingest_force_order-again}
use crt_master.Examples.Toy.{digest_0, toy}

abbrev seen_twice : List Visible
seen_twice =
    record { start_ms = pos 10; end_ms = pos 20; session_id = "b" }
    ∷ record { start_ms = pos 5; end_ms = pos 12; session_id = "a" }
    ∷ record { start_ms = pos 30; end_ms = pos 40; session_id = "c" }
    ∷ []

seen_twice-merged : merge_intervals seen_twice ≡ (pos 5, pos 20) ∷ (pos 30, pos 40) ∷ []
unfolding merge_intervals merge_ordered merge_onto sorted insert spans
seen_twice-merged = refl

merge_intervals-IsDisjoint_example :
    IsDisjoint (merge_intervals seen_twice)
    × ((t : ℤ) → any (within t) (merge_intervals seen_twice) ≡ any (is_seen t) seen_twice)
merge_intervals-IsDisjoint_example = merge_intervals-IsDisjoint seen_twice

abbrev utc : ℤ → Result String
utc t = ok "1970-01-01"

abbrev closed_a : Session
closed_a = record {
  session_id = "a";
  opened_ms = pos 5;
  last_heartbeat_ms = pos 9;
  closed_ms = some (pos 12);
  close_reason = some "NORMAL";
  reconnect_index = pos 0;
}

abbrev open_b : Session
open_b = record {
  session_id = "b";
  opened_ms = pos 10;
  last_heartbeat_ms = pos 20;
  closed_ms = none;
  close_reason = none;
  reconnect_index = pos 1;
}

abbrev pub two_sessions : SessionStore
two_sessions = record { rows = closed_a ∷ open_b ∷ []; lines = [] }

two_sessions-IsValid : IsValid two_sessions
two_sessions-IsValid = record {
  sound = (
    record { beats = omega arith; closes = omega arith },
    (record { beats = omega arith; closes = tt }, tt),
  );
  distinct = (refl, (refl, tt));
  logged = tt;
}

abbrev pub at_50 : Moment
at_50 = record { now_ms = pos 50; uuid = "d" }

abbrev calls : List (Command × Moment)
calls =
    (touch "a" none, at_50)
    ∷ (touch "b" (some (pos 25)), at_50)
    ∷ (recover, at_50)
    ∷ (start none (pos 2) none, at_50)
    ∷ []

calls-close :
    (perform_all utc two_sessions calls).lines
    ≡ (
      "1970-01-01",
      closed_line (record open_b { last_heartbeat_ms = pos 25 }) (pos 25) "ORPHANED_ON_RESTART",
    )
      ∷ []
unfolding touch_session check_touch select_session recover_orphan_sessions recover_rows append_line
    begin_session update
calls-close = refl

intervals_overlapping-is_proven_example :
    any (is_seen (pos 11)) (intervals_overlapping two_sessions (pos 8) (pos 22))
    ≡ (within (pos 11) (pos 8, pos 22) && any (is_proven (pos 22) (pos 11)) two_sessions.rows)
intervals_overlapping-is_proven_example =
    intervals_overlapping-is_proven two_sessions (pos 8) (pos 22) (pos 11)

perform_all-IsValid_example : IsValid (perform_all utc two_sessions calls)
perform_all-IsValid_example = perform_all-IsValid utc two_sessions calls two_sessions-IsValid

perform_all-IsListed_example : IsListed (perform_all utc two_sessions calls) "a" closed_a
perform_all-IsListed_example =
    perform_all-IsListed utc two_sessions calls "a" closed_a two_sessions-IsValid refl refl

abbrev message : Dict toy
message = field "e" (str "forceOrder") (
    field "E" (int (pos 1_790_000_000_000)) (
      field "o"
        (obj (
          field "s" (str "BTCUSDT") (
            field "S" (str "SELL") (
              field "T" (int (pos 1_790_000_000_000))
                (field "z" (float (pos 500_000)) (field "ap" (float (pos 100_000_000)) end))))))
        end))

abbrev liquidated : Event toy
liquidated = record {
  event_hash = digest_0;
  event_time_ms = pos 1_790_000_000_000;
  trade_time_ms = pos 1_790_000_000_000;
  received_ms = pos 1_790_000_000_000;
  symbol = "BTCUSDT";
  order_side = "SELL";
  liquidation_side = "LONG";
  price = pos 100_000_000;
  filled_quantity = pos 500_000;
  notional_usd = pos 50_000_000;
  out_of_order = false;
  raw_payload = message;
}

message-normalized :
    normalize_force_order toy (obj message) (pos 1_790_000_000_000) none ≡ ok liquidated
unfolding normalize_force_order unwrap_force_order read_side timestamp_ms finite finite_number
    to_float check_clocks read_execution read_fill some_fill read_quantity ◌+ℤ◌
message-normalized = refl

normalize_force_order-IsEvent_example : IsEvent toy (pos 1_790_000_000_000) liquidated
normalize_force_order-IsEvent_example =
    normalize_force_order-IsEvent toy (obj message) (pos 1_790_000_000_000) none message-normalized

abbrev no_events : EventStore toy
no_events = record { events = []; raw_lines = []; anomalies = [] }

abbrev one_event : EventStore toy
one_event = record {
  events = liquidated ∷ [];
  raw_lines = ("1970-01-01", liquidated) ∷ [];
  anomalies = [];
}

abbrev today : Moment
today = record { now_ms = pos 1_790_000_000_000; uuid = "id-1" }

abbrev calm : Faults
calm = record { line_error = none; insert_error = none }

abbrev locked : Faults
locked = record { line_error = none; insert_error = some integrity_error }

message-ingested :
    ingest_force_order toy utc no_events (obj message) none today calm ≡ (one_event, ok true)
unfolding ingest_force_order insert_event latest_event_time_ms normalize_force_order
    unwrap_force_order read_side timestamp_ms finite finite_number to_float check_clocks
    read_execution read_fill some_fill read_quantity ◌+ℤ◌
message-ingested = refl

-- The raw line of a message whose row is refused stays.
message-refused :
    ingest_force_order toy utc no_events (obj message) none today locked
    ≡ (record one_event { events = [] }, err integrity_error)
unfolding ingest_force_order insert_event latest_event_time_ms normalize_force_order
    unwrap_force_order read_side timestamp_ms finite finite_number to_float check_clocks
    read_execution read_fill some_fill read_quantity ◌+ℤ◌
message-refused = refl

-- A receipt beyond 64 bits is no time that a row can hold, of an anomaly neither.
late_receipt :
    ingest_force_order toy utc no_events null (some (pos 10_000_000_000_000_000_000)) today calm
    ≡ (no_events, err overflow_error)
unfolding ingest_force_order insert_event latest_event_time_ms normalize_force_order
    unwrap_force_order record_anomaly
late_receipt = refl

ingest_force_order-again_example :
    ingest_force_order toy utc one_event (obj message) none today locked ≡ (one_event, ok false)
ingest_force_order-again_example =
    ingest_force_order-again toy utc no_events (obj message) none today calm one_event none today
      locked message-ingested (omega arith)
