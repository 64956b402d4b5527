-- ===== src/Liquidation/Order.antt =====
-- radar/src/crt_radar/liquidation_aggregator.py: `normalize_force_order`, which makes an event of a
-- `forceOrder` message or raises.
pub mod Accepted
pub mod Later
use crt_master.Base.{
  Bool, Error, Option, Result, String, [], err, false, if◌then◌else◌, liquidation_error,
  liquidation_field, ltb_ℤ, none, ok, overflow_error, pos, refuse, require, some, str_eq, true,
  type_error, unfilled_order, ℤ, ◌&&◌, ◌+ℤ◌, ◌>>=◌, ◌>>◌, ◌||◌, ◌∷◌,
}
use crt_master.Json.{Json, arr, bool, contains, get, has, is_str, null, obj, str}
use crt_master.Runtime.{Dict, Runtime, Value, to_float}

abbrev pub future_clock_skew_ms : ℤ
future_clock_skew_ms = pos 300_000

abbrev pub is_obj : {F : Type 0} → Json F → Bool
is_obj (obj d) = true
is_obj v = false

-- `order_side not in {"BUY", "SELL"}`; a list or a dictionary cannot be looked up in a set.
unfoldable pub read_side : {F : Type 0} → Json F → Result String
read_side (str s) =
    if str_eq s "BUY" || str_eq s "SELL"
    then ok s
    else err (liquidation_error "forceOrder side must be BUY or SELL")
read_side (arr xs) = err (type_error "unhashable type: 'list'")
read_side (obj d) = err (type_error "unhashable type: 'dict'")
read_side v = err (liquidation_error "forceOrder side must be BUY or SELL")

-- What is raised for no executed quantity, by the order's status.
unfoldable pub zero_quantity : {F : Type 0} → Json F → Error
zero_quantity (str s) =
    if contains s ("NEW" ∷ "EXPIRED" ∷ "CANCELED" ∷ "PENDING_CANCEL" ∷ "REJECTED" ∷ [])
    then unfilled_order
    else liquidation_error "zero executed quantity inconsistent with execution status"
zero_quantity (arr xs) = type_error "unhashable type: 'list'"
zero_quantity (obj d) = type_error "unhashable type: 'dict'"
zero_quantity v = liquidation_error "zero executed quantity inconsistent with execution status"

module _ (rt : Runtime) where
  open rt use {floats, trunc, hash}
  open floats use {Float, lt, le, eq_int, is_finite, mul, decimal}

  pub record Event : Type 0 where
    pub event_hash : String
    pub event_time_ms : ℤ
    pub trade_time_ms : ℤ
    pub received_ms : ℤ
    pub symbol : String
    pub order_side : String
    pub liquidation_side : String
    pub price : Float
    pub filled_quantity : Float
    pub notional_usd : Float
    pub out_of_order : Bool
    pub raw_payload : Dict rt

  -- `except (TypeError, ValueError)` round `float(value)`
  abbrev pub or_not_numeric : String → Result Float → Result Float
  or_not_numeric name (ok x) = ok x
  or_not_numeric name (err overflow_error) = err overflow_error
  or_not_numeric name (err e) = err (liquidation_field name "not numeric")

  -- `_finite` after the conversion.
  unfoldable pub finite_number : String → Bool → Float → Result Float
  finite_number name positive x = do
    require (is_finite x) (liquidation_field name "not finite")
    refuse (positive && le x (decimal 0 0)) (liquidation_field name "must be positive")
    ok x

  -- _finite
  unfoldable pub finite : Value rt → String → Bool → Result Float
  finite null name positive = err (liquidation_field name "missing or invalid")
  finite (bool b) name positive = err (liquidation_field name "missing or invalid")
  finite v name positive = or_not_numeric name (to_float rt v) >>= finite_number name positive

  -- _timestamp_ms
  unfoldable pub timestamp_ms : Value rt → String → Result ℤ
  timestamp_ms v name = do
    x ← finite v name true
    number ← trunc x
    refuse (ltb_ℤ number (pos 1_000_000_000_000))
        (liquidation_field name "is not millisecond Unix time")
    ok number

  -- The message itself, or what a combined stream wraps.
  abbrev pub inner : Dict rt → Dict rt
  inner payload = elim (get "data" payload) [ obj d ↦ d | _ ↦ payload ]

  abbrev pub as_obj : Error → Value rt → Result (Dict rt)
  as_obj e (obj d) = ok d
  as_obj e v = err e

  -- `_unwrap_force_order`, and the order object in what it returns.
  unfoldable pub unwrap_force_order : Value rt → Result (Dict rt × Dict rt)
  unwrap_force_order payload = do
    outer ← as_obj (liquidation_error "forceOrder payload must be an object") payload
    require (is_str (get "e" (inner outer)) "forceOrder")
        (liquidation_error "event type must be forceOrder")
    order ← as_obj (liquidation_error "forceOrder order object missing") (get "o" (inner outer))
    ok (inner outer, order)

  -- One round of the loop that fills `fills`.
  unfoldable pub some_fill : Value rt → String → Result (Option Float)
  some_fill v name = do
    x ← finite v name false
    refuse (lt x (decimal 0 0)) (liquidation_field name "must be nonnegative")
    ok (some x)

  unfoldable pub read_fill : Dict rt → String → String → Result (Option Float)
  read_fill order key name = if has key order then some_fill (get key order) name else ok none

  -- The executed quantity out of `z` and `l`.
  unfoldable pub read_quantity : Option Float → Option Float → Result Float
  read_quantity none none = err (liquidation_error "no executed quantity evidence available")
  read_quantity (some z) none = ok z
  read_quantity none (some l) = ok l
  read_quantity (some z) (some l) =
      if lt z l
      then err (liquidation_error "last filled quantity exceeds cumulative filled quantity")
      else ok z

  -- `last_event_time_ms is not None and event_time_ms < last_event_time_ms`
  abbrev pub is_late : ℤ → Option ℤ → Bool
  is_late event_time_ms none = false
  is_late event_time_ms (some last) = ltb_ℤ event_time_ms last

  unfoldable pub check_clocks : ℤ → ℤ → ℤ → Result (Unit {0})
  check_clocks received_ms event_time_ms trade_time_ms = do
    refuse (ltb_ℤ (received_ms +ℤ future_clock_skew_ms) event_time_ms)
        (liquidation_error "event clock is implausibly in the future")
    refuse (ltb_ℤ (received_ms +ℤ future_clock_skew_ms) trade_time_ms)
        (liquidation_error "trade clock is implausibly in the future")

  -- What was executed: quantity, price and notional.
  pub record Fill : Type 0 where
    pub quantity : Float
    pub price : Float
    pub notional : Float

  unfoldable pub read_execution : Dict rt → Result Fill
  read_execution order = do
    cumulative ← read_fill order "z" "o.z"
    last_fill ← read_fill order "l" "o.l"
    quantity ← read_quantity cumulative last_fill
    refuse (eq_int quantity (pos 0)) (zero_quantity (get "X" order))
    price ← finite (get "ap" order) "o.ap" true
    notional ← finite_number "executed quote notional" true (mul price quantity)
    ok (record { quantity = quantity; price = price; notional = notional })

  unfoldable pub normalize_force_order : Value rt → ℤ → Option ℤ → Result Event
  normalize_force_order payload received_ms last_event_time_ms = do
    (row, order) ← unwrap_force_order payload
    require (is_str (get "s" order) "BTCUSDT")
        (liquidation_error "forceOrder symbol must be BTCUSDT")
    order_side ← read_side (get "S" order)
    event_time_ms ← timestamp_ms (get "E" row) "E"
    trade_time_ms ← timestamp_ms (get "T" order) "o.T"
    check_clocks received_ms event_time_ms trade_time_ms
    fill ← read_execution order
    ok (record {
      event_hash = hash (obj row);
      event_time_ms = event_time_ms;
      trade_time_ms = trade_time_ms;
      received_ms = received_ms;
      symbol = "BTCUSDT";
      order_side = order_side;
      liquidation_side = if str_eq order_side "SELL" then "LONG" else "SHORT";
      price = fill.price;
      filled_quantity = fill.quantity;
      notional_usd = fill.notional;
      out_of_order = is_late event_time_ms last_event_time_ms;
      raw_payload = row;
    })
