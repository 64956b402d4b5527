-- ===== src/Liquidation/Order/Accepted.antt =====
-- What is known of an event that `normalize_force_order` returned (liquidation_aggregator.py).
use crt_master.Base.{
  >>-eq-ok, >>=-eq-ok, Bool, Error, Option, Result, String, arith, err, false, if◌then◌else◌,
  liquidation_error, liquidation_field, ltb_ℤ, none, ok, ok-injective, pos, refl, refuse, refuse-ok,
  require, require-ok, some, str_eq, str_eq_iff, subst, sym, true, ℤ, ◌&&◌, ◌+ℤ◌, ◌>>=◌, ◌≡◌, ◌≤ℤ◌,
  ◌⊎◌,
}
use crt_master.Json.{arr, bool, float, get, has, int, is_str, null, obj, str}
use crt_master.Runtime.{Dict, Runtime, Value, to_float}
use crt_master.Floats.{IsPositive}
use crt_master.Liquidation.Order.{
  Event, Fill, check_clocks, finite, finite_number, future_clock_skew_ms, normalize_force_order,
  or_not_numeric, read_execution, read_fill, read_quantity, read_side, some_fill, timestamp_ms,
  unwrap_force_order, zero_quantity,
}

module _ (rt : Runtime) where
  open rt use {floats, trunc, hash}
  open floats use {Float, lt, le, eq_int, is_finite, mul, decimal}

  abbrev pub IsTimely : ℤ → ℤ → Type 0
  IsTimely received_ms t =
      (pos 1_000_000_000_000 ≤ℤ t) × (t ≤ℤ (received_ms +ℤ future_clock_skew_ms))

  abbrev pub IsLiquidated : String → String → Type 0
  IsLiquidated order_side liquidation_side =
      ((order_side ≡ "SELL") × (liquidation_side ≡ "LONG"))
      ⊎ ((order_side ≡ "BUY") × (liquidation_side ≡ "SHORT"))

  pub record IsEvent (received_ms : ℤ) (e : Event rt) : Type 0 where
    pub sides : IsLiquidated e.order_side e.liquidation_side
    pub event_time : IsTimely received_ms e.event_time_ms
    pub trade_time : IsTimely received_ms e.trade_time_ms
    pub price_positive : IsPositive floats e.price
    pub quantity_not_negative : lt e.filled_quantity (decimal 0 0) ≡ false
    pub quantity_not_zero : eq_int e.filled_quantity (pos 0) ≡ false
    pub notional : e.notional_usd ≡ mul e.price e.filled_quantity
    pub notional_positive : IsPositive floats e.notional_usd
    pub hashed : e.event_hash ≡ hash (obj e.raw_payload)
    pub received : e.received_ms ≡ received_ms

  finite_number-ok :
      (name : String) (positive : Bool) (x : Float) {y : Float}
      → finite_number rt name positive x ≡ ok y
      → (y ≡ x) × (is_finite x ≡ true) × ((positive && le x (decimal 0 0)) ≡ false)
  unfolding finite_number
  finite_number-ok name positive x {y} h =
      let (_, h₁, k) = >>-eq-ok (require (is_finite x) (liquidation_field name "not finite")) _ h in
      let (_, h₂, l) =
        >>-eq-ok
          (refuse (positive && le x (decimal 0 0)) (liquidation_field name "must be positive")) _
          k in
      (sym (ok-injective l), require-ok _ _ h₁, refuse-ok _ _ h₂)

  finite_number-IsPositive :
      (name : String) (x : Float) {y : Float}
      → finite_number rt name true x ≡ ok y
      → (y ≡ x) × IsPositive floats y
  finite_number-IsPositive name x h =
      let (same, finite, positive) = finite_number-ok name true x h in
      (same, subst (λ z. IsPositive floats z) (sym same) (finite, positive))

  number-IsPositive :
      (m : Result Float) (name : String) {y : Float}
      → (m >>= finite_number rt name true) ≡ ok y
      → IsPositive floats y
  number-IsPositive m name h =
      let (x, _, k) = >>=-eq-ok m (finite_number rt name true) h in
      (finite_number-IsPositive name x k).1

  finite-IsPositive :
      (v : Value rt) (name : String) {y : Float}
      → finite rt v name true ≡ ok y
      → IsPositive floats y
  unfolding finite
  finite-IsPositive null name h = cc
  finite-IsPositive (bool b) name h = cc
  finite-IsPositive (int n) name h =
      number-IsPositive (or_not_numeric rt name (to_float rt (int n))) name h
  finite-IsPositive (float f) name h =
      number-IsPositive (or_not_numeric rt name (to_float rt (float f))) name h
  finite-IsPositive (str s) name h =
      number-IsPositive (or_not_numeric rt name (to_float rt (str s))) name h
  finite-IsPositive (arr xs) name h =
      number-IsPositive (or_not_numeric rt name (to_float rt (arr xs))) name h
  finite-IsPositive (obj d) name h =
      number-IsPositive (or_not_numeric rt name (to_float rt (obj d))) name h

  timestamp_ms-ok :
      (v : Value rt) (name : String) {t : ℤ}
      → timestamp_ms rt v name ≡ ok t
      → pos 1_000_000_000_000 ≤ℤ t
  unfolding timestamp_ms
  timestamp_ms-ok v name {t} h =
      let (x, _, h₁) = >>=-eq-ok (finite rt v name true) _ h in
      let (n, _, h₂) = >>=-eq-ok (trunc x) _ h₁ in
      let (_, early, h₃) =
        >>-eq-ok
          (refuse (ltb_ℤ n (pos 1_000_000_000_000))
            (liquidation_field name "is not millisecond Unix time"))
          _ h₂ in
      subst (λ m. pos 1_000_000_000_000 ≤ℤ m) (ok-injective h₃) (not_less n (refuse-ok _ _ early))
    where
      not_less : (n : ℤ) → ltb_ℤ n (pos 1_000_000_000_000) ≡ false → pos 1_000_000_000_000 ≤ℤ n
      not_less n h = ground arith

  not_after : (r t : ℤ) → ltb_ℤ r t ≡ false → t ≤ℤ r
  not_after r t h = ground arith

  abbrev IsFill : Option Float → Type 0
  IsFill none = Unit {0}
  IsFill (some x) = lt x (decimal 0 0) ≡ false

  some_fill-ok :
      (v : Value rt) (name : String) {o : Option Float} → some_fill rt v name ≡ ok o → IsFill o
  unfolding some_fill
  some_fill-ok v name h =
      let (x, _, k) = >>=-eq-ok (finite rt v name false) _ h in
      let (_, sign, l) =
        >>-eq-ok (refuse (lt x (decimal 0 0)) (liquidation_field name "must be nonnegative")) _ k in
      subst IsFill (ok-injective l) (refuse-ok _ _ sign)

  by_test :
      (b : Bool) (m : Result (Option Float)) {o : Option Float}
      → ((p : Option Float) → m ≡ ok p → IsFill p)
      → (if b then m else ok none) ≡ ok o
      → IsFill o
  by_test true m {o} filled h = filled o h
  by_test false m filled h = subst IsFill (ok-injective h) tt

  read_fill-ok :
      (order : Dict rt) (key name : String) {o : Option Float}
      → read_fill rt order key name ≡ ok o
      → IsFill o
  unfolding read_fill
  read_fill-ok order key name h =
      by_test (has key order) (some_fill rt (get key order) name)
        (λ p filled. some_fill-ok (get key order) name filled) h

  read_quantity-ok :
      (z l : Option Float) {q : Float}
      → read_quantity rt z l ≡ ok q
      → IsFill z
      → IsFill l
      → lt q (decimal 0 0) ≡ false
  unfolding read_quantity
  read_quantity-ok none none h hz hl = cc
  read_quantity-ok (some z) none h hz hl =
      subst (λ x. lt x (decimal 0 0) ≡ false) (ok-injective h) hz
  read_quantity-ok none (some l) h hz hl =
      subst (λ x. lt x (decimal 0 0) ≡ false) (ok-injective h) hl
  read_quantity-ok (some z) (some l) {q} h hz hl = by_order (lt z l) _ h
    where
      by_order :
          (b : Bool) (e : Error) → (if b then err e else ok z) ≡ ok q → lt q (decimal 0 0) ≡ false
      by_order true e same = cc
      by_order false e same = subst (λ x. lt x (decimal 0 0) ≡ false) (ok-injective same) hz

  read_side-ok :
      (v : Value rt) {side : String}
      → read_side v ≡ ok side
      → IsLiquidated side (if str_eq side "SELL" then "LONG" else "SHORT")
  unfolding read_side
  read_side-ok (str s) {side} h = ground (arith, str_eq_iff s "BUY", str_eq_iff s "SELL")
  read_side-ok null h = cc
  read_side-ok (bool b) h = cc
  read_side-ok (int n) h = cc
  read_side-ok (float f) h = cc
  read_side-ok (arr xs) h = cc
  read_side-ok (obj d) h = cc

  pub check_clocks-ok :
      (received_ms event_time trade_time : ℤ) {u : Unit {0}}
      → check_clocks rt received_ms event_time trade_time ≡ ok u
      → (ltb_ℤ (received_ms +ℤ future_clock_skew_ms) event_time ≡ false)
        × (ltb_ℤ (received_ms +ℤ future_clock_skew_ms) trade_time ≡ false)
  unfolding check_clocks
  check_clocks-ok received_ms event_time trade_time h =
      let (_, soon, k) =
        >>-eq-ok
          (refuse (ltb_ℤ (received_ms +ℤ future_clock_skew_ms) event_time)
            (liquidation_error "event clock is implausibly in the future"))
          _ h in
      (refuse-ok _ _ soon, refuse-ok _ _ k)

  pub record IsFilled (f : Fill rt) : Type 0 where
    pub price_positive : IsPositive floats f.price
    pub quantity_not_negative : lt f.quantity (decimal 0 0) ≡ false
    pub quantity_not_zero : eq_int f.quantity (pos 0) ≡ false
    pub product : f.notional ≡ mul f.price f.quantity
    pub notional_positive : IsPositive floats f.notional

  read_execution-IsFilled :
      (order : Dict rt) {f : Fill rt} → read_execution rt order ≡ ok f → IsFilled f
  unfolding read_execution
  read_execution-IsFilled order h =
      let (z, filled, h₁) = >>=-eq-ok (read_fill rt order "z" "o.z") _ h in
      let (l, last_filled, h₂) = >>=-eq-ok (read_fill rt order "l" "o.l") _ h₁ in
      let (q, counted, h₃) = >>=-eq-ok (read_quantity rt z l) _ h₂ in
      let (_, nonzero, h₄) =
        >>-eq-ok (refuse (eq_int q (pos 0)) (zero_quantity (get "X" order))) _ h₃ in
      let (price, priced, h₅) = >>=-eq-ok (finite rt (get "ap" order) "o.ap" true) _ h₄ in
      let (notional, worth, h₆) =
        >>=-eq-ok (finite_number rt "executed quote notional" true (mul price q)) _ h₅ in
      let (product, positive) =
        finite_number-IsPositive "executed quote notional" (mul price q) worth in
      subst IsFilled (ok-injective h₆) (record {
        price_positive = finite-IsPositive (get "ap" order) "o.ap" priced;
        quantity_not_negative =
            read_quantity-ok z l counted (read_fill-ok order "z" "o.z" filled)
              (read_fill-ok order "l" "o.l" last_filled);
        quantity_not_zero = refuse-ok _ _ nonzero;
        product = product;
        notional_positive = positive;
      })

  -- An event that is returned: the side says which positions were liquidated, both of its times are
  -- millisecond times and no more than five minutes after the receipt, price and notional are
  -- positive, the notional is price times an executed quantity that is neither negative nor zero,
  -- and the hash is that of the message.
  pub normalize_force_order-IsEvent :
      (payload : Value rt) (received_ms : ℤ) (last : Option ℤ) {e : Event rt}
      → normalize_force_order rt payload received_ms last ≡ ok e
      → IsEvent received_ms e
  unfolding normalize_force_order
  normalize_force_order-IsEvent payload received_ms last h =
      let ((row, order), _, h₁) = >>=-eq-ok (unwrap_force_order rt payload) _ h in
      let (_, _, h₂) =
        >>-eq-ok
          (require (is_str (get "s" order) "BTCUSDT")
            (liquidation_error "forceOrder symbol must be BTCUSDT"))
          _ h₁ in
      let (side, sided, h₃) = >>=-eq-ok (read_side (get "S" order)) _ h₂ in
      let (event_time, at, h₄) = >>=-eq-ok (timestamp_ms rt (get "E" row) "E") _ h₃ in
      let (trade_time, traded, h₅) = >>=-eq-ok (timestamp_ms rt (get "T" order) "o.T") _ h₄ in
      let (_, clocks, h₆) = >>-eq-ok (check_clocks rt received_ms event_time trade_time) _ h₅ in
      let (fill, executed, h₇) = >>=-eq-ok (read_execution rt order) _ h₆ in
      let (soon, trade_soon) = check_clocks-ok received_ms event_time trade_time clocks in
      let filled = read_execution-IsFilled order executed in
      subst (IsEvent received_ms) (ok-injective h₇) (record {
        sides = read_side-ok (get "S" order) sided;
        event_time = (
          timestamp_ms-ok (get "E" row) "E" at,
          not_after (received_ms +ℤ future_clock_skew_ms) event_time soon,
        );
        trade_time = (
          timestamp_ms-ok (get "T" order) "o.T" traded,
          not_after (received_ms +ℤ future_clock_skew_ms) trade_time trade_soon,
        );
        price_positive = filled.price_positive;
        quantity_not_negative = filled.quantity_not_negative;
        quantity_not_zero = filled.quantity_not_zero;
        notional = filled.product;
        notional_positive = filled.notional_positive;
        hashed = refl;
        received = refl;
      })
