-- ===== src/Liquidation/Order/Later.antt =====
-- A message normalized again later (liquidation_aggregator.py, `normalize_force_order`).
use crt_master.Base.{
  +ℤ_parts, >>-eq-ok, >>=-at-ok, >>=-eq-ok, Option, ap, arith, false, liquidation_error, ltb_ℤ, ok,
  ok-injective, refl, require, ℤ, ◌+ℤ◌, ◌≡◌, ◌≤ℤ◌,
}
use crt_master.Json.{get, is_str}
use crt_master.Runtime.{Runtime, Value}
use crt_master.Liquidation.Order.{
  Event, check_clocks, future_clock_skew_ms, normalize_force_order, read_execution, read_side,
  timestamp_ms, unwrap_force_order,
}
use crt_master.Liquidation.Order.Accepted.{check_clocks-ok}

not_after_later :
    (r r' t : ℤ)
    → r ≤ℤ r'
    → ltb_ℤ (r +ℤ future_clock_skew_ms) t ≡ false
    → ltb_ℤ (r' +ℤ future_clock_skew_ms) t ≡ false
not_after_later r r' t h k = not_below (r' +ℤ future_clock_skew_ms) t (
    omega (
      arith,
      not_below_le (r +ℤ future_clock_skew_ms) t k,
      +ℤ_parts r future_clock_skew_ms,
      +ℤ_parts r' future_clock_skew_ms,
    ))
  where
    not_below : (a t : ℤ) → t ≤ℤ a → ltb_ℤ a t ≡ false
    not_below a t h = ground arith

    not_below_le : (a t : ℤ) → ltb_ℤ a t ≡ false → t ≤ℤ a
    not_below_le a t h = ground arith

module _ (rt : Runtime) where
  open rt use {floats, trunc, hash}
  open floats use {Float, lt, le, eq_int, is_finite, mul, decimal}

  check_clocks-later :
      (received_ms later_ms event_time trade_time : ℤ) {u : Unit {0}}
      → received_ms ≤ℤ later_ms
      → check_clocks rt received_ms event_time trade_time ≡ ok u
      → check_clocks rt later_ms event_time trade_time ≡ ok tt
  unfolding check_clocks
  check_clocks-later received_ms later_ms event_time trade_time h checked =
      let (soon, trade_soon) = check_clocks-ok rt received_ms event_time trade_time checked in
      rw
        (
          not_after_later received_ms later_ms event_time h soon,
          not_after_later received_ms later_ms trade_time h trade_soon,
        )
        refl

  -- A message that is accepted is accepted at every later receipt, with the same hash.
  pub normalize_force_order-later :
      (payload : Value rt) (received_ms later_ms : ℤ) (last last' : Option ℤ) {e : Event rt}
      → received_ms ≤ℤ later_ms
      → normalize_force_order rt payload received_ms last ≡ ok e
      → (e' : Event rt) × (normalize_force_order rt payload later_ms last' ≡ ok e')
        × (e'.event_hash ≡ e.event_hash)
  unfolding normalize_force_order
  normalize_force_order-later payload received_ms later_ms last last' {e} in_order h =
      let ((row, order), wrapped, h₁) = >>=-eq-ok (unwrap_force_order rt payload) _ h in
      let (_, bitcoin, h₂) =
        >>-eq-ok
          (require (is_str (get "s" order) "BTCUSDT")
            (liquidation_error "forceOrder symbol must be BTCUSDT"))
          _ h₁ in
      let (side, sided, h₃) = >>=-eq-ok (read_side (get "S" order)) _ h₂ in
      let (event_time, at, h₄) = >>=-eq-ok (timestamp_ms rt (get "E" row) "E") _ h₃ in
      let (trade_time, traded, h₅) = >>=-eq-ok (timestamp_ms rt (get "T" order) "o.T") _ h₄ in
      let (_, clocks, h₆) = >>-eq-ok (check_clocks rt received_ms event_time trade_time) _ h₅ in
      let (fill, executed, h₇) = >>=-eq-ok (read_execution rt order) _ h₆ in
      (
        _,
        >>=-at-ok (unwrap_force_order rt payload) _ wrapped (
            >>=-at-ok _ _ bitcoin (
              >>=-at-ok (read_side (get "S" order)) _ sided (
                >>=-at-ok (timestamp_ms rt (get "E" row) "E") _ at (
                  >>=-at-ok (timestamp_ms rt (get "T" order) "o.T") _ traded (
                    >>=-at-ok (check_clocks rt later_ms event_time trade_time) _
                      (check_clocks-later received_ms later_ms event_time trade_time in_order
                        clocks)
                      (>>=-at-ok (read_execution rt order) _ executed refl)))))),
        ap (λ (x : Event rt). x.event_hash) (ok-injective h₇),
      )
