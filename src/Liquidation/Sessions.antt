-- ===== src/Liquidation/Sessions.antt =====
-- radar/src/crt_radar/liquidation_aggregator.py: the `sessions` table of `LiquidationStore` with the
-- files of closed connections. An operation returns the store after it and what it returns or
-- raises. `utc_date` is the day of a time in milliseconds, which names a file.
pub mod Update
pub mod Commands
pub mod Valid
pub mod Keep
pub mod Recover
pub mod Final
use crt_master.Base.{
  Bool, List, Option, Result, String, [], already_closed, any, err, false, find_first,
  heartbeat_closed, if◌then◌else◌, integrity_error, keep_if, length, liquidation_error, ltb_ℤ, none,
  of_option, ok, refuse, require, some, str_eq, true, unknown_session, ℕ, ℤ, ◌++◌, ◌>>=◌, ◌>>◌, ◌∷◌,
}
use crt_master.Runtime.{Moment, or_clock, or_fresh}

-- A row of `sessions`.
pub record Session : Type 0 where
  pub session_id : String
  pub opened_ms : ℤ
  pub last_heartbeat_ms : ℤ
  pub closed_ms : Option ℤ
  pub close_reason : Option String
  pub reconnect_index : ℤ

-- A line that is appended under `raw/connections`.
pub record Connection : Type 0 where
  pub session_id : String
  pub opened_ms : ℤ
  pub closed_ms : ℤ
  pub close_reason : String
  pub reconnect_index : ℤ

-- The rows in the order of their insertion, and the lines with the day of their file.
pub record SessionStore : Type 0 where
  pub rows : List Session
  pub lines : List (String × Connection)

abbrev pub Effect {ℓ} : Type ℓ → Type ℓ
Effect A = SessionStore × Result A

abbrev pub has_id : String → Session → Bool
has_id session_id s = str_eq s.session_id session_id

abbrev pub is_open : Session → Bool
is_open s = elim s.closed_ms [ none ↦ true | some _ ↦ false ]

-- `UPDATE sessions SET … WHERE session_id=?`
unfoldable pub update : String → (Session → Session) → List Session → List Session
update session_id change [] = []
update session_id change (s ∷ rest) =
    (if has_id session_id s then change s else s) ∷ update session_id change rest

abbrev pub set_closed : ℤ → String → Session → Session
set_closed closed reason s = record s { closed_ms = some closed; close_reason = some reason }

abbrev pub set_heartbeat : ℤ → Session → Session
set_heartbeat heartbeat s = record s { last_heartbeat_ms = heartbeat }

unfoldable pub select_session : SessionStore → String → Result Session
select_session store session_id =
    of_option (find_first (has_id session_id) store.rows) (unknown_session session_id)

unfoldable pub begin_session : SessionStore → Option ℤ → ℤ → Option String → Moment → Effect String
begin_session store opened_ms reconnect_index session_id moment =
    let opened = or_clock opened_ms moment.now_ms in
    let sid = or_fresh session_id moment.uuid in
    if any (has_id sid) store.rows then (store, err integrity_error) else (
      record store {
        rows =
            store.rows
            ++ record {
              session_id = sid;
              opened_ms = opened;
              last_heartbeat_ms = opened;
              closed_ms = none;
              close_reason = none;
              reconnect_index = reconnect_index;
            }
              ∷ [];
      },
      ok sid,
    )

-- The checks of `touch_session`, which returns the row that it read.
unfoldable pub check_touch : SessionStore → String → ℤ → Result Session
check_touch store session_id heartbeat = do
  row ← select_session store session_id
  require (is_open row) (heartbeat_closed session_id)
  refuse (ltb_ℤ heartbeat row.opened_ms) (liquidation_error "heartbeat before session open")
  refuse (ltb_ℤ heartbeat row.last_heartbeat_ms) (liquidation_error "heartbeat moved backwards")
  ok row

unfoldable pub touch_session : SessionStore → String → Option ℤ → Moment → Effect (Unit {0})
touch_session store session_id heartbeat_ms moment =
    let heartbeat = or_clock heartbeat_ms moment.now_ms in
    elim (check_touch store session_id heartbeat) [
      | err e ↦ (store, err e)
      | ok row ↦
          (record store { rows = update session_id (set_heartbeat heartbeat) store.rows }, ok tt)
    ]

abbrev pub closed_line : Session → ℤ → String → Connection
closed_line row closed reason = record {
  session_id = row.session_id;
  opened_ms = row.opened_ms;
  closed_ms = closed;
  close_reason = reason;
  reconnect_index = row.reconnect_index;
}

-- The checks of `end_session`, which returns the row that it read.
unfoldable pub check_end : SessionStore → String → ℤ → Result Session
check_end store session_id closed = do
  row ← select_session store session_id
  require (is_open row) (already_closed session_id)
  refuse (ltb_ℤ closed row.opened_ms) (liquidation_error "session closed before it opened")
  ok row

module _ (utc_date : ℤ → Result String) where
  -- `_append_jsonl` to the file of the day of `closed`.
  unfoldable pub append_line : SessionStore → Session → ℤ → String → Effect (Unit {0})
  append_line store row closed reason = elim (utc_date closed) [
    | err e ↦ (store, err e)
    | ok day ↦
        (record store { lines = store.lines ++ (day, closed_line row closed reason) ∷ [] }, ok tt)
  ]

  -- The line is written after the transaction, so that an error there leaves the session closed.
  unfoldable pub end_session :
      SessionStore → String → Option ℤ → String → Moment → Effect (Unit {0})
  end_session store session_id closed_ms close_reason moment =
      let closed = or_clock closed_ms moment.now_ms in
      elim (check_end store session_id closed) [
        | err e ↦ (store, err e)
        | ok row ↦
            append_line
              (record store {
                rows = update session_id (set_closed closed close_reason) store.rows;
              })
              row closed close_reason
      ]

  abbrev pub orphaned : String
  orphaned = "ORPHANED_ON_RESTART"

  -- The loop of `recover_orphan_sessions` over the rows it selected.
  unfoldable pub recover_rows : List Session → SessionStore → Effect (Unit {0})
  recover_rows [] store = (store, ok tt)
  recover_rows (row ∷ rest) store =
      let step =
        append_line
          (record store {
            rows = update row.session_id (set_closed row.last_heartbeat_ms orphaned) store.rows;
          })
          row row.last_heartbeat_ms orphaned in
      elim step.1 [ err e ↦ (step.0, err e) | ok _ ↦ recover_rows rest step.0 ]

  -- An error rolls the transaction back; the lines that were written stay.
  unfoldable pub recover_orphan_sessions : SessionStore → Effect ℕ
  recover_orphan_sessions store =
      let selected = keep_if is_open store.rows in
      let after = recover_rows selected store in
      elim after.1 [
        | err e ↦ (record after.0 { rows = store.rows }, err e)
        | ok _ ↦ (after.0, ok (length selected))
      ]

  -- The loop of `close_open_sessions`; each `end_session` is a transaction of its own.
  unfoldable pub close_rows : List Session → ℤ → String → Moment → SessionStore → Effect (Unit {0})
  close_rows [] closed_ms close_reason moment store = (store, ok tt)
  close_rows (row ∷ rest) closed_ms close_reason moment store =
      let step = end_session store row.session_id (some closed_ms) close_reason moment in
      elim step.1 [
        | err e ↦ (step.0, err e)
        | ok _ ↦ close_rows rest closed_ms close_reason moment step.0
      ]

  unfoldable pub close_open_sessions : SessionStore → ℤ → String → Moment → Effect ℕ
  close_open_sessions store closed_ms close_reason moment =
      let selected = keep_if is_open store.rows in
      let after = close_rows selected closed_ms close_reason moment store in
      (after.0, (after.1 >>= λ _. ok (length selected)))
