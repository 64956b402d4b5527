-- ===== src/Liquidation/Sessions/Keep.antt =====
-- Every call to the session store keeps it valid (liquidation_aggregator.py).
use crt_master.Base.{
  All, All-append, Bool-cases, List, Option, Result, Result-cases, String, [], any, arith,
  find_first, inl, inr, ok, refl, some, subst, sym, true, ℤ, ◌∷◌, ◌≡◌, ◌≤ℤ◌,
}
use crt_master.Runtime.{Moment, or_clock, or_fresh}
use crt_master.Liquidation.Sessions.{
  Session, SessionStore, append_line, begin_session, check_end, check_touch, close_rows,
  end_session, has_id, is_open, select_session, set_closed, set_heartbeat, touch_session, update,
}
use crt_master.Liquidation.Sessions.Update.{
  IsKnown, append-IsDistinct, find_first-id, update-All, update-IsDistinct,
}
use crt_master.Liquidation.Sessions.Valid.{
  All-append-one, IsLine, IsSession, IsValid, find_first-IsKnown,
}

-- What the checks of `touch_session` and `end_session` establish.
pub check_touch-ok :
    (store : SessionStore) (id : String) (heartbeat : ℤ) {row : Session}
    → check_touch store id heartbeat ≡ ok row
    → (find_first (has_id id) store.rows ≡ some row)
      × (is_open row ≡ true)
      × (row.opened_ms ≤ℤ heartbeat)
unfolding check_touch select_session
check_touch-ok store id heartbeat {row} h = ground arith

pub check_end-ok :
    (store : SessionStore) (id : String) (closed : ℤ) {row : Session}
    → check_end store id closed ≡ ok row
    → (find_first (has_id id) store.rows ≡ some row)
      × (is_open row ≡ true)
      × (row.opened_ms ≤ℤ closed)
unfolding check_end select_session
check_end-ok store id closed {row} h = ground arith

-- Rows of one key get a heartbeat, or a close, no earlier than the row that is known opened.
heartbeat-IsSession :
    (r : Session) (id : String) (heartbeat : ℤ) (rows : List Session)
    → r.session_id ≡ id
    → r.opened_ms ≤ℤ heartbeat
    → IsKnown r rows
    → All (λ s. has_id id s ≡ true → IsSession s → IsSession (set_heartbeat heartbeat s)) rows
heartbeat-IsSession r id heartbeat [] same h known = tt
heartbeat-IsSession r id heartbeat (s ∷ rest) same h (k, known) = (
  (λ matched valid. record {
    beats =
        subst (λ o. o ≤ℤ heartbeat) (sym (k (subst (λ i. has_id i s ≡ true) (sym same) matched))) h;
    closes = valid.closes;
  }),
  heartbeat-IsSession r id heartbeat rest same h known,
)

closed-IsSession :
    (r : Session) (id : String) (closed : ℤ) (reason : String) (rows : List Session)
    → r.session_id ≡ id
    → r.opened_ms ≤ℤ closed
    → IsKnown r rows
    → All (λ s. has_id id s ≡ true → IsSession s → IsSession (set_closed closed reason s)) rows
closed-IsSession r id closed reason [] same h known = tt
closed-IsSession r id closed reason (s ∷ rest) same h (k, known) = (
  (λ matched valid. record {
    beats = valid.beats;
    closes =
        subst (λ o. o ≤ℤ closed) (sym (k (subst (λ i. has_id i s ≡ true) (sym same) matched))) h;
  }),
  closed-IsSession r id closed reason rest same h known,
)

-- The store with the row of `r` closed.
pub closing-IsValid :
    (store : SessionStore) (r : Session) (closed : ℤ) (reason : String)
    → IsValid store
    → IsKnown r store.rows
    → r.opened_ms ≤ℤ closed
    → IsValid (record store { rows = update r.session_id (set_closed closed reason) store.rows })
closing-IsValid store r closed reason valid known h = record {
  sound =
      update-All IsSession r.session_id (set_closed closed reason) store.rows valid.sound
        (closed-IsSession r r.session_id closed reason store.rows refl h known);
  distinct =
      update-IsDistinct r.session_id (set_closed closed reason) store.rows (λ _. refl)
        valid.distinct;
  logged = valid.logged;
}

pub begin_session-IsValid :
    (store : SessionStore) (opened_ms : Option ℤ) (index : ℤ) (id : Option String) (moment : Moment)
    → IsValid store
    → IsValid (begin_session store opened_ms index id moment).0
unfolding begin_session
begin_session-IsValid store opened_ms index id moment valid =
    elim (Bool-cases (any (has_id (or_fresh id moment.uuid)) store.rows)) [
      | inl taken ↦ rw (taken, begin_session) valid
      | inr free ↦
          rw (free, begin_session)
            (record {
              sound =
                  All-append-one IsSession store.rows _ valid.sound
                    (record { beats = omega arith; closes = tt });
              distinct = append-IsDistinct store.rows _ free valid.distinct;
              logged = valid.logged;
            })
    ]

pub touch_session-IsValid :
    (store : SessionStore) (id : String) (heartbeat_ms : Option ℤ) (moment : Moment)
    → IsValid store
    → IsValid (touch_session store id heartbeat_ms moment).0
unfolding touch_session
touch_session-IsValid store id heartbeat_ms moment valid =
    let heartbeat = or_clock heartbeat_ms moment.now_ms in
    elim (Result-cases (check_touch store id heartbeat)) [
      | inl (row, checked) ↦
          let (found, _, above) = check_touch-ok store id heartbeat checked in
          rw (checked, touch_session)
            (record {
              sound = update-All IsSession id (set_heartbeat heartbeat) store.rows valid.sound (
                  heartbeat-IsSession row id heartbeat store.rows
                    (find_first-id id store.rows found) above
                    (find_first-IsKnown id store.rows valid.distinct found));
              distinct =
                  update-IsDistinct id (set_heartbeat heartbeat) store.rows (λ _. refl)
                    valid.distinct;
              logged = valid.logged;
            })
      | inr (e, raised) ↦ rw (raised, touch_session) valid
    ]

module _ (utc_date : ℤ → Result String) where
  pub append_line-IsValid :
      (store : SessionStore) (row : Session) (closed : ℤ) (reason : String)
      → IsValid store
      → row.opened_ms ≤ℤ closed
      → IsValid (append_line utc_date store row closed reason).0
  unfolding append_line
  append_line-IsValid store row closed reason valid h = elim (Result-cases (utc_date closed)) [
    | inl (day, dated) ↦
        rw (dated, append_line)
          (record {
            sound = valid.sound;
            distinct = valid.distinct;
            logged = All-append IsLine store.lines _ valid.logged (h, tt);
          })
    | inr (e, raised) ↦ rw (raised, append_line) valid
  ]

  pub end_session-IsValid :
      (store : SessionStore) (id : String) (closed_ms : Option ℤ) (reason : String)
      (moment : Moment)
      → IsValid store
      → IsValid (end_session utc_date store id closed_ms reason moment).0
  unfolding end_session
  end_session-IsValid store id closed_ms reason moment valid =
      let closed = or_clock closed_ms moment.now_ms in
      elim (Result-cases (check_end store id closed)) [
        | inl (row, checked) ↦
            let (found, _, above) = check_end-ok store id closed checked in
            let known = find_first-IsKnown id store.rows valid.distinct found in
            let closing = closing-IsValid store row closed reason valid known above in
            rw (checked, end_session)
              (append_line-IsValid _ row closed reason
                (subst
                  (λ i.
                    IsValid
                      (record store { rows = update i (set_closed closed reason) store.rows }))
                  (find_first-id id store.rows found) closing)
                above)
        | inr (e, raised) ↦ rw (raised, end_session) valid
      ]

  pub close_rows-IsValid :
      (rows : List Session) (closed_ms : ℤ) (reason : String) (moment : Moment)
      (store : SessionStore)
      → IsValid store
      → IsValid (close_rows utc_date rows closed_ms reason moment store).0
  unfolding close_rows
  close_rows-IsValid [] closed_ms reason moment store valid = valid
  close_rows-IsValid (row ∷ rest) closed_ms reason moment store valid =
      let stepped = end_session-IsValid store row.session_id (some closed_ms) reason moment valid in
      elim (Result-cases
        (end_session utc_date store row.session_id (some closed_ms) reason moment).1) [
          | inl (_, went) ↦
              rw (went, close_rows) (close_rows-IsValid rest closed_ms reason moment _ stepped)
          | inr (e, raised) ↦ rw (raised, close_rows) stepped
        ]
