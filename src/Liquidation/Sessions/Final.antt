-- ===== src/Liquidation/Sessions/Final.antt =====
-- A closed session stays as it is (liquidation_aggregator.py).
use crt_master.Base.{
  All, Bool-cases, List, Option, Result, Result-cases, String, [], any, ap, arith, false,
  find_first, inl, inr, keep_if, refl, some, str_eq, str_eq_iff, subst, sym, true, ℤ, ◌++◌, ◌∙◌,
  ◌∷◌, ◌≡◌,
}
use crt_master.Runtime.{Moment, or_clock, or_fresh}
use crt_master.Liquidation.Sessions.{
  Session, SessionStore, append_line, begin_session, check_end, check_touch, close_open_sessions,
  close_rows, end_session, has_id, is_open, orphaned, recover_orphan_sessions, recover_rows,
  set_closed, set_heartbeat, touch_session, update,
}
use crt_master.Liquidation.Sessions.Update.{IsDistinct, KeepsId, has_id-eq}
use crt_master.Liquidation.Sessions.Valid.{IsValid, clash, distinct-find_first}
use crt_master.Liquidation.Sessions.Keep.{check_end-ok, check_touch-ok}
use crt_master.Liquidation.Sessions.Recover.{append_line-rows, perform-IsValid}
use crt_master.Liquidation.Sessions.Commands.{
  Command, finish, finish_all, perform, perform_all, recover, start, touch,
}

abbrev pub IsListed : SessionStore → String → Session → Type 0
IsListed store id r = find_first (has_id id) store.rows ≡ some r

find_here :
    (id : String) (s : Session) (rows : List Session)
    → has_id id s ≡ true
    → find_first (has_id id) (s ∷ rows) ≡ some s
find_here id s rows here = ground arith

find_later :
    (id : String) (s : Session) (rows : List Session)
    → has_id id s ≡ false
    → find_first (has_id id) (s ∷ rows) ≡ find_first (has_id id) rows
find_later id s rows missed = ground arith

update-find_first :
    (id other : String) (change : Session → Session) (rows : List Session) {r : Session}
    → str_eq other id ≡ false
    → KeepsId change
    → find_first (has_id id) rows ≡ some r
    → find_first (has_id id) (update other change rows) ≡ some r
unfolding update
update-find_first id other change [] apart keeps h = cc
update-find_first id other change (s ∷ rest) {r} apart keeps h =
    elim (Bool-cases (has_id other s)) [
      | inl same ↦
          let missed = ap (λ i. str_eq i id) (has_id-eq other s same) ∙ apart in
          rw (same, update)
            (find_later id (change s) _ (ap (λ i. str_eq i id) (keeps s) ∙ missed)
              ∙ update-find_first id other change rest apart keeps
                  (sym (find_later id s rest missed) ∙ h))
      | inr differs ↦
          rw (differs, update)
            (elim (Bool-cases (has_id id s)) [
              | inl here ↦ find_here id s _ here ∙ sym (find_here id s rest here) ∙ h
              | inr missed ↦
                  find_later id s _ missed
                  ∙ update-find_first id other change rest apart keeps
                      (sym (find_later id s rest missed) ∙ h)
            ])
    ]

append-find_first :
    (id : String) (rows : List Session) (s : Session) {r : Session}
    → find_first (has_id id) rows ≡ some r
    → find_first (has_id id) (rows ++ s ∷ []) ≡ some r
append-find_first id [] s h = cc
append-find_first id (x ∷ rows) s h = elim (Bool-cases (has_id id x)) [
  | inl here ↦ find_here id x (rows ++ s ∷ []) here ∙ sym (find_here id x rows here) ∙ h
  | inr missed ↦
      find_later id x (rows ++ s ∷ []) missed
      ∙ append-find_first id rows s (sym (find_later id x rows missed) ∙ h)
]

-- A look-up of an open session is not that of a closed one.
other_key :
    (store : SessionStore) (id other : String) {r s : Session}
    → IsListed store id r
    → is_open r ≡ false
    → IsListed store other s
    → is_open s ≡ true
    → str_eq other id ≡ false
other_key store id other {r} {s} h closed k opened = elim (Bool-cases (str_eq other id)) [
  | inl same ↦ absurd (
      clash (is_open r)
        (subst (λ x. is_open x ≡ true)
          (some-injective
            (sym k ∙ ap (λ i. find_first (has_id i) store.rows) ((str_eq_iff other id).0 same) ∙ h))
          opened)
        closed)
  | inr apart ↦ apart
]
  where
    some-injective : {x y : Session} → some x ≡ some y → x ≡ y
    some-injective h = cc

begin_session-IsListed :
    (store : SessionStore) (opened_ms : Option ℤ) (index : ℤ) (sid : Option String)
    (moment : Moment) (id : String) (r : Session)
    → IsListed store id r
    → IsListed (begin_session store opened_ms index sid moment).0 id r
unfolding begin_session
begin_session-IsListed store opened_ms index sid moment id r h =
    elim (Bool-cases (any (has_id (or_fresh sid moment.uuid)) store.rows)) [
      | inl taken ↦ rw (taken, begin_session) h
      | inr free ↦ rw (free, begin_session) (append-find_first id store.rows _ h)
    ]

touch_session-IsListed :
    (store : SessionStore) (other : String) (heartbeat_ms : Option ℤ) (moment : Moment)
    (id : String) (r : Session)
    → IsListed store id r
    → is_open r ≡ false
    → IsListed (touch_session store other heartbeat_ms moment).0 id r
unfolding touch_session
touch_session-IsListed store other heartbeat_ms moment id r h closed =
    let heartbeat = or_clock heartbeat_ms moment.now_ms in
    elim (Result-cases (check_touch store other heartbeat)) [
      | inl (row, checked) ↦
          let (found, opened, _) = check_touch-ok store other heartbeat checked in
          rw (checked, touch_session)
            (update-find_first id other (set_heartbeat heartbeat) store.rows
              (other_key store id other h closed found opened) (λ _. refl) h)
      | inr (e, raised) ↦ rw (raised, touch_session) h
    ]

module _ (utc_date : ℤ → Result String) where
  append_line-IsListed :
      (store : SessionStore) (row : Session) (closed : ℤ) (reason : String) (id : String)
      (r : Session)
      → IsListed store id r
      → IsListed (append_line utc_date store row closed reason).0 id r
  append_line-IsListed store row closed reason id r h =
      rw (append_line-rows utc_date store row closed reason) h

  end_session-IsListed :
      (store : SessionStore) (other : String) (closed_ms : Option ℤ) (reason : String)
      (moment : Moment) (id : String) (r : Session)
      → IsListed store id r
      → is_open r ≡ false
      → IsListed (end_session utc_date store other closed_ms reason moment).0 id r
  unfolding end_session
  end_session-IsListed store other closed_ms reason moment id r h closed =
      let at = or_clock closed_ms moment.now_ms in
      elim (Result-cases (check_end store other at)) [
        | inl (row, checked) ↦
            let (found, opened, _) = check_end-ok store other at checked in
            rw (checked, end_session)
              (append_line-IsListed _ row at reason id r (
                update-find_first id other (set_closed at reason) store.rows
                  (other_key store id other h closed found opened) (λ _. refl) h))
        | inr (e, raised) ↦ rw (raised, end_session) h
      ]

  close_rows-IsListed :
      (rows : List Session) (closed_ms : ℤ) (reason : String) (moment : Moment)
      (store : SessionStore) (id : String) (r : Session)
      → IsListed store id r
      → is_open r ≡ false
      → IsListed (close_rows utc_date rows closed_ms reason moment store).0 id r
  unfolding close_rows
  close_rows-IsListed [] closed_ms reason moment store id r h closed = h
  close_rows-IsListed (row ∷ rest) closed_ms reason moment store id r h closed =
      let stepped =
        end_session-IsListed store row.session_id (some closed_ms) reason moment id r h closed in
      elim (Result-cases
        (end_session utc_date store row.session_id (some closed_ms) reason moment).1) [
          | inl (_, went) ↦
              rw (went, close_rows)
                (close_rows-IsListed rest closed_ms reason moment _ id r stepped closed)
          | inr (e, raised) ↦ rw (raised, close_rows) stepped
        ]

  recover_rows-IsListed :
      (rows : List Session) (store : SessionStore) (id : String) (r : Session)
      → IsListed store id r
      → All (λ (s : Session). str_eq s.session_id id ≡ false) rows
      → IsListed (recover_rows utc_date rows store).0 id r
  unfolding recover_rows
  recover_rows-IsListed [] store id r h apart = h
  recover_rows-IsListed (row ∷ rest) store id r h (a, apart) =
      let beat = row.last_heartbeat_ms in
      let closed : SessionStore = record store {
        rows = update row.session_id (set_closed beat (orphaned utc_date)) store.rows;
      } in
      let stepped = append_line-IsListed closed row beat (orphaned utc_date) id r (
        update-find_first id row.session_id (set_closed beat (orphaned utc_date)) store.rows a
          (λ _. refl) h) in
      elim (Result-cases (append_line utc_date closed row beat (orphaned utc_date)).1) [
        | inl (_, went) ↦ rw (went, recover_rows) (recover_rows-IsListed rest _ id r stepped apart)
        | inr (e, raised) ↦ rw (raised, recover_rows) stepped
      ]

  -- The open rows have other keys than a closed row.
  open_keys :
      (rows some_rows : List Session) (id : String) {r : Session}
      → find_first (has_id id) rows ≡ some r
      → is_open r ≡ false
      → All (λ (s : Session). find_first (has_id s.session_id) rows ≡ some s) some_rows
      → All (λ (s : Session). str_eq s.session_id id ≡ false) (keep_if is_open some_rows)
  open_keys rows [] id h closed listed = tt
  open_keys rows (s ∷ rest) id h closed (l, listed) = elim (Bool-cases (is_open s)) [
    | inl opened ↦ rw (opened) (
        (
          other_key (record { rows = rows; lines = [] }) id s.session_id h closed l opened,
          open_keys rows rest id h closed listed,
        ))
    | inr shut ↦ rw (shut) (open_keys rows rest id h closed listed)
  ]

  recover_orphan_sessions-IsListed :
      (store : SessionStore) (id : String) (r : Session)
      → IsDistinct store.rows
      → IsListed store id r
      → is_open r ≡ false
      → IsListed (recover_orphan_sessions utc_date store).0 id r
  unfolding recover_orphan_sessions
  recover_orphan_sessions-IsListed store id r distinct h closed =
      let selected = keep_if is_open store.rows in
      let looped =
        recover_rows-IsListed selected store id r h
          (open_keys store.rows store.rows id h closed (distinct-find_first store.rows distinct)) in
      elim (Result-cases (recover_rows utc_date selected store).1) [
        | inl (_, went) ↦ rw (went, recover_orphan_sessions) looped
        | inr (e, raised) ↦ rw (raised, recover_orphan_sessions) h
      ]

  perform-IsListed :
      (store : SessionStore) (c : Command × Moment) (id : String) (r : Session)
      → IsValid store
      → IsListed store id r
      → is_open r ≡ false
      → IsListed (perform utc_date store c) id r
  unfolding close_open_sessions
  perform-IsListed store (start opened_ms index sid, moment) id r valid h closed =
      begin_session-IsListed store opened_ms index sid moment id r h
  perform-IsListed store (touch other heartbeat_ms, moment) id r valid h closed =
      touch_session-IsListed store other heartbeat_ms moment id r h closed
  perform-IsListed store (finish other closed_ms reason, moment) id r valid h closed =
      end_session-IsListed store other closed_ms reason moment id r h closed
  perform-IsListed store (recover, moment) id r valid h closed =
      recover_orphan_sessions-IsListed store id r valid.distinct h closed
  perform-IsListed store (finish_all closed_ms reason, moment) id r valid h closed =
      close_rows-IsListed (keep_if is_open store.rows) closed_ms reason moment store id r h closed

  -- A session that is closed in a valid store is found unchanged, with its times and its reason,
  -- after whatever calls are made, in whatever order, whether they raise or not.
  pub perform_all-IsListed :
      (store : SessionStore) (cs : List (Command × Moment)) (id : String) (r : Session)
      → IsValid store
      → IsListed store id r
      → is_open r ≡ false
      → IsListed (perform_all utc_date store cs) id r
  perform_all-IsListed store [] id r valid h closed = h
  perform_all-IsListed store (c ∷ cs) id r valid h closed =
      perform_all-IsListed (perform utc_date store c) cs id r
        (perform-IsValid utc_date store c valid) (perform-IsListed store c id r valid h closed)
        closed
