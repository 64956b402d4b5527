-- ===== src/Liquidation/Sessions/Recover.antt =====
-- The store after a restart, and after any sequence of calls (liquidation_aggregator.py,
-- `recover_orphan_sessions`).
use crt_master.Base.{
  All, List, Result, Result-cases, String, [], arith, find_first, inl, inr, keep_if, refl, some,
  subst, sym, ℤ, ◌∷◌, ◌≡◌,
}
use crt_master.Runtime.{Moment}
use crt_master.Liquidation.Sessions.{
  Session, SessionStore, append_line, close_open_sessions, has_id, is_open, orphaned,
  recover_orphan_sessions, recover_rows, set_closed, update,
}
use crt_master.Liquidation.Sessions.Update.{IsDistinct, IsKnown}
use crt_master.Liquidation.Sessions.Valid.{
  All-keep_if, IsSession, IsValid, distinct-find_first, find_first-IsKnown, update-IsKnown,
}
use crt_master.Liquidation.Sessions.Keep.{
  append_line-IsValid, begin_session-IsValid, close_rows-IsValid, closing-IsValid,
  end_session-IsValid, touch_session-IsValid,
}
use crt_master.Liquidation.Sessions.Commands.{
  Command, finish, finish_all, perform, perform_all, recover, start, touch,
}

IsKnown-update :
    (rows : List Session) (store : SessionStore) (id : String) (closed : ℤ) (reason : String)
    → All (λ (r : Session). IsKnown r store.rows) rows
    → All (λ (r : Session). IsKnown r (update id (set_closed closed reason) store.rows)) rows
IsKnown-update [] store id closed reason h = tt
IsKnown-update (r ∷ rest) store id closed reason (h, hs) = (
  update-IsKnown r id (set_closed closed reason) store.rows (λ _. refl) (λ _. refl) h,
  IsKnown-update rest store id closed reason hs,
)

All-IsKnown :
    (rows some_rows : List Session)
    → IsDistinct rows
    → All (λ (r : Session). find_first (has_id r.session_id) rows ≡ some r) some_rows
    → All (λ (r : Session). IsKnown r rows) some_rows
All-IsKnown rows [] h k = tt
All-IsKnown rows (r ∷ rest) h (k, ks) =
    (find_first-IsKnown r.session_id rows h k, All-IsKnown rows rest h ks)

module _ (utc_date : ℤ → Result String) where
  pub append_line-rows :
      (store : SessionStore) (row : Session) (closed : ℤ) (reason : String)
      → (append_line utc_date store row closed reason).0.rows ≡ store.rows
  unfolding append_line
  append_line-rows store row closed reason = ground arith

  recover_rows-IsValid :
      (rows : List Session) (store : SessionStore)
      → IsValid store
      → All IsSession rows
      → All (λ (r : Session). IsKnown r store.rows) rows
      → IsValid (recover_rows utc_date rows store).0
  unfolding recover_rows
  recover_rows-IsValid [] store valid sessions known = valid
  recover_rows-IsValid (row ∷ rest) store valid (s, ss) (k, ks) =
      let beat = row.last_heartbeat_ms in
      let closed : SessionStore = record store {
        rows = update row.session_id (set_closed beat (orphaned utc_date)) store.rows;
      } in
      let step = append_line utc_date closed row beat (orphaned utc_date) in
      let stepped =
        append_line-IsValid utc_date closed row beat (orphaned utc_date)
          (closing-IsValid store row beat (orphaned utc_date) valid k s.beats) s.beats in
      elim (Result-cases step.1) [
        | inl (_, went) ↦
            rw (went, recover_rows)
              (recover_rows-IsValid rest step.0 stepped ss (
                subst (λ rs. All (λ (r : Session). IsKnown r rs) rest)
                  (sym (append_line-rows closed row beat (orphaned utc_date)))
                  (IsKnown-update rest store row.session_id beat (orphaned utc_date) ks)))
        | inr (e, raised) ↦ rw (raised, recover_rows) stepped
      ]

  pub recover_orphan_sessions-IsValid :
      (store : SessionStore) → IsValid store → IsValid (recover_orphan_sessions utc_date store).0
  unfolding recover_orphan_sessions
  recover_orphan_sessions-IsValid store valid =
      let selected = keep_if is_open store.rows in
      let listed =
        All-keep_if (λ (r : Session). find_first (has_id r.session_id) store.rows ≡ some r) is_open
          store.rows (distinct-find_first store.rows valid.distinct) in
      let looped =
        recover_rows-IsValid selected store valid
          (All-keep_if IsSession is_open store.rows valid.sound)
          (All-IsKnown store.rows selected valid.distinct listed) in
      elim (Result-cases (recover_rows utc_date selected store).1) [
        | inl (_, went) ↦ rw (went, recover_orphan_sessions) looped
        | inr (e, raised) ↦
            rw (raised, recover_orphan_sessions)
              (record { sound = valid.sound; distinct = valid.distinct; logged = looped.logged })
      ]

  pub perform-IsValid :
      (store : SessionStore) (c : Command × Moment)
      → IsValid store
      → IsValid (perform utc_date store c)
  unfolding close_open_sessions
  perform-IsValid store (start opened_ms index id, moment) valid =
      begin_session-IsValid store opened_ms index id moment valid
  perform-IsValid store (touch id heartbeat_ms, moment) valid =
      touch_session-IsValid store id heartbeat_ms moment valid
  perform-IsValid store (finish id closed_ms reason, moment) valid =
      end_session-IsValid utc_date store id closed_ms reason moment valid
  perform-IsValid store (recover, moment) valid = recover_orphan_sessions-IsValid store valid
  perform-IsValid store (finish_all closed_ms reason, moment) valid =
      close_rows-IsValid utc_date (keep_if is_open store.rows) closed_ms reason moment store valid

  -- From a valid store, whatever calls are made in whatever order, whether they raise or not, the
  -- store stays valid: session ids are distinct, no heartbeat and no close precedes the opening, and
  -- no line in the connection files closes before it opens.
  pub perform_all-IsValid :
      (store : SessionStore) (cs : List (Command × Moment))
      → IsValid store
      → IsValid (perform_all utc_date store cs)
  perform_all-IsValid store [] valid = valid
  perform_all-IsValid store (c ∷ cs) valid =
      perform_all-IsValid (perform utc_date store c) cs (perform-IsValid store c valid)
