-- ===== src/Liquidation/Sessions/Commands.antt =====
-- Sequences of calls to the session store (liquidation_aggregator.py). A call that raises leaves what
-- it leaves, and the program goes on.
use crt_master.Base.{List, Option, Result, String, [], ℤ, ◌∷◌}
use crt_master.Runtime.{Moment}
use crt_master.Liquidation.Sessions.{
  SessionStore, begin_session, close_open_sessions, end_session, recover_orphan_sessions,
  touch_session,
}

pub data Command : Type 0 where
  start : Option ℤ → ℤ → Option String → Command
  touch : String → Option ℤ → Command
  finish : String → Option ℤ → String → Command
  recover : Command
  finish_all : ℤ → String → Command

module _ (utc_date : ℤ → Result String) where
  -- The store after one call at its moment.
  abbrev pub perform : SessionStore → Command × Moment → SessionStore
  perform store (start opened_ms index id, moment) =
      (begin_session store opened_ms index id moment).0
  perform store (touch id heartbeat_ms, moment) = (touch_session store id heartbeat_ms moment).0
  perform store (finish id closed_ms reason, moment) =
      (end_session utc_date store id closed_ms reason moment).0
  perform store (recover, moment) = (recover_orphan_sessions utc_date store).0
  perform store (finish_all closed_ms reason, moment) =
      (close_open_sessions utc_date store closed_ms reason moment).0

  abbrev pub perform_all : SessionStore → List (Command × Moment) → SessionStore
  perform_all store [] = store
  perform_all store (c ∷ cs) = perform_all (perform store c) cs
