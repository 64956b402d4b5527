-- ===== src/Liquidation/Overlap.antt =====
-- radar/src/crt_radar/liquidation_aggregator.py: `intervals_overlapping`, the coverage that the
-- sessions prove at a cutoff.
pub mod Moments
use crt_master.Base.{
  List, [], false, if◌then◌else◌, leb_ℤ, ltb_ℤ, max_ℤ, min_ℤ, none, some, true, ℤ, ◌&&◌, ◌∷◌,
}
use crt_master.Liquidation.Sessions.{Session, SessionStore}
use crt_master.Liquidation.Intervals.{Visible, pair_leb}

-- `WHEN last_heartbeat_ms <= :end_ms THEN last_heartbeat_ms ELSE opened_ms`
abbrev pub by_heartbeat : ℤ → Session → ℤ
by_heartbeat end_ms s =
    if leb_ℤ s.last_heartbeat_ms end_ms then s.last_heartbeat_ms else s.opened_ms

-- The `CASE` expression; a comparison with NULL is not true.
unfoldable pub effective_closed : ℤ → Session → ℤ
effective_closed end_ms s = elim s.closed_ms [
  | none ↦ by_heartbeat end_ms s
  | some closed ↦ if leb_ℤ closed end_ms then closed else by_heartbeat end_ms s
]

-- The rows that the query selects, before their order.
unfoldable pub visible_rows : ℤ → ℤ → List Session → List Visible
visible_rows start_ms end_ms [] = []
visible_rows start_ms end_ms (s ∷ rest) =
    if ltb_ℤ s.opened_ms end_ms && ltb_ℤ start_ms (effective_closed end_ms s)
    then record {
      start_ms = s.opened_ms;
      end_ms = effective_closed end_ms s;
      session_id = s.session_id;
    }
      ∷ visible_rows start_ms end_ms rest
    else visible_rows start_ms end_ms rest

-- `ORDER BY opened_ms,effective_closed`
unfoldable pub insert_row : Visible → List Visible → List Visible
insert_row v [] = v ∷ []
insert_row v (w ∷ ws) = elim (pair_leb (v.start_ms, v.end_ms) (w.start_ms, w.end_ms)) [
  | true ↦ v ∷ w ∷ ws
  | false ↦ w ∷ insert_row v ws
]

unfoldable pub order_rows : List Visible → List Visible
order_rows [] = []
order_rows (v ∷ vs) = insert_row v (order_rows vs)

-- The list comprehension: each row cut to the window, if something of it is left.
unfoldable pub clip_rows : ℤ → ℤ → List Visible → List Visible
clip_rows start_ms end_ms [] = []
clip_rows start_ms end_ms (v ∷ vs) =
    if ltb_ℤ (max_ℤ start_ms v.start_ms) (min_ℤ end_ms v.end_ms)
    then record v { start_ms = max_ℤ start_ms v.start_ms; end_ms = min_ℤ end_ms v.end_ms }
      ∷ clip_rows start_ms end_ms vs
    else clip_rows start_ms end_ms vs

unfoldable pub intervals_overlapping : SessionStore → ℤ → ℤ → List Visible
intervals_overlapping store start_ms end_ms =
    clip_rows start_ms end_ms (order_rows (visible_rows start_ms end_ms store.rows))
