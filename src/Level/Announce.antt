-- ===== src/Level/Announce.antt =====
-- What `on_price` announces and when (level_event_state_machine.py), as a table by the state.
use crt_master.Base.{
  Bool, List, Option, String, [], arith, if◌then◌else◌, none, not, some, ◌&&◌, ◌∷◌, ◌≡◌,
}
use crt_master.Floats.{Floats}
use crt_master.Level.{
  Emission, Engine, EventType, State, beyond, cross_step, crossed, distance_bps, observe, pre_side,
  retest_step,
}
use crt_master.Level.Invariant.{IsValid, crossing}

module _ (fl : Floats) where
  open fl use {Float, lt, le}

  -- One announcement at most; `near` and `away` are the two sides of the approach band.
  abbrev pub announced :
      State → (crossing near away before after may_retest : Bool) → Option EventType
  announced State.far crossing near away before after may_retest =
      if crossing
      then some EventType.cross_raw
      else if before && near
      then some EventType.approach
      else none
  announced State.approach crossing near away before after may_retest =
      if crossing then some EventType.cross_raw else none
  announced State.cross_raw crossing near away before after may_retest = none
  announced State.rejected crossing near away before after may_retest =
      if crossing
      then some EventType.cross_raw
      else if before && away
      then some EventType.rearmed
      else none
  announced State.accepted crossing near away before after may_retest =
      if may_retest && (after && (near && not away)) then some EventType.retest else none

  abbrev pub at : Option EventType → Float → String → List (Emission fl)
  at none p ts = []
  at (some event) p ts = record { event = event; price = p; timestamp = ts } ∷ []

  -- A price makes a valid engine announce what the table says, and nothing else: a line that is
  -- crossed and not yet judged is silent, and an accepted one speaks only to report the first
  -- return into the band after a departure beyond it.
  pub observe-announced :
      (e : Engine fl) (p : Float) (ts : String)
      → IsValid fl e
      → let d = distance_bps fl e p in
        (observe fl e p ts).1
        ≡ at
            (announced e.state
              (crossed fl e e.last_price p)
              (le d e.band_bps)
              (lt e.band_bps d)
              (pre_side fl e p)
              (beyond fl e p)
              (e.accepted_departed && not e.retest_emitted))
            p
            ts
  unfolding observe cross_step retest_step
  observe-announced e p ts v = ground arith
