-- ===== src/Level/Verdict.antt =====
-- The acceptance window (level_event_state_machine.py, `on_5s_close`): after a crossing the engine
-- is silent until the window is full, and then gives the verdict of a count over the closes.
use crt_master.Base.{
  All, Bool, List, String, [], ap, append-nil, append_assoc, arith, count_if, false, if◌then◌else◌,
  leb, length, length-append, map, ok, refl, some, sym, true, ◌++◌, ◌+◌, ◌<◌, ◌∙◌, ◌∷◌, ◌≡◌,
}
use crt_master.Json.{float}
use crt_master.Floats.{Floats, IsPositive}
use crt_master.Level.{
  Emission, Engine, EventType, State, beyond, confirm, cross_step, observe, on_5s_close, on_price,
  positive_price, retest_step, settle,
}
use crt_master.Level.Invariant.{IsValid}
use crt_master.Level.Run.{Input, feed, run}

module _ (fl : Floats) where
  open fl use {Float}

  -- A checked price or close with its timestamp.
  pub data Tick : Type 0 where
    seen : Float → String → Tick
    closed : Float → String → Tick

  abbrev pub to_input : Tick → Input fl
  to_input (seen p ts) = Input.price (float p) ts
  to_input (closed c ts) = Input.close (float c) ts

  abbrev pub IsPositiveTick : Tick → Type 0
  IsPositiveTick (seen p ts) = IsPositive fl p
  IsPositiveTick (closed c ts) = IsPositive fl c

  abbrev pub closes_of : List Tick → List Float
  closes_of [] = []
  closes_of (seen p ts ∷ rest) = closes_of rest
  closes_of (closed c ts ∷ rest) = c ∷ closes_of rest

  -- The engine after ticks that leave the window open.
  abbrev pub waiting : Engine fl → List Tick → Engine fl
  waiting e [] = e
  waiting e (seen p ts ∷ rest) = waiting (record e { last_price = some p }) rest
  waiting e (closed c ts ∷ rest) = waiting (record e { closes = e.closes ++ c ∷ [] }) rest

  pub record IsCrossing (e : Engine fl) : Type 0 where
    pub cross_active : e.cross_active ≡ true
    pub accepted : e.accepted ≡ false
    pub state : e.state ≡ State.cross_raw

  observe-crossing :
      (e : Engine fl) (p : Float) (ts : String)
      → IsCrossing e
      → observe fl e p ts ≡ (record e { last_price = some p }, [])
  unfolding observe cross_step retest_step
  observe-crossing e p ts c = ground arith

  confirm-crossing :
      (e : Engine fl) (x : Float) (ts : String)
      → IsCrossing e
      → length e.closes + 1 < e.accept_window
      → confirm fl e x ts ≡ (record e { closes = e.closes ++ x ∷ [] }, [])
  unfolding confirm
  confirm-crossing e x ts c room = ground (arith, length-append e.closes (x ∷ []))

  confirm-full :
      (e : Engine fl) (x : Float) (ts : String)
      → IsCrossing e
      → length e.closes + 1 ≡ e.accept_window
      → confirm fl e x ts ≡ settle fl (record e { closes = e.closes ++ x ∷ [] }) x ts
  unfolding confirm
  confirm-full e x ts c room = ground (arith, length-append e.closes (x ∷ []))

  positive_price-float :
      (x : Float) (name : String) → IsPositive fl x → positive_price fl (float x) name ≡ ok x
  unfolding positive_price
  positive_price-float x name h = ground arith

  abbrev judged : Engine fl → List Tick → Float → String → Engine fl × List (Emission fl)
  judged e ticks c ts =
      let w = waiting e ticks in settle fl (record w { closes = w.closes ++ c ∷ [] }) c ts

  -- While the window has room the engine collects closes and says nothing; the close that fills it
  -- brings the verdict.
  run-judged :
      (e : Engine fl) (ticks : List Tick) (c : Float) (ts : String)
      → IsCrossing e
      → All IsPositiveTick ticks
      → IsPositive fl c
      → length e.closes + length (closes_of ticks) + 1 ≡ e.accept_window
      → run fl e (map to_input ticks ++ Input.close (float c) ts ∷ []) ≡ ok (judged e ticks c ts)
  unfolding run feed on_price on_5s_close
  run-judged e [] c ts x h k full = rw (
    positive_price-float c "close" k,
    confirm-full e c ts x (omega arith),
    append-nil (settle fl (record e { closes = e.closes ++ c ∷ [] }) c ts).1,
  )
  run-judged e (seen p tp ∷ rest) c ts x h k full = rw (
    positive_price-float p "observed_price" h.0,
    observe-crossing e p tp x,
    run-judged (record e { last_price = some p }) rest c ts
        (record { cross_active = x.cross_active; accepted = x.accepted; state = x.state }) h.1 k
        full,
  )
  run-judged e (closed y ty ∷ rest) c ts x h k full =
      let e' : Engine fl = record e { closes = e.closes ++ y ∷ [] } in
      rw (
        positive_price-float y "close" h.0,
        confirm-crossing e y ty x (omega arith),
        run-judged e' rest c ts
            (record { cross_active = x.cross_active; accepted = x.accepted; state = x.state }) h.1 k
            (omega (arith, length-append e.closes (y ∷ []))),
      )

  count-waiting :
      (e : Engine fl) (ticks : List Tick) → (waiting e ticks).closes ≡ e.closes ++ closes_of ticks
  count-waiting e [] = sym (append-nil e.closes)
  count-waiting e (seen p ts ∷ rest) = count-waiting (record e { last_price = some p }) rest
  count-waiting e (closed c ts ∷ rest) =
      count-waiting (record e { closes = e.closes ++ c ∷ [] }) rest
      ∙ append_assoc e.closes (c ∷ []) (closes_of rest)

  waiting_line :
      (e : Engine fl) (ticks : List Tick)
      → ((waiting e ticks).accept_required ≡ e.accept_required)
        × ((waiting e ticks).direction ≡ e.direction)
        × ((waiting e ticks).level ≡ e.level)
  waiting_line e [] = (refl, refl, refl)
  waiting_line e (seen p ts ∷ rest) = waiting_line (record e { last_price = some p }) rest
  waiting_line e (closed c ts ∷ rest) = waiting_line (record e { closes = e.closes ++ c ∷ [] }) rest

  count-beyond :
      (e e' : Engine fl) (xs : List Float)
      → e.direction ≡ e'.direction
      → e.level ≡ e'.level
      → count_if (beyond fl e) xs ≡ count_if (beyond fl e') xs
  unfolding beyond
  count-beyond e e' xs d l = rw (d, l)

  settle-emits :
      (e : Engine fl) (c : Float) (ts : String) (enough : Bool)
      → leb e.accept_required (count_if (beyond fl e) e.closes) ≡ enough
      → ((settle fl e c ts).1
          ≡ record {
            event = if enough then EventType.accepted else EventType.rejected;
            price = c;
            timestamp = ts;
          }
            ∷ [])
        × ((settle fl e c ts).0.state ≡ (if enough then State.accepted else State.rejected))
  unfolding settle
  settle-emits e c ts enough h = ground arith

  judged_count :
      (e : Engine fl) (ticks : List Tick) (c : Float)
      → e.closes ≡ []
      → let w = waiting e ticks in
        let full : Engine fl = record w { closes = w.closes ++ c ∷ [] } in
        leb full.accept_required (count_if (beyond fl full) full.closes)
        ≡ leb e.accept_required (count_if (beyond fl e) (closes_of ticks ++ c ∷ []))
  judged_count e ticks c empty =
      let w = waiting e ticks in
      let (required, side, level) = waiting_line e ticks in
      let full : Engine fl = record w { closes = w.closes ++ c ∷ [] } in
      let taken : w.closes ≡ closes_of ticks =
        count-waiting e ticks ∙ ap (λ xs. xs ++ closes_of ticks) empty in
      rw (count-beyond full e (w.closes ++ c ∷ []) side level, required, taken)

  -- From a crossing with an empty window: ticks that bring one close less than the window holds,
  -- with any prices between them, and then one more close, run without an error and announce
  -- exactly one event, at that last close. It is `ACCEPTED` if at least `accept_required` of the
  -- closes are at or beyond the level, and `REJECTED` if not, and the state is the one announced.
  pub run-verdict :
      (e : Engine fl) (ticks : List Tick) (c : Float) (ts : String)
      → IsValid fl e
      → e.state ≡ State.cross_raw
      → e.closes ≡ []
      → All IsPositiveTick ticks
      → IsPositive fl c
      → length (closes_of ticks) + 1 ≡ e.accept_window
      → let enough = leb e.accept_required (count_if (beyond fl e) (closes_of ticks ++ c ∷ [])) in
        (r : Engine fl × List (Emission fl)) × (run fl e
            (map to_input ticks ++ Input.close (float c) ts ∷ [])
          ≡ ok r)
        × (r.1
            ≡ record {
              event = if enough then EventType.accepted else EventType.rejected;
              price = c;
              timestamp = ts;
            }
              ∷ [])
        × (r.0.state ≡ (if enough then State.accepted else State.rejected))
  run-verdict e ticks c ts v s empty h k full =
      let w = waiting e ticks in
      let emitted =
        settle-emits (record w { closes = w.closes ++ c ∷ [] }) c ts _
          (judged_count e ticks c empty) in
      let crossing_now : IsCrossing e = ground arith in
      let room = ap (λ (xs : List Float). length xs) empty in
      (
        judged e ticks c ts,
        run-judged e ticks c ts crossing_now h k (omega arith),
        emitted.0,
        emitted.1,
      )
