-- ===== src/Level.antt =====
-- radar/src/crt_radar/level_event_state_machine.py: the engine that watches one price line, its
-- constructor, and its two inputs. Each method returns the new engine; what it hands to
-- `emit_callback` is the list of emissions that it returns.

pub mod Checkpoint
pub mod Invariant
pub mod Run
pub mod Restore
pub mod Accept
pub mod Protocol
pub mod Announce
pub mod Verdict
use crt_master.Base.{
  Bool, Error, List, Option, Result, String, [], count_if, drop_first, err, false, if◌then◌else◌,
  leb, leb_ℤ, length, ltb, ltb_ℤ, none, not, not_positive, of_option, ok, overflow_error, pos,
  refuse, some, str_eq, suc, true, unsupported_direction, value_error, ℕ, ◌&&◌, ◌++◌, ◌>>=◌, ◌>>◌,
  ◌||◌, ◌∷◌,
}
use crt_master.Json.{Json, float, int}
use crt_master.Floats.{Floats}

pub data Direction : Type 0 where
  up down : Direction

pub data State : Type 0 where
  far approach cross_raw accepted rejected : State

pub data EventType : Type 0 where
  approach cross_raw accepted rejected retest rearmed : EventType

-- The texts of `ALLOWED_DIRECTIONS` and `ALLOWED_STATES`.
abbrev pub direction_of : String → Option Direction
direction_of s = if str_eq s "UP" then some up else if str_eq s "DOWN" then some down else none

abbrev pub direction_text : Direction → String
direction_text up = "UP"
direction_text down = "DOWN"

abbrev pub state_of : String → Option State
state_of s =
    if str_eq s "FAR"
    then some State.far
    else if str_eq s "APPROACH"
    then some State.approach
    else if str_eq s "CROSS_RAW"
    then some State.cross_raw
    else if str_eq s "ACCEPTED"
    then some State.accepted
    else if str_eq s "REJECTED"
    then some State.rejected
    else none

abbrev pub state_text : State → String
state_text State.far = "FAR"
state_text State.approach = "APPROACH"
state_text State.cross_raw = "CROSS_RAW"
state_text State.accepted = "ACCEPTED"
state_text State.rejected = "REJECTED"

abbrev pub is_far : State → Bool
is_far State.far = true
is_far _ = false

abbrev pub is_cross_raw : State → Bool
is_cross_raw State.cross_raw = true
is_cross_raw _ = false

abbrev pub is_rejected : State → Bool
is_rejected State.rejected = true
is_rejected _ = false

-- `deque(maxlen=n)`: an append to a full deque drops the oldest element.
abbrev pub push_last {ℓ} : {A : Type ℓ} → ℕ → A → List A → List A
push_last n x xs = if ltb (length xs) n then xs ++ x ∷ [] else drop_first xs ++ x ∷ []

module _ (fl : Floats) where
  open fl use {Float, lt, le, is_finite, of_int, decimal, sub, mul, div, abs}

  pub record Engine : Type 0 where
    pub level : Float
    pub direction : Direction
    pub band_bps : Float
    pub accept_required : ℕ
    pub accept_window : ℕ
    pub last_price : Option Float
    pub state : State
    pub cross_active : Bool
    pub accepted : Bool
    pub accepted_departed : Bool
    pub retest_emitted : Bool
    pub closes : List Float

  pub record Emission : Type 0 where
    pub event : EventType
    pub price : Float
    pub timestamp : String

  -- _positive_price
  unfoldable pub positive_price : Json Float → String → Result Float
  positive_price (int n) name = elim (of_int n) [
    | none ↦ err overflow_error
    | some x ↦ if leb_ℤ n (pos 0) then err (not_positive name) else ok x
  ]
  positive_price (float x) name =
      if is_finite x && not (le x (decimal 0 0)) then ok x else err (not_positive name)
  positive_price _ name = err (not_positive name)

  -- A number of basis points that is finite and not negative, as a float; `bad` is the error.
  unfoldable pub band_number : Json Float → Error → Result Float
  band_number (int n) bad = elim (of_int n) [
    | none ↦ err overflow_error
    | some x ↦ if ltb_ℤ n (pos 0) then err bad else ok x
  ]
  band_number (float x) bad = if is_finite x && not (lt x (decimal 0 0)) then ok x else err bad
  band_number _ bad = err bad

  -- A positive `int` that is no `bool`.
  unfoldable pub positive_int : Json Float → Error → Result ℕ
  positive_int (int (pos (suc n))) bad = ok (suc n)
  positive_int _ bad = err bad

  -- LevelEventEngine.__init__
  unfoldable pub new : Json Float → String → Json Float → Json Float → Json Float → Result Engine
  new level direction band required window = do
    side ← of_option (direction_of direction) (unsupported_direction direction)
    band_bps ← band_number band (value_error "approach_band_bps must be nonnegative")
    accept_window ← positive_int window (value_error "accept_window must be a positive integer")
    accept_required ←
        positive_int required (value_error "accept_required must be within accept_window")
    refuse (ltb accept_window accept_required)
        (value_error "accept_required must be within accept_window")
    price ← positive_price level "level"
    ok (record {
      level = price;
      direction = side;
      band_bps = band_bps;
      accept_required = accept_required;
      accept_window = accept_window;
      last_price = none;
      state = State.far;
      cross_active = false;
      accepted = false;
      accepted_departed = false;
      retest_emitted = false;
      closes = [];
    })

  unfoldable pub beyond : Engine → Float → Bool
  beyond e price = elim e.direction [ up ↦ le e.level price | down ↦ le price e.level ]

  unfoldable pub pre_side : Engine → Float → Bool
  pre_side e price = elim e.direction [ up ↦ lt price e.level | down ↦ lt e.level price ]

  unfoldable pub distance_bps : Engine → Float → Float
  distance_bps e price = mul (div (abs (sub price e.level)) e.level) (decimal 10_000 0)

  unfoldable pub crossed : Engine → Option Float → Float → Bool
  crossed e none current = false
  crossed e (some previous) current = elim e.direction [
    | up ↦ lt previous e.level && le e.level current
    | down ↦ lt e.level previous && le current e.level
  ]

  abbrev emit : EventType → Float → String → List Emission
  emit event price timestamp = record { event = event; price = price; timestamp = timestamp } ∷ []

  -- The first `if … elif` of `on_price`.
  unfoldable pub cross_step : Engine → Float → Float → String → Engine × List Emission
  cross_step e price distance timestamp =
      if crossed e e.last_price price && (not e.cross_active && not e.accepted)
      then (
        record e {
          cross_active = true;
          accepted = false;
          accepted_departed = false;
          retest_emitted = false;
          closes = [];
          state = State.cross_raw;
        },
        emit EventType.cross_raw price timestamp,
      )
      else if not e.cross_active
      then if pre_side e price && (le distance e.band_bps && is_far e.state)
        then (record e { state = State.approach }, emit EventType.approach price timestamp)
        else if is_rejected e.state && (pre_side e price && lt e.band_bps distance)
        then (record e { state = State.far }, emit EventType.rearmed price timestamp)
        else (e, [])
      else (e, [])

  -- The `if self.accepted` block of `on_price`.
  unfoldable pub retest_step : Engine → Float → Float → String → Engine × List Emission
  retest_step e price distance timestamp =
      if e.accepted
      then if beyond e price && lt e.band_bps distance
        then (record e { accepted_departed = true }, [])
        else if e.accepted_departed
            && (beyond e price && (le distance e.band_bps && not e.retest_emitted))
        then (record e { retest_emitted = true }, emit EventType.retest price timestamp)
        else (e, [])
      else (e, [])

  -- `on_price` after the price was checked.
  unfoldable pub observe : Engine → Float → String → Engine × List Emission
  observe e price timestamp =
      let distance = distance_bps e price in
      let first = cross_step e price distance timestamp in
      let second = retest_step first.0 price distance timestamp in
      (record second.0 { last_price = some price }, first.1 ++ second.1)

  unfoldable pub on_price : Engine → Json Float → String → Result (Engine × List Emission)
  on_price e price timestamp = do
    checked ← positive_price price "observed_price"
    ok (observe e checked timestamp)

  -- The verdict of a full window of closes.
  unfoldable pub settle : Engine → Float → String → Engine × List Emission
  settle e close timestamp =
      if leb e.accept_required (count_if (beyond e) e.closes)
      then (
        record e { accepted = true; state = State.accepted },
        emit EventType.accepted close timestamp,
      )
      else (
        record e { cross_active = false; accepted = false; state = State.rejected },
        emit EventType.rejected close timestamp,
      )

  -- `on_5s_close` after the close was checked.
  unfoldable pub confirm : Engine → Float → String → Engine × List Emission
  confirm e close timestamp =
      if not e.cross_active || e.accepted
      then (e, [])
      else let full = record e { closes = push_last e.accept_window close e.closes } in
        if ltb (length full.closes) full.accept_window
        then (full, [])
        else settle full close timestamp

  unfoldable pub on_5s_close : Engine → Json Float → String → Result (Engine × List Emission)
  on_5s_close e close timestamp = do
    checked ← positive_price close "close"
    ok (confirm e checked timestamp)
