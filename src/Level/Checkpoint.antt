-- ===== src/Level/Checkpoint.antt =====
-- radar/src/crt_radar/level_event_state_machine.py: `snapshot_state` and `restore_state`. A
-- checkpoint is read in the order of the source's checks, in three stages: the identity of the
-- line, the state with its flags, and the window of closes.
use crt_master.Base.{
  Bool, List, Option, Result, String, bool_eq, err, false, identity_mismatch, if◌then◌else◌, leb,
  length, ltb, map, map_result, none, not, of_option, ok, pos, refuse, require, some, true,
  type_error, value_error, ℕ, ◌&&◌, ◌==◌, ◌>>=◌, ◌>>◌, ◌≡◌,
}
use crt_master.Json.{
  Fields, Json, arr, bool, end, field, float, get, int, is_str, items, keys, null, obj, same_set,
  str, to_items,
}
use crt_master.Floats.{Floats}
use crt_master.Level.{
  Engine, State, band_number, direction_text, is_cross_raw, is_far, positive_int, positive_price,
  state_of, state_text,
}

-- The value of `state`; a list or a dictionary cannot be looked up in the frozenset.
unfoldable pub read_state : {F : Type 0} → Json F → Result State
read_state (str s) = of_option (state_of s) (value_error "Gate 6A state value mismatch")
read_state (arr xs) = err (type_error "unhashable type: 'list'")
read_state (obj d) = err (type_error "unhashable type: 'dict'")
read_state _ = err (value_error "Gate 6A state value mismatch")

unfoldable pub read_bool : {F : Type 0} → Json F → Result Bool
read_bool (bool b) = ok b
read_bool _ = err (value_error "Gate 6A state boolean mismatch")

-- `expected_flags[state]`
abbrev pub flags_of : State → Bool × Bool
flags_of State.far = (false, false)
flags_of State.approach = (false, false)
flags_of State.cross_raw = (true, false)
flags_of State.accepted = (true, true)
flags_of State.rejected = (false, false)

abbrev pub schema_version : String
schema_version = "CRT_GATE6A_LEVEL_EVENT_STATE_V0.1"

module _ (fl : Floats) where
  open fl use {Float, eq, eq_int}

  abbrev pub price_or_null : Option Float → Json Float
  price_or_null none = null
  price_or_null (some p) = float p

  abbrev pub snapshot_fields : Engine fl → Fields Float
  snapshot_fields e = field "schema_version" (str schema_version) (
      field "level" (float e.level) (
        field "direction" (str (direction_text e.direction)) (
          field "approach_band_bps" (float e.band_bps) (
            field "accept_required" (int (pos e.accept_required)) (
              field "accept_window" (int (pos e.accept_window)) (
                field "last_price" (price_or_null e.last_price) (
                  field "state" (str (state_text e.state)) (
                    field "cross_active" (bool e.cross_active) (
                      field "accepted" (bool e.accepted) (
                        field "accepted_departed" (bool e.accepted_departed) (
                          field "retest_emitted" (bool e.retest_emitted)
                            (field "closes" (arr (to_items (map float e.closes))) end))))))))))))

  unfoldable pub snapshot_state : Engine fl → Json Float
  snapshot_state e = obj (snapshot_fields e)

  -- `payload.get(key) == expected` for a float.
  unfoldable pub equals_float : Json Float → Float → Bool
  equals_float (float y) x = eq y x
  equals_float (int n) x = eq_int x n
  equals_float (bool b) x = eq_int x (pos (if b then 1 else 0))
  equals_float _ x = false

  -- The checks down to the loop over `identity`.
  unfoldable pub check_identity : Engine fl → Fields Float → Result (Unit {0})
  unfolding equals_float
  check_identity e payload = do
    require (same_set (keys payload) (keys (snapshot_fields e)))
        (value_error "Gate 6A state fields mismatch")
    require (is_str (get "schema_version" payload) schema_version)
        (value_error "Gate 6A state schema mismatch")
    positive_price fl (get "level" payload) "checkpoint_level"
    band_number fl (get "approach_band_bps" payload) (value_error "Gate 6A approach band mismatch")
    required ←
        positive_int fl (get "accept_required" payload)
          (value_error "Gate 6A acceptance window mismatch")
    window ←
        positive_int fl (get "accept_window" payload)
          (value_error "Gate 6A acceptance window mismatch")
    require (equals_float (get "level" payload) e.level) (identity_mismatch "level")
    require (is_str (get "direction" payload) (direction_text e.direction))
        (identity_mismatch "direction")
    require (equals_float (get "approach_band_bps" payload) e.band_bps)
        (identity_mismatch "approach_band_bps")
    require (required == e.accept_required) (identity_mismatch "accept_required")
    require (window == e.accept_window) (identity_mismatch "accept_window")

  -- What a checkpoint says of the state, before the closes.
  pub record Progress : Type 0 where
    pub last_price : Option Float
    pub state : State
    pub cross_active : Bool
    pub accepted : Bool
    pub accepted_departed : Bool
    pub retest_emitted : Bool

  unfoldable pub read_last_price : Json Float → Result (Option Float)
  read_last_price null = ok none
  read_last_price v = positive_price fl v "last_price" >>= λ p. ok (some p)

  abbrev pub is_absent : Option Float → Bool
  is_absent none = true
  is_absent (some _) = false

  unfoldable pub check_flags : Progress → Result (Unit {0})
  check_flags p = do
    require (bool_eq p.cross_active (flags_of p.state).0 && bool_eq p.accepted (flags_of p.state).1)
        (value_error "Gate 6A state transition flags mismatch")
    refuse (p.accepted_departed && not p.accepted)
        (value_error "Gate 6A accepted departure mismatch")
    refuse (p.retest_emitted && not p.accepted_departed)
        (value_error "Gate 6A retest state mismatch")

  unfoldable pub read_progress : Fields Float → Result Progress
  unfolding read_last_price
  read_progress payload = do
    last_price ← read_last_price (get "last_price" payload)
    state ← read_state (get "state" payload)
    refuse (is_absent last_price && not (is_far state))
        (value_error "Gate 6A state requires last price")
    cross_active ← read_bool (get "cross_active" payload)
    accepted ← read_bool (get "accepted" payload)
    accepted_departed ← read_bool (get "accepted_departed" payload)
    retest_emitted ← read_bool (get "retest_emitted" payload)
    let p : Progress = record {
      last_price = last_price;
      state = state;
      cross_active = cross_active;
      accepted = accepted;
      accepted_departed = accepted_departed;
      retest_emitted = retest_emitted;
    }
    check_flags p
    ok p

  unfoldable pub read_closes : ℕ → State → Json Float → Result (List Float)
  read_closes window state (arr xs) = do
    refuse (ltb window (length (items xs))) (value_error "Gate 6A close window mismatch")
    closes ← map_result (λ close. positive_price fl close "checkpoint_close") (items xs)
    refuse (is_cross_raw state && leb window (length closes))
        (value_error "Gate 6A unresolved close window mismatch")
    ok closes
  read_closes window state _ = err (value_error "Gate 6A close window mismatch")

  unfoldable pub restore_state : Engine fl → Json Float → Result (Engine fl)
  restore_state e (obj payload) = do
    check_identity e payload
    p ← read_progress payload
    closes ← read_closes e.accept_window p.state (get "closes" payload)
    ok (record e {
      last_price = p.last_price;
      state = p.state;
      cross_active = p.cross_active;
      accepted = p.accepted;
      accepted_departed = p.accepted_departed;
      retest_emitted = p.retest_emitted;
      closes = closes;
    })
  restore_state e _ = err (value_error "Gate 6A state must be an object")

-- The two engines watch one line: what `restore_state` calls the identity.
pub record SameLine (fl : Floats) (e e' : Engine fl) : Type 0 where
  pub level : e.level ≡ e'.level
  pub direction : e.direction ≡ e'.direction
  pub band_bps : e.band_bps ≡ e'.band_bps
  pub accept_required : e.accept_required ≡ e'.accept_required
  pub accept_window : e.accept_window ≡ e'.accept_window
