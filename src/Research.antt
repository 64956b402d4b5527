-- ===== src/Research.antt =====
-- radar/src/crt_radar/btc_transition_research_eval.py: what a vector of classified observations says of
-- a transition. `Outcome` is a computation that goes on, returns early with `_blocked(reason)`, or
-- raises.
pub mod Posture
pub mod Rungs
pub mod Read
pub mod Ladder
pub mod Calm
pub mod Total
pub mod Gate
pub mod Own
use Prim.Native.String.{◌++◌ as append_text}
use crt_master.Base.{
  Bool, Error, List, Result, String, [], drop_first, err, false, if◌then◌else◌, not, ok, str_eq,
  true, type_error, ◌&&◌, ◌||◌, ◌∷◌,
}
use crt_master.Json.{arr, bool, contains, end, field, get, is_false, is_str, null, obj, str}
use crt_master.Runtime.{Dict, Runtime, Value}

pub data Outcome {ℓ} (A : Type ℓ) : Type ℓ where
  raised : Error → Outcome A
  blocked : String → Outcome A
  passed : A → Outcome A

infixl 5 ◌>>=◌
abbrev pub ◌>>=◌ {ℓ κ} : {A : Type ℓ} {B : Type κ} → Outcome A → (A → Outcome B) → Outcome B
raised e >>= rest = raised e
blocked reason >>= rest = blocked reason
passed value >>= rest = rest value

infixl 5 ◌>>◌
abbrev pub ◌>>◌ {ℓ κ} : {A : Type ℓ} {B : Type κ} → Outcome A → Outcome B → Outcome B
m >> k = m >>= λ _. k

-- `if not test: return _blocked(reason)`
abbrev pub unless_blocked : Bool → String → Outcome (Unit {0})
unless_blocked true reason = passed tt
unless_blocked false reason = blocked reason

-- SCHEMA_VERSION and RESULT_SCHEMA_VERSION
abbrev pub evidence_schema : String
evidence_schema = "CRT_BTC_CONTROL_TRANSFER_EVIDENCE_V0.1"

abbrev pub result_schema : String
result_schema = "CRT_BTC_CONTROL_TRANSFER_RESEARCH_EVAL_V0.1"

abbrev pub observation_states : List String
observation_states =
    "CONFIRMED" ∷ "NOT_CONFIRMED" ∷ "NOT_OBSERVED" ∷ "REJECTED" ∷ "UNAVAILABLE" ∷ []

abbrev pub lower_low_states : List String
lower_low_states = "OBSERVED" ∷ "NOT_OBSERVED" ∷ "UNAVAILABLE" ∷ []

-- AUTHORITY_FIELDS, each with the reason that it blocks with.
abbrev pub authority_fields : List (String × String)
authority_fields =
    ("formal_model_authority", "CONTROL_TRANSFER_FORMAL_MODEL_AUTHORITY_MUST_BE_NONE")
    ∷ ("formal_weight_authority", "CONTROL_TRANSFER_FORMAL_WEIGHT_AUTHORITY_MUST_BE_NONE")
    ∷ ("formal_threshold_authority", "CONTROL_TRANSFER_FORMAL_THRESHOLD_AUTHORITY_MUST_BE_NONE")
    ∷ ("season_transition_authority", "CONTROL_TRANSFER_SEASON_TRANSITION_AUTHORITY_MUST_BE_NONE")
    ∷ ("external_action_authority", "CONTROL_TRANSFER_EXTERNAL_ACTION_AUTHORITY_MUST_BE_NONE")
    ∷ []

-- The dictionary `observations`, in the order of SEQUENCE.
pub record Observations : Type 0 where
  pub breakout : String
  pub pullback : String
  pub higher_low : String
  pub reattack : String
  pub control_break : String
  pub lower_low : String

abbrev pub confirmed : String → Bool
confirmed s = str_eq s "CONFIRMED"

-- SEQUENCE with what was observed.
abbrev pub sequence : Observations → List (String × String)
sequence o =
    ("meaningful_breakout", o.breakout)
    ∷ ("meaningful_pullback", o.pullback)
    ∷ ("higher_low", o.higher_low)
    ∷ ("reattack", o.reattack)
    ∷ ("prior_control_high_break", o.control_break)
    ∷ []

-- The loop over `SEQUENCE[1:]`, behind the step that it compares with.
unfoldable pub check_sequence : String × String → List (String × String) → Outcome (Unit {0})
check_sequence before [] = passed tt
check_sequence before (step ∷ steps) = elim (confirmed step.1 && not (confirmed before.1)) [
  | true ↦ blocked (
      append_text "CONTROL_TRANSFER_SEQUENCE_CONTRADICTION:"
        (append_text step.0 (append_text "_BEFORE_" before.0)))
  | false ↦ check_sequence step steps
]

-- The reason and the research state of observations in sequence.
unfoldable pub classified : Observations → String × String
classified o =
    if str_eq o.lower_low "OBSERVED"
    then if confirmed o.breakout
      then ("POST_BREAKOUT_LOWER_LOW_REJECTED_CONTROL_TRANSFER", "FALSE_POSITIVE_REJECTED")
      else ("LOWER_LOW_WITHOUT_CONFIRMED_CONTROL_TRANSFER_BREAKOUT", "BEAR_CONTROL_RETAINED")
    else if not (confirmed o.breakout)
    then ("MEANINGFUL_BREAKOUT_NOT_CONFIRMED", "TRANSITION_UNRESOLVED")
    else if not (confirmed o.pullback)
    then (
      "BREAKOUT_OBSERVED_BUT_DEFENSIVE_PULLBACK_NOT_TESTED", "ATTACK_STRENGTHENED_DEFENSE_PENDING",
    )
    else if not (confirmed o.higher_low)
    then ("PULLBACK_OBSERVED_BUT_HIGHER_LOW_NOT_CONFIRMED", "DEFENSE_UNRESOLVED")
    else if not (confirmed o.reattack) || not (confirmed o.control_break)
    then ("HIGHER_LOW_HELD_BUT_REATTACK_CONTROL_BREAK_PENDING", "DEFENSE_HELD_REATTACK_PENDING")
    else ("BREAKOUT_PULLBACK_HIGHER_LOW_REATTACK_LOOP_CLOSED", "CONTROL_TRANSFER_CANDIDATE")

module _ (rt : Runtime) where
  -- _result
  unfoldable pub research_result : String → String → String → Dict rt → Dict rt
  research_result state reason research_state observations =
      field "schema_version" (str result_schema) (
        field "state" (str state) (
          field "reason" (str reason) (
            field "research_state" (str research_state) (
              field "observations" (obj observations) (
                field "control_transfer_loop_closed"
                  (bool (str_eq research_state "CONTROL_TRANSFER_CANDIDATE"))
                  (field "formal_season" null (
                    field "formal_model_authority" (str "NONE") (
                      field "formal_weight_authority" (str "NONE") (
                        field "formal_threshold_authority" (str "NONE") (
                          field "season_transition_authority" (str "NONE") (
                            field "machine_may_determine_btc_season" (bool false) (
                              field "machine_may_confirm_bull_transition" (bool false) (
                                field "analyst_judgment_required" (bool true) (
                                  field "action_output" (str "NONE") (
                                    field "external_action_authority" (str "NONE") (
                                      field "external_action_performed" (bool false)
                                        end))))))))))))))))

  abbrev pub observation_fields : Observations → Dict rt
  observation_fields o = field "meaningful_breakout" (str o.breakout) (
      field "meaningful_pullback" (str o.pullback) (
        field "higher_low" (str o.higher_low) (
          field "reattack" (str o.reattack) (
            field "prior_control_high_break" (str o.control_break)
              (field "invalidating_lower_low" (str o.lower_low) end)))))

  -- The loop over AUTHORITY_FIELDS.
  unfoldable pub check_none : Dict rt → List (String × String) → Outcome (Unit {0})
  check_none d [] = passed tt
  check_none d ((name, reason) ∷ rest) = elim (is_str (get name d) "NONE") [
    | true ↦ check_none d rest
    | false ↦ blocked reason
  ]

  abbrev pub need_object : Value rt → String → Outcome (Dict rt)
  need_object (obj d) reason = passed d
  need_object v reason = blocked reason

  -- `value not in {…}`, which a list or a dictionary cannot be asked.
  unfoldable pub read_observation : List String → String → Value rt → Outcome String
  read_observation allowed name (str s) =
      if contains s allowed
      then passed s
      else blocked (append_text "CONTROL_TRANSFER_OBSERVATION_INVALID:" name)
  read_observation allowed name (arr xs) = raised (type_error "unhashable type: 'list'")
  read_observation allowed name (obj d) = raised (type_error "unhashable type: 'dict'")
  read_observation allowed name v =
      blocked (append_text "CONTROL_TRANSFER_OBSERVATION_INVALID:" name)

  abbrev pub read_step : String → Dict rt → Outcome String
  read_step name raw = read_observation observation_states name (get name raw)

  unfoldable pub read_observations : Dict rt → Outcome Observations
  read_observations raw = do
    breakout ← read_step "meaningful_breakout" raw
    pullback ← read_step "meaningful_pullback" raw
    higher_low ← read_step "higher_low" raw
    reattack ← read_step "reattack" raw
    control_break ← read_step "prior_control_high_break" raw
    lower_low ←
        read_observation lower_low_states "invalidating_lower_low"
          (get "invalidating_lower_low" raw)
    passed (record {
      breakout = breakout;
      pullback = pullback;
      higher_low = higher_low;
      reattack = reattack;
      control_break = control_break;
      lower_low = lower_low;
    })

  -- The observations of evidence that no check blocks.
  unfoldable pub accepted_observations : Dict rt → Outcome Observations
  accepted_observations evidence = do
    unless_blocked (is_str (get "schema_version" evidence) evidence_schema)
        "CONTROL_TRANSFER_EVIDENCE_SCHEMA_MISMATCH"
    authority ← need_object (get "authority" evidence) "CONTROL_TRANSFER_AUTHORITY_MISSING"
    check_none authority authority_fields
    unless_blocked (is_false (get "external_action_performed" authority))
        "CONTROL_TRANSFER_EXTERNAL_ACTION_PERFORMED_MUST_BE_FALSE"
    raw ← need_object (get "observations" evidence) "CONTROL_TRANSFER_OBSERVATIONS_MISSING"
    o ← read_observations raw
    check_sequence ("meaningful_breakout", o.breakout) (drop_first (sequence o))
    passed o

  abbrev pub ready_result : Observations → Dict rt
  ready_result o =
      research_result "READY_FOR_ANALYST" (classified o).0 (classified o).1 (observation_fields o)

  abbrev pub finish : Outcome Observations → Result (Dict rt)
  finish (raised e) = err e
  finish (blocked reason) = ok (research_result "BLOCKED" reason "TRANSITION_UNRESOLVED" end)
  finish (passed o) = ok (ready_result o)

  unfoldable pub evaluate_control_transfer_evidence : Value rt → Result (Dict rt)
  evaluate_control_transfer_evidence (obj evidence) = finish (accepted_observations evidence)
  evaluate_control_transfer_evidence v = ok (
      research_result "NOT_AVAILABLE" "CONTROL_TRANSFER_EVIDENCE_NOT_AVAILABLE"
        "TRANSITION_UNRESOLVED" end)
