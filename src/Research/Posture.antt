-- ===== src/Research/Posture.antt =====
-- radar/src/crt_radar/deployment_posture_research_gate.py: the posture that a research evaluation may
-- be reviewed for, if it is what the evaluator itself returns.
use Prim.Native.String.{◌++◌ as append_text}
use crt_master.Research.{
  Outcome, authority_fields, blocked, evaluate_control_transfer_evidence, evidence_schema,
  need_object, passed, raised, result_schema, unless_blocked, ◌>>=◌, ◌>>◌,
}
use crt_master.Base.{
  Bool, List, Option, Result, String, [], err, false, if◌then◌else◌, map, none, ok, some, str_eq,
  true, ◌&&◌, ◌++◌, ◌∷◌,
}
use crt_master.Json.{
  arr, bool, end, field, get, has, is_false, is_none, is_str, is_true, null, obj, str, to_items,
}
use crt_master.Runtime.{Dict, Runtime, Value}
use crt_master.Values.{equal}

-- _POSTURES
unfoldable pub posture : String → Option (String × String)
posture state =
    if str_eq state "TRANSITION_UNRESOLVED"
    then some ("NONE", "NO_UPGRADE_FROM_TRANSITION_RESEARCH")
    else if str_eq state "ATTACK_STRENGTHENED_DEFENSE_PENDING"
    then some ("SCOUT", "REVIEW_CANDIDATE")
    else if str_eq state "DEFENSE_UNRESOLVED"
    then some ("SCOUT", "HOLD_OR_REVIEW_ONLY_NO_UPGRADE")
    else if str_eq state "DEFENSE_HELD_REATTACK_PENDING"
    then some ("BRIDGEHEAD", "REVIEW_CANDIDATE")
    else if str_eq state "CONTROL_TRANSFER_CANDIDATE"
    then some ("REINFORCEMENT", "REVIEW_CANDIDATE_TRANSITION_PREREQUISITE_MET")
    else if str_eq state "FALSE_POSITIVE_REJECTED"
    then some ("NONE", "FREEZE_UPGRADES_AND_REANALYZE")
    else if str_eq state "BEAR_CONTROL_RETAINED"
    then some ("NONE", "BLOCK_TRANSITION_JUSTIFIED_UPGRADE")
    else none

abbrev pub blocked_posture : String × String
blocked_posture = ("NONE", "POSTURE_TRANSLATION_BLOCKED")

abbrev pub downstream_gates : List String
downstream_gates =
    "EXISTING_BTC_DECISION_SUPPORT" ∷ "QUALIFIED_COMMANDER_ATTACK_AND_DEFENSE_LINES"
    ∷ "LATEST_CAPITAL_STATE" ∷ "ACTIVE_CAPITAL_PLAN_AND_AVAILABLE_TRANCHE" ∷ "BULL_FOUNDATION"
    ∷ "INDEPENDENT_EVIDENCE" ∷ "ASSET_ROLE_INTEGRITY" ∷ "DECISION_ASYMMETRY"
    ∷ "ASSET_SPECIFIC_FACTS" ∷ "GPT_ANALYST_JUDGMENT" ∷ "USER_DECISION" ∷ []

-- The fields beside AUTHORITY_FIELDS that must be there with one value, None or a Boolean.
abbrev pub fixed_fields : List (String × Option Bool)
fixed_fields =
    ("formal_season", none)
    ∷ ("external_action_performed", some false)
    ∷ ("machine_may_determine_btc_season", some false)
    ∷ ("machine_may_confirm_bull_transition", some false)
    ∷ ("analyst_judgment_required", some true)
    ∷ []

-- (*AUTHORITY_FIELDS, "action_output")
abbrev pub none_fields : List String
none_fields = map (λ (f : String × String). f.0) authority_fields ++ ("action_output" ∷ [])

module _ (rt : Runtime) where
  abbrev pub state_value : Option String → Value rt
  state_value none = null
  state_value (some s) = str s

  abbrev pub posture_of : Option String → String × String
  posture_of none = blocked_posture
  posture_of (some s) = elim (posture s) [ none ↦ blocked_posture | some p ↦ p ]

  -- The fields of `_result` that never change, behind "formal_season".
  abbrev pub posture_constants : Dict rt
  posture_constants = field "formal_model_authority" (str "NONE") (
      field "formal_weight_authority" (str "NONE") (
        field "formal_threshold_authority" (str "NONE") (
          field "season_transition_authority" (str "NONE") (
            field "external_action_authority" (str "NONE") (
              field "action_output" (str "NONE") (
                field "external_action_performed" (bool false) (
                  field "capital_decision_authority" (str "USER_ONLY") (
                    field "machine_execution" (str "FORBIDDEN") (
                      field "machine_may_execute_trade" (bool false) (
                        field "machine_may_determine_btc_season" (bool false) (
                          field "machine_may_confirm_bull_transition" (bool false) (
                            field "analyst_judgment_required" (bool true)
                              (field "production" (str "NOT_APPROVED") end)))))))))))))

  -- The gate's `_result`.
  unfoldable pub posture_result : String → Option String → Dict rt
  posture_result reason research_state =
      let (candidate, effect) = posture_of research_state in
      field "schema_version" (str "CRT_DEPLOYMENT_POSTURE_RESEARCH_GATE_V0.1") (
        field "state"
          (str (elim research_state [
            | none ↦ "POSTURE_TRANSLATION_BLOCKED"
            | some s ↦ "READY_FOR_ANALYST"
          ]))
          (field "reason" (str reason) (
            field "research_state" (state_value research_state) (
              field "scope" (str "TRANSITION_RESEARCH_ONLY") (
                field "eligibility_level" (str "RESEARCH_POSTURE_CANDIDATE") (
                  field "posture_candidate" (str candidate) (
                    field "posture_effect" (str effect) (
                      field "required_downstream_gates" (arr (to_items (map str downstream_gates)))
                        (field "final_eligibility" (str "NOT_DETERMINED") (
                          field "plan_invalidation" (str "UNRESOLVED")
                            (field "formal_season" null posture_constants)))))))))))

  abbrev pub is_fixed : Option Bool → Value rt → Bool
  is_fixed none v = is_none v
  is_fixed (some true) v = is_true v
  is_fixed (some false) v = is_false v

  unfoldable pub check_none_fields : Dict rt → List String → Outcome (Unit {0})
  check_none_fields d [] = passed tt
  check_none_fields d (name ∷ rest) = elim (is_str (get name d) "NONE") [
    | true ↦ check_none_fields d rest
    | false ↦ blocked (append_text "AUTHORITY_VIOLATION:" name)
  ]

  unfoldable pub check_fixed_fields : Dict rt → List (String × Option Bool) → Outcome (Unit {0})
  check_fixed_fields d [] = passed tt
  check_fixed_fields d ((name, expected) ∷ rest) =
      elim (has name d && is_fixed expected (get name d)) [
        | true ↦ check_fixed_fields d rest
        | false ↦ blocked (append_text "AUTHORITY_VIOLATION:" name)
      ]

  -- `isinstance(research_state, str) and research_state in _POSTURES`
  abbrev pub need_posture : Value rt → Outcome String
  need_posture (str s) = elim (posture s) [
    | none ↦ blocked "UNKNOWN_RESEARCH_STATE"
    | some p ↦ passed s
  ]
  need_posture v = blocked "UNKNOWN_RESEARCH_STATE"

  abbrev pub all_texts : Dict rt → Bool
  all_texts end = true
  all_texts (field k (str s) rest) = all_texts rest
  all_texts (field k v rest) = false

  abbrev pub none_authority : Dict rt
  none_authority = field "formal_model_authority" (str "NONE") (
      field "formal_weight_authority" (str "NONE") (
        field "formal_threshold_authority" (str "NONE") (
          field "season_transition_authority" (str "NONE") (
            field "external_action_authority" (str "NONE")
              (field "external_action_performed" (bool false) end)))))

  -- The evidence that the gate hands to the evaluator.
  abbrev pub canonical_evidence : Dict rt → Value rt
  canonical_evidence observations = obj (
      field "schema_version" (str evidence_schema)
        (field "authority" (obj none_authority) (field "observations" (obj observations) end)))

  abbrev pub of_result : Result (Dict rt) → Outcome (Dict rt)
  of_result (ok d) = passed d
  of_result (err e) = raised e

  -- The research state of an evaluation that no check blocks.
  unfoldable pub accepted_state : Dict rt → Outcome String
  accepted_state evaluation = do
    unless_blocked (is_str (get "schema_version" evaluation) result_schema)
        "RESEARCH_EVALUATION_SCHEMA_MISMATCH"
    unless_blocked (is_str (get "state" evaluation) "READY_FOR_ANALYST")
        "RESEARCH_EVALUATION_NOT_READY"
    check_none_fields evaluation none_fields
    check_fixed_fields evaluation fixed_fields
    research_state ← need_posture (get "research_state" evaluation)
    unless_blocked
        (is_fixed (some (str_eq research_state "CONTROL_TRANSFER_CANDIDATE"))
          (get "control_transfer_loop_closed" evaluation))
        "CONTROL_TRANSFER_LOOP_CONTRADICTION"
    observations ← need_object rt (get "observations" evaluation) "INVALID_CLASSIFIED_OBSERVATIONS"
    unless_blocked (all_texts observations) "INVALID_CLASSIFIED_OBSERVATIONS"
    canonical ← of_result (evaluate_control_transfer_evidence rt (canonical_evidence observations))
    unless_blocked (equal rt (obj canonical) (obj evaluation))
        "RESEARCH_EVALUATION_CONTRACT_MISMATCH"
    passed research_state

  abbrev pub answer_of : Outcome String → Result (Dict rt)
  answer_of (raised e) = err e
  answer_of (blocked reason) = ok (posture_result reason none)
  answer_of (passed s) = ok (posture_result "RESEARCH_POSTURE_REQUIRES_DOWNSTREAM_REVIEW" (some s))

  unfoldable pub translate_research_state_to_posture_constraints : Value rt → Result (Dict rt)
  translate_research_state_to_posture_constraints (obj evaluation) =
      answer_of (accepted_state evaluation)
  translate_research_state_to_posture_constraints v =
      ok (posture_result "RESEARCH_EVALUATION_NOT_OBJECT" none)
