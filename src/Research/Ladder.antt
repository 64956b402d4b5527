-- ===== src/Research/Ladder.antt =====
-- What a research state says of the observations (btc_transition_research_eval.py): the number of steps
-- that are confirmed, which are the first ones of the sequence.
use crt_master.Research.{
  Observations, Outcome, accepted_observations, blocked, evaluate_control_transfer_evidence, finish,
  observation_fields, passed, raised, ready_result, research_result, sequence,
}
use crt_master.Base.{
  Result, String, ap, arith, drop_first, ok, ok-injective, refl, str_eq_iff, sym, ◌∙◌, ◌≡◌,
}
use crt_master.Json.{arr, bool, end, float, get, int, null, obj, str}
use crt_master.Runtime.{Dict, Runtime, Value}
use crt_master.Research.Rungs.{IsInOrder, check_sequence-IsInOrder, classified-expected, expected}
use crt_master.Research.Read.{IsReadFrom, accepted_observations-IsRead}

module _ (rt : Runtime) where
  result_state :
      (state reason research_state : String) (o d : Dict rt)
      → ◌≡◌ {A = Result (Dict rt)} (ok (research_result rt state reason research_state o)) (ok d)
      → get "state" d ≡ str "READY_FOR_ANALYST"
      → state ≡ "READY_FOR_ANALYST"
  unfolding research_result
  result_state state reason research_state o d h ready =
      str-injective (ap (get "state") (ok-injective h) ∙ ready)
    where
      str-injective : {s t : String} → ◌≡◌ {A = Value rt} (str s) (str t) → s ≡ t
      str-injective h = cc

  blocked_apart : ◌≡◌ {A = String} "BLOCKED" "READY_FOR_ANALYST" → ⊥
  blocked_apart h = ground (arith, str_eq_iff "BLOCKED" "READY_FOR_ANALYST")

  missing_apart : ◌≡◌ {A = String} "NOT_AVAILABLE" "READY_FOR_ANALYST" → ⊥
  missing_apart h = ground (arith, str_eq_iff "NOT_AVAILABLE" "READY_FOR_ANALYST")

  finished :
      (m : Outcome Observations) (d : Dict rt)
      → finish rt m ≡ ok d
      → get "state" d ≡ str "READY_FOR_ANALYST"
      → (o : Observations) × (m ≡ passed o) × (ready_result rt o ≡ d)
  finished (passed o) d h ready = (o, refl, ok-injective h)
  finished (blocked reason) d h ready =
      absurd (blocked_apart (result_state "BLOCKED" reason "TRANSITION_UNRESOLVED" end d h ready))
  finished (raised e) d h ready = cc

  not_there :
      (d : Dict rt)
      → ◌≡◌ {A = Result (Dict rt)}
          (ok (
            research_result rt "NOT_AVAILABLE" "CONTROL_TRANSFER_EVIDENCE_NOT_AVAILABLE"
              "TRANSITION_UNRESOLVED" end))
          (ok d)
      → get "state" d ≡ str "READY_FOR_ANALYST"
      → ⊥
  not_there d h ready = missing_apart (
      result_state "NOT_AVAILABLE" "CONTROL_TRANSFER_EVIDENCE_NOT_AVAILABLE" "TRANSITION_UNRESOLVED"
        end d h ready)

  -- What lies behind an evaluation that is ready.
  abbrev pub IsEvaluated : Value rt → Dict rt → Type 0
  IsEvaluated v d =
      (evidence : Dict rt) × (o : Observations) × (v ≡ obj evidence)
      × (accepted_observations rt evidence ≡ passed o)
      × (ready_result rt o ≡ d)

  pub evaluate-IsEvaluated :
      (v : Value rt) (d : Dict rt)
      → evaluate_control_transfer_evidence rt v ≡ ok d
      → get "state" d ≡ str "READY_FOR_ANALYST"
      → IsEvaluated v d
  unfolding evaluate_control_transfer_evidence
  evaluate-IsEvaluated (obj evidence) d h ready =
      let (o, accepted, same) = finished (accepted_observations rt evidence) d h ready in
      (evidence, o, refl, accepted, same)
  evaluate-IsEvaluated null d h ready = absurd (not_there d h ready)
  evaluate-IsEvaluated (bool b) d h ready = absurd (not_there d h ready)
  evaluate-IsEvaluated (int n) d h ready = absurd (not_there d h ready)
  evaluate-IsEvaluated (float x) d h ready = absurd (not_there d h ready)
  evaluate-IsEvaluated (str s) d h ready = absurd (not_there d h ready)
  evaluate-IsEvaluated (arr xs) d h ready = absurd (not_there d h ready)

  -- An evaluation that is ready for the analyst was of a dictionary, says exactly what the observations
  -- in that dictionary say under each key, in which each confirmed step but the first comes behind a
  -- confirmed one, and says the research state that the number of confirmed steps and the lower low
  -- give.
  pub evaluate_control_transfer_evidence-expected :
      (v : Value rt) (d : Dict rt)
      → evaluate_control_transfer_evidence rt v ≡ ok d
      → get "state" d ≡ str "READY_FOR_ANALYST"
      → (evidence : Dict rt) × (o : Observations) × (v ≡ obj evidence)
        × IsReadFrom rt evidence o
        × (get "observations" d ≡ obj (observation_fields rt o))
        × IsInOrder ("meaningful_breakout", o.breakout) (drop_first (sequence o))
        × (get "research_state" d ≡ str (expected o))
  unfolding research_result
  evaluate_control_transfer_evidence-expected v d h ready =
      let (evidence, o, given, accepted, same) = evaluate-IsEvaluated v d h ready in
      let (_, _, checked, from) = accepted_observations-IsRead rt evidence accepted in
      let in_order =
        check_sequence-IsInOrder ("meaningful_breakout", o.breakout) (drop_first (sequence o))
          checked in
      (
        evidence,
        o,
        given,
        from,
        ap (get "observations") (sym same),
        in_order,
        ap (get "research_state") (sym same) ∙ ap str (classified-expected o in_order),
      )
