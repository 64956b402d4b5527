-- ===== src/Research/Gate.antt =====
-- What the posture gate lets through (deployment_posture_research_gate.py): it answers every input, and
-- accepts what equals the evaluator's own result for the same observations, and only that.
use crt_master.Research.{
  Outcome, blocked, evaluate_control_transfer_evidence, need_object, passed, raised, result_schema,
  unless_blocked,
}
use crt_master.Base.{
  Option, Result, String, ap, err, inl, inr, none, ok, refl, some, str_eq, true, ◌∙◌, ◌≡◌, ◌⊎◌,
}
use crt_master.Json.{arr, bool, float, get, int, is_str, null, obj, str}
use crt_master.Runtime.{Dict, Runtime, Value}
use crt_master.Values.{equal}
use crt_master.Research.Read.{next_passed, passed-injective, then_passed}
use crt_master.Research.Posture.{
  accepted_state, all_texts, answer_of, canonical_evidence, check_fixed_fields, check_none_fields,
  fixed_fields, is_fixed, need_posture, none_fields, of_result, posture, posture_result,
  translate_research_state_to_posture_constraints,
}
use crt_master.Research.Calm.{IsCalm}
use crt_master.Research.Total.{accepted_state-IsCalm, unless_blocked-true}

module _ (rt : Runtime) where
  -- What the gate has accepted: a dictionary that equals the evaluator's result for the observations
  -- that it names.
  abbrev pub IsOwnResult : Dict rt → String → Type 0
  IsOwnResult d s =
      (raw : Dict rt) × (own : Dict rt) × (get "observations" d ≡ obj raw)
      × (evaluate_control_transfer_evidence rt (canonical_evidence rt raw) ≡ ok own)
      × (equal rt (obj own) (obj d) ≡ true)
      × (get "research_state" d ≡ str s)

  need_object-passed :
      (v : Value rt) (reason : String) {d : Dict rt}
      → need_object rt v reason ≡ passed d
      → v ≡ obj d
  need_object-passed (obj x) reason h = ap obj (passed-injective h)
  need_object-passed null reason h = cc
  need_object-passed (bool b) reason h = cc
  need_object-passed (int n) reason h = cc
  need_object-passed (float x) reason h = cc
  need_object-passed (str s) reason h = cc
  need_object-passed (arr xs) reason h = cc

  of_result-passed : (r : Result (Dict rt)) {d : Dict rt} → of_result rt r ≡ passed d → r ≡ ok d
  of_result-passed (ok x) h = ap ok (passed-injective h)
  of_result-passed (err e) h = cc

  table-passed :
      (t : String) (o : Option (String × String)) {s : String}
      → (let m : Outcome String = elim o [
        | none ↦ blocked "UNKNOWN_RESEARCH_STATE"
        | some p ↦ passed t
      ] in
          m)
        ≡ passed s
      → t ≡ s
  table-passed t none h = cc
  table-passed t (some p) h = passed-injective h

  need_posture-passed : (v : Value rt) {s : String} → need_posture rt v ≡ passed s → v ≡ str s
  need_posture-passed (str t) h = ap str (table-passed t (posture t) h)
  need_posture-passed null h = cc
  need_posture-passed (bool b) h = cc
  need_posture-passed (int n) h = cc
  need_posture-passed (float x) h = cc
  need_posture-passed (arr xs) h = cc
  need_posture-passed (obj d) h = cc

  accepted_state-IsOwnResult :
      (d : Dict rt) {s : String} → accepted_state rt d ≡ passed s → IsOwnResult d s
  unfolding accepted_state
  accepted_state-IsOwnResult d {s} h =
      let (_, _, h₁) =
        next_passed (unless_blocked (is_str (get "schema_version" d) result_schema) _) _ h in
      let (_, _, h₂) =
        next_passed (unless_blocked (is_str (get "state" d) "READY_FOR_ANALYST") _) _ h₁ in
      let (_, _, h₃) = next_passed (check_none_fields rt d none_fields) _ h₂ in
      let (_, _, h₄) = next_passed (check_fixed_fields rt d fixed_fields) _ h₃ in
      let (t, known, h₅) = then_passed (need_posture rt (get "research_state" d)) _ h₄ in
      let (_, _, h₆) =
        next_passed
          (unless_blocked
            (is_fixed rt (some (str_eq t "CONTROL_TRANSFER_CANDIDATE"))
              (get "control_transfer_loop_closed" d))
            "CONTROL_TRANSFER_LOOP_CONTRADICTION")
          _ h₅ in
      let (raw, there, h₇) =
        then_passed (need_object rt (get "observations" d) "INVALID_CLASSIFIED_OBSERVATIONS") _
          h₆ in
      let (_, _, h₈) =
        next_passed (unless_blocked (all_texts rt raw) "INVALID_CLASSIFIED_OBSERVATIONS") _ h₇ in
      let (own, evaluated, h₉) =
        then_passed
          (of_result rt (evaluate_control_transfer_evidence rt (canonical_evidence rt raw))) _ h₈ in
      let (_, same, end_state) =
        next_passed
          (unless_blocked (equal rt (obj own) (obj d)) "RESEARCH_EVALUATION_CONTRACT_MISMATCH") _
          h₉ in
      (
        raw,
        own,
        need_object-passed (get "observations" d) "INVALID_CLASSIFIED_OBSERVATIONS" there,
        of_result-passed (evaluate_control_transfer_evidence rt (canonical_evidence rt raw))
            evaluated,
        unless_blocked-true rt _ _ same,
        need_posture-passed (get "research_state" d) known ∙ ap str (passed-injective end_state),
      )

  -- The answer of the gate to a value.
  abbrev pub IsAnswered : Value rt → Dict rt → Type 0
  IsAnswered v answer =
      ((reason : String) × (answer ≡ posture_result rt reason none))
      ⊎ ((d : Dict rt) × (s : String) × (v ≡ obj d)
          × IsOwnResult d s
          × (answer ≡ posture_result rt "RESEARCH_POSTURE_REQUIRES_DOWNSTREAM_REVIEW" (some s)))

  answered :
      (d : Dict rt) (m : Outcome String)
      → accepted_state rt d ≡ m
      → IsCalm m
      → (answer : Dict rt) × (answer_of rt m ≡ ok answer) × IsAnswered (obj d) answer
  answered d (raised e) h calm = absurd calm
  answered d (blocked reason) h calm = (posture_result rt reason none, refl, inl (reason, refl))
  answered d (passed s) h calm = (
    posture_result rt "RESEARCH_POSTURE_REQUIRES_DOWNSTREAM_REVIEW" (some s),
    refl,
    inr (d, s, refl, accepted_state-IsOwnResult d h, refl),
  )

  abbrev no_object : Dict rt
  no_object = posture_result rt "RESEARCH_EVALUATION_NOT_OBJECT" none

  -- The gate returns for every value. Its answer is blocked, with no posture, unless the value is a
  -- dictionary that equals what the evaluator returns for the observations it names; the answer is
  -- then for the research state in it.
  pub translate_research_state_to_posture_constraints-IsAnswered :
      (v : Value rt)
      → (answer : Dict rt) × (translate_research_state_to_posture_constraints rt v ≡ ok answer)
        × IsAnswered v answer
  unfolding translate_research_state_to_posture_constraints
  translate_research_state_to_posture_constraints-IsAnswered (obj d) =
      answered d (accepted_state rt d) refl (accepted_state-IsCalm rt d)
  translate_research_state_to_posture_constraints-IsAnswered null = (no_object, refl, inl (_, refl))
  translate_research_state_to_posture_constraints-IsAnswered (bool b) =
      (no_object, refl, inl (_, refl))
  translate_research_state_to_posture_constraints-IsAnswered (int n) =
      (no_object, refl, inl (_, refl))
  translate_research_state_to_posture_constraints-IsAnswered (float x) =
      (no_object, refl, inl (_, refl))
  translate_research_state_to_posture_constraints-IsAnswered (str s) =
      (no_object, refl, inl (_, refl))
  translate_research_state_to_posture_constraints-IsAnswered (arr xs) =
      (no_object, refl, inl (_, refl))
