-- ===== src/Research/Own.antt =====
-- The posture gate takes the evaluator's own results (deployment_posture_research_gate.py and
-- btc_transition_research_eval.py).
use crt_master.Research.{
  Observations, Outcome, accepted_observations, blocked, check_none, check_sequence, classified,
  confirmed, evaluate_control_transfer_evidence, lower_low_states, observation_fields,
  observation_states, passed, read_observation, read_observations, read_step, ready_result,
  research_result, sequence,
}
use crt_master.Base.{
  Bool, List, Option, String, ap, drop_first, eq_ℤ_refl, false, if◌then◌else◌, none, ok, refl, some,
  str_eq, str_eq_refl, subst, sym, true, ◌∙◌, ◌≡◌,
}
use crt_master.Json.{arr, bool, contains, float, get, int, null, obj, str}
use crt_master.Runtime.{Dict, Runtime, Value, int_of_bool}
use crt_master.Values.{equal}
use crt_master.Research.Rungs.{check_sequence-IsInOrder, classified-expected, expected, pair_by}
use crt_master.Research.Read.{accepted_observations-IsRead, passed-injective, then_passed}
use crt_master.Research.Ladder.{evaluate-IsEvaluated}
use crt_master.Research.Posture.{
  accepted_state, answer_of, canonical_evidence, check_fixed_fields, check_none_fields, is_fixed,
  need_posture, posture, posture_result, translate_research_state_to_posture_constraints,
}

posture_by :
    (l b p h r c : Bool) → (x : String × String) × (posture (pair_by l b p h r c).1 ≡ some x)
unfolding posture
posture_by true true p h r c = (_, refl)
posture_by true false p h r c = (_, refl)
posture_by false false p h r c = (_, refl)
posture_by false true false h r c = (_, refl)
posture_by false true true false r c = (_, refl)
posture_by false true true true false c = (_, refl)
posture_by false true true true true false = (_, refl)
posture_by false true true true true true = (_, refl)

posture-classified :
    (o : Observations) → (x : String × String) × (posture (classified o).1 ≡ some x)
unfolding classified
posture-classified o =
    posture_by (str_eq o.lower_low "OBSERVED") (confirmed o.breakout) (confirmed o.pullback)
      (confirmed o.higher_low) (confirmed o.reattack) (confirmed o.control_break)

module _ (rt : Runtime) where
  is_fixed-bool : (b : Bool) → is_fixed rt (some b) (bool b) ≡ true
  is_fixed-bool true = refl
  is_fixed-bool false = refl

  allowed_by :
      (b : Bool) (s reason : String) {t : String}
      → (if b then passed s else blocked reason) ≡ passed t
      → (b ≡ true) × (s ≡ t)
  allowed_by true s reason h = (refl, passed-injective h)
  allowed_by false s reason h = cc

  read_observation-allowed :
      (allowed : List String) (name : String) (v : Value rt) {s : String}
      → read_observation rt allowed name v ≡ passed s
      → contains s allowed ≡ true
  unfolding read_observation
  read_observation-allowed allowed name (str t) h =
      let (is_in, same) = allowed_by (contains t allowed) t _ h in
      subst (λ x. contains x allowed ≡ true) same is_in
  read_observation-allowed allowed name null h = cc
  read_observation-allowed allowed name (bool b) h = cc
  read_observation-allowed allowed name (int n) h = cc
  read_observation-allowed allowed name (float x) h = cc
  read_observation-allowed allowed name (arr xs) h = cc
  read_observation-allowed allowed name (obj d) h = cc

  abbrev AreAllowed : Observations → Type 0
  AreAllowed o =
      (contains o.breakout observation_states ≡ true)
      × (contains o.pullback observation_states ≡ true)
      × (contains o.higher_low observation_states ≡ true)
      × (contains o.reattack observation_states ≡ true)
      × (contains o.control_break observation_states ≡ true)
      × (contains o.lower_low lower_low_states ≡ true)

  read_observations-AreAllowed :
      (raw : Dict rt) {o : Observations} → read_observations rt raw ≡ passed o → AreAllowed o
  unfolding read_observations
  read_observations-AreAllowed raw h =
      let (b, read_b, h₁) = then_passed (read_step rt "meaningful_breakout" raw) _ h in
      let (p, read_p, h₂) = then_passed (read_step rt "meaningful_pullback" raw) _ h₁ in
      let (l, read_l, h₃) = then_passed (read_step rt "higher_low" raw) _ h₂ in
      let (r, read_r, h₄) = then_passed (read_step rt "reattack" raw) _ h₃ in
      let (c, read_c, h₅) = then_passed (read_step rt "prior_control_high_break" raw) _ h₄ in
      let (w, read_w, h₆) =
        then_passed
          (read_observation rt lower_low_states "invalidating_lower_low"
            (get "invalidating_lower_low" raw))
          _ h₅ in
      subst AreAllowed (passed-injective h₆) (
        read_observation-allowed observation_states _ _ read_b,
        read_observation-allowed observation_states _ _ read_p,
        read_observation-allowed observation_states _ _ read_l,
        read_observation-allowed observation_states _ _ read_r,
        read_observation-allowed observation_states _ _ read_c,
        read_observation-allowed lower_low_states _ _ read_w,
      )

  read-observation_fields :
      (o : Observations) → AreAllowed o → read_observations rt (observation_fields rt o) ≡ passed o
  unfolding read_observations read_observation
  read-observation_fields o (a, b, c, d, e, f) = rw (a, b, c, d, e, f) refl

  evaluate-canonical :
      (o : Observations)
      → AreAllowed o
      → check_sequence ("meaningful_breakout", o.breakout) (drop_first (sequence o)) ≡ passed tt
      → evaluate_control_transfer_evidence rt (canonical_evidence rt (observation_fields rt o))
        ≡ ok (ready_result rt o)
  unfolding evaluate_control_transfer_evidence accepted_observations check_none
  evaluate-canonical o are_allowed checked =
      rw (read-observation_fields o are_allowed, checked) refl

  equal_own :
      (o : Observations) → equal rt (obj (ready_result rt o)) (obj (ready_result rt o)) ≡ true
  unfolding equal research_result
  equal_own o =
      rw
        (
          str_eq_refl (classified o).0,
          str_eq_refl (classified o).1,
          str_eq_refl o.breakout,
          str_eq_refl o.pullback,
          str_eq_refl o.higher_low,
          str_eq_refl o.reattack,
          str_eq_refl o.control_break,
          str_eq_refl o.lower_low,
        )
        (rw (eq_ℤ_refl (int_of_bool rt (str_eq (classified o).1 "CONTROL_TRANSFER_CANDIDATE")))
          refl)

  table-at :
      (s : String) (o : Option (String × String)) {x : String × String}
      → o ≡ some x
      → (let m : Outcome String = elim o [
        | none ↦ blocked "UNKNOWN_RESEARCH_STATE"
        | some p ↦ passed s
      ] in
          m)
        ≡ passed s
  table-at s none h = cc
  table-at s (some p) h = refl

  need_posture-at :
      (s : String) {x : String × String} → posture s ≡ some x → need_posture rt (str s) ≡ passed s
  need_posture-at s h = table-at s (posture s) h

  accepted_state-own :
      (o : Observations)
      → AreAllowed o
      → check_sequence ("meaningful_breakout", o.breakout) (drop_first (sequence o)) ≡ passed tt
      → accepted_state rt (ready_result rt o) ≡ passed (classified o).1
  unfolding accepted_state research_result check_none_fields check_fixed_fields
  accepted_state-own o are_allowed checked =
      let (x, known) = posture-classified o in
      rw
        (
          need_posture-at (classified o).1 known,
          is_fixed-bool (str_eq (classified o).1 "CONTROL_TRANSFER_CANDIDATE"),
          evaluate-canonical o are_allowed checked,
          equal_own o,
        )
        refl

  -- Every result of the evaluator that is ready for the analyst is accepted by the gate, whose answer
  -- is for the research state that the confirmed steps and the lower low give.
  pub translate_research_state_to_posture_constraints-evaluate :
      (evidence : Value rt) (d : Dict rt)
      → evaluate_control_transfer_evidence rt evidence ≡ ok d
      → get "state" d ≡ str "READY_FOR_ANALYST"
      → (o : Observations) × (get "observations" d ≡ obj (observation_fields rt o))
        × (translate_research_state_to_posture_constraints rt (obj d)
            ≡ ok (
                posture_result rt "RESEARCH_POSTURE_REQUIRES_DOWNSTREAM_REVIEW"
                  (some (expected o))))
  unfolding translate_research_state_to_posture_constraints research_result
  translate_research_state_to_posture_constraints-evaluate evidence d h ready =
      let (_, o, _, accepted, same) = evaluate-IsEvaluated rt evidence d h ready in
      let (raw, read, checked, _) = accepted_observations-IsRead rt _ accepted in
      let in_order =
        check_sequence-IsInOrder ("meaningful_breakout", o.breakout) (drop_first (sequence o))
          checked in
      (
        o,
        ap (get "observations") (sym same),
        ap (λ (x : Dict rt). answer_of rt (accepted_state rt x)) (sym same)
            ∙ (ap (answer_of rt)
                  (accepted_state-own o (read_observations-AreAllowed raw read) checked)
                ∙ ap
                    (λ s.
                      ok (posture_result rt "RESEARCH_POSTURE_REQUIRES_DOWNSTREAM_REVIEW" (some s)))
                    (classified-expected o in_order)),
      )
