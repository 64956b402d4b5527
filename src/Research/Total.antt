-- ===== src/Research/Total.antt =====
-- The posture gate does not raise, whatever dictionary it is given
-- (deployment_posture_research_gate.py).
use crt_master.Research.{
  Observations, Outcome, accepted_observations, authority_fields, blocked, check_none,
  check_sequence, evaluate_control_transfer_evidence, evidence_schema, finish, need_object, passed,
  raised, read_observations, result_schema, sequence, unless_blocked,
}
use crt_master.Base.{Bool, String, drop_first, false, refl, some, str_eq, true, ◌≡◌}
use crt_master.Json.{end, field, get, is_str, obj, str}
use crt_master.Runtime.{Dict, Runtime}
use crt_master.Values.{equal}
use crt_master.Research.Posture.{
  accepted_state, all_texts, canonical_evidence, check_fixed_fields, check_none_fields,
  fixed_fields, is_fixed, need_posture, none_authority, none_fields, of_result,
}
use crt_master.Research.Calm.{
  IsCalm, check_fixed_fields-IsCalm, check_none-IsCalm, check_none_fields-IsCalm,
  check_sequence-IsCalm, need_object-IsCalm, need_posture-IsCalm, next-IsCalm,
  read_observations-IsCalm, then-IsCalm, unless_blocked-IsCalm,
}

module _ (rt : Runtime) where
  -- The evidence that the gate makes of texts is evaluated without an error.
  canonical-IsCalm :
      (raw : Dict rt)
      → all_texts rt raw ≡ true
      → IsCalm (
          accepted_observations rt (
            field "schema_version"
              (str evidence_schema)
              (field "authority" (obj (none_authority rt)) (field "observations" (obj raw) end))))
  unfolding accepted_observations
  canonical-IsCalm raw texts =
      next-IsCalm (check_none rt (none_authority rt) authority_fields) _
        (check_none-IsCalm rt (none_authority rt) authority_fields)
        (then-IsCalm (read_observations rt raw) _ (read_observations-IsCalm rt raw texts) λ o _.
          next-IsCalm (check_sequence ("meaningful_breakout", o.breakout) (drop_first (sequence o)))
            _ (check_sequence-IsCalm ("meaningful_breakout", o.breakout) (drop_first (sequence o)))
            tt)

  finish-IsCalm : (m : Outcome Observations) → IsCalm m → IsCalm (of_result rt (finish rt m))
  finish-IsCalm (passed o) h = tt
  finish-IsCalm (blocked reason) h = tt
  finish-IsCalm (raised e) h = absurd h

  evaluated-IsCalm :
      (raw : Dict rt)
      → all_texts rt raw ≡ true
      → IsCalm (of_result rt (evaluate_control_transfer_evidence rt (canonical_evidence rt raw)))
  unfolding evaluate_control_transfer_evidence
  evaluated-IsCalm raw texts = finish-IsCalm _ (canonical-IsCalm raw texts)

  pub unless_blocked-true :
      (b : Bool) (reason : String) {u : Unit {0}} → unless_blocked b reason ≡ passed u → b ≡ true
  unless_blocked-true true reason h = refl
  unless_blocked-true false reason h = cc

  pub accepted_state-IsCalm : (d : Dict rt) → IsCalm (accepted_state rt d)
  unfolding accepted_state
  accepted_state-IsCalm d =
      next-IsCalm (unless_blocked (is_str (get "schema_version" d) result_schema) _) _
        (unless_blocked-IsCalm _ _)
        (next-IsCalm (unless_blocked (is_str (get "state" d) "READY_FOR_ANALYST") _) _
          (unless_blocked-IsCalm _ _)
          (next-IsCalm (check_none_fields rt d none_fields) _
            (check_none_fields-IsCalm rt d none_fields)
            (next-IsCalm (check_fixed_fields rt d fixed_fields) _
              (check_fixed_fields-IsCalm rt d fixed_fields)
              (then-IsCalm (need_posture rt (get "research_state" d)) _
                (need_posture-IsCalm rt (get "research_state" d))
                λ s _.
                  next-IsCalm
                    (unless_blocked
                      (is_fixed rt (some (str_eq s "CONTROL_TRANSFER_CANDIDATE"))
                        (get "control_transfer_loop_closed" d))
                      _)
                    _ (unless_blocked-IsCalm _ _)
                    (then-IsCalm (need_object rt (get "observations" d) _) _
                      (need_object-IsCalm rt (get "observations" d) _)
                      λ raw _.
                        then-IsCalm (unless_blocked (all_texts rt raw) _) _
                          (unless_blocked-IsCalm _ _)
                          λ u texts.
                            then-IsCalm
                              (of_result rt
                                (evaluate_control_transfer_evidence rt (canonical_evidence rt raw)))
                              _ (evaluated-IsCalm raw (unless_blocked-true _ _ texts))
                              λ c _.
                                next-IsCalm (unless_blocked (equal rt (obj c) (obj d)) _) _
                                  (unless_blocked-IsCalm _ _) tt)))))
