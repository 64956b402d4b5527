-- ===== src/Examples/Research.antt =====
-- Evidence with two confirmed steps, evaluated and offered to the posture gate.
use crt_master.Research.{
  Observations, accepted_observations, check_none, check_sequence,
  evaluate_control_transfer_evidence, observation_fields, read_observation, read_observations,
  ready_result, research_result, sequence,
}
use crt_master.Base.{drop_first, ok, refl, some, ◌≡◌}
use crt_master.Json.{get, obj, str}
use crt_master.Runtime.{Dict, Value}
use crt_master.Research.Rungs.{IsInOrder, expected}
use crt_master.Research.Read.{IsReadFrom}
use crt_master.Research.Ladder.{evaluate_control_transfer_evidence-expected}
use crt_master.Research.Posture.{
  canonical_evidence, posture_result, translate_research_state_to_posture_constraints,
}
use crt_master.Research.Gate.{
  IsAnswered, translate_research_state_to_posture_constraints-IsAnswered,
}
use crt_master.Research.Own.{translate_research_state_to_posture_constraints-evaluate}
use crt_master.Examples.Toy.{toy}

abbrev seen : Observations
seen = record {
  breakout = "CONFIRMED";
  pullback = "CONFIRMED";
  higher_low = "NOT_CONFIRMED";
  reattack = "NOT_OBSERVED";
  control_break = "NOT_OBSERVED";
  lower_low = "NOT_OBSERVED";
}

abbrev evidence : Value toy
evidence = canonical_evidence toy (observation_fields toy seen)

evidence-evaluated : evaluate_control_transfer_evidence toy evidence ≡ ok (ready_result toy seen)
unfolding evaluate_control_transfer_evidence accepted_observations check_none read_observations
    read_observation check_sequence
evidence-evaluated = refl

ready : get "state" (ready_result toy seen) ≡ str "READY_FOR_ANALYST"
unfolding research_result
ready = refl

evaluate_control_transfer_evidence-expected_example :
    (given : Dict toy) × (o : Observations) × (evidence ≡ obj given)
    × IsReadFrom toy given o
    × (get "observations" (ready_result toy seen) ≡ obj (observation_fields toy o))
    × IsInOrder ("meaningful_breakout", o.breakout) (drop_first (sequence o))
    × (get "research_state" (ready_result toy seen) ≡ str (expected o))
evaluate_control_transfer_evidence-expected_example =
    evaluate_control_transfer_evidence-expected toy evidence (ready_result toy seen)
      evidence-evaluated ready

translate_research_state_to_posture_constraints-IsAnswered_example :
    (answer : Dict toy) × (translate_research_state_to_posture_constraints toy
        (obj (ready_result toy seen))
      ≡ ok answer)
    × IsAnswered toy (obj (ready_result toy seen)) answer
translate_research_state_to_posture_constraints-IsAnswered_example =
    translate_research_state_to_posture_constraints-IsAnswered toy (obj (ready_result toy seen))

translate_research_state_to_posture_constraints-evaluate_example :
    (o : Observations) × (get "observations" (ready_result toy seen)
      ≡ obj (observation_fields toy o))
    × (translate_research_state_to_posture_constraints toy (obj (ready_result toy seen))
        ≡ ok (posture_result toy "RESEARCH_POSTURE_REQUIRES_DOWNSTREAM_REVIEW" (some (expected o))))
translate_research_state_to_posture_constraints-evaluate_example =
    translate_research_state_to_posture_constraints-evaluate toy evidence (ready_result toy seen)
      evidence-evaluated ready
