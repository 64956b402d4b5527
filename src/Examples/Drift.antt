-- ===== src/Examples/Drift.antt =====
-- One active plan with one pending tranche, whose condition holds.
use crt_master.Base.{[], false, ok, pos, refl, some, ◌∷◌, ◌≡◌}
use crt_master.Json.{arr, cons, end, field, int, nil, null, obj, str}
use crt_master.Runtime.{Dict, Value, to_float, to_list, to_str}
use crt_master.Drift.{
  bound, capital_candidates, evaluate_condition, finite_number, judge, market_candidates,
  resolve_condition_source,
}
use crt_master.Drift.Plans.{
  Counts, DriftResult, active_plans, check_active, check_conditions, check_plans, check_profile,
  check_tranches, condition_result, evaluate_plan_drift,
}
use crt_master.Drift.Totals.{IsTallied, all_conditions, evaluate_plan_drift-IsTallied}
use crt_master.Drift.Stable.{SaysOf, evaluate_plan_drift-SaysOf}
use crt_master.Examples.Toy.{toy}

abbrev list_of : Value toy → Value toy
list_of v = arr (cons v nil)

abbrev condition : Value toy
condition =
    obj
      (field "field" (str "cash") (field "operator" (str "GTE") (field "value" (int (pos 3)) end)))

abbrev tranche : Value toy
tranche = obj (
    field "tranche_id" (str "t")
      (field "status" (str "PENDING") (field "validity_conditions" (list_of condition) end)))

abbrev plan : Dict toy
plan =
    field "plan_id" (str "p")
      (field "status" (str "ACTIVE") (field "tranches" (list_of tranche) end))

abbrev profile : Dict toy
profile =
    field "capital_state" (obj (field "cash" (int (pos 5)) end))
      (field "plans" (list_of (obj plan)) end)

abbrev context : Value toy
context = obj (field "state" (str "AVAILABLE") (field "profile" (obj profile) end))

abbrev one_satisfied : Counts
one_satisfied = record { pending = 1; satisfied = 1; violated = 0; blocked = 0 }

abbrev stable : DriftResult toy
stable = record {
  state = "STABLE";
  reason = "ACTIVE_PLAN_CONDITIONS_SATISFIED";
  reanalysis_required = some false;
  active_plan_count = 1;
  condition_count = 1;
  totals = one_satisfied;
  plans =
      record {
        plan_id = str "p";
        asset = null;
        side = null;
        state = "VALID";
        reanalysis_required = some false;
        counts = one_satisfied;
        conditions =
            record {
              tranche_id = str "t";
              name = "cash";
              operator = "GTE";
              target_value = int (pos 3);
              source = bound (record {
                source_kind = "CAPITAL_STATE";
                source_path = "private_context.profile.capital_state.cash";
                value = int (pos 5);
              });
              evaluation = "SATISFIED";
            }
            ∷ [];
      }
      ∷ [];
}

context-stable : evaluate_plan_drift toy context null ≡ ok stable
unfolding evaluate_plan_drift check_profile check_active active_plans check_plans check_tranches
    check_conditions condition_result judge evaluate_condition finite_number to_float
    resolve_condition_source capital_candidates market_candidates to_list to_str
context-stable = refl

evaluate_plan_drift-IsTallied_example : IsTallied toy profile null stable
evaluate_plan_drift-IsTallied_example =
    evaluate_plan_drift-IsTallied toy context null context-stable

evaluate_plan_drift-SaysOf_example : SaysOf toy "STABLE" (all_conditions toy stable.plans)
evaluate_plan_drift-SaysOf_example = evaluate_plan_drift-SaysOf toy context null context-stable
