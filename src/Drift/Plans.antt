-- ===== src/Drift/Plans.antt =====
-- radar/src/crt_radar/plan_drift.py, `evaluate_plan_drift`: the conditions of the pending tranches of
-- the active plans, counted for each plan and for the whole.
use crt_master.Base.{
  Bool, List, Option, Result, String, [], false, if◌then◌else◌, length, ltb, none, ok, some, str_eq,
  suc, true, ℕ, ◌++◌, ◌==◌, ◌>>=◌, ◌∷◌,
}
use crt_master.Json.{arr, get, has, is_none, is_str, items, nil, obj}
use crt_master.Runtime.{Dict, Runtime, Value, to_list, to_str}
use crt_master.Drift.{ConditionResult, as_dict, judge, resolve_condition_source}

-- What came of the conditions; `pending` counts tranches.
pub record Counts : Type 0 where
  pub pending : ℕ
  pub satisfied : ℕ
  pub violated : ℕ
  pub blocked : ℕ

abbrev pub zero_counts : Counts
zero_counts = record { pending = 0; satisfied = 0; violated = 0; blocked = 0 }

-- The branches behind `result["evaluation"] = evaluation`.
abbrev pub count_evaluation : String → Counts → Counts
count_evaluation evaluation t =
    if str_eq evaluation "SATISFIED"
    then record t { satisfied = suc t.satisfied }
    else if str_eq evaluation "VIOLATED"
    then record t { violated = suc t.violated }
    else record t { blocked = suc t.blocked }

abbrev pub count_pending : Counts → Counts
count_pending t = record t { pending = suc t.pending }

module _ (rt : Runtime) where
  open rt use {upper}

  pub record PlanResult : Type 0 where
    pub plan_id : Value rt
    pub asset : Value rt
    pub side : Value rt
    pub state : String
    pub reanalysis_required : Option Bool
    pub counts : Counts
    pub conditions : List (ConditionResult rt)

  pub record DriftResult : Type 0 where
    pub state : String
    pub reason : String
    pub reanalysis_required : Option Bool
    pub active_plan_count : ℕ
    pub condition_count : ℕ
    pub totals : Counts
    pub plans : List PlanResult

  -- The counts so far, of the whole call and of the plan, with the plan's condition results.
  pub record Counting : Type 0 where
    pub condition_total : ℕ
    pub total : Counts
    pub plan : Counts
    pub results : List (ConditionResult rt)

  unfoldable pub condition_result :
      Dict rt → Value rt → Value rt → Dict rt → Result (ConditionResult rt)
  condition_result profile layers tranche_id condition = do
    let name = to_str rt (get "field" condition)
    let operator = upper (to_str rt (get "operator" condition))
    let target = get "value" condition
    let source = resolve_condition_source rt name profile layers
    evaluation ← judge rt source operator target
    ok (record {
      tranche_id = tranche_id;
      name = name;
      operator = operator;
      target_value = target;
      source = source;
      evaluation = evaluation;
    })

  abbrev pub count_result : Counting → ConditionResult rt → Counting
  count_result c r = record {
    condition_total = suc c.condition_total;
    total = count_evaluation r.evaluation c.total;
    plan = count_evaluation r.evaluation c.plan;
    results = c.results ++ (r ∷ []);
  }

  -- The loop over the conditions of a tranche.
  unfoldable pub check_conditions :
      Dict rt → Value rt → Value rt → List (Value rt) → Counting → Result Counting
  check_conditions profile layers tranche_id [] c = ok c
  check_conditions profile layers tranche_id (v ∷ vs) c = elim (as_dict rt v) [
    | none ↦ check_conditions profile layers tranche_id vs c
    | some condition ↦ condition_result profile layers tranche_id condition >>= λ r.
        check_conditions profile layers tranche_id vs (count_result c r)
  ]

  -- d.get(key, [])
  abbrev pub get_list : String → Dict rt → Value rt
  get_list key d = if has key d then get key d else arr nil

  abbrev pub begin_tranche : Counting → Counting
  begin_tranche c = record c { total = count_pending c.total; plan = count_pending c.plan }

  abbrev pub check_tranche : Dict rt → Value rt → Dict rt → Counting → Result Counting
  check_tranche profile layers tranche c =
      to_list rt (get_list "validity_conditions" tranche) >>= λ conditions.
      check_conditions profile layers (get "tranche_id" tranche) (items conditions)
        (begin_tranche c)

  -- `isinstance(tranche, dict)` with the status that the loop asks for.
  abbrev pub with_status : String → Value rt → Option (Dict rt)
  with_status status (obj d) = if is_str (get "status" d) status then some d else none
  with_status status v = none

  -- The loop over the tranches of a plan.
  unfoldable pub check_tranches : Dict rt → Value rt → List (Value rt) → Counting → Result Counting
  check_tranches profile layers [] c = ok c
  check_tranches profile layers (v ∷ vs) c = elim (with_status "PENDING" v) [
    | none ↦ check_tranches profile layers vs c
    | some tranche ↦
        check_tranche profile layers tranche c >>= λ next. check_tranches profile layers vs next
  ]

  abbrev pub plan_state : Counts → String × Option Bool
  plan_state plan =
      if ltb 0 plan.violated
      then ("DRIFT_DETECTED", some true)
      else if ltb 0 plan.blocked
      then ("BLOCKED", none)
      else ("VALID", some false)

  abbrev pub plan_result : Dict rt → Counting → PlanResult
  plan_result plan c = record {
    plan_id = get "plan_id" plan;
    asset = get "asset" plan;
    side = get "side" plan;
    state = (plan_state c.plan).0;
    reanalysis_required = (plan_state c.plan).1;
    counts = c.plan;
    conditions = c.results;
  }

  -- The totals of the plans so far, and their results.
  pub record Planned : Type 0 where
    pub condition_total : ℕ
    pub total : Counts
    pub results : List PlanResult

  abbrev pub begin_plan : Planned → Counting
  begin_plan p = record {
    condition_total = p.condition_total;
    total = p.total;
    plan = zero_counts;
    results = [];
  }

  abbrev pub end_plan : Planned → Dict rt → Counting → Planned
  end_plan p plan c = record {
    condition_total = c.condition_total;
    total = c.total;
    results = p.results ++ (plan_result plan c ∷ []);
  }

  -- The loop over the active plans.
  unfoldable pub check_plans : Dict rt → Value rt → List (Dict rt) → Planned → Result Planned
  check_plans profile layers [] p = ok p
  check_plans profile layers (plan ∷ plans) p = do
    tranches ← to_list rt (get_list "tranches" plan)
    c ← check_tranches profile layers (items tranches) (begin_plan p)
    check_plans profile layers plans (end_plan p plan c)

  unfoldable pub active_plans : List (Value rt) → List (Dict rt)
  active_plans [] = []
  active_plans (v ∷ vs) = elim (with_status "ACTIVE" v) [
    | none ↦ active_plans vs
    | some plan ↦ plan ∷ active_plans vs
  ]

  -- The answers without plans.
  abbrev pub no_plans : String → String → Option Bool → DriftResult
  no_plans state reason reanalysis = record {
    state = state;
    reason = reason;
    reanalysis_required = reanalysis;
    active_plan_count = 0;
    condition_count = 0;
    totals = zero_counts;
    plans = [];
  }

  -- The state, the reason and "reanalysis_required" by the totals.
  abbrev pub drift_state : ℕ → Counts → String × (String × Option Bool)
  drift_state conditions total =
      if conditions == 0
      then ("BLOCKED", ("ACTIVE_PLAN_HAS_NO_EVALUABLE_CONDITIONS", none))
      else if ltb 0 total.violated
      then ("REANALYSIS_REQUIRED", ("ACTIVE_PLAN_CONDITION_VIOLATED", some true))
      else if ltb 0 total.blocked
      then ("BLOCKED", ("ACTIVE_PLAN_CONDITION_EVALUATION_BLOCKED", none))
      else ("STABLE", ("ACTIVE_PLAN_CONDITIONS_SATISFIED", some false))

  abbrev pub drift_result : ℕ → Planned → DriftResult
  drift_result active p =
      let s = drift_state p.condition_total p.total in
      record {
        state = s.0;
        reason = s.1.0;
        reanalysis_required = s.1.1;
        active_plan_count = active;
        condition_count = p.condition_total;
        totals = p.total;
        plans = p.results;
      }

  abbrev pub no_plan_yet : Planned
  no_plan_yet = record { condition_total = 0; total = zero_counts; results = [] }

  unfoldable pub check_active : Dict rt → Value rt → List (Dict rt) → Result DriftResult
  check_active profile layers [] =
      ok (no_plans "NO_ACTIVE_PLAN" "NO_ACTIVE_CAPITAL_PLAN" (some false))
  check_active profile layers (plan ∷ plans) =
      check_plans profile layers (plan ∷ plans) no_plan_yet >>= λ p.
      ok (drift_result (length (plan ∷ plans)) p)

  abbrev pub is_unconfirmed : Value rt → Bool
  is_unconfirmed (obj d) = is_none (get "user_confirmed" d)
  is_unconfirmed v = false

  unfoldable pub check_profile : Value rt → Value rt → Result DriftResult
  check_profile (obj profile) layers =
      if is_unconfirmed (get "capital_reconciliation" profile)
      then ok (no_plans "BLOCKED" "CAPITAL_INTENT_UNCONFIRMED" none)
      else do
        plans ← to_list rt (get_list "plans" profile)
        check_active profile layers (active_plans (items plans))
  check_profile v layers = ok (no_plans "BLOCKED" "PRIVATE_PROFILE_UNAVAILABLE" none)

  -- The private context is None if there is none.
  unfoldable pub evaluate_plan_drift : Value rt → Value rt → Result DriftResult
  evaluate_plan_drift (obj context) layers =
      if is_str (get "state" context) "AVAILABLE"
      then check_profile (get "profile" context) layers
      else ok (no_plans "BLOCKED" "PRIVATE_CONTEXT_UNAVAILABLE" none)
  evaluate_plan_drift v layers = ok (no_plans "BLOCKED" "PRIVATE_CONTEXT_UNAVAILABLE" none)
