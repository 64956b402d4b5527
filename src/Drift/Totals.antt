-- ===== src/Drift/Totals.antt =====
-- The totals of `evaluate_plan_drift` are those of all conditions of all active plans (plan_drift.py).
use crt_master.Base.{
  >>=-eq-ok, All, All-append, Bool, List, Option, Result, String, [], ap, append-nil, append_assoc,
  false, if◌then◌else◌, inl, inr, length, ok, ok-injective, refl, subst, sym, true, ℕ, ◌++◌, ◌∙◌,
  ◌∷◌, ◌≡◌, ◌⊎◌,
}
use crt_master.Json.{arr, bool, end, float, get, int, is_str, items, null, obj, str}
use crt_master.Runtime.{Dict, Runtime, Value, to_list}
use crt_master.Drift.{ConditionResult}
use crt_master.Drift.Plans.{
  DriftResult, PlanResult, Planned, active_plans, begin_plan, check_active, check_plans,
  check_profile, check_tranches, drift_result, end_plan, evaluate_plan_drift, get_list,
  is_unconfirmed, no_plan_yet, no_plans, plan_result,
}
use crt_master.Drift.Counted.{Counted, IsCountOf, IsJudged, check_tranches-Counted}

module _ (rt : Runtime) where
  -- The conditions of the plans, in their order.
  abbrev pub all_conditions : List (PlanResult rt) → List (ConditionResult rt)
  all_conditions [] = []
  all_conditions (p ∷ ps) = p.conditions ++ all_conditions ps

  all_conditions-last :
      (ps : List (PlanResult rt)) (p : PlanResult rt)
      → all_conditions (ps ++ (p ∷ [])) ≡ all_conditions ps ++ p.conditions
  all_conditions-last [] p = append-nil p.conditions
  all_conditions-last (q ∷ ps) p =
      ap (λ rs. q.conditions ++ rs) (all_conditions-last ps p)
      ∙ sym (append_assoc q.conditions (all_conditions ps) p.conditions)

  abbrev pub PlansCounted : Dict rt → Value rt → Planned rt → Type 0
  PlansCounted profile layers p =
      (p.condition_total ≡ length (all_conditions p.results))
      × IsCountOf rt p.total (all_conditions p.results)
      × All (λ (q : PlanResult rt). IsCountOf rt q.counts q.conditions) p.results
      × All (IsJudged rt profile layers) (all_conditions p.results)

  check_plans-PlansCounted :
      (profile : Dict rt) (layers : Value rt) (plans : List (Dict rt)) (p : Planned rt)
      {p' : Planned rt}
      → PlansCounted profile layers p
      → check_plans rt profile layers plans p ≡ ok p'
      → PlansCounted profile layers p'
  unfolding check_plans
  check_plans-PlansCounted profile layers [] p good h =
      subst (PlansCounted profile layers) (ok-injective h) good
  check_plans-PlansCounted profile layers (plan ∷ plans) p (n, total, own, judged) h =
      let (tranches, _, h₁) = >>=-eq-ok (to_list rt (get_list rt "tranches" plan)) _ h in
      let (c, went, rest) =
        >>=-eq-ok (check_tranches rt profile layers (items tranches) (begin_plan rt p)) _ h₁ in
      let before = all_conditions p.results in
      let same = append-nil before in
      let started : Counted rt profile layers before (begin_plan rt p) = (
        n ∙ ap length (sym same),
        subst (IsCountOf rt p.total) (sym same) total,
        (refl, refl, refl),
        tt,
      ) in
      let (n', total', own', judged') =
        check_tranches-Counted rt profile layers (items tranches) before (begin_plan rt p) started
          went in
      let joined = all_conditions-last p.results (plan_result rt plan c) in
      check_plans-PlansCounted profile layers plans (end_plan rt p plan c)
        (
          n' ∙ ap length (sym joined),
          subst (IsCountOf rt c.total) (sym joined) total',
          All-append (λ (q : PlanResult rt). IsCountOf rt q.counts q.conditions) p.results
              (plan_result rt plan c ∷ []) own (own', tt),
          subst (All (IsJudged rt profile layers)) (sym joined)
              (All-append (IsJudged rt profile layers) before c.results judged judged'),
        )
        rest

  -- What a result counts: its totals are those of the conditions that it lists, the counts of each plan
  -- those of the plan's own, and each condition is judged against its one source.
  abbrev pub IsTallied : Dict rt → Value rt → DriftResult rt → Type 0
  IsTallied profile layers r =
      (r.condition_count ≡ length (all_conditions r.plans))
      × IsCountOf rt r.totals (all_conditions r.plans)
      × All (λ (q : PlanResult rt). IsCountOf rt q.counts q.conditions) r.plans
      × All (IsJudged rt profile layers) (all_conditions r.plans)

  abbrev pub dict_or_empty : Value rt → Dict rt
  dict_or_empty (obj d) = d
  dict_or_empty v = end

  -- The profile in a private context.
  abbrev pub profile_of : Value rt → Dict rt
  profile_of (obj context) = dict_or_empty (get "profile" context)
  profile_of v = end

  -- How a result came about: without plans, or from the loop over them.
  abbrev pub Came : Dict rt → Value rt → DriftResult rt → Type 0
  Came profile layers r =
      ((state : String) × (reason : String) × (reanalysis : Option Bool) × ((state ≡ "BLOCKED")
          ⊎ (state ≡ "NO_ACTIVE_PLAN"))
        × (r ≡ no_plans rt state reason reanalysis))
      ⊎ ((n : ℕ) × (p : Planned rt) × PlansCounted profile layers p × (r ≡ drift_result rt n p))

  no_plans-Came :
      (profile : Dict rt) (layers : Value rt) (state reason : String) (reanalysis : Option Bool)
      {r : DriftResult rt}
      → (state ≡ "BLOCKED") ⊎ (state ≡ "NO_ACTIVE_PLAN")
      → ok (no_plans rt state reason reanalysis) ≡ ok r
      → Came profile layers r
  no_plans-Came profile layers state reason reanalysis word h =
      inl (state, reason, reanalysis, word, sym (ok-injective h))

  check_active-Came :
      (profile : Dict rt) (layers : Value rt) (plans : List (Dict rt)) {r : DriftResult rt}
      → check_active rt profile layers plans ≡ ok r
      → Came profile layers r
  unfolding check_active
  check_active-Came profile layers [] h =
      no_plans-Came profile layers "NO_ACTIVE_PLAN" _ _ (inr refl) h
  check_active-Came profile layers (plan ∷ plans) h =
      let (p, went, same) =
        >>=-eq-ok (check_plans rt profile layers (plan ∷ plans) (no_plan_yet rt)) _ h in
      inr (
        length (plan ∷ plans),
        p,
        check_plans-PlansCounted profile layers (plan ∷ plans) (no_plan_yet rt)
            (refl, (refl, refl, refl), tt, tt) went,
        sym (ok-injective same),
      )

  if-Came :
      (profile : Dict rt) (layers : Value rt) (b : Bool) (x y : Result (DriftResult rt))
      {r : DriftResult rt}
      → (if b then x else y) ≡ ok r
      → (x ≡ ok r → Came profile layers r)
      → (y ≡ ok r → Came profile layers r)
      → Came profile layers r
  if-Came profile layers true x y h f g = f h
  if-Came profile layers false x y h f g = g h

  check_profile-Came :
      (v layers : Value rt) {r : DriftResult rt}
      → check_profile rt v layers ≡ ok r
      → Came (dict_or_empty v) layers r
  unfolding check_profile
  check_profile-Came (obj profile) layers h =
      if-Came profile layers (is_unconfirmed rt (get "capital_reconciliation" profile)) _ _ h
        (no_plans-Came profile layers "BLOCKED" _ _ (inl refl))
        (λ k.
          let (plans, _, rest) = >>=-eq-ok (to_list rt (get_list rt "plans" profile)) _ k in
          check_active-Came profile layers (active_plans rt (items plans)) rest)
  check_profile-Came null layers h = no_plans-Came _ layers "BLOCKED" _ _ (inl refl) h
  check_profile-Came (bool b) layers h = no_plans-Came _ layers "BLOCKED" _ _ (inl refl) h
  check_profile-Came (int n) layers h = no_plans-Came _ layers "BLOCKED" _ _ (inl refl) h
  check_profile-Came (float x) layers h = no_plans-Came _ layers "BLOCKED" _ _ (inl refl) h
  check_profile-Came (str s) layers h = no_plans-Came _ layers "BLOCKED" _ _ (inl refl) h
  check_profile-Came (arr xs) layers h = no_plans-Came _ layers "BLOCKED" _ _ (inl refl) h

  pub evaluate_plan_drift-Came :
      (context layers : Value rt) {r : DriftResult rt}
      → evaluate_plan_drift rt context layers ≡ ok r
      → Came (profile_of context) layers r
  unfolding evaluate_plan_drift
  evaluate_plan_drift-Came (obj context) layers h =
      if-Came _ layers (is_str (get "state" context) "AVAILABLE") _ _ h
        (check_profile-Came (get "profile" context) layers)
        (no_plans-Came _ layers "BLOCKED" _ _ (inl refl))
  evaluate_plan_drift-Came null layers h = no_plans-Came _ layers "BLOCKED" _ _ (inl refl) h
  evaluate_plan_drift-Came (bool b) layers h = no_plans-Came _ layers "BLOCKED" _ _ (inl refl) h
  evaluate_plan_drift-Came (int n) layers h = no_plans-Came _ layers "BLOCKED" _ _ (inl refl) h
  evaluate_plan_drift-Came (float x) layers h = no_plans-Came _ layers "BLOCKED" _ _ (inl refl) h
  evaluate_plan_drift-Came (str s) layers h = no_plans-Came _ layers "BLOCKED" _ _ (inl refl) h
  evaluate_plan_drift-Came (arr xs) layers h = no_plans-Came _ layers "BLOCKED" _ _ (inl refl) h

  Came-IsTallied :
      (profile : Dict rt) (layers : Value rt) (r : DriftResult rt)
      → Came profile layers r
      → IsTallied profile layers r
  Came-IsTallied profile layers r (inl (state, reason, reanalysis, _, same)) =
      subst (IsTallied profile layers) (sym same) (refl, (refl, refl, refl), tt, tt)
  Came-IsTallied profile layers r (inr (n, p, counted, same)) =
      subst (IsTallied profile layers) (sym same) counted

  -- Whatever `evaluate_plan_drift` returns: its totals are those of the conditions that it lists, the
  -- counts of each plan are those of the plan's own, and each condition has the evaluation that its
  -- one source gives, none or more than one giving a blocked one.
  pub evaluate_plan_drift-IsTallied :
      (context layers : Value rt) {r : DriftResult rt}
      → evaluate_plan_drift rt context layers ≡ ok r
      → IsTallied (profile_of context) layers r
  evaluate_plan_drift-IsTallied context layers {r} h =
      Came-IsTallied (profile_of context) layers r (evaluate_plan_drift-Came context layers h)
