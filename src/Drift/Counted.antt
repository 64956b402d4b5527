-- ===== src/Drift/Counted.antt =====
-- The counts that `evaluate_plan_drift` returns are those of the conditions that it lists, each judged
-- against its one source (plan_drift.py).
use crt_master.Base.{
  >>=-eq-ok, All, All-append, Bool, List, Option-cases, String, [], ap, append_assoc, arith,
  count_if, false, if◌then◌else◌, inl, inr, length, length-append, none, not, ok, ok-injective,
  refl, some, str_eq, str_eq_iff, subst, suc, sym, true, ℕ, ◌&&◌, ◌++◌, ◌+◌, ◌>>=◌, ◌∙◌, ◌∷◌, ◌≡◌,
}
use crt_master.Json.{get, items}
use crt_master.Runtime.{Dict, Runtime, Value, to_list, to_str}
use crt_master.Drift.{ConditionResult, as_dict, judge, resolve_condition_source}
use crt_master.Drift.Plans.{
  Counting, Counts, begin_tranche, check_conditions, check_tranche, check_tranches,
  condition_result, count_evaluation, count_result, get_list, with_status,
}

count_if-append {ℓ} :
    {A : Type ℓ} (p : A → Bool) (xs ys : List A)
    → count_if p (xs ++ ys) ≡ count_if p xs + count_if p ys
count_if-append p [] ys = omega arith
count_if-append p (x ∷ xs) ys = ground (arith, count_if-append p xs ys)

count_if-last {ℓ} :
    {A : Type ℓ} (p : A → Bool) (xs : List A) (y : A)
    → count_if p (xs ++ (y ∷ [])) ≡ (if p y then suc (count_if p xs) else count_if p xs)
count_if-last p xs y = ground (arith, count_if-append p xs (y ∷ []))

length-last {ℓ} : {A : Type ℓ} (xs : List A) (y : A) → length (xs ++ (y ∷ [])) ≡ suc (length xs)
length-last xs y = omega (arith, length-append xs (y ∷ []))

module _ (rt : Runtime) where
  abbrev pub is_satisfied : ConditionResult rt → Bool
  is_satisfied r = str_eq r.evaluation "SATISFIED"

  abbrev pub is_violated : ConditionResult rt → Bool
  is_violated r = str_eq r.evaluation "VIOLATED"

  abbrev pub is_blocked : ConditionResult rt → Bool
  is_blocked r = not (is_satisfied r) && not (is_violated r)

  -- Counts are those of a list of conditions.
  abbrev pub IsCountOf : Counts → List (ConditionResult rt) → Type 0
  IsCountOf t rs =
      (t.satisfied ≡ count_if is_satisfied rs)
      × (t.violated ≡ count_if is_violated rs)
      × (t.blocked ≡ count_if is_blocked rs)

  -- The evaluation is that of the one source that the condition's name has, if it has one.
  abbrev pub IsJudged : Dict rt → Value rt → ConditionResult rt → Type 0
  IsJudged profile layers r =
      (r.source ≡ resolve_condition_source rt r.name profile layers)
      × (judge rt r.source r.operator r.target_value ≡ ok r.evaluation)

  pub exclusive : (s : String) → str_eq s "SATISFIED" ≡ true → str_eq s "VIOLATED" ≡ false
  exclusive s h = rw ((str_eq_iff s "SATISFIED").0 h) refl

  step_by :
      (b v : Bool) (t : Counts) (x y z : ℕ)
      → (b ≡ true → v ≡ false)
      → t.satisfied ≡ x
      → t.violated ≡ y
      → t.blocked ≡ z
      → let t' : Counts =
          if b
          then record t { satisfied = suc t.satisfied }
          else if v
          then record t { violated = suc t.violated }
          else record t { blocked = suc t.blocked } in
        (t'.satisfied ≡ (if b then suc x else x))
        × (t'.violated ≡ (if v then suc y else y))
        × (t'.blocked ≡ (if not b && not v then suc z else z))
  step_by true true t x y z apart a e i = absurd (differ (apart refl))
    where
      differ : true ≡ false → ⊥
      differ h = cc
  step_by true false t x y z apart a e i = (ap suc a, e, i)
  step_by false true t x y z apart a e i = (a, ap suc e, i)
  step_by false false t x y z apart a e i = (a, e, ap suc i)

  count_one :
      (t : Counts) (rs : List (ConditionResult rt)) (r : ConditionResult rt)
      → IsCountOf t rs
      → IsCountOf (count_evaluation r.evaluation t) (rs ++ (r ∷ []))
  count_one t rs r (a, e, i) =
      let (x, y, z) =
        step_by (is_satisfied r) (is_violated r) t (count_if is_satisfied rs)
          (count_if is_violated rs) (count_if is_blocked rs) (exclusive r.evaluation) a e i in
      (
        x ∙ sym (count_if-last is_satisfied rs r),
        y ∙ sym (count_if-last is_violated rs r),
        z ∙ sym (count_if-last is_blocked rs r),
      )

  -- The counts after some turns of the loops, behind the results of the plans before.
  abbrev pub Counted : Dict rt → Value rt → List (ConditionResult rt) → Counting rt → Type 0
  Counted profile layers before c =
      (c.condition_total ≡ length (before ++ c.results))
      × IsCountOf c.total (before ++ c.results)
      × IsCountOf c.plan c.results
      × All (IsJudged profile layers) c.results

  condition_result-IsJudged :
      (profile : Dict rt) (layers tranche_id : Value rt) (condition : Dict rt)
      {r : ConditionResult rt}
      → condition_result rt profile layers tranche_id condition ≡ ok r
      → IsJudged profile layers r
  unfolding condition_result
  condition_result-IsJudged profile layers tranche_id condition h =
      let name = to_str rt (get "field" condition) in
      let operator = rt.upper (to_str rt (get "operator" condition)) in
      let source = resolve_condition_source rt name profile layers in
      let (evaluation, judged, same) =
        >>=-eq-ok (judge rt source operator (get "value" condition)) _ h in
      subst (IsJudged profile layers) (ok-injective same) (refl, judged)

  count_result-Counted :
      (profile : Dict rt) (layers : Value rt) (before : List (ConditionResult rt)) (c : Counting rt)
      (r : ConditionResult rt)
      → Counted profile layers before c
      → IsJudged profile layers r
      → Counted profile layers before (count_result rt c r)
  count_result-Counted profile layers before c r (n, total, plan, judged) this =
      let joined = append_assoc before c.results (r ∷ []) in
      (
        ap suc n ∙ (sym (length-last (before ++ c.results) r) ∙ ap length joined),
        subst (IsCountOf (count_evaluation r.evaluation c.total)) joined
            (count_one c.total (before ++ c.results) r total),
        count_one c.plan c.results r plan,
        All-append (IsJudged profile layers) c.results (r ∷ []) judged (this, tt),
      )

  conditions-skip :
      (profile : Dict rt) (layers tranche_id v : Value rt) (vs : List (Value rt)) (c : Counting rt)
      → as_dict rt v ≡ none
      → check_conditions rt profile layers tranche_id (v ∷ vs) c
        ≡ check_conditions rt profile layers tranche_id vs c
  unfolding check_conditions
  conditions-skip profile layers tranche_id v vs c h = rw (h, check_conditions) refl

  conditions-take :
      (profile : Dict rt) (layers tranche_id v : Value rt) (vs : List (Value rt)) (c : Counting rt)
      {condition : Dict rt}
      → as_dict rt v ≡ some condition
      → check_conditions rt profile layers tranche_id (v ∷ vs) c ≡ (
          condition_result rt profile layers tranche_id condition >>= λ r.
          check_conditions rt profile layers tranche_id vs (count_result rt c r))
  unfolding check_conditions
  conditions-take profile layers tranche_id v vs c h = rw (h, check_conditions) refl

  check_conditions-Counted :
      (profile : Dict rt) (layers tranche_id : Value rt) (vs : List (Value rt))
      (before : List (ConditionResult rt)) (c : Counting rt) {c' : Counting rt}
      → Counted profile layers before c
      → check_conditions rt profile layers tranche_id vs c ≡ ok c'
      → Counted profile layers before c'
  unfolding check_conditions
  check_conditions-Counted profile layers tranche_id [] before c good h =
      subst (Counted profile layers before) (ok-injective h) good
  check_conditions-Counted profile layers tranche_id (v ∷ vs) before c good h =
      elim (Option-cases (as_dict rt v)) [
        | inl absent ↦
            check_conditions-Counted profile layers tranche_id vs before c good
              (sym (conditions-skip profile layers tranche_id v vs c absent) ∙ h)
        | inr (condition, there) ↦
            let (r, result, rest) =
              >>=-eq-ok (condition_result rt profile layers tranche_id condition) _
                (sym (conditions-take profile layers tranche_id v vs c there) ∙ h) in
            check_conditions-Counted profile layers tranche_id vs before (count_result rt c r)
              (count_result-Counted profile layers before c r good
                (condition_result-IsJudged profile layers tranche_id condition result))
              rest
      ]

  check_tranche-Counted :
      (profile : Dict rt) (layers : Value rt) (tranche : Dict rt)
      (before : List (ConditionResult rt)) (c : Counting rt) {c' : Counting rt}
      → Counted profile layers before c
      → check_tranche rt profile layers tranche c ≡ ok c'
      → Counted profile layers before c'
  check_tranche-Counted profile layers tranche before c good h =
      let (conditions, _, rest) =
        >>=-eq-ok (to_list rt (get_list rt "validity_conditions" tranche)) _ h in
      check_conditions-Counted profile layers (get "tranche_id" tranche) (items conditions) before
        (begin_tranche rt c) good rest

  tranches-skip :
      (profile : Dict rt) (layers v : Value rt) (vs : List (Value rt)) (c : Counting rt)
      → with_status rt "PENDING" v ≡ none
      → check_tranches rt profile layers (v ∷ vs) c ≡ check_tranches rt profile layers vs c
  unfolding check_tranches
  tranches-skip profile layers v vs c h = rw (h, check_tranches) refl

  tranches-take :
      (profile : Dict rt) (layers v : Value rt) (vs : List (Value rt)) (c : Counting rt)
      {tranche : Dict rt}
      → with_status rt "PENDING" v ≡ some tranche
      → check_tranches rt profile layers (v ∷ vs) c ≡ (
          check_tranche rt profile layers tranche c >>= λ next.
          check_tranches rt profile layers vs next)
  unfolding check_tranches
  tranches-take profile layers v vs c h = rw (h, check_tranches) refl

  pub check_tranches-Counted :
      (profile : Dict rt) (layers : Value rt) (vs : List (Value rt))
      (before : List (ConditionResult rt)) (c : Counting rt) {c' : Counting rt}
      → Counted profile layers before c
      → check_tranches rt profile layers vs c ≡ ok c'
      → Counted profile layers before c'
  unfolding check_tranches
  check_tranches-Counted profile layers [] before c good h =
      subst (Counted profile layers before) (ok-injective h) good
  check_tranches-Counted profile layers (v ∷ vs) before c good h =
      elim (Option-cases (with_status rt "PENDING" v)) [
        | inl absent ↦
            check_tranches-Counted profile layers vs before c good
              (sym (tranches-skip profile layers v vs c absent) ∙ h)
        | inr (tranche, there) ↦
            let (next, went, rest) =
              >>=-eq-ok (check_tranche rt profile layers tranche c) _
                (sym (tranches-take profile layers v vs c there) ∙ h) in
            check_tranches-Counted profile layers vs before next
              (check_tranche-Counted profile layers tranche before c good went) rest
      ]
