-- ===== src/Drift/Stable.antt =====
-- What the state of `evaluate_plan_drift` says of the conditions (plan_drift.py).
use crt_master.Base.{
  All, Bool, List, Option, String, [], arith, count_if, false, if◌then◌else◌, inl, inr, length, ltb,
  ltb→lt, not, ok, refl, str_eq_iff, subst, sym, true, ℕ, ◌&&◌, ◌+◌, ◌<◌, ◌==◌, ◌↔◌, ◌∙◌, ◌∷◌, ◌≡◌,
  ◌≤◌, ◌⊎◌,
}
use crt_master.Runtime.{Dict, Runtime, Value}
use crt_master.Drift.{ConditionResult}
use crt_master.Drift.Plans.{Counts, DriftResult, drift_state, evaluate_plan_drift}
use crt_master.Drift.Counted.{IsCountOf, exclusive, is_blocked, is_satisfied, is_violated}
use crt_master.Drift.Totals.{Came, all_conditions, evaluate_plan_drift-Came, profile_of}

-- The word of `drift_state` by its tests.
abbrev word_by : Bool → Bool → Bool → String
word_by x y z =
    if x then "BLOCKED" else if y then "REANALYSIS_REQUIRED" else if z then "BLOCKED" else "STABLE"

first_by :
    (x y z : Bool) (a b c d : String × Option Bool)
    → let w : String × (String × Option Bool) =
        if x
        then ("BLOCKED", a)
        else if y
        then ("REANALYSIS_REQUIRED", b)
        else if z
        then ("BLOCKED", c)
        else ("STABLE", d) in
      w.0 ≡ word_by x y z
first_by true y z a b c d = refl
first_by false true z a b c d = refl
first_by false false true a b c d = refl
first_by false false false a b c d = refl

blocked_stable : ◌≡◌ {A = String} "BLOCKED" "STABLE" → ⊥
blocked_stable h = ground (arith, str_eq_iff "BLOCKED" "STABLE")

required_stable : ◌≡◌ {A = String} "REANALYSIS_REQUIRED" "STABLE" → ⊥
required_stable h = ground (arith, str_eq_iff "REANALYSIS_REQUIRED" "STABLE")

blocked_required : ◌≡◌ {A = String} "BLOCKED" "REANALYSIS_REQUIRED" → ⊥
blocked_required h = ground (arith, str_eq_iff "BLOCKED" "REANALYSIS_REQUIRED")

stable_word : (x y z : Bool) → word_by x y z ≡ "STABLE" → (x ≡ false) × (y ≡ false) × (z ≡ false)
stable_word false false false h = (refl, refl, refl)
stable_word true y z h = absurd (blocked_stable h)
stable_word false true z h = absurd (required_stable h)
stable_word false false true h = absurd (blocked_stable h)

required_word : (x y z : Bool) → word_by x y z ≡ "REANALYSIS_REQUIRED" → (x ≡ false) × (y ≡ true)
required_word false true z h = (refl, refl)
required_word true y z h = absurd (blocked_required h)
required_word false false true h = absurd (blocked_required h)
required_word false false false h = absurd (required_stable (sym h))

module _ (rt : Runtime) where
  -- The state by the numbers of conditions, of violated ones and of blocked ones.
  state_word :
      (n : ℕ) (t : Counts)
      → (drift_state rt n t).0 ≡ word_by (n == 0) (ltb 0 t.violated) (ltb 0 t.blocked)
  state_word n t = first_by (n == 0) (ltb 0 t.violated) (ltb 0 t.blocked) _ _ _ _

  abbrev AllSatisfied : List (ConditionResult rt) → Type 0
  AllSatisfied = All (λ (c : ConditionResult rt). c.evaluation ≡ "SATISFIED")

  left_by :
      (b v : Bool) (x y : ℕ)
      → (if v then 1 else 0) + x ≡ 0
      → (if not b && not v then 1 else 0) + y ≡ 0
      → (b ≡ true) × (x ≡ 0) × (y ≡ 0)
  left_by true true x y h k = ground arith
  left_by false true x y h k = ground arith
  left_by true false x y h k = (refl, omega arith, omega arith)
  left_by false false x y h k = ground arith

  none_left :
      (rs : List (ConditionResult rt))
      → count_if (is_violated rt) rs ≡ 0
      → count_if (is_blocked rt) rs ≡ 0
      → AllSatisfied rs
  none_left [] h k = tt
  none_left (r ∷ rs) h k =
      let (this, violated, blocked) =
        left_by (is_satisfied rt r) (is_violated rt r) (count_if (is_violated rt) rs)
          (count_if (is_blocked rt) rs) h k in
      ((str_eq_iff r.evaluation "SATISFIED").0 this, none_left rs violated blocked)

  none_by :
      (b v : Bool) (x y : ℕ)
      → b ≡ true
      → v ≡ false
      → x ≡ 0
      → y ≡ 0
      → ((if v then 1 else 0) + x ≡ 0) × ((if not b && not v then 1 else 0) + y ≡ 0)
  none_by true false x y a e h k = (omega arith, omega arith)
  none_by false v x y a e h k = cc
  none_by true true x y a e h k = cc

  all_satisfied :
      (rs : List (ConditionResult rt))
      → AllSatisfied rs
      → (count_if (is_violated rt) rs ≡ 0) × (count_if (is_blocked rt) rs ≡ 0)
  all_satisfied [] h = (refl, refl)
  all_satisfied (r ∷ rs) (this, rest) =
      let (violated, blocked) = all_satisfied rs rest in
      let yes_it_is = (str_eq_iff r.evaluation "SATISFIED").1 this in
      none_by (is_satisfied rt r) (is_violated rt r) (count_if (is_violated rt) rs)
        (count_if (is_blocked rt) rs) yes_it_is (exclusive rt r.evaluation yes_it_is) violated
        blocked

  -- What the state says of the conditions that are listed.
  abbrev pub SaysOf : String → List (ConditionResult rt) → Type 0
  SaysOf state rs =
      ((state ≡ "STABLE") ↔ ((0 < length rs) × AllSatisfied rs))
      × ((state ≡ "REANALYSIS_REQUIRED") ↔ (0 < count_if (is_violated rt) rs))

  count_if-le {ℓ} : {A : Type ℓ} (p : A → Bool) (xs : List A) → count_if p xs ≤ length xs
  count_if-le p [] = omega arith
  count_if-le p (x ∷ xs) = ground (arith, count_if-le p xs)

  zero_false : (n : ℕ) → (n == 0) ≡ false → 0 < n
  zero_false n h = ground arith

  positive_false : (n : ℕ) → ltb 0 n ≡ false → n ≡ 0
  positive_false n h = ground arith

  drift_state-SaysOf :
      (n : ℕ) (t : Counts) (rs : List (ConditionResult rt))
      → n ≡ length rs
      → IsCountOf rt t rs
      → SaysOf (drift_state rt n t).0 rs
  drift_state-SaysOf n t rs counted (s, v, b) = (
    (
      (λ h.
          let (some_there, no_violated, no_blocked) =
            stable_word (n == 0) (ltb 0 t.violated) (ltb 0 t.blocked) (sym (state_word n t) ∙ h) in
          let many = zero_false n some_there in
          (
            omega arith,
            none_left rs (sym v ∙ positive_false t.violated no_violated)
                (sym b ∙ positive_false t.blocked no_blocked),
          )),
      (λ (many, good).
          let (violated, blocked) = all_satisfied rs good in
          state_word n t
          ∙ is_stable n t.violated t.blocked (omega arith) (v ∙ violated) (b ∙ blocked)),
    ),
    (
      (λ h.
          let (_, found) =
            required_word (n == 0) (ltb 0 t.violated) (ltb 0 t.blocked)
              (sym (state_word n t) ∙ h) in
          let positive = ltb→lt 0 t.violated found in omega arith),
      (λ positive.
          let fits = count_if-le (is_violated rt) rs in
          state_word n t ∙ is_required n t.violated t.blocked (omega arith) (omega arith)),
    ),
  )
    where
      is_stable :
          (n v b : ℕ) → 0 < n → v ≡ 0 → b ≡ 0 → word_by (n == 0) (ltb 0 v) (ltb 0 b) ≡ "STABLE"
      is_stable n v b many h k = ground arith

      is_required :
          (n v b : ℕ) → 0 < n → 0 < v → word_by (n == 0) (ltb 0 v) (ltb 0 b) ≡ "REANALYSIS_REQUIRED"
      is_required n v b many h = ground arith

  blocked_state : SaysOf "BLOCKED" []
  blocked_state = (
    ((λ h. absurd (blocked_stable h)), (λ (many, _). ground arith)),
    ((λ h. absurd (blocked_required h)), (λ many. ground arith)),
  )

  inactive_stable : ◌≡◌ {A = String} "NO_ACTIVE_PLAN" "STABLE" → ⊥
  inactive_stable h = ground (arith, str_eq_iff "NO_ACTIVE_PLAN" "STABLE")

  inactive_required : ◌≡◌ {A = String} "NO_ACTIVE_PLAN" "REANALYSIS_REQUIRED" → ⊥
  inactive_required h = ground (arith, str_eq_iff "NO_ACTIVE_PLAN" "REANALYSIS_REQUIRED")

  inactive_state : SaysOf "NO_ACTIVE_PLAN" []
  inactive_state = (
    ((λ h. absurd (inactive_stable h)), (λ (many, _). ground arith)),
    ((λ h. absurd (inactive_required h)), (λ many. ground arith)),
  )

  quiet_state :
      (state : String) → (state ≡ "BLOCKED") ⊎ (state ≡ "NO_ACTIVE_PLAN") → SaysOf state []
  quiet_state state (inl e) = subst (λ s. SaysOf s []) (sym e) blocked_state
  quiet_state state (inr e) = subst (λ s. SaysOf s []) (sym e) inactive_state

  Came-SaysOf :
      (profile : Dict rt) (layers : Value rt) (r : DriftResult rt)
      → Came rt profile layers r
      → SaysOf r.state (all_conditions rt r.plans)
  Came-SaysOf profile layers r (inl (state, reason, reanalysis, word, same)) =
      subst (λ (x : DriftResult rt). SaysOf x.state (all_conditions rt x.plans)) (sym same)
        (quiet_state state word)
  Came-SaysOf profile layers r (inr (n, p, (counted, total, _, _), same)) =
      subst (λ (x : DriftResult rt). SaysOf x.state (all_conditions rt x.plans)) (sym same)
        (drift_state-SaysOf p.condition_total p.total (all_conditions rt p.results) counted total)

  -- Whatever `evaluate_plan_drift` returns: the state is STABLE exactly if a condition is listed and
  -- all are satisfied, and REANALYSIS_REQUIRED exactly if one is violated.
  pub evaluate_plan_drift-SaysOf :
      (context layers : Value rt) {r : DriftResult rt}
      → evaluate_plan_drift rt context layers ≡ ok r
      → SaysOf r.state (all_conditions rt r.plans)
  evaluate_plan_drift-SaysOf context layers {r} h =
      Came-SaysOf (profile_of rt context) layers r (evaluate_plan_drift-Came rt context layers h)
