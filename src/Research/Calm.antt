-- ===== src/Research/Calm.antt =====
-- Which steps of the evaluator and of the posture gate do not raise (btc_transition_research_eval.py,
-- deployment_posture_research_gate.py).
use crt_master.Research.{
  Outcome, blocked, check_none, check_sequence, confirmed, lower_low_states, need_object,
  observation_states, passed, raised, read_observation, read_observations, read_step,
  unless_blocked, ◌>>=◌, ◌>>◌,
}
use crt_master.Base.{
  Bool, List, Option, String, [], false, if◌then◌else◌, none, not, refl, some, str_eq, true, ◌&&◌,
  ◌∷◌, ◌≡◌,
}
use crt_master.Json.{arr, bool, contains, end, field, float, get, has, int, is_str, null, obj, str}
use crt_master.Runtime.{Dict, Runtime, Value}
use crt_master.Research.Posture.{
  all_texts, check_fixed_fields, check_none_fields, is_fixed, need_posture, posture,
}

-- A computation that does not raise.
abbrev pub IsCalm {ℓ} : {A : Type ℓ} → Outcome A → Type 0
IsCalm (raised e) = ⊥
IsCalm (blocked reason) = Unit
IsCalm (passed a) = Unit

pub then-IsCalm {ℓ κ} :
    {A : Type ℓ} {B : Type κ} (m : Outcome A) (k : A → Outcome B)
    → IsCalm m
    → ((a : A) → m ≡ passed a → IsCalm (k a))
    → IsCalm (m >>= k)
then-IsCalm (raised e) k h next = h
then-IsCalm (blocked reason) k h next = tt
then-IsCalm (passed a) k h next = next a refl

pub next-IsCalm {ℓ κ} :
    {A : Type ℓ} {B : Type κ} (m : Outcome A) (k : Outcome B)
    → IsCalm m
    → IsCalm k
    → IsCalm (m >> k)
next-IsCalm m k h next = then-IsCalm m (λ _. k) h (λ a same. next)

pub unless_blocked-IsCalm : (b : Bool) (reason : String) → IsCalm (unless_blocked b reason)
unless_blocked-IsCalm true reason = tt
unless_blocked-IsCalm false reason = tt

split-IsCalm {ℓ} :
    {A : Type ℓ} (b : Bool) (x y : Outcome A)
    → IsCalm x
    → IsCalm y
    → IsCalm (elim b [ true ↦ x | false ↦ y ])
split-IsCalm true x y h k = h
split-IsCalm false x y h k = k

pub check_sequence-IsCalm :
    (before : String × String) (rest : List (String × String)) → IsCalm (check_sequence before rest)
unfolding check_sequence
check_sequence-IsCalm before [] = tt
check_sequence-IsCalm before (step ∷ rest) =
    split-IsCalm (confirmed step.1 && not (confirmed before.1)) _ _ tt
      (check_sequence-IsCalm step rest)

module _ (rt : Runtime) where
  pub check_none-IsCalm :
      (d : Dict rt) (names : List (String × String)) → IsCalm (check_none rt d names)
  unfolding check_none
  check_none-IsCalm d [] = tt
  check_none-IsCalm d ((name, reason) ∷ rest) =
      split-IsCalm (is_str (get name d) "NONE") _ _ (check_none-IsCalm d rest) tt

  pub check_none_fields-IsCalm :
      (d : Dict rt) (names : List String) → IsCalm (check_none_fields rt d names)
  unfolding check_none_fields
  check_none_fields-IsCalm d [] = tt
  check_none_fields-IsCalm d (name ∷ rest) =
      split-IsCalm (is_str (get name d) "NONE") _ _ (check_none_fields-IsCalm d rest) tt

  pub check_fixed_fields-IsCalm :
      (d : Dict rt) (names : List (String × Option Bool)) → IsCalm (check_fixed_fields rt d names)
  unfolding check_fixed_fields
  check_fixed_fields-IsCalm d [] = tt
  check_fixed_fields-IsCalm d ((name, expected) ∷ rest) =
      split-IsCalm (has name d && is_fixed rt expected (get name d)) _ _
        (check_fixed_fields-IsCalm d rest) tt

  pub need_object-IsCalm : (v : Value rt) (reason : String) → IsCalm (need_object rt v reason)
  need_object-IsCalm (obj d) reason = tt
  need_object-IsCalm null reason = tt
  need_object-IsCalm (bool b) reason = tt
  need_object-IsCalm (int n) reason = tt
  need_object-IsCalm (float x) reason = tt
  need_object-IsCalm (str s) reason = tt
  need_object-IsCalm (arr xs) reason = tt

  table-IsCalm :
      (s : String) (o : Option (String × String))
      → let m : Outcome String = elim o [
        | none ↦ blocked "UNKNOWN_RESEARCH_STATE"
        | some p ↦ passed s
      ] in
        IsCalm m
  table-IsCalm s none = tt
  table-IsCalm s (some p) = tt

  pub need_posture-IsCalm : (v : Value rt) → IsCalm (need_posture rt v)
  need_posture-IsCalm (str s) = table-IsCalm s (posture s)
  need_posture-IsCalm null = tt
  need_posture-IsCalm (bool b) = tt
  need_posture-IsCalm (int n) = tt
  need_posture-IsCalm (float x) = tt
  need_posture-IsCalm (arr xs) = tt
  need_posture-IsCalm (obj d) = tt

  -- A text, or nothing.
  abbrev IsWord : Value rt → Type 0
  IsWord null = Unit
  IsWord (str s) = Unit
  IsWord v = ⊥

  if-IsWord : (b : Bool) (v w : Value rt) → IsWord v → IsWord w → IsWord (if b then v else w)
  if-IsWord true v w h k = h
  if-IsWord false v w h k = k

  get-IsWord : (name : String) (d : Dict rt) → all_texts rt d ≡ true → IsWord (get name d)
  get-IsWord name end h = tt
  get-IsWord name (field k (str s) rest) h =
      if-IsWord (str_eq k name) (str s) (get name rest) tt (get-IsWord name rest h)
  get-IsWord name (field k null rest) h = cc
  get-IsWord name (field k (bool b) rest) h = cc
  get-IsWord name (field k (int n) rest) h = cc
  get-IsWord name (field k (float x) rest) h = cc
  get-IsWord name (field k (arr xs) rest) h = cc
  get-IsWord name (field k (obj d) rest) h = cc

  if-IsCalm : (b : Bool) (s reason : String) → IsCalm (if b then passed s else blocked reason)
  if-IsCalm true s reason = tt
  if-IsCalm false s reason = tt

  read_observation-IsCalm :
      (allowed : List String) (name : String) (v : Value rt)
      → IsWord v
      → IsCalm (read_observation rt allowed name v)
  unfolding read_observation
  read_observation-IsCalm allowed name null h = tt
  read_observation-IsCalm allowed name (str s) h = if-IsCalm (contains s allowed) s _
  read_observation-IsCalm allowed name (bool b) h = absurd h
  read_observation-IsCalm allowed name (int n) h = absurd h
  read_observation-IsCalm allowed name (float x) h = absurd h
  read_observation-IsCalm allowed name (arr xs) h = absurd h
  read_observation-IsCalm allowed name (obj d) h = absurd h

  pub read_observations-IsCalm :
      (raw : Dict rt) → all_texts rt raw ≡ true → IsCalm (read_observations rt raw)
  unfolding read_observations
  read_observations-IsCalm raw texts =
      then-IsCalm (read_step rt "meaningful_breakout" raw) _ (step "meaningful_breakout") λ b _.
        then-IsCalm (read_step rt "meaningful_pullback" raw) _ (step "meaningful_pullback") λ p _.
          then-IsCalm (read_step rt "higher_low" raw) _ (step "higher_low") λ h _.
            then-IsCalm (read_step rt "reattack" raw) _ (step "reattack") λ r _.
              then-IsCalm (read_step rt "prior_control_high_break" raw) _
                (step "prior_control_high_break")
                λ c _.
                  then-IsCalm
                    (read_observation rt lower_low_states "invalidating_lower_low"
                      (get "invalidating_lower_low" raw))
                    _
                    (read_observation-IsCalm lower_low_states "invalidating_lower_low"
                      (get "invalidating_lower_low" raw)
                      (get-IsWord "invalidating_lower_low" raw texts))
                    λ l _. tt
    where
      step : (name : String) → IsCalm (read_step rt name raw)
      step name =
          read_observation-IsCalm observation_states name (get name raw) (get-IsWord name raw texts)
