-- ===== src/Research/Read.antt =====
-- What accepted evidence says under each key of its observations (btc_transition_research_eval.py).
use Prim.Native.String.{◌++◌ as append_text}
use crt_master.Research.{
  read_observation, read_step, observation_states, lower_low_states, Observations, Outcome,
  accepted_observations, authority_fields, blocked, check_none, check_sequence, evidence_schema,
  need_object, passed, raised, read_observations, sequence, unless_blocked, ◌>>=◌, ◌>>◌,
}
use crt_master.Base.{Bool, List, true, false, if◌then◌else◌, String, drop_first, refl, subst, ◌≡◌}
use crt_master.Json.{contains, arr, bool, float, get, int, is_false, is_str, null, obj, str}
use crt_master.Runtime.{Dict, Runtime, Value}

pub then_passed {ℓ κ} :
    {A : Type ℓ} {B : Type κ} (m : Outcome A) (k : A → Outcome B) {b : B}
    → (m >>= k) ≡ passed b
    → (a : A) × (m ≡ passed a) × (k a ≡ passed b)
then_passed (passed a) k h = (a, refl, h)
then_passed (blocked reason) k h = cc
then_passed (raised e) k h = cc

pub passed-injective {ℓ} : {A : Type ℓ} {a b : A} → passed a ≡ passed b → a ≡ b
passed-injective h = cc

-- The same where the value is not used.
pub next_passed {ℓ κ} :
    {A : Type ℓ} {B : Type κ} (m : Outcome A) (k : Outcome B) {b : B}
    → (m >> k) ≡ passed b
    → (a : A) × (m ≡ passed a) × (k ≡ passed b)
next_passed m k h = then_passed m (λ _. k) h

module _ (rt : Runtime) where
  -- The observations of the evidence say under each key of SEQUENCE, and of the lower low, what was
  -- read.
  pub record IsReadFrom (evidence : Dict rt) (o : Observations) : Type 0 where
    pub raw : Dict rt
    pub stored : get "observations" evidence ≡ obj raw
    pub breakout_read : get "meaningful_breakout" raw ≡ str o.breakout
    pub pullback_read : get "meaningful_pullback" raw ≡ str o.pullback
    pub higher_low_read : get "higher_low" raw ≡ str o.higher_low
    pub reattack_read : get "reattack" raw ≡ str o.reattack
    pub control_break_read : get "prior_control_high_break" raw ≡ str o.control_break
    pub lower_low_read : get "invalidating_lower_low" raw ≡ str o.lower_low

  need_object-passed :
      (v : Value rt) (reason : String) {d : Dict rt}
      → need_object rt v reason ≡ passed d
      → v ≡ obj d
  need_object-passed (obj d) reason h = cc
  need_object-passed null reason h = cc
  need_object-passed (bool b) reason h = cc
  need_object-passed (int n) reason h = cc
  need_object-passed (float x) reason h = cc
  need_object-passed (str s) reason h = cc
  need_object-passed (arr xs) reason h = cc

  read_observation-passed :
      (allowed : List String) (name : String) (v : Value rt) {s : String}
      → read_observation rt allowed name v ≡ passed s
      → v ≡ str s
  unfolding read_observation
  read_observation-passed allowed name (str t) {s} h = by_allowed (contains t allowed) h
    where
      by_allowed :
          (b : Bool)
          → (if b
              then passed t
              else blocked (append_text "CONTROL_TRANSFER_OBSERVATION_INVALID:" name))
            ≡ passed s
          → ◌≡◌ {A = Value rt} (str t) (str s)
      by_allowed true h = cc
      by_allowed false h = cc
  read_observation-passed allowed name null h = cc
  read_observation-passed allowed name (bool b) h = cc
  read_observation-passed allowed name (int n) h = cc
  read_observation-passed allowed name (float x) h = cc
  read_observation-passed allowed name (arr xs) h = cc
  read_observation-passed allowed name (obj d) h = cc

  read_observations-IsReadFrom :
      (evidence raw : Dict rt) {o : Observations}
      → get "observations" evidence ≡ obj raw
      → read_observations rt raw ≡ passed o
      → IsReadFrom evidence o
  unfolding read_observations
  read_observations-IsReadFrom evidence raw at h =
      let (breakout, h₁, r₁) = then_passed (read_step rt "meaningful_breakout" raw) _ h in
      let (pullback, h₂, r₂) = then_passed (read_step rt "meaningful_pullback" raw) _ r₁ in
      let (higher_low, h₃, r₃) = then_passed (read_step rt "higher_low" raw) _ r₂ in
      let (reattack, h₄, r₄) = then_passed (read_step rt "reattack" raw) _ r₃ in
      let (control_break, h₅, r₅) =
        then_passed (read_step rt "prior_control_high_break" raw) _ r₄ in
      let (lower_low, h₆, r₆) =
        then_passed
          (read_observation rt lower_low_states "invalidating_lower_low"
            (get "invalidating_lower_low" raw))
          _ r₅ in
      subst (IsReadFrom evidence) (passed-injective r₆) (record {
        raw = raw;
        stored = at;
        breakout_read = read_observation-passed observation_states "meaningful_breakout" _ h₁;
        pullback_read = read_observation-passed observation_states "meaningful_pullback" _ h₂;
        higher_low_read = read_observation-passed observation_states "higher_low" _ h₃;
        reattack_read = read_observation-passed observation_states "reattack" _ h₄;
        control_break_read =
            read_observation-passed observation_states "prior_control_high_break" _ h₅;
        lower_low_read = read_observation-passed lower_low_states "invalidating_lower_low" _ h₆;
      })

  -- Observations that no check blocked were read from the evidence and are in sequence.
  abbrev pub IsRead : Dict rt → Observations → Type 0
  IsRead evidence o =
      (raw : Dict rt) × (read_observations rt raw ≡ passed o)
      × (check_sequence ("meaningful_breakout", o.breakout) (drop_first (sequence o)) ≡ passed tt)
      × IsReadFrom evidence o

  pub accepted_observations-IsRead :
      (evidence : Dict rt) {o : Observations}
      → accepted_observations rt evidence ≡ passed o
      → IsRead evidence o
  unfolding accepted_observations
  accepted_observations-IsRead evidence h =
      let (_, _, h₁) =
        next_passed
          (unless_blocked (is_str (get "schema_version" evidence) evidence_schema)
            "CONTROL_TRANSFER_EVIDENCE_SCHEMA_MISMATCH")
          _ h in
      let (authority, _, h₂) =
        then_passed (need_object rt (get "authority" evidence) "CONTROL_TRANSFER_AUTHORITY_MISSING")
          _ h₁ in
      let (_, _, h₃) = next_passed (check_none rt authority authority_fields) _ h₂ in
      let (_, _, h₄) =
        next_passed
          (unless_blocked (is_false (get "external_action_performed" authority))
            "CONTROL_TRANSFER_EXTERNAL_ACTION_PERFORMED_MUST_BE_FALSE")
          _ h₃ in
      let (raw, stored, h₅) =
        then_passed
          (need_object rt (get "observations" evidence) "CONTROL_TRANSFER_OBSERVATIONS_MISSING") _
          h₄ in
      let (o, read, h₆) = then_passed (read_observations rt raw) _ h₅ in
      let (_, checked, h₇) =
        next_passed (check_sequence ("meaningful_breakout", o.breakout) (drop_first (sequence o))) _
          h₆ in
      let from =
        read_observations-IsReadFrom evidence raw
          (need_object-passed (get "observations" evidence) "CONTROL_TRANSFER_OBSERVATIONS_MISSING"
            stored)
          read in
      subst (IsRead evidence) (passed-injective h₇) (raw, read, checked, from)
