-- ===== src/Freshness/Checked.antt =====
-- What `assess_file_freshness` answers (runtime_freshness.py).
use Prim.Native.String.append
use Prim.Native.Char.{Char}
use Prim.Native.String.{◌++◌ as append_text}
use crt_master.Base.{
  >>-eq-ok, Bool, Bool-cases, Error, Option, String, ap, false, if◌then◌else◌, inl, inr, leb_ℤ,
  ltb_ℤ, none, not, ok, ok-injective, pos, refl, refuse, some, str_eq, str_eq_iff, subst, sym, true,
  value_error, ℤ, ◌+ℤ◌, ◌||◌, ◌∙◌, ◌≡◌,
}
use crt_master.Texts.{strips_empty}
use crt_master.Json.{float, get, int, is_none, null, obj, str}
use crt_master.Runtime.{Dict, Moment, Runtime, Value, or_clock}
use crt_master.Freshness.{
  age_of, answer, assess, assess_file_freshness, assess_found, blocked_by, is_text, times_1000,
  validated_runtime_check,
}

module _ (rt : Runtime) where
  appended :
      (c : Char) (s t : String) → append_text (String.◌∷◌ c s) t ≡ String.◌∷◌ c (append_text s t)
  appended c s t = λ i. append.cons c s t i

  not_empty : (c : Char) (s t : String) → t ≡ String.◌∷◌ c s → str_eq t "" ≡ false
  not_empty c s t h = elim (Bool-cases (str_eq t "")) [
    | inl same ↦ absurd (differ (sym h ∙ (str_eq_iff t "").0 same))
    | inr apart ↦ apart
  ]
    where
      differ : String.◌∷◌ c s ≡ String.[] → ⊥
      differ h = cc

  named :
      (prefix suffix : String)
      → strips_empty prefix ≡ false
      → is_text rt (str (append_text prefix suffix)) ≡ true
  named String.[] suffix h = cc
  named (String.◌∷◌ c s) suffix h = ap not (
      not_empty c (append_text s suffix) (append_text (String.◌∷◌ c s) suffix)
        (appended c s suffix))

  -- The state by the times, and the blocker that goes with it.
  abbrev pub state_at : ℤ → ℤ → Option ℤ → String
  state_at max_age now none = "MISSING"
  state_at max_age now (some mtime) =
      if ltb_ℤ (now +ℤ pos 300_000) mtime
      then "CLOCK_SKEW"
      else if ltb_ℤ (times_1000 rt max_age) (age_of rt now mtime)
      then "STALE"
      else "FRESH"

  answer-checked :
      (prefix path : String) (max_age : ℤ) (state : String) (mtime age blocker : Value rt)
      → strips_empty prefix ≡ false
      → is_text rt (str state) ≡ true
      → (is_none blocker || is_text rt blocker) ≡ true
      → let d = answer rt prefix path max_age state mtime age blocker in
        validated_runtime_check rt (obj d) ≡ ok d
  unfolding validated_runtime_check
  answer-checked prefix path max_age state mtime age blocker h k l =
      rw (named prefix "_FILE_FRESHNESS" h, k, l) refl

  -- What an answer is worth: it passes the check, and it has no blocker exactly if it says FRESH.
  abbrev pub IsAnswer : String → Dict rt → Type 0
  IsAnswer state d =
      (get "state" d ≡ str state)
      × (is_none (get "blocker" d) ≡ str_eq state "FRESH")
      × (validated_runtime_check rt (obj d) ≡ ok d)

  blocked-IsAnswer :
      (prefix path : String) (max_age : ℤ) (state suffix : String) (mtime age : Value rt)
      → strips_empty prefix ≡ false
      → is_text rt (str state) ≡ true
      → str_eq state "FRESH" ≡ false
      → IsAnswer state (answer rt prefix path max_age state mtime age (blocked_by rt prefix suffix))
  blocked-IsAnswer prefix path max_age state suffix mtime age h k l = (
    refl,
    sym l,
    answer-checked prefix path max_age state mtime age _ h k (named prefix suffix h),
  )

  assess_found-IsAnswer :
      (prefix path : String) (max_age now mtime : ℤ)
      → strips_empty prefix ≡ false
      → IsAnswer (state_at max_age now (some mtime)) (assess_found rt prefix path max_age now mtime)
  unfolding assess_found
  assess_found-IsAnswer prefix path max_age now mtime h =
      by_tests (ltb_ℤ (now +ℤ pos 300_000) mtime)
        (ltb_ℤ (times_1000 rt max_age) (age_of rt now mtime))
    where
      aged : Value rt
      aged = float (rt.floats.ratio (age_of rt now mtime) (pos 1000))

      by_tests :
          (skewed old : Bool)
          → IsAnswer (if skewed then "CLOCK_SKEW" else if old then "STALE" else "FRESH") (
              if skewed
              then answer rt prefix path max_age "CLOCK_SKEW"
                  (int mtime)
                  null
                  (blocked_by rt prefix "_CLOCK_SKEW")
              else if old
              then answer rt prefix path max_age "STALE"
                  (int mtime)
                  aged
                  (blocked_by rt prefix "_STALE")
              else answer rt prefix path max_age "FRESH" (int mtime) aged null)
      by_tests true old =
          blocked-IsAnswer prefix path max_age "CLOCK_SKEW" "_CLOCK_SKEW" _ _ h refl refl
      by_tests false true = blocked-IsAnswer prefix path max_age "STALE" "_STALE" _ _ h refl refl
      by_tests false false =
          (refl, refl, answer-checked prefix path max_age "FRESH" _ _ null h refl refl)

  -- Every answer of `assess_file_freshness` says the state that the file's time gives, has no blocker
  -- exactly if that is FRESH, and passes `_validated_runtime_check`.
  pub assess_file_freshness-IsAnswer :
      (path : String) (mtime : Option ℤ) (max_age : ℤ) (now_ms : Option ℤ) (prefix : String)
      (moment : Moment) {d : Dict rt}
      → assess_file_freshness rt path mtime max_age now_ms prefix moment ≡ ok d
      → IsAnswer (state_at max_age (or_clock now_ms moment.now_ms) mtime) d
  unfolding assess_file_freshness
  assess_file_freshness-IsAnswer path mtime max_age now_ms prefix moment h =
      let (_, _, h₁) =
        >>-eq-ok (refuse (leb_ℤ max_age (pos 0)) (value_error "max_age_seconds must be positive")) _
          h in
      let (_, blank, h₂) =
        >>-eq-ok
          (refuse (strips_empty prefix) (value_error "reason_prefix must be a non-empty string")) _
          h₁ in
      subst (IsAnswer (state_at max_age (or_clock now_ms moment.now_ms) mtime)) (ok-injective h₂)
        (by_file mtime (refused (strips_empty prefix) _ blank))
    where
      refused : (b : Bool) (e : Error) {u : Unit {0}} → refuse b e ≡ ok u → b ≡ false
      refused true e h = cc
      refused false e h = refl

      by_file :
          (m : Option ℤ)
          → strips_empty prefix ≡ false
          → IsAnswer
              (state_at max_age (or_clock now_ms moment.now_ms) m)
              (assess rt prefix path max_age (or_clock now_ms moment.now_ms) m)
      by_file none h =
          blocked-IsAnswer prefix path max_age "MISSING" "_MISSING" null null h refl refl
      by_file (some t) h =
          assess_found-IsAnswer prefix path max_age (or_clock now_ms moment.now_ms) t h
