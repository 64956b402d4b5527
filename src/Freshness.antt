-- ===== src/Freshness.antt =====
-- radar/src/crt_radar/runtime_freshness.py: how old a local file is, and the gate that such checks
-- can close. The file is its modification time in milliseconds, or none if there is no file.
pub mod Checked
pub mod Closed
use Prim.Native.String.{◌++◌ as append_text}
use crt_master.Base.{
  Bool, List, Option, Result, String, [], err, false, if◌then◌else◌, leb_ℤ, ltb_ℤ, map, map_result,
  max_ℤ, neg_part, none, not, ok, pos, pos_part, refuse, require, some, str_eq, sub_ℕ, value_error,
  ℤ, ◌*◌, ◌++◌, ◌+ℤ◌, ◌-ℤ◌, ◌>>=◌, ◌>>◌, ◌||◌, ◌∷◌,
}
use crt_master.Json.{
  arr, end, field, float, get, has, int, is_none, is_str, items, nil, null, obj, put, str, to_items,
}
use crt_master.Runtime.{Dict, Moment, Runtime, Value, or_clock, to_list, to_str}
use crt_master.Texts.{sorted_set, strips_empty}

module _ (rt : Runtime) where
  open rt use {floats}

  -- `base` with the fields that the four answers add.
  abbrev pub answer : String → String → ℤ → String → Value rt → Value rt → Value rt → Dict rt
  answer prefix path max_age state mtime age blocker =
      field "check_id" (str (append_text prefix "_FILE_FRESHNESS")) (
        field "path" (str path) (
          field "max_age_seconds" (int max_age) (
            field "authority" (str "TRANSPORT_ONLY") (
              field "metric_authority" (str "NONE") (
                field "external_action_authority" (str "NONE") (
                  field "blocker" blocker (
                    field "state" (str state)
                      (field "mtime_ms" mtime (field "age_seconds" age end)))))))))

  abbrev pub blocked_by : String → String → Value rt
  blocked_by prefix what = str (append_text prefix what)

  -- `max(0, now - mtime_ms)`
  abbrev pub age_of : ℤ → ℤ → ℤ
  age_of now mtime = max_ℤ (pos 0) (now -ℤ mtime)

  abbrev pub times_1000 : ℤ → ℤ
  times_1000 n = sub_ℕ (pos_part n * 1000) (neg_part n * 1000)

  -- The answer for a file that is there.
  unfoldable pub assess_found : String → String → ℤ → ℤ → ℤ → Dict rt
  assess_found prefix path max_age now mtime =
      if ltb_ℤ (now +ℤ pos 300_000) mtime
      then answer prefix path max_age "CLOCK_SKEW" (int mtime) null
          (blocked_by prefix "_CLOCK_SKEW")
      else if ltb_ℤ (times_1000 max_age) (age_of now mtime)
      then answer prefix path max_age "STALE" (int mtime)
          (float (floats.ratio (age_of now mtime) (pos 1000))) (blocked_by prefix "_STALE")
      else answer prefix path max_age "FRESH" (int mtime)
          (float (floats.ratio (age_of now mtime) (pos 1000))) null

  abbrev pub assess : String → String → ℤ → ℤ → Option ℤ → Dict rt
  assess prefix path max_age now none =
      answer prefix path max_age "MISSING" null null (blocked_by prefix "_MISSING")
  assess prefix path max_age now (some mtime) = assess_found prefix path max_age now mtime

  unfoldable pub assess_file_freshness :
      String → Option ℤ → ℤ → Option ℤ → String → Moment → Result (Dict rt)
  assess_file_freshness path mtime max_age now_ms prefix moment = do
    refuse (leb_ℤ max_age (pos 0)) (value_error "max_age_seconds must be positive")
    refuse (strips_empty prefix) (value_error "reason_prefix must be a non-empty string")
    ok (assess prefix path max_age (or_clock now_ms moment.now_ms) mtime)

  -- A text that is not empty.
  abbrev pub is_text : Value rt → Bool
  is_text (str s) = not (str_eq s "")
  is_text v = false

  abbrev pub need_object : Value rt → Result (Dict rt)
  need_object (obj d) = ok d
  need_object v = err (value_error "runtime check must be an object")

  -- _validated_runtime_check
  unfoldable pub validated_runtime_check : Value rt → Result (Dict rt)
  validated_runtime_check value = do
    check ← need_object value
    require (is_str (get "authority" check) "TRANSPORT_ONLY")
        (value_error "runtime check authority must be TRANSPORT_ONLY")
    require (is_str (get "metric_authority" check) "NONE")
        (value_error "runtime check metric_authority must be NONE")
    require (is_str (get "external_action_authority" check) "NONE")
        (value_error "runtime check external_action_authority must be NONE")
    require (is_text (get "check_id" check)) (value_error "runtime check check_id missing")
    require (is_text (get "state" check)) (value_error "runtime check state missing")
    require (is_none (get "blocker" check) || is_text (get "blocker" check))
        (value_error "runtime check blocker must be null or a non-empty string")
    ok check

  -- What the loop appends for one check.
  abbrev pub blocker_of : Value rt → List String
  blocker_of (str s) = if str_eq s "" then [] else s ∷ []
  blocker_of v = []

  abbrev pub blockers_of : List (Dict rt) → List String
  blockers_of [] = []
  blockers_of (c ∷ cs) = blocker_of (get "blocker" c) ++ blockers_of cs

  abbrev pub close_gate : List String → Dict rt → Dict rt
  close_gate [] gate = gate
  close_gate (r ∷ rs) gate = put "formal_state" (str "BLOCKED") gate

  abbrev pub gate_reasons : Dict rt → Value rt
  gate_reasons gate = if has "blocked_reasons" gate then get "blocked_reasons" gate else arr nil

  -- `apply_runtime_checks` for a list that is not empty.
  unfoldable pub apply_checks : Dict rt → List (Value rt) → Result (Dict rt)
  apply_checks gate checks = do
    normalized ← map_result validated_runtime_check checks
    own ← to_list rt (gate_reasons gate)
    let reasons = sorted_set (map (to_str rt) (items own) ++ blockers_of normalized)
    ok (
        close_gate reasons (
          put "blocked_reasons" (arr (to_items (map str reasons)))
            (put "runtime_checks" (arr (to_items (map obj normalized))) gate)))

  unfoldable pub apply_runtime_checks : Dict rt → Option (List (Value rt)) → Result (Dict rt)
  apply_runtime_checks gate none = ok gate
  apply_runtime_checks gate (some []) = ok gate
  apply_runtime_checks gate (some (c ∷ cs)) = apply_checks gate (c ∷ cs)
