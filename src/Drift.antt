-- ===== src/Drift.antt =====
-- radar/src/crt_radar/plan_drift.py: whether the conditions of the active plans still hold. The
-- dictionaries that the code returns are records; None among "reanalysis_required" is none.
pub mod Plans
pub mod Counted
pub mod Totals
pub mod Stable
use Prim.Native.String.{◌++◌ as append_text}
use crt_master.Base.{
  Bool, List, Option, Result, String, [], err, if◌then◌else◌, none, not, ok, some, str_eq,
  type_error, value_error, ◌++◌, ◌>>=◌, ◌>>◌, ◌∷◌,
}
use crt_master.Json.{bool, contains, get, has, keys, obj}
use crt_master.Texts.{sorted_set}
use crt_master.Runtime.{Dict, Runtime, Value, to_float}
use crt_master.Values.{equal}

abbrev pub supported_operators : List String
supported_operators = "LT" ∷ "LTE" ∷ "GT" ∷ "GTE" ∷ "EQ" ∷ "NE" ∷ []

module _ (rt : Runtime) where
  open rt use {floats, upper}
  open floats use {Float, lt, le, is_finite}

  pub record Candidate : Type 0 where
    pub source_kind : String
    pub source_path : String
    pub value : Value rt

  pub data Source : Type 0 where
    unbound : Source
    ambiguous : List Candidate → Source
    bound : Candidate → Source

  abbrev pub as_dict : Value rt → Option (Dict rt)
  as_dict (obj d) = some d
  as_dict v = none

  -- One turn of the loop in `_market_candidates`.
  unfoldable pub market_candidate : Dict rt → String → String → List Candidate
  market_candidate layers name layer_name = elim (as_dict (get layer_name layers)) [
    | none ↦ []
    | some layer ↦ elim (as_dict (get "metrics" layer)) [
      | none ↦ []
      | some metrics ↦ elim (as_dict (get name metrics)) [
        | none ↦ []
        | some metric ↦
            record {
              source_kind = "MARKET_METRIC";
              source_path =
                  append_text "layers."
                    (append_text layer_name (append_text ".metrics." (append_text name ".value")));
              value = get "value" metric;
            }
            ∷ []
      ]
    ]
  ]

  unfoldable pub collect_candidates : Dict rt → String → List String → List Candidate
  collect_candidates layers name [] = []
  collect_candidates layers name (l ∷ ls) =
      market_candidate layers name l ++ collect_candidates layers name ls

  -- _market_candidates
  unfoldable pub market_candidates : Value rt → String → List Candidate
  market_candidates (obj layers) name = collect_candidates layers name (sorted_set (keys layers))
  market_candidates v name = []

  unfoldable pub capital_candidates : Value rt → String → List Candidate
  capital_candidates (obj capital_state) name =
      if has name capital_state
      then record {
        source_kind = "CAPITAL_STATE";
        source_path = append_text "private_context.profile.capital_state." name;
        value = get name capital_state;
      }
        ∷ []
      else []
  capital_candidates v name = []

  abbrev pub source_of : List Candidate → Source
  source_of [] = unbound
  source_of (c ∷ []) = bound c
  source_of (c ∷ d ∷ ds) = ambiguous (c ∷ d ∷ ds)

  unfoldable pub resolve_condition_source : String → Dict rt → Value rt → Source
  resolve_condition_source name profile layers =
      source_of
        (capital_candidates (get "capital_state" profile) name ++ market_candidates layers name)

  -- `float(value)` and the exceptions that are caught.
  abbrev pub caught : Result Float → Result (Option Float)
  caught (ok x) = ok (if is_finite x then some x else none)
  caught (err (type_error text)) = ok none
  caught (err (value_error text)) = ok none
  caught (err e) = err e

  -- _finite_number
  unfoldable pub finite_number : Value rt → Result (Option Float)
  finite_number (bool b) = ok none
  finite_number v = caught (to_float rt v)

  abbrev pub verdict : Bool → String
  verdict matched = if matched then "SATISFIED" else "VIOLATED"

  abbrev pub compare_numbers : String → Option Float → Option Float → String
  compare_numbers operator (some left) (some right) = verdict (
      if str_eq operator "LT"
      then lt left right
      else if str_eq operator "LTE"
      then le left right
      else if str_eq operator "GT"
      then lt right left
      else le right left)
  compare_numbers operator left right = "BLOCKED_NOT_COMPARABLE"

  unfoldable pub evaluate_condition : Value rt → String → Value rt → Result String
  evaluate_condition current spelled target =
      let operator = upper spelled in
      if not (contains operator supported_operators)
      then ok "BLOCKED_OPERATOR_UNSUPPORTED"
      else if str_eq operator "EQ"
      then ok (verdict (equal rt current target))
      else if str_eq operator "NE"
      then ok (verdict (not (equal rt current target)))
      else do
        left ← finite_number current
        right ← finite_number target
        ok (compare_numbers operator left right)

  pub record ConditionResult : Type 0 where
    pub tranche_id : Value rt
    pub name : String
    pub operator : String
    pub target_value : Value rt
    pub source : Source
    pub evaluation : String

  unfoldable pub judge : Source → String → Value rt → Result String
  judge unbound operator target = ok "BLOCKED_UNBOUND_SOURCE"
  judge (ambiguous cs) operator target = ok "BLOCKED_AMBIGUOUS_SOURCE"
  judge (bound c) operator target = evaluate_condition c.value operator target
