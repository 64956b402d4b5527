-- ===== src/Examples/Freshness.antt =====
-- A file of the hour before, and a gate with one stale check.
use crt_master.Base.{[], none, ok, pos, refl, some, ◌+ℤ◌, ◌-ℤ◌, ◌∷◌, ◌≡◌}
use crt_master.Texts.{insert_text, sorted_set}
use crt_master.Json.{arr, cons, end, field, float, get, int, nil, obj, str}
use crt_master.Runtime.{Dict, Moment, to_list, to_str}
use crt_master.Freshness.{
  answer, apply_checks, apply_runtime_checks, assess_file_freshness, assess_found,
  validated_runtime_check,
}
use crt_master.Freshness.Checked.{IsAnswer, assess_file_freshness-IsAnswer}
use crt_master.Freshness.Closed.{apply_runtime_checks-blocks}
use crt_master.Examples.Toy.{toy}

abbrev noon : Moment
noon = record { now_ms = pos 43_200_000; uuid = "id" }

abbrev stale : Dict toy
stale =
    answer toy "PHONE_L4" "l4.json" (pos 60) "STALE" (int (pos 39_600_000))
      (float (pos 3_600_000_000)) (str "PHONE_L4_STALE")

stale-assessed :
    assess_file_freshness toy "l4.json" (some (pos 39_600_000)) (pos 60) none "PHONE_L4" noon
    ≡ ok stale
unfolding assess_file_freshness assess_found ◌+ℤ◌ ◌-ℤ◌
stale-assessed = refl

assess_file_freshness-IsAnswer_example : IsAnswer toy "STALE" stale
unfolding ◌+ℤ◌ ◌-ℤ◌
assess_file_freshness-IsAnswer_example =
    assess_file_freshness-IsAnswer toy "l4.json" (some (pos 39_600_000)) (pos 60) none "PHONE_L4"
      noon stale-assessed

abbrev gate : Dict toy
gate = field "formal_state" (str "READY") end

abbrev closed_gate : Dict toy
closed_gate = field "formal_state" (str "BLOCKED") (
    field "runtime_checks" (arr (cons (obj stale) nil))
      (field "blocked_reasons" (arr (cons (str "PHONE_L4_STALE") nil)) end))

gate-closed : apply_runtime_checks toy gate (some (obj stale ∷ [])) ≡ ok closed_gate
unfolding apply_runtime_checks apply_checks validated_runtime_check to_list to_str sorted_set
    insert_text
gate-closed = refl

apply_runtime_checks-blocks_example : get "formal_state" closed_gate ≡ str "BLOCKED"
apply_runtime_checks-blocks_example =
    apply_runtime_checks-blocks toy gate (obj stale ∷ []) refl gate-closed
