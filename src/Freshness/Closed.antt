-- ===== src/Freshness/Closed.antt =====
-- A gate that a runtime check closes (runtime_freshness.py, `apply_runtime_checks`).
use crt_master.Base.{
  >>=-eq-ok, Bool, Bool-cases, List, String, [], any, ap, arith, false, inl, inr, map, map_result,
  ok, ok-injective, refl, some, subst, sym, true, ◌++◌, ◌||◌, ◌∙◌, ◌∷◌, ◌≡◌,
}
use crt_master.Texts.{insert_text, sorted_set}
use crt_master.Json.{arr, bool, float, get, int, items, null, obj, str}
use crt_master.Json.Laws.{get-put}
use crt_master.Runtime.{Dict, Runtime, Value, to_list, to_str}
use crt_master.Freshness.{
  apply_checks, apply_runtime_checks, blocker_of, blockers_of, close_gate, gate_reasons, is_text,
  validated_runtime_check,
}

abbrev is_nil : List String → Bool
is_nil [] = true
is_nil (x ∷ xs) = false

insert_text-nil : (s : String) (ts : List String) → is_nil (insert_text s ts) ≡ false
unfolding insert_text
insert_text-nil s [] = refl
insert_text-nil s (t ∷ ts) = ground arith

sorted_set-nil : (ss : List String) → is_nil ss ≡ false → is_nil (sorted_set ss) ≡ false
unfolding sorted_set
sorted_set-nil [] h = cc
sorted_set-nil (s ∷ ss) h = insert_text-nil s (sorted_set ss)

append-nonempty : (xs ys : List String) → is_nil ys ≡ false → is_nil (xs ++ ys) ≡ false
append-nonempty [] ys h = h
append-nonempty (x ∷ xs) ys h = refl

first-nonempty : (xs ys : List String) → is_nil xs ≡ false → is_nil (xs ++ ys) ≡ false
first-nonempty [] ys h = cc
first-nonempty (x ∷ xs) ys h = refl

module _ (rt : Runtime) where
  -- A check with a blocker.
  abbrev pub blocks : Value rt → Bool
  blocks (obj d) = is_text rt (get "blocker" d)
  blocks v = false

  validated-obj : (v : Value rt) {d : Dict rt} → validated_runtime_check rt v ≡ ok d → v ≡ obj d
  unfolding validated_runtime_check
  validated-obj (obj check) {d} h = ground arith
  validated-obj null h = cc
  validated-obj (bool b) h = cc
  validated-obj (int n) h = cc
  validated-obj (float x) h = cc
  validated-obj (str s) h = cc
  validated-obj (arr xs) h = cc

  blocker_of-text : (v : Value rt) → is_text rt v ≡ true → is_nil (blocker_of rt v) ≡ false
  blocker_of-text (str s) h = ground arith
  blocker_of-text null h = cc
  blocker_of-text (bool b) h = cc
  blocker_of-text (int n) h = cc
  blocker_of-text (float x) h = cc
  blocker_of-text (arr xs) h = cc
  blocker_of-text (obj d) h = cc

  blockers_of-blocks :
      (checks : List (Value rt)) {ds : List (Dict rt)}
      → map_result (validated_runtime_check rt) checks ≡ ok ds
      → any blocks checks ≡ true
      → is_nil (blockers_of rt ds) ≡ false
  blockers_of-blocks [] h k = cc
  blockers_of-blocks (c ∷ cs) h k =
      let (d, first, h₁) = >>=-eq-ok (validated_runtime_check rt c) _ h in
      let (ds, rest, h₂) = >>=-eq-ok (map_result (validated_runtime_check rt) cs) _ h₁ in
      subst (λ (xs : List (Dict rt)). is_nil (blockers_of rt xs) ≡ false) (ok-injective h₂)
        (elim (Bool-cases (blocks c)) [
          | inl blocked ↦ first-nonempty (blocker_of rt (get "blocker" d)) _ (
              blocker_of-text (get "blocker" d)
                (subst (λ v. blocks v ≡ true) (validated-obj c first) blocked))
          | inr clear ↦
              append-nonempty (blocker_of rt (get "blocker" d)) _
                (blockers_of-blocks cs rest (others (blocks c) (any blocks cs) clear k))
        ])
    where
      others : (a b : Bool) → a ≡ false → (a || b) ≡ true → b ≡ true
      others a b h k = ground arith

  close_gate-nonempty :
      (rs : List String) (gate : Dict rt)
      → is_nil rs ≡ false
      → get "formal_state" (close_gate rt rs gate) ≡ str "BLOCKED"
  close_gate-nonempty [] gate h = cc
  close_gate-nonempty (r ∷ rs) gate h = get-put "formal_state" "formal_state" (str "BLOCKED") gate

  -- If one of the checks has a blocker and the call returns, the gate that it returns is BLOCKED,
  -- whatever the gate said before.
  pub apply_runtime_checks-blocks :
      (gate : Dict rt) (checks : List (Value rt)) {r : Dict rt}
      → any blocks checks ≡ true
      → apply_runtime_checks rt gate (some checks) ≡ ok r
      → get "formal_state" r ≡ str "BLOCKED"
  unfolding apply_runtime_checks apply_checks
  apply_runtime_checks-blocks gate [] k h = cc
  apply_runtime_checks-blocks gate (c ∷ cs) k h =
      let (ds, checked, h₁) = >>=-eq-ok (map_result (validated_runtime_check rt) (c ∷ cs)) _ h in
      let (own, listed, h₂) = >>=-eq-ok (to_list rt (gate_reasons rt gate)) _ h₁ in
      ap (λ (x : Dict rt). get "formal_state" x) (sym (ok-injective h₂))
      ∙ close_gate-nonempty _ _ (
          sorted_set-nil _ (
            append-nonempty (map (to_str rt) (items own)) _
              (blockers_of-blocks (c ∷ cs) checked k)))
