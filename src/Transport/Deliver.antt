-- ===== src/Transport/Deliver.antt =====
-- A delivery gets done (gpt_transport_boundary.py): once no claim runs, a claim and its receipt lead
-- from every valid state to a delivered one.
use crt_master.Base.{
  +ℤ_parts, >>-eq-ok, >>=-eq-ok, Bool, Error, Result, String, [], ap, arith, false, leb_ℤ, length,
  ok, pos, refl, refuse, require, require-ok, str_eq_refl, sym, true, value_error, ℤ, ◌+ℤ◌, ◌>>=◌,
  ◌∙◌, ◌∷◌, ◌≡◌,
}
use crt_master.Json.{get, int, is_str, null, obj, put, str}
use crt_master.Runtime.{Dict, Runtime, Value}
use crt_master.Texts.{strip, strips_empty}
use crt_master.Values.{int_ltb, leb_value}
use crt_master.Transport.{
  boundary_schema, check_claimed, check_delivered, check_phase, check_terms, claim_delivery,
  expiry_of, is_filled, is_state, mark_delivered, need_claim, new_claim, refuse_live, renamed,
  seal_state, validate_state,
}
use crt_master.Transport.Sealed.{get-seal_state, sealed-at, validate_state-ok}
use crt_master.Transport.Written.{
  attempted, check_terms-attempted, check_terms-moved, claim-settled, moved, receipt-settled,
  state-attempted, state-moved,
}
use crt_master.Transport.Calls.{mark_delivered-ok}
use crt_master.Transport.Moves.{
  Call, claim_call, deliver_call, done, perform, phase-moved, phase_of, run, sealed-phase,
}
use crt_master.Transport.Runs.{attempts_of-int, perform-Keeps}
use crt_master.Liquidation.Built.{HashLaws}

module _ (rt : Runtime) where
  later_expiry : (now length : ℤ) → leb_ℤ length (pos 0) ≡ false → leb_ℤ (now +ℤ length) now ≡ false
  later_expiry now length long = ground (arith, +ℤ_parts now length)

  check_phase-claimed :
      (token adapter : String) (now length : ℤ)
      → leb_ℤ length (pos 0) ≡ false
      → check_phase rt (str "CLAIMED") (obj (new_claim rt token adapter now length)) null ≡ ok tt
  unfolding check_phase check_claimed leb_value
  check_phase-claimed token adapter now length long = rw (later_expiry now length long) refl

  check_phase-done :
      (receipt : Value rt)
      → is_filled rt receipt ≡ true
      → check_phase rt (str "DELIVERED") null receipt ≡ ok tt
  unfolding check_phase check_delivered
  check_phase-done receipt filled = rw (filled) refl

  passed_by :
      (b : Bool) (m : Result Bool) (e : Error)
      → (b ≡ true → m ≡ ok false)
      → ◌≡◌ {A = Result (Unit {0})}
          (elim b [ false ↦ ok tt | true ↦ m >>= λ live. refuse live e ])
          (ok tt)
  passed_by true m e h = rw (h refl) refl
  passed_by false m e h = refl

  refuse_live-passed :
      (d : Dict rt) (now : ℤ)
      → (is_str (get "state" d) "CLAIMED" ≡ true
          → int_ltb rt now (expiry_of rt (get "claim" d)) ≡ ok false)
      → refuse_live rt d now ≡ ok tt
  unfolding refuse_live
  refuse_live-passed d now over =
      passed_by (is_str (get "state" d) "CLAIMED") (int_ltb rt now (expiry_of rt (get "claim" d)))
        (value_error "Transport boundary event is already claimed") over

  -- The state that a claim leaves.
  abbrev claimed_state : String → String → ℤ → ℤ → ℤ → Dict rt → Dict rt
  claimed_state token adapter now length n d = seal_state rt (
      attempted rt (obj (new_claim rt token adapter now length)) null true "CLAIMED"
        "ADAPTER_CLAIMED" (n +ℤ pos 1) d)

  is_state-checked :
      (d : Dict rt) → check_terms rt d ≡ ok tt → is_state rt (get "state" d) ≡ ok true
  unfolding check_terms
  is_state-checked d h =
      let (_, _, h₁) =
        >>-eq-ok
          (require (is_str (get "schema_version" d) boundary_schema)
            (value_error "Transport boundary schema mismatch"))
          _ h in
      let (known, valid, h₂) = >>=-eq-ok (is_state rt (get "state" d)) _ h₁ in
      let (_, is_known, _) =
        >>-eq-ok (require known (value_error "Transport boundary state is invalid")) _ h₂ in
      valid ∙ ap ok (require-ok known _ is_known)

  claim_delivery-at :
      (laws : HashLaws rt) (d : Dict rt) (token adapter : String) (now length n : ℤ)
      → validate_state rt (obj d) ≡ ok d
      → is_str (get "state" d) "DELIVERED" ≡ false
      → (is_str (get "state" d) "CLAIMED" ≡ true
          → int_ltb rt now (expiry_of rt (get "claim" d)) ≡ ok false)
      → get "attempt_count" d ≡ int n
      → strips_empty adapter ≡ false
      → leb_ℤ length (pos 0) ≡ false
      → claim_delivery rt token d (str adapter) now length true
        ≡ ok (claimed_state token (strip adapter) now length n d)
  unfolding claim_delivery
  claim_delivery-at laws d token adapter now length n valid pending over counted named long =
      let (_, checked) = validate_state-ok rt (obj d) valid in
      let (terms, _, _) = checked in
      let claim : Value rt = obj (new_claim rt token (strip adapter) now length) in
      let m = attempted rt claim null true "CLAIMED" "ADAPTER_CLAIMED" (n +ℤ pos 1) d in
      rw
        (valid, named, long, pending, refuse_live-passed d now over, attempts_of-int rt d n counted)
        (sealed-at rt laws m
          (check_terms-attempted rt claim null true "CLAIMED" "ADAPTER_CLAIMED" (n +ℤ pos 1) d
              (sym (is_state-checked d terms))
            ∙ terms)
          (rw
            (
              state-attempted rt claim null true "CLAIMED" "ADAPTER_CLAIMED" (n +ℤ pos 1) d,
              claim-settled rt claim null true (
                  put "attempt_count" (int (n +ℤ pos 1))
                    (renamed rt "CLAIMED" "ADAPTER_CLAIMED" d)),
              receipt-settled rt claim null true (
                  put "attempt_count" (int (n +ℤ pos 1))
                    (renamed rt "CLAIMED" "ADAPTER_CLAIMED" d)),
            )
            (check_phase-claimed token (strip adapter) now length long)))

  mark_delivered-at :
      (laws : HashLaws rt) (d claim : Dict rt) (token : String) (receipt : Value rt)
      → validate_state rt (obj d) ≡ ok d
      → get "state" d ≡ str "CLAIMED"
      → get "claim" d ≡ obj claim
      → get "claim_token" claim ≡ str token
      → is_filled rt receipt ≡ true
      → mark_delivered rt d token receipt
        ≡ ok (seal_state rt (moved rt null receipt true "DELIVERED" "DELIVERY_RECEIPT_RECORDED" d))
  unfolding mark_delivered need_claim
  mark_delivered-at laws d claim token receipt valid said has_claim owned filled =
      let (_, checked) = validate_state-ok rt (obj d) valid in
      let (terms, _, _) = checked in
      let word : String = "DELIVERY_RECEIPT_RECORDED" in
      let r = renamed rt "DELIVERED" word d in
      rw (valid, said, has_claim, owned, str_eq_refl token, filled)
        (sealed-at rt laws (moved rt null receipt true "DELIVERED" word d)
          (check_terms-moved rt null receipt true "DELIVERED" word d
              (sym (is_state-checked d terms))
            ∙ terms)
          (rw
            (
              state-moved rt null receipt true "DELIVERED" word d,
              claim-settled rt null receipt true r,
              receipt-settled rt null receipt true r,
            )
            (check_phase-done receipt filled)))

  run_two :
      (d d₁ d₂ : Dict rt) (a b : Call rt)
      → perform rt d a ≡ ok d₁
      → perform rt d₁ b ≡ ok d₂
      → run rt d (a ∷ b ∷ []) ≡ d₂
  unfolding run
  run_two d d₁ d₂ a b h k = rw (h, k) refl

  -- From every valid state that is not delivered, if no claim runs at the time, a claim of positive
  -- length by a named adapter and then a receipt that is not empty deliver the event with that
  -- receipt, whatever token the claim draws; digests have 64 digits and the attempts are a number.
  pub run-delivers :
      (laws : HashLaws rt) (d : Dict rt) (token adapter : String) (now length n : ℤ)
      (receipt : Value rt)
      → validate_state rt (obj d) ≡ ok d
      → is_str (get "state" d) "DELIVERED" ≡ false
      → (is_str (get "state" d) "CLAIMED" ≡ true
          → int_ltb rt now (expiry_of rt (get "claim" d)) ≡ ok false)
      → get "attempt_count" d ≡ int n
      → strips_empty adapter ≡ false
      → leb_ℤ length (pos 0) ≡ false
      → is_filled rt receipt ≡ true
      → phase_of rt (
          run rt d
            (claim_call token (str adapter) now length true ∷ deliver_call token receipt ∷ []))
        ≡ done receipt
  unfolding perform
  run-delivers laws d token adapter now length n receipt valid pending over counted named long
        filled =
      let claim : Dict rt = new_claim rt token (strip adapter) now length in
      let m = attempted rt (obj claim) null true "CLAIMED" "ADAPTER_CLAIMED" (n +ℤ pos 1) d in
      let first =
        claim_delivery-at laws d token adapter now length n valid pending over counted named long in
      let d₁ = claimed_state token (strip adapter) now length n d in
      let (valid₁, _, _) =
        perform-Keeps rt d (claim_call token (str adapter) now length true) first in
      let second =
        mark_delivered-at laws d₁ claim token receipt valid₁
          (get-seal_state rt "state" m refl
            ∙ state-attempted rt (obj claim) null true "CLAIMED" "ADAPTER_CLAIMED" (n +ℤ pos 1) d)
          (get-seal_state rt "claim" m refl
            ∙ claim-settled rt (obj claim) null true
                (put "attempt_count" (int (n +ℤ pos 1)) (renamed rt "CLAIMED" "ADAPTER_CLAIMED" d)))
          refl filled in
      let (_, _, wrote) = mark_delivered-ok rt d₁ token receipt second in
      ap (phase_of rt) (
        run_two d d₁ _ (claim_call token (str adapter) now length true) (deliver_call token receipt)
          first second)
      ∙ (sealed-phase rt (moved rt null receipt true "DELIVERED" "DELIVERY_RECEIPT_RECORDED" d₁)
            wrote
          ∙ phase-moved rt null receipt true "DELIVERED" "DELIVERY_RECEIPT_RECORDED" d₁)
