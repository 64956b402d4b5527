-- ===== src/Transport/Calls.antt =====
-- What a call of a transition did if it returned (gpt_transport_boundary.py).
use crt_master.Base.{
  >>-eq-ok, >>=-eq-ok, Bool, String, false, leb_ℤ, ok, pos, refuse, refuse-ok, require, require-ok,
  subst, sym, true, value_error, ℤ, ◌+ℤ◌, ◌>>=◌, ◌>>◌, ◌≡◌,
}
use crt_master.Json.{get, is_str, null, obj, str}
use crt_master.Json.Laws.{is_str-eq}
use crt_master.Runtime.{Dict, Runtime, Value}
use crt_master.Transport.{
  attempts_of, claim_delivery, is_filled, mark_delivered, mark_retryable, need_claim, need_words,
  new_claim, refuse_live, sealed, token_of, validate_state,
}
use crt_master.Transport.Sealed.{validate_state-ok}
use crt_master.Transport.Written.{attempted, moved}

module _ (rt : Runtime) where
  obj-injective : {d e : Dict rt} → ◌≡◌ {A = Value rt} (obj d) (obj e) → d ≡ e
  obj-injective h = cc

  pub validated : (d : Dict rt) {d' : Dict rt} → validate_state rt (obj d) ≡ ok d' → d' ≡ d
  validated d h = let (same, _) = validate_state-ok rt (obj d) h in sym (obj-injective same)

  pub need_claim-ok :
      (d : Dict rt) (token text : String)
      → need_claim rt d token text ≡ ok tt
      → (is_str (get "state" d) "CLAIMED" ≡ true) × (token_of rt (get "claim" d) ≡ str token)
  unfolding need_claim
  need_claim-ok d token text h =
      let (_, claimed, k) =
        >>-eq-ok (require (is_str (get "state" d) "CLAIMED") (value_error text)) _ h in
      (require-ok _ _ claimed, is_str-eq _ _ (require-ok _ _ k))

  abbrev pub Claims : String → Dict rt → ℤ → ℤ → Bool → Dict rt → Type 0
  Claims token d now_ms lease_ms selected d' =
      (adapter : String) × (n : ℤ) × (selected ≡ true)
      × (leb_ℤ lease_ms (pos 0) ≡ false)
      × (is_str (get "state" d) "DELIVERED" ≡ false)
      × (refuse_live rt d now_ms ≡ ok tt)
      × (attempts_of rt d ≡ ok n)
      × (sealed rt (
            attempted rt (obj (new_claim rt token adapter now_ms lease_ms)) null true "CLAIMED"
              "ADAPTER_CLAIMED" (n +ℤ pos 1) d)
          ≡ ok d')

  -- The rest of a claim, once the state is validated.
  claimed :
      (token : String) (d : Dict rt) (adapter_id : Value rt) (now_ms lease_ms : ℤ) (selected : Bool)
      {d' : Dict rt}
      → (require selected (value_error "Transport adapter is not selected")
          >> (need_words rt adapter_id "Adapter id is required" >>= λ adapter.
              refuse (leb_ℤ lease_ms (pos 0)) (value_error "Claim lease must be positive")
              >> (refuse
                    (is_str (get "state" d) "DELIVERED")
                    (value_error "Delivered event cannot be claimed again")
                  >> (refuse_live rt d now_ms
                      >> (attempts_of rt d >>= λ n. sealed rt (
                          attempted rt
                            (obj (new_claim rt token adapter now_ms lease_ms))
                            null
                            true
                            "CLAIMED"
                            "ADAPTER_CLAIMED"
                            (n +ℤ pos 1)
                            d))))))
        ≡ ok d'
      → Claims token d now_ms lease_ms selected d'
  claimed token d adapter_id now_ms lease_ms selected h =
      let (_, chosen, h₁) =
        >>-eq-ok (require selected (value_error "Transport adapter is not selected")) _ h in
      let (adapter, _, h₂) = >>=-eq-ok (need_words rt adapter_id "Adapter id is required") _ h₁ in
      let (_, long, h₃) =
        >>-eq-ok (refuse (leb_ℤ lease_ms (pos 0)) (value_error "Claim lease must be positive")) _
          h₂ in
      let (_, open_still, h₄) =
        >>-eq-ok
          (refuse (is_str (get "state" d) "DELIVERED")
            (value_error "Delivered event cannot be claimed again"))
          _ h₃ in
      let (_, over, h₅) = >>-eq-ok (refuse_live rt d now_ms) _ h₄ in
      let (n, counted, h₆) = >>=-eq-ok (attempts_of rt d) _ h₅ in
      (
        adapter,
        n,
        require-ok _ _ chosen,
        refuse-ok _ _ long,
        refuse-ok _ _ open_still,
        over,
        counted,
        h₆,
      )

  pub claim_delivery-ok :
      (token : String) (d : Dict rt) (adapter_id : Value rt) (now_ms lease_ms : ℤ) (selected : Bool)
      {d' : Dict rt}
      → claim_delivery rt token d adapter_id now_ms lease_ms selected ≡ ok d'
      → Claims token d now_ms lease_ms selected d'
  unfolding claim_delivery
  claim_delivery-ok token d adapter_id now_ms lease_ms selected {d'} h =
      let (current, valid, k) = >>=-eq-ok (validate_state rt (obj d)) _ h in
      let goes = claimed token current adapter_id now_ms lease_ms selected k in
      subst (λ (x : Dict rt). Claims token x now_ms lease_ms selected d') (validated d valid) goes

  abbrev pub Retries : Dict rt → String → Dict rt → Type 0
  Retries d token d' =
      (words : String) × (need_claim rt d token "Only a claimed event can become retryable" ≡ ok tt)
      × (sealed rt (moved rt null null false "RETRYABLE" words d) ≡ ok d')

  pub mark_retryable-ok :
      (d : Dict rt) (token : String) (reason : Value rt) {d' : Dict rt}
      → mark_retryable rt d token reason ≡ ok d'
      → Retries d token d'
  unfolding mark_retryable
  mark_retryable-ok d token reason {d'} h =
      let (current, valid, h₁) = >>=-eq-ok (validate_state rt (obj d)) _ h in
      let (_, holds, h₂) =
        >>-eq-ok (need_claim rt current token "Only a claimed event can become retryable") _ h₁ in
      let (words, _, h₃) = >>=-eq-ok (need_words rt reason "Retry reason is required") _ h₂ in
      subst (λ (x : Dict rt). Retries x token d') (validated d valid) (words, holds, h₃)

  abbrev pub Delivers : Dict rt → String → Value rt → Dict rt → Type 0
  Delivers d token receipt d' =
      (need_claim rt d token "Only a claimed event can become delivered" ≡ ok tt)
      × (is_filled rt receipt ≡ true)
      × (sealed rt (moved rt null receipt true "DELIVERED" "DELIVERY_RECEIPT_RECORDED" d) ≡ ok d')

  pub mark_delivered-ok :
      (d : Dict rt) (token : String) (receipt : Value rt) {d' : Dict rt}
      → mark_delivered rt d token receipt ≡ ok d'
      → Delivers d token receipt d'
  unfolding mark_delivered
  mark_delivered-ok d token receipt {d'} h =
      let (current, valid, h₁) = >>=-eq-ok (validate_state rt (obj d)) _ h in
      let (_, holds, h₂) =
        >>-eq-ok (need_claim rt current token "Only a claimed event can become delivered") _ h₁ in
      let (_, filled, h₃) =
        >>-eq-ok (require (is_filled rt receipt) (value_error "Delivery receipt is required")) _
          h₂ in
      subst (λ (x : Dict rt). Delivers x token receipt d') (validated d valid)
        (holds, require-ok _ _ filled, h₃)
