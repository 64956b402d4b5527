-- ===== src/Transport/Moves.antt =====
-- The deliveries that the three transitions of gpt_transport_boundary.py allow: an event is idle,
-- leased to a claim until a time, or done with a receipt.
use crt_master.Base.{
  >>=-eq-ok, Bool, Bool-cases, Error, List, Result, String, [], ap, err, false, if◌then◌else◌, inl,
  inr, leb_ℤ, ok, pos, refl, refuse, refuse-ok, true, value_error, ℤ, ◌+ℤ◌, ◌>>=◌, ◌∙◌, ◌∷◌, ◌≡◌,
}
use crt_master.Json.{get, int, is_str, null, obj, put, str}
use crt_master.Runtime.{Dict, Runtime, Value}
use crt_master.Values.{int_ltb}
use crt_master.Transport.{
  claim_delivery, expiry_of, is_filled, mark_delivered, mark_retryable, new_claim, refuse_live,
  renamed, seal_state, sealed, token_of,
}
use crt_master.Transport.Sealed.{get-seal_state}
use crt_master.Transport.Written.{
  attempted, claim-settled, moved, receipt-settled, state-attempted, state-moved,
}
use crt_master.Transport.Calls.{
  claim_delivery-ok, mark_delivered-ok, mark_retryable-ok, need_claim-ok, validated,
}

module _ (rt : Runtime) where
  -- One call with its arguments; a claim comes with the token that it will draw.
  pub data Call : Type 0 where
    claim_call : String → Value rt → ℤ → ℤ → Bool → Call
    retry_call : String → Value rt → Call
    deliver_call : String → Value rt → Call

  unfoldable pub perform : Dict rt → Call → Result (Dict rt)
  perform state (claim_call token adapter_id now_ms lease_ms selected) =
      claim_delivery rt token state adapter_id now_ms lease_ms selected
  perform state (retry_call token reason) = mark_retryable rt state token reason
  perform state (deliver_call token receipt) = mark_delivered rt state token receipt

  -- What the caller keeps: the new state, or the old one if the call raised.
  abbrev pub after : Dict rt → Result (Dict rt) → Dict rt
  after state (ok next) = next
  after state (err e) = state

  unfoldable pub run : Dict rt → List Call → Dict rt
  run state [] = state
  run state (c ∷ cs) = run (after state (perform state c)) cs

  pub data Phase : Type 0 where
    idle : Phase
    leased : Value rt → Value rt → Phase
    done : Value rt → Phase

  abbrev pub phase : Value rt → Value rt → Value rt → Phase
  phase said claim receipt =
      if is_str said "CLAIMED"
      then leased (token_of rt claim) (expiry_of rt claim)
      else if is_str said "DELIVERED"
      then done receipt
      else idle

  abbrev pub phase_of : Dict rt → Phase
  phase_of d = phase (get "state" d) (get "claim" d) (get "receipt" d)

  -- The moves: a lease of a positive length starts where no claim is, or where the last has run out;
  -- only the claim's own token ends it, and nothing moves once the delivery is done.
  pub data Moves : Phase → Call → Phase → Type 0 where
    first_lease :
        (token : String) (adapter_id : Value rt) (now_ms lease_ms : ℤ)
        → leb_ℤ lease_ms (pos 0) ≡ false
        → Moves idle
            (claim_call token adapter_id now_ms lease_ms true)
            (leased (str token) (int (now_ms +ℤ lease_ms)))
    take_over :
        (token : String) (adapter_id : Value rt) (now_ms lease_ms : ℤ) (old expiry : Value rt)
        → leb_ℤ lease_ms (pos 0) ≡ false
        → int_ltb rt now_ms expiry ≡ ok false
        → Moves
            (leased old expiry)
            (claim_call token adapter_id now_ms lease_ms true)
            (leased (str token) (int (now_ms +ℤ lease_ms)))
    release :
        (token : String) (reason expiry : Value rt)
        → Moves (leased (str token) expiry) (retry_call token reason) idle
    deliver :
        (token : String) (receipt expiry : Value rt)
        → is_filled rt receipt ≡ true
        → Moves (leased (str token) expiry) (deliver_call token receipt) (done receipt)

  phase_gets :
      (d : Dict rt) (said claim receipt : Value rt)
      → get "state" d ≡ said
      → get "claim" d ≡ claim
      → get "receipt" d ≡ receipt
      → phase_of d ≡ phase said claim receipt
  phase_gets d said claim receipt a b c = rw (a, b, c) refl

  -- A sealed state is in the phase of what was sealed.
  pub sealed-phase : (d : Dict rt) {d' : Dict rt} → sealed rt d ≡ ok d' → phase_of d' ≡ phase_of d
  sealed-phase d h =
      ap phase_of (validated rt (seal_state rt d) h)
      ∙ phase_gets (seal_state rt d) _ _ _ (get-seal_state rt "state" d refl)
          (get-seal_state rt "claim" d refl) (get-seal_state rt "receipt" d refl)

  pub phase-moved :
      (claim receipt : Value rt) (selected : Bool) (name reason : String) (d : Dict rt)
      → phase_of (moved rt claim receipt selected name reason d) ≡ phase (str name) claim receipt
  phase-moved claim receipt selected name reason d =
      phase_gets (moved rt claim receipt selected name reason d) _ _ _
        (state-moved rt claim receipt selected name reason d)
        (claim-settled rt claim receipt selected (renamed rt name reason d))
        (receipt-settled rt claim receipt selected (renamed rt name reason d))

  phase-attempted :
      (claim receipt : Value rt) (selected : Bool) (name reason : String) (n : ℤ) (d : Dict rt)
      → phase_of (attempted rt claim receipt selected name reason n d)
        ≡ phase (str name) claim receipt
  phase-attempted claim receipt selected name reason n d =
      phase_gets (attempted rt claim receipt selected name reason n d) _ _ _
        (state-attempted rt claim receipt selected name reason n d)
        (claim-settled rt claim receipt selected
          (put "attempt_count" (int n) (renamed rt name reason d)))
        (receipt-settled rt claim receipt selected
          (put "attempt_count" (int n) (renamed rt name reason d)))

  phase-claimed :
      (d : Dict rt) (token : String)
      → is_str (get "state" d) "CLAIMED" ≡ true
      → token_of rt (get "claim" d) ≡ str token
      → phase_of d ≡ leased (str token) (expiry_of rt (get "claim" d))
  phase-claimed d token a b = rw (a, b) refl

  over_by :
      (b : Bool) (m : Result Bool) (e : Error)
      → ◌≡◌ {A = Result (Unit {0})}
          (elim b [ false ↦ ok tt | true ↦ m >>= λ live. refuse live e ])
          (ok tt)
      → b ≡ true
      → m ≡ ok false
  over_by true m e h claimed =
      let (live, compared, k) = >>=-eq-ok m _ h in compared ∙ ap ok (refuse-ok live e k)
  over_by false m e h claimed = cc

  -- A claim that did not refuse the next had run out.
  pub refuse_live-over :
      (d : Dict rt) (now_ms : ℤ)
      → refuse_live rt d now_ms ≡ ok tt
      → is_str (get "state" d) "CLAIMED" ≡ true
      → int_ltb rt now_ms (expiry_of rt (get "claim" d)) ≡ ok false
  unfolding refuse_live
  refuse_live-over d now_ms h claimed =
      over_by (is_str (get "state" d) "CLAIMED") (int_ltb rt now_ms (expiry_of rt (get "claim" d)))
        (value_error "Transport boundary event is already claimed") h claimed

  claim-Moves :
      (token : String) (d : Dict rt) (adapter_id : Value rt) (now_ms lease_ms : ℤ)
      → leb_ℤ lease_ms (pos 0) ≡ false
      → is_str (get "state" d) "DELIVERED" ≡ false
      → refuse_live rt d now_ms ≡ ok tt
      → Moves
          (phase_of d)
          (claim_call token adapter_id now_ms lease_ms true)
          (leased (str token) (int (now_ms +ℤ lease_ms)))
  claim-Moves token d adapter_id now_ms lease_ms long open_still over =
      elim (Bool-cases (is_str (get "state" d) "CLAIMED")) [
        | inl claimed ↦ rw (claimed) (
            take_over token adapter_id now_ms lease_ms (token_of rt (get "claim" d))
              (expiry_of rt (get "claim" d)) long (refuse_live-over d now_ms over claimed))
        | inr other ↦ rw (other, open_still) (first_lease token adapter_id now_ms lease_ms long)
      ]

  -- Every transition that returns is one of the moves of the delivery.
  pub perform-Moves :
      (d : Dict rt) (call : Call) {d' : Dict rt}
      → perform d call ≡ ok d'
      → Moves (phase_of d) call (phase_of d')
  unfolding perform
  perform-Moves d (claim_call token adapter_id now_ms lease_ms selected) h =
      let (adapter, n, chosen, long, open_still, over, _, wrote) =
        claim_delivery-ok rt token d adapter_id now_ms lease_ms selected h in
      let c = obj (new_claim rt token adapter now_ms lease_ms) in
      rw
        (
          chosen,
          sealed-phase _ wrote,
          phase-attempted c null true "CLAIMED" "ADAPTER_CLAIMED" (n +ℤ pos 1) d,
        )
        (claim-Moves token d adapter_id now_ms lease_ms long open_still over)
  perform-Moves d (retry_call token reason) h =
      let (words, holds, wrote) = mark_retryable-ok rt d token reason h in
      let (claimed, owned) = need_claim-ok rt d token _ holds in
      rw
        (
          sealed-phase _ wrote,
          phase-moved null null false "RETRYABLE" words d,
          phase-claimed d token claimed owned,
        )
        (release token reason (expiry_of rt (get "claim" d)))
  perform-Moves d (deliver_call token receipt) h =
      let (holds, filled, wrote) = mark_delivered-ok rt d token receipt h in
      let (claimed, owned) = need_claim-ok rt d token _ holds in
      rw
        (
          sealed-phase _ wrote,
          phase-moved null receipt true "DELIVERED" "DELIVERY_RECEIPT_RECORDED" d,
          phase-claimed d token claimed owned,
        )
        (deliver token receipt (expiry_of rt (get "claim" d)) filled)
