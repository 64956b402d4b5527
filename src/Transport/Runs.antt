-- ===== src/Transport/Runs.antt =====
-- A delivery over any sequence of calls, raising or not (gpt_transport_boundary.py).
use crt_master.Base.{
  +ℤ_parts, Bool, Bool-cases, List, Result, String, [], ap, arith, eq_of_parts, err, false, inl,
  inr, ok, ok-injective, pos, refl, str_eq, subst, sym, true, ℕ, ℤ, ◌+ℤ◌, ◌+◌, ◌∙◌, ◌∷◌, ◌≡◌,
}
use crt_master.Json.{bool, get, has, int, null, obj}
use crt_master.Json.Laws.{get-puts_last, get_absent}
use crt_master.Runtime.{Dict, Runtime, Value, to_int}
use crt_master.Transport.{attempts_of, new_claim, renamed, seal_state, sealed, validate_state}
use crt_master.Transport.Sealed.{get-seal_state}
use crt_master.Transport.Written.{attempted, get-attempted, get-moved, moved}
use crt_master.Transport.Calls.{claim_delivery-ok, mark_delivered-ok, mark_retryable-ok, validated}
use crt_master.Transport.Moves.{Call, after, claim_call, deliver_call, perform, retry_call, run}

module _ (rt : Runtime) where
  abbrev pub SameEvent : Dict rt → Dict rt → Type 0
  SameEvent d d' =
      (get "event_id" d' ≡ get "event_id" d)
      × (get "bridge_payload_hash" d' ≡ get "bridge_payload_hash" d)

  -- A sealed state is valid and reads as what was sealed.
  pub sealed-valid :
      (d : Dict rt) {d' : Dict rt}
      → sealed rt d ≡ ok d'
      → (validate_state rt (obj d') ≡ ok d') × (d' ≡ seal_state rt d)
  sealed-valid d {d'} h =
      let same = validated rt (seal_state rt d) h in
      (subst (λ (x : Dict rt). validate_state rt (obj x) ≡ ok d') (sym same) h, same)

  get-sealed :
      (k : String) (d : Dict rt) {d' : Dict rt}
      → str_eq "boundary_state_hash" k ≡ false
      → sealed rt d ≡ ok d'
      → get k d' ≡ get k d
  get-sealed k d other h =
      let (_, same) = sealed-valid d h in ap (get k) same ∙ get-seal_state rt k d other

  moved-SameEvent :
      (claim receipt : Value rt) (selected : Bool) (name reason : String) (d : Dict rt)
      {d' : Dict rt}
      → sealed rt (moved rt claim receipt selected name reason d) ≡ ok d'
      → SameEvent d d'
  moved-SameEvent claim receipt selected name reason d h =
      let m = moved rt claim receipt selected name reason d in
      (
        get-sealed "event_id" m refl h
            ∙ get-moved rt "event_id" claim receipt selected name reason d refl,
        get-sealed "bridge_payload_hash" m refl h
            ∙ get-moved rt "bridge_payload_hash" claim receipt selected name reason d refl,
      )

  -- How many attempts a call that returned has added.
  abbrev pub added : Call rt → ℕ
  added (claim_call token adapter_id now_ms lease_ms selected) = 1
  added (retry_call token reason) = 0
  added (deliver_call token receipt) = 0

  abbrev pub Counts : ℕ → Dict rt → Dict rt → Type 0
  Counts k d d' =
      (n : ℤ) → get "attempt_count" d ≡ int n → get "attempt_count" d' ≡ int (n +ℤ pos k)

  abbrev pub Keeps : Dict rt → Call rt → Dict rt → Type 0
  Keeps d c d' = (validate_state rt (obj d') ≡ ok d') × SameEvent d d' × Counts (added c) d d'

  pub attempts_of-int :
      (d : Dict rt) (n : ℤ) → get "attempt_count" d ≡ int n → attempts_of rt d ≡ ok n
  unfolding attempts_of to_int
  attempts_of-int d n h = elim (Bool-cases (has "attempt_count" d)) [
    | inl there ↦ rw (there, h) refl
    | inr missing ↦ absurd (clash (sym (get_absent "attempt_count" d missing) ∙ h))
  ]
    where
      clash : ◌≡◌ {A = Value rt} null (int n) → ⊥
      clash h = cc

  add_none : (n : ℤ) → n ≡ (n +ℤ pos 0)
  add_none n = eq_of_parts n (n +ℤ pos 0) (omega (arith, +ℤ_parts n (pos 0)))

  add_later : (n : ℤ) (k m : ℕ) → ((n +ℤ pos k) +ℤ pos m) ≡ (n +ℤ pos (k + m))
  add_later n k m =
      eq_of_parts ((n +ℤ pos k) +ℤ pos m) (n +ℤ pos (k + m))
        (omega (arith, +ℤ_parts n (pos k), +ℤ_parts (n +ℤ pos k) (pos m), +ℤ_parts n (pos (k + m))))

  moved-Counts :
      (claim receipt : Value rt) (selected : Bool) (name reason : String) (d : Dict rt)
      {d' : Dict rt}
      → sealed rt (moved rt claim receipt selected name reason d) ≡ ok d'
      → Counts 0 d d'
  moved-Counts claim receipt selected name reason d h n counted =
      get-sealed "attempt_count" (moved rt claim receipt selected name reason d) refl h
      ∙ (get-moved rt "attempt_count" claim receipt selected name reason d refl
          ∙ (counted ∙ ap int (add_none n)))

  int-injective : {a b : ℤ} → ◌≡◌ {A = Value rt} (int a) (int b) → a ≡ b
  int-injective h = cc

  -- A transition that returns leaves a valid state of the same event and payload, and counts one
  -- more attempt if it was a claim.
  pub perform-Keeps :
      (d : Dict rt) (c : Call rt) {d' : Dict rt} → perform rt d c ≡ ok d' → Keeps d c d'
  unfolding perform
  perform-Keeps d (claim_call token adapter_id now_ms lease_ms selected) h =
      let (adapter, n, _, _, _, _, counted, wrote) =
        claim_delivery-ok rt token d adapter_id now_ms lease_ms selected h in
      let claim : Value rt = obj (new_claim rt token adapter now_ms lease_ms) in
      let m = attempted rt claim null true "CLAIMED" "ADAPTER_CLAIMED" (n +ℤ pos 1) d in
      let (valid, _) = sealed-valid m wrote in
      (
        valid,
        (
          get-sealed "event_id" m refl wrote
              ∙ get-attempted rt "event_id" claim null true "CLAIMED" "ADAPTER_CLAIMED" (n +ℤ pos 1)
                  d refl,
          get-sealed "bridge_payload_hash" m refl wrote
              ∙ get-attempted rt "bridge_payload_hash" claim null true "CLAIMED" "ADAPTER_CLAIMED"
                  (n +ℤ pos 1) d refl,
        ),
        (λ k was.
            get-sealed "attempt_count" m refl wrote
            ∙ (get-puts_last "attempt_count" (int (n +ℤ pos 1))
                  (("claim", claim) ∷ ("receipt", null) ∷ ("adapter_selected", bool true) ∷ [])
                  (renamed rt "CLAIMED" "ADAPTER_CLAIMED" d) refl
                ∙ ap (λ z. int (z +ℤ pos 1))
                    (ok-injective (sym counted ∙ attempts_of-int d k was)))),
      )
  perform-Keeps d (retry_call token reason) h =
      let (words, _, wrote) = mark_retryable-ok rt d token reason h in
      let (valid, _) = sealed-valid (moved rt null null false "RETRYABLE" words d) wrote in
      (
        valid,
        moved-SameEvent null null false "RETRYABLE" words d wrote,
        moved-Counts null null false "RETRYABLE" words d wrote,
      )
  perform-Keeps d (deliver_call token receipt) h =
      let (_, _, wrote) = mark_delivered-ok rt d token receipt h in
      let word : String = "DELIVERY_RECEIPT_RECORDED" in
      let (valid, _) = sealed-valid (moved rt null receipt true "DELIVERED" word d) wrote in
      (
        valid,
        moved-SameEvent null receipt true "DELIVERED" word d wrote,
        moved-Counts null receipt true "DELIVERED" word d wrote,
      )

  -- The claims among the calls that returned.
  abbrev pub won : Call rt → Result (Dict rt) → ℕ
  won c (ok next) = added c
  won c (err e) = 0

  abbrev pub claims_won : Dict rt → List (Call rt) → ℕ
  claims_won d [] = 0
  claims_won d (c ∷ cs) = won c (perform rt d c) + claims_won (after rt d (perform rt d c)) cs

  abbrev pub Ran : Dict rt → ℕ → Dict rt → Type 0
  Ran d k d' = (validate_state rt (obj d') ≡ ok d') × SameEvent d d' × Counts k d d'

  after-Ran :
      (d : Dict rt) (c : Call rt) (r : Result (Dict rt))
      → perform rt d c ≡ r
      → validate_state rt (obj d) ≡ ok d
      → Ran d (won c r) (after rt d r)
  after-Ran d c (ok next) h valid = perform-Keeps d c h
  after-Ran d c (err e) h valid = (valid, (refl, refl), λ n was. was ∙ ap int (add_none n))

  -- Whatever calls are made on a valid state, in any order, raising or not: the state stays valid,
  -- it keeps its event and payload, and its attempts grow by the claims that returned.
  pub run-Ran :
      (d : Dict rt) (calls : List (Call rt))
      → validate_state rt (obj d) ≡ ok d
      → Ran d (claims_won d calls) (run rt d calls)
  unfolding run
  run-Ran d [] valid = (valid, (refl, refl), λ n was. was ∙ ap int (add_none n))
  run-Ran d (c ∷ cs) valid =
      let next = after rt d (perform rt d c) in
      let (still, (e, p), counts) = after-Ran d c (perform rt d c) refl valid in
      let (last, (e', p'), counts') = run-Ran next cs still in
      (
        last,
        (e' ∙ e, p' ∙ p),
        (λ n was.
            counts' (n +ℤ pos (won c (perform rt d c))) (counts n was)
            ∙ ap int (add_later n (won c (perform rt d c)) (claims_won next cs))),
      )
