-- ===== src/Transport/Shape.antt =====
-- What a delivery state that `_validate_state` accepts looks like (gpt_transport_boundary.py).
use crt_master.Base.{
  >>-eq-ok, >>=-eq-ok, Result, String, [], ap, arith, false, inl, inr, ok, ok-injective, refl,
  refuse-ok, require, require-ok, str_eq_iff, subst, true, value_error, ◌>>◌, ◌∙◌, ◌∷◌, ◌≡◌, ◌⊎◌,
}
use crt_master.Json.{arr, bool, contains, float, get, has, int, is_none, is_str, null, obj, str}
use crt_master.Json.Laws.{is_str-eq}
use crt_master.Runtime.{Dict, Runtime, Value}
use crt_master.Values.{leb_value}
use crt_master.Outbox.{need_dict}
use crt_master.Outbox.Enqueue.{need_dict-ok}
use crt_master.Transport.{
  boundary_schema, check_claimed, check_delivered, check_phase, check_terms, check_unclaimed,
  is_filled, is_state, need_key, need_text64, validate_state,
}
use crt_master.Transport.Sealed.{validate_state-ok}

module _ (rt : Runtime) where
  -- The states that `_validate_state` accepts, by the word under "state".
  abbrev pub IsUnclaimed : Dict rt → Type 0
  IsUnclaimed d =
      ((get "state" d ≡ str "PENDING") ⊎ (get "state" d ≡ str "RETRYABLE"))
      × (get "claim" d ≡ null)
      × (get "receipt" d ≡ null)

  abbrev pub IsClaimed : Dict rt → Type 0
  IsClaimed d =
      (get "state" d ≡ str "CLAIMED")
      × ((claim : Dict rt) × (get "claim" d ≡ obj claim)
          × (has "claim_token" claim ≡ true)
          × (has "adapter_id" claim ≡ true)
          × (leb_value rt (get "expires_at_ms" claim) (get "claimed_at_ms" claim) ≡ ok false))
      × (get "receipt" d ≡ null)

  abbrev pub IsDelivered : Dict rt → Type 0
  IsDelivered d =
      (get "state" d ≡ str "DELIVERED")
      × (get "claim" d ≡ null)
      × (is_filled rt (get "receipt" d) ≡ true)

  is_none-null : (v : Value rt) → is_none v ≡ true → v ≡ null
  is_none-null null h = refl
  is_none-null (bool b) h = cc
  is_none-null (int n) h = cc
  is_none-null (float x) h = cc
  is_none-null (str s) h = cc
  is_none-null (arr xs) h = cc
  is_none-null (obj d) h = cc

  word_cases :
      (s : String)
      → contains s ("PENDING" ∷ "CLAIMED" ∷ "RETRYABLE" ∷ "DELIVERED" ∷ []) ≡ true
      → ((s ≡ "PENDING") ⊎ (s ≡ "RETRYABLE")) ⊎ ((s ≡ "CLAIMED") ⊎ (s ≡ "DELIVERED"))
  word_cases s h = ground (
    arith,
    str_eq_iff "PENDING" s,
    str_eq_iff "CLAIMED" s,
    str_eq_iff "RETRYABLE" s,
    str_eq_iff "DELIVERED" s,
  )

  abbrev Said : Value rt → Type 0
  Said v =
      ((v ≡ str "PENDING") ⊎ (v ≡ str "RETRYABLE")) ⊎ ((v ≡ str "CLAIMED") ⊎ (v ≡ str "DELIVERED"))

  word-Said :
      (s : String)
      → ((s ≡ "PENDING") ⊎ (s ≡ "RETRYABLE")) ⊎ ((s ≡ "CLAIMED") ⊎ (s ≡ "DELIVERED"))
      → Said (str s)
  word-Said s (inl (inl e)) = inl (inl (ap str e))
  word-Said s (inl (inr e)) = inl (inr (ap str e))
  word-Said s (inr (inl e)) = inr (inl (ap str e))
  word-Said s (inr (inr e)) = inr (inr (ap str e))

  is_state-Said : (v : Value rt) → is_state rt v ≡ ok true → Said v
  is_state-Said (str s) h = word-Said s (word_cases s (ok-injective h))
  is_state-Said null h = cc
  is_state-Said (bool b) h = cc
  is_state-Said (int n) h = cc
  is_state-Said (float x) h = cc
  is_state-Said (arr xs) h = cc
  is_state-Said (obj d) h = cc

  abbrev pub HasNoAuthority : Dict rt → Type 0
  HasNoAuthority d =
      (get "production" d ≡ str "NOT_APPROVED")
      × (get "external_action_authority" d ≡ str "NONE")
      × (get "action_output" d ≡ str "NONE")

  check_terms-ok :
      (d : Dict rt) → check_terms rt d ≡ ok tt → Said (get "state" d) × HasNoAuthority d
  unfolding check_terms
  check_terms-ok d h =
      let (_, _, h₁) =
        >>-eq-ok
          (require (is_str (get "schema_version" d) boundary_schema)
            (value_error "Transport boundary schema mismatch"))
          _ h in
      let (known, valid, h₂) = >>=-eq-ok (is_state rt (get "state" d)) _ h₁ in
      let (_, is_known, h₃) =
        >>-eq-ok (require known (value_error "Transport boundary state is invalid")) _ h₂ in
      let (_, _, h₄) =
        >>-eq-ok (need_text64 rt (get "event_id" d) "Transport boundary event_id is invalid") _
          h₃ in
      let (_, _, h₅) =
        >>-eq-ok
          (need_text64 rt (get "bridge_payload_hash" d)
            "Transport boundary payload hash is invalid")
          _ h₄ in
      let (_, production, h₆) =
        >>-eq-ok
          (require (is_str (get "production" d) "NOT_APPROVED")
            (value_error "Production approval must remain NOT_APPROVED"))
          _ h₅ in
      let (_, authority, h₇) =
        >>-eq-ok
          (require (is_str (get "external_action_authority" d) "NONE")
            (value_error "External Action Authority must remain NONE"))
          _ h₆ in
      (
        is_state-Said (get "state" d) (valid ∙ ap ok (require-ok known _ is_known)),
        (
          is_str-eq _ _ (require-ok _ _ production),
          is_str-eq _ _ (require-ok _ _ authority),
          is_str-eq _ _ (require-ok _ _ h₇),
        ),
      )

  pub check_unclaimed-ok :
      (claim receipt : Value rt)
      → check_unclaimed rt claim receipt ≡ ok tt
      → (claim ≡ null) × (receipt ≡ null)
  unfolding check_unclaimed
  check_unclaimed-ok claim receipt h =
      let (_, a, k) =
        >>-eq-ok (require (is_none claim) (value_error "Unclaimed state must not retain a claim")) _
          h in
      (is_none-null claim (require-ok _ _ a), is_none-null receipt (require-ok _ _ k))

  pub check_delivered-ok :
      (claim receipt : Value rt)
      → check_delivered rt claim receipt ≡ ok tt
      → (claim ≡ null) × (is_filled rt receipt ≡ true)
  unfolding check_delivered
  check_delivered-ok claim receipt h =
      let (_, a, k) =
        >>-eq-ok (require (is_none claim) (value_error "Delivered state must clear claim metadata"))
          _ h in
      (is_none-null claim (require-ok _ _ a), require-ok _ _ k)

  pub check_claimed-ok :
      (claim receipt : Value rt)
      → check_claimed rt claim receipt ≡ ok tt
      → ((m : Dict rt) × (claim ≡ obj m)
          × (has "claim_token" m ≡ true)
          × (has "adapter_id" m ≡ true)
          × (leb_value rt (get "expires_at_ms" m) (get "claimed_at_ms" m) ≡ ok false))
        × (receipt ≡ null)
  unfolding check_claimed
  check_claimed-ok claim receipt h =
      let (m, is_dict, h₁) =
        >>=-eq-ok (need_dict rt claim "Claimed state requires claim metadata") _ h in
      let (_, empty, h₂) =
        >>-eq-ok (require (is_none receipt) (value_error "Claimed state must not retain a receipt"))
          _ h₁ in
      let (_, token, h₃) = >>-eq-ok (need_key rt m "claim_token") _ h₂ in
      let (_, adapter, h₄) = >>-eq-ok (need_key rt m "adapter_id") _ h₃ in
      let (_, _, h₅) = >>-eq-ok (need_key rt m "claimed_at_ms") _ h₄ in
      let (_, _, h₆) = >>-eq-ok (need_key rt m "expires_at_ms") _ h₅ in
      let (late, compared, h₇) =
        >>=-eq-ok (leb_value rt (get "expires_at_ms" m) (get "claimed_at_ms" m)) _ h₆ in
      (
        (
          m,
          need_dict-ok rt claim "Claimed state requires claim metadata" is_dict,
          require-ok _ _ token,
          require-ok _ _ adapter,
          compared ∙ ap ok (refuse-ok late _ h₇),
        ),
        is_none-null receipt (require-ok _ _ empty),
      )

  abbrev PhaseChecks : Value rt → Value rt → Value rt → Type 0
  PhaseChecks claim receipt said = check_phase rt said claim receipt ≡ ok tt

  passed :
      (claim receipt : Value rt)
      → ◌≡◌ {A = Result (Unit {0})}
          ((check_unclaimed rt claim receipt >> ok (tt {0})) >> ok (tt {0}))
          (ok tt)
      → (claim ≡ null) × (receipt ≡ null)
  passed claim receipt h =
      let (_, c, _) = >>-eq-ok (check_unclaimed rt claim receipt >> ok (tt {0})) _ h in
      let (_, b, _) = >>-eq-ok (check_unclaimed rt claim receipt) _ c in
      check_unclaimed-ok claim receipt b

  by_word :
      (d : Dict rt)
      → PhaseChecks (get "claim" d) (get "receipt" d) (get "state" d)
      → Said (get "state" d)
      → IsUnclaimed d ⊎ (IsClaimed d ⊎ IsDelivered d)
  unfolding check_phase
  by_word d h (inl word) = let (claim, receipt) = unclaimed word in inl (word, claim, receipt)
    where
      unclaimed :
          (get "state" d ≡ str "PENDING") ⊎ (get "state" d ≡ str "RETRYABLE")
          → (get "claim" d ≡ null) × (get "receipt" d ≡ null)
      unclaimed (inl e) =
          passed (get "claim" d) (get "receipt" d)
            (subst (PhaseChecks (get "claim" d) (get "receipt" d)) e h)
      unclaimed (inr e) =
          passed (get "claim" d) (get "receipt" d)
            (subst (PhaseChecks (get "claim" d) (get "receipt" d)) e h)
  by_word d h (inr (inl e)) =
      let k = subst (PhaseChecks (get "claim" d) (get "receipt" d)) e h in
      let (_, c, _) = >>-eq-ok (check_claimed rt (get "claim" d) (get "receipt" d)) _ k in
      let (claim, receipt) = check_claimed-ok (get "claim" d) (get "receipt" d) c in
      inr (inl (e, claim, receipt))
  by_word d h (inr (inr e)) =
      let k = subst (PhaseChecks (get "claim" d) (get "receipt" d)) e h in
      let (claim, receipt) = check_delivered-ok (get "claim" d) (get "receipt" d) k in
      inr (inr (e, claim, receipt))

  -- A state that `_validate_state` accepts grants no authority and is one of three: PENDING or RETRYABLE with
  -- neither claim nor receipt, CLAIMED with a claim that runs out after it was made and no receipt,
  -- or DELIVERED with a receipt that is not empty and no claim.
  pub validate_state-phases :
      (v : Value rt) {d : Dict rt}
      → validate_state rt v ≡ ok d
      → HasNoAuthority d × (IsUnclaimed d ⊎ (IsClaimed d ⊎ IsDelivered d))
  validate_state-phases v {d} h =
      let (_, checked) = validate_state-ok rt v h in
      let (terms, _, phase) = checked in
      let (said, powerless) = check_terms-ok d terms in (powerless, by_word d phase said)
