-- ===== src/Transport/Sealed.antt =====
-- What `_validate_state` checks, and which states it accepts once `_seal_state` has sealed them
-- (gpt_transport_boundary.py).
use crt_master.Base.{
  >>-eq-ok, >>=-eq-ok, String, ap, false, ok, ok-injective, refl, str_eq, str_eq_refl, subst, ◌>>◌,
  ◌∙◌, ◌≡◌,
}
use crt_master.Json.{get, obj, str, without}
use crt_master.Json.Laws.{get-put, get-without, has-without, without-put}
use crt_master.Runtime.{Dict, Runtime, Value}
use crt_master.Outbox.{need_dict}
use crt_master.Outbox.Enqueue.{need_dict-ok}
use crt_master.Transport.{
  check_hash, check_phase, check_terms, is_state, seal_state, sealed, validate_state,
}
use crt_master.Liquidation.Built.{HashLaws}

module _ (rt : Runtime) where
  open rt use {hash}

  abbrev pub Checked : Dict rt → Type 0
  Checked d =
      (check_terms rt d ≡ ok tt)
      × (check_hash rt d ≡ ok tt)
      × (check_phase rt (get "state" d) (get "claim" d) (get "receipt" d) ≡ ok tt)

  checks_passed :
      (state : Dict rt) {d : Dict rt}
      → (check_terms rt state
          >> (check_hash rt state
              >> (check_phase rt (get "state" state) (get "claim" state) (get "receipt" state)
                  >> ok state)))
        ≡ ok d
      → (state ≡ d) × Checked state
  checks_passed state h =
      let (_, terms, h₁) = >>-eq-ok (check_terms rt state) _ h in
      let (_, hashed, h₂) = >>-eq-ok (check_hash rt state) _ h₁ in
      let (_, phase, h₃) =
        >>-eq-ok (check_phase rt (get "state" state) (get "claim" state) (get "receipt" state)) _
          h₂ in
      (ok-injective h₃, (terms, hashed, phase))

  -- What `validate_state` found out about a state that it returned.
  pub validate_state-ok :
      (v : Value rt) {d : Dict rt} → validate_state rt v ≡ ok d → (v ≡ obj d) × Checked d
  unfolding validate_state
  validate_state-ok v {d} h =
      let (state, is_dict, h₁) =
        >>=-eq-ok (need_dict rt v "Transport boundary state must be an object") _ h in
      let (same, checked) = checks_passed state h₁ in
      (
        need_dict-ok rt v "Transport boundary state must be an object" is_dict ∙ ap obj same,
        subst Checked same checked,
      )

  pub validate_state-at : (d : Dict rt) → Checked d → validate_state rt (obj d) ≡ ok d
  unfolding validate_state
  validate_state-at d (terms, hashed, phase) = rw (terms, hashed, phase) refl

  pub get-seal_state :
      (k : String) (d : Dict rt)
      → str_eq "boundary_state_hash" k ≡ false
      → get k (seal_state rt d) ≡ get k d
  unfolding seal_state
  get-seal_state k d h =
      get-put "boundary_state_hash" k _ (without "boundary_state_hash" d)
      ∙ rw h (get-without "boundary_state_hash" k d h)

  check_hash-seal_state :
      (laws : HashLaws rt) (d : Dict rt) → check_hash rt (seal_state rt d) ≡ ok tt
  unfolding check_hash seal_state
  check_hash-seal_state laws d =
      let u = without "boundary_state_hash" d in
      let v : Value rt = str (hash (obj u)) in
      rw
        (
          get-put "boundary_state_hash" "boundary_state_hash" v u,
          without-put "boundary_state_hash" v u (has-without "boundary_state_hash" d),
          laws.digits (obj u),
          str_eq_refl (hash (obj u)),
        )
        refl

  pub check_terms-gets :
      (d e : Dict rt)
      → get "schema_version" d ≡ get "schema_version" e
      → is_state rt (get "state" d) ≡ is_state rt (get "state" e)
      → get "event_id" d ≡ get "event_id" e
      → get "bridge_payload_hash" d ≡ get "bridge_payload_hash" e
      → get "production" d ≡ get "production" e
      → get "external_action_authority" d ≡ get "external_action_authority" e
      → get "action_output" d ≡ get "action_output" e
      → check_terms rt d ≡ check_terms rt e
  unfolding check_terms
  check_terms-gets d e a b c f g i j = rw (a, b, c, f, g, i, j) refl

  check_terms-seal_state : (d : Dict rt) → check_terms rt (seal_state rt d) ≡ check_terms rt d
  check_terms-seal_state d =
      check_terms-gets (seal_state rt d) d (get-seal_state "schema_version" d refl)
        (ap (is_state rt) (get-seal_state "state" d refl)) (get-seal_state "event_id" d refl)
        (get-seal_state "bridge_payload_hash" d refl) (get-seal_state "production" d refl)
        (get-seal_state "external_action_authority" d refl) (get-seal_state "action_output" d refl)

  -- Sealing a state whose terms and phase are right makes it valid.
  pub sealed-at :
      (laws : HashLaws rt) (d : Dict rt)
      → check_terms rt d ≡ ok tt
      → check_phase rt (get "state" d) (get "claim" d) (get "receipt" d) ≡ ok tt
      → sealed rt d ≡ ok (seal_state rt d)
  sealed-at laws d terms phase = validate_state-at (seal_state rt d) (
    check_terms-seal_state d ∙ terms,
    check_hash-seal_state laws d,
    rw
        (
          get-seal_state "state" d refl,
          get-seal_state "claim" d refl,
          get-seal_state "receipt" d refl,
        )
        phase,
  )
