-- ===== src/Transport.antt =====
-- radar/src/crt_radar/gpt_transport_boundary.py: the state of one event's delivery, its validation, and
-- the three transitions. The fresh `secrets.token_hex(32)` of a claim is an argument, `token`.
pub mod Sealed
pub mod Shape
pub mod Written
pub mod Calls
pub mod Moves
pub mod Runs
pub mod Hold
pub mod Deliver
pub mod Mirror
pub mod Ensure
pub mod Synced
pub mod Twice
pub mod Passed
pub mod Persist
use Prim.Native.String.{count, ◌++◌ as append_text}
use crt_master.Base.{
  Bool, Result, String, [], err, false, if◌then◌else◌, leb_ℤ, ok, pos, refuse, require, str_eq,
  true, type_error, value_error, ℤ, ◌+ℤ◌, ◌==◌, ◌>>=◌, ◌>>◌, ◌||◌, ◌∷◌,
}
use crt_master.Json.{
  arr, bool, contains, end, field, get, has, int, is_none, is_str, null, obj, put, str, without,
}
use crt_master.Texts.{strip, strips_empty}
use crt_master.Runtime.{Dict, Runtime, Value, to_int}
use crt_master.Values.{int_ltb, leb_value}
use crt_master.Outbox.{need_dict}

abbrev pub boundary_schema : String
boundary_schema = "CRT_GPT_TRANSPORT_BOUNDARY_V0.1"

module _ (rt : Runtime) where
  open rt use {hash}

  -- _seal_state
  unfoldable pub seal_state : Dict rt → Dict rt
  seal_state state =
      let unhashed = without "boundary_state_hash" state in
      put "boundary_state_hash" (str (hash (obj unhashed))) unhashed

  -- `delivery_state not in VALID_STATES`, which a list or a dictionary cannot be asked.
  abbrev pub is_state : Value rt → Result Bool
  is_state (str s) = ok (contains s ("PENDING" ∷ "CLAIMED" ∷ "RETRYABLE" ∷ "DELIVERED" ∷ []))
  is_state (arr xs) = err (type_error "unhashable type: 'list'")
  is_state (obj d) = err (type_error "unhashable type: 'dict'")
  is_state v = ok false

  -- A text of 64 characters.
  abbrev pub need_text64 : Value rt → String → Result String
  need_text64 (str s) text = if count s == 64 then ok s else err (value_error text)
  need_text64 v text = err (value_error text)

  -- The checks of `_validate_state` in front of the hash.
  unfoldable pub check_terms : Dict rt → Result (Unit {0})
  check_terms state = do
    require (is_str (get "schema_version" state) boundary_schema)
        (value_error "Transport boundary schema mismatch")
    known ← is_state (get "state" state)
    require known (value_error "Transport boundary state is invalid")
    need_text64 (get "event_id" state) "Transport boundary event_id is invalid"
    need_text64 (get "bridge_payload_hash" state) "Transport boundary payload hash is invalid"
    require (is_str (get "production" state) "NOT_APPROVED")
        (value_error "Production approval must remain NOT_APPROVED")
    require (is_str (get "external_action_authority" state) "NONE")
        (value_error "External Action Authority must remain NONE")
    require (is_str (get "action_output" state) "NONE")
        (value_error "Action output must remain NONE")

  unfoldable pub check_hash : Dict rt → Result (Unit {0})
  check_hash state = do
    expected ←
        need_text64 (get "boundary_state_hash" state) "Transport boundary state hash unavailable"
    require (str_eq (hash (obj (without "boundary_state_hash" state))) expected)
        (value_error "Transport boundary state hash mismatch")

  abbrev pub need_key : Dict rt → String → Result (Unit {0})
  need_key claim key =
      require (has key claim) (value_error (append_text "Claim metadata missing " key))

  unfoldable pub check_unclaimed : Value rt → Value rt → Result (Unit {0})
  check_unclaimed claim receipt = do
    require (is_none claim) (value_error "Unclaimed state must not retain a claim")
    require (is_none receipt) (value_error "Undelivered state must not retain a receipt")

  unfoldable pub check_claimed : Value rt → Value rt → Result (Unit {0})
  check_claimed claim receipt = do
    metadata ← need_dict rt claim "Claimed state requires claim metadata"
    require (is_none receipt) (value_error "Claimed state must not retain a receipt")
    need_key metadata "claim_token"
    need_key metadata "adapter_id"
    need_key metadata "claimed_at_ms"
    need_key metadata "expires_at_ms"
    late ← leb_value rt (get "expires_at_ms" metadata) (get "claimed_at_ms" metadata)
    refuse late (value_error "Claim expiry must be after claim time")

  -- A dictionary with a key.
  abbrev pub is_filled : Value rt → Bool
  is_filled (obj end) = false
  is_filled (obj (field k v rest)) = true
  is_filled v = false

  unfoldable pub check_delivered : Value rt → Value rt → Result (Unit {0})
  check_delivered claim receipt = do
    require (is_none claim) (value_error "Delivered state must clear claim metadata")
    require (is_filled receipt) (value_error "Delivered state requires a receipt")

  -- What the state says of its claim and its receipt.
  unfoldable pub check_phase : Value rt → Value rt → Value rt → Result (Unit {0})
  check_phase said claim receipt =
      (if is_str said "PENDING" || is_str said "RETRYABLE"
        then check_unclaimed claim receipt
        else ok tt)
      >> (if is_str said "CLAIMED" then check_claimed claim receipt else ok tt)
      >> (if is_str said "DELIVERED" then check_delivered claim receipt else ok tt)

  -- _validate_state
  unfoldable pub validate_state : Value rt → Result (Dict rt)
  validate_state value = do
    state ← need_dict rt value "Transport boundary state must be an object"
    check_terms state
    check_hash state
    check_phase (get "state" state) (get "claim" state) (get "receipt" state)
    ok state

  -- `build_pending_state` of a payload with this event and hash.
  unfoldable pub pending_state : String × String → Dict rt
  pending_state (event_id, payload_hash) = seal_state (
      field "schema_version" (str boundary_schema) (
        field "state" (str "PENDING") (
          field "reason" (str "TRANSPORT_NOT_CONFIGURED") (
            field "event_id" (str event_id) (
              field "bridge_payload_hash" (str payload_hash) (
                field "attempt_count" (int (pos 0)) (
                  field "claim" null (
                    field "receipt" null (
                      field "adapter_selected" (bool false) (
                        field "production" (str "NOT_APPROVED") (
                          field "external_action_authority" (str "NONE")
                            (field "action_output" (str "NONE") end))))))))))))

  -- A text that is more than white space; what comes back is stripped.
  abbrev pub need_words : Value rt → String → Result String
  need_words (str s) text = if strips_empty s then err (value_error text) else ok (strip s)
  need_words v text = err (value_error text)

  -- The fields of `{**state, …}` that each transition writes: the first two, and the last three.
  abbrev pub renamed : String → String → Dict rt → Dict rt
  renamed name reason state = put "reason" (str reason) (put "state" (str name) state)

  abbrev pub settled : Value rt → Value rt → Bool → Dict rt → Dict rt
  settled claim receipt selected state =
      put "adapter_selected" (bool selected) (put "receipt" receipt (put "claim" claim state))

  -- `_validate_state(_seal_state(state))`
  abbrev pub sealed : Dict rt → Result (Dict rt)
  sealed state = validate_state (obj (seal_state state))

  -- `int(current.get("attempt_count", 0))`
  unfoldable pub attempts_of : Dict rt → Result ℤ
  attempts_of state =
      if has "attempt_count" state then to_int rt (get "attempt_count" state) else ok (pos 0)

  abbrev pub new_claim : String → String → ℤ → ℤ → Dict rt
  new_claim token adapter now lease = field "claim_token" (str token) (
      field "adapter_id" (str adapter)
        (field "claimed_at_ms" (int now) (field "expires_at_ms" (int (now +ℤ lease)) end)))

  abbrev pub expiry_of : Value rt → Value rt
  expiry_of (obj claim) = get "expires_at_ms" claim
  expiry_of v = null

  -- A claim that has not run out refuses the next.
  unfoldable pub refuse_live : Dict rt → ℤ → Result (Unit {0})
  refuse_live state now = elim (is_str (get "state" state) "CLAIMED") [
    | false ↦ ok tt
    | true ↦ int_ltb rt now (expiry_of (get "claim" state)) >>= λ live.
        refuse live (value_error "Transport boundary event is already claimed")
  ]

  unfoldable pub claim_delivery : String → Dict rt → Value rt → ℤ → ℤ → Bool → Result (Dict rt)
  claim_delivery token state adapter_id now_ms lease_ms adapter_selected = do
    current ← validate_state (obj state)
    require adapter_selected (value_error "Transport adapter is not selected")
    adapter ← need_words adapter_id "Adapter id is required"
    refuse (leb_ℤ lease_ms (pos 0)) (value_error "Claim lease must be positive")
    refuse (is_str (get "state" current) "DELIVERED")
        (value_error "Delivered event cannot be claimed again")
    refuse_live current now_ms
    attempts ← attempts_of current
    sealed (
        settled (obj (new_claim token adapter now_ms lease_ms)) null true (
          put "attempt_count" (int (attempts +ℤ pos 1))
            (renamed "CLAIMED" "ADAPTER_CLAIMED" current)))

  abbrev pub token_of : Value rt → Value rt
  token_of (obj claim) = get "claim_token" claim
  token_of v = null

  -- The guards that the two ends of a claim share.
  unfoldable pub need_claim : Dict rt → String → String → Result (Unit {0})
  need_claim current claim_token text = do
    require (is_str (get "state" current) "CLAIMED") (value_error text)
    require (is_str (token_of (get "claim" current)) claim_token)
        (value_error "Claim token mismatch")

  unfoldable pub mark_retryable : Dict rt → String → Value rt → Result (Dict rt)
  mark_retryable state claim_token reason = do
    current ← validate_state (obj state)
    need_claim current claim_token "Only a claimed event can become retryable"
    words ← need_words reason "Retry reason is required"
    sealed (settled null null false (renamed "RETRYABLE" words current))

  unfoldable pub mark_delivered : Dict rt → String → Value rt → Result (Dict rt)
  mark_delivered state claim_token receipt = do
    current ← validate_state (obj state)
    need_claim current claim_token "Only a claimed event can become delivered"
    require (is_filled receipt) (value_error "Delivery receipt is required")
    sealed (settled null receipt true (renamed "DELIVERED" "DELIVERY_RECEIPT_RECORDED" current))
