-- ===== src/Examples/Outbox.antt =====
-- A payload that is placed in an empty outbox.
use crt_master.Base.{[], false, none, ok, refl, some, ◌∷◌, ◌≡◌}
use crt_master.Json.{bool, end, field, obj, str}
use crt_master.Runtime.{Value}
use crt_master.Outbox.{
  Outbox, Receipt, check_authority, check_privacy, check_stored, enqueue_bridge_payload,
  enqueue_key, file_of, link_file, read_existing, validate_bridge_payload,
}
use crt_master.Outbox.Enqueue.{IsStored}
use crt_master.Outbox.Twice.{
  enqueue, enqueue_bridge_payload-IsStored, enqueue_bridge_payload-again, in_box,
}
use crt_master.Examples.Toy.{digest_0, toy}

abbrev pub payload : Value toy
payload = obj (
    field "schema_version" (str "CRT_MINIMIZED_BRIDGE_PAYLOAD_V0.1") (
      field "privacy_contract_version" (str "CRT_BRIDGE_PAYLOAD_PRIVACY_CONTRACT_V0.1") (
        field "state" (str "BRIDGE_PAYLOAD_READY_LOCAL_ONLY") (
          field "event" (obj (field "event_id" (str digest_0) end)) (
            field "bridge_payload_hash" (str digest_0) (
              field "authority"
                (obj (
                  field "production" (str "NOT_APPROVED") (
                    field "trading_authority" (str "NONE") (
                      field "external_action_authority" (str "NONE") (
                        field "external_action_performed" (bool false) (
                          field "transport_authority" (str "NONE") (
                            field "transport_performed" (bool false)
                              (field "action_output" (str "NONE") end))))))))
                (field "privacy"
                  (obj (
                    field "mode" (str "MINIMIZED_ALLOWLIST_ONLY") (
                      field "raw_private_context_included" (bool false) (
                        field "full_private_profile_included" (bool false) (
                          field "filesystem_paths_included" (bool false) (
                            field "broker_or_account_identifiers_included" (bool false) (
                              field "credentials_or_secrets_included" (bool false)
                                (field "transport_selected" (bool false) end))))))))
                  end)))))))

abbrev same : Value toy → Value toy
same v = v

abbrev box : Outbox toy (Value toy) same some
box = []

abbrev one_file : Outbox toy (Value toy) same some
one_file = (digest_0, payload) ∷ []

abbrev receipt : Receipt
receipt = record { state = "OUTBOX_ENQUEUED"; event_id = digest_0; bridge_payload_hash = digest_0 }

payload-enqueued : enqueue toy (Value toy) same some box payload none ≡ (one_file, ok receipt)
unfolding enqueue_bridge_payload enqueue_key link_file check_stored read_existing
    validate_bridge_payload check_authority check_privacy file_of
payload-enqueued = refl

enqueue_bridge_payload-IsStored_example :
    (validate_bridge_payload toy payload ≡ ok (digest_0, digest_0))
    × ((text : Value toy) × (in_box toy (Value toy) same some one_file digest_0 ≡ some text)
        × IsStored toy (Value toy) same some text (digest_0, digest_0))
enqueue_bridge_payload-IsStored_example =
    enqueue_bridge_payload-IsStored toy (Value toy) same some box payload none one_file receipt
      payload-enqueued

enqueue_bridge_payload-again_example :
    enqueue toy (Value toy) same some one_file payload none
    ≡ (one_file, ok (record receipt { state = "DUPLICATE_SKIPPED" }))
enqueue_bridge_payload-again_example =
    enqueue_bridge_payload-again toy (Value toy) same some box payload none one_file receipt none
      payload-enqueued
