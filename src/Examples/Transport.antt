-- ===== src/Examples/Transport.antt =====
-- One event from PENDING to DELIVERED, and an outbox with one payload that is mirrored.
use crt_master.Base.{
  List, Option, String, [], false, none, ok, pos, refl, some, str_eq, true, ◌+ℤ◌, ◌∷◌, ◌≡◌, ◌⊎◌,
}
use crt_master.Json.{bool, end, field, int, null, obj, str}
use crt_master.Runtime.{Dict, Value, to_int}
use crt_master.Values.{leb_value}
use crt_master.Outbox.{
  Receipt, check_authority, check_privacy, check_stored, enqueue_bridge_payload, enqueue_key,
  file_of, link_file, read_existing, validate_bridge_payload,
}
use crt_master.Transport.{
  attempts_of, boundary_schema, check_claimed, check_hash, check_phase, check_terms,
  check_unclaimed, claim_delivery, new_claim, pending_state, refuse_live, seal_state,
  validate_state,
}
use crt_master.Transport.Shape.{
  HasNoAuthority, IsClaimed, IsDelivered, IsUnclaimed, validate_state-phases,
}
use crt_master.Transport.Moves.{
  Call, Moves, claim_call, deliver_call, done, idle, leased, perform, perform-Moves, phase_of, run,
}
use crt_master.Transport.Runs.{Ran, claims_won, run-Ran}
use crt_master.Transport.Hold.{run-foreign}
use crt_master.Transport.Deliver.{run-delivers}
use crt_master.Transport.Mirror.{
  Files, SyncResult, check_file, ensure_key, ensure_pending_boundary_state, insert_name,
  link_pending, persist_boundary_state, read_json, sorted_files, sync_file, sync_loop,
  sync_transport_boundary,
}
use crt_master.Transport.Ensure.{IsStateOf}
use crt_master.Transport.Twice.{sync, sync_transport_boundary-again}
use crt_master.Transport.Passed.{enqueue-sync, state_at}
use crt_master.Outbox.Twice.{enqueue}
use crt_master.Transport.Persist.{kept_at, persist_boundary_state-perform}
use crt_master.Examples.Toy.{digest_0}
use crt_master.Examples.Snapshot.{digests, digests-laws}
use crt_master.Examples.Outbox.{payload}

abbrev pending : Dict digests
pending = field "schema_version" (str boundary_schema) (
    field "state" (str "PENDING") (
      field "reason" (str "TRANSPORT_NOT_CONFIGURED") (
        field "event_id" (str digest_0) (
          field "bridge_payload_hash" (str digest_0) (
            field "attempt_count" (int (pos 0)) (
              field "claim" null (
                field "receipt" null (
                  field "adapter_selected" (bool false) (
                    field "production" (str "NOT_APPROVED") (
                      field "external_action_authority" (str "NONE") (
                        field "action_output" (str "NONE")
                          (field "boundary_state_hash" (str digest_0) end))))))))))))

pending-built : pending_state digests (digest_0, digest_0) ≡ pending
unfolding pending_state seal_state
pending-built = refl

pending-valid : validate_state digests (obj pending) ≡ ok pending
unfolding validate_state check_terms check_hash check_phase check_unclaimed
pending-valid = refl

abbrev a_claim : Call digests
a_claim = claim_call "token" (str " worker ") (pos 1000) (pos 500) true

abbrev a_receipt : Value digests
a_receipt = obj (field "status" (str "ok") end)

abbrev claimed : Dict digests
claimed = field "schema_version" (str boundary_schema) (
    field "state" (str "CLAIMED") (
      field "reason" (str "ADAPTER_CLAIMED") (
        field "event_id" (str digest_0) (
          field "bridge_payload_hash" (str digest_0) (
            field "attempt_count" (int (pos 1)) (
              field "claim" (obj (new_claim digests "token" "worker" (pos 1000) (pos 500))) (
                field "receipt" null (
                  field "adapter_selected" (bool true) (
                    field "production" (str "NOT_APPROVED") (
                      field "external_action_authority" (str "NONE") (
                        field "action_output" (str "NONE")
                          (field "boundary_state_hash" (str digest_0) end))))))))))))

claim-performed : perform digests pending a_claim ≡ ok claimed
unfolding perform claim_delivery refuse_live attempts_of to_int seal_state validate_state
    check_terms check_hash check_phase check_claimed check_unclaimed leb_value ◌+ℤ◌
claim-performed = refl

validate_state-phases_example :
    HasNoAuthority digests pending
    × (IsUnclaimed digests pending ⊎ (IsClaimed digests pending ⊎ IsDelivered digests pending))
validate_state-phases_example = validate_state-phases digests (obj pending) pending-valid

perform-Moves_example :
    Moves digests idle a_claim (leased (str "token") (int (pos 1000 +ℤ pos 500)))
perform-Moves_example = perform-Moves digests pending a_claim claim-performed

abbrev some_calls : List (Call digests)
some_calls = a_claim ∷ deliver_call "other" a_receipt ∷ deliver_call "token" a_receipt ∷ []

run-Ran_example :
    Ran digests pending (claims_won digests pending some_calls) (run digests pending some_calls)
run-Ran_example = run-Ran digests pending some_calls pending-valid

run-foreign_example :
    run digests claimed
      (deliver_call "other" a_receipt ∷ claim_call "next" (str "b") (pos 1200) (pos 9) true ∷ [])
    ≡ claimed
unfolding ◌+ℤ◌
run-foreign_example =
    run-foreign digests claimed
      (deliver_call "other" a_receipt ∷ claim_call "next" (str "b") (pos 1200) (pos 9) true ∷ [])
      "token" (pos 1500) refl (refl, (refl, tt))

run-delivers_example :
    phase_of digests (run digests pending (a_claim ∷ deliver_call "token" a_receipt ∷ []))
    ≡ done a_receipt
run-delivers_example =
    run-delivers digests digests-laws pending "token" " worker " (pos 1000) (pos 500) (pos 0)
      a_receipt pending-valid refl (λ h. absurd (differ h)) refl refl refl refl
  where
    differ : false ≡ true → ⊥
    differ h = cc

abbrev same : Value digests → Value digests
same v = v

abbrev FilesHere : Type 0
FilesHere = Files digests (Value digests) same some

abbrev outbox : FilesHere
outbox = (digest_0, payload) ∷ []

abbrev nobody : String → Option (Value digests)
nobody name = none

abbrev mirrored : FilesHere
mirrored = (digest_0, obj pending) ∷ []

abbrev synced : SyncResult digests
synced = record {
  created = 1;
  existing = 0;
  events =
      record {
        state = "BOUNDARY_PENDING_CREATED";
        event_id = digest_0;
        bridge_payload_hash = digest_0;
        delivery_state = str "PENDING";
      }
      ∷ [];
}

outbox-synced : sync digests (Value digests) same some outbox [] nobody ≡ (mirrored, ok synced)
unfolding sync_transport_boundary sync_loop sorted_files insert_name sync_file
    ensure_pending_boundary_state ensure_key link_pending check_file read_json file_of
    validate_bridge_payload check_authority check_privacy pending_state seal_state validate_state
    check_terms check_hash check_phase check_unclaimed
outbox-synced = refl

sync_transport_boundary-again_example :
    (s' : SyncResult digests) × (sync digests (Value digests) same some outbox mirrored nobody
      ≡ (mirrored, ok s'))
    × (s'.created ≡ 0)
    × (s'.existing ≡ 1)
sync_transport_boundary-again_example =
    sync_transport_boundary-again digests (Value digests) same some outbox [] nobody nobody mirrored
      synced outbox-synced

abbrev placed : Receipt
placed = record { state = "OUTBOX_ENQUEUED"; event_id = digest_0; bridge_payload_hash = digest_0 }

payload-placed : enqueue digests (Value digests) same some [] payload none ≡ (outbox, ok placed)
unfolding enqueue_bridge_payload enqueue_key link_file check_stored read_existing
    validate_bridge_payload check_authority check_privacy file_of
payload-placed = refl

enqueue-sync_example :
    (text : Value digests) × (state_at digests (Value digests) same some mirrored digest_0
      ≡ some text)
    × IsStateOf digests (Value digests) same some (digest_0, digest_0) text
enqueue-sync_example =
    enqueue-sync digests (Value digests) same some [] payload none outbox placed [] nobody mirrored
      synced payload-placed outbox-synced

persist_boundary_state-perform_example :
    (files : FilesHere) × (persist_boundary_state digests (Value digests) same some mirrored claimed
      ≡ (files, ok tt))
    × ((text : Value digests) × (kept_at digests (Value digests) same some files digest_0
          ≡ some text)
        × IsStateOf digests (Value digests) same some (digest_0, digest_0) text)
    × ((other : String)
        → str_eq digest_0 other ≡ false
        → kept_at digests (Value digests) same some files other
          ≡ kept_at digests (Value digests) same some mirrored other)
persist_boundary_state-perform_example =
    persist_boundary_state-perform digests (Value digests) same some mirrored (digest_0, digest_0)
      pending claimed a_claim (λ v. refl) refl refl claim-performed
