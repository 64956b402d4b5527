-- ===== src/Outbox.antt =====
-- radar/src/crt_radar/gpt_bridge_outbox.py: the directory of bridge payloads, one file for an event.
-- The directory is its file names, without `.json`, with their texts; `pretty` is the text that
-- `json.dump(…, indent=2)` writes, `parse` is `json.loads`. A file that another process links between
-- the test `target.exists()` and `os.link` is an argument, `appeared`.
pub mod Enqueue
pub mod Twice
use Prim.Native.Char.{Char, code}
use Prim.Native.String.{count}
use crt_master.Base.{
  Bool, List, Option, Result, String, [], err, if◌then◌else◌, leb, must_remain, none, of_option, ok,
  pos, require, some, str_eq, true, value_error, ◌&&◌, ◌==◌, ◌>>=◌, ◌>>◌, ◌||◌, ◌∷◌,
}
use crt_master.Json.{get, is_str, obj, str, without}
use crt_master.Runtime.{Dict, Runtime, Value, equals_int}

-- `[0-9a-f]`
abbrev pub is_hex : Char → Bool
is_hex c = (leb 48 (code c) && leb (code c) 57) || (leb 97 (code c) && leb (code c) 102)

abbrev pub all_hex : String → Bool
all_hex String.[] = true
all_hex (String.◌∷◌ c s) = is_hex c && all_hex s

-- `_HEX64.fullmatch(s) is not None`
abbrev pub is_hex64 : String → Bool
is_hex64 s = count s == 64 && all_hex s

-- What the call returns beside the schema version.
pub record Receipt : Type 0 where
  pub state : String
  pub event_id : String
  pub bridge_payload_hash : String

module _ (rt : Runtime) where
  open rt use {hash}

  abbrev pub need_dict : Value rt → String → Result (Dict rt)
  need_dict (obj d) text = ok d
  need_dict v text = err (value_error text)

  abbrev pub need_hex64 : Value rt → String → Result String
  need_hex64 (str s) text = if is_hex64 s then ok s else err (value_error text)
  need_hex64 v text = err (value_error text)

  abbrev pub need_text : String → String → Dict rt → Result (Unit {0})
  need_text key expected d = require (is_str (get key d) expected) (must_remain key)

  -- `d.get(key) != False`, which 0 and 0.0 pass too.
  abbrev pub need_false : String → Dict rt → Result (Unit {0})
  need_false key d = require (equals_int rt (get key d) (pos 0)) (must_remain key)

  -- The loop over `required_authority`.
  unfoldable pub check_authority : Dict rt → Result (Unit {0})
  check_authority d = do
    need_text "production" "NOT_APPROVED" d
    need_text "trading_authority" "NONE" d
    need_text "external_action_authority" "NONE" d
    need_false "external_action_performed" d
    need_text "transport_authority" "NONE" d
    need_false "transport_performed" d
    need_text "action_output" "NONE" d

  -- The loop over `required_privacy`.
  unfoldable pub check_privacy : Dict rt → Result (Unit {0})
  check_privacy d = do
    need_text "mode" "MINIMIZED_ALLOWLIST_ONLY" d
    need_false "raw_private_context_included" d
    need_false "full_private_profile_included" d
    need_false "filesystem_paths_included" d
    need_false "broker_or_account_identifiers_included" d
    need_false "credentials_or_secrets_included" d
    need_false "transport_selected" d

  -- _validate_bridge_payload
  unfoldable pub validate_bridge_payload : Value rt → Result (String × String)
  validate_bridge_payload value = do
    payload ← need_dict value "Bridge payload must be an object"
    require (is_str (get "schema_version" payload) "CRT_MINIMIZED_BRIDGE_PAYLOAD_V0.1")
        (value_error "Bridge payload schema mismatch")
    require
        (is_str (get "privacy_contract_version" payload) "CRT_BRIDGE_PAYLOAD_PRIVACY_CONTRACT_V0.1")
        (value_error "Bridge privacy contract mismatch")
    require (is_str (get "state" payload) "BRIDGE_PAYLOAD_READY_LOCAL_ONLY")
        (value_error "Bridge payload is not local-only ready")
    event ← need_dict (get "event" payload) "Bridge event unavailable"
    event_id ← need_hex64 (get "event_id" event) "Bridge event_id must be a 64-char hex hash"
    payload_hash ← need_hex64 (get "bridge_payload_hash" payload) "Bridge payload hash unavailable"
    require (str_eq (hash (obj (without "bridge_payload_hash" payload))) payload_hash)
        (value_error "Bridge payload hash mismatch")
    authority ← need_dict (get "authority" payload) "Bridge authority unavailable"
    check_authority authority
    privacy ← need_dict (get "privacy" payload) "Bridge privacy metadata unavailable"
    check_privacy privacy
    ok (event_id, payload_hash)

  module _ (Text : Type 0) (pretty : Value rt → Text) (parse : Text → Option (Value rt)) where
    abbrev pub Outbox : Type 0
    Outbox = List (String × Text)

    unfoldable pub file_of : String → Outbox → Option Text
    file_of name [] = none
    file_of name ((n, text) ∷ rest) = if str_eq n name then some text else file_of name rest

    -- _read_existing
    unfoldable pub read_existing : Text → Result (Dict rt)
    read_existing text = do
      value ← of_option (parse text) (value_error "Existing bridge outbox record is unreadable")
      need_dict value "Existing bridge outbox record is not an object"

    -- The file that is there must be of the same event and payload; the two texts are those of the
    -- errors if it is not.
    unfoldable pub check_existing : String → String → Text → String × String → Result Receipt
    check_existing other_event conflict text (event_id, payload_hash) = do
      existing ← read_existing text
      (existing_id, existing_hash) ← validate_bridge_payload (obj existing)
      require (str_eq existing_id event_id) (value_error other_event)
      require (str_eq existing_hash payload_hash) (value_error conflict)
      ok (record {
        state = "DUPLICATE_SKIPPED";
        event_id = event_id;
        bridge_payload_hash = payload_hash;
      })

    -- The reading after the link.
    unfoldable pub check_stored : Text → String × String → Result Receipt
    check_stored text (event_id, payload_hash) = do
      stored ← read_existing text
      (stored_id, stored_hash) ← validate_bridge_payload (obj stored)
      require (str_eq stored_id event_id && str_eq stored_hash payload_hash)
          (value_error "Bridge outbox post-write validation failed")
      ok (record {
        state = "OUTBOX_ENQUEUED";
        event_id = event_id;
        bridge_payload_hash = payload_hash;
      })

    -- `os.link`, which fails if the name is taken by then.
    unfoldable pub link_file :
        Outbox → Value rt → String × String → Option Text → Outbox × Result Receipt
    link_file box payload key none =
        ((key.0, pretty payload) ∷ box, check_stored (pretty payload) key)
    link_file box payload key (some text) = (
      (key.0, text) ∷ box,
      check_existing "Concurrent outbox event identity mismatch" "Concurrent outbox event conflict"
          text key,
    )

    unfoldable pub enqueue_key :
        Outbox → Value rt → String × String → Option Text → Outbox × Result Receipt
    enqueue_key box payload key appeared = elim (file_of key.0 box) [
      | some text ↦ (
        box,
        check_existing "Existing outbox event identity mismatch"
            "Existing outbox event conflicts with new bridge payload" text key,
      )
      | none ↦ link_file box payload key appeared
    ]

    unfoldable pub enqueue_bridge_payload :
        Outbox → Value rt → Option Text → Outbox × Result Receipt
    enqueue_bridge_payload box payload appeared = elim (validate_bridge_payload payload) [
      | err e ↦ (box, err e)
      | ok key ↦ enqueue_key box payload key appeared
    ]
