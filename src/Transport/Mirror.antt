-- ===== src/Transport/Mirror.antt =====
-- radar/src/crt_radar/gpt_transport_boundary.py, `ensure_pending_boundary_state` and
-- `sync_transport_boundary`: a PENDING state for each event of the outbox. A directory is its file
-- names, without `.json`, with their texts; a file that another process links between the test
-- `target.exists()` and `os.link` is an argument.
use Prim.Native.String.{◌++◌ as append_text}
use crt_master.Base.{
  Bool, List, Option, Result, String, [], err, false, if◌then◌else◌, none, of_option, ok, require,
  some, str_eq, suc, true, value_error, ℕ, ◌++◌, ◌>>=◌, ◌>>◌, ◌∷◌,
}
use crt_master.Json.{get, is_str, obj}
use crt_master.Texts.{text_leb}
use crt_master.Runtime.{Dict, Runtime, Value, to_str}
use crt_master.Outbox.{file_of, need_dict, validate_bridge_payload}
use crt_master.Transport.{pending_state, validate_state}

module _ (rt : Runtime) where
  -- What `ensure_pending_boundary_state` returns.
  pub record Mirrored : Type 0 where
    pub state : String
    pub event_id : String
    pub bridge_payload_hash : String
    pub delivery_state : Value rt

  -- What the loop of `sync_transport_boundary` counts and collects.
  pub record SyncResult : Type 0 where
    pub created : ℕ
    pub existing : ℕ
    pub events : List Mirrored

  abbrev pub none_synced : SyncResult
  none_synced = record { created = 0; existing = 0; events = [] }

  abbrev pub count_in : Mirrored → SyncResult → SyncResult
  count_in result so_far = record {
    created =
        if str_eq result.state "BOUNDARY_PENDING_CREATED"
        then suc so_far.created
        else so_far.created;
    existing =
        if str_eq result.state "BOUNDARY_PENDING_CREATED"
        then so_far.existing
        else suc so_far.existing;
    events = so_far.events ++ (result ∷ []);
  }

module _ (rt : Runtime) (Text : Type 0) (pretty : Value rt → Text)
    (parse : Text → Option (Value rt)) where
  abbrev pub Files : Type 0
  Files = List (String × Text)

  -- _read_json
  unfoldable pub read_json : Text → Result (Dict rt)
  read_json text = do
    value ← of_option (parse text) (value_error "Unreadable JSON record")
    need_dict rt value "JSON record is not an object"

  -- The file that is there must be a valid state of the same event and payload; the texts are those of
  -- the errors.
  unfoldable pub check_file :
      String → String → String → Text → String × String → Result (Mirrored rt)
  check_file answer other_event conflict text (event_id, payload_hash) = do
    value ← read_json text
    existing ← validate_state rt (obj value)
    require (is_str (get "event_id" existing) event_id) (value_error other_event)
    require (is_str (get "bridge_payload_hash" existing) payload_hash) (value_error conflict)
    ok (record {
      state = answer;
      event_id = event_id;
      bridge_payload_hash = payload_hash;
      delivery_state = get "state" existing;
    })

  -- `_write_no_clobber`, whose `os.link` fails if the name is taken by then, and what follows it.
  unfoldable pub link_pending : Files → String × String → Option Text → Files × Result (Mirrored rt)
  link_pending files key none =
      let text = pretty (obj (pending_state rt key)) in
      (
        (key.0, text) ∷ files,
        check_file "BOUNDARY_PENDING_CREATED" "Boundary post-write identity mismatch"
            "Boundary post-write payload hash mismatch" text key,
      )
  link_pending files key (some text) = (
    (key.0, text) ∷ files,
    check_file "BOUNDARY_EXISTS" "Concurrent boundary event identity mismatch"
        "Concurrent boundary event conflict" text key,
  )

  unfoldable pub ensure_key : Files → String × String → Option Text → Files × Result (Mirrored rt)
  ensure_key files key appeared = elim (file_of rt Text pretty parse key.0 files) [
    | some text ↦ (
      files,
      check_file "BOUNDARY_EXISTS" "Existing boundary event identity mismatch"
          "Existing boundary event conflicts with outbox payload" text key,
    )
    | none ↦ link_pending files key appeared
  ]

  unfoldable pub ensure_pending_boundary_state :
      Files → Value rt → Option Text → Files × Result (Mirrored rt)
  ensure_pending_boundary_state files payload appeared = elim (validate_bridge_payload rt payload) [
    | err e ↦ (files, err e)
    | ok key ↦ ensure_key files key appeared
  ]

  -- `os.replace` onto a name.
  unfoldable pub replace_file : String → Text → Files → Files
  replace_file name text [] = (name, text) ∷ []
  replace_file name text ((n, t) ∷ rest) = elim (str_eq n name) [
    | true ↦ (n, text) ∷ rest
    | false ↦ (n, t) ∷ replace_file name text rest
  ]

  unfoldable pub persist_boundary_state : Files → Dict rt → Files × Result (Unit {0})
  persist_boundary_state files state = elim (validate_state rt (obj state)) [
    | err e ↦ (files, err e)
    | ok valid ↦ (replace_file (to_str rt (get "event_id" valid)) (pretty (obj valid)) files, ok tt)
  ]

  -- The order of `sorted(outbox_root.glob("*.json"))`.
  abbrev pub name_leb : String × Text → String × Text → Bool
  name_leb a b = text_leb (append_text a.0 ".json") (append_text b.0 ".json")

  unfoldable pub insert_name : String × Text → Files → Files
  insert_name f [] = f ∷ []
  insert_name f (g ∷ gs) = elim (name_leb f g) [ true ↦ f ∷ g ∷ gs | false ↦ g ∷ insert_name f gs ]

  unfoldable pub sorted_files : Files → Files
  sorted_files [] = []
  sorted_files (f ∷ fs) = insert_name f (sorted_files fs)

  -- One turn of the loop: the state files, with the result for this event.
  unfoldable pub sync_file : Files → String × Text → Option Text → Files × Result (Mirrored rt)
  sync_file states (stem, text) appeared = elim (read_json text) [
    | err e ↦ (states, err e)
    | ok payload ↦ elim (validate_bridge_payload rt (obj payload)) [
      | err e ↦ (states, err e)
      | ok key ↦ elim (str_eq stem key.0) [
        | false ↦ (states, err (value_error "Outbox filename does not match semantic event_id"))
        | true ↦ ensure_pending_boundary_state states (obj payload) appeared
      ]
    ]
  ]

  unfoldable pub sync_loop :
      Files → Files → (String → Option Text) → SyncResult rt → Files × Result (SyncResult rt)
  sync_loop states [] appeared so_far = (states, ok so_far)
  sync_loop states (f ∷ fs) appeared so_far =
      let turn = sync_file states f (appeared f.0) in
      elim (turn.1) [
        | err e ↦ (turn.0, err e)
        | ok result ↦ sync_loop turn.0 fs appeared (count_in rt result so_far)
      ]

  -- The outbox is none if its directory is not there.
  unfoldable pub sync_transport_boundary :
      Option Files → Files → (String → Option Text) → Files × Result (SyncResult rt)
  sync_transport_boundary none states appeared = (states, ok (none_synced rt))
  sync_transport_boundary (some outbox) states appeared =
      sync_loop states (sorted_files outbox) appeared (none_synced rt)
