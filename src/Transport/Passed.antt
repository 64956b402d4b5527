-- ===== src/Transport/Passed.antt =====
-- From the outbox to the transport boundary: a payload that was placed in the outbox
-- (gpt_bridge_outbox.py) has a delivery state after the next sync (gpt_transport_boundary.py).
use crt_master.Base.{
  All, Bool, Option, String, [], ap, false, if◌then◌else◌, ok, ok-injective, refl, some, str_eq,
  str_eq_iff, subst, sym, true, ◌∙◌, ◌∷◌, ◌≡◌,
}
use crt_master.Json.{obj}
use crt_master.Runtime.{Dict, Runtime, Value}
use crt_master.Outbox.{Outbox, Receipt, file_of, validate_bridge_payload}
use crt_master.Outbox.Twice.{enqueue, enqueue_bridge_payload-IsStored}
use crt_master.Transport.Mirror.{Files, SyncResult}
use crt_master.Transport.Ensure.{IsStateOf, file_at, read_json-ok}
use crt_master.Transport.Synced.{IsMirrored}
use crt_master.Transport.Twice.{sync, sync_transport_boundary-IsMirrored}

module _ (rt : Runtime) (Text : Type 0) (pretty : Value rt → Text)
    (parse : Text → Option (Value rt)) where
  some-injective : {A : Type 0} {a b : A} → some a ≡ some b → a ≡ b
  some-injective h = cc

  found_by :
      (P : String × Text → Type 0) (b : Bool) (n name : String) (t text : Text)
      (later : Option Text)
      → str_eq n name ≡ b
      → P (n, t)
      → (later ≡ some text → P (name, text))
      → (if b then some t else later) ≡ some text
      → P (name, text)
  found_by P true n name t text later same this rest h =
      subst (λ (x : String). P (x, text)) ((str_eq_iff n name).0 same)
        (subst (λ (x : Text). P (n, x)) (some-injective h) this)
  found_by P false n name t text later apart this rest h = rest h

  All-file_of :
      (P : String × Text → Type 0) (files : Files rt Text pretty parse) (name : String)
      (text : Text)
      → All P files
      → file_of rt Text pretty parse name files ≡ some text
      → P (name, text)
  unfolding file_of
  All-file_of P [] name text holds found = cc
  All-file_of P ((n, t) ∷ files) name text (this, rest) found =
      found_by P (str_eq n name) n name t text (file_of rt Text pretty parse name files) refl this
        (All-file_of P files name text rest) found

  abbrev pub state_at : Files rt Text pretty parse → String → Option Text
  state_at = file_at rt Text pretty parse

  same_fields :
      (text : Text) (d e : Dict rt)
      → parse text ≡ some (obj d)
      → parse text ≡ some (obj e)
      → ◌≡◌ {A = Value rt} (obj d) (obj e)
  same_fields text d e h k = some-injective (sym h ∙ k)

  -- After an enqueue that returned and a sync of its outbox that returned, whatever other processes
  -- put there meanwhile, the event has a state file, which parses to a valid state of the event and
  -- payload hash of the receipt.
  pub enqueue-sync :
      (box : Outbox rt Text pretty parse) (payload : Value rt) (appeared : Option Text)
      (box' : Outbox rt Text pretty parse) (r : Receipt) (states : Files rt Text pretty parse)
      (a : String → Option Text) (states' : Files rt Text pretty parse) (s : SyncResult rt)
      → enqueue rt Text pretty parse box payload appeared ≡ (box', ok r)
      → sync rt Text pretty parse box' states a ≡ (states', ok s)
      → (text : Text) × (state_at states' r.event_id ≡ some text)
        × IsStateOf rt Text pretty parse (r.event_id, r.bridge_payload_hash) text
  enqueue-sync box payload appeared box' r states a states' s h k =
      let (_, (file, found, stored)) =
        enqueue_bridge_payload-IsStored rt Text pretty parse box payload appeared box' r h in
      let (d, parsed, valid) = stored in
      let (key, event, mirrored) =
        All-file_of (IsMirrored rt Text pretty parse states') box' r.event_id file
          (sync_transport_boundary-IsMirrored rt Text pretty parse box' states a states' s k)
          found in
      let (e, read, accepted, _) = event in
      let same : key ≡ (r.event_id, r.bridge_payload_hash) = ok-injective (
        sym accepted
        ∙ (ap (validate_bridge_payload rt)
              (same_fields file e d (read_json-ok rt Text pretty parse file read) parsed)
            ∙ valid)) in
      subst
        (λ (x : String × String).
          (text : Text) × (state_at states' x.0 ≡ some text)
          × IsStateOf rt Text pretty parse x text)
        same mirrored
