-- ===== src/Transport/Synced.antt =====
-- The state files that `sync_transport_boundary` leaves, and a second sync (gpt_transport_boundary.py).
use crt_master.Base.{
  Bool-cases, Error, Option, Result, Result-cases, String, ap, err, false, inl, inr, ok, refl, some,
  str_eq, subst, sym, true, value_error, ◌∙◌, ◌≡◌, ◌⊎◌,
}
use crt_master.Json.{obj}
use crt_master.Runtime.{Dict, Runtime, Value}
use crt_master.Outbox.{validate_bridge_payload}
use crt_master.Transport.Mirror.{Files, Mirrored, ensure_key, read_json, sync_file}
use crt_master.Transport.Ensure.{
  IsEnsured, IsStateOf, check_file-at, ensure-key, ensure_key-IsEnsured, ensure_key-keeps, file_at,
}

module _ (rt : Runtime) (Text : Type 0) (pretty : Value rt → Text)
    (parse : Text → Option (Value rt)) where
  abbrev pub Dir : Type 0
  Dir = Files rt Text pretty parse

  -- A file of the outbox that holds a payload under its event.
  abbrev pub IsEvent : String × Text → String × String → Type 0
  IsEvent file key =
      (payload : Dict rt) × (read_json rt Text pretty parse file.1 ≡ ok payload)
      × (validate_bridge_payload rt (obj payload) ≡ ok key)
      × (str_eq file.0 key.0 ≡ true)

  -- It has a state file, which holds a valid state of the same event and payload.
  abbrev pub IsMirrored : Dir → String × Text → Type 0
  IsMirrored states file =
      (key : String × String) × IsEvent file key
      × ((text : Text) × (file_at rt Text pretty parse states key.0 ≡ some text)
          × IsStateOf rt Text pretty parse key text)

  abbrev outcome : Dir → Result (Mirrored rt) → Dir × Result (Mirrored rt)
  outcome states m = (states, m)

  abbrev pub turn : Dir → String × Text → Option Text → Dir × Result (Mirrored rt)
  turn = sync_file rt Text pretty parse

  sync_file-unread :
      (states : Dir) (stem : String) (text : Text) (a : Option Text) {e : Error}
      → read_json rt Text pretty parse text ≡ err e
      → turn states (stem, text) a ≡ outcome states (err e)
  unfolding sync_file
  sync_file-unread states stem text a h = rw (h, sync_file) refl

  sync_file-refused :
      (states : Dir) (stem : String) (text : Text) (a : Option Text) {d : Dict rt} {e : Error}
      → read_json rt Text pretty parse text ≡ ok d
      → validate_bridge_payload rt (obj d) ≡ err e
      → turn states (stem, text) a ≡ outcome states (err e)
  unfolding sync_file
  sync_file-refused states stem text a h k = rw (h, sync_file, k, sync_file) refl

  sync_file-misnamed :
      (states : Dir) (stem : String) (text : Text) (a : Option Text) {d : Dict rt}
      {key : String × String}
      → read_json rt Text pretty parse text ≡ ok d
      → validate_bridge_payload rt (obj d) ≡ ok key
      → str_eq stem key.0 ≡ false
      → turn states (stem, text) a
        ≡ outcome states (err (value_error "Outbox filename does not match semantic event_id"))
  unfolding sync_file
  sync_file-misnamed states stem text a h k l = rw (h, sync_file, k, sync_file, l) refl

  sync_file-event :
      (states : Dir) (file : String × Text) (a : Option Text) (key : String × String)
      → IsEvent file key
      → turn states file a ≡ ensure_key rt Text pretty parse states key a
  unfolding sync_file
  sync_file-event states (stem, text) a key (d, h, k, l) =
      rw (h, sync_file, k, sync_file, l) (ensure-key rt Text pretty parse states (obj d) a k)

  -- A turn leaves the files and raises, or it is that of an event.
  sync_file-cases :
      (states : Dir) (file : String × Text) (a : Option Text)
      → ((e : Error) × (turn states file a ≡ outcome states (err e)))
        ⊎ ((key : String × String) × IsEvent file key)
  sync_file-cases states (stem, text) a =
      elim (Result-cases (read_json rt Text pretty parse text)) [
        | inr (e, h) ↦ inl (e, sync_file-unread states stem text a h)
        | inl (d, h) ↦ elim (Result-cases (validate_bridge_payload rt (obj d))) [
          | inr (e, k) ↦ inl (e, sync_file-refused states stem text a h k)
          | inl (key, k) ↦ elim (Bool-cases (str_eq stem key.0)) [
            | inr l ↦ inl (_, sync_file-misnamed states stem text a h k l)
            | inl l ↦ inr (key, (d, h, k, l))
          ]
        ]
      ]

  clash : (s s' : Dir) (e : Error) (r : Mirrored rt) → outcome s (err e) ≡ outcome s' (ok r) → ⊥
  clash s s' e r h = cc

  ensured_by :
      (key : String × String) (o : Dir × Result (Mirrored rt)) (s : Dir) (r : Mirrored rt)
      → o ≡ (s, ok r)
      → IsEnsured rt Text pretty parse key o
      → (text : Text) × (file_at rt Text pretty parse s key.0 ≡ some text)
        × IsStateOf rt Text pretty parse key text
  ensured_by key o s r h p = subst (IsEnsured rt Text pretty parse key) h p

  pub turn-IsMirrored :
      (states : Dir) (file : String × Text) (a : Option Text) (states' : Dir) (r : Mirrored rt)
      → turn states file a ≡ (states', ok r)
      → IsMirrored states' file
  turn-IsMirrored states file a states' r h = elim (sync_file-cases states file a) [
    | inl (e, raised) ↦ absurd (clash states states' e r (sym raised ∙ h))
    | inr (key, event) ↦ (
      key,
      event,
      ensured_by key _ states' r (sym (sync_file-event states file a key event) ∙ h)
          (ensure_key-IsEnsured rt Text pretty parse states key a),
    )
  ]

  pub turn-keeps :
      (states : Dir) (file : String × Text) (a : Option Text) (name : String) (text : Text)
      → file_at rt Text pretty parse states name ≡ some text
      → file_at rt Text pretty parse (turn states file a).0 name ≡ some text
  turn-keeps states file a name text h = elim (sync_file-cases states file a) [
    | inl (e, raised) ↦
        ap (λ (o : Dir × Result (Mirrored rt)). file_at rt Text pretty parse o.0 name) raised ∙ h
    | inr (key, event) ↦
        ap (λ (o : Dir × Result (Mirrored rt)). file_at rt Text pretty parse o.0 name)
          (sync_file-event states file a key event)
        ∙ ensure_key-keeps rt Text pretty parse states key a name text h
  ]

  -- Another turn for a file that is mirrored leaves all as it is.
  pub turn-again :
      (states : Dir) (file : String × Text) (a : Option Text)
      → IsMirrored states file
      → (r : Mirrored rt) × (turn states file a ≡ (states, ok r)) × (r.state ≡ "BOUNDARY_EXISTS")
  unfolding ensure_key
  turn-again states file a (key, event, mirrored) =
      let (text, found, stored) = mirrored in
      let (r, checked, said) =
        check_file-at rt Text pretty parse "BOUNDARY_EXISTS"
          "Existing boundary event identity mismatch"
          "Existing boundary event conflicts with outbox payload" text key stored in
      (
        r,
        sync_file-event states file a key event
            ∙ rw (found, ensure_key) (ap (outcome states) checked),
        said,
      )
