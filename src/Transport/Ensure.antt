-- ===== src/Transport/Ensure.antt =====
-- The state file that `ensure_pending_boundary_state` leaves (gpt_transport_boundary.py).
use crt_master.Base.{
  >>-eq-ok, >>=-eq-ok, Bool-cases, Option, Option-cases, Result, String, ap, err, inl, inr, none,
  of_option, of_option-ok, ok, refl, require, require-ok, some, str_eq, str_eq_iff, str_eq_refl,
  subst, sym, value_error, ◌∙◌, ◌∷◌, ◌≡◌,
}
use crt_master.Json.{get, is_str, obj, str}
use crt_master.Json.Laws.{is_str-eq}
use crt_master.Runtime.{Dict, Runtime, Value}
use crt_master.Outbox.{file_of, validate_bridge_payload}
use crt_master.Outbox.Enqueue.{need_dict-ok}
use crt_master.Transport.{pending_state, validate_state}
use crt_master.Transport.Calls.{validated}
use crt_master.Transport.Mirror.{
  Files, Mirrored, check_file, ensure_key, ensure_pending_boundary_state, link_pending, read_json,
}

module _ (rt : Runtime) (Text : Type 0) (pretty : Value rt → Text)
    (parse : Text → Option (Value rt)) where
  -- A file whose text is a valid state of this event and payload.
  abbrev pub IsStateOf : String × String → Text → Type 0
  IsStateOf key text =
      (d : Dict rt) × (parse text ≡ some (obj d))
      × (validate_state rt (obj d) ≡ ok d)
      × (get "event_id" d ≡ str key.0)
      × (get "bridge_payload_hash" d ≡ str key.1)

  abbrev pub file_at : Files rt Text pretty parse → String → Option Text
  file_at files name = file_of rt Text pretty parse name files

  pub read_json-ok :
      (text : Text) {d : Dict rt}
      → read_json rt Text pretty parse text ≡ ok d
      → parse text ≡ some (obj d)
  unfolding read_json
  read_json-ok text h =
      let (v, parsed, k) =
        >>=-eq-ok (of_option (parse text) (value_error "Unreadable JSON record")) _ h in
      of_option-ok (parse text) (value_error "Unreadable JSON record") parsed
      ∙ ap some (need_dict-ok rt v "JSON record is not an object" k)

  valid_same : (v d : Dict rt) → validate_state rt (obj v) ≡ ok d → validate_state rt (obj d) ≡ ok d
  valid_same v d h =
      subst (λ (x : Dict rt). validate_state rt (obj x) ≡ ok d) (sym (validated rt v h)) h

  -- What is found in a file that passes.
  pub check_file-ok :
      (answer other conflict : String) (text : Text) (key : String × String) {r : Mirrored rt}
      → check_file rt Text pretty parse answer other conflict text key ≡ ok r
      → IsStateOf key text
  unfolding check_file
  check_file-ok answer other conflict text (event_id, payload_hash) h =
      let (v, found, h₁) = >>=-eq-ok (read_json rt Text pretty parse text) _ h in
      let (d, valid, h₂) = >>=-eq-ok (validate_state rt (obj v)) _ h₁ in
      let (_, same, h₃) =
        >>-eq-ok (require (is_str (get "event_id" d) event_id) (value_error other)) _ h₂ in
      let (_, equal, _) =
        >>-eq-ok
          (require (is_str (get "bridge_payload_hash" d) payload_hash) (value_error conflict)) _
          h₃ in
      (
        d,
        read_json-ok text found ∙ ap (λ (x : Dict rt). some (obj x)) (sym (validated rt v valid)),
        valid_same v d valid,
        is_str-eq _ _ (require-ok _ _ same),
        is_str-eq _ _ (require-ok _ _ equal),
      )

  pub check_file-at :
      (answer other conflict : String) (text : Text) (key : String × String)
      → IsStateOf key text
      → (r : Mirrored rt) × (check_file rt Text pretty parse answer other conflict text key ≡ ok r)
        × (r.state ≡ answer)
  unfolding check_file read_json
  check_file-at answer other conflict text (event_id, payload_hash)
        (d, parsed, valid, same, equal) =
      (
        record {
          state = answer;
          event_id = event_id;
          bridge_payload_hash = payload_hash;
          delivery_state = get "state" d;
        },
        rw (parsed, valid, same, equal, str_eq_refl event_id, str_eq_refl payload_hash) refl,
        refl,
      )

  pub ensure-key :
      (files : Files rt Text pretty parse) (payload : Value rt) (appeared : Option Text)
      {key : String × String}
      → validate_bridge_payload rt payload ≡ ok key
      → ensure_pending_boundary_state rt Text pretty parse files payload appeared
        ≡ ensure_key rt Text pretty parse files key appeared
  unfolding ensure_pending_boundary_state
  ensure-key files payload appeared valid = rw (valid, ensure_pending_boundary_state) refl

  -- What a call leaves under the name of the event.
  abbrev pub IsEnsured :
      String × String → Files rt Text pretty parse × Result (Mirrored rt) → Type 0
  IsEnsured key (files, err e) = Unit {0}
  IsEnsured key (files, ok r) =
      (text : Text) × (file_at files key.0 ≡ some text) × IsStateOf key text

  ensured :
      (files : Files rt Text pretty parse) (key : String × String) (text : Text)
      (m : Result (Mirrored rt))
      → file_at files key.0 ≡ some text
      → ((r : Mirrored rt) → m ≡ ok r → IsStateOf key text)
      → IsEnsured key (files, m)
  ensured files key text (err e) found checked = tt
  ensured files key text (ok r) found checked = (text, found, checked r refl)

  file_at-new :
      (name : String) (text : Text) (files : Files rt Text pretty parse)
      → file_at ((name, text) ∷ files) name ≡ some text
  unfolding file_of
  file_at-new name text files = rw (str_eq_refl name) refl

  link_pending-IsEnsured :
      (files : Files rt Text pretty parse) (key : String × String) (appeared : Option Text)
      → IsEnsured key (link_pending rt Text pretty parse files key appeared)
  unfolding link_pending
  link_pending-IsEnsured files key none =
      let text = pretty (obj (pending_state rt key)) in
      ensured _ key text _ (file_at-new key.0 text files) (λ r h. check_file-ok _ _ _ text key h)
  link_pending-IsEnsured files key (some text) =
      ensured _ key text _ (file_at-new key.0 text files) (λ r h. check_file-ok _ _ _ text key h)

  pub ensure_key-IsEnsured :
      (files : Files rt Text pretty parse) (key : String × String) (appeared : Option Text)
      → IsEnsured key (ensure_key rt Text pretty parse files key appeared)
  unfolding ensure_key
  ensure_key-IsEnsured files key appeared = elim (Option-cases (file_at files key.0)) [
    | inl absent ↦ rw (absent, ensure_key) (link_pending-IsEnsured files key appeared)
    | inr (text, found) ↦
        rw (found, ensure_key)
          (ensured files key text _ found (λ r h. check_file-ok _ _ _ text key h))
  ]

  -- Each file that was there is there with the text it had.
  pub ensure_key-keeps :
      (files : Files rt Text pretty parse) (key : String × String) (appeared : Option Text)
      (name : String) (text : Text)
      → file_at files name ≡ some text
      → file_at (ensure_key rt Text pretty parse files key appeared).0 name ≡ some text
  unfolding ensure_key link_pending file_of
  ensure_key-keeps files key appeared name text h = elim (Option-cases (file_at files key.0)) [
    | inl absent ↦ rw (absent, ensure_key) (linked appeared absent)
    | inr (t, found) ↦ rw (found, ensure_key) h
  ]
    where
      both : {t : Text} → none ≡ some t → ⊥
      both h = cc

      other_name :
          (t : Text) → file_at files key.0 ≡ none → file_at ((key.0, t) ∷ files) name ≡ some text
      other_name t absent = elim (Bool-cases (str_eq key.0 name)) [
        | inl same ↦
            absurd (both (sym absent ∙ ap (file_at files) ((str_eq_iff key.0 name).0 same) ∙ h))
        | inr apart ↦ rw (apart, file_of) h
      ]

      linked :
          (a : Option Text)
          → file_at files key.0 ≡ none
          → file_at (link_pending rt Text pretty parse files key a).0 name ≡ some text
      linked none absent = other_name (pretty (obj (pending_state rt key))) absent
      linked (some t) absent = other_name t absent
