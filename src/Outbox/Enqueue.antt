-- ===== src/Outbox/Enqueue.antt =====
-- Placing a payload in the outbox (gpt_bridge_outbox.py, `enqueue_bridge_payload`).
use crt_master.Base.{
  &&-true, >>-eq-ok, >>=-eq-ok, Error, Option, Option-cases, Result, String, ap, ap₂, err, inl, inr,
  none, of_option, of_option-ok, ok, ok-injective, refl, require, require-ok, some, str_eq,
  str_eq_iff, str_eq_refl, sym, true, value_error, ◌&&◌, ◌∙◌, ◌∷◌, ◌≡◌,
}
use crt_master.Json.{arr, bool, float, int, null, obj, str}
use crt_master.Runtime.{Dict, Runtime, Value}
use crt_master.Outbox.{
  Outbox, Receipt, check_existing, check_stored, enqueue_bridge_payload, enqueue_key, file_of,
  link_file, need_dict, read_existing, validate_bridge_payload,
}

module _ (rt : Runtime) where
  pub need_dict-ok :
      (v : Value rt) (text : String) {d : Dict rt} → need_dict rt v text ≡ ok d → v ≡ obj d
  need_dict-ok (obj x) text h = ap obj (ok-injective h)
  need_dict-ok null text h = cc
  need_dict-ok (bool b) text h = cc
  need_dict-ok (int n) text h = cc
  need_dict-ok (float x) text h = cc
  need_dict-ok (str s) text h = cc
  need_dict-ok (arr xs) text h = cc

module _ (rt : Runtime) (Text : Type 0) (pretty : Value rt → Text)
    (parse : Text → Option (Value rt)) where
  open rt use {hash}

  abbrev pub stored_in : Outbox rt Text pretty parse → String → Option Text
  stored_in box name = file_of rt Text pretty parse name box

  -- A file whose text is a valid payload of this event and hash.
  abbrev pub IsStored : Text → String × String → Type 0
  IsStored text key =
      (d : Dict rt) × (parse text ≡ some (obj d)) × (validate_bridge_payload rt (obj d) ≡ ok key)

  abbrev pub key_of : Receipt → String × String
  key_of r = (r.event_id, r.bridge_payload_hash)

  read_existing-ok :
      (text : Text) {d : Dict rt}
      → read_existing rt Text pretty parse text ≡ ok d
      → parse text ≡ some (obj d)
  unfolding read_existing
  read_existing-ok text h =
      let (v, parsed, k) =
        >>=-eq-ok
          (of_option (parse text) (value_error "Existing bridge outbox record is unreadable")) _
          h in
      of_option-ok (parse text) (value_error "Existing bridge outbox record is unreadable") parsed
      ∙ ap some (need_dict-ok rt v "Existing bridge outbox record is not an object" k)

  abbrev keyed : String → String → String × String
  keyed x y = (x, y)

  same_key :
      (s t u v : String)
      → str_eq s u ≡ true
      → str_eq t v ≡ true
      → ◌≡◌ {A = String × String} (s, t) (u, v)
  same_key s t u v h k = ap₂ keyed ((str_eq_iff s u).0 h) ((str_eq_iff t v).0 k)

  check_existing-ok :
      (other conflict : String) (text : Text) (key : String × String) {r : Receipt}
      → check_existing rt Text pretty parse other conflict text key ≡ ok r
      → (key_of r ≡ key) × IsStored text key
  unfolding check_existing
  check_existing-ok other conflict text (event_id, payload_hash) h =
      let (d, found, h₁) = >>=-eq-ok (read_existing rt Text pretty parse text) _ h in
      let ((i, p), valid, h₂) = >>=-eq-ok (validate_bridge_payload rt (obj d)) _ h₁ in
      let (_, same, h₃) = >>-eq-ok (require (str_eq i event_id) (value_error other)) _ h₂ in
      let (_, equal, h₄) = >>-eq-ok (require (str_eq p payload_hash) (value_error conflict)) _ h₃ in
      (
        ap key_of (sym (ok-injective h₄)),
        (
          d,
          read_existing-ok text found,
          valid
              ∙ ap ok
                  (same_key i p event_id payload_hash (require-ok _ _ same) (require-ok _ _ equal)),
        ),
      )

  check_stored-ok :
      (text : Text) (key : String × String) {r : Receipt}
      → check_stored rt Text pretty parse text key ≡ ok r
      → (key_of r ≡ key) × IsStored text key
  unfolding check_stored
  check_stored-ok text (event_id, payload_hash) h =
      let (d, found, h₁) = >>=-eq-ok (read_existing rt Text pretty parse text) _ h in
      let ((i, p), valid, h₂) = >>=-eq-ok (validate_bridge_payload rt (obj d)) _ h₁ in
      let (_, both, h₃) =
        >>-eq-ok
          (require (str_eq i event_id && str_eq p payload_hash)
            (value_error "Bridge outbox post-write validation failed"))
          _ h₂ in
      let (same, equal) =
        &&-true (str_eq i event_id) (str_eq p payload_hash) (require-ok _ _ both) in
      (
        ap key_of (sym (ok-injective h₃)),
        (
          d,
          read_existing-ok text found,
          valid ∙ ap ok (same_key i p event_id payload_hash same equal),
        ),
      )

  pub check_existing-stored :
      (other conflict : String) (text : Text) (key : String × String)
      → IsStored text key
      → check_existing rt Text pretty parse other conflict text key
        ≡ ok (record { state = "DUPLICATE_SKIPPED"; event_id = key.0; bridge_payload_hash = key.1 })
  unfolding check_existing read_existing
  check_existing-stored other conflict text (i, p) (d, parsed, valid) =
      rw (parsed, valid, str_eq_refl i, str_eq_refl p) refl

  -- What a call leaves under the name of the event.
  abbrev pub IsPlaced : String × String → Outbox rt Text pretty parse × Result Receipt → Type 0
  IsPlaced key (box, err e) = Unit {0}
  IsPlaced key (box, ok r) =
      (text : Text) × (key_of r ≡ key) × (stored_in box key.0 ≡ some text) × IsStored text key

  placed :
      (box : Outbox rt Text pretty parse) (key : String × String) (text : Text) (m : Result Receipt)
      → stored_in box key.0 ≡ some text
      → ((r : Receipt) → m ≡ ok r → (key_of r ≡ key) × IsStored text key)
      → IsPlaced key (box, m)
  placed box key text (err e) found checked = tt
  placed box key text (ok r) found checked =
      let (same, stored) = checked r refl in (text, same, found, stored)

  file_of-new :
      (name : String) (text : Text) (box : Outbox rt Text pretty parse)
      → stored_in ((name, text) ∷ box) name ≡ some text
  unfolding file_of
  file_of-new name text box = rw (str_eq_refl name) refl

  link_file-IsPlaced :
      (box : Outbox rt Text pretty parse) (payload : Value rt) (key : String × String)
      (appeared : Option Text)
      → IsPlaced key (link_file rt Text pretty parse box payload key appeared)
  unfolding link_file
  link_file-IsPlaced box payload key none =
      placed _ key (pretty payload) _ (file_of-new key.0 (pretty payload) box)
        (λ r h. check_stored-ok (pretty payload) key h)
  link_file-IsPlaced box payload key (some text) =
      placed _ key text _ (file_of-new key.0 text box) (λ r h. check_existing-ok _ _ text key h)

  pub enqueue_key-IsPlaced :
      (box : Outbox rt Text pretty parse) (payload : Value rt) (key : String × String)
      (appeared : Option Text)
      → IsPlaced key (enqueue_key rt Text pretty parse box payload key appeared)
  unfolding enqueue_key
  enqueue_key-IsPlaced box payload key appeared = elim (Option-cases (stored_in box key.0)) [
    | inl absent ↦ rw (absent, enqueue_key) (link_file-IsPlaced box payload key appeared)
    | inr (text, found) ↦
        rw (found, enqueue_key)
          (placed box key text _ found (λ r h. check_existing-ok _ _ text key h))
  ]

  pub enqueue-key :
      (box : Outbox rt Text pretty parse) (payload : Value rt) (appeared : Option Text)
      {key : String × String}
      → validate_bridge_payload rt payload ≡ ok key
      → enqueue_bridge_payload rt Text pretty parse box payload appeared
        ≡ enqueue_key rt Text pretty parse box payload key appeared
  unfolding enqueue_bridge_payload
  enqueue-key box payload appeared valid = rw (valid, enqueue_bridge_payload) refl

  pub enqueue-err :
      (box : Outbox rt Text pretty parse) (payload : Value rt) (appeared : Option Text) {e : Error}
      → validate_bridge_payload rt payload ≡ err e
      → enqueue_bridge_payload rt Text pretty parse box payload appeared ≡ (box, err e)
  unfolding enqueue_bridge_payload
  enqueue-err box payload appeared raised = rw (raised, enqueue_bridge_payload) refl
