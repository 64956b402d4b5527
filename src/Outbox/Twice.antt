-- ===== src/Outbox/Twice.antt =====
-- The outbox after a call, and a payload that is placed twice (gpt_bridge_outbox.py).
use crt_master.Base.{
  Bool-cases, Error, Option, Option-cases, Result, Result-cases, String, ap, err, inl, inr, none,
  ok, some, str_eq, str_eq_iff, subst, sym, ◌∙◌, ◌∷◌, ◌≡◌,
}
use crt_master.Runtime.{Runtime, Value}
use crt_master.Outbox.{
  Outbox, Receipt, enqueue_bridge_payload, enqueue_key, file_of, link_file, validate_bridge_payload,
}
use crt_master.Outbox.Enqueue.{
  IsPlaced, IsStored, check_existing-stored, enqueue-err, enqueue-key, enqueue_key-IsPlaced, key_of,
  stored_in,
}

module _ (rt : Runtime) (Text : Type 0) (pretty : Value rt → Text)
    (parse : Text → Option (Value rt)) where
  abbrev pub enqueue :
      Outbox rt Text pretty parse
      → Value rt
      → Option Text
      → Outbox rt Text pretty parse × Result Receipt
  enqueue = enqueue_bridge_payload rt Text pretty parse

  abbrev pub in_box : Outbox rt Text pretty parse → String → Option Text
  in_box = stored_in rt Text pretty parse

  placed_by :
      (key : String × String) (o : Outbox rt Text pretty parse × Result Receipt)
      (box' : Outbox rt Text pretty parse) (r : Receipt)
      → o ≡ (box', ok r)
      → IsPlaced rt Text pretty parse key o
      → (text : Text) × (key_of rt Text pretty parse r ≡ key)
        × (in_box box' key.0 ≡ some text)
        × IsStored rt Text pretty parse text key
  placed_by key o box' r h p = subst (IsPlaced rt Text pretty parse key) h p

  abbrev outcome :
      Outbox rt Text pretty parse → Result Receipt → Outbox rt Text pretty parse × Result Receipt
  outcome box m = (box, m)

  clash :
      (box box' : Outbox rt Text pretty parse) (e : Error) (r : Receipt)
      → outcome box (err e) ≡ outcome box' (ok r)
      → ⊥
  clash box box' e r h = cc

  -- A call that returned, whatever other process put a file there meanwhile: the payload is valid for
  -- the event and hash of the receipt, and the file of that event parses to a payload that is valid
  -- for the same event and hash.
  pub enqueue_bridge_payload-IsStored :
      (box : Outbox rt Text pretty parse) (payload : Value rt) (appeared : Option Text)
      (box' : Outbox rt Text pretty parse) (r : Receipt)
      → enqueue box payload appeared ≡ (box', ok r)
      → (validate_bridge_payload rt payload ≡ ok (key_of rt Text pretty parse r))
        × ((text : Text) × (in_box box' r.event_id ≡ some text)
            × IsStored rt Text pretty parse text (key_of rt Text pretty parse r))
  enqueue_bridge_payload-IsStored box payload appeared box' r h =
      elim (Result-cases (validate_bridge_payload rt payload)) [
        | inl (key, valid) ↦
            let went = sym (enqueue-key rt Text pretty parse box payload appeared valid) ∙ h in
            let (text, same, found, stored) =
              placed_by key _ box' r went
                (enqueue_key-IsPlaced rt Text pretty parse box payload key appeared) in
            (
              valid ∙ ap ok (sym same),
              (
                text,
                subst (λ (k : String × String). in_box box' k.0 ≡ some text) (sym same) found,
                subst (IsStored rt Text pretty parse text) (sym same) stored,
              ),
            )
        | inr (e, raised) ↦ absurd (
            clash box box' e r
              (sym (enqueue-err rt Text pretty parse box payload appeared raised) ∙ h))
      ]

  found_again :
      (box : Outbox rt Text pretty parse) (payload : Value rt) (key : String × String)
      (appeared : Option Text) (text : Text)
      → in_box box key.0 ≡ some text
      → IsStored rt Text pretty parse text key
      → enqueue_key rt Text pretty parse box payload key appeared ≡ (
        box,
        ok (record { state = "DUPLICATE_SKIPPED"; event_id = key.0; bridge_payload_hash = key.1 }),
      )
  unfolding enqueue_key
  found_again box payload key appeared text found stored =
      rw (found, enqueue_key)
        (ap (outcome box) (
          check_existing-stored rt Text pretty parse "Existing outbox event identity mismatch"
            "Existing outbox event conflicts with new bridge payload" text key stored))

  -- After a call that returned, a call with the same payload leaves the outbox as it is and returns
  -- DUPLICATE_SKIPPED for the same event and hash.
  pub enqueue_bridge_payload-again :
      (box : Outbox rt Text pretty parse) (payload : Value rt) (appeared : Option Text)
      (box' : Outbox rt Text pretty parse) (r : Receipt) (appeared' : Option Text)
      → enqueue box payload appeared ≡ (box', ok r)
      → enqueue box' payload appeared' ≡ (box', ok (record r { state = "DUPLICATE_SKIPPED" }))
  enqueue_bridge_payload-again box payload appeared box' r appeared' h =
      let (valid, (text, found, stored)) =
        enqueue_bridge_payload-IsStored box payload appeared box' r h in
      enqueue-key rt Text pretty parse box' payload appeared' valid
      ∙ found_again box' payload (key_of rt Text pretty parse r) appeared' text found stored

  -- Whatever a call does, returning or raising, each file that was in the outbox is there with the
  -- text it had.
  pub enqueue_bridge_payload-keeps :
      (box : Outbox rt Text pretty parse) (payload : Value rt) (appeared : Option Text)
      (name : String) (text : Text)
      → in_box box name ≡ some text
      → in_box (enqueue box payload appeared).0 name ≡ some text
  unfolding enqueue_key link_file file_of
  enqueue_bridge_payload-keeps box payload appeared name text h =
      elim (Result-cases (validate_bridge_payload rt payload)) [
        | inl (key, valid) ↦
            ap (λ (o : Outbox rt Text pretty parse × Result Receipt). in_box o.0 name)
              (enqueue-key rt Text pretty parse box payload appeared valid)
            ∙ key_keeps key
        | inr (e, raised) ↦
            ap (λ (o : Outbox rt Text pretty parse × Result Receipt). in_box o.0 name)
              (enqueue-err rt Text pretty parse box payload appeared raised)
            ∙ h
      ]
    where
      other_name :
          (n : String) (t : Text) → in_box box n ≡ none → in_box ((n, t) ∷ box) name ≡ some text
      other_name n t absent = elim (Bool-cases (str_eq n name)) [
        | inl same ↦ absurd (both (sym absent ∙ ap (in_box box) ((str_eq_iff n name).0 same) ∙ h))
        | inr apart ↦ rw (apart, file_of) h
      ]
        where
          both : {t : Text} → none ≡ some t → ⊥
          both h = cc

      linked :
          (key : String × String) (a : Option Text)
          → in_box box key.0 ≡ none
          → in_box (link_file rt Text pretty parse box payload key a).0 name ≡ some text
      linked key none absent = other_name key.0 (pretty payload) absent
      linked key (some t) absent = other_name key.0 t absent

      key_keeps :
          (key : String × String)
          → in_box (enqueue_key rt Text pretty parse box payload key appeared).0 name ≡ some text
      key_keeps key = elim (Option-cases (in_box box key.0)) [
        | inl absent ↦ rw (absent, enqueue_key) (linked key appeared absent)
        | inr (t, found) ↦ rw (found, enqueue_key) h
      ]
