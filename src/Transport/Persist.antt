-- ===== src/Transport/Persist.antt =====
-- A transition that is written to the state file of its event (gpt_transport_boundary.py,
-- `persist_boundary_state`).
use crt_master.Base.{
  Bool, Option, String, [], arith, false, if◌then◌else◌, ok, refl, some, str_eq, str_eq_iff,
  str_eq_refl, subst, sym, true, ◌∙◌, ◌∷◌, ◌≡◌,
}
use crt_master.Json.{get, obj, str}
use crt_master.Runtime.{Dict, Runtime, Value, to_str}
use crt_master.Outbox.{file_of}
use crt_master.Transport.{validate_state}
use crt_master.Transport.Moves.{Call, perform}
use crt_master.Transport.Runs.{perform-Keeps}
use crt_master.Transport.Mirror.{Files, persist_boundary_state, replace_file}
use crt_master.Transport.Ensure.{IsStateOf}

module _ (rt : Runtime) (Text : Type 0) (pretty : Value rt → Text)
    (parse : Text → Option (Value rt)) where
  abbrev pub kept_at : Files rt Text pretty parse → String → Option Text
  kept_at files name = file_of rt Text pretty parse name files

  abbrev replaced : String → Text → Files rt Text pretty parse → Files rt Text pretty parse
  replaced = replace_file rt Text pretty parse

  once :
      (b : Bool) (x y z : Option Text)
      → (if b then x else z) ≡ (if b then x else if b then y else z)
  once true x y z = refl
  once false x y z = refl

  swap :
      (b c : Bool) (x y z : Option Text)
      → (b ≡ true → c ≡ true → ⊥)
      → (if b then x else if c then y else z) ≡ (if c then y else if b then x else z)
  swap true true x y z h = absurd (h refl refl)
  swap true false x y z h = refl
  swap false c x y z h = refl

  differ :
      (n name other : String)
      → str_eq n name ≡ false
      → str_eq n other ≡ true
      → str_eq name other ≡ true
      → ⊥
  differ n name other apart a b =
      ground (arith, str_eq_iff n name, str_eq_iff n other, str_eq_iff name other)

  file_by :
      (b : Bool) (n name other : String) (t text : Text) (rest : Files rt Text pretty parse)
      → str_eq n name ≡ b
      → kept_at (replaced name text rest) other
        ≡ (if str_eq name other then some text else kept_at rest other)
      → kept_at
          (elim b [ true ↦ (n, text) ∷ rest | false ↦ (n, t) ∷ replaced name text rest ])
          other
        ≡ (if str_eq name other then some text else kept_at ((n, t) ∷ rest) other)
  unfolding file_of
  file_by true n name other t text rest same h =
      subst
        (λ (x : String). (if str_eq x other then some text else kept_at rest other) ≡ (
          if str_eq name other
          then some text
          else if str_eq x other
          then some t
          else kept_at rest other))
        (sym ((str_eq_iff n name).0 same))
        (once (str_eq name other) (some text) (some t) (kept_at rest other))
  file_by false n name other t text rest apart h = rw (h) (
      swap (str_eq n other) (str_eq name other) (some t) (some text) (kept_at rest other)
        (λ a b. differ n name other apart a b))

  file-replace_file :
      (name other : String) (text : Text) (files : Files rt Text pretty parse)
      → kept_at (replaced name text files) other
        ≡ (if str_eq name other then some text else kept_at files other)
  unfolding replace_file file_of
  file-replace_file name other text [] = refl
  file-replace_file name other text ((n, t) ∷ rest) =
      file_by (str_eq n name) n name other t text rest refl (file-replace_file name other text rest)

  persist-at :
      (files : Files rt Text pretty parse) (d : Dict rt) {id : String}
      → validate_state rt (obj d) ≡ ok d
      → get "event_id" d ≡ str id
      → persist_boundary_state rt Text pretty parse files d
        ≡ (replaced id (pretty (obj d)) files, ok tt)
  unfolding persist_boundary_state to_str
  persist-at files d valid named = rw (valid, persist_boundary_state, named) refl

  -- If parse reads back what pretty prints: a transition of the state in an event's file that returns,
  -- and is then persisted, leaves in that file a valid state of the same event and payload, and
  -- every other file as it was.
  pub persist_boundary_state-perform :
      (files : Files rt Text pretty parse) (key : String × String) (d d' : Dict rt) (call : Call rt)
      → ((v : Value rt) → parse (pretty v) ≡ some v)
      → get "event_id" d ≡ str key.0
      → get "bridge_payload_hash" d ≡ str key.1
      → perform rt d call ≡ ok d'
      → (files' : Files rt Text pretty parse) × (persist_boundary_state rt Text pretty parse files
            d'
          ≡ (files', ok tt))
        × ((text : Text) × (kept_at files' key.0 ≡ some text)
            × IsStateOf rt Text pretty parse key text)
        × ((other : String)
            → str_eq key.0 other ≡ false
            → kept_at files' other ≡ kept_at files other)
  persist_boundary_state-perform files key d d' call reads named bound h =
      let (valid, (same, bound'), _) = perform-Keeps rt d call h in
      let text = pretty (obj d') in
      (
        replaced key.0 text files,
        persist-at files d' valid (same ∙ named),
        (
          text,
          file-replace_file key.0 key.0 text files ∙ rw (str_eq_refl key.0) refl,
          (d', reads (obj d'), valid, same ∙ named, bound' ∙ bound),
        ),
        (λ other apart. file-replace_file key.0 other text files ∙ rw (apart) refl),
      )
