-- ===== src/Transport/Written.antt =====
-- What can be read of a state that a transition writes: what it wrote, and all else as it was
-- (gpt_transport_boundary.py).
use crt_master.Base.{Bool, List, String, [], ap, false, refl, ℤ, ◌++◌, ◌∙◌, ◌∷◌, ◌≡◌}
use crt_master.Json.{bool, contains, get, int, put, str}
use crt_master.Json.Laws.{get-puts, get-puts_last}
use crt_master.Runtime.{Dict, Runtime, Value}
use crt_master.Transport.{check_terms, is_state, renamed, settled}
use crt_master.Transport.Sealed.{check_terms-gets}

module _ (rt : Runtime) where
  -- The writes of a transition. A claim counts its attempt between the two parts.
  abbrev first_writes : String → String → List (String × Value rt)
  first_writes name reason = ("state", str name) ∷ ("reason", str reason) ∷ []

  abbrev last_writes : Value rt → Value rt → Bool → List (String × Value rt)
  last_writes claim receipt selected =
      ("claim", claim) ∷ ("receipt", receipt) ∷ ("adapter_selected", bool selected) ∷ []

  abbrev pub moved : Value rt → Value rt → Bool → String → String → Dict rt → Dict rt
  moved claim receipt selected name reason d =
      settled rt claim receipt selected (renamed rt name reason d)

  abbrev pub attempted : Value rt → Value rt → Bool → String → String → ℤ → Dict rt → Dict rt
  attempted claim receipt selected name reason n d =
      settled rt claim receipt selected (put "attempt_count" (int n) (renamed rt name reason d))

  pub claim-settled :
      (claim receipt : Value rt) (selected : Bool) (d : Dict rt)
      → get "claim" (settled rt claim receipt selected d) ≡ claim
  claim-settled claim receipt selected d =
      get-puts_last "claim" claim (("receipt", receipt) ∷ ("adapter_selected", bool selected) ∷ [])
        d refl

  pub receipt-settled :
      (claim receipt : Value rt) (selected : Bool) (d : Dict rt)
      → get "receipt" (settled rt claim receipt selected d) ≡ receipt
  receipt-settled claim receipt selected d =
      get-puts_last "receipt" receipt (("adapter_selected", bool selected) ∷ [])
        (put "claim" claim d) refl

  pub state-moved :
      (claim receipt : Value rt) (selected : Bool) (name reason : String) (d : Dict rt)
      → get "state" (moved claim receipt selected name reason d) ≡ str name
  state-moved claim receipt selected name reason d =
      get-puts_last "state" (str name) (("reason", str reason) ∷ last_writes claim receipt selected)
        d refl

  pub state-attempted :
      (claim receipt : Value rt) (selected : Bool) (name reason : String) (n : ℤ) (d : Dict rt)
      → get "state" (attempted claim receipt selected name reason n d) ≡ str name
  state-attempted claim receipt selected name reason n d =
      get-puts_last "state" (str name)
        (("reason", str reason) ∷ ("attempt_count", int n) ∷ last_writes claim receipt selected) d
        refl

  pub get-moved :
      (k : String) (claim receipt : Value rt) (selected : Bool) (name reason : String) (d : Dict rt)
      → contains k ("state" ∷ "reason" ∷ "claim" ∷ "receipt" ∷ "adapter_selected" ∷ []) ≡ false
      → get k (moved claim receipt selected name reason d) ≡ get k d
  get-moved k claim receipt selected name reason d h =
      get-puts k (first_writes name reason ++ last_writes claim receipt selected) d h

  pub get-attempted :
      (k : String) (claim receipt : Value rt) (selected : Bool) (name reason : String) (n : ℤ)
      (d : Dict rt)
      → contains k
          ("state" ∷ "reason" ∷ "attempt_count" ∷ "claim" ∷ "receipt" ∷ "adapter_selected" ∷ [])
        ≡ false
      → get k (attempted claim receipt selected name reason n d) ≡ get k d
  get-attempted k claim receipt selected name reason n d h =
      get-puts k
        (("state", str name)
          ∷ ("reason", str reason)
          ∷ ("attempt_count", int n)
          ∷ last_writes claim receipt selected)
        d h

  -- The terms of a state stay right, whichever of the four words is written.
  pub check_terms-moved :
      (claim receipt : Value rt) (selected : Bool) (name reason : String) (d : Dict rt)
      → is_state rt (str name) ≡ is_state rt (get "state" d)
      → check_terms rt (moved claim receipt selected name reason d) ≡ check_terms rt d
  check_terms-moved claim receipt selected name reason d known =
      let m = moved claim receipt selected name reason d in
      check_terms-gets rt m d (get-moved "schema_version" claim receipt selected name reason d refl)
        (ap (is_state rt) (state-moved claim receipt selected name reason d) ∙ known)
        (get-moved "event_id" claim receipt selected name reason d refl)
        (get-moved "bridge_payload_hash" claim receipt selected name reason d refl)
        (get-moved "production" claim receipt selected name reason d refl)
        (get-moved "external_action_authority" claim receipt selected name reason d refl)
        (get-moved "action_output" claim receipt selected name reason d refl)

  pub check_terms-attempted :
      (claim receipt : Value rt) (selected : Bool) (name reason : String) (n : ℤ) (d : Dict rt)
      → is_state rt (str name) ≡ is_state rt (get "state" d)
      → check_terms rt (attempted claim receipt selected name reason n d) ≡ check_terms rt d
  check_terms-attempted claim receipt selected name reason n d known =
      let m = attempted claim receipt selected name reason n d in
      check_terms-gets rt m d
        (get-attempted "schema_version" claim receipt selected name reason n d refl)
        (ap (is_state rt) (state-attempted claim receipt selected name reason n d) ∙ known)
        (get-attempted "event_id" claim receipt selected name reason n d refl)
        (get-attempted "bridge_payload_hash" claim receipt selected name reason n d refl)
        (get-attempted "production" claim receipt selected name reason n d refl)
        (get-attempted "external_action_authority" claim receipt selected name reason n d refl)
        (get-attempted "action_output" claim receipt selected name reason n d refl)
