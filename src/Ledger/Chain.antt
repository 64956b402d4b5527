-- ===== src/Ledger/Chain.antt =====
-- What a sound ledger is, independently of the loop in `validate` (run_ledger.py): every row is
-- numbered, linked and sealed, no hash and no snapshot key comes twice.
use crt_master.Base.{
  Bool, List, Option, String, [], any, arith, err, false, if◌then◌else◌, none, not, ok, pos, refl,
  some, str_eq_refl, true, ℕ, ℤ, ◌++◌, ◌+◌, ◌∷◌, ◌≡◌,
}
use crt_master.Json.{contains, get, is_false, is_str, keys, obj, str}
use crt_master.Json.Laws.{is_str-eq}
use crt_master.Runtime.{Dict, Runtime, Value, equals_int}
use crt_master.Ledger.{
  Issue, compute_record_hash, ledger_schema, note_if, row_issues, same_key, snapshot_key,
}

module _ (rt : Runtime) where
  -- One row at its number, after a row with the given hash.
  pub record IsRow (n : ℕ) (previous : String) (row : Dict rt) : Type 0 where
    pub numbered : equals_int rt (get "sequence" row) (pos n) ≡ true
    pub schema : get "schema_version" row ≡ str ledger_schema
    pub linked : get "prev_record_hash" row ≡ str previous
    pub authority : get "external_action_authority" row ≡ str "NONE"
    pub no_action : is_false (get "external_action_performed" row) ≡ true
    pub sealed : get "record_hash" row ≡ str (compute_record_hash rt row)

  abbrev pub Keys : Type 0
  Keys = List (ℤ × String)

  abbrev pub claim_key : Keys → ℤ × String → Option Keys
  claim_key keys key = if any (λ k. same_key rt k key) keys then none else some (key ∷ keys)

  -- The snapshot keys after a row; `none` if the row has no key of its own to give.
  unfoldable pub payload_keys : Keys → Value rt → Option Keys
  payload_keys keys (obj payload) = elim (snapshot_key rt payload) [
    | ok key ↦ claim_key keys key
    | err e ↦ none
  ]
  payload_keys keys _ = none

  unfoldable pub row_keys : Keys → Dict rt → Option Keys
  row_keys keys row =
      if is_str (get "record_type" row) "SNAPSHOT"
      then payload_keys keys (get "payload" row)
      else some keys

  -- The rows from number `n` on, after the given hashes and keys.
  abbrev pub IsSound : ℕ → String → List String → Keys → List (Dict rt) → Type 0
  IsSound n previous hashes keys [] = Unit
  IsSound n previous hashes keys (row ∷ rows) =
      IsRow n previous row
      × (contains (compute_record_hash rt row) hashes ≡ false)
      × ((keys' : Keys) × (row_keys keys row ≡ some keys')
          × IsSound (n + 1) (compute_record_hash rt row) (compute_record_hash rt row ∷ hashes) keys'
              rows)

  note_if-nil : (b : Bool) (i : Issue) → note_if (not b) i ≡ [] → b ≡ true
  note_if-nil b i h = ground arith

  pub ++-nil : {A : Type 0} (xs ys : List A) → xs ++ ys ≡ [] → (xs ≡ []) × (ys ≡ [])
  ++-nil [] ys h = (refl, h)
  ++-nil (x ∷ xs) ys h = cc

  pub row_issues-IsRow :
      (n : ℕ) (previous : String) (row : Dict rt)
      → row_issues rt n previous row ≡ []
      → IsRow n previous row
  unfolding row_issues
  row_issues-IsRow n previous row h =
      let (a, h₁) = ++-nil _ _ h in
      let (b, h₂) = ++-nil _ _ h₁ in
      let (c, h₃) = ++-nil _ _ h₂ in
      let (d, h₄) = ++-nil _ _ h₃ in
      let (e, f) = ++-nil _ _ h₄ in
      record {
        numbered = note_if-nil _ _ a;
        schema = is_str-eq _ _ (note_if-nil _ _ b);
        linked = is_str-eq _ _ (note_if-nil _ _ c);
        authority = is_str-eq _ _ (note_if-nil _ _ d);
        no_action = note_if-nil _ _ e;
        sealed = is_str-eq _ _ (note_if-nil _ _ f);
      }

  pub IsRow-row_issues :
      (n : ℕ) (previous : String) (row : Dict rt)
      → IsRow n previous row
      → row_issues rt n previous row ≡ []
  unfolding row_issues
  IsRow-row_issues n previous row r =
      simp (r.numbered, r.schema, r.linked, r.authority, r.no_action, r.sealed, str_eq_refl)
