-- ===== src/Ledger/Grow.antt =====
-- Appending to a sound ledger (run_ledger.py, `append`).
use crt_master.Base.{
  List, Option, String, [], arith, eq_ℤ_refl, false, get_last?, length, none, ok, pos, refl, some,
  subst, sym, true, ℕ, ℤ, ◌++◌, ◌+◌, ◌∙◌, ◌∷◌, ◌≡◌,
}
use crt_master.Json.{contains, end, field, get, str}
use crt_master.Json.Laws.{has_of_str}
use crt_master.Runtime.{Dict, JsonLaws, Moment, Runtime, Value, or_clock, or_fresh, subscript}
use crt_master.Ledger.{
  LedgerFile, Validation, body_for_hash, compute_record_hash, genesis_hash, records, validate,
  validate_rows,
}
use crt_master.Ledger.Append.{
  append, check_after, new_body, next_record, previous_link, seal, write_line,
}
use crt_master.Ledger.Chain.{IsRow, IsSound, Keys, row_keys}
use crt_master.Ledger.Validate.{IsSoundLedger, head_after, validate_rows_iff}
use crt_master.Ledger.Reading.{records-write_line}

module _ (rt : Runtime) where
  abbrev pub hashes_after : List String → List (Dict rt) → List String
  hashes_after hs [] = hs
  hashes_after hs (row ∷ rows) = hashes_after (compute_record_hash rt row ∷ hs) rows

  abbrev pub keys_after : Option (Keys rt) → List (Dict rt) → Option (Keys rt)
  keys_after none rows = none
  keys_after (some ks) [] = some ks
  keys_after (some ks) (row ∷ rows) = keys_after (row_keys rt ks row) rows

  -- The new record repeats neither a hash nor a snapshot key of the rows.
  pub record IsNew (rows : List (Dict rt)) (row : Dict rt) : Type 0 where
    pub new_hash : contains (compute_record_hash rt row) (hashes_after [] rows) ≡ false
    pub new_key :
        (ks ks' : Keys rt) × (keys_after (some []) rows ≡ some ks) × (row_keys rt ks row ≡ some ks')

  IsSound-append :
      (n : ℕ) (rows : List (Dict rt)) (row : Dict rt) (p : String) (hs : List String)
      (ks k k' : Keys rt)
      → IsSound rt n p hs ks rows
      → IsRow rt (n + length rows) (head_after rt p rows) row
      → contains (compute_record_hash rt row) (hashes_after hs rows) ≡ false
      → keys_after (some ks) rows ≡ some k
      → row_keys rt k row ≡ some k'
      → IsSound rt n p hs ks (rows ++ row ∷ [])
  IsSound-append n [] row p hs ks k k' sound r fresh at key = (
    subst (λ m. IsRow rt m p row) (omega arith) r,
    fresh,
    (k', subst (λ o. lift o ≡ some k') (sym at) key, tt),
  )
    where
      lift : Option (Keys rt) → Option (Keys rt)
      lift none = none
      lift (some x) = row_keys rt x row
  IsSound-append n (x ∷ rows) row p hs ks k k' (rx, fx, (kx, keyx, rest)) r fresh at key = (
    rx,
    fx,
    (
      kx,
      keyx,
      IsSound-append (n + 1) rows row (compute_record_hash rt x) (compute_record_hash rt x ∷ hs) kx
          k k' rest (subst (λ m. IsRow rt m (head_after rt p (x ∷ rows)) row) (omega arith) r) fresh
          (subst (λ o. keys_after o rows ≡ some k) keyx at) key,
    ),
  )

  previous_link-sealed :
      (row : Dict rt) (h : String)
      → get "record_hash" row ≡ str h
      → previous_link rt (some row) ≡ ok (str h)
  unfolding previous_link subscript
  previous_link-sealed end h sealed = cc
  previous_link-sealed (field k v rest) h sealed =
      rw (has_of_str "record_hash" (field k v rest) h sealed, sealed)

  -- The record hash of the last row is the link for the next, and of no row the genesis hash.
  previous_link-head :
      (n : ℕ) (x : Dict rt) (rows : List (Dict rt)) (p : String) (hs : List String) (ks : Keys rt)
      → IsSound rt n p hs ks (x ∷ rows)
      → previous_link rt (get_last? (x ∷ rows)) ≡ ok (str (head_after rt p (x ∷ rows)))
  previous_link-head n x [] p hs ks (r, _, _) =
      previous_link-sealed x (compute_record_hash rt x) r.sealed
  previous_link-head n x (y ∷ rows) p hs ks (_, _, (kx, _, rest)) =
      previous_link-head (n + 1) y rows (compute_record_hash rt x) (compute_record_hash rt x ∷ hs)
        kx rest

  link_sound :
      (rows : List (Dict rt))
      → IsSoundLedger rt rows
      → previous_link rt (get_last? rows) ≡ ok (str (head_after rt genesis_hash rows))
  unfolding previous_link
  link_sound [] sound = refl
  link_sound (x ∷ rows) sound = previous_link-head 1 x rows genesis_hash [] [] sound

  -- The record that `append` makes for sound rows.
  abbrev pub sealed_record : List (Dict rt) → String → Value rt → ℤ → String → Dict rt
  sealed_record rows record_type payload now run_id = seal rt (
      new_body rt (length rows + 1) record_type payload now run_id
        (str (head_after rt genesis_hash rows)))

  seal-IsRow :
      (n : ℕ) (record_type : String) (payload : Value rt) (now : ℤ) (run_id p : String)
      → IsRow rt n p (seal rt (new_body rt n record_type payload now run_id (str p)))
  unfolding seal compute_record_hash body_for_hash
  seal-IsRow n record_type payload now run_id p = record {
    numbered = eq_ℤ_refl (pos n);
    schema = refl;
    linked = refl;
    authority = refl;
    no_action = refl;
    sealed = refl;
  }

  seal-IsSound :
      (rows : List (Dict rt)) (record_type : String) (payload : Value rt) (now : ℤ)
      (run_id : String)
      → IsSoundLedger rt rows
      → IsNew rows (sealed_record rows record_type payload now run_id)
      → IsSoundLedger rt (rows ++ sealed_record rows record_type payload now run_id ∷ [])
  seal-IsSound rows record_type payload now run_id sound new =
      let (ks, ks', at, key) = new.new_key in
      IsSound-append 1 rows _ genesis_hash [] [] ks ks' sound
        (subst
          (λ m.
            IsRow rt m (head_after rt genesis_hash rows)
              (sealed_record rows record_type payload now run_id))
          (omega arith)
          (seal-IsRow (length rows + 1) record_type payload now run_id
            (head_after rt genesis_hash rows)))
        new.new_hash at key

module _ (rt : Runtime) (laws : JsonLaws rt) where
  validate-read :
      (f : LedgerFile rt) (rows : List (Dict rt)) (head : Option String)
      → records rt f ≡ ok rows
      → validate rt head f ≡ validate_rows rt head rows
  unfolding validate
  validate-read f rows head read = rw (read, validate)

  validate_sound :
      (f : LedgerFile rt) (rows : List (Dict rt))
      → records rt f ≡ ok rows
      → IsSoundLedger rt rows
      → (v : Validation) × (validate rt none f ≡ ok v)
        × (v.valid ≡ true)
        × (v.record_count ≡ length rows)
  validate_sound f rows read sound =
      let (v, ran, good, count, _) = (validate_rows_iff rt rows).0 sound in
      (v, validate-read f rows none read ∙ ran, good, count)

  next_record_sound :
      (f : LedgerFile rt) (rows : List (Dict rt)) (record_type : String) (payload : Value rt)
      (observed_ms : Option ℤ) (run_id : Option String) (moment : Moment)
      → records rt f ≡ ok rows
      → IsSoundLedger rt rows
      → next_record rt f record_type payload observed_ms run_id moment
        ≡ ok (
            sealed_record rt rows record_type payload
              (or_clock observed_ms moment.now_ms)
              (or_fresh run_id moment.uuid))
  unfolding next_record
  next_record_sound f rows record_type payload observed_ms run_id moment read sound =
      let (v, ran, good, count) = validate_sound f rows read sound in
      rw (ran, good, read, link_sound rt rows sound, count)

  check_after_sound :
      (f : LedgerFile rt) (rows : List (Dict rt)) (row : Dict rt)
      → records rt f ≡ ok rows
      → IsSoundLedger rt rows
      → check_after rt f row ≡ ok row
  unfolding check_after
  check_after_sound f rows row read sound =
      let (v, ran, good, _) = validate_sound f rows read sound in rw (ran, good)

  pub append-next :
      (f : LedgerFile rt) (record_type : String) (payload : Value rt) (observed_ms : Option ℤ)
      (run_id : Option String) (moment : Moment) (row : Dict rt)
      → next_record rt f record_type payload observed_ms run_id moment ≡ ok row
      → append rt f record_type payload observed_ms run_id moment
        ≡ (write_line rt f row, check_after rt (write_line rt f row) row)
  unfolding append
  append-next f record_type payload observed_ms run_id moment row next = rw (next, append)

  -- Appending to a whole file with sound rows returns the sealed record, numbered next and linked to
  -- the last, and leaves a file whose rows are the old ones and that record, and are sound, if the
  -- record repeats neither a hash nor a snapshot key.
  pub append-IsSound :
      (f : LedgerFile rt) (rows : List (Dict rt)) (record_type : String) (payload : Value rt)
      (observed_ms : Option ℤ) (run_id : Option String) (moment : Moment)
      → let row =
          sealed_record rt rows record_type payload
            (or_clock observed_ms moment.now_ms)
            (or_fresh run_id moment.uuid) in
        f.torn ≡ false
        → records rt f ≡ ok rows
        → IsSoundLedger rt rows
        → IsNew rt rows row
        → (append rt f record_type payload observed_ms run_id moment
            ≡ (write_line rt f row, ok row))
          × (records rt (write_line rt f row) ≡ ok (rows ++ row ∷ []))
          × IsSoundLedger rt (rows ++ row ∷ [])
  append-IsSound f rows record_type payload observed_ms run_id moment whole read sound new =
      let now = or_clock observed_ms moment.now_ms in
      let id = or_fresh run_id moment.uuid in
      let row = sealed_record rt rows record_type payload now id in
      let read' = records-write_line rt laws f row whole read in
      let sound' = seal-IsSound rt rows record_type payload now id sound new in
      (
        append-next f record_type payload observed_ms run_id moment row
              (next_record_sound f rows record_type payload observed_ms run_id moment read sound)
            ∙ rw (check_after_sound (write_line rt f row) _ row read' sound'),
        read',
        sound',
      )
