-- ===== src/Ledger/Validate.antt =====
-- `validate` decides soundness (run_ledger.py): the loop over the rows reports nothing exactly when
-- the rows are sound.
use crt_master.Base.{
  >>=-eq-ok, List, String, [], length, none, ok, ok-injective, pos, refl, subst, sym, true, ℕ, ℤ,
  ◌++◌, ◌+◌, ◌↔◌, ◌∷◌, ◌≡◌,
}
use crt_master.Json.{get, keys}
use crt_master.Runtime.{Dict, Runtime}
use crt_master.Ledger.{
  Issue, Scan, Validation, compute_record_hash, genesis_hash, is_empty, scan_row, scan_rows, start,
  validate_rows,
}
use crt_master.Ledger.Chain.{++-nil, IsSound, Keys}
use crt_master.Ledger.Steps.{clean, last_of, scan_row-clean, scan_row-keeps, scan_row-silent}

module _ (rt : Runtime) where
  scan_rows-keeps :
      (n : ℕ) (rows : List (Dict rt)) (s : Scan rt) {s' : Scan rt}
      → scan_rows rt n rows s ≡ ok s'
      → s'.errors ≡ []
      → s.errors ≡ []
  unfolding scan_rows
  scan_rows-keeps n [] s h e = subst (λ (t : Scan rt). t.errors ≡ []) (sym (ok-injective h)) e
  scan_rows-keeps n (row ∷ rows) s h e =
      let (mid, first, rest) = >>=-eq-ok (scan_row rt n row s) _ h in
      (scan_row-keeps rt n row s first (scan_rows-keeps (n + 1) rows mid rest e)).0

  -- The hash that the next record has to name.
  abbrev pub head_after : String → List (Dict rt) → String
  head_after p [] = p
  head_after p (row ∷ rows) = head_after (compute_record_hash rt row) rows

  -- Sound rows are scanned to the end without an exception or an issue.
  pub scan_rows_sound :
      (n : ℕ) (rows : List (Dict rt)) (p : String) (hs : List String) (ks : Keys rt) (z : ℤ)
      → IsSound rt n p hs ks rows
      → (s : Scan rt) × (scan_rows rt n rows (clean rt p hs ks z) ≡ ok s)
        × (s.errors ≡ [])
        × (s.previous_hash ≡ head_after p rows)
  unfolding scan_rows
  scan_rows_sound n [] p hs ks z sound = (clean rt p hs ks z, refl, refl, refl)
  scan_rows_sound n (row ∷ rows) p hs ks z sound =
      let (r, fresh, (ks', keys, rest)) = sound in
      let h = compute_record_hash rt row in
      let (s, went, quiet, head) =
        scan_rows_sound (n + 1) rows h (h ∷ hs) ks' (last_of rt (get "sequence" row) z) rest in
      (s, rw (scan_row-clean rt n row p hs ks ks' z r fresh keys) went, quiet, head)

  pub scan_rows-silent :
      (n : ℕ) (rows : List (Dict rt)) (p : String) (hs : List String) (ks : Keys rt) (z : ℤ)
      {s : Scan rt}
      → scan_rows rt n rows (clean rt p hs ks z) ≡ ok s
      → s.errors ≡ []
      → IsSound rt n p hs ks rows
  unfolding scan_rows
  scan_rows-silent n [] p hs ks z h e = tt
  scan_rows-silent n (row ∷ rows) p hs ks z {s} h e =
      let (mid, first, rest) = >>=-eq-ok (scan_row rt n row (clean rt p hs ks z)) _ h in
      let (r, fresh, (ks', keys, at)) =
        scan_row-silent rt n row p hs ks z first (scan_rows-keeps (n + 1) rows mid rest e) in
      (
        r,
        fresh,
        (
          ks',
          keys,
          scan_rows-silent (n + 1) rows (compute_record_hash rt row)
              (compute_record_hash rt row ∷ hs) ks' (last_of rt (get "sequence" row) z)
              (subst (λ t. scan_rows rt (n + 1) rows t ≡ ok s) at rest) e,
        ),
      )

  abbrev pub IsSoundLedger : List (Dict rt) → Type 0
  IsSoundLedger rows = IsSound rt 1 genesis_hash [] [] rows

  pub is_empty-nil : (xs : List Issue) → is_empty xs ≡ true → xs ≡ []
  is_empty-nil [] h = refl
  is_empty-nil (x ∷ xs) h = cc

  -- `validate` says `valid` of the rows of a file exactly when they are sound: numbered from one
  -- without a gap, each naming the hash of the one before and carrying its own, without external
  -- action, no hash and no snapshot key twice. It then reports the number of rows and the hash of
  -- the last one.
  pub validate_rows_iff :
      (rows : List (Dict rt))
      → IsSoundLedger rows ↔ (
          (v : Validation) × (validate_rows rt none rows ≡ ok v)
          × (v.valid ≡ true)
          × (v.record_count ≡ length rows)
          × (v.head_hash ≡ head_after genesis_hash rows))
  unfolding validate_rows
  validate_rows_iff rows = (accepts, rejects)
    where
      accepts :
          IsSoundLedger rows
          → (v : Validation) × (validate_rows rt none rows ≡ ok v)
            × (v.valid ≡ true)
            × (v.record_count ≡ length rows)
            × (v.head_hash ≡ head_after genesis_hash rows)
      accepts sound =
          let (s, went, quiet, head) = scan_rows_sound 1 rows genesis_hash [] [] (pos 0) sound in
          (
            record {
              valid = is_empty (s.errors ++ []);
              record_count = length rows;
              last_sequence = s.last_sequence;
              head_hash = s.previous_hash;
              errors = s.errors ++ [];
            },
            rw went,
            rw quiet,
            refl,
            head,
          )

      rejects :
          (v : Validation) × (validate_rows rt none rows ≡ ok v)
            × (v.valid ≡ true)
            × (v.record_count ≡ length rows)
            × (v.head_hash ≡ head_after genesis_hash rows)
          → IsSoundLedger rows
      rejects (v, ran, good, _, _) =
          let (s, went, same) = >>=-eq-ok (scan_rows rt 1 rows (start rt)) _ ran in
          let silent =
            is_empty-nil _
              (subst (λ (w : Validation). w.valid ≡ true) (sym (ok-injective same)) good) in
          scan_rows-silent 1 rows genesis_hash [] [] (pos 0) went (++-nil rt s.errors [] silent).0
