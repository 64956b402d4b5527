-- ===== src/Ledger/Steps.antt =====
-- One row in the loop of `validate` (run_ledger.py): what it makes of a scan without issues.
use crt_master.Base.{
  >>=-eq-ok, Bool, Bool-cases, List, Result, Result-cases, String, [], any, ap, arith, false,
  if◌then◌else◌, inl, inr, ok, ok-injective, refl, some, subst, sym, true, ℕ, ℤ, ◌++◌, ◌∙◌, ◌∷◌,
  ◌≡◌,
}
use crt_master.Json.{bool, contains, get, int, is_str, keys, null, obj, str}
use crt_master.Runtime.{Dict, Runtime, Value, int_of_bool}
use crt_master.Ledger.{
  Scan, compute_record_hash, duplicate_hash, note_if, row_issues, same_key, scan_hash, scan_payload,
  scan_row, scan_sequence, snapshot_key,
}
use crt_master.Ledger.Chain.{
  ++-nil, IsRow, IsRow-row_issues, Keys, payload_keys, row_issues-IsRow, row_keys,
}

module _ (rt : Runtime) where
  -- A scan that has found no issue.
  abbrev pub clean : String → List String → Keys rt → ℤ → Scan rt
  clean p hs ks z = record {
    errors = [];
    previous_hash = p;
    seen_hashes = hs;
    seen_keys = ks;
    last_sequence = z;
  }

  abbrev pub last_of : Value rt → ℤ → ℤ
  last_of (int n) z = n
  last_of (bool b) z = int_of_bool rt b
  last_of _ z = z

  scan_sequence-clean :
      (v : Value rt) (p : String) (hs : List String) (ks : Keys rt) (z : ℤ)
      → scan_sequence rt v (clean p hs ks z) ≡ clean p hs ks (last_of v z)
  unfolding scan_sequence
  scan_sequence-clean (int n) p hs ks z = refl
  scan_sequence-clean (bool b) p hs ks z = refl
  scan_sequence-clean _ p hs ks z = refl

  errors-scan_sequence : (v : Value rt) (s : Scan rt) → (scan_sequence rt v s).errors ≡ s.errors
  unfolding scan_sequence
  errors-scan_sequence (int n) s = refl
  errors-scan_sequence _ s = refl

  scan_payload-clean :
      (n : ℕ) (v : Value rt) (p : String) (hs : List String) (ks ks' : Keys rt) (z : ℤ)
      → payload_keys rt ks v ≡ some ks'
      → scan_payload rt n v (clean p hs ks z) ≡ ok (clean p hs ks' z)
  unfolding payload_keys scan_payload
  scan_payload-clean n (obj d) p hs ks ks' z h = ground arith
  scan_payload-clean n null p hs ks ks' z h = cc
  scan_payload-clean n _ p hs ks ks' z h = cc

  -- Conversely: what a payload that raised no issue leaves behind.
  scan_payload-silent :
      (n : ℕ) (v : Value rt) (p : String) (hs : List String) (ks : Keys rt) (z : ℤ) {s : Scan rt}
      → scan_payload rt n v (clean p hs ks z) ≡ ok s
      → s.errors ≡ []
      → (ks' : Keys rt) × (payload_keys rt ks v ≡ some ks') × (s ≡ clean p hs ks' z)
  unfolding payload_keys scan_payload
  scan_payload-silent n (obj d) p hs ks z {s} h e = elim (Result-cases (snapshot_key rt d)) [
    | inl (k, read) ↦ elim (Bool-cases (any (λ j. same_key rt j k) ks)) [
      | inl twice ↦ absurd (ground arith)
      | inr new ↦ (k ∷ ks, ground arith, ground arith)
    ]
    | inr (bad, raised) ↦ absurd (ground arith)
  ]
  scan_payload-silent n null p hs ks z h e = absurd (ground arith)
  scan_payload-silent n _ p hs ks z h e = absurd (ground arith)

  -- An issue that was noted stays noted.
  scan_payload-keeps :
      (n : ℕ) (v : Value rt) (s : Scan rt) {s' : Scan rt}
      → scan_payload rt n v s ≡ ok s'
      → s'.errors ≡ []
      → s.errors ≡ []
  unfolding scan_payload
  scan_payload-keeps n (obj d) s h e =
      let (k, _, same) = >>=-eq-ok (snapshot_key rt d) _ h in
      (++-nil rt s.errors _ (subst (λ (t : Scan rt). t.errors ≡ []) (sym (ok-injective same)) e)).0
  scan_payload-keeps n null s h e =
      (++-nil rt s.errors _ (subst (λ (t : Scan rt). t.errors ≡ []) (sym (ok-injective h)) e)).0
  scan_payload-keeps n _ s h e =
      (++-nil rt s.errors _ (subst (λ (t : Scan rt). t.errors ≡ []) (sym (ok-injective h)) e)).0

  scan_hash-keeps :
      (n : ℕ) (v : Value rt) (s : Scan rt) → (scan_hash rt n v s).errors ≡ [] → s.errors ≡ []
  unfolding scan_hash
  scan_hash-keeps n (str t) s e = (++-nil rt s.errors _ e).0
  scan_hash-keeps n _ s e = e

  abbrev checked : ℕ → Dict rt → Scan rt → Scan rt
  checked n row s = record s { errors = s.errors ++ row_issues rt n s.previous_hash row }

  abbrev keyed : ℕ → Dict rt → Scan rt → Result (Scan rt)
  keyed n row s =
      if is_str (get "record_type" row) "SNAPSHOT"
      then scan_payload rt n (get "payload" row) s
      else ok s

  keyed-keeps :
      (n : ℕ) (row : Dict rt) (s : Scan rt) {s' : Scan rt}
      → keyed n row s ≡ ok s'
      → s'.errors ≡ []
      → s.errors ≡ []
  keyed-keeps n row s {s'} h e = elim (Bool-cases (is_str (get "record_type" row) "SNAPSHOT")) [
    | inl snap ↦
        scan_payload-keeps n (get "payload" row) s
          (subst (λ b. (if b then scan_payload rt n (get "payload" row) s else ok s) ≡ ok s') snap
            h)
          e
    | inr other ↦
        subst (λ (t : Scan rt). t.errors ≡ [])
          (sym (
            ok-injective (
              subst (λ b. (if b then scan_payload rt n (get "payload" row) s else ok s) ≡ ok s')
                other h)))
          e
  ]

  pub scan_row-keeps :
      (n : ℕ) (row : Dict rt) (s : Scan rt) {s' : Scan rt}
      → scan_row rt n row s ≡ ok s'
      → s'.errors ≡ []
      → (s.errors ≡ []) × (row_issues rt n s.previous_hash row ≡ [])
  unfolding scan_row
  scan_row-keeps n row s h e =
      let v = get "record_hash" row in
      let (mid, through, same) = >>=-eq-ok (keyed n row (scan_hash rt n v (checked n row s))) _ h in
      let quiet =
        sym (errors-scan_sequence (get "sequence" row) mid)
        ∙ subst (λ (t : Scan rt). t.errors ≡ []) (sym (ok-injective same)) e in
      ++-nil rt s.errors _ (
        scan_hash-keeps n v (checked n row s)
          (keyed-keeps n row (scan_hash rt n v (checked n row s)) through quiet))

  keyed-clean :
      (n : ℕ) (row : Dict rt) (p : String) (hs : List String) (ks ks' : Keys rt) (z : ℤ)
      → row_keys rt ks row ≡ some ks'
      → keyed n row (clean p hs ks z) ≡ ok (clean p hs ks' z)
  unfolding row_keys
  keyed-clean n row p hs ks ks' z = choose (is_str (get "record_type" row) "SNAPSHOT")
    where
      choose :
          (b : Bool)
          → (if b then payload_keys rt ks (get "payload" row) else some ks) ≡ some ks'
          → (if b
              then scan_payload rt n (get "payload" row) (clean p hs ks z)
              else ok (clean p hs ks z))
            ≡ ok (clean p hs ks' z)
      choose true k = scan_payload-clean n (get "payload" row) p hs ks ks' z k
      choose false k = ground arith

  keyed-silent :
      (n : ℕ) (row : Dict rt) (p : String) (hs : List String) (ks : Keys rt) (z : ℤ) {s : Scan rt}
      → keyed n row (clean p hs ks z) ≡ ok s
      → s.errors ≡ []
      → (ks' : Keys rt) × (row_keys rt ks row ≡ some ks') × (s ≡ clean p hs ks' z)
  unfolding row_keys
  keyed-silent n row p hs ks z {s} h e = choose (is_str (get "record_type" row) "SNAPSHOT") h
    where
      choose :
          (b : Bool)
          → (if b
              then scan_payload rt n (get "payload" row) (clean p hs ks z)
              else ok (clean p hs ks z))
            ≡ ok s
          → (ks' : Keys rt) × ((if b then payload_keys rt ks (get "payload" row) else some ks)
              ≡ some ks')
            × (s ≡ clean p hs ks' z)
      choose true k = scan_payload-silent n (get "payload" row) p hs ks z k e
      choose false k = (ks, refl, sym (ok-injective k))

  -- A sound row takes a clean scan to the clean scan after it.
  pub scan_row-clean :
      (n : ℕ) (row : Dict rt) (p : String) (hs : List String) (ks ks' : Keys rt) (z : ℤ)
      → IsRow rt n p row
      → contains (compute_record_hash rt row) hs ≡ false
      → row_keys rt ks row ≡ some ks'
      → let h = compute_record_hash rt row in
        scan_row rt n row (clean p hs ks z)
        ≡ ok (clean h (h ∷ hs) ks' (last_of (get "sequence" row) z))
  unfolding scan_row scan_hash
  scan_row-clean n row p hs ks ks' z r fresh k =
      let h = compute_record_hash rt row in
      rw (
        IsRow-row_issues rt n p row r,
        r.sealed,
        fresh,
        keyed-clean n row h (h ∷ hs) ks ks' z k,
        scan_sequence-clean (get "sequence" row) h (h ∷ hs) ks' z,
      )

  hashed :
      (n : ℕ) (row : Dict rt) (p : String) (hs : List String) (ks : Keys rt) (z : ℤ) (b : Bool)
      → IsRow rt n p row
      → contains (compute_record_hash rt row) hs ≡ b
      → let h = compute_record_hash rt row in
        scan_hash rt n (get "record_hash" row) (checked n row (clean p hs ks z))
        ≡ record (clean h (h ∷ hs) ks z) { errors = note_if b (duplicate_hash n) }
  unfolding scan_hash
  hashed n row p hs ks z b r e = rw (IsRow-row_issues rt n p row r, r.sealed, e)

  -- A row that leaves no issue is sound, and the scan after it is the clean one.
  pub scan_row-silent :
      (n : ℕ) (row : Dict rt) (p : String) (hs : List String) (ks : Keys rt) (z : ℤ) {s : Scan rt}
      → scan_row rt n row (clean p hs ks z) ≡ ok s
      → s.errors ≡ []
      → let h = compute_record_hash rt row in
        IsRow rt n p row
        × (contains h hs ≡ false)
        × ((ks' : Keys rt) × (row_keys rt ks row ≡ some ks')
            × (s ≡ clean h (h ∷ hs) ks' (last_of (get "sequence" row) z)))
  unfolding scan_row
  scan_row-silent n row p hs ks z {s} h e =
      let r = row_issues-IsRow rt n p row (scan_row-keeps n row (clean p hs ks z) h e).1 in
      let v = get "record_hash" row in
      let seal = compute_record_hash rt row in
      let (mid, through, same) =
        >>=-eq-ok (keyed n row (scan_hash rt n v (checked n row (clean p hs ks z)))) _ h in
      let end_of : scan_sequence rt (get "sequence" row) mid ≡ s = ok-injective same in
      let quiet =
        sym (errors-scan_sequence (get "sequence" row) mid)
        ∙ ap (λ (t : Scan rt). t.errors) end_of
        ∙ e in
      elim (Bool-cases (contains seal hs)) [
        | inl twice ↦
            let bad =
              keyed-keeps n row _
                (subst (λ t. keyed n row t ≡ ok mid) (hashed n row p hs ks z true r twice) through)
                quiet in
            cc
        | inr fresh ↦
            let (ks', keys, clean_mid) =
              keyed-silent n row seal (seal ∷ hs) ks z
                (subst (λ t. keyed n row t ≡ ok mid) (hashed n row p hs ks z false r fresh) through)
                quiet in
            (
              r,
              fresh,
              (
                ks',
                keys,
                sym end_of
                    ∙ ap (scan_sequence rt (get "sequence" row)) clean_mid
                    ∙ scan_sequence-clean (get "sequence" row) seal (seal ∷ hs) ks' z,
              ),
            )
      ]
