-- ===== src/Ledger/Again.antt =====
-- A snapshot that is offered twice (run_ledger.py, `append_snapshot`).
use crt_master.Base.{
  >>-eq-ok, >>=-eq-ok, Bool, List, Option, Result-cases, String, [], ap, arith, eq_ℤ_refl,
  failed_after_append, false, find_last, get_last?, inl, inr, none, ok, ok-injective, refl,
  refusing_append, require, require-ok, some, str_eq_refl, subst, true, ℤ, ◌++◌, ◌∷◌, ◌≡◌,
}
use crt_master.Json.{end, field, get, has, int, obj, str}
use crt_master.Runtime.{Dict, JsonLaws, Moment, Runtime, Value, subscript, to_float, to_list}
use crt_master.Ledger.{LedgerFile, Validation, records, validate}
use crt_master.Ledger.Append.{
  SnapshotContext, append_found, append_identified, check_after, is_snapshot, next_record,
  previous_link, seal, skipped, snapshot_exists, snapshot_payload, write_line,
}
use crt_master.Ledger.Reading.{records-write_line, whole_of_records}

find_last-append :
    {A : Type 0} (p : A → Bool) (xs : List A) (x : A)
    → p x ≡ true
    → find_last p (xs ++ x ∷ []) ≡ some x
find_last-append p [] x h = rw h
find_last-append p (y ∷ xs) x h = rw (find_last-append p xs x h)

module _ (rt : Runtime) (laws : JsonLaws rt) where
  valid_reads :
      (f : LedgerFile rt) {v : Validation}
      → validate rt none f ≡ ok v
      → v.valid ≡ true
      → (rows : List (Dict rt)) × (records rt f ≡ ok rows)
  unfolding validate
  valid_reads f ran good = elim (Result-cases (records rt f)) [
    | inl read ↦ read
    | inr (e, bad) ↦ absurd (ground arith)
  ]

  whole_of_write :
      (f : LedgerFile rt) (row : Dict rt) {rows : List (Dict rt)}
      → records rt (write_line rt f row) ≡ ok rows
      → f.torn ≡ false
  whole_of_write f row read = by_lines f.lines refl
    where
      by_lines : (ls : List rt.Line) → f.lines ≡ ls → f.torn ≡ false
      by_lines [] e =
          whole_of_records rt laws (write_line rt f row) (rt.dump (obj row)) []
            (ap (λ ls. ls ++ rt.dump (obj row) ∷ []) e) read
      by_lines (l ∷ ls) e =
          whole_of_records rt laws (write_line rt f row) l (ls ++ rt.dump (obj row) ∷ [])
            (ap (λ ls. ls ++ rt.dump (obj row) ∷ []) e) read

  -- What `append` writes for a snapshot is found again.
  record IsSnapshotRow (payload row : Dict rt) : Type 0 where
    of_type : get "record_type" row ≡ str "SNAPSHOT"
    of_payload : get "payload" row ≡ obj payload
    hashed : (s : String) × (get "record_hash" row ≡ str s) × (has "record_hash" row ≡ true)
    numbered : has "sequence" row ≡ true

  next_record-IsSnapshotRow :
      (f : LedgerFile rt) (payload : Dict rt) (observed_ms : Option ℤ) (run_id : Option String)
      (moment : Moment) {row : Dict rt}
      → next_record rt f "SNAPSHOT" (obj payload) observed_ms run_id moment ≡ ok row
      → IsSnapshotRow payload row
  unfolding next_record seal
  next_record-IsSnapshotRow f payload observed_ms run_id moment h =
      let (v, _, h₁) = >>=-eq-ok (validate rt none f) _ h in
      let (_, _, h₂) = >>-eq-ok (require v.valid refusing_append) _ h₁ in
      let (rows, _, h₃) = >>=-eq-ok (records rt f) _ h₂ in
      let (link, _, h₄) = >>=-eq-ok (previous_link rt (get_last? rows)) _ h₃ in
      subst (IsSnapshotRow payload) (ok-injective h₄)
        (record { of_type = refl; of_payload = refl; hashed = (_, refl, refl); numbered = refl })

  snapshot_payload-fields :
      (snapshot : Dict rt) (as_of_ms : ℤ) (digest : String) (c : SnapshotContext rt)
      {payload : Dict rt}
      → snapshot_payload rt snapshot as_of_ms digest c ≡ ok payload
      → (get "as_of_ms" payload ≡ int as_of_ms) × (get "snapshot_hash" payload ≡ str digest)
  unfolding snapshot_payload
  snapshot_payload-fields snapshot as_of_ms digest c h =
      let (_, _, h₁) = >>=-eq-ok (subscript rt snapshot "coverage_ratio") _ h in
      let (_, _, h₂) = >>=-eq-ok (to_float rt _) _ h₁ in
      let (_, _, h₃) = >>=-eq-ok (subscript rt snapshot "quality_state") _ h₂ in
      let (_, _, h₄) = >>=-eq-ok (to_list rt _) _ h₃ in
      let (_, _, h₅) = >>=-eq-ok (subscript rt snapshot "event_set_hash") _ h₄ in
      let (_, _, h₆) = >>=-eq-ok (subscript rt snapshot "connection_set_hash") _ h₅ in
      subst
        (λ (d : Dict rt). (get "as_of_ms" d ≡ int as_of_ms) × (get "snapshot_hash" d ≡ str digest))
        (ok-injective h₆) (refl, refl)

  is_snapshot-row :
      (payload row : Dict rt) (as_of_ms : ℤ) (digest : String)
      → IsSnapshotRow payload row
      → get "as_of_ms" payload ≡ int as_of_ms
      → get "snapshot_hash" payload ≡ str digest
      → is_snapshot rt as_of_ms digest row ≡ true
  is_snapshot-row payload row as_of_ms digest r at hash =
      rw (r.of_type, r.of_payload, at, hash, eq_ℤ_refl as_of_ms, str_eq_refl digest)

  skipped-row :
      (payload row : Dict rt)
      → IsSnapshotRow payload row
      → (r : Dict rt) × (skipped rt row ≡ ok r) × (get "append_status" r ≡ str "DUPLICATE_SKIPPED")
  unfolding skipped subscript
  skipped-row payload row r = (
    field "append_status" (str "DUPLICATE_SKIPPED") (
        field "existing_record_hash" (get "record_hash" row)
          (field "existing_sequence" (get "sequence" row) end)),
    rw (r.hashed.2, r.numbered),
    refl,
  )

  -- What the second call does, once the first has found or written a row.
  abbrev pub SkipsAgain : LedgerFile rt → Dict rt × ℤ × String → Type 0
  SkipsAgain f found =
      (c : SnapshotContext rt) (moment : Moment)
      → (r : Dict rt) × (append_identified rt f found c moment ≡ (f, ok r))
        × (get "append_status" r ≡ str "DUPLICATE_SKIPPED")

  pub found_again :
      (f : LedgerFile rt) (found : Dict rt × ℤ × String) (row r : Dict rt)
      → snapshot_exists rt f found.1 found.2 ≡ ok (some row)
      → skipped rt row ≡ ok r
      → get "append_status" r ≡ str "DUPLICATE_SKIPPED"
      → SkipsAgain f found
  unfolding append_identified append_found
  found_again f found row r seen skip status c moment =
      (r, rw (seen, append_identified, skip), status)

  pub skipped-status :
      (row : Dict rt) {r : Dict rt}
      → skipped rt row ≡ ok r
      → get "append_status" r ≡ str "DUPLICATE_SKIPPED"
  unfolding skipped
  skipped-status row h =
      let (_, _, h₁) = >>=-eq-ok (subscript rt row "record_hash") _ h in
      let (_, _, h₂) = >>=-eq-ok (subscript rt row "sequence") _ h₁ in
      subst (λ (d : Dict rt). get "append_status" d ≡ str "DUPLICATE_SKIPPED") (ok-injective h₂)
        refl

  next_record-reads :
      (f : LedgerFile rt) (record_type : String) (payload : Value rt) (observed_ms : Option ℤ)
      (run_id : Option String) (moment : Moment) {row : Dict rt}
      → next_record rt f record_type payload observed_ms run_id moment ≡ ok row
      → (rows : List (Dict rt)) × (records rt f ≡ ok rows)
  unfolding next_record
  next_record-reads f record_type payload observed_ms run_id moment h =
      let (v, _, h₁) = >>=-eq-ok (validate rt none f) _ h in
      let (_, _, h₂) = >>-eq-ok (require v.valid refusing_append) _ h₁ in
      let (rows, read, _) = >>=-eq-ok (records rt f) _ h₂ in (rows, read)

  check_after-valid :
      (f : LedgerFile rt) (row : Dict rt) {row' : Dict rt}
      → check_after rt f row ≡ ok row'
      → (v : Validation) × (validate rt none f ≡ ok v) × (v.valid ≡ true)
  unfolding check_after
  check_after-valid f row h =
      let (v, ran, h₁) = >>=-eq-ok (validate rt none f) _ h in
      let (_, good, _) = >>-eq-ok (require v.valid failed_after_append) _ h₁ in
      (v, ran, require-ok v.valid failed_after_append good)

  -- A snapshot row at the end of the file is what `_snapshot_exists` finds.
  snapshot_exists-written :
      (f : LedgerFile rt) (row : Dict rt) (rows : List (Dict rt)) (as_of_ms : ℤ) (digest : String)
      → records rt f ≡ ok (rows ++ row ∷ [])
      → is_snapshot rt as_of_ms digest row ≡ true
      → snapshot_exists rt f as_of_ms digest ≡ ok (some row)
  unfolding snapshot_exists
  snapshot_exists-written f row rows as_of_ms digest read fits =
      rw (read, find_last-append (is_snapshot rt as_of_ms digest) rows row fits)

  -- A successful write of a snapshot row is skipped the next time.
  pub written_again :
      (f : LedgerFile rt) (snapshot payload : Dict rt) (as_of_ms : ℤ) (digest : String)
      (c : SnapshotContext rt) (observed_ms : Option ℤ) (run_id : Option String) (moment : Moment)
      (row : Dict rt) {row' : Dict rt}
      → snapshot_payload rt snapshot as_of_ms digest c ≡ ok payload
      → next_record rt f "SNAPSHOT" (obj payload) observed_ms run_id moment ≡ ok row
      → check_after rt (write_line rt f row) row ≡ ok row'
      → SkipsAgain (write_line rt f row) (snapshot, as_of_ms, digest)
  written_again f snapshot payload as_of_ms digest c observed_ms run_id moment row made next after =
      let f' = write_line rt f row in
      let (v, ran, good) = check_after-valid f' row after in
      let (_, read') = valid_reads f' ran good in
      let (rows, read) =
        next_record-reads f "SNAPSHOT" (obj payload) observed_ms run_id moment next in
      let r = next_record-IsSnapshotRow f payload observed_ms run_id moment next in
      let (at, hash) = snapshot_payload-fields snapshot as_of_ms digest c made in
      let (answer, skip, status) = skipped-row payload row r in
      found_again f' (snapshot, as_of_ms, digest) row answer
        (snapshot_exists-written f' row rows as_of_ms digest
          (records-write_line rt laws f row (whole_of_write f row read') read)
          (is_snapshot-row payload row as_of_ms digest r at hash))
        skip status
