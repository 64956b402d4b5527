-- ===== src/Ledger/Left.antt =====
-- What a call of `append` leaves behind (run_ledger.py).
use crt_master.Base.{
  >>=-eq-ok, Error, Option, Result, Result-cases, String, [], err, failed_after_append, get_last?,
  inl, inr, none, ok, ok-injective, pos, refl, refusing_append, require, require-ok, subst, sym,
  true, ℤ, ◌++◌, ◌+◌, ◌∙◌, ◌∷◌, ◌≡◌, ◌⊎◌,
}
use crt_master.Json.{get, int, obj, str}
use crt_master.Runtime.{Dict, Moment, Runtime, Value, or_clock, or_fresh}
use crt_master.Ledger.{
  LedgerFile, Validation, body_for_hash, compute_record_hash, records, validate,
}
use crt_master.Ledger.Append.{
  Outcome, append, check_after, new_body, next_record, previous_link, seal, write_line,
}

module _ (rt : Runtime) where
  -- The whole file validates.
  abbrev pub IsAccepted : LedgerFile rt → Validation → Type 0
  IsAccepted f v = (validate rt none f ≡ ok v) × (v.valid ≡ true)

  -- A record with the next number and its own hash.
  abbrev pub IsNext : Validation → Dict rt → Type 0
  IsNext v row =
      (get "sequence" row ≡ int (pos (v.record_count + 1)))
      × (get "record_hash" row ≡ str (compute_record_hash rt row))

  -- Either nothing happened and the call raised, or the file validated and has one line more, of a
  -- record that is next; the call then returns that record only if the file still validates.
  abbrev pub Left : LedgerFile rt → Outcome rt (Dict rt) → Type 0
  Left f (f', r) =
      ((f' ≡ f) × (e : Error) × (r ≡ err e))
      ⊎ ((row : Dict rt) × (before : Validation) × IsAccepted f before
          × IsNext before row
          × (f'.lines ≡ f.lines ++ rt.dump (obj row) ∷ [])
          × (((after : Validation) × (r ≡ ok row) × IsAccepted f' after)
              ⊎ ((e : Error) × (r ≡ err e))))

  seal-IsNext :
      (v : Validation) (record_type : String) (payload : Value rt) (now : ℤ) (run_id : String)
      (link : Value rt)
      → IsNext v (seal rt (new_body rt (v.record_count + 1) record_type payload now run_id link))
  unfolding seal compute_record_hash body_for_hash
  seal-IsNext v record_type payload now run_id link = (refl, refl)

  next_record-IsNext :
      (f : LedgerFile rt) (record_type : String) (payload : Value rt) (observed_ms : Option ℤ)
      (run_id : Option String) (moment : Moment) {row : Dict rt}
      → next_record rt f record_type payload observed_ms run_id moment ≡ ok row
      → (v : Validation) × IsAccepted f v × IsNext v row
  unfolding next_record
  next_record-IsNext f record_type payload observed_ms run_id moment h =
      let (v, ran, h₁) = >>=-eq-ok (validate rt none f) _ h in
      let (_, good, h₂) = >>=-eq-ok (require v.valid refusing_append) _ h₁ in
      let (rows, _, h₃) = >>=-eq-ok (records rt f) _ h₂ in
      let (link, _, same) = >>=-eq-ok (previous_link rt (get_last? rows)) _ h₃ in
      (
        v,
        (ran, require-ok v.valid refusing_append good),
        subst (IsNext v) (ok-injective same) (
            seal-IsNext v record_type payload (or_clock observed_ms moment.now_ms)
              (or_fresh run_id moment.uuid) link),
      )

  check_after-IsAccepted :
      (f : LedgerFile rt) (row : Dict rt)
      → ((after : Validation) × (check_after rt f row ≡ ok row) × IsAccepted f after)
        ⊎ ((e : Error) × (check_after rt f row ≡ err e))
  unfolding check_after
  check_after-IsAccepted f row = elim (Result-cases (check_after rt f row)) [
    | inl (row', returned) ↦
        let (v, ran, h₁) = >>=-eq-ok (validate rt none f) _ returned in
        let (_, good, same) = >>=-eq-ok (require v.valid failed_after_append) _ h₁ in
        inl (v, returned ∙ sym same, (ran, require-ok v.valid failed_after_append good))
    | inr (e, raised) ↦ inr (e, raised)
  ]

  -- Every call of `append`, on any file whatever: either it raises and the file is as it was, or the
  -- file validated before and the call added behind its lines, which stay, one line, of a record with
  -- the next number and its own hash; then it returns that record and the file validates again, or it
  -- raises.
  pub append-Left :
      (f : LedgerFile rt) (record_type : String) (payload : Value rt) (observed_ms : Option ℤ)
      (run_id : Option String) (moment : Moment)
      → Left f (append rt f record_type payload observed_ms run_id moment)
  unfolding append
  append-Left f record_type payload observed_ms run_id moment =
      by_record (next_record rt f record_type payload observed_ms run_id moment) refl
    where
      by_record :
          (r : Result (Dict rt))
          → next_record rt f record_type payload observed_ms run_id moment ≡ r
          → Left f (elim r [
            | err e ↦ (f, err e)
            | ok row ↦ (write_line rt f row, check_after rt (write_line rt f row) row)
          ])
      by_record (err e) h = inl (refl, e, refl)
      by_record (ok row) h =
          let (v, accepted, next) =
            next_record-IsNext f record_type payload observed_ms run_id moment h in
          inr (row, v, accepted, next, refl, check_after-IsAccepted (write_line rt f row) row)
