-- ===== src/Ledger/Twice.antt =====
-- `append_snapshot` is idempotent (run_ledger.py).
use crt_master.Base.{
  >>=-eq-ok, Error, Option, Result, Result-cases, String, ap, err, inl, inr, none, ok, some, subst,
  sym, ℤ, ◌>>=◌, ◌∙◌, ◌≡◌,
}
use crt_master.Json.{get, obj, str}
use crt_master.Runtime.{Dict, JsonLaws, Moment, Runtime, Value, or_clock}
use crt_master.Ledger.{LedgerFile}
use crt_master.Ledger.Append.{
  Outcome, SnapshotContext, append, append_found, append_identified, append_new, append_snapshot,
  check_after, identify, mark_appended, next_record, snapshot_exists, snapshot_payload, write_line,
}
use crt_master.Ledger.Grow.{append-next}
use crt_master.Ledger.Again.{SkipsAgain, found_again, skipped-status, written_again}

module _ (rt : Runtime) (laws : JsonLaws rt) where
  -- The steps of `append_snapshot`, each at the result of the one before.
  at_identity :
      (f : LedgerFile rt) (value : Value rt) (c : SnapshotContext rt) (m : Moment)
      (o : Result (Dict rt × ℤ × String))
      → identify rt value ≡ o
      → append_snapshot rt f value c m
        ≡ elim o [ err e ↦ (f, err e) | ok found ↦ append_identified rt f found c m ]
  unfolding append_snapshot
  at_identity f value c m o e = rw (e, append_snapshot)

  at_search :
      (f : LedgerFile rt) (found : Dict rt × ℤ × String) (c : SnapshotContext rt) (m : Moment)
      (o : Result (Option (Dict rt)))
      → snapshot_exists rt f found.1 found.2 ≡ o
      → append_identified rt f found c m
        ≡ elim o [ err e ↦ (f, err e) | ok row ↦ append_found rt f found c m row ]
  unfolding append_identified
  at_search f found c m o e = rw (e, append_identified)

  at_payload :
      (f : LedgerFile rt) (snapshot : Dict rt) (as_of_ms : ℤ) (digest : String)
      (c : SnapshotContext rt) (m : Moment) (o : Result (Dict rt))
      → snapshot_payload rt snapshot as_of_ms digest c ≡ o
      → append_found rt f (snapshot, as_of_ms, digest) c m none ≡ elim o [
        | err e ↦ (f, err e)
        | ok payload ↦ append_new rt f payload (some (or_clock c.observed_ms as_of_ms)) m
      ]
  unfolding append_found
  at_payload f snapshot as_of_ms digest c m o e = rw (e, append_found)

  append-raised :
      (f : LedgerFile rt) (record_type : String) (payload : Value rt) (observed_ms : Option ℤ)
      (run_id : Option String) (m : Moment) (e : Error)
      → next_record rt f record_type payload observed_ms run_id m ≡ err e
      → append rt f record_type payload observed_ms run_id m ≡ (f, err e)
  unfolding append
  append-raised f record_type payload observed_ms run_id m e raised = rw (raised, append)

  abbrev marked : Outcome rt (Dict rt) → Outcome rt (Dict rt)
  marked o = (o.0, (o.1 >>= λ x. ok (mark_appended rt x)))

  not_raised :
      {A : Type 0} (f f' : LedgerFile rt) (e : Error) (r : A)
      → ◌≡◌ {A = LedgerFile rt × Result A} (f, err e) (f', ok r)
      → ⊥
  not_raised f f' e r h = cc

  append_new_again :
      (f : LedgerFile rt) (snapshot payload : Dict rt) (as_of_ms : ℤ) (digest : String)
      (c : SnapshotContext rt) (observed_ms : Option ℤ) (m : Moment) (f' : LedgerFile rt)
      (r : Dict rt)
      → snapshot_payload rt snapshot as_of_ms digest c ≡ ok payload
      → append_new rt f payload observed_ms m ≡ (f', ok r)
      → SkipsAgain rt laws f' (snapshot, as_of_ms, digest)
  unfolding append_new
  append_new_again f snapshot payload as_of_ms digest c observed_ms m f' r made h =
      elim (Result-cases (next_record rt f "SNAPSHOT" (obj payload) observed_ms (some m.uuid) m)) [
        | inl (row, next) ↦
            let wrote =
              append-next rt laws f "SNAPSHOT" (obj payload) observed_ms (some m.uuid) m row next in
            let at_file = ap (λ (o : Outcome rt (Dict rt)). o.0) wrote in
            let at_result = ap (λ (o : Outcome rt (Dict rt)). o.1) wrote in
            let (row', after, _) =
              >>=-eq-ok (check_after rt (write_line rt f row) row) (λ x. ok (mark_appended rt x))
                (ap (λ (z : Result (Dict rt)). z >>= λ x. ok (mark_appended rt x)) (sym at_result)
                  ∙ ap (λ (o : Outcome rt (Dict rt)). o.1) h) in
            subst (λ g. SkipsAgain rt laws g (snapshot, as_of_ms, digest))
              (sym at_file ∙ ap (λ (o : Outcome rt (Dict rt)). o.0) h)
              (written_again rt laws f snapshot payload as_of_ms digest c observed_ms (some m.uuid)
                m row made next after)
        | inr (e, raised) ↦ absurd (
            not_raised f f' e r (
              sym (
                ap marked
                  (append-raised f "SNAPSHOT" (obj payload) observed_ms (some m.uuid) m e raised))
              ∙ h))
      ]

  append_found_again :
      (f : LedgerFile rt) (found : Dict rt × ℤ × String) (c : SnapshotContext rt) (m : Moment)
      (o : Option (Dict rt)) (f' : LedgerFile rt) (r : Dict rt)
      → snapshot_exists rt f found.1 found.2 ≡ ok o
      → append_found rt f found c m o ≡ (f', ok r)
      → SkipsAgain rt laws f' found
  unfolding append_found
  append_found_again f found c m (some row) f' r seen h =
      let skip = ap (λ (p : Outcome rt (Dict rt)). p.1) h in
      subst (λ g. SkipsAgain rt laws g found) (ap (λ (p : Outcome rt (Dict rt)). p.0) h)
        (found_again rt laws f found row r seen skip (skipped-status rt laws row skip))
  append_found_again f (snapshot, as_of_ms, digest) c m none f' r seen h =
      elim (Result-cases (snapshot_payload rt snapshot as_of_ms digest c)) [
        | inl (payload, made) ↦
            append_new_again f snapshot payload as_of_ms digest c
              (some (or_clock c.observed_ms as_of_ms)) m f' r made
              (sym (at_payload f snapshot as_of_ms digest c m (ok payload) made) ∙ h)
        | inr (e, raised) ↦ absurd (
            not_raised f f' e r
              (sym (at_payload f snapshot as_of_ms digest c m (err e) raised) ∙ h))
      ]

  append_identified_again :
      (f : LedgerFile rt) (found : Dict rt × ℤ × String) (c : SnapshotContext rt) (m : Moment)
      (f' : LedgerFile rt) (r : Dict rt)
      → append_identified rt f found c m ≡ (f', ok r)
      → SkipsAgain rt laws f' found
  append_identified_again f found c m f' r h =
      elim (Result-cases (snapshot_exists rt f found.1 found.2)) [
        | inl (o, seen) ↦
            append_found_again f found c m o f' r seen (sym (at_search f found c m (ok o) seen) ∙ h)
        | inr (e, raised) ↦
            absurd (not_raised f f' e r (sym (at_search f found c m (err e) raised) ∙ h))
      ]

  -- After a call of `append_snapshot` that returned, whether it wrote or skipped, a second call with
  -- the same snapshot, at any later moment and with any other context, writes nothing and returns
  -- `DUPLICATE_SKIPPED`.
  pub append_snapshot-again :
      (f : LedgerFile rt) (value : Value rt) (c : SnapshotContext rt) (m : Moment)
      (f' : LedgerFile rt) (r : Dict rt)
      → append_snapshot rt f value c m ≡ (f', ok r)
      → (c' : SnapshotContext rt) (m' : Moment)
      → (r' : Dict rt) × (append_snapshot rt f' value c' m' ≡ (f', ok r'))
        × (get "append_status" r' ≡ str "DUPLICATE_SKIPPED")
  append_snapshot-again f value c m f' r h c' m' = elim (Result-cases (identify rt value)) [
    | inl (found, known) ↦
        let (r', again, status) =
          append_identified_again f found c m f' r
            (sym (at_identity f value c m (ok found) known) ∙ h) c' m' in
        (r', at_identity f' value c' m' (ok found) known ∙ again, status)
    | inr (e, raised) ↦
        absurd (not_raised f f' e r (sym (at_identity f value c m (err e) raised) ∙ h))
  ]
