-- ===== src/Liquidation/Built.antt =====
-- What `build_snapshot` makes (liquidation_aggregator.py): a snapshot that `verify_snapshot` accepts,
-- and a quality that says no more than the store proves.
use Prim.Native.String.{count}
use crt_master.Base.{
  +ℤ_parts, -ℤ_parts, >>-eq-ok, Bool, List, Option, String, [], ap, arith, eq_of_parts, false,
  length, liquidation_error, not, ok, ok-injective, pos, refl, require, str_eq, str_eq_refl, subst,
  sym, true, ℕ, ℤ, ◌&&◌, ◌*◌, ◌++◌, ◌+ℤ◌, ◌-ℤ◌, ◌==◌, ◌↔◌, ◌∙◌, ◌∷◌, ◌≡◌, ◌≤ℤ◌,
}
use crt_master.Json.Laws.{get-put, without-put}
use crt_master.Json.{get, has, obj, str}
use crt_master.Runtime.{Dict, Moment, Runtime, Value, or_clock}
use crt_master.Liquidation.Overlap.Moments.{intervals_overlapping-covered_ms}
use crt_master.Liquidation.Verify.{snapshot_schema, verify_snapshot}
use crt_master.Liquidation.Snapshot.{
  Store, add_hash, bad_anomalies, blocked_reasons, build_snapshot, quality_of, reason_if,
  snapshot_base, window_summary,
}

module _ (rt : Runtime) where
  open rt use {floats, hash}
  open floats use {Float, lt, le, decimal}

  -- A SHA-256 digest is written with 64 digits.
  pub record HashLaws : Type 0 where
    pub digits : (v : Value rt) → count (hash v) ≡ 64

  verify_snapshot-sealed :
      (laws : HashLaws) (base : Dict rt)
      → has "snapshot_hash" base ≡ false
      → get "schema_version" base ≡ str snapshot_schema
      → get "external_action_authority" base ≡ str "NONE"
      → verify_snapshot rt (obj (add_hash rt "snapshot_hash" base))
        ≡ ok (add_hash rt "snapshot_hash" base)
  unfolding verify_snapshot
  verify_snapshot-sealed laws base absent schema authority =
      let v : Value rt = str (hash (obj base)) in
      rw
        (
          get-put "snapshot_hash" "snapshot_hash" v base,
          get-put "snapshot_hash" "schema_version" v base,
          get-put "snapshot_hash" "external_action_authority" v base,
          without-put "snapshot_hash" v base absent,
          schema,
          authority,
          laws.digits (obj base),
          str_eq_refl (hash (obj base)),
        )
        refl

  -- Every snapshot that `build_snapshot` returns is one that `verify_snapshot` accepts.
  pub build_snapshot-verify_snapshot :
      (laws : HashLaws) (store : Store rt) (as_of_ms : Option ℤ) (minimum : Float) (moment : Moment)
      {d : Dict rt}
      → build_snapshot rt store as_of_ms minimum moment ≡ ok d
      → verify_snapshot rt (obj d) ≡ ok d
  unfolding build_snapshot snapshot_base
  build_snapshot-verify_snapshot laws store as_of_ms minimum moment h =
      let (_, _, built) =
        >>-eq-ok
          (require (le (decimal 0 0) minimum && le minimum (decimal 1 0))
            (liquidation_error "minimum_coverage_ratio must be between 0 and 1"))
          _ h in
      subst (λ (x : Dict rt). verify_snapshot rt (obj x) ≡ ok x) (ok-injective built)
        (verify_snapshot-sealed laws
          (add_hash rt "snapshot_id"
            (snapshot_base rt store (or_clock as_of_ms moment.now_ms) minimum))
          refl refl refl)

  start_first : (t : ℤ) (n : ℕ) → (t -ℤ pos n) ≤ℤ t
  start_first t n = omega (arith, -ℤ_parts t (pos n))

  gap_fits :
      (t : ℤ) (n : ℕ) (c : ℤ)
      → pos 0 ≤ℤ c
      → c ≤ℤ (t -ℤ (t -ℤ pos n))
      → (pos 0 ≤ℤ (pos n -ℤ c)) × ((pos n -ℤ c) ≤ℤ pos n) × ((c +ℤ (pos n -ℤ c)) ≡ pos n)
  gap_fits t n c above fits = (
    omega (arith, -ℤ_parts t (pos n), -ℤ_parts t (t -ℤ pos n), -ℤ_parts (pos n) c),
    omega (arith, -ℤ_parts (pos n) c),
    eq_of_parts (c +ℤ (pos n -ℤ c)) (pos n)
        (omega (arith, +ℤ_parts c (pos n -ℤ c), -ℤ_parts (pos n) c)),
  )

  -- The window's covered and missing milliseconds are neither negative nor more than its length.
  pub window_summary-gap_ms :
      (store : Store rt) (seconds : ℕ) (as_of_ms : ℤ)
      → let w = window_summary rt store seconds as_of_ms in
        (pos 0 ≤ℤ w.gap_ms)
        × (w.gap_ms ≤ℤ pos (seconds * 1000))
        × ((w.covered +ℤ w.gap_ms) ≡ pos (seconds * 1000))
  unfolding window_summary
  window_summary-gap_ms store seconds as_of_ms =
      let n = pos (seconds * 1000) in
      let start_ms = as_of_ms -ℤ n in
      let (above, fits) =
        intervals_overlapping-covered_ms store.sessions start_ms as_of_ms
          (start_first as_of_ms (seconds * 1000)) in
      gap_fits as_of_ms (seconds * 1000) _ above fits

  quality-nil :
      (reasons : List String)
      → quality_of rt reasons ≡ "VALID_FRESH_COMPLETE_COVERAGE"
      → reasons ≡ []
  quality-nil [] h = refl
  quality-nil (r ∷ rs) h = absurd (differ (ap (λ s. str_eq s "BLOCKED") h))
    where
      differ : true ≡ false → ⊥
      differ h = cc

  quality_iff :
      (sound hour day : Bool) (n : ℕ) (r s t u : String)
      → (quality_of rt (
            reason_if rt (not sound) r
            ++ (reason_if rt hour s ++ (reason_if rt day t ++ reason_if rt (not (n == 0)) u)))
          ≡ "VALID_FRESH_COMPLETE_COVERAGE")
        ↔ ((sound ≡ true) × (hour ≡ false) × (day ≡ false) × (n ≡ 0))
  quality_iff sound hour day n r s t u =
      ((λ h. quiet (quality-nil _ h)), (λ (a, b, c, d). ap (quality_of rt) (silent a b c d)))
    where
      quiet :
          (reason_if rt (not sound) r
              ++ (reason_if rt hour s ++ (reason_if rt day t ++ reason_if rt (not (n == 0)) u)))
            ≡ []
          → (sound ≡ true) × (hour ≡ false) × (day ≡ false) × (n ≡ 0)
      quiet h = ground arith

      silent :
          sound ≡ true
          → hour ≡ false
          → day ≡ false
          → n ≡ 0
          → (reason_if rt (not sound) r
              ++ (reason_if rt hour s ++ (reason_if rt day t ++ reason_if rt (not (n == 0)) u)))
            ≡ []
      silent a b c d = ground arith

  -- The reasons leave the quality at VALID exactly when the integrity check passed, both windows have the minimum
  -- coverage, and the day before brought no anomaly but unfilled orders.
  pub blocked_reasons-quality :
      (store : Store rt) (as_of : ℤ) (minimum : Float)
      → (quality_of rt (blocked_reasons rt store as_of minimum) ≡ "VALID_FRESH_COMPLETE_COVERAGE")
        ↔ ((store.integrity_ok ≡ true)
            × (lt (window_summary rt store 3600 as_of).coverage_ratio minimum ≡ false)
            × (lt (window_summary rt store 86_400 as_of).coverage_ratio minimum ≡ false)
            × (length (bad_anomalies rt store.tables as_of) ≡ 0))
  unfolding blocked_reasons
  blocked_reasons-quality store as_of minimum =
      quality_iff store.integrity_ok _ _ (length (bad_anomalies rt store.tables as_of)) _ _ _ _

  same_text : (v : Value rt) {s t : String} → v ≡ str s → v ≡ str t → s ≡ t
  same_text v h k = cc

  -- A snapshot that `build_snapshot` returns says VALID_FRESH_COMPLETE_COVERAGE exactly when the
  -- integrity check passed, both windows have the minimum coverage, and the day before its time
  -- brought no anomaly but unfilled orders.
  pub build_snapshot-quality :
      (store : Store rt) (as_of_ms : Option ℤ) (minimum : Float) (moment : Moment) {d : Dict rt}
      → build_snapshot rt store as_of_ms minimum moment ≡ ok d
      → let as_of = or_clock as_of_ms moment.now_ms in
        (get "quality_state" d ≡ str "VALID_FRESH_COMPLETE_COVERAGE") ↔ (
          (store.integrity_ok ≡ true)
          × (lt (window_summary rt store 3600 as_of).coverage_ratio minimum ≡ false)
          × (lt (window_summary rt store 86_400 as_of).coverage_ratio minimum ≡ false)
          × (length (bad_anomalies rt store.tables as_of) ≡ 0))
  unfolding build_snapshot snapshot_base
  build_snapshot-quality store as_of_ms minimum moment {d} h =
      let as_of = or_clock as_of_ms moment.now_ms in
      let reasons = blocked_reasons rt store as_of minimum in
      let (_, _, built) =
        >>-eq-ok
          (require (le (decimal 0 0) minimum && le minimum (decimal 1 0))
            (liquidation_error "minimum_coverage_ratio must be between 0 and 1"))
          _ h in
      let said : get "quality_state" d ≡ str (quality_of rt reasons) =
        ap (λ (x : Dict rt). get "quality_state" x) (sym (ok-injective built)) in
      let (valid, clear) = blocked_reasons-quality store as_of minimum in
      ((λ k. valid (same_text (get "quality_state" d) said k)), (λ k. said ∙ ap str (clear k)))
