-- ===== src/Liquidation/Verified.antt =====
-- The snapshots that `verify_snapshot` accepts (liquidation_aggregator.py).
use Prim.Native.String.{count}
use crt_master.Base.{
  >>=-eq-ok, String, ap, arith, ok, refl, require, require-ok, str_eq_refl, sym, true, ◌==◌, ◌∙◌,
  ◌≡◌,
}
use crt_master.Json.{arr, bool, float, get, int, is_str, null, obj, str, without}
use crt_master.Json.Laws.{is_str-eq}
use crt_master.Runtime.{Dict, Runtime, Value}
use crt_master.Liquidation.Verify.{is_digest, snapshot_schema, verify_snapshot}

module _ (rt : Runtime) where
  -- A snapshot carries the hash, of 64 digits, of what it holds beside it, and no authority.
  pub record IsVerified (d : Dict rt) : Type 0 where
    pub snapshot_hash : String
    pub sealed : get "snapshot_hash" d ≡ str snapshot_hash
    pub digits : (count snapshot_hash == 64) ≡ true
    pub hashed : rt.hash (obj (without "snapshot_hash" d)) ≡ snapshot_hash
    pub schema : get "schema_version" d ≡ str snapshot_schema
    pub authority : get "external_action_authority" d ≡ str "NONE"

  pub verify_snapshot-obj : (v : Value rt) {d : Dict rt} → verify_snapshot rt v ≡ ok d → v ≡ obj d
  unfolding verify_snapshot
  verify_snapshot-obj (obj snapshot) {d} h = ground arith
  verify_snapshot-obj null h = cc
  verify_snapshot-obj (bool b) h = cc
  verify_snapshot-obj (int n) h = cc
  verify_snapshot-obj (float x) h = cc
  verify_snapshot-obj (str s) h = cc
  verify_snapshot-obj (arr xs) h = cc

  pub verify_snapshot-IsVerified :
      (d : Dict rt) {d' : Dict rt} → verify_snapshot rt (obj d) ≡ ok d' → IsVerified d
  unfolding verify_snapshot
  verify_snapshot-IsVerified d h =
      let h₀ = get "snapshot_hash" d in
      let actual = rt.hash (obj (without "snapshot_hash" d)) in
      let (_, digest, r₁) = >>=-eq-ok (require (is_digest rt h₀) _) _ h in
      let (_, same, r₂) = >>=-eq-ok (require (is_str h₀ actual) _) _ r₁ in
      let (_, schema, r₃) =
        >>=-eq-ok (require (is_str (get "schema_version" d) snapshot_schema) _) _ r₂ in
      let (_, authority, _) =
        >>=-eq-ok (require (is_str (get "external_action_authority" d) "NONE") _) _ r₃ in
      let sealed = is_str-eq h₀ actual (require-ok _ _ same) in
      record {
        snapshot_hash = actual;
        sealed = sealed;
        digits = ap (is_digest rt) (sym sealed) ∙ require-ok _ _ digest;
        hashed = refl;
        schema = is_str-eq _ snapshot_schema (require-ok _ _ schema);
        authority = is_str-eq _ "NONE" (require-ok _ _ authority);
      }

  pub IsVerified-verify_snapshot : (d : Dict rt) → IsVerified d → verify_snapshot rt (obj d) ≡ ok d
  unfolding verify_snapshot
  IsVerified-verify_snapshot d v =
      rw (v.sealed, v.digits, v.hashed, str_eq_refl v.snapshot_hash, v.schema, v.authority)
