-- ===== src/Liquidation/Verify.antt =====
-- radar/src/crt_radar/liquidation_aggregator.py: `verify_snapshot`, which every reader and writer of
-- a snapshot calls first.
use Prim.Native.String.{count}
use crt_master.Base.{Bool, Result, String, err, false, ok, require, snapshot_corruption, ◌==◌, ◌>>◌}
use crt_master.Json.{get, is_str, obj, str, without}
use crt_master.Runtime.{Dict, Runtime, Value}

abbrev pub snapshot_schema : String
snapshot_schema = "CRT_LIQ_AGGREGATE_SNAPSHOT_V1"

module _ (rt : Runtime) where
  -- `isinstance(expected, str) and len(expected) == 64`
  abbrev pub is_digest : Value rt → Bool
  is_digest (str s) = count s == 64
  is_digest _ = false

  unfoldable pub verify_snapshot : Value rt → Result (Dict rt)
  verify_snapshot (obj snapshot) = do
    require (is_digest (get "snapshot_hash" snapshot))
        (snapshot_corruption "snapshot_hash missing or invalid")
    require
        (is_str (get "snapshot_hash" snapshot) (rt.hash (obj (without "snapshot_hash" snapshot))))
        (snapshot_corruption "snapshot hash mismatch")
    require (is_str (get "schema_version" snapshot) snapshot_schema)
        (snapshot_corruption "snapshot schema mismatch")
    require (is_str (get "external_action_authority" snapshot) "NONE")
        (snapshot_corruption "snapshot cannot have external action authority")
    ok snapshot
  verify_snapshot _ = err (snapshot_corruption "snapshot must be an object")
