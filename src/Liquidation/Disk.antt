-- ===== src/Liquidation/Disk.antt =====
-- radar/src/crt_radar/liquidation_aggregator.py: `write_snapshot` and `load_verified_snapshot`. A file
-- is its text, or none; `pretty` is `json.dumps(…, indent=2, sort_keys=True)` with a newline, `parse` is
-- `json.loads`.
use crt_master.Base.{
  Error, Option, Result, String, err, file_not_found, inl, inr, none, not_json, of_option, ok, refl,
  some, subst, sym, ◌>>=◌, ◌∙◌, ◌≡◌, ◌⊎◌,
}
use crt_master.Json.{get, obj, str, without}
use crt_master.Runtime.{Dict, Runtime, Value}
use crt_master.Liquidation.Verify.{snapshot_schema, verify_snapshot}
use crt_master.Liquidation.Verified.{
  IsVerified, IsVerified-verify_snapshot, verify_snapshot-IsVerified, verify_snapshot-obj,
}

module _ (Text : Type 0) where
  -- The file at the path, and the one beside it with the suffix .tmp.
  pub record Place : Type 0 where
    pub target : Option Text
    pub temporary : Option Text

  -- Where the system raises, if it does: before the temporary file is there, when it holds some of
  -- the text, or when it is complete and takes the place of the target.
  pub data Fault : Type 0 where
    not_opened : Error → Fault
    partly_written : Text → Error → Fault
    not_replaced : Error → Fault

  unfoldable pub write_file : Place → Text → Option Fault → Place × Result (Unit {0})
  write_file place text none = (record { target = some text; temporary = none }, ok tt)
  write_file place text (some (not_opened e)) = (place, err e)
  write_file place text (some (partly_written left e)) =
      (record place { temporary = some left }, err e)
  write_file place text (some (not_replaced e)) = (record place { temporary = some text }, err e)

module _ (rt : Runtime) (Text : Type 0) (pretty : Value rt → Text)
    (parse : Text → Option (Value rt)) where
  unfoldable pub write_snapshot :
      Place Text → Value rt → Option (Fault Text) → Place Text × Result (Unit {0})
  write_snapshot place snapshot fault = elim (verify_snapshot rt snapshot) [
    | err e ↦ (place, err e)
    | ok d ↦ write_file Text place (pretty (obj d)) fault
  ]

  unfoldable pub load_verified_snapshot : Option Text → Result (Dict rt)
  load_verified_snapshot none = err file_not_found
  load_verified_snapshot (some text) = of_option (parse text) not_json >>= verify_snapshot rt

  -- What is known of a printed dictionary that is read, in which the keys come in another order: the
  -- texts under its keys, and its hash, which sorts them.
  pub record PrettyLaws : Type 0 where
    pub read_back : Dict rt → Dict rt
    pub parsed : (d : Dict rt) → parse (pretty (obj d)) ≡ some (obj (read_back d))
    pub texts : (d : Dict rt) (k s : String) → get k d ≡ str s → get k (read_back d) ≡ str s
    pub hashes :
        (d : Dict rt) (k : String)
        → rt.hash (obj (without k (read_back d))) ≡ rt.hash (obj (without k d))

  -- A load that returns gives a snapshot that carries its own hash and no authority.
  abbrev pub LoadsVerified : Result (Dict rt) → Type 0
  LoadsVerified (ok d) = IsVerified rt d
  LoadsVerified (err e) = Unit

  load_verified_snapshot-LoadsVerified :
      (file : Option Text) → LoadsVerified (load_verified_snapshot file)
  unfolding load_verified_snapshot
  load_verified_snapshot-LoadsVerified none = tt
  load_verified_snapshot-LoadsVerified (some text) = by_read (of_option (parse text) not_json)
    where
      by_verified :
          (v : Value rt) (r : Result (Dict rt)) → verify_snapshot rt v ≡ r → LoadsVerified r
      by_verified v (err e) h = tt
      by_verified v (ok d) h =
          verify_snapshot-IsVerified rt d
            (subst (λ u. verify_snapshot rt u ≡ ok d) (verify_snapshot-obj rt v h) h)

      by_read : (r : Result (Value rt)) → LoadsVerified (r >>= verify_snapshot rt)
      by_read (err e) = tt
      by_read (ok v) = by_verified v (verify_snapshot rt v) refl

  read_back-IsVerified :
      (laws : PrettyLaws) (d : Dict rt) → IsVerified rt d → IsVerified rt (laws.read_back d)
  read_back-IsVerified laws d v = record {
    snapshot_hash = v.snapshot_hash;
    sealed = laws.texts d "snapshot_hash" v.snapshot_hash v.sealed;
    digits = v.digits;
    hashed = laws.hashes d "snapshot_hash" ∙ v.hashed;
    schema = laws.texts d "schema_version" snapshot_schema v.schema;
    authority = laws.texts d "external_action_authority" "NONE" v.authority;
  }

  load_verified_snapshot-pretty :
      (laws : PrettyLaws) (d : Dict rt)
      → IsVerified rt d
      → load_verified_snapshot (some (pretty (obj d))) ≡ ok (laws.read_back d)
  unfolding load_verified_snapshot
  load_verified_snapshot-pretty laws d v =
      rw (laws.parsed d)
        (IsVerified-verify_snapshot rt (laws.read_back d) (read_back-IsVerified laws d v))

  -- What a call of `write_snapshot` left: it returned, for a snapshot that carries its own hash, no
  -- temporary file is there, and a load gives what reading the printed snapshot gives, with the same
  -- hash in it; or it raised, and the file at the path is as it was.
  abbrev pub IsWritten :
      PrettyLaws → Place Text → Value rt → Place Text × Result (Unit {0}) → Type 0
  IsWritten laws place snapshot (place', r) =
      ((d : Dict rt) × (snapshot ≡ obj d)
        × (r ≡ ok tt)
        × (place'.temporary ≡ none)
        × (load_verified_snapshot place'.target ≡ ok (laws.read_back d))
        × ((v : IsVerified rt d) × (get "snapshot_hash" (laws.read_back d) ≡ str v.snapshot_hash)))
      ⊎ ((e : Error) × (r ≡ err e) × (place'.target ≡ place.target))

  write_file-IsWritten :
      (laws : PrettyLaws) (place : Place Text) (d : Dict rt) (fault : Option (Fault Text))
      → IsVerified rt d
      → IsWritten laws place (obj d) (write_file Text place (pretty (obj d)) fault)
  unfolding write_file
  write_file-IsWritten laws place d none v = inl (
    d,
    refl,
    refl,
    refl,
    load_verified_snapshot-pretty laws d v,
    (v, laws.texts d "snapshot_hash" v.snapshot_hash v.sealed),
  )
  write_file-IsWritten laws place d (some (not_opened e)) v = inr (e, refl, refl)
  write_file-IsWritten laws place d (some (partly_written left e)) v = inr (e, refl, refl)
  write_file-IsWritten laws place d (some (not_replaced e)) v = inr (e, refl, refl)

  -- Every call of `write_snapshot`, wherever the system raises in it: if it returns, the snapshot
  -- carries its own hash, no temporary file is left, and a load gives the snapshot as it is read back,
  -- with the same hash; if it raises, the file at the path is as it was. Whatever then is in that file,
  -- a load that returns gives a snapshot that carries its own hash and no authority. The laws assumed
  -- are that printing and reading keep the texts under the keys and the hash without a key.
  pub load_verified_snapshot-write_snapshot :
      (laws : PrettyLaws) (place : Place Text) (snapshot : Value rt) (fault : Option (Fault Text))
      → IsWritten laws place snapshot (write_snapshot place snapshot fault)
        × LoadsVerified (load_verified_snapshot (write_snapshot place snapshot fault).0.target)
  unfolding write_snapshot
  load_verified_snapshot-write_snapshot laws place snapshot fault = (
    by_verified (verify_snapshot rt snapshot) refl,
    load_verified_snapshot-LoadsVerified (write_snapshot place snapshot fault).0.target,
  )
    where
      by_verified :
          (r : Result (Dict rt))
          → verify_snapshot rt snapshot ≡ r
          → IsWritten laws place snapshot (elim r [
            | err e ↦ (place, err e)
            | ok d ↦ write_file Text place (pretty (obj d)) fault
          ])
      by_verified (err e) h = inr (e, refl, refl)
      by_verified (ok d) h =
          let same = verify_snapshot-obj rt snapshot h in
          let v =
            verify_snapshot-IsVerified rt d (subst (λ u. verify_snapshot rt u ≡ ok d) same h) in
          subst (λ u. IsWritten laws place u (write_file Text place (pretty (obj d)) fault))
            (sym same) (write_file-IsWritten laws place d fault v)
