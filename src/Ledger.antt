-- ===== src/Ledger.antt =====
-- radar/src/crt_radar/run_ledger.py: the append-only ledger whose records carry the hash of the
-- record before. The file is its lines, with whether the last one lacks its newline; the clock and
-- fresh identifiers are arguments.
pub mod Append
pub mod Chain
pub mod Steps
pub mod Validate
pub mod Reading
pub mod Grow
pub mod Tamper
pub mod Left
pub mod Again
pub mod Twice
use crt_master.Base.{
  Bool, Error, List, Option, Result, String, [], any, eq_ℤ, err, false, if◌then◌else◌, invalid_json,
  keep_if, length, negsuc, none, not, not_an_object, ok, pos, some, str_eq, torn_append, true, ℕ, ℤ,
  ◌&&◌, ◌++◌, ◌+◌, ◌>>=◌, ◌>>◌, ◌∷◌,
}
use crt_master.Json.{bool, contains, get, has, int, is_false, is_str, obj, str, without}
use crt_master.Runtime.{Dict, Runtime, Value, equals_int, int_of_bool, to_int, to_str}

abbrev pub ledger_schema : String
ledger_schema = "CRT_RUN_LEDGER_RECORD_V1"

-- "0" * 64
abbrev pub genesis_hash : String
genesis_hash = "0000000000000000000000000000000000000000000000000000000000000000"

-- An entry of `errors`; the number is that of the line.
pub data Issue : Type 0 where
  unreadable : Error → Issue
  not_contiguous : ℕ → Issue
  wrong_schema : ℕ → Issue
  previous_mismatch : ℕ → Issue
  authority_not_none : ℕ → Issue
  action_performed : ℕ → Issue
  hash_mismatch : ℕ → Issue
  duplicate_hash : ℕ → Issue
  payload_missing : ℕ → Issue
  duplicate_key : ℕ → Issue
  head_mismatch : Issue

abbrev pub note_if : Bool → Issue → List Issue
note_if true issue = issue ∷ []
note_if false issue = []

pub record Validation : Type 0 where
  pub valid : Bool
  pub record_count : ℕ
  pub last_sequence : ℤ
  pub head_hash : String
  pub errors : List Issue

abbrev pub is_empty {ℓ} : {A : Type ℓ} → List A → Bool
is_empty [] = true
is_empty (x ∷ xs) = false

module _ (rt : Runtime) where
  open rt use {Line, dump, load, is_blank, hash}

  pub record LedgerFile : Type 0 where
    pub lines : List Line
    pub torn : Bool

  -- `_raw_lines`: an empty file has no line that could be torn.
  unfoldable pub raw_lines : LedgerFile → Result (List Line)
  raw_lines f =
      if is_empty f.lines
      then ok []
      else if f.torn
      then err torn_append
      else ok (keep_if (λ l. not (is_blank l)) f.lines)

  unfoldable pub read_row : ℕ → Line → Result (Dict rt)
  read_row index line = elim (load line) [
    | some (obj row) ↦ ok row
    | some other ↦ err (not_an_object index)
    | none ↦ err (invalid_json index)
  ]

  unfoldable pub read_rows : ℕ → List Line → Result (List (Dict rt))
  read_rows index [] = ok []
  read_rows index (line ∷ rest) = do
    row ← read_row index line
    rows ← read_rows (index + 1) rest
    ok (row ∷ rows)

  unfoldable pub records : LedgerFile → Result (List (Dict rt))
  records f = do lines ← raw_lines f; read_rows 1 lines

  -- `_body_for_hash` and `compute_record_hash`
  unfoldable pub body_for_hash : Dict rt → Dict rt
  body_for_hash row = without "record_hash" row

  unfoldable pub compute_record_hash : Dict rt → String
  compute_record_hash row = hash (obj (body_for_hash row))

  -- The variables of the loop in `validate`.
  pub record Scan : Type 0 where
    pub errors : List Issue
    pub previous_hash : String
    pub seen_hashes : List String
    pub seen_keys : List (ℤ × String)
    pub last_sequence : ℤ

  -- The checks of one row that need only the row and the hash before it.
  unfoldable pub row_issues : ℕ → String → Dict rt → List Issue
  row_issues n previous row =
      note_if (not (equals_int rt (get "sequence" row) (pos n))) (not_contiguous n)
      ++ (note_if (not (is_str (get "schema_version" row) ledger_schema)) (wrong_schema n)
          ++ (note_if (not (is_str (get "prev_record_hash" row) previous)) (previous_mismatch n)
              ++ (note_if (not (is_str (get "external_action_authority" row) "NONE"))
                    (authority_not_none n)
                  ++ (note_if (not (is_false (get "external_action_performed" row)))
                        (action_performed n)
                      ++ note_if (not (is_str (get "record_hash" row) (compute_record_hash row)))
                          (hash_mismatch n)))))

  -- `if isinstance(stored_hash, str)`
  unfoldable pub scan_hash : ℕ → Value rt → Scan → Scan
  scan_hash n (str stored) s = record s {
    errors = s.errors ++ note_if (contains stored s.seen_hashes) (duplicate_hash n);
    seen_hashes = stored ∷ s.seen_hashes;
    previous_hash = stored;
  }
  scan_hash n _ s = s

  abbrev pub same_key : ℤ × String → ℤ × String → Bool
  same_key (a, s) (b, t) = eq_ℤ a b && str_eq s t

  -- `payload.get("as_of_ms", -1)`
  abbrev pub as_of_or : Dict rt → Value rt
  as_of_or payload = if has "as_of_ms" payload then get "as_of_ms" payload else int (negsuc 0)

  unfoldable pub snapshot_key : Dict rt → Result (ℤ × String)
  snapshot_key payload = do
    as_of_ms ← to_int rt (as_of_or payload)
    ok (as_of_ms, to_str rt (get "snapshot_hash" payload))

  abbrev pub add_key : ℕ → ℤ × String → Scan → Scan
  add_key n key s = record s {
    errors = s.errors ++ note_if (any (λ k. same_key k key) s.seen_keys) (duplicate_key n);
    seen_keys = key ∷ s.seen_keys;
  }

  unfoldable pub scan_payload : ℕ → Value rt → Scan → Result Scan
  scan_payload n (obj payload) s = do key ← snapshot_key payload; ok (add_key n key s)
  scan_payload n _ s = ok (record s { errors = s.errors ++ payload_missing n ∷ [] })

  -- `isinstance(sequence, int)`, which a Boolean is too.
  unfoldable pub scan_sequence : Value rt → Scan → Scan
  scan_sequence (int z) s = record s { last_sequence = z }
  scan_sequence (bool b) s = record s { last_sequence = int_of_bool rt b }
  scan_sequence _ s = s

  unfoldable pub scan_row : ℕ → Dict rt → Scan → Result Scan
  scan_row n row s =
      let checked = record s { errors = s.errors ++ row_issues n s.previous_hash row } in
      let hashed = scan_hash n (get "record_hash" row) checked in
      (if is_str (get "record_type" row) "SNAPSHOT"
        then scan_payload n (get "payload" row) hashed
        else ok hashed)
      >>= λ s'. ok (scan_sequence (get "sequence" row) s')

  unfoldable pub scan_rows : ℕ → List (Dict rt) → Scan → Result Scan
  scan_rows n [] s = ok s
  scan_rows n (row ∷ rows) s = scan_row n row s >>= λ s'. scan_rows (n + 1) rows s'

  abbrev pub start : Scan
  start = record {
    errors = [];
    previous_hash = genesis_hash;
    seen_hashes = [];
    seen_keys = [];
    last_sequence = pos 0;
  }

  -- `expected_head_hash is not None and previous_hash != expected_head_hash`
  abbrev pub head_issues : Option String → String → List Issue
  head_issues none head = []
  head_issues (some expected) head = note_if (not (str_eq head expected)) head_mismatch

  -- `validate` after the rows were read.
  unfoldable pub validate_rows : Option String → List (Dict rt) → Result Validation
  validate_rows expected_head_hash rows = do
    s ← scan_rows 1 rows start
    let errors = s.errors ++ head_issues expected_head_hash s.previous_hash
    ok (record {
      valid = is_empty errors;
      record_count = length rows;
      last_sequence = s.last_sequence;
      head_hash = s.previous_hash;
      errors = errors;
    })

  unfoldable pub validate : Option String → LedgerFile → Result Validation
  validate expected_head_hash f = elim (records f) [
    | ok rows ↦ validate_rows expected_head_hash rows
    | err e ↦ ok (record {
      valid = false;
      record_count = 0;
      last_sequence = pos 0;
      head_hash = genesis_hash;
      errors = unreadable e ∷ [];
    })
  ]
