-- ===== src/Runtime.antt =====
-- What the code takes from Python's standard library beside floats: conversions, JSON text, and
-- SHA-256. `hash` is `sha256_hex(canonical_json_bytes(value))`.
use crt_master.Base.{
  Bool, Option, Result, String, eq_ℤ, err, false, if◌then◌else◌, key_error, map, none, of_option,
  ok, overflow_error, pos, some, str_eq, type_error, value_error, ℤ, ◌≡◌,
}
use crt_master.Json.{
  Fields, Items, Json, arr, bool, cons, float, get, has, int, keys, nil, null, obj, str, to_items,
}
use crt_master.Floats.{Floats}

pub record Runtime : Type 1 where
  pub floats : Floats
  -- int(x) of a float, and int(s) of a text
  pub trunc : floats.Float → Result ℤ
  pub parse_int : String → Result ℤ
  -- float(s) of a text; `none` is the ValueError
  pub parse_float : String → Option floats.Float
  -- str(v) of a value that is no text
  pub repr : Json floats.Float → String
  pub hash : Json floats.Float → String
  -- s.upper()
  pub upper : String → String
  -- f"{x:.2f}"
  pub two_places : floats.Float → String
  -- A line of bytes: `canonical_json_bytes(v)`, `json.loads(line)`, and `not line.strip()`.
  pub Line : Type 0
  pub dump : Json floats.Float → Line
  pub load : Line → Option (Json floats.Float)
  pub is_blank : Line → Bool

-- The clock reading and the fresh `uuid4` of one call.
pub record Moment : Type 0 where
  pub now_ms : ℤ
  pub uuid : String

-- `run_id or str(uuid.uuid4())`
abbrev pub or_fresh : Option String → String → String
or_fresh none fresh = fresh
or_fresh (some s) fresh = if str_eq s "" then fresh else s

abbrev pub or_clock : Option ℤ → ℤ → ℤ
or_clock none now = now
or_clock (some t) now = t

module _ (rt : Runtime) where
  open rt use {floats.{Float}, trunc, parse_int, repr, dump, load, is_blank}

  abbrev pub Value : Type 0
  Value = Json Float

  abbrev pub Dict : Type 0
  Dict = Fields Float

  -- JSON text of a dictionary reads back as that dictionary, and is no blank line. Python compares
  -- dictionaries by key; here the fields come back in the order that they were built in, where
  -- `sort_keys` sorts them.
  pub record JsonLaws : Type 0 where
    pub load-dump : (d : Dict) → load (dump (obj d)) ≡ some (obj d)
    pub dump_not_blank : (d : Dict) → is_blank (dump (obj d)) ≡ false

  abbrev pub int_of_bool : Bool → ℤ
  int_of_bool b = if b then pos 1 else pos 0

  -- int(v)
  unfoldable pub to_int : Value → Result ℤ
  to_int (int n) = ok n
  to_int (bool b) = ok (int_of_bool b)
  to_int (float x) = trunc x
  to_int (str s) = parse_int s
  to_int null = err (type_error "int() argument must be a string or a real number, not 'NoneType'")
  to_int (arr xs) = err (type_error "int() argument must be a string or a real number, not 'list'")
  to_int (obj d) = err (type_error "int() argument must be a string or a real number, not 'dict'")

  -- str(v)
  unfoldable pub to_str : Value → String
  to_str (str s) = s
  to_str v = repr v

  -- float(v)
  unfoldable pub to_float : Value → Result Float
  to_float (int n) = of_option (rt.floats.of_int n) overflow_error
  to_float (bool b) = of_option (rt.floats.of_int (int_of_bool b)) overflow_error
  to_float (float x) = ok x
  to_float (str s) = of_option (rt.parse_float s) (value_error "could not convert string to float")
  to_float _ = err (type_error "float() argument must be a string or a real number")

  -- d[key]
  unfoldable pub subscript : Dict → String → Result Value
  subscript d key = if has key d then ok (get key d) else err (key_error key)

  abbrev pub characters : String → Items Float
  characters String.[] = nil
  characters (String.◌∷◌ c s) = cons (str (String.◌∷◌ c String.[])) (characters s)

  -- list(v)
  unfoldable pub to_list : Value → Result (Items Float)
  to_list (arr xs) = ok xs
  to_list (obj d) = ok (to_items (map str (keys d)))
  to_list (str s) = ok (characters s)
  to_list _ = err (type_error "object is not iterable")

  -- v == n for an integer n: Booleans and floats compare as numbers.
  abbrev pub equals_int : Value → ℤ → Bool
  equals_int (int z) n = eq_ℤ z n
  equals_int (bool b) n = eq_ℤ (int_of_bool b) n
  equals_int (float x) n = rt.floats.eq_int x n
  equals_int _ n = false
