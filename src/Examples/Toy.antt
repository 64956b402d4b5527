-- ===== src/Examples/Toy.antt =====
-- A runtime that runs: JSON lines are the values themselves, and the hash names the sequence number.
use crt_master.Base.{
  String, arith, err, false, if◌then◌else◌, none, ok, pos, pos_part, refl, some, str_eq, str_eq_iff,
  value_error, ℤ, ◌/◌, ◌==◌, ◌≡◌, ◌≢◌,
}
use crt_master.Json.{Json, get, int, obj}
use crt_master.Runtime.{JsonLaws, Runtime}
use crt_master.Examples.Fixed.{fixed}

abbrev pub digest_0 : String
digest_0 = "00000000000000000000000000000000000000000000000000000000000000aa"

abbrev pub by_sequence : Json ℤ → String
by_sequence (int (pos n)) =
    if n == 1 then "one" else if n == 2 then "two" else if n == 3 then "three" else "many"
by_sequence _ = digest_0

abbrev pub toy_hash : Json ℤ → String
toy_hash (obj d) = by_sequence (get "sequence" d)
toy_hash _ = digest_0

abbrev pub toy : Runtime
toy = record {
  floats = fixed;
  trunc = λ x. ok (pos (pos_part x / 1_000_000));
  parse_int = λ s. err (value_error "invalid literal for int()");
  parse_float = λ s. none;
  repr = λ v. "value";
  hash = toy_hash;
  upper = λ s. s;
  two_places = λ x. "0.95";
  Line = Json ℤ;
  dump = λ v. v;
  load = λ v. some v;
  is_blank = λ v. false;
}

pub toy_laws : JsonLaws toy
toy_laws = record { load-dump = λ d. refl; dump_not_blank = λ d. refl }

pub str-ne : (s t : String) → str_eq s t ≡ false → s ≢ t
str-ne s t h = λ e. ground (arith, str_eq_iff s t)
