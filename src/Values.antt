-- ===== src/Values.antt =====
-- Python's `==` and `<=` on the values of a JSON text. Booleans and floats compare as numbers, a list
-- by its first member that differs, a dictionary by its keys in whatever order.
use crt_master.Base.{
  Bool, Result, err, false, leb_ℤ, ltb_ℤ, ok, suc, true, type_error, ℕ, ℤ, ◌&&◌, ◌==◌,
}
use crt_master.Json.{
  Items, arr, bool, cons, end, field, float, get, has, int, is_none, is_str, nil, null, obj, str,
}
use crt_master.Texts.{text_leb}
use crt_master.Runtime.{Dict, Runtime, Value, equals_int, int_of_bool}

module _ (rt : Runtime) where
  open rt use {floats}
  open floats use {Float}

  abbrev pub equals_float : Float → Value rt → Bool
  equals_float x (float y) = floats.eq x y
  equals_float x (int n) = floats.eq_int x n
  equals_float x (bool b) = floats.eq_int x (int_of_bool rt b)
  equals_float x _ = false

  abbrev pub count_fields : Dict rt → ℕ
  count_fields end = 0
  count_fields (field k v rest) = suc (count_fields rest)

  unfoldable mutual
    -- a == b
    pub equal : Value rt → Value rt → Bool
    equal null w = is_none w
    equal (bool b) w = equals_int rt w (int_of_bool rt b)
    equal (int n) w = equals_int rt w n
    equal (float x) w = equals_float x w
    equal (str s) w = is_str w s
    equal (arr xs) (arr ys) = equal_items xs ys
    equal (arr xs) w = false
    equal (obj d) (obj e) = (count_fields d == count_fields e) && equal_fields d e
    equal (obj d) w = false

    pub equal_items : Items Float → Items Float → Bool
    equal_items nil nil = true
    equal_items nil (cons y ys) = false
    equal_items (cons x xs) nil = false
    equal_items (cons x xs) (cons y ys) = equal x y && equal_items xs ys

    -- Each key of the first dictionary has an equal value in the second.
    pub equal_fields : Dict rt → Dict rt → Bool
    equal_fields end e = true
    equal_fields (field k v rest) e = has k e && (equal v (get k e) && equal_fields rest e)

  abbrev pub not_ordered : Result Bool
  not_ordered = err (type_error "'<=' not supported between these instances")

  -- n <= w and x <= w
  abbrev pub int_leb : ℤ → Value rt → Result Bool
  int_leb n (int m) = ok (leb_ℤ n m)
  int_leb n (bool b) = ok (leb_ℤ n (int_of_bool rt b))
  int_leb n (float x) = ok (floats.int_le n x)
  int_leb n _ = not_ordered

  abbrev pub float_leb : Float → Value rt → Result Bool
  float_leb x (int m) = ok (floats.le_int x m)
  float_leb x (bool b) = ok (floats.le_int x (int_of_bool rt b))
  float_leb x (float y) = ok (floats.le x y)
  float_leb x _ = not_ordered

  -- n < w
  abbrev pub int_ltb : ℤ → Value rt → Result Bool
  int_ltb n (int m) = ok (ltb_ℤ n m)
  int_ltb n (bool b) = ok (ltb_ℤ n (int_of_bool rt b))
  int_ltb n (float x) = ok (floats.int_lt n x)
  int_ltb n _ = err (type_error "'<' not supported between these instances")

  unfoldable mutual
    -- v <= w
    pub leb_value : Value rt → Value rt → Result Bool
    leb_value (int n) w = int_leb n w
    leb_value (bool b) w = int_leb (int_of_bool rt b) w
    leb_value (float x) w = float_leb x w
    leb_value (str s) (str t) = ok (text_leb s t)
    leb_value (str s) w = not_ordered
    leb_value (arr xs) (arr ys) = leb_items xs ys
    leb_value (arr xs) w = not_ordered
    leb_value null w = not_ordered
    leb_value (obj d) w = not_ordered

    pub leb_items : Items Float → Items Float → Result Bool
    leb_items nil ys = ok true
    leb_items (cons x xs) nil = ok false
    leb_items (cons x xs) (cons y ys) = elim (equal x y) [
      | true ↦ leb_items xs ys
      | false ↦ leb_value x y
    ]
