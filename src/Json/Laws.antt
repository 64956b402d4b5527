-- ===== src/Json/Laws.antt =====
-- Reading a dictionary after a write, and reading a list back.
use crt_master.Base.{
  Bool, List, String, [], ap, arith, false, if◌then◌else◌, refl, str_eq, str_eq_iff, str_eq_refl,
  true, ◌||◌, ◌∙◌, ◌∷◌, ◌≡◌,
}
use crt_master.Json.{
  Fields, Json, arr, bool, end, field, float, get, has, int, is_str, items, null, obj, put, str,
  to_items, without,
}

module _ {F : Type 0} where
  pub get-put :
      (k j : String) (v : Json F) (d : Fields F)
      → get j (put k v d) ≡ (if str_eq k j then v else get j d)
  get-put k j v end = refl
  get-put k j v (field i w rest) =
      ground (arith, str_eq_iff k j, str_eq_iff i k, str_eq_iff i j, get-put k j v rest)

  pub items-to_items : (xs : List (Json F)) → items (to_items xs) ≡ xs
  items-to_items [] = refl
  items-to_items (x ∷ xs) = ap (◌∷◌ x) (items-to_items xs)

  pub without_absent : (k : String) (d : Fields F) → has k d ≡ false → without k d ≡ d
  without_absent k end h = refl
  without_absent k (field j v rest) h = ground (arith, without_absent k rest)

  pub is_str-eq : (v : Json F) (t : String) → is_str v t ≡ true → v ≡ str t
  is_str-eq (str s) t h = ap str ((str_eq_iff s t).0 h)
  is_str-eq null t h = cc
  is_str-eq (bool b) t h = cc
  is_str-eq (int n) t h = cc
  is_str-eq (float x) t h = cc
  is_str-eq (arr xs) t h = cc
  is_str-eq (obj d) t h = cc

  -- A key that reads as a text is there.
  pub has_of_str : (k : String) (d : Fields F) (s : String) → get k d ≡ str s → has k d ≡ true
  has_of_str k end s h = cc
  has_of_str k (field j v rest) s h = ground (arith, has_of_str k rest s)

  -- A key that is not there reads as null.
  pub get_absent : (k : String) (d : Fields F) → has k d ≡ false → get k d ≡ null
  get_absent k end h = refl
  get_absent k (field j v rest) h = ground (arith, get_absent k rest)

  pub without-put :
      (k : String) (v : Json F) (d : Fields F) → has k d ≡ false → without k (put k v d) ≡ d
  without-put k v end h = ground (arith, str_eq_iff k k)
  without-put k v (field j w rest) h = ground (arith, str_eq_iff k k, without-put k v rest)

  pub get-without :
      (k j : String) (d : Fields F) → str_eq k j ≡ false → get j (without k d) ≡ get j d
  get-without k j end h = refl
  get-without k j (field i w rest) h =
      ground (arith, str_eq_iff i k, str_eq_iff i j, str_eq_iff k j, get-without k j rest h)

  pub has-without : (k : String) (d : Fields F) → has k (without k d) ≡ false
  has-without k end = refl
  has-without k (field i w rest) = ground (arith, has-without k rest)

  -- Writes one after another.
  abbrev pub puts : List (String × Json F) → Fields F → Fields F
  puts [] d = d
  puts ((k, v) ∷ ws) d = puts ws (put k v d)

  abbrev pub is_written : String → List (String × Json F) → Bool
  is_written j [] = false
  is_written j ((k, v) ∷ ws) = str_eq k j || is_written j ws

  pub get-puts :
      (j : String) (ws : List (String × Json F)) (d : Fields F)
      → is_written j ws ≡ false
      → get j (puts ws d) ≡ get j d
  get-puts j [] d h = refl
  get-puts j ((k, v) ∷ ws) d h = ground (arith, get-puts j ws (put k v d), get-put k j v d)

  -- The value that was written last under a key.
  pub get-puts_last :
      (k : String) (v : Json F) (ws : List (String × Json F)) (d : Fields F)
      → is_written k ws ≡ false
      → get k (puts ws (put k v d)) ≡ v
  get-puts_last k v ws d h =
      get-puts k ws (put k v d) h ∙ (get-put k k v d ∙ rw (str_eq_refl k) refl)

  pub has-put :
      (k j : String) (v : Json F) (d : Fields F) → has j (put k v d) ≡ (str_eq k j || has j d)
  has-put k j v end = refl
  has-put k j v (field i w rest) =
      ground (arith, str_eq_iff k j, str_eq_iff i k, str_eq_iff i j, has-put k j v rest)
