-- ===== src/Json.antt =====
-- The values that `json.loads` returns and the dictionaries that the code builds from them. A
-- dictionary is an association list; writing a key that is there replaces its value.
pub mod Laws
use crt_master.Base.{
  Bool, List, String, [], all, any, false, if◌then◌else◌, str_eq, true, ℤ, ◌&&◌, ◌||◌, ◌∷◌,
}

mutual
  pub data Json (F : Type 0) : Type 0 where
    null : Json F
    bool : Bool → Json F
    int : ℤ → Json F
    float : F → Json F
    str : String → Json F
    arr : Items F → Json F
    obj : Fields F → Json F

  pub data Items (F : Type 0) : Type 0 where
    nil : Items F
    cons : Json F → Items F → Items F

  pub data Fields (F : Type 0) : Type 0 where
    end : Fields F
    field : String → Json F → Fields F → Fields F

module _ {F : Type 0} where
  -- d.get(k): a missing key reads as `None`.
  abbrev pub get : String → Fields F → Json F
  get k end = null
  get k (field j v rest) = if str_eq j k then v else get k rest

  -- k in d
  abbrev pub has : String → Fields F → Bool
  has k end = false
  has k (field j v rest) = str_eq j k || has k rest

  -- d[k] = v
  abbrev pub put : String → Json F → Fields F → Fields F
  put k v end = field k v end
  put k v (field j w rest) = if str_eq j k then field j v rest else field j w (put k v rest)

  -- {key: value for key, value in d.items() if key != k}
  abbrev pub without : String → Fields F → Fields F
  without k end = end
  without k (field j v rest) = if str_eq j k then without k rest else field j v (without k rest)

  abbrev pub keys : Fields F → List String
  keys end = []
  keys (field k v rest) = k ∷ keys rest

  abbrev pub to_items : List (Json F) → Items F
  to_items [] = nil
  to_items (x ∷ xs) = cons x (to_items xs)

  abbrev pub items : Items F → List (Json F)
  items nil = []
  items (cons x xs) = x ∷ items xs

  -- value == text, value is True, value is False
  abbrev pub is_str : Json F → String → Bool
  is_str (str s) t = str_eq s t
  is_str _ t = false

  abbrev pub is_true : Json F → Bool
  is_true (bool true) = true
  is_true _ = false

  abbrev pub is_false : Json F → Bool
  is_false (bool false) = true
  is_false _ = false

  abbrev pub is_none : Json F → Bool
  is_none null = true
  is_none _ = false

abbrev pub contains : String → List String → Bool
contains k = any (λ j. str_eq j k)

-- Equality of two sets of strings, given as lists.
abbrev pub same_set : List String → List String → Bool
same_set xs ys = all (λ x. contains x ys) xs && all (λ y. contains y xs) ys
