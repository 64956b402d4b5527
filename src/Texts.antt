-- ===== src/Texts.antt =====
-- What the code does with texts: the white space that `str.strip` takes away, the order of texts, and
-- the sorted list of a set of them.
use Prim.Native.Nat.{Ordering}
use Prim.Native.Char.{Char, code}
use Prim.Native.String.{compare as compare_text}
use crt_master.Base.{
  Bool, List, String, [], false, if◌then◌else◌, leb, str_eq, true, ℕ, ◌&&◌, ◌==◌, ◌||◌, ◌∷◌,
}

abbrev pub between : ℕ → ℕ → ℕ → Bool
between low high n = leb low n && leb n high

-- The characters that `str.strip` takes away.
abbrev pub is_space : Char → Bool
is_space c =
    between 9 13 (code c)
    || (between 28 32 (code c)
        || (code c == 133
            || (code c == 160
                || (code c == 5760
                    || (between 8192 8202 (code c)
                        || (between 8232 8233 (code c)
                            || (code c == 8239 || (code c == 8287 || code c == 12_288))))))))

-- `not s.strip()`
abbrev pub strips_empty : String → Bool
strips_empty String.[] = true
strips_empty (String.◌∷◌ c s) = is_space c && strips_empty s

abbrev pub lstrip : String → String
lstrip String.[] = String.[]
lstrip (String.◌∷◌ c s) = if is_space c then lstrip s else String.◌∷◌ c s

abbrev pub rstrip : String → String
rstrip String.[] = String.[]
rstrip (String.◌∷◌ c s) =
    if is_space c && strips_empty s then String.[] else String.◌∷◌ c (rstrip s)

-- s.strip()
abbrev pub strip : String → String
strip s = rstrip (lstrip s)

-- Order of texts by code points.
abbrev pub text_leb : String → String → Bool
text_leb a b = elim (compare_text a b) [ Ordering.gt ↦ false | _ ↦ true ]

-- `sorted(set(texts))`
unfoldable pub insert_text : String → List String → List String
insert_text s [] = s ∷ []
insert_text s (t ∷ ts) =
    if str_eq s t
    then t ∷ ts
    else elim (text_leb s t) [ true ↦ s ∷ t ∷ ts | false ↦ t ∷ insert_text s ts ]

unfoldable pub sorted_set : List String → List String
sorted_set [] = []
sorted_set (s ∷ ss) = insert_text s (sorted_set ss)
