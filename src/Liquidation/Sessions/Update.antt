-- ===== src/Liquidation/Sessions/Update.antt =====
-- Rows of the `sessions` table after an `UPDATE` (liquidation_aggregator.py): which keep their place,
-- and what the key of the table is worth.
use crt_master.Base.{
  All, Bool, Bool-cases, List, String, [], any, ap, ap₂, arith, false, find_first, inl, inr, refl,
  some, str_eq, str_eq_iff, sym, true, ◌++◌, ◌||◌, ◌∙◌, ◌∷◌, ◌≡◌,
}
use crt_master.Liquidation.Sessions.{Session, has_id, update}

-- `session_id TEXT PRIMARY KEY`
abbrev pub IsDistinct : List Session → Type 0
IsDistinct [] = Unit {0}
IsDistinct (s ∷ rest) = (any (has_id s.session_id) rest ≡ false) × IsDistinct rest

abbrev pub KeepsId : (Session → Session) → Type 0
KeepsId change = (s : Session) → (change s).session_id ≡ s.session_id

update-any :
    (id other : String) (change : Session → Session) (rows : List Session)
    → KeepsId change
    → any (has_id other) (update id change rows) ≡ any (has_id other) rows
unfolding update
update-any id other change [] keeps = refl
update-any id other change (s ∷ rest) keeps = elim (Bool-cases (has_id id s)) [
  | inl same ↦
      rw (same, update)
        (ap₂ (λ i b. str_eq i other || b) (keeps s) (update-any id other change rest keeps))
  | inr apart ↦
      rw (apart, update) (ap (λ b. has_id other s || b) (update-any id other change rest keeps))
]

pub update-IsDistinct :
    (id : String) (change : Session → Session) (rows : List Session)
    → KeepsId change
    → IsDistinct rows
    → IsDistinct (update id change rows)
unfolding update
update-IsDistinct id change [] keeps h = tt
update-IsDistinct id change (s ∷ rest) keeps (h, hs) = elim (Bool-cases (has_id id s)) [
  | inl same ↦
      rw (same, update)
        ((
          ap (λ i. any (has_id i) (update id change rest)) (keeps s)
              ∙ update-any id s.session_id change rest keeps
              ∙ h,
          update-IsDistinct id change rest keeps hs,
        ))
  | inr apart ↦
      rw (apart, update)
        ((
          update-any id s.session_id change rest keeps ∙ h,
          update-IsDistinct id change rest keeps hs,
        ))
]

str_eq_swap : (s t : String) → str_eq s t ≡ true → str_eq t s ≡ true
str_eq_swap s t h = ground (arith, str_eq_iff s t, str_eq_iff t s)

pub append-any :
    (id : String) (rows : List Session) (s : Session)
    → any (has_id id) (rows ++ s ∷ []) ≡ (any (has_id id) rows || has_id id s)
append-any id [] s = ground arith
append-any id (r ∷ rows) s = ground (arith, append-any id rows s)

pub fresh_tail :
    (id : String) (r : Session) (rows : List Session)
    → any (has_id id) (r ∷ rows) ≡ false
    → (has_id id r ≡ false) × (any (has_id id) rows ≡ false)
fresh_tail id r rows h = ground arith

pub not_swapped : (s t : String) → str_eq s t ≡ false → str_eq t s ≡ false
not_swapped s t h = ground (arith, str_eq_swap t s)

pub append-IsDistinct :
    (rows : List Session) (s : Session)
    → any (has_id s.session_id) rows ≡ false
    → IsDistinct rows
    → IsDistinct (rows ++ s ∷ [])
append-IsDistinct [] s h k = (refl, tt)
append-IsDistinct (r ∷ rows) s h (k, ks) =
    let (head, tail) = fresh_tail s.session_id r rows h in
    (
      append-any r.session_id rows s
          ∙ ap₂ (λ x y. x || y) k (not_swapped r.session_id s.session_id head),
      append-IsDistinct rows s tail ks,
    )

-- A changed table keeps what holds of its rows, if it holds of the changed ones.
pub update-All :
    (P : Session → Type 0) (id : String) (change : Session → Session) (rows : List Session)
    → All P rows
    → All (λ s. has_id id s ≡ true → P s → P (change s)) rows
    → All P (update id change rows)
unfolding update
update-All P id change [] h k = tt
update-All P id change (s ∷ rest) (h, hs) (k, ks) = elim (Bool-cases (has_id id s)) [
  | inl same ↦ rw (same, update) ((k same h, update-All P id change rest hs ks))
  | inr apart ↦ rw (apart, update) ((h, update-All P id change rest hs ks))
]

-- The row that a look-up finds is the only one of its key.
abbrev pub IsKnown : Session → List Session → Type 0
IsKnown r rows =
    All (λ (s : Session). has_id r.session_id s ≡ true → s.opened_ms ≡ r.opened_ms) rows

pub absent-IsKnown :
    (r : Session) (rows : List Session) → any (has_id r.session_id) rows ≡ false → IsKnown r rows
absent-IsKnown r [] h = tt
absent-IsKnown r (s ∷ rest) h =
    let (head, tail) = fresh_tail r.session_id s rest h in
    ((λ same. absurd (clash (has_id r.session_id s) same head)), absent-IsKnown r rest tail)
  where
    clash : (b : Bool) → b ≡ true → b ≡ false → ⊥
    clash b h k = cc

pub has_id-eq : (id : String) (s : Session) → has_id id s ≡ true → s.session_id ≡ id
has_id-eq id s h = (str_eq_iff s.session_id id).0 h

pub find_first-id :
    (id : String) (rows : List Session) {r : Session}
    → find_first (has_id id) rows ≡ some r
    → r.session_id ≡ id
find_first-id id [] h = cc
find_first-id id (s ∷ rest) {r} h = elim (Bool-cases (has_id id s)) [
  | inl same ↦ ap (λ (x : Session). x.session_id) (sym (found same h)) ∙ has_id-eq id s same
  | inr apart ↦ find_first-id id rest (missed apart h)
]
  where
    found : has_id id s ≡ true → find_first (has_id id) (s ∷ rest) ≡ some r → s ≡ r
    found same h = ground arith

    missed :
        has_id id s ≡ false
        → find_first (has_id id) (s ∷ rest) ≡ some r
        → find_first (has_id id) rest ≡ some r
    missed apart h = ground arith
