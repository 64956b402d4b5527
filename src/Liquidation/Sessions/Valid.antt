-- ===== src/Liquidation/Sessions/Valid.antt =====
-- What holds of the session store between two calls (liquidation_aggregator.py), and that every
-- call keeps it.
use crt_master.Base.{
  All, All-append, Bool, Bool-cases, List, Option, String, [], any, arith, false, find_first, inl,
  inr, keep_if, none, refl, some, str_eq, str_eq_refl, subst, true, ℤ, ◌++◌, ◌∙◌, ◌∷◌, ◌≡◌, ◌≤ℤ◌,
}
use crt_master.Liquidation.Sessions.{Connection, Session, SessionStore, has_id, update}
use crt_master.Liquidation.Sessions.Update.{
  IsDistinct, IsKnown, KeepsId, absent-IsKnown, find_first-id, fresh_tail, not_swapped, update-All,
}

abbrev pub IsClosedAfter : ℤ → Option ℤ → Type 0
IsClosedAfter opened none = Unit {0}
IsClosedAfter opened (some closed) = opened ≤ℤ closed

-- No heartbeat and no close before the session opened.
pub record IsSession (s : Session) : Type 0 where
  pub beats : s.opened_ms ≤ℤ s.last_heartbeat_ms
  pub closes : IsClosedAfter s.opened_ms s.closed_ms

abbrev pub IsLine : String × Connection → Type 0
IsLine l = l.1.opened_ms ≤ℤ l.1.closed_ms

pub record IsValid (store : SessionStore) : Type 0 where
  pub sound : All IsSession store.rows
  pub distinct : IsDistinct store.rows
  pub logged : All IsLine store.lines

pub find_first-All :
    (P : Session → Type 0) (id : String) (rows : List Session) {r : Session}
    → All P rows
    → find_first (has_id id) rows ≡ some r
    → P r
find_first-All P id [] h k = cc
find_first-All P id (s ∷ rest) {r} (h, hs) k = elim (Bool-cases (has_id id s)) [
  | inl same ↦ subst P (found same) h
  | inr apart ↦ find_first-All P id rest hs (missed apart)
]
  where
    found : has_id id s ≡ true → s ≡ r
    found same = ground arith

    missed : has_id id s ≡ false → find_first (has_id id) rest ≡ some r
    missed apart = ground arith

pub clash : (b : Bool) → b ≡ true → b ≡ false → ⊥
clash b h k = cc

pub find_first-IsKnown :
    (id : String) (rows : List Session) {r : Session}
    → IsDistinct rows
    → find_first (has_id id) rows ≡ some r
    → IsKnown r rows
find_first-IsKnown id [] h k = tt
find_first-IsKnown id (s ∷ rest) {r} (h, hs) k = elim (Bool-cases (has_id id s)) [
  | inl same ↦ subst (λ x. IsKnown x (s ∷ rest)) (found same) ((λ _. refl), absent-IsKnown s rest h)
  | inr apart ↦ (
    (λ same. absurd (
        clash (has_id id s)
          (subst (λ i. has_id i s ≡ true) (find_first-id id rest (missed apart)) same) apart)),
    find_first-IsKnown id rest hs (missed apart),
  )
]
  where
    found : has_id id s ≡ true → s ≡ r
    found same = ground arith

    missed : has_id id s ≡ false → find_first (has_id id) rest ≡ some r
    missed apart = ground arith

-- Every row of a table with distinct keys is the one that a look-up of its key finds.
pub distinct-find_first :
    (rows : List Session)
    → IsDistinct rows
    → All (λ (r : Session). find_first (has_id r.session_id) rows ≡ some r) rows
distinct-find_first [] h = tt
distinct-find_first (s ∷ rest) (h, hs) =
    (rw (str_eq_refl s.session_id) refl, behind s rest rest h (distinct-find_first rest hs))
  where
    behind :
        (s : Session) (rest some_rows : List Session)
        → any (has_id s.session_id) some_rows ≡ false
        → All (λ (r : Session). find_first (has_id r.session_id) rest ≡ some r) some_rows
        → All (λ (r : Session). find_first (has_id r.session_id) (s ∷ rest) ≡ some r) some_rows
    behind s rest [] h k = tt
    behind s rest (r ∷ rs) h (k, ks) =
        let (head, tail) = fresh_tail s.session_id r rs h in
        (rw (not_swapped r.session_id s.session_id head) k, behind s rest rs tail ks)

pub All-keep_if :
    (P : Session → Type 0) (p : Session → Bool) (rows : List Session)
    → All P rows
    → All P (keep_if p rows)
All-keep_if P p [] h = tt
All-keep_if P p (s ∷ rest) (h, hs) = elim (Bool-cases (p s)) [
  | inl kept ↦ rw (kept) ((h, All-keep_if P p rest hs))
  | inr out ↦ rw (out) (All-keep_if P p rest hs)
]

pub All-append-one :
    (P : Session → Type 0) (rows : List Session) (s : Session)
    → All P rows
    → P s
    → All P (rows ++ s ∷ [])
All-append-one P rows s h k = All-append P rows (s ∷ []) h (k, tt)

-- An update that keeps keys and openings keeps what is known of a row.
pub update-IsKnown :
    (r : Session) (id : String) (change : Session → Session) (rows : List Session)
    → KeepsId change
    → ((s : Session) → (change s).opened_ms ≡ s.opened_ms)
    → IsKnown r rows
    → IsKnown r (update id change rows)
update-IsKnown r id change rows keeps opens h =
    update-All (λ (s : Session). has_id r.session_id s ≡ true → s.opened_ms ≡ r.opened_ms) id change
      rows h (for_all rows)
  where
    for_all :
        (rows : List Session)
        → All
            (λ (s : Session).
              has_id id s ≡ true
              → (has_id r.session_id s ≡ true → s.opened_ms ≡ r.opened_ms)
              → has_id r.session_id (change s) ≡ true
              → (change s).opened_ms ≡ r.opened_ms)
            rows
    for_all [] = tt
    for_all (s ∷ rest) = (
      (λ _ known same. opens s ∙ known (subst (λ i. str_eq i r.session_id ≡ true) (keeps s) same)),
      for_all rest,
    )
