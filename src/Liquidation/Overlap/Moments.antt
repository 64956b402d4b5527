-- ===== src/Liquidation/Overlap/Moments.antt =====
-- Which moments `intervals_overlapping` covers (liquidation_aggregator.py): those that a session's
-- close or last heartbeat proves, as far as the cutoff lets them be seen.
use crt_master.Base.{
  All, Bool, Bool-cases, List, [], any, ap, ap₂, arith, false, if◌then◌else◌, inl, inr, leb_ℤ,
  ltb_ℤ, max_ℤ, min_ℤ, none, pos, refl, some, sym, ℤ, ◌&&◌, ◌-ℤ◌, ◌||◌, ◌∙◌, ◌∷◌, ◌≡◌, ◌≤ℤ◌,
}
use crt_master.Liquidation.Sessions.{Session, SessionStore}
use crt_master.Liquidation.Intervals.{Visible, covered_ms, merge_intervals}
use crt_master.Liquidation.Intervals.Cover.{is_seen, within}
use crt_master.Liquidation.Intervals.Total.{IsWithin, merge_intervals-covered_ms}
use crt_master.Liquidation.Overlap.{
  clip_rows, effective_closed, insert_row, intervals_overlapping, order_rows, visible_rows,
}

-- A session proves that it was connected at `t`: it was open by then, and its close or its last
-- heartbeat, which `end_ms` does not precede, came later. A visible close counts before a heartbeat.
abbrev pub is_proven : ℤ → ℤ → Session → Bool
is_proven end_ms t s = leb_ℤ s.opened_ms t && elim s.closed_ms [
  | none ↦ leb_ℤ s.last_heartbeat_ms end_ms && ltb_ℤ t s.last_heartbeat_ms
  | some closed ↦
      if leb_ℤ closed end_ms
      then ltb_ℤ t closed
      else leb_ℤ s.last_heartbeat_ms end_ms && ltb_ℤ t s.last_heartbeat_ms
]

effective-proven :
    (end_ms t : ℤ) (s : Session)
    → within t (s.opened_ms, effective_closed end_ms s) ≡ is_proven end_ms t s
unfolding effective_closed
effective-proven end_ms t s = ground arith

insert_row-covers :
    (t : ℤ) (v : Visible) (ws : List Visible)
    → any (is_seen t) (insert_row v ws) ≡ any (is_seen t) (v ∷ ws)
unfolding insert_row
insert_row-covers t v [] = refl
insert_row-covers t v (w ∷ ws) = ground (arith, insert_row-covers t v ws)

order_rows-covers :
    (t : ℤ) (vs : List Visible) → any (is_seen t) (order_rows vs) ≡ any (is_seen t) vs
unfolding order_rows
order_rows-covers t [] = refl
order_rows-covers t (v ∷ vs) =
    insert_row-covers t v (order_rows vs) ∙ ap (λ b. is_seen t v || b) (order_rows-covers t vs)

leb-max : (a s t : ℤ) → leb_ℤ (max_ℤ a s) t ≡ (leb_ℤ a t && leb_ℤ s t)
leb-max a s t = ground arith

ltb-min : (b e t : ℤ) → ltb_ℤ t (min_ℤ b e) ≡ (ltb_ℤ t b && ltb_ℤ t e)
ltb-min b e t = ground arith

exchange : (x y z w : Bool) → ((x && y) && (z && w)) ≡ ((x && z) && (y && w))
exchange x y z w = ground arith

distribute : (w x y : Bool) → ((w && x) || (w && y)) ≡ (w && (x || y))
distribute w x y = ground arith

-- The cut interval holds the moments of the window that the interval holds.
within_clip :
    (a b s e t : ℤ) → within t (max_ℤ a s, min_ℤ b e) ≡ (within t (a, b) && within t (s, e))
within_clip a b s e t =
    ap₂ (λ x y. x && y) (leb-max a s t) (ltb-min b e t)
    ∙ exchange (leb_ℤ a t) (leb_ℤ s t) (ltb_ℤ t b) (ltb_ℤ t e)

within_empty : (s e t : ℤ) → ltb_ℤ s e ≡ false → within t (s, e) ≡ false
within_empty s e t h = ground arith

clip_rows-covers :
    (start_ms end_ms t : ℤ) (vs : List Visible)
    → any (is_seen t) (clip_rows start_ms end_ms vs)
      ≡ (within t (start_ms, end_ms) && any (is_seen t) vs)
unfolding clip_rows
clip_rows-covers start_ms end_ms t [] = never (within t (start_ms, end_ms))
  where
    never : (w : Bool) → false ≡ (w && false)
    never w = ground arith
clip_rows-covers start_ms end_ms t (v ∷ vs) =
    let a = max_ℤ start_ms v.start_ms in
    let b = min_ℤ end_ms v.end_ms in
    let later = within t (start_ms, end_ms) && any (is_seen t) vs in
    let rest = clip_rows-covers start_ms end_ms t vs in
    let joined_rows =
      ap (λ x. x || later) (within_clip start_ms end_ms v.start_ms v.end_ms t)
      ∙ distribute (within t (start_ms, end_ms)) (is_seen t v) (any (is_seen t) vs) in
    elim (Bool-cases (ltb_ℤ a b)) [
      | inl left ↦ rw (left, clip_rows) (ap (λ x. within t (a, b) || x) rest ∙ joined_rows)
      | inr gone ↦
          rw (gone, clip_rows)
            (rest ∙ ap (λ x. x || later) (sym (within_empty a b t gone)) ∙ joined_rows)
    ]

-- A row that the query leaves out covers no moment of the window.
unselected :
    (start_ms end_ms t s e : ℤ)
    → (ltb_ℤ s end_ms && ltb_ℤ start_ms e) ≡ false
    → (within t (start_ms, end_ms) && within t (s, e)) ≡ false
unselected start_ms end_ms t s e h = ground arith

visible_rows-covers :
    (start_ms end_ms t : ℤ) (rows : List Session)
    → (within t (start_ms, end_ms) && any (is_seen t) (visible_rows start_ms end_ms rows))
      ≡ (within t (start_ms, end_ms) && any (is_proven end_ms t) rows)
unfolding visible_rows
visible_rows-covers start_ms end_ms t [] = refl
visible_rows-covers start_ms end_ms t (s ∷ rest) =
    let w = within t (start_ms, end_ms) in
    let seen = within t (s.opened_ms, effective_closed end_ms s) in
    let proven = any (is_proven end_ms t) rest in
    let later = visible_rows-covers start_ms end_ms t rest in
    let with_row =
      distribute w seen proven ∙ ap (λ x. w && (x || proven)) (effective-proven end_ms t s) in
    elim (Bool-cases (ltb_ℤ s.opened_ms end_ms && ltb_ℤ start_ms (effective_closed end_ms s))) [
      | inl kept ↦
          rw (kept, visible_rows)
            (sym (distribute w seen (any (is_seen t) (visible_rows start_ms end_ms rest)))
              ∙ ap (λ x. (w && seen) || x) later
              ∙ with_row)
      | inr out ↦
          rw (out, visible_rows)
            (later
              ∙ ap (λ x. x || (w && proven))
                  (sym (unselected start_ms end_ms t s.opened_ms (effective_closed end_ms s) out))
              ∙ with_row)
    ]

-- A moment is in one of the intervals returned exactly when it is in the window and some session
-- proves it at the cutoff: heartbeats and closes after the cutoff prove nothing.
pub intervals_overlapping-is_proven :
    (store : SessionStore) (start_ms end_ms t : ℤ)
    → any (is_seen t) (intervals_overlapping store start_ms end_ms)
      ≡ (within t (start_ms, end_ms) && any (is_proven end_ms t) store.rows)
unfolding intervals_overlapping
intervals_overlapping-is_proven store start_ms end_ms t =
    clip_rows-covers start_ms end_ms t _
    ∙ ap (λ b. within t (start_ms, end_ms) && b) (order_rows-covers t _)
    ∙ visible_rows-covers start_ms end_ms t store.rows

clip_rows-IsWithin :
    (start_ms end_ms : ℤ) (vs : List Visible)
    → All
        (λ (v : Visible). IsWithin start_ms end_ms (v.start_ms, v.end_ms))
        (clip_rows start_ms end_ms vs)
unfolding clip_rows
clip_rows-IsWithin start_ms end_ms [] = tt
clip_rows-IsWithin start_ms end_ms (v ∷ vs) = ground (arith, clip_rows-IsWithin start_ms end_ms vs)

-- In a window that does not end before it starts, what the store's merged intervals cover is not
-- negative and not more than the window.
pub intervals_overlapping-covered_ms :
    (store : SessionStore) (start_ms end_ms : ℤ)
    → start_ms ≤ℤ end_ms
    → (pos 0 ≤ℤ covered_ms (merge_intervals (intervals_overlapping store start_ms end_ms)))
      × (covered_ms (merge_intervals (intervals_overlapping store start_ms end_ms))
          ≤ℤ (end_ms -ℤ start_ms))
unfolding intervals_overlapping
intervals_overlapping-covered_ms store start_ms end_ms h =
    merge_intervals-covered_ms start_ms end_ms _ h (clip_rows-IsWithin start_ms end_ms _)
