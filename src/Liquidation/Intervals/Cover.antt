-- ===== src/Liquidation/Intervals/Cover.antt =====
-- What the merged intervals are (liquidation_aggregator.py, `merge_intervals`): the same moments as
-- the intervals given, in order, apart from each other, and no more of them than the window has.
use crt_master.Base.{
  -ℤ_parts, All, Bool, Bool-cases, List, [], any, ap, arith, false, inl, inr, leb_ℤ, ltb_ℤ, ltb→lt,
  max_ℤ, min_ℤ, pos, refl, true, ℤ, ◌&&◌, ◌-ℤ◌, ◌<ℤ◌, ◌||◌, ◌∙◌, ◌∷◌, ◌≡◌, ◌≤ℤ◌,
}
use crt_master.Liquidation.Intervals.{
  Visible, insert, merge_intervals, merge_onto, merge_ordered, sorted, spans,
}

-- The moment `t` is in `[s, e)`, and in one of several.
abbrev pub within : ℤ → ℤ × ℤ → Bool
within t (s, e) = leb_ℤ s t && ltb_ℤ t e

abbrev pub IsCovered : ℤ → List (ℤ × ℤ) → Type 0
IsCovered t xs = any (within t) xs ≡ true

-- Starts that do not decrease, and intervals that are not empty.
abbrev pub IsOrdered : ℤ → List (ℤ × ℤ) → Type 0
IsOrdered low [] = Unit {0}
IsOrdered low ((s, e) ∷ rest) = (low ≤ℤ s) × (s <ℤ e) × IsOrdered s rest

-- From `low` on, each interval starts after the one before it ends.
abbrev pub IsApart : ℤ → List (ℤ × ℤ) → Type 0
IsApart low [] = Unit {0}
IsApart low ((s, e) ∷ rest) = (low <ℤ s) × (s <ℤ e) × IsApart e rest

insert-covers :
    (t : ℤ) (x : ℤ × ℤ) (ys : List (ℤ × ℤ)) → any (within t) (insert x ys) ≡ any (within t) (x ∷ ys)
unfolding insert
insert-covers t x [] = refl
insert-covers t (a, b) ((s, e) ∷ ys) = ground (arith, insert-covers t (a, b) ys)

sorted-covers : (t : ℤ) (xs : List (ℤ × ℤ)) → any (within t) (sorted xs) ≡ any (within t) xs
unfolding sorted
sorted-covers t [] = refl
sorted-covers t (x ∷ xs) =
    insert-covers t x (sorted xs) ∙ ap (λ b. within t x || b) (sorted-covers t xs)

insert-IsOrdered :
    (low s e : ℤ) (ys : List (ℤ × ℤ))
    → low ≤ℤ s
    → s <ℤ e
    → IsOrdered low ys
    → IsOrdered low (insert (s, e) ys)
unfolding insert
insert-IsOrdered low s e [] h k ordered = (h, k, tt)
insert-IsOrdered low s e ((a, b) ∷ ys) h k ordered = ground (arith, insert-IsOrdered a s e ys)

-- Two intervals that meet make one.
joined :
    (t a b s e : ℤ)
    → a <ℤ b
    → a ≤ℤ s
    → s <ℤ e
    → ltb_ℤ b s ≡ false
    → within t (a, max_ℤ b e) ≡ (within t (a, b) || within t (s, e))
joined t a b s e h k l near = ground arith

max_above : (a b e : ℤ) → a <ℤ b → a <ℤ max_ℤ b e
max_above a b e h = ground arith

or_assoc : (x y z : Bool) → ((x || y) || z) ≡ (x || (y || z))
or_assoc x y z = ground arith

IsOrdered-lower :
    (low high : ℤ) (xs : List (ℤ × ℤ)) → low ≤ℤ high → IsOrdered high xs → IsOrdered low xs
IsOrdered-lower low high [] h ordered = tt
IsOrdered-lower low high ((s, e) ∷ rest) h ordered = ground arith

merge_onto-covers :
    (t a b : ℤ) (xs : List (ℤ × ℤ))
    → a <ℤ b
    → IsOrdered a xs
    → any (within t) (merge_onto (a, b) xs) ≡ (within t (a, b) || any (within t) xs)
unfolding merge_onto
merge_onto-covers t a b [] h ordered = refl
merge_onto-covers t a b ((s, e) ∷ rest) h (k, l, ordered) = elim (Bool-cases (ltb_ℤ b s)) [
  | inl apart ↦
      rw (apart, merge_onto)
        (ap (λ x. within t (a, b) || x) (merge_onto-covers t s e rest l ordered))
  | inr near ↦
      rw (near, merge_onto)
        (merge_onto-covers t a (max_ℤ b e) rest (max_above a b e h)
            (IsOrdered-lower a s rest k ordered)
          ∙ ap (λ x. x || any (within t) rest) (joined t a b s e h k l near)
          ∙ or_assoc (within t (a, b)) (within t (s, e)) (any (within t) rest))
]

merge_onto-IsApart :
    (low a b : ℤ) (xs : List (ℤ × ℤ))
    → low <ℤ a
    → a <ℤ b
    → IsOrdered a xs
    → IsApart low (merge_onto (a, b) xs)
unfolding merge_onto
merge_onto-IsApart low a b [] h k ordered = (h, k, tt)
merge_onto-IsApart low a b ((s, e) ∷ rest) h k (l, m, ordered) = elim (Bool-cases (ltb_ℤ b s)) [
  | inl apart ↦
      rw (apart, merge_onto) ((h, k, merge_onto-IsApart b s e rest (ground arith) m ordered))
  | inr near ↦
      rw (near, merge_onto)
        (merge_onto-IsApart low a (max_ℤ b e) rest h (max_above a b e k)
          (IsOrdered-lower a s rest l ordered))
]

-- Each interval is nonempty and starts after the one before it ended.
abbrev pub StartsAfter : ℤ → List (ℤ × ℤ) → Type 0
StartsAfter end_ms [] = Unit {0}
StartsAfter end_ms ((s, e) ∷ rest) = end_ms <ℤ s

abbrev pub IsDisjoint : List (ℤ × ℤ) → Type 0
IsDisjoint [] = Unit {0}
IsDisjoint ((s, e) ∷ rest) = (s <ℤ e) × StartsAfter e rest × IsDisjoint rest

IsApart-IsDisjoint : (low : ℤ) (xs : List (ℤ × ℤ)) → IsApart low xs → IsDisjoint xs
IsApart-IsDisjoint low [] h = tt
IsApart-IsDisjoint low ((s, e) ∷ []) (h, k, l) = (k, tt, tt)
IsApart-IsDisjoint low ((s, e) ∷ (a, b) ∷ rest) (h, k, l) =
    (k, l.0, IsApart-IsDisjoint e ((a, b) ∷ rest) l)

abbrev pub IsNonempty : ℤ × ℤ → Type 0
IsNonempty (s, e) = s <ℤ e

spans-IsNonempty : (vs : List Visible) → All IsNonempty (spans vs)
unfolding spans
spans-IsNonempty [] = tt
spans-IsNonempty (v ∷ vs) = elim (Bool-cases (ltb_ℤ v.start_ms v.end_ms)) [
  | inl long ↦ rw (long, spans) ((ltb→lt _ _ long, spans-IsNonempty vs))
  | inr short ↦ rw (short, spans) (spans-IsNonempty vs)
]

pub sorted-IsOrdered :
    (low : ℤ) (xs : List (ℤ × ℤ))
    → All IsNonempty xs
    → All (λ x. low ≤ℤ x.0) xs
    → IsOrdered low (sorted xs)
unfolding sorted
sorted-IsOrdered low [] h k = tt
sorted-IsOrdered low ((s, e) ∷ xs) (h, hs) (k, ks) =
    insert-IsOrdered low s e (sorted xs) k h (sorted-IsOrdered low xs hs ks)

All-weaken :
    (low high : ℤ) (xs : List (ℤ × ℤ))
    → low ≤ℤ high
    → All (λ x. high ≤ℤ x.0) xs
    → All (λ x. low ≤ℤ x.0) xs
All-weaken low high [] h k = tt
All-weaken low high ((s, e) ∷ xs) h (k, ks) = (omega arith, All-weaken low high xs h ks)

lower_bound : (xs : List (ℤ × ℤ)) → (low : ℤ) × All (λ x. low ≤ℤ x.0) xs
lower_bound [] = (pos 0, tt)
lower_bound ((s, e) ∷ xs) =
    let (low, all_above) = lower_bound xs in
    (min_ℤ s low, (ground arith, All-weaken (min_ℤ s low) low xs (ground arith) all_above))

before : (a : ℤ) → (a -ℤ pos 1) <ℤ a
before a = omega (arith, -ℤ_parts a (pos 1))

pub merge_ordered-IsDisjoint :
    (low : ℤ) (xs : List (ℤ × ℤ)) → IsOrdered low xs → IsDisjoint (merge_ordered xs)
unfolding merge_ordered
merge_ordered-IsDisjoint low [] h = tt
merge_ordered-IsDisjoint low ((s, e) ∷ xs) (h, k, l) =
    IsApart-IsDisjoint (s -ℤ pos 1) _ (merge_onto-IsApart (s -ℤ pos 1) s e xs (before s) k l)

merge_ordered-covers :
    (t low : ℤ) (xs : List (ℤ × ℤ))
    → IsOrdered low xs
    → any (within t) (merge_ordered xs) ≡ any (within t) xs
unfolding merge_ordered
merge_ordered-covers t low [] h = refl
merge_ordered-covers t low ((s, e) ∷ xs) (h, k, l) = merge_onto-covers t s e xs k l

-- `[start_ms, end_ms)` of a row.
abbrev pub is_seen : ℤ → Visible → Bool
is_seen t v = within t (v.start_ms, v.end_ms)

spans-covers : (t : ℤ) (vs : List Visible) → any (within t) (spans vs) ≡ any (is_seen t) vs
unfolding spans
spans-covers t [] = refl
spans-covers t (v ∷ vs) = ground (arith, spans-covers t vs)

-- Whatever rows are merged, empty ones included and in any order: the result is a list of nonempty
-- intervals, each starting after the one before it ended, and a moment is in one of them exactly
-- when it is in one of the rows.
pub merge_intervals-IsDisjoint :
    (vs : List Visible)
    → IsDisjoint (merge_intervals vs)
      × ((t : ℤ) → any (within t) (merge_intervals vs) ≡ any (is_seen t) vs)
unfolding merge_intervals
merge_intervals-IsDisjoint vs =
    let (low, above) = lower_bound (spans vs) in
    let ordered = sorted-IsOrdered low (spans vs) (spans-IsNonempty vs) above in
    (
      merge_ordered-IsDisjoint low _ ordered,
      (λ t. merge_ordered-covers t low _ ordered ∙ sorted-covers t (spans vs) ∙ spans-covers t vs),
    )
