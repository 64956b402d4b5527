-- ===== src/Liquidation/Intervals/Total.antt =====
-- How much the merged intervals cover (liquidation_aggregator.py, `covered_ms` and `gap_ms`).
use crt_master.Base.{
  +ℤ_parts, -ℤ_parts, All, Bool-cases, List, [], arith, inl, inr, ltb_ℤ, max_ℤ, pos, ℤ, ◌+ℤ◌, ◌-ℤ◌,
  ◌<ℤ◌, ◌∷◌, ◌≤ℤ◌,
}
use crt_master.Liquidation.Intervals.{
  Visible, covered_ms, insert, merge_intervals, merge_onto, merge_ordered, pair_leb, sorted, spans,
}
use crt_master.Liquidation.Intervals.Cover.{IsDisjoint, StartsAfter, merge_intervals-IsDisjoint}

-- All intervals are between `low` and `high`.
abbrev pub IsWithin : ℤ → ℤ → ℤ × ℤ → Type 0
IsWithin low high (s, e) = (low ≤ℤ s) × (e ≤ℤ high)

insert-All :
    (P : ℤ × ℤ → Type 0) (x : ℤ × ℤ) (ys : List (ℤ × ℤ)) → P x → All P ys → All P (insert x ys)
unfolding insert
insert-All P x [] h k = (h, tt)
insert-All P x (y ∷ ys) h (k, ks) = elim (Bool-cases (pair_leb x y)) [
  | inl first ↦ rw (first, insert) ((h, (k, ks)))
  | inr later ↦ rw (later, insert) ((k, insert-All P x ys h ks))
]

sorted-All : (P : ℤ × ℤ → Type 0) (xs : List (ℤ × ℤ)) → All P xs → All P (sorted xs)
unfolding sorted
sorted-All P [] h = tt
sorted-All P (x ∷ xs) (h, hs) = insert-All P x (sorted xs) h (sorted-All P xs hs)

spans-IsWithin :
    (low high : ℤ) (vs : List Visible)
    → All (λ (v : Visible). IsWithin low high (v.start_ms, v.end_ms)) vs
    → All (IsWithin low high) (spans vs)
unfolding spans
spans-IsWithin low high [] h = tt
spans-IsWithin low high (v ∷ vs) (h, hs) = elim (Bool-cases (ltb_ℤ v.start_ms v.end_ms)) [
  | inl long ↦ rw (long, spans) ((h, spans-IsWithin low high vs hs))
  | inr short ↦ rw (short, spans) (spans-IsWithin low high vs hs)
]

joined-IsWithin :
    (low high a b s e : ℤ)
    → IsWithin low high (a, b)
    → IsWithin low high (s, e)
    → IsWithin low high (a, max_ℤ b e)
joined-IsWithin low high a b s e h k = ground arith

merge_onto-IsWithin :
    (low high a b : ℤ) (xs : List (ℤ × ℤ))
    → IsWithin low high (a, b)
    → All (IsWithin low high) xs
    → All (IsWithin low high) (merge_onto (a, b) xs)
unfolding merge_onto
merge_onto-IsWithin low high a b [] h hs = (h, tt)
merge_onto-IsWithin low high a b ((s, e) ∷ rest) h (k, ks) = elim (Bool-cases (ltb_ℤ b s)) [
  | inl apart ↦ rw (apart, merge_onto) ((h, merge_onto-IsWithin low high s e rest k ks))
  | inr near ↦
      rw (near, merge_onto)
        (merge_onto-IsWithin low high a (max_ℤ b e) rest (joined-IsWithin low high a b s e h k) ks)
]

merge_ordered-IsWithin :
    (low high : ℤ) (xs : List (ℤ × ℤ))
    → All (IsWithin low high) xs
    → All (IsWithin low high) (merge_ordered xs)
unfolding merge_ordered
merge_ordered-IsWithin low high [] h = tt
merge_ordered-IsWithin low high ((s, e) ∷ xs) (h, hs) = merge_onto-IsWithin low high s e xs h hs

covered_add :
    (low s e high c : ℤ)
    → low ≤ℤ s
    → s <ℤ e
    → e ≤ℤ high
    → pos 0 ≤ℤ c
    → c ≤ℤ (high -ℤ e)
    → (pos 0 ≤ℤ ((e -ℤ s) +ℤ c)) × (((e -ℤ s) +ℤ c) ≤ℤ (high -ℤ low))
covered_add low s e high c h k l m n = (
  omega (arith, +ℤ_parts (e -ℤ s) c, -ℤ_parts e s),
  omega (arith, +ℤ_parts (e -ℤ s) c, -ℤ_parts e s, -ℤ_parts high e, -ℤ_parts high low),
)

abbrev StartsFrom : ℤ → List (ℤ × ℤ) → Type 0
StartsFrom low [] = Unit {0}
StartsFrom low ((s, e) ∷ rest) = low ≤ℤ s

StartsAfter-StartsFrom : (low : ℤ) (xs : List (ℤ × ℤ)) → StartsAfter low xs → StartsFrom low xs
StartsAfter-StartsFrom low [] h = tt
StartsAfter-StartsFrom low ((s, e) ∷ rest) h = omega arith

-- From a moment that no interval starts before.
covered_from :
    (low high : ℤ) (xs : List (ℤ × ℤ))
    → low ≤ℤ high
    → All (λ x. x.1 ≤ℤ high) xs
    → IsDisjoint xs
    → StartsFrom low xs
    → (pos 0 ≤ℤ covered_ms xs) × (covered_ms xs ≤ℤ (high -ℤ low))
unfolding covered_ms
covered_from low high [] h ends apart from = (omega arith, omega (arith, -ℤ_parts high low))
covered_from low high ((s, e) ∷ rest) h (k, ks) (l, m, apart) from =
    let (some_covered, fits) =
      covered_from e high rest k ks apart (StartsAfter-StartsFrom e rest m) in
    covered_add low s e high (covered_ms rest) from l k some_covered fits

within-StartsFrom :
    (low high : ℤ) (xs : List (ℤ × ℤ)) → All (IsWithin low high) xs → StartsFrom low xs
within-StartsFrom low high [] h = tt
within-StartsFrom low high ((s, e) ∷ rest) h = h.0.0

within_ends :
    (low high : ℤ) (xs : List (ℤ × ℤ)) → All (IsWithin low high) xs → All (λ x. x.1 ≤ℤ high) xs
within_ends low high [] h = tt
within_ends low high ((s, e) ∷ rest) (h, hs) = (h.1, within_ends low high rest hs)

-- Of rows that lie in a window from `low` to `high`, the merged intervals cover between nothing and
-- the whole length of the window.
pub merge_intervals-covered_ms :
    (low high : ℤ) (vs : List Visible)
    → low ≤ℤ high
    → All (λ (v : Visible). IsWithin low high (v.start_ms, v.end_ms)) vs
    → (pos 0 ≤ℤ covered_ms (merge_intervals vs))
      × (covered_ms (merge_intervals vs) ≤ℤ (high -ℤ low))
unfolding merge_intervals
merge_intervals-covered_ms low high vs h inside =
    let all_in =
      merge_ordered-IsWithin low high (sorted (spans vs))
        (sorted-All (IsWithin low high) (spans vs) (spans-IsWithin low high vs inside)) in
    covered_from low high (merge_intervals vs) h (within_ends low high _ all_in)
      (merge_intervals-IsDisjoint vs).0 (within-StartsFrom low high _ all_in)
