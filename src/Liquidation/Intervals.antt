-- ===== src/Liquidation/Intervals.antt =====
-- radar/src/crt_radar/liquidation_aggregator.py: `merge_intervals`, and the milliseconds that the
-- merged intervals cover.
pub mod Cover
pub mod Total
use crt_master.Base.{
  Bool, List, String, [], eq_ℤ, false, if◌then◌else◌, leb_ℤ, ltb_ℤ, max_ℤ, pos, true, ℤ, ◌&&◌, ◌+ℤ◌,
  ◌-ℤ◌, ◌||◌, ◌∷◌,
}

-- A row of `intervals_overlapping`.
pub record Visible : Type 0 where
  pub start_ms : ℤ
  pub end_ms : ℤ
  pub session_id : String

-- Order of tuples `(start, end)`.
abbrev pub pair_leb : ℤ × ℤ → ℤ × ℤ → Bool
pair_leb (a, b) (s, e) = ltb_ℤ a s || (eq_ℤ a s && leb_ℤ b e)

-- `sorted`, as insertion of each member into the sorted rest.
unfoldable pub insert : ℤ × ℤ → List (ℤ × ℤ) → List (ℤ × ℤ)
insert x [] = x ∷ []
insert x (y ∷ ys) = elim (pair_leb x y) [ true ↦ x ∷ y ∷ ys | false ↦ y ∷ insert x ys ]

unfoldable pub sorted : List (ℤ × ℤ) → List (ℤ × ℤ)
sorted [] = []
sorted (x ∷ xs) = insert x (sorted xs)

-- `(start, end) for start, end, _ in intervals if end > start`
unfoldable pub spans : List Visible → List (ℤ × ℤ)
spans [] = []
spans (v ∷ vs) = if ltb_ℤ v.start_ms v.end_ms then (v.start_ms, v.end_ms) ∷ spans vs else spans vs

-- The loop, with `merged[-1]` apart from the members before it, which do not change any more.
unfoldable pub merge_onto : ℤ × ℤ → List (ℤ × ℤ) → List (ℤ × ℤ)
merge_onto last [] = last ∷ []
merge_onto (a, b) ((s, e) ∷ rest) = elim (ltb_ℤ b s) [
  | true ↦ (a, b) ∷ merge_onto (s, e) rest
  | false ↦ merge_onto (a, max_ℤ b e) rest
]

unfoldable pub merge_ordered : List (ℤ × ℤ) → List (ℤ × ℤ)
merge_ordered [] = []
merge_ordered (x ∷ xs) = merge_onto x xs

unfoldable pub merge_intervals : List Visible → List (ℤ × ℤ)
merge_intervals intervals = merge_ordered (sorted (spans intervals))

-- `sum(end - start for start, end in merged)`
unfoldable pub covered_ms : List (ℤ × ℤ) → ℤ
covered_ms [] = pos 0
covered_ms ((s, e) ∷ rest) = (e -ℤ s) +ℤ covered_ms rest
