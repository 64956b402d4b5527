-- ===== src/Research/Rungs.antt =====
-- The research state by the number of confirmed steps (btc_transition_research_eval.py).
use crt_master.Research.{
  Observations, Outcome, blocked, check_sequence, classified, confirmed, passed, sequence,
}
use crt_master.Base.{
  Bool, List, String, [], count_if, drop_first, false, if◌then◌else◌, not, refl, str_eq, true, ℕ,
  ◌&&◌, ◌+◌, ◌==◌, ◌||◌, ◌∷◌, ◌≡◌,
}

abbrev pub steps : Observations → ℕ
steps o = count_if (λ (s : String × String). confirmed s.1) (sequence o)

abbrev pub rung : ℕ → String
rung n =
    if n == 0
    then "TRANSITION_UNRESOLVED"
    else if n == 1
    then "ATTACK_STRENGTHENED_DEFENSE_PENDING"
    else if n == 2
    then "DEFENSE_UNRESOLVED"
    else if n == 5
    then "CONTROL_TRANSFER_CANDIDATE"
    else "DEFENSE_HELD_REATTACK_PENDING"

-- The state by the number of steps, and by whether a lower low was observed.
abbrev pub expected : Observations → String
expected o =
    if str_eq o.lower_low "OBSERVED"
    then if steps o == 0 then "BEAR_CONTROL_RETAINED" else "FALSE_POSITIVE_REJECTED"
    else rung (steps o)

-- Each confirmed step but the first comes behind a confirmed one.
abbrev pub IsInOrder : String × String → List (String × String) → Type 0
IsInOrder before [] = Unit
IsInOrder before (step ∷ rest) =
    ((confirmed step.1 && not (confirmed before.1)) ≡ false) × IsInOrder step rest

order_by :
    (b : Bool) (reason : String) (rest : Outcome (Unit {0}))
    → ◌≡◌ {A = Outcome (Unit {0})} (elim b [ true ↦ blocked reason | false ↦ rest ]) (passed tt)
    → (b ≡ false) × (rest ≡ passed tt)
order_by false reason rest h = (refl, h)
order_by true reason rest h = cc

pub check_sequence-IsInOrder :
    (before : String × String) (rest : List (String × String))
    → check_sequence before rest ≡ passed tt
    → IsInOrder before rest
unfolding check_sequence
check_sequence-IsInOrder before [] h = tt
check_sequence-IsInOrder before (step ∷ rest) h =
    let (in_order, later) =
      order_by (confirmed step.1 && not (confirmed before.1)) _ (check_sequence step rest) h in
    (in_order, check_sequence-IsInOrder step rest later)

-- `classified` by the tests alone.
abbrev pub pair_by : Bool → Bool → Bool → Bool → Bool → Bool → String × String
pair_by l b p h r c =
    if l
    then if b
      then ("POST_BREAKOUT_LOWER_LOW_REJECTED_CONTROL_TRANSFER", "FALSE_POSITIVE_REJECTED")
      else ("LOWER_LOW_WITHOUT_CONFIRMED_CONTROL_TRANSFER_BREAKOUT", "BEAR_CONTROL_RETAINED")
    else if not b
    then ("MEANINGFUL_BREAKOUT_NOT_CONFIRMED", "TRANSITION_UNRESOLVED")
    else if not p
    then (
      "BREAKOUT_OBSERVED_BUT_DEFENSIVE_PULLBACK_NOT_TESTED", "ATTACK_STRENGTHENED_DEFENSE_PENDING",
    )
    else if not h
    then ("PULLBACK_OBSERVED_BUT_HIGHER_LOW_NOT_CONFIRMED", "DEFENSE_UNRESOLVED")
    else if not r || not c
    then ("HIGHER_LOW_HELD_BUT_REATTACK_CONTROL_BREAK_PENDING", "DEFENSE_HELD_REATTACK_PENDING")
    else ("BREAKOUT_PULLBACK_HIGHER_LOW_REATTACK_LOOP_CLOSED", "CONTROL_TRANSFER_CANDIDATE")

abbrev count_by : Bool → Bool → Bool → Bool → Bool → ℕ
count_by b p h r c =
    (if b then 1 else 0)
    + ((if p then 1 else 0)
        + ((if h then 1 else 0) + ((if r then 1 else 0) + ((if c then 1 else 0) + 0))))

ladder_by :
    (l b p h r c : Bool)
    → (p && not b) ≡ false
    → (h && not p) ≡ false
    → (r && not h) ≡ false
    → (c && not r) ≡ false
    → (pair_by l b p h r c).1 ≡ (
        if l
        then if count_by b p h r c == 0 then "BEAR_CONTROL_RETAINED" else "FALSE_POSITIVE_REJECTED"
        else rung (count_by b p h r c))
ladder_by true true true true true true a e i o = refl
ladder_by false true true true true true a e i o = refl
ladder_by true true true true true false a e i o = refl
ladder_by false true true true true false a e i o = refl
ladder_by true true true true false false a e i o = refl
ladder_by false true true true false false a e i o = refl
ladder_by true true true false false false a e i o = refl
ladder_by false true true false false false a e i o = refl
ladder_by true true false false false false a e i o = refl
ladder_by false true false false false false a e i o = refl
ladder_by true false false false false false a e i o = refl
ladder_by false false false false false false a e i o = refl
ladder_by l false true h r c a e i o = cc
ladder_by l b false true r c a e i o = cc
ladder_by l b p false true c a e i o = cc
ladder_by l b p h false true a e i o = cc

pub classified-expected :
    (o : Observations)
    → IsInOrder ("meaningful_breakout", o.breakout) (drop_first (sequence o))
    → (classified o).1 ≡ expected o
unfolding classified
classified-expected o (a, (e, (i, (c, _)))) =
    ladder_by (str_eq o.lower_low "OBSERVED") (confirmed o.breakout) (confirmed o.pullback)
      (confirmed o.higher_low) (confirmed o.reattack) (confirmed o.control_break) a e i c
