-- ===== src/Level/Protocol.antt =====
-- The order of a line's events (level_event_state_machine.py): an automaton that the emissions of
-- every run follow, and what it says of the number of crossings and verdicts.
use crt_master.Base.{
  >>=-eq-ok, Bool, List, Option, Option-cases, String, [], ap, arith, if◌then◌else◌, inl, inr, none,
  ok, ok-injective, refl, some, subst, ℕ, ◌++◌, ◌+◌, ◌∷◌, ◌≡◌,
}
use crt_master.Floats.{FloatLaws, Floats}
use crt_master.Level.{
  Emission, Engine, EventType, State, confirm, cross_step, observe, on_5s_close, on_price,
  positive_price, retest_step, settle,
}
use crt_master.Level.Run.{Input, close, feed, feed-IsValid, price, run}
use crt_master.Level.Invariant.{IsValid}

pub data Phase : Type 0 where
  idle approaching open_cross refused settled retested : Phase

-- Which event may follow in which phase.
abbrev pub allowed : Phase → EventType → Option Phase
allowed Phase.idle EventType.approach = some Phase.approaching
allowed Phase.idle EventType.cross_raw = some Phase.open_cross
allowed Phase.approaching EventType.cross_raw = some Phase.open_cross
allowed Phase.open_cross EventType.accepted = some Phase.settled
allowed Phase.open_cross EventType.rejected = some Phase.refused
allowed Phase.refused EventType.rearmed = some Phase.idle
allowed Phase.refused EventType.cross_raw = some Phase.open_cross
allowed Phase.settled EventType.retest = some Phase.retested
allowed _ _ = none

abbrev pub follow : Option Phase → List EventType → Option Phase
follow none es = none
follow (some p) [] = some p
follow (some p) (e ∷ es) = follow (allowed p e) es

follow-append :
    (p : Option Phase) (xs ys : List EventType) → follow p (xs ++ ys) ≡ follow (follow p xs) ys
follow-append none xs ys = refl
follow-append (some p) [] ys = refl
follow-append (some p) (x ∷ xs) ys = follow-append (allowed p x) xs ys

abbrev phase : State → Bool → Phase
phase State.far again = Phase.idle
phase State.approach again = Phase.approaching
phase State.cross_raw again = Phase.open_cross
phase State.rejected again = Phase.refused
phase State.accepted again = if again then Phase.retested else Phase.settled

module _ (fl : Floats) where
  open fl use {Float}

  abbrev pub phase_of : Engine fl → Phase
  phase_of e = phase e.state e.retest_emitted

  abbrev pub events : List (Emission fl) → List EventType
  events [] = []
  events (x ∷ xs) = x.event ∷ events xs

  events-append : (xs ys : List (Emission fl)) → events (xs ++ ys) ≡ events xs ++ events ys
  events-append [] ys = refl
  events-append (x ∷ xs) ys = ap (◌∷◌ x.event) (events-append xs ys)

  abbrev Follows : Engine fl → Engine fl × List (Emission fl) → Type 0
  Follows e r = follow (some (phase_of e)) (events r.1) ≡ some (phase_of r.0)

  observe-Follows :
      (e : Engine fl) (p : Float) (ts : String) → IsValid fl e → Follows e (observe fl e p ts)
  unfolding observe cross_step retest_step
  observe-Follows e p ts v = ground arith

  confirm-Follows :
      (e : Engine fl) (c : Float) (ts : String) → IsValid fl e → Follows e (confirm fl e c ts)
  unfolding confirm settle
  confirm-Follows e c ts v = ground arith

  feed-Follows :
      (e : Engine fl) (i : Input fl) {r : Engine fl × List (Emission fl)}
      → IsValid fl e
      → feed fl e i ≡ ok r
      → Follows e r
  unfolding feed on_price on_5s_close
  feed-Follows e (price v ts) valid h =
      let (x, _, same) = >>=-eq-ok (positive_price fl v "observed_price") _ h in
      subst (Follows e) (ok-injective same) (observe-Follows e x ts valid)
  feed-Follows e (close v ts) valid h =
      let (x, _, same) = >>=-eq-ok (positive_price fl v "close") _ h in
      subst (Follows e) (ok-injective same) (confirm-Follows e x ts valid)

  -- The events of a run, from a valid engine, follow the automaton from the phase of the engine
  -- before to the phase of the engine after, in whatever order prices and closes come.
  pub run-follows :
      (laws : FloatLaws fl) (e : Engine fl) (is : List (Input fl))
      {r : Engine fl × List (Emission fl)}
      → IsValid fl e
      → run fl e is ≡ ok r
      → follow (some (phase_of e)) (events r.1) ≡ some (phase_of r.0)
  unfolding run
  run-follows laws e [] valid h = subst (Follows e) (ok-injective h) refl
  run-follows laws e (i ∷ is) valid h =
      let (first, fed, h₁) = >>=-eq-ok (feed fl e i) _ h in
      let (rest, went, same) = >>=-eq-ok (run fl first.0 is) _ h₁ in
      subst (Follows e) (ok-injective same) (
        rw
          (
            events-append first.1 rest.1,
            follow-append (some (phase_of e)) (events first.1) (events rest.1),
            feed-Follows e i valid fed,
          )
          (run-follows laws first.0 is (feed-IsValid fl laws e i valid fed) went))

-- How often an event of a kind occurs.
abbrev pub tally : (EventType → ℕ) → List EventType → ℕ
tally f [] = 0
tally f (x ∷ xs) = f x + tally f xs

abbrev pub crossings : EventType → ℕ
crossings EventType.cross_raw = 1
crossings _ = 0

abbrev pub verdicts : EventType → ℕ
verdicts EventType.accepted = 1
verdicts EventType.rejected = 1
verdicts _ = 0

abbrev pub acceptances : EventType → ℕ
acceptances EventType.accepted = 1
acceptances _ = 0

abbrev pub retests : EventType → ℕ
retests EventType.retest = 1
retests _ = 0

abbrev pub pending : Phase → ℕ
pending Phase.open_cross = 1
pending _ = 0

abbrev pub is_settled : Phase → ℕ
is_settled Phase.settled = 1
is_settled Phase.retested = 1
is_settled _ = 0

abbrev pub is_retested : Phase → ℕ
is_retested Phase.retested = 1
is_retested _ = 0

abbrev Accounts : Phase → List EventType → Phase → Type 0
Accounts p es q =
    (tally crossings es + pending p ≡ tally verdicts es + pending q)
    × (tally acceptances es + is_settled p ≡ is_settled q)
    × (tally retests es + is_retested p ≡ is_retested q)

Accounts-step :
    (p q r : Phase) (e : EventType) (es : List EventType)
    → allowed p e ≡ some q
    → Accounts q es r
    → Accounts p (e ∷ es) r
Accounts-step p q r e es h a = ground arith

follow-none : (es : List EventType) {q : Phase} → follow none es ≡ some q → ⊥
follow-none es h = cc

follow-Accounts :
    (es : List EventType) (p q : Phase) → follow (some p) es ≡ some q → Accounts p es q
follow-Accounts [] p q h = ground arith
follow-Accounts (e ∷ es) p q h = elim (Option-cases (allowed p e)) [
  | inl stuck ↦ absurd (follow-none es (subst (λ o. follow o es ≡ some q) stuck h))
  | inr (n, went) ↦
      Accounts-step p n q e es went
        (follow-Accounts es n q (subst (λ o. follow o es ≡ some q) went h))
]

-- A run that raises nothing, from a valid engine to one after it: the crossings announced and the one
-- pending before (0 or 1) are as many as the verdicts and the one pending after; the acceptances
-- raise the count of accepted phases (0 or 1) from before to after, and the retests that of retested
-- phases, so that a line is accepted at most once and retested at most once.
pub run-counts :
    (fl : Floats) (laws : FloatLaws fl) (e : Engine fl) (is : List (Input fl))
    {r : Engine fl × List (Emission fl)}
    → IsValid fl e
    → run fl e is ≡ ok r
    → (tally crossings (events fl r.1) + pending (phase_of fl e)
        ≡ tally verdicts (events fl r.1) + pending (phase_of fl r.0))
      × (tally acceptances (events fl r.1) + is_settled (phase_of fl e)
          ≡ is_settled (phase_of fl r.0))
      × (tally retests (events fl r.1) + is_retested (phase_of fl e)
          ≡ is_retested (phase_of fl r.0))
run-counts fl laws e is {r} valid h =
    follow-Accounts (events fl r.1) (phase_of fl e) (phase_of fl r.0)
      (run-follows fl laws e is valid h)
