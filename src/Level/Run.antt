-- ===== src/Level/Run.antt =====
-- Sequences of inputs to one engine (level_event_state_machine.py): the constructor gives a valid
-- engine, and every sequence of prices and closes that raises nothing keeps it valid.
use crt_master.Base.{
  >>-eq-ok, >>=-eq-ok, Error, List, Result, String, [], arith, false, ltb, of_option, ok,
  ok-injective, pos, refuse, subst, suc, true, zero, ℕ, ◌++◌, ◌<◌, ◌>>=◌, ◌∷◌, ◌≡◌,
}
use crt_master.Json.{Json, arr, bool, float, int, null, obj, str}
use crt_master.Floats.{FloatLaws, Floats}
use crt_master.Level.{
  Emission, Engine, band_number, direction_of, new, on_5s_close, on_price, positive_int,
  positive_price,
}
use crt_master.Level.Invariant.{
  IsValid, confirm-IsValid, observe-IsValid, positive_price-IsPositive,
}

module _ (fl : Floats) where
  open fl use {Float}

  -- A call of `on_price` or of `on_5s_close`.
  pub data Input : Type 0 where
    price : Json Float → String → Input
    close : Json Float → String → Input

  unfoldable pub feed : Engine fl → Input → Result (Engine fl × List (Emission fl))
  feed e (price v ts) = on_price fl e v ts
  feed e (close v ts) = on_5s_close fl e v ts

  -- The calls in order; the first that raises ends the run.
  unfoldable pub run : Engine fl → List Input → Result (Engine fl × List (Emission fl))
  run e [] = ok (e, [])
  run e (i ∷ is) = do first ← feed e i; rest ← run first.0 is; ok (rest.0, first.1 ++ rest.1)

module _ (fl : Floats) (laws : FloatLaws fl) where
  open fl use {Float}

  band_number-ok :
      (v : Json Float) (bad : Error) {x : Float}
      → band_number fl v bad ≡ ok x
      → (fl.is_finite x ≡ true) × (fl.lt x (fl.decimal 0 0) ≡ false)
  unfolding band_number
  band_number-ok (int n) bad {x} h = ground (arith, laws.of_int_finite n x, laws.of_int_below n x)
  band_number-ok (float x) bad h = ground arith
  band_number-ok null bad h = cc
  band_number-ok (bool b) bad h = cc
  band_number-ok (str s) bad h = cc
  band_number-ok (arr xs) bad h = cc
  band_number-ok (obj d) bad h = cc

  positive_int-pos : (v : Json Float) (bad : Error) {n : ℕ} → positive_int fl v bad ≡ ok n → 0 < n
  unfolding positive_int
  positive_int-pos (int (pos zero)) bad h = cc
  positive_int-pos (int (pos (suc n))) bad h = ground arith
  positive_int-pos _ bad h = cc

  pub new-IsValid :
      (level : Json Float) (direction : String) (band required window : Json Float) {e : Engine fl}
      → new fl level direction band required window ≡ ok e
      → IsValid fl e
  unfolding new
  new-IsValid level direction band required window {e} h =
      let (side, _, h₁) = >>=-eq-ok (of_option (direction_of direction) _) _ h in
      let (bps, band_read, h₂) = >>=-eq-ok (band_number fl band _) _ h₁ in
      let (size, window_read, h₃) = >>=-eq-ok (positive_int fl window _) _ h₂ in
      let (need, required_read, h₄) = >>=-eq-ok (positive_int fl required _) _ h₃ in
      let (_, fits, h₅) = >>-eq-ok (refuse (ltb size need) _) _ h₄ in
      let (x, level_read, built) = >>=-eq-ok (positive_price fl level "level") _ h₅ in
      let band_facts = band_number-ok band _ band_read in
      let need_pos = positive_int-pos required _ required_read in
      let size_pos = positive_int-pos window _ window_read in
      let level_facts = positive_price-IsPositive fl laws level "level" level_read in
      subst (IsValid fl) (ok-injective built) (ground arith)

  -- One call that returns keeps the invariant.
  pub feed-IsValid :
      (e : Engine fl) (i : Input fl) {r : Engine fl × List (Emission fl)}
      → IsValid fl e
      → feed fl e i ≡ ok r
      → IsValid fl r.0
  unfolding feed on_price on_5s_close
  feed-IsValid e (price v ts) valid h =
      let (x, checked, same) = >>=-eq-ok (positive_price fl v "observed_price") _ h in
      subst (λ s. IsValid fl s.0) (ok-injective same)
        (observe-IsValid fl laws e x ts valid (positive_price-IsPositive fl laws v _ checked))
  feed-IsValid e (close v ts) valid h =
      let (x, checked, same) = >>=-eq-ok (positive_price fl v "close") _ h in
      subst (λ s. IsValid fl s.0) (ok-injective same)
        (confirm-IsValid fl laws e x ts valid (positive_price-IsPositive fl laws v _ checked))

  -- A run that raises nothing, from a valid engine, ends in a valid engine.
  pub run-IsValid :
      (e : Engine fl) (is : List (Input fl)) {r : Engine fl × List (Emission fl)}
      → IsValid fl e
      → run fl e is ≡ ok r
      → IsValid fl r.0
  unfolding run
  run-IsValid e [] valid h = subst (λ s. IsValid fl s.0) (ok-injective h) valid
  run-IsValid e (i ∷ is) valid h =
      let (first, fed, h₁) = >>=-eq-ok (feed fl e i) _ h in
      let (rest, went, same) = >>=-eq-ok (run fl first.0 is) _ h₁ in
      subst (λ s. IsValid fl s.0) (ok-injective same)
        (run-IsValid first.0 is (feed-IsValid e i valid fed) went)

  -- An engine that the constructor built from whatever arguments it accepts, and that has taken a run
  -- that raises nothing, is valid.
  pub new-run-IsValid :
      (level : Json Float) (direction : String) (band required window : Json Float)
      (is : List (Input fl)) {e : Engine fl} {r : Engine fl × List (Emission fl)}
      → new fl level direction band required window ≡ ok e
      → run fl e is ≡ ok r
      → IsValid fl r.0
  new-run-IsValid level direction band required window is built went =
      run-IsValid _ is (new-IsValid level direction band required window built) went
