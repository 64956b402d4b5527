-- ===== src/Level/Accept.antt =====
-- Payloads from elsewhere (level_event_state_machine.py, `restore_state`): what is accepted, and what
-- it makes of the engine.
use crt_master.Base.{
  >>-eq-ok, >>=-eq-ok, All, Error, List, Option, [], arith, leb, length, length-map_result, ltb,
  map_result, none, not, ok, ok-injective, refl, refuse, some, subst, true, ℕ, ◌&&◌, ◌<◌, ◌∷◌, ◌≡◌,
  ◌≤◌,
}
use crt_master.Json.{Fields, Json, arr, get, items, null, obj}
use crt_master.Floats.{FloatLaws, Floats, IsPositive}
use crt_master.Level.{Engine, State, is_cross_raw, is_far, positive_price}
use crt_master.Level.Checkpoint.{
  Progress, SameLine, check_flags, check_identity, is_absent, read_bool, read_closes,
  read_last_price, read_progress, read_state, restore_state,
}
use crt_master.Level.Invariant.{
  IsPositiveOption, IsStarted, IsValid, confirmed, crossing, positive_price-IsPositive,
}

module _ (fl : Floats) (laws : FloatLaws fl) where
  open fl use {Float}

  read_prices-IsPositive :
      (vs : List (Json Float)) {xs : List Float}
      → map_result (λ close. positive_price fl close "checkpoint_close") vs ≡ ok xs
      → All (IsPositive fl) xs
  read_prices-IsPositive [] h = subst (All (IsPositive fl)) (ok-injective h) tt
  read_prices-IsPositive (v ∷ vs) h =
      let (x, first, h₁) = >>=-eq-ok (positive_price fl v "checkpoint_close") _ h in
      let (xs, rest, h₂) =
        >>=-eq-ok (map_result (λ close. positive_price fl close "checkpoint_close") vs) _ h₁ in
      subst (All (IsPositive fl)) (ok-injective h₂)
        (positive_price-IsPositive fl laws v _ first, read_prices-IsPositive vs rest)

  -- What a list of closes that was accepted satisfies.
  read_closes-ok :
      (n : ℕ) (s : State) (v : Json Float) {xs : List Float}
      → read_closes fl n s v ≡ ok xs
      → All (IsPositive fl) xs × (length xs ≤ n) × (s ≡ State.cross_raw → length xs < n)
  unfolding read_closes
  read_closes-ok n s (arr vs) h =
      let read = λ (close : Json Float). positive_price fl close "checkpoint_close" in
      let (_, fits, h₁) = >>-eq-ok (refuse (ltb n (length (items vs))) _) _ h in
      let (xs, prices, h₂) = >>=-eq-ok (map_result read (items vs)) _ h₁ in
      let (_, unsettled, h₃) = >>-eq-ok (refuse (is_cross_raw s && leb n (length xs)) _) _ h₂ in
      let size = length-map_result read (items vs) prices in
      subst (λ ys. All (IsPositive fl) ys × (length ys ≤ n) × (s ≡ State.cross_raw → length ys < n))
        (ok-injective h₃) (read_prices-IsPositive (items vs) prices, ground arith, ground arith)
  read_closes-ok n s null h = cc
  read_closes-ok n s _ h = cc

  check_flags-ok :
      (p : Progress fl) {u : Unit {0}}
      → check_flags fl p ≡ ok u
      → (p.cross_active ≡ crossing p.state)
        × (p.accepted ≡ confirmed p.state)
        × (p.accepted_departed ≡ true → p.accepted ≡ true)
        × (p.retest_emitted ≡ true → p.accepted_departed ≡ true)
  unfolding check_flags
  check_flags-ok p h = ground arith

  read_last_price-ok :
      (v : Json Float) {o : Option Float} → read_last_price fl v ≡ ok o → IsPositiveOption fl o
  unfolding read_last_price
  read_last_price-ok null h = subst (IsPositiveOption fl) (ok-injective h) tt
  read_last_price-ok v h =
      let (x, read, same) = >>=-eq-ok (positive_price fl v "last_price") _ h in
      subst (IsPositiveOption fl) (ok-injective same)
        (positive_price-IsPositive fl laws v "last_price" read)

  started_of :
      (o : Option Float) (s : State) (bad : Error) {u : Unit {0}}
      → refuse (is_absent fl o && not (is_far s)) bad ≡ ok u
      → IsStarted o s
  started_of none State.far bad h = refl
  started_of none _ bad h = cc
  started_of (some p) s bad h = tt

  read_progress-ok :
      (d : Fields Float) {p : Progress fl}
      → read_progress fl d ≡ ok p
      → IsPositiveOption fl p.last_price
        × IsStarted p.last_price p.state
        × ((u : Unit {0}) × (check_flags fl p ≡ ok u))
  unfolding read_progress
  read_progress-ok d {p} h =
      let (last, last_read, h₁) = >>=-eq-ok (read_last_price fl (get "last_price" d)) _ h in
      let (state, _, h₂) = >>=-eq-ok (read_state (get "state" d)) _ h₁ in
      let (_, begun, h₃) = >>-eq-ok (refuse (is_absent fl last && not (is_far state)) _) _ h₂ in
      let (cross, _, h₄) = >>=-eq-ok (read_bool (get "cross_active" d)) _ h₃ in
      let (acc, _, h₅) = >>=-eq-ok (read_bool (get "accepted" d)) _ h₄ in
      let (gone, _, h₆) = >>=-eq-ok (read_bool (get "accepted_departed" d)) _ h₅ in
      let (back, _, h₇) = >>=-eq-ok (read_bool (get "retest_emitted" d)) _ h₆ in
      let (u, flags, same) = >>-eq-ok (check_flags fl _) _ h₇ in
      subst
        (λ (q : Progress fl).
          IsPositiveOption fl q.last_price
          × IsStarted q.last_price q.state
          × ((u : Unit {0}) × (check_flags fl q ≡ ok u)))
        (ok-injective same)
        (
          read_last_price-ok (get "last_price" d) last_read,
          started_of last state _ begun,
          (u, flags),
        )

  -- Restoring a payload into a valid engine, if it is accepted, gives a valid engine that watches
  -- the same line: level, direction, band and acceptance window are those of the engine before.
  pub restore_state-IsValid :
      (e : Engine fl) (payload : Json Float) {e' : Engine fl}
      → IsValid fl e
      → restore_state fl e payload ≡ ok e'
      → IsValid fl e' × SameLine fl e e'
  unfolding restore_state
  restore_state-IsValid e (obj d) v h =
      let (_, _, h₁) = >>-eq-ok (check_identity fl e d) _ h in
      let (p, progress, h₂) = >>=-eq-ok (read_progress fl d) _ h₁ in
      let (xs, closes, same) =
        >>=-eq-ok (read_closes fl e.accept_window p.state (get "closes" d)) _ h₂ in
      let (price, started, (_, flags)) = read_progress-ok d progress in
      let facts = check_flags-ok p flags in
      let window = read_closes-ok e.accept_window p.state (get "closes" d) closes in
      subst (λ f. IsValid fl f × SameLine fl e f) (ok-injective same)
        (
          record {
            level_positive = v.level_positive;
            band_finite = v.band_finite;
            band_nonnegative = v.band_nonnegative;
            required_positive = v.required_positive;
            required_fits = v.required_fits;
            price_positive = price;
            started = started;
            cross_flag = facts.0;
            accepted_flag = facts.1;
            departed_flag = facts.2;
            retest_flag = facts.3;
            closes_positive = window.0;
            closes_fit = window.1;
            window_open = window.2;
          },
          record {
            level = refl;
            direction = refl;
            band_bps = refl;
            accept_required = refl;
            accept_window = refl;
          },
        )
  restore_state-IsValid e null v h = cc
  restore_state-IsValid e _ v h = cc
