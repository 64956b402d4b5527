-- ===== src/Level/Invariant.antt =====
-- What holds of an engine between two inputs (level_event_state_machine.py), and that the
-- constructor and both inputs keep it.
use crt_master.Base.{
  All, All-append, Bool, Bool-cases, List, Option, String, [], arith, false, inl, inr, length,
  length-append, ltb, ltb→lt, lt→ltb, none, not, ok, some, true, ℕ, ◌+◌, ◌<◌, ◌||◌, ◌∷◌, ◌≡◌, ◌≤◌,
}
use crt_master.Json.{Json, arr, bool, float, int, null, obj, str}
use crt_master.Floats.{FloatLaws, Floats, IsPositive}
use crt_master.Level.{
  Engine, State, confirm, cross_step, distance_bps, observe, positive_price, push_last, retest_step,
  settle,
}

abbrev pub crossing : State → Bool
crossing State.cross_raw = true
crossing State.accepted = true
crossing _ = false

abbrev pub confirmed : State → Bool
confirmed State.accepted = true
confirmed _ = false

abbrev pub IsPositiveOption : (fl : Floats) → Option fl.Float → Type 0
IsPositiveOption fl none = Unit
IsPositiveOption fl (some p) = IsPositive fl p

-- Until the first price the engine is in `FAR`.
abbrev pub IsStarted : {A : Type 0} → Option A → State → Type 0
IsStarted none state = state ≡ State.far
IsStarted (some p) state = Unit

pub record IsValid (fl : Floats) (e : Engine fl) : Type 0 where
  pub level_positive : IsPositive fl e.level
  pub band_finite : fl.is_finite e.band_bps ≡ true
  pub band_nonnegative : fl.lt e.band_bps (fl.decimal 0 0) ≡ false
  pub required_positive : 0 < e.accept_required
  pub required_fits : e.accept_required ≤ e.accept_window
  pub price_positive : IsPositiveOption fl e.last_price
  pub started : IsStarted e.last_price e.state
  pub cross_flag : e.cross_active ≡ crossing e.state
  pub accepted_flag : e.accepted ≡ confirmed e.state
  pub departed_flag : e.accepted_departed ≡ true → e.accepted ≡ true
  pub retest_flag : e.retest_emitted ≡ true → e.accepted_departed ≡ true
  pub closes_positive : All (IsPositive fl) e.closes
  pub closes_fit : length e.closes ≤ e.accept_window
  pub window_open : e.state ≡ State.cross_raw → length e.closes < e.accept_window

module _ (fl : Floats) (laws : FloatLaws fl) where
  open fl use {Float}

  -- A price that passes the check is finite and above zero.
  pub positive_price-IsPositive :
      (v : Json Float) (name : String) {x : Float}
      → positive_price fl v name ≡ ok x
      → IsPositive fl x
  unfolding positive_price
  positive_price-IsPositive (int n) name {x} h =
      ground (arith, laws.of_int_finite n x, laws.of_int_sign n x)
  positive_price-IsPositive (float x) name h = ground arith
  positive_price-IsPositive null name h = cc
  positive_price-IsPositive (bool b) name h = cc
  positive_price-IsPositive (str s) name h = cc
  positive_price-IsPositive (arr xs) name h = cc
  positive_price-IsPositive (obj d) name h = cc

  pub cross_step-IsValid :
      (e : Engine fl) (p d : Float) (ts : String)
      → IsValid fl e
      → IsPositive fl p
      → IsValid fl (record (cross_step fl e p d ts).0 { last_price = some p })
  unfolding cross_step
  cross_step-IsValid e p d ts v h = ground arith

  retest_step-IsValid :
      (e : Engine fl) (p d : Float) (ts : String)
      → IsValid fl (record e { last_price = some p })
      → IsValid fl (record (retest_step fl e p d ts).0 { last_price = some p })
  unfolding retest_step
  retest_step-IsValid e p d ts v = ground arith

  -- Before the verdict the window may be full.
  settle-IsValid :
      (e : Engine fl) (c : Float) (ts : String)
      → IsValid fl (record e { closes = [] })
      → e.state ≡ State.cross_raw
      → All (IsPositive fl) e.closes
      → length e.closes ≤ e.accept_window
      → IsValid fl (settle fl e c ts).0
  unfolding settle
  settle-IsValid e c ts v s p h = ground arith

  push_last-IsPositive :
      (n : ℕ) (x : Float) (xs : List Float)
      → All (IsPositive fl) xs
      → IsPositive fl x
      → length xs < n
      → All (IsPositive fl) (push_last n x xs) × (length (push_last n x xs) ≡ length xs + 1)
  push_last-IsPositive n x xs h k room =
      rw (lt→ltb (length xs) n room)
        (All-append (IsPositive fl) xs (x ∷ []) h (k, tt), omega (arith, length-append xs (x ∷ [])))

  -- Only in `CROSS_RAW` is a close taken into the window.
  pub unresolved :
      (e : Engine fl)
      → IsValid fl e
      → (not e.cross_active || e.accepted) ≡ false
      → e.state ≡ State.cross_raw
  unresolved e v h = ground arith

  pub with_closes :
      (e : Engine fl) (xs : List Float)
      → IsValid fl e
      → All (IsPositive fl) xs
      → length xs < e.accept_window
      → IsValid fl (record e { closes = xs })
  with_closes e xs v h k = record {
    level_positive = v.level_positive;
    band_finite = v.band_finite;
    band_nonnegative = v.band_nonnegative;
    required_positive = v.required_positive;
    required_fits = v.required_fits;
    price_positive = v.price_positive;
    started = v.started;
    cross_flag = v.cross_flag;
    accepted_flag = v.accepted_flag;
    departed_flag = v.departed_flag;
    retest_flag = v.retest_flag;
    closes_positive = h;
    closes_fit = omega arith;
    window_open = λ _. k;
  }

  -- Every close keeps the invariant, whether the window stays open or is settled.
  pub confirm-IsValid :
      (e : Engine fl) (c : Float) (ts : String)
      → IsValid fl e
      → IsPositive fl c
      → IsValid fl (confirm fl e c ts).0
  unfolding confirm
  confirm-IsValid e c ts v h = elim (Bool-cases (not e.cross_active || e.accepted)) [
    | inl idle ↦ rw idle v
    | inr busy ↦
        let state = unresolved e v busy in
        let room = v.window_open state in
        let (positive, size) =
          push_last-IsPositive e.accept_window c e.closes v.closes_positive h room in
        let xs = push_last e.accept_window c e.closes in
        elim (Bool-cases (ltb (length xs) e.accept_window)) [
          | inl open_window ↦
              rw (busy, open_window) (with_closes e xs v positive (ltb→lt _ _ open_window))
          | inr full ↦
              rw (busy, full)
                (settle-IsValid (record e { closes = xs }) c ts
                  (with_closes e [] v tt (omega arith)) state positive (omega arith))
        ]
  ]

  -- Every price keeps the invariant.
  pub observe-IsValid :
      (e : Engine fl) (p : Float) (ts : String)
      → IsValid fl e
      → IsPositive fl p
      → IsValid fl (observe fl e p ts).0
  unfolding observe
  observe-IsValid e p ts v h =
      let d = distance_bps fl e p in
      retest_step-IsValid (cross_step fl e p d ts).0 p d ts (cross_step-IsValid e p d ts v h)
