-- ===== src/Level/Restore.antt =====
-- Snapshots read back (level_event_state_machine.py, `snapshot_state` into `restore_state`).
use crt_master.Base.{
  ==_refl, All, Error, List, Option, String, [], ap, arith, false, leb, length, ltb, map,
  map_result, none, not, ok, pos, refl, some, str_eq, str_eq_refl, subst, suc, sym, true,
  value_error, zero, ℕ, ◌&&◌, ◌<◌, ◌>>=◌, ◌∷◌, ◌≡◌,
}
use crt_master.Json.{Json, arr, float, int, str, to_items}
use crt_master.Json.Laws.{items-to_items}
use crt_master.Floats.{FloatLaws, Floats, IsPositive}
use crt_master.Level.{
  Direction, Engine, State, band_number, direction_text, is_cross_raw, is_far, positive_int,
  positive_price, state_text,
}
use crt_master.Level.Checkpoint.{
  Progress, SameLine, check_flags, check_identity, is_absent, price_or_null, read_bool, read_closes,
  read_last_price, read_progress, read_state, restore_state, snapshot_fields, snapshot_state,
}
use crt_master.Level.Invariant.{IsPositiveOption, IsValid}

read_state-text : (F : Type 0) (s : State) → read_state {F = F} (str (state_text s)) ≡ ok s
unfolding read_state
read_state-text F State.far = refl
read_state-text F _ = refl

direction-text : (d : Direction) → str_eq (direction_text d) (direction_text d) ≡ true
direction-text d = str_eq_refl (direction_text d)

module _ (fl : Floats) (laws : FloatLaws fl) where
  open fl use {Float}

  positive_price-float :
      (x : Float) (name : String) → IsPositive fl x → positive_price fl (float x) name ≡ ok x
  unfolding positive_price
  positive_price-float x name h = ground arith

  band_number-float :
      (e : Engine fl) (bad : Error)
      → IsValid fl e
      → band_number fl (float e.band_bps) bad ≡ ok e.band_bps
  unfolding band_number
  band_number-float e bad v = ground arith

  positive_int-suc : (n : ℕ) (bad : Error) → 0 < n → positive_int fl (int (pos n)) bad ≡ ok n
  unfolding positive_int
  positive_int-suc zero bad h = elim h [ ]
  positive_int-suc (suc n) bad h = refl

  read_prices :
      (xs : List Float)
      → All (IsPositive fl) xs
      → map_result (λ close. positive_price fl close "checkpoint_close") (map float xs) ≡ ok xs
  read_prices [] h = refl
  read_prices (x ∷ xs) h = rw (positive_price-float x "checkpoint_close" h.0, read_prices xs h.1)

  check_identity-snapshot :
      (e e' : Engine fl)
      → IsValid fl e
      → SameLine fl e' e
      → check_identity fl e' (snapshot_fields fl e) ≡ ok tt
  unfolding check_identity
  check_identity-snapshot e e' v s = rw (
    positive_price-float e.level "checkpoint_level" v.level_positive,
    band_number-float e (value_error "Gate 6A approach band mismatch") v,
    positive_int-suc e.accept_required (value_error "Gate 6A acceptance window mismatch")
        v.required_positive,
    positive_int-suc e.accept_window (value_error "Gate 6A acceptance window mismatch")
        (omega arith),
    s.level,
    s.direction,
    s.band_bps,
    s.accept_required,
    s.accept_window,
    laws.eq_self e.level v.level_positive.0,
    laws.eq_self e.band_bps v.band_finite,
    direction-text e.direction,
    ==_refl e.accept_required,
    ==_refl e.accept_window,
  )

  abbrev progress_of : Engine fl → Progress fl
  progress_of e = record {
    last_price = e.last_price;
    state = e.state;
    cross_active = e.cross_active;
    accepted = e.accepted;
    accepted_departed = e.accepted_departed;
    retest_emitted = e.retest_emitted;
  }

  read_last_price-snapshot :
      (o : Option Float) → IsPositiveOption fl o → read_last_price fl (price_or_null fl o) ≡ ok o
  unfolding read_last_price
  read_last_price-snapshot none h = refl
  read_last_price-snapshot (some p) h = rw (positive_price-float p "last_price" h)

  late_only :
      (e : Engine fl) → IsValid fl e → (is_absent fl e.last_price && not (is_far e.state)) ≡ false
  late_only e v = ground arith

  check_flags-snapshot : (e : Engine fl) → IsValid fl e → check_flags fl (progress_of e) ≡ ok tt
  unfolding check_flags
  check_flags-snapshot e v = ground arith

  read_progress-snapshot :
      (e : Engine fl) → IsValid fl e → read_progress fl (snapshot_fields fl e) ≡ ok (progress_of e)
  unfolding read_progress read_bool
  read_progress-snapshot e v = rw (
    read_last_price-snapshot e.last_price v.price_positive,
    read_state-text Float e.state,
    late_only e v,
    check_flags-snapshot e v,
  )

  window_fits : (e : Engine fl) → IsValid fl e → ltb e.accept_window (length e.closes) ≡ false
  window_fits e v = ground arith

  window_unsettled :
      (e : Engine fl)
      → IsValid fl e
      → (is_cross_raw e.state && leb e.accept_window (length e.closes)) ≡ false
  window_unsettled e v = ground arith

  length-map_float : (xs : List Float) → length (map {B = Json Float} float xs) ≡ length xs
  length-map_float [] = refl
  length-map_float (x ∷ xs) = ap suc (length-map_float xs)

  read_closes-snapshot :
      (e : Engine fl)
      → IsValid fl e
      → read_closes fl e.accept_window e.state (arr (to_items (map float e.closes))) ≡ ok e.closes
  unfolding read_closes
  read_closes-snapshot e v = rw (
    items-to_items (map float e.closes),
    length-map_float e.closes,
    window_fits e v,
    read_prices e.closes v.closes_positive,
    window_unsettled e v,
  )

  -- A snapshot of a valid engine, restored into any engine of the same line, gives back the engine
  -- that was saved, whatever state the other was in.
  pub restore_state-snapshot_state :
      (e e' : Engine fl)
      → IsValid fl e
      → SameLine fl e' e
      → restore_state fl e' (snapshot_state fl e) ≡ ok e
  unfolding restore_state snapshot_state
  restore_state-snapshot_state e e' v s =
      rw (check_identity-snapshot e e' v s, read_progress-snapshot e v)
        (subst
          (λ n.
            (read_closes fl n e.state (arr (to_items (map float e.closes))) >>= λ closes.
            ok (record e' {
              last_price = e.last_price;
              state = e.state;
              cross_active = e.cross_active;
              accepted = e.accepted;
              accepted_departed = e.accepted_departed;
              retest_emitted = e.retest_emitted;
              closes = closes;
            }))
            ≡ ok e)
          (sym s.accept_window) (rw (read_closes-snapshot e v) (ground arith)))
