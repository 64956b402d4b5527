-- ===== src/Transport/Hold.antt =====
-- Which calls leave a delivery as it is: all of them once it is done, and those of others while a
-- claim runs (gpt_transport_boundary.py).
use crt_master.Base.{
  All, List, Result, String, [], ap, arith, err, false, ltb_ℤ, ok, refl, str_eq, str_eq_iff, subst,
  true, ℤ, ◌∙◌, ◌∷◌, ◌≡◌,
}
use crt_master.Json.{int, str}
use crt_master.Runtime.{Dict, Runtime, Value}
use crt_master.Values.{int_ltb}
use crt_master.Transport.Moves.{
  Call, Moves, Phase, after, claim_call, deliver, deliver_call, done, first_lease, leased, perform,
  perform-Moves, phase_of, release, retry_call, run, take_over,
}

module _ (rt : Runtime) where
  -- A call that cannot have been a move leaves the state.
  stays :
      (d : Dict rt) (c : Call rt) (r : Result (Dict rt))
      → perform rt d c ≡ r
      → ((p : Phase rt) → Moves rt (phase_of rt d) c p → ⊥)
      → after rt d r ≡ d
  stays d c (err e) h none_fits = refl
  stays d c (ok next) h none_fits = absurd (none_fits (phase_of rt next) (perform-Moves rt d c h))

  done-final :
      (p q : Phase rt) (c : Call rt) (receipt : Value rt) → Moves rt p c q → p ≡ done receipt → ⊥
  done-final p q c receipt (first_lease token adapter_id now_ms lease_ms long) e = cc
  done-final p q c receipt (take_over token adapter_id now_ms lease_ms old expiry long over) e = cc
  done-final p q c receipt (release token reason expiry) e = cc
  done-final p q c receipt (deliver token r expiry filled) e = cc

  -- A delivery that is done stays as it is, whatever is called.
  pub run-done :
      (d : Dict rt) (calls : List (Call rt)) (receipt : Value rt)
      → phase_of rt d ≡ done receipt
      → run rt d calls ≡ d
  unfolding run
  run-done d [] receipt h = refl
  run-done d (c ∷ cs) receipt h =
      let same = stays d c (perform rt d c) refl (λ p m. done-final _ p c receipt m h) in
      ap (λ (x : Dict rt). run rt x cs) same ∙ run-done d cs receipt h

  -- A call of somebody else while a claim runs until `expiry`: a claim before that time, or an end of
  -- a claim with another token.
  abbrev pub IsForeign : String → ℤ → Call rt → Type 0
  IsForeign token expiry (claim_call t adapter_id now_ms lease_ms selected) =
      ltb_ℤ now_ms expiry ≡ true
  IsForeign token expiry (retry_call t reason) = str_eq t token ≡ false
  IsForeign token expiry (deliver_call t receipt) = str_eq t token ≡ false

  token-injective :
      {a b : String} {v w : Value rt}
      → ◌≡◌ {A = Phase rt} (leased (str a) v) (leased (str b) w)
      → (a ≡ b) × (v ≡ w)
  token-injective h = (cc, cc)

  expiry-injective :
      {o v : Value rt} {b : String} {w : Value rt}
      → ◌≡◌ {A = Phase rt} (leased o v) (leased (str b) w)
      → v ≡ w
  expiry-injective h = cc

  not_over :
      (now_ms expiry : ℤ)
      → ltb_ℤ now_ms expiry ≡ true
      → int_ltb rt now_ms (int expiry) ≡ ok false
      → ⊥
  not_over now_ms expiry far over = ground arith

  not_same : (a b : String) → str_eq a b ≡ false → a ≡ b → ⊥
  not_same a b apart same = ground (arith, str_eq_iff a b)

  leased-foreign :
      (p q : Phase rt) (c : Call rt) (token : String) (expiry : ℤ)
      → IsForeign token expiry c
      → Moves rt p c q
      → p ≡ leased (str token) (int expiry)
      → ⊥
  leased-foreign p q c token expiry apart (first_lease t adapter_id now_ms lease_ms long) e = cc
  leased-foreign p q c token expiry apart
        (take_over t adapter_id now_ms lease_ms old ends long over) e =
      not_over now_ms expiry apart
        (subst (λ (v : Value rt). int_ltb rt now_ms v ≡ ok false) (expiry-injective e) over)
  leased-foreign p q c token expiry apart (release t reason ends) e =
      not_same t token apart (token-injective e).0
  leased-foreign p q c token expiry apart (deliver t receipt ends filled) e =
      not_same t token apart (token-injective e).0

  -- While a claim runs, the calls of others leave the state as it is, however many there are.
  pub run-foreign :
      (d : Dict rt) (calls : List (Call rt)) (token : String) (expiry : ℤ)
      → phase_of rt d ≡ leased (str token) (int expiry)
      → All (IsForeign token expiry) calls
      → run rt d calls ≡ d
  unfolding run
  run-foreign d [] token expiry h foreign = refl
  run-foreign d (c ∷ cs) token expiry h (this, rest) =
      let same =
        stays d c (perform rt d c) refl (λ p m. leased-foreign _ p c token expiry this m h) in
      ap (λ (x : Dict rt). run rt x cs) same ∙ run-foreign d cs token expiry h rest
