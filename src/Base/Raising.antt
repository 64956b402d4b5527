-- ===== src/Base/Raising.antt =====
-- A Python call that returns or raises.
use mathlib.Core.Path.{◌≡◌, refl}
use mathlib.Core.Option.{Option, none, some}
use mathlib.Core.Bool.{Bool, true, false}
use mathlib.Core.List.{List, [], ◌∷◌}
use mathlib.Core.Logic.{◌⊎◌, inl, inr}
use Prim.Native.Nat.{ℕ, suc}
use mathlib.Core.Path.{ap, subst, ◌∙◌}
use Prim.Native.String.{String}
use crt_master.Base.Lists.{length}

-- The exception classes that the modelled code raises, with the text that the source gives.
pub data Error : Type 0 where
  value_error : String → Error
  type_error : String → Error
  key_error : String → Error
  overflow_error : Error
  -- run_ledger.py: "ledger does not end with newline; possible torn append"
  torn_append : Error
  -- f"invalid JSON at ledger line {index}" and f"ledger line {index} is not an object"
  invalid_json : ℕ → Error
  not_an_object : ℕ → Error
  -- "refusing append to invalid ledger: …" and "ledger failed validation after append: …"
  refusing_append : Error
  failed_after_append : Error
  -- SnapshotCorruption(text)
  snapshot_corruption : String → Error
  -- LiquidationError(text), and its texts that name a session
  liquidation_error : String → Error
  -- f"{field} {text}"
  liquidation_field : String → String → Error
  -- _UnfilledOrder
  unfilled_order : Error
  unknown_session : String → Error
  heartbeat_closed : String → Error
  already_closed : String → Error
  -- FileNotFoundError, json.JSONDecodeError
  file_not_found : Error
  not_json : Error
  -- sqlite3.IntegrityError
  integrity_error : Error
  -- gpt_bridge_outbox.py: f"Bridge authority {key} must remain {expected!r}", and of privacy
  must_remain : String → Error
  -- f"{field} must be a positive number"
  not_positive : String → Error
  -- f"unsupported direction: {direction}"
  unsupported_direction : String → Error
  -- f"Gate 6A state identity mismatch:{key}"
  identity_mismatch : String → Error

pub data Result {ℓ} (A : Type ℓ) : Type ℓ where
  err : Error → Result A
  ok : A → Result A

pub ok-injective {ℓ} : {A : Type ℓ} {a b : A} → ok a ≡ ok b → a ≡ b
ok-injective h = cc

-- The rest of a call runs only if what came before did not raise.
infixl 5 ◌>>=◌
abbrev pub ◌>>=◌ {ℓ κ} : {A : Type ℓ} {B : Type κ} → Result A → (A → Result B) → Result B
err raised >>= rest = err raised
ok value >>= rest = rest value

infixl 5 ◌>>◌
abbrev pub ◌>>◌ {ℓ κ} : {A : Type ℓ} {B : Type κ} → Result A → Result B → Result B
m >> k = m >>= λ _. k

-- `if not test: raise error`
abbrev pub require : Bool → Error → Result (Unit {0})
require true e = ok tt
require false e = err e

-- `if test: raise error`
abbrev pub refuse : Bool → Error → Result (Unit {0})
refuse true e = err e
refuse false e = ok tt

pub refuse-ok : (b : Bool) (e : Error) {u : Unit {0}} → refuse b e ≡ ok u → b ≡ false
refuse-ok false e h = refl
refuse-ok true e h = cc

pub require-ok : (b : Bool) (e : Error) {u : Unit {0}} → require b e ≡ ok u → b ≡ true
require-ok true e h = refl
require-ok false e h = cc

abbrev pub of_option {ℓ} : {A : Type ℓ} → Option A → Error → Result A
of_option none e = err e
of_option (some a) e = ok a

pub of_option-ok {ℓ} :
    {A : Type ℓ} (o : Option A) (e : Error) {a : A} → of_option o e ≡ ok a → o ≡ some a
of_option-ok none e h = cc
of_option-ok (some x) e h = ap some (ok-injective h)

-- `[f(x) for x in xs]` where `f` may raise.
abbrev pub map_result {ℓ κ} : {A : Type ℓ} {B : Type κ} → (A → Result B) → List A → Result (List B)
map_result f [] = ok []
map_result f (x ∷ xs) = f x >>= λ y. map_result f xs >>= λ ys. ok (y ∷ ys)

pub >>=-eq-ok {ℓ κ} :
    {A : Type ℓ} {B : Type κ} (call : Result A) (rest : A → Result B) {b : B}
    → (call >>= rest) ≡ ok b
    → (a : A) × (call ≡ ok a) × (rest a ≡ ok b)
>>=-eq-ok (err e) rest h = cc
>>=-eq-ok (ok a) rest h = (a, refl, h)

-- A call that returned goes on with its value.
pub >>=-at-ok {ℓ κ} :
    {A : Type ℓ} {B : Type κ} (m : Result A) (f : A → Result B) {a : A} {r : Result B}
    → m ≡ ok a
    → f a ≡ r
    → (m >>= f) ≡ r
>>=-at-ok (ok x) f h k = ap f (ok-injective h) ∙ k
>>=-at-ok (err e) f h k = cc

pub Result-cases {ℓ} :
    {A : Type ℓ} (r : Result A) → ((a : A) × (r ≡ ok a)) ⊎ ((e : Error) × (r ≡ err e))
Result-cases (ok a) = inl (a, refl)
Result-cases (err e) = inr (e, refl)

-- A check in front of the rest of a call that returned has passed.
pub >>-eq-ok {ℓ κ} :
    {A : Type ℓ} {B : Type κ} (m : Result A) (k : Result B) {b : B}
    → (m >> k) ≡ ok b
    → (a : A) × (m ≡ ok a) × (k ≡ ok b)
>>-eq-ok (ok a) k h = (a, refl, h)
>>-eq-ok (err e) k h = cc

pub length-map_result {ℓ κ} :
    {A : Type ℓ} {B : Type κ} (f : A → Result B) (xs : List A) {ys : List B}
    → map_result f xs ≡ ok ys
    → length ys ≡ length xs
length-map_result f [] {ys} h = cc
length-map_result f (x ∷ xs) h =
    let (y, first, h₁) = >>=-eq-ok (f x) _ h in
    let (ys, rest, h₂) = >>=-eq-ok (map_result f xs) _ h₁ in
    subst (λ zs. length zs ≡ suc (length xs)) (ok-injective h₂)
      (ap suc (length-map_result f xs rest))
