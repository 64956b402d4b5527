-- ===== src/Floats.antt =====
-- Python's `float` with what the code does with it: comparisons, arithmetic, and conversions. The
-- operations are the interpreter's, so they are a parameter; `FloatLaws` states the IEEE facts that
-- the theorems use.
use crt_master.Base.{Bool, List, Option, false, leb_ℤ, ltb_ℤ, pos, some, true, ℕ, ℤ, ◌≡◌}

pub record Floats : Type 1 where
  pub Float : Type 0
  -- x < y, x <= y, x == y
  pub lt : Float → Float → Bool
  pub le : Float → Float → Bool
  pub eq : Float → Float → Bool
  -- x == n, compared exactly
  pub eq_int : Float → ℤ → Bool
  -- x <= n, n <= x, n < x, compared exactly
  pub le_int : Float → ℤ → Bool
  pub int_le : ℤ → Float → Bool
  pub int_lt : ℤ → Float → Bool
  -- math.isfinite(x)
  pub is_finite : Float → Bool
  -- float(n); `none` is the OverflowError
  pub of_int : ℤ → Option Float
  -- the literal `digits / 10 ** places`
  pub decimal : ℕ → ℕ → Float
  pub add : Float → Float → Float
  pub sub : Float → Float → Float
  pub mul : Float → Float → Float
  pub div : Float → Float → Float
  pub abs : Float → Float
  -- sum(xs) of one float or more
  pub sum : List Float → Float
  -- a / b of two integers
  pub ratio : ℤ → ℤ → Float

module _ (fl : Floats) where
  open fl use {Float, lt, le, eq, is_finite, of_int, decimal}

  -- Finite and above zero.
  abbrev pub IsPositive : Float → Type 0
  IsPositive x = (is_finite x ≡ true) × (le x (decimal 0 0) ≡ false)

  pub record FloatLaws : Type 0 where
    pub eq_self : (x : Float) → is_finite x ≡ true → eq x x ≡ true
    pub of_int_finite : (n : ℤ) (x : Float) → of_int n ≡ some x → is_finite x ≡ true
    pub of_int_sign : (n : ℤ) (x : Float) → of_int n ≡ some x → le x (decimal 0 0) ≡ leb_ℤ n (pos 0)
    pub of_int_below :
        (n : ℤ) (x : Float) → of_int n ≡ some x → lt x (decimal 0 0) ≡ ltb_ℤ n (pos 0)
