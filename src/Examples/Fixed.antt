-- ===== src/Examples/Fixed.antt =====
-- Fixed-point numbers in millionths: one concrete choice of the float operations, which meets the
-- laws that the theorems ask for.
use crt_master.Base.{
  List, [], arith, eq_ℤ, eq_ℤ_refl, leb_ℤ, ltb_ℤ, neg_part, negsuc, pos, pos_part, refl, some,
  sub_ℕ, suc, true, zero, ℕ, ℤ, ◌*◌, ◌+ℤ◌, ◌+◌, ◌-ℤ◌, ◌/◌, ◌∷◌, ◌≡◌,
}
use crt_master.Floats.{FloatLaws, Floats}

abbrev millionths : ℤ → ℤ
millionths n = sub_ℕ (pos_part n * 1_000_000) (neg_part n * 1_000_000)

abbrev power : ℕ → ℕ
power zero = 1
power (suc n) = 10 * power n

abbrev scaled_mul : ℤ → ℤ → ℤ
scaled_mul a b =
    sub_ℕ ((pos_part a * pos_part b + neg_part a * neg_part b) / 1_000_000)
      ((pos_part a * neg_part b + neg_part a * pos_part b) / 1_000_000)

abbrev scaled_div : ℤ → ℤ → ℤ
scaled_div a b =
    sub_ℕ
      ((pos_part a * pos_part b * 1_000_000 + neg_part a * neg_part b * 1_000_000)
        / (pos_part b * pos_part b + neg_part b * neg_part b))
      ((pos_part a * neg_part b * 1_000_000 + neg_part a * pos_part b * 1_000_000)
        / (pos_part b * pos_part b + neg_part b * neg_part b))

abbrev total : List ℤ → ℤ
total [] = pos 0
total (x ∷ xs) = x +ℤ total xs

abbrev pub fixed : Floats
fixed = record {
  Float = ℤ;
  lt = ltb_ℤ;
  le = leb_ℤ;
  eq = eq_ℤ;
  eq_int = λ x n. eq_ℤ x (millionths n);
  le_int = λ x n. leb_ℤ x (millionths n);
  int_le = λ n x. leb_ℤ (millionths n) x;
  int_lt = λ n x. ltb_ℤ (millionths n) x;
  is_finite = λ _. true;
  of_int = λ n. some (millionths n);
  decimal = λ digits places. pos (digits * 1_000_000 / power places);
  add = λ a b. a +ℤ b;
  sub = λ a b. a -ℤ b;
  mul = scaled_mul;
  div = scaled_div;
  abs = λ a. pos (pos_part a + neg_part a);
  sum = total;
  ratio = λ a b. scaled_div (millionths a) (millionths b);
}

millionths_sign : (n : ℤ) → leb_ℤ (millionths n) (pos 0) ≡ leb_ℤ n (pos 0)
millionths_sign (pos n) = ground arith
millionths_sign (negsuc n) = ground arith

millionths_below : (n : ℤ) → ltb_ℤ (millionths n) (pos 0) ≡ ltb_ℤ n (pos 0)
millionths_below (pos n) = ground arith
millionths_below (negsuc n) = ground arith

some-injective : {a b : ℤ} → some a ≡ some b → a ≡ b
some-injective h = cc

pub fixed_laws : FloatLaws fixed
fixed_laws = record {
  eq_self = λ x _. eq_ℤ_refl x;
  of_int_finite = λ n x _. refl;
  of_int_sign = λ n x h. rw (← some-injective h) (millionths_sign n);
  of_int_below = λ n x h. rw (← some-injective h) (millionths_below n);
}
