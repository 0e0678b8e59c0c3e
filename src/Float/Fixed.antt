-- ===== src/Float/Fixed.antt =====
-- A concrete number type for the laws: millionths with a NaN, rounded towards zero.
use native.Mathlib.Nat.{
  div-mul-le_self, le-div_iff_mul-le, le_of_mul-le-mul_right, mul-le-mul, le_refl, pow-suc,
}
use real_estate_agent.Common.{
  ℕ, zero, suc, ◌+◌, ◌*◌, ◌/◌, ◌^◌, ◌≤◌, ◌<◌, refl, Bool, false, not, ◌&&◌, Option, none, some,
  arith, leb,
}
use real_estate_agent.Common.Int.{ℤ, pos, negsuc, pos_part, neg_part, sub_ℕ, ◌+ℤ◌, ◌-ℤ◌, ◌*ℤ◌}
use real_estate_agent.Float.{Float}
use real_estate_agent.Float.Order.{InSigned, InUnit, IsOrdered}

pub data Fixed : Type 0 where
  nan : Fixed
  num : ℤ → Fixed

abbrev pub scale : ℕ
scale = 1_000_000

abbrev pub magnitude : ℤ → ℕ
magnitude (pos n) = n
magnitude (negsuc n) = suc n

-- A magnitude with the sign of an integer.
abbrev pub signed_as : ℤ → ℕ → ℤ
signed_as (pos _) n = pos n
signed_as (negsuc _) n = sub_ℕ 0 n

abbrev pub le_ℤ : ℤ → ℤ → Bool
le_ℤ a b = leb (pos_part a + neg_part b) (pos_part b + neg_part a)

abbrev pub lift_one : (ℤ → ℤ) → Fixed → Fixed
lift_one f nan = nan
lift_one f (num a) = num (f a)

abbrev pub lift_two : (ℤ → ℤ → Fixed) → Fixed → Fixed → Fixed
lift_two f (num a) (num b) = f a b
lift_two f _ _ = nan

abbrev pub test_two : (ℤ → ℤ → Bool) → Fixed → Fixed → Bool
test_two f (num a) (num b) = f a b
test_two f _ _ = false

abbrev pub le_fixed : Fixed → Fixed → Bool
le_fixed = test_two le_ℤ

unfoldable pub product : ℤ → ℤ → ℤ
unfolding ◌*ℤ◌
product a b = let p = a *ℤ b in signed_as p (magnitude p / scale)

unfoldable pub quotient : ℤ → ℤ → Fixed
unfolding ◌*ℤ◌
quotient a (pos zero) = nan
quotient a b = let s = a *ℤ b in num (signed_as s (magnitude a * scale / magnitude b))

unfoldable pub power_from : Fixed → ℕ → Fixed
unfolding product
power_from x zero = num (pos scale)
power_from x (suc n) = lift_two (λ a b. num (product a b)) (power_from x n) x

-- Half away from zero.
unfoldable pub round_int : ℕ → ℤ → ℤ
round_int n a = let unit = scale / 10 ^ n in signed_as a ((magnitude a + unit / 2) / unit * unit)

unfoldable pub units : Fixed → Option ℤ
units nan = none
units (num a) = some (signed_as a ((magnitude a + scale / 2) / scale))

instance abbrev pub fixed_float : Float Fixed
fixed_float = record {
  lit = λ m k. num (pos (m * scale / 10 ^ k));
  add = lift_two (λ a b. num (a +ℤ b));
  sub = lift_two (λ a b. num (a -ℤ b));
  mul = lift_two (λ a b. num (product a b));
  div = lift_two quotient;
  neg = lift_one (λ a. sub_ℕ (neg_part a) (pos_part a));
  abs = lift_one (λ a. pos (magnitude a));
  power = power_from;
  round_to = λ n. lift_one (round_int n);
  lt = test_two (λ a b. not (le_ℤ b a));
  le = le_fixed;
  eq = λ x y. le_fixed x y && le_fixed y x;
  of_nat = λ n. num (pos (n * scale));
  nearest = units;
  show_fixed = λ n x. "#";
  show_float = λ x. "#";
  show_thousands = λ x. "#";
}

div-le-div_cross : (m n a b : ℕ) → 0 < a → 0 < b → m * b ≤ n * a → m * scale / a ≤ n * scale / b
div-le-div_cross m n a b pa pb h =
    let q = m * scale / a in
    let whole : q * a ≤ m * scale = div-mul-le_self (m * scale) a in
    let crossed : q * b * a ≤ n * scale * a =
      omega (arith, mul-le-mul whole (le_refl b), mul-le-mul h (le_refl scale)) in
    (le-div_iff_mul-le pb).1 (le_of_mul-le-mul_right crossed pa)

pow-pos : (k : ℕ) → 0 < 10 ^ k
pow-pos zero = omega arith
pow-pos (suc k) = omega (arith, pow-suc 10 k, pow-pos k)

-- Rounding to a multiple of the unit of `n` places does not pass 1.
round_le_scale :
    (n a : ℕ)
    → n ≤ 6
    → a ≤ scale
    → (a + scale / 10 ^ n / 2) / (scale / 10 ^ n) * (scale / 10 ^ n) ≤ scale
round_le_scale zero a b h = omega arith
round_le_scale (suc zero) a b h = omega arith
round_le_scale (suc (suc zero)) a b h = omega arith
round_le_scale (suc (suc (suc zero))) a b h = omega arith
round_le_scale (suc (suc (suc (suc zero)))) a b h = omega arith
round_le_scale (suc (suc (suc (suc (suc zero))))) a b h = omega arith
round_le_scale (suc (suc (suc (suc (suc (suc zero)))))) a b h = omega arith
round_le_scale (suc (suc (suc (suc (suc (suc (suc n))))))) a b h = absurd (omega arith)

round_int-InUnit : (n : ℕ) (x : Fixed) → n ≤ 6 → InUnit x → InUnit (lift_one (round_int n) x)
unfolding round_int
round_int-InUnit n nan b h = ground arith
round_int-InUnit n (num (negsuc a)) b h = absurd (ground arith)
round_int-InUnit n (num (pos a)) b h = ground (arith, round_le_scale n a b)

round_int-InSigned : (n : ℕ) (x : Fixed) → n ≤ 6 → InSigned x → InSigned (lift_one (round_int n) x)
unfolding round_int
round_int-InSigned n nan b h = ground arith
round_int-InSigned n (num (negsuc a)) b h =
    let bound : suc a ≤ scale = ground arith in
    let k = (suc a + scale / 10 ^ n / 2) / (scale / 10 ^ n) * (scale / 10 ^ n) in
    let le : k ≤ scale = round_le_scale n (suc a) b bound in negative k le
  where
    negative : (k : ℕ) → k ≤ scale → InSigned (num (sub_ℕ 0 k))
    negative zero h = ground arith
    negative (suc k) h = ground arith
round_int-InSigned n (num (pos a)) b h =
    let k = (a + scale / 10 ^ n / 2) / (scale / 10 ^ n) * (scale / 10 ^ n) in
    let le : k ≤ scale = round_le_scale n a b (ground arith) in positive k le
  where
    positive : (k : ℕ) → k ≤ scale → InSigned (num (pos k))
    positive k h = ground arith

-- The fixed-point numbers meet the laws.
pub Fixed-IsOrdered : IsOrdered Fixed
Fixed-IsOrdered = record {
  lit_le =
      λ m k n j h. ground (arith, div-le-div_cross m n (10 ^ k) (10 ^ j) (pow-pos k) (pow-pos j) h);
  neg_lit_le = λ m k n j. ground arith;
  num_of_le = λ x y h. ground arith;
  le_trans = λ x y z h k. ground arith;
  le_of_lt = λ x y h. ground arith;
  lt-eq-not-le = λ x y p q. ground arith;
  le_total = λ x y p q. ground arith;
  eq-le = λ x y. refl;
  round_num = λ n x h. ground arith;
  round_unit = round_int-InUnit;
  round_signed = round_int-InSigned;
}
