-- ===== src/Float/Order.antt =====
-- What the proofs rely on of the comparisons of doubles, and the bounds of the two clamps.
use real_estate_agent.Common.{ℕ, ◌*◌, ◌^◌, ◌≤◌, ◌≡◌, ◌⊎◌, true, false, not, ◌&&◌, arith}
use real_estate_agent.Float.{Float, zero_f, one_f, max_f, min_f, clamp_unit, clamp_signed}

infix 4 ◌≼◌
abbrev pub ◌≼◌ {ℓ} : {F : Type ℓ} ⦃d : Float F⦄ → F → F → Type 0
◌≼◌ ⦃d⦄ x y = d.le x y ≡ true

-- A float that is not NaN.
abbrev pub IsNum {ℓ} : {F : Type ℓ} ⦃d : Float F⦄ → F → Type 0
IsNum x = x ≼ x

abbrev pub InUnit {ℓ} : {F : Type ℓ} ⦃d : Float F⦄ → F → Type 0
InUnit x = (zero_f ≼ x) × (x ≼ one_f)

abbrev pub InSigned {ℓ} : {F : Type ℓ} ⦃d : Float F⦄ → F → Type 0
InSigned ⦃d⦄ x = (d.neg one_f ≼ x) × (x ≼ one_f)

-- The documented behaviour of IEEE comparisons: total on what is not NaN, false on NaN; literals
-- are correctly rounded, so that they keep the order of the decimals; `round` to a few places gives
-- a number for a number and does not leave [0, 1] or [-1, 1].
pub record IsOrdered {ℓ} (F : Type ℓ) ⦃d : Float F⦄ : Type ℓ where
  pub lit_le : (m k n j : ℕ) → m * 10 ^ j ≤ n * 10 ^ k → d.lit m k ≼ d.lit n j
  pub neg_lit_le : (m k n j : ℕ) → d.neg (d.lit m k) ≼ d.lit n j
  pub num_of_le : (x y : F) → x ≼ y → IsNum x × IsNum y
  pub le_trans : (x y z : F) → x ≼ y → y ≼ z → x ≼ z
  pub le_of_lt : (x y : F) → d.lt x y ≡ true → x ≼ y
  pub lt-eq-not-le : (x y : F) → IsNum x → IsNum y → d.lt x y ≡ not (d.le y x)
  pub le_total : (x y : F) → IsNum x → IsNum y → (x ≼ y) ⊎ (y ≼ x)
  pub round_num : (n : ℕ) (x : F) → IsNum x → IsNum (d.round_to n x)
  pub round_unit : (n : ℕ) (x : F) → n ≤ 6 → InUnit x → InUnit (d.round_to n x)
  pub round_signed : (n : ℕ) (x : F) → n ≤ 6 → InSigned x → InSigned (d.round_to n x)
  pub eq-le : (x y : F) → d.eq x y ≡ (d.le x y && d.le y x)

module _ {ℓ} {F : Type ℓ} ⦃d : Float F⦄ (laws : IsOrdered F) where
  open laws use {lit_le, neg_lit_le, num_of_le, le_trans, le_of_lt, lt-eq-not-le, le_total}

  -- The larger of two bounds, whatever `x` is.
  max_f-min_f_bounds :
      (lo hi x : F) → lo ≼ hi → (lo ≼ max_f lo (min_f hi x)) × (max_f lo (min_f hi x) ≼ hi)
  unfolding max_f min_f
  max_f-min_f_bounds lo hi x h =
      ground (arith, num_of_le lo hi h, le_of_lt x hi, le_of_lt lo x, le_of_lt lo hi)

  -- Whatever a float is, NaN included, the unit clamp lies in [0, 1].
  pub clamp_unit-InUnit : (x : F) → InUnit (clamp_unit x)
  unfolding clamp_unit
  clamp_unit-InUnit x = max_f-min_f_bounds zero_f one_f x (lit_le 0 0 1 0 (omega arith))

  -- Whatever a float is, NaN included, the signed clamp lies in [-1, 1].
  pub clamp_signed-InSigned : (x : F) → InSigned (clamp_signed x)
  unfolding clamp_signed
  clamp_signed-InSigned x = max_f-min_f_bounds (d.neg one_f) one_f x (neg_lit_le 1 0 1 0)

  pub IsNum-InUnit : (x : F) → InUnit x → IsNum x
  IsNum-InUnit x h = (num_of_le zero_f x h.0).1

  pub IsNum-InSigned : (x : F) → InSigned x → IsNum x
  IsNum-InSigned x h = (num_of_le (d.neg one_f) x h.0).1

  -- `<` is a strict order on numbers.
  pub lt_asym : (x y : F) → IsNum x → IsNum y → d.lt x y ≡ true → d.lt y x ≡ false
  lt_asym x y p q h = ground (arith, lt-eq-not-le y x q p, le_of_lt x y h)

  pub lt_cotrans :
      (x y z : F)
      → IsNum x
      → IsNum y
      → IsNum z
      → d.lt x y ≡ false
      → d.lt y z ≡ false
      → d.lt x z ≡ false
  lt_cotrans x y z p q r h k =
      ground
        (arith, lt-eq-not-le x y p q, lt-eq-not-le y z q r, lt-eq-not-le x z p r, le_trans z y x)

  pub le_of_not_lt : (x y : F) → IsNum x → IsNum y → d.lt x y ≡ false → y ≼ x
  le_of_not_lt x y p q h = ground (arith, lt-eq-not-le x y p q)
