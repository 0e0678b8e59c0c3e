-- ===== src/Float.antt =====
-- Python's `float`, the machine's IEEE doubles: not code of the repository, and so a parameter of
-- every definition that computes with it. The operations are those that the code uses.
pub mod Order
pub mod Fixed
pub mod Ranking
use real_estate_agent.Common.Int.{ℤ}
use real_estate_agent.Common.{
  ℕ, zero, ◌+◌, ◌/◌, String, Bool, true, false, not, Option, none, some, List, foldl, if◌then◌else◌,
}

-- `lit m k` is the literal m · 10⁻ᵏ: `lit 85 2` is 0.85 and `lit 1 0` is 1.0. `==`, `<` and `<=` are
-- the comparisons, `round_to n` is `round(_, n)`, `nearest` is `round(_)`, which
-- raises on a NaN or an infinity, `show_fixed n` the format `:.nf`, `show_float` is `str`, `show_thousands` the format `:,.0f`, and `power` takes a natural exponent.
pub record Float {ℓ} (F : Type ℓ) : Type ℓ where
  pub lit : ℕ → ℕ → F
  pub add : F → F → F
  pub sub : F → F → F
  pub mul : F → F → F
  pub div : F → F → F
  pub neg : F → F
  pub abs : F → F
  pub power : F → ℕ → F
  pub round_to : ℕ → F → F
  pub lt : F → F → Bool
  pub le : F → F → Bool
  pub eq : F → F → Bool
  pub of_nat : ℕ → F
  pub nearest : F → Option ℤ
  pub show_fixed : ℕ → F → String
  pub show_float : F → String
  pub show_thousands : F → String

module _ {ℓ} {F : Type ℓ} ⦃d : Float F⦄ where
  open d use {lit, neg, lt, eq}

  abbrev pub zero_f : F
  zero_f = lit 0 0

  abbrev pub one_f : F
  one_f = lit 1 0

  -- `max(a, b)` and `min(a, b)` give the first argument unless the second is strictly better; so
  -- they pass a NaN on only from the first place.
  unfoldable pub max_f : F → F → F
  max_f a b = if lt a b then b else a

  unfoldable pub min_f : F → F → F
  min_f a b = if lt b a then b else a

  -- `_clamp_unit` and `_clamp_signed` of the domain modules.
  unfoldable pub clamp_unit : F → F
  unfolding max_f min_f
  clamp_unit value = max_f zero_f (min_f one_f value)

  unfoldable pub clamp_signed : F → F
  unfolding max_f min_f
  clamp_signed value = max_f (neg one_f) (min_f one_f value)

  -- `float(x or default)`: an absent value and every zero are replaced.
  unfoldable pub or_default : F → Option F → F
  or_default fallback none = fallback
  or_default fallback (some x) = if eq x zero_f then fallback else x

  -- `bool(x)` of an optional float.
  unfoldable pub is_truthy : Option F → Bool
  is_truthy none = Bool.false
  is_truthy (some x) = if eq x zero_f then Bool.false else true

  -- `(x + 1.0) / 2.0`: from [-1, 1] to [0, 1].
  unfoldable pub to_unit : F → F
  to_unit x = d.div (d.add x one_f) (lit 2 0)

  -- `sum(values)`, from left to right.
  unfoldable pub sum_f : List F → F
  sum_f = foldl d.add zero_f

  -- `max(values)` and `min(values)` of a list that is not empty.
  unfoldable pub max_of : F → List F → F
  unfolding max_f
  max_of = foldl max_f

  unfoldable pub min_of : F → List F → F
  unfolding min_f
  min_of = foldl min_f
