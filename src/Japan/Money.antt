-- ===== src/Japan/Money.antt =====
-- services/money_jp.py. The amount is a whole number of yen; `none` is the `ValueError` of a negative
-- one or what `round` raises, and the `TypeError` of an amount that is no whole number cannot occur.
pub mod Reading
use real_estate_agent.Common.{◌>>=◌}
use real_estate_agent.Common.{
  ℕ, ◌/◌, ◌%◌, String, not, ◌&&◌, Option, none, some, ltb, ◌==◌, if◌then◌else◌,
}
use real_estate_agent.Common.{
  ℕ, ◌/◌, ◌%◌, String, not, ◌&&◌, Option, none, some, ltb, ◌==◌, if◌then◌else◌,
}
use real_estate_agent.Common.Int.{ℤ, pos, negsuc, ◌+ℤ◌, ◌-ℤ◌, ◌*ℤ◌}
use real_estate_agent.Common.Show.{show_grouped}
use real_estate_agent.Float.{Float}
use Prim.Native.String.{◌++◌}

pub record MoneyJpy : Type 0 where
  pub amount : ℕ

-- `MoneyJPY(amount)` with `__post_init__`.
unfoldable pub money_jpy : ℤ → Option MoneyJpy
money_jpy (pos n) = some (record { amount = n })
money_jpy (negsuc n) = none

abbrev pub man : ℕ
man = 10_000

abbrev pub oku : ℕ
oku = 100_000_000

-- `__add__` and `__sub__`
unfoldable pub add_money : MoneyJpy → MoneyJpy → Option MoneyJpy
unfolding money_jpy
add_money self other = money_jpy (pos self.amount +ℤ pos other.amount)

unfoldable pub sub_money : MoneyJpy → MoneyJpy → Option MoneyJpy
unfolding money_jpy
sub_money self other = money_jpy (pos self.amount -ℤ pos other.amount)

module _ {ℓ} {F : Type ℓ} ⦃d : Float F⦄ where
  open d use {of_nat, mul, div, nearest}

  unfoldable pub scaled : MoneyJpy → F → Option MoneyJpy
  unfolding money_jpy
  scaled self ratio = do n ← nearest (mul (of_nat self.amount) ratio); money_jpy n

  unfoldable pub as_man : MoneyJpy → F
  as_man self = div (of_nat self.amount) (of_nat man)

  unfoldable pub as_oku : MoneyJpy → F
  as_oku self = div (of_nat self.amount) (of_nat oku)

  unfoldable pub from_man_float : F → Option MoneyJpy
  unfolding money_jpy
  from_man_float m = do n ← nearest (mul m (of_nat man)); money_jpy n

  unfoldable pub from_oku_float : F → Option MoneyJpy
  unfolding money_jpy
  from_oku_float o = do n ← nearest (mul o (of_nat oku)); money_jpy n

-- `from_man` and `from_oku` of a whole number, which `round` keeps.
unfoldable pub from_man : ℤ → Option MoneyJpy
unfolding money_jpy
from_man m = money_jpy (m *ℤ pos man)

unfoldable pub from_oku : ℤ → Option MoneyJpy
unfolding money_jpy
from_oku o = money_jpy (o *ℤ pos oku)

-- `format_ja` and `__str__`
unfoldable pub format_ja : MoneyJpy → String
format_ja self =
    let yen = self.amount in
    let rest = yen % oku in
    if ltb yen man
    then show_grouped yen "円"
    else if ltb yen oku
    then (if not (yen % man == 0)
        then show_grouped (yen / man) ("万" ++ show_grouped (yen % man) "円")
        else show_grouped (yen / man) "万円")
    else if rest == 0
    then show_grouped (yen / oku) "億円"
    else if rest % man == 0 && not (rest / man == 0)
    then show_grouped (yen / oku) ("億" ++ show_grouped (rest / man) "万円")
    else if not (rest % man == 0)
    then show_grouped (yen / oku)
        ("億" ++ show_grouped (rest / man) ("万" ++ show_grouped (rest % man) "円"))
    else show_grouped (yen / oku) "億円"
