-- ===== src/Common/Enum.antt =====
-- Python's enums with text values.
use real_estate_agent.Common.{
  ◌≡◌, Option, none, some, List, [], ◌∷◌, String, str_eq, eq_iff, arith, if◌then◌else◌,
}

-- `Enum(value)`: the member with that value, or a `ValueError`, which is `none`.
unfoldable pub member_of : {E : Type 0} → (E → String) → List E → String → Option E
member_of value [] s = none
member_of value (m ∷ ms) s = if str_eq (value m) s then some m else member_of value ms s

-- An argument of type `str | Enum`.
pub data Input (E : Type 0) : Type 0 where
  text : String → Input E
  member : E → Input E

pub member_of-value :
    {E : Type 0} (value : E → String) (members : List E) (s : String) {m : E}
    → member_of value members s ≡ some m
    → value m ≡ s
unfolding member_of
member_of-value value [] s h = ground arith
member_of-value value (x ∷ xs) s {m} h =
    ground (arith, eq_iff (value x) s, member_of-value value xs s {m = m})
