-- ===== src/Common/Json.antt =====
-- The values of a JSON column.
use real_estate_agent.Common.{
  String, Bool, true, false, not, Option, none, some, [], ◌∷◌, str_eq, ◌==◌,
}
use real_estate_agent.Common.Int.{ℤ, pos, negsuc}
use real_estate_agent.Common.Dict.{Dict}
use real_estate_agent.Float.{Float, zero_f}

mutual
  pub data Json {ℓ} (F : Type ℓ) : Type ℓ where
    null : Json F
    boolean : Bool → Json F
    integer : ℤ → Json F
    number : F → Json F
    text : String → Json F
    array : Items F → Json F
    object : Fields F → Json F

  pub data Items {ℓ} (F : Type ℓ) : Type ℓ where
    no_items : Items F
    item : Json F → Items F → Items F

  pub data Fields {ℓ} (F : Type ℓ) : Type ℓ where
    no_fields : Fields F
    field : String → Json F → Fields F → Fields F

module _ {ℓ} {F : Type ℓ} where
  -- A dictionary as a value.
  unfoldable pub fields_of : Dict String (Json F) → Fields F
  fields_of [] = no_fields
  fields_of ((k, v) ∷ d) = field k v (fields_of d)

  -- `column or {}`
  unfoldable pub dict_or_empty : Option (Dict String (Json F)) → Dict String (Json F)
  dict_or_empty none = []
  dict_or_empty (some d) = d

module _ {ℓ} {F : Type ℓ} ⦃d : Float F⦄ where
  -- `bool(value)`
  unfoldable pub is_truthy_json : Json F → Bool
  is_truthy_json null = false
  is_truthy_json (boolean b) = b
  is_truthy_json (integer (pos n)) = not (n == 0)
  is_truthy_json (integer (negsuc n)) = true
  is_truthy_json (number x) = not (d.eq x zero_f)
  is_truthy_json (text s) = not (str_eq s "")
  is_truthy_json (array no_items) = false
  is_truthy_json (array (item _ _)) = true
  is_truthy_json (object no_fields) = false
  is_truthy_json (object (field _ _ _)) = true
