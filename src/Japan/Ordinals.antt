-- ===== src/Japan/Ordinals.antt =====
-- services/address_jp.py: the numerals of the blocks of a ward (丁目).
pub mod Reading
use real_estate_agent.Common.{◌>>=◌}
use real_estate_agent.Common.{
  ℕ, suc, ◌+◌, ◌-◌, ◌*◌, ◌/◌, ◌%◌, String, ◌⊎◌, inl, inr, Bool, true, false, not, ◌||◌, Option,
  none, some, [], ◌∷◌, ltb, ◌==◌, if◌then◌else◌, length,
}
use real_estate_agent.Common.{
  ℕ, suc, ◌+◌, ◌-◌, ◌*◌, ◌/◌, ◌%◌, String, ◌≡◌, refl, ◌⊎◌, inl, inr, Bool, true, false, not, ◌||◌,
  Option, none, some, [], ◌∷◌, ltb, ◌==◌, if◌then◌else◌, length,
}
use real_estate_agent.Common.Int.{ℤ, pos, negsuc}
use Prim.Native.Char.{Char, code}
use Prim.Native.String.{◌++◌}

-- What the numerals raise.
pub data OrdinalError : Type 0 where
  value_error : OrdinalError
  index_error : OrdinalError

-- `_KANJI_TO_INT` along `_KANJI_ORDINAL_CHARS`: the values of the numerals, from `i` on.
abbrev pub value_along : ℕ → Char → String → Option ℕ
value_along i c String.[] = none
value_along i c (String.◌∷◌ x s) =
    let rest = value_along (suc i) c s in if code c == code x then some i else rest

-- `_KANJI_TO_INT[ch]`
unfoldable pub kanji_to_int : Char → Option ℕ
kanji_to_int c = value_along 1 c "一二三四五六七八九十"

-- `ch in _KANJI_ORDINAL_CHARS` for every character.
unfoldable pub all_ordinal_chars : String → Bool
unfolding kanji_to_int
all_ordinal_chars String.[] = true
all_ordinal_chars (String.◌∷◌ c s) = elim (kanji_to_int c) [
  | none ↦ Bool.false
  | some v ↦ all_ordinal_chars s
]

-- The character 十, U+5341.
abbrev pub is_ten : Char → Bool
is_ten c = code c == 21_313

-- The numeral's value by its length. The lookups do not miss: every character has been tested.
unfoldable pub ordinal_of : String → Option ℕ
unfolding kanji_to_int
ordinal_of (String.◌∷◌ c String.[]) = kanji_to_int c
ordinal_of (String.◌∷◌ a (String.◌∷◌ b String.[])) =
    if is_ten a
    then (do v ← kanji_to_int b; some (10 + v))
    else if is_ten b
    then (do v ← kanji_to_int a; some (v * 10))
    else none
ordinal_of (String.◌∷◌ a (String.◌∷◌ m (String.◌∷◌ b String.[]))) =
    if is_ten a || is_ten m || is_ten b
    then (do v ← kanji_to_int a; w ← kanji_to_int b; some (v * 10 + w))
    else none
ordinal_of _ = none

-- `_kanji_ordinal_to_int`
unfoldable pub kanji_ordinal_to_int : String → Option ℕ
unfolding all_ordinal_chars ordinal_of
kanji_ordinal_to_int token = if all_ordinal_chars token then ordinal_of token else none

-- `_INT_TO_KANJI[n]`
abbrev pub char_at : String → ℕ → OrdinalError ⊎ String
char_at String.[] n = inl index_error
char_at (String.◌∷◌ c s) n =
    let rest = char_at s (n - 1) in if n == 0 then inr (String.◌∷◌ c String.[]) else rest

unfoldable pub int_to_kanji : ℕ → OrdinalError ⊎ String
int_to_kanji n = char_at "〇一二三四五六七八九" n

-- `_int_to_kanji_ordinal`
unfoldable pub int_to_kanji_ordinal : ℤ → OrdinalError ⊎ String
unfolding int_to_kanji
int_to_kanji_ordinal (negsuc n) = inl value_error
int_to_kanji_ordinal (pos n) =
    if ltb n 10
    then int_to_kanji n
    else if n == 10
    then inr "十"
    else if ltb n 20
    then elim (int_to_kanji (n - 10)) [ inl e ↦ inl e | inr s ↦ inr ("十" ++ s) ]
    else elim (int_to_kanji (n / 10)) [
      | inl e ↦ inl e
      | inr tens ↦
          if n % 10 == 0
          then inr (tens ++ "十" ++ "")
          else elim (int_to_kanji (n % 10)) [ inl e ↦ inl e | inr ones ↦ inr (tens ++ "十" ++ ones) ]
    ]
