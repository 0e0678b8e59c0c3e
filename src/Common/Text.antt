-- ===== src/Common/Text.antt =====
-- `str.lower` on ASCII letters and `str.strip` on the white space of Latin-1 and U+3000.
use real_estate_agent.Common.{ℕ, String, ◌≡◌, refl, Bool, ◌&&◌, ◌||◌, leb, ◌==◌, if◌then◌else◌}
use Prim.Native.Char.{Char, code}

-- The character in the second text at the place where `c` stands in the first.
translate : Char → String → String → Char
translate c (String.◌∷◌ u us) (String.◌∷◌ l ls) =
    let rest = translate c us ls in if code c == code u then l else rest
translate c _ _ = c

unfoldable pub lower : String → String
unfolding translate
lower String.[] = String.[]
lower (String.◌∷◌ c s) =
    String.◌∷◌ (translate c "ABCDEFGHIJKLMNOPQRSTUVWXYZ" "abcdefghijklmnopqrstuvwxyz") (lower s)

is_space : ℕ → Bool
is_space c = (leb 9 c && leb c 13) || (leb 28 c && leb c 32) || c == 133 || c == 160 || c == 12_288

unfoldable pub lstrip : String → String
unfolding is_space
lstrip String.[] = String.[]
lstrip (String.◌∷◌ c s) = let rest = lstrip s in if is_space (code c) then rest else String.◌∷◌ c s

keep_last : Char → String → String
keep_last c String.[] = if is_space (code c) then String.[] else String.◌∷◌ c String.[]
keep_last c (String.◌∷◌ x s) = String.◌∷◌ c (String.◌∷◌ x s)

unfoldable pub rstrip : String → String
unfolding keep_last is_space
rstrip String.[] = String.[]
rstrip (String.◌∷◌ c s) = keep_last c (rstrip s)

unfoldable pub strip : String → String
unfolding lstrip rstrip
strip s = rstrip (lstrip s)

trimmed : (strip "  a b\n" ≡ "a b") × (lower "Ab-C" ≡ "ab-c")
unfolding strip lower
trimmed = (refl, refl)
