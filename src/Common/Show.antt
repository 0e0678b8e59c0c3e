-- ===== src/Common/Show.antt =====
-- `str` of a whole number.
use real_estate_agent.Common.{ℕ, zero, suc, ◌/◌, ◌%◌, String, ◌≡◌, refl, ltb, ◌==◌, if◌then◌else◌}
use Prim.Native.String.{◌++◌}

-- The text of a digit.
abbrev pub digit : ℕ → String
digit zero = "0"
digit (suc zero) = "1"
digit (suc (suc zero)) = "2"
digit (suc (suc (suc zero))) = "3"
digit (suc (suc (suc (suc zero)))) = "4"
digit (suc (suc (suc (suc (suc zero))))) = "5"
digit (suc (suc (suc (suc (suc (suc zero)))))) = "6"
digit (suc (suc (suc (suc (suc (suc (suc zero))))))) = "7"
digit (suc (suc (suc (suc (suc (suc (suc (suc zero)))))))) = "8"
digit _ = "9"

-- The decimal digits of `n` in front of `rest`; each round drops a digit, so `suc n` rounds are
-- enough.
unfoldable pub show_from : ℕ → ℕ → String → String
show_from zero n rest = rest
show_from (suc fuel) n rest =
    let text = digit (n % 10) ++ rest in
    let more = show_from fuel (n / 10) text in if n / 10 == 0 then text else more

unfoldable pub show_nat : ℕ → String
unfolding show_from
show_nat n = show_from (suc n) n ""

shown : (show_nat 0 ≡ "0") × (show_nat 10 ≡ "10") × (show_nat 90_705 ≡ "90705")
unfolding show_nat
shown = (refl, refl, refl)

-- The format `:,` in front of `rest`; each round drops three digits.
unfoldable pub grouped_from : ℕ → ℕ → String → String
unfolding show_from
grouped_from zero n rest = rest
grouped_from (suc fuel) n rest =
    let text = "," ++ digit (n / 100 % 10) ++ digit (n / 10 % 10) ++ digit (n % 10) ++ rest in
    let more = grouped_from fuel (n / 1000) text in
    if ltb n 1000 then show_from (suc n) n rest else more

unfoldable pub show_grouped : ℕ → String → String
unfolding grouped_from
show_grouped n rest = grouped_from (suc n) n rest

grouped : (show_grouped 90_705 "x" ≡ "90,705x") × (show_grouped 1_000_000 "" ≡ "1,000,000")
unfolding show_grouped
grouped = (refl, refl)
