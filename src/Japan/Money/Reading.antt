-- ===== src/Japan/Money/Reading.antt =====
-- A reader of amounts in 億, 万 and 円, and that it reads back what `format_ja` prints.
use real_estate_agent.Common.{
  ℕ, zero, suc, ◌+◌, ◌-◌, ◌*◌, ◌/◌, ◌%◌, ◌<◌, String, ◌≡◌, refl, ap, ◌∙◌, inl, inr, Bool, true,
  false, not, ◌&&◌, Option, none, some, arith, ltb, leb, ◌==◌, if◌then◌else◌, Bool-cases,
}
use real_estate_agent.Common.{
  ℕ, zero, suc, ◌+◌, ◌-◌, ◌*◌, ◌/◌, ◌%◌, ◌<◌, String, ◌≡◌, refl, ap, ◌∙◌, inl, inr, ◌&&◌, Option,
  none, some, arith, leb, ◌==◌, if◌then◌else◌, Bool-cases,
}
use real_estate_agent.Common.Show.{digit, show_from, grouped_from, show_grouped}
use real_estate_agent.Japan.Money.{format_ja, man, oku, MoneyJpy}
use Prim.Native.String.append
use Prim.Native.Char.{Char, code}
use Prim.Native.String.{◌++◌}

-- Digits build a number, commas are skipped, 億 and 万 close a number of their unit, and 円 ends.
pub read_ja : ℕ → ℕ → String → Option ℕ
read_ja total n String.[] = none
read_ja total n (String.◌∷◌ c s) =
    let next_digit = read_ja total (n * 10 + (code c - 48)) s in
    let comma = read_ja total n s in
    let oku_unit = read_ja (total + n * 100_000_000) 0 s in
    let man_unit = read_ja (total + n * 10_000) 0 s in
    if leb 48 (code c) && leb (code c) 57
    then next_digit
    else if code c == 44
    then comma
    else if code c == 20_740
    then oku_unit
    else if code c == 19_975
    then man_unit
    else if code c == 20_870
    then some (total + n)
    else none

-- A statement on a conditional holds when it holds in each case.
if_intro :
    {A : Type 0} (P : A → Type 0) (b : Bool) {x y : A}
    → (b ≡ true → P x)
    → (b ≡ false → P y)
    → P (if b then x else y)
if_intro P true h k = h refl
if_intro P false h k = k refl

-- A character in front of a text.
read-front :
    (t n : ℕ) (c : Char) (s : String)
    → read_ja t n (String.◌∷◌ c String.[] ++ s) ≡ read_ja t n (String.◌∷◌ c s)
read-front t n c s =
    ap (read_ja t n) (λ i. append.cons c String.[] s i)
    ∙ ap (λ x. read_ja t n (String.◌∷◌ c x)) (λ i. append.nil s i)

read-digit :
    (t n d : ℕ) (s : String) → d < 10 → read_ja t n (digit d ++ s) ≡ read_ja t (n * 10 + d) s
unfolding read_ja
read-digit t n zero s h = read-front t n "0" s
read-digit t n (suc zero) s h = read-front t n "1" s
read-digit t n (suc (suc zero)) s h = read-front t n "2" s
read-digit t n (suc (suc (suc zero))) s h = read-front t n "3" s
read-digit t n (suc (suc (suc (suc zero)))) s h = read-front t n "4" s
read-digit t n (suc (suc (suc (suc (suc zero))))) s h = read-front t n "5" s
read-digit t n (suc (suc (suc (suc (suc (suc zero)))))) s h = read-front t n "6" s
read-digit t n (suc (suc (suc (suc (suc (suc (suc zero))))))) s h = read-front t n "7" s
read-digit t n (suc (suc (suc (suc (suc (suc (suc (suc zero)))))))) s h = read-front t n "8" s
read-digit t n (suc (suc (suc (suc (suc (suc (suc (suc (suc zero))))))))) s h = read-front t n "9" s
read-digit t n (suc (suc (suc (suc (suc (suc (suc (suc (suc (suc d)))))))))) s h =
    absurd (omega arith)

read-show_from :
    (fuel t n : ℕ) (s : String) → n < fuel → read_ja t 0 (show_from fuel n s) ≡ read_ja t n s
unfolding show_from
read-show_from zero t n s h = absurd (omega arith)
read-show_from (suc fuel) t n s h = elim (Bool-cases (n / 10 == 0)) [
  | inl e ↦ rw e (read-digit t 0 (n % 10) s (omega arith) ∙ ap (λ m. read_ja t m s) (ground arith))
  | inr e ↦ rw e (
      read-show_from fuel t (n / 10) (digit (n % 10) ++ s) (ground arith)
      ∙ read-digit t (n / 10) (n % 10) s (omega arith)
      ∙ ap (λ m. read_ja t m s) (omega arith))
]

read-group :
    (t n a b c : ℕ) (s : String)
    → a < 10
    → b < 10
    → c < 10
    → read_ja t n ("," ++ digit a ++ digit b ++ digit c ++ s)
      ≡ read_ja t (((n * 10 + a) * 10 + b) * 10 + c) s
unfolding read_ja
read-group t n a b c s p q r =
    read-front t n "," (digit a ++ digit b ++ digit c ++ s)
    ∙ read-digit t n a (digit b ++ digit c ++ s) p
    ∙ read-digit t (n * 10 + a) b (digit c ++ s) q
    ∙ read-digit t ((n * 10 + a) * 10 + b) c s r

read-grouped_from :
    (fuel t n : ℕ) (s : String) → n < fuel → read_ja t 0 (grouped_from fuel n s) ≡ read_ja t n s
unfolding grouped_from
read-grouped_from zero t n s h = absurd (omega arith)
read-grouped_from (suc fuel) t n s h = elim (Bool-cases (ltb n 1000)) [
  | inl e ↦ rw e (read-show_from (suc n) t n s (omega arith))
  | inr e ↦ rw e (
      read-grouped_from fuel t (n / 1000) _ (ground arith)
      ∙ read-group t (n / 1000) (n / 100 % 10) (n / 10 % 10) (n % 10) s (omega arith) (omega arith)
          (omega arith)
      ∙ ap (λ m. read_ja t m s) (omega arith))
]

read-show_grouped : (t n : ℕ) (s : String) → read_ja t 0 (show_grouped n s) ≡ read_ja t n s
unfolding show_grouped
read-show_grouped t n s = read-grouped_from (suc n) t n s (omega arith)

read-yen : (t n : ℕ) → read_ja t 0 (show_grouped n "円") ≡ some (t + n)
unfolding read_ja
read-yen t n = read-show_grouped t n "円"

read-man :
    (t n : ℕ) (s : String) → read_ja t 0 (show_grouped n ("万" ++ s)) ≡ read_ja (t + n * 10_000) 0 s
unfolding read_ja
read-man t n s = read-show_grouped t n ("万" ++ s) ∙ read-front t n "万" s

read-oku :
    (t n : ℕ) (s : String)
    → read_ja t 0 (show_grouped n ("億" ++ s)) ≡ read_ja (t + n * 100_000_000) 0 s
unfolding read_ja
read-oku t n s = read-show_grouped t n ("億" ++ s) ∙ read-front t n "億" s

read-man_yen : (t n : ℕ) → read_ja t 0 (show_grouped n "万円") ≡ some (t + n * 10_000 + 0)
unfolding read_ja
read-man_yen t n = read-show_grouped t n "万円"

read-oku_yen : (t n : ℕ) → read_ja t 0 (show_grouped n "億円") ≡ some (t + n * 100_000_000 + 0)
unfolding read_ja
read-oku_yen t n = read-show_grouped t n "億円"

abbrev Reads : ℕ → String → Type 0
Reads yen text = read_ja 0 0 text ≡ some yen

-- Every amount is printed so that reading the text gives the amount back, whatever of its parts are
-- zero.
pub read_ja-format_ja : (m : MoneyJpy) → read_ja 0 0 (format_ja m) ≡ some m.amount
unfolding format_ja
read_ja-format_ja m =
    let reads = Reads m.amount in
    let man_part = m.amount % oku / man in
    let yen_part = m.amount % oku % man in
    if_intro reads (ltb m.amount man) (λ a. read-yen 0 m.amount ∙ ap some (omega arith))
      (λ a.
        if_intro reads (ltb m.amount oku)
          (λ b.
            if_intro reads (not (m.amount % man == 0))
              (λ c. read-man 0 _ _ ∙ read-yen _ _ ∙ ap some (omega arith))
              (λ c. read-man_yen 0 _ ∙ ap some (ground arith)))
          (λ b.
            if_intro reads (m.amount % oku == 0) (λ c. read-oku_yen 0 _ ∙ ap some (ground arith))
              (λ c.
                if_intro reads (yen_part == 0 && not (man_part == 0))
                  (λ e. read-oku 0 _ _ ∙ read-man_yen _ _ ∙ ap some (ground arith))
                  (λ e.
                    if_intro reads (not (yen_part == 0))
                      (λ f. read-oku 0 _ _ ∙ read-man _ _ _ ∙ read-yen _ _ ∙ ap some (omega arith))
                      (λ f. read-oku_yen 0 _ ∙ ap some (ground arith))))))
