-- ===== src/Japan/Ordinals/Reading.antt =====
-- The ordinals that `_int_to_kanji_ordinal` prints, read by `_kanji_ordinal_to_int`.
use real_estate_agent.Common.{
  ℕ, zero, suc, ◌-◌, ◌/◌, ◌≤◌, ◌<◌, String, ◌≡◌, refl, ap, ◌↔◌, ◌⊎◌, inl, inr, Bool, true, false,
  ◌&&◌, Option, none, some, arith, ◌==◌,
}
use real_estate_agent.Common.Int.{pos}
use real_estate_agent.Japan.Ordinals.{
  OrdinalError, int_to_kanji_ordinal, kanji_ordinal_to_int, index_error, int_to_kanji, char_at,
}

-- Whether `n` is what was read.
abbrev agrees : ℕ → Option ℕ → Bool
agrees n none = false
agrees n (some v) = v == n

-- Whether `n` is printed, and its text read as `n`.
abbrev text_agrees : ℕ → OrdinalError ⊎ String → Bool
text_agrees n (inl e) = false
text_agrees n (inr s) = agrees n (kanji_ordinal_to_int s)

abbrev reads_back : ℕ → Bool
reads_back n = text_agrees n (int_to_kanji_ordinal (pos n))

-- A test at the numbers from 1 to `n`.
all_to : (ℕ → Bool) → ℕ → Bool
all_to p zero = true
all_to p (suc n) = p (suc n) && all_to p n

all_to-at : (p : ℕ → Bool) (n k : ℕ) → all_to p n ≡ true → 1 ≤ k → k ≤ n → p k ≡ true
unfolding all_to
all_to-at p zero k h a b = absurd (omega arith)
all_to-at p (suc n) k h a b = grind (arith, all_to-at p n k)

reads_to_99 : all_to reads_back 99 ≡ true
unfolding all_to int_to_kanji_ordinal kanji_ordinal_to_int
reads_to_99 = refl

read_as : (n : ℕ) (o : Option ℕ) → agrees n o ≡ true → o ≡ some n
read_as n none h = absurd (ground arith)
read_as n (some v) h = ap some (ground arith)

printed :
    (n : ℕ) (r : OrdinalError ⊎ String)
    → int_to_kanji_ordinal (pos n) ≡ r
    → text_agrees n r ≡ true
    → (s : String) × (int_to_kanji_ordinal (pos n) ≡ inr s) × (kanji_ordinal_to_int s ≡ some n)
printed n (inl e) p h = absurd (ground arith)
printed n (inr s) p h = (s, p, read_as n (kanji_ordinal_to_int s) h)

reads_back→text :
    (n : ℕ)
    → reads_back n ≡ true
    → (s : String) × (int_to_kanji_ordinal (pos n) ≡ inr s) × (kanji_ordinal_to_int s ≡ some n)
reads_back→text n h = printed n (int_to_kanji_ordinal (pos n)) refl h

abbrev size : String → ℕ
size String.[] = 0
size (String.◌∷◌ c s) = suc (size s)

char_at_past_end : (s : String) (n : ℕ) → size s ≤ n → char_at s n ≡ inl index_error
char_at_past_end String.[] n h = refl
char_at_past_end (String.◌∷◌ c s) n h = ground (arith, char_at_past_end s (n - 1))

int_to_kanji_past_end : (n : ℕ) → 10 ≤ n → int_to_kanji n ≡ inl index_error
unfolding int_to_kanji
int_to_kanji_past_end n h = char_at_past_end "〇一二三四五六七八九" n h

too_large : (n : ℕ) → 100 ≤ n → int_to_kanji_ordinal (pos n) ≡ inl index_error
unfolding int_to_kanji_ordinal
too_large n h = ground (arith, int_to_kanji_past_end (n / 10))

compare_to : (n : ℕ) → (n < 100) ⊎ (100 ≤ n)
compare_to n = omega arith

-- The ordinals from 1 to 99 are printed, and their numerals are read back as the same number.
pub int_to_kanji_ordinal-reads :
    (n : ℕ)
    → 1 ≤ n
    → n < 100
    → (s : String) × (int_to_kanji_ordinal (pos n) ≡ inr s) × (kanji_ordinal_to_int s ≡ some n)
int_to_kanji_ordinal-reads n a b =
    reads_back→text n (all_to-at reads_back 99 n reads_to_99 a (omega arith))

zero_printed : int_to_kanji_ordinal (pos 0) ≡ inr "〇"
unfolding int_to_kanji_ordinal int_to_kanji
zero_printed = refl

fails_late : (n : ℕ) → int_to_kanji_ordinal (pos n) ≡ inl index_error → 100 ≤ n
fails_late zero h = absurd (ground (arith, zero_printed))
fails_late (suc n) h = elim (compare_to (suc n)) [
  | inl a ↦
      let r = int_to_kanji_ordinal-reads (suc n) (omega arith) a in absurd (ground (arith, r.1))
  | inr b ↦ b
]

-- Printing an ordinal raises an `IndexError` exactly from 100 on.
pub int_to_kanji_ordinal-index_error_iff :
    (n : ℕ) → (int_to_kanji_ordinal (pos n) ≡ inl index_error) ↔ (100 ≤ n)
int_to_kanji_ordinal-index_error_iff n = (fails_late n, too_large n)
