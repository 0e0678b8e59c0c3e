-- ===== src/Reactions/Social/Stances/Breakdown.antt =====
-- The counts of a stance under a value of a breakdown.
use real_estate_agent.Common.Dict.{get, get-assign, Dict, assign, string_key}
use real_estate_agent.Common.{
  ℕ, ◌+◌, String, ◌≡◌, refl, sym, ap, ◌∙◌, inl, inr, Bool, true, false, ◌&&◌, Option, some, List,
  [], ◌∷◌, map, arith, str_eq, eq_iff, if◌then◌else◌, bit, Bool-cases, Option-cases, length,
  keep_if,
}
use mathlib.Core.Option.{some-injective, none-ne-some}
use real_estate_agent.Reactions.Social.Stances.{
  same_stance, Entry, Stance, count_one, count_group, StanceCounts, all_some, or_no_counts,
  supportive, opposed, neutral,
}

abbrev pub count_of : Stance → StanceCounts → ℕ
count_of supportive c = c.supportive
count_of opposed c = c.opposed
count_of neutral c = c.neutral

-- The count of a stance under a value of a breakdown.
abbrev pub count_in : Stance → Dict String StanceCounts → String → ℕ
count_in s breakdown value = count_of s (or_no_counts (get breakdown value))

count_of-count_one :
    (s label : Stance) (c : StanceCounts)
    → count_of s (count_one label c) ≡ count_of s c + bit (same_stance label s)
unfolding count_one same_stance
count_of-count_one s label c = ground arith

pub and_true : (b : Bool) → (b && true) ≡ b
and_true true = refl
and_true false = refl

no_more : (b : Bool) (n : ℕ) → n ≡ n + bit (b && false)
no_more true n = omega arith
no_more false n = omega arith

count_in-assign :
    (s label : Stance) (breakdown : Dict String StanceCounts) (key value : String)
    → count_in s (assign breakdown key (count_one label (or_no_counts (get breakdown key)))) value
      ≡ count_in s breakdown value + bit (same_stance label s && str_eq key value)
count_in-assign s label breakdown key value = elim (Bool-cases (str_eq key value)) [
  | inl e ↦
      rw (get-assign breakdown key value (count_one label (or_no_counts (get breakdown key))), e)
        (count_of-count_one s label (or_no_counts (get breakdown key))
          ∙ ap (λ k. count_in s breakdown k + bit (same_stance label s)) ((eq_iff key value).0 e)
          ∙ ap (λ n. count_in s breakdown value + bit n) (sym (and_true (same_stance label s))))
  | inr e ↦
      rw (get-assign breakdown key value (count_one label (or_no_counts (get breakdown key))), e)
        (no_more (same_stance label s) (count_in s breakdown value))
]

module _ {ℓ} {F : Type ℓ} where
  abbrev pub under : (Entry F → String) → String → Entry F → Bool
  under field value e = str_eq (field e) value

  pub count_in-count_group :
      (field : Entry F → String) (s label : Stance) (value : String) (group : List (Entry F))
      (breakdown : Dict String StanceCounts)
      → count_in s (count_group field label breakdown group) value
        ≡ count_in s breakdown value
          + (if same_stance label s then length (keep_if (under field value) group) else 0)
  unfolding count_group
  count_in-count_group field s label value [] breakdown = ground arith
  count_in-count_group field s label value (e ∷ group) breakdown = ground (
    arith,
    count_in-count_group field s label value group
        (assign breakdown (field e) (count_one label (or_no_counts (get breakdown (field e))))),
    count_in-assign s label breakdown (field e) value,
  )

cons_counts {ℓ κ} :
    {A : Type ℓ} {B : Type κ} (p : B → Bool) (q : A → Bool) (y : B) (x : A) (ys : List B)
    (xs : List A)
    → p y ≡ q x
    → length (keep_if p ys) ≡ length (keep_if q xs)
    → length (keep_if p (y ∷ ys)) ≡ length (keep_if q (x ∷ xs))
cons_counts p q y x ys xs h k = ground arith

-- A list of lookups that all succeed, counted by what was looked up.
pub length-all_some {ℓ κ} :
    {A : Type ℓ} {B : Type κ} (f : A → Option B) (p : B → Bool) (q : A → Bool)
    → ((a : A) (b : B) → f a ≡ some b → p b ≡ q a)
    → (xs : List A) (ys : List B) → all_some (map f xs) ≡ some ys
    → length (keep_if p ys) ≡ length (keep_if q xs)
length-all_some f p q h [] ys e = ap (λ zs. length (keep_if p zs)) (sym (some-injective [] ys e))
length-all_some f p q h (x ∷ xs) ys e = elim (Option-cases (f x)) [
  | inl a ↦ absurd (none-ne-some ys (rw a at e))
  | inr (y, a) ↦ elim (Option-cases (all_some (map f xs))) [
    | inl b ↦ absurd (none-ne-some ys (rw (a, b) at e))
    | inr (zs, b) ↦
        ap (λ l. length (keep_if p l)) (sym (some-injective (y ∷ zs) ys (rw (a, b) at e)))
        ∙ cons_counts p q y x zs xs (h x y a) (length-all_some f p q h xs zs b)
  ]
]
