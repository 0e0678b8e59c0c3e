-- ===== src/Reactions/Narratives/Keys.antt =====
-- The keys of the buckets, and the names of their variables.
use real_estate_agent.Common.{
  ℕ, ◌+◌, min, max, String, ◌≡◌, refl, sym, ap, ◌∙◌, ◌↔◌, inl, inr, Bool, true, false, not, ◌&&◌,
  Option, none, some, arith, str_eq, eq_iff, if◌then◌else◌, bit, Bool-cases,
}
use mathlib.Core.Bool.{true≢false}
use real_estate_agent.Common.Enum.{member_of-value}
use real_estate_agent.Reactions.{Variable, variable_of, variable_name, reaction_variables}
use real_estate_agent.Reactions.Narratives.{Bucket, same_bucket, same_bucket_iff, bucket_key}

abbrev pub same_option : Option Bucket → Bucket → Bool
same_option none k = false
same_option (some j) k = same_bucket j k

pub add_again : (b : Bool) (n : ℕ) → bit b + n ≡ (if b then max 1 (bit b + n) else bit b + n)
add_again true n = omega arith
add_again false n = refl

pub add_other :
    (a b : Bool) (n : ℕ)
    → not (a && b) ≡ true
    → bit a + (if b then max 1 n else n) ≡ (if b then max 1 (bit a + n) else bit a + n)
add_other true true n h = absurd (ground (arith, h))
add_other true false n h = refl
add_other false true n h = omega arith
add_other false false n h = omega arith

pub zero_plus : (n : ℕ) → 0 + n ≡ n
zero_plus n = omega arith

pub still_shared :
    (b : Bool) (g n : ℕ) → g ≡ min 1 n → (if b then max 1 g else g) ≡ min 1 (n + bit b)
still_shared true g n h = omega arith
still_shared false g n h = omega arith

pub distinct :
    (i j k : Bucket) → same_bucket i j ≡ false → not (same_bucket i k && same_bucket j k) ≡ true
distinct i j k h = elim (Bool-cases (same_bucket i k)) [
  | inl a ↦ elim (Bool-cases (same_bucket j k)) [
    | inl b ↦ absurd (
        true≢false (
          sym
            ((same_bucket_iff i j).1 ((same_bucket_iff i k).0 a ∙ sym ((same_bucket_iff j k).0 b)))
          ∙ h))
    | inr b ↦ rw (a, b) refl
  ]
  | inr a ↦ rw a refl
]

variable_of-name : (v : Variable) → variable_of (variable_name v) ≡ some v
unfolding variable_of variable_name
variable_of-name Variable.trust_in_trajectory = refl
variable_of-name Variable.affordability_pressure = refl
variable_of-name Variable.perceived_safety = refl
variable_of-name Variable.social_proof = refl
variable_of-name Variable.displacement_concern = refl
variable_of-name Variable.investor_optimism = refl
variable_of-name Variable.willingness_to_transact = refl
variable_of-name Variable.resistance_to_development = refl

-- A text names a variable exactly when the registry gives that variable for it.
pub names_iff :
    (s : String) (v : Variable) → (str_eq s (variable_name v) ≡ true) ↔ (variable_of s ≡ some v)
unfolding variable_of
names_iff s v = (
  λ h. ap variable_of ((eq_iff s (variable_name v)).0 h) ∙ variable_of-name v,
  λ h. (eq_iff s (variable_name v)).1 (sym (member_of-value variable_name reaction_variables s h)),
)
