-- ===== src/Depreciation/Schedule.antt =====
-- The residual lives and the rows of a depreciation schedule.
use mathlib.Core.Path.{subst}
use mathlib.Core.Option.{some-injective, none-ne-some}
use real_estate_agent.Float.{one_f, zero_f, Float}
use real_estate_agent.Depreciation.{
  one_f, DepreciationSchedule, project_depreciation, zero_f, residual_of, depreciation_at,
  statutory_life, or_residual, ConstructionType, rows_from, schedule_for, shield_at,
  DepreciationYear, residual_life_used,
}
use real_estate_agent.Common.{
  replicate, leb→le, if◌then◌else◌, ◌++◌, ◌⊎◌, min, ◌-◌, leb, true, false, ℕ, zero, suc, ◌+◌, ◌≤◌,
  ◌<◌, ◌≡◌, refl, ap, ◌∙◌, inl, inr, ◌&&◌, Option, some, List, [], ◌∷◌, foldl, arith, Bool-cases,
  Option-cases, length, get_elem?,
}
use real_estate_agent.Common.Int.{ℤ, pos}

-- A used building has a residual life of at least two years and at most its statutory life, and the
-- older of two buildings of one construction never has the longer one.
pub residual_life_used-antitone :
    (c : ConstructionType) (age older : ℕ)
    → age ≤ older
    → (r : ℕ) × (s : ℕ) × (residual_life_used c (pos age) ≡ some r)
      × (residual_life_used c (pos older) ≡ some s)
      × (2 ≤ s)
      × (s ≤ r)
      × (r ≤ statutory_life c)
unfolding residual_life_used
residual_life_used-antitone c age older h =
    let (low, order, high) = bounds (statutory_life c) (long c) in
    (
      residual_of (statutory_life c) age,
      residual_of (statutory_life c) older,
      refl,
      refl,
      low,
      order,
      high,
    )
  where
    long : (k : ConstructionType) → 22 ≤ statutory_life k
    long ConstructionType.wood = unfold statutory_life in omega arith
    long _ = unfold statutory_life in omega arith

    bounds :
        (life : ℕ)
        → 22 ≤ life
        → (2 ≤ residual_of life older)
          × (residual_of life older ≤ residual_of life age)
          × (residual_of life age ≤ life)
    bounds life l = unfold residual_of in ground (arith, l)

one_left : (k : ℕ) → suc k - 1 ≡ k
one_left k = omega arith

year_after : (i : ℕ) → 1 + i ≡ suc i
year_after i = omega arith

min_zero : (k : ℕ) → min 0 k ≡ 0
min_zero k = omega arith

zero_sub : (k : ℕ) → 0 - k ≡ 0
zero_sub k = omega arith

lt_of_leb : (a b : ℕ) → leb a b ≡ false → b < a
lt_of_leb a b h = ground arith

-- The years left of the residual life, counted from year `y` on and from the year after it.
min_within :
    (n y residual : ℕ)
    → y ≤ residual
    → min (suc n) (suc residual - y) ≡ suc (min n (suc residual - suc y))
min_within n y residual h = omega arith

sub_within :
    (n y residual : ℕ) → y ≤ residual → suc n - (suc residual - y) ≡ n - (suc residual - suc y)
sub_within n y residual h = omega arith

min_past : (n y residual : ℕ) → residual < y → min n (suc residual - y) ≡ 0
min_past n y residual h = omega arith

sub_past : (n y residual : ℕ) → residual < y → n - (suc residual - y) ≡ n
sub_past n y residual h = omega arith

module _ {ℓ} {F : Type ℓ} ⦃d : Float F⦄ where
  open d use {add, mul}

  -- The shields of `n` years from year `y` on.
  abbrev pub shields : ℕ → F → F → ℕ → ℕ → List F
  shields residual annual rate y zero = []
  shields residual annual rate y (suc n) =
      shield_at residual annual rate y ∷ shields residual annual rate (suc y) n

  -- The first `n` years from year `y` on: the shield of the years up to the residual life, and then
  -- nothing.
  shields-replicate :
      (residual : ℕ) (annual rate : F) (y n : ℕ)
      → shields residual annual rate y n
        ≡ replicate (min n (suc residual - y)) (mul annual rate)
          ++ replicate (n - (suc residual - y)) zero_f
  unfolding shield_at
  shields-replicate residual annual rate y zero =
      rw (min_zero (suc residual - y), zero_sub (suc residual - y)) refl
  shields-replicate residual annual rate y (suc n) = elim (Bool-cases (leb y residual)) [
    | inl e ↦
        let h = leb→le y residual e in
        rw (e, min_within n y residual h, sub_within n y residual h)
          (ap (λ rest. mul annual rate ∷ rest) (shields-replicate residual annual rate (suc y) n))
    | inr e ↦
        let h = lt_of_leb y residual e in
        rw (e, min_past (suc n) y residual h, sub_past (suc n) y residual h)
          (ap (λ rest. zero_f ∷ rest)
            (shields-replicate residual annual rate (suc y) n
              ∙ rw
                  (
                    min_past n (suc y) residual (omega arith),
                    sub_past n (suc y) residual (omega arith),
                  )
                  refl))
  ]

  -- What the row of the year `i + 1` holds: the depreciation and its shield up to the residual life
  -- and 0 past it, and the sum of the shields of the years so far.
  abbrev pub IsRow : ℕ → F → F → ℕ → DepreciationYear F → Type ℓ
  IsRow residual annual rate i row =
      (row.year_index ≡ suc i)
      × (((suc i ≤ residual)
            × (row.depreciation_yen ≡ annual)
            × (row.tax_shield_yen ≡ mul annual rate))
          ⊎ ((residual < suc i) × (row.depreciation_yen ≡ zero_f) × (row.tax_shield_yen ≡ zero_f)))
      × (row.cumulative_shield_yen
          ≡ foldl add zero_f (
              replicate (min (suc i) residual) (mul annual rate)
              ++ replicate (suc i - residual) zero_f))

  row_at : ℕ → F → F → F → ℕ → ℕ → ℕ → DepreciationYear F
  row_at residual annual rate start y i year = record {
    year_index = year;
    depreciation_yen = depreciation_at residual annual year;
    tax_shield_yen = shield_at residual annual rate year;
    cumulative_shield_yen = foldl add start (shields residual annual rate y (suc i));
  }

  row_at-IsRow :
      (residual : ℕ) (annual rate : F) (i : ℕ)
      → IsRow residual annual rate i (row_at residual annual rate zero_f 1 i (suc i))
  unfolding row_at depreciation_at shield_at
  row_at-IsRow residual annual rate i = (
    refl,
    cases (Bool-cases (leb (suc i) residual)),
    ap (foldl add zero_f) (
        shields-replicate residual annual rate 1 (suc i)
        ∙ ap (λ k. replicate (min (suc i) k) (mul annual rate) ++ replicate (suc i - k) zero_f)
            (one_left residual)),
  )
    where
      cases :
          (leb (suc i) residual ≡ true) ⊎ (leb (suc i) residual ≡ false)
          → ((suc i ≤ residual)
              × ((if leb (suc i) residual then annual else zero_f) ≡ annual)
              × ((if leb (suc i) residual then mul annual rate else zero_f) ≡ mul annual rate))
            ⊎ ((residual < suc i)
                × ((if leb (suc i) residual then annual else zero_f) ≡ zero_f)
                × ((if leb (suc i) residual then mul annual rate else zero_f) ≡ zero_f))
      cases (inl e) = inl (leb→le (suc i) residual e, rw e refl, rw e refl)
      cases (inr e) = inr (lt_of_leb (suc i) residual e, rw e refl, rw e refl)

  rows_from-row_at :
      (residual : ℕ) (annual rate start : F) (y n i : ℕ)
      → i < n
      → get_elem? (rows_from residual annual rate start y n) i
        ≡ some (row_at residual annual rate start y i (y + i))
  unfolding rows_from row_at
  rows_from-row_at residual annual rate start y zero i h = absurd (omega arith)
  rows_from-row_at residual annual rate start y (suc n) zero h =
      ap (λ k. some (row_at residual annual rate start y zero k)) (omega arith)
  rows_from-row_at residual annual rate start y (suc n) (suc i) h =
      rows_from-row_at residual annual rate (add start (shield_at residual annual rate y)) (suc y) n
        i (omega arith)
      ∙ ap (λ k. some (row_at residual annual rate start y (suc i) k)) (omega arith)

  rows_from-length :
      (residual : ℕ) (annual rate start : F) (y n : ℕ)
      → length (rows_from residual annual rate start y n) ≡ n
  unfolding rows_from
  rows_from-length residual annual rate start y zero = refl
  rows_from-length residual annual rate start y (suc n) = ap suc (
      rows_from-length residual annual rate (add start (shield_at residual annual rate y)) (suc y)
        n)

  -- What the years of a schedule are, at index `i`.
  abbrev pub HasRow : Option ℕ → ℕ → F → DepreciationSchedule F → Type ℓ
  HasRow horizon i rate s =
      (length s.years ≡ or_residual s.residual_life_years horizon)
      × (row : DepreciationYear F) × (get_elem? s.years i ≡ some row)
      × IsRow s.residual_life_years s.annual_depreciation_yen rate i row

  schedule_for-HasRow :
      (c : ConstructionType) (basis rate : F) (horizon : Option ℕ) (residual i : ℕ)
      → i < or_residual residual horizon
      → HasRow horizon i rate (schedule_for c basis rate horizon residual)
  unfolding schedule_for
  schedule_for-HasRow c basis rate horizon residual i h = (
    rows_from-length residual _ rate zero_f 1 (or_residual residual horizon),
    _,
    rows_from-row_at residual _ rate zero_f 1 (or_residual residual horizon) i h
        ∙ ap (λ k. some (row_at residual (d.div basis (d.of_nat residual)) rate zero_f 1 i k))
            (year_after i),
    row_at-IsRow residual _ rate i,
  )

  -- A schedule has one row for each year of its horizon, or of the residual life without one. The row
  -- of year `i + 1` has the depreciation and the shield of that year, which are 0 past the residual
  -- life, and the sum of all the shields of the years up to it.
  pub project_depreciation-HasRow :
      (c : ConstructionType) (basis rate : F) (age : ℤ) (horizon : Option ℕ) (i : ℕ)
      {s : DepreciationSchedule F}
      → project_depreciation c basis age rate horizon ≡ some s
      → i < or_residual s.residual_life_years horizon
      → HasRow horizon i rate s
  unfolding project_depreciation
  project_depreciation-HasRow c basis rate age horizon i {s} e h =
      elim (Bool-cases (d.lt basis zero_f)) [
        | inl a ↦ absurd (none-ne-some s (rw a at e))
        | inr a ↦ elim (Bool-cases (d.le zero_f rate && d.le rate one_f)) [
          | inr b ↦ absurd (none-ne-some s (rw (a, b) at e))
          | inl b ↦ elim (Option-cases (residual_life_used c age)) [
            | inl n ↦ absurd (none-ne-some s (rw (a, b, n) at e))
            | inr (residual, n) ↦
                let same =
                  some-injective (schedule_for c basis rate horizon residual) s
                    (rw (a, b, n) at e) in
                subst (λ x. i < or_residual x.residual_life_years horizon → HasRow horizon i rate x)
                  same
                  (λ k.
                    schedule_for-HasRow c basis rate horizon residual i (unfold schedule_for in k))
                  h
          ]
        ]
      ]
