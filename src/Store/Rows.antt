-- ===== src/Store/Rows.antt =====
-- Selected rows of a table after an insertion and after a change of one row.
use real_estate_agent.Common.{
  ◌≡◌, refl, sym, ◌∙◌, inl, inr, Bool, true, false, List, [], ◌∷◌, map, arith, Bool-cases, keep_if,
  keep_if-in, keep_if-out,
}

module _ {ℓ} {A : Type ℓ} (p : A → Bool) where
  -- The rows that satisfy the test, `f` applied to them.
  abbrev pub change_if : (A → A) → List A → List A
  change_if f [] = []
  change_if f (x ∷ xs) =
      let rest = change_if f xs in elim (p x) [ true ↦ f x ∷ rest | false ↦ x ∷ rest ]

module _ {ℓ} {A : Type ℓ} (p : A → Bool) (f : A → A) where
  -- A test that the changed rows fail before and after does not see the change.
  pub change_if-other :
      (q : A → Bool) (xs : List A)
      → ((x : A) → p x ≡ true → (q x ≡ false) × (q (f x) ≡ false))
      → keep_if q (change_if p f xs) ≡ keep_if q xs
  change_if-other q [] h = refl
  change_if-other q (x ∷ xs) h = ground (arith, h x, change_if-other q xs h)

  pub change_if_self :
      (xs : List A)
      → ((x : A) → p x ≡ true → p (f x) ≡ true)
      → keep_if p (change_if p f xs) ≡ map f (keep_if p xs)
  change_if_self [] h = refl
  change_if_self (x ∷ xs) h = ground (arith, h x, change_if_self xs h)

-- What `scalar_one_or_none` gives: `several` is its `MultipleResultsFound`.
pub data Scalar {ℓ} (A : Type ℓ) : Type ℓ where
  absent : Scalar A
  one : A → Scalar A
  several : Scalar A

module _ {ℓ} {A : Type ℓ} where
  unfoldable pub scalar_one_or_none : List A → Scalar A
  scalar_one_or_none [] = absent
  scalar_one_or_none (x ∷ []) = one x
  scalar_one_or_none (x ∷ y ∷ ys) = several

  pub scalar-absent : (xs : List A) → scalar_one_or_none xs ≡ absent → xs ≡ []
  unfolding scalar_one_or_none
  scalar-absent [] h = refl
  scalar-absent (x ∷ []) h = absurd (ground (arith, h))
  scalar-absent (x ∷ y ∷ ys) h = absurd (ground (arith, h))

  pub scalar-one : (xs : List A) {x : A} → scalar_one_or_none xs ≡ one x → xs ≡ x ∷ []
  unfolding scalar_one_or_none
  scalar-one [] h = absurd (ground (arith, h))
  scalar-one (x ∷ []) h = ground (arith, h)
  scalar-one (x ∷ y ∷ ys) h = absurd (ground (arith, h))

module _ {ℓ} {A : Type ℓ} (p q : A → Bool) (f : A → A) where
  -- A test on what the change keeps.
  pub change_if-stable :
      (xs : List A)
      → ((x : A) → q (f x) ≡ q x)
      → keep_if q (change_if p f xs) ≡ change_if p f (keep_if q xs)
  change_if-stable [] h = refl
  change_if-stable (x ∷ xs) h = ground (arith, h x, change_if-stable xs h)

  -- A test that no row passed and that every changed row passes.
  pub change_if-gain :
      (xs : List A)
      → keep_if q xs ≡ []
      → ((x : A) → q (f x) ≡ true)
      → keep_if q (change_if p f xs) ≡ map f (keep_if p xs)
  change_if-gain [] e h = refl
  change_if-gain (x ∷ xs) e h = elim (Bool-cases (q x)) [
    | inl t ↦ absurd (ground (arith, sym (keep_if-in q x xs t) ∙ e))
    | inr t ↦ ground (arith, t, h x, change_if-gain xs (sym (keep_if-out q x xs t) ∙ e) h)
  ]
