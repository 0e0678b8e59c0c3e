-- ===== src/Common/Sort.antt =====
-- Python's stable sort. `after x y` says that the key of `x` puts it behind `y`; elements that neither
-- test separates keep their order.
use mathlib.Core.List.{Perm}
use mathlib.Core.List.Perm
use real_estate_agent.Common.{
  ℕ, ◌+◌, ◌≡◌, refl, sym, ap, ◌∙◌, inl, inr, Bool, true, false, List, [], ◌∷◌, arith, if◌then◌else◌,
  Bool-cases, All, All-every, keep_if, keep_if-in, keep_if-out, keep_if-All,
}

module _ {ℓ} {A : Type ℓ} (after : A → A → Bool) where
  pub insert_stable : A → List A → List A
  insert_stable x [] = x ∷ []
  insert_stable x (y ∷ ys) = if after x y then y ∷ insert_stable x ys else x ∷ y ∷ ys

  unfoldable pub sort_stable : List A → List A
  unfolding insert_stable
  sort_stable [] = []
  sort_stable (x ∷ xs) = insert_stable x (sort_stable xs)

  -- No element stands behind one that it should precede.
  abbrev pub IsSorted : List A → Type 0
  IsSorted [] = Unit
  IsSorted (x ∷ xs) = All (λ y. after x y ≡ false) xs × IsSorted xs

  insert_stable-perm : (x : A) (xs : List A) → Perm (insert_stable x xs) (x ∷ xs)
  unfolding insert_stable
  insert_stable-perm x [] = Perm.refl (x ∷ [])
  insert_stable-perm x (y ∷ ys) = elim (Bool-cases (after x y)) [
    | inl a ↦ rw a (Perm.trans (Perm.cons y (insert_stable-perm x ys)) (Perm.swap x y ys))
    | inr b ↦ rw b (Perm.refl (x ∷ y ∷ ys))
  ]

  pub sort_stable-perm : (xs : List A) → Perm (sort_stable xs) xs
  unfolding sort_stable
  sort_stable-perm [] = Perm.refl []
  sort_stable-perm (x ∷ xs) =
      Perm.trans (insert_stable-perm x (sort_stable xs)) (Perm.cons x (sort_stable-perm xs))

  insert_stable-All {κ} :
      (P : A → Type κ) (x : A) (xs : List A) → P x → All P xs → All P (insert_stable x xs)
  unfolding insert_stable
  insert_stable-All P x [] p h = (p, tt)
  insert_stable-All P x (y ∷ ys) p (q, h) = elim (Bool-cases (after x y)) [
    | inl a ↦ rw a (q, insert_stable-All P x ys p h)
    | inr b ↦ rw b (p, (q, h))
  ]

  pub sort_stable-All {κ} : (P : A → Type κ) (xs : List A) → All P xs → All P (sort_stable xs)
  unfolding sort_stable
  sort_stable-All P [] h = tt
  sort_stable-All P (x ∷ xs) (p, h) =
      insert_stable-All P x (sort_stable xs) p (sort_stable-All P xs h)

  insert_stable-All_iff {κ} :
      (P : A → Type κ) (x : A) (xs : List A) → All P (insert_stable x xs) → P x × All P xs
  unfolding insert_stable
  insert_stable-All_iff P x [] h = h
  insert_stable-All_iff P x (y ∷ ys) h = elim (Bool-cases (after x y)) [
    | inl a ↦
        let (q, hs) = rw a at h in let (p, ps) = insert_stable-All_iff P x ys hs in (p, (q, ps))
    | inr b ↦ rw b at h
  ]

  -- What holds of the sorted elements holds of the elements.
  pub All-sort_stable {κ} : (P : A → Type κ) (xs : List A) → All P (sort_stable xs) → All P xs
  unfolding sort_stable
  All-sort_stable P [] h = tt
  All-sort_stable P (x ∷ xs) h =
      let (p, ps) = insert_stable-All_iff P x (sort_stable xs) h in (p, All-sort_stable P xs ps)

  -- The test is a strict order on the elements that satisfy `P`.
  pub record IsStrict {κ} (P : A → Type κ) : Type (ℓ ⊔ κ) where
    pub after_asym : (x y : A) → P x → P y → after x y ≡ true → after y x ≡ false
    pub after_cotrans :
        (x y z : A) → P x → P y → P z → after x y ≡ false → after y z ≡ false → after x z ≡ false

  module _ {κ} (P : A → Type κ) (laws : IsStrict P) where
    open laws use {after_asym, after_cotrans}

    All-after :
        (x y : A) (ys : List A)
        → P x
        → P y
        → All P ys
        → after x y ≡ false
        → All (λ z. after y z ≡ false) ys
        → All (λ z. after x z ≡ false) ys
    All-after x y [] p q h e a = tt
    All-after x y (z ∷ zs) p q (r, h) e (b, a) =
        (after_cotrans x y z p q r e b, All-after x y zs p q h e a)

    insert_stable-IsSorted :
        (x : A) (xs : List A) → P x → All P xs → IsSorted xs → IsSorted (insert_stable x xs)
    unfolding insert_stable
    insert_stable-IsSorted x [] p h s = (tt, tt)
    insert_stable-IsSorted x (y ∷ ys) p (q, h) (a, s) = elim (Bool-cases (after x y)) [
      | inl t ↦ rw t (
        insert_stable-All (λ z. after y z ≡ false) x ys (after_asym x y p q t) a,
        insert_stable-IsSorted x ys p h s,
      )
      | inr f ↦ rw f ((f, All-after x y ys p q h f a), (a, s))
    ]

    pub sort_stable-IsSorted : (xs : List A) → All P xs → IsSorted (sort_stable xs)
    unfolding sort_stable
    sort_stable-IsSorted [] h = tt
    sort_stable-IsSorted (x ∷ xs) (p, h) =
        insert_stable-IsSorted x (sort_stable xs) p (sort_stable-All P xs h)
          (sort_stable-IsSorted xs h)

-- The sum of a measure over a list.
abbrev pub sum_by {ℓ} : {A : Type ℓ} → (A → ℕ) → List A → ℕ
sum_by f [] = 0
sum_by f (x ∷ xs) = f x + sum_by f xs

module _ {ℓ} {A : Type ℓ} (after : A → A → Bool) (f : A → ℕ) where
  sum_by-insert_stable :
      (x : A) (xs : List A) → sum_by f (insert_stable after x xs) ≡ f x + sum_by f xs
  unfolding insert_stable
  sum_by-insert_stable x [] = refl
  sum_by-insert_stable x (y ∷ ys) = ground (arith, sum_by-insert_stable x ys)

  pub sum_by-sort_stable : (xs : List A) → sum_by f (sort_stable after xs) ≡ sum_by f xs
  unfolding sort_stable
  sum_by-sort_stable [] = refl
  sum_by-sort_stable (x ∷ xs) =
      omega (arith, sum_by-insert_stable x (sort_stable after xs), sum_by-sort_stable xs)

module _ {ℓ} {A : Type ℓ} (after : A → A → Bool) where
  -- A list that is sorted is not changed.
  pub sort_stable-id : (xs : List A) → IsSorted after xs → sort_stable after xs ≡ xs
  unfolding sort_stable insert_stable
  sort_stable-id [] h = refl
  sort_stable-id (x ∷ []) h = refl
  sort_stable-id (x ∷ y ∷ ys) ((a, _), s) = rw (sort_stable-id (y ∷ ys) s, a) refl

  module _ (laws : IsStrict after (λ _. Unit {0})) (p : A → Bool) where
    insert_front :
        (x : A) (xs : List A) → All (λ y. after x y ≡ false) xs → insert_stable after x xs ≡ x ∷ xs
    unfolding insert_stable
    insert_front x [] h = refl
    insert_front x (y ∷ ys) (e, _) = rw e refl

    insert_behind :
        (x y : A) (ys : List A)
        → after x y ≡ true
        → insert_stable after x (y ∷ ys) ≡ y ∷ insert_stable after x ys
    unfolding insert_stable
    insert_behind x y ys e = rw e refl

    keep_if-insert_out :
        (x : A) (xs : List A) → p x ≡ false → keep_if p (insert_stable after x xs) ≡ keep_if p xs
    unfolding insert_stable
    keep_if-insert_out x [] e = rw e refl
    keep_if-insert_out x (y ∷ ys) e = ground (arith, keep_if-insert_out x ys e)

    keep_if-insert_in :
        (x : A) (xs : List A)
        → p x ≡ true
        → IsSorted after xs
        → keep_if p (insert_stable after x xs) ≡ insert_stable after x (keep_if p xs)
    unfolding insert_stable
    keep_if-insert_in x [] e s = rw e refl
    keep_if-insert_in x (y ∷ ys) e (a, s) = elim (Bool-cases (after x y)) [
      | inl t ↦ elim (Bool-cases (p y)) [
        | inl q ↦ rw t (
            keep_if-in p y (insert_stable after x ys) q
            ∙ ap (λ zs. y ∷ zs) (keep_if-insert_in x ys e s)
            ∙ sym (
                ap (insert_stable after x) (keep_if-in p y ys q)
                ∙ insert_behind x y (keep_if p ys) t))
        | inr q ↦ rw t (
            keep_if-out p y (insert_stable after x ys) q
            ∙ keep_if-insert_in x ys e s
            ∙ sym (ap (insert_stable after x) (keep_if-out p y ys q)))
      ]
      | inr f ↦ rw f (
          keep_if-in p x (y ∷ ys) e
          ∙ sym (
              insert_front x (keep_if p (y ∷ ys)) (
                keep_if-All p (λ z. after x z ≡ false) (y ∷ ys)
                  (
                    f,
                    All-after after (λ _. Unit {0}) laws x y ys tt tt
                        (All-every (λ _. Unit {0}) (λ _. tt) ys) f a,
                  ))))
    ]

    -- Selecting rows and sorting them commute.
    pub keep_if-sort_stable :
        (xs : List A) → keep_if p (sort_stable after xs) ≡ sort_stable after (keep_if p xs)
    unfolding sort_stable
    keep_if-sort_stable [] = refl
    keep_if-sort_stable (x ∷ xs) = elim (Bool-cases (p x)) [
      | inl e ↦
          keep_if-insert_in x (sort_stable after xs) e (sorted xs)
          ∙ ap (insert_stable after x) (keep_if-sort_stable xs)
          ∙ ap (sort_stable after) (sym (keep_if-in p x xs e))
      | inr e ↦
          keep_if-insert_out x (sort_stable after xs) e
          ∙ keep_if-sort_stable xs
          ∙ ap (sort_stable after) (sym (keep_if-out p x xs e))
    ]
      where
        sorted : (ys : List A) → IsSorted after (sort_stable after ys)
        sorted ys =
            sort_stable-IsSorted after (λ _. Unit {0}) laws ys
              (All-every (λ _. Unit {0}) (λ _. tt) ys)
