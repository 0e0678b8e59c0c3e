-- ===== src/Float/Ranking.antt =====
-- Sorting by descending score, `sort(key=..., reverse=True)`.
use real_estate_agent.Common.{◌≡◌, Bool, false, List, [], ◌∷◌, All}
use real_estate_agent.Common.Sort.{
  sort_stable, IsSorted, IsStrict, sort_stable-IsSorted, sort_stable-All,
}
use real_estate_agent.Float.{Float}
use real_estate_agent.Float.Order.{◌≼◌, IsNum, IsOrdered, lt_asym, lt_cotrans, le_of_not_lt}

module _ {ℓ κ} {F : Type ℓ} ⦃d : Float F⦄ {A : Type κ} (score : A → F) where
  abbrev pub behind : A → A → Bool
  behind x y = d.lt (score x) (score y)

  unfoldable pub sort_descending : List A → List A
  unfolding sort_stable
  sort_descending = sort_stable behind

  -- From the front to the back no score grows.
  abbrev pub Descends : List A → Type 0
  Descends [] = Unit
  Descends (x ∷ xs) = All (λ y. score y ≼ score x) xs × Descends xs

  module _ (laws : IsOrdered F) where
    behind-IsStrict : IsStrict behind (λ x. IsNum (score x))
    behind-IsStrict = record {
      after_asym = λ x y p q. lt_asym laws (score x) (score y) p q;
      after_cotrans = λ x y z p q r. lt_cotrans laws (score x) (score y) (score z) p q r;
    }

    All-behind :
        (x : A) (ys : List A)
        → IsNum (score x)
        → All (λ y. IsNum (score y)) ys
        → All (λ y. behind x y ≡ false) ys
        → All (λ y. score y ≼ score x) ys
    All-behind x [] p h b = tt
    All-behind x (y ∷ ys) p (q, h) (e, b) =
        (le_of_not_lt laws (score x) (score y) p q e, All-behind x ys p h b)

    IsSorted-Descends :
        (xs : List A) → All (λ x. IsNum (score x)) xs → IsSorted behind xs → Descends xs
    IsSorted-Descends [] h s = tt
    IsSorted-Descends (x ∷ xs) (p, h) (a, s) = (All-behind x xs p h a, IsSorted-Descends xs h s)

    pub sort_descending-Descends :
        (xs : List A) → All (λ x. IsNum (score x)) xs → Descends (sort_descending xs)
    unfolding sort_descending
    sort_descending-Descends xs h =
        IsSorted-Descends (sort_stable behind xs)
          (sort_stable-All behind (λ x. IsNum (score x)) xs h)
          (sort_stable-IsSorted behind (λ x. IsNum (score x)) behind-IsStrict xs h)
