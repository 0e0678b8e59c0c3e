-- ===== src/Common/Dict.antt =====
-- Python's `dict`: an association list in insertion order. Assigning to a key that is there keeps
-- its place, and a new key goes to the end.
use real_estate_agent.Common.{
  String, ◌≡◌, refl, ◌↔◌, inl, inr, Bool, true, Option, none, some, List, [], ◌∷◌, map, arith,
  str_eq, eq_iff, if◌then◌else◌, Bool-cases, All,
}

-- The comparison of keys.
pub record Key {ℓ} (K : Type ℓ) : Type ℓ where
  pub same : K → K → Bool
  pub same_iff : (a b : K) → (same a b ≡ true) ↔ (a ≡ b)

instance abbrev pub string_key : Key String
string_key = record { same = str_eq; same_iff = eq_iff }

abbrev pub Dict {ℓ κ} : Type ℓ → Type κ → Type (ℓ ⊔ κ)
Dict K V = List (K × V)

module _ {ℓ κ} {K : Type ℓ} {V : Type κ} where
  abbrev pub keys : Dict K V → List K
  keys = map (λ e. e.0)

  abbrev pub values : Dict K V → List V
  values [] = []
  values ((k, v) ∷ d) = v ∷ values d

module _ {ℓ κ} {K : Type ℓ} {V : Type κ} ⦃e : Key K⦄ where
  -- `d.get(k)`
  unfoldable pub get : Dict K V → K → Option V
  get [] k = none
  get ((j, v) ∷ d) k = if e.same j k then some v else get d k

  -- `d[k] = v`
  unfoldable pub assign : Dict K V → K → V → Dict K V
  assign [] k v = (k, v) ∷ []
  assign ((j, w) ∷ d) k v = if e.same j k then (j, v) ∷ d else (j, w) ∷ assign d k v

  -- A read after a write.
  pub get-assign :
      (d : Dict K V) (k j : K) (v : V)
      → get (assign d k v) j ≡ (if e.same k j then some v else get d j)
  unfolding get assign
  get-assign [] k j v = refl
  get-assign ((i, w) ∷ d) k j v =
      ground (arith, e.same_iff k j, e.same_iff i k, e.same_iff i j, get-assign d k j v)

  pub values-assign-All {μ} :
      (P : V → Type μ) (d : Dict K V) (k : K) (v : V)
      → All P (values d)
      → P v
      → All P (values (assign d k v))
  unfolding assign
  values-assign-All P [] k v h p = (p, tt)
  values-assign-All P ((j, w) ∷ d) k v (q, h) p = elim (Bool-cases (e.same j k)) [
    | inl a ↦ rw a (p, h)
    | inr b ↦ rw b (q, values-assign-All P d k v h p)
  ]

  pub get-All {μ} :
      (P : V → Type μ) (d : Dict K V) (k : K) {v : V} → All P (values d) → get d k ≡ some v → P v
  unfolding get
  get-All P [] k h s = absurd (ground arith)
  get-All P ((j, w) ∷ d) k {v} (q, h) s = elim (Bool-cases (e.same j k)) [
    | inl a ↦ ground arith
    | inr b ↦ get-All P d k h (rw b at s)
  ]

  abbrev pub assign_all : Dict K V → List (K × V) → Dict K V
  assign_all d [] = d
  assign_all d ((k, v) ∷ es) = assign_all (assign d k v) es

  -- `{k: v for ...}`
  unfoldable pub dict_of : List (K × V) → Dict K V
  dict_of = assign_all []
