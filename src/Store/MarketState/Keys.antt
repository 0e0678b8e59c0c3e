-- ===== src/Store/MarketState/Keys.antt =====
-- The names that the queries are asked for, and the keys of a property.
use real_estate_agent.Market.{MarketContextSnapshot}
use real_estate_agent.Store.MarketState.Compose.{Property}
use real_estate_agent.Store.SignalWriter.{MarketSignal}
use real_estate_agent.Store.MarketState.Build.{
  zip_code_of, first_truthy, neighborhood_id_of, fill_one, fill_from, text_if_truthy, truthy_text,
  add_key, neighborhood_keys,
}
use real_estate_agent.Common.Json.{dict_or_empty, is_truthy_json, Json}
use real_estate_agent.Float.{Float}
use real_estate_agent.Common.Dict.{dict_of, assign_all, string_key, get-assign, assign, get, Dict}
use real_estate_agent.Store.MarketState.Latest.{or_no_signals, distinct_ids, unique_from, includes}
use real_estate_agent.Common.{
  String, ◌≡◌, refl, ap, ◌∙◌, inl, inr, true, false, not, ◌||◌, Option, none, some, List, [], ◌∷◌,
  ◌++◌, map, foldl, arith, str_eq, eq_iff, eq_refl, if◌then◌else◌, Bool-cases, All, All-append,
  keep_if, OnSome,
}

pub includes-append :
    (xs ys : List String) (s : String) → includes (xs ++ ys) s ≡ (includes xs s || includes ys s)
includes-append [] ys s = refl
includes-append (x ∷ xs) ys s = ground (arith, includes-append xs ys s)

-- A name in the list is among the first of each name.
pub includes-unique_from :
    (seen names : List String) (s : String)
    → includes seen s ≡ false
    → includes names s ≡ true
    → includes (unique_from seen names) s ≡ true
unfolding unique_from
includes-unique_from seen [] s h k = absurd (ground (arith, k))
includes-unique_from seen (n ∷ names) s h k = elim (Bool-cases (str_eq n s)) [
  | inl e ↦ rw (ap (includes seen) ((eq_iff n s).0 e) ∙ h) (ground (arith, e))
  | inr e ↦ elim (Bool-cases (includes seen n)) [
    | inl old ↦ rw old (includes-unique_from seen names s h (ground (arith, e, k)))
    | inr new ↦ rw new (
        ground (
          arith,
          e,
          includes-unique_from (seen ++ n ∷ []) names s
              (includes-append seen (n ∷ []) s ∙ ground (arith, h, e)) (ground (arith, e, k)),
        ))
  ]
]

includes-keep_if :
    (names : List String) (s : String)
    → str_eq s "" ≡ false
    → includes names s ≡ true
    → includes (keep_if (λ n. not (str_eq n "")) names) s ≡ true
includes-keep_if [] s h k = absurd (ground (arith, k))
includes-keep_if (n ∷ names) s h k = ground (arith, h, k, eq_iff n s, includes-keep_if names s h)

pub includes-distinct_ids :
    (names : List String) (s : String)
    → str_eq s "" ≡ false
    → includes names s ≡ true
    → includes (distinct_ids names) s ≡ true
unfolding distinct_ids
includes-distinct_ids names s h k =
    includes-keep_if (unique_from [] names) s h (includes-unique_from [] names s refl k)

pub All-both {ℓ κ ν} :
    {A : Type ℓ} (P : A → Type κ) (Q : A → Type ν) (xs : List A)
    → All P xs
    → All Q xs
    → All (λ x. P x × Q x) xs
All-both P Q [] h k = tt
All-both P Q (x ∷ xs) (p, h) (q, k) = ((p, q), All-both P Q xs h k)

pub All-imp {ℓ κ ν} :
    {A : Type ℓ} {P : A → Type κ} {Q : A → Type ν} (xs : List A)
    → ((x : A) → P x → Q x)
    → All P xs
    → All Q xs
All-imp [] h a = tt
All-imp (x ∷ xs) h (p, a) = (h x p, All-imp xs h a)

pub map-agree {ℓ κ} :
    {A : Type ℓ} {B : Type κ} (f g : A → B) (xs : List A)
    → All (λ x. f x ≡ g x) xs
    → map f xs ≡ map g xs
map-agree f g [] h = refl
map-agree f g (x ∷ xs) (e, h) = rw (e, map-agree f g xs h) refl

pub All-includes : (keys : List String) → All (λ k. includes keys k ≡ true) keys
All-includes [] = tt
All-includes (k ∷ keys) =
    (ground (arith, eq_refl k), All-imp keys (λ j h. ground (arith, h)) (All-includes keys))

module _ {κ} {V : Type κ} (f : String → V) where
  pub get-comprehension :
      (d : Dict String V) (ks : List String) (k : String)
      → get (assign_all d (map (λ j. (j, f j)) ks)) k
        ≡ (if includes ks k then some (f k) else get d k)
  get-comprehension d [] k = refl
  get-comprehension d (j ∷ ks) k =
      get-comprehension (assign d j (f j)) ks k
      ∙ rw (get-assign d j k (f j)) (elim (Bool-cases (str_eq j k)) [
        | inl e ↦ rw e (rw ((eq_iff j k).0 e) (ground arith))
        | inr e ↦ rw e refl
      ])

  pub get-dict_of :
      (ks : List String) (k : String)
      → includes ks k ≡ true
      → get (dict_of (map (λ j. (j, f j)) ks)) k ≡ some (f k)
  unfolding dict_of
  get-dict_of ks k h = get-comprehension [] ks k ∙ rw h refl

module _ {ℓ} {F : Type ℓ} ⦃d : Float F⦄ (str : Json F → String) where
  abbrev pub NonEmpty : String → Type 0
  NonEmpty s = str_eq s "" ≡ false

  add_key-All :
      (key : Option String) (keys : List String)
      → OnSome NonEmpty key
      → All NonEmpty keys
      → All NonEmpty (add_key key keys)
  add_key-All none keys h a = a
  add_key-All (some k) keys h a = elim (Bool-cases (includes keys k)) [
    | inl e ↦ rw e a
    | inr e ↦ rw e (All-append NonEmpty keys (k ∷ []) a (h, tt))
  ]

  text_if_truthy-NonEmpty :
      ((v : Json F) → is_truthy_json v ≡ true → NonEmpty (str v))
      → (v : Option (Json F)) → OnSome NonEmpty (text_if_truthy str v)
  text_if_truthy-NonEmpty law none = tt
  text_if_truthy-NonEmpty law (some v) = elim (Bool-cases (is_truthy_json v)) [
    | inl e ↦ rw e (law v e)
    | inr e ↦ rw e tt
  ]

  truthy_text-NonEmpty : (s : Option String) → OnSome NonEmpty (truthy_text s)
  truthy_text-NonEmpty none = tt
  truthy_text-NonEmpty (some s) = elim (Bool-cases (str_eq s "")) [
    | inl e ↦ rw e tt
    | inr e ↦ rw e e
  ]

  pub neighborhood_keys-NonEmpty :
      ((v : Json F) → is_truthy_json v ≡ true → NonEmpty (str v))
      → (prop : Property F) → All NonEmpty (neighborhood_keys str prop)
  unfolding neighborhood_keys
  neighborhood_keys-NonEmpty law prop =
      let columns = dict_or_empty prop.neighborhood_data in
      let id =
        add_key-All (neighborhood_id_of str prop) []
          (text_if_truthy-NonEmpty law
            (first_truthy str (get columns "neighborhood_id") (get columns "id")))
          tt in
      let zip =
        add_key-All (zip_code_of str prop) (add_key (neighborhood_id_of str prop) [])
          (text_if_truthy-NonEmpty law
            (first_truthy str (get columns "zip_code") (get columns "zip")))
          id in
      add_key-All (truthy_text prop.ward_code)
        (add_key (zip_code_of str prop) (add_key (neighborhood_id_of str prop) []))
        (truthy_text-NonEmpty prop.ward_code) zip

  pub fill_from-agree :
      (by_key other : Dict String (List (MarketSignal F))) (keys : List String)
      (s : MarketContextSnapshot F)
      → All (λ k. or_no_signals (get by_key k) ≡ or_no_signals (get other k)) keys
      → foldl (fill_from str by_key) s keys ≡ foldl (fill_from str other) s keys
  fill_from-agree by_key other [] s h = refl
  fill_from-agree by_key other (k ∷ keys) s (e, h) =
      ap (λ signals. foldl (fill_from str by_key) (foldl (fill_one str) s signals) keys) e
      ∙ fill_from-agree by_key other keys (foldl (fill_one str) s (or_no_signals (get other k))) h
