-- ===== src/Store/MarketState/Batch.antt =====
-- The snapshots of many properties against the snapshot of each.
use real_estate_agent.Market.{MarketContextSnapshot}
use real_estate_agent.Store.MarketState.Grouping.{bulk-latest}
use real_estate_agent.Store.MarketState.Latest.{
  latest_signals_for, unique_from, latest_signals_bulk, or_no_signals, includes,
}
use real_estate_agent.Common.Dict.{get-assign, assign, assign_all, Dict, string_key, get, dict_of}
use real_estate_agent.Store.MarketState.Build.{
  base_snapshot, aggregate, fill_from, build_snapshots, build_snapshot, all_keys, neighborhood_keys,
  compose_snapshot, snapshot_of,
}
use real_estate_agent.Store.MarketState.Keys.{
  get-dict_of, neighborhood_keys-NonEmpty, All-includes, fill_from-agree, All-both, map-agree,
  includes-unique_from, includes-distinct_ids, All-imp, includes-append,
}
use real_estate_agent.Store.MarketState.Compose.{Property}
use real_estate_agent.Common.Json.{is_truthy_json, Json}
use real_estate_agent.Float.{Float}
use real_estate_agent.Common.{
  String, ◌≡◌, refl, sym, ap, ◌∙◌, inl, inr, true, false, Option, none, some, List, [], ◌∷◌, map,
  foldl, arith, str_eq, eq_iff, eq_refl, Bool-cases, All,
}
use real_estate_agent.Store.SignalWriter.{MarketSignal}

module _ {ℓ} {F : Type ℓ} ⦃d : Float F⦄ (str : Json F → String) where
  abbrev pub ids_of : List (Property F) → List String
  ids_of = map (λ (p : Property F). p.id)

  -- No id stands twice: it is the primary key.
  abbrev pub IsDistinct : List (Property F) → Type 0
  IsDistinct [] = Unit
  IsDistinct (p ∷ props) = (includes (ids_of props) p.id ≡ false) × IsDistinct props

  -- A property of the list with its keys among those that are asked for.
  abbrev IsAsked : List (Property F) → Property F → Type 0
  IsAsked props p =
      (includes (ids_of props) p.id ≡ true)
      × ((k : String)
          → includes (neighborhood_keys str p) k ≡ true
          → includes (all_keys str props) k ≡ true)

  IsAsked-cons :
      (q : Property F) (props : List (Property F)) (p : Property F)
      → IsAsked props p
      → IsAsked (q ∷ props) p
  IsAsked-cons q props p (h, k) = (
    ground (arith, h),
    λ j e. includes-append (neighborhood_keys str q) (all_keys str props) j ∙ ground (arith, k j e),
  )

  All-IsAsked : (props : List (Property F)) → All (IsAsked props) props
  All-IsAsked [] = tt
  All-IsAsked (p ∷ props) = (
    (
      ground (arith, eq_refl p.id),
      λ j e. includes-append (neighborhood_keys str p) (all_keys str props) j ∙ ground (arith, e),
    ),
    All-imp props (λ q h. IsAsked-cons p props q h) (All-IsAsked props),
  )

  module _ (law : (v : Json F) → is_truthy_json v ≡ true → str_eq (str v) "" ≡ false) where
    -- The lookups of both versions for one key.
    key_signals :
        (table : List (MarketSignal F)) (props : List (Property F)) (p : Property F) (k : String)
        → IsAsked props p
        → includes (neighborhood_keys str p) k ≡ true
        → str_eq k "" ≡ false
        → or_no_signals
            (get (latest_signals_bulk table "neighborhood" (unique_from [] (all_keys str props))) k)
          ≡ or_no_signals (
              get
                (dict_of (
                  map
                    (λ key. (key, latest_signals_for table "neighborhood" key))
                    (neighborhood_keys str p)))
                k)
    key_signals table props p k (_, asked) h e =
        bulk-latest table "neighborhood" k (unique_from [] (all_keys str props)) (
          includes-distinct_ids (unique_from [] (all_keys str props)) k e
            (includes-unique_from [] (all_keys str props) k refl (asked k h)))
        ∙ ap or_no_signals (
            sym
              (get-dict_of (latest_signals_for table "neighborhood") (neighborhood_keys str p) k h))

    compose-snapshot_of :
        (table : List (MarketSignal F)) (props : List (Property F)) (p : Property F)
        → IsAsked props p
        → str_eq p.id "" ≡ false
        → compose_snapshot str p
            (or_no_signals (get (latest_signals_bulk table "property" (ids_of props)) p.id))
            (latest_signals_bulk table "neighborhood" (unique_from [] (all_keys str props)))
          ≡ snapshot_of str table p
    unfolding snapshot_of compose_snapshot
    compose-snapshot_of table props p (mem, asked) h =
        ap
          (λ signals.
            foldl (fill_from str by_key) (aggregate str (base_snapshot str p) signals)
              (neighborhood_keys str p))
          (bulk-latest table "property" p.id (ids_of props)
            (includes-distinct_ids (ids_of props) p.id h mem))
        ∙ fill_from-agree str by_key _ (neighborhood_keys str p) _ (
            All-imp (neighborhood_keys str p)
              (λ k e. key_signals table props p k (mem, asked) e.0 e.1)
              (All-both (λ k. includes (neighborhood_keys str p) k ≡ true)
                (λ k. str_eq k "" ≡ false) (neighborhood_keys str p)
                (All-includes (neighborhood_keys str p)) (neighborhood_keys-NonEmpty str law p)))
      where
        by_key : Dict String (List (MarketSignal F))
        by_key = latest_signals_bulk table "neighborhood" (unique_from [] (all_keys str props))

    abbrev or_else :
        Option (MarketContextSnapshot F)
        → Option (MarketContextSnapshot F)
        → Option (MarketContextSnapshot F)
    or_else none o = o
    or_else (some s) o = some s

    or_else-none : (o : Option (MarketContextSnapshot F)) → or_else o none ≡ o
    or_else-none none = refl
    or_else-none (some s) = refl

    build_snapshot-absent :
        (props : List (Property F)) (table : List (MarketSignal F)) (id : String)
        → includes (ids_of props) id ≡ false
        → build_snapshot str props table id ≡ none
    unfolding build_snapshot
    build_snapshot-absent [] table id h = refl
    build_snapshot-absent (p ∷ props) table id h =
        ground (arith, h, build_snapshot-absent props table id)

    get-snapshots :
        (start : Dict String (MarketContextSnapshot F)) (props : List (Property F))
        (table : List (MarketSignal F)) (id : String)
        → IsDistinct props
        → get
            (assign_all start (map (λ (p : Property F). (p.id, snapshot_of str table p)) props))
            id
          ≡ or_else (build_snapshot str props table id) (get start id)
    unfolding build_snapshot
    get-snapshots start [] table id h = refl
    get-snapshots start (p ∷ props) table id (new, h) =
        get-snapshots (assign start p.id (snapshot_of str table p)) props table id h
        ∙ elim (Bool-cases (str_eq p.id id)) [
          | inl e ↦
              rw
                (
                  get-assign start p.id id (snapshot_of str table p),
                  e,
                  build_snapshot-absent props table id
                      (ap (includes (ids_of props)) (sym ((eq_iff p.id id).0 e)) ∙ new),
                )
                refl
          | inr e ↦ rw (get-assign start p.id id (snapshot_of str table p), e) refl
        ]

    -- Two queries for all the properties give every property the snapshot that it gets alone. This
    -- takes ids that are distinct and not empty, and a `str` that gives no empty text for a value
    -- that counts as true; rows of one time come in the same order from every query.
    pub build_snapshots-build_snapshot :
        (table : List (MarketSignal F)) (props : List (Property F)) (id : String)
        → IsDistinct props
        → All (λ (p : Property F). str_eq p.id "" ≡ false) props
        → get (build_snapshots str table props) id ≡ build_snapshot str props table id
    unfolding build_snapshots dict_of get
    build_snapshots-build_snapshot table props id distinct named =
        ap (λ rows. get (assign_all [] rows) id)
          (map-agree _ (λ (p : Property F). (p.id, snapshot_of str table p)) props
            (All-imp props (λ p h. ap (λ s. (p.id, s)) (compose-snapshot_of table props p h.0 h.1))
              (All-both (IsAsked props) (λ (p : Property F). str_eq p.id "" ≡ false) props
                (All-IsAsked props) named)))
        ∙ get-snapshots [] props table id distinct
        ∙ or_else-none (build_snapshot str props table id)
