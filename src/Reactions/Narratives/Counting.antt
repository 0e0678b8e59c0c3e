-- ===== src/Reactions/Narratives/Counting.antt =====
-- How the events are shared among the narrative clusters.
use real_estate_agent.Reactions.Narratives.Keys.{
  distinct, names_iff, add_other, add_again, same_option, still_shared, zero_plus,
}
use real_estate_agent.Common.{
  ℕ, ◌+◌, min, max, ◌≡◌, refl, sym, ap, ◌∙◌, inl, inr, Bool, not, ◌&&◌, Option, none, some, List,
  [], ◌∷◌, ◌++◌, map, arith, str_eq, if◌then◌else◌, bit, Bool-cases, length, length-append, keep_if,
}
use real_estate_agent.Common.Dict.{get, assign}
use real_estate_agent.Common.Sort.{sort_stable, sum_by, sum_by-sort_stable}
use real_estate_agent.Float.{Float, zero_f}
use real_estate_agent.Reactions.{Variable, variable_of, variable_name, ReactionEvent}
use real_estate_agent.Reactions.Narratives.{
  Direction, positive, negative, Bucket, Buckets, NarrativeCluster, same_bucket, same_bucket_iff,
  bucket_key, direction_index, same_variable_iff, or_empty, bucket_of, add_to_bucket, group_events,
  cluster_of, weaker, extract_narratives,
}

module _ {ℓ} {F : Type ℓ} where
  -- The events in the buckets with a key, and the number of those buckets.
  abbrev events_in : Bucket → Bucket × List (ReactionEvent F) → ℕ
  events_in k (j, es) = if same_bucket j k then length es else 0

  abbrev one_in : Bucket → Bucket × List (ReactionEvent F) → ℕ
  one_in k (j, es) = bit (same_bucket j k)

module _ {ℓ} {F : Type ℓ} ⦃d : Float F⦄ where
  open d use {lt, eq}

  events_in-assign :
      (k : Bucket) (buckets : Buckets F) (j : Bucket) (event : ReactionEvent F)
      → sum_by (events_in k) (assign buckets j (or_empty (get buckets j) ++ (event ∷ [])))
        ≡ sum_by (events_in k) buckets + bit (same_bucket j k)
  unfolding assign get
  events_in-assign k [] j event = ground arith
  events_in-assign k ((i, w) ∷ buckets) j event =
      ground (
        arith,
        length-append w (event ∷ []),
        same_bucket_iff i j,
        events_in-assign k buckets j event,
      )

  one_in-assign :
      (k : Bucket) (buckets : Buckets F) (j : Bucket) (es : List (ReactionEvent F))
      → sum_by (one_in k) (assign buckets j es)
        ≡ (if same_bucket j k then max 1 (sum_by (one_in k) buckets) else sum_by (one_in k) buckets)
  unfolding assign
  one_in-assign k [] j es = ground arith
  one_in-assign k ((i, w) ∷ buckets) j es = elim (Bool-cases (same_bucket i j)) [
    | inl e ↦
        rw (e, ap (λ x. same_bucket x k) ((same_bucket_iff i j).0 e))
          (add_again (same_bucket j k) (sum_by (one_in k) buckets))
    | inr e ↦
        rw (e, one_in-assign k buckets j es)
          (add_other (same_bucket i k) (same_bucket j k) (sum_by (one_in k) buckets)
            (distinct i j k e))
  ]

  -- Whether an event is about a variable in a direction: its delta is not zero, and it is positive or
  -- not.
  abbrev pub is_about : Variable → Direction → ReactionEvent F → Bool
  is_about v positive e =
      str_eq e.variable (variable_name v) && not (eq e.delta zero_f) && lt zero_f e.delta
  is_about v negative e =
      str_eq e.variable (variable_name v) && not (eq e.delta zero_f) && not (lt zero_f e.delta)

  -- The direction of a delta that is not zero.
  abbrev direction_of : F → Direction
  direction_of x = if lt zero_f x then positive else negative

  bucket_of-cases :
      (e : ReactionEvent F) (v : Variable) (s : Direction) (o : Option Variable)
      → variable_of e.variable ≡ o
      → same_option (bucket_of e) (v, s) ≡ is_about v s e
  unfolding bucket_of same_bucket direction_index
  bucket_of-cases e v positive none h = ground (arith, h, names_iff e.variable v)
  bucket_of-cases e v negative none h = ground (arith, h, names_iff e.variable v)
  bucket_of-cases e v positive (some u) h =
      ground (arith, h, names_iff e.variable v, same_variable_iff u v)
  bucket_of-cases e v negative (some u) h =
      ground (arith, h, names_iff e.variable v, same_variable_iff u v)

  -- One event more.
  events_in-add_to_bucket :
      (k : Bucket) (buckets : Buckets F) (o : Option Bucket) (e : ReactionEvent F)
      → sum_by (events_in k) (add_to_bucket buckets o e)
        ≡ sum_by (events_in k) buckets + bit (same_option o k)
  unfolding add_to_bucket
  events_in-add_to_bucket k buckets none e = omega arith
  events_in-add_to_bucket k buckets (some j) e = events_in-assign k buckets j e

  one_in-add_to_bucket :
      (k : Bucket) (buckets : Buckets F) (o : Option Bucket) (e : ReactionEvent F)
      → sum_by (one_in k) (add_to_bucket buckets o e)
        ≡ (if same_option o k then max 1 (sum_by (one_in k) buckets) else sum_by (one_in k) buckets)
  unfolding add_to_bucket
  one_in-add_to_bucket k buckets none e = refl
  one_in-add_to_bucket k buckets (some j) e = one_in-assign k buckets j _

  -- A key has one bucket if it has events, and none otherwise.
  abbrev IsShared : Bucket → Buckets F → Type 0
  IsShared k buckets = sum_by (one_in k) buckets ≡ min 1 (sum_by (events_in k) buckets)

  add_to_bucket-IsShared :
      (k : Bucket) (buckets : Buckets F) (o : Option Bucket) (e : ReactionEvent F)
      → IsShared k buckets
      → IsShared k (add_to_bucket buckets o e)
  add_to_bucket-IsShared k buckets o e h =
      one_in-add_to_bucket k buckets o e
      ∙ still_shared (same_option o k) _ _ h
      ∙ ap (min 1) (sym (events_in-add_to_bucket k buckets o e))

  group_events-IsShared :
      (k : Bucket) (events : List (ReactionEvent F)) (buckets : Buckets F)
      → IsShared k buckets
      → IsShared k (group_events buckets events)
  unfolding group_events
  group_events-IsShared k [] buckets h = h
  group_events-IsShared k (e ∷ events) buckets h =
      group_events-IsShared k events (add_to_bucket buckets (bucket_of e) e)
        (add_to_bucket-IsShared k buckets (bucket_of e) e h)

  count-cons :
      (p : ReactionEvent F → Bool) (e : ReactionEvent F) (events : List (ReactionEvent F))
      → length (keep_if p (e ∷ events)) ≡ bit (p e) + length (keep_if p events)
  count-cons p e events = ground arith

  events_in-group_events :
      (v : Variable) (s : Direction) (events : List (ReactionEvent F)) (buckets : Buckets F)
      → sum_by (events_in (v, s)) (group_events buckets events)
        ≡ sum_by (events_in (v, s)) buckets + length (keep_if (is_about v s) events)
  unfolding group_events
  events_in-group_events v s [] buckets = omega arith
  events_in-group_events v s (e ∷ events) buckets = omega (
    arith,
    events_in-group_events v s events (add_to_bucket buckets (bucket_of e) e),
    events_in-add_to_bucket (v, s) buckets (bucket_of e) e,
    ap bit (bucket_of-cases e v s (variable_of e.variable) refl),
    count-cons (is_about v s) e events,
  )

  -- A cluster with a key, and the events that it counts.
  abbrev pub has_key : Bucket → NarrativeCluster F → Bool
  has_key k c = same_bucket (c.variable, c.direction) k

  one_in-cluster_of :
      (n : ℕ) (k : Bucket) (buckets : Buckets F)
      → length (keep_if (has_key k) (map (cluster_of n) buckets)) ≡ sum_by (one_in k) buckets
  unfolding cluster_of
  one_in-cluster_of n k [] = refl
  one_in-cluster_of n k ((j, es) ∷ buckets) = ground (arith, one_in-cluster_of n k buckets)

  events_in-cluster_of :
      (n : ℕ) (k : Bucket) (buckets : Buckets F)
      → sum_by
          (λ (c : NarrativeCluster F). c.event_count)
          (keep_if (has_key k) (map (cluster_of n) buckets))
        ≡ sum_by (events_in k) buckets
  unfolding cluster_of
  events_in-cluster_of n k [] = refl
  events_in-cluster_of n k ((j, es) ∷ buckets) = ground (arith, events_in-cluster_of n k buckets)

  length_by :
      (k : Bucket) (cs : List (NarrativeCluster F))
      → length (keep_if (has_key k) cs) ≡ sum_by (λ (c : NarrativeCluster F). bit (has_key k c)) cs
  length_by k [] = refl
  length_by k (c ∷ cs) = ground (arith, length_by k cs)

  count_by :
      (k : Bucket) (cs : List (NarrativeCluster F))
      → sum_by (λ (c : NarrativeCluster F). c.event_count) (keep_if (has_key k) cs)
        ≡ sum_by (λ (c : NarrativeCluster F). if has_key k c then c.event_count else 0) cs
  count_by k [] = refl
  count_by k (c ∷ cs) = ground (arith, count_by k cs)

  -- For each variable and direction: where some event is about it, one cluster has that variable and
  -- direction and counts exactly the events that are about it; where none is, no cluster has it.
  pub extract_narratives-count :
      (sample_limit : ℕ) (events : List (ReactionEvent F)) (v : Variable) (s : Direction)
      → let clusters = keep_if (has_key (v, s)) (extract_narratives sample_limit events) in
        (length clusters ≡ min 1 (length (keep_if (is_about v s) events)))
        × (sum_by (λ (c : NarrativeCluster F). c.event_count) clusters
            ≡ length (keep_if (is_about v s) events))
  unfolding extract_narratives
  extract_narratives-count n events v s =
      let k : Bucket = (v, s) in
      let buckets = group_events [] events in
      let cs = map (cluster_of n) buckets in
      let counted = events_in-group_events v s events [] ∙ zero_plus _ in
      (
        length_by k (sort_stable weaker cs)
            ∙ sum_by-sort_stable weaker (λ (c : NarrativeCluster F). bit (has_key k c)) cs
            ∙ sym (length_by k cs)
            ∙ one_in-cluster_of n k buckets
            ∙ group_events-IsShared k events [] refl
            ∙ ap (min 1) counted,
        count_by k (sort_stable weaker cs)
            ∙ sum_by-sort_stable weaker
                (λ (c : NarrativeCluster F). if has_key k c then c.event_count else 0) cs
            ∙ sym (count_by k cs)
            ∙ events_in-cluster_of n k buckets
            ∙ counted,
      )
