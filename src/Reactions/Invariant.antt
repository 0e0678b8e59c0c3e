-- ===== src/Reactions/Invariant.antt =====
-- The vectors of the reaction engine across batches of events.
use real_estate_agent.Common.{
  String, ◌≡◌, refl, ap, ◌∙◌, ◌⊎◌, inl, inr, none, List, [], ◌∷◌, arith, str_eq, eq_iff,
  if◌then◌else◌, Bool-cases, Option-cases, All,
}
use real_estate_agent.Common.Dict.{string_key, get, values, get-assign, values-assign-All, get-All}
use real_estate_agent.Float.{Float}
use real_estate_agent.Float.Order.{InSigned, IsOrdered, clamp_signed-InSigned}
use real_estate_agent.Reactions.{
  Variable, variable_of, ReactionVector, ReactionEvent, read, write, neutral_vector,
}
use real_estate_agent.Reactions.Engine.{
  ReactionEngine, apply_delta, new_engine, vector_for, apply, apply_batch,
}

module _ {ℓ} {F : Type ℓ} ⦃d : Float F⦄ where
  -- All eight variables lie in [-1, 1].
  abbrev pub IsBounded : ReactionVector F → Type 0
  IsBounded v = (x : Variable) → InSigned (read v x)

  abbrev pub AllBounded : ReactionEngine F → Type 0
  AllBounded engine = All IsBounded (values engine.vectors)

  read-write :
      (v : ReactionVector F) (x : Variable) (value : F) (y : Variable)
      → (read (write v x value) y ≡ value) ⊎ (read (write v x value) y ≡ read v y)
  unfolding read write
  read-write v x value y = ground arith

  module _ (laws : IsOrdered F) where
    neutral_vector-IsBounded : IsBounded neutral_vector
    unfolding neutral_vector read
    neutral_vector-IsBounded Variable.social_proof =
        (laws.neg_lit_le 1 0 0 0, laws.lit_le 0 0 1 0 (omega arith))
    neutral_vector-IsBounded _ = (laws.neg_lit_le 1 0 0 0, laws.lit_le 0 0 1 0 (omega arith))

    write-IsBounded :
        (v : ReactionVector F) (x : Variable) (value : F)
        → IsBounded v
        → InSigned value
        → IsBounded (write v x value)
    write-IsBounded v x value h p y = elim (read-write v x value y) [
      | inl e ↦ rw e p
      | inr e ↦ rw e (h y)
    ]

    apply_delta-IsBounded :
        (v : ReactionVector F) (name : String) (delta : F)
        → IsBounded v
        → IsBounded (apply_delta v name delta)
    unfolding apply_delta
    apply_delta-IsBounded v name delta h = elim (Option-cases (variable_of name)) [
      | inl e ↦ rw (e, apply_delta) h
      | inr (x, e) ↦
          rw (e, apply_delta)
            (write-IsBounded v x _ h (clamp_signed-InSigned laws (d.add (read v x) delta)))
    ]

    vector_for-IsBounded :
        (engine : ReactionEngine F) (actor_id : String)
        → AllBounded engine
        → IsBounded (vector_for engine actor_id)
    unfolding vector_for
    vector_for-IsBounded engine actor_id h = elim (Option-cases (get engine.vectors actor_id)) [
      | inl e ↦ rw e neutral_vector-IsBounded
      | inr (v, e) ↦ rw e (get-All IsBounded engine.vectors actor_id h e)
    ]

    apply-AllBounded :
        (engine : ReactionEngine F) (actor_id : String) (event : ReactionEvent F)
        → AllBounded engine
        → AllBounded (apply engine actor_id event)
    unfolding apply
    apply-AllBounded engine actor_id event h =
        values-assign-All IsBounded engine.vectors actor_id _ h (
          apply_delta-IsBounded (vector_for engine actor_id) event.variable event.delta
            (vector_for-IsBounded engine actor_id h))

    apply_batch-AllBounded :
        (events : List (String × ReactionEvent F)) (engine : ReactionEngine F)
        → AllBounded engine
        → AllBounded (apply_batch engine events)
    unfolding apply_batch
    apply_batch-AllBounded [] engine h = h
    apply_batch-AllBounded ((actor_id, event) ∷ rest) engine h =
        apply_batch-AllBounded rest (apply engine actor_id event)
          (apply-AllBounded engine actor_id event h)

    -- Whatever the events are, NaN deltas and unregistered variables included, after any batch on a
    -- new engine all eight variables of every actor lie in [-1, 1].
    pub apply_batch-IsBounded :
        (events : List (String × ReactionEvent F)) (actor_id : String)
        → IsBounded (vector_for (apply_batch new_engine events) actor_id)
    unfolding new_engine
    apply_batch-IsBounded events actor_id =
        vector_for-IsBounded (apply_batch new_engine events) actor_id
          (apply_batch-AllBounded events new_engine tt)

  -- The fold of the events of one actor, the others left out.
  abbrev pub fold_events :
      String → ReactionVector F → List (String × ReactionEvent F) → ReactionVector F
  fold_events actor_id v [] = v
  fold_events actor_id v ((other, event) ∷ rest) =
      fold_events actor_id
        (if str_eq other actor_id then apply_delta v event.variable event.delta else v) rest

  vector_for-apply :
      (engine : ReactionEngine F) (other actor_id : String) (event : ReactionEvent F)
      → vector_for (apply engine other event) actor_id ≡ (
          if str_eq other actor_id
          then apply_delta (vector_for engine actor_id) event.variable event.delta
          else vector_for engine actor_id)
  unfolding vector_for apply
  vector_for-apply engine other actor_id event = elim (Bool-cases (str_eq other actor_id)) [
    | inl e ↦ rw (get-assign engine.vectors other actor_id _, e) (rw ((eq_iff other actor_id).0 e))
    | inr e ↦ rw (get-assign engine.vectors other actor_id _, e)
  ]

  -- After a batch the vector of an actor is the fold of that actor's own events over the vector it
  -- had: events of other actors leave it alone, wherever they stand in the batch.
  pub vector_for-apply_batch :
      (events : List (String × ReactionEvent F)) (engine : ReactionEngine F) (actor_id : String)
      → vector_for (apply_batch engine events) actor_id
        ≡ fold_events actor_id (vector_for engine actor_id) events
  unfolding apply_batch
  vector_for-apply_batch [] engine actor_id = refl
  vector_for-apply_batch ((other, event) ∷ rest) engine actor_id =
      vector_for-apply_batch rest (apply engine other event) actor_id
      ∙ ap (λ v. fold_events actor_id v rest) (vector_for-apply engine other actor_id event)

  -- An event that names no registered variable leaves every vector as it was.
  pub vector_for-apply_unknown :
      (engine : ReactionEngine F) (other actor_id : String) (event : ReactionEvent F)
      → variable_of event.variable ≡ none
      → vector_for (apply engine other event) actor_id ≡ vector_for engine actor_id
  unfolding apply_delta
  vector_for-apply_unknown engine other actor_id event h =
      rw (vector_for-apply engine other actor_id event) (ground (arith, h))
