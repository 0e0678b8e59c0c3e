-- ===== src/Reports/Replay.antt =====
-- domain/reports/replay.py: the replay of reaction events, with a frame for every step.
use real_estate_agent.Common.Dict.{values, Dict}
use real_estate_agent.Outcomes.{project_neighborhood_sentiment}
use real_estate_agent.Reactions.Engine.{ReactionEngine, apply_batch, new_engine, apply, vector_for}
use real_estate_agent.Reactions.{ReactionEvent, ReactionVector}
use real_estate_agent.Float.{Float}
use real_estate_agent.Common.{
  ℕ, zero, suc, ◌+◌, String, ◌≡◌, refl, ap, ◌∙◌, Option, none, some, List, [], ◌∷◌, arith, length,
  get_elem?, take,
}

pub record ReplayFrame {ℓ} (F : Type ℓ) : Type ℓ where
  pub step : ℕ
  pub occurred_at : ℕ
  pub actor_id : String
  pub event_topic : String
  pub event_variable : String
  pub event_delta : F
  pub actor_vector : ReactionVector F
  pub aggregate_sentiment : Option F
  pub metadata : Dict String String

pub record ReplayNarrative {ℓ} (F : Type ℓ) : Type ℓ where
  pub frames : List (ReplayFrame F)
  pub summary : String
  pub final_sentiment : Option F

module _ {ℓ} {F : Type ℓ} ⦃d : Float F⦄ where
  -- The sentiment over all the vectors of an engine.
  unfoldable pub engine_sentiment : ReactionEngine F → Option F
  unfolding project_neighborhood_sentiment
  engine_sentiment engine = project_neighborhood_sentiment (values engine.vectors)

  -- The frame after an event, from the engine that has applied it.
  unfoldable pub frame_of : ReactionEngine F → ℕ → String → ReactionEvent F → ReplayFrame F
  unfolding engine_sentiment vector_for
  frame_of engine index actor_id event = record {
    step = index;
    occurred_at = event.occurred_at;
    actor_id = actor_id;
    event_topic = event.topic;
    event_variable = event.variable;
    event_delta = event.delta;
    actor_vector = vector_for engine actor_id;
    aggregate_sentiment = engine_sentiment engine;
    metadata = event.metadata;
  }

  -- The loop: the engine at the end and the frames.
  unfoldable pub replay_from :
      ReactionEngine F
      → ℕ
      → List (String × ReactionEvent F)
      → ReactionEngine F × List (ReplayFrame F)
  unfolding apply frame_of
  replay_from engine index [] = (engine, [])
  replay_from engine index ((actor_id, event) ∷ rest) =
      let next = apply engine actor_id event in
      let (last, frames) = replay_from next (suc index) rest in
      (last, frame_of next index actor_id event ∷ frames)

  abbrev pub final_of : ReactionEngine F → List (ReplayFrame F) → Option F
  final_of engine [] = none
  final_of engine (f ∷ fs) = engine_sentiment engine

  unfoldable pub replay_reactions : List (String × ReactionEvent F) → String → ReplayNarrative F
  unfolding replay_from engine_sentiment new_engine
  replay_reactions actor_events summary =
      let (engine, frames) = replay_from new_engine 0 actor_events in
      record { frames = frames; summary = summary; final_sentiment = final_of engine frames }

  replay_from-length :
      (engine : ReactionEngine F) (index : ℕ) (events : List (String × ReactionEvent F))
      → length (replay_from engine index events).1 ≡ length events
  unfolding replay_from
  replay_from-length engine index [] = refl
  replay_from-length engine index ((a, e) ∷ rest) =
      ap suc (replay_from-length (apply engine a e) (suc index) rest)

  replay_from-apply_batch :
      (engine : ReactionEngine F) (index : ℕ) (events : List (String × ReactionEvent F))
      → (replay_from engine index events).0 ≡ apply_batch engine events
  unfolding replay_from apply_batch
  replay_from-apply_batch engine index [] = refl
  replay_from-apply_batch engine index ((a, e) ∷ rest) =
      replay_from-apply_batch (apply engine a e) (suc index) rest

  -- The frame at a step of an engine, computed from the events up to it.
  abbrev pub frame_at :
      ReactionEngine F → List (String × ReactionEvent F) → ℕ → ℕ → Option (ReplayFrame F)
  frame_at engine events base i = elim (get_elem? events i) [
    | none ↦ none
    | some e ↦ some (frame_of (apply_batch engine (take (suc i) events)) (base + i) e.0 e.1)
  ]

  replay_from-frame_at :
      (engine : ReactionEngine F) (index : ℕ) (events : List (String × ReactionEvent F)) (i : ℕ)
      → get_elem? (replay_from engine index events).1 i ≡ frame_at engine events index i
  unfolding replay_from apply_batch
  replay_from-frame_at engine index [] i = refl
  replay_from-frame_at engine index ((a, e) ∷ rest) zero =
      ap (λ n. some (frame_of (apply engine a e) n a e)) (omega arith)
  replay_from-frame_at engine index ((a, e) ∷ rest) (suc i) =
      replay_from-frame_at (apply engine a e) (suc index) rest i ∙ shift (get_elem? rest i)
    where
      shift :
          (o : Option (String × ReactionEvent F))
          → Path
              (Option (ReplayFrame F))
              (elim o [
                | none ↦ none
                | some x ↦ some (
                    frame_of
                      (apply_batch (apply engine a e) (take (suc i) rest))
                      (suc index + i)
                      x.0
                      x.1)
              ])
              (elim o [
                | none ↦ none
                | some x ↦ some (
                    frame_of
                      (apply_batch (apply engine a e) (take (suc i) rest))
                      (index + suc i)
                      x.0
                      x.1)
              ])
      shift none = refl
      shift (some x) =
          ap (λ n. some (frame_of (apply_batch (apply engine a e) (take (suc i) rest)) n x.0 x.1))
            (omega arith)

  -- A replay has one frame for each event. The frame at step `i` is the one of event `i` on the
  -- engine that a batch of the events up to it gives, and beyond the last event there is none.
  pub replay_reactions-frames :
      (events : List (String × ReactionEvent F)) (summary : String) (i : ℕ)
      → (length (replay_reactions events summary).frames ≡ length events)
        × (get_elem? (replay_reactions events summary).frames i ≡ frame_at new_engine events 0 i)
  unfolding replay_reactions
  replay_reactions-frames events summary i =
      (replay_from-length new_engine 0 events, replay_from-frame_at new_engine 0 events i)

  -- The final sentiment of a replay with events is the one of the engine after the whole batch.
  pub replay_reactions-final_sentiment :
      (first : String × ReactionEvent F) (events : List (String × ReactionEvent F))
      (summary : String)
      → (replay_reactions (first ∷ events) summary).final_sentiment
        ≡ engine_sentiment (apply_batch new_engine (first ∷ events))
  unfolding replay_reactions replay_from
  replay_reactions-final_sentiment (a, e) events summary =
      ap engine_sentiment (replay_from-apply_batch new_engine 0 ((a, e) ∷ events))
