-- ===== src/Store/EventStore.antt =====
-- services/event_store.py: the append-only table of domain events. A payload is any JSON value and a
-- time is the number of microseconds that the clock gives.
pub mod Sequence
use real_estate_agent.Common.Sort.{sort_stable}
use real_estate_agent.Common.{
  ℕ, ◌+◌, max, String, Bool, true, false, ◌&&◌, Option, none, some, List, [], ◌∷◌, ◌++◌, map,
  str_eq, ltb, keep_if,
}

pub record DomainEvent {ℓ} (J : Type ℓ) : Type ℓ where
  pub event_type : String
  pub aggregate_type : String
  pub aggregate_id : String
  pub payload : J
  pub actor_type : Option String
  pub actor_id : Option String
  pub correlation_id : Option String
  pub sequence : ℕ
  pub created_at : Option ℕ

-- The arguments of `append`, with the time of the call.
pub record NewEvent {ℓ} (J : Type ℓ) : Type ℓ where
  pub event_type : String
  pub aggregate_type : String
  pub aggregate_id : String
  pub payload : J
  pub actor_type : Option String
  pub actor_id : Option String
  pub correlation_id : Option String
  pub now : ℕ

-- A row of `replay_aggregate`.
pub record ReplayRow {ℓ} (J : Type ℓ) : Type ℓ where
  pub event_type : String
  pub payload : J
  pub sequence : ℕ
  pub actor_type : Option String
  pub actor_id : Option String
  pub created_at : Option String

-- `ORDER BY created_at`: a missing time comes last.
abbrev pub created_after : Option ℕ → Option ℕ → Bool
created_after none none = false
created_after none (some _) = true
created_after (some _) none = false
created_after (some a) (some b) = ltb b a

abbrev pub same_text : String → Option String → Bool
same_text s none = false
same_text s (some t) = str_eq t s

module _ {ℓ} {J : Type ℓ} where
  abbrev pub of_aggregate : String → String → DomainEvent J → Bool
  of_aggregate type id e = str_eq e.aggregate_type type && str_eq e.aggregate_id id

  -- `coalesce(max(sequence), 0)`
  abbrev pub max_sequence : List (DomainEvent J) → ℕ
  max_sequence [] = 0
  max_sequence (e ∷ es) = max e.sequence (max_sequence es)

  abbrev pub event_with : ℕ → NewEvent J → DomainEvent J
  event_with next_seq n = record {
    event_type = n.event_type;
    aggregate_type = n.aggregate_type;
    aggregate_id = n.aggregate_id;
    payload = n.payload;
    actor_type = n.actor_type;
    actor_id = n.actor_id;
    correlation_id = n.correlation_id;
    sequence = next_seq;
    created_at = some n.now;
  }

  -- `append`: the event that is returned and the table with it.
  unfoldable pub append : List (DomainEvent J) → NewEvent J → DomainEvent J × List (DomainEvent J)
  append table n =
      let next_seq =
        max_sequence (keep_if (of_aggregate n.aggregate_type n.aggregate_id) table) + 1 in
      let event = event_with next_seq n in (event, table ++ event ∷ [])

  -- Rows with equal keys come in the order of the table.
  unfoldable pub get_events : List (DomainEvent J) → String → String → List (DomainEvent J)
  get_events table aggregate_type aggregate_id =
      sort_stable (λ a b. ltb b.sequence a.sequence)
        (keep_if (of_aggregate aggregate_type aggregate_id) table)

  unfoldable pub get_by_correlation : List (DomainEvent J) → String → List (DomainEvent J)
  get_by_correlation table correlation_id =
      sort_stable (λ a b. created_after a.created_at b.created_at)
        (keep_if (λ e. same_text correlation_id e.correlation_id) table)

  -- `isoformat` is the method of `datetime`.
  unfoldable pub replay_aggregate :
      (ℕ → String) → List (DomainEvent J) → String → String → List (ReplayRow J)
  unfolding get_events
  replay_aggregate isoformat table aggregate_type aggregate_id =
      map row_of (get_events table aggregate_type aggregate_id)
    where
      iso_of : Option ℕ → Option String
      iso_of none = none
      iso_of (some t) = some (isoformat t)

      row_of : DomainEvent J → ReplayRow J
      row_of e = record {
        event_type = e.event_type;
        payload = e.payload;
        sequence = e.sequence;
        actor_type = e.actor_type;
        actor_id = e.actor_id;
        created_at = iso_of e.created_at;
      }
