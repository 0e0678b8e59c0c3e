-- ===== src/Decisions/Negotiation/Names.antt =====
-- The names of states and actions: `.value` and the coercion of a `str`.
use real_estate_agent.Common.{String, ◌≡◌, refl, ◌↔◌, some}
use real_estate_agent.Common.Enum.{text, member_of, member_of-value}
use real_estate_agent.Decisions.Negotiation.{
  State, Action, state_value, action_value, all_states, all_actions, normalize_state,
  normalize_action,
}

-- A text is accepted as a state exactly if it is the value of that state.
pub normalize_state-text :
    (s : String) (state : State) → (normalize_state (text s) ≡ some state) ↔ (state_value state ≡ s)
unfolding normalize_state
normalize_state-text s state =
    (member_of-value state_value all_states s, λ e. rw (← e) (known state))
  where
    known : (t : State) → member_of state_value all_states (state_value t) ≡ some t
    known State.idle = refl
    known _ = refl

-- A text is accepted as an action exactly if it is the value of that action.
pub normalize_action-text :
    (s : String) (action : Action)
    → (normalize_action (text s) ≡ some action) ↔ (action_value action ≡ s)
unfolding normalize_action
normalize_action-text s action =
    (member_of-value action_value all_actions s, λ e. rw (← e) (known action))
  where
    known : (t : Action) → member_of action_value all_actions (action_value t) ≡ some t
    known Action.accept = refl
    known _ = refl
