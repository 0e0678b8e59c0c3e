-- ===== src/Decisions/Negotiation.antt =====
-- domain/decisions/negotiation.py: the states and actions of a negotiation with their names, the
-- transition table, the timeouts, and the analysis of the offered prices. A `str` argument that the
-- code coerces to an enum is `Input`; the two `ValueError`s are the errors of `Outcome`.
pub mod Paths
pub mod Names
pub mod Analysis
use real_estate_agent.Common.{ℕ, ◌+◌, String, Option, none, some, List, [], ◌∷◌, ltb, if◌then◌else◌}
use Prim.Native.String.{◌++◌}
use real_estate_agent.Common.Enum.{Input, text, member, member_of}

pub data State : Type 0 where
  idle : State
  offer_pending : State
  counter_pending : State
  accepted : State
  rejected : State
  withdrawn : State
  escalated : State
  contract_phase : State
  inspection : State
  closing : State
  closed : State

pub data Action : Type 0 where
  place_offer : Action
  accept : Action
  reject : Action
  counter : Action
  withdraw : Action
  generate_contract : Action
  schedule_inspection : Action
  clear : Action
  funds_transferred : Action

-- `.value` of the two enums.
unfoldable pub state_value : State → String
state_value idle = "idle"
state_value offer_pending = "offer_pending"
state_value counter_pending = "counter_pending"
state_value accepted = "accepted"
state_value rejected = "rejected"
state_value withdrawn = "withdrawn"
state_value escalated = "escalated"
state_value contract_phase = "contract_phase"
state_value inspection = "inspection"
state_value closing = "closing"
state_value closed = "closed"

unfoldable pub action_value : Action → String
action_value place_offer = "place_offer"
action_value accept = "accept"
action_value reject = "reject"
action_value counter = "counter"
action_value withdraw = "withdraw"
action_value generate_contract = "generate_contract"
action_value schedule_inspection = "schedule_inspection"
action_value clear = "clear"
action_value funds_transferred = "funds_transferred"

abbrev pub all_states : List State
all_states =
    idle ∷ offer_pending ∷ counter_pending ∷ accepted ∷ rejected ∷ withdrawn ∷ escalated
    ∷ contract_phase ∷ inspection ∷ closing ∷ closed ∷ []

abbrev pub all_actions : List Action
all_actions =
    place_offer ∷ accept ∷ reject ∷ counter ∷ withdraw ∷ generate_contract ∷ schedule_inspection
    ∷ clear ∷ funds_transferred ∷ []

unfoldable pub normalize_state : Input State → Option State
unfolding member_of state_value
normalize_state (member s) = some s
normalize_state (text s) = member_of state_value all_states s

unfoldable pub normalize_action : Input Action → Option Action
unfolding member_of action_value
normalize_action (member a) = some a
normalize_action (text s) = member_of action_value all_actions s

unfoldable pub negotiation_event : Input Action → Option String
unfolding normalize_action
negotiation_event input = elim (normalize_action input) [
  | none ↦ none
  | some a ↦ some ("negotiation." ++ action_value a)
]

-- `NEGOTIATION_TRANSITIONS.get((current, action))`
unfoldable pub transitions : State → Action → Option State
transitions idle place_offer = some offer_pending
transitions offer_pending accept = some accepted
transitions offer_pending reject = some rejected
transitions offer_pending counter = some counter_pending
transitions counter_pending accept = some accepted
transitions counter_pending counter = some offer_pending
transitions counter_pending withdraw = some withdrawn
transitions accepted generate_contract = some contract_phase
transitions contract_phase schedule_inspection = some inspection
transitions inspection clear = some closing
transitions closing funds_transferred = some closed
transitions _ _ = none

pub data Outcome : Type 0 where
  moved : State → Outcome
  unknown_action : Outcome
  invalid_transition : State → Action → Outcome

-- What `transition` does with the parsed action.
unfoldable pub take_action : State → Option Action → Outcome
unfolding transitions
take_action current none = unknown_action
take_action current (some a) = elim (transitions current a) [
  | none ↦ invalid_transition current a
  | some t ↦ moved t
]

unfoldable pub transition : State → Input Action → ℕ → Outcome
unfolding take_action normalize_action
transition current action round_count =
    if ltb 10 round_count then moved escalated else take_action current (normalize_action action)

-- `none` is the `ValueError` of an unknown status.
unfoldable pub resolve_offer_action : Input State → Option Action
unfolding normalize_state
resolve_offer_action status = elim (normalize_state status) [
  | none ↦ none
  | some idle ↦ some place_offer
  | some _ ↦ some counter
]

-- `NegotiationTimer.get_timeout_hours`
unfoldable pub get_timeout_hours : State → Option ℕ
get_timeout_hours offer_pending = some 48
get_timeout_hours counter_pending = some 48
get_timeout_hours contract_phase = some 72
get_timeout_hours inspection = some 240
get_timeout_hours closing = some 720
get_timeout_hours _ = none

-- `NegotiationTimer.get_deadline`, with instants in hours.
unfoldable pub get_deadline : State → ℕ → Option ℕ
unfolding get_timeout_hours
get_deadline state entered_at = elim (get_timeout_hours state) [
  | none ↦ none
  | some hours ↦ some (entered_at + hours)
]
