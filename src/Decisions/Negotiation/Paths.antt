-- ===== src/Decisions/Negotiation/Paths.antt =====
-- Which sequences of actions the negotiation state machine accepts.
use real_estate_agent.Common.{
  ℕ, ◌+◌, ◌≤◌, ◌<◌, ◌≡◌, refl, ap, ◌≢◌, ◌⊎◌, inl, inr, Option, none, some, List, [], ◌∷◌, ◌++◌,
  arith, All,
}
use real_estate_agent.Common.Enum.{Input, member}
use real_estate_agent.Decisions.Negotiation.{
  State, idle, offer_pending, counter_pending, accepted, rejected, withdrawn, escalated,
  contract_phase, inspection, closing, closed, Action, place_offer, accept, reject, counter,
  withdraw, generate_contract, schedule_inspection, clear, funds_transferred, moved,
  invalid_transition, transitions, transition, resolve_offer_action, get_deadline,
}

-- Past round ten the outcome is `escalated` whatever the state and the action are, be the action
-- no member of the enum or the negotiation closed.
pub transition_escalates :
    (s : State) (input : Input Action) (round : ℕ)
    → 10 < round
    → transition s input round ≡ moved escalated
unfolding transition
transition_escalates s input round h = ground arith

-- The states that no action leaves.
abbrev pub IsFinal : State → Type 0
IsFinal s = (s ≡ rejected) ⊎ (s ≡ withdrawn) ⊎ (s ≡ escalated) ⊎ (s ≡ closed)

transitions-IsFinal : (s : State) (a : Action) → IsFinal s → transitions s a ≡ none
unfolding transitions
transitions-IsFinal s a h = ground arith

-- A rejected, withdrawn, escalated or closed negotiation refuses every action of the enum up to
-- round ten.
pub transition-IsFinal :
    (s : State)
    → IsFinal s
    → (a : Action) (round : ℕ) → round ≤ 10
    → transition s (member a) round ≡ invalid_transition s a
unfolding transition
transition-IsFinal s f a round h = ground (arith, transitions-IsFinal s a f)

-- Every state is final, or has an action that moves it up to round ten.
pub transition_progress :
    (s : State) (round : ℕ)
    → round ≤ 10
    → IsFinal s ⊎ ((a : Action) × (t : State) × (transition s (member a) round ≡ moved t))
unfolding transition
transition_progress idle n h = inr (place_offer, offer_pending, ground arith)
transition_progress offer_pending n h = inr (accept, accepted, ground arith)
transition_progress counter_pending n h = inr (accept, accepted, ground arith)
transition_progress accepted n h = inr (generate_contract, contract_phase, ground arith)
transition_progress contract_phase n h = inr (schedule_inspection, inspection, ground arith)
transition_progress inspection n h = inr (clear, closing, ground arith)
transition_progress closing n h = inr (funds_transferred, closed, ground arith)
transition_progress _ n h = inl (ground arith)

-- A sequence of actions from a state, each accepted.
unfoldable pub run : State → List Action → Option State
run s [] = some s
run s (a ∷ actions) = elim (transitions s a) [ none ↦ none | some t ↦ run t actions ]

run-closed : (actions : List Action) → run closed actions ≡ some closed → actions ≡ []
unfolding run transitions
run-closed [] e = refl
run-closed (a ∷ actions) e = ground arith

run-closing :
    (actions : List Action) → run closing actions ≡ some closed → actions ≡ funds_transferred ∷ []
unfolding run transitions
run-closing [] e = ground arith
run-closing (a ∷ actions) e = ground (arith, run-closed actions)

run-inspection :
    (actions : List Action)
    → run inspection actions ≡ some closed
    → actions ≡ clear ∷ funds_transferred ∷ []
unfolding run transitions
run-inspection [] e = ground arith
run-inspection (a ∷ actions) e = ground (arith, run-closing actions)

run-contract_phase :
    (actions : List Action)
    → run contract_phase actions ≡ some closed
    → actions ≡ schedule_inspection ∷ clear ∷ funds_transferred ∷ []
unfolding run transitions
run-contract_phase [] e = ground arith
run-contract_phase (a ∷ actions) e = ground (arith, run-inspection actions)

-- What follows an acceptance on the way to a closed deal.
abbrev pub settlement : List Action
settlement = generate_contract ∷ schedule_inspection ∷ clear ∷ funds_transferred ∷ []

run-accepted : (actions : List Action) → run accepted actions ≡ some closed → actions ≡ settlement
unfolding run transitions
run-accepted [] e = ground arith
run-accepted (a ∷ actions) e = ground (arith, run-contract_phase actions)

abbrev pub IsPricing : Action → Type 0
IsPricing a = (a ≡ place_offer) ⊎ (a ≡ counter)

-- The pricing moves, and then the acceptance with the settlement.
abbrev pub IsClosingPath : List Action → Type 0
IsClosingPath actions =
    (offers : List Action) × All IsPricing offers × (actions ≡ offers ++ (accept ∷ settlement))

longer :
    (a : Action) (actions : List Action)
    → IsPricing a
    → IsClosingPath actions
    → IsClosingPath (a ∷ actions)
longer a actions p (offers, ps, e) = (a ∷ offers, (p, ps), ap (◌∷◌ a) e)

dead :
    (actions : List Action) (s : State)
    → (s ≡ rejected) ⊎ (s ≡ withdrawn)
    → run s actions ≢ some closed
unfolding run transitions
dead [] s f e = ground arith
dead (a ∷ actions) s f e = ground arith

after_accept :
    (actions : List Action) → run accepted actions ≡ some closed → IsClosingPath (accept ∷ actions)
after_accept actions e = ([], tt, ap (◌∷◌ accept) (run-accepted actions e))

-- The states in which prices are still on the table.
pub data IsOpen : State → Type 0 where
  fresh : IsOpen idle
  offered : IsOpen offer_pending
  countered : IsOpen counter_pending

run-IsOpen :
    {s : State}
    → IsOpen s
    → (actions : List Action) → run s actions ≡ some closed
    → IsClosingPath actions
unfolding run transitions
run-IsOpen fresh [] e = ground arith
run-IsOpen offered [] e = ground arith
run-IsOpen countered [] e = ground arith
run-IsOpen fresh (place_offer ∷ actions) e =
    longer place_offer actions (inl refl) (run-IsOpen offered actions e)
run-IsOpen offered (accept ∷ actions) e = after_accept actions e
run-IsOpen offered (reject ∷ actions) e = absurd (dead actions rejected (inl refl) e)
run-IsOpen offered (counter ∷ actions) e =
    longer counter actions (inr refl) (run-IsOpen countered actions e)
run-IsOpen countered (accept ∷ actions) e = after_accept actions e
run-IsOpen countered (counter ∷ actions) e =
    longer counter actions (inr refl) (run-IsOpen offered actions e)
run-IsOpen countered (withdraw ∷ actions) e = absurd (dead actions withdrawn (inr refl) e)
run-IsOpen _ (a ∷ actions) e = absurd (cc)

-- A negotiation that reaches `closed` from `idle` saw some offers and counters, then an acceptance,
-- the contract, the inspection, its clearing and the funds, in this order, and nothing else.
pub run-IsClosingPath :
    (actions : List Action) → run idle actions ≡ some closed → IsClosingPath actions
run-IsClosingPath actions e = run-IsOpen fresh actions e

-- While prices are on the table, the action that `resolve_offer_action` names for the state is
-- accepted up to round ten, and prices stay on the table.
pub resolve_offer_action-IsOpen :
    {s : State} (round : ℕ)
    → IsOpen s
    → round ≤ 10
    → (a : Action) × (t : State) × (resolve_offer_action (member s) ≡ some a)
      × (transition s (member a) round ≡ moved t)
      × IsOpen t
unfolding resolve_offer_action transition
resolve_offer_action-IsOpen round fresh h =
    (place_offer, offer_pending, refl, ground arith, offered)
resolve_offer_action-IsOpen round offered h =
    (counter, counter_pending, refl, ground arith, countered)
resolve_offer_action-IsOpen round countered h =
    (counter, offer_pending, refl, ground arith, offered)

-- A state has a deadline, at least two days after it was entered, unless it is final, `idle` or
-- `accepted`, which have none.
pub get_deadline_cases :
    (s : State) (entered : ℕ)
    → ((get_deadline s entered ≡ none) × (IsFinal s ⊎ (s ≡ idle) ⊎ (s ≡ accepted)))
      ⊎ ((due : ℕ) × (get_deadline s entered ≡ some due)
          × (entered + 48 ≤ due)
          × (¬ (IsFinal s ⊎ (s ≡ idle) ⊎ (s ≡ accepted))))
unfolding get_deadline
get_deadline_cases offer_pending n = inr (n + 48, refl, omega arith, ground arith)
get_deadline_cases counter_pending n = inr (n + 48, refl, omega arith, ground arith)
get_deadline_cases contract_phase n = inr (n + 72, refl, omega arith, ground arith)
get_deadline_cases inspection n = inr (n + 240, refl, omega arith, ground arith)
get_deadline_cases closing n = inr (n + 720, refl, omega arith, ground arith)
get_deadline_cases _ n = inl (refl, ground arith)
