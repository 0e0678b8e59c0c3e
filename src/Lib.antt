-- ===== src/Lib.antt =====
-- The decision core of a real-estate market simulation and portfolio advisor.
--
-- The program has layers. Actors (households, users) are projected to signals; signals and market
-- readings become reaction events; an engine folds the events of an actor into a reaction vector;
-- policies read the vector and the market and recommend; a runtime ranks what they recommend. The
-- holding decision runs these layers for one property of a portfolio. Outcome metrics are projected
-- from offers, dates and vectors, and reports and replays are composed from all of them.
--
-- Float is the arithmetic of Python's `float`, as a record of operations that every definition
-- takes; Float/Order holds the laws of comparison, literals and rounding that the theorems on bounds
-- and orders rely on, NaN being no number; Float/Fixed is an instance for evaluation. Nothing is assumed of sums, products and quotients.
-- Common has the lists, the insertion-ordered dictionary (Common/Dict) and the stable sort
-- (Common/Sort) of Python, and text functions.
-- Market: domain/market/models.py and events.py (the snapshot of the market).
-- Actors: domain/actors/profiles.py (`household_signal_snapshot`, `infer_actor_type`,
-- `user_profile_signals`, `cohort_signals`).
-- Reactions: domain/reactions/models.py; Reactions/Engine and Reactions/Narratives:
-- domain/reactions/engine.py (`ReactionEngine`, `extract_narratives`); Reactions/Derive:
-- domain/reactions/derive.py. The engine is a record of its threshold and its dictionary of vectors;
-- `apply` gives the engine afterwards.
-- Decisions/Negotiation: domain/decisions/negotiation.py (`transition`, `resolve_offer_action`,
-- `NegotiationTimer`), with Decisions/Negotiation/Analysis for `build_negotiation_analysis`;
-- Decisions/Runtime: domain/decisions/runtime.py; Decisions/Policies: domain/decisions/policies.py.
-- Reactions/Topics: domain/reactions/social_dynamics.py; Reactions/Social with its children
-- Stances and Sentiment: domain/reactions/runtime.py (`SocialReactionRuntime`). Events: domain/events.py.
-- Depreciation: intelligence/depreciation_jp.py, with `ConstructionType` of db/models.py.
-- Holding: services/holding_decision.py (`compute_holding_decision_preloaded` and its helpers).
-- Portfolio: services/portfolio_summary.py (Metrics, Tables for what is loaded, Summary for the loop
-- and the report), which composes the snapshots of Store/MarketState and the decision of Holding for
-- every holding; Projection and Simulation (services/strategy_runner.py) project such a summary with
-- the schedules of Depreciation, and Unified (services/unified_report.py) compares the two. Runner
-- (`execute_strategy_run`) chains them as a run, whose record goes to the store of runs and whose
-- audit events go to Store/EventStore; what the database raises is part of its input.
-- Japan: services/money_jp.py (Money) and services/address_jp.py (Ordinals, Address): amounts in yen
-- and their text, the numerals of blocks, and the tables of prefectures and wards.
-- Store: the services over database tables, a table being the list of its rows: Store/EventStore
-- (services/event_store.py), Store/SignalWriter (services/signal_writer.py), Store/MarketState
-- (services/market_state.py, with the queries in Latest and the snapshots in Compose and Build) and
-- Store/UserResolve (services/user_resolve.py). Common/Json is the value of a JSON column.
-- Outcomes: domain/outcomes (the builders); Reports and Reports/Replay: domain/reports.
--
-- Every loop is structural recursion on a list or a count, so that there is no fuel. A `ValueError`,
-- `KeyError` or `TypeError` is a constructor of the result; a policy that raises is a value of its
-- own, which the runtime reads.
-- Counts and rounds are natural numbers: a negative count has no model.
--
-- Not modelled: database sessions, commits and generated ids, HTTP, caches and logging (I/O of third-party
-- packages), the calls of language models, `vector_distance` (a square root),
-- `select_active_households` (a random source), and the formats of floats in texts, which are
-- operations of the float record.
pub mod Common
pub mod Float
pub mod Decisions
pub mod Reactions
pub mod Market
pub mod Events
pub mod Depreciation
pub mod Actors
pub mod Holding
pub mod Outcomes
pub mod Reports
pub mod Store
pub mod Portfolio
pub mod Japan
