-- ===== src/Portfolio/Runner/Terminal.antt =====
-- How a run ends.
use real_estate_agent.Portfolio.Simulation.{project_simulation, SimulationReport}
use real_estate_agent.Portfolio.Summary.{SummaryReport}
use real_estate_agent.Float.{Float}
use real_estate_agent.Common.Dict.{string_key, get-assign}
use real_estate_agent.Holding.{is_present}
use real_estate_agent.Store.EventStore.{DomainEvent, append}
use real_estate_agent.Portfolio.Runner.{
  portfolio, started, opened, running_record, project_simulation, SimulationReport, SummaryReport,
  raised, execute_strategy_run, error, Attempt, analyzed, simulated, Float, finish, emit_step,
  StrategyRunStep, failed_record, RunPayload, DomainEvent, set_run, append, returned, audit,
  RunInput, fail_with, StrategyRunRecord, get_strategy_run, World,
}
use real_estate_agent.Common.{
  ℕ, String, ◌≡◌, refl, sym, ap, ◌∙◌, ◌⊎◌, inl, inr, true, Option, none, some, List, [], ◌∷◌, ◌++◌,
  map, str_eq, eq_refl, if◌then◌else◌, Bool-cases, length,
}
use mathlib.Core.List.{map-append, append_assoc}
use mathlib.Core.Bool.{true≢false}

module _ {ℓ} {F : Type ℓ} where
  -- A run is over: it completed with a report, or it failed with an error.
  abbrev pub IsOver : StrategyRunRecord F → Type 0
  IsOver r =
      (is_present r.completed_at ≡ true)
      × (((r.status ≡ "completed")
            × (is_present r.unified ≡ true)
            × (is_present r.simulation ≡ true))
          ⊎ ((r.status ≡ "failed") × (is_present r.error ≡ true)))

  abbrev pub event_types : World F → List String
  event_types w = map (λ (e : DomainEvent (RunPayload F)). e.event_type) w.events

  -- The audit event that closes a run with this status.
  abbrev pub closing_event : StrategyRunRecord F → String
  closing_event r =
      if str_eq r.status "completed" then "strategy.run_completed" else "strategy.run_failed"

  -- The run is over and stored, and when the database commits, its last event is the closing one.
  abbrev Ends : RunInput F → List String → StrategyRunRecord F × World F → Type ℓ
  Ends i before (r, w) =
      IsOver r
      × (get_strategy_run w r.run_id ≡ some r)
      × (i.commit ≡ returned tt
          → i.commit_failure ≡ true
          → event_types w ≡ before ++ closing_event r ∷ [])

  get-set_run :
      (r : StrategyRunRecord F) (w : World F) → get_strategy_run (set_run r w) r.run_id ≡ some r
  unfolding get_strategy_run set_run
  get-set_run r w = get-assign w.runs r.run_id r.run_id r ∙ rw (eq_refl r.run_id) refl

  event_types-audit :
      (i : RunInput F) (type : String) (p : RunPayload F) (now : ℕ) (w : World F)
      → event_types (audit i type p now w) ≡ event_types w ++ type ∷ []
  unfolding audit append
  event_types-audit i type p now w =
      map-append (λ (e : DomainEvent (RunPayload F)). e.event_type) w.events _

  closed :
      (i : RunInput F) (r : StrategyRunRecord F) (w : World F) (type : String) (p : RunPayload F)
      (now : ℕ)
      → IsOver r
      → closing_event r ≡ type
      → Ends i (event_types w) (r, audit i type p now (set_run r w))
  closed i r w type p now over e = (
    over,
    unfold audit get_strategy_run in get-set_run r w,
    λ _ _.
        event_types-audit i type p now (set_run r w)
        ∙ ap (λ t. event_types (set_run r w) ++ t ∷ []) (sym e)
        ∙ unfold set_run in refl,
  )

  fail_with-Ends :
      (i : RunInput F) (running : StrategyRunRecord F) (steps : List StrategyRunStep) (w : World F)
      (text : String)
      → Ends i (event_types w) (fail_with i running steps w text)
  unfolding fail_with failed_record
  fail_with-Ends i running steps w text = elim (Bool-cases i.commit_failure) [
    | inl e ↦
        let (over, stored, last) =
          closed i failed w "strategy.run_failed" (error text) (i.clock (length traced))
            (refl, inr (refl, refl)) refl in
        rw e (over, stored, λ k _. last k e)
    | inr e ↦
        rw e ((refl, inr (refl, refl)), get-set_run failed w, λ _ t. absurd (true≢false (sym t)))
  ]
    where
      traced : List StrategyRunStep
      traced = emit_step i.clock steps "run.failed" "Run failed" (some text)

      failed : StrategyRunRecord F
      failed = failed_record i running traced text

  finish-Ends :
      (i : RunInput F) (running final : StrategyRunRecord F) (type : String) (p : RunPayload F)
      (w : World F)
      → IsOver final
      → closing_event final ≡ type
      → Ends i (event_types w) (finish i running final type p w i.commit)
  unfolding finish
  finish-Ends i running final type p w over e = go i.commit refl
    where
      go :
          (c : Attempt (Unit {0}))
          → i.commit ≡ c
          → Ends i (event_types w) (finish i running final type p w c)
      go (returned t) h = closed i final w type p (i.clock (length final.steps)) over e
      go (raised text) h =
          let (o, stored, last) = fail_with-Ends i running final.steps (set_run final w) text in
          (o, stored, λ k f. last k f ∙ unfold set_run in refl)

  event_types-started :
      (i : RunInput F) (w : World F)
      → event_types (started i w).1 ≡ event_types w ++ "strategy.run_started" ∷ []
  unfolding started
  event_types-started i w =
      event_types-audit i "strategy.run_started" (portfolio i.portfolio_id)
        (i.clock (length (started i w).0.steps)) (set_run (started i w).0 w)
      ∙ unfold set_run in refl

module _ {ℓ} {F : Type ℓ} ⦃d : Float F⦄ where
  simulated-Ends :
      (i : RunInput F) (running : StrategyRunRecord F) (steps : List StrategyRunStep) (w : World F)
      (analysis : SummaryReport F) (sim : Option (SimulationReport F))
      → Ends i (event_types w) (simulated i running steps w analysis sim)
  unfolding simulated set_run
  simulated-Ends i running steps w analysis none = fail_with-Ends i running steps w _
  simulated-Ends i running steps w analysis (some sim) =
      finish-Ends i running _ "strategy.run_completed" _ _ (refl, inl (refl, refl, refl)) refl

  analyzed-Ends :
      (i : RunInput F) (running : StrategyRunRecord F) (steps : List StrategyRunStep) (w : World F)
      (summary : Attempt (Option (SummaryReport F)))
      → Ends i (event_types w) (analyzed i running steps w summary)
  unfolding analyzed failed_record set_run
  analyzed-Ends i running steps w (raised text) = fail_with-Ends i running steps w text
  analyzed-Ends i running steps w (returned none) =
      finish-Ends i running _ "strategy.run_failed" _ _ (refl, inr (refl, refl)) refl
  analyzed-Ends i running steps w (returned (some analysis)) =
      simulated-Ends i running _ _ analysis (project_simulation analysis i.profile)

  -- What became of a run: its first audit event was committed, and the record that is returned is
  -- over and stored; or it could not be, the exception is raised, and the store has a running record.
  abbrev pub Settles : RunInput F → Attempt (StrategyRunRecord F) → World F → Type ℓ
  Settles i result w =
      ((r : StrategyRunRecord F) × (i.commit_start ≡ returned tt)
        × (result ≡ returned r)
        × IsOver r
        × (get_strategy_run w r.run_id ≡ some r))
      ⊎ ((text : String) × (r : StrategyRunRecord F) × (i.commit_start ≡ raised text)
          × (result ≡ raised text)
          × (r.status ≡ "running")
          × (get_strategy_run w r.run_id ≡ some r))

  -- When the first audit event of a run is committed, the run ends, whatever the database does from
  -- then on: the record that is returned is completed with a simulation and a report, or failed with
  -- an error, and it is the one that the store then holds. When that event cannot be committed, the
  -- exception is raised, and the store holds a record that is still running.
  pub execute_strategy_run-IsOver :
      (i : RunInput F) (w : World F)
      → Settles i (execute_strategy_run i w).0 (execute_strategy_run i w).1
  unfolding execute_strategy_run opened running_record
  execute_strategy_run-IsOver i w = go i.commit_start refl
    where
      go :
          (c : Attempt (Unit {0}))
          → i.commit_start ≡ c
          → Settles i (opened i w c).0 (opened i w c).1
      go (returned t) e =
          let begun = started i w in
          let (over, stored, _) = analyzed-Ends i begun.0 begun.0.steps begun.1 i.summary in
          inl (_, e, refl, over, stored)
      go (raised text) e = inr (text, running_record i w, e, refl, refl, get-set_run _ w)

  -- When the database commits, a run returns a record and appends exactly two audit events, that it
  -- started and that it completed or failed, whichever is the status of that record.
  pub execute_strategy_run-closing_event :
      (i : RunInput F) (w : World F)
      → i.commit_start ≡ returned tt
      → i.commit ≡ returned tt
      → i.commit_failure ≡ true
      → (r : StrategyRunRecord F) × ((execute_strategy_run i w).0 ≡ returned r)
        × (event_types (execute_strategy_run i w).1
            ≡ event_types w ++ "strategy.run_started" ∷ closing_event r ∷ [])
  unfolding execute_strategy_run opened
  execute_strategy_run-closing_event i w s c f =
      let begun = started i w in
      let ended = analyzed i begun.0 begun.0.steps begun.1 i.summary in
      let (_, _, last) = analyzed-Ends i begun.0 begun.0.steps begun.1 i.summary in
      rw s (
        ended.0,
        refl,
        last c f
            ∙ ap (λ types. types ++ closing_event ended.0 ∷ []) (event_types-started i w)
            ∙ append_assoc (event_types w) ("strategy.run_started" ∷ [])
                (closing_event ended.0 ∷ []),
      )
