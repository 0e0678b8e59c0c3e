-- ===== src/Portfolio/Runner.antt =====
-- services/strategy_runner.py: `execute_strategy_run` and `start_strategy_run` with the store of runs
-- and the audit events. The publisher of a step changes no state, and its failures are swallowed, so
-- that it has no place here. `clock n` is the time of the n-th step and of what follows it.
pub mod Terminal
use real_estate_agent.Common.Show.{show_nat}
use real_estate_agent.Float.{Float}
use real_estate_agent.Common.Dict.{Key, string_key, Dict, get, assign}
use real_estate_agent.Common.{
  ℕ, String, Bool, not, Option, none, some, List, [], ◌∷◌, ◌++◌, if◌then◌else◌, length,
}
use real_estate_agent.Portfolio.Projection.{StrategyProfile}
use real_estate_agent.Portfolio.Summary.{SummaryReport}
use real_estate_agent.Portfolio.Simulation.{project_simulation, SimulationReport}
use real_estate_agent.Portfolio.Unified.{reconcile_unified_report, UnifiedReport}
use real_estate_agent.Store.EventStore.{append, DomainEvent, NewEvent}
use Prim.Native.String.{◌++◌ as ◌⊕◌}

pub record StrategyRunStep : Type 0 where
  pub type : String
  pub label : String
  pub detail : Option String
  pub at : ℕ

pub record StrategyRunRecord {ℓ} (F : Type ℓ) : Type ℓ where
  pub run_id : String
  pub portfolio_id : String
  pub status : String
  pub profile : StrategyProfile F
  pub analysis : Option (SummaryReport F)
  pub simulation : Option (SimulationReport F)
  pub unified : Option (UnifiedReport F)
  pub error : Option String
  pub started_at : ℕ
  pub completed_at : Option ℕ
  pub steps : List StrategyRunStep

-- The payloads of the audit events.
pub data RunPayload {ℓ} (F : Type ℓ) : Type ℓ where
  portfolio : String → RunPayload F
  error : String → RunPayload F
  outcome : Bool → F → ℕ → RunPayload F

-- A call into the database: its result, or the text of the exception.
pub data Attempt {ℓ} (A : Type ℓ) : Type ℓ where
  returned : A → Attempt A
  raised : String → Attempt A

-- The arguments of a run and what the database does: whether the first audit event is committed, the
-- summary that is built, whether the last audit event of the run is committed, and whether the one
-- after a rollback is.
pub record RunInput {ℓ} (F : Type ℓ) : Type ℓ where
  pub run_id : String
  pub portfolio_id : String
  pub profile : StrategyProfile F
  pub correlation_id : Option String
  pub clock : ℕ → ℕ
  pub commit_start : Attempt (Unit {0})
  pub summary : Attempt (Option (SummaryReport F))
  pub commit : Attempt (Unit {0})
  pub commit_failure : Bool

-- The in-memory store of runs and the table of events.
pub record World {ℓ} (F : Type ℓ) : Type ℓ where
  pub runs : Dict String (StrategyRunRecord F)
  pub events : List (DomainEvent (RunPayload F))

-- The steps of `_emit_step`.
unfoldable pub emit_step :
    (ℕ → ℕ) → List StrategyRunStep → String → String → Option String → List StrategyRunStep
emit_step clock steps event_type label detail =
    steps
    ++ record { type = event_type; label = label; detail = detail; at = clock (length steps) } ∷ []

module _ {ℓ} {F : Type ℓ} where
  -- `_set`
  unfoldable pub set_run : StrategyRunRecord F → World F → World F
  unfolding assign
  set_run r w = record w { runs = assign w.runs r.run_id r }

  unfoldable pub get_strategy_run : World F → String → Option (StrategyRunRecord F)
  unfolding get
  get_strategy_run w run_id = get w.runs run_id

  unfoldable pub make_pending : String → String → StrategyProfile F → ℕ → StrategyRunRecord F
  make_pending run_id portfolio_id profile now = record {
    run_id = run_id;
    portfolio_id = portfolio_id;
    status = "pending";
    profile = profile;
    analysis = none;
    simulation = none;
    unified = none;
    error = none;
    started_at = now;
    completed_at = none;
    steps = [];
  }

  -- An audit event of the run.
  unfoldable pub audit : RunInput F → String → RunPayload F → ℕ → World F → World F
  unfolding append
  audit i event_type payload now w = record w {
    events =
        (append w.events (record {
          event_type = event_type;
          aggregate_type = "strategy_run";
          aggregate_id = i.run_id;
          payload = payload;
          actor_type = some "investor";
          actor_id = none;
          correlation_id = i.correlation_id;
          now = now;
        })).1;
  }

  abbrev pub or_pending : RunInput F → Option (StrategyRunRecord F) → StrategyRunRecord F
  or_pending i none = make_pending i.run_id i.portfolio_id i.profile (i.clock 0)
  or_pending i (some r) = r

  unfoldable pub failed_record :
      RunInput F → StrategyRunRecord F → List StrategyRunStep → String → StrategyRunRecord F
  failed_record i running steps text = record running {
    status = "failed";
    error = some text;
    completed_at = some (i.clock (length steps));
    steps = steps;
  }

  -- The `except` branch: the failure is stored, and audited if the database lets it.
  unfoldable pub fail_with :
      RunInput F
      → StrategyRunRecord F
      → List StrategyRunStep
      → World F
      → String
      → StrategyRunRecord F × World F
  unfolding emit_step set_run audit failed_record
  fail_with i running steps w text =
      let traced = emit_step i.clock steps "run.failed" "Run failed" (some text) in
      let failed = failed_record i running traced text in
      let stored = set_run failed w in
      (
        failed,
        if i.commit_failure
            then audit i "strategy.run_failed" (error text) (i.clock (length traced)) stored
            else stored,
      )

  -- The last audit event, or the `except` branch when it cannot be committed.
  unfoldable pub finish :
      RunInput F
      → StrategyRunRecord F
      → StrategyRunRecord F
      → String
      → RunPayload F
      → World F
      → Attempt (Unit {0})
      → StrategyRunRecord F × World F
  unfolding set_run audit fail_with
  finish i running final event_type payload w (returned _) =
      (final, audit i event_type payload (i.clock (length final.steps)) (set_run final w))
  finish i running final event_type payload w (raised text) =
      fail_with i running final.steps (set_run final w) text

  unfoldable pub running_record : RunInput F → World F → StrategyRunRecord F
  unfolding emit_step get_strategy_run make_pending
  running_record i w =
      let found = or_pending i (get_strategy_run w i.run_id) in
      record found {
        status = "running";
        steps =
            emit_step i.clock found.steps "run.started" "Run started"
              (some ("Portfolio " ⊕ i.portfolio_id));
      }

  -- The running record, stored and audited.
  unfoldable pub started : RunInput F → World F → StrategyRunRecord F × World F
  unfolding running_record set_run audit
  started i w =
      let running = running_record i w in
      (
        running,
        audit i "strategy.run_started" (portfolio i.portfolio_id) (i.clock (length running.steps))
            (set_run running w),
      )

module _ {ℓ} {F : Type ℓ} ⦃d : Float F⦄ where
  unfoldable pub simulated :
      RunInput F
      → StrategyRunRecord F
      → List StrategyRunStep
      → World F
      → SummaryReport F
      → Option (SimulationReport F)
      → StrategyRunRecord F × World F
  unfolding emit_step set_run finish fail_with reconcile_unified_report show_nat
  simulated i running steps w analysis none =
      fail_with i running steps w "marginal_tax_rate must be in [0, 1]"
  simulated i running steps w analysis (some simulation) =
      let projected = emit_step i.clock steps "step.simulation_projected" "Simulation projected" (
        some (
          show_nat simulation.horizon_years
          ⊕ ("y horizon, " ⊕ (show_nat (length simulation.per_holding) ⊕ " holding(s)")))) in
      let shown =
        set_run
          (record running {
            analysis = some analysis;
            simulation = some simulation;
            steps = projected;
          })
          w in
      let unified = reconcile_unified_report analysis simulation i.profile in
      let reconciled =
        emit_step i.clock projected "step.unified_reconciled" "Unified report reconciled"
          (some (show_nat (length unified.reconciliations) ⊕ " reconciliation row(s)")) in
      let done = emit_step i.clock reconciled "run.completed" "Run completed" none in
      let completed = record running {
        status = "completed";
        analysis = some analysis;
        simulation = some simulation;
        unified = some unified;
        completed_at = some (i.clock (length done));
        steps = done;
      } in
      finish i running completed "strategy.run_completed"
        (outcome unified.survives unified.confidence analysis.holding_count) shown i.commit

  -- The body of the `try`, from the summary on.
  unfoldable pub analyzed :
      RunInput F
      → StrategyRunRecord F
      → List StrategyRunStep
      → World F
      → Attempt (Option (SummaryReport F))
      → StrategyRunRecord F × World F
  unfolding emit_step set_run finish fail_with failed_record simulated project_simulation show_nat
  analyzed i running steps w (raised text) = fail_with i running steps w text
  analyzed i running steps w (returned none) =
      let missing =
        emit_step i.clock steps "run.failed" "Portfolio not found" (some i.portfolio_id) in
      finish i running (failed_record i running missing "portfolio_not_found") "strategy.run_failed"
        (error "portfolio_not_found") w i.commit
  analyzed i running steps w (returned (some analysis)) =
      let built =
        emit_step i.clock steps "step.analysis_built" "Analysis built"
          (some (show_nat analysis.holding_count ⊕ " holding(s)")) in
      simulated i running built
        (set_run (record running { analysis = some analysis; steps = built }) w) analysis
        (project_simulation analysis i.profile)

  -- The first audit event is written before the `try`: when it cannot be committed, the exception
  -- leaves the function, and the running record stays in the store.
  unfoldable pub opened :
      RunInput F → World F → Attempt (Unit {0}) → Attempt (StrategyRunRecord F) × World F
  unfolding running_record set_run started analyzed
  opened i w (raised text) = (raised text, set_run (running_record i w) w)
  opened i w (returned _) =
      let begun = started i w in
      let ended = analyzed i begun.0 begun.0.steps begun.1 i.summary in (returned ended.0, ended.1)

  unfoldable pub execute_strategy_run :
      RunInput F → World F → Attempt (StrategyRunRecord F) × World F
  unfolding opened
  execute_strategy_run i w = opened i w i.commit_start

-- `start_strategy_run`; `run_id` is the generated id.
unfoldable pub start_strategy_run {ℓ} :
    {F : Type ℓ} → String → String → StrategyProfile F → ℕ → World F → StrategyRunRecord F × World F
unfolding make_pending set_run
start_strategy_run run_id portfolio_id profile now w =
    let r = make_pending run_id portfolio_id profile now in (r, set_run r w)
