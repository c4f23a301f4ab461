-- ===== src/Runtime/Invariant.antt =====
-- What every round of the loop of agent_core/runtime/agent.py keeps.
use aicybersec.Common.{
  ◌⊎◌, Bool, true, false, ℕ, suc, ◌≤◌, ◌≡◌, refl, ap, sym, ◌∙◌, Option, none, some, List, [], ◌∷◌,
  ◌++◌, length, All, arith, ok,
}
use aicybersec.Runtime.Data.{
  RunStatus, cancelled, AgentState, running, Observation, RunError, Event, Cause, Call, Run,
}
use mathlib.Core.List.{append-nil}
use aicybersec.Common.Text.{Text}
use aicybersec.Safety.Tools.{Decision, finish}
use aicybersec.Safety.Validator.{ValidationOutcome}
use aicybersec.Runtime.Loop.{
  Env, returned, raised_out, Next, again, stop, emit, finish_run, record_step, is_running,
  final_event,
}
use aicybersec.Runtime.Steps.{
  is_final, finals, finals-append, collected, collected-append, observed, given,
  record_step-Recorded,
}

-- The call was accepted by the validator, for this tool and these params, and the tool was told the
-- targets of the policy.
pub record IsJustified (env : Env) (c : Call) : Type 0 where
  pub decision : Decision
  pub state : AgentState
  pub outcome : ValidationOutcome
  pub asked : env.validate decision state ≡ ok outcome
  pub is_call : ¬ ((summary : Text) × (decision ≡ finish summary))
  pub accepted : outcome.accepted ≡ true
  pub tool : outcome.tool ≡ some c.tool
  pub params : outcome.validated_params ≡ c.params
  pub context : c.context.allowed_targets ≡ env.policy.allowed_targets

-- `k` is the number of steps that are complete.
pub record Core (env : Env) (k : ℕ) (r : Run) : Type 0 where
  pub bound : r.state.step ≤ r.state.max_steps
  pub limit : r.state.max_steps ≡ env.policy.max_steps
  pub justified : All (IsJustified env) r.calls
  pub calls : length r.calls ≤ k
  pub steps : length r.state.steps ≤ k
  pub trajectory : length r.trajectory ≡ length r.state.steps
  pub observations : r.state.observations ≡ observed r.state.steps
  pub findings : r.state.findings ≡ collected r.state.observations

-- The top of the loop.
pub record Ready (env : Env) (r : Run) : Type 0 where
  pub core : Core env r.state.step r
  pub status : r.state.status ≡ running
  pub saved : r.saved ≡ some r.state
  pub no_final : finals r.events ≡ 0

abbrev pub was_cancelled : RunStatus → Bool
was_cancelled cancelled = true
was_cancelled _ = false

-- A run is cancelled only where the cancel event was found set.
abbrev pub IsCaused : Env → RunStatus → Type 0
IsCaused env status = (was_cancelled status ≡ false) ⊎ ((s : AgentState) × (env.cancel s ≡ true))

-- A run that has ended: its last event is the only one that ends a run, and what was saved last is
-- its state.
pub record Done (env : Env) (r : Run) : Type 0 where
  pub core : Core env r.state.step r
  pub status : is_running r.state.status ≡ false
  pub saved : r.saved ≡ some r.state
  pub before : List Event
  pub last : Event
  pub events : r.events ≡ before ++ last ∷ []
  pub no_final : finals before ≡ 0
  pub final : is_final last ≡ 1
  pub cause : IsCaused env r.state.status

-- What holds after a round that began at step `n`.
abbrev pub After : Env → ℕ → Run × Next → Type 0
After env n (r, again) = Ready env r × (r.state.step ≡ suc n) × (suc n ≤ r.state.max_steps)
After env n (r, stop returned) = Done env r
After env n (r, stop (raised_out x)) = Core env r.state.step r × (finals r.events ≡ 0)

pub Core-weaken : {env : Env} {r : Run} (k n : ℕ) → k ≤ n → Core env k r → Core env n r
Core-weaken k n h c = record {
  bound = c.bound;
  limit = c.limit;
  justified = c.justified;
  calls = omega (arith, c.calls);
  steps = omega (arith, c.steps);
  trajectory = c.trajectory;
  observations = c.observations;
  findings = c.findings;
}

is_final-final_event : (s : AgentState) → is_final (final_event s) ≡ 1
is_final-final_event s = ground arith

finished_state : Env → RunStatus → Option RunError → Run → AgentState
finished_state env status error r = record r.state {
  status = status;
  completed_at = some (env.now r.state);
  error = error;
}

pub finish_run-Done :
    (env : Env) (status : RunStatus) (error : Option RunError) (r : Run)
    → is_running status ≡ false
    → IsCaused env status
    → Core env r.state.step r
    → finals r.events ≡ 0
    → Done env (finish_run env status error r)
unfolding finish_run emit finished_state
finish_run-Done env status error r n x c f = record {
  cause = x;
  core = record {
    bound = c.bound;
    limit = c.limit;
    justified = c.justified;
    calls = c.calls;
    steps = c.steps;
    trajectory = c.trajectory;
    observations = c.observations;
    findings = c.findings;
  };
  status = n;
  saved = refl;
  before = r.events;
  last = _;
  events = refl;
  no_final = f;
  final = is_final-final_event (finished_state env status error r);
}

collected-given :
    (os : List Observation) (obs : Option Observation)
    → collected (os ++ given obs) ≡ collected os ++ collected (given obs)
unfolding collected
collected-given os none = ap collected (append-nil os) ∙ sym (append-nil (collected os))
collected-given os (some o) =
    collected-append os o ∙ ap (λ l. collected os ++ l) (sym (append-nil o.findings))

pub record_step-Core :
    (env : Env) (d : Decision) (cause : Option Cause) (obs : Option Observation) (k : ℕ) (r : Run)
    → Core env (suc k) r
    → length r.state.steps ≤ k
    → Core env (suc k) (record_step d cause obs r)
record_step-Core env d cause obs k r c b =
    let q = record_step-Recorded d cause obs r in
    record {
      bound = rw (q.step, q.max_steps) c.bound;
      limit = q.max_steps ∙ c.limit;
      justified = rw q.calls c.justified;
      calls = rw q.calls c.calls;
      steps = omega (arith, q.steps_count);
      trajectory = omega (arith, q.steps_count, q.trajectory_count, c.trajectory);
      observations = q.observations ∙ ap (λ l. l ++ given obs) c.observations ∙ sym q.steps;
      findings =
          q.findings
          ∙ ap (λ l. l ++ collected (given obs)) c.findings
          ∙ sym (ap collected q.observations ∙ collected-given r.state.observations obs);
    }

-- An event that ends no run changes nothing of the core.
pub emit-Core : (env : Env) (e : Event) (k : ℕ) (r : Run) → Core env k r → Core env k (emit e r)
unfolding emit
emit-Core env e k r c = record {
  bound = c.bound;
  limit = c.limit;
  justified = c.justified;
  calls = c.calls;
  steps = c.steps;
  trajectory = c.trajectory;
  observations = c.observations;
  findings = c.findings;
}

pub emit-finals :
    (e : Event) (r : Run) → is_final e ≡ 0 → finals (emit e r).events ≡ finals r.events
unfolding emit finals
emit-finals e r h = omega (arith, finals-append r.events (e ∷ []))

-- The middle of a round: the step has been counted, and not yet recorded.
pub record Mid (env : Env) (k : ℕ) (r : Run) : Type 0 where
  pub core : Core env k r
  pub step : r.state.step ≡ suc k
  pub status : r.state.status ≡ running
  pub no_final : finals r.events ≡ 0

-- A recorded step brings the run back to the top of the loop.
pub record_step-After :
    (env : Env) (d : Decision) (cause : Option Cause) (obs : Option Observation) (k : ℕ) (r : Run)
    → Core env (suc k) r
    → length r.state.steps ≤ k
    → r.state.step ≡ suc k
    → r.state.status ≡ running
    → finals r.events ≡ 0
    → After env k (record_step d cause obs r, again)
record_step-After env d cause obs k r c b e s f =
    let q = record_step-Recorded d cause obs r in
    let core = record_step-Core env d cause obs k r c b in
    (
      record {
        core = Core-weaken (suc k) _ (omega (arith, q.step)) core;
        status = q.status ∙ s;
        saved = q.saved;
        no_final = q.finals ∙ f;
      },
      q.step ∙ e,
      omega (arith, q.max_steps, c.bound),
    )
