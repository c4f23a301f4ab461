-- ===== src/Runtime/Loop.antt =====
-- `AgentRuntime.execute` and its helpers. The planner, the validator, the cancel event and the clock
-- are injected in the source, and are functions here. Each is asked at most once in a step, so a
-- function of the state, whose step counts up, stands for any behaviour of theirs in one run.
use aicybersec.Common.{
  ℕ, zero, suc, ◌+◌, Bool, true, false, Option, none, some, List, [], ◌∷◌, ◌++◌, length, Result, ok,
  err, Exn, assertion_error, if◌then◌else◌, leb, is_some,
}
use aicybersec.Common.Text.{Text}
use aicybersec.Safety.Params.{Params}
use aicybersec.Safety.Results.{Finding, ToolStatus, ToolResult, Context}
use aicybersec.Safety.Tools.{Tool, Decision, tool_call, finish}
use aicybersec.Safety.Policy.{Policy}
use aicybersec.Safety.Validator.{Reason, ValidationOutcome}
use aicybersec.Runtime.Data.{
  RunStatus, running, finished, failed, cancelled, Source, Cause, refused, unexplained, raised,
  Observation, StepRecord, RunError, max_steps_reached, planner_error, AgentState, Event,
  run_started, step_started, decision_proposed, decision_rejected, tool_started, tool_finished,
  finding_recorded, run_finished, run_failed, validated_view, Entry, Call, Run,
}

pub record Env : Type 0 where
  -- None stands for an exception.
  pub decide : AgentState → Option Decision
  pub validate : Decision → AgentState → Result Exn ValidationOutcome
  pub policy : Policy
  pub cancel : AgentState → Bool
  pub now : AgentState → ℕ

-- How `execute` ends.
pub data Exit : Type 0 where
  returned : Exit
  raised_out : Exn → Exit

-- What follows a round of the loop.
pub data Next : Type 0 where
  again : Next
  stop : Exit → Next

-- `_emit`
unfoldable pub emit : Event → Run → Run
emit e r = record r { events = r.events ++ e ∷ [] }

-- The event of `_STEP_RESULTS[status]`.
abbrev pub final_event : AgentState → Event
final_event s = elim s.status [
  | failed ↦ run_failed s.step (length s.findings) s.error
  | other ↦ run_finished s.step other (length s.findings)
]

-- `_finish`
unfoldable pub finish_run : Env → RunStatus → Option RunError → Run → Run
finish_run env status error r =
    let s = record r.state {
      status = status;
      completed_at = some (env.now r.state);
      error = error;
    } in
    emit (final_event s) (record r { state = s; saved = some s })

-- `Observation.for_rejection`
abbrev pub for_rejection : ℕ → Decision → Cause → Observation
for_rejection step d cause = record {
  step = step;
  source = Source.rejected;
  tool = elim d [ tool_call name params reasoning ↦ some name | finish summary ↦ none ];
  ok = false;
  payload = [];
  findings = [];
  reason = some cause;
}

abbrev is_ok : ToolStatus → Bool
is_ok ToolStatus.ok = true
is_ok _ = false

-- `Observation.from_tool_result`
abbrev from_tool_result : ℕ → Text → ToolResult → Observation
from_tool_result step name result = record {
  step = step;
  source = Source.tool;
  tool = some name;
  ok = is_ok result.status;
  payload = result.payload;
  findings = result.findings;
  reason = none;
}

abbrev for_error : ℕ → Text → Observation
for_error step name = record {
  step = step;
  source = Source.error;
  tool = some name;
  ok = false;
  payload = [];
  findings = [];
  reason = some raised;
}

abbrev pub context_of : Env → AgentState → Context
context_of env s = record {
  run_id = s.run_id;
  allowed_targets = env.policy.allowed_targets;
  timeout_s = env.policy.timeout_s;
}

abbrev pub status_of : Option ToolResult → ToolStatus
status_of none = ToolStatus.error
status_of (some result) = result.status

abbrev pub observe : ℕ → Text → Option ToolResult → Observation
observe step name none = for_error step name
observe step name (some result) = from_tool_result step name result

-- `_execute_tool`
unfoldable pub execute_tool : Env → Tool → Option Params → Run → Run × Observation
execute_tool env tool params r =
    let step = r.state.step in
    let ctx = context_of env r.state in
    let result = tool.execute step params ctx in
    let call : Call = record { step = step; tool = tool; params = params; context = ctx } in
    let started = emit (tool_started step tool.name) r in
    let called = record started { calls = started.calls ++ call ∷ [] } in
    (emit (tool_finished step tool.name (status_of result)) called, observe step tool.name result)

-- The loop over `obs.findings`.
unfoldable pub add_findings : List Finding → Run → Run
add_findings [] r = r
add_findings (f ∷ fs) r =
    let s = r.state in
    add_findings fs (
      emit (finding_recorded s.step f)
        (record r { state = record s { findings = s.findings ++ f ∷ [] } }))

abbrev add_observation : Option Observation → Run → Run
add_observation none r = r
add_observation (some obs) r =
    let s = r.state in
    add_findings obs.findings
      (record r { state = record s { observations = s.observations ++ obs ∷ [] } })

abbrev observed_tool : Option Observation → Option Text
observed_tool none = none
observed_tool (some obs) = obs.tool

-- From `step_record.observation = obs` to the trajectory entry.
unfoldable pub record_step : Decision → Option Cause → Option Observation → Run → Run
record_step d cause obs r =
    let s = r.state in
    let rejected = is_some cause in
    let step_record : StepRecord = record {
      step = s.step;
      decision = d;
      observation = obs;
      rejected = rejected;
      rejection_reason = cause;
    } in
    let r1 = record r { state = record s { steps = s.steps ++ step_record ∷ [] } } in
    let r2 = add_observation obs r1 in
    let entry : Entry = record {
      step = s.step;
      decision_raw = d;
      decision_validated = validated_view d;
      rejected = rejected;
      rejection_reason = cause;
      tool = observed_tool obs;
      observation = obs;
    } in
    record r2 { saved = some r2.state; trajectory = r2.trajectory ++ entry ∷ [] }

abbrev pub cause_of : Option Reason → Cause
cause_of none = unexplained
cause_of (some reason) = refused reason

-- A rejected decision becomes an observation.
unfoldable pub reject : Decision → Cause → Run → Run
reject d cause r =
    record_step d (some cause) (some (for_rejection r.state.step d cause))
      (emit (decision_rejected r.state.step cause) r)

-- An accepted tool call. The source asserts that the outcome has a tool.
unfoldable pub call_tool : Env → Decision → Option Tool → Option Params → Run → Run × Next
call_tool env d none params r = (r, stop (raised_out assertion_error))
call_tool env d (some tool) params r =
    let (r1, obs) = execute_tool env tool params r in (record_step d none (some obs) r1, again)

-- The branches after validation, with the Finish at the end of the round.
unfoldable pub act : Env → Decision → ValidationOutcome → Run → Run × Next
act env d o r =
    if o.accepted
    then (elim d [
      | finish summary ↦
          (finish_run env finished none (record_step (finish summary) none none r), stop returned)
      | tool_call name params reasoning ↦
          call_tool env (tool_call name params reasoning) o.tool o.validated_params r
    ])
    else (reject d (cause_of o.reason) r, again)

unfoldable pub validated : Env → Decision → Run → Run × Next
validated env d r = elim (env.validate d r.state) [
  | err x ↦ (r, stop (raised_out x))
  | ok o ↦ act env d o r
]

-- `state.step += 1` and what follows.
unfoldable pub decide_step : Env → Run → Run × Next
decide_step env r =
    let s = record r.state { step = r.state.step + 1 } in
    let r1 = emit (step_started s.step) (record r { state = s }) in
    elim (env.decide s) [
      | none ↦ (finish_run env failed (some planner_error) r1, stop returned)
      | some d ↦ validated env d (emit (decision_proposed s.step d) r1)
    ]

-- One round of the `while`.
unfoldable pub round : Env → Run → Run × Next
round env r =
    if env.cancel r.state
    then (finish_run env cancelled none r, stop returned)
    else if leb r.state.max_steps r.state.step
    then (finish_run env failed (some max_steps_reached) r, stop returned)
    else decide_step env r

abbrev pub is_running : RunStatus → Bool
is_running running = true
is_running _ = false

-- The `while`, on fuel; None means that the fuel ran out.
unfoldable pub loop : Env → ℕ → Run → Option (Run × Exit)
loop env zero r = none
loop env (suc fuel) r =
    if is_running r.state.status
    then (elim (round env r).1 [
      | again ↦ loop env fuel (round env r).0
      | stop exit ↦ some ((round env r).0, exit)
    ])
    else some (r, returned)

-- `execute`
unfoldable pub execute : Env → ℕ → Run → Option (Run × Exit)
execute env fuel r = loop env fuel (emit (run_started r.state.step) r)

-- `new_state`, which saves the state that it makes.
abbrev pub new_run : Env → Text → Text → Run
new_run env goal run_id =
    let s : AgentState = record {
      run_id = run_id;
      goal = goal;
      status = running;
      step = 0;
      max_steps = env.policy.max_steps;
      observations = [];
      findings = [];
      steps = [];
      completed_at = none;
      error = none;
    } in
    record { state = s; events = []; saved = some s; trajectory = []; calls = [] }
