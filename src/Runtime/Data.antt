-- ===== src/Runtime/Data.antt =====
-- The state of a run (agent_core/schemas/state.py, results.py), its events (runtime/events.py) and its
-- trajectory (state/store.py). Message texts and the times of single steps are left out; an error or a
-- reason is the case that the text is made from.
use aicybersec.Common.{ℕ, Bool, Option, List}
use aicybersec.Common.Text.{Text}
use aicybersec.Safety.Params.{Params}
use aicybersec.Safety.Results.{Finding, ToolStatus, Context}
use aicybersec.Safety.Tools.{Tool, Decision, tool_call, finish}
use aicybersec.Safety.Validator.{Reason}

pub data RunStatus : Type 0 where
  running finished failed cancelled : RunStatus

-- `Observation.source`
pub data Source : Type 0 where
  tool rejected error : Source

-- What an observation's or a step's reason says: the validator's reason, the text "rejected" where it
-- gave none, or the exception of a tool.
pub data Cause : Type 0 where
  refused : Reason → Cause
  unexplained raised : Cause

pub record Observation : Type 0 where
  pub step : ℕ
  pub source : Source
  pub tool : Option Text
  pub ok : Bool
  pub payload : Params
  pub findings : List Finding
  pub reason : Option Cause

pub record StepRecord : Type 0 where
  pub step : ℕ
  pub decision : Decision
  pub observation : Option Observation
  pub rejected : Bool
  pub rejection_reason : Option Cause

-- `AgentState.error`
pub data RunError : Type 0 where
  max_steps_reached planner_error : RunError

pub record AgentState : Type 0 where
  pub run_id : Text
  pub goal : Text
  pub status : RunStatus
  pub step : ℕ
  pub max_steps : ℕ
  pub observations : List Observation
  pub findings : List Finding
  pub steps : List StepRecord
  pub completed_at : Option ℕ
  pub error : Option RunError

-- `EVENT_TYPES`, each with the step and the data that the loop gives it.
pub data Event : Type 0 where
  run_started step_started : (step : ℕ) → Event
  decision_proposed : (step : ℕ) → Decision → Event
  decision_rejected : (step : ℕ) → Cause → Event
  tool_started : (step : ℕ) (tool : Text) → Event
  tool_finished : (step : ℕ) (tool : Text) (status : ToolStatus) → Event
  finding_recorded : (step : ℕ) → Finding → Event
  run_finished : (step : ℕ) (status : RunStatus) (findings_count : ℕ) → Event
  run_failed : (step : ℕ) (findings_count : ℕ) (error : Option RunError) → Event

-- `_validated_view`: what execution may depend on.
pub data View : Type 0 where
  call_view : (tool : Text) (params : Params) → View
  finish_view : (summary : Text) → View

abbrev pub validated_view : Decision → View
validated_view (tool_call name params reasoning) = call_view name params
validated_view (finish summary) = finish_view summary

-- `JsonFileStore.trajectory_entry`
pub record Entry : Type 0 where
  pub step : ℕ
  pub decision_raw : Decision
  pub decision_validated : View
  pub rejected : Bool
  pub rejection_reason : Option Cause
  pub tool : Option Text
  pub observation : Option Observation

-- A call of `tool.execute`.
pub record Call : Type 0 where
  pub step : ℕ
  pub tool : Tool
  pub params : Option Params
  pub context : Context

-- The state with what the run has done to the outside: the events emitted, the state saved last, the
-- trajectory written and the tools called, each oldest first.
pub record Run : Type 0 where
  pub state : AgentState
  pub events : List Event
  pub saved : Option AgentState
  pub trajectory : List Entry
  pub calls : List Call
