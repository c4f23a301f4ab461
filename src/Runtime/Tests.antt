-- ===== src/Runtime/Tests.antt =====
-- Concrete runs of agent_core/runtime/agent.py.
use aicybersec.Common.{
  ◌≤◌, ◌≡◌, refl, true, false, Option, none, some, [], ◌∷◌, All, length, suc, leb,
}
use aicybersec.Common.Text.{
  codes, text_eq, elem, lower, lower_code, starts_with, strip, lstrip, rstrip, has_text,
}
use aicybersec.Safety.Params.{text, get_param}
use aicybersec.Safety.Tools.{Tool, Decision, tool_call, finish, rank, exceeds}
use aicybersec.Safety.Policy.{
  Policy, normalize, normalize_target, normalize_all, allowed_in, target_allowed, danger_allowed,
}
use aicybersec.Safety.Registry.{Registry, has, find, get}
use aicybersec.Safety.Validator.{
  extract_targets, first_denied, stage_policy, stage_params, validate,
}
use aicybersec.Runtime.Data.{AgentState, Run, cancelled}
use aicybersec.Runtime.Traces.{execute_ends, execute_calls, Closed}
use aicybersec.Runtime.Loop.{
  Env, Exit, returned, emit, finish_run, execute_tool, add_findings, record_step, reject, call_tool,
  act, validated, decide_step, round, loop, execute, new_run,
}
use aicybersec.Runtime.Invariant.{IsJustified}
use aicybersec.Runtime.Gate.{gated, IsPermittedCall, execute-IsPermittedCall}

abbrev scanner : Tool
scanner = record {
  name = codes "nmap";
  danger_level = codes "safe";
  validate_params = λ p. some p;
  policy_targets = none;
  policy_target = none;
  execute = λ step params ctx. none;
}

abbrev tools : Registry
tools = scanner ∷ []

abbrev policy : Policy
policy = record {
  allowed_targets = codes "a.com" ∷ [];
  max_danger = codes "safe";
  max_steps = 3;
  timeout_s = 60;
}

-- An allowed call, then a call outside the scope, then the end.
abbrev plan : AgentState → Option Decision
plan s = elim (leb s.step 1) [
  | true ↦ some (tool_call (codes "nmap") ((codes "target", text (codes "a.com")) ∷ []) none)
  | false ↦ elim (leb s.step 2) [
    | true ↦ some (tool_call (codes "nmap") ((codes "target", text (codes "b.com")) ∷ []) none)
    | false ↦ some (finish (codes "done"))
  ]
]

abbrev env : Env
env = gated tools policy plan (λ s. false) (λ s. 1)

abbrev run_of : Option (Run × Exit) → Run
run_of none = new_run env [] []
run_of (some (r, exit)) = r

unfoldable last_run : Run
unfolding execute loop round decide_step validated act call_tool reject record_step add_findings
    execute_tool finish_run emit validate has get find stage_params stage_policy danger_allowed
    exceeds rank text_eq elem first_denied extract_targets get_param target_allowed normalize_target
    normalize allowed_in normalize_all strip lstrip rstrip lower lower_code has_text starts_with
last_run = run_of (execute env 4 (new_run env (codes "goal") (codes "id")))

runs : execute env 4 (new_run env (codes "goal") (codes "id")) ≡ some (last_run, returned)
unfolding last_run execute loop round decide_step validated act call_tool reject record_step
    add_findings execute_tool finish_run emit validate has get find stage_params stage_policy
    danger_allowed exceeds rank text_eq elem first_denied extract_targets get_param target_allowed
    normalize_target normalize allowed_in normalize_all strip lstrip rstrip lower lower_code
    has_text starts_with
runs = refl

one_call : length last_run.calls ≡ 1
unfolding last_run execute loop round decide_step validated act call_tool reject record_step
    add_findings execute_tool finish_run emit validate has get find stage_params stage_policy
    danger_allowed exceeds rank text_eq elem first_denied extract_targets get_param target_allowed
    normalize_target normalize allowed_in normalize_all strip lstrip rstrip lower lower_code
    has_text starts_with
one_call = refl

execute-IsPermittedCall_example : All (IsPermittedCall tools policy) last_run.calls
execute-IsPermittedCall_example =
    execute-IsPermittedCall tools policy plan (λ s. false) (λ s. 1) (codes "goal") (codes "id") 4
      last_run returned runs

execute_ends_example :
    (r : Run) × (exit : Exit) × (execute env
        (suc env.policy.max_steps)
        (new_run env (codes "goal") (codes "id"))
      ≡ some (r, exit))
    × Closed (r, exit)
execute_ends_example = execute_ends env (codes "goal") (codes "id")

execute_calls_example :
    All (IsJustified env) last_run.calls
    × (length last_run.calls ≤ last_run.state.step)
    × (last_run.state.step ≤ env.policy.max_steps)
execute_calls_example = execute_calls env (codes "goal") (codes "id") 4 last_run returned runs

-- The cancel event is set before the second step.
abbrev stopped_env : Env
stopped_env = gated tools policy plan (λ s. leb 1 s.step) (λ s. 1)

unfoldable stopped_run : Run
unfolding execute loop round decide_step validated act call_tool reject record_step add_findings
    execute_tool finish_run emit validate has get find stage_params stage_policy danger_allowed
    exceeds rank text_eq elem first_denied extract_targets get_param target_allowed normalize_target
    normalize allowed_in normalize_all strip lstrip rstrip lower lower_code has_text starts_with
stopped_run = run_of (execute stopped_env 4 (new_run stopped_env (codes "goal") (codes "id")))

stops :
    execute stopped_env 4 (new_run stopped_env (codes "goal") (codes "id"))
    ≡ some (stopped_run, returned)
unfolding stopped_run execute loop round decide_step validated act call_tool reject record_step
    add_findings execute_tool finish_run emit validate has get find stage_params stage_policy
    danger_allowed exceeds rank text_eq elem first_denied extract_targets get_param target_allowed
    normalize_target normalize allowed_in normalize_all strip lstrip rstrip lower lower_code
    has_text starts_with
stops = refl

stopped : stopped_run.state.status ≡ cancelled
unfolding stopped_run execute loop round decide_step validated act call_tool reject record_step
    add_findings execute_tool finish_run emit validate has get find stage_params stage_policy
    danger_allowed exceeds rank text_eq elem first_denied extract_targets get_param target_allowed
    normalize_target normalize allowed_in normalize_all strip lstrip rstrip lower lower_code
    has_text starts_with
stopped = refl
