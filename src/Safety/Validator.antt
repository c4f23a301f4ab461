-- ===== src/Safety/Validator.antt =====
-- agent_core/safety/validator.py: the two-stage gate. `check_extra` of policy.py has no rules, and
-- is the constant None here too.
use aicybersec.Common.{
  Bool, true, false, Option, none, some, List, [], ◌∷◌, map, Result, ok, Exn, ◌>>=◌, if◌then◌else◌,
}
use aicybersec.Common.Text.{Text, codes}
use aicybersec.Safety.Params.{Value, items, Params, get_param, show_value}
use aicybersec.Safety.Tools.{Tool, Targets, many, one, Decision, tool_call, finish}
use aicybersec.Safety.Policy.{Policy, danger_allowed, target_allowed}
use aicybersec.Safety.Registry.{Registry, has, get}

-- The reason texts of the source, one constructor for each.
pub data Reason : Type 0 where
  unknown_tool : Text → Reason
  invalid_params : Text → Reason
  danger_exceeded : Text → Text → Reason
  not_allowed : Option Text → Reason

pub record ValidationOutcome : Type 0 where
  pub accepted : Bool
  pub reason : Option Reason
  pub tool : Option Tool
  pub validated_params : Option Params

abbrev pub rejected : Reason → ValidationOutcome
rejected r = record { accepted = false; reason = some r; tool = none; validated_params = none }

abbrev pub accepted_finish : ValidationOutcome
accepted_finish = record { accepted = true; reason = none; tool = none; validated_params = none }

abbrev pub accepted_call : Tool → Params → ValidationOutcome
accepted_call tool params = record {
  accepted = true;
  reason = none;
  tool = some tool;
  validated_params = some params;
}

-- `check_extra`: an extension point with no rules.
abbrev pub check_extra : Policy → Option Reason
check_extra p = none

-- The conventions of `_extract_target` for a tool with no hook.
abbrev default_target : Option Value → Option Value → Option Text
default_target (some v) url = some (show_value v)
default_target none (some v) = some (show_value v)
default_target none none = none

extract_target : Tool → Params → Option Text
unfolding get_param
extract_target tool params = elim tool.policy_target [
  | some hook ↦ hook params
  | none ↦ default_target (get_param (codes "target") params) (get_param (codes "url") params)
]

abbrev targets_list : Targets → List (Option Text)
targets_list (many ts) = ts
targets_list (one t) = t ∷ []

-- "targets" in params, if it is a list; else the single target.
abbrev plural_or : Option Value → Option Text → List (Option Text)
plural_or (some (items ts)) single = map some ts
plural_or _ single = single ∷ []

unfoldable pub extract_targets : Tool → Params → List (Option Text)
unfolding extract_target get_param
extract_targets tool params = elim tool.policy_targets [
  | some hook ↦ targets_list (hook params)
  | none ↦ plural_or (get_param (codes "targets") params) (extract_target tool params)
]

-- The loop over the targets: the first that is not allowed, if there is one.
unfoldable pub first_denied : Policy → List (Option Text) → Result Exn (Option (Option Text))
first_denied p [] = ok none
first_denied p (t ∷ ts) =
    let rest = first_denied p ts in
    do allowed ← target_allowed p t; if allowed then rest else ok (some t)

-- The end of stage 2, after the loop.
abbrev pub conclude : Policy → Tool → Params → Option (Option Text) → ValidationOutcome
conclude p tool params (some t) = rejected (not_allowed t)
conclude p tool params none = elim (check_extra p) [
  | some r ↦ rejected r
  | none ↦ accepted_call tool params
]

-- Stage 2, on a registered tool and the params that its schema gave.
unfoldable pub stage_policy : Policy → Tool → Params → Params → Result Exn ValidationOutcome
stage_policy p tool raw params = do
  safe ← danger_allowed p tool
  if safe
      then (do ok (conclude p tool params (← first_denied p (extract_targets tool raw))))
      else ok (rejected (danger_exceeded tool.danger_level p.max_danger))

-- `tool.validate_params`, with its ValidationError as a rejection.
unfoldable pub stage_params :
    Policy → Tool → Text → Params → Option Params → Result Exn ValidationOutcome
stage_params p tool name raw none = ok (rejected (invalid_params name))
stage_params p tool name raw (some params) = stage_policy p tool raw params

-- `SafetyValidator.validate`
unfoldable pub validate : Registry → Policy → Decision → Result Exn ValidationOutcome
unfolding stage_params
validate r p (finish summary) = ok accepted_finish
validate r p (tool_call name raw reasoning) =
    if has r name
    then (do tool ← get r name; stage_params p tool name raw (tool.validate_params raw))
    else ok (rejected (unknown_tool name))
