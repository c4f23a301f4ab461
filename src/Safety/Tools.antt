-- ===== src/Safety/Tools.antt =====
-- The danger levels (agent_core/schemas/tools.py), the tools (agent_core/tools/base.py) and the
-- decisions of a planner (agent_core/schemas/actions.py).
use aicybersec.Common.{
  ℕ, Bool, Option, List, Result, ok, err, Exn, key_error, ltb, if◌then◌else◌, ◌>>=◌,
}
use aicybersec.Common.Text.{Text, codes, text_eq}
use aicybersec.Safety.Params.{Params}
use aicybersec.Safety.Results.{ToolResult, Context}

-- `DangerLevel.RANK`, whose keys are texts; an unknown key raises KeyError.
unfoldable pub rank : Text → Result Exn ℕ
unfolding text_eq
rank level =
    if text_eq level (codes "safe")
    then ok 0
    else if text_eq level (codes "active_scan")
    then ok 1
    else if text_eq level (codes "intrusive")
    then ok 2
    else err key_error

-- `DangerLevel.exceeds`
unfoldable pub exceeds : Text → Text → Result Exn Bool
exceeds value cap = do v ← rank value; c ← rank cap; ok (ltb c v)

-- What a tool's `policy_targets` hook returns: a list, or one value that is no list.
pub data Targets : Type 0 where
  many : List (Option Text) → Targets
  one : Option Text → Targets

-- `class Tool`. `validate_params` is None on a ValidationError. `execute` takes the number of the
-- step as well, so that a tool may answer each call differently; None means that it raised.
pub record Tool : Type 0 where
  pub name : Text
  pub danger_level : Text
  pub validate_params : Params → Option Params
  pub policy_targets : Option (Params → Targets)
  pub policy_target : Option (Params → Option Text)
  pub execute : ℕ → Option Params → Context → Option ToolResult

-- `Decision`
pub data Decision : Type 0 where
  tool_call : (tool : Text) (params : Params) (reasoning : Option Text) → Decision
  finish : (summary : Text) → Decision
