-- ===== src/Safety/Results.antt =====
-- What tools report: agent_core/schemas/results.py, and `ToolContext` of agent_core/tools/base.py.
use aicybersec.Common.{ℕ, List}
use aicybersec.Common.Text.{Text}
use aicybersec.Safety.Params.{Params}

pub data Severity : Type 0 where
  info low medium high critical : Severity

-- `Finding`, without the free-form report fields.
pub record Finding : Type 0 where
  pub id : Text
  pub title : Text
  pub severity : Severity
  pub tool : Text

-- `ToolResult.status`
pub data ToolStatus : Type 0 where
  ok error timeout : ToolStatus

pub record ToolResult : Type 0 where
  pub status : ToolStatus
  pub summary : Text
  pub payload : Params
  pub findings : List Finding

-- `ToolContext`
pub record Context : Type 0 where
  pub run_id : Text
  pub allowed_targets : List Text
  pub timeout_s : ℕ
