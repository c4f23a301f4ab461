-- ===== src/Planner.antt =====
-- backend/services/pipeline_planner.py: the fixed sequence of tools of a profile. Observations are given
-- by what the planner reads of their data; entries of the wrong JSON type are left out of them.
pub mod Targets
pub mod Decide
pub mod Bounds
pub mod Stages
mod Tests
use aicybersec.Common.{ℕ, Bool, Option, List}
use aicybersec.Common.Text.{Text}

-- One entry of "ports"; `number` is None where `int(...)` raises.
pub record Port : Type 0 where
  pub is_open : Bool
  pub number : Option ℕ

-- One entry of "hosts".
pub record HostData : Type 0 where
  pub ip : Text
  pub ports : List Port

-- One entry of "services": `svc.get("url") or svc.get("final_url")`, and the status code.
pub record Service : Type 0 where
  pub url : Text
  pub status_code : Option ℕ

pub record Observed : Type 0 where
  pub tool : Option Text
  pub target : Option Text
  pub hosts : List HostData
  pub services : List Service

-- The "tool" and the "target" param of a step's decision.
pub record Proposed : Type 0 where
  pub tool : Option Text
  pub target : Option Text

-- What the planner reads of an AgentState.
pub record Seen : Type 0 where
  pub observations : List Observed
  pub steps : List Proposed
  pub step : ℕ
  pub max_steps : ℕ
