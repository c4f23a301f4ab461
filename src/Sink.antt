-- ===== src/Sink.antt =====
-- backend/services/db_sink.py: the events of a run, written to the database. A database failure is one
-- of the commit; the identifiers and times of creation of the rows are left out, their lists are in
-- the order of creation.
pub mod Write
pub mod Runs
pub mod Laws
pub mod Consistent
pub mod Closing
pub mod Proposals
mod Tests
use aicybersec.Common.{ℕ, Option, List}
use aicybersec.Common.Text.{Text}
use aicybersec.Persistence.{Asset}
use aicybersec.Persistence.Json.{Json, Dict}
use aicybersec.Persistence.Findings.{FindingRow}

-- An event of the runtime; `step` is None where that is no number, `payload` is its "data", empty
-- where that is no dict.
pub record RunEvent : Type 0 where
  pub type : Text
  pub step : Option ℕ
  pub payload : Dict

pub data RunState : Type 0 where
  running completed failed timeout cancelled : RunState

-- A row of `tool_runs`, with times in milliseconds.
pub record ToolRun : Type 0 where
  pub scan_id : ℕ
  pub tool : Text
  pub status : RunState
  pub initiated_by : Text
  pub parameters : Dict
  pub summary : Option Text
  pub started_at : Option ℕ
  pub ended_at : Option ℕ
  pub duration_ms : Option ℕ

-- A row of `agent_events`.
pub record AgentEvent : Type 0 where
  pub scan_id : ℕ
  pub event_type : Text
  pub step : Option ℕ
  pub payload : Dict

pub record Tables : Type 0 where
  pub events : List AgentEvent
  pub tool_runs : List ToolRun
  pub findings : List FindingRow
  pub assets : List Asset

-- The fields of a `DatabaseEventSink`; `proposed` is the dict of the steps' params.
pub record Sink : Type 0 where
  pub scan_id : ℕ
  pub project_id : ℕ
  pub initiated_by : Text
  pub proposed : List (ℕ × Dict)

-- What the sink asks of Python: `json.dumps`, None where it raises, the hexadecimal SHA-256 digest, and
-- `str()` of a list or dict.
pub record Python : Type 0 where
  pub dumps : Dict → Option Text
  pub sha256 : Text → Text
  pub str : Json → Text
