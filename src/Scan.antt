-- ===== src/Scan.antt =====
-- The scan row (backend/db/models.py, class Scan) with the values of its constrained columns
-- (backend/schemas/scans.py). Columns that only the live plane or the API reads are left out here:
-- id, created_at, updated_at and the live-authorization columns.
pub mod State
pub mod Lifecycle
mod Tests
use aicybersec.Common.{ℕ, Bool, true, false, Option, List}
use aicybersec.Common.Text.{Text}

pub data Status : Type 0 where
  queued initializing running cancelling completed failed cancelled : Status

pub data Mode : Type 0 where
  pipeline agent : Mode

pub data Profile : Type 0 where
  recon web full live_probe : Profile

-- The "type" of a scope entry; `other` stands for any further value of the stored JSON.
pub data ScopeType : Type 0 where
  host cidr url domain other : ScopeType

-- One dict of a scope list; the "value" key may be missing.
pub record Entry : Type 0 where
  pub type : ScopeType
  pub value : Option Text

pub record Scan : Type 0 where
  pub project_id : ℕ
  pub status : Status
  pub mode : Mode
  pub profile : Profile
  pub goal : Option Text
  pub target_snapshot : List Entry
  pub max_steps : Option ℕ
  pub tool_timeout_s : ℕ
  pub error : Option Text
  pub started_at : Option ℕ
  pub completed_at : Option ℕ
  pub cancelled_at : Option ℕ

-- The statuses of the partial unique index `uq_scans_project_active`.
abbrev pub is_active : Status → Bool
is_active completed = false
is_active failed = false
is_active cancelled = false
is_active _ = true
