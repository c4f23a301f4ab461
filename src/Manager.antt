-- ===== src/Manager.antt =====
-- backend/services/scan_manager.py and the part of backend/services/scan_service.py that works with
-- it, for one scan: its row with the events recorded for it, and the entry of the manager's registry
-- of active runs. Database operations succeed, and each session is one step.
pub mod Worker
pub mod Service
pub mod Steps
pub mod Laws
mod Tests
use aicybersec.Common.{ℕ, Bool, Option, List}
use aicybersec.Common.Text.{Text}
use aicybersec.Scan.{Status, Mode, Profile, Scan}
use aicybersec.Runtime.Data.{RunStatus}

-- The calls of `record_event`; `scan_ended` stands for scan_completed, scan_failed and scan_cancelled,
-- by its status.
pub data ScanEvent : Type 0 where
  scan_started : Profile → Mode → Option Text → ScanEvent
  status_changed : (before after : Status) → ScanEvent
  scan_ended : Status → Option Text → ScanEvent

pub record Db : Type 0 where
  pub row : Scan
  pub events : List ScanEvent

-- What `AgentRuntime.execute` returned, as far as `_finish_scan` reads it.
pub record Final : Type 0 where
  pub status : RunStatus
  pub error : Option Text

-- Where the scan's worker is: `idle` without an entry in `_active`, `waiting` in the pool's queue,
-- `resolving` after the first session, `executing` after the second, `leaving` before the entry is
-- removed.
pub data Phase : Type 0 where
  idle waiting resolving executing leaving : Phase

-- `pending`: a request to cancel is stored, and its signal to the worker is still to be sent.
pub record World : Type 0 where
  pub db : Option Db
  pub phase : Phase
  pub cancel : Bool
  pub pending : Bool
  pub shutting_down : Bool
