-- ===== src/Live.antt =====
-- backend/services/live_authorization_service.py and live_probe_budgets.py: the authorization of live
-- scans, their immutable snapshots and execution profiles. A time is a number of microseconds, an id
-- a number; a stored time or id that does not parse is None.
pub mod Origin
pub mod Record
pub mod Snapshot
pub mod Profile
pub mod Creation
pub mod Canonical
pub mod Issue
pub mod LifeCycle
pub mod Usable
pub mod Binding
pub mod RoundTrip
pub mod Inverted
pub mod Verified
mod Tests
use aicybersec.Common.{ℕ, Bool, Option, Exn}
use aicybersec.Common.Text.{Text}

-- Why LIVE_SCAN_NOT_PERMITTED is raised.
pub data Denial : Type 0 where
  flag_off not_active not_yet_valid expired policy_drift other_methods nothing_left not_canonical
        tampered not_referenced gone other_project :
      Denial
  profile_missing profile_schema profile_integrity profile_policy profile_binding profile_budget :
      Denial

-- The ApiErrors of the service, and any other exception.
pub data LiveError : Type 0 where
  project_not_found authorization_not_found admin_required invalid_state scan_already_running :
      LiveError
  -- LIVE_AUTHORIZATION_INVALID
  invalid : LiveError
  not_permitted : Denial → LiveError
  crash : Exn → LiveError

pub record Settings : Type 0 where
  pub live_probe_enabled : Bool
  pub live_probe_policy_version : Text
  pub live_probe_max_authorization_days : ℕ
