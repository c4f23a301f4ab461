-- ===== src/Manager/Service.antt =====
-- The requests on a scan: backend/services/scan_service.py with `submit`, `request_cancel` and
-- `shutdown` of backend/services/scan_manager.py.
use aicybersec.Common.{
  ℕ, Bool, true, false, not, ◌||◌, ◌&&◌, Option, none, some, List, [], ◌∷◌, Result, ok, err, ◌>>=◌,
  if◌then◌else◌, ◌==◌,
}
use aicybersec.Common.Text.{Text}
use aicybersec.Scan.{
  Status, queued, initializing, running, cancelling, cancelled, Mode, Profile, Scan, Entry,
  is_active,
}
use aicybersec.Scan.State.{StateError, apply_transition}
use aicybersec.Manager.{Db, Phase, idle, waiting, World}

-- A new entry in `_active`, where there is none.
abbrev pub enqueue : Phase → World → World
enqueue idle w = record w { phase = waiting; cancel = false }
enqueue _ w = w

-- `submit`: a no-op while the scan is active or the manager shuts down.
unfoldable pub submit : World → World
submit w = if w.shutting_down then w else enqueue w.phase w

abbrev pub signal_at : Phase → World → World × Bool
signal_at idle w = (w, false)
signal_at _ w = (record w { cancel = true }, true)

-- `request_cancel`: sets the event of the active entry, if there is one.
unfoldable pub request_cancel : World → World × Bool
request_cancel w = signal_at w.phase w

unfoldable pub shutdown : World → World
shutdown w = record w { shutting_down = true }

-- The errors of the service, and a transition that the state machine refused.
pub data ServiceError : Type 0 where
  scan_not_found scan_not_cancellable scan_already_running : ServiceError
  state_error : StateError → ServiceError

pub record User : Type 0 where
  pub id : ℕ
  pub is_admin : Bool

-- The condition of `get_scan_for_user`; `owner` is the owner of the scan's project, if that exists.
unfoldable pub may_see : User → Option ℕ → Bool
may_see user none = user.is_admin
may_see user (some owner) = user.is_admin || owner == user.id

abbrev pub is_cancellable : Status → Bool
is_cancellable queued = true
is_cancellable initializing = true
is_cancellable running = true
is_cancellable _ = false

abbrev pub from_state : Result StateError Scan → Result ServiceError Scan
from_state (ok row) = ok row
from_state (err e) = err (state_error e)

-- The session of `cancel_scan`; the Boolean says that the worker is signalled after it.
unfoldable pub cancel_scan : User → Option ℕ → ℕ → Option Db → Result ServiceError (Db × Bool)
cancel_scan user owner now none = err scan_not_found
cancel_scan user owner now (some db) =
    if not (may_see user owner)
    then err scan_not_found
    else if not (is_cancellable db.row.status)
    then err scan_not_cancellable
    else (elim db.row.status [
      | running ↦ do
        row ← from_state (apply_transition db.row cancelling none now)
        ok (record db { row = row }, true)
      | other ↦ do
        row ← from_state (apply_transition db.row cancelled none now)
        ok (record db { row = row }, false)
    ])

-- The body of a request for a scan that is no live probe.
pub record ScanCreate : Type 0 where
  pub project_id : ℕ
  pub mode : Mode
  pub profile : Profile
  pub goal : Option Text
  pub max_steps : Option ℕ
  pub tool_timeout_s : ℕ

abbrev pub new_scan : ScanCreate → List Entry → Scan
new_scan body scope = record {
  project_id = body.project_id;
  status = queued;
  mode = body.mode;
  profile = body.profile;
  goal = body.goal;
  target_snapshot = scope;
  max_steps = body.max_steps;
  tool_timeout_s = body.tool_timeout_s;
  error = none;
  started_at = none;
  completed_at = none;
  cancelled_at = none;
}

-- The rows of the project that the partial unique index holds.
unfoldable pub has_active : ℕ → List Scan → Bool
has_active project [] = false
has_active project (s ∷ table) =
    (s.project_id == project && is_active s.status) || has_active project table

-- `create_scan` on the table of scans, from the commit on.
unfoldable pub create_scan : ScanCreate → List Entry → List Scan → Result ServiceError (List Scan)
unfolding has_active
create_scan body scope table =
    if has_active body.project_id table
    then err scan_already_running
    else ok (new_scan body scope ∷ table)
