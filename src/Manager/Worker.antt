-- ===== src/Manager/Worker.antt =====
-- The worker's sessions in backend/services/scan_manager.py. Each returns the database and what the
-- worker does next; None is a row that is gone.
use aicybersec.Common.{
  ℕ, Bool, true, false, not, Option, none, some, List, [], ◌∷◌, ◌++◌, take, Result, ok, err, ◌>>=◌,
  if◌then◌else◌,
}
use aicybersec.Common.Text.{Text, codes}
use aicybersec.Scan.{
  Status, queued, initializing, running, cancelling, completed, failed, cancelled, Profile,
  live_probe, Scan,
}
use aicybersec.Scan.State.{StateError, status_eq, is_terminal, apply_transition}
use aicybersec.Runtime.Data.{RunStatus}
use aicybersec.Manager.{
  ScanEvent, scan_started, status_changed, scan_ended, Db, Final, Phase, resolving, executing,
  leaving,
}

-- `apply_transition` on the row, then the events that are recorded after it.
unfoldable pub move_row :
    Db → Status → Option Text → ℕ → (Scan → List ScanEvent) → Result StateError Db
move_row db target error now events = do
  row ← apply_transition db.row target error now
  ok (record { row = row; events = db.events ++ events row })

-- `error[:_ERROR_MAX_CHARS]`
abbrev pub cut : Text → Text
cut error = take 2000 error

abbrev pub failed_event : Text → Scan → List ScanEvent
failed_event error row = scan_ended failed (some (cut error)) ∷ []

-- What `verify_live_scan_authorization` did: it returned, raised an ApiError, or another exception.
pub data LiveCheck : Type 0 where
  verified crashed : LiveCheck
  refused_by : (message : Text) → LiveCheck

abbrev pub refusal : LiveCheck → Text
refusal verified =
    codes "Live probe execution is disabled in Stage 1: authorization records and snapshots only."
refusal crashed = codes "Live authorization snapshot verification failed."
refusal (refused_by message) = codes "Live authorization rejected: " ++ message

-- A session whose exception is caught: it is rolled back.
abbrev pub or_rollback : Db → Result StateError Db → Db
or_rollback db (ok after) = after
or_rollback db (err e) = db

-- `_refuse_live_probe`
unfoldable pub refuse_live_probe : LiveCheck → ℕ → Db → Db
refuse_live_probe check now db =
    let error = refusal check in
    or_rollback db (move_row db failed (some (cut error)) now (failed_event error))

abbrev pub is_live_probe : Profile → Bool
is_live_probe live_probe = true
is_live_probe _ = false

-- The first session of `_execute`: only a queued scan proceeds, and no live probe.
unfoldable pub begin : LiveCheck → ℕ → Db → Result StateError (Db × Phase)
begin check now db =
    if not (status_eq db.row.status queued)
    then ok (db, leaving)
    else if is_live_probe db.row.profile
    then ok (refuse_live_probe check now db, leaving)
    else do
      after ← move_row db initializing none now λ row.
          scan_started row.profile row.mode row.goal ∷ status_changed queued initializing ∷ []
      ok (after, resolving)

-- The second session: cancelled while initializing leaves the row as it is.
unfoldable pub enter : ℕ → Db → Result StateError (Db × Phase)
enter now db = if not (status_eq db.row.status initializing) then ok (db, leaving) else do
  after ← move_row db running none now λ row. status_changed initializing running ∷ []
  ok (after, executing)

-- `getattr(final, "error", None) or "Agent run failed."`
abbrev pub error_of : Option Text → Text
error_of none = codes "Agent run failed."
error_of (some []) = codes "Agent run failed."
error_of (some (c ∷ s)) = c ∷ s

-- The status that `_finish_scan` chooses, and the error that goes with it.
abbrev pub ending : Status → Final → Status × Option Text
ending cancelling final = (cancelled, none)
ending _ final = elim final.status [
  | RunStatus.finished ↦ (completed, none)
  | RunStatus.cancelled ↦ (cancelled, none)
  | other ↦ (failed, some (cut (error_of final.error)))
]

-- `_finish_scan`, which catches every exception. The assets and tool runs that it stores are left out.
unfoldable pub finish_scan : Final → ℕ → Db → Db
unfolding move_row
finish_scan final now db =
    if is_terminal db.row.status
    then db
    else let (target, error) = ending db.row.status final in
      or_rollback db (
        move_row db target error now
          λ row. status_changed db.row.status row.status ∷ scan_ended row.status row.error ∷ [])

-- `_mark_failed`, after an exception of the worker.
unfoldable pub mark_failed : Text → ℕ → Db → Db
mark_failed error now db =
    if is_terminal db.row.status
    then db
    else or_rollback db (move_row db failed (some (cut error)) now (failed_event error))

abbrev pub restart_error : Text
restart_error = codes "Backend restarted during scan."

-- The branches of the loop in `recover`, by the status of the row. The Boolean says that the scan is
-- submitted again.
abbrev pub recover_at : Status → ℕ → Db → Db × Bool
recover_at queued now db = (db, true)
recover_at cancelling now db = (
  or_rollback db (move_row db cancelled none now λ row. status_changed cancelling cancelled ∷ []),
  false,
)
recover_at completed now db = (db, false)
recover_at failed now db = (db, false)
recover_at cancelled now db = (db, false)
recover_at _ now db = (
  or_rollback db (move_row db failed (some restart_error) now (failed_event restart_error)),
  false,
)

-- `recover` on one row.
unfoldable pub recover : ℕ → Db → Db × Bool
recover now db = recover_at db.row.status now db
