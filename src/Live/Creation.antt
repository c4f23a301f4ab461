-- ===== src/Live/Creation.antt =====
-- Live scans: `create_live_scan` and `verify_live_scan_authorization` of
-- backend/services/live_authorization_service.py.
use aicybersec.Common.{
  ℕ, not, ◌&&◌, Option, none, some, List, [], Result, ok, err, ◌>>=◌, ◌>>◌, raise_if, ◌==◌,
}
use aicybersec.Common.Text.{Text, text_eq}
use aicybersec.Scan.{queued, pipeline, live_probe, Scan}
use aicybersec.Manager.Service.{User, has_active}
use aicybersec.Scope.{Net}
use aicybersec.Live.{
  flag_off, tampered, not_referenced, gone, other_project, LiveError, scan_already_running, invalid,
  not_permitted, Settings,
}
use aicybersec.Live.Record.{LiveAuthorization, get_live_authorization_for_user}
use aicybersec.Live.Snapshot.{
  Core, Snapshot, Verified, authorization_payload, build_authorization_snapshot,
  verify_snapshot_payload,
}
use aicybersec.Live.Profile.{
  ExecutionProfile, LiveRow, is_id, render_execution_profile, verify_execution_profile,
}

-- SHA-256 of canonical JSON, of a snapshot's core and of a text, and the canonical JSON of a profile.
pub record Hashing : Type 0 where
  pub of_core : Core → Text
  pub of_json : Text → Text
  pub json_of : ExecutionProfile → Text

-- A live scan: the row and its live columns.
pub record LiveScan : Type 0 where
  pub row : Scan
  pub live : LiveRow
  pub authorization_snapshot : Option Snapshot
  pub authorization_snapshot_digest : Option Text

abbrev stored_digest : Snapshot → Option Text
stored_digest s = s.digest

-- The row that `create_live_scan` makes; mode, steps and timeout are pinned.
abbrev pub new_live_scan :
    Hashing
    → Settings
    → (scan_id profile_id : ℕ) → Option Text
    → LiveAuthorization
    → Snapshot
    → LiveScan
new_live_scan h settings scan_id profile_id goal auth snapshot =
    let profile =
      render_execution_profile profile_id scan_id auth.id auth.project_id
        settings.live_probe_policy_version in
    record {
      row = record {
        project_id = auth.project_id;
        status = queued;
        mode = pipeline;
        profile = live_probe;
        goal = goal;
        target_snapshot = [];
        max_steps = some 1;
        tool_timeout_s = 60;
        error = none;
        started_at = none;
        completed_at = none;
        cancelled_at = none;
      };
      live = record {
        id = scan_id;
        project_id = auth.project_id;
        live_authorization_id = some auth.id;
        execution_profile = some (record { json = h.json_of profile; parsed = some profile });
        execution_profile_digest = some (h.of_json (h.json_of profile));
      };
      authorization_snapshot = some snapshot;
      authorization_snapshot_digest = stored_digest snapshot;
    }

-- `create_live_scan` from the project on, which the user may see; `found` is the record that the
-- request names, None where it names none, and `table` holds the scans.
unfoldable pub create_live_scan :
    Net
    → Hashing
    → Settings
    → ℕ
    → (scan_id profile_id : ℕ) → User
    → (project : ℕ) → Option ℕ
    → Option (Option LiveAuthorization)
    → Option Text
    → List Scan
    → Result LiveError LiveScan
create_live_scan net h settings now scan_id profile_id user project owner none goal table = do
  raise_if (not settings.live_probe_enabled) (not_permitted flag_off)
  err invalid
create_live_scan net h settings now scan_id profile_id user project owner (some found) goal table =
    do
      raise_if (not settings.live_probe_enabled) (not_permitted flag_off)
      auth ← get_live_authorization_for_user user owner found
      raise_if (not (auth.project_id == project)) (not_permitted other_project)
      snapshot ← build_authorization_snapshot net h.of_core settings now auth
      raise_if (has_active project table) scan_already_running
      ok (new_live_scan h settings scan_id profile_id goal auth snapshot)

abbrev pub existing : Option LiveAuthorization → Result LiveError LiveAuthorization
existing none = err (not_permitted gone)
existing (some auth) = ok auth

-- From the parent record on.
unfoldable pub verify_parent :
    Net
    → Hashing
    → Settings
    → ℕ
    → LiveScan
    → Verified
    → LiveAuthorization
    → Result LiveError Verified
verify_parent net h settings now scan verified auth = do
  fresh ← authorization_payload net settings now auth
  raise_if (not (text_eq (h.of_core fresh) (h.of_core verified.core))) (not_permitted tampered)
  raise_if (not (verified.authorization_id == auth.id && verified.project_id == auth.project_id))
      (not_permitted tampered)
  raise_if (not (scan.live.project_id == auth.project_id)) (not_permitted other_project)
  profile ← verify_execution_profile h.of_json settings scan.live verified.authorization_id
  ok verified

-- `verify_live_scan_authorization`; `lookup` finds an authorization by its id.
unfoldable pub verify_live_scan_authorization :
    Net
    → Hashing
    → Settings
    → ℕ
    → (ℕ → Option LiveAuthorization)
    → LiveScan
    → Result LiveError Verified
verify_live_scan_authorization net h settings now lookup scan = do
  verified ←
      verify_snapshot_payload net h.of_core now settings.live_probe_policy_version
        scan.authorization_snapshot scan.authorization_snapshot_digest
  raise_if (not (is_id scan.live.live_authorization_id verified.authorization_id))
      (not_permitted not_referenced)
  auth ← existing (lookup verified.authorization_id)
  verify_parent net h settings now scan verified auth
