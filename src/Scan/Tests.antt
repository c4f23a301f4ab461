-- ===== src/Scan/Tests.antt =====
-- Concrete runs of backend/services/scan_state.py.
use aicybersec.Common.{◌≡◌, refl, none, some, [], ok}
use aicybersec.Scan.{queued, initializing, pipeline, recon, Scan}
use aicybersec.Scan.State.{can_transition, apply_transition}
use aicybersec.Scan.Lifecycle.{IsConsistent, apply_transition-IsConsistent}

abbrev new_scan : Scan
new_scan = record {
  project_id = 7;
  status = queued;
  mode = pipeline;
  profile = recon;
  goal = none;
  target_snapshot = [];
  max_steps = none;
  tool_timeout_s = 60;
  error = none;
  started_at = none;
  completed_at = none;
  cancelled_at = none;
}

abbrev started : Scan
started = record new_scan { status = initializing; started_at = some 5 }

new_scan-IsConsistent : IsConsistent new_scan
new_scan-IsConsistent = record {
  completed_fits = refl;
  cancelled_fits = refl;
  started_fits = refl;
  error_fits = refl;
}

start : apply_transition new_scan initializing none 5 ≡ ok started
unfolding apply_transition can_transition
start = refl

apply_transition-IsConsistent_example : IsConsistent started
apply_transition-IsConsistent_example =
    apply_transition-IsConsistent new_scan started initializing none 5 new_scan-IsConsistent start
