-- ===== src/Manager/Tests.antt =====
-- Concrete worlds of one scan.
use aicybersec.Common.{◌≡◌, ◌≢◌, refl, true, false, Option, none, some, [], ◌∷◌, ◌⊎◌, ok, err}
use aicybersec.Common.Text.{codes}
use aicybersec.Scan.{queued, running, cancelling, completed, failed, pipeline, recon, Scan}
use aicybersec.Scan.State.{is_terminal}
use aicybersec.Runtime.Data.{RunStatus}
use aicybersec.Manager.{Db, Final, Phase, idle, executing, leaving, World}
use aicybersec.Manager.Worker.{finish_scan, mark_failed, recover}
use aicybersec.Manager.Service.{ScanCreate, new_scan, create_scan, scan_already_running}
use aicybersec.Manager.Steps.{restarts, restart, stay, then_step}
use aicybersec.Manager.Laws.{IsSoundWorld, Steps-IsSoundWorld}
use aicybersec.Manager.Laws.Moves.{IsSound, finish_scan_ends}
use aicybersec.Manager.Laws.Sessions.{mark_failed_lem}
use aicybersec.Manager.Laws.Requests.{recover_lem}
use aicybersec.Manager.Laws.Terminal.{IsRow, Steps-IsRow}
use aicybersec.Manager.Laws.Creation.{IsTaken, HasOneActive, create_scan_lem}

abbrev body : ScanCreate
body = record {
  project_id = 7;
  mode = pipeline;
  profile = recon;
  goal = none;
  max_steps = none;
  tool_timeout_s = 60;
}

abbrev row : Scan
row = new_scan body []

abbrev busy : Db
busy = record { row = record row { status = running; started_at = some 1 }; events = [] }

abbrev stopping : Db
stopping = record { row = record busy.row { status = cancelling }; events = [] }

abbrev ended : Db
ended = record {
  row = record row { status = completed; started_at = some 1; completed_at = some 2 };
  events = [];
}

abbrev world : Option Db → Phase → World
world db phase = record {
  db = db;
  phase = phase;
  cancel = false;
  pending = false;
  shutting_down = false;
}

busy-IsSound : IsSound busy executing false
busy-IsSound = record {
  consistent = record {
    completed_fits = refl;
    cancelled_fits = refl;
    started_fits = refl;
    error_fits = refl;
  };
  phase_fits = refl;
  profile_fits = refl;
  asked_fits = refl;
}

stopping-IsSound : IsSound stopping executing false
stopping-IsSound = record {
  consistent = record {
    completed_fits = refl;
    cancelled_fits = refl;
    started_fits = refl;
    error_fits = refl;
  };
  phase_fits = refl;
  profile_fits = refl;
  asked_fits = refl;
}

abbrev ok_run : Final
ok_run = record { status = RunStatus.finished; error = none }

finish_scan_ends_example :
    IsSound (finish_scan ok_run 5 busy) leaving false
    × (is_terminal (finish_scan ok_run 5 busy).row.status ≡ true)
finish_scan_ends_example = finish_scan_ends ok_run 5 busy false busy-IsSound refl

mark_failed_lem_example :
    IsSound (mark_failed (codes "x") 5 stopping) leaving false
    × (((stopping.row.status ≡ cancelling) × (mark_failed (codes "x") 5 stopping ≡ stopping))
        ⊎ ((is_terminal stopping.row.status ≡ true)
            × (mark_failed (codes "x") 5 stopping ≡ stopping))
        ⊎ ((is_terminal stopping.row.status ≡ false)
            × (stopping.row.status ≢ cancelling)
            × ((mark_failed (codes "x") 5 stopping).row.status ≡ failed)))
mark_failed_lem_example = mark_failed_lem (codes "x") 5 stopping executing false stopping-IsSound

recover_lem_example :
    IsSound (recover 5 busy).0 idle false
    × (((busy.row.status ≡ queued) × (recover 5 busy ≡ (busy, true)))
        ⊎ ((busy.row.status ≢ queued)
            × ((recover 5 busy).1 ≡ false)
            × (is_terminal (recover 5 busy).0.row.status ≡ true)))
recover_lem_example = recover_lem 5 busy executing false busy-IsSound

-- A scan that is running when the back end stops is failed by the next start.
Steps-IsSoundWorld_example : IsSoundWorld (restart 5 (some busy))
Steps-IsSoundWorld_example =
    Steps-IsSoundWorld (world (some busy) executing) (restart 5 (some busy)) busy-IsSound
      (then_step stay (restarts 5))

Steps-IsRow_example : IsRow ended.row (restart 5 (some ended)).db
Steps-IsRow_example =
    Steps-IsRow ended.row (world (some ended) idle) (restart 5 (some ended)) refl refl
      (then_step stay (restarts 5))

create_scan_lem_example :
    (IsTaken 7 (row ∷ []) × (create_scan body [] (row ∷ []) ≡ err scan_already_running))
    ⊎ ((¬ IsTaken 7 (row ∷ []))
        × ((s : Scan) × (create_scan body [] (row ∷ []) ≡ ok (s ∷ row ∷ []))
            × (s.status ≡ queued)
            × (s.project_id ≡ 7)
            × (s.target_snapshot ≡ [])
            × HasOneActive (s ∷ row ∷ [])))
create_scan_lem_example = create_scan_lem body [] (row ∷ []) ((λ (a, (s, m, p, t)). m), tt)
