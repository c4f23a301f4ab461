-- ===== src/Manager/Laws/Moves.antt =====
-- The sessions of the worker and of the requests keep one scan sound.
use aicybersec.Common.{
  ℕ, ◌≡◌, refl, Bool, true, false, not, ◌||◌, Option, ok, arith, >>=-eq-ok, List,
}
use aicybersec.Common.Text.{Text}
use aicybersec.Scan.{
  Status, queued, initializing, running, cancelling, cancelled, Profile, live_probe, Scan,
}
use aicybersec.Scan.State.{can_transition, apply_transition, is_terminal, stamp}
use aicybersec.Scan.Lifecycle.{IsConsistent, apply_transition-IsConsistent}
use aicybersec.Runtime.Data.{RunStatus}
use aicybersec.Manager.{Db, Final, Phase, resolving, executing, leaving, ScanEvent}
use aicybersec.Manager.Worker.{finish_scan, ending, move_row, or_rollback}

-- A status from which a scan does not get to work any more.
abbrev pub is_stopping : Status → Bool
is_stopping queued = false
is_stopping initializing = false
is_stopping running = false
is_stopping _ = true

-- The status agrees with where the worker is: a scan that is initializing or running has a worker
-- there, and a worker there has such a scan or one that was cancelled meanwhile.
abbrev pub fits : Phase → Status → Bool
fits resolving initializing = true
fits resolving cancelled = true
fits resolving _ = false
fits executing running = true
fits executing cancelling = true
fits executing _ = false
fits _ initializing = false
fits _ running = false
fits _ _ = true

-- A live probe has no worker past the first session.
abbrev pub may_work : Phase → Profile → Bool
may_work resolving live_probe = false
may_work executing live_probe = false
may_work _ _ = true

-- `asked` says that the worker was told to stop, or is about to be.
pub record IsSound (db : Db) (phase : Phase) (asked : Bool) : Type 0 where
  pub consistent : IsConsistent db.row
  pub phase_fits : fits phase db.row.status ≡ true
  pub profile_fits : may_work phase db.row.profile ≡ true
  pub asked_fits : (not asked || is_stopping db.row.status) ≡ true

-- What an accepted transition does to the columns that soundness reads.
moved :
    (s t : Scan) (target : Status) (error : Option Text) (now : ℕ)
    → apply_transition s target error now ≡ ok t
    → (t.status ≡ target) × (t.profile ≡ s.profile) × (can_transition s.status target ≡ true)
unfolding apply_transition
moved s t target error now e = ground arith

pub move_row-IsSound :
    (db after : Db) (target : Status) (error : Option Text) (now : ℕ)
    (events : Scan → List ScanEvent) (phase next : Phase) (asked : Bool)
    → IsSound db phase asked
    → move_row db target error now events ≡ ok after
    → fits next target ≡ true
    → may_work next db.row.profile ≡ true
    → (not asked || is_stopping target) ≡ true
    → IsSound after next asked
unfolding move_row
move_row-IsSound db after target error now events phase next asked h e f m a =
    let (row, er, rest) = >>=-eq-ok (apply_transition db.row target error now) _ e in
    let (st, pr, can) = moved db.row row target error now er in
    let same : after.row ≡ row = cc in
    record {
      consistent =
          rw same (apply_transition-IsConsistent db.row row target error now h.consistent er);
      phase_fits = rw (same, st) f;
      profile_fits = rw (same, pr) m;
      asked_fits = rw (same, st) a;
    }

stamp-status :
    (t : Status) (error : Option Text) (now : ℕ) (s : Scan)
    → (stamp t error now (record s { status = t })).status ≡ t
stamp-status t error now s = ground arith

pub move_row_ok :
    (db : Db) (target : Status) (error : Option Text) (now : ℕ) (events : Scan → List ScanEvent)
    → can_transition db.row.status target ≡ true
    → (after : Db) × (move_row db target error now events ≡ ok after) × (after.row.status ≡ target)
unfolding move_row apply_transition
move_row_ok db target error now events can = rw can (_, refl, stamp-status target error now db.row)

-- A session whose transition is allowed is not rolled back.
pub or_rollback-IsSound :
    (db : Db) (target : Status) (error : Option Text) (now : ℕ) (events : Scan → List ScanEvent)
    (phase next : Phase) (asked : Bool)
    → IsSound db phase asked
    → can_transition db.row.status target ≡ true
    → fits next target ≡ true
    → may_work next db.row.profile ≡ true
    → (not asked || is_stopping target) ≡ true
    → IsSound (or_rollback db (move_row db target error now events)) next asked
      × ((or_rollback db (move_row db target error now events)).row.status ≡ target)
or_rollback-IsSound db target error now events phase next asked h can f m a =
    let (after, e, st) = move_row_ok db target error now events can in
    rw e (move_row-IsSound db after target error now events phase next asked h e f m a, st)

-- A run says that it was cancelled only where it was told to stop.
abbrev pub honest : Final → Bool → Bool
honest final asked = elim final.status [ RunStatus.cancelled ↦ asked | other ↦ true ]

-- How a run of a sound scan ends: the transition is one that the status allows.
ending-fits :
    (s : Status) (final : Final) (asked : Bool)
    → fits executing s ≡ true
    → honest final asked ≡ true
    → (not asked || is_stopping s) ≡ true
    → (can_transition s (ending s final).0 ≡ true)
      × (is_terminal (ending s final).0 ≡ true)
      × (is_terminal s ≡ false)
unfolding can_transition
ending-fits s final asked f h a = ground arith

pub terminal_fits :
    (s : Status) (p : Profile) (asked : Bool)
    → is_terminal s ≡ true
    → (fits leaving s ≡ true) × (may_work leaving p ≡ true) × ((not asked || is_stopping s) ≡ true)
terminal_fits s p asked h = ground arith

-- A run that ends leaves its scan in a terminal status: the transition never fails. So no scan is left
-- behind in running or cancelling when its run has ended.
pub finish_scan_ends :
    (final : Final) (now : ℕ) (db : Db) (asked : Bool)
    → IsSound db executing asked
    → honest final asked ≡ true
    → IsSound (finish_scan final now db) leaving asked
      × (is_terminal (finish_scan final now db).row.status ≡ true)
unfolding finish_scan
finish_scan_ends final now db asked h honest =
    let target = (ending db.row.status final).0 in
    let (can, end, going) =
      ending-fits db.row.status final asked h.phase_fits honest h.asked_fits in
    let (f, m, a) = terminal_fits target db.row.profile asked end in
    let (sound, st) =
      or_rollback-IsSound db target (ending db.row.status final).1 now _ executing leaving asked h
        can f m a in
    rw going (sound, rw st end)
