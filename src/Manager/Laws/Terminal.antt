-- ===== src/Manager/Laws/Terminal.antt =====
-- A scan that has ended, under sessions that do not overlap.
use aicybersec.Common.{
  ℕ, ◌≡◌, Bool, true, false, Option, none, some, ok, arith, if◌then◌else◌, if_false,
}
use aicybersec.Common.Text.{Text}
use aicybersec.Scan.{Status, queued, initializing, Scan}
use aicybersec.Scan.State.{is_terminal, status_eq}
use aicybersec.Manager.{Db, Final, Phase, leaving, World}
use aicybersec.Manager.Worker.{
  LiveCheck, begin, enter, finish_scan, mark_failed, recover, recover_at,
}
use aicybersec.Manager.Service.{
  User, enqueue, submit, signal_at, request_cancel, shutdown, cancel_scan, is_cancellable,
}
use aicybersec.Manager.Steps.{
  fail_row, restart, Step, submits, shuts_down, deletes, cancels, signals, begins, enters, finishes,
  vanishes, fails, leaves, restarts, Steps, stay, then_step,
}

-- The row is this one, or is gone.
abbrev pub IsRow : Scan → Option Db → Type 0
IsRow row none = Unit
IsRow row (some db) = db.row ≡ row

not_queued : (s : Status) → is_terminal s ≡ true → status_eq s queued ≡ false
not_queued s h = ground arith

not_initializing : (s : Status) → is_terminal s ≡ true → status_eq s initializing ≡ false
not_initializing s h = ground arith

not_cancellable : (s : Status) → is_terminal s ≡ true → is_cancellable s ≡ false
not_cancellable s h = ground arith

begin-IsRow :
    (row : Scan) (check : LiveCheck) (now : ℕ) (db after : Db) (next : Phase)
    → is_terminal row.status ≡ true
    → db.row ≡ row
    → begin check now db ≡ ok (after, next)
    → after.row ≡ row
unfolding begin
begin-IsRow row check now db after next t r e =
    let n : status_eq db.row.status queued ≡ false = rw r (not_queued row.status t) in
    let same : ok (db, leaving) ≡ ok (after, next) = rw n at e in
    let d : db ≡ after = cc in rw (← d) r

enter-IsRow :
    (row : Scan) (now : ℕ) (db after : Db) (next : Phase)
    → is_terminal row.status ≡ true
    → db.row ≡ row
    → enter now db ≡ ok (after, next)
    → after.row ≡ row
unfolding enter
enter-IsRow row now db after next t r e =
    let n : status_eq db.row.status initializing ≡ false = rw r (not_initializing row.status t) in
    let same : ok (db, leaving) ≡ ok (after, next) = rw n at e in
    let d : db ≡ after = cc in rw (← d) r

finish_scan-IsRow :
    (row : Scan) (final : Final) (now : ℕ) (db : Db)
    → is_terminal row.status ≡ true
    → db.row ≡ row
    → (finish_scan final now db).row ≡ row
unfolding finish_scan
finish_scan-IsRow row final now db t r = let n : is_terminal db.row.status ≡ true = rw r t in rw n r

fail_row-IsRow :
    (row : Scan) (error : Text) (now : ℕ) (db : Option Db)
    → is_terminal row.status ≡ true
    → IsRow row db
    → IsRow row (fail_row error now db)
unfolding fail_row mark_failed
fail_row-IsRow row error now none t r = tt
fail_row-IsRow row error now (some db) t r =
    let n : is_terminal db.row.status ≡ true = rw r t in rw n r

cancel_scan-IsRow :
    (row : Scan) (user : User) (owner : Option ℕ) (now : ℕ) (db : Option Db) (after : Db)
    (signal : Bool)
    → is_terminal row.status ≡ true
    → IsRow row db
    → cancel_scan user owner now db ≡ ok (after, signal)
    → ⊥
unfolding cancel_scan
cancel_scan-IsRow row user owner now none after signal t r e = absurd cc
cancel_scan-IsRow row user owner now (some db) after signal t r e =
    let n : is_cancellable db.row.status ≡ false = rw r (not_cancellable row.status t) in
    absurd (ground arith)

recover_at-IsRow :
    (row : Scan) (s : Status) (now : ℕ) (db : Db)
    → is_terminal s ≡ true
    → db.row ≡ row
    → ((recover_at s now db).0.row ≡ row) × ((recover_at s now db).1 ≡ false)
recover_at-IsRow row s now db t r = ground arith

restart-IsRow :
    (row : Scan) (now : ℕ) (db : Option Db)
    → is_terminal row.status ≡ true
    → IsRow row db
    → IsRow row (restart now db).db
unfolding restart recover
restart-IsRow row now none t r = tt
restart-IsRow row now (some db) t r =
    let n : is_terminal db.row.status ≡ true = rw r t in
    let (same, over) = recover_at-IsRow row db.row.status now db n r in
    if_false (λ (w : World). IsRow row w.db) (recover_at db.row.status now db).1 _ _ over same

submit-db : (w : World) → (submit w).db ≡ w.db
unfolding submit
submit-db w = go w.phase w.shutting_down
  where
    go : (p : Phase) (b : Bool) → (if b then w else enqueue p w).db ≡ w.db
    go p b = ground arith

request_cancel-db : (w : World) → (request_cancel w).0.db ≡ w.db
unfolding request_cancel
request_cancel-db w = go w.phase
  where
    go : (p : Phase) → (signal_at p w).0.db ≡ w.db
    go p = ground arith

Step-IsRow :
    (row : Scan) (w v : World)
    → is_terminal row.status ≡ true
    → IsRow row w.db
    → Step w v
    → IsRow row v.db
unfolding shutdown
Step-IsRow row w v t r submits = rw (submit-db w) r
Step-IsRow row w v t r shuts_down = r
Step-IsRow row w v t r deletes = tt
Step-IsRow row w v t r (cancels user owner now e) =
    absurd (cancel_scan-IsRow row user owner now w.db _ _ t r e)
Step-IsRow row w v t r (signals e) = rw (request_cancel-db w) r
Step-IsRow row w v t r (begins {before} check now p d e) =
    begin-IsRow row check now before _ _ t (rw d at r) e
Step-IsRow row w v t r (enters {before} now p d e) = enter-IsRow row now before _ _ t (rw d at r) e
Step-IsRow row w v t r (finishes {before} final now p d e) =
    finish_scan-IsRow row final now before t (rw d at r)
Step-IsRow row w v t r (vanishes p d) = r
Step-IsRow row w v t r (fails error now p) = fail_row-IsRow row error now w.db t r
Step-IsRow row w v t r (leaves p) = r
Step-IsRow row w v t r (restarts now) = restart-IsRow row now w.db t r

-- For sessions that do not overlap (none starts between another's read and its commit): once a scan is
-- completed, failed or cancelled, no later request, session, failure or restart changes its row; it can
-- only be deleted.
pub Steps-IsRow :
    (row : Scan) (w v : World)
    → is_terminal row.status ≡ true
    → IsRow row w.db
    → Steps w v
    → IsRow row v.db
Steps-IsRow row w v t r stay = r
Steps-IsRow row w v t r (then_step {v = u} before step) =
    Step-IsRow row u v t (Steps-IsRow row w u t r before) step
