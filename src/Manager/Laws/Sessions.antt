-- ===== src/Manager/Laws/Sessions.antt =====
-- Each session of backend/services/scan_manager.py and backend/services/scan_service.py keeps a scan
-- sound.
use aicybersec.Common.{
  ℕ, ◌≡◌, ◌≢◌, refl, sym, Bool, true, false, not, ◌||◌, Option, none, ok, err, arith, ◌>>=◌, ◌⊎◌,
  inl, inr, Bool-cases, List, Result,
}
use mathlib.Core.Path.{subst}
use aicybersec.Common.Text.{Text}
use aicybersec.Scan.{Status, queued, initializing, running, cancelling, failed, Profile, Scan}
use aicybersec.Scan.State.{StateError, status_eq, can_transition, apply_transition, is_terminal}
use aicybersec.Manager.{Db, Phase, waiting, resolving, executing, leaving, ScanEvent}
use aicybersec.Manager.Worker.{
  LiveCheck, begin, enter, mark_failed, move_row, or_rollback, refuse_live_probe, is_live_probe,
}
use aicybersec.Manager.Laws.Moves.{
  is_stopping, fits, may_work, IsSound, move_row-IsSound, or_rollback-IsSound, terminal_fits,
  move_row_ok,
}

-- A scan may be left where its status is not that of a scan at work.
pub resting :
    (db : Db) (phase : Phase) (asked : Bool)
    → IsSound db phase asked
    → status_eq db.row.status initializing ≡ false
    → status_eq db.row.status running ≡ false
    → IsSound db leaving asked
resting db phase asked h i r = record {
  consistent = h.consistent;
  phase_fits = still db.row.status i r;
  profile_fits = refl;
  asked_fits = h.asked_fits;
}
  where
    still :
        (s : Status)
        → status_eq s initializing ≡ false
        → status_eq s running ≡ false
        → fits leaving s ≡ true
    still s i r = ground arith

queued_eq : (s : Status) → status_eq s queued ≡ true → s ≡ queued
queued_eq s h = ground arith

initializing_eq : (s : Status) → status_eq s initializing ≡ true → s ≡ initializing
initializing_eq s h = ground arith

waiting_rests :
    (s : Status)
    → fits waiting s ≡ true
    → (status_eq s initializing ≡ false) × (status_eq s running ≡ false)
waiting_rests s h = ground arith

resolving_rests :
    (s : Status)
    → fits resolving s ≡ true
    → status_eq s initializing ≡ false
    → status_eq s running ≡ false
resolving_rests s h i = ground arith

open_asked :
    (s : Status) (asked b : Bool)
    → is_stopping s ≡ false
    → (not asked || is_stopping s) ≡ true
    → (not asked || b) ≡ true
open_asked s asked b o h = ground arith

not_live_work : (p : Profile) → is_live_probe p ≡ false → may_work resolving p ≡ true
not_live_work p h = ground arith

-- A session of the worker ends without an exception, in a sound scan.
abbrev pub SoundAfter : Bool → Result StateError (Db × Phase) → Type 0
SoundAfter asked (err e) = ⊥
SoundAfter asked (ok (db, phase)) = IsSound db phase asked

-- A session that makes one allowed transition.
moves-SoundAfter :
    (db : Db) (target : Status) (error : Option Text) (now : ℕ) (events : Scan → List ScanEvent)
    (phase next : Phase) (asked : Bool)
    → IsSound db phase asked
    → can_transition db.row.status target ≡ true
    → fits next target ≡ true
    → may_work next db.row.profile ≡ true
    → (not asked || is_stopping target) ≡ true
    → SoundAfter asked (move_row db target error now events >>= λ after. ok (after, next))
moves-SoundAfter db target error now events phase next asked h can f m a =
    let (after, e, st) = move_row_ok db target error now events can in
    rw e (move_row-IsSound db after target error now events phase next asked h e f m a)

-- The first session of a waiting worker never raises, and keeps the scan sound.
pub begin-SoundAfter :
    (check : LiveCheck) (now : ℕ) (db : Db) (asked : Bool)
    → IsSound db waiting asked
    → SoundAfter asked (begin check now db)
unfolding begin refuse_live_probe can_transition
begin-SoundAfter check now db asked h = elim (Bool-cases (status_eq db.row.status queued)) [
  | inr other ↦
      let (i, r) = waiting_rests db.row.status h.phase_fits in
      rw other (resting db waiting asked h i r)
  | inl is_queued ↦
      let q : db.row.status ≡ queued = queued_eq db.row.status is_queued in
      let a : (b : Bool) → (not asked || b) ≡ true =
        λ b. open_asked db.row.status asked b (rw q refl) h.asked_fits in
      elim (Bool-cases (is_live_probe db.row.profile)) [
        | inl live ↦
            rw (is_queued, live)
              (or_rollback-IsSound db failed _ now _ waiting leaving asked h (rw q refl) refl refl
                (a true)).0
        | inr plain ↦
            rw (is_queued, plain)
              (moves-SoundAfter db initializing none now _ waiting resolving asked h (rw q refl)
                refl (not_live_work db.row.profile plain) (a false))
      ]
]

-- The second session never raises, and keeps the scan sound.
pub enter-SoundAfter :
    (now : ℕ) (db : Db) (asked : Bool)
    → IsSound db resolving asked
    → SoundAfter asked (enter now db)
unfolding enter can_transition
enter-SoundAfter now db asked h = elim (Bool-cases (status_eq db.row.status initializing)) [
  | inr other ↦
      rw other
        (resting db resolving asked h other (resolving_rests db.row.status h.phase_fits other))
  | inl is_initializing ↦
      let q : db.row.status ≡ initializing = initializing_eq db.row.status is_initializing in
      rw is_initializing (
        moves-SoundAfter db running none now _ resolving executing asked h (rw q refl) refl
          (same_work db.row.profile h.profile_fits)
          (open_asked db.row.status asked false (rw q refl) h.asked_fits))
]
  where
    same_work : (p : Profile) → may_work resolving p ≡ true → may_work executing p ≡ true
    same_work p h = ground arith

refused :
    (db : Db) (target : Status) (error : Option Text) (now : ℕ) (events : Scan → List ScanEvent)
    → can_transition db.row.status target ≡ false
    → or_rollback db (move_row db target error now events) ≡ db
unfolding move_row apply_transition
refused db target error now events can = rw can refl

cancelling_eq : (s : Status) → status_eq s cancelling ≡ true → s ≡ cancelling
cancelling_eq s h = ground arith

not_stopping : (s : Status) → status_eq s cancelling ≡ false → s ≢ cancelling
not_stopping s o e = let same : status_eq s cancelling ≡ true = rw e refl in cc

mark_failed-cancelling :
    (error : Text) (now : ℕ) (db : Db) → db.row.status ≡ cancelling → mark_failed error now db ≡ db
unfolding mark_failed can_transition
mark_failed-cancelling error now db q =
    let going : is_terminal db.row.status ≡ false = rw q refl in
    rw going (refused db failed _ now _ (rw q refl))

-- `_mark_failed` on a sound scan: a scan that was being cancelled stays so, since that transition
-- is refused and the refusal is swallowed; a terminal scan stays; a scan that is neither is failed. The
-- scan is sound after it.
pub mark_failed_lem :
    (error : Text) (now : ℕ) (db : Db) (phase : Phase) (asked : Bool)
    → IsSound db phase asked
    → IsSound (mark_failed error now db) leaving asked
      × (((db.row.status ≡ cancelling) × (mark_failed error now db ≡ db))
          ⊎ ((is_terminal db.row.status ≡ true) × (mark_failed error now db ≡ db))
          ⊎ ((is_terminal db.row.status ≡ false)
              × (db.row.status ≢ cancelling)
              × ((mark_failed error now db).row.status ≡ failed)))
unfolding mark_failed can_transition
mark_failed_lem error now db phase asked h = elim (Bool-cases (is_terminal db.row.status)) [
  | inl ended ↦
      let (f, m, a) = terminal_fits db.row.status db.row.profile asked ended in
      rw ended (
        record {
          consistent = h.consistent;
          phase_fits = f;
          profile_fits = m;
          asked_fits = h.asked_fits;
        },
        inr (inl (refl, refl)),
      )
  | inr going ↦ elim (Bool-cases (status_eq db.row.status cancelling)) [
    | inl stopping ↦
        let q : db.row.status ≡ cancelling = cancelling_eq db.row.status stopping in
        let same = mark_failed-cancelling error now db q in
        let rest = resting db phase asked h (rw q refl) (rw q refl) in
        (subst (λ d. IsSound d leaving asked) (sym same) rest, inl (q, same))
    | inr other ↦
        let (sound, st) =
          or_rollback-IsSound db failed _ now _ phase leaving asked h
            (can_fail db.row.status going other) refl refl (any asked) in
        rw going (sound, inr (inr (refl, not_stopping db.row.status other, st)))
  ]
]
  where
    any : (b : Bool) → (not b || true) ≡ true
    any b = ground arith

    can_fail :
        (s : Status)
        → is_terminal s ≡ false
        → status_eq s cancelling ≡ false
        → can_transition s failed ≡ true
    can_fail s g o = ground arith
