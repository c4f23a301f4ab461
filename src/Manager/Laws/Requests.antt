-- ===== src/Manager/Laws/Requests.antt =====
-- Requests to cancel and restarts keep a scan sound.
use aicybersec.Common.{
  ℕ, ◌≡◌, ◌≢◌, refl, Bool, true, false, not, ◌||◌, Option, none, some, ok, err, arith, ◌>>=◌,
  >>=-eq-ok, ◌⊎◌, inl, inr, Bool-cases, if◌then◌else◌, [], Result,
}
use aicybersec.Scan.{
  Status, queued, initializing, running, cancelling, completed, failed, cancelled,
}
use aicybersec.Scan.State.{status_eq, can_transition, apply_transition, is_terminal}
use aicybersec.Manager.{Db, Phase, idle}
use aicybersec.Manager.Worker.{recover_at, recover, move_row}
use aicybersec.Manager.Service.{
  User, cancel_scan, may_see, is_cancellable, ServiceError, from_state,
}
use aicybersec.Manager.Laws.Moves.{
  is_stopping, fits, IsSound, move_row-IsSound, or_rollback-IsSound, move_row_ok,
}

-- Soundness reads the row alone.
same_row-IsSound :
    (a b : Db) (phase : Phase) (asked : Bool)
    → a.row ≡ b.row
    → IsSound a phase asked
    → IsSound b phase asked
same_row-IsSound a b phase asked e h = record {
  consistent = rw (← e) h.consistent;
  phase_fits = rw (← e) h.phase_fits;
  profile_fits = rw (← e) h.profile_fits;
  asked_fits = rw (← e) h.asked_fits;
}

-- A request that succeeds leaves a sound scan; where it signals the worker, one that is being stopped.
abbrev pub SoundRequest : Phase → Bool → Result ServiceError (Db × Bool) → Type 0
SoundRequest phase asked (err e) = Unit
SoundRequest phase asked (ok (db, signal)) = IsSound db phase (signal || asked)

request-SoundRequest :
    (db : Db) (target : Status) (now : ℕ) (phase : Phase) (asked signal : Bool)
    → IsSound db phase asked
    → can_transition db.row.status target ≡ true
    → fits phase target ≡ true
    → is_stopping target ≡ true
    → SoundRequest phase asked (
        from_state (apply_transition db.row target none now) >>= λ row.
        ok (record db { row = row }, signal))
unfolding move_row
request-SoundRequest db target now phase asked signal h can f stop =
    let (after, e, st) = move_row_ok db target none now (λ row. []) can in
    let sound =
      move_row-IsSound db after target none now (λ row. []) phase phase asked h e f h.profile_fits
        (any asked stop) in
    let (row, er, rest) = >>=-eq-ok (apply_transition db.row target none now) _ e in
    let same : after.row ≡ row = cc in
    let next : Db = record db { row = row } in
    rw er (
      told next phase asked signal (same_row-IsSound after next phase asked same sound)
        (rw (← same, st) stop))
  where
    any : (b : Bool) → is_stopping target ≡ true → (not b || is_stopping target) ≡ true
    any b s = ground arith

    told :
        (d : Db) (p : Phase) (a b : Bool)
        → IsSound d p a
        → is_stopping d.row.status ≡ true
        → IsSound d p (b || a)
    told d p a b h s = record {
      consistent = h.consistent;
      phase_fits = h.phase_fits;
      profile_fits = h.profile_fits;
      asked_fits = ground arith;
    }

-- A request to cancel, whoever sends it and whenever it arrives, keeps the scan sound.
pub cancel_scan-SoundRequest :
    (user : User) (owner : Option ℕ) (now : ℕ) (db : Db) (phase : Phase) (asked : Bool)
    → IsSound db phase asked
    → SoundRequest phase asked (cancel_scan user owner now (some db))
unfolding cancel_scan can_transition
cancel_scan-SoundRequest user owner now db phase asked h = elim (Bool-cases (may_see user owner)) [
  | inr hidden ↦ rw hidden tt
  | inl seen ↦ rw seen (go db.row.status refl)
]
  where
    at_running : (p : Phase) → fits p running ≡ true → fits p cancelling ≡ true
    at_running p f = ground arith

    at_queued : (p : Phase) → fits p queued ≡ true → fits p cancelled ≡ true
    at_queued p f = ground arith

    at_initializing : (p : Phase) → fits p initializing ≡ true → fits p cancelled ≡ true
    at_initializing p f = ground arith

    go :
        (s : Status)
        → db.row.status ≡ s
        → SoundRequest phase asked (
            if not (is_cancellable db.row.status)
            then err ServiceError.scan_not_cancellable
            else (elim db.row.status [
              | running ↦ do
                row ← from_state (apply_transition db.row cancelling none now)
                ok (record db { row = row }, true)
              | other ↦ do
                row ← from_state (apply_transition db.row cancelled none now)
                ok (record db { row = row }, false)
            ]))
    go queued q = rw q (
        request-SoundRequest db cancelled now phase asked false h (rw q refl)
          (at_queued phase (rw q at h.phase_fits)) refl)
    go initializing q = rw q (
        request-SoundRequest db cancelled now phase asked false h (rw q refl)
          (at_initializing phase (rw q at h.phase_fits)) refl)
    go running q = rw q (
        request-SoundRequest db cancelling now phase asked true h (rw q refl)
          (at_running phase (rw q at h.phase_fits)) refl)
    go cancelling q = rw q tt
    go completed q = rw q tt
    go failed q = rw q tt
    go cancelled q = rw q tt

not_queued : {t : Status} (s : Status) → t ≡ s → status_eq s queued ≡ false → t ≢ queued
not_queued s q h e = let same : status_eq s queued ≡ true = rw (← q, e) refl in cc

-- Where `recover` leaves a sound scan: a queued one as it was, to be submitted again; one that is not
-- queued is not submitted, and is terminal. It is sound without a worker.
pub recover_lem :
    (now : ℕ) (db : Db) (phase : Phase) (asked : Bool)
    → IsSound db phase asked
    → IsSound (recover now db).0 idle false
      × (((db.row.status ≡ queued) × (recover now db ≡ (db, true)))
          ⊎ ((db.row.status ≢ queued)
              × ((recover now db).1 ≡ false)
              × (is_terminal (recover now db).0.row.status ≡ true)))
unfolding recover can_transition
recover_lem now db phase asked h = go db.row.status refl
  where
    quiet : IsSound db phase false
    quiet = record {
      consistent = h.consistent;
      phase_fits = h.phase_fits;
      profile_fits = h.profile_fits;
      asked_fits = refl;
    }

    rests : fits idle db.row.status ≡ true → IsSound db idle false
    rests f = record {
      consistent = h.consistent;
      phase_fits = f;
      profile_fits = refl;
      asked_fits = refl;
    }

    go :
        (s : Status)
        → db.row.status ≡ s
        → IsSound (recover_at s now db).0 idle false
          × (((db.row.status ≡ queued) × (recover_at s now db ≡ (db, true)))
              ⊎ ((db.row.status ≢ queued)
                  × ((recover_at s now db).1 ≡ false)
                  × (is_terminal (recover_at s now db).0.row.status ≡ true)))
    go queued q = (rests (rw q refl), inl (q, refl))
    go initializing q =
        let (sound, st) =
          or_rollback-IsSound db failed _ now _ phase idle false quiet (rw q refl) refl refl refl in
        (sound, inr (not_queued initializing q refl, refl, rw st refl))
    go running q =
        let (sound, st) =
          or_rollback-IsSound db failed _ now _ phase idle false quiet (rw q refl) refl refl refl in
        (sound, inr (not_queued running q refl, refl, rw st refl))
    go cancelling q =
        let (sound, st) =
          or_rollback-IsSound db cancelled _ now _ phase idle false quiet (rw q refl) refl refl
            refl in
        (sound, inr (not_queued cancelling q refl, refl, rw st refl))
    go completed q = (rests (rw q refl), inr (not_queued completed q refl, refl, rw q refl))
    go failed q = (rests (rw q refl), inr (not_queued failed q refl, refl, rw q refl))
    go cancelled q = (rests (rw q refl), inr (not_queued cancelled q refl, refl, rw q refl))
