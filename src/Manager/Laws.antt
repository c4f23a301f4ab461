-- ===== src/Manager/Laws.antt =====
-- What holds of a scan under its worker, its requests and restarts, where their sessions do not overlap.
pub mod Moves
pub mod Sessions
pub mod Requests
pub mod Terminal
pub mod Creation
use mathlib.Core.Path.{subst}
use aicybersec.Common.{
  ℕ, ◌≡◌, refl, sym, ap, Bool, true, false, not, ◌||◌, ◌&&◌, Option, none, some, ok, err, arith,
  ◌⊎◌, inl, inr, if◌then◌else◌, Result, Bool-cases, if_true, if_false,
}
use aicybersec.Common.Text.{Text}
use aicybersec.Scan.{Status, queued, cancelling, failed, Scan, Profile}
use aicybersec.Scan.State.{StateError, is_terminal}
use aicybersec.Runtime.Data.{RunStatus}
use aicybersec.Manager.{Db, Final, Phase, idle, waiting, resolving, executing, leaving, World}
use aicybersec.Manager.Worker.{begin, enter, finish_scan, mark_failed, recover}
use aicybersec.Manager.Service.{
  User, enqueue, submit, signal_at, request_cancel, shutdown, cancel_scan, ServiceError,
}
use aicybersec.Manager.Steps.{
  is_working, with_db, fail_row, fresh, restart, is_honest, Step, submits, shuts_down, deletes,
  cancels, signals, begins, enters, finishes, vanishes, fails, leaves, restarts, Steps, stay,
  then_step,
}
use aicybersec.Manager.Laws.Moves.{IsSound, honest, finish_scan_ends, fits, may_work, is_stopping}
use aicybersec.Manager.Laws.Sessions.{
  SoundAfter, begin-SoundAfter, enter-SoundAfter, mark_failed_lem,
}
use aicybersec.Manager.Laws.Requests.{SoundRequest, cancel_scan-SoundRequest, recover_lem}

abbrev pub SoundDb : Option Db → Phase → Bool → Type 0
SoundDb none phase asked = Unit
SoundDb (some db) phase asked = IsSound db phase asked

-- The scan of a world, where its row is there, is sound for where its worker is.
abbrev pub IsSoundWorld : World → Type 0
IsSoundWorld w = SoundDb w.db w.phase (w.cancel || w.pending)

-- What soundness reads may change as long as it still holds.
SoundDb-change :
    (db : Option Db) (p q : Phase) (a b : Bool)
    → ((s : Status) → fits p s ≡ true → fits q s ≡ true)
    → ((r : Profile) → may_work p r ≡ true → may_work q r ≡ true)
    → ((s : Status) → (not a || is_stopping s) ≡ true → (not b || is_stopping s) ≡ true)
    → SoundDb db p a
    → SoundDb db q b
SoundDb-change none p q a b f m s h = tt
SoundDb-change (some db) p q a b f m s h = record {
  consistent = h.consistent;
  phase_fits = f _ h.phase_fits;
  profile_fits = m _ h.profile_fits;
  asked_fits = s _ h.asked_fits;
}

idle_to_waiting : (s : Status) → fits idle s ≡ true → fits waiting s ≡ true
idle_to_waiting s h = ground arith

leaving_to_idle : (s : Status) → fits leaving s ≡ true → fits idle s ≡ true
leaving_to_idle s h = ground arith

less_asked : (a b s : Bool) → (not (a || b) || s) ≡ true → (not b || s) ≡ true
less_asked a b s h = ground arith

enqueue-IsSoundWorld :
    (p : Phase) (w : World) → w.phase ≡ p → IsSoundWorld w → IsSoundWorld (enqueue p w)
enqueue-IsSoundWorld idle w e h =
    SoundDb-change w.db w.phase waiting (w.cancel || w.pending) w.pending
      (λ s f. idle_to_waiting s (rw e at f)) (λ r m. refl)
      (λ s a. less_asked w.cancel w.pending (is_stopping s) a) h
enqueue-IsSoundWorld waiting w e h = h
enqueue-IsSoundWorld resolving w e h = h
enqueue-IsSoundWorld executing w e h = h
enqueue-IsSoundWorld leaving w e h = h

submit-IsSoundWorld : (w : World) → IsSoundWorld w → IsSoundWorld (submit w)
unfolding submit
submit-IsSoundWorld w h = elim (Bool-cases w.shutting_down) [
  | inl down ↦ if_true IsSoundWorld w.shutting_down w (enqueue w.phase w) down h
  | inr up ↦
      if_false IsSoundWorld w.shutting_down w (enqueue w.phase w) up
        (enqueue-IsSoundWorld w.phase w refl h)
]

SoundAfter-ok :
    (asked : Bool) (db : Db) (phase : Phase) (r : Result StateError (Db × Phase))
    → SoundAfter asked r
    → r ≡ ok (db, phase)
    → IsSound db phase asked
SoundAfter-ok asked db phase r h e = subst (SoundAfter asked) e h

-- The session of a request, and its signal.
cancel_scan-SoundDb :
    (user : User) (owner : Option ℕ) (now : ℕ) (before : Option Db) (after : Db) (signal : Bool)
    (phase : Phase) (cancel pending : Bool)
    → SoundDb before phase (cancel || pending)
    → cancel_scan user owner now before ≡ ok (after, signal)
    → IsSound after phase (cancel || (signal || pending))
unfolding cancel_scan
cancel_scan-SoundDb user owner now none after signal phase cancel pending h e = absurd cc
cancel_scan-SoundDb user owner now (some db) after signal phase cancel pending h e =
    SoundDb-change (some after) phase phase (signal || (cancel || pending))
      (cancel || (signal || pending)) (λ s f. f) (λ r m. m) (λ s a. ground arith)
      (subst (SoundRequest phase (cancel || pending)) e
        (cancel_scan-SoundRequest user owner now db phase (cancel || pending) h))

signal_at-IsSoundWorld :
    (p : Phase) (w : World)
    → w.pending ≡ true
    → IsSoundWorld w
    → IsSoundWorld (record (signal_at p w).0 { pending = false })
signal_at-IsSoundWorld p w e h = go p
  where
    told : SoundDb w.db w.phase true
    told =
        SoundDb-change w.db w.phase w.phase (w.cancel || w.pending) true (λ s f. f) (λ r m. m)
          (λ s a. ground arith) h

    dropped : SoundDb w.db w.phase (w.cancel || false)
    dropped =
        SoundDb-change w.db w.phase w.phase (w.cancel || w.pending) (w.cancel || false) (λ s f. f)
          (λ r m. m) (λ s a. ground arith) h

    go : (q : Phase) → IsSoundWorld (record (signal_at q w).0 { pending = false })
    go idle = dropped
    go waiting = told
    go resolving = told
    go executing = told
    go leaving = told

honest_more :
    (w : World) (final : Final)
    → is_honest w final ≡ true
    → honest final (w.cancel || w.pending) ≡ true
honest_more w final h = ground arith

fail_row-SoundDb :
    (error : Text) (now : ℕ) (db : Option Db) (phase : Phase) (asked : Bool)
    → SoundDb db phase asked
    → SoundDb (fail_row error now db) leaving asked
unfolding fail_row
fail_row-SoundDb error now none phase asked h = tt
fail_row-SoundDb error now (some db) phase asked h = (mark_failed_lem error now db phase asked h).0

restart-IsSoundWorld :
    (now : ℕ) (db : Option Db) (phase : Phase) (asked : Bool)
    → SoundDb db phase asked
    → IsSoundWorld (restart now db)
unfolding restart
restart-IsSoundWorld now none phase asked h = tt
restart-IsSoundWorld now (some db) phase asked h =
    let sound = (recover_lem now db phase asked h).0 in
    let (after, again) = recover now db in
    elim (Bool-cases again) [
      | inl renewed ↦
          if_true IsSoundWorld again _ _ renewed (submit-IsSoundWorld (fresh (some after)) sound)
      | inr over ↦ if_false IsSoundWorld again _ _ over sound
    ]

-- Every step keeps a scan sound.
Step-IsSoundWorld : (w v : World) → IsSoundWorld w → Step w v → IsSoundWorld v
unfolding shutdown request_cancel
Step-IsSoundWorld w v h submits = submit-IsSoundWorld w h
Step-IsSoundWorld w v h shuts_down = h
Step-IsSoundWorld w v h deletes = tt
Step-IsSoundWorld w v h (cancels user owner now e) =
    cancel_scan-SoundDb user owner now w.db _ _ w.phase w.cancel w.pending h e
Step-IsSoundWorld w v h (signals e) = signal_at-IsSoundWorld w.phase w e h
Step-IsSoundWorld w v h (begins {before} {after} {next} check now p d e) =
    SoundAfter-ok _ after next _ (begin-SoundAfter check now before _ (rw (p, d) at h)) e
Step-IsSoundWorld w v h (enters {before} {after} {next} now p d e) =
    SoundAfter-ok _ after next _ (enter-SoundAfter now before _ (rw (p, d) at h)) e
Step-IsSoundWorld w v h (finishes {before} final now p d e) =
    (finish_scan_ends final now before _ (rw (p, d) at h) (honest_more w final e)).0
Step-IsSoundWorld w v h (vanishes p d) = rw d tt
Step-IsSoundWorld w v h (fails error now p) = fail_row-SoundDb error now w.db w.phase _ h
Step-IsSoundWorld w v h (leaves p) =
    SoundDb-change w.db w.phase idle (w.cancel || w.pending) w.pending
      (λ s f. leaving_to_idle s (rw p at f)) (λ r m. refl)
      (λ s a. less_asked w.cancel w.pending (is_stopping s) a) h
Step-IsSoundWorld w v h (restarts now) = restart-IsSoundWorld now w.db w.phase _ h

-- For sessions that do not overlap (none starts between another's read and its commit): after any
-- sequence of requests, signals, sessions of the worker, failures and restarts a sound scan is sound:
-- its timestamps agree with its status, it is initializing or running only while a worker is at that
-- point, no live probe has a worker there, and a worker that was told to stop has a scan that is
-- cancelling or terminal.
pub Steps-IsSoundWorld : (w v : World) → IsSoundWorld w → Steps w v → IsSoundWorld v
Steps-IsSoundWorld w v h stay = h
Steps-IsSoundWorld w v h (then_step {v = u} before step) =
    Step-IsSoundWorld u v (Steps-IsSoundWorld w u h before) step
