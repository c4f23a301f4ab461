-- ===== src/Manager/Steps.antt =====
-- The sequences of the sessions of backend/services/scan_manager.py and of requests, for one scan. A
-- session is one step: none starts between another's read and its commit, which the code does not
-- enforce. A request to cancel is two steps, its session and its signal, and the worker may run between
-- them.
use aicybersec.Common.{ℕ, ◌≡◌, Bool, true, false, ◌||◌, Option, none, some, ok, if◌then◌else◌}
use aicybersec.Common.Text.{Text}
use aicybersec.Runtime.Data.{RunStatus}
use aicybersec.Manager.{Db, Final, Phase, idle, waiting, resolving, executing, leaving, World}
use aicybersec.Manager.Worker.{LiveCheck, begin, enter, finish_scan, mark_failed, recover}
use aicybersec.Manager.Service.{User, submit, request_cancel, shutdown, cancel_scan}

-- The worker is between its start and its end.
abbrev pub is_working : Phase → Bool
is_working waiting = true
is_working resolving = true
is_working executing = true
is_working _ = false

-- The world with this row, or with none.
abbrev pub with_db : World → Option Db → World
with_db w db = record w { db = db }

-- `_mark_failed`, which returns at once where there is no row.
unfoldable pub fail_row : Text → ℕ → Option Db → Option Db
fail_row error now none = none
fail_row error now (some db) = some (mark_failed error now db)

-- A new process: the registry of active runs is empty, and `recover` runs.
abbrev pub fresh : Option Db → World
fresh db = record { db = db; phase = idle; cancel = false; pending = false; shutting_down = false }

unfoldable pub restart : ℕ → Option Db → World
restart now none = fresh none
restart now (some db) =
    let (after, again) = recover now db in
    if again then submit (fresh (some after)) else fresh (some after)

-- A run says that it was cancelled only where the cancel event is set.
abbrev pub is_honest : World → Final → Bool
is_honest w final = elim final.status [ RunStatus.cancelled ↦ w.cancel | other ↦ true ]

pub data Step (w : World) : World → Type 0 where
  submits : Step w (submit w)
  shuts_down : Step w (shutdown w)
  deletes : Step w (with_db w none)
  cancels :
      {db : Db} {signal : Bool} (user : User) (owner : Option ℕ) (now : ℕ)
      → cancel_scan user owner now w.db ≡ ok (db, signal)
      → Step w (record (with_db w (some db)) { pending = signal || w.pending })
  signals : w.pending ≡ true → Step w (record (request_cancel w).0 { pending = false })
  begins :
      {before after : Db} {next : Phase} (check : LiveCheck) (now : ℕ)
      → w.phase ≡ waiting
      → w.db ≡ some before
      → begin check now before ≡ ok (after, next)
      → Step w (record (with_db w (some after)) { phase = next })
  enters :
      {before after : Db} {next : Phase} (now : ℕ)
      → w.phase ≡ resolving
      → w.db ≡ some before
      → enter now before ≡ ok (after, next)
      → Step w (record (with_db w (some after)) { phase = next })
  finishes :
      {before : Db} (final : Final) (now : ℕ)
      → w.phase ≡ executing
      → w.db ≡ some before
      → is_honest w final ≡ true
      → Step w (record (with_db w (some (finish_scan final now before))) { phase = leaving })
  vanishes : is_working w.phase ≡ true → w.db ≡ none → Step w (record w { phase = leaving })
  fails :
      (error : Text) (now : ℕ)
      → is_working w.phase ≡ true
      → Step w (record (with_db w (fail_row error now w.db)) { phase = leaving })
  leaves : w.phase ≡ leaving → Step w (record w { phase = idle; cancel = false })
  restarts : (now : ℕ) → Step w (restart now w.db)

-- From one world to another in any number of steps.
pub data Steps (w : World) : World → Type 0 where
  stay : Steps w w
  then_step : {v u : World} → Steps w v → Step v u → Steps w u
