-- ===== src/Scan/State.antt =====
-- backend/services/scan_state.py: the one place where a scan's status changes.
use aicybersec.Common.{
  ℕ, Bool, true, false, Option, some, Result, ok, err, if◌then◌else◌, List, [], ◌∷◌, ◌||◌,
}
use aicybersec.Common.Text.{Text}
use aicybersec.Scan.{
  Status, queued, initializing, running, cancelling, completed, failed, cancelled, Scan,
}

-- `ScanStateError`: the current and the target status.
pub record StateError : Type 0 where
  pub current : Status
  pub target : Status

abbrev pub valid_transitions : Status → List Status
valid_transitions queued = initializing ∷ cancelled ∷ failed ∷ []
valid_transitions initializing = running ∷ cancelled ∷ failed ∷ []
valid_transitions running = completed ∷ failed ∷ cancelling ∷ []
valid_transitions cancelling = cancelled ∷ []
valid_transitions completed = []
valid_transitions failed = []
valid_transitions cancelled = []

abbrev pub status_eq : Status → Status → Bool
status_eq queued queued = true
status_eq initializing initializing = true
status_eq running running = true
status_eq cancelling cancelling = true
status_eq completed completed = true
status_eq failed failed = true
status_eq cancelled cancelled = true
status_eq _ _ = false

abbrev contains : Status → List Status → Bool
contains s [] = false
contains s (t ∷ ts) = status_eq s t || contains s ts

unfoldable pub can_transition : Status → Status → Bool
can_transition current target = contains target (valid_transitions current)

-- The assignments after the test, by target. `ts` is `now or datetime.now(timezone.utc)`.
abbrev pub stamp : Status → Option Text → ℕ → Scan → Scan
stamp initializing error ts s = record s { started_at = some ts }
stamp completed error ts s = record s { completed_at = some ts }
stamp failed error ts s = record s { completed_at = some ts; error = error }
stamp cancelled error ts s = record s { cancelled_at = some ts }
stamp _ error ts s = s

unfoldable pub apply_transition : Scan → Status → Option Text → ℕ → Result StateError Scan
unfolding can_transition
apply_transition scan target error ts =
    if can_transition scan.status target
    then ok (stamp target error ts (record scan { status = target }))
    else err (record { current = scan.status; target = target })

-- `TERMINAL_STATUSES`
abbrev pub is_terminal : Status → Bool
is_terminal completed = true
is_terminal failed = true
is_terminal cancelled = true
is_terminal _ = false
