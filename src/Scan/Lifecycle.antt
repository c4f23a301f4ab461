-- ===== src/Scan/Lifecycle.antt =====
-- What holds of every sequence of transitions that backend/services/scan_state.py accepts.
use aicybersec.Common.{
  Bool, ℕ, suc, ◌+◌, ◌≤◌, ◌≡◌, refl, ◌↔◌, true, false, Option, ok, arith, is_some, ◌&&◌, not,
}
use aicybersec.Common.Text.{Text}
use aicybersec.Scan.{
  Status, queued, initializing, running, cancelling, completed, failed, cancelled, Scan,
}
use aicybersec.Scan.State.{can_transition, apply_transition, is_terminal}

abbrev has_completed : Status → Bool
has_completed completed = true
has_completed failed = true
has_completed _ = false

abbrev is_cancelled : Status → Bool
is_cancelled cancelled = true
is_cancelled _ = false

abbrev is_failed : Status → Bool
is_failed failed = true
is_failed _ = false

-- When started_at may be set: never while queued, always from initializing to completed, and in
-- failed and cancelled both are possible.
abbrev StartFits : Status → Bool → Type 0
StartFits queued started = started ≡ false
StartFits failed started = Unit
StartFits cancelled started = Unit
StartFits _ started = started ≡ true

-- The lifecycle columns agree with the status.
pub record IsConsistent (s : Scan) : Type 0 where
  pub completed_fits : is_some s.completed_at ≡ has_completed s.status
  pub cancelled_fits : is_some s.cancelled_at ≡ is_cancelled s.status
  pub started_fits : StartFits s.status (is_some s.started_at)
  pub error_fits : (is_some s.error && not (is_failed s.status)) ≡ false

-- An accepted transition keeps the lifecycle columns in agreement with the status: completed_at is
-- set exactly in completed and failed, cancelled_at exactly in cancelled, started_at is empty while
-- queued and set from initializing to completed, and only a failed scan has an error.
pub apply_transition-IsConsistent :
    (s t : Scan) (target : Status) (error : Option Text) (now : ℕ)
    → IsConsistent s
    → apply_transition s target error now ≡ ok t
    → IsConsistent t
unfolding apply_transition
apply_transition-IsConsistent s t target error now h e = ground arith

-- A terminal status is one that no transition leaves.
pub is_terminal_iff :
    (s : Status) → (is_terminal s ≡ true) ↔ ((t : Status) → can_transition s t ≡ false)
unfolding can_transition
is_terminal_iff queued = (λ h. cc, λ all. cc (all cancelled))
is_terminal_iff initializing = (λ h. cc, λ all. cc (all cancelled))
is_terminal_iff running = (λ h. cc, λ all. cc (all cancelling))
is_terminal_iff cancelling = (λ h. cc, λ all. cc (all cancelled))
is_terminal_iff completed = (λ h t. refl, λ all. refl)
is_terminal_iff failed = (λ h t. refl, λ all. refl)
is_terminal_iff cancelled = (λ h t. refl, λ all. refl)

-- `n` accepted transitions lead from one row to another.
pub data Moves (s : Scan) : ℕ → Scan → Type 0 where
  here : Moves s 0 s
  move :
      {n : ℕ} {t u : Scan} (target : Status) (error : Option Text) (now : ℕ)
      → Moves s n t
      → apply_transition t target error now ≡ ok u
      → Moves s (suc n) u

-- How many transitions a status still has before it, at most.
abbrev pub height : Status → ℕ
height queued = 4
height initializing = 3
height running = 2
height cancelling = 1
height _ = 0

height_falls :
    (t u : Scan) (target : Status) (error : Option Text) (now : ℕ)
    → apply_transition t target error now ≡ ok u
    → height u.status + 1 ≤ height t.status
unfolding apply_transition
height_falls t u target error now e = ground arith

height-Moves : {s t : Scan} {n : ℕ} → Moves s n t → n + height t.status ≤ height s.status
height-Moves here = omega arith
height-Moves (move {t = t} {u = u} target error now m e) =
    omega (arith, height-Moves m, height_falls t u target error now e)

height_le_4 : (s : Status) → height s ≤ 4
height_le_4 s = ground arith

Moves-none : {s t : Scan} {n : ℕ} → Moves s n t → n ≡ 0 → t ≡ s
Moves-none here e = refl
Moves-none (move target error now m step) e = absurd (omega arith)

height_terminal : (s : Status) → is_terminal s ≡ true → height s ≡ 0
height_terminal s h = ground arith

-- A scan makes at most four transitions in its life, whatever is asked of it: the number made and
-- the height of the status reached stay within the height of the first status.
pub Moves-bounded :
    (s t : Scan) (n : ℕ) → Moves s n t → (n + height t.status ≤ height s.status) × (n ≤ 4)
Moves-bounded s t n m = (height-Moves m, omega (arith, height-Moves m, height_le_4 s.status))

-- From a terminal status no sequence of accepted transitions leads anywhere: the row stays as it is.
pub Moves-terminal : (s t : Scan) (n : ℕ) → is_terminal s.status ≡ true → Moves s n t → t ≡ s
Moves-terminal s t n h m = Moves-none m (omega (arith, height-Moves m, height_terminal s.status h))
