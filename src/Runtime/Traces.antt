-- ===== src/Runtime/Traces.antt =====
-- What holds of every run of agent_core/runtime/agent.py, from `new_state` to the end of `execute`.
use aicybersec.Runtime.Data.{cancelled, AgentState, Event, Run, run_started}
use aicybersec.Runtime.Invariant.{IsCaused, IsJustified, Core, Ready, Done, After}
use aicybersec.Common.{
  inl, inr, some_inv, ℕ, zero, suc, ◌+◌, ◌≤◌, ◌<◌, ◌≡◌, refl, ap, ◌∙◌, true, false, some, List, [],
  ◌∷◌, ◌++◌, length, All, arith,
}
use mathlib.Core.Path.{subst}
use aicybersec.Common.Text.{Text}
use aicybersec.Runtime.Loop.{
  Env, Exit, returned, raised_out, Next, again, stop, emit, round, is_running, loop, execute,
  new_run,
}
use aicybersec.Runtime.Steps.{finals, is_final, collected, observed}
use aicybersec.Runtime.Rounds.{round-After}

-- How a run may end: with a result, or with an exception and no final event.
abbrev pub Ended : Env → Run × Exit → Type 0
Ended env (r, returned) = Done env r
Ended env (r, raised_out x) = Core env r.state.step r × (finals r.events ≡ 0)

running_test : (env : Env) (r : Run) → Ready env r → is_running r.state.status ≡ true
running_test env r h = rw h.status

After-Ended :
    (env : Env) (n : ℕ) (r : Run) (exit : Exit) → After env n (r, stop exit) → Ended env (r, exit)
After-Ended env n r returned a = a
After-Ended env n r (raised_out x) a = a

-- One unrolling of the loop, by what the round says.
follow :
    (env : Env) (fuel n : ℕ) (out : Run × Exit) (q : Run) (next : Next)
    → ((p : Run) → Ready env p → loop env fuel p ≡ some out → Ended env out)
    → After env n (q, next)
    → elim next [ again ↦ loop env fuel q | stop exit ↦ some (q, exit) ] ≡ some out
    → Ended env out
follow env fuel n out q again ih a e = ih q a.0 e
follow env fuel n out q (stop exit) ih a e =
    let same : (q, exit) ≡ out = some_inv (q, exit) out e in
    subst (Ended env) same (After-Ended env n q exit a)

loop-Ended :
    (env : Env) (fuel : ℕ) (r : Run) (out : Run × Exit)
    → Ready env r
    → loop env fuel r ≡ some out
    → Ended env out
unfolding loop
loop-Ended env zero r out h e = cc
loop-Ended env (suc fuel) r out h e =
    follow env fuel r.state.step out (round env r).0 (round env r).1
      (λ p. loop-Ended env fuel p out) (round-After env r h) (rw (running_test env r h) at e)

follow_total :
    (env : Env) (fuel n : ℕ) (q : Run) (next : Next)
    → env.policy.max_steps < suc fuel + n
    → ((p : Run)
        → Ready env p
        → env.policy.max_steps < fuel + p.state.step
        → (out : Run × Exit) × (loop env fuel p ≡ some out))
    → After env n (q, next)
    → (out : Run × Exit) × (elim next [ again ↦ loop env fuel q | stop exit ↦ some (q, exit) ]
        ≡ some out)
follow_total env fuel n q again lt ih a = ih q a.0 (omega (arith, a.1))
follow_total env fuel n q (stop exit) lt ih a = ((q, exit), refl)

-- Enough fuel: what is left of the step budget, and one round more.
loop_total :
    (env : Env) (fuel : ℕ) (r : Run)
    → Ready env r
    → env.policy.max_steps < fuel + r.state.step
    → (out : Run × Exit) × (loop env fuel r ≡ some out)
unfolding loop
loop_total env zero r h lt = absurd (omega (arith, h.core.bound, h.core.limit))
loop_total env (suc fuel) r h lt = rw (running_test env r h) (
    follow_total env fuel r.state.step (round env r).0 (round env r).1 lt (loop_total env fuel)
      (round-After env r h))

new_run-Ready :
    (env : Env) (goal run_id : Text) → Ready env (emit (run_started 0) (new_run env goal run_id))
unfolding emit finals observed collected
new_run-Ready env goal run_id = record {
  core = record {
    bound = omega arith;
    limit = refl;
    justified = tt;
    calls = omega arith;
    steps = omega arith;
    trajectory = refl;
    observations = refl;
    findings = refl;
  };
  status = refl;
  saved = refl;
  no_final = refl;
}

execute-Ended :
    (env : Env) (goal run_id : Text) (fuel : ℕ) (out : Run × Exit)
    → execute env fuel (new_run env goal run_id) ≡ some out
    → Ended env out
unfolding execute
execute-Ended env goal run_id fuel out e =
    loop-Ended env fuel _ out (new_run-Ready env goal run_id) e

-- How a run shows that it has ended. With a result: its status is no longer running, the state saved
-- last is its state, and exactly one event ends a run, the last one. With an exception: no event does.
abbrev pub Closed : Run × Exit → Type 0
Closed (r, returned) =
    (is_running r.state.status ≡ false)
    × (r.saved ≡ some r.state)
    × (before : List Event) × (last : Event) × (r.events ≡ before ++ last ∷ [])
    × (finals before ≡ 0)
    × (is_final last ≡ 1)
Closed (r, raised_out x) = finals r.events ≡ 0

Ended-Closed : (env : Env) (r : Run) (exit : Exit) → Ended env (r, exit) → Closed (r, exit)
Ended-Closed env r returned h = (h.status, h.saved, h.before, h.last, h.events, h.no_final, h.final)
Ended-Closed env r (raised_out x) h = h.1

Ended-Core : (env : Env) (r : Run) (exit : Exit) → Ended env (r, exit) → Core env r.state.step r
Ended-Core env r returned h = h.core
Ended-Core env r (raised_out x) h = h.0

-- Every run ends: `max_steps + 1` rounds suffice, whatever the planner, the validator, the tools and
-- the cancel event do. A run that ends with a result is no longer running, has its final state saved,
-- and has emitted exactly one event that ends a run, as the last one. If an exception leaves the
-- loop, no event has ended the run.
pub execute_ends :
    (env : Env) (goal run_id : Text)
    → (r : Run) × (exit : Exit) × (execute env (suc env.policy.max_steps) (new_run env goal run_id)
        ≡ some (r, exit))
      × Closed (r, exit)
unfolding execute emit
execute_ends env goal run_id =
    let start = emit (run_started 0) (new_run env goal run_id) in
    let (out, e) =
      loop_total env (suc env.policy.max_steps) start (new_run-Ready env goal run_id)
        (within env.policy.max_steps goal run_id) in
    (out.0, out.1, e, Ended-Closed env out.0 out.1 (execute-Ended env goal run_id _ out e))
  where
    within : (n : ℕ) → Text → Text → n < suc n + 0
    within n g i = omega arith

-- At most one tool is called in a step, and no more steps are made than the policy allows. Every call
-- was accepted by the validator for this tool and these params, and was told the policy's targets.
pub execute_calls :
    (env : Env) (goal run_id : Text) (fuel : ℕ) (r : Run) (exit : Exit)
    → execute env fuel (new_run env goal run_id) ≡ some (r, exit)
    → All (IsJustified env) r.calls
      × (length r.calls ≤ r.state.step)
      × (r.state.step ≤ env.policy.max_steps)
execute_calls env goal run_id fuel r exit e =
    let c = Ended-Core env r exit (execute-Ended env goal run_id fuel (r, exit) e) in
    (c.justified, c.calls, omega (arith, c.bound, c.limit))

-- The record of a run is complete: the findings are those of its observations, the observations those
-- of its steps, each in order, and the trajectory has one entry for each step.
pub execute_record :
    (env : Env) (goal run_id : Text) (fuel : ℕ) (r : Run) (exit : Exit)
    → execute env fuel (new_run env goal run_id) ≡ some (r, exit)
    → (r.state.findings ≡ collected (observed r.state.steps))
      × (r.state.observations ≡ observed r.state.steps)
      × (length r.trajectory ≡ length r.state.steps)
      × (length r.state.steps ≤ r.state.step)
execute_record env goal run_id fuel r exit e =
    let c = Ended-Core env r exit (execute-Ended env goal run_id fuel (r, exit) e) in
    (c.findings ∙ ap collected c.observations, c.observations, c.trajectory, c.steps)

-- A run that returns with the status cancelled has found the cancel event set at some state.
pub execute_cancelled :
    (env : Env) (goal run_id : Text) (fuel : ℕ) (r : Run)
    → execute env fuel (new_run env goal run_id) ≡ some (r, returned)
    → r.state.status ≡ cancelled
    → (s : AgentState) × (env.cancel s ≡ true)
execute_cancelled env goal run_id fuel r e c =
    let done : Done env r = execute-Ended env goal run_id fuel (r, returned) e in
    let why : IsCaused env cancelled = rw c at done.cause in
    elim why [ inl no_cause ↦ absurd cc | inr found ↦ found ]
