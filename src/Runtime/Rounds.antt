-- ===== src/Runtime/Rounds.antt =====
-- One round of the loop of agent_core/runtime/agent.py keeps the invariant, on every branch.
use aicybersec.Common.{
  inl, inr, ℕ, suc, ◌+◌, ◌<◌, ◌≡◌, refl, ◌∙◌, true, Option, none, some, [], ◌∷◌, ◌++◌,
  length-append, All-append, arith, ok, err, Bool-cases, leb, if_true, if_false, Result, Exn,
}
use aicybersec.Common.Text.{Text}
use aicybersec.Safety.Params.{Params}
use aicybersec.Safety.Tools.{Tool, Decision, tool_call, finish}
use aicybersec.Safety.Validator.{ValidationOutcome}
use aicybersec.Runtime.Data.{
  finished, failed, cancelled, AgentState, Event, step_started, decision_proposed,
  decision_rejected, tool_started, tool_finished, Cause, Run, planner_error, max_steps_reached,
}
use aicybersec.Runtime.Loop.{
  Env, returned, raised_out, again, stop, emit, finish_run, execute_tool, record_step, context_of,
  reject, call_tool, act, validated, decide_step, round, cause_of,
}
use aicybersec.Runtime.Steps.{is_final, finals, finals-append, record_step-Recorded}
use aicybersec.Runtime.Invariant.{
  IsJustified, Core, Ready, After, Mid, Core-weaken, finish_run-Done, record_step-Core, emit-Core,
  emit-finals, record_step-After,
}

weak : {env : Env} {k : ℕ} {r : Run} → Mid env k r → Core env (suc k) r
weak {k = k} m = Core-weaken k (suc k) (omega arith) m.core

emit-Mid :
    (env : Env) (e : Event) (k : ℕ) (r : Run) → is_final e ≡ 0 → Mid env k r → Mid env k (emit e r)
unfolding emit
emit-Mid env e k r h m = record {
  core = emit-Core env e k r m.core;
  step = m.step;
  status = m.status;
  no_final = emit-finals e r h ∙ m.no_final;
}

reject-After :
    (env : Env) (d : Decision) (cause : Cause) (k : ℕ) (r : Run)
    → Mid env k r
    → After env k (reject d cause r, again)
unfolding reject emit
reject-After env d cause k r m =
    let e = decision_rejected r.state.step cause in
    let q = emit-Mid env e k r refl m in
    record_step-After env d (some cause) _ k (emit e r) (weak q) m.core.steps m.step m.status
      q.no_final

-- The run after the tool has answered.
executed : Env → Tool → Option Params → Run → Run
executed env tool params r = (execute_tool env tool params r).0

execute_tool-Core :
    (env : Env) (tool : Tool) (params : Option Params) (k : ℕ) (r : Run) (d : Decision)
    (s : AgentState) (o : ValidationOutcome)
    → Mid env k r
    → env.validate d s ≡ ok o
    → ¬ ((summary : Text) × (d ≡ finish summary))
    → o.accepted ≡ true
    → o.tool ≡ some tool
    → o.validated_params ≡ params
    → Core env (suc k) (executed env tool params r)
      × (finals (executed env tool params r).events ≡ 0)
unfolding executed execute_tool emit finals
execute_tool-Core env tool params k r d s o m asked call acc et ep =
    let c = m.core in
    (
      record {
        bound = c.bound;
        limit = c.limit;
        justified = All-append (IsJustified env) r.calls _ c.justified (
          record {
            decision = d;
            state = s;
            outcome = o;
            asked = asked;
            is_call = call;
            accepted = acc;
            tool = et;
            params = ep;
            context = refl;
          },
          tt,
        );
        calls = omega (
          arith,
          length-append {0} r.calls (
              record {
                step = r.state.step;
                tool = tool;
                params = params;
                context = context_of env r.state;
              }
              ∷ []),
          c.calls,
        );
        steps = omega (arith, c.steps);
        trajectory = c.trajectory;
        observations = c.observations;
        findings = c.findings;
      },
      omega (
        arith,
        finals-append r.events (tool_started r.state.step tool.name ∷ []),
        finals-append (r.events ++ tool_started r.state.step tool.name ∷ [])
            (tool_finished r.state.step tool.name _ ∷ []),
        m.no_final,
      ),
    )

call_tool-After :
    (env : Env) (d : Decision) (tool : Option Tool) (params : Option Params) (k : ℕ) (r : Run)
    (s : AgentState) (o : ValidationOutcome)
    → Mid env k r
    → env.validate d s ≡ ok o
    → ¬ ((summary : Text) × (d ≡ finish summary))
    → o.accepted ≡ true
    → o.tool ≡ tool
    → o.validated_params ≡ params
    → After env k (call_tool env d tool params r)
unfolding call_tool executed execute_tool emit
call_tool-After env d none params k r s o m asked call acc et ep =
    (Core-weaken k _ (omega (arith, m.step)) m.core, m.no_final)
call_tool-After env d (some tool) params k r s o m asked call acc et ep =
    let (c, f) = execute_tool-Core env tool params k r d s o m asked call acc et ep in
    record_step-After env d none _ k (executed env tool params r) c m.core.steps m.step m.status f

finish-After :
    (env : Env) (summary : Text) (k : ℕ) (r : Run)
    → Mid env k r
    → After env k
        (finish_run env finished none (record_step (finish summary) none none r), stop returned)
finish-After env summary k r m =
    let q = record_step-Recorded (finish summary) none none r in
    finish_run-Done env finished none (record_step (finish summary) none none r) refl (inl refl)
      (Core-weaken (suc k) _ (omega (arith, q.step, m.step))
        (record_step-Core env (finish summary) none none k r (weak m) m.core.steps))
      (q.finals ∙ m.no_final)

act-After :
    (env : Env) (d : Decision) (o : ValidationOutcome) (k : ℕ) (r : Run) (s : AgentState)
    → Mid env k r
    → env.validate d s ≡ ok o
    → After env k (act env d o r)
unfolding act
act-After env (finish summary) o k r s m asked = elim (Bool-cases o.accepted) [
  | inr no' ↦
      if_false (After env k) o.accepted _ _ no'
        (reject-After env (finish summary) (cause_of o.reason) k r m)
  | inl yes' ↦ if_true (After env k) o.accepted _ _ yes' (finish-After env summary k r m)
]
act-After env (tool_call name params reasoning) o k r s m asked = elim (Bool-cases o.accepted) [
  | inr no' ↦
      if_false (After env k) o.accepted _ _ no'
        (reject-After env (tool_call name params reasoning) (cause_of o.reason) k r m)
  | inl yes' ↦ if_true (After env k) o.accepted _ _ yes' (
      call_tool-After env (tool_call name params reasoning) o.tool o.validated_params k r s o m
        asked (λ h. cc h.1) yes' refl refl)
]

validated-After :
    (env : Env) (d : Decision) (k : ℕ) (r : Run) → Mid env k r → After env k (validated env d r)
unfolding validated
validated-After env d k r m = go (env.validate d r.state) refl
  where
    go :
        (o : Result Exn ValidationOutcome)
        → env.validate d r.state ≡ o
        → After env k (elim o [ err x ↦ (r, stop (raised_out x)) | ok o ↦ act env d o r ])
    go (err x) e = (Core-weaken k _ (omega (arith, m.step)) m.core, m.no_final)
    go (ok o) e = act-After env d o k r r.state m e

-- The run after `step.started`.
started : Run → Run
started r =
    let s = record r.state { step = r.state.step + 1 } in
    emit (step_started s.step) (record r { state = s })

started-Mid :
    (env : Env) (r : Run)
    → Ready env r
    → r.state.step < r.state.max_steps
    → Mid env r.state.step (started r)
unfolding started emit finals
started-Mid env r h lt = record {
  core = record {
    bound = omega arith;
    limit = h.core.limit;
    justified = h.core.justified;
    calls = h.core.calls;
    steps = h.core.steps;
    trajectory = h.core.trajectory;
    observations = h.core.observations;
    findings = h.core.findings;
  };
  step = omega arith;
  status = h.status;
  no_final =
      omega (arith, finals-append r.events (step_started (r.state.step + 1) ∷ []), h.no_final);
}

decide_step-After :
    (env : Env) (r : Run)
    → Ready env r
    → r.state.step < r.state.max_steps
    → After env r.state.step (decide_step env r)
unfolding decide_step started emit
decide_step-After env r h lt = go (env.decide (started r).state)
  where
    go :
        (d : Option Decision)
        → After env r.state.step (elim d [
          | none ↦ (finish_run env failed (some planner_error) (started r), stop returned)
          | some d ↦ validated env d (emit (decision_proposed (r.state.step + 1) d) (started r))
        ])
    go none =
        let m = started-Mid env r h lt in
        finish_run-Done env failed (some planner_error) (started r) refl (inl refl)
          (Core-weaken r.state.step _ (omega (arith, m.step)) m.core) m.no_final
    go (some d) = validated-After env d r.state.step _ (
        emit-Mid env (decision_proposed (r.state.step + 1) d) r.state.step (started r) refl
          (started-Mid env r h lt))

-- One round keeps the invariant, or ends the run, or raises with the core intact.
pub round-After : (env : Env) (r : Run) → Ready env r → After env r.state.step (round env r)
unfolding round
round-After env r h = elim (Bool-cases (env.cancel r.state)) [
  | inl c ↦
      if_true (After env r.state.step) (env.cancel r.state) _ _ c
        (finish_run-Done env cancelled none r refl (inr (r.state, c)) h.core h.no_final)
  | inr n ↦
      if_false (After env r.state.step) (env.cancel r.state) _ _ n
        (elim (Bool-cases (leb r.state.max_steps r.state.step)) [
          | inl full ↦
              if_true (After env r.state.step) (leb r.state.max_steps r.state.step) _ _ full (
                finish_run-Done env failed (some max_steps_reached) r refl (inl refl) h.core
                  h.no_final)
          | inr room ↦
              if_false (After env r.state.step) (leb r.state.max_steps r.state.step) _ _ room
                (decide_step-After env r h (ground arith))
        ])
]
