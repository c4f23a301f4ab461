-- ===== src/Runtime/Steps.antt =====
-- What each helper of agent_core/runtime/agent.py does to the fields of a run.
use aicybersec.Common.{
  ℕ, ◌+◌, ◌≡◌, refl, ap, sym, ◌∙◌, Option, none, some, List, [], ◌∷◌, ◌++◌, length, length-append,
  is_some, arith,
}
use mathlib.Core.List.{append-nil, append_assoc}
use aicybersec.Safety.Results.{Finding}
use aicybersec.Safety.Tools.{Decision}
use aicybersec.Runtime.Data.{
  finding_recorded, Observation, StepRecord, AgentState, Event, run_finished, run_failed, Cause,
  Entry, Run,
}
use aicybersec.Runtime.Loop.{emit, add_findings, record_step}

-- How many events end a run.
abbrev pub is_final : Event → ℕ
is_final (run_finished step status n) = 1
is_final (run_failed step n error) = 1
is_final _ = 0

unfoldable pub finals : List Event → ℕ
finals [] = 0
finals (e ∷ es) = is_final e + finals es

pub finals-append : (es ds : List Event) → finals (es ++ ds) ≡ finals es + finals ds
unfolding finals
finals-append [] ds = omega arith
finals-append (e ∷ es) ds = omega (arith, finals-append es ds)

-- The findings of the observations, in order.
unfoldable pub collected : List Observation → List Finding
collected [] = []
collected (o ∷ os) = o.findings ++ collected os

pub collected-append :
    (os : List Observation) (o : Observation)
    → collected (os ++ o ∷ []) ≡ collected os ++ o.findings
unfolding collected
collected-append [] o = append-nil o.findings
collected-append (p ∷ os) o =
    rw (collected-append os o) (sym (append_assoc p.findings (collected os) o.findings))

-- The observations of the recorded steps, in order.
unfoldable pub observed : List StepRecord → List Observation
observed [] = []
observed (s ∷ ss) = elim s.observation [ none ↦ observed ss | some o ↦ o ∷ observed ss ]

pub observed-append : (ss ts : List StepRecord) → observed (ss ++ ts) ≡ observed ss ++ observed ts
unfolding observed
observed-append [] ts = refl
observed-append (s ∷ ss) ts = ground (arith, observed-append ss ts)

finals-recorded :
    (es : List Event) (step : ℕ) (f : Finding)
    → finals (es ++ finding_recorded step f ∷ []) ≡ finals es
unfolding finals
finals-recorded es step f = omega (arith, finals-append es (finding_recorded step f ∷ []))

-- What the run shows of findings, apart from the events.
pub record Kept (r r' : Run) : Type 0 where
  pub calls : r'.calls ≡ r.calls
  pub trajectory : r'.trajectory ≡ r.trajectory
  pub finals : finals r'.events ≡ finals r.events

pub add_findings-state :
    (fs : List Finding) (r : Run)
    → (add_findings fs r).state ≡ record r.state { findings = r.state.findings ++ fs }
unfolding add_findings emit
add_findings-state [] r = rw (append-nil r.state.findings)
add_findings-state (f ∷ fs) r =
    add_findings-state fs _
    ∙ ap (λ l. record r.state { findings = l }) (append_assoc r.state.findings (f ∷ []) fs)

pub add_findings-Kept : (fs : List Finding) (r : Run) → Kept r (add_findings fs r)
unfolding add_findings emit
add_findings-Kept [] r = record { calls = refl; trajectory = refl; finals = refl }
add_findings-Kept (f ∷ fs) r =
    let s = r.state in
    let next : Run =
      emit (finding_recorded s.step f)
        (record r { state = record s { findings = s.findings ++ f ∷ [] } }) in
    let k = add_findings-Kept fs next in
    record {
      calls = k.calls;
      trajectory = k.trajectory;
      finals = k.finals ∙ finals-recorded r.events s.step f;
    }

-- The observation of a step, if it has one.
abbrev pub given : Option Observation → List Observation
given none = []
given (some o) = o ∷ []

-- What recording a step does.
pub record Recorded (d : Decision) (cause : Option Cause) (obs : Option Observation) (r r' : Run)
    : Type 0 where
  pub step : r'.state.step ≡ r.state.step
  pub status : r'.state.status ≡ r.state.status
  pub max_steps : r'.state.max_steps ≡ r.state.max_steps
  pub observations : r'.state.observations ≡ r.state.observations ++ given obs
  pub findings : r'.state.findings ≡ r.state.findings ++ collected (given obs)
  pub steps : observed r'.state.steps ≡ observed r.state.steps ++ given obs
  pub steps_count : length r'.state.steps ≡ length r.state.steps + 1
  pub trajectory_count : length r'.trajectory ≡ length r.trajectory + 1
  pub saved : r'.saved ≡ some r'.state
  pub calls : r'.calls ≡ r.calls
  pub finals : finals r'.events ≡ finals r.events

pub record_step-Recorded :
    (d : Decision) (cause : Option Cause) (obs : Option Observation) (r : Run)
    → Recorded d cause obs r (record_step d cause obs r)
unfolding record_step collected observed
record_step-Recorded d cause none r = record {
  step = refl;
  status = refl;
  max_steps = refl;
  observations = sym (append-nil _);
  findings = sym (append-nil _);
  steps = observed-append r.state.steps _;
  steps_count = length-append {0} r.state.steps _;
  trajectory_count = length-append {0} r.trajectory _;
  saved = refl;
  calls = refl;
  finals = refl;
}
record_step-Recorded d cause (some o) r =
    let s = r.state in
    let step_record : StepRecord = record {
      step = s.step;
      decision = d;
      observation = some o;
      rejected = is_some cause;
      rejection_reason = cause;
    } in
    let base : Run = record r {
      state = record s {
        steps = s.steps ++ step_record ∷ [];
        observations = s.observations ++ o ∷ [];
      };
    } in
    let e = add_findings-state o.findings base in
    let k = add_findings-Kept o.findings base in
    record {
      step = ap (λ (t : AgentState). t.step) e;
      status = ap (λ (t : AgentState). t.status) e;
      max_steps = ap (λ (t : AgentState). t.max_steps) e;
      observations = ap (λ (t : AgentState). t.observations) e;
      findings =
          ap (λ (t : AgentState). t.findings) e
          ∙ ap (λ l. s.findings ++ l) (sym (append-nil o.findings));
      steps =
          ap (λ (t : AgentState). observed t.steps) e ∙ observed-append s.steps (step_record ∷ []);
      steps_count =
          ap (λ (t : AgentState). length t.steps) e ∙ length-append {0} s.steps (step_record ∷ []);
      trajectory_count =
          length-append {0} (add_findings o.findings base).trajectory _
          ∙ ap (λ (l : List Entry). length l + 1) k.trajectory;
      saved = refl;
      calls = k.calls;
      finals = k.finals;
    }
