-- ===== src/Runtime/Gate.antt =====
-- The loop of agent_core/runtime/agent.py behind the gate of agent_core/safety/validator.py: nothing
-- runs that the policy does not permit.
use aicybersec.Common.{ℕ, ◌≡◌, refl, ap, sym, ◌∙◌, Bool, Option, some, List, [], ◌∷◌, All, some_inv}
use mathlib.Core.Path.{subst}
use aicybersec.Common.Text.{Text}
use aicybersec.Safety.Params.{Params}
use aicybersec.Safety.Tools.{Decision, tool_call, finish}
use aicybersec.Safety.Policy.{Policy}
use aicybersec.Safety.Registry.{Registry}
use aicybersec.Safety.Validator.{ValidationOutcome, validate}
use aicybersec.Safety.Permitted.{IsPermitted, validate-IsPermitted}
use aicybersec.Runtime.Data.{AgentState, Call, Run}
use aicybersec.Runtime.Loop.{Env, Exit, execute, new_run}
use aicybersec.Runtime.Invariant.{IsJustified}
use aicybersec.Runtime.Traces.{execute_calls}

-- The runtime with a `SafetyValidator` over one registry and one policy.
abbrev pub gated :
    Registry
    → Policy
    → (AgentState → Option Decision)
    → (AgentState → Bool)
    → (AgentState → ℕ)
    → Env
gated r p decide cancel now = record {
  decide = decide;
  validate = λ d s. validate r p d;
  policy = p;
  cancel = cancel;
  now = now;
}

-- The call is permitted, under some name and for some raw params.
abbrev pub IsPermittedCall : Registry → Policy → Call → Type 0
IsPermittedCall r p c =
    (name : Text) × (raw : Params) × (params : Params) × (c.params ≡ some params)
    × IsPermitted r p name raw c.tool params
    × (c.context.allowed_targets ≡ p.allowed_targets)

IsJustified-IsPermittedCall :
    (r : Registry) (p : Policy) (decide : AgentState → Option Decision) (cancel : AgentState → Bool)
    (now : AgentState → ℕ) (c : Call)
    → IsJustified (gated r p decide cancel now) c
    → IsPermittedCall r p c
IsJustified-IsPermittedCall r p decide cancel now c h = go h.decision refl
  where
    go : (d : Decision) → h.decision ≡ d → IsPermittedCall r p c
    go (finish summary) e = absurd (h.is_call (summary, e))
    go (tool_call name raw reasoning) e =
        let (tool, params, shape, ok') =
          validate-IsPermitted r p name raw reasoning h.outcome
            (ap (validate r p) (sym e) ∙ h.asked) h.accepted in
        let same : tool ≡ c.tool =
          some_inv tool c.tool (sym (ap (λ (o : ValidationOutcome). o.tool) shape) ∙ h.tool) in
        (
          name,
          raw,
          params,
          sym h.params ∙ ap (λ (o : ValidationOutcome). o.validated_params) shape,
          subst (λ t. IsPermitted r p name raw t params) same ok',
          h.context,
        )

All-map : (P Q : Call → Type 0) (cs : List Call) → ((c : Call) → P c → Q c) → All P cs → All Q cs
All-map P Q [] f h = tt
All-map P Q (c ∷ cs) f (p, h) = (f c p, All-map P Q cs f h)

-- Whatever the planner proposes, each tool call that the runtime makes is of a registered tool, with
-- params that its schema took, of a danger level within the policy's cap, and with targets whose
-- hosts are all hosts of allowlist entries; the tool is told exactly the policy's targets.
pub execute-IsPermittedCall :
    (reg : Registry) (p : Policy) (decide : AgentState → Option Decision)
    (cancel : AgentState → Bool) (now : AgentState → ℕ) (goal run_id : Text) (fuel : ℕ) (r : Run)
    (exit : Exit)
    → execute
        (gated reg p decide cancel now)
        fuel
        (new_run (gated reg p decide cancel now) goal run_id)
      ≡ some (r, exit)
    → All (IsPermittedCall reg p) r.calls
execute-IsPermittedCall reg p decide cancel now goal run_id fuel r exit e =
    let env = gated reg p decide cancel now in
    All-map (IsJustified env) (IsPermittedCall reg p) r.calls
      (IsJustified-IsPermittedCall reg p decide cancel now)
      (execute_calls env goal run_id fuel r exit e).0
