-- ===== src/Discovery/Calls.antt =====
-- One controlled call: `_invoke`, `_dnsx_validator` and `_is_cancelled`.
use aicybersec.Common.{
  ℕ, suc, Bool, not, Option, none, some, List, [], ◌∷◌, ◌++◌, Result, ok, Exn, ◌>>=◌, if◌then◌else◌,
}
use aicybersec.Common.Text.{Text, codes}
use aicybersec.Safety.Params.{Params, text, items}
use aicybersec.Safety.Results.{Context}
use aicybersec.Safety.Tools.{Tool, tool_call}
use aicybersec.Safety.Policy.{Policy}
use aicybersec.Safety.Validator.{ValidationOutcome, validate}
use aicybersec.Discovery.{Found, DnsRecord, Reply, failed, Execution, raised, returned, Env, Run}
use aicybersec.Discovery.Names.{safe_text}

-- A read or a call moves the clock.
abbrev pub tick : Run → Run
tick r = record r { clock = suc r.clock }

-- `_is_cancelled`
abbrev pub polled : Env → Run → Bool
polled env r = env.is_set r.clock

-- `_Invocation`: not accepted, or accepted with a result.
pub data Invocation (A : Type 0) : Type 0 where
  refused : Invocation A
  accepted : Reply A → Invocation A

abbrev pub reply_of : {A : Type 0} → Text → Execution A → Reply A
reply_of tool (returned reply) = reply
reply_of tool (raised e) = failed (tool ++ codes " raised: " ++ safe_text e)

abbrev pub context_of : Env → Policy → Context
context_of env policy = record {
  run_id = env.run_id;
  allowed_targets = policy.allowed_targets;
  timeout_s = policy.timeout_s;
}

-- After the validator, with what the tool does.
abbrev pub execute_accepted :
    {A : Type 0}
    → Text
    → (ℕ → Option Params → Context → Execution A)
    → Env
    → Policy
    → Option Params
    → Run
    → Invocation A × Run
execute_accepted tool execute env policy params r = if polled env r then (refused, tick r) else (
  accepted (reply_of tool (execute (suc r.clock) params (context_of env policy))),
  tick (tick r),
)

abbrev pub on_tool :
    {A : Type 0}
    → Text
    → (ℕ → Option Params → Context → Execution A)
    → Env
    → Policy
    → Option Params
    → Option Tool
    → Run
    → Invocation A × Run
on_tool tool execute env policy params none r = (refused, r)
on_tool tool execute env policy params (some t) r =
    execute_accepted tool execute env policy params r

abbrev pub on_outcome :
    {A : Type 0}
    → Text
    → (ℕ → Option Params → Context → Execution A)
    → Env
    → Policy
    → ValidationOutcome
    → Run
    → Invocation A × Run
on_outcome tool execute env policy outcome r =
    if not outcome.accepted
    then (refused, r)
    else on_tool tool execute env policy outcome.validated_params outcome.tool r

-- `_invoke`. The tool is the registered one that the validator has found.
abbrev pub invoke :
    {A : Type 0}
    → Text
    → (ℕ → Option Params → Context → Execution A)
    → Env
    → Policy
    → Params
    → Run
    → Result Exn (Invocation A × Run)
invoke tool execute env policy params r = if polled env r then ok (refused, tick r) else (do
  outcome ← validate env.registry policy (tool_call tool params none)
  ok (on_outcome tool execute env policy outcome (tick r)))

unfoldable pub invoke_subfinder : Env → Text → Run → Result Exn (Invocation Found × Run)
invoke_subfinder env parent r =
    invoke (codes "subfinder") env.subfinder env env.policy ((codes "domain", text parent) ∷ []) r

-- `_dnsx_validator`: the policy allows exactly the batch.
abbrev pub dnsx_policy : Policy → List Text → Policy
dnsx_policy policy batch = record policy { allowed_targets = batch }

unfoldable pub invoke_dnsx :
    Env → List Text → Run → Result Exn (Invocation (Option (List DnsRecord)) × Run)
invoke_dnsx env batch r =
    invoke (codes "dnsx") env.dnsx env (dnsx_policy env.policy batch)
      ((codes "targets", items batch) ∷ []) r
