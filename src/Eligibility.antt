-- ===== src/Eligibility.antt =====
-- backend/services/httpx_eligibility.py: promoted hosts are eligible for HTTPX calls, and for
-- nothing else.
pub mod Laws
pub mod Context
mod Tests
use aicybersec.Common.{
  Bool, true, false, ◌||◌, Option, none, some, List, [], ◌∷◌, ◌++◌, Result, ok, Exn, ◌>>=◌, not,
  if◌then◌else◌,
}
use aicybersec.Common.Text.{Text, codes, text_eq, elem}
use aicybersec.Safety.Params.{Params}
use aicybersec.Safety.Tools.{Tool, Decision, tool_call, finish}
use aicybersec.Safety.Policy.{
  Policy, normalize, normalize_target, normalize_all, target_allowed, danger_allowed,
}
use aicybersec.Safety.Registry.{Registry, has, get}
use aicybersec.Safety.Validator.{
  Reason, unknown_tool, invalid_params, danger_exceeded, not_allowed, ValidationOutcome, rejected,
  conclude, extract_targets, validate,
}

-- The loop of `build_httpx_runtime_policy`: what is merged so far, and the hosts seen.
unfoldable pub merge_hosts : List Text → List Text → List Text → Result Exn (List Text)
merge_hosts merged seen [] = ok merged
merge_hosts merged seen (host ∷ hosts) =
    let skip = merge_hosts merged seen hosts in
    let add = λ (n : Text). merge_hosts (merged ++ host ∷ []) (n ∷ seen) hosts in
    do norm ← normalize host; if elem norm seen then skip else add norm

unfoldable pub build_httpx_runtime_policy : Policy → List Text → Result Exn Policy
build_httpx_runtime_policy p eligible = do
  seen ← normalize_all p.allowed_targets
  merged ← merge_hosts p.allowed_targets seen eligible
  ok (record p { allowed_targets = merged })

-- `PromotedHttpxValidator`: the base validator's registry and policy, and the set `_eligible`.
pub record PromotedValidator : Type 0 where
  pub registry : Registry
  pub policy : Policy
  pub eligible : List Text

-- `__post_init__`
unfoldable pub promoted_validator : Registry → Policy → List Text → Result Exn PromotedValidator
promoted_validator r p hosts = do
  eligible ← normalize_all hosts
  ok (record { registry = r; policy = p; eligible = eligible })

-- "not in the allowed targets list" in reason: the other reason texts hold the tool's name, which is
-- httpx here, and danger levels, which are keys of RANK.
abbrev pub is_allowlist_reason : Option Reason → Bool
is_allowlist_reason (some (not_allowed t)) = true
is_allowlist_reason _ = false

-- `norm is not None and norm in self._eligible`
abbrev pub in_eligible : List Text → Option Text → Bool
in_eligible eligible none = false
in_eligible eligible (some n) = elem n eligible

-- One round of the loop over the targets.
unfoldable pub passes : PromotedValidator → Option Text → Result Exn Bool
passes v target = do
  allowed ← target_allowed v.policy target
  if allowed then ok true else (do ok (in_eligible v.eligible (← normalize_target target)))

unfoldable pub first_refused :
    PromotedValidator → List (Option Text) → Result Exn (Option (Option Text))
first_refused v [] = ok none
first_refused v (t ∷ ts) =
    let rest = first_refused v ts in do pass ← passes v t; if pass then rest else ok (some t)

-- The checks from the danger level on.
unfoldable pub recheck_policy :
    PromotedValidator → Tool → Params → Params → Result Exn ValidationOutcome
recheck_policy v tool raw params = do
  safe ← danger_allowed v.policy tool
  if safe
      then (do ok (conclude v.policy tool params (← first_refused v (extract_targets tool raw))))
      else ok (rejected (danger_exceeded tool.danger_level v.policy.max_danger))

unfoldable pub recheck_params :
    PromotedValidator → Tool → Text → Params → Option Params → Result Exn ValidationOutcome
unfolding recheck_policy
recheck_params v tool name raw none = ok (rejected (invalid_params name))
recheck_params v tool name raw (some params) = recheck_policy v tool raw params

-- The second run of the checks, with eligible targets let through.
unfoldable pub recheck : PromotedValidator → Text → Params → Result Exn ValidationOutcome
unfolding recheck_params
recheck v name raw =
    if has v.registry name
    then (do tool ← get v.registry name; recheck_params v tool name raw (tool.validate_params raw))
    else ok (rejected (unknown_tool name))

-- `_validate_httpx`
unfoldable pub validate_httpx :
    PromotedValidator → Text → Params → Option Text → Result Exn ValidationOutcome
validate_httpx v name raw reasoning = do
  base ← validate v.registry v.policy (tool_call name raw reasoning)
  if base.accepted || not (is_allowlist_reason base.reason) then ok base else recheck v name raw

abbrev pub httpx : Text
httpx = codes "httpx"

-- `PromotedHttpxValidator.validate`
unfoldable pub validate_promoted : PromotedValidator → Decision → Result Exn ValidationOutcome
validate_promoted v (finish summary) = validate v.registry v.policy (finish summary)
validate_promoted v (tool_call name raw reasoning) =
    if text_eq name httpx
    then validate_httpx v name raw reasoning
    else validate v.registry v.policy (tool_call name raw reasoning)
