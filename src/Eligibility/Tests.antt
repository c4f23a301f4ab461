-- ===== src/Eligibility/Tests.antt =====
-- Concrete calls through the gate of backend/services/httpx_eligibility.py.
use aicybersec.Common.{◌≡◌, refl, none, some, [], ◌∷◌, ok}
use aicybersec.Common.Text.{
  codes, text_eq, elem, lower, lower_code, starts_with, strip, lstrip, rstrip, has_text,
}
use aicybersec.Safety.Params.{text, Params, get_param}
use aicybersec.Safety.Tools.{Tool, tool_call, rank, exceeds}
use aicybersec.Safety.Policy.{
  normalize, normalize_target, normalize_all, allowed_in, target_allowed, danger_allowed, Policy,
}
use aicybersec.Safety.Registry.{has, find, get}
use aicybersec.Safety.Validator.{
  accepted_call, extract_targets, first_denied, stage_policy, stage_params, validate,
}
use aicybersec.Eligibility.{
  PromotedValidator, passes, first_refused, recheck_policy, recheck_params, recheck, validate_httpx,
  validate_promoted, build_httpx_runtime_policy, merge_hosts,
}
use aicybersec.Eligibility.Laws.{IsPromoted, validate_promoted-IsPromoted}

abbrev probe : Tool
probe = record {
  name = codes "httpx";
  danger_level = codes "active_scan";
  validate_params = λ p. some p;
  policy_targets = none;
  policy_target = none;
  execute = λ step params ctx. none;
}

-- `new.a.com` is eligible and not in the allowlist.
abbrev validator : PromotedValidator
validator = record {
  registry = probe ∷ [];
  policy = record {
    allowed_targets = codes "a.com" ∷ [];
    max_danger = codes "active_scan";
    max_steps = 2;
    timeout_s = 60;
  };
  eligible = codes "new.a.com" ∷ [];
}

abbrev promoted_params : Params
promoted_params = (codes "target", text (codes "new.a.com")) ∷ []

abbrev own_params : Params
own_params = (codes "target", text (codes "a.com")) ∷ []

promoted :
    validate_promoted validator (tool_call (codes "httpx") promoted_params none)
    ≡ ok (accepted_call probe promoted_params)
unfolding validate_promoted validate_httpx recheck recheck_params recheck_policy first_refused
    passes validate has get find stage_params stage_policy danger_allowed exceeds rank text_eq elem
    first_denied extract_targets get_param target_allowed normalize_target normalize allowed_in
    normalize_all strip lstrip rstrip lower lower_code has_text starts_with
promoted = refl

validate_promoted-IsPromoted_example :
    (tool : Tool) × (q : Params) × (accepted_call probe promoted_params ≡ accepted_call tool q)
    × IsPromoted validator (codes "httpx") promoted_params tool q
validate_promoted-IsPromoted_example =
    validate_promoted-IsPromoted validator (codes "httpx") promoted_params none
      (accepted_call probe promoted_params) promoted refl

own :
    validate validator.registry validator.policy (tool_call (codes "httpx") own_params none)
    ≡ ok (accepted_call probe own_params)
unfolding validate has get find stage_params stage_policy danger_allowed exceeds rank text_eq elem
    first_denied extract_targets get_param target_allowed normalize_target normalize allowed_in
    normalize_all strip lstrip rstrip lower lower_code has_text starts_with
own = refl

abbrev widened : Policy
widened = record validator.policy { allowed_targets = codes "a.com" ∷ codes "New.a.com" ∷ [] }

built :
    build_httpx_runtime_policy validator.policy (codes "A.com" ∷ codes "New.a.com" ∷ [])
    ≡ ok widened
unfolding build_httpx_runtime_policy merge_hosts text_eq elem normalize normalize_all strip lstrip
    rstrip lower lower_code has_text starts_with
built = refl
