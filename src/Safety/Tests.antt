-- ===== src/Safety/Tests.antt =====
-- Concrete calls through the gate of agent_core/safety.
use aicybersec.Common.{◌≡◌, refl, inl, inr, none, some, [], ◌∷◌, ok, arith}
use aicybersec.Common.Text.{
  codes, text_eq, elem, lower, lower_code, starts_with, strip, lstrip, rstrip, has_text,
}
use aicybersec.Safety.Params.{text, Params, get_param}
use aicybersec.Safety.Tools.{Tool, tool_call, rank, exceeds}
use aicybersec.Safety.Policy.{
  Policy, normalize, normalize_target, normalize_all, allowed_in, target_allowed, danger_allowed,
}
use aicybersec.Safety.Registry.{Registry, has, find, get}
use aicybersec.Safety.Validator.{
  accepted_call, extract_targets, first_denied, stage_policy, stage_params, validate,
}
use aicybersec.Safety.Permitted.{IsPermitted, validate-IsPermitted}
use aicybersec.Safety.Complete.{IsPermitted-validate}

abbrev pub scanner : Tool
scanner = record {
  name = codes "nmap";
  danger_level = codes "active_scan";
  validate_params = λ p. some p;
  policy_targets = none;
  policy_target = none;
  execute = λ step params ctx. none;
}

abbrev pub tools : Registry
tools = scanner ∷ []

abbrev pub policy : Policy
policy = record {
  allowed_targets = codes "a.com" ∷ codes "b.com" ∷ [];
  max_danger = codes "active_scan";
  max_steps = 2;
  timeout_s = 60;
}

abbrev pub params : Params
params = (codes "target", text (codes " B.com")) ∷ []

pub accepted :
    validate tools policy (tool_call (codes "nmap") params none) ≡ ok (accepted_call scanner params)
unfolding validate has get find stage_params stage_policy danger_allowed exceeds rank text_eq elem
    first_denied extract_targets get_param target_allowed normalize_target normalize allowed_in
    normalize_all strip lstrip rstrip lower lower_code has_text starts_with
accepted = refl

validate-IsPermitted_example :
    (tool : Tool) × (q : Params) × (accepted_call scanner params ≡ accepted_call tool q)
    × IsPermitted tools policy (codes "nmap") params tool q
validate-IsPermitted_example =
    validate-IsPermitted tools policy (codes "nmap") params none (accepted_call scanner params)
      accepted refl

permitted : IsPermitted tools policy (codes "nmap") params scanner params
unfolding rank text_eq extract_targets get_param normalize strip lstrip rstrip lower lower_code
    has_text starts_with
permitted = record {
  registered = inl refl;
  named = refl;
  schema = refl;
  capped = (1, refl, 1, refl, omega arith);
  targets = ((codes " B.com", refl, codes "b.com", refl, codes "b.com", inr (inl refl), refl), tt);
}

hosts : normalize_all policy.allowed_targets ≡ ok policy.allowed_targets
unfolding normalize_all normalize strip lstrip rstrip lower lower_code has_text starts_with
hosts = refl

IsPermitted-validate_example :
    validate tools policy (tool_call (codes "nmap") params none) ≡ ok (accepted_call scanner params)
IsPermitted-validate_example =
    IsPermitted-validate tools policy (codes "nmap") params none scanner params
      policy.allowed_targets (λ h. h, tt) hosts permitted
