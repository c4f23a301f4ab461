-- ===== src/Discovery/Tests.antt =====
-- A concrete discovery: one domain, of which one host has an address.
use aicybersec.Common.{All, ◌≡◌, refl, false, Option, none, some, List, [], ◌∷◌, ok}
use aicybersec.Common.Text.{
  Text, codes, text_eq, elem, strip, lstrip, rstrip, lower, lower_code, has, has_text, starts_with,
  ends_with, drop_last, drop_trailing,
}
use aicybersec.Common.Order.{text_leb, insert_by, sort_by}
use aicybersec.Scan.{ScopeType, Entry}
use aicybersec.Safety.Params.{Value, text, get_param}
use aicybersec.Safety.Tools.{Tool, rank, exceeds}
use aicybersec.Safety.Policy.{
  Policy, normalize, normalize_target, normalize_all, allowed_in, target_allowed, danger_allowed,
}
use aicybersec.Safety.Registry.{has as has_tool, find, get}
use aicybersec.Safety.Validator.{
  validate, stage_params, stage_policy, first_denied, extract_targets,
}
use aicybersec.Scope.{Net}
use aicybersec.Scope.Names.{
  split_dots, hostname_re, ipv4_re, validate_domain, normalize_hostname, is_within_domain,
}
use aicybersec.Discovery.{replied, returned, enriched, Env, completed, DiscoveryResult}
use aicybersec.Discovery.Names.{
  insert, union, without, parents_in, sort_candidates, validated_discoveries, any_address,
  any_verifies, records_of,
}
use aicybersec.Discovery.Calls.{invoke_subfinder, invoke_dnsx}
use aicybersec.Discovery.Stages.{subfinder_loop, with_source, batches_from, host_loop, dnsx_loop}
use aicybersec.Discovery.Finish.{promotable, promote, run}
use aicybersec.Discovery.Promotion.{Promotes, IsSnapshotParent, run-Promotes}

abbrev net : Net
net = record { is_ip = λ s. false; in_network = λ a n. false; resolve = λ h. [] }

abbrev domain_of : Option Value → Option Text
domain_of (some (text t)) = some t
domain_of _ = none

abbrev tool : Text → Tool
tool name = record {
  name = name;
  danger_level = codes "safe";
  validate_params = λ p. some p;
  policy_targets = none;
  policy_target = some (λ p. domain_of (get_param (codes "domain") p));
  execute = λ n p c. none;
}

abbrev policy : Policy
policy = record {
  allowed_targets = codes "a.com" ∷ [];
  max_danger = codes "safe";
  max_steps = 5;
  timeout_s = 60;
}

abbrev env : Env
env = record {
  net = net;
  registry = tool (codes "subfinder") ∷ tool (codes "dnsx") ∷ [];
  policy = policy;
  run_id = codes "r";
  ip_version = λ s. some 4;
  is_set = λ n. false;
  subfinder = λ n p c. returned (
      replied (record {
        domain = some (codes "a.com");
        subdomains = some (
            record { name = some (codes "w.a.com"); shown = [] }
            ∷ record { name = some (codes "b.com"); shown = codes "b.com" }
            ∷ []);
      }));
  dnsx = λ n p c. returned (
      replied (
        some (record { host = some (codes "w.a.com"); a = codes "1.2.3.4" ∷ []; aaaa = [] } ∷ [])));
  persist_subfinder = λ n f. none;
  persist_dnsx = λ n h r. enriched 1;
  asset_hosts = λ n hs. hs;
}

abbrev snapshot : List Entry
snapshot = record { type = ScopeType.domain; value = some (codes "a.com") } ∷ []

abbrev result : DiscoveryResult
result = record {
  status = completed;
  parents = codes "a.com" ∷ [];
  discovered = codes "w.a.com" ∷ [];
  policy_rejected = codes "b.com" ∷ [];
  dns_verified = codes "w.a.com" ∷ [];
  dns_unverified = [];
  promoted = codes "w.a.com" ∷ [];
  errors = [];
  subfinder_calls = 1;
  dnsx_calls = 1;
}

found : run env snapshot ≡ ok result
unfolding run subfinder_loop invoke_subfinder invoke_dnsx with_source batches_from host_loop
    dnsx_loop promotable promote insert union without parents_in sort_candidates
    validated_discoveries any_address any_verifies records_of validate stage_params stage_policy
    first_denied extract_targets get_param has_tool find get normalize normalize_target
    normalize_all allowed_in target_allowed danger_allowed rank exceeds is_within_domain
    normalize_hostname validate_domain hostname_re ipv4_re split_dots text_eq elem sort_by insert_by
    text_leb strip lstrip rstrip lower lower_code has has_text starts_with ends_with drop_last
    drop_trailing
found = refl

run-Promotes_example : Promotes env result × All (IsSnapshotParent env.net snapshot) result.parents
run-Promotes_example = run-Promotes env snapshot result found
