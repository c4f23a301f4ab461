-- ===== src/Planner/Tests.antt =====
-- Concrete plans.
use aicybersec.Common.{ℕ, ◌+◌, ◌≤◌, ◌≡◌, refl, false, none, some, List, [], ◌∷◌, ok}
use aicybersec.Common.Order.{IsOrdered, sort_by, insert_by, text_leb}
use aicybersec.Common.Text.{
  Text, codes, text_eq, elem, strip, lstrip, rstrip, lower, lower_code, has, has_text, starts_with,
  ends_with, drop_last, drop_trailing,
}
use aicybersec.Scan.{recon, host, Entry}
use aicybersec.Safety.Params.{Params, text}
use aicybersec.Safety.Tools.{tool_call}
use aicybersec.Scope.{Net}
use aicybersec.Scope.Names.{
  split_dots, hostname_re, ipv4_re, validate_domain, normalize_hostname, is_within_domain,
}
use aicybersec.Scope.Snapshot.{parent_of, parents_from, snapshot_parents}
use aicybersec.Planner.{Seen}
use aicybersec.Planner.Targets.{any_within, collect_new, sanitize_promoted_hosts}
use aicybersec.Planner.Decide.{
  nmap, Planner, is_done, covered_hosts, proposed_hosts, without, nmap_pending_hosts,
  remaining_stages, choose, decide,
}
use aicybersec.Planner.Bounds.{IsCollected, IsPromotable, sanitize_promoted_hosts-IsCollected}
use aicybersec.Planner.Stages.{IsStageCall, decide-IsStageCall}

abbrev planner : Planner
planner = record {
  profile = recon;
  snapshot = [];
  hosts = codes "a.com" ∷ [];
  discovered_hosts = codes "b.a.com" ∷ [];
}

abbrev seen : ℕ → Seen
seen max_steps = record { observations = []; steps = []; step = 1; max_steps = max_steps }

abbrev first_params : Params
first_params =
    (codes "target", text (codes "a.com"))
    ∷ (codes "ports", text (codes "80,443,3000,8000,8080"))
    ∷ (codes "profile", text (codes "safe"))
    ∷ []

first_call : decide planner (seen 4) ≡ ok (tool_call nmap first_params none)
unfolding decide choose nmap_pending_hosts proposed_hosts covered_hosts without remaining_stages
    is_done elem text_eq
first_call = refl

decide-IsStageCall_example : (1 + 2 ≤ 4) × IsStageCall planner (seen 4) nmap first_params
decide-IsStageCall_example = decide-IsStageCall planner (seen 4) nmap first_params none first_call

abbrev net : Net
net = record { is_ip = λ s. false; in_network = λ a n. false; resolve = λ h. [] }

abbrev snapshot : List Entry
snapshot = record { type = host; value = some (codes "a.com") } ∷ []

abbrev found : List Text
found = codes "z.a.com" ∷ codes "evil.com" ∷ codes "B.a.com" ∷ []

promoted : sanitize_promoted_hosts net found snapshot ≡ ok (codes "b.a.com" ∷ codes "z.a.com" ∷ [])
unfolding sanitize_promoted_hosts snapshot_parents parents_from parent_of normalize_hostname
    validate_domain hostname_re ipv4_re split_dots is_within_domain any_within collect_new sort_by
    insert_by text_leb text_eq elem strip lstrip rstrip lower lower_code has has_text starts_with
    ends_with drop_last drop_trailing
promoted = refl

sanitize_promoted_hosts-IsCollected_example :
    (parents : List Text) × (snapshot_parents net snapshot ≡ ok parents)
    × IsCollected 50 (IsPromotable net parents) (codes "b.a.com" ∷ codes "z.a.com" ∷ [])
    × IsOrdered (λ (x : Text). x) (codes "b.a.com" ∷ codes "z.a.com" ∷ [])
sanitize_promoted_hosts-IsCollected_example =
    sanitize_promoted_hosts-IsCollected net found snapshot (codes "b.a.com" ∷ codes "z.a.com" ∷ [])
      promoted
