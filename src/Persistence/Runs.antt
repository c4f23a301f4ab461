-- ===== src/Persistence/Runs.antt =====
-- A run whose observations are a host with an open port and a discovered name, and a finding on it.
use aicybersec.Common.{
  ℕ, ◌≤◌, ◌≡◌, refl, false, Option, none, some, List, [], ◌∷◌, ◌++◌, length, All, ok,
}
use aicybersec.Common.Text.{
  Text, codes, text_eq, elem, strip, lstrip, rstrip, lower, lower_code, has, has_text, starts_with,
  ends_with, drop_last, drop_trailing, decimal,
}
use aicybersec.Safety.Params.{text, other}
use aicybersec.Scan.{ScopeType, Entry}
use aicybersec.Scope.{Net}
use aicybersec.Scope.Names.{
  split_dots, hostname_re, ipv4_re, validate_domain, normalize_hostname, is_within_domain,
}
use aicybersec.Scope.Snapshot.{parent_of, parents_from, snapshot_parents}
use aicybersec.Persistence.{AssetType, unverified, Attributes, Asset}
use aicybersec.Persistence.Builders.{
  rstrip_dots, canonical, plain_attributes, build_domain_asset, build_subdomain_asset,
}
use aicybersec.Persistence.Observed.{PortEntry, NameEntry, ObservedData, AgentObservation}
use aicybersec.Persistence.Derive.{
  port_assets, service_assets, hosts_assets, name_assets, subfinder_assets, assets_from_observation,
}
use aicybersec.Persistence.Store.{
  find_id, derive_all, Owner, add_asset, add_assets, link_parents, store_assets, persist_assets,
}
use aicybersec.Persistence.Stored.{IsIndexed}
use aicybersec.Persistence.Links.{IsNewRow}
use aicybersec.Persistence.Rerun.{
  persist_assets-IsIndexed, persist_assets_twice, persist_assets-IsNewRow,
}
use aicybersec.Persistence.Authorized.{IsAuthorized, persist_assets-IsAuthorized}
use aicybersec.Safety.Results.{Severity}
use aicybersec.Persistence.Json.{Dict, string, object, entry, no_entries, get_key}
use aicybersec.Persistence.Findings.{FindingRow, open_finding, evidence_candidates}
use aicybersec.Persistence.Matching.{
  link_findings_to_assets, link_rows, is_unlinked, resolve_finding_asset_id, any_value, any_host,
  by_value, by_host, candidate_host, not_blank,
}

abbrev net : Net
net = record { is_ip = λ s. false; in_network = λ a n. false; resolve = λ h. [] }

abbrev port : PortEntry
port = record {
  state = some (codes "open");
  number = some 443;
  protocol = other (codes "tcp");
  service_name = other (codes "https");
}

abbrev no_data : ObservedData
no_data = record { hosts = []; services = []; domain = none; subdomains = []; endpoints = [] }

abbrev scanned : ObservedData
scanned = record no_data { hosts = record { ip = some (codes "10.0.0.5"); ports = port ∷ [] } ∷ [] }

abbrev name : NameEntry
name = record {
  host = some (codes "www.a.com");
  verification_status = unverified;
  source = none;
  dns_a = none;
}

abbrev discovered : ObservedData
discovered = record no_data { domain = some (codes "a.com"); subdomains = name ∷ [] }

abbrev observed : Text → ObservedData → AgentObservation
observed tool data_of = record { source = codes "tool"; tool = tool; found = some data_of }

abbrev snapshot : List Entry
snapshot = record { type = ScopeType.domain; value = some (codes "a.com") } ∷ []

abbrev scan : Owner
scan = record { scan_id = 1; project_id = 2; target_snapshot = some snapshot }

abbrev observations : List AgentObservation
observations = observed (codes "nmap") scanned ∷ observed (codes "subfinder") discovered ∷ []

abbrev new_asset : ℕ → AssetType → Text → Attributes → Text → Asset
new_asset id t value attributes tool = record {
  id = id;
  scan_id = 1;
  project_id = 2;
  asset_type = t;
  value = value;
  host = some value;
  port = none;
  scheme = none;
  parent_asset_id = none;
  attributes = attributes;
  source_tool = tool;
}

abbrev subdomain_attributes : Attributes
subdomain_attributes =
    record (plain_attributes (
      (codes "source", text (codes "subfinder"))
      ∷ (codes "parent_domain", text (codes "a.com"))
      ∷ [])) { verification_status = unverified }

abbrev rows : List Asset
rows =
    new_asset 0 AssetType.host (codes "10.0.0.5") (plain_attributes []) (codes "nmap")
    ∷ record (new_asset 1 AssetType.service (codes "10.0.0.5:443")
        (plain_attributes
          ((codes "protocol", other (codes "tcp")) ∷ (codes "service", other (codes "https")) ∷ []))
        (codes "nmap")) { host = some (codes "10.0.0.5"); port = some 443 }
    ∷ new_asset 2 AssetType.domain (codes "a.com") (plain_attributes []) (codes "subfinder")
    ∷ record (new_asset 3 AssetType.subdomain (codes "www.a.com") subdomain_attributes
        (codes "subfinder")) { parent_asset_id = some 2 }
    ∷ []

abbrev ids : List Asset → ℕ
ids found = length found

persisted : persist_assets net ids scan observations [] ≡ ok (rows, 4)
unfolding persist_assets derive_all assets_from_observation hosts_assets service_assets port_assets
    subfinder_assets normalize_hostname validate_domain snapshot_parents parents_from parent_of
    text_eq elem strip lstrip rstrip lower lower_code has has_text starts_with ends_with drop_last
    drop_trailing build_domain_asset build_subdomain_asset canonical decimal rstrip_dots name_assets
    add_asset add_assets find_id link_parents store_assets hostname_re ipv4_re is_within_domain
    split_dots
persisted = refl

persist_assets-IsIndexed_example : IsIndexed rows
persist_assets-IsIndexed_example =
    persist_assets-IsIndexed net ids scan observations [] rows 4 tt persisted

persist_assets_twice_example : persist_assets net ids scan observations rows ≡ ok (rows, 0)
persist_assets_twice_example = persist_assets_twice net ids scan observations [] rows 4 persisted

persist_assets-IsNewRow_example :
    (new : List Asset) × (rows ≡ [] ++ new)
    × (4 ≡ length new)
    × (4 ≤ 500)
    × All (IsNewRow 1 rows) new
persist_assets-IsNewRow_example =
    persist_assets-IsNewRow net ids scan observations [] rows 4 persisted

abbrev dumps : Dict → Option Text
dumps d = some (codes "{}")

abbrev payload : Dict
payload =
    entry (codes "decision") (object (entry (codes "reasoning") (string (codes "why")) no_entries))
      no_entries

abbrev finding : FindingRow
finding = record {
  scan_id = 1;
  project_id = 2;
  asset_id = none;
  fingerprint = codes "f";
  title = codes "Open port";
  description = none;
  source_tool = codes "nmap";
  scanner_severity = Severity.info;
  scanner_evidence = entry (codes "host") (string (codes "www.a.com")) no_entries;
  scanner_references = [];
  status = open_finding;
}

-- The name is the value of one asset.
linked :
    link_findings_to_assets 1 rows (finding ∷ []) ≡ (record finding { asset_id = some 3 } ∷ [], 1)
unfolding link_findings_to_assets link_rows is_unlinked resolve_finding_asset_id any_value any_host
    by_value by_host candidate_host not_blank evidence_candidates get_key text_eq strip lstrip
    rstrip
linked = refl

persist_assets-IsAuthorized_example :
    (new : List Asset) × (rows ≡ [] ++ new) × All (IsAuthorized net snapshot) new
persist_assets-IsAuthorized_example =
    persist_assets-IsAuthorized net snapshot ids scan observations [] rows 4 refl persisted
