-- ===== src/Persistence/Tests.antt =====
-- A concrete enrichment: one asset of the scan, and one of another scan.
use aicybersec.Common.{ℕ, ◌≡◌, refl, false, none, some, [], ◌∷◌}
use aicybersec.Common.Text.{
  codes, text_eq, elem, strip, lstrip, rstrip, lower, lower_code, has, has_text, starts_with,
  ends_with, drop_last, drop_trailing,
}
use aicybersec.Common.Order.{text_leb, insert_by, sort_by}
use aicybersec.Scope.{Net}
use aicybersec.Scope.Names.{split_dots, hostname_re, ipv4_re, validate_domain, normalize_hostname}
use aicybersec.Discovery.Names.{insert, union}
use aicybersec.Persistence.{Dns, AssetType, unverified, resolved, Attributes, Asset, Answer}
use aicybersec.Persistence.Enrich.{
  clean_value, clean_values, normalize_dns_values, merge_dns_values, normalize_dnsx_record, enrich,
  enrich_rows, apply_records, apply_dns_enrichment, queried, asked_answers, apply_dnsx_enrichment,
}
use aicybersec.Persistence.DataOnly.{IsQueried, AreDataOnly, apply_dnsx_enrichment-AreDataOnly}

abbrev net : Net
net = record { is_ip = λ s. false; in_network = λ a n. false; resolve = λ h. [] }

abbrev dns : Dns
dns = record { net = net; ip_address = λ s. some (4, s) }

abbrev asset_of : ℕ → Attributes → Asset
asset_of scan attributes = record {
  id = 9;
  scan_id = scan;
  project_id = 1;
  asset_type = AssetType.subdomain;
  value = codes "w.a.com";
  host = some (codes "W.a.com");
  port = none;
  scheme = none;
  parent_asset_id = none;
  source_tool = codes "subfinder";
  attributes = attributes;
}

abbrev new_attributes : Attributes
new_attributes = record {
  dns_a = none;
  dns_aaaa = none;
  dns_cname = none;
  verification_status = unverified;
  rest = [];
}

abbrev enriched_attributes : Attributes
enriched_attributes = record new_attributes {
  dns_a = some (codes "1.2.3.4" ∷ []);
  verification_status = resolved;
}

abbrev answer : Answer
answer = record {
  host = some (codes "w.a.com");
  dns_a = [];
  a = codes "1.2.3.4" ∷ [];
  dns_aaaa = [];
  aaaa = [];
  dns_cname = [];
  cname = [];
}

enriched_once :
    apply_dnsx_enrichment dns 1
      (codes "w.a.com" ∷ [])
      (answer ∷ [])
      (asset_of 1 new_attributes ∷ asset_of 2 new_attributes ∷ [])
    ≡ asset_of 1 enriched_attributes ∷ asset_of 2 new_attributes ∷ []
unfolding clean_value clean_values normalize_dns_values merge_dns_values normalize_dnsx_record
    enrich enrich_rows apply_records apply_dns_enrichment queried asked_answers
    apply_dnsx_enrichment insert union sort_by insert_by text_leb normalize_hostname validate_domain
    hostname_re ipv4_re split_dots text_eq elem strip lstrip rstrip lower lower_code has has_text
    starts_with ends_with drop_last drop_trailing
enriched_once = refl

apply_dnsx_enrichment-AreDataOnly_example :
    AreDataOnly 1
      (IsQueried dns (codes "w.a.com" ∷ []))
      (asset_of 1 new_attributes ∷ asset_of 2 new_attributes ∷ [])
      (apply_dnsx_enrichment dns 1
        (codes "w.a.com" ∷ [])
        (answer ∷ [])
        (asset_of 1 new_attributes ∷ asset_of 2 new_attributes ∷ []))
apply_dnsx_enrichment-AreDataOnly_example =
    apply_dnsx_enrichment-AreDataOnly dns 1 (codes "w.a.com" ∷ []) (answer ∷ [])
      (asset_of 1 new_attributes ∷ asset_of 2 new_attributes ∷ [])
