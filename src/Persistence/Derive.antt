-- ===== src/Persistence/Derive.antt =====
-- Asset dicts from observations: `_service_assets`, `_url_assets`, `_subfinder_assets`,
-- `_katana_assets` and `assets_from_observation`.
use aicybersec.Common.{
  ℕ, Bool, true, not, ◌||◌, Option, none, some, or_else, List, [], ◌∷◌, ◌++◌, Result, ok, err, Exn,
  unbound_local_error, ◌>>=◌, if◌then◌else◌,
}
use aicybersec.Common.Text.{Text, codes, text_eq, elem, is_empty, strip, decimal}
use aicybersec.Scan.{Entry}
use aicybersec.Scope.{Net}
use aicybersec.Scope.Names.{normalize_hostname, is_within_domain}
use aicybersec.Scope.Snapshot.{snapshot_parents}
use aicybersec.Persistence.{AssetType}
use aicybersec.Persistence.Enrich.{DnsKey, key_a}
use aicybersec.Persistence.Builders.{
  Parsed, plain_attributes, nonempty_text, urlparse, port_or_none, build_domain_asset,
  build_subdomain_asset, build_endpoint_asset,
}
use aicybersec.Persistence.Observed.{
  PortEntry, HostEntry, UrlEntry, NameEntry, Endpoint, ObservedData, AgentObservation, Derived,
}

abbrev pub host_asset : Text → Option Text → List Derived
host_asset tool none = []
host_asset tool (some ip) =
    record {
      asset_type = AssetType.host;
      value = ip;
      host = some ip;
      port = none;
      scheme = none;
      attributes = plain_attributes [];
      source_tool = tool;
      parent = none;
    }
    ∷ []

abbrev pub is_open : PortEntry → Bool
is_open port = text_eq (or_else port.state []) (codes "open")

abbrev pub service_asset : Text → Option Text → PortEntry → Option ℕ → List Derived
service_asset tool ip port none = []
service_asset tool ip port (some n) =
    record {
      asset_type = AssetType.service;
      value = or_else (nonempty_text ip) (codes "unknown") ++ b':' ∷ decimal n;
      host = ip;
      port = some n;
      scheme = none;
      attributes =
          plain_attributes
            ((codes "protocol", port.protocol) ∷ (codes "service", port.service_name) ∷ []);
      source_tool = tool;
      parent = none;
    }
    ∷ []

unfoldable pub port_assets : Text → Option Text → List PortEntry → List Derived
port_assets tool ip [] = []
port_assets tool ip (port ∷ ports) =
    let rest = port_assets tool ip ports in
    if is_open port then service_asset tool ip port port.number ++ rest else rest

-- `_service_assets`
unfoldable pub service_assets : Option Text → List PortEntry → Text → List Derived
service_assets ip ports tool = host_asset tool (nonempty_text ip) ++ port_assets tool ip ports

unfoldable pub hosts_assets : Text → List HostEntry → List Derived
hosts_assets tool [] = []
hosts_assets tool (h ∷ hs) = service_assets h.ip h.ports tool ++ hosts_assets tool hs

-- `svc.get("final_url") or svc.get("url")`, where it is not empty.
abbrev pub first_url : UrlEntry → Option Text
first_url svc = elim (nonempty_text svc.final_url) [
  | none ↦ nonempty_text svc.url
  | some u ↦ some u
]

abbrev pub url_asset : Text → UrlEntry → Text → Parsed → Option ℕ → Derived
url_asset tool svc url p port = record {
  asset_type = AssetType.url;
  value = url;
  host = p.hostname;
  port = port;
  scheme = nonempty_text (some p.url_scheme);
  attributes = plain_attributes (
      (codes "status_code", svc.status_code)
      ∷ (codes "title", svc.title)
      ∷ (codes "tech", svc.tech)
      ∷ []);
  source_tool = tool;
  parent = none;
}

-- One service, where `parsed` is what the loop before left in the variable of that name: it keeps
-- its value, or has none, where `urlparse` raises.
abbrev pub parse_service :
    Text → UrlEntry → Text → Option Parsed → Result Exn Parsed → Result Exn (Derived × Parsed)
parse_service tool svc url parsed (ok p) =
    ok (url_asset tool svc url p (port_or_none p.url_port), p)
parse_service tool svc url none (err e) = err unbound_local_error
parse_service tool svc url (some p) (err e) = ok (url_asset tool svc url p none, p)

-- `_url_assets`
unfoldable pub url_assets : Text → Option Parsed → List UrlEntry → Result Exn (List Derived)
url_assets tool parsed [] = ok []
url_assets tool parsed (svc ∷ svcs) = elim (first_url svc) [
  | none ↦ url_assets tool parsed svcs
  | some url ↦ do
    (d, p) ← parse_service tool svc url parsed (urlparse url)
    ds ← url_assets tool (some p) svcs
    ok (d ∷ ds)
]

-- A dict that the builder refuses is left out.
abbrev pub if_built : Result Exn Derived → List Derived
if_built (err e) = []
if_built (ok d) = d ∷ []

abbrev pub only_a : Option (List Text) → DnsKey → List Text
only_a dns key_a = or_else dns []
only_a dns _ = []

abbrev pub name_asset : Net → Text → Text → NameEntry → Option Text → List Derived
name_asset net tool domain entry none = []
name_asset net tool domain entry (some host) =
    if text_eq host domain || not (is_within_domain net (some host) (some domain))
    then []
    else if_built (
        build_subdomain_asset host (some domain)
          (or_else (nonempty_text entry.source) (codes "subfinder")) entry.verification_status
          (only_a entry.dns_a) tool)

unfoldable pub name_assets : Net → Text → Text → List NameEntry → List Derived
name_assets net tool domain [] = []
name_assets net tool domain (e ∷ es) =
    name_asset net tool domain e (normalize_hostname net e.host) ++ name_assets net tool domain es

abbrev pub with_names : List Derived → Result Exn Derived → List Derived
with_names names (err e) = []
with_names names (ok d) = d ∷ names

-- Whether the domain is a parent of the snapshot, where there is one.
abbrev pub is_authorized : Net → Option (List Entry) → Text → Result Exn Bool
is_authorized net none domain = ok true
is_authorized net (some snapshot) domain = do ok (elem domain (← snapshot_parents net snapshot))

abbrev pub domain_assets :
    Net → Option (List Entry) → Text → ObservedData → Option Text → Result Exn (List Derived)
domain_assets net snapshot tool data_of none = ok []
domain_assets net snapshot tool data_of (some domain) =
    let names = name_assets net tool domain data_of.subdomains in
    do
      allowed ← is_authorized net snapshot domain
      ok (if allowed then with_names names (build_domain_asset domain tool) else [])

-- `_subfinder_assets`
unfoldable pub subfinder_assets :
    Net → Option (List Entry) → Text → ObservedData → Result Exn (List Derived)
subfinder_assets net snapshot tool data_of =
    domain_assets net snapshot tool data_of (normalize_hostname net data_of.domain)

-- A url that is not blank.
abbrev pub endpoint_asset : Text → Endpoint → Option Text → List Derived
endpoint_asset tool e none = []
endpoint_asset tool e (some url) =
    if is_empty (strip url) then [] else if_built (build_endpoint_asset e url tool)

-- `_katana_assets`
unfoldable pub katana_assets : Text → List Endpoint → List Derived
katana_assets tool [] = []
katana_assets tool (e ∷ es) = endpoint_asset tool e e.url ++ katana_assets tool es

abbrev pub tool_assets : Net → Option (List Entry) → Text → ObservedData → Result Exn (List Derived)
tool_assets net snapshot tool data_of =
    if text_eq tool (codes "nmap")
    then ok (hosts_assets tool data_of.hosts)
    else if text_eq tool (codes "httpx")
    then url_assets tool none data_of.services
    else if text_eq tool (codes "subfinder")
    then subfinder_assets net snapshot tool data_of
    else if text_eq tool (codes "katana")
    then ok (katana_assets tool data_of.endpoints)
    else ok []

abbrev pub data_assets :
    Net → Option (List Entry) → AgentObservation → Option ObservedData → Result Exn (List Derived)
data_assets net snapshot o none = ok []
data_assets net snapshot o (some data_of) =
    if text_eq o.source (codes "tool") then tool_assets net snapshot o.tool data_of else ok []

-- `assets_from_observation`
unfoldable pub assets_from_observation :
    Net → Option (List Entry) → AgentObservation → Result Exn (List Derived)
assets_from_observation net snapshot o = data_assets net snapshot o o.found
