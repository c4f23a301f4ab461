-- ===== src/Live/Tests.antt =====
-- Concrete origins, authorizations and live scans.
use aicybersec.Live.Record.{get_live_authorization_for_user}
use aicybersec.Live.Snapshot.{payload_of, authorization_payload, build_authorization_snapshot}
use aicybersec.Live.Profile.{ExecutionProfile, render_execution_profile, verify_execution_profile}
use aicybersec.Live.Creation.{
  Hashing, LiveScan, new_live_scan, create_live_scan, verify_live_scan_authorization,
}
use aicybersec.Live.LifeCycle.{Request, suspend, revoke, replay, moves, replay-moves}
use aicybersec.Live.Usable.{IsUsable, authorization_payload_lem}
use aicybersec.Live.Binding.{
  IsBound, verify_execution_profile_lem, IsBound-verify_execution_profile,
}
use aicybersec.Live.RoundTrip.{verified_of, snapshot_of}
use aicybersec.Live.Verified.{
  MayRun, verify_live_scan_authorization-MayRun, create_live_scan-verified,
}
use aicybersec.Live.Issue.{IsWellFormed}
use aicybersec.Common.{ℕ, ◌≡◌, refl, ◌↔◌, true, false, Option, none, some, List, [], ◌∷◌, ok, arith}
use aicybersec.Common.Text.{
  Text, codes, text_eq, elem, strip, lstrip, rstrip, lower, lower_code, has, starts_with, ends_with,
  drop_last, before, after, after_last,
}
use aicybersec.Common.Order.{text_leb, insert_by, sort_by}
use aicybersec.Safety.Url.{
  lstrip_controls, remove_breaks, all_scheme, drop_scheme, netloc_end, netloc_of, host_part,
  host_lower,
}
use aicybersec.Scope.{Net}
use aicybersec.Scope.Names.{split_dots, hostname_re, ipv4_re}
use aicybersec.Manager.Service.{User, may_see, has_active}
use aicybersec.Live.{Settings}
use aicybersec.Live.Origin.{
  Origin, any_space, all_digits, number_from, scheme_of, path_of, port_text, port_of, ipish_host,
  refused_host, canonical_origin_host, parse_cleaned, parse_origin, parse_origins,
  parse_origin_list, without_keys, effective_origins,
}
use aicybersec.Live.Record.{
  active, LiveAuthorization, AuthorizationCreate, validate_evidence, create_live_authorization,
  get_method, is_sha256,
}
use aicybersec.Live.Canonical.Lists.{IsListing, parse_origin_list-again}
use aicybersec.Live.Issue.{IsIssued, create_live_authorization-IsIssued}

abbrev net : Net
net = record { is_ip = λ s. false; in_network = λ a n. false; resolve = λ h. [] }

abbrev site : Origin
site = record {
  origin = codes "https://www.example.com";
  scheme = codes "https";
  host = codes "www.example.com";
  port = 443;
}

abbrev shop : Origin
shop = record {
  origin = codes "http://shop.example.com";
  scheme = codes "http";
  host = codes "shop.example.com";
  port = 80;
}

site_read : parse_origin net (codes " HTTPS://www.Example.com:443 ") ≡ ok site
unfolding parse_origin parse_cleaned strip lstrip rstrip lstrip_controls remove_breaks has any_space
    drop_scheme all_scheme before after netloc_of netloc_end scheme_of lower lower_code path_of
    text_eq host_part after_last host_lower port_of port_text all_digits number_from
    canonical_origin_host refused_host ipv4_re hostname_re ipish_host split_dots starts_with
    ends_with drop_last
site_read = refl

list_read :
    parse_origin_list net (
      codes "https://www.example.com"
      ∷ codes "http://shop.example.com:80"
      ∷ codes "https://WWW.example.com"
      ∷ [])
    ≡ ok (shop ∷ site ∷ [])
unfolding parse_origin_list parse_origins elem sort_by insert_by text_leb parse_origin parse_cleaned
    strip lstrip rstrip lstrip_controls remove_breaks has any_space drop_scheme all_scheme before
    after netloc_of netloc_end scheme_of lower lower_code path_of text_eq host_part after_last
    host_lower port_of port_text all_digits number_from canonical_origin_host refused_host ipv4_re
    hostname_re ipish_host split_dots starts_with ends_with drop_last
list_read = refl

parse_origin_list-again_example :
    IsListing net (shop ∷ site ∷ [])
    × (parse_origin_list net
          (codes "http://shop.example.com" ∷ codes "https://www.example.com" ∷ [])
        ≡ ok (shop ∷ site ∷ []))
parse_origin_list-again_example = parse_origin_list-again net _ (shop ∷ site ∷ []) list_read

-- One day from the time 100, for two origins of which one is excluded.
abbrev settings : Settings
settings = record {
  live_probe_enabled = true;
  live_probe_policy_version = codes "v1";
  live_probe_max_authorization_days = 1;
}

abbrev admin : User
admin = record { id = 1; is_admin = true }

abbrev request : AuthorizationCreate
request = record {
  origins = codes "https://www.example.com" ∷ codes "http://shop.example.com:80" ∷ [];
  exclusions = codes "http://shop.example.com" ∷ [];
  evidence_sha256 = none;
  evidence_ref = some (codes "T-1");
  valid_from = none;
  valid_until = none;
}

abbrev granted : LiveAuthorization
granted = record {
  id = 7;
  project_id = 3;
  status = active;
  policy_version = codes "v1";
  evidence_ref = some (codes "T-1");
  evidence_sha256 = none;
  origins = shop ∷ site ∷ [];
  exclusions = shop ∷ [];
  methods = get_method;
  approved_by = 1;
  approved_at = 100;
  valid_from = 100;
  valid_until = 86_400_000_100;
}

issued : create_live_authorization net settings 7 100 admin (some 3) request ≡ ok granted
unfolding create_live_authorization validate_evidence effective_origins without_keys
    parse_origin_list parse_origins elem sort_by insert_by text_leb parse_origin parse_cleaned strip
    lstrip rstrip lstrip_controls remove_breaks has any_space drop_scheme all_scheme before after
    netloc_of netloc_end scheme_of lower lower_code path_of text_eq host_part after_last host_lower
    port_of port_text all_digits number_from canonical_origin_host refused_host ipv4_re hostname_re
    ipish_host split_dots starts_with ends_with drop_last
issued = refl

create_live_authorization-IsIssued_example :
    IsIssued net settings 100 admin (some 3) request granted
create_live_authorization-IsIssued_example =
    create_live_authorization-IsIssued net settings 7 100 admin (some 3) request granted issued

granted-IsWellFormed : IsWellFormed net granted
granted-IsWellFormed =
    (create_live_authorization-IsIssued net settings 7 100 admin (some 3) request granted
      issued).well_formed

abbrev user : User
user = record { id = 2; is_admin = false }

abbrev requests : List Request
requests =
    revoke user (some 2) ∷ suspend admin none ∷ suspend admin none ∷ revoke admin (some 2) ∷ []

replay-moves_example : replay requests granted ≡ record granted { status = moves requests active }
replay-moves_example = replay-moves requests granted

authorization_payload_lem_example :
    (authorization_payload net settings 200 granted ≡ ok (payload_of granted))
    ↔ (IsUsable settings 200 granted × (payload_of granted ≡ payload_of granted))
authorization_payload_lem_example =
    authorization_payload_lem net settings 200 granted (payload_of granted) granted-IsWellFormed

-- A digest of 64 digits.
abbrev hash : Text
hash = codes "0123456789abcdef0123456789abcdef0123456789abcdef0123456789abcdef"

abbrev hashing : Hashing
hashing = record { of_core = λ c. hash; of_json = λ t. hash; json_of = λ p. codes "profile" }

granted-IsUsable : IsUsable settings 200 granted
granted-IsUsable = record {
  status = refl;
  started = omega arith;
  running = omega arith;
  version = refl;
}

granted_snapshot :
    build_authorization_snapshot net hashing.of_core settings 200 granted
    ≡ ok (snapshot_of hashing.of_core granted)
unfolding build_authorization_snapshot
granted_snapshot =
    rw
      ((authorization_payload_lem net settings 200 granted (payload_of granted)
          granted-IsWellFormed).1
        (granted-IsUsable, refl))
      refl

abbrev live_scan : LiveScan
live_scan = new_live_scan hashing settings 11 12 none granted (snapshot_of hashing.of_core granted)

created :
    create_live_scan net hashing settings 200 11 12 admin 3 (some 2) (some (some granted)) none []
    ≡ ok live_scan
unfolding create_live_scan get_live_authorization_for_user may_see has_active
created = rw granted_snapshot refl

abbrev lookup : ℕ → Option LiveAuthorization
lookup n = some granted

is_sha256_hash : (json : Text) → is_sha256 (hashing.of_json json) ≡ true
is_sha256_hash json = refl

create_live_scan-verified_example :
    verify_live_scan_authorization net hashing settings 300 lookup live_scan
    ≡ ok (verified_of granted)
create_live_scan-verified_example =
    create_live_scan-verified net hashing settings 200 300 11 12 admin 3 (some 2) granted none []
      lookup live_scan granted-IsWellFormed is_sha256_hash created (omega arith) (omega arith) refl

accepted :
    verify_live_scan_authorization net hashing settings 300 lookup live_scan
    ≡ ok (verified_of granted)
accepted =
    create_live_scan-verified net hashing settings 200 300 11 12 admin 3 (some 2) granted none []
      lookup live_scan granted-IsWellFormed is_sha256_hash created (omega arith) (omega arith) refl

verify_live_scan_authorization-MayRun_example :
    MayRun hashing settings 300 lookup live_scan (verified_of granted)
verify_live_scan_authorization-MayRun_example =
    verify_live_scan_authorization-MayRun net hashing settings 300 lookup live_scan
      (verified_of granted) accepted

abbrev profile : ExecutionProfile
profile = render_execution_profile 12 11 7 3 (codes "v1")

profile-IsBound :
    IsBound hashing.of_json settings live_scan.live 7 profile live_scan.live.execution_profile
      live_scan.live.execution_profile_digest
unfolding render_execution_profile
profile-IsBound = record {
  column = record { json = codes "profile"; parsed = some profile };
  present = refl;
  parsed = refl;
  stamped = refl;
  referenced = refl;
  rendered = refl;
}

verify_execution_profile_lem_example :
    (verify_execution_profile hashing.of_json settings live_scan.live 7 ≡ ok profile)
    ↔ IsBound hashing.of_json settings live_scan.live 7 profile live_scan.live.execution_profile
        live_scan.live.execution_profile_digest
verify_execution_profile_lem_example =
    verify_execution_profile_lem hashing.of_json settings live_scan.live 7 profile is_sha256_hash

profile_verifies : verify_execution_profile hashing.of_json settings live_scan.live 7 ≡ ok profile
profile_verifies =
    IsBound-verify_execution_profile hashing.of_json settings live_scan.live 7 profile
      is_sha256_hash profile-IsBound
