-- ===== src/Scope/Tests.antt =====
-- Concrete names and snapshots.
use aicybersec.Common.Text.{before, after, after_last}
use aicybersec.Scan.{ScopeType}
use aicybersec.Safety.Url.{
  lstrip_controls, remove_breaks, all_scheme, drop_scheme, netloc_end, netloc_of, host_part,
  host_lower,
}
use aicybersec.Live.Origin.{scheme_of, port_text, port_of, all_digits, number_from}
use aicybersec.Scope.Validation.{
  Addresses, ScopeEntry, refused_name, validate_hostname, has_credentials, validate_url,
  validate_value, validate_scope,
}
use aicybersec.Scope.Accepted.{AreAccepted, validate_scope-AreAccepted}
use aicybersec.Common.{
  ◌≡◌, refl, ◌↔◌, ◌⊎◌, true, false, none, some, List, [], ◌∷◌, ok, All, IsUnique,
}
use aicybersec.Common.Text.{
  Text, codes, text_eq, elem, strip, lstrip, rstrip, lower, lower_code, has, has_text, starts_with,
  ends_with, drop_last, drop_trailing,
}
use aicybersec.Scan.{domain, cidr, Entry}
use aicybersec.Safety.Policy.{normalize, normalize_target}
use aicybersec.Scope.{Net}
use aicybersec.Scope.Names.{
  split_dots, hostname_re, ipv4_re, validate_domain, normalize_hostname, is_within_domain,
}
use aicybersec.Scope.Snapshot.{host_of, hosts_from, resolve_all, resolve_scope}
use aicybersec.Scope.Descendants.{IsBelow, is_within_domain_iff}
use aicybersec.Scope.Coverage.{IsGranted, resolve_scope-IsGranted}

-- No text is an address, and every name has the one address 10.0.0.1.
abbrev net : Net
net = record { is_ip = λ s. false; in_network = λ a n. false; resolve = λ h. codes "10.0.0.1" ∷ [] }

above : is_within_domain net (some (codes "api.Example.com.")) (some (codes "example.com")) ≡ true
unfolding is_within_domain normalize_hostname validate_domain hostname_re ipv4_re split_dots text_eq
    strip lstrip rstrip lower lower_code has has_text starts_with ends_with drop_last drop_trailing
above = refl

beside : is_within_domain net (some (codes "evil-example.com")) (some (codes "example.com")) ≡ false
unfolding is_within_domain normalize_hostname validate_domain hostname_re ipv4_re split_dots text_eq
    strip lstrip rstrip lower lower_code has has_text starts_with ends_with drop_last drop_trailing
beside = refl

-- A line feed before the root dot is kept.
line_feed : normalize_hostname net (some (codes "a.com\n.")) ≡ some (codes "a.com\n")
unfolding normalize_hostname validate_domain hostname_re ipv4_re split_dots text_eq strip lstrip
    rstrip lower lower_code has has_text starts_with ends_with drop_last drop_trailing
line_feed = refl

is_within_domain_iff_example :
    (is_within_domain net (some (codes "api.example.com")) (some (codes "example.com")) ≡ true) ↔ (
      (child : Text) × (parent : Text) × (normalize_hostname net (some (codes "api.example.com"))
        ≡ some child)
      × (normalize_hostname net (some (codes "example.com")) ≡ some parent)
      × ((child ≡ parent) ⊎ IsBelow parent child))
is_within_domain_iff_example =
    is_within_domain_iff net (some (codes "api.example.com")) (some (codes "example.com"))

abbrev names : List Text
names = codes "b.a.com" ∷ codes "x.com" ∷ codes "B.a.com." ∷ codes "a.com" ∷ []

abbrev snapshot : List Entry
snapshot =
    record { type = domain; value = some (codes "A.com") }
    ∷ record { type = cidr; value = some (codes "10.0.0.0/8") }
    ∷ []

resolved : resolve_scope net snapshot ≡ ok (codes "a.com" ∷ codes "10.0.0.1" ∷ [])
unfolding resolve_scope hosts_from host_of resolve_all normalize_target normalize text_eq elem strip
    lstrip rstrip lower lower_code has_text starts_with
resolved = refl

resolve_scope-IsGranted_example :
    All (IsGranted net snapshot) (codes "a.com" ∷ codes "10.0.0.1" ∷ [])
    × IsUnique (codes "a.com" ∷ codes "10.0.0.1" ∷ [])
resolve_scope-IsGranted_example =
    resolve_scope-IsGranted net snapshot (codes "a.com" ∷ codes "10.0.0.1" ∷ []) resolved

-- No text is an address or a network.
abbrev addresses : Addresses
addresses = record { ip_text = λ s. none; network_text = λ s. none }

abbrev given : List ScopeEntry
given =
    record { type = ScopeType.host; value = codes "WWW.a.com." }
    ∷ record { type = ScopeType.url; value = codes " http://a.com:80/x " }
    ∷ []

abbrev stored : List ScopeEntry
stored =
    record { type = ScopeType.host; value = codes "www.a.com" }
    ∷ record { type = ScopeType.url; value = codes "http://a.com:80/x" }
    ∷ []

validated : validate_scope net addresses given ≡ ok stored
unfolding validate_scope validate_value validate_hostname validate_url refused_name has_credentials
    hostname_re ipv4_re split_dots text_eq strip lstrip rstrip lower lower_code has ends_with
    drop_last drop_trailing before after after_last lstrip_controls remove_breaks all_scheme
    drop_scheme netloc_end netloc_of host_part host_lower scheme_of port_text port_of all_digits
    number_from
validated = refl

validate_scope-AreAccepted_example : AreAccepted net addresses given stored
validate_scope-AreAccepted_example = validate_scope-AreAccepted net addresses given stored validated
