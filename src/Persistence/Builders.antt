-- ===== src/Persistence/Builders.antt =====
-- The builders of asset dicts: `build_domain_asset`, `build_subdomain_asset`, `build_endpoint_asset`.
use aicybersec.Common.{
  ℕ, ◌-◌, Bool, not, ◌&&◌, ◌||◌, Option, none, some, List, [], ◌∷◌, ◌++◌, take, length, Result, ok,
  err, Exn, value_error, ◌>>=◌, if◌then◌else◌, leb, ◌==◌,
}
use aicybersec.Common.Text.{Text, codes, is_empty, strip, lower, has, has_text, decimal}
use aicybersec.Safety.Params.{text, other, Params}
use aicybersec.Safety.Url.{drop_scheme, netloc_of, host_part, host_lower}
use aicybersec.Live.Origin.{cleaned, scheme_of, port_of}
use aicybersec.Persistence.{AssetType, Verification, unverified, missing, Attributes}
use aicybersec.Persistence.Enrich.{DnsKey, key_a, key_aaaa, key_cname}
use aicybersec.Persistence.Observed.{Endpoint, Derived}

-- `s.rstrip(".")`
unfoldable pub rstrip_dots : Text → Text
rstrip_dots [] = []
rstrip_dots (c ∷ s) =
    let rest = rstrip_dots s in
    if c == b'.' then (if is_empty rest then [] else c ∷ rest) else c ∷ rest

-- `s.strip().lower().rstrip(".")`
unfoldable pub canonical : Text → Text
canonical s = rstrip_dots (lower (strip s))

abbrev pub is_malformed : Text → Bool
is_malformed name =
    is_empty name
    || not (leb (length name) 253)
    || has b' ' name
    || has_text (codes "://") name
    || has b'*' name

-- Attributes without any DNS data.
abbrev pub plain_attributes : Params → Attributes
plain_attributes ps = record {
  dns_a = none;
  dns_aaaa = none;
  dns_cname = none;
  verification_status = missing;
  rest = ps;
}

-- `build_domain_asset`
unfoldable pub build_domain_asset : Text → Text → Result Exn Derived
build_domain_asset domain source_tool =
    let name = canonical domain in
    if is_malformed name
    then err value_error
    else ok (record {
      asset_type = AssetType.domain;
      value = name;
      host = some name;
      port = none;
      scheme = none;
      attributes = plain_attributes [];
      source_tool = source_tool;
      parent = none;
    })

abbrev pub known_status : Verification → Verification
known_status missing = unverified
known_status s = s

-- A value that is given and not empty, as `if value:` tests it.
abbrev pub nonempty_text : Option Text → Option Text
nonempty_text none = none
nonempty_text (some s) = if is_empty s then none else some s

abbrev pub take_each : ℕ → List Text → List Text
take_each n [] = []
take_each n (s ∷ ss) = take n s ∷ take_each n ss

-- One DNS key of the attributes: not there for an empty list.
abbrev pub dns_values : List Text → Option (List Text)
dns_values [] = none
dns_values (v ∷ vs) = some (take_each 255 (take 20 (v ∷ vs)))

abbrev pub parent_params : Option Text → Params
parent_params none = []
parent_params (some p) = (codes "parent_domain", text (canonical p)) ∷ []

abbrev pub domain_parent : Option Text → Option (AssetType × Text)
domain_parent none = none
domain_parent (some p) = some (AssetType.domain, canonical p)

-- `build_subdomain_asset`; `dns` has an empty list where the dict has no list.
unfoldable pub build_subdomain_asset :
    Text → Option Text → Text → Verification → (DnsKey → List Text) → Text → Result Exn Derived
build_subdomain_asset hostname parent_domain source status dns source_tool =
    let name = canonical hostname in
    let parent = nonempty_text parent_domain in
    if is_malformed name
    then err value_error
    else ok (record {
      asset_type = AssetType.subdomain;
      value = name;
      host = some name;
      port = none;
      scheme = none;
      attributes = record {
        dns_a = dns_values (dns key_a);
        dns_aaaa = dns_values (dns key_aaaa);
        dns_cname = dns_values (dns key_cname);
        verification_status = known_status status;
        rest = (codes "source", text source) ∷ parent_params parent;
      };
      source_tool = source_tool;
      parent = domain_parent parent;
    })

-- What `urlparse` gives: the port raises on its own.
pub record Parsed : Type 0 where
  pub url_scheme : Text
  pub hostname : Option Text
  pub url_port : Result Exn (Option ℕ)

unfoldable pub urlparse : Text → Result Exn Parsed
urlparse url =
    let s = cleaned url in
    let netloc = netloc_of (drop_scheme s) in
    if (has b'[' netloc && not (has b']' netloc)) || (has b']' netloc && not (has b'[' netloc))
    then err value_error
    else ok (record {
      url_scheme = scheme_of s;
      hostname = host_lower (host_part netloc);
      url_port = port_of netloc;
    })

-- `parsed.port`, None where it raises.
abbrev pub port_or_none : Result Exn (Option ℕ) → Option ℕ
port_or_none (err e) = none
port_or_none (ok p) = p

abbrev pub upper_code : ℕ → ℕ
upper_code c = if leb b'a' c && leb c b'z' then c - 32 else c

-- `s.upper()`, exact on ASCII text
unfoldable pub upper : Text → Text
upper [] = []
upper (c ∷ s) = upper_code c ∷ upper s

abbrev pub depth_params : Option ℕ → Params
depth_params none = []
depth_params (some n) = (codes "crawl_depth", other (decimal n)) ∷ []

abbrev pub text_params : Text → ℕ → Option Text → Params
text_params key limit none = []
text_params key limit (some s) = (key, text (take limit s)) ∷ []

abbrev pub upper_text : Option Text → Option Text
upper_text none = none
upper_text (some s) = some (upper s)

abbrev pub page_parent : Option Text → Option (AssetType × Text)
page_parent none = none
page_parent (some page) = some (AssetType.url, take 500 page)

-- `build_endpoint_asset` after the parse.
abbrev pub endpoint_of : Endpoint → Text → Text → Parsed → Option Text → Result Exn Derived
endpoint_of e candidate source_tool p none = err value_error
endpoint_of e candidate source_tool p (some host) =
    let page = nonempty_text e.source_page in
    if is_empty p.url_scheme
    then err value_error
    else ok (record {
      asset_type = AssetType.endpoint;
      value = candidate;
      host = some host;
      port = port_or_none p.url_port;
      scheme = some p.url_scheme;
      attributes = plain_attributes (
          text_params (codes "source_page") 500 page
          ++ depth_params e.crawl_depth
          ++ text_params (codes "http_method") 10 (upper_text (nonempty_text e.method)));
      source_tool = source_tool;
      parent = page_parent page;
    })

-- `build_endpoint_asset`
unfoldable pub build_endpoint_asset : Endpoint → Text → Text → Result Exn Derived
build_endpoint_asset e url source_tool =
    let candidate = strip url in
    do p ← urlparse candidate; endpoint_of e candidate source_tool p p.hostname
