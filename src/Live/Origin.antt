-- ===== src/Live/Origin.antt =====
-- `parse_origin` and what it calls, in backend/services/live_authorization_service.py.
use aicybersec.Common.{
  ℕ, ◌+◌, ◌-◌, ◌*◌, Bool, true, false, not, ◌&&◌, ◌||◌, Option, none, some, List, [], ◌∷◌, ◌++◌,
  length, Result, ok, err, Exn, value_error, ◌>>=◌, if◌then◌else◌, leb, ltb, ◌==◌,
}
use aicybersec.Common.Order.{sort_by}
use aicybersec.Common.Text.{
  Text, codes, text_eq, elem, is_empty, is_space, strip, lower, has, starts_with, before, after,
  after_last,
}
use aicybersec.Safety.Url.{
  lstrip_controls, remove_breaks, all_scheme, starts_alpha, drop_scheme, netloc_of, host_part,
  host_lower,
}
use aicybersec.Scope.{Net}
use aicybersec.Scope.Names.{split_dots, hostname_re, ipv4_re}
use aicybersec.Live.{LiveError, invalid, crash}

pub record Origin : Type 0 where
  pub origin : Text
  pub scheme : Text
  pub host : Text
  pub port : ℕ

unfoldable pub any_space : Text → Bool
any_space [] = false
any_space (c ∷ s) = is_space c || any_space s

abbrev is_digit : ℕ → Bool
is_digit c = leb b'0' c && leb c b'9'

unfoldable pub all_digits : Text → Bool
all_digits [] = true
all_digits (c ∷ s) = is_digit c && all_digits s

-- `s.isdigit()`
abbrev pub isdigit : Text → Bool
isdigit s = not (is_empty s) && all_digits s

-- `int(s)` of digits
unfoldable pub number_from : ℕ → Text → ℕ
number_from n [] = n
number_from n (c ∷ s) = number_from (n * 10 + (c - 48)) s

-- What `urlsplit` parses: the url without leading controls and without line breaks.
abbrev pub cleaned : Text → Text
cleaned raw = remove_breaks (lstrip_controls raw)

-- `parsed.scheme.lower()`
unfoldable pub scheme_of : Text → Text
unfolding has all_scheme before
scheme_of s =
    if has b':' s && starts_alpha s && all_scheme (before b':' s) then lower (before b':' s) else []

-- What follows the netloc; the path, since "?" and "#" are ruled out before.
abbrev pub drop_netloc : Text → Text
drop_netloc [] = []
drop_netloc (c ∷ s) = let rest = drop_netloc s in if c == b'/' then c ∷ s else rest

unfoldable pub path_of : Text → Text
path_of [] = []
path_of (c ∷ []) = c ∷ []
path_of (c ∷ d ∷ s) = if c == b'/' && d == b'/' then drop_netloc s else c ∷ d ∷ s

-- Both `parsed.path` and `parsed.params` are empty: `params` is what follows a ";".
abbrev pub no_path : Text → Bool
no_path [] = true
no_path (c ∷ s) = c == b';' && is_empty s

-- The text of the port, empty where there is none.
unfoldable pub port_text : Text → Text
unfolding after_last has after before
port_text netloc =
    let info = after_last b'@' netloc in
    if has b'[' info then after b':' (after b']' (after b'[' info)) else after b':' info

-- `parsed.port`
unfoldable pub port_of : Text → Result Exn (Option ℕ)
unfolding all_digits number_from
port_of netloc =
    let t = port_text netloc in
    if is_empty t
    then ok none
    else if all_digits t && leb (number_from 0 t) 65535
    then ok (some (number_from 0 t))
    else err value_error

abbrev any_hex : List Text → Bool
any_hex [] = false
any_hex (l ∷ ls) = starts_with l (codes "0x") || any_hex ls

abbrev all_numeric : List Text → Bool
all_numeric [] = true
all_numeric (l ∷ ls) = isdigit l && all_numeric ls

-- `_ipish_host`
unfoldable pub ipish_host : Text → Bool
ipish_host host =
    let labels = split_dots host in (ltb 1 (length labels) && all_numeric labels) || any_hex labels

-- The tests of `_canonical_origin_host`.
unfoldable pub refused_host : Net → Text → Bool
refused_host net lowered =
    has b':' lowered
    || isdigit lowered
    || net.is_ip lowered
    || ipv4_re lowered
    || ipish_host lowered
    || not (leb (length lowered) 253)
    || not (hostname_re lowered)

-- `_canonical_origin_host`; None where it raises.
unfoldable pub canonical_origin_host : Net → Text → Option Text
canonical_origin_host net host =
    let lowered = lower host in if refused_host net lowered then none else some lowered

-- `_DEFAULT_PORTS`
abbrev pub default_port : Text → Option ℕ
default_port scheme =
    if text_eq scheme (codes "http")
    then some 80
    else if text_eq scheme (codes "https")
    then some 443
    else none

abbrev pub same_port : Option ℕ → ℕ → Bool
same_port none d = true
same_port (some n) d = n == d

abbrev pub make_origin : Text → Text → ℕ → Origin
make_origin scheme host port = record {
  origin = scheme ++ codes "://" ++ host;
  scheme = scheme;
  host = host;
  port = port;
}

-- From the host on: `port` is what the parser gives, None where it raises.
abbrev pub finish_origin : Text → ℕ → Option Text → Result Exn (Option ℕ) → Result LiveError Origin
finish_origin scheme d none port = err invalid
finish_origin scheme d (some host) (err e) = err invalid
finish_origin scheme d (some host) (ok port) =
    if same_port port d then ok (make_origin scheme host d) else err invalid

abbrev pub checked_host : Net → Option Text → Option Text
checked_host net none = none
checked_host net (some host) = canonical_origin_host net host

-- From the scheme on. Every error is a LIVE_AUTHORIZATION_INVALID.
abbrev pub with_scheme : Net → Text → Text → Text → Option ℕ → Result LiveError Origin
with_scheme net scheme netloc path none = err invalid
with_scheme net scheme netloc path (some d) =
    if has b'@' netloc || not (no_path path)
    then err invalid
    else finish_origin scheme d (checked_host net (host_lower (host_part netloc))) (port_of netloc)

-- After the tests on the raw text. The unbalanced brackets are a ValueError of `urlparse`, which no
-- handler catches.
unfoldable pub parse_cleaned : Net → Text → Result LiveError Origin
parse_cleaned net s =
    let rest = drop_scheme s in
    let netloc = netloc_of rest in
    if (has b'[' netloc && not (has b']' netloc)) || (has b']' netloc && not (has b'[' netloc))
    then err (crash value_error)
    else with_scheme net (scheme_of s) netloc (path_of rest) (default_port (scheme_of s))

-- `parse_origin`
unfoldable pub parse_origin : Net → Text → Result LiveError Origin
parse_origin net value =
    let raw = strip value in
    if is_empty raw || has b'*' raw || any_space raw || has b'?' raw || has b'#' raw
    then err invalid
    else parse_cleaned net (cleaned raw)

-- The loop of `_parse_origin_list`; `seen` has the origins of `out`.
abbrev pub keys_of : List Origin → List Text
keys_of [] = []
keys_of (o ∷ os) = o.origin ∷ keys_of os

unfoldable pub parse_origins : Net → List Origin → List Text → Result LiveError (List Origin)
parse_origins net out [] = ok out
parse_origins net out (v ∷ vs) =
    let skip = parse_origins net out vs in
    let add = λ (o : Origin). parse_origins net (out ++ o ∷ []) vs in
    do o ← parse_origin net v; if elem o.origin (keys_of out) then skip else add o

abbrev pub key_of : Origin → Text
key_of o = o.origin

abbrev pub nonempty : List Origin → Result LiveError (List Origin)
nonempty [] = err invalid
nonempty (o ∷ os) = ok (sort_by key_of (o ∷ os))

-- `_parse_origin_list`, with duplicates left out.
unfoldable pub parse_origin_list : Net → List Text → Result LiveError (List Origin)
parse_origin_list net values = parse_origins net [] values >>= nonempty

unfoldable pub without_keys : List Text → List Origin → List Origin
without_keys blocked [] = []
without_keys blocked (o ∷ os) =
    let rest = without_keys blocked os in if elem o.origin blocked then rest else o ∷ rest

-- `effective_origins`
unfoldable pub effective_origins : List Origin → List Origin → List Origin
effective_origins origins exclusions = without_keys (keys_of exclusions) origins
