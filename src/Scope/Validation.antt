-- ===== src/Scope/Validation.antt =====
-- `validate_scope` of backend/services/scope_service.py with its checks of hosts, networks and URLs.
use aicybersec.Common.{
  ℕ, Bool, true, false, not, ◌&&◌, ◌||◌, Option, none, some, List, [], ◌∷◌, Result, ok, err, Exn,
  ◌>>=◌, if◌then◌else◌, leb, length,
}
use aicybersec.Common.Text.{Text, codes, text_eq, is_empty, strip, lower, has, before, after}
use aicybersec.Scan.{ScopeType}
use aicybersec.Safety.Url.{drop_scheme, netloc_of, host_part, host_lower}
use aicybersec.Scope.{Net}
use aicybersec.Scope.Names.{hostname_re, ipv4_re, strip_dot, validate_domain}
use aicybersec.Live.Origin.{cleaned, scheme_of, port_of}

-- `str(ipaddress.ip_address(s))` and `str(ipaddress.ip_network(s, strict=False))`, None where they
-- raise.
pub record Addresses : Type 0 where
  pub ip_text : Text → Option Text
  pub network_text : Text → Option Text

-- `ScopeEntry`, and a dict of the result; the note, which is passed on, is left out.
pub record ScopeEntry : Type 0 where
  pub type : ScopeType
  pub value : Text

-- INVALID_TARGET, and a ValueError of `urlparse` that nothing catches.
pub data ScopeError : Type 0 where
  invalid_target unparsed : ScopeError

unfoldable pub refused_name : Text → Bool
refused_name v =
    ipv4_re v
    || is_empty (lower v)
    || not (leb (length (lower v)) 253)
    || not (hostname_re (lower v))

abbrev pub ip_or_name : Option Text → Text → Result ScopeError Text
ip_or_name (some ip) v = ok ip
ip_or_name none v = if refused_name v then err invalid_target else ok (lower v)

-- `_validate_hostname`
unfoldable pub validate_hostname : Addresses → Text → Result ScopeError Text
validate_hostname addresses value =
    let v = strip_dot (strip value) in ip_or_name (addresses.ip_text v) v

abbrev pub or_invalid : Option Text → Result ScopeError Text
or_invalid none = err invalid_target
or_invalid (some v) = ok v

-- `_validate_cidr`
abbrev pub validate_cidr : Addresses → Text → Result ScopeError Text
validate_cidr addresses value = or_invalid (addresses.network_text (strip value))

-- What stands before the last `c`, if there is one.
abbrev pub before_last : ℕ → Text → Text
before_last c [] = []
before_last c (d ∷ s) = let rest = before_last c s in if has c s then d ∷ rest else []

-- `parsed.username or parsed.password`
unfoldable pub has_credentials : Text → Bool
unfolding has before after
has_credentials netloc =
    let info = before_last b'@' netloc in
    not (is_empty (before b':' info)) || not (is_empty (after b':' info))

abbrev pub is_web : Text → Bool
is_web scheme = text_eq scheme (codes "http") || text_eq scheme (codes "https")

abbrev pub bad_port : Result Exn (Option ℕ) → Bool
bad_port (err e) = true
bad_port (ok none) = false
bad_port (ok (some port)) = not (leb 1 port && leb port 65535)

-- From the host on.
abbrev pub finish_url : Addresses → Text → Text → Option Text → Result ScopeError Text
finish_url addresses v netloc none = err invalid_target
finish_url addresses v netloc (some host) =
    if bad_port (port_of netloc)
    then err invalid_target
    else (do checked ← validate_hostname addresses host; ok v)

abbrev pub url_netloc : Text → Text
url_netloc v = netloc_of (drop_scheme (cleaned v))

-- `_validate_url`
unfoldable pub validate_url : Addresses → Text → Result ScopeError Text
validate_url addresses value =
    let v = strip value in
    let netloc = url_netloc v in
    if (has b'[' netloc && not (has b']' netloc)) || (has b']' netloc && not (has b'[' netloc))
    then err unparsed
    else if not (is_web (scheme_of (cleaned v))) || has_credentials netloc
    then err invalid_target
    else finish_url addresses v netloc (host_lower (host_part netloc))

unfoldable pub validate_value : Net → Addresses → ScopeType → Text → Result ScopeError Text
validate_value net addresses type value = elim type [
  | ScopeType.host ↦ validate_hostname addresses value
  | ScopeType.cidr ↦ validate_cidr addresses value
  | ScopeType.url ↦ validate_url addresses value
  | ScopeType.domain ↦ or_invalid (validate_domain net value)
  | ScopeType.other ↦ err invalid_target
]

-- `validate_scope`
unfoldable pub validate_scope :
    Net → Addresses → List ScopeEntry → Result ScopeError (List ScopeEntry)
validate_scope net addresses [] = ok []
validate_scope net addresses (entry ∷ entries) = do
  value ← validate_value net addresses entry.type entry.value
  rest ← validate_scope net addresses entries
  ok (record { type = entry.type; value = value } ∷ rest)
