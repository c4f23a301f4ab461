-- ===== src/Scope/Accepted.antt =====
-- What `validate_scope` stores.
use aicybersec.Common.{
  Bool, ◌≡◌, leb, length, refl, sym, ap, ◌∙◌, Option-cases, Bool-cases, else_some, some_inv, ◌⊎◌,
  inl, inr, true, false, not, ◌&&◌, ◌||◌, Option, none, some, List, [], ◌∷◌, ok, >>=-eq-ok, ok_inv,
  else_ok, arith,
}
use mathlib.Core.Path.{subst}
use aicybersec.Common.Text.{
  Text, codes, text_eq, is_empty, strip, lower, has, has_text, starts_with,
}
use aicybersec.Common.Text.Laws.{eq_of_text_eq}
use aicybersec.Scan.{ScopeType}
use aicybersec.Safety.Url.{hostname, host_part, host_lower}
use aicybersec.Scope.{Net}
use aicybersec.Scope.Names.{ipv4_re, hostname_re, validate_domain, strip_dot}
use aicybersec.Scope.Pattern.{IsHostName, hostname_re-IsHostName}
use aicybersec.Live.Origin.{cleaned, scheme_of, port_of}
use aicybersec.Scope.Validation.{
  Addresses, ScopeEntry, refused_name, validate_hostname, or_invalid, has_credentials, is_web,
  bad_port, finish_url, url_netloc, validate_url, validate_value, validate_scope,
}

-- What a given text is stored as, where it is a host: the text of the address that it is, or the name in
-- lower case, which is no dotted quad and a host name.
abbrev pub IsHost : Addresses → Text → Text → Type 0
IsHost addresses value v =
    let s = strip_dot (strip value) in
    (addresses.ip_text s ≡ some v)
    ⊎ ((addresses.ip_text s ≡ none) × (v ≡ lower s) × (ipv4_re s ≡ false) × IsHostName v)

-- An http or https URL without credentials, as it was given but for the white space around it, whose
-- host, as the policy's parser finds it, is a host.
pub record IsUrl (addresses : Addresses) (value v : Text) : Type 0 where
  pub given : v ≡ strip value
  pub web : (scheme_of (cleaned v) ≡ codes "http") ⊎ (scheme_of (cleaned v) ≡ codes "https")
  pub plain : has_credentials (url_netloc v) ≡ false
  pub host : Text
  pub found : hostname v ≡ ok (some host)
  pub checked : Text
  pub is_host : IsHost addresses host checked

-- A host name in lower case, given without a scheme, a wildcard or
-- credentials, and no address.
pub record IsDomain (net : Net) (value v : Text) : Type 0 where
  pub given : v ≡ lower (strip_dot (strip value))
  pub name : IsHostName v
  pub no_scheme : has_text (codes "://") (strip value) ≡ false
  pub no_user : has b'@' (strip value) ≡ false
  pub no_wildcard : has b'*' (strip value) ≡ false
  pub no_address : net.is_ip (strip_dot (strip value)) ≡ false
  pub no_quad : ipv4_re (strip_dot (strip value)) ≡ false

-- What an entry's text is stored as.
abbrev pub IsAccepted : Net → Addresses → ScopeType → Text → Text → Type 0
IsAccepted net addresses ScopeType.host value v = IsHost addresses value v
IsAccepted net addresses ScopeType.cidr value v = addresses.network_text (strip value) ≡ some v
IsAccepted net addresses ScopeType.url value v = IsUrl addresses value v
IsAccepted net addresses ScopeType.domain value v = IsDomain net value v
IsAccepted net addresses ScopeType.other value v = ⊥

-- Each stored entry has the type of the given one, and what its text is stored as.
abbrev pub AreAccepted : Net → Addresses → List ScopeEntry → List ScopeEntry → Type 0
AreAccepted net addresses [] [] = Unit
AreAccepted net addresses (e ∷ es) (f ∷ fs) =
    ((e.type ≡ f.type) × IsAccepted net addresses f.type e.value f.value)
    × AreAccepted net addresses es fs
AreAccepted net addresses _ _ = ⊥

validate_hostname-IsHost :
    (addresses : Addresses) (value v : Text)
    → validate_hostname addresses value ≡ ok v
    → IsHost addresses value v
unfolding validate_hostname refused_name
validate_hostname-IsHost addresses value v e =
    let s = strip_dot (strip value) in
    elim (Option-cases (addresses.ip_text s)) [
      | inr (ip, q) ↦ inl (q ∙ ap some (ok_inv ip v (rw q at e)))
      | inl q ↦
          let (fine, last) = else_ok (refused_name s) _ (ok (lower s)) v (rw q at e) in
          let same : v ≡ lower s = sym (ok_inv (lower s) v last) in
          inr (
            q,
            same,
            ground arith,
            subst IsHostName (sym same) (hostname_re-IsHostName (lower s) (ground arith)),
          )
    ]

is_web_lem : (s : Text) → is_web s ≡ true → (s ≡ codes "http") ⊎ (s ≡ codes "https")
is_web_lem s e = elim (Bool-cases (text_eq s (codes "http"))) [
  | inl h ↦ inl (eq_of_text_eq s (codes "http") h)
  | inr h ↦ inr (eq_of_text_eq s (codes "https") (ground arith))
]

-- The tests of a chain that fails.
all_false :
    (a b c d e f g h i j : Bool)
    → (a || b || c || d || e || f || g || h || i || j) ≡ false
    → (b ≡ false)
      × (c ≡ false)
      × (d ≡ false)
      × (f ≡ false)
      × (g ≡ false)
      × (i ≡ false)
      × (j ≡ false)
all_false true b c d e f g h i j k = cc
all_false false true c d e f g h i j k = cc
all_false false false true d e f g h i j k = cc
all_false false false false true e f g h i j k = cc
all_false false false false false true f g h i j k = cc
all_false false false false false false true g h i j k = cc
all_false false false false false false false true h i j k = cc
all_false false false false false false false false true i j k = cc
all_false false false false false false false false false true j k = cc
all_false false false false false false false false false false true k = cc
all_false false false false false false false false false false false k =
    (refl, refl, refl, refl, refl, refl, refl)

not-false : (b : Bool) → not b ≡ false → b ≡ true
not-false b e = ground arith

validate_domain-IsDomain :
    (net : Net) (value v : Text) → validate_domain net value ≡ some v → IsDomain net value v
unfolding validate_domain
validate_domain-IsDomain net value v e =
    let s = strip value in
    let name = strip_dot s in
    let (fine, last) =
      else_some
        (is_empty s
          || has_text (codes "://") s
          || has b'@' s
          || has b'*' s
          || starts_with name (codes "-")
          || net.is_ip name
          || ipv4_re name
          || is_empty (lower name)
          || not (leb (length (lower name)) 253)
          || not (hostname_re (lower name)))
        (some (lower name)) v e in
    let same : v ≡ lower name = sym (some_inv (lower name) v last) in
    let (scheme, user, wildcard, address, quad, short, named) =
      all_false (is_empty s) (has_text (codes "://") s) (has b'@' s) (has b'*' s)
        (starts_with name (codes "-")) (net.is_ip name) (ipv4_re name) (is_empty (lower name))
        (not (leb (length (lower name)) 253)) (not (hostname_re (lower name))) fine in
    record {
      given = same;
      name = subst IsHostName (sym same) (hostname_re-IsHostName (lower name) (not-false _ named));
      no_scheme = scheme;
      no_user = user;
      no_wildcard = wildcard;
      no_address = address;
      no_quad = quad;
    }

finish_url-ok :
    (addresses : Addresses) (v netloc : Text) (h : Option Text) (out : Text)
    → finish_url addresses v netloc h ≡ ok out
    → (v ≡ out)
      × ((host : Text) × (h ≡ some host)
          × ((checked : Text) × (validate_hostname addresses host ≡ ok checked)))
finish_url-ok addresses v netloc none out e = cc
finish_url-ok addresses v netloc (some host) out e =
    let (port, e1) = else_ok (bad_port (port_of netloc)) _ _ out e in
    let (checked, c, last) = >>=-eq-ok (validate_hostname addresses host) _ e1 in
    (ok_inv v out last, (host, refl, (checked, c)))

validate_url-IsUrl :
    (addresses : Addresses) (value v : Text)
    → validate_url addresses value ≡ ok v
    → IsUrl addresses value v
unfolding validate_url hostname
validate_url-IsUrl addresses value v e =
    let s = strip value in
    let netloc = url_netloc s in
    let (brackets, e1) =
      else_ok
        ((has b'[' netloc && not (has b']' netloc)) || (has b']' netloc && not (has b'[' netloc))) _
        _ v e in
    let (tests, e2) =
      else_ok (not (is_web (scheme_of (cleaned s))) || has_credentials netloc) _ _ v e1 in
    let (same, (host, found, (checked, valid))) =
      finish_url-ok addresses s netloc (host_lower (host_part netloc)) v e2 in
    let open' : (has b'[' netloc && not (has b']' netloc)) ≡ false = ground arith in
    let close' : (has b']' netloc && not (has b'[' netloc)) ≡ false = ground arith in
    subst (IsUrl addresses value) same (record {
      given = refl;
      web = is_web_lem (scheme_of (cleaned s)) (ground arith);
      plain = ground arith;
      host = host;
      found = rw (open', close') (ap ok found);
      checked = checked;
      is_host = validate_hostname-IsHost addresses host checked valid;
    })

or_invalid-some : (o : Option Text) (v : Text) → or_invalid o ≡ ok v → o ≡ some v
or_invalid-some none v e = cc
or_invalid-some (some t) v e = ap some (ok_inv t v e)

validate_value-IsAccepted :
    (net : Net) (addresses : Addresses) (type : ScopeType) (value v : Text)
    → validate_value net addresses type value ≡ ok v
    → IsAccepted net addresses type value v
unfolding validate_value
validate_value-IsAccepted net addresses ScopeType.host value v e =
    validate_hostname-IsHost addresses value v e
validate_value-IsAccepted net addresses ScopeType.cidr value v e =
    or_invalid-some (addresses.network_text (strip value)) v e
validate_value-IsAccepted net addresses ScopeType.url value v e =
    validate_url-IsUrl addresses value v e
validate_value-IsAccepted net addresses ScopeType.domain value v e =
    validate_domain-IsDomain net value v (or_invalid-some (validate_domain net value) v e)
validate_value-IsAccepted net addresses ScopeType.other value v e = cc

-- A scope is stored only if every entry is accepted, in order and with its type. Of a host entry the
-- text of the address that it is, or its name in lower case, which is no dotted quad, is stored; of a
-- network the text of that network; of a domain its name in lower case, where the entry has no scheme,
-- no wildcard and no credentials and is no address. A URL is stored as it is, without the white space
-- around it: it has scheme http or https, no credentials, and its host, which is the one that the
-- policy's own URL parser finds in it, is accepted as a host. Every name has, maybe with a line feed
-- after that, at most 253 characters, and between its dots labels of letters, digits and hyphens with at
-- most 63 characters, whose first and last are no hyphens.
pub validate_scope-AreAccepted :
    (net : Net) (addresses : Addresses) (entries out : List ScopeEntry)
    → validate_scope net addresses entries ≡ ok out
    → AreAccepted net addresses entries out
unfolding validate_scope
validate_scope-AreAccepted net addresses [] out e =
    subst (AreAccepted net addresses []) (ok_inv [] out e) tt
validate_scope-AreAccepted net addresses (x ∷ xs) out e =
    let (value, v, e1) = >>=-eq-ok (validate_value net addresses x.type x.value) _ e in
    let (rest, r, last) = >>=-eq-ok (validate_scope net addresses xs) _ e1 in
    subst (AreAccepted net addresses (x ∷ xs)) (ok_inv _ out last) (
      (refl, validate_value-IsAccepted net addresses x.type x.value value v),
      validate_scope-AreAccepted net addresses xs rest r,
    )
