-- ===== src/Live/Canonical.antt =====
-- What `parse_origin` returns is an origin in canonical form; Reading shows that it reads such an
-- origin back to itself.
pub mod Hosts
pub mod Reading
pub mod Lists
use aicybersec.Common.{All-append}
use aicybersec.Safety.Url.Hosts.{plain, after_last_none}
use aicybersec.Common.{
  ℕ, ◌≡◌, refl, sym, ap, ◌∙◌, Bool, true, false, not, ◌&&◌, ◌||◌, Option, none, some, some_inv,
  List, [], ◌∷◌, ◌++◌, Result, ok, err, Exn, leb, ltb, ◌==◌, All, arith, ◌≢◌, ◌⊎◌, inl, inr,
  Bool-cases, if◌then◌else◌, else_ok, else_some, then_ok, ok_inv,
}
use mathlib.Core.Path.{subst}
use mathlib.Core.List.{append_assoc, append-nil}
use aicybersec.Common.Text.{
  Text, codes, text_eq, lower_code, lower, strip, is_empty, has, before, after, after_last,
}
use aicybersec.Common.Text.Laws.{lower_idem, eq_of_text_eq}
use aicybersec.Safety.Url.{
  remove_breaks, netloc_end, netloc_of, drop_scheme, host_part, host_lower, all_scheme,
}
use aicybersec.Safety.Url.Hosts.{
  AllPlain, AllInner, AllVisible, remove_breaks_visible, netloc_end-append,
}
use aicybersec.Safety.Policy.Urls.{
  scheme_text, inner_visible, plain_inner, drop_scheme_lem, lstrip_controls_scheme, strip_scheme,
  has_none_of, host_part_lem, host_lower_lem, url-AllVisible,
}
use aicybersec.Scope.{Net}
use aicybersec.Scope.Names.{
  hostname_re, is_alnum, is_label, label_tail, all_labels, push, split_dots,
}
use aicybersec.Live.{LiveError}
use aicybersec.Common.Text.{is_space}
use aicybersec.Live.Origin.{
  drop_netloc, port_text, refused_host, Origin, cleaned, scheme_of, default_port, make_origin,
  finish_origin, checked_host, with_scheme, path_of, port_of, parse_cleaned, parse_origin,
  canonical_origin_host, any_space,
}
use aicybersec.Live.Canonical.Hosts.{
  name_char, AllName, OneLine, lower-OneLine, hostname_re-AllName, found-OneLine,
}

abbrev pub scheme_name : Bool → Text
scheme_name true = codes "https"
scheme_name false = codes "http"

abbrev pub port_number : Bool → ℕ
port_number true = 443
port_number false = 80

-- The origin of a host in its canonical form.
pub record IsCanonical (net : Net) (o : Origin) : Type 0 where
  pub secure : Bool
  pub named : AllName o.host
  pub nonempty : o.host ≢ []
  pub fixed : canonical_origin_host net o.host ≡ some o.host
  pub rendered : o ≡ make_origin (scheme_name secure) o.host (port_number secure)

https_of_port :
    (t : Text) (n : ℕ)
    → (if text_eq t (codes "https") then some 443 else none) ≡ some n
    → (t ≡ codes "https") × (n ≡ 443)
https_of_port t n h = elim (Bool-cases (text_eq t (codes "https"))) [
  | inl e ↦ (eq_of_text_eq _ _ e, sym (some_inv 443 n (rw e at h)))
  | inr e ↦ let no_port : Option.none ≡ some n = rw e at h in cc
]

scheme_of_port :
    (t : Text) (n : ℕ)
    → default_port t ≡ some n
    → (secure : Bool) × (t ≡ scheme_name secure) × (n ≡ port_number secure)
scheme_of_port t n h = elim (Bool-cases (text_eq t (codes "http"))) [
  | inl e ↦ (false, eq_of_text_eq _ _ e, sym (some_inv 80 n (rw e at h)))
  | inr e ↦ let two = https_of_port t n (rw e at h) in (true, two.0, two.1)
]

finish_origin-ok :
    (scheme : Text) (d : ℕ) (h : Option Text) (p : Result Exn (Option ℕ)) (o : Origin)
    → finish_origin scheme d h p ≡ ok o
    → (h ≡ some o.host) × (o ≡ make_origin scheme o.host d)
finish_origin-ok scheme d none port o e = cc
finish_origin-ok scheme d (some host) (err r) o e = cc
finish_origin-ok scheme d (some host) (ok port) o e =
    subst (λ (o : Origin). (some host ≡ some o.host) × (o ≡ make_origin scheme o.host d))
      (ok_inv _ _ (then_ok _ _ _ _ e).1) (refl, refl)

with_scheme-ok :
    (net : Net) (scheme netloc path : Text) (d : Option ℕ) (o : Origin)
    → with_scheme net scheme netloc path d ≡ ok o
    → (n : ℕ) × (d ≡ some n)
      × (finish_origin scheme n (checked_host net (host_lower (host_part netloc))) (port_of netloc)
          ≡ ok o)
with_scheme-ok net scheme netloc path none o e = cc
with_scheme-ok net scheme netloc path (some n) o e = (n, refl, (else_ok _ _ _ _ e).1)

checked_host-some :
    (net : Net) (found : Option Text) (host : Text)
    → checked_host net found ≡ some host
    → (h : Text) × (found ≡ some h) × (canonical_origin_host net h ≡ some host)
checked_host-some net none host e = cc
checked_host-some net (some h) host e = (h, refl, e)

refused_host-named : (net : Net) (t : Text) → refused_host net t ≡ false → hostname_re t ≡ true
unfolding refused_host
refused_host-named net t h = ground arith

canonical_origin_host-fixed :
    (net : Net) (h host : Text)
    → OneLine h
    → canonical_origin_host net h ≡ some host
    → AllName host × (host ≢ []) × (canonical_origin_host net host ≡ some host)
unfolding canonical_origin_host
canonical_origin_host-fixed net h host o e =
    let parts = else_some (refused_host net (lower h)) (some (lower h)) host e in
    let name =
      hostname_re-AllName (lower h) (lower-OneLine h o) (refused_host-named net _ parts.0) in
    subst (λ (t : Text). AllName t × (t ≢ []) × (canonical_origin_host net t ≡ some t))
      (some_inv _ _ parts.1) (name.0, name.1, rw (lower_idem h, parts.0) refl)

parse_origin-ok :
    (net : Net) (v : Text) (o : Origin)
    → parse_origin net v ≡ ok o
    → parse_cleaned net (cleaned (strip v)) ≡ ok o
unfolding parse_origin
parse_origin-ok net v o e = (else_ok _ _ (parse_cleaned net (cleaned (strip v))) o e).1

parse_cleaned-ok :
    (net : Net) (s : Text) (o : Origin)
    → parse_cleaned net s ≡ ok o
    → with_scheme net
        (scheme_of s)
        (netloc_of (drop_scheme s))
        (path_of (drop_scheme s))
        (default_port (scheme_of s))
      ≡ ok o
unfolding parse_cleaned
parse_cleaned-ok net s o e = (else_ok _ _ _ o e).1

-- What the parser returns is canonical.
pub parse_origin-IsCanonical :
    (net : Net) (v : Text) (o : Origin) → parse_origin net v ≡ ok o → IsCanonical net o
parse_origin-IsCanonical net v o e =
    let s = cleaned (strip v) in
    let rest = drop_scheme s in
    let cut = parse_cleaned-ok net s o (parse_origin-ok net v o e) in
    let (n, d, f) =
      with_scheme-ok net (scheme_of s) (netloc_of rest) (path_of rest) (default_port (scheme_of s))
        o cut in
    let (found, shape) = finish_origin-ok (scheme_of s) n _ _ o f in
    let (h, host, fixed) = checked_host-some net _ _ found in
    let (named, nonempty, again) =
      canonical_origin_host-fixed net h o.host (found-OneLine _ h host) fixed in
    let (secure, name, number) = scheme_of_port (scheme_of s) n d in
    record {
      secure = secure;
      named = named;
      nonempty = nonempty;
      fixed = again;
      rendered =
          shape
          ∙ ap (λ t. make_origin t o.host n) name
          ∙ ap (make_origin (scheme_name secure) o.host) number;
    }
