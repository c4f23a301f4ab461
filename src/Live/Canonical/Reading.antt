-- ===== src/Live/Canonical/Reading.antt =====
-- An origin in canonical form is read back to itself.
use aicybersec.Common.{All-append}
use aicybersec.Safety.Url.Hosts.{plain, after_last_none}
use aicybersec.Common.{
  ℕ, ◌≡◌, refl, sym, ap, ◌∙◌, Bool, true, false, ◌||◌, none, some, some_inv, [], ◌∷◌, ◌++◌, ok,
  ◌==◌, All, arith, ◌≢◌, else_some,
}
use mathlib.Core.Path.{subst}
use mathlib.Core.List.{append-nil}
use aicybersec.Common.Text.{Text, codes, text_eq, lower_code, lower, is_empty, has, before, after}
use aicybersec.Safety.Url.{netloc_of, host_part, all_scheme}
use aicybersec.Safety.Url.Hosts.{AllPlain, AllVisible, remove_breaks_visible, netloc_end-append}
use aicybersec.Safety.Policy.Urls.{
  scheme_text, inner_visible, plain_inner, drop_scheme_lem, lstrip_controls_scheme, strip_scheme,
  has_none_of, host_part_lem, host_lower_lem, url-AllVisible,
}
use aicybersec.Scope.{Net}
use aicybersec.Common.Text.{is_space}
use aicybersec.Live.Origin.{
  drop_netloc, port_text, refused_host, Origin, scheme_of, default_port, make_origin, with_scheme,
  path_of, port_of, parse_cleaned, parse_origin, canonical_origin_host, any_space,
}
use aicybersec.Live.Canonical.Hosts.{name_char, AllName}
use aicybersec.Live.Canonical.{scheme_name, port_number, IsCanonical, parse_origin-IsCanonical}

-- Each stage of the parser on a rendered origin.
name_plain : (h : Text) → AllName h → AllPlain h
name_plain [] n = tt
name_plain (c ∷ h) n = (ground arith, name_plain h n.1)

text_lem :
    (secure : Bool) (h : Text) → scheme_name secure ++ codes "://" ++ h ≡ scheme_text secure ++ h
text_lem true h = refl
text_lem false h = refl

any_space_visible : (s : Text) → AllVisible s → any_space s ≡ false
unfolding any_space
any_space_visible [] h = refl
any_space_visible (c ∷ s) h =
    let no_space : is_space c ≡ false = ground arith in rw no_space (any_space_visible s h.1)

scheme_of_lem :
    (secure : Bool) (s : Text) → scheme_of (scheme_text secure ++ s) ≡ scheme_name secure
unfolding scheme_of lower lower_code has all_scheme before
scheme_of_lem true s = refl
scheme_of_lem false s = refl

drop_netloc_name : (h : Text) → AllName h → drop_netloc h ≡ []
drop_netloc_name [] n = refl
drop_netloc_name (c ∷ h) n = let rest = drop_netloc_name h n.1 in ground arith

after_none : (c : ℕ) (s : Text) → has c s ≡ false → after c s ≡ []
unfolding has after
after_none c [] n = refl
after_none c (d ∷ s) n = let rest = after_none c s in ground arith

port_of_name : (h : Text) → AllPlain h → port_of h ≡ ok none
unfolding port_of port_text
port_of_name h p =
    let no_at : has b'@' h ≡ false = has_none_of plain b'@' h (λ d e. ground arith) p in
    let no_bracket : has b'[' h ≡ false = has_none_of plain b'[' h (λ d e. ground arith) p in
    let no_colon : has b':' h ≡ false = has_none_of plain b':' h (λ d e. ground arith) p in
    rw (after_last_none b'@' h no_at, no_bracket, after_none b':' h no_colon) refl

netloc_name : (h : Text) → AllPlain h → netloc_of (b'/' ∷ b'/' ∷ h) ≡ h
unfolding netloc_of
netloc_name h p = rw (append-nil h) at (netloc_end-append h [] (plain_inner h p) refl)

host_name : (h : Text) → AllPlain h → host_part h ≡ h
host_name h p = rw (append-nil h) at (host_part_lem none h [] p tt)

default_port_lem : (secure : Bool) → default_port (scheme_name secure) ≡ some (port_number secure)
unfolding text_eq
default_port_lem true = refl
default_port_lem false = refl

canonical_origin_host-lower :
    (net : Net) (h : Text) → canonical_origin_host net h ≡ some h → lower h ≡ h
unfolding canonical_origin_host
canonical_origin_host-lower net h f =
    some_inv _ _ (else_some (refused_host net (lower h)) (some (lower h)) h f).1

origin_checked :
    (net : Net) (secure : Bool) (h : Text)
    → AllPlain h
    → h ≢ []
    → canonical_origin_host net h ≡ some h
    → with_scheme net (scheme_name secure) h [] (some (port_number secure))
      ≡ ok (make_origin (scheme_name secure) h (port_number secure))
origin_checked net secure h p e f =
    let no_at : has b'@' h ≡ false = has_none_of plain b'@' h (λ d e. ground arith) p in
    rw
      (
        no_at,
        host_name h p,
        host_lower_lem h p e,
        port_of_name h p,
        canonical_origin_host-lower net h f,
        f,
      )
      refl

pub parse_cleaned_lem :
    (net : Net) (secure : Bool) (h : Text)
    → AllName h
    → h ≢ []
    → canonical_origin_host net h ≡ some h
    → parse_cleaned net (scheme_text secure ++ h)
      ≡ ok (make_origin (scheme_name secure) h (port_number secure))
unfolding parse_cleaned path_of
parse_cleaned_lem net secure h n e f =
    let p = name_plain h n in
    let open' : has b'[' h ≡ false = has_none_of plain b'[' h (λ d e. ground arith) p in
    let close' : has b']' h ≡ false = has_none_of plain b']' h (λ d e. ground arith) p in
    rw
      (
        scheme_of_lem secure h,
        drop_scheme_lem secure h,
        netloc_name h p,
        open',
        close',
        drop_netloc_name h n,
        default_port_lem secure,
      )
      (origin_checked net secure h p e f)

abbrev url_char : ℕ → Bool
url_char c = name_char c || c == b':' || c == b'/'

name_url : (h : Text) → AllName h → All (λ c. url_char c ≡ true) h
name_url [] n = tt
name_url (c ∷ h) n = (ground arith, name_url h n.1)

scheme_url : (secure : Bool) → All (λ c. url_char c ≡ true) (scheme_text secure)
scheme_url true = ground arith
scheme_url false = ground arith

scheme_filled : (secure : Bool) (h : Text) → is_empty (scheme_text secure ++ h) ≡ false
scheme_filled true h = refl
scheme_filled false h = refl

parse_text_lem :
    (net : Net) (secure : Bool) (h : Text)
    → AllName h
    → h ≢ []
    → canonical_origin_host net h ≡ some h
    → parse_origin net (scheme_text secure ++ h)
      ≡ ok (make_origin (scheme_name secure) h (port_number secure))
unfolding parse_origin
parse_text_lem net secure h n e f =
    let vis = inner_visible h (plain_inner h (name_plain h n)) in
    let all = url-AllVisible secure h vis in
    let url =
      All-append (λ c. url_char c ≡ true) (scheme_text secure) h (scheme_url secure)
        (name_url h n) in
    rw
      (
        strip_scheme secure h vis,
        scheme_filled secure h,
        has_none_of url_char b'*' _ (λ d e. ground arith) url,
        any_space_visible _ all,
        has_none_of url_char b'?' _ (λ d e. ground arith) url,
        has_none_of url_char b'#' _ (λ d e. ground arith) url,
        lstrip_controls_scheme secure h,
        remove_breaks_visible _ all,
      )
      (parse_cleaned_lem net secure h n e f)

pub IsCanonical-parse_origin :
    (net : Net) (o : Origin) → IsCanonical net o → parse_origin net o.origin ≡ ok o
IsCanonical-parse_origin net o c =
    subst (λ (o : Origin). parse_origin net o.origin ≡ ok o) (sym c.rendered)
      (ap (parse_origin net) (text_lem c.secure o.host)
        ∙ parse_text_lem net c.secure o.host c.named c.nonempty c.fixed)

-- An origin that `parse_origin` accepts is written in its canonical form: parsing that text gives the
-- same origin, with the same scheme, host and port.
pub parse_origin-again :
    (net : Net) (v : Text) (o : Origin)
    → parse_origin net v ≡ ok o
    → parse_origin net o.origin ≡ ok o
parse_origin-again net v o e = IsCanonical-parse_origin net o (parse_origin-IsCanonical net v o e)
