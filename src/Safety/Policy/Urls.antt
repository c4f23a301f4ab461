-- ===== src/Safety/Policy/Urls.antt =====
-- `Policy.normalize_target` reduces a URL to its host: one allowlist entry covers host-shaped and
-- URL-shaped params, and neither user information nor a path can name another host.
use aicybersec.Common.{
  ℕ, ◌≡◌, refl, ap, Bool, true, false, ◌&&◌, Option, none, some, [], ◌∷◌, ◌++◌, ok, leb, ◌==◌, All,
  All-append, arith, ◌≢◌,
}
use mathlib.Core.List.{append_assoc, append-nil}
use aicybersec.Common.Text.{
  Text, codes, is_space, lstrip, strip, lower, has, has_text, starts_with, before, after,
  after_last,
}
use aicybersec.Common.Text.Laws.{lower_idem}
use aicybersec.Safety.Url.{
  lstrip_controls, all_scheme, drop_scheme, netloc_of, host_part, host_lower, hostname,
}
use aicybersec.Safety.Url.Hosts.{
  plain, inner, visible, AllPlain, AllInner, AllVisible, starts_path, IsPort, rstrip_visible,
  remove_breaks_visible, netloc_end-append, has-append, after_last-append, after_last_none,
  before-append, before_none,
}
use aicybersec.Safety.Policy.{normalize}

abbrev pub scheme_text : Bool → Text
scheme_text true = codes "https://"
scheme_text false = codes "http://"

-- The user information with its "@", or nothing.
abbrev pub user_prefix : Option Text → Text
user_prefix none = []
user_prefix (some u) = u ++ b'@' ∷ []

abbrev pub IsUser : Option Text → Type 0
IsUser none = Unit
IsUser (some u) = AllInner u

pub inner_visible : (s : Text) → AllInner s → AllVisible s
inner_visible [] h = tt
inner_visible (c ∷ s) (i, h) = (ground arith, inner_visible s h)

pub plain_inner : (s : Text) → AllPlain s → AllInner s
plain_inner [] h = tt
plain_inner (c ∷ s) (i, h) = (ground arith, plain_inner s h)

pub drop_scheme_lem :
    (secure : Bool) (s : Text) → drop_scheme (scheme_text secure ++ s) ≡ b'/' ∷ b'/' ∷ s
unfolding drop_scheme has all_scheme before after
drop_scheme_lem true s = refl
drop_scheme_lem false s = refl

scheme_found : (secure : Bool) (s : Text) → has_text (codes "://") (scheme_text secure ++ s) ≡ true
unfolding has_text starts_with
scheme_found true s = refl
scheme_found false s = refl

pub scheme-AllVisible : (secure : Bool) → AllVisible (scheme_text secure)
scheme-AllVisible true = ground arith
scheme-AllVisible false = ground arith

pub url-AllVisible :
    (secure : Bool) (s : Text) → AllVisible s → AllVisible (scheme_text secure ++ s)
url-AllVisible secure s h =
    All-append (λ c. visible c ≡ true) (scheme_text secure) s (scheme-AllVisible secure) h

lstrip_scheme :
    (secure : Bool) (s : Text) → lstrip (scheme_text secure ++ s) ≡ scheme_text secure ++ s
unfolding lstrip
lstrip_scheme true s = refl
lstrip_scheme false s = refl

pub lstrip_controls_scheme :
    (secure : Bool) (s : Text) → lstrip_controls (scheme_text secure ++ s) ≡ scheme_text secure ++ s
unfolding lstrip_controls
lstrip_controls_scheme true s = refl
lstrip_controls_scheme false s = refl

pub strip_scheme :
    (secure : Bool) (s : Text)
    → AllVisible s
    → strip (scheme_text secure ++ s) ≡ scheme_text secure ++ s
unfolding strip
strip_scheme secure s h = rw (lstrip_scheme secure s) (rstrip_visible _ (url-AllVisible secure s h))

pub has_none_of :
    (p : ℕ → Bool) (c : ℕ) (s : Text)
    → ((d : ℕ) → p d ≡ true → (c == d) ≡ false)
    → All (λ d. p d ≡ true) s
    → has c s ≡ false
unfolding has
has_none_of p c [] f h = refl
has_none_of p c (d ∷ s) f (e, h) = rw (f d e) (has_none_of p c s f h)

IsPort-inner : (port : Text) → IsPort port → AllInner port
IsPort-inner [] h = tt
IsPort-inner (c ∷ s) (e, h) = (ground arith, digits_inner s h)
  where
    digits_inner : (s : Text) → All (λ d. (leb b'0' d && leb d b'9') ≡ true) s → AllInner s
    digits_inner [] h = tt
    digits_inner (c ∷ s) (e, h) = (ground arith, digits_inner s h)

IsPort-no_at : (port : Text) → IsPort port → has b'@' port ≡ false
unfolding has
IsPort-no_at [] h = refl
IsPort-no_at (c ∷ s) (e, h) =
    rw e (has_none_of (λ d. leb b'0' d && leb d b'9') b'@' s (λ d e. ground arith) h)

-- The text between the scheme and the path.
abbrev pub netloc_text : Option Text → Text → Text → Text
netloc_text user h port = user_prefix user ++ (h ++ port)

netloc_inner :
    (user : Option Text) (h port : Text)
    → IsUser user
    → AllPlain h
    → IsPort port
    → AllInner (netloc_text user h port)
netloc_inner user h port u ph pp =
    All-append (λ c. inner c ≡ true) (user_prefix user) (h ++ port) (user_inner user u)
      (All-append (λ c. inner c ≡ true) h port (plain_inner h ph) (IsPort-inner port pp))
  where
    user_inner : (user : Option Text) → IsUser user → AllInner (user_prefix user)
    user_inner none u = tt
    user_inner (some t) u = All-append (λ c. inner c ≡ true) t (b'@' ∷ []) u (refl, tt)

after_user :
    (user : Option Text) (t : Text)
    → has b'@' t ≡ false
    → after_last b'@' (user_prefix user ++ t) ≡ t
after_user none t h = after_last_none b'@' t h
after_user (some u) t h = rw (append_assoc u (b'@' ∷ []) t) (after_last-append b'@' u t h)

before_port : (h port : Text) → has b':' h ≡ false → IsPort port → before b':' (h ++ port) ≡ h
before_port h [] n p = rw (append-nil h) (before_none b':' h n)
before_port h (c ∷ s) n (e, p) = rw e (before-append b':' h s n)

pub host_part_lem :
    (user : Option Text) (h port : Text)
    → AllPlain h
    → IsPort port
    → host_part (netloc_text user h port) ≡ h
unfolding host_part
host_part_lem user h port ph pp =
    let no_at : has b'@' (h ++ port) ≡ false =
      rw (has-append b'@' h port, has_none_of plain b'@' h (λ d e. ground arith) ph)
        (IsPort-no_at port pp) in
    let open' : has b'[' (h ++ port) ≡ false =
      has_none_of inner b'[' (h ++ port) (λ d e. ground arith)
        (All-append (λ c. inner c ≡ true) h port (plain_inner h ph) (IsPort-inner port pp)) in
    rw (after_user user (h ++ port) no_at, open')
      (before_port h port (has_none_of plain b':' h (λ d e. ground arith) ph) pp)

pub host_lower_lem : (h : Text) → AllPlain h → h ≢ [] → host_lower h ≡ some (lower h)
unfolding host_lower
host_lower_lem [] ph n = absurd (n refl)
host_lower_lem (c ∷ h) ph n = rw (has_none_of plain b'%' (c ∷ h) (λ d e. ground arith) ph)

hostname_lem :
    (secure : Bool) (user : Option Text) (h port rest : Text)
    → IsUser user
    → AllPlain h
    → h ≢ []
    → IsPort port
    → AllVisible rest
    → starts_path rest ≡ true
    → hostname (scheme_text secure ++ (netloc_text user h port ++ rest)) ≡ ok (some (lower h))
unfolding hostname netloc_of
hostname_lem secure user h port rest u ph n pp vr sp =
    let w = netloc_text user h port in
    let wi = netloc_inner user h port u ph pp in
    let wv = inner_visible w wi in
    let vis = All-append (λ c. visible c ≡ true) w rest wv vr in
    rw (
      lstrip_controls_scheme secure (w ++ rest),
      remove_breaks_visible _ (url-AllVisible secure (w ++ rest) vis),
      drop_scheme_lem secure (w ++ rest),
      netloc_end-append w rest wi sp,
      has_none_of inner b'[' w (λ d e. ground arith) wi,
      has_none_of inner b']' w (λ d e. ground arith) wi,
      host_part_lem user h port ph pp,
      host_lower_lem h ph n,
    )

strip_visible : (s : Text) → AllVisible s → strip s ≡ s
unfolding strip lstrip
strip_visible [] h = rstrip_visible [] tt
strip_visible (c ∷ s) (v, h) =
    let no_space : is_space c ≡ false = ground arith in rw no_space (rstrip_visible (c ∷ s) (v, h))

no_scheme_sep : (s : Text) → has b':' s ≡ false → has_text (codes "://") s ≡ false
unfolding has_text has starts_with
no_scheme_sep [] h = refl
no_scheme_sep (c ∷ s) h = ground (arith, no_scheme_sep s)

-- A URL with scheme http or https is reduced to its host in lower case, whatever its user
-- information, port and path are: the host is a nonempty text of visible characters without any of
-- / ? # @ [ ] % :, the user information may hold further @ and :, and the rest is empty or begins
-- with one of / ? # and has no white space. The host alone is reduced to the same text.
pub normalize-url :
    (secure : Bool) (user : Option Text) (h port rest : Text)
    → IsUser user
    → AllPlain h
    → h ≢ []
    → IsPort port
    → AllVisible rest
    → starts_path rest ≡ true
    → (normalize (scheme_text secure ++ (netloc_text user h port ++ rest)) ≡ ok (lower h))
      × (normalize h ≡ ok (lower h))
unfolding normalize
normalize-url secure user h port rest u ph n pp vr sp =
    let w = netloc_text user h port in
    let wv = inner_visible w (netloc_inner user h port u ph pp) in
    let vis = All-append (λ c. visible c ≡ true) w rest wv vr in
    (
      rw
          (
            strip_scheme secure (w ++ rest) vis,
            scheme_found secure (w ++ rest),
            hostname_lem secure user h port rest u ph n pp vr sp,
          )
          (ap ok (lower_idem h)),
      rw (
        strip_visible h (inner_visible h (plain_inner h ph)),
        no_scheme_sep h (has_none_of plain b':' h (λ d e. ground arith) ph),
      ),
    )
