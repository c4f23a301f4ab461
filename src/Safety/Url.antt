-- ===== src/Safety/Url.antt =====
-- `urllib.parse.urlparse(t).hostname`, as far as the program uses it (agent_core/safety/policy.py):
-- CPython's urlsplit with its removal of control characters, its scheme test, the cut of the netloc
-- and the ValueError for an unbalanced bracket. Newer releases also parse a bracketed address; that
-- further ValueError is not modelled.
pub mod Hosts
use Prim.Native.Nat.{ℕ}
use aicybersec.Common.{
  Bool, true, false, not, ◌&&◌, ◌||◌, Option, none, some, [], ◌∷◌, ◌++◌, Result, ok, Exn,
  value_error, if◌then◌else◌, leb, ◌==◌, raise_if, ◌>>◌,
}
use aicybersec.Common.Text.{Text, is_empty, lower, has, before, after, after_last}

-- `lstrip` of the C0 controls and the space
unfoldable pub lstrip_controls : Text → Text
lstrip_controls [] = []
lstrip_controls (c ∷ s) = let rest = lstrip_controls s in if leb c 32 then rest else c ∷ s

-- The removal of tab, carriage return and line feed.
unfoldable pub remove_breaks : Text → Text
remove_breaks [] = []
remove_breaks (c ∷ s) =
    let rest = remove_breaks s in if c == 9 || c == 10 || c == 13 then rest else c ∷ rest

abbrev is_alpha : ℕ → Bool
is_alpha c = (leb b'a' c && leb c b'z') || (leb b'A' c && leb c b'Z')

abbrev is_digit : ℕ → Bool
is_digit c = leb b'0' c && leb c b'9'

-- `scheme_chars`
abbrev is_scheme_char : ℕ → Bool
is_scheme_char c = is_alpha c || is_digit c || c == b'+' || c == b'-' || c == b'.'

unfoldable pub all_scheme : Text → Bool
all_scheme [] = true
all_scheme (c ∷ s) = is_scheme_char c && all_scheme s

abbrev pub starts_alpha : Text → Bool
starts_alpha [] = false
starts_alpha (c ∷ s) = is_alpha c

-- The url without its scheme, where it has one.
unfoldable pub drop_scheme : Text → Text
unfolding has before after all_scheme
drop_scheme s =
    if has b':' s && starts_alpha s && all_scheme (before b':' s) then after b':' s else s

-- What stands before the first of "/", "?" and "#".
unfoldable pub netloc_end : Text → Text
netloc_end [] = []
netloc_end (c ∷ s) =
    let rest = netloc_end s in if c == b'/' || c == b'?' || c == b'#' then [] else c ∷ rest

-- `netloc`: empty unless the rest begins with "//".
unfoldable pub netloc_of : Text → Text
netloc_of [] = []
netloc_of (c ∷ []) = []
netloc_of (c ∷ d ∷ s) = if c == b'/' && d == b'/' then netloc_end s else []

-- `_hostinfo[0]`: the user information and the port are cut off, brackets are taken off.
unfoldable pub host_part : Text → Text
host_part netloc =
    let info = after_last b'@' netloc in
    if has b'[' info then before b']' (after b'[' info) else before b':' info

-- The part before a zone is lowered; an empty host is None.
unfoldable pub host_lower : Text → Option Text
host_lower h =
    if is_empty h
    then none
    else some (if has b'%' h then lower (before b'%' h) ++ b'%' ∷ after b'%' h else lower h)

unfoldable pub hostname : Text → Result Exn (Option Text)
hostname url =
    let netloc = netloc_of (drop_scheme (remove_breaks (lstrip_controls url))) in
    do
      raise_if (has b'[' netloc && not (has b']' netloc)) value_error
      raise_if (has b']' netloc && not (has b'[' netloc)) value_error
      ok (host_lower (host_part netloc))
