-- ===== src/Scope/Names.antt =====
-- Host names: `_validate_domain` and `is_valid_hostname_syntax` of backend/services/scope_service.py,
-- `normalize_hostname`, `is_within_domain` and `filter_descendants` of
-- backend/services/subdomain_policy.py.
use aicybersec.Common.{
  ℕ, Bool, true, false, not, ◌&&◌, ◌||◌, Option, none, some, List, [], ◌∷◌, ◌++◌, length, leb, ◌==◌,
  if◌then◌else◌, is_some,
}
use aicybersec.Common.Text.{
  Text, codes, text_eq, elem, is_empty, strip, lower, has, has_text, starts_with, ends_with,
  drop_last, drop_trailing,
}
use aicybersec.Scope.{Net}

-- The parts of a text between the dots.
abbrev pub push : ℕ → List Text → List Text
push c [] = (c ∷ []) ∷ []
push c (t ∷ ts) = (c ∷ t) ∷ ts

unfoldable pub split_dots : Text → List Text
split_dots [] = [] ∷ []
split_dots (c ∷ s) = let rest = split_dots s in if c == b'.' then [] ∷ rest else push c rest

abbrev pub is_digit : ℕ → Bool
is_digit c = leb b'0' c && leb c b'9'

-- `[a-z0-9]` without case, in ASCII
abbrev pub is_alnum : ℕ → Bool
is_alnum c = is_digit c || (leb b'a' c && leb c b'z') || (leb b'A' c && leb c b'Z')

-- `[a-z0-9-]*[a-z0-9]`, on a text with a first character before it.
abbrev pub label_tail : Text → Bool
label_tail [] = true
label_tail (c ∷ []) = is_alnum c
label_tail (c ∷ s) = (is_alnum c || c == b'-') && label_tail s

abbrev pub is_label : Text → Bool
is_label [] = false
is_label (c ∷ s) = is_alnum c && label_tail s && leb (length s) 62

abbrev pub all_labels : List Text → Bool
all_labels [] = true
all_labels (t ∷ ts) = is_label t && all_labels ts

abbrev all_digits : Text → Bool
all_digits [] = true
all_digits (c ∷ s) = is_digit c && all_digits s

abbrev is_octet : Text → Bool
is_octet t = not (is_empty t) && leb (length t) 3 && all_digits t

abbrev four_octets : List Text → Bool
four_octets (a ∷ b ∷ c ∷ d ∷ []) = is_octet a && is_octet b && is_octet c && is_octet d
four_octets _ = false

-- In a Python regular expression `$` also matches before a newline at the end.
abbrev at_end : (Text → Bool) → Text → Bool
at_end test s = test s || (ends_with s (10 ∷ []) && test (drop_last s))

unfoldable pub hostname_re : Text → Bool
unfolding split_dots ends_with drop_last
hostname_re s = at_end (λ t. not (is_empty t) && leb (length t) 253 && all_labels (split_dots t)) s

unfoldable pub ipv4_re : Text → Bool
unfolding split_dots ends_with drop_last
ipv4_re s = at_end (λ t. four_octets (split_dots t)) s

-- At most one trailing root dot is taken off.
abbrev pub strip_dot : Text → Text
strip_dot v = drop_trailing b'.' v

-- `_validate_domain`; None is an ApiError.
unfoldable pub validate_domain : Net → Text → Option Text
unfolding hostname_re ipv4_re
validate_domain net value =
    let v = strip value in
    let name = strip_dot v in
    let lowered = lower name in
    if is_empty v
      || has_text (codes "://") v
      || has b'@' v
      || has b'*' v
      || starts_with name (codes "-")
      || net.is_ip name
      || ipv4_re name
      || is_empty lowered
      || not (leb (length lowered) 253)
      || not (hostname_re lowered)
    then none
    else some lowered

-- `is_valid_hostname_syntax`
abbrev pub is_valid_hostname_syntax : Net → Text → Bool
is_valid_hostname_syntax net value = is_some (validate_domain net value)

-- `normalize_hostname`; None stands for any value that is no text as well.
unfoldable pub normalize_hostname : Net → Option Text → Option Text
normalize_hostname net none = none
normalize_hostname net (some value) =
    if is_valid_hostname_syntax net value then some (lower (strip_dot (strip value))) else none

abbrev pub within : Option Text → Option Text → Bool
within none p = false
within (some child) none = false
within (some child) (some parent) = text_eq child parent || ends_with child (b'.' ∷ parent)

-- `is_within_domain`
unfoldable pub is_within_domain : Net → Option Text → Option Text → Bool
is_within_domain net candidate domain =
    within (normalize_hostname net candidate) (normalize_hostname net domain)

-- What the loop of `filter_descendants` tests before the sets; `seen` has the members of `out`.
abbrev pub is_new_descendant : Text → List Text → Option Text → Option Text
is_new_descendant parent out none = none
is_new_descendant parent out (some name) =
    if text_eq name parent || elem name out || not (ends_with name (b'.' ∷ parent))
    then none
    else some name

abbrev pub append_some : List Text → Option Text → List Text
append_some out none = out
append_some out (some name) = out ++ name ∷ []

unfoldable pub descend : Net → Text → List Text → List Text → List Text
descend net parent out [] = out
descend net parent out (c ∷ cs) =
    descend net parent
      (append_some out (is_new_descendant parent out (normalize_hostname net (some c)))) cs

abbrev pub collect : Net → List Text → Option Text → List Text
collect net candidates none = []
collect net candidates (some parent) = descend net parent [] candidates

-- `filter_descendants`
unfoldable pub filter_descendants : Net → List Text → Option Text → List Text
filter_descendants net candidates domain = collect net candidates (normalize_hostname net domain)
