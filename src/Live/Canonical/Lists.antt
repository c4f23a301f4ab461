-- ===== src/Live/Canonical/Lists.antt =====
-- The canonical list of origins (`_parse_origin_list`): sorted, without duplicates, and stable under
-- being read again.
use aicybersec.Common.{
  ◌≡◌, refl, sym, ap, ◌∙◌, false, List, [], ◌∷◌, ◌++◌, ok, All, All-append, All-IsIn, IsIn,
  IsUnique, IsUnique-append_one, IsIn-append_right, ◌≢◌, inl, inr, Bool-cases, >>=-eq-ok, ok_inv,
}
use mathlib.Core.Path.{subst}
use mathlib.Core.List.{append_assoc, append-nil}
use aicybersec.Common.Text.{Text, elem}
use aicybersec.Common.Text.Laws.{elem_iff, not_IsIn}
use aicybersec.Common.{length, arith}
use aicybersec.Common.Order.{
  length-sort_by, sort_by, IsOrdered, sort_by-IsOrdered, sort_by_ordered, sort_by-All,
  sort_by-IsUnique,
}
use aicybersec.Scope.{Net}
use aicybersec.Live.Origin.{
  Origin, parse_origin, parse_origins, parse_origin_list, keys_of, key_of, nonempty,
}
use aicybersec.Live.Canonical.{IsCanonical, parse_origin-IsCanonical}
use aicybersec.Live.Canonical.Reading.{IsCanonical-parse_origin}

-- The members of `out` are canonical and differ.
abbrev pub IsDistinct : Net → List Origin → Type 0
IsDistinct net out = All (IsCanonical net) out × IsUnique out

-- The list as it is stored.
abbrev pub IsListing : Net → List Origin → Type 0
IsListing net out = (out ≢ []) × IsOrdered key_of out × All (IsCanonical net) out × IsUnique out

pub IsIn-keys_of : (o : Origin) (os : List Origin) → IsIn o os → IsIn o.origin (keys_of os)
IsIn-keys_of o [] m = m
IsIn-keys_of o (p ∷ ps) (inl e) = inl (ap key_of e)
IsIn-keys_of o (p ∷ ps) (inr m) = inr (IsIn-keys_of o ps m)

pub keys_of-IsIn :
    (t : Text) (os : List Origin) → IsIn t (keys_of os) → (o : Origin) × IsIn o os × (t ≡ o.origin)
keys_of-IsIn t [] m = absurd m
keys_of-IsIn t (p ∷ ps) (inl e) = (p, inl refl, e)
keys_of-IsIn t (p ∷ ps) (inr m) = let (o, i, e) = keys_of-IsIn t ps m in (o, inr i, e)

-- Two canonical origins with the same text are the same.
same_key :
    (net : Net) (o p : Origin) → IsCanonical net o → IsCanonical net p → o.origin ≡ p.origin → o ≡ p
same_key net o p c d e = ok_inv o p (
    sym (IsCanonical-parse_origin net o c)
    ∙ ap (parse_origin net) e
    ∙ IsCanonical-parse_origin net p d)

step-IsDistinct :
    (net : Net) (o : Origin) (out : List Origin)
    → IsCanonical net o
    → elem o.origin (keys_of out) ≡ false
    → IsDistinct net out
    → IsDistinct net (out ++ o ∷ [])
step-IsDistinct net o out c n (all, unique) = (
  All-append (IsCanonical net) out (o ∷ []) all (c, tt),
  IsUnique-append_one out o unique (λ m. not_IsIn _ _ n (IsIn-keys_of o out m)),
)

parse_origins-IsDistinct :
    (net : Net) (values : List Text) (out found : List Origin)
    → IsDistinct net out
    → parse_origins net out values ≡ ok found
    → IsDistinct net found
unfolding parse_origins
parse_origins-IsDistinct net [] out found d e = subst (IsDistinct net) (ok_inv out found e) d
parse_origins-IsDistinct net (v ∷ vs) out found d e =
    let (o, parsed, rest) = >>=-eq-ok (parse_origin net v) _ e in
    elim (Bool-cases (elem o.origin (keys_of out))) [
      | inl seen ↦ parse_origins-IsDistinct net vs out found d (rw seen at rest)
      | inr new ↦
          parse_origins-IsDistinct net vs (out ++ o ∷ []) found
            (step-IsDistinct net o out (parse_origin-IsCanonical net v o parsed) new d)
            (rw new at rest)
    ]

sorted_filled : (o : Origin) (os : List Origin) → sort_by key_of (o ∷ os) ≢ []
sorted_filled o os e =
    let none_left : length (sort_by key_of (o ∷ os)) ≡ 0 = ap length e in
    let one_more = length-sort_by key_of (o ∷ os) in omega arith

nonempty-IsListing :
    (net : Net) (found out : List Origin)
    → IsDistinct net found
    → nonempty found ≡ ok out
    → IsListing net out
nonempty-IsListing net [] out d e = cc
nonempty-IsListing net (o ∷ os) out (all, unique) e =
    subst (IsListing net) (ok_inv (sort_by key_of (o ∷ os)) out e) (
      sorted_filled o os,
      sort_by-IsOrdered key_of (o ∷ os),
      sort_by-All key_of (IsCanonical net) (o ∷ os) all,
      sort_by-IsUnique key_of (o ∷ os) unique,
    )

pub parse_origin_list-IsListing :
    (net : Net) (values : List Text) (out : List Origin)
    → parse_origin_list net values ≡ ok out
    → IsListing net out
unfolding parse_origin_list
parse_origin_list-IsListing net values out e =
    let (found, loop, last) = >>=-eq-ok (parse_origins net [] values) nonempty e in
    nonempty-IsListing net found out (parse_origins-IsDistinct net values [] found (tt, tt) loop)
      last

middle_new : (o : Origin) (out rest : List Origin) → IsUnique (out ++ o ∷ rest) → ¬ IsIn o out
middle_new o [] rest u m = m
middle_new o (p ∷ ps) rest (n, u) (inl e) = n (IsIn-append_right p ps (o ∷ rest) (inl (sym e)))
middle_new o (p ∷ ps) rest (n, u) (inr m) = middle_new o ps rest u m

new_key :
    (net : Net) (o : Origin) (out : List Origin)
    → IsCanonical net o
    → All (IsCanonical net) out
    → ¬ IsIn o out
    → elem o.origin (keys_of out) ≡ false
new_key net o out c all n = elim (Bool-cases (elem o.origin (keys_of out))) [
  | inl seen ↦
      let (p, m, e) = keys_of-IsIn o.origin out ((elem_iff o.origin (keys_of out)).0 seen) in
      absurd (n (rw (same_key net o p c (All-IsIn (IsCanonical net) p out all m) e) m))
  | inr f ↦ f
]

parse_origins_lem :
    (net : Net) (out rest : List Origin)
    → All (IsCanonical net) out
    → All (IsCanonical net) rest
    → IsUnique (out ++ rest)
    → parse_origins net out (keys_of rest) ≡ ok (out ++ rest)
unfolding parse_origins
parse_origins_lem net out [] all last u = ap ok (sym (append-nil out))
parse_origins_lem net out (o ∷ rest) all (c, cs) u =
    rw (IsCanonical-parse_origin net o c, new_key net o out c all (middle_new o out rest u))
      (parse_origins_lem net (out ++ o ∷ []) rest
          (All-append (IsCanonical net) out (o ∷ []) all (c, tt)) cs
          (rw (append_assoc out (o ∷ []) rest) u)
        ∙ ap ok (append_assoc out (o ∷ []) rest))

pub IsListing-parse_origin_list :
    (net : Net) (out : List Origin)
    → IsListing net out
    → parse_origin_list net (keys_of out) ≡ ok out
unfolding parse_origin_list
IsListing-parse_origin_list net out (n, ordered, all, unique) =
    rw (parse_origins_lem net [] out tt all unique) (settled out n ordered)
  where
    settled : (out : List Origin) → out ≢ [] → IsOrdered key_of out → nonempty out ≡ ok out
    settled [] n o = absurd (n refl)
    settled (p ∷ ps) n o = ap ok (sort_by_ordered key_of (p ∷ ps) o)

-- The list of origins that `_parse_origin_list` returns is not empty, sorted by the origins' texts and
-- without duplicates, each origin is canonical, and reading the texts of the list returns the list.
pub parse_origin_list-again :
    (net : Net) (values : List Text) (out : List Origin)
    → parse_origin_list net values ≡ ok out
    → IsListing net out × (parse_origin_list net (keys_of out) ≡ ok out)
parse_origin_list-again net values out e =
    let listing = parse_origin_list-IsListing net values out e in
    (listing, IsListing-parse_origin_list net out listing)
