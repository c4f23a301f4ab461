-- ===== src/Scope/Descendants.antt =====
-- Which names are below a domain.
use aicybersec.Common.{
  ◌≡◌, ◌≢◌, refl, ◌↔◌, ◌⊎◌, inl, inr, true, false, Option, none, some, List, [], ◌∷◌, ◌++◌, All,
  All-append, IsIn, IsUnique, IsUnique-append_one, Bool-cases, Option-cases, arith,
}
use aicybersec.Common.Text.{Text, text_eq, elem, ends_with}
use aicybersec.Common.Text.Laws.{
  text_eq_iff, not_IsIn, ends_with-append, append_of_ends_with, text_eq_refl,
}
use aicybersec.Scope.Names.{
  collect, normalize_hostname, within, is_within_domain, is_new_descendant, append_some, descend,
  filter_descendants,
}
use aicybersec.Scope.{Net}

-- `child` is `prefix.parent` for some prefix.
abbrev pub IsBelow : Text → Text → Type 0
IsBelow parent child = (prefix : Text) × (child ≡ prefix ++ b'.' ∷ parent)

-- A name is within a domain exactly if both are valid names, and the first is the second or ends with
-- a dot and the second: evil-example.com is not within example.com.
pub is_within_domain_iff :
    (net : Net) (candidate domain : Option Text)
    → (is_within_domain net candidate domain ≡ true) ↔ (
        (child : Text) × (parent : Text) × (normalize_hostname net candidate ≡ some child)
        × (normalize_hostname net domain ≡ some parent)
        × ((child ≡ parent) ⊎ IsBelow parent child))
unfolding is_within_domain
is_within_domain_iff net candidate domain =
    go (normalize_hostname net candidate) (normalize_hostname net domain)
  where
    go :
        (c d : Option Text)
        → (within c d ≡ true) ↔ (
            (child : Text) × (parent : Text) × (c ≡ some child)
            × (d ≡ some parent)
            × ((child ≡ parent) ⊎ IsBelow parent child))
    go none d = (λ h. cc, λ (child, parent, e, f, g). cc)
    go (some c) none = (λ h. cc, λ (child, parent, e, f, g). cc)
    go (some c) (some d) = (
      λ h. elim (Bool-cases (text_eq c d)) [
        | inl same ↦ (c, d, refl, refl, inl ((text_eq_iff c d).0 same))
        | inr other ↦ (c, d, refl, refl, inr (append_of_ends_with c (b'.' ∷ d) (ground arith)))
      ],
      λ (child, parent, e, f, g). elim g [
        | inl same ↦ let q : c ≡ d = cc in rw (q, text_eq_refl d) refl
        | inr (prefix, shape) ↦
            let q : c ≡ prefix ++ b'.' ∷ d = cc in
            rw (q, ends_with-append prefix (b'.' ∷ d)) (ground arith)
      ],
    )

-- What a new name is, as the loop tests it.
is_new_descendant_lem :
    (parent name : Text) (out : List Text) (found : Option Text)
    → is_new_descendant parent out found ≡ some name
    → IsBelow parent name × (name ≢ parent) × ¬ IsIn name out
is_new_descendant_lem parent name out none e = absurd cc
is_new_descendant_lem parent name out (some n) e =
    let below : ends_with n (b'.' ∷ parent) ≡ true = ground arith in
    let fresh : elem n out ≡ false = ground arith in
    let other : text_eq n parent ≡ false = ground arith in
    let same : n ≡ name = ground arith in
    rw (← same) (
      append_of_ends_with n (b'.' ∷ parent) below,
      (λ q. absurd (let t : text_eq n parent ≡ true = (text_eq_iff n parent).1 q in cc)),
      not_IsIn n out fresh,
    )

-- What `filter_descendants` promises of what it collected.
abbrev pub AreDescendants : Text → List Text → Type 0
AreDescendants parent out = All (λ name. IsBelow parent name × (name ≢ parent)) out × IsUnique out

append-AreDescendants :
    (parent : Text) (out : List Text) (found : Option Text)
    → AreDescendants parent out
    → AreDescendants parent (append_some out (is_new_descendant parent out found))
append-AreDescendants parent out found (a, u) =
    elim (Option-cases (is_new_descendant parent out found)) [
      | inl e ↦ rw e (a, u)
      | inr (name, e) ↦
          let (below, other, fresh) = is_new_descendant_lem parent name out found e in
          rw e (
            All-append (λ n. IsBelow parent n × (n ≢ parent)) out (name ∷ []) a
                ((below, other), tt),
            IsUnique-append_one out name u fresh,
          )
    ]

descend-AreDescendants :
    (net : Net) (parent : Text) (out candidates : List Text)
    → AreDescendants parent out
    → AreDescendants parent (descend net parent out candidates)
unfolding descend
descend-AreDescendants net parent out [] h = h
descend-AreDescendants net parent out (c ∷ cs) h =
    descend-AreDescendants net parent
      (append_some out (is_new_descendant parent out (normalize_hostname net (some c)))) cs
      (append-AreDescendants parent out (normalize_hostname net (some c)) h)

-- Every name that `filter_descendants` returns is properly below the domain, and none comes twice;
-- of an invalid domain it returns nothing.
pub filter_descendants_lem :
    (net : Net) (candidates : List Text) (domain : Option Text)
    → ((normalize_hostname net domain ≡ none) × (filter_descendants net candidates domain ≡ []))
      ⊎ ((parent : Text) × (normalize_hostname net domain ≡ some parent)
          × AreDescendants parent (filter_descendants net candidates domain))
unfolding filter_descendants
filter_descendants_lem net candidates domain = go (normalize_hostname net domain)
  where
    go :
        (found : Option Text)
        → ((found ≡ none) × (collect net candidates found ≡ []))
          ⊎ ((parent : Text) × (found ≡ some parent)
              × AreDescendants parent (collect net candidates found))
    go none = inl (refl, refl)
    go (some parent) = inr (parent, refl, descend-AreDescendants net parent [] candidates (tt, tt))
