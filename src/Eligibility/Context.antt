-- ===== src/Eligibility/Context.antt =====
-- What `build_httpx_runtime_policy` of backend/services/httpx_eligibility.py hands to the tools.
use mathlib.Core.List.{append_assoc, append-nil}
use aicybersec.Common.{
  ◌≡◌, refl, sym, ◌∙◌, inl, inr, List, [], ◌∷◌, ◌++◌, ok, >>=-eq-ok, All, IsIn, Bool-cases,
  IsIn-append_left, IsIn-append_right,
}
use aicybersec.Common.Text.{Text, elem}
use aicybersec.Common.Text.Laws.{elem_iff}
use aicybersec.Safety.Policy.{Policy, normalize, normalize_all}
use aicybersec.Eligibility.{merge_hosts, build_httpx_runtime_policy}

-- The hosts of the list, and what they are reduced to.
abbrev pub IsHostOf : List Text → Text → Type 0
IsHostOf entries host = (entry : Text) × IsIn entry entries × (normalize entry ≡ ok host)

-- Every host seen so far is the host of an entry merged so far.
abbrev AreMerged : List Text → List Text → Type 0
AreMerged seen merged = All (IsHostOf merged) seen

All-grow : (merged more seen : List Text) → AreMerged seen merged → AreMerged seen (merged ++ more)
All-grow merged more [] h = tt
All-grow merged more (s ∷ seen) ((entry, i, e), h) =
    ((entry, IsIn-append_left entry merged more i, e), All-grow merged more seen h)

All-IsIn-of : (P : Text → Type 0) (xs : List Text) (x : Text) → All P xs → IsIn x xs → P x
All-IsIn-of P [] x h m = absurd m
All-IsIn-of P (y ∷ ys) x (p, h) (inl e) = rw e p
All-IsIn-of P (y ∷ ys) x (p, h) (inr m) = All-IsIn-of P ys x h m

-- What the merge adds, and that each host of the list is covered after it.
abbrev pub IsExtension : List Text → List Text → List Text → Type 0
IsExtension base hosts out =
    ((added : List Text) × (out ≡ base ++ added) × All (λ h. IsIn h hosts) added)
    × All (λ h. (host : Text) × (normalize h ≡ ok host) × IsHostOf out host) hosts

All-later :
    (h : Text) (hosts added : List Text)
    → All (λ x. IsIn x hosts) added
    → All (λ x. IsIn x (h ∷ hosts)) added
All-later h hosts [] a = tt
All-later h hosts (x ∷ xs) (m, a) = (inr m, All-later h hosts xs a)

merge_hosts-IsExtension :
    (merged seen hosts out : List Text)
    → AreMerged seen merged
    → merge_hosts merged seen hosts ≡ ok out
    → IsExtension merged hosts out
unfolding merge_hosts
merge_hosts-IsExtension merged seen [] out s e =
    let same : merged ≡ out = cc in (([], sym same ∙ sym (append-nil merged), tt), tt)
merge_hosts-IsExtension merged seen (h ∷ hosts) out s e =
    let (n, en, rest) = >>=-eq-ok (normalize h) _ e in
    elim (Bool-cases (elem n seen)) [
      | inl known ↦
          let ((added, shape, from), covered) =
            merge_hosts-IsExtension merged seen hosts out s (rw known at rest) in
          let (entry, i, ee) = All-IsIn-of (IsHostOf merged) seen n s ((elem_iff n seen).0 known) in
          (
            (added, shape, All-later h hosts added from),
            ((n, en, (entry, rw shape (IsIn-append_left entry merged added i), ee)), covered),
          )
      | inr fresh ↦
          let here : IsIn h (merged ++ h ∷ []) = IsIn-append_right h merged (h ∷ []) (inl refl) in
          let ((added, shape, from), covered) =
            merge_hosts-IsExtension (merged ++ h ∷ []) (n ∷ seen) hosts out
              ((h, here, en), All-grow merged (h ∷ []) seen s) (rw fresh at rest) in
          (
            (
              h ∷ added,
              shape ∙ append_assoc merged (h ∷ []) added,
              (inl refl, All-later h hosts added from),
            ),
            (
              (n, en, (h, rw shape (IsIn-append_left h (merged ++ h ∷ []) added here), en)),
              covered,
            ),
          )
    ]

normalize_all-AreMerged :
    (entries hosts : List Text) → normalize_all entries ≡ ok hosts → AreMerged hosts entries
unfolding normalize_all
normalize_all-AreMerged [] hosts e = let none : [] ≡ hosts = cc in rw (← none) tt
normalize_all-AreMerged (x ∷ entries) hosts e =
    let (n, en, rest) = >>=-eq-ok (normalize x) _ e in
    let (ns, ens, last) = >>=-eq-ok (normalize_all entries) _ rest in
    let shape : n ∷ ns ≡ hosts = cc in
    let later = normalize_all-AreMerged entries ns ens in
    rw (← shape) ((x, inl refl, en), move ns later)
  where
    move : (ns : List Text) → AreMerged ns entries → AreMerged ns (x ∷ entries)
    move [] h = tt
    move (m ∷ ns) ((entry, i, e), h) = ((entry, inr i, e), move ns h)

-- The run-local policy differs from the original in its targets alone: these are the original ones
-- followed by eligible hosts, and the host of every eligible entry is among theirs.
pub build_httpx_runtime_policy-IsExtension :
    (p q : Policy) (eligible : List Text)
    → build_httpx_runtime_policy p eligible ≡ ok q
    → (q ≡ record p { allowed_targets = q.allowed_targets })
      × IsExtension p.allowed_targets eligible q.allowed_targets
unfolding build_httpx_runtime_policy
build_httpx_runtime_policy-IsExtension p q eligible e =
    let (seen, es, rest) = >>=-eq-ok (normalize_all p.allowed_targets) _ e in
    let (merged, em, last) = >>=-eq-ok (merge_hosts p.allowed_targets seen eligible) _ rest in
    let shape : record p { allowed_targets = merged } ≡ q = cc in
    rw (← shape) (
      refl,
      merge_hosts-IsExtension p.allowed_targets seen eligible merged
          (normalize_all-AreMerged p.allowed_targets seen es) em,
    )
