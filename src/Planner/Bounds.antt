-- ===== src/Planner/Bounds.antt =====
-- How many targets the lists of backend/services/pipeline_planner.py hold, and where they come from.
use mathlib.Core.Path.{subst}
use aicybersec.Common.{
  ℕ, ◌+◌, ◌≤◌, ◌≡◌, refl, sym, ◌⊎◌, inl, inr, true, false, Option, none, some, List, [], ◌∷◌, ◌++◌,
  map, length, length-append, ok, >>=-eq-ok, All, IsIn, IsUnique, Bool-cases, arith, leb, if_true,
  if_false, IsIn-append,
}
use aicybersec.Common.Order.{
  IsOrdered, sort_by, sort_by-All, sort_by-IsUnique, length-sort_by, sort_by-IsOrdered,
}
use aicybersec.Common.Text.{Text}
use aicybersec.Scan.{Entry}
use aicybersec.Scope.{Net}
use aicybersec.Scope.Names.{append_some, is_within_domain, normalize_hostname}
use aicybersec.Scope.Snapshot.{if_new, given_host, snapshot_parents}
use aicybersec.Scope.Coverage.{append_new}
use aicybersec.Planner.Targets.{
  collect_new, promotable, any_within, sanitize_promoted_hosts, merge_httpx_targets,
}

-- What a bounded loop collects.
abbrev pub IsCollected : ℕ → (Text → Type 0) → List Text → Type 0
IsCollected bound P out = All P out × IsUnique out × (length out ≤ bound)

append_some-length :
    (out : List Text) (o : Option Text) → length (append_some out o) ≤ length out + 1
append_some-length out none = omega arith
append_some-length out (some x) = omega (arith, length-append out (x ∷ []))

pub collect_new-IsCollected :
    (bound : ℕ) (P : Text → Type 0) (out : List Text) (items : List (Option Text))
    → ((x : Text) → IsIn (some x) items → P x)
    → All P out × IsUnique out
    → length out + 1 ≤ bound
    → IsCollected bound P (collect_new bound out items)
unfolding collect_new
collect_new-IsCollected bound P out [] f (a, u) b = (a, u, omega (arith, b))
collect_new-IsCollected bound P out (item ∷ items) f h b =
    let next = append_some out (if_new out item) in
    let (a, u) : All P next × IsUnique next = append_new P out item (λ x e. f x (inl (sym e))) h in
    let n : length next ≤ length out + 1 = append_some-length out (if_new out item) in
    elim (Bool-cases (leb bound (length next))) [
      | inl full ↦
          if_true (IsCollected bound P) (leb bound (length next)) next _ full
            (a, u, omega (arith, n, b))
      | inr more ↦ if_false (IsCollected bound P) (leb bound (length next)) next _ more (
          collect_new-IsCollected bound P (append_some out (if_new out item)) items
            (λ x m. f x (inr m)) (a, u) (room bound (length next) more))
    ]
  where
    room : (b n : ℕ) → leb b n ≡ false → n + 1 ≤ b
    room b n e = ground arith

given_some :
    (urls : List Text) (x : Text)
    → IsIn (some x) (map (λ (u : Text). given_host (some u)) urls)
    → IsIn x urls
given_some [] x m = absurd m
given_some (u ∷ urls) x (inl e) = inl (same u x e)
  where
    same : (u x : Text) → some x ≡ given_host (some u) → x ≡ u
    same u x e = ground arith
given_some (u ∷ urls) x (inr m) = inr (given_some urls x m)

-- The targets of the httpx stage are at most ten, none comes twice, and each is a target of the
-- original stage or the URL of a promoted host.
pub merge_httpx_targets-IsCollected :
    (base promoted : List Text)
    → IsCollected 10 (λ u. IsIn u base ⊎ IsIn u promoted) (merge_httpx_targets base promoted)
unfolding merge_httpx_targets
merge_httpx_targets-IsCollected base promoted =
    collect_new-IsCollected 10 (λ u. IsIn u base ⊎ IsIn u promoted) [] _
      (λ x m. IsIn-append x base promoted (given_some (base ++ promoted) x m)) (tt, tt)
      (omega arith)

-- A valid name below a parent.
abbrev pub IsPromotable : Net → List Text → Text → Type 0
IsPromotable net parents name =
    (parent : Text) × IsIn parent parents × (is_within_domain net (some name) (some parent) ≡ true)

any_within-IsPromotable :
    (net : Net) (name : Text) (parents : List Text)
    → any_within net name parents ≡ true
    → IsPromotable net parents name
unfolding any_within
any_within-IsPromotable net name [] e = absurd cc
any_within-IsPromotable net name (p ∷ ps) e =
    elim (Bool-cases (is_within_domain net (some name) (some p))) [
      | inl here ↦ (p, inl refl, here)
      | inr later ↦
          let (q, i, w) = any_within-IsPromotable net name ps (rw later at e) in (q, inr i, w)
    ]

promotable-IsPromotable :
    (net : Net) (parents hosts : List Text) (x : Text)
    → IsIn
        (some x)
        (map (λ (h : Text). promotable net parents (normalize_hostname net (some h))) hosts)
    → IsPromotable net parents x
promotable-IsPromotable net parents [] x m = absurd m
promotable-IsPromotable net parents (h ∷ hosts) x (inr m) =
    promotable-IsPromotable net parents hosts x m
promotable-IsPromotable net parents (h ∷ hosts) x (inl e) = go (normalize_hostname net (some h)) e
  where
    go : (found : Option Text) → some x ≡ promotable net parents found → IsPromotable net parents x
    go none e = absurd cc
    go (some name) e =
        let within : any_within net name parents ≡ true = ground arith in
        let same : name ≡ x = ground arith in
        subst (IsPromotable net parents) same (any_within-IsPromotable net name parents within)

-- The hosts that the planner takes over from discovery are at most fifty, none comes twice, and each
-- is within a name that the snapshot itself gives; they are in order.
pub sanitize_promoted_hosts-IsCollected :
    (net : Net) (hosts : List Text) (snapshot : List Entry) (out : List Text)
    → sanitize_promoted_hosts net hosts snapshot ≡ ok out
    → (parents : List Text) × (snapshot_parents net snapshot ≡ ok parents)
      × IsCollected 50 (IsPromotable net parents) out
      × IsOrdered (λ (x : Text). x) out
unfolding sanitize_promoted_hosts
sanitize_promoted_hosts-IsCollected net hosts snapshot out e =
    let (parents, ep, rest) = >>=-eq-ok (snapshot_parents net snapshot) _ e in
    let names =
      map (λ (h : Text). promotable net parents (normalize_hostname net (some h))) hosts in
    let (a, u, b) : IsCollected 50 (IsPromotable net parents) (collect_new 50 [] names) =
      collect_new-IsCollected 50 (IsPromotable net parents) [] names
        (promotable-IsPromotable net parents hosts) (tt, tt) (omega arith) in
    let found = collect_new 50 [] names in
    let same : sort_by self found ≡ out = cc in
    let sorted =
      subst (λ (xs : List Text). IsCollected 50 (IsPromotable net parents) xs × IsOrdered self xs)
        same
        (
          (
            sort_by-All self (IsPromotable net parents) found a,
            sort_by-IsUnique self found u,
            omega (arith, b, length-sort_by self found),
          ),
          sort_by-IsOrdered self found,
        ) in
    (parents, ep, sorted.0, sorted.1)
  where
    self : Text → Text
    self x = x
