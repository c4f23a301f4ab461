-- ===== src/Persistence/Rerun.antt =====
-- The last pass as a whole: what it adds, how it links, and that a second pass changes nothing.
use aicybersec.Common.{
  ℕ, ◌≤◌, ◌≡◌, sym, ap, ◌∙◌, List, [], ◌++◌, take, length, length-take, All, IsIn, IsUnique, ok,
  ok_inv, >>=-eq-ok, arith,
}
use mathlib.Core.Path.{subst}
use mathlib.Core.List.{append-nil}
use aicybersec.Scope.{Net}
use aicybersec.Persistence.{Asset}
use aicybersec.Persistence.Observed.{AgentObservation, Derived}
use aicybersec.Persistence.Store.{
  rows_of, Owner, add_assets, link_parents, with_links, store_assets, derive_all, persist_assets,
}
use aicybersec.Persistence.Stored.{Identity, identities, IsIndexed, add_assets-IsIndexed}
use aicybersec.Persistence.Adds.{
  identity_of, add_assets-IsHere, add_assets-none, add_assets-IsOwned,
}
use aicybersec.Persistence.Links.{IsNewRow, IsLinked-after, link_parents-IsNewRow, identities_after}

-- The identities in the table stay unique.
pub persist_assets-IsIndexed :
    (net : Net) (new_id : List Asset → ℕ) (scan : Owner) (observations : List AgentObservation)
    (old out : List Asset) (n : ℕ)
    → IsIndexed old
    → persist_assets net new_id scan observations old ≡ ok (out, n)
    → IsIndexed out
unfolding persist_assets store_assets
persist_assets-IsIndexed net new_id scan observations old out n u e =
    let (ds, d, r) = >>=-eq-ok (derive_all net scan.target_snapshot [] observations) _ e in
    let q = ap (λ (x : List Asset × ℕ). identities x.0) (ok_inv _ _ r) in
    let new = add_assets new_id scan old [] (take 500 ds) in
    let start : IsIndexed (old ++ []) = subst IsIndexed (sym (append-nil old)) u in
    subst (λ (x : List Identity). IsUnique x) (sym (identities_after scan.scan_id old new) ∙ q)
      (add_assets-IsIndexed new_id scan old [] (take 500 ds) start)

-- The rows that a pass has been asked for are there after it.
persist_assets_again :
    (new_id : List Asset → ℕ) (scan : Owner) (ds : List Derived) (old : List Asset)
    → store_assets new_id scan ds (store_assets new_id scan ds old).0
      ≡ ((store_assets new_id scan ds old).0, 0)
unfolding store_assets link_parents
persist_assets_again new_id scan ds old =
    let new = add_assets new_id scan old [] ds in
    let out = (with_links scan.scan_id old new).0 in
    let keys = identities_after scan.scan_id old new in
    let same : identities (out ++ []) ≡ identities (old ++ rows_of new) =
      ap identities (append-nil out) ∙ keys in
    let here =
      subst (λ (x : List Identity). All (λ d. IsIn (identity_of scan d) x) ds) (sym same)
        (add_assets-IsHere new_id scan old [] ds) in
    let nothing = add_assets-none new_id scan out ds here in
    ap (with_links scan.scan_id out) nothing ∙ ap (λ (x : List Asset). (x, 0)) (append-nil out)

-- A second pass on the same observations inserts nothing and changes nothing.
pub persist_assets_twice :
    (net : Net) (new_id : List Asset → ℕ) (scan : Owner) (observations : List AgentObservation)
    (old out : List Asset) (n : ℕ)
    → persist_assets net new_id scan observations old ≡ ok (out, n)
    → persist_assets net new_id scan observations out ≡ ok (out, 0)
unfolding persist_assets
persist_assets_twice net new_id scan observations old out n e =
    let (ds, d, r) = >>=-eq-ok (derive_all net scan.target_snapshot [] observations) _ e in
    let q = ok_inv _ _ r in
    let again = persist_assets_again new_id scan (take 500 ds) old in
    let f = λ (x : List Asset × ℕ). store_assets new_id scan (take 500 ds) x.0 in
    let step = ap f (sym q) ∙ again ∙ ap (λ (x : List Asset × ℕ). (x.0, 0)) q in rw d (ap ok step)

-- The old rows stay in front, at most 500 rows are new, the count says how many, and each new row
-- belongs to the scan and has no parent or another row of the scan as its parent.
pub persist_assets-IsNewRow :
    (net : Net) (new_id : List Asset → ℕ) (scan : Owner) (observations : List AgentObservation)
    (old out : List Asset) (n : ℕ)
    → persist_assets net new_id scan observations old ≡ ok (out, n)
    → (new : List Asset) × (out ≡ old ++ new)
      × (n ≡ length new)
      × (n ≤ 500)
      × All (IsNewRow scan.scan_id out) new
unfolding persist_assets store_assets
persist_assets-IsNewRow net new_id scan observations old out n e =
    let (ds, d, r) = >>=-eq-ok (derive_all net scan.target_snapshot [] observations) _ e in
    let q = ok_inv _ _ r in
    let ns = add_assets new_id scan old [] (take 500 ds) in
    let (owned, bound) = add_assets-IsOwned new_id scan old [] (take 500 ds) tt in
    let rows = old ++ rows_of ns in
    let new = link_parents scan.scan_id rows ns in
    let (all, count) =
      link_parents-IsNewRow scan rows (old ++ new) ns (IsLinked-after scan.scan_id old ns) owned in
    let o : out ≡ old ++ new = sym (ap (λ (x : List Asset × ℕ). x.0) q) in
    let m : n ≡ length ns = sym (ap (λ (x : List Asset × ℕ). x.1) q) in
    let cap = length-take 500 ds in
    (
      new,
      o,
      m ∙ sym count,
      omega arith,
      subst (λ (x : List Asset). All (IsNewRow scan.scan_id x) new) (sym o) all,
    )
