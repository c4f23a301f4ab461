-- ===== src/Persistence/Authorized.antt =====
-- The promotion gate end to end: the names that a run's last pass adds to the table of assets.
use aicybersec.Common.{
  ℕ, zero, suc, ◌≡◌, refl, sym, ap, ◌⊎◌, inl, inr, false, Option, some, List, [], ◌∷◌, ◌++◌, take,
  length, All, All-append, IsIn, Bool-cases, ok, ok_inv, >>=-eq-ok, leb,
}
use mathlib.Core.Path.{subst}
use aicybersec.Common.Text.{Text}
use aicybersec.Scan.{Entry}
use aicybersec.Scope.{Net}
use aicybersec.Scope.Snapshot.{snapshot_parents}
use aicybersec.Discovery.Below.{IsBelow}
use aicybersec.Persistence.{Asset}
use aicybersec.Persistence.Observed.{AgentObservation, Derived}
use aicybersec.Persistence.Builders.{canonical}
use aicybersec.Persistence.Derive.{assets_from_observation}
use aicybersec.Persistence.Store.{
  NewRow, rows_of, Owner, row_of, is_known, derive_all, add_asset, add_assets, link_parents,
  store_assets, persist_assets,
}
use aicybersec.Persistence.Links.{link_row-keeps}
use aicybersec.Persistence.Gated.{is_name_type, IsGated, assets_from_observation-IsGated}

-- The value of a row that is a name: a parent of the snapshot, or a name strictly below one, in the
-- builders' form and cut to the column.
abbrev pub IsAuthorized : Net → List Entry → Asset → Type 0
IsAuthorized net snapshot row =
    (is_name_type row.asset_type ≡ false)
    ⊎ ((parent : Text) × ((parents : List Text) × (snapshot_parents net snapshot ≡ ok parents)
          × IsIn parent parents)
        × ((row.value ≡ take 500 (canonical parent))
            ⊎ ((name : Text) × IsBelow net parent name × (row.value ≡ take 500 (canonical name)))))

module _ (net : Net) (snapshot : List Entry) where
  All-take :
      (n : ℕ) (ds : List Derived)
      → All (IsGated net snapshot) ds
      → All (IsGated net snapshot) (take n ds)
  All-take zero ds h = tt
  All-take (suc n) [] h = tt
  All-take (suc n) (d ∷ ds) (p, h) = (p, All-take n ds h)

  derive_all-IsGated :
      (out : List Derived) (os : List AgentObservation) (ds : List Derived)
      → All (IsGated net snapshot) out
      → derive_all net (some snapshot) out os ≡ ok ds
      → All (IsGated net snapshot) ds
  unfolding derive_all
  derive_all-IsGated out [] ds g h = subst (All (IsGated net snapshot)) (ok_inv _ _ h) g
  derive_all-IsGated out (o ∷ os) ds g h =
      let (new, a, r) = >>=-eq-ok (assets_from_observation net (some snapshot) o) _ h in
      let all =
        All-append (IsGated net snapshot) out new g
          (assets_from_observation-IsGated net snapshot o new a) in
      elim (Bool-cases (leb 500 (length (out ++ new)))) [
        | inl e ↦ subst (All (IsGated net snapshot)) (ok_inv _ _ (rw e at r)) all
        | inr e ↦ derive_all-IsGated (out ++ new) os ds all (rw e at r)
      ]

  row_of-IsAuthorized :
      (scan : Owner) (d : Derived) (id : ℕ)
      → IsGated net snapshot d
      → IsAuthorized net snapshot (row_of scan d id)
  row_of-IsAuthorized scan d id (inl e) = inl e
  row_of-IsAuthorized scan d id (inr (parent, a, inl (t, v))) =
      inr (parent, a, inl (ap (take 500) v))
  row_of-IsAuthorized scan d id (inr (parent, a, inr (t, (name, b, v)))) =
      inr (parent, a, inr (name, b, ap (take 500) v))

  rows_of-append :
      (ns : List NewRow) (n : NewRow) → rows_of (ns ++ n ∷ []) ≡ rows_of ns ++ n.row ∷ []
  rows_of-append [] n = refl
  rows_of-append (m ∷ ns) n = ap (λ r. m.row ∷ r) (rows_of-append ns n)

  add_asset-IsAuthorized :
      (new_id : List Asset → ℕ) (scan : Owner) (old : List Asset) (new : List NewRow) (d : Derived)
      → All (IsAuthorized net snapshot) (rows_of new)
      → IsGated net snapshot d
      → All (IsAuthorized net snapshot) (rows_of (add_asset new_id scan old new d))
  unfolding add_asset
  add_asset-IsAuthorized new_id scan old new d h g =
      elim (Bool-cases (is_known scan d (old ++ rows_of new))) [
        | inl e ↦ rw e h
        | inr e ↦ rw e (
            rw (rows_of-append new _) (
              All-append (IsAuthorized net snapshot) (rows_of new) _ h
                (row_of-IsAuthorized scan d (new_id (old ++ rows_of new)) g, tt)))
      ]

  add_assets-IsAuthorized :
      (new_id : List Asset → ℕ) (scan : Owner) (old : List Asset) (new : List NewRow)
      (ds : List Derived)
      → All (IsAuthorized net snapshot) (rows_of new)
      → All (IsGated net snapshot) ds
      → All (IsAuthorized net snapshot) (rows_of (add_assets new_id scan old new ds))
  unfolding add_assets
  add_assets-IsAuthorized new_id scan old new [] h g = h
  add_assets-IsAuthorized new_id scan old new (d ∷ ds) h (p, g) =
      add_assets-IsAuthorized new_id scan old (add_asset new_id scan old new d) ds
        (add_asset-IsAuthorized new_id scan old new d h p) g

  link_parents-IsAuthorized :
      (scan_id : ℕ) (rows : List Asset) (ns : List NewRow)
      → All (IsAuthorized net snapshot) (rows_of ns)
      → All (IsAuthorized net snapshot) (link_parents scan_id rows ns)
  unfolding link_parents
  link_parents-IsAuthorized scan_id rows [] h = tt
  link_parents-IsAuthorized scan_id rows (n ∷ ns) (p, h) = (
    subst (IsAuthorized net snapshot) (sym (link_row-keeps scan_id rows n.row n.parent)) p,
    link_parents-IsAuthorized scan_id rows ns h,
  )

  -- Whatever the tools of a run report, each row that its last pass adds is no name, or it is a parent
  -- of the scan's snapshot or a name strictly below one.
  pub persist_assets-IsAuthorized :
      (new_id : List Asset → ℕ) (scan : Owner) (observations : List AgentObservation)
      (old out : List Asset) (n : ℕ)
      → scan.target_snapshot ≡ some snapshot
      → persist_assets net new_id scan observations old ≡ ok (out, n)
      → (new : List Asset) × (out ≡ old ++ new) × All (IsAuthorized net snapshot) new
  unfolding persist_assets store_assets
  persist_assets-IsAuthorized new_id scan observations old out n s e =
      let (ds, d, r) = >>=-eq-ok (derive_all net scan.target_snapshot [] observations) _ e in
      let gated =
        derive_all-IsGated [] observations ds tt
          (subst (λ (x : Option (List Entry)). derive_all net x [] observations ≡ ok ds) s d) in
      let ns = add_assets new_id scan old [] (take 500 ds) in
      let rows =
        add_assets-IsAuthorized new_id scan old [] (take 500 ds) tt (All-take 500 ds gated) in
      (
        link_parents scan.scan_id (old ++ rows_of ns) ns,
        sym (ap (λ (x : List Asset × ℕ). x.0) (ok_inv _ _ r)),
        link_parents-IsAuthorized scan.scan_id (old ++ rows_of ns) ns rows,
      )
