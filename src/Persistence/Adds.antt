-- ===== src/Persistence/Adds.antt =====
-- The loop over the asset dicts: what it adds, and what is there after it.
use aicybersec.Common.{
  ℕ, suc, ◌+◌, ◌≤◌, ◌≡◌, refl, inl, inr, true, none, List, [], ◌∷◌, ◌++◌, take, length,
  length-append, All, All-append, IsIn, IsIn-append_left, IsIn-append_right, Bool-cases, arith,
}
use aicybersec.Persistence.{Asset}
use aicybersec.Persistence.Observed.{Derived}
use aicybersec.Persistence.Store.{NewRow, rows_of, Owner, is_known, add_asset, add_assets}
use aicybersec.Persistence.Stored.{Identity, identities, identities-snoc, is_some-find_id_iff}

-- The identity that an asset dict has in the table.
abbrev pub identity_of : Owner → Derived → Identity
identity_of scan d = (scan.scan_id, d.asset_type, take 500 d.value)

abbrev IsHere : Owner → List Asset → List NewRow → Derived → Type 0
IsHere scan old new d = IsIn (identity_of scan d) (identities (old ++ rows_of new))

add_asset-keeps :
    (new_id : List Asset → ℕ) (scan : Owner) (old : List Asset) (new : List NewRow) (d : Derived)
    (k : Identity)
    → IsIn k (identities (old ++ rows_of new))
    → IsIn k (identities (old ++ rows_of (add_asset new_id scan old new d)))
unfolding add_asset
add_asset-keeps new_id scan old new d k m =
    elim (Bool-cases (is_known scan d (old ++ rows_of new))) [
      | inl e ↦ rw e m
      | inr e ↦ rw e (rw (identities-snoc old new _) (IsIn-append_left k _ _ m))
    ]

add_asset-IsHere :
    (new_id : List Asset → ℕ) (scan : Owner) (old : List Asset) (new : List NewRow) (d : Derived)
    → IsHere scan old (add_asset new_id scan old new d) d
unfolding add_asset
add_asset-IsHere new_id scan old new d = elim (Bool-cases (is_known scan d (old ++ rows_of new))) [
  | inl e ↦ rw e ((is_some-find_id_iff scan.scan_id d.asset_type _ (old ++ rows_of new)).0 e)
  | inr e ↦ rw e (
      rw (identities-snoc old new _)
        (IsIn-append_right _ (identities (old ++ rows_of new)) _ (inl refl)))
]

add_assets-keeps :
    (new_id : List Asset → ℕ) (scan : Owner) (old : List Asset) (new : List NewRow)
    (ds : List Derived) (k : Identity)
    → IsIn k (identities (old ++ rows_of new))
    → IsIn k (identities (old ++ rows_of (add_assets new_id scan old new ds)))
unfolding add_assets
add_assets-keeps new_id scan old new [] k m = m
add_assets-keeps new_id scan old new (d ∷ ds) k m =
    add_assets-keeps new_id scan old (add_asset new_id scan old new d) ds k
      (add_asset-keeps new_id scan old new d k m)

-- After the loop every asset dict has its row.
pub add_assets-IsHere :
    (new_id : List Asset → ℕ) (scan : Owner) (old : List Asset) (new : List NewRow)
    (ds : List Derived)
    → All (IsHere scan old (add_assets new_id scan old new ds)) ds
unfolding add_assets
add_assets-IsHere new_id scan old new [] = tt
add_assets-IsHere new_id scan old new (d ∷ ds) = (
  add_assets-keeps new_id scan old (add_asset new_id scan old new d) ds _
      (add_asset-IsHere new_id scan old new d),
  add_assets-IsHere new_id scan old (add_asset new_id scan old new d) ds,
)

-- The loop adds no row where every asset dict has one.
pub add_assets-none :
    (new_id : List Asset → ℕ) (scan : Owner) (old : List Asset) (ds : List Derived)
    → All (λ d. IsIn (identity_of scan d) (identities (old ++ []))) ds
    → add_assets new_id scan old [] ds ≡ []
unfolding add_assets add_asset
add_assets-none new_id scan old [] h = refl
add_assets-none new_id scan old (d ∷ ds) (m, h) =
    let e : is_known scan d (old ++ []) ≡ true =
      (is_some-find_id_iff scan.scan_id d.asset_type _ (old ++ [])).1 m in
    rw e (add_assets-none new_id scan old ds h)

-- A new row belongs to the scan, and has no parent yet.
abbrev pub IsOwned : Owner → NewRow → Type 0
IsOwned scan n = (n.row.scan_id ≡ scan.scan_id) × (n.row.parent_asset_id ≡ none)

add_asset-IsOwned :
    (new_id : List Asset → ℕ) (scan : Owner) (old : List Asset) (new : List NewRow) (d : Derived)
    → All (IsOwned scan) new
    → All (IsOwned scan) (add_asset new_id scan old new d)
      × (length (add_asset new_id scan old new d) ≤ suc (length new))
unfolding add_asset
add_asset-IsOwned new_id scan old new d h =
    elim (Bool-cases (is_known scan d (old ++ rows_of new))) [
      | inl e ↦ rw e (h, omega arith)
      | inr e ↦ rw e (
        All-append (IsOwned scan) new _ h ((refl, refl), tt),
        rw (length-append new _) (omega arith),
      )
    ]

pub add_assets-IsOwned :
    (new_id : List Asset → ℕ) (scan : Owner) (old : List Asset) (new : List NewRow)
    (ds : List Derived)
    → All (IsOwned scan) new
    → All (IsOwned scan) (add_assets new_id scan old new ds)
      × (length (add_assets new_id scan old new ds) ≤ length new + length ds)
unfolding add_assets
add_assets-IsOwned new_id scan old new [] h = (h, omega arith)
add_assets-IsOwned new_id scan old new (d ∷ ds) h =
    let (h1, n1) = add_asset-IsOwned new_id scan old new d h in
    let (h2, n2) = add_assets-IsOwned new_id scan old (add_asset new_id scan old new d) ds h1 in
    (h2, omega arith)
