-- ===== src/Persistence/Stored.antt =====
-- What the run's last pass leaves in the table of assets: identities stay unique, the old rows stay,
-- links stay inside the scan, and a second pass adds nothing.
use aicybersec.Common.{
  ℕ, zero, suc, ◌≡◌, refl, sym, ap, ◌∙◌, inl, inr, ◌↔◌, true, some, is_some, List, [], ◌∷◌, ◌++◌,
  IsIn, IsUnique, IsUnique-append_one, Bool-cases, arith,
}
use aicybersec.Common.Text.{Text, text_eq}
use aicybersec.Common.Text.Laws.{text_eq_iff, text_eq_refl}
use aicybersec.Persistence.{AssetType, host, subdomain, domain, service, url, endpoint, Asset}
use aicybersec.Persistence.Observed.{Derived}
use aicybersec.Persistence.Store.{
  type_rank, is_identity, find_id, NewRow, rows_of, Owner, is_known, add_asset, add_assets,
}

-- The columns of the unique index `uq_assets_scan_identity`.
abbrev pub Identity : Type 0
Identity = ℕ × AssetType × Text

abbrev pub identity : Asset → Identity
identity row = (row.scan_id, row.asset_type, row.value)

abbrev pub identities : List Asset → List Identity
identities [] = []
identities (row ∷ rows) = identity row ∷ identities rows

-- No two rows have one identity, as the unique index demands.
abbrev pub IsIndexed : List Asset → Type 0
IsIndexed rows = IsUnique (identities rows)

of_rank : ℕ → AssetType
of_rank zero = host
of_rank (suc zero) = subdomain
of_rank (suc (suc zero)) = domain
of_rank (suc (suc (suc zero))) = service
of_rank (suc (suc (suc (suc zero)))) = url
of_rank _ = endpoint

of_rank-type_rank : (t : AssetType) → of_rank (type_rank t) ≡ t
unfolding of_rank
of_rank-type_rank host = refl
of_rank-type_rank subdomain = refl
of_rank-type_rank domain = refl
of_rank-type_rank service = refl
of_rank-type_rank url = refl
of_rank-type_rank endpoint = refl

type_rank-injective : (s t : AssetType) → type_rank s ≡ type_rank t → s ≡ t
type_rank-injective s t h = sym (of_rank-type_rank s) ∙ ap of_rank h ∙ of_rank-type_rank t

is_identity_iff :
    (scan_id : ℕ) (t : AssetType) (value : Text) (row : Asset)
    → (is_identity scan_id t value row ≡ true) ↔ ((scan_id, t, value) ≡ identity row)
is_identity_iff scan_id t value row = (
  λ h.
      let a : row.scan_id ≡ scan_id = ground arith in
      let b : type_rank row.asset_type ≡ type_rank t = ground arith in
      let c : text_eq row.value value ≡ true = ground arith in
      cc (a, type_rank-injective row.asset_type t b, (text_eq_iff row.value value).0 c),
  λ h.
      let a : scan_id ≡ row.scan_id = ap (λ (x : Identity). x.0) h in
      let b : t ≡ row.asset_type = ap (λ (x : Identity). x.1) h in
      let c : value ≡ row.value = ap (λ (x : Identity). x.2) h in
      rw (a, b, c, text_eq_refl row.value) (ground arith),
)

pub identities-append :
    (xs ys : List Asset) → identities (xs ++ ys) ≡ identities xs ++ identities ys
identities-append [] ys = refl
identities-append (x ∷ xs) ys = ap (λ r. identity x ∷ r) (identities-append xs ys)

-- A row that is found has the identity.
pub find_id-eq-some :
    (scan_id : ℕ) (t : AssetType) (value : Text) (rows : List Asset) (id : ℕ)
    → find_id scan_id t value rows ≡ some id
    → (row : Asset) × IsIn row rows × (row.id ≡ id) × ((scan_id, t, value) ≡ identity row)
unfolding find_id
find_id-eq-some scan_id t value [] id h = cc
find_id-eq-some scan_id t value (row ∷ rows) id h =
    elim (Bool-cases (is_identity scan_id t value row)) [
      | inl e ↦ (row, inl refl, cc (rw e at h), (is_identity_iff scan_id t value row).0 e)
      | inr e ↦
          let (r, m, i, k) = find_id-eq-some scan_id t value rows id (rw e at h) in (r, inr m, i, k)
    ]

-- An identity is found exactly where a row has it.
pub is_some-find_id_iff :
    (scan_id : ℕ) (t : AssetType) (value : Text) (rows : List Asset)
    → (is_some (find_id scan_id t value rows) ≡ true) ↔ IsIn (scan_id, t, value) (identities rows)
unfolding find_id
is_some-find_id_iff scan_id t value [] = (λ h. cc, λ h. absurd h)
is_some-find_id_iff scan_id t value (row ∷ rows) =
    elim (Bool-cases (is_identity scan_id t value row)) [
      | inl e ↦ rw e (λ h. inl ((is_identity_iff scan_id t value row).0 e), λ h. refl)
      | inr e ↦ rw e (
        λ h. inr ((is_some-find_id_iff scan_id t value rows).0 h),
        λ h. elim h [
          | inl k ↦ absurd (let q = (is_identity_iff scan_id t value row).1 k in cc)
          | inr m ↦ (is_some-find_id_iff scan_id t value rows).1 m
        ],
      )
    ]

-- Adding one asset dict keeps the identities unique, and only appends.
pub identities-snoc :
    (old : List Asset) (new : List NewRow) (n : NewRow)
    → identities (old ++ rows_of (new ++ n ∷ []))
      ≡ identities (old ++ rows_of new) ++ identity n.row ∷ []
identities-snoc [] [] n = refl
identities-snoc [] (m ∷ new) n = ap (λ r. identity m.row ∷ r) (identities-snoc [] new n)
identities-snoc (o ∷ old) new n = ap (λ r. identity o ∷ r) (identities-snoc old new n)

add_asset-IsIndexed :
    (new_id : List Asset → ℕ) (scan : Owner) (old : List Asset) (new : List NewRow) (d : Derived)
    → IsIndexed (old ++ rows_of new)
    → IsIndexed (old ++ rows_of (add_asset new_id scan old new d))
unfolding add_asset
add_asset-IsIndexed new_id scan old new d u =
    elim (Bool-cases (is_known scan d (old ++ rows_of new))) [
      | inl e ↦ rw e u
      | inr e ↦ rw e (
          rw (identities-snoc old new _) (
            IsUnique-append_one (identities (old ++ rows_of new)) _ u (λ m.
              let q = (is_some-find_id_iff scan.scan_id d.asset_type _ (old ++ rows_of new)).1 m in
              cc)))
    ]

pub add_assets-IsIndexed :
    (new_id : List Asset → ℕ) (scan : Owner) (old : List Asset) (new : List NewRow)
    (ds : List Derived)
    → IsIndexed (old ++ rows_of new)
    → IsIndexed (old ++ rows_of (add_assets new_id scan old new ds))
unfolding add_assets
add_assets-IsIndexed new_id scan old new [] u = u
add_assets-IsIndexed new_id scan old new (d ∷ ds) u =
    add_assets-IsIndexed new_id scan old (add_asset new_id scan old new d) ds
      (add_asset-IsIndexed new_id scan old new d u)
