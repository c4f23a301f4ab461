-- ===== src/Persistence/Links.antt =====
-- The loop over the pending links: it changes parents alone, and to rows of the scan.
use aicybersec.Common.{
  ℕ, suc, ◌≡◌, ◌≢◌, refl, sym, ap, ◌∙◌, ◌⊎◌, inl, inr, true, Option, none, some, List, [], ◌∷◌,
  ◌++◌, length, All, IsIn, IsIn-append_left, IsIn-append_right, IsIn-append, Bool-cases,
  Option-cases, ==_iff, ◌==◌,
}
use aicybersec.Common.Text.{Text}
use aicybersec.Persistence.{AssetType, Asset}
use aicybersec.Persistence.Store.{
  find_id, NewRow, rows_of, Owner, set_parent, link_row, link_parents, with_links,
}
use aicybersec.Persistence.Stored.{
  Identity, identity, identities, identities-append, find_id-eq-some,
}
use aicybersec.Persistence.Adds.{IsOwned}

-- Linking changes the parents alone.
pub link_row-keeps :
    (scan_id : ℕ) (rows : List Asset) (row : Asset) (hint : Option (AssetType × Text))
    → link_row scan_id rows row hint
      ≡ record row { parent_asset_id = (link_row scan_id rows row hint).parent_asset_id }
link_row-keeps scan_id rows row none = refl
link_row-keeps scan_id rows row (some (t, v)) = go (find_id scan_id t v rows)
  where
    go :
        (o : Option ℕ)
        → set_parent row o ≡ record row { parent_asset_id = (set_parent row o).parent_asset_id }
    go none = refl
    go (some i) = elim (Bool-cases (i == row.id)) [ inl e ↦ rw e refl | inr e ↦ rw e refl ]

identities-link_parents :
    (scan_id : ℕ) (rows : List Asset) (ns : List NewRow)
    → identities (link_parents scan_id rows ns) ≡ identities (rows_of ns)
unfolding link_parents
identities-link_parents scan_id rows [] = refl
identities-link_parents scan_id rows (n ∷ ns) =
    let q = ap identity (link_row-keeps scan_id rows n.row n.parent) in
    cc (q, identities-link_parents scan_id rows ns)

-- The parent of a row is missing, or another row of the scan.
abbrev pub IsLinked : ℕ → List Asset → Asset → Type 0
IsLinked scan_id rows row =
    (row.parent_asset_id ≡ none)
    ⊎ ((parent : Asset) × IsIn parent rows
        × (parent.scan_id ≡ scan_id)
        × (row.parent_asset_id ≡ some parent.id)
        × (parent.id ≢ row.id))

link_row-IsLinked :
    (scan_id : ℕ) (rows : List Asset) (row : Asset) (hint : Option (AssetType × Text))
    → row.parent_asset_id ≡ none
    → IsLinked scan_id rows (link_row scan_id rows row hint)
link_row-IsLinked scan_id rows row none h = inl h
link_row-IsLinked scan_id rows row (some (t, v)) h =
    elim (Option-cases (find_id scan_id t v rows)) [
      | inl e ↦ rw e (inl h)
      | inr (i, e) ↦
          let (r, m, j, k) = find_id-eq-some scan_id t v rows i e in
          rw e (elim (Bool-cases (i == row.id)) [
            | inl same ↦ rw same (inl h)
            | inr other ↦ rw other (
                inr (
                  r,
                  m,
                  sym (ap (λ (x : Identity). x.0) k),
                  ap some (sym j),
                  λ q. absurd (
                      let p : i ≡ row.id = sym j ∙ q in
                      let b : (i == row.id) ≡ true = (==_iff i row.id).1 p in cc),
                ))
          ])
    ]

-- A row before the linking is there after it, with its identifier and its scan.
linked_row :
    (scan_id : ℕ) (rows : List Asset) (ns : List NewRow) (r : Asset)
    → IsIn r (rows_of ns)
    → (new : Asset) × IsIn new (link_parents scan_id rows ns)
      × (new.id ≡ r.id)
      × (new.scan_id ≡ r.scan_id)
unfolding link_parents
linked_row scan_id rows [] r m = absurd m
linked_row scan_id rows (n ∷ ns) r (inl e) =
    let q = link_row-keeps scan_id rows n.row n.parent in
    (
      link_row scan_id rows n.row n.parent,
      inl refl,
      ap (λ (x : Asset). x.id) q ∙ sym (ap (λ (x : Asset). x.id) e),
      ap (λ (x : Asset). x.scan_id) q ∙ sym (ap (λ (x : Asset). x.scan_id) e),
    )
linked_row scan_id rows (n ∷ ns) r (inr m) =
    let (x, i, a, b) = linked_row scan_id rows ns r m in (x, inr i, a, b)

pub IsLinked-after :
    (scan_id : ℕ) (old : List Asset) (ns : List NewRow) (row : Asset)
    → IsLinked scan_id (old ++ rows_of ns) row
    → IsLinked scan_id (old ++ link_parents scan_id (old ++ rows_of ns) ns) row
IsLinked-after scan_id old ns row (inl e) = inl e
IsLinked-after scan_id old ns row (inr (p, m, s, e, o)) = elim (IsIn-append p old (rows_of ns) m) [
  | inl l ↦ inr (p, IsIn-append_left p old _ l, s, e, o)
  | inr r ↦
      let (x, i, a, b) = linked_row scan_id (old ++ rows_of ns) ns p r in
      inr (x, IsIn-append_right x old _ i, b ∙ s, e ∙ ap some (sym a), λ q. o (sym a ∙ q))
]

-- What every row of the run satisfies after the linking.
abbrev pub IsNewRow : ℕ → List Asset → Asset → Type 0
IsNewRow scan_id out row = (row.scan_id ≡ scan_id) × IsLinked scan_id out row

pub link_parents-IsNewRow :
    (scan : Owner) (rows out : List Asset) (ns : List NewRow)
    → ((row : Asset) → IsLinked scan.scan_id rows row → IsLinked scan.scan_id out row)
    → All (IsOwned scan) ns
    → All (IsNewRow scan.scan_id out) (link_parents scan.scan_id rows ns)
      × (length (link_parents scan.scan_id rows ns) ≡ length ns)
unfolding link_parents
link_parents-IsNewRow scan rows out [] f h = (tt, refl)
link_parents-IsNewRow scan rows out (n ∷ ns) f ((s, p), h) =
    let (t, l) = link_parents-IsNewRow scan rows out ns f h in
    let q = ap (λ (x : Asset). x.scan_id) (link_row-keeps scan.scan_id rows n.row n.parent) in
    (
      (
        (
          (q ∙ s),
          f (link_row scan.scan_id rows n.row n.parent)
              (link_row-IsLinked scan.scan_id rows n.row n.parent p),
        ),
        t,
      ),
      ap suc l,
    )

pub identities_after :
    (scan_id : ℕ) (old : List Asset) (ns : List NewRow)
    → identities (with_links scan_id old ns).0 ≡ identities (old ++ rows_of ns)
identities_after scan_id old ns =
    let a = identities-append old (link_parents scan_id (old ++ rows_of ns) ns) in
    let b = identities-append old (rows_of ns) in
    cc (a, b, identities-link_parents scan_id (old ++ rows_of ns) ns)
