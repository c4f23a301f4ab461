-- ===== src/Persistence/Hits.antt =====
-- Which assets a candidate of a finding hits, by value and by host.
use aicybersec.Common.{
  ℕ, ◌≡◌, refl, sym, ap, ◌⊎◌, inl, inr, Bool, true, ◌&&◌, Option, none, some, List, [], ◌∷◌, take,
  All, IsIn, Bool-cases, ◌==◌, arith,
}
use mathlib.Core.Path.{subst}
use aicybersec.Common.Text.{Text, text_eq}
use aicybersec.Common.Text.Laws.{text_eq_iff, text_eq_refl}
use aicybersec.Persistence.{Asset}
use aicybersec.Persistence.Matching.{has_value, by_value, is_host, by_host}

-- An asset of the scan whose value is the candidate.
abbrev pub IsValue : ℕ → Text → Asset → Type 0
IsValue scan_id c row = (row.scan_id ≡ scan_id) × (row.value ≡ take 500 c)

-- An asset of the scan with the host.
abbrev pub IsAt : ℕ → Text → Asset → Type 0
IsAt scan_id h row = (row.scan_id ≡ scan_id) × (row.host ≡ some h)

has_value_lem :
    (scan_id : ℕ) (c : Text) (row : Asset) → has_value scan_id c row ≡ true → IsValue scan_id c row
has_value_lem scan_id c row h =
    let t : text_eq row.value (take 500 c) ≡ true = ground arith in
    (ground arith, (text_eq_iff row.value (take 500 c)).0 t)

has_value_of :
    (scan_id : ℕ) (c : Text) (row : Asset) → IsValue scan_id c row → has_value scan_id c row ≡ true
has_value_of scan_id c row (s, v) =
    let t : text_eq row.value (take 500 c) ≡ true = (text_eq_iff row.value (take 500 c)).1 v in
    ground arith

pub by_value-eq-some :
    (scan_id : ℕ) (c : Text) (rows : List Asset) (id : ℕ)
    → by_value scan_id c rows ≡ some id
    → (row : Asset) × IsIn row rows × (row.id ≡ id) × IsValue scan_id c row
unfolding by_value
by_value-eq-some scan_id c [] id h = cc
by_value-eq-some scan_id c (row ∷ rows) id h = elim (Bool-cases (has_value scan_id c row)) [
  | inl e ↦ (row, inl refl, cc (rw e at h), has_value_lem scan_id c row e)
  | inr e ↦ let (r, m, i, v) = by_value-eq-some scan_id c rows id (rw e at h) in (r, inr m, i, v)
]

pub by_value-eq-none :
    (scan_id : ℕ) (c : Text) (rows : List Asset)
    → by_value scan_id c rows ≡ none
    → All (λ row. ¬ IsValue scan_id c row) rows
unfolding by_value
by_value-eq-none scan_id c [] h = tt
by_value-eq-none scan_id c (row ∷ rows) h = elim (Bool-cases (has_value scan_id c row)) [
  | inl e ↦ absurd (let q = rw e at h in cc)
  | inr e ↦ (
    λ v. absurd (let q = has_value_of scan_id c row v in cc),
    by_value-eq-none scan_id c rows (rw e at h),
  )
]

at_host : ℕ → Text → Asset → Bool
at_host scan_id h row = row.scan_id == scan_id && is_host row.host h

is_host_lem : (o : Option Text) (h : Text) → is_host o h ≡ true → o ≡ some h
is_host_lem none h e = cc
is_host_lem (some g) h e = ap some ((text_eq_iff g h).0 e)

is_host_of : (o : Option Text) (h : Text) → o ≡ some h → is_host o h ≡ true
is_host_of o h e = rw (e, text_eq_refl h) refl

-- The hosts that are found, from none at all on.
by_host-eq-nil :
    (scan_id : ℕ) (h : Text) (rows : List Asset)
    → by_host scan_id h rows ≡ []
    → All (λ row. ¬ IsAt scan_id h row) rows
unfolding by_host
by_host-eq-nil scan_id h [] e = tt
by_host-eq-nil scan_id h (row ∷ rows) e =
    elim (Bool-cases (row.scan_id == scan_id && is_host row.host h)) [
      | inl t ↦ absurd (let q = rw t at e in cc)
      | inr t ↦ (
        λ (s, o). absurd (
            let q = is_host_of row.host h o in
            let p : (row.scan_id == scan_id && is_host row.host h) ≡ true = ground arith in cc),
        by_host-eq-nil scan_id h rows (rw t at e),
      )
    ]

-- The asset is the only one of the rows with the host.
abbrev pub IsOnly : ℕ → Text → List Asset → Asset → Type 0
IsOnly scan_id h rows row =
    IsIn row rows × IsAt scan_id h row × All (λ r. (r ≡ row) ⊎ ¬ IsAt scan_id h r) rows

All-absent :
    (P : Asset → Type 0) (row : Asset) (rows : List Asset)
    → All (λ r. ¬ P r) rows
    → All (λ r. (r ≡ row) ⊎ ¬ P r) rows
All-absent P row [] h = tt
All-absent P row (r ∷ rows) (a, h) = (inr a, All-absent P row rows h)

head_or : Asset → List Asset → Asset
head_or d [] = d
head_or d (r ∷ rs) = r

tail_of : List Asset → List Asset
tail_of [] = []
tail_of (r ∷ rs) = rs

pub by_host-IsOnly :
    (scan_id : ℕ) (h : Text) (rows : List Asset) (row : Asset)
    → by_host scan_id h rows ≡ row ∷ []
    → IsOnly scan_id h rows row
unfolding by_host head_or tail_of
by_host-IsOnly scan_id h [] row e = cc
by_host-IsOnly scan_id h (r ∷ rows) row e =
    elim (Bool-cases (r.scan_id == scan_id && is_host r.host h)) [
      | inl t ↦
          let f = rw t at e in
          let same : r ≡ row = ap (head_or r) f in
          let host : r.host ≡ some h = is_host_lem r.host h (ground arith) in
          let scan : r.scan_id ≡ scan_id = ground arith in
          let others = by_host-eq-nil scan_id h rows (ap tail_of f) in
          (
            inl (sym same),
            subst (IsAt scan_id h) same (scan, host),
            (inl same, All-absent (IsAt scan_id h) row rows others),
          )
      | inr t ↦
          let (m, a, u) = by_host-IsOnly scan_id h rows row (rw t at e) in
          (
            inr m,
            a,
            (
              inr (λ (s, o). absurd (
                  let q = is_host_of r.host h o in
                  let p : (r.scan_id == scan_id && is_host r.host h) ≡ true = ground arith in cc)),
              u,
            ),
          )
    ]
