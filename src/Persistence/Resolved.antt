-- ===== src/Persistence/Resolved.antt =====
-- What the asset of a finding is, and when there is none.
use aicybersec.Common.{
  ℕ, ◌≡◌, ◌≢◌, refl, sym, ◌∙◌, ◌⊎◌, inl, inr, true, Option, none, some, List, [], ◌∷◌, All, IsIn,
  Bool-cases,
}
use aicybersec.Common.Text.{Text, is_empty, strip}
use aicybersec.Persistence.{Asset}
use aicybersec.Persistence.Matching.{
  candidate_host, by_value, by_host, only_one, unique_host, or_id, any_value, any_host, not_blank,
  resolve_finding_asset_id,
}
use aicybersec.Persistence.Hits.{
  IsValue, IsOnly, by_value-eq-some, by_value-eq-none, by_host-IsOnly,
}
use aicybersec.Persistence.Hosts.{
  IsHostOf, IsSole, filled, not_empty, candidate_host-IsHostOf, IsHostOf-candidate_host,
  IsSole-by_host,
}

-- The identifier is of an asset of the scan whose value is the candidate.
abbrev pub IsValueHit : ℕ → List Asset → ℕ → Text → Type 0
IsValueHit scan_id rows id c = (row : Asset) × IsIn row rows × (row.id ≡ id) × IsValue scan_id c row

-- The identifier is of the one asset of the scan that has the candidate's host.
abbrev pub IsHostHit : ℕ → List Asset → ℕ → Text → Type 0
IsHostHit scan_id rows id c =
    (h : Text) × (row : Asset) × IsHostOf c h × (h ≢ []) × (row.id ≡ id) × IsOnly scan_id h rows row

-- No host of the candidate is that of exactly one asset of the scan.
abbrev pub HasNoHost : ℕ → List Asset → Text → Type 0
HasNoHost scan_id rows c =
    ¬ ((h : Text) × (row : Asset) × IsHostOf c h × (h ≢ []) × IsSole scan_id h rows row)

-- No asset of the scan has the candidate as its value.
abbrev pub HasNoValue : ℕ → List Asset → Text → Type 0
HasNoValue scan_id rows c = All (λ row. ¬ IsValue scan_id c row) rows

or_id-eq-some :
    (a b : Option ℕ) (i : ℕ) → or_id a b ≡ some i → (a ≡ some i) ⊎ ((a ≡ none) × (b ≡ some i))
or_id-eq-some none b i h = inr (refl, h)
or_id-eq-some (some j) b i h = inl h

or_id-eq-none : (a b : Option ℕ) → or_id a b ≡ none → (a ≡ none) × (b ≡ none)
or_id-eq-none none b h = (refl, h)
or_id-eq-none (some j) b h = cc

any_value-eq-some :
    (scan_id : ℕ) (rows : List Asset) (cs : List Text) (id : ℕ)
    → any_value scan_id rows cs ≡ some id
    → (c : Text) × IsIn c cs × IsValueHit scan_id rows id c
unfolding any_value
any_value-eq-some scan_id rows [] id h = cc
any_value-eq-some scan_id rows (c ∷ cs) id h =
    elim (or_id-eq-some (by_value scan_id c rows) _ id h) [
      | inl e ↦ (c, inl refl, by_value-eq-some scan_id c rows id e)
      | inr (n, e) ↦ let (d, m, v) = any_value-eq-some scan_id rows cs id e in (d, inr m, v)
    ]

any_value-eq-none :
    (scan_id : ℕ) (rows : List Asset) (cs : List Text)
    → any_value scan_id rows cs ≡ none
    → All (HasNoValue scan_id rows) cs
unfolding any_value
any_value-eq-none scan_id rows [] h = tt
any_value-eq-none scan_id rows (c ∷ cs) h =
    let (a, b) = or_id-eq-none (by_value scan_id c rows) (any_value scan_id rows cs) h in
    (by_value-eq-none scan_id c rows a, any_value-eq-none scan_id rows cs b)

only_one-eq-some :
    (found : List Asset) (id : ℕ)
    → only_one found ≡ some id
    → (row : Asset) × (found ≡ row ∷ []) × (row.id ≡ id)
only_one-eq-some [] id h = cc
only_one-eq-some (row ∷ []) id h = (row, refl, cc h)
only_one-eq-some (row ∷ r ∷ rs) id h = cc

unique_host-IsHostHit :
    (scan_id : ℕ) (rows : List Asset) (id : ℕ) (c : Text) (o : Option Text)
    → candidate_host c ≡ o
    → unique_host scan_id rows o ≡ some id
    → IsHostHit scan_id rows id c
unique_host-IsHostHit scan_id rows id c none e h = cc
unique_host-IsHostHit scan_id rows id c (some x) e h = elim (Bool-cases (is_empty x)) [
  | inl t ↦ absurd (let q = rw t at h in cc)
  | inr t ↦
      let (row, one, i) = only_one-eq-some (by_host scan_id x rows) id (rw t at h) in
      (x, row, candidate_host-IsHostOf c x e, filled x t, i, by_host-IsOnly scan_id x rows row one)
]

unique_host-HasNoHost :
    (scan_id : ℕ) (rows : List Asset) (c : Text)
    → unique_host scan_id rows (candidate_host c) ≡ none
    → HasNoHost scan_id rows c
unique_host-HasNoHost scan_id rows c n (h, row, q, f, sole) =
    let hit : unique_host scan_id rows (candidate_host c) ≡ some row.id =
      rw (IsHostOf-candidate_host c h q, not_empty h f, IsSole-by_host scan_id h rows row sole)
        refl in
    absurd (let r = sym n ∙ hit in cc)

any_host-eq-none :
    (scan_id : ℕ) (rows : List Asset) (cs : List Text)
    → any_host scan_id rows cs ≡ none
    → All (HasNoHost scan_id rows) cs
unfolding any_host
any_host-eq-none scan_id rows [] h = tt
any_host-eq-none scan_id rows (c ∷ cs) h =
    let (a, b) =
      or_id-eq-none (unique_host scan_id rows (candidate_host c)) (any_host scan_id rows cs) h in
    (unique_host-HasNoHost scan_id rows c a, any_host-eq-none scan_id rows cs b)

any_host-eq-some :
    (scan_id : ℕ) (rows : List Asset) (cs : List Text) (id : ℕ)
    → any_host scan_id rows cs ≡ some id
    → (c : Text) × IsIn c cs × IsHostHit scan_id rows id c
unfolding any_host
any_host-eq-some scan_id rows [] id h = cc
any_host-eq-some scan_id rows (c ∷ cs) id h =
    elim (or_id-eq-some (unique_host scan_id rows (candidate_host c)) _ id h) [
      | inl e ↦ (c, inl refl, unique_host-IsHostHit scan_id rows id c (candidate_host c) refl e)
      | inr (n, e) ↦ let (d, m, v) = any_host-eq-some scan_id rows cs id e in (d, inr m, v)
    ]

-- A candidate that is used.
abbrev pub IsUsed : List Text → Text → Type 0
IsUsed candidates c = IsIn c candidates × (strip c ≢ [])

not_blank-IsUsed : (cs : List Text) (c : Text) → IsIn c (not_blank cs) → IsUsed cs c
unfolding not_blank
not_blank-IsUsed [] c m = absurd m
not_blank-IsUsed (d ∷ cs) c m = elim (Bool-cases (is_empty (strip d))) [
  | inl e ↦ let (i, f) = not_blank-IsUsed cs c (rw e at m) in (inr i, f)
  | inr e ↦
      let kept : (c ≡ d) ⊎ IsIn c (not_blank cs) = rw e at m in
      elim kept [
        | inl q ↦ (inl q, rw q (filled (strip d) e))
        | inr k ↦ let (i, f) = not_blank-IsUsed cs c k in (inr i, f)
      ]
]

not_blank-All :
    (P : Text → Type 0) (cs : List Text) → All P (not_blank cs) → All (λ c. (strip c ≡ []) ⊎ P c) cs
unfolding not_blank
not_blank-All P [] h = tt
not_blank-All P (c ∷ cs) h = elim (Bool-cases (is_empty (strip c))) [
  | inl e ↦ (inl (empty_lem (strip c) e), not_blank-All P cs (rw e at h))
  | inr e ↦
      let kept : P c × All P (not_blank cs) = rw e at h in (inr kept.0, not_blank-All P cs kept.1)
]
  where
    empty_lem : (t : Text) → is_empty t ≡ true → t ≡ []
    empty_lem [] e = refl
    empty_lem (d ∷ ds) e = cc

-- The asset has the value of a candidate, or no asset has that of any, and it is the only one of the
-- scan with the host of a candidate. Blank candidates are not used.
abbrev pub IsTarget : ℕ → List Asset → List Text → ℕ → Type 0
IsTarget scan_id rows candidates id =
    ((c : Text) × IsUsed candidates c × IsValueHit scan_id rows id c)
    ⊎ (All (λ c. (strip c ≡ []) ⊎ HasNoValue scan_id rows c) candidates
        × ((c : Text) × IsUsed candidates c × IsHostHit scan_id rows id c))

-- No candidate leads to an asset, by value or by host.
abbrev pub HasNoTarget : ℕ → List Asset → List Text → Type 0
HasNoTarget scan_id rows candidates =
    All (λ c. (strip c ≡ []) ⊎ HasNoValue scan_id rows c) candidates
    × All (λ c. (strip c ≡ []) ⊎ HasNoHost scan_id rows c) candidates

pub resolve_finding_asset_id-IsTarget :
    (scan_id : ℕ) (rows : List Asset) (candidates : List Text) (id : ℕ)
    → resolve_finding_asset_id scan_id rows candidates ≡ some id
    → IsTarget scan_id rows candidates id
unfolding resolve_finding_asset_id
resolve_finding_asset_id-IsTarget scan_id rows candidates id h =
    elim (or_id-eq-some (any_value scan_id rows (not_blank candidates)) _ id h) [
      | inl e ↦
          let (c, m, v) = any_value-eq-some scan_id rows (not_blank candidates) id e in
          inl (c, not_blank-IsUsed candidates c m, v)
      | inr (n, e) ↦
          let (c, m, v) = any_host-eq-some scan_id rows (not_blank candidates) id e in
          inr (
            not_blank-All (HasNoValue scan_id rows) candidates
                (any_value-eq-none scan_id rows (not_blank candidates) n),
            (c, not_blank-IsUsed candidates c m, v),
          )
    ]

pub resolve_finding_asset_id-HasNoTarget :
    (scan_id : ℕ) (rows : List Asset) (candidates : List Text)
    → resolve_finding_asset_id scan_id rows candidates ≡ none
    → HasNoTarget scan_id rows candidates
unfolding resolve_finding_asset_id
resolve_finding_asset_id-HasNoTarget scan_id rows candidates h =
    let (a, b) =
      or_id-eq-none (any_value scan_id rows (not_blank candidates))
        (any_host scan_id rows (not_blank candidates)) h in
    (
      not_blank-All (HasNoValue scan_id rows) candidates
          (any_value-eq-none scan_id rows (not_blank candidates) a),
      not_blank-All (HasNoHost scan_id rows) candidates
          (any_host-eq-none scan_id rows (not_blank candidates) b),
    )
