-- ===== src/Persistence/Matching.antt =====
-- The asset of a finding, and the backfill of links: `resolve_finding_asset_id`, `link_findings_to_assets`.
use aicybersec.Common.{
  ℕ, zero, suc, Bool, true, false, not, ◌&&◌, ◌||◌, Option, none, some, is_some, List, [], ◌∷◌,
  take, Result, ok, err, Exn, if◌then◌else◌, ◌==◌,
}
use aicybersec.Common.Text.{Text, codes, text_eq, is_empty, strip, lower, has, has_text}
use aicybersec.Persistence.{Asset}
use aicybersec.Persistence.Builders.{Parsed, urlparse}
use aicybersec.Persistence.Findings.{FindingRow, row_candidates}

abbrev pub lower_host : Result Exn Parsed → Option Text
lower_host (err e) = none
lower_host (ok p) = elim p.hostname [ none ↦ none | some h ↦ some (lower h) ]

-- `_candidate_host`
unfoldable pub candidate_host : Text → Option Text
candidate_host candidate =
    let t = strip candidate in
    if is_empty t || has b' ' t
    then none
    else if has_text (codes "://") t
    then lower_host (urlparse t)
    else some (lower t)

abbrev pub has_value : ℕ → Text → Asset → Bool
has_value scan_id candidate row = row.scan_id == scan_id && text_eq row.value (take 500 candidate)

-- The first row in the order of the table, which the query does not fix.
unfoldable pub by_value : ℕ → Text → List Asset → Option ℕ
by_value scan_id candidate [] = none
by_value scan_id candidate (row ∷ rows) =
    let rest = by_value scan_id candidate rows in
    if has_value scan_id candidate row then some row.id else rest

abbrev pub is_host : Option Text → Text → Bool
is_host none h = false
is_host (some g) h = text_eq g h

unfoldable pub by_host : ℕ → Text → List Asset → List Asset
by_host scan_id h [] = []
by_host scan_id h (row ∷ rows) =
    let rest = by_host scan_id h rows in
    if row.scan_id == scan_id && is_host row.host h then row ∷ rest else rest

abbrev pub only_one : List Asset → Option ℕ
only_one (row ∷ []) = some row.id
only_one _ = none

abbrev pub unique_host : ℕ → List Asset → Option Text → Option ℕ
unique_host scan_id rows none = none
unique_host scan_id rows (some h) = if is_empty h then none else only_one (by_host scan_id h rows)

abbrev pub or_id : Option ℕ → Option ℕ → Option ℕ
or_id none b = b
or_id (some i) b = some i

unfoldable pub any_value : ℕ → List Asset → List Text → Option ℕ
any_value scan_id rows [] = none
any_value scan_id rows (c ∷ cs) = or_id (by_value scan_id c rows) (any_value scan_id rows cs)

unfoldable pub any_host : ℕ → List Asset → List Text → Option ℕ
any_host scan_id rows [] = none
any_host scan_id rows (c ∷ cs) =
    or_id (unique_host scan_id rows (candidate_host c)) (any_host scan_id rows cs)

unfoldable pub not_blank : List Text → List Text
not_blank [] = []
not_blank (c ∷ cs) = let rest = not_blank cs in if is_empty (strip c) then rest else c ∷ rest

-- `resolve_finding_asset_id`
unfoldable pub resolve_finding_asset_id : ℕ → List Asset → List Text → Option ℕ
resolve_finding_asset_id scan_id rows candidates =
    let cleaned = not_blank candidates in
    or_id (any_value scan_id rows cleaned) (any_host scan_id rows cleaned)

unfoldable pub is_unlinked : ℕ → FindingRow → Bool
is_unlinked scan_id row = row.scan_id == scan_id && not (is_some row.asset_id)

abbrev pub set_asset : FindingRow → Option ℕ → FindingRow × Bool
set_asset row none = (row, false)
set_asset row (some id) = (record row { asset_id = some id }, true)

abbrev pub link_one : ℕ → List Asset → FindingRow → FindingRow × Bool
link_one scan_id assets row =
    set_asset row (resolve_finding_asset_id scan_id assets (row_candidates row))

abbrev pub add_row : FindingRow × Bool → List FindingRow × ℕ → List FindingRow × ℕ
add_row (row, false) (rows, linked) = (row ∷ rows, linked)
add_row (row, true) (rows, linked) = (row ∷ rows, suc linked)

-- The rows after the loop, and the count of the linked ones; the number bounds the query.
unfoldable pub link_rows : ℕ → ℕ → List Asset → List FindingRow → List FindingRow × ℕ
link_rows n scan_id assets [] = ([], 0)
link_rows zero scan_id assets (row ∷ rows) = (row ∷ rows, 0)
link_rows (suc n) scan_id assets (row ∷ rows) = elim (is_unlinked scan_id row) [
  | false ↦ add_row (row, false) (link_rows (suc n) scan_id assets rows)
  | true ↦ add_row (link_one scan_id assets row) (link_rows n scan_id assets rows)
]

-- `link_findings_to_assets`
unfoldable pub link_findings_to_assets : ℕ → List Asset → List FindingRow → List FindingRow × ℕ
link_findings_to_assets scan_id assets rows = link_rows 2000 scan_id assets rows
