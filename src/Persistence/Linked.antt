-- ===== src/Persistence/Linked.antt =====
-- What `link_findings_to_assets` does to the findings.
use aicybersec.Common.{ℕ, suc, ◌≡◌, ◌≢◌, ◌⊎◌, none, some, List, [], ◌∷◌}
use aicybersec.Persistence.{Asset}
use aicybersec.Persistence.Findings.{FindingRow, row_candidates}
use aicybersec.Persistence.Resolved.{IsTarget, HasNoTarget}

-- What the backfill does to the rows, where it may look at a number of findings of the scan without an
-- asset; the last number counts the links.
pub data AreLinked (scan_id : ℕ) (assets : List Asset)
    : ℕ → List FindingRow → List FindingRow → ℕ → Type 0 where
  ends : (left : ℕ) → AreLinked scan_id assets left [] [] 0
  spent : (rows : List FindingRow) → AreLinked scan_id assets 0 rows rows 0
  skips :
      {left : ℕ} {row : FindingRow} {old new : List FindingRow} {n : ℕ}
      → (row.scan_id ≢ scan_id) ⊎ (row.asset_id ≢ none)
      → AreLinked scan_id assets left old new n
      → AreLinked scan_id assets left (row ∷ old) (row ∷ new) n
  misses :
      {left : ℕ} {row : FindingRow} {old new : List FindingRow} {n : ℕ}
      → row.scan_id ≡ scan_id
      → row.asset_id ≡ none
      → HasNoTarget scan_id assets (row_candidates row)
      → AreLinked scan_id assets left old new n
      → AreLinked scan_id assets (suc left) (row ∷ old) (row ∷ new) n
  links :
      {left : ℕ} {row : FindingRow} {old new : List FindingRow} {n : ℕ} (id : ℕ)
      → row.scan_id ≡ scan_id
      → row.asset_id ≡ none
      → IsTarget scan_id assets (row_candidates row) id
      → AreLinked scan_id assets left old new n
      → AreLinked scan_id assets
          (suc left)
          (row ∷ old)
          (record row { asset_id = some id } ∷ new)
          (suc n)
