-- ===== src/Persistence/Insert.antt =====
-- `persist_finding`: the new row, and the unique index.
use aicybersec.Common.{
  ℕ, Bool, false, ◌&&◌, ◌||◌, Option, none, some, or_else, List, [], ◌∷◌, take, if◌then◌else◌, ◌==◌,
}
use aicybersec.Common.Text.{Text, codes, text_eq}
use aicybersec.Safety.Results.{Severity}
use aicybersec.Persistence.{Asset}
use aicybersec.Persistence.Builders.{nonempty_text, take_each}
use aicybersec.Persistence.Json.{string, Dict, no_entries, entry, without_key, cap_dict}
use aicybersec.Persistence.Findings.{
  dict, not_dict, open_finding, Evidence, LiveFinding, FindingRow, first_of, finding_extra,
  finding_fingerprint, live_candidates,
}
use aicybersec.Persistence.Matching.{resolve_finding_asset_id}

abbrev pub evidence_dict : Evidence → Dict
evidence_dict (dict d) = d
evidence_dict (not_dict s) = entry (codes "evidence") (string (take 8192 s)) no_entries

abbrev pub with_confidence : Option Text → Dict → Dict
with_confidence none d = d
with_confidence (some c) d =
    entry (codes "tool_confidence") (string c) (without_key (codes "tool_confidence") d)

-- The row that `persist_finding` adds to the session.
unfoldable pub finding_row : (Text → Text) → ℕ → ℕ → List Asset → LiveFinding → FindingRow
finding_row sha256 scan_id project_id assets f =
    let evidence = evidence_dict f.evidence in
    let target = first_of (nonempty_text f.target) f.asset in
    record {
      scan_id = scan_id;
      project_id = project_id;
      asset_id = resolve_finding_asset_id scan_id assets (live_candidates f);
      fingerprint = finding_fingerprint sha256 f.tool target f.title (finding_extra evidence);
      title = take 300 (or_else (nonempty_text f.title) (codes "Untitled finding"));
      description = elim f.description [ none ↦ none | some s ↦ some (take 10000 s) ];
      source_tool = take 50 (or_else (nonempty_text f.tool) (codes "unknown"));
      scanner_severity = or_else f.severity Severity.info;
      scanner_evidence = with_confidence f.confidence (cap_dict evidence);
      scanner_references = take_each 500 (take 20 f.references);
      status = or_else f.status open_finding;
    }

abbrev pub same_finding : FindingRow → FindingRow → Bool
same_finding row other = other.scan_id == row.scan_id && text_eq other.fingerprint row.fingerprint

-- Whether the unique index refuses the row.
unfoldable pub is_recorded : FindingRow → List FindingRow → Bool
is_recorded row [] = false
is_recorded row (other ∷ rows) = same_finding row other || is_recorded row rows

-- `persist_finding`: the new row, or None where the index refuses it and the session rolls back.
unfoldable pub persist_finding :
    (Text → Text) → ℕ → ℕ → List Asset → List FindingRow → LiveFinding → Option FindingRow
persist_finding sha256 scan_id project_id assets rows f =
    let row = finding_row sha256 scan_id project_id assets f in
    if is_recorded row rows then none else some row
