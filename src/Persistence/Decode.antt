-- ===== src/Persistence/Decode.antt =====
-- How `persist_finding` reads a finding's dict. A text that is asked for is a text or is missing.
use aicybersec.Common.{Bool, true, false, Option, none, some, List, [], ◌∷◌, if◌then◌else◌}
use aicybersec.Common.Text.{Text, codes, text_eq, elem, is_empty}
use aicybersec.Safety.Results.{Severity, info, low, medium, high, critical}
use aicybersec.Persistence.Json.{
  Json, null, string, scalar, array, object, Items, no_items, item, Dict, no_entries, entry,
  get_key,
}
use aicybersec.Persistence.Findings.{
  FindingStatus, open_finding, accepted_risk, resolved, false_positive, Evidence, dict, not_dict,
  LiveFinding, text_of,
}

-- The value of a text in a table, None where the table does not have it.
abbrev pub lookup {ℓ} : {A : Type ℓ} → Text → List (Text × A) → Option A
lookup t [] = none
lookup t ((k, a) ∷ rows) = if text_eq t k then some a else lookup t rows

-- `_VALID_SEVERITIES`
abbrev pub severities : List (Text × Severity)
severities =
    (codes "info", info)
    ∷ (codes "low", low)
    ∷ (codes "medium", medium)
    ∷ (codes "high", high)
    ∷ (codes "critical", critical)
    ∷ []

-- `_VALID_FINDING_STATUSES`
abbrev pub finding_statuses : List (Text × FindingStatus)
finding_statuses =
    (codes "open", open_finding)
    ∷ (codes "accepted_risk", accepted_risk)
    ∷ (codes "resolved", resolved)
    ∷ (codes "false_positive", false_positive)
    ∷ []

abbrev pub confidences : List (Text × Text)
confidences =
    (codes "low", codes "low")
    ∷ (codes "medium", codes "medium")
    ∷ (codes "high", codes "high")
    ∷ []

abbrev pub in_table {ℓ} : {A : Type ℓ} → List (Text × A) → Json → Option A
in_table rows (string s) = lookup s rows
in_table rows _ = none

-- Not true in a Python test: None, an empty text, list or dict, zero, or False.
abbrev pub is_falsy : Json → Bool
is_falsy null = true
is_falsy (string s) = is_empty s
is_falsy (scalar s) = elem s (codes "0" ∷ codes "0.0" ∷ codes "-0.0" ∷ codes "False" ∷ [])
is_falsy (array no_items) = true
is_falsy (array (item j js)) = false
is_falsy (object no_entries) = true
is_falsy (object (entry k v d)) = false

-- `str(v)`, which is a parameter for lists and dicts.
abbrev pub show : (Json → Text) → Json → Text
show str null = codes "None"
show str (string s) = s
show str (scalar s) = s
show str (array js) = str (array js)
show str (object d) = str (object d)

abbrev pub show_items : (Json → Text) → Items → List Text
show_items str no_items = []
show_items str (item j js) = show str j ∷ show_items str js

abbrev pub show_list : (Json → Text) → Json → List Text
show_list str (array js) = show_items str js
show_list str _ = []

abbrev pub shown : (Json → Text) → Json → Option Text
shown str null = none
shown str j = some (show str j)

abbrev pub evidence_of : (Json → Text) → Json → Evidence
evidence_of str (object d) = dict d
evidence_of str j = if is_falsy j then dict no_entries else not_dict (show str j)

unfoldable pub live_finding : (Json → Text) → Dict → LiveFinding
live_finding str d = record {
  tool = text_of (get_key (codes "tool") d);
  target = text_of (get_key (codes "target") d);
  asset = text_of (get_key (codes "asset") d);
  title = text_of (get_key (codes "title") d);
  description = shown str (get_key (codes "description") d);
  severity = in_table severities (get_key (codes "severity") d);
  status = in_table finding_statuses (get_key (codes "status") d);
  references = show_list str (get_key (codes "references") d);
  confidence = in_table confidences (get_key (codes "confidence") d);
  evidence = evidence_of str (get_key (codes "evidence") d);
}
