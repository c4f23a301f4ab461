-- ===== src/Persistence/Findings.antt =====
-- Findings, their fingerprints, and the names and addresses that they are about. Left out of a row are
-- its identifier and times, and the ai_* columns, which stay NULL.
use aicybersec.Common.{ℕ, Option, none, some, or_else, List, [], ◌∷◌, ◌++◌, take, if◌then◌else◌}
use aicybersec.Common.Text.{Text, codes, is_empty, strip}
use aicybersec.Safety.Results.{Severity}
use aicybersec.Discovery.Names.{insert}
use aicybersec.Persistence.Builders.{nonempty_text}
use aicybersec.Persistence.Json.{Json, string, scalar, Dict, get_key}

pub data FindingStatus : Type 0 where
  open_finding accepted_risk resolved false_positive : FindingStatus

-- The "evidence" of a live finding: a dict, also for a missing one, or the `str()` of anything else.
pub data Evidence : Type 0 where
  dict : Dict → Evidence
  not_dict : Text → Evidence

-- A live finding, whose texts are texts or missing. `severity` and `status` are None where the value
-- is outside the vocabulary, `references` are the `str()` of a list's members, and `confidence` is
-- None unless it is low, medium or high.
pub record LiveFinding : Type 0 where
  pub tool : Option Text
  pub target : Option Text
  pub asset : Option Text
  pub title : Option Text
  pub description : Option Text
  pub severity : Option Severity
  pub status : Option FindingStatus
  pub references : List Text
  pub confidence : Option Text
  pub evidence : Evidence

pub record FindingRow : Type 0 where
  pub scan_id : ℕ
  pub project_id : ℕ
  pub asset_id : Option ℕ
  pub fingerprint : Text
  pub title : Text
  pub description : Option Text
  pub source_tool : Text
  pub scanner_severity : Severity
  pub scanner_evidence : Dict
  pub scanner_references : List Text
  pub status : FindingStatus

abbrev pub text_of : Json → Option Text
text_of (string s) = some s
text_of _ = none

-- The first of the keys whose value is a text that is not empty, cut to 200 characters.
unfoldable pub first_text : Dict → List Text → Option Text
first_text d [] = none
first_text d (key ∷ keys) = elim (nonempty_text (text_of (get_key key d))) [
  | none ↦ first_text d keys
  | some s ↦ some (take 200 s)
]

-- `str(port)`, None where the port is None. A port is no list and no dict.
abbrev pub port_extra : Json → Option Text
port_extra (string s) = some s
port_extra (scalar s) = some s
port_extra _ = none

abbrev pub first_of : Option Text → Option Text → Option Text
first_of none b = b
first_of (some s) b = some s

-- `_finding_extra`
unfoldable pub finding_extra : Dict → Text
finding_extra d =
    let check = first_text d (codes "template_id" ∷ codes "template" ∷ codes "curl_command" ∷ []) in
    let place = first_text d (codes "matched_at" ∷ codes "url" ∷ codes "host" ∷ []) in
    or_else (first_of check (first_of (port_extra (get_key (codes "port") d)) place)) []

-- `finding_fingerprint`, with the hexadecimal SHA-256 as a parameter.
unfoldable pub finding_fingerprint :
    (Text → Text) → Option Text → Option Text → Option Text → Text → Text
finding_fingerprint sha256 tool target title extra = sha256 (
    or_else tool []
    ++ codes "|"
    ++ or_else target []
    ++ codes "|"
    ++ or_else title []
    ++ codes "|"
    ++ extra)

-- A text that is not blank, stripped.
abbrev pub stripped_text : Option Text → List Text
stripped_text none = []
stripped_text (some s) = let t = strip s in if is_empty t then [] else t ∷ []

unfoldable pub evidence_candidates : Dict → List Text → List Text
evidence_candidates d [] = []
evidence_candidates d (key ∷ keys) =
    stripped_text (text_of (get_key key d)) ++ evidence_candidates d keys

abbrev pub place_keys : List Text
place_keys = codes "matched_at" ∷ codes "url" ∷ codes "host" ∷ codes "ip" ∷ []

abbrev pub in_evidence : Evidence → List Text
in_evidence (dict d) = evidence_candidates d place_keys
in_evidence (not_dict s) = []

unfoldable pub distinct : List Text → List Text → List Text
distinct out [] = out
distinct out (c ∷ cs) = distinct (insert c out) cs

-- `_finding_live_candidates`
unfoldable pub live_candidates : LiveFinding → List Text
live_candidates f =
    distinct [] (stripped_text f.target ++ stripped_text f.asset ++ in_evidence f.evidence)

-- `_finding_row_candidates`
abbrev pub row_candidates : FindingRow → List Text
row_candidates row = evidence_candidates row.scanner_evidence place_keys
