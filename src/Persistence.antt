-- ===== src/Persistence.antt =====
-- backend/services/result_persistence.py: the assets and findings of a scan. Python's `ipaddress` and
-- the SHA-256 digest are parameters.
pub mod Enrich
pub mod DataOnly
pub mod Observed
pub mod Builders
pub mod Derive
pub mod Store
pub mod Stored
pub mod Adds
pub mod Links
pub mod Rerun
pub mod Findings
pub mod Matching
pub mod Insert
pub mod Hits
pub mod Hosts
pub mod Resolved
pub mod Linked
pub mod Decode
pub mod Json
pub mod Cleaned
pub mod Sanitized
pub mod Gate
pub mod Gated
pub mod Authorized
mod Tests
mod Runs
use aicybersec.Common.{ℕ, Option, List}
use aicybersec.Common.Text.{Text}
use aicybersec.Safety.Params.{Params}
use aicybersec.Scope.{Net}

-- The version and the text of `ipaddress.ip_address(s)`, None where it raises.
pub record Dns : Type 0 where
  pub net : Net
  pub ip_address : Text → Option (ℕ × Text)

pub data AssetType : Type 0 where
  host subdomain domain service url endpoint : AssetType

-- `VERIFICATION_STATUSES`, or no such text.
pub data Verification : Type 0 where
  unverified resolved nxdomain error missing : Verification

-- The attributes: a DNS key holds the texts of its list, and is None where it is missing.
pub record Attributes : Type 0 where
  pub dns_a : Option (List Text)
  pub dns_aaaa : Option (List Text)
  pub dns_cname : Option (List Text)
  pub verification_status : Verification
  pub rest : Params

pub record Asset : Type 0 where
  pub id : ℕ
  pub scan_id : ℕ
  pub project_id : ℕ
  pub asset_type : AssetType
  pub value : Text
  pub host : Option Text
  pub port : Option ℕ
  pub scheme : Option Text
  pub parent_asset_id : Option ℕ
  pub source_tool : Text
  pub attributes : Attributes

-- A dict of the records, with the texts of each list.
pub record Answer : Type 0 where
  pub host : Option Text
  pub dns_a : List Text
  pub a : List Text
  pub dns_aaaa : List Text
  pub aaaa : List Text
  pub dns_cname : List Text
  pub cname : List Text
