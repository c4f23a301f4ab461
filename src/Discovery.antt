-- ===== src/Discovery.antt =====
-- backend/services/discovery_service.py: the subdomain discovery before a scan. The two tools, the
-- database and the cancel event are functions of a clock that counts the reads and calls before.
pub mod Names
pub mod Calls
pub mod Stages
pub mod Finish
pub mod Bounds
pub mod Below
pub mod Checked
pub mod Promotion
mod Tests
use aicybersec.Common.{ℕ, Bool, Option, List, Exn}
use aicybersec.Common.Text.{Text}
use aicybersec.Safety.Params.{Params}
use aicybersec.Safety.Results.{Context}
use aicybersec.Safety.Registry.{Registry}
use aicybersec.Safety.Policy.{Policy}
use aicybersec.Scope.{Net}

-- A member of "subdomains": its name, None where that is no text, and the `str()` of it.
pub record Candidate : Type 0 where
  pub name : Option Text
  pub shown : Text

-- The data of a Subfinder result; `subdomains` is None where that is no list.
pub record Found : Type 0 where
  pub domain : Option Text
  pub subdomains : Option (List Candidate)

-- A dict of the DNSX "records"; `a` and `aaaa` hold the members that are texts.
pub record DnsRecord : Type 0 where
  pub host : Option Text
  pub a : List Text
  pub aaaa : List Text

-- A ToolResult: `failed` has the summary of one whose status is not "ok".
pub data Reply (A : Type 0) : Type 0 where
  failed : Text → Reply A
  replied : A → Reply A

-- What a tool does: its result, or the text of what it raises.
pub data Execution (A : Type 0) : Type 0 where
  raised : Text → Execution A
  returned : Reply A → Execution A

-- What persisting one host's records does: the count, or the text of what it raises.
pub data Persisted : Type 0 where
  unsaved : Text → Persisted
  enriched : ℕ → Persisted

pub record Env : Type 0 where
  pub net : Net
  pub registry : Registry
  pub policy : Policy
  pub run_id : Text
  -- `ipaddress.ip_address(s).version`, None where that raises
  pub ip_version : Text → Option ℕ
  pub is_set : ℕ → Bool
  pub subfinder : ℕ → Option Params → Context → Execution Found
  pub dnsx : ℕ → Option Params → Context → Execution (Option (List DnsRecord))
  -- None where it returns, and the text of what it raises
  pub persist_subfinder : ℕ → Found → Option Text
  pub persist_dnsx : ℕ → Text → List DnsRecord → Persisted
  pub asset_hosts : ℕ → List Text → List Text

-- The errors of the result, for their texts.
pub data DiscoveryError : Type 0 where
  subfinder_refused subfinder_mismatch : (parent : Text) → DiscoveryError
  subfinder_failed subfinder_unsaved : (parent message : Text) → DiscoveryError
  dnsx_refused : DiscoveryError
  dnsx_failed : (message : Text) → DiscoveryError
  dnsx_unsaved : (host message : Text) → DiscoveryError
  none_enriched : (host : Text) → DiscoveryError

pub data DiscoveryStatus : Type 0 where
  completed cancelled : DiscoveryStatus

-- `DiscoveryResult`; the errors are in the order in which they come.
pub record DiscoveryResult : Type 0 where
  pub status : DiscoveryStatus
  pub parents : List Text
  pub discovered : List Text
  pub policy_rejected : List Text
  pub dns_verified : List Text
  pub dns_unverified : List Text
  pub promoted : List Text
  pub errors : List DiscoveryError
  pub subfinder_calls : ℕ
  pub dnsx_calls : ℕ

-- The locals of `run`. `discovery_sources` pairs a host with a parent that it was found for.
pub record Run : Type 0 where
  pub clock : ℕ
  pub discovered : List Text
  pub discovery_sources : List (Text × Text)
  pub rejected : List Text
  pub parent_failures : List Text
  pub dns_verified : List Text
  pub dns_unverified : List Text
  pub errors : List DiscoveryError
  pub subfinder_calls : ℕ
  pub dnsx_calls : ℕ
