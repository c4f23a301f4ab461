-- ===== src/Scope.antt =====
-- backend/services/scope_service.py, subdomain_policy.py and scope_resolution.py: which names and
-- addresses an authorized scope covers. Python's `ipaddress` and the DNS resolver are parameters.
pub mod Names
pub mod Snapshot
pub mod Descendants
pub mod Coverage
pub mod Pattern
pub mod Validation
pub mod Accepted
mod Tests
use aicybersec.Common.{Bool, List}
use aicybersec.Common.Text.{Text}

-- What the code asks of `ipaddress` and of the resolver. `in_network` is false where it raises.
pub record Net : Type 0 where
  pub is_ip : Text → Bool
  pub in_network : (address network : Text) → Bool
  pub resolve : Text → List Text
