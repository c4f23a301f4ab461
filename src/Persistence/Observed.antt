-- ===== src/Persistence/Observed.antt =====
-- What a tool's observation holds, and the asset dicts that are made of it. A list of an observation has
-- the members that are dicts; the code skips the others.
use aicybersec.Common.{ℕ, Option, List}
use aicybersec.Common.Text.{Text}
use aicybersec.Safety.Params.{Value}
use aicybersec.Persistence.{AssetType, Verification, Attributes}

-- A dict of "ports": `number` is `int(port.get("port"))`, None where that raises; a port number is
-- not negative. `service_name` is `service.get("name")`, None where there is no service dict.
pub record PortEntry : Type 0 where
  pub state : Option Text
  pub number : Option ℕ
  pub protocol : Value
  pub service_name : Value

-- A dict of "hosts"; `ip` is None where it is no text.
pub record HostEntry : Type 0 where
  pub ip : Option Text
  pub ports : List PortEntry

-- A dict of "services"; a url is a text or is missing. `tech` is None where it is no list.
pub record UrlEntry : Type 0 where
  pub final_url : Option Text
  pub url : Option Text
  pub status_code : Value
  pub title : Value
  pub tech : Value

-- A dict of "subdomains"; `dns_a` is None where it is no list.
pub record NameEntry : Type 0 where
  pub host : Option Text
  pub verification_status : Verification
  pub source : Option Text
  pub dns_a : Option (List Text)

-- A dict of "endpoints"; `crawl_depth` is `max(0, int(...))`, None where it is missing or that raises.
pub record Endpoint : Type 0 where
  pub url : Option Text
  pub source_page : Option Text
  pub crawl_depth : Option ℕ
  pub method : Option Text

-- The data of an observation.
pub record ObservedData : Type 0 where
  pub hosts : List HostEntry
  pub services : List UrlEntry
  pub domain : Option Text
  pub subdomains : List NameEntry
  pub endpoints : List Endpoint

-- An observation of the agent; `found` is its "data", None where that is no dict.
pub record AgentObservation : Type 0 where
  pub source : Text
  pub tool : Text
  pub found : Option ObservedData

-- An asset dict; `parent` is its "parent_type" and "parent_value".
pub record Derived : Type 0 where
  pub asset_type : AssetType
  pub value : Text
  pub host : Option Text
  pub port : Option ℕ
  pub scheme : Option Text
  pub attributes : Attributes
  pub source_tool : Text
  pub parent : Option (AssetType × Text)
