-- ===== src/Live/Profile.antt =====
-- The execution profile: backend/services/live_probe_budgets.py, and `verify_execution_profile` of
-- backend/services/live_authorization_service.py.
use aicybersec.Common.{
  ℕ, Bool, true, false, not, ◌&&◌, ◌||◌, Option, none, some, List, [], ◌∷◌, Result, ok, err, ◌>>=◌,
  ◌>>◌, raise_if, ◌==◌,
}
use aicybersec.Common.Text.{Text, codes, text_eq}
use aicybersec.Live.{
  profile_missing, profile_schema, profile_integrity, profile_policy, profile_binding,
  profile_budget, LiveError, not_permitted, Settings,
}
use aicybersec.Live.Record.{get_method, sha256_re}
use aicybersec.Live.Snapshot.{texts_eq, root_path}

pub record Budgets : Type 0 where
  pub max_requests_per_scan : ℕ
  pub requests_per_second : ℕ
  pub per_request_timeout_s : ℕ
  pub wall_clock_s : ℕ
  pub response_max_bytes : ℕ
  pub max_concurrent_connections : ℕ
  pub dns_timeout_s : ℕ

pub record RequestPolicy : Type 0 where
  pub methods : List Text
  pub paths : List Text
  pub ports : List ℕ
  pub follow_redirects : Bool
  pub honor_env_proxies : Bool
  pub accept_encoding : Text

pub record DnsPolicy : Type 0 where
  pub record_groups : List Text
  pub answer_set_policy : Text
  pub cname_following : Bool
  pub cache : Text

-- `LiveProbeExecutionProfile`
pub record ExecutionProfile : Type 0 where
  pub profile_id : ℕ
  pub scan_id : ℕ
  pub authorization_id : ℕ
  pub project_id : ℕ
  pub policy_version : Text
  pub mode : Text
  pub steps : List Text
  pub executor : Text
  pub budgets : Budgets
  pub request_policy : RequestPolicy
  pub dns_policy : DnsPolicy

-- The pinned constants.
abbrev pub pinned_budgets : Budgets
pinned_budgets = record {
  max_requests_per_scan = 200;
  requests_per_second = 1;
  per_request_timeout_s = 30;
  wall_clock_s = 600;
  response_max_bytes = 262_144;
  max_concurrent_connections = 2;
  dns_timeout_s = 5;
}

abbrev pub pinned_requests : RequestPolicy
pinned_requests = record {
  methods = get_method;
  paths = root_path;
  ports = 80 ∷ 443 ∷ [];
  follow_redirects = false;
  honor_env_proxies = false;
  accept_encoding = codes "identity";
}

abbrev pub pinned_dns : DnsPolicy
pinned_dns = record {
  record_groups = codes "A" ∷ codes "AAAA" ∷ [];
  answer_set_policy = codes "all_answers_global";
  cname_following = true;
  cache = codes "none";
}

abbrev pub pinned_mode : Text
pinned_mode = codes "pipeline"

abbrev pub pinned_executor : Text
pinned_executor = codes "live_transport_v1"

abbrev pub pinned_steps : List Text
pinned_steps = codes "live_root_get" ∷ []

-- `render_execution_profile`
unfoldable pub render_execution_profile : ℕ → ℕ → ℕ → ℕ → Text → ExecutionProfile
render_execution_profile profile_id scan_id authorization_id project_id policy_version = record {
  profile_id = profile_id;
  scan_id = scan_id;
  authorization_id = authorization_id;
  project_id = project_id;
  policy_version = policy_version;
  mode = pinned_mode;
  steps = pinned_steps;
  executor = pinned_executor;
  budgets = pinned_budgets;
  request_policy = pinned_requests;
  dns_policy = pinned_dns;
}

-- The stored payload: its canonical JSON, and the profile where the strict schema takes it.
pub record Payload : Type 0 where
  pub json : Text
  pub parsed : Option ExecutionProfile

-- What the verification reads of the scan row; None is a column without a dict.
pub record LiveRow : Type 0 where
  pub id : ℕ
  pub project_id : ℕ
  pub live_authorization_id : Option ℕ
  pub execution_profile : Option Payload
  pub execution_profile_digest : Option Text

abbrev pub numbers_eq : List ℕ → List ℕ → Bool
numbers_eq [] [] = true
numbers_eq (n ∷ ns) (k ∷ ks) = n == k && numbers_eq ns ks
numbers_eq _ _ = false

abbrev pub is_id : Option ℕ → ℕ → Bool
is_id none n = false
is_id (some k) n = n == k

abbrev pub budgets_eq : Budgets → Bool
budgets_eq b =
    b.max_requests_per_scan == 200
    && b.requests_per_second == 1
    && b.per_request_timeout_s == 30
    && b.wall_clock_s == 600
    && b.response_max_bytes == 262_144
    && b.max_concurrent_connections == 2
    && b.dns_timeout_s == 5

abbrev pub dns_eq : DnsPolicy → Bool
dns_eq d =
    texts_eq d.record_groups pinned_dns.record_groups
    && text_eq d.answer_set_policy pinned_dns.answer_set_policy
    && d.cname_following
    && text_eq d.cache pinned_dns.cache

abbrev pub requests_eq : RequestPolicy → Bool
requests_eq r =
    texts_eq r.methods get_method
    && texts_eq r.paths root_path
    && numbers_eq r.ports pinned_requests.ports
    && not (r.follow_redirects || r.honor_env_proxies)
    && text_eq r.accept_encoding pinned_requests.accept_encoding

-- The rules on a profile that the schema takes, in their order.
unfoldable pub check_profile :
    Settings → LiveRow → ℕ → ExecutionProfile → Result LiveError ExecutionProfile
check_profile settings row authorization_id p = do
  raise_if (not (text_eq p.policy_version settings.live_probe_policy_version))
      (not_permitted profile_policy)
  raise_if (not (p.scan_id == row.id)) (not_permitted profile_binding)
  raise_if
      (not (
        is_id row.live_authorization_id p.authorization_id
        && p.authorization_id == authorization_id))
      (not_permitted profile_binding)
  raise_if (not (p.project_id == row.project_id)) (not_permitted profile_binding)
  raise_if (not (budgets_eq p.budgets)) (not_permitted profile_budget)
  raise_if (not (dns_eq p.dns_policy)) (not_permitted profile_budget)
  raise_if (not (requests_eq p.request_policy)) (not_permitted profile_budget)
  raise_if (not (text_eq p.mode pinned_mode)) (not_permitted profile_budget)
  raise_if (not (text_eq p.executor pinned_executor && texts_eq p.steps pinned_steps))
      (not_permitted profile_binding)
  ok p

abbrev pub parsed_profile : Option ExecutionProfile → Result LiveError ExecutionProfile
parsed_profile none = err (not_permitted profile_schema)
parsed_profile (some p) = ok p

-- `verify_execution_profile`; `digest` is the SHA-256 of a canonical JSON.
abbrev pub verify_columns :
    (Text → Text)
    → Settings
    → LiveRow
    → ℕ
    → Option Payload
    → Option Text
    → Result LiveError ExecutionProfile
verify_columns digest settings row authorization_id none stored =
    err (not_permitted profile_missing)
verify_columns digest settings row authorization_id (some payload) none =
    err (not_permitted profile_missing)
verify_columns digest settings row authorization_id (some payload) (some stored) = do
  raise_if (not (sha256_re stored)) (not_permitted profile_missing)
  p ← parsed_profile payload.parsed
  raise_if (not (text_eq stored (digest payload.json))) (not_permitted profile_integrity)
  check_profile settings row authorization_id p

unfoldable pub verify_execution_profile :
    (Text → Text) → Settings → LiveRow → ℕ → Result LiveError ExecutionProfile
verify_execution_profile digest settings row authorization_id =
    verify_columns digest settings row authorization_id row.execution_profile
      row.execution_profile_digest
