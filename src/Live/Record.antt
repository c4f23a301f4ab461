-- ===== src/Live/Record.antt =====
-- The authorization record and its life cycle (backend/db/models.py, class LiveAuthorization;
-- backend/services/live_authorization_service.py).
use aicybersec.Common.{
  ℕ, ◌+◌, ◌*◌, Bool, true, false, not, ◌&&◌, ◌||◌, Option, none, some, List, [], ◌∷◌, Result, ok,
  err, ◌>>=◌, ◌>>◌, raise_if, if◌then◌else◌, leb, ltb, or_else, length, ◌==◌,
}
use aicybersec.Common.Text.{ends_with, drop_last, Text, codes, is_empty, strip, lower}
use aicybersec.Manager.Service.{User, may_see}
use aicybersec.Scope.{Net}
use aicybersec.Live.{
  LiveError, project_not_found, authorization_not_found, admin_required, invalid_state, invalid,
  Settings,
}
use aicybersec.Live.Origin.{Origin, parse_origin_list, effective_origins}

pub data AuthorizationStatus : Type 0 where
  active suspended revoked : AuthorizationStatus

pub record LiveAuthorization : Type 0 where
  pub id : ℕ
  pub project_id : ℕ
  pub status : AuthorizationStatus
  pub policy_version : Text
  pub evidence_ref : Option Text
  pub evidence_sha256 : Option Text
  pub origins : List Origin
  pub exclusions : List Origin
  pub methods : List Text
  pub approved_by : ℕ
  pub approved_at : ℕ
  pub valid_from : ℕ
  pub valid_until : ℕ

-- `LiveAuthorizationCreate`
pub record AuthorizationCreate : Type 0 where
  pub origins : List Text
  pub exclusions : List Text
  pub evidence_sha256 : Option Text
  pub evidence_ref : Option Text
  pub valid_from : Option ℕ
  pub valid_until : Option ℕ

abbrev is_hex : ℕ → Bool
is_hex c = (leb b'0' c && leb c b'9') || (leb b'a' c && leb c b'f')

abbrev all_hex : Text → Bool
all_hex [] = true
all_hex (c ∷ s) = is_hex c && all_hex s

-- 64 hexadecimal digits: `_SHA256_RE` on a stripped text, which does not end in a line feed.
abbrev pub is_sha256 : Text → Bool
is_sha256 s = all_hex s && length s == 64

-- `_SHA256_RE.match(s)`: `$` also matches before a line feed at the end.
abbrev pub sha256_re : Text → Bool
sha256_re s = is_sha256 s || (ends_with s (10 ∷ []) && is_sha256 (drop_last s))

abbrev pub given : Option Text → Option Text
given none = none
given (some t) = if is_empty t then none else some t

abbrev pub stripped : Option Text → Option Text
stripped none = none
stripped (some t) = given (some (strip t))

abbrev pub lowered : Option Text → Option Text
lowered none = none
lowered (some t) = some (lower t)

abbrev pub bad_sha : Option Text → Bool
bad_sha none = false
bad_sha (some s) = not (is_sha256 s)

abbrev pub both : Option Text → Option Text → Result LiveError (Option Text × Option Text)
both none none = err invalid
both ref sha = ok (ref, sha)

-- `_validate_evidence`
unfoldable pub validate_evidence :
    Option Text → Option Text → Result LiveError (Option Text × Option Text)
unfolding strip lower
validate_evidence ref sha =
    if bad_sha (lowered (stripped sha))
    then err invalid
    else both (stripped ref) (lowered (stripped sha))

abbrev pub is_nil {ℓ} : {A : Type ℓ} → List A → Bool
is_nil [] = true
is_nil (x ∷ xs) = false

abbrev pub parse_exclusions : Net → List Text → Result LiveError (List Origin)
parse_exclusions net [] = ok []
parse_exclusions net (v ∷ vs) = parse_origin_list net (v ∷ vs)

-- `timedelta(days=max(1, ...))`
abbrev pub lifetime : Settings → ℕ
lifetime settings =
    let days = settings.live_probe_max_authorization_days in
    (if leb 1 days then days else 1) * 86_400_000_000

-- `valid_until`, where the client gives one or not.
abbrev pub window_end : ℕ → ℕ → Option ℕ → Result LiveError ℕ
window_end from limit none = ok limit
window_end from limit (some until) =
    if leb until from then err invalid else if ltb limit until then err invalid else ok until

abbrev pub get_method : List Text
get_method = codes "GET" ∷ []

-- `create_live_authorization`; `project` is the project with its id, where it exists, and `id` the
-- identifier that the database gives.
unfoldable pub create_live_authorization :
    Net
    → Settings
    → ℕ
    → ℕ
    → User
    → Option ℕ
    → AuthorizationCreate
    → Result LiveError LiveAuthorization
create_live_authorization net settings id now user none body = do
  raise_if (not user.is_admin) admin_required
  err project_not_found
create_live_authorization net settings id now user (some project) body = do
  raise_if (not user.is_admin) admin_required
  origins ← parse_origin_list net body.origins
  exclusions ← parse_exclusions net body.exclusions
  raise_if (is_nil (effective_origins origins exclusions)) invalid
  evidence ← validate_evidence body.evidence_ref body.evidence_sha256
  let from = or_else body.valid_from now
  until ← window_end from (from + lifetime settings) body.valid_until
  ok (record {
    id = id;
    project_id = project;
    status = active;
    policy_version = settings.live_probe_policy_version;
    evidence_ref = evidence.0;
    evidence_sha256 = evidence.1;
    origins = origins;
    exclusions = exclusions;
    methods = get_method;
    approved_by = user.id;
    approved_at = now;
    valid_from = from;
    valid_until = until;
  })

-- `get_live_authorization_for_user`; `owner` is the owner of the record's project, if that exists.
unfoldable pub get_live_authorization_for_user :
    User → Option ℕ → Option LiveAuthorization → Result LiveError LiveAuthorization
get_live_authorization_for_user user owner none = err authorization_not_found
get_live_authorization_for_user user owner (some auth) =
    if may_see user owner then ok auth else err authorization_not_found

abbrev pub suspend_at : AuthorizationStatus → LiveAuthorization → Result LiveError LiveAuthorization
suspend_at active auth = ok (record auth { status = suspended })
suspend_at _ auth = err invalid_state

abbrev pub revoke_at : AuthorizationStatus → LiveAuthorization → Result LiveError LiveAuthorization
revoke_at revoked auth = err invalid_state
revoke_at _ auth = ok (record auth { status = revoked })

-- `suspend_live_authorization`
unfoldable pub suspend_live_authorization :
    User → Option ℕ → Option LiveAuthorization → Result LiveError LiveAuthorization
suspend_live_authorization user owner found = do
  raise_if (not user.is_admin) admin_required
  auth ← get_live_authorization_for_user user owner found
  suspend_at auth.status auth

-- `revoke_live_authorization`
unfoldable pub revoke_live_authorization :
    User → Option ℕ → Option LiveAuthorization → Result LiveError LiveAuthorization
revoke_live_authorization user owner found = do
  raise_if (not user.is_admin) admin_required
  auth ← get_live_authorization_for_user user owner found
  revoke_at auth.status auth
