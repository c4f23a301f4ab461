-- ===== src/Live/Snapshot.antt =====
-- Snapshots of an authorization: `authorization_payload`, `build_authorization_snapshot` and
-- `verify_snapshot_payload` of backend/services/live_authorization_service.py. The SHA-256 of the
-- canonical JSON is a function `digest` of the payload.
use aicybersec.Common.{
  ℕ, Bool, true, false, not, ◌&&◌, ◌||◌, Option, none, some, List, [], ◌∷◌, Result, ok, err, ◌>>=◌,
  ◌>>◌, raise_if, ltb, leb,
}
use aicybersec.Common.Text.{Text, codes, text_eq}
use aicybersec.Safety.Params.{Params}
use aicybersec.Scope.{Net}
use aicybersec.Live.{
  not_active, not_yet_valid, expired, policy_drift, other_methods, nothing_left, not_canonical,
  tampered, LiveError, not_permitted, crash, Settings,
}
use aicybersec.Live.Origin.{Origin, keys_of, parse_origin_list, effective_origins}
use aicybersec.Live.Record.{AuthorizationStatus, active, LiveAuthorization, is_nil, get_method}

-- A snapshot without its digest. `origins` is None where it is missing or no list of origins, and
-- `extra` are keys that no payload has; a missing text or list of texts is empty.
pub record Core : Type 0 where
  pub authorization_id : Option ℕ
  pub project_id : Option ℕ
  pub policy_version : Text
  pub valid_from : Option ℕ
  pub valid_until : Option ℕ
  pub origins : Option (List Origin)
  pub exclusions : List Origin
  pub methods : List Text
  pub paths : List Text
  pub follow_redirects : Bool
  pub discovery : Bool
  pub extra : Params

-- A snapshot; the digest is None where it is missing or no text.
pub record Snapshot : Type 0 where
  pub core : Core
  pub digest : Option Text

abbrev pub texts_eq : List Text → List Text → Bool
texts_eq [] [] = true
texts_eq (s ∷ ss) (t ∷ ts) = text_eq s t && texts_eq ss ts
texts_eq _ _ = false

-- `LIVE_PROBE_PATHS`
abbrev pub root_path : List Text
root_path = codes "/" ∷ []

abbrev pub is_active : AuthorizationStatus → Bool
is_active active = true
is_active _ = false

-- The dict that `authorization_payload` returns.
abbrev pub payload_of : LiveAuthorization → Core
payload_of auth = record {
  authorization_id = some auth.id;
  project_id = some auth.project_id;
  policy_version = auth.policy_version;
  valid_from = some auth.valid_from;
  valid_until = some auth.valid_until;
  origins = some auth.origins;
  exclusions = auth.exclusions;
  methods = auth.methods;
  paths = root_path;
  follow_redirects = false;
  discovery = false;
  extra = [];
}

-- `authorization_payload`
unfoldable pub authorization_payload :
    Net → Settings → ℕ → LiveAuthorization → Result LiveError Core
authorization_payload net settings now auth = do
  raise_if (not (is_active auth.status)) (not_permitted not_active)
  raise_if (ltb now auth.valid_from) (not_permitted not_yet_valid)
  raise_if (leb auth.valid_until now) (not_permitted expired)
  raise_if (not (text_eq auth.policy_version settings.live_probe_policy_version))
      (not_permitted policy_drift)
  raise_if (not (texts_eq auth.methods get_method)) (not_permitted other_methods)
  let effective = effective_origins auth.origins auth.exclusions
  raise_if (is_nil effective) (not_permitted nothing_left)
  rendered ← parse_origin_list net (keys_of effective)
  raise_if (not (texts_eq (keys_of rendered) (keys_of effective))) (not_permitted not_canonical)
  ok (payload_of auth)

-- `build_authorization_snapshot`
unfoldable pub build_authorization_snapshot :
    Net → (Core → Text) → Settings → ℕ → LiveAuthorization → Result LiveError Snapshot
build_authorization_snapshot net digest settings now auth = do
  core ← authorization_payload net settings now auth
  ok (record { core = core; digest = some (digest core) })

abbrev pub same_text : Option Text → Text → Bool
same_text none t = false
same_text (some s) t = text_eq s t

-- The origins are those that their own texts parse to.
abbrev pub check_canonical : Net → List Origin → Result LiveError (Unit {0})
check_canonical net origins = do
  rendered ← parse_origin_list net (keys_of origins)
  raise_if (not (texts_eq (keys_of rendered) (keys_of origins))) (not_permitted tampered)

abbrev pub check_exclusions : Net → List Origin → Result LiveError (Unit {0})
check_exclusions net [] = ok tt
check_exclusions net (o ∷ os) = check_canonical net (o ∷ os)

-- A key whose value is missing or does not parse raises, and that is a failed integrity check.
abbrev pub required {ℓ} : {A : Type ℓ} → Option A → Result LiveError A
required none = err (not_permitted tampered)
required (some a) = ok a

-- Any exception but an ApiError is a failed integrity check.
abbrev pub catch {ℓ} : {A : Type ℓ} → Result LiveError A → Result LiveError A
catch (ok a) = ok a
catch (err (crash e)) = err (not_permitted tampered)
catch (err e) = err e

-- What `verify_snapshot_payload` returns: the snapshot's core, with the ids parsed.
pub record Verified : Type 0 where
  pub core : Core
  pub authorization_id : ℕ
  pub project_id : ℕ

-- The body of the `try` in `verify_snapshot_payload`.
unfoldable pub verify_core :
    Net → (Core → Text) → ℕ → Text → Snapshot → Option Text → Result LiveError Verified
unfolding effective_origins
verify_core net digest now version snapshot stored = do
  let core = snapshot.core
  let embedded = digest core
  raise_if (not (same_text snapshot.digest embedded)) (not_permitted tampered)
  raise_if (not (same_text stored embedded)) (not_permitted tampered)
  authorization_id ← required core.authorization_id
  project_id ← required core.project_id
  raise_if (core.follow_redirects || core.discovery) (not_permitted tampered)
  raise_if (not (text_eq core.policy_version version)) (not_permitted policy_drift)
  raise_if (not (texts_eq core.methods get_method && texts_eq core.paths root_path))
      (not_permitted tampered)
  origins ← required core.origins
  check_canonical net origins
  check_exclusions net core.exclusions
  raise_if (is_nil (effective_origins origins core.exclusions)) (not_permitted nothing_left)
  from ← required core.valid_from
  until ← required core.valid_until
  raise_if (ltb now from) (not_permitted not_yet_valid)
  raise_if (leb until now) (not_permitted expired)
  ok (record { core = core; authorization_id = authorization_id; project_id = project_id })

-- `verify_snapshot_payload`; None is a snapshot that is no dict.
unfoldable pub verify_snapshot_payload :
    Net → (Core → Text) → ℕ → Text → Option Snapshot → Option Text → Result LiveError Verified
verify_snapshot_payload net digest now version none stored = err (not_permitted tampered)
verify_snapshot_payload net digest now version (some snapshot) stored =
    catch (verify_core net digest now version snapshot stored)
