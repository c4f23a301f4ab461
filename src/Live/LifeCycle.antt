-- ===== src/Live/LifeCycle.antt =====
-- The life cycle of an authorization under `suspend_live_authorization` and
-- `revoke_live_authorization`: requests in any order, of any users.
use aicybersec.Common.{
  ℕ, ◌≡◌, refl, ap, ◌∙◌, true, Option, none, some, List, [], ◌∷◌, Result, ok, err, ◌⊎◌, inl, inr,
  Bool-cases, if◌then◌else◌,
}
use aicybersec.Scope.{Net}
use aicybersec.Manager.Service.{User, may_see}
use aicybersec.Live.{LiveError}
use aicybersec.Live.Record.{
  AuthorizationStatus, active, suspended, revoked, LiveAuthorization,
  get_live_authorization_for_user, suspend_at, revoke_at, suspend_live_authorization,
  revoke_live_authorization,
}
use aicybersec.Live.Issue.{IsWellFormed}

-- A request of a user on the record; `owner` is the owner of its project, if that exists.
pub data Request : Type 0 where
  suspend revoke : (user : User) (owner : Option ℕ) → Request

abbrev serve : Request → LiveAuthorization → Result LiveError LiveAuthorization
serve (suspend user owner) auth = suspend_live_authorization user owner (some auth)
serve (revoke user owner) auth = revoke_live_authorization user owner (some auth)

-- A request that fails leaves the stored record.
abbrev stored : LiveAuthorization → Result LiveError LiveAuthorization → LiveAuthorization
stored auth (err raised) = auth
stored auth (ok changed) = changed

abbrev pub replay : List Request → LiveAuthorization → LiveAuthorization
replay [] auth = auth
replay (r ∷ rs) auth = replay rs (stored auth (serve r auth))

-- The abstract life cycle: administrators move the status.
abbrev suspend_status : AuthorizationStatus → AuthorizationStatus
suspend_status active = suspended
suspend_status status = status

abbrev move : Request → AuthorizationStatus → AuthorizationStatus
move (suspend user owner) status = if user.is_admin then suspend_status status else status
move (revoke user owner) status = if user.is_admin then revoked else status

abbrev pub moves : List Request → AuthorizationStatus → AuthorizationStatus
moves [] status = status
moves (r ∷ rs) status = moves rs (move r status)

suspended_lem :
    (auth : LiveAuthorization) (s : AuthorizationStatus)
    → s ≡ auth.status
    → stored auth (suspend_at s auth) ≡ record auth { status = suspend_status s }
suspended_lem auth active e = refl
suspended_lem auth suspended e = rw e refl
suspended_lem auth revoked e = rw e refl

revoked_lem :
    (auth : LiveAuthorization) (s : AuthorizationStatus)
    → s ≡ auth.status
    → stored auth (revoke_at s auth) ≡ record auth { status = revoked }
revoked_lem auth active e = refl
revoked_lem auth suspended e = refl
revoked_lem auth revoked e = rw e refl

admin_found :
    (user : User) (owner : Option ℕ) (auth : LiveAuthorization)
    → user.is_admin ≡ true
    → get_live_authorization_for_user user owner (some auth) ≡ ok auth
unfolding get_live_authorization_for_user may_see
admin_found user none auth a = rw a refl
admin_found user (some o) auth a = rw a refl

serve-move :
    (r : Request) (auth : LiveAuthorization)
    → stored auth (serve r auth) ≡ record auth { status = move r auth.status }
unfolding suspend_live_authorization revoke_live_authorization
serve-move (suspend user owner) auth = elim (Bool-cases user.is_admin) [
  | inl a ↦ rw (admin_found user owner auth a, a) (suspended_lem auth auth.status refl)
  | inr a ↦ rw a refl
]
serve-move (revoke user owner) auth = elim (Bool-cases user.is_admin) [
  | inl a ↦ rw (admin_found user owner auth a, a) (revoked_lem auth auth.status refl)
  | inr a ↦ rw a refl
]

-- Requests to suspend and to revoke, in any order and of any users, change nothing but the status of
-- the record, and that as the abstract life cycle says: the requests of a user who is no administrator
-- change nothing, suspending moves an active record only, and revoking moves any.
pub replay-moves :
    (rs : List Request) (auth : LiveAuthorization)
    → replay rs auth ≡ record auth { status = moves rs auth.status }
replay-moves [] auth = refl
replay-moves (r ∷ rs) auth =
    ap (replay rs) (serve-move r auth)
    ∙ replay-moves rs (record auth { status = move r auth.status })

abbrev pub IsLater : AuthorizationStatus → AuthorizationStatus → Type 0
IsLater active s = Unit
IsLater suspended s = (s ≡ suspended) ⊎ (s ≡ revoked)
IsLater revoked s = s ≡ revoked

IsLater-refl : (s : AuthorizationStatus) → IsLater s s
IsLater-refl active = tt
IsLater-refl suspended = inl refl
IsLater-refl revoked = refl

move-IsLater : (r : Request) (s t : AuthorizationStatus) → IsLater (move r s) t → IsLater s t
move-IsLater r active t h = tt
move-IsLater (suspend user owner) suspended t h = elim (Bool-cases user.is_admin) [
  | inl a ↦ rw a at h
  | inr a ↦ rw a at h
]
move-IsLater (revoke user owner) suspended t h = elim (Bool-cases user.is_admin) [
  | inl a ↦ inr (rw a at h)
  | inr a ↦ rw a at h
]
move-IsLater (suspend user owner) revoked t h = elim (Bool-cases user.is_admin) [
  | inl a ↦ rw a at h
  | inr a ↦ rw a at h
]
move-IsLater (revoke user owner) revoked t h = elim (Bool-cases user.is_admin) [
  | inl a ↦ rw a at h
  | inr a ↦ rw a at h
]

moves-IsLater : (rs : List Request) (s : AuthorizationStatus) → IsLater s (moves rs s)
moves-IsLater [] s = IsLater-refl s
moves-IsLater (r ∷ rs) s = move-IsLater r s _ (moves-IsLater rs (move r s))

-- The life cycle never goes back: an authorization that is suspended or revoked is never active again,
-- one that is revoked stays exactly as it is, whatever requests follow, and a well-formed one stays
-- well-formed.
pub replay-IsLater :
    (net : Net) (rs : List Request) (auth : LiveAuthorization)
    → IsLater auth.status (replay rs auth).status
      × (IsWellFormed net auth → IsWellFormed net (replay rs auth))
replay-IsLater net rs auth = rw (replay-moves rs auth) (
  moves-IsLater rs auth.status,
  λ w. record {
    origins = w.origins;
    exclusions = w.exclusions;
    effective = w.effective;
    methods = w.methods;
    evidence = w.evidence;
    window = w.window;
  },
)
