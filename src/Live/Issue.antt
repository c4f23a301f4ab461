-- ===== src/Live/Issue.antt =====
-- What `create_live_authorization` grants, and the life cycle of the record.
use aicybersec.Common.{
  ℕ, ◌≡◌, refl, true, false, not, Option, none, some, List, [], ◌∷◌, ok, ◌≤◌, ◌<◌, ◌+◌, ◌≢◌, ◌⊎◌,
  inl, inr, leb, ltb, >>=-eq-ok, ok_inv, else_ok, passed, or_else, arith,
}
use mathlib.Core.Path.{subst}
use aicybersec.Common.Text.{Text}
use aicybersec.Manager.Service.{User}
use aicybersec.Scope.{Net}
use aicybersec.Live.{Settings}
use aicybersec.Live.Origin.{Origin, parse_origin_list, effective_origins}
use aicybersec.Live.Record.{
  active, LiveAuthorization, AuthorizationCreate, bad_sha, validate_evidence, parse_exclusions,
  is_nil, lifetime, window_end, get_method, create_live_authorization, both, lowered, stripped,
}
use aicybersec.Live.Canonical.Lists.{IsListing, parse_origin_list-IsListing}

-- No origins at all, or a canonical list of them.
abbrev pub IsExclusions : Net → List Origin → Type 0
IsExclusions net [] = Unit
IsExclusions net (o ∷ os) = IsListing net (o ∷ os)

abbrev HasEvidence : Option Text → Option Text → Type 0
HasEvidence ref sha = ((ref ≢ none) ⊎ (sha ≢ none)) × (bad_sha sha ≡ false)

-- What holds of every stored authorization, whatever its status.
pub record IsWellFormed (net : Net) (auth : LiveAuthorization) : Type 0 where
  pub origins : IsListing net auth.origins
  pub exclusions : IsExclusions net auth.exclusions
  pub effective : is_nil (effective_origins auth.origins auth.exclusions) ≡ false
  pub methods : auth.methods ≡ get_method
  pub evidence : HasEvidence auth.evidence_ref auth.evidence_sha256
  pub window : auth.valid_from < auth.valid_until

parse_exclusions-IsExclusions :
    (net : Net) (values : List Text) (out : List Origin)
    → parse_exclusions net values ≡ ok out
    → IsExclusions net out
parse_exclusions-IsExclusions net [] out e = subst (IsExclusions net) (ok_inv [] out e) tt
parse_exclusions-IsExclusions net (v ∷ vs) out e =
    listed out (parse_origin_list-IsListing net (v ∷ vs) out e)
  where
    listed : (out : List Origin) → IsListing net out → IsExclusions net out
    listed [] l = tt
    listed (o ∷ os) l = l

both-HasEvidence :
    (ref sha : Option Text) (out : Option Text × Option Text)
    → bad_sha sha ≡ false
    → both ref sha ≡ ok out
    → HasEvidence out.0 out.1
both-HasEvidence none none out n e = cc
both-HasEvidence none (some s) out n e =
    subst (λ (p : Option Text × Option Text). HasEvidence p.0 p.1) (ok_inv _ _ e) (inr (λ e. cc), n)
both-HasEvidence (some r) sha out n e =
    subst (λ (p : Option Text × Option Text). HasEvidence p.0 p.1) (ok_inv _ _ e) (inl (λ e. cc), n)

validate_evidence-HasEvidence :
    (ref sha : Option Text) (out : Option Text × Option Text)
    → validate_evidence ref sha ≡ ok out
    → HasEvidence out.0 out.1
unfolding validate_evidence
validate_evidence-HasEvidence ref sha out e =
    let (fine, rest) = else_ok _ _ _ _ e in
    both-HasEvidence (stripped ref) (lowered (stripped sha)) out fine rest

window_end-bounds :
    (from length : ℕ) (until : Option ℕ) (out : ℕ)
    → 0 < length
    → window_end from (from + length) until ≡ ok out
    → (from < out) × (out ≤ from + length)
window_end-bounds from length none out p e =
    let same : from + length ≡ out = ok_inv _ _ e in (omega arith, omega arith)
window_end-bounds from length (some until) out p e =
    let (after, rest) = else_ok (leb until from) _ _ _ e in
    let (short, last) = else_ok (ltb (from + length) until) _ _ _ rest in
    let same : until ≡ out = ok_inv _ _ last in (ground arith, ground arith)

lifetime_pos : (settings : Settings) → 0 < lifetime settings
lifetime_pos settings = ground arith

-- A new authorization.
pub record IsIssued (net : Net) (settings : Settings) (now : ℕ) (user : User) (project : Option ℕ)
    (body : AuthorizationCreate) (auth : LiveAuthorization) : Type 0 where
  pub by_admin : user.is_admin ≡ true
  pub approver : auth.approved_by ≡ user.id
  pub in_project : project ≡ some auth.project_id
  pub status : auth.status ≡ active
  pub version : auth.policy_version ≡ settings.live_probe_policy_version
  pub asked : parse_origin_list net body.origins ≡ ok auth.origins
  pub starts : auth.valid_from ≡ or_else body.valid_from now
  pub short : auth.valid_until ≤ auth.valid_from + lifetime settings
  pub well_formed : IsWellFormed net auth

-- An authorization is only created by an administrator, in an existing project. It is active, of the
-- current policy version, holds the canonical list of the origins asked for, of which the exclusions
-- leave at least one, has evidence (a digest only in its hexadecimal form), allows GET only, and ends
-- after it starts, at most the configured number of days later.
pub create_live_authorization-IsIssued :
    (net : Net) (settings : Settings) (id now : ℕ) (user : User) (project : Option ℕ)
    (body : AuthorizationCreate) (auth : LiveAuthorization)
    → create_live_authorization net settings id now user project body ≡ ok auth
    → IsIssued net settings now user project body auth
unfolding create_live_authorization
create_live_authorization-IsIssued net settings id now user none body auth e =
    let (admin, rest) = passed (not user.is_admin) _ _ auth e in cc
create_live_authorization-IsIssued net settings id now user (some project) body auth e =
    let (admin, e1) = passed (not user.is_admin) _ _ auth e in
    let (origins, o, e2) = >>=-eq-ok (parse_origin_list net body.origins) _ e1 in
    let (exclusions, x, e3) = >>=-eq-ok (parse_exclusions net body.exclusions) _ e2 in
    let (some_left, e4) = passed (is_nil (effective_origins origins exclusions)) _ _ auth e3 in
    let (evidence, v, e5) =
      >>=-eq-ok (validate_evidence body.evidence_ref body.evidence_sha256) _ e4 in
    let from = or_else body.valid_from now in
    let (until, w, last) =
      >>=-eq-ok (window_end from (from + lifetime settings) body.valid_until) _ e5 in
    let (later, short) =
      window_end-bounds from (lifetime settings) body.valid_until until (lifetime_pos settings) w in
    subst (IsIssued net settings now user (some project) body) (ok_inv _ _ last) (record {
      by_admin = ground arith;
      approver = refl;
      in_project = refl;
      status = refl;
      version = refl;
      asked = o;
      starts = refl;
      short = short;
      well_formed = record {
        origins = parse_origin_list-IsListing net body.origins origins o;
        exclusions = parse_exclusions-IsExclusions net body.exclusions exclusions x;
        effective = some_left;
        methods = refl;
        evidence = validate_evidence-HasEvidence body.evidence_ref body.evidence_sha256 evidence v;
        window = later;
      };
    })
