-- ===== src/Live/Verified.antt =====
-- What `verify_live_scan_authorization` establishes before a live scan may run, and that a created live
-- scan passes it.
use aicybersec.Common.{
  ℕ, ◌≡◌, refl, sym, ap, ◌∙◌, true, not, ◌&&◌, Option, none, some, List, ok, ◌≤◌, ◌<◌, ◌==◌,
  >>=-eq-ok, ok_inv, passed, then_ok, arith,
}
use mathlib.Core.Path.{subst}
use aicybersec.Common.Text.{Text, text_eq}
use aicybersec.Common.Text.Laws.{text_eq_refl, eq_of_text_eq}
use aicybersec.Scope.{Net}
use aicybersec.Manager.Service.{User, has_active, may_see}
use aicybersec.Scan.{Scan}
use aicybersec.Live.{Settings}
use aicybersec.Live.Record.{LiveAuthorization, is_sha256, get_live_authorization_for_user}
use aicybersec.Live.Snapshot.{
  Core, Snapshot, Verified, payload_of, authorization_payload, build_authorization_snapshot,
  verify_snapshot_payload,
}
use aicybersec.Live.Profile.{
  ExecutionProfile, is_id, render_execution_profile, verify_execution_profile,
}
use aicybersec.Live.Creation.{
  Hashing, LiveScan, new_live_scan, create_live_scan, existing, verify_parent,
  verify_live_scan_authorization,
}
use aicybersec.Live.Inverted.{verify_snapshot_payload-IsSnapshot}
use aicybersec.Live.Binding.{
  IsBound, verify_execution_profile-IsBound, IsBound-verify_execution_profile, is_id-some, ==_refl,
}
use aicybersec.Live.Issue.{IsWellFormed}
use aicybersec.Live.Usable.{
  IsUsable, authorization_payload-IsUsable, IsUsable-authorization_payload,
}
use aicybersec.Live.RoundTrip.{verified_of, build_authorization_snapshot-verified}

-- A scan that may run at `now`, under the stored authorization `auth`.
pub record MayRun (h : Hashing) (settings : Settings) (now : ℕ)
    (lookup : ℕ → Option LiveAuthorization) (scan : LiveScan) (v : Verified) : Type 0 where
  pub auth : LiveAuthorization
  pub found : lookup v.authorization_id ≡ some auth
  pub snapshot : Snapshot
  pub carried : scan.authorization_snapshot ≡ some snapshot
  pub core : v.core ≡ snapshot.core
  pub named : snapshot.core.authorization_id ≡ some v.authorization_id
  pub embedded : snapshot.digest ≡ some (h.of_core snapshot.core)
  pub stored : scan.authorization_snapshot_digest ≡ some (h.of_core snapshot.core)
  pub referenced : scan.live.live_authorization_id ≡ some auth.id
  pub same_project : scan.live.project_id ≡ auth.project_id
  pub usable : IsUsable settings now auth
  pub unchanged : h.of_core (payload_of auth) ≡ h.of_core v.core
  pub profile : ExecutionProfile
  pub bound :
      IsBound h.of_json settings scan.live auth.id profile scan.live.execution_profile
        scan.live.execution_profile_digest

existing-some :
    (o : Option LiveAuthorization) (auth : LiveAuthorization) → existing o ≡ ok auth → o ≡ some auth
existing-some none auth e = cc
existing-some (some a) auth e = ap some (ok_inv a auth e)

-- A live scan that passes the verification carries a snapshot that names a stored authorization, and
-- both the digest inside the snapshot and the one stored beside it are the digest of the snapshot's
-- core, and that of what the authorization grants now. The scan references this authorization, is of
-- its project, and the authorization is active, in its window and of the current policy version. The
-- scan's execution profile is the one that is rendered for this scan and this authorization.
pub verify_live_scan_authorization-MayRun :
    (net : Net) (h : Hashing) (settings : Settings) (now : ℕ)
    (lookup : ℕ → Option LiveAuthorization) (scan : LiveScan) (v : Verified)
    → verify_live_scan_authorization net h settings now lookup scan ≡ ok v
    → MayRun h settings now lookup scan v
unfolding verify_live_scan_authorization verify_parent
verify_live_scan_authorization-MayRun net h settings now lookup scan v e =
    let (verified, p, e1) =
      >>=-eq-ok
        (verify_snapshot_payload net h.of_core now settings.live_probe_policy_version
          scan.authorization_snapshot scan.authorization_snapshot_digest)
        _ e in
    let (id, e2) =
      passed (not (is_id scan.live.live_authorization_id verified.authorization_id)) _ _ v e1 in
    let (auth, found, e3) = >>=-eq-ok (existing (lookup verified.authorization_id)) _ e2 in
    let (fresh, payload, e4) = >>=-eq-ok (authorization_payload net settings now auth) _ e3 in
    let (digest, e5) =
      passed (not (text_eq (h.of_core fresh) (h.of_core verified.core))) _ _ v e4 in
    let (ids, e6) =
      passed (not (verified.authorization_id == auth.id && verified.project_id == auth.project_id))
        _ _ v e5 in
    let (project, e7) = passed (not (scan.live.project_id == auth.project_id)) _ _ v e6 in
    let (profile, q, e8) =
      >>=-eq-ok (verify_execution_profile h.of_json settings scan.live verified.authorization_id) _
        e7 in
    let (usable, same) = authorization_payload-IsUsable net settings now auth fresh payload in
    let one_id : verified.authorization_id ≡ auth.id = ground arith in
    let reference =
      is_id-some scan.live.live_authorization_id verified.authorization_id (ground arith) in
    let bound =
      verify_execution_profile-IsBound h.of_json settings scan.live verified.authorization_id
        profile q in
    let (snapshot, carried, core, named, embedded, stored) =
      verify_snapshot_payload-IsSnapshot net h.of_core now settings.live_probe_policy_version
        scan.authorization_snapshot scan.authorization_snapshot_digest verified p in
    subst (MayRun h settings now lookup scan) (ok_inv verified v e8) (record {
      auth = auth;
      snapshot = snapshot;
      carried = carried;
      core = core;
      named = named;
      embedded = embedded;
      stored = stored;
      found = existing-some (lookup verified.authorization_id) auth found;
      referenced = reference ∙ ap some one_id;
      same_project = ground arith;
      usable = usable;
      unchanged = ap h.of_core (sym same) ∙ eq_of_text_eq _ _ (ground arith);
      profile = profile;
      bound =
          subst
            (λ (n : ℕ).
              IsBound h.of_json settings scan.live n profile scan.live.execution_profile
                scan.live.execution_profile_digest)
            one_id bound;
    })

found_same :
    (user : User) (owner : Option ℕ) (auth a : LiveAuthorization)
    → get_live_authorization_for_user user owner (some auth) ≡ ok a
    → auth ≡ a
unfolding get_live_authorization_for_user
found_same user owner auth a e = ok_inv auth a (then_ok (may_see user owner) _ _ a e).1

later-IsUsable :
    (net : Net) (digest : Core → Text) (settings : Settings) (now later : ℕ)
    (auth : LiveAuthorization) (s : Snapshot)
    → build_authorization_snapshot net digest settings now auth ≡ ok s
    → now ≤ later
    → later < auth.valid_until
    → IsUsable settings later auth
unfolding build_authorization_snapshot
later-IsUsable net digest settings now later auth s e after before =
    let (core, p, last) = >>=-eq-ok (authorization_payload net settings now auth) _ e in
    let (u, same) = authorization_payload-IsUsable net settings now auth core p in
    record {
      status = u.status;
      started = (let t = u.started in omega arith);
      running = before;
      version = u.version;
    }

-- The verification of the row that creation makes.
new_live_scan-verified :
    (net : Net) (h : Hashing) (settings : Settings) (now later scan_id profile_id : ℕ)
    (goal : Option Text) (auth : LiveAuthorization) (lookup : ℕ → Option LiveAuthorization)
    (snapshot : Snapshot)
    → IsWellFormed net auth
    → ((json : Text) → is_sha256 (h.of_json json) ≡ true)
    → build_authorization_snapshot net h.of_core settings now auth ≡ ok snapshot
    → IsUsable settings later auth
    → now ≤ later
    → lookup auth.id ≡ some auth
    → verify_live_scan_authorization net h settings later lookup
        (new_live_scan h settings scan_id profile_id goal auth snapshot)
      ≡ ok (verified_of auth)
unfolding verify_live_scan_authorization verify_parent render_execution_profile
new_live_scan-verified net h settings now later scan_id profile_id goal auth lookup snapshot w sha
      built u after found =
    let profile =
      render_execution_profile profile_id scan_id auth.id auth.project_id
        settings.live_probe_policy_version in
    let row = (new_live_scan h settings scan_id profile_id goal auth snapshot).live in
    rw
      (
        build_authorization_snapshot-verified net h.of_core settings now later auth snapshot w built
            after u.running,
        ==_refl auth.id,
        found,
        IsUsable-authorization_payload net settings later auth w u,
        text_eq_refl (h.of_core (payload_of auth)),
        ==_refl auth.id,
        ==_refl auth.project_id,
        IsBound-verify_execution_profile h.of_json settings row auth.id profile sha (record {
          column = record { json = h.json_of profile; parsed = some profile };
          present = refl;
          parsed = refl;
          stamped = refl;
          referenced = refl;
          rendered = refl;
        }),
      )
      refl

-- A live scan that is created passes the verification at any later time before the authorization ends,
-- while the stored authorization stays as it was: creation stores what verification asks for.
pub create_live_scan-verified :
    (net : Net) (h : Hashing) (settings : Settings) (now later scan_id profile_id : ℕ) (user : User)
    (project : ℕ) (owner : Option ℕ) (auth : LiveAuthorization) (goal : Option Text)
    (table : List Scan) (lookup : ℕ → Option LiveAuthorization) (scan : LiveScan)
    → IsWellFormed net auth
    → ((json : Text) → is_sha256 (h.of_json json) ≡ true)
    → create_live_scan net h settings now scan_id profile_id user project owner
        (some (some auth))
        goal
        table
      ≡ ok scan
    → now ≤ later
    → later < auth.valid_until
    → lookup auth.id ≡ some auth
    → verify_live_scan_authorization net h settings later lookup scan ≡ ok (verified_of auth)
unfolding create_live_scan
create_live_scan-verified net h settings now later scan_id profile_id user project owner auth goal
      table lookup scan w sha e after before found =
    let (flag, e1) = passed (not settings.live_probe_enabled) _ _ scan e in
    let (a, visible, e2) =
      >>=-eq-ok (get_live_authorization_for_user user owner (some auth)) _ e1 in
    let (here, e3) = passed (not (a.project_id == project)) _ _ scan e2 in
    let (snapshot, built, e4) =
      >>=-eq-ok (build_authorization_snapshot net h.of_core settings now a) _ e3 in
    let (free, last) = passed (has_active project table) _ _ scan e4 in
    let same = found_same user owner auth a visible in
    let built_here : build_authorization_snapshot net h.of_core settings now auth ≡ ok snapshot =
      subst
        (λ (x : LiveAuthorization).
          build_authorization_snapshot net h.of_core settings now x ≡ ok snapshot)
        (sym same) built in
    let row : new_live_scan h settings scan_id profile_id goal auth snapshot ≡ scan =
      ap (λ (x : LiveAuthorization). new_live_scan h settings scan_id profile_id goal x snapshot)
        same
      ∙ ok_inv _ _ last in
    let u = later-IsUsable net h.of_core settings now later auth snapshot built_here after before in
    subst
      (λ (s : LiveScan).
        verify_live_scan_authorization net h settings later lookup s ≡ ok (verified_of auth))
      row
      (new_live_scan-verified net h settings now later scan_id profile_id goal auth lookup snapshot
        w sha built_here u after found)
