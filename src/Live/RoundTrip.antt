-- ===== src/Live/RoundTrip.antt =====
-- Snapshots: what `build_authorization_snapshot` stores, `verify_snapshot_payload` accepts; a live scan
-- that `create_live_scan` makes passes `verify_live_scan_authorization`.
use aicybersec.Common.{
  ℕ, ◌≡◌, refl, sym, ap, ◌∙◌, true, false, some, List, [], ◌∷◌, ok, ◌≤◌, ◌<◌, leb, ltb, >>=-eq-ok,
  ok_inv, arith,
}
use mathlib.Core.Path.{subst}
use aicybersec.Common.Text.{Text, text_eq}
use aicybersec.Common.Text.Laws.{text_eq_refl}
use aicybersec.Scope.{Net}
use aicybersec.Live.{Settings}
use aicybersec.Live.Origin.{Origin, keys_of}
use aicybersec.Live.Record.{LiveAuthorization, get_method}
use aicybersec.Live.Snapshot.{
  Core, Snapshot, Verified, texts_eq, payload_of, authorization_payload,
  build_authorization_snapshot, check_canonical, check_exclusions, catch, verify_core,
  verify_snapshot_payload,
}
use aicybersec.Live.Canonical.Lists.{IsListing, IsListing-parse_origin_list}
use aicybersec.Live.Issue.{IsWellFormed, IsExclusions}
use aicybersec.Live.Usable.{texts_eq_refl, authorization_payload-IsUsable}

check_canonical_lem :
    (net : Net) (os : List Origin) → IsListing net os → check_canonical net os ≡ ok tt
check_canonical_lem net os l =
    rw (IsListing-parse_origin_list net os l, texts_eq_refl (keys_of os)) refl

check_exclusions_lem :
    (net : Net) (os : List Origin) → IsExclusions net os → check_exclusions net os ≡ ok tt
check_exclusions_lem net [] l = refl
check_exclusions_lem net (o ∷ os) l = check_canonical_lem net (o ∷ os) l

-- What the verification returns for an authorization's own snapshot.
abbrev pub verified_of : LiveAuthorization → Verified
verified_of auth = record {
  core = payload_of auth;
  authorization_id = auth.id;
  project_id = auth.project_id;
}

abbrev pub snapshot_of : (Core → Text) → LiveAuthorization → Snapshot
snapshot_of digest auth = record {
  core = payload_of auth;
  digest = some (digest (payload_of auth));
}

abbrev stamp : (Core → Text) → Core → Snapshot
stamp digest core = record { core = core; digest = some (digest core) }

verify_core_lem :
    (net : Net) (digest : Core → Text) (now : ℕ) (auth : LiveAuthorization)
    → IsWellFormed net auth
    → auth.valid_from ≤ now
    → now < auth.valid_until
    → verify_core net digest now auth.policy_version
        (snapshot_of digest auth)
        (some (digest (payload_of auth)))
      ≡ ok (verified_of auth)
unfolding verify_core text_eq
verify_core_lem net digest now auth w started running =
    let early : ltb now auth.valid_from ≡ false = ground arith in
    let late : leb auth.valid_until now ≡ false = ground arith in
    let methods : texts_eq auth.methods get_method ≡ true =
      rw w.methods (texts_eq_refl get_method) in
    rw
      (
        text_eq_refl (digest (payload_of auth)),
        text_eq_refl auth.policy_version,
        methods,
        check_canonical_lem net auth.origins w.origins,
        check_exclusions_lem net auth.exclusions w.exclusions,
        w.effective,
        early,
        late,
      )
      refl

-- The snapshot of an authorization passes the verification as long as the authorization lasts, under
-- the policy version of its making, and gives the authorization's own payload and ids back.
pub build_authorization_snapshot-verified :
    (net : Net) (digest : Core → Text) (settings : Settings) (now later : ℕ)
    (auth : LiveAuthorization) (s : Snapshot)
    → IsWellFormed net auth
    → build_authorization_snapshot net digest settings now auth ≡ ok s
    → now ≤ later
    → later < auth.valid_until
    → verify_snapshot_payload net digest later settings.live_probe_policy_version (some s) s.digest
      ≡ ok (verified_of auth)
unfolding build_authorization_snapshot verify_snapshot_payload
build_authorization_snapshot-verified net digest settings now later auth s w e after before =
    let (core, p, last) = >>=-eq-ok (authorization_payload net settings now auth) _ e in
    let (u, same) = authorization_payload-IsUsable net settings now auth core p in
    let stored : snapshot_of digest auth ≡ s = ap (stamp digest) (sym same) ∙ ok_inv _ _ last in
    subst
      (λ (s : Snapshot).
        verify_snapshot_payload net digest later settings.live_probe_policy_version (some s)
          s.digest
        ≡ ok (verified_of auth))
      stored
      (subst
        (λ (v : Text).
          catch (
            verify_core net digest later v (snapshot_of digest auth)
              (some (digest (payload_of auth))))
          ≡ ok (verified_of auth))
        u.version
        (ap catch
          (verify_core_lem net digest later auth w (let t = u.started in omega arith) before)))
