-- ===== src/Live/Inverted.antt =====
-- The snapshot and the digests behind what `verify_snapshot_payload` returns.
use aicybersec.Common.{
  ℕ, ◌≡◌, refl, sym, ap, ◌∙◌, true, not, ◌&&◌, ◌||◌, err, Result, ltb, leb, Option, none, some, ok,
  >>=-eq-ok, ok_inv, passed, arith,
}
use aicybersec.Common.Text.{Text, text_eq}
use aicybersec.Common.Text.Laws.{eq_of_text_eq}
use aicybersec.Scope.{Net}
use aicybersec.Live.{LiveError}
use aicybersec.Live.Record.{is_nil, get_method}
use aicybersec.Live.Origin.{effective_origins}
use aicybersec.Live.Snapshot.{
  same_text, required, catch, check_canonical, check_exclusions, verify_core, texts_eq, root_path,
  Core, Snapshot, Verified, verify_snapshot_payload,
}

-- The snapshot that was verified, and its digests.
abbrev pub IsSnapshot : (Core → Text) → Option Snapshot → Option Text → Verified → Type 0
IsSnapshot digest column stored v =
    (s : Snapshot) × (column ≡ some s)
    × (v.core ≡ s.core)
    × (s.core.authorization_id ≡ some v.authorization_id)
    × (s.digest ≡ some (digest s.core))
    × (stored ≡ some (digest s.core))

same_text-some : (o : Option Text) (t : Text) → same_text o t ≡ true → o ≡ some t
same_text-some none t e = cc
same_text-some (some s) t e = ap some (eq_of_text_eq s t e)

required-some : {A : Type 0} (o : Option A) (a : A) → required o ≡ ok a → o ≡ some a
required-some none a e = cc
required-some (some b) a e = ap some (ok_inv b a e)

catch-ok : {A : Type 0} (r : Result LiveError A) (a : A) → catch r ≡ ok a → r ≡ ok a
catch-ok (ok b) a e = e
catch-ok (err LiveError.project_not_found) a e = cc
catch-ok (err LiveError.authorization_not_found) a e = cc
catch-ok (err LiveError.admin_required) a e = cc
catch-ok (err LiveError.invalid_state) a e = cc
catch-ok (err LiveError.scan_already_running) a e = cc
catch-ok (err LiveError.invalid) a e = cc
catch-ok (err (LiveError.crash x)) a e = cc
catch-ok (err (LiveError.not_permitted x)) a e = cc

verify_core-IsSnapshot :
    (net : Net) (digest : Core → Text) (now : ℕ) (version : Text) (s : Snapshot)
    (stored : Option Text) (v : Verified)
    → verify_core net digest now version s stored ≡ ok v
    → IsSnapshot digest (some s) stored v
unfolding verify_core
verify_core-IsSnapshot net digest now version s stored v e =
    let (embedded, e1) = passed (not (same_text s.digest (digest s.core))) _ _ v e in
    let (kept, e2) = passed (not (same_text stored (digest s.core))) _ _ v e1 in
    let (id, a, e3) = >>=-eq-ok (required s.core.authorization_id) _ e2 in
    let (project, b, e4) = >>=-eq-ok (required s.core.project_id) _ e3 in
    let (c1, e5) = passed (s.core.follow_redirects || s.core.discovery) _ _ v e4 in
    let (c2, e6) = passed (not (text_eq s.core.policy_version version)) _ _ v e5 in
    let (c3, e7) =
      passed (not (texts_eq s.core.methods get_method && texts_eq s.core.paths root_path)) _ _ v
        e6 in
    let (origins, c, e8) = >>=-eq-ok (required s.core.origins) _ e7 in
    let (u1, d1, e9) = >>=-eq-ok (check_canonical net origins) _ e8 in
    let (u2, d2, e10) = >>=-eq-ok (check_exclusions net s.core.exclusions) _ e9 in
    let (c4, e11) = passed (is_nil (effective_origins origins s.core.exclusions)) _ _ v e10 in
    let (from, f, e12) = >>=-eq-ok (required s.core.valid_from) _ e11 in
    let (until, g, e13) = >>=-eq-ok (required s.core.valid_until) _ e12 in
    let (c5, e14) = passed (ltb now from) _ _ v e13 in
    let (c6, e15) = passed (leb until now) _ _ v e14 in
    let last = ok_inv _ v e15 in
    (
      s,
      refl,
      sym (ap (λ (x : Verified). x.core) last),
      required-some s.core.authorization_id id a
          ∙ ap (λ (x : Verified). some x.authorization_id) last,
      same_text-some s.digest (digest s.core) (ground arith),
      same_text-some stored (digest s.core) (ground arith),
    )

pub verify_snapshot_payload-IsSnapshot :
    (net : Net) (digest : Core → Text) (now : ℕ) (version : Text) (column : Option Snapshot)
    (stored : Option Text) (v : Verified)
    → verify_snapshot_payload net digest now version column stored ≡ ok v
    → IsSnapshot digest column stored v
unfolding verify_snapshot_payload
verify_snapshot_payload-IsSnapshot net digest now version none stored v e = cc
verify_snapshot_payload-IsSnapshot net digest now version (some s) stored v e =
    verify_core-IsSnapshot net digest now version s stored v
      (catch-ok (verify_core net digest now version s stored) v e)
