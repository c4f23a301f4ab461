-- ===== src/Live/Binding.antt =====
-- What a verified execution profile is: `verify_execution_profile`.
use aicybersec.Common.{
  ℕ, ◌≡◌, refl, sym, ap, ◌∙◌, true, false, not, ◌&&◌, Option, none, some, List, [], ◌∷◌, ok, ◌↔◌,
  ◌==◌, ==_iff, >>=-eq-ok, ok_inv, passed, arith,
}
use mathlib.Core.Path.{subst}
use aicybersec.Common.Text.{Text, text_eq}
use aicybersec.Common.Text.Laws.{text_eq_refl, eq_of_text_eq}
use aicybersec.Live.{Settings}
use aicybersec.Live.Record.{is_sha256, sha256_re}
use aicybersec.Live.Snapshot.{texts_eq}
use aicybersec.Live.Profile.{
  Budgets, RequestPolicy, DnsPolicy, ExecutionProfile, pinned_budgets, pinned_requests, pinned_dns,
  pinned_mode, pinned_executor, pinned_steps, render_execution_profile, Payload, LiveRow,
  numbers_eq, is_id, budgets_eq, dns_eq, requests_eq, check_profile, parsed_profile, verify_columns,
  verify_execution_profile,
}
use aicybersec.Live.Usable.{eq_of_texts_eq}

pub eq_of_== : (a b : ℕ) → (a == b) ≡ true → a ≡ b
eq_of_== a b h = (==_iff a b).0 h

eq_of_numbers_eq : (ns ks : List ℕ) → numbers_eq ns ks ≡ true → ns ≡ ks
eq_of_numbers_eq [] [] h = refl
eq_of_numbers_eq [] (k ∷ ks) h = cc
eq_of_numbers_eq (n ∷ ns) [] h = cc
eq_of_numbers_eq (n ∷ ns) (k ∷ ks) h =
    let first : n ≡ k = ground arith in let rest = eq_of_numbers_eq ns ks (ground arith) in cc

budgets_lem : (b : Budgets) → budgets_eq b ≡ true → b ≡ pinned_budgets
budgets_lem b h =
    let h0 : b.max_requests_per_scan ≡ 200 = ground arith in
    let h1 : b.requests_per_second ≡ 1 = ground arith in
    let h2 : b.per_request_timeout_s ≡ 30 = ground arith in
    let h3 : b.wall_clock_s ≡ 600 = ground arith in
    let h4 : b.response_max_bytes ≡ 262_144 = ground arith in
    let h5 : b.max_concurrent_connections ≡ 2 = ground arith in
    let h6 : b.dns_timeout_s ≡ 5 = ground arith in cc

dns_lem : (d : DnsPolicy) → dns_eq d ≡ true → d ≡ pinned_dns
dns_lem d h =
    let e0 = eq_of_texts_eq d.record_groups pinned_dns.record_groups (ground arith) in
    let e1 = eq_of_text_eq d.answer_set_policy pinned_dns.answer_set_policy (ground arith) in
    let e2 : d.cname_following ≡ true = ground arith in
    let e3 = eq_of_text_eq d.cache pinned_dns.cache (ground arith) in cc

requests_lem : (r : RequestPolicy) → requests_eq r ≡ true → r ≡ pinned_requests
requests_lem r h =
    let e0 = eq_of_texts_eq r.methods pinned_requests.methods (ground arith) in
    let e1 = eq_of_texts_eq r.paths pinned_requests.paths (ground arith) in
    let e2 = eq_of_numbers_eq r.ports pinned_requests.ports (ground arith) in
    let e3 : r.follow_redirects ≡ false = ground arith in
    let e4 : r.honor_env_proxies ≡ false = ground arith in
    let e5 = eq_of_text_eq r.accept_encoding pinned_requests.accept_encoding (ground arith) in cc

pub is_id-some : (o : Option ℕ) (n : ℕ) → is_id o n ≡ true → o ≡ some n
is_id-some none n h = cc
is_id-some (some k) n h = ap some (sym (eq_of_== n k h))

check_profile-render :
    (settings : Settings) (row : LiveRow) (authorization_id : ℕ) (p q : ExecutionProfile)
    → check_profile settings row authorization_id p ≡ ok q
    → (p ≡ q)
      × (row.live_authorization_id ≡ some authorization_id)
      × (q
          ≡ render_execution_profile q.profile_id row.id authorization_id row.project_id
              settings.live_probe_policy_version)
unfolding check_profile render_execution_profile
check_profile-render settings row authorization_id p q e =
    let (a0, e0) =
      passed (not (text_eq p.policy_version settings.live_probe_policy_version)) _ _ q e in
    let (a1, e1) = passed (not (p.scan_id == row.id)) _ _ q e0 in
    let (a2, e2) =
      passed
        (not (
          is_id row.live_authorization_id p.authorization_id
          && p.authorization_id == authorization_id))
        _ _ q e1 in
    let (a3, e3) = passed (not (p.project_id == row.project_id)) _ _ q e2 in
    let (a4, e4) = passed (not (budgets_eq p.budgets)) _ _ q e3 in
    let (a5, e5) = passed (not (dns_eq p.dns_policy)) _ _ q e4 in
    let (a6, e6) = passed (not (requests_eq p.request_policy)) _ _ q e5 in
    let (a7, e7) = passed (not (text_eq p.mode pinned_mode)) _ _ q e6 in
    let (a8, e8) =
      passed (not (text_eq p.executor pinned_executor && texts_eq p.steps pinned_steps)) _ _ q e7 in
    let same : p ≡ q = ok_inv _ _ e8 in
    let b0 = eq_of_text_eq p.policy_version settings.live_probe_policy_version (ground arith) in
    let b1 : p.scan_id ≡ row.id = ground arith in
    let b2 : p.authorization_id ≡ authorization_id = ground arith in
    let b3 : p.project_id ≡ row.project_id = ground arith in
    let b4 = budgets_lem p.budgets (ground arith) in
    let b5 = dns_lem p.dns_policy (ground arith) in
    let b6 = requests_lem p.request_policy (ground arith) in
    let b7 = eq_of_text_eq p.mode pinned_mode (ground arith) in
    let b8 = eq_of_text_eq p.executor pinned_executor (ground arith) in
    let b9 = eq_of_texts_eq p.steps pinned_steps (ground arith) in
    let id = is_id-some row.live_authorization_id p.authorization_id (ground arith) in
    let whole : p
        ≡ render_execution_profile p.profile_id row.id authorization_id row.project_id
            settings.live_probe_policy_version =
      cc in
    (
      same,
      id ∙ ap some b2,
      subst
          (λ (q : ExecutionProfile).
            q
            ≡ render_execution_profile q.profile_id row.id authorization_id row.project_id
                settings.live_probe_policy_version)
          same whole,
    )

parsed_profile-some :
    (o : Option ExecutionProfile) (p : ExecutionProfile) → parsed_profile o ≡ ok p → o ≡ some p
parsed_profile-some none p e = cc
parsed_profile-some (some q) p e = ap some (ok_inv q p e)

-- The stored columns hold the profile that issuance renders for this scan, with its digest.
pub record IsBound (digest : Text → Text) (settings : Settings) (row : LiveRow)
    (authorization_id : ℕ) (p : ExecutionProfile) (payload : Option Payload) (stored : Option Text)
    : Type 0 where
  pub column : Payload
  pub present : payload ≡ some column
  pub parsed : column.parsed ≡ some p
  pub stamped : stored ≡ some (digest column.json)
  pub referenced : row.live_authorization_id ≡ some authorization_id
  pub rendered :
      p
      ≡ render_execution_profile p.profile_id row.id authorization_id row.project_id
          settings.live_probe_policy_version

verify_columns-IsBound :
    (digest : Text → Text) (settings : Settings) (row : LiveRow) (authorization_id : ℕ)
    (payload : Option Payload) (stored : Option Text) (p : ExecutionProfile)
    → verify_columns digest settings row authorization_id payload stored ≡ ok p
    → IsBound digest settings row authorization_id p payload stored
verify_columns-IsBound digest settings row authorization_id none stored p e = cc
verify_columns-IsBound digest settings row authorization_id (some payload) none p e = cc
verify_columns-IsBound digest settings row authorization_id (some payload) (some stored) p e =
    let (shape, e1) = passed (not (sha256_re stored)) _ _ p e in
    let (q, parsed, e2) = >>=-eq-ok (parsed_profile payload.parsed) _ e1 in
    let (fresh, e3) = passed (not (text_eq stored (digest payload.json))) _ _ p e2 in
    let (same, referenced, rendered) = check_profile-render settings row authorization_id q p e3 in
    record {
      column = payload;
      present = refl;
      parsed = parsed_profile-some payload.parsed q parsed ∙ ap some same;
      stamped = ap some (eq_of_text_eq _ _ (ground arith));
      referenced = referenced;
      rendered = rendered;
    }

pub verify_execution_profile-IsBound :
    (digest : Text → Text) (settings : Settings) (row : LiveRow) (authorization_id : ℕ)
    (p : ExecutionProfile)
    → verify_execution_profile digest settings row authorization_id ≡ ok p
    → IsBound digest settings row authorization_id p row.execution_profile
        row.execution_profile_digest
unfolding verify_execution_profile
verify_execution_profile-IsBound digest settings row authorization_id p e =
    verify_columns-IsBound digest settings row authorization_id row.execution_profile
      row.execution_profile_digest p e

pub ==_refl : (n : ℕ) → (n == n) ≡ true
==_refl n = (==_iff n n).1 refl

pinned_lem :
    (settings : Settings) (row : LiveRow) (authorization_id profile_id : ℕ)
    → row.live_authorization_id ≡ some authorization_id
    → check_profile settings row authorization_id (
        render_execution_profile profile_id row.id authorization_id row.project_id
          settings.live_probe_policy_version)
      ≡ ok (
          render_execution_profile profile_id row.id authorization_id row.project_id
            settings.live_probe_policy_version)
unfolding check_profile render_execution_profile text_eq
pinned_lem settings row authorization_id profile_id r =
    rw
      (
        text_eq_refl settings.live_probe_policy_version,
        ==_refl row.id,
        r,
        ==_refl authorization_id,
        ==_refl row.project_id,
      )
      refl

pub IsBound-verify_execution_profile :
    (digest : Text → Text) (settings : Settings) (row : LiveRow) (authorization_id : ℕ)
    (p : ExecutionProfile)
    → ((json : Text) → is_sha256 (digest json) ≡ true)
    → IsBound digest settings row authorization_id p row.execution_profile
        row.execution_profile_digest
    → verify_execution_profile digest settings row authorization_id ≡ ok p
unfolding verify_execution_profile check_profile
IsBound-verify_execution_profile digest settings row authorization_id p sha b =
    rw (b.present, b.stamped, sha b.column.json, b.parsed, text_eq_refl (digest b.column.json))
      (subst (λ (q : ExecutionProfile). check_profile settings row authorization_id q ≡ ok q)
        (sym b.rendered) (pinned_lem settings row authorization_id p.profile_id b.referenced))

-- Where digests are 64 hexadecimal digits, the profiles that pass the verification are exactly those
-- that issuance renders from the pinned constants for this very scan, its project and the
-- authorization that it references, under the current policy version, stored with the digest of what
-- is stored.
pub verify_execution_profile_lem :
    (digest : Text → Text) (settings : Settings) (row : LiveRow) (authorization_id : ℕ)
    (p : ExecutionProfile)
    → ((json : Text) → is_sha256 (digest json) ≡ true)
    → (verify_execution_profile digest settings row authorization_id ≡ ok p)
      ↔ IsBound digest settings row authorization_id p row.execution_profile
          row.execution_profile_digest
verify_execution_profile_lem digest settings row authorization_id p sha = (
  verify_execution_profile-IsBound digest settings row authorization_id p,
  IsBound-verify_execution_profile digest settings row authorization_id p sha,
)
