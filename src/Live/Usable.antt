-- ===== src/Live/Usable.antt =====
-- When an authorization may be used: `effective_origins` and `authorization_payload`.
use aicybersec.Common.{
  ℕ, ◌≡◌, refl, sym, ap, ◌∙◌, true, false, not, List, [], ◌∷◌, ok, ◌≤◌, ◌<◌, ◌↔◌, All, IsIn,
  IsUnique, ◌⊎◌, inl, inr, Bool-cases, leb, ltb, >>=-eq-ok, ok_inv, passed, arith,
}
use aicybersec.Common.Text.{Text, text_eq, elem}
use aicybersec.Common.Text.Laws.{text_eq_refl, eq_of_text_eq, elem_iff, not_IsIn}
use aicybersec.Common.Order.{IsOrdered, IsOrdered-tail, IsOrdered-All, All-IsOrdered}
use aicybersec.Scope.{Net}
use aicybersec.Live.{Settings}
use aicybersec.Live.Origin.{
  Origin, parse_origin_list, effective_origins, without_keys, keys_of, key_of,
}
use aicybersec.Live.Record.{
  AuthorizationStatus, active, suspended, revoked, LiveAuthorization, is_nil, get_method,
}
use aicybersec.Live.Snapshot.{Core, texts_eq, is_active, payload_of, authorization_payload}
use aicybersec.Live.Canonical.{IsCanonical}
use aicybersec.Live.Canonical.Lists.{IsListing, IsListing-parse_origin_list}
use aicybersec.Live.Issue.{IsWellFormed}

pub texts_eq_refl : (ts : List Text) → texts_eq ts ts ≡ true
texts_eq_refl [] = refl
texts_eq_refl (t ∷ ts) = rw (text_eq_refl t) (texts_eq_refl ts)

pub eq_of_texts_eq : (ss ts : List Text) → texts_eq ss ts ≡ true → ss ≡ ts
eq_of_texts_eq [] [] h = refl
eq_of_texts_eq [] (t ∷ ts) h = cc
eq_of_texts_eq (s ∷ ss) [] h = cc
eq_of_texts_eq (s ∷ ss) (t ∷ ts) h =
    let first = eq_of_text_eq s t (ground arith) in
    let rest = eq_of_texts_eq ss ts (ground arith) in cc

module _ (blocked : List Text) where
  without_keys-IsIn :
      (o : Origin) (os : List Origin)
      → IsIn o (without_keys blocked os)
      → IsIn o os × ¬ IsIn o.origin blocked
  unfolding without_keys
  without_keys-IsIn o [] m = absurd m
  without_keys-IsIn o (p ∷ ps) m = elim (Bool-cases (elem p.origin blocked)) [
    | inl b ↦ let (i, n) = without_keys-IsIn o ps (rw b at m) in (inr i, n)
    | inr f ↦
        let kept : (o ≡ p) ⊎ IsIn o (without_keys blocked ps) = rw f at m in
        elim kept [
          | inl e ↦ (inl e, rw e (not_IsIn p.origin blocked f))
          | inr k ↦ let (i, n) = without_keys-IsIn o ps k in (inr i, n)
        ]
  ]

  IsIn-without_keys :
      (o : Origin) (os : List Origin)
      → IsIn o os
      → ¬ IsIn o.origin blocked
      → IsIn o (without_keys blocked os)
  unfolding without_keys
  IsIn-without_keys o [] m n = m
  IsIn-without_keys o (p ∷ ps) (inl e) n = elim (Bool-cases (elem p.origin blocked)) [
    | inl b ↦ absurd (n (rw e ((elem_iff p.origin blocked).0 b)))
    | inr f ↦ rw f (inl e)
  ]
  IsIn-without_keys o (p ∷ ps) (inr m) n = elim (Bool-cases (elem p.origin blocked)) [
    | inl b ↦ rw b (IsIn-without_keys o ps m n)
    | inr f ↦ rw f (inr (IsIn-without_keys o ps m n))
  ]

  without_keys-All :
      (P : Origin → Type 0) (os : List Origin) → All P os → All P (without_keys blocked os)
  unfolding without_keys
  without_keys-All P [] h = tt
  without_keys-All P (p ∷ ps) h = elim (Bool-cases (elem p.origin blocked)) [
    | inl b ↦ rw b (without_keys-All P ps h.1)
    | inr f ↦ rw f (h.0, without_keys-All P ps h.1)
  ]

  without_keys-IsUnique : (os : List Origin) → IsUnique os → IsUnique (without_keys blocked os)
  unfolding without_keys
  without_keys-IsUnique [] u = tt
  without_keys-IsUnique (p ∷ ps) u = elim (Bool-cases (elem p.origin blocked)) [
    | inl b ↦ rw b (without_keys-IsUnique ps u.1)
    | inr f ↦ rw f ((λ m. u.0 (without_keys-IsIn p ps m).0), without_keys-IsUnique ps u.1)
  ]

  without_keys-IsOrdered :
      (os : List Origin) → IsOrdered key_of os → IsOrdered key_of (without_keys blocked os)
  unfolding without_keys
  without_keys-IsOrdered [] o = tt
  without_keys-IsOrdered (p ∷ ps) o = elim (Bool-cases (elem p.origin blocked)) [
    | inl b ↦ rw b (without_keys-IsOrdered ps (IsOrdered-tail key_of p ps o))
    | inr f ↦ rw f (
        All-IsOrdered key_of p (without_keys blocked ps)
          (without_keys-All _ ps (IsOrdered-All key_of p ps o))
          (without_keys-IsOrdered ps (IsOrdered-tail key_of p ps o)))
  ]

-- Exclusions take precedence: the effective origins are exactly the origins whose text no exclusion
-- has.
pub IsIn-effective_origins :
    (origins exclusions : List Origin) (o : Origin)
    → IsIn o (effective_origins origins exclusions)
      ↔ (IsIn o origins × ¬ IsIn o.origin (keys_of exclusions))
unfolding effective_origins
IsIn-effective_origins origins exclusions o = (
  without_keys-IsIn (keys_of exclusions) o origins,
  λ h. IsIn-without_keys (keys_of exclusions) o origins h.0 h.1,
)

pub effective_origins-IsListing :
    (net : Net) (origins exclusions : List Origin)
    → IsListing net origins
    → is_nil (effective_origins origins exclusions) ≡ false
    → IsListing net (effective_origins origins exclusions)
unfolding effective_origins
effective_origins-IsListing net origins exclusions (n, ordered, all, unique) left =
    let blocked = keys_of exclusions in
    (
      λ e. cc (ap is_nil e),
      without_keys-IsOrdered blocked origins ordered,
      without_keys-All blocked (IsCanonical net) origins all,
      without_keys-IsUnique blocked origins unique,
    )

-- An authorization that may be used at a time, under the current settings.
pub record IsUsable (settings : Settings) (now : ℕ) (auth : LiveAuthorization) : Type 0 where
  pub status : auth.status ≡ active
  pub started : auth.valid_from ≤ now
  pub running : now < auth.valid_until
  pub version : auth.policy_version ≡ settings.live_probe_policy_version

is_active-active : (s : AuthorizationStatus) → not (is_active s) ≡ false → s ≡ active
is_active-active active h = refl
is_active-active suspended h = cc
is_active-active revoked h = cc

pub authorization_payload-IsUsable :
    (net : Net) (settings : Settings) (now : ℕ) (auth : LiveAuthorization) (core : Core)
    → authorization_payload net settings now auth ≡ ok core
    → IsUsable settings now auth × (core ≡ payload_of auth)
unfolding authorization_payload
authorization_payload-IsUsable net settings now auth core e =
    let (status, e1) = passed (not (is_active auth.status)) _ _ core e in
    let (started, e2) = passed (ltb now auth.valid_from) _ _ core e1 in
    let (running, e3) = passed (leb auth.valid_until now) _ _ core e2 in
    let (version, e4) =
      passed (not (text_eq auth.policy_version settings.live_probe_policy_version)) _ _ core e3 in
    let (methods, e5) = passed (not (texts_eq auth.methods get_method)) _ _ core e4 in
    let (left, e6) = passed (is_nil (effective_origins auth.origins auth.exclusions)) _ _ core e5 in
    let (rendered, r, e7) =
      >>=-eq-ok (parse_origin_list net (keys_of (effective_origins auth.origins auth.exclusions))) _
        e6 in
    let (same, last) =
      passed
        (not
          (texts_eq (keys_of rendered) (keys_of (effective_origins auth.origins auth.exclusions))))
        _ _ core e7 in
    (
      record {
        status = is_active-active auth.status status;
        started = ground arith;
        running = ground arith;
        version = eq_of_text_eq _ _ (ground arith);
      },
      sym (ok_inv _ _ last),
    )

pub IsUsable-authorization_payload :
    (net : Net) (settings : Settings) (now : ℕ) (auth : LiveAuthorization)
    → IsWellFormed net auth
    → IsUsable settings now auth
    → authorization_payload net settings now auth ≡ ok (payload_of auth)
unfolding authorization_payload
IsUsable-authorization_payload net settings now auth w u =
    let listing =
      effective_origins-IsListing net auth.origins auth.exclusions w.origins w.effective in
    let early : ltb now auth.valid_from ≡ false = let s = u.started in ground arith in
    let late : leb auth.valid_until now ≡ false = let s = u.running in ground arith in
    let version : text_eq auth.policy_version settings.live_probe_policy_version ≡ true =
      rw u.version (text_eq_refl settings.live_probe_policy_version) in
    let methods : texts_eq auth.methods get_method ≡ true =
      rw w.methods (texts_eq_refl get_method) in
    let active_now : is_active auth.status ≡ true = rw u.status refl in
    rw
      (
        active_now,
        early,
        late,
        version,
        methods,
        w.effective,
        IsListing-parse_origin_list net _ listing,
        texts_eq_refl (keys_of (effective_origins auth.origins auth.exclusions)),
      )
      refl

-- A well-formed authorization may be used exactly while it is active, of the current policy version
-- and within its window; what it grants is then the record's own payload.
pub authorization_payload_lem :
    (net : Net) (settings : Settings) (now : ℕ) (auth : LiveAuthorization) (core : Core)
    → IsWellFormed net auth
    → (authorization_payload net settings now auth ≡ ok core)
      ↔ (IsUsable settings now auth × (core ≡ payload_of auth))
authorization_payload_lem net settings now auth core w = (
  authorization_payload-IsUsable net settings now auth core,
  λ h. IsUsable-authorization_payload net settings now auth w h.0 ∙ ap ok (sym h.1),
)
