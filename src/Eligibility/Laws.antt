-- ===== src/Eligibility/Laws.antt =====
-- The promoted gate widens HTTPX calls by the eligible hosts, and nothing else.
use aicybersec.Common.{
  not, ◌≡◌, refl, ◌⊎◌, inl, inr, true, ◌||◌, Option, none, some, List, [], ◌∷◌, ok, ◌>>=◌,
  >>=-eq-ok, All, IsIn, arith, Bool-cases, Option-cases,
}
use aicybersec.Common.Text.{Text, text_eq, elem}
use aicybersec.Common.Text.Laws.{elem_iff, text_eq_iff}
use aicybersec.Safety.Params.{Params}
use aicybersec.Safety.Tools.{Tool, Decision, tool_call, finish}
use aicybersec.Safety.Policy.{normalize, normalize_target, target_allowed, danger_allowed}
use aicybersec.Safety.Registry.{has, get}
use aicybersec.Safety.Validator.{
  ValidationOutcome, accepted_call, conclude, extract_targets, validate,
}
use aicybersec.Safety.Permitted.{
  IsAllowed, IsWithinCap, IsPermitted, target_allowed-IsAllowed, danger_allowed-IsWithinCap,
  find-IsIn, validate-IsPermitted,
}
use aicybersec.Eligibility.{
  PromotedValidator, is_allowlist_reason, in_eligible, httpx, passes, first_refused, recheck_policy,
  recheck_params, recheck, validate_httpx, validate_promoted,
}

-- The target is allowed by the original policy, or its host is in the eligible set.
abbrev pub IsAdmitted : PromotedValidator → Option Text → Type 0
IsAdmitted v target =
    IsAllowed v.policy target
    ⊎ ((t : Text) × (target ≡ some t)
        × (host : Text) × (normalize t ≡ ok host)
        × IsIn host v.eligible)

-- What an accepted call satisfies: all that the original gate asks for, but for the targets of an
-- HTTPX call, which may be eligible instead of allowed.
pub record IsPromoted (v : PromotedValidator) (name : Text) (raw : Params) (tool : Tool)
    (params : Params) : Type 0 where
  pub registered : IsIn tool v.registry
  pub named : tool.name ≡ name
  pub schema : tool.validate_params raw ≡ some params
  pub capped : IsWithinCap v.policy tool
  pub targets :
      All (IsAllowed v.policy) (extract_targets tool raw)
      ⊎ ((name ≡ httpx) × All (IsAdmitted v) (extract_targets tool raw))

IsPermitted-IsPromoted :
    (v : PromotedValidator) (name : Text) (raw : Params) (tool : Tool) (params : Params)
    → IsPermitted v.registry v.policy name raw tool params
    → IsPromoted v name raw tool params
IsPermitted-IsPromoted v name raw tool params h = record {
  registered = h.registered;
  named = h.named;
  schema = h.schema;
  capped = h.capped;
  targets = inl h.targets;
}

passes-IsAdmitted :
    (v : PromotedValidator) (t : Option Text) → passes v t ≡ ok true → IsAdmitted v t
unfolding passes normalize_target
passes-IsAdmitted v none e = absurd (
    let (b, eb, rest) = >>=-eq-ok (target_allowed v.policy none) _ e in
    ground (arith, target_allowed-IsAllowed v.policy none))
passes-IsAdmitted v (some s) e =
    let (b, eb, rest) = >>=-eq-ok (target_allowed v.policy (some s)) _ e in
    elim (Bool-cases b) [
      | inl allowed ↦ inl (target_allowed-IsAllowed v.policy (some s) (rw allowed at eb))
      | inr other ↦
          let inner : (normalize s >>= (λ n. ok (some n)) >>= λ o. ok (in_eligible v.eligible o))
              ≡ ok true =
            rw other at rest in
          let (x, ex, last) = >>=-eq-ok (normalize s >>= λ n. ok (some n)) _ inner in
          let (host, eh, same) = >>=-eq-ok (normalize s) _ ex in
          let member : elem host v.eligible ≡ true = ground arith in
          inr (s, refl, host, eh, (elem_iff host v.eligible).0 member)
    ]

first_refused-All :
    (v : PromotedValidator) (ts : List (Option Text))
    → first_refused v ts ≡ ok none
    → All (IsAdmitted v) ts
unfolding first_refused
first_refused-All v [] e = tt
first_refused-All v (t ∷ ts) e =
    let (b, eb, rest) = >>=-eq-ok (passes v t) _ e in
    elim (Bool-cases b) [
      | inl pass ↦ (passes-IsAdmitted v t (rw pass at eb), first_refused-All v ts (rw pass at rest))
      | inr stop ↦ absurd (let bad : ok (some t) ≡ ok none = rw stop at rest in cc)
    ]

abbrev Rechecked : PromotedValidator → Tool → Params → Params → ValidationOutcome → Type 0
Rechecked v tool raw params o =
    IsWithinCap v.policy tool
    × All (IsAdmitted v) (extract_targets tool raw)
    × (o ≡ accepted_call tool params)

recheck_policy-Rechecked :
    (v : PromotedValidator) (tool : Tool) (raw params : Params) (o : ValidationOutcome)
    → recheck_policy v tool raw params ≡ ok o
    → o.accepted ≡ true
    → Rechecked v tool raw params o
unfolding recheck_policy
recheck_policy-Rechecked v tool raw params o e a =
    let (b, eb, rest) = >>=-eq-ok (danger_allowed v.policy tool) _ e in
    elim (Bool-cases b) [
      | inl safe ↦
          let inner : (first_refused v (extract_targets tool raw) >>= λ d.
          ok (conclude v.policy tool params d))
              ≡ ok o =
            rw safe at rest in
          let (d, ed, last) = >>=-eq-ok (first_refused v (extract_targets tool raw)) _ inner in
          elim (Option-cases d) [
            | inl clear ↦ (
              danger_allowed-IsWithinCap v.policy tool (rw safe at eb),
              first_refused-All v (extract_targets tool raw) (rw clear at ed),
              ground arith,
            )
            | inr (t, denied) ↦ absurd (ground arith)
          ]
      | inr unsafe ↦ absurd (ground arith)
    ]

recheck-IsPromoted :
    (v : PromotedValidator) (raw : Params) (o : ValidationOutcome)
    → recheck v httpx raw ≡ ok o
    → o.accepted ≡ true
    → (tool : Tool) × (params : Params) × (o ≡ accepted_call tool params)
      × IsPromoted v httpx raw tool params
unfolding recheck recheck_params get
recheck-IsPromoted v raw o e a = elim (Bool-cases (has v.registry httpx)) [
  | inr missing ↦ absurd (ground arith)
  | inl there ↦
      let inner : (get v.registry httpx >>= λ tool.
      recheck_params v tool httpx raw (tool.validate_params raw))
          ≡ ok o =
        rw there at e in
      let (tool, et, rest) = >>=-eq-ok (get v.registry httpx) _ inner in
      elim (Option-cases (tool.validate_params raw)) [
        | inl bad ↦ absurd (ground arith)
        | inr (params, good) ↦
            let (within, admitted, shape) =
              recheck_policy-Rechecked v tool raw params o (rw good at rest) a in
            let (i, n) = find-IsIn v.registry httpx tool (ground arith) in
            (
              tool,
              params,
              shape,
              record {
                registered = i;
                named = n;
                schema = good;
                capped = within;
                targets = inr (refl, admitted);
              },
            )
      ]
]

base-IsPromoted :
    (v : PromotedValidator) (name : Text) (raw : Params) (reasoning : Option Text)
    (o : ValidationOutcome)
    → validate v.registry v.policy (tool_call name raw reasoning) ≡ ok o
    → o.accepted ≡ true
    → (tool : Tool) × (params : Params) × (o ≡ accepted_call tool params)
      × IsPromoted v name raw tool params
base-IsPromoted v name raw reasoning o e a =
    let (tool, params, shape, h) =
      validate-IsPermitted v.registry v.policy name raw reasoning o e a in
    (tool, params, shape, IsPermitted-IsPromoted v name raw tool params h)

-- An accepted call is registered, has params that its schema took, and stays within the danger cap
-- of the original policy. Each target is allowed by the original policy, or has a host in the
-- eligible set; for every tool but httpx all targets are allowed by the original policy.
pub validate_promoted-IsPromoted :
    (v : PromotedValidator) (name : Text) (raw : Params) (reasoning : Option Text)
    (o : ValidationOutcome)
    → validate_promoted v (tool_call name raw reasoning) ≡ ok o
    → o.accepted ≡ true
    → (tool : Tool) × (params : Params) × (o ≡ accepted_call tool params)
      × IsPromoted v name raw tool params
unfolding validate_promoted validate_httpx
validate_promoted-IsPromoted v name raw reasoning o e a = elim (Bool-cases (text_eq name httpx)) [
  | inr other ↦ base-IsPromoted v name raw reasoning o (rw other at e) a
  | inl is_httpx ↦
      let same : name ≡ httpx = (text_eq_iff name httpx).0 is_httpx in
      let inner = rw is_httpx at e in
      let (base, eb, rest) =
        >>=-eq-ok (validate v.registry v.policy (tool_call name raw reasoning)) _ inner in
      elim (Bool-cases (base.accepted || not (is_allowlist_reason base.reason))) [
        | inl kept ↦ base-IsPromoted v name raw reasoning o (ground arith) a
        | inr again ↦ rw same (recheck-IsPromoted v raw o (rw same at (rw again at rest)) a)
      ]
]

-- The promoted gate only adds: a decision that the original gate accepts has the same outcome.
pub validate-validate_promoted :
    (v : PromotedValidator) (d : Decision) (o : ValidationOutcome)
    → validate v.registry v.policy d ≡ ok o
    → o.accepted ≡ true
    → validate_promoted v d ≡ ok o
unfolding validate_promoted validate_httpx
validate-validate_promoted v (finish summary) o e a = e
validate-validate_promoted v (tool_call name raw reasoning) o e a = ground arith
