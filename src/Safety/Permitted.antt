-- ===== src/Safety/Permitted.antt =====
-- What an accepted tool call is, said without the code: soundness and completeness of the gate.
use aicybersec.Common.{
  ℕ, ◌≤◌, ◌≡◌, refl, sym, ◌⊎◌, inl, inr, true, Option, none, some, List, [], ◌∷◌, ok, ◌>>=◌,
  >>=-eq-ok, All, IsIn, arith, Bool-cases, Option-cases,
}
use aicybersec.Common.Text.{Text, text_eq, elem}
use aicybersec.Common.Text.Laws.{elem_iff, text_eq_iff}
use aicybersec.Safety.Params.{Params}
use aicybersec.Safety.Tools.{rank, exceeds, Tool, tool_call}
use aicybersec.Safety.Policy.{
  Policy, normalize, normalize_target, normalize_all, allowed_in, target_allowed, danger_allowed,
}
use aicybersec.Safety.Registry.{Registry, has, find, get}
use aicybersec.Safety.Validator.{
  ValidationOutcome, accepted_call, extract_targets, first_denied, conclude, stage_policy,
  stage_params, validate,
}

-- A target is given, and has the host of some allowlist entry.
abbrev pub IsAllowed : Policy → Option Text → Type 0
IsAllowed p target =
    (t : Text) × (target ≡ some t)
    × (host : Text) × (normalize t ≡ ok host)
    × (entry : Text) × IsIn entry p.allowed_targets
    × (normalize entry ≡ ok host)

-- The danger level of the tool is known, and not above the policy's.
abbrev pub IsWithinCap : Policy → Tool → Type 0
IsWithinCap p tool =
    (v : ℕ) × (rank tool.danger_level ≡ ok v) × (cap : ℕ) × (rank p.max_danger ≡ ok cap) × (v ≤ cap)

-- What the gate lets through.
pub record IsPermitted (r : Registry) (p : Policy) (name : Text) (raw : Params) (tool : Tool)
    (params : Params) : Type 0 where
  pub registered : IsIn tool r
  pub named : tool.name ≡ name
  pub schema : tool.validate_params raw ≡ some params
  pub capped : IsWithinCap p tool
  pub targets : All (IsAllowed p) (extract_targets tool raw)

IsIn-normalize_all :
    (ts ns : List Text) (n : Text)
    → normalize_all ts ≡ ok ns
    → IsIn n ns
    → (entry : Text) × IsIn entry ts × (normalize entry ≡ ok n)
unfolding normalize_all
IsIn-normalize_all [] ns n e m = absurd (ground (arith))
IsIn-normalize_all (t ∷ ts) ns n e m =
    let (x, ex, rest) = >>=-eq-ok (normalize t) _ e in
    let (xs, exs, last) = >>=-eq-ok (normalize_all ts) _ rest in
    let shape : ns ≡ x ∷ xs = cc in
    let m' : (n ≡ x) ⊎ IsIn n xs = rw shape at m in
    elim m' [
      | inl q ↦ (t, inl refl, rw q ex)
      | inr q ↦ let (entry, i, h) = IsIn-normalize_all ts xs n exs q in (entry, inr i, h)
    ]

normalize_all-IsIn :
    (ts ns : List Text) (t n : Text)
    → normalize_all ts ≡ ok ns
    → IsIn t ts
    → normalize t ≡ ok n
    → IsIn n ns
unfolding normalize_all
normalize_all-IsIn [] ns t n e m h = absurd m
normalize_all-IsIn (u ∷ ts) ns t n e m h =
    let (x, ex, rest) = >>=-eq-ok (normalize u) _ e in
    let (xs, exs, last) = >>=-eq-ok (normalize_all ts) _ rest in
    let shape : ns ≡ x ∷ xs = cc in
    rw shape (elim m [
      | inl q ↦ inl (let q' : normalize u ≡ ok n = rw q at h in cc)
      | inr q ↦ inr (normalize_all-IsIn ts xs t n exs q h)
    ])

-- The allowlist test says yes only for a target that is given and whose host is that of an entry.
pub target_allowed-IsAllowed :
    (p : Policy) (target : Option Text) → target_allowed p target ≡ ok true → IsAllowed p target
unfolding target_allowed allowed_in normalize_target
target_allowed-IsAllowed p none e = cc
target_allowed-IsAllowed p (some t) e =
    let (x, ex, rest) = >>=-eq-ok (normalize t >>= λ n. ok (some n)) _ e in
    let (host, eh, same) = >>=-eq-ok (normalize t) _ ex in
    let shape : x ≡ some host = cc in
    let test : (normalize_all p.allowed_targets >>= λ ns. ok (elem host ns)) ≡ ok true =
      rw shape at rest in
    let (ns, ens, last) = >>=-eq-ok (normalize_all p.allowed_targets) _ test in
    let member : elem host ns ≡ true = cc in
    let (entry, i, h) =
      IsIn-normalize_all p.allowed_targets ns host ens ((elem_iff host ns).0 member) in
    (t, refl, host, eh, entry, i, h)

-- The other way round, where no entry of the allowlist makes the URL parser raise.
pub IsAllowed-target_allowed :
    (p : Policy) (target : Option Text) (hosts : List Text)
    → normalize_all p.allowed_targets ≡ ok hosts
    → IsAllowed p target
    → target_allowed p target ≡ ok true
unfolding target_allowed allowed_in normalize_target
IsAllowed-target_allowed p target hosts e (t, given, host, eh, entry, i, h) = rw (
  given,
  eh,
  e,
  (elem_iff host hosts).1 (normalize_all-IsIn p.allowed_targets hosts entry host e i h),
)

first_denied-All :
    (p : Policy) (ts : List (Option Text)) → first_denied p ts ≡ ok none → All (IsAllowed p) ts
unfolding first_denied
first_denied-All p [] e = tt
first_denied-All p (t ∷ ts) e =
    let (b, eb, rest) = >>=-eq-ok (target_allowed p t) _ e in
    elim (Bool-cases b) [
      | inl yes' ↦
          (target_allowed-IsAllowed p t (rw yes' at eb), first_denied-All p ts (rw yes' at rest))
      | inr no' ↦ absurd (let bad : (ok (some t)) ≡ ok none = rw no' at rest in cc)
    ]

pub All-first_denied :
    (p : Policy) (ts : List (Option Text)) (hosts : List Text)
    → normalize_all p.allowed_targets ≡ ok hosts
    → All (IsAllowed p) ts
    → first_denied p ts ≡ ok none
unfolding first_denied
All-first_denied p [] hosts e h = refl
All-first_denied p (t ∷ ts) hosts e (a, h) =
    rw (IsAllowed-target_allowed p t hosts e a) (All-first_denied p ts hosts e h)

pub danger_allowed-IsWithinCap :
    (p : Policy) (tool : Tool) → danger_allowed p tool ≡ ok true → IsWithinCap p tool
unfolding danger_allowed exceeds
danger_allowed-IsWithinCap p tool e =
    let (b, eb, rest) = >>=-eq-ok (exceeds tool.danger_level p.max_danger) _ e in
    let (v, ev, rest1) = >>=-eq-ok (rank tool.danger_level) _ eb in
    let (c, ec, rest2) = >>=-eq-ok (rank p.max_danger) _ rest1 in (v, ev, c, ec, ground arith)

pub IsWithinCap-danger_allowed :
    (p : Policy) (tool : Tool) → IsWithinCap p tool → danger_allowed p tool ≡ ok true
unfolding danger_allowed exceeds
IsWithinCap-danger_allowed p tool (v, ev, c, ec, h) = rw (ev, ec) (ground arith)

pub find-IsIn :
    (r : Registry) (name : Text) (tool : Tool)
    → find r name ≡ some tool
    → IsIn tool r × (tool.name ≡ name)
unfolding find
find-IsIn [] name tool e = cc
find-IsIn (t ∷ r) name tool e = elim (Bool-cases (text_eq name t.name)) [
  | inl same ↦
      let found : t ≡ tool = ground arith in
      (inl (sym found), rw (← found) (sym ((text_eq_iff name t.name).0 same)))
  | inr other ↦ let (i, n) = find-IsIn r name tool (rw other at e) in (inr i, n)
]

-- What stage 2 has found when it accepts.
abbrev Passed : Policy → Tool → Params → Params → ValidationOutcome → Type 0
Passed p tool raw params o =
    IsWithinCap p tool
    × All (IsAllowed p) (extract_targets tool raw)
    × (o ≡ accepted_call tool params)

stage_policy-Passed :
    (p : Policy) (tool : Tool) (raw params : Params) (o : ValidationOutcome)
    → stage_policy p tool raw params ≡ ok o
    → o.accepted ≡ true
    → Passed p tool raw params o
unfolding stage_policy
stage_policy-Passed p tool raw params o e a =
    let (b, eb, rest) = >>=-eq-ok (danger_allowed p tool) _ e in
    elim (Bool-cases b) [
      | inl safe ↦
          let inner : (first_denied p (extract_targets tool raw) >>= λ d.
          ok (conclude p tool params d))
              ≡ ok o =
            rw safe at rest in
          let (d, ed, last) = >>=-eq-ok (first_denied p (extract_targets tool raw)) _ inner in
          elim (Option-cases d) [
            | inl clear ↦ (
              danger_allowed-IsWithinCap p tool (rw safe at eb),
              first_denied-All p (extract_targets tool raw) (rw clear at ed),
              ground arith,
            )
            | inr (t, denied) ↦ absurd (ground arith)
          ]
      | inr unsafe ↦ absurd (ground arith)
    ]

-- An accepted tool call is permitted: the tool is registered under the name, its schema took the
-- params, its danger level is within the policy's cap, and every target has an allowlisted host. The
-- outcome carries this tool and these params.
pub validate-IsPermitted :
    (r : Registry) (p : Policy) (name : Text) (raw : Params) (reasoning : Option Text)
    (o : ValidationOutcome)
    → validate r p (tool_call name raw reasoning) ≡ ok o
    → o.accepted ≡ true
    → (tool : Tool) × (params : Params) × (o ≡ accepted_call tool params)
      × IsPermitted r p name raw tool params
unfolding validate get stage_params
validate-IsPermitted r p name raw reasoning o e a = elim (Bool-cases (has r name)) [
  | inr missing ↦ absurd (ground arith)
  | inl there ↦
      let inner : (get r name >>= λ tool. stage_params p tool name raw (tool.validate_params raw))
          ≡ ok o =
        rw there at e in
      let (tool, et, rest) = >>=-eq-ok (get r name) _ inner in
      elim (Option-cases (tool.validate_params raw)) [
        | inl bad ↦ absurd (ground arith)
        | inr (params, good) ↦
            let (within, allowed, shape) =
              stage_policy-Passed p tool raw params o (rw good at rest) a in
            let (i, n) = find-IsIn r name tool (ground arith) in
            (
              tool,
              params,
              shape,
              record {
                registered = i;
                named = n;
                schema = good;
                capped = within;
                targets = allowed;
              },
            )
      ]
]
