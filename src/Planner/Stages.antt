-- ===== src/Planner/Stages.antt =====
-- What `decide` of backend/services/pipeline_planner.py proposes.
use mathlib.Core.Path.{subst}
use aicybersec.Common.{
  ◌+◌, ◌≤◌, ◌≡◌, refl, sym, ◌⊎◌, inl, inr, true, false, ◌&&◌, not, Option, List, [], ◌∷◌, ◌++◌, ok,
  ◌>>=◌, >>=-eq-ok, IsIn, Bool-cases, arith, ltb, ◌==◌,
}
use aicybersec.Common.Text.{Text, codes, elem}
use aicybersec.Safety.Params.{Params, text, items}
use aicybersec.Safety.Tools.{tool_call}
use aicybersec.Planner.{Seen}
use aicybersec.Planner.Decide.{
  nmap, httpx, nuclei, has_nmap, has_nuclei, Planner, is_done, without, nmap_pending_hosts,
  covered_hosts, proposed_hosts, httpx_targets, nuclei_targets, remaining_stages, targets_call,
  stage_call, choose, decide, is_nil,
}

IsIn-without :
    (covered hosts : List Text) (h : Text) → IsIn h (without covered hosts) → IsIn h hosts
unfolding without
IsIn-without covered [] h m = absurd m
IsIn-without covered (x ∷ xs) h m = elim (Bool-cases (elem x covered)) [
  | inl done ↦ inr (IsIn-without covered xs h (rw done at m))
  | inr open' ↦
      let n : (h ≡ x) ⊎ IsIn h (without covered xs) = rw open' at m in
      elim n [ inl e ↦ inl e | inr k ↦ inr (IsIn-without covered xs h k) ]
]

IsIn-nmap_pending_hosts :
    (p : Planner) (s : Seen) (pending : List Text) (h : Text)
    → nmap_pending_hosts p s ≡ ok pending
    → IsIn h pending
    → IsIn h p.hosts
unfolding nmap_pending_hosts
IsIn-nmap_pending_hosts p s pending h e m = elim (Bool-cases (has_nmap p.profile)) [
  | inl has_stage ↦
      let inner : (proposed_hosts s.steps >>= λ proposed.
      ok (without (covered_hosts s.observations ++ proposed) p.hosts))
          ≡ ok pending =
        rw has_stage at e in
      let (proposed, ep, rest) = >>=-eq-ok (proposed_hosts s.steps) _ inner in
      let same : without (covered_hosts s.observations ++ proposed) p.hosts ≡ pending = cc in
      IsIn-without _ p.hosts h (rw (← same) at m)
  | inr no_stage ↦ absurd (
      let empty : ok [] ≡ ok pending = rw no_stage at e in
      let nil : [] ≡ pending = cc in subst (λ (xs : List Text). IsIn h xs) (sym nil) m)
]

-- What a proposed call is: nmap on a host of the planner, or httpx or nuclei on the targets of its
-- stage, the stage not being done.
abbrev pub IsStageCall : Planner → Seen → Text → Params → Type 0
IsStageCall p s name params =
    ((name ≡ nmap)
      × (target : Text) × IsIn target p.hosts
      × (params
          ≡ (codes "target", text target)
            ∷ (codes "ports", text (codes "80,443,3000,8000,8080"))
            ∷ (codes "profile", text (codes "safe"))
            ∷ []))
    ⊎ ((name ≡ httpx)
        × (is_done httpx s.observations ≡ false)
        × (params ≡ (codes "targets", items (httpx_targets p s)) ∷ []))
    ⊎ ((name ≡ nuclei)
        × (is_done nuclei s.observations ≡ false)
        × (has_nuclei p.profile ≡ true)
        × (params ≡ (codes "targets", items (nuclei_targets p s)) ∷ []))

IsStageCall-stage_call :
    (p : Planner) (s : Seen) (pending : List Text) (name : Text) (params : Params)
    (reasoning : Option Text)
    → ((h : Text) → IsIn h pending → IsIn h p.hosts)
    → (remaining_stages p s pending == 0) ≡ false
    → stage_call p s pending ≡ tool_call name params reasoning
    → IsStageCall p s name params
unfolding remaining_stages
IsStageCall-stage_call p s (target ∷ pending) name params reasoning f r e =
    inl (cc, target, f target (inl refl), cc)
IsStageCall-stage_call p s [] name params reasoning f r e =
    elim (Bool-cases (is_done httpx s.observations)) [
      | inr todo ↦
          let call : targets_call httpx (httpx_targets p s) ≡ tool_call name params reasoning =
            rw todo at e in
          inr (inl (cc, todo, cc))
      | inl over ↦
          let call : targets_call nuclei (nuclei_targets p s) ≡ tool_call name params reasoning =
            rw over at e in
          let left : (has_nuclei p.profile && not (is_done nuclei s.observations)) ≡ true =
            ground arith in
          inr (inr (cc, ground arith, ground arith, cc))
    ]

-- A tool that the planner proposes leaves a step for the end of the run, and is one of three: nmap on
-- one of the planner's hosts; httpx, or nuclei where the profile has it, on the targets of its stage,
-- when that stage is not done.
pub decide-IsStageCall :
    (p : Planner) (s : Seen) (name : Text) (params : Params) (reasoning : Option Text)
    → decide p s ≡ ok (tool_call name params reasoning)
    → (s.step + 2 ≤ s.max_steps) × IsStageCall p s name params
unfolding decide choose
decide-IsStageCall p s name params reasoning e =
    elim (Bool-cases (is_nil p.hosts && is_nil p.discovered_hosts)) [
      | inl empty ↦ absurd (ground arith)
      | inr some_host ↦
          let inner : (nmap_pending_hosts p s >>= λ pending. ok (choose p s pending))
              ≡ ok (tool_call name params reasoning) =
            rw some_host at e in
          let (pending, ep, rest) = >>=-eq-ok (nmap_pending_hosts p s) _ inner in
          let some_stage : (remaining_stages p s pending == 0) ≡ false = ground arith in
          let in_budget : ltb s.max_steps (s.step + remaining_stages p s pending + 1) ≡ false =
            ground arith in
          let call : stage_call p s pending ≡ tool_call name params reasoning = ground arith in
          (
            ground arith,
            IsStageCall-stage_call p s pending name params reasoning
                (λ h. IsIn-nmap_pending_hosts p s pending h ep) some_stage call,
          )
    ]
