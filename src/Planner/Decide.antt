-- ===== src/Planner/Decide.antt =====
-- `PipelinePlanner` of backend/services/pipeline_planner.py.
use aicybersec.Common.{
  ℕ, ◌+◌, Bool, true, false, not, ◌&&◌, ◌||◌, Option, none, some, List, [], ◌∷◌, ◌++◌, map, length,
  Result, ok, Exn, ◌>>=◌, if◌then◌else◌, ltb, ◌==◌,
}
use aicybersec.Common.Text.{Text, codes, is_empty, elem, text_eq, lower}
use aicybersec.Scan.{Profile, recon, web, Entry}
use aicybersec.Safety.Params.{text, items}
use aicybersec.Safety.Tools.{Decision, tool_call, finish}
use aicybersec.Safety.Policy.{normalize_target}
use aicybersec.Scope.{Net}
use aicybersec.Scope.Snapshot.{given_host}
use aicybersec.Planner.{Observed, Proposed, Seen}
use aicybersec.Planner.Targets.{
  snapshot_hosts, snapshot_web_seeds, nmap_http_urls, httpx_urls, sanitize_promoted_hosts,
  promoted_web_urls, merge_httpx_targets,
}

abbrev pub nmap : Text
nmap = codes "nmap"

abbrev pub httpx : Text
httpx = codes "httpx"

abbrev pub nuclei : Text
nuclei = codes "nuclei"

-- `_PROFILE_STAGES`, where an unknown profile is "full".
abbrev pub has_nmap : Profile → Bool
has_nmap web = false
has_nmap _ = true

abbrev pub has_nuclei : Profile → Bool
has_nuclei recon = false
has_nuclei _ = true

pub record Planner : Type 0 where
  pub profile : Profile
  pub snapshot : List Entry
  pub hosts : List Text
  pub discovered_hosts : List Text

-- `__init__`
unfoldable pub new_planner : Net → Profile → List Entry → List Text → Result Exn Planner
new_planner net profile snapshot discovered = do
  hosts ← snapshot_hosts snapshot
  promoted ← sanitize_promoted_hosts net discovered snapshot
  ok (record { profile = profile; snapshot = snapshot; hosts = hosts; discovered_hosts = promoted })

abbrev is_tool : Text → Option Text → Bool
is_tool name none = false
is_tool name (some t) = text_eq t name

-- `name in done`
unfoldable pub is_done : Text → List Observed → Bool
is_done name [] = false
is_done name (o ∷ os) = is_tool name o.tool || is_done name os

abbrev push_some : Option Text → List Text → List Text
push_some none out = out
push_some (some x) out = x ∷ out

abbrev lowered : Option Text → Option Text
lowered none = none
lowered (some t) = if is_empty t then none else some (lower t)

-- The first loop of `_nmap_pending_hosts`.
unfoldable pub covered_hosts : List Observed → List Text
covered_hosts [] = []
covered_hosts (o ∷ os) =
    let rest = covered_hosts os in
    if is_tool nmap o.tool then push_some (lowered o.target) rest else rest

-- The second loop.
unfoldable pub proposed_hosts : List Proposed → Result Exn (List Text)
proposed_hosts [] = ok []
proposed_hosts (p ∷ ps) =
    let rest = proposed_hosts ps in
    if is_tool nmap p.tool
    then (do h ← normalize_target p.target; out ← rest; ok (push_some (given_host h) out))
    else rest

unfoldable pub without : List Text → List Text → List Text
without covered [] = []
without covered (h ∷ hs) =
    let rest = without covered hs in if elem h covered then rest else h ∷ rest

-- `_nmap_pending_hosts`, where the profile has an nmap stage.
unfoldable pub nmap_pending_hosts : Planner → Seen → Result Exn (List Text)
nmap_pending_hosts p s =
    if has_nmap p.profile
    then (do
      proposed ← proposed_hosts s.steps
      ok (without (covered_hosts s.observations ++ proposed) p.hosts))
    else ok []

-- `xs or ys`
abbrev pub list_or : List Text → List Text → List Text
list_or [] ys = ys
list_or (x ∷ xs) ys = x ∷ xs

abbrev pub host_urls_of : Planner → List Text
host_urls_of p = map (λ (h : Text). codes "http://" ++ h) p.hosts

-- `_stage_targets` for httpx; the early return is what the merge of two empty lists gives.
unfoldable pub httpx_targets : Planner → Seen → List Text
httpx_targets p s =
    merge_httpx_targets
      (list_or (nmap_http_urls s.observations)
        (list_or (snapshot_web_seeds p.snapshot) (host_urls_of p)))
      (promoted_web_urls p.discovered_hosts)

-- `_stage_targets` for nuclei
unfoldable pub nuclei_targets : Planner → Seen → List Text
nuclei_targets p s =
    list_or (httpx_urls s.observations) (list_or (snapshot_web_seeds p.snapshot) (host_urls_of p))

abbrev pub is_nil : List Text → Bool
is_nil [] = true
is_nil (x ∷ xs) = false

abbrev pub one_if : Bool → ℕ
one_if true = 1
one_if false = 0

-- `remaining_stages`
unfoldable pub remaining_stages : Planner → Seen → List Text → ℕ
remaining_stages p s pending =
    length pending
    + one_if (not (is_done httpx s.observations))
    + one_if (has_nuclei p.profile && not (is_done nuclei s.observations))

abbrev pub targets_call : Text → List Text → Decision
targets_call name targets = tool_call name ((codes "targets", items targets) ∷ []) none

-- The call of the first stage that is not done; `reasoning` texts are left out.
abbrev pub stage_call : Planner → Seen → List Text → Decision
stage_call p s (target ∷ pending) =
    tool_call nmap
      ((codes "target", text target)
        ∷ (codes "ports", text (codes "80,443,3000,8000,8080"))
        ∷ (codes "profile", text (codes "safe"))
        ∷ [])
      none
stage_call p s [] =
    if is_done httpx s.observations
    then targets_call nuclei (nuclei_targets p s)
    else targets_call httpx (httpx_targets p s)

-- The three ends of `decide`, as their summaries tell them apart.
abbrev no_targets : Text
no_targets = codes "no tools were run"

abbrev complete : Text
complete = codes "complete"

abbrev over_budget : Text
over_budget = codes "Step budget reached"

-- `decide` once the pending hosts are known.
unfoldable pub choose : Planner → Seen → List Text → Decision
choose p s pending =
    let remaining = remaining_stages p s pending in
    if remaining == 0
    then finish complete
    else if ltb s.max_steps (s.step + remaining + 1)
    then finish over_budget
    else stage_call p s pending

-- `decide`
unfoldable pub decide : Planner → Seen → Result Exn Decision
decide p s =
    if is_nil p.hosts && is_nil p.discovered_hosts
    then ok (finish no_targets)
    else do ok (choose p s (← nmap_pending_hosts p s))
