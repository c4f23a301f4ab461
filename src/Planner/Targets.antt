-- ===== src/Planner/Targets.antt =====
-- The target lists of backend/services/pipeline_planner.py.
use aicybersec.Common.{
  ℕ, Bool, true, false, ◌&&◌, ◌||◌, Option, none, some, List, [], ◌∷◌, ◌++◌, map, length, take,
  Result, ok, Exn, ◌>>=◌, if◌then◌else◌, leb, ltb, ◌==◌,
}
use aicybersec.Common.Order.{sort_by}
use aicybersec.Common.Text.{decimal, Text, codes, is_empty, elem, starts_with}
use aicybersec.Scan.{ScopeType, host, url, Entry}
use aicybersec.Safety.Policy.{normalize_target}
use aicybersec.Scope.{Net}
use aicybersec.Scope.Names.{normalize_hostname, is_within_domain, append_some}
use aicybersec.Scope.Snapshot.{if_new, given_host, snapshot_parents}
use aicybersec.Planner.{Port, HostData, Service, Observed}

-- A loop that appends what is new and stops at a bound. `collected` are the items of its rounds.
unfoldable pub collect_new : ℕ → List Text → List (Option Text) → List Text
collect_new bound out [] = out
collect_new bound out (item ∷ items) =
    let next = append_some out (if_new out item) in
    let rest = collect_new bound next items in if leb bound (length next) then next else rest

abbrev is_host_or_url : ScopeType → Bool
is_host_or_url host = true
is_host_or_url url = true
is_host_or_url _ = false

abbrev host_entry : Entry → Result Exn (Option Text)
host_entry entry =
    if is_host_or_url entry.type
    then (do ok (given_host (← normalize_target entry.value)))
    else ok none

-- `_snapshot_hosts`, from the hosts found so far.
unfoldable pub hosts_upto : List Text → List Entry → Result Exn (List Text)
hosts_upto hosts [] = ok hosts
hosts_upto hosts (entry ∷ snapshot) = do
  h ← host_entry entry
  let next = append_some hosts (if_new hosts h)
  let rest = hosts_upto next snapshot
  if leb 10 (length next) then ok next else rest

unfoldable pub snapshot_hosts : List Entry → Result Exn (List Text)
snapshot_hosts snapshot = hosts_upto [] snapshot

abbrev seed_value : Option Text → Option Text
seed_value none = none
seed_value (some v) =
    if starts_with v (codes "http://") || starts_with v (codes "https://") then some v else none

abbrev seed_of : Entry → Option Text
seed_of entry = elim entry.type [ url ↦ seed_value entry.value | _ ↦ none ]

-- `_snapshot_web_seeds`
unfoldable pub snapshot_web_seeds : List Entry → List Text
unfolding collect_new starts_with
snapshot_web_seeds snapshot = collect_new 10 [] (map seed_of snapshot)

abbrev port_url : Text → Port → Option Text
port_url ip port = elim port.number [
  | none ↦ none
  | some n ↦
      if port.is_open
      then some (
          (if n == 443 then codes "https" else codes "http")
          ++ codes "://"
          ++ ip
          ++ codes ":"
          ++ decimal n)
      else none
]

abbrev host_urls : List HostData → List (Option Text)
host_urls [] = []
host_urls (h ∷ hs) =
    let rest = host_urls hs in if is_empty h.ip then rest else map (port_url h.ip) h.ports ++ rest

abbrev all_urls : List Observed → List (Option Text)
all_urls [] = []
all_urls (o ∷ os) = host_urls o.hosts ++ all_urls os

-- `_nmap_http_urls`
unfoldable pub nmap_http_urls : List Observed → List Text
unfolding collect_new decimal
nmap_http_urls observations = collect_new 10 [] (all_urls observations)

abbrev is_success : Option ℕ → Bool
is_success none = false
is_success (some code) = leb 200 code && ltb code 300

-- The loop of `_httpx_urls` over the services, with `ok_urls` and `other_urls`.
unfoldable pub sort_services : List Text → List Text → List Service → List Text × List Text
sort_services oks others [] = (oks, others)
sort_services oks others (svc ∷ services) =
    let skipped = sort_services oks others services in
    let good = sort_services (oks ++ svc.url ∷ []) others services in
    let bad = sort_services oks (others ++ svc.url ∷ []) services in
    if is_empty svc.url || elem svc.url oks || elem svc.url others
    then skipped
    else if is_success svc.status_code
    then good
    else bad

abbrev all_services : List Observed → List Service
all_services [] = []
all_services (o ∷ os) = o.services ++ all_services os

-- `_httpx_urls`
unfoldable pub httpx_urls : List Observed → List Text
unfolding sort_services
httpx_urls observations =
    let (oks, others) = sort_services [] [] (all_services observations) in take 10 (oks ++ others)

-- Whether a name is below one of the parents.
unfoldable pub any_within : Net → Text → List Text → Bool
any_within net name [] = false
any_within net name (p ∷ ps) = is_within_domain net (some name) (some p) || any_within net name ps

-- One item of the loop of `sanitize_promoted_hosts`.
abbrev pub promotable : Net → List Text → Option Text → Option Text
promotable net parents none = none
promotable net parents (some name) = if any_within net name parents then some name else none

-- `sanitize_promoted_hosts` with a snapshot; without parents nothing is let through.
unfoldable pub sanitize_promoted_hosts : Net → List Text → List Entry → Result Exn (List Text)
sanitize_promoted_hosts net hosts snapshot = do
  parents ← snapshot_parents net snapshot
  let names = map (λ (h : Text). promotable net parents (normalize_hostname net (some h))) hosts
  ok (sort_by (λ (x : Text). x) (collect_new 50 [] names))

-- `_promoted_web_urls`
abbrev pub promoted_web_urls : List Text → List Text
promoted_web_urls hosts = map (λ (h : Text). codes "http://" ++ h) hosts

-- `_merge_httpx_targets`
unfoldable pub merge_httpx_targets : List Text → List Text → List Text
merge_httpx_targets base promoted =
    collect_new 10 [] (map (λ (u : Text). given_host (some u)) (base ++ promoted))
