-- ===== src/Scope/Snapshot.antt =====
-- What a scope snapshot covers: `snapshot_parents` of backend/services/subdomain_policy.py,
-- `target_in_scope` of backend/services/scope_service.py, `resolve_scope` of
-- backend/services/scope_resolution.py. A ValueError of the URL parser is an `err`.
use aicybersec.Common.{
  Bool, true, false, Option, none, some, List, [], ◌∷◌, Result, ok, Exn, ◌>>=◌, if◌then◌else◌,
  or_else,
}
use aicybersec.Common.Text.{Text, is_empty, text_eq, elem}
use aicybersec.Scan.{ScopeType, host, cidr, url, domain, other, Entry}
use aicybersec.Safety.Policy.{normalize, normalize_target}
use aicybersec.Scope.{Net}
use aicybersec.Scope.Names.{normalize_hostname, append_some}

-- The name of one entry of the snapshot.
unfoldable pub parent_of : Net → Entry → Result Exn (Option Text)
parent_of net entry = elim entry.type [
  | host ↦ ok (normalize_hostname net entry.value)
  | domain ↦ ok (normalize_hostname net entry.value)
  | url ↦ do ok (normalize_hostname net (← normalize_target entry.value))
  | cidr ↦ ok none
  | other ↦ ok none
]

-- A name that is given and not yet there.
abbrev pub if_new : List Text → Option Text → Option Text
if_new out none = none
if_new out (some name) = if elem name out then none else some name

unfoldable pub parents_from : Net → List Text → List Entry → Result Exn (List Text)
parents_from net out [] = ok out
parents_from net out (entry ∷ snapshot) = do
  name ← parent_of net entry
  parents_from net (append_some out (if_new out name)) snapshot

-- `snapshot_parents`
unfoldable pub snapshot_parents : Net → List Entry → Result Exn (List Text)
snapshot_parents net snapshot = parents_from net [] snapshot

abbrev pub names_host : ScopeType → Bool
names_host host = true
names_host url = true
names_host domain = true
names_host _ = false

-- `host` of the first loop of `resolve_scope`, where the entry is not skipped.
abbrev pub given_host : Option Text → Option Text
given_host none = none
given_host (some h) = if is_empty h then none else some h

unfoldable pub host_of : Entry → Result Exn (Option Text)
host_of entry =
    if names_host entry.type then (do ok (given_host (← normalize_target entry.value))) else ok none

-- The first loop; `hostnames` has the members of `allowed` there.
unfoldable pub hosts_from : List Text → List Entry → Result Exn (List Text)
hosts_from allowed [] = ok allowed
hosts_from allowed (entry ∷ snapshot) = do
  h ← host_of entry
  hosts_from (append_some allowed (if_new allowed h)) snapshot

abbrev pub add_all : List Text → List Text → List Text
add_all allowed [] = allowed
add_all allowed (ip ∷ ips) = add_all (append_some allowed (if_new allowed (some ip))) ips

-- The second loop: no DNS for a literal address.
unfoldable pub resolve_all : Net → List Text → List Text → List Text
resolve_all net allowed [] = allowed
resolve_all net allowed (h ∷ hs) =
    resolve_all net (if net.is_ip h then allowed else add_all allowed (net.resolve h)) hs

-- `resolve_scope`
unfoldable pub resolve_scope : Net → List Entry → Result Exn (List Text)
resolve_scope net snapshot = do hosts ← hosts_from [] snapshot; ok (resolve_all net hosts hosts)

-- One entry of the loop of `target_in_scope`.
unfoldable pub covers : Net → Text → Entry → Result Exn Bool
covers net target entry =
    let value = or_else entry.value [] in
    elim entry.type [
      | cidr ↦ ok (net.in_network target value)
      | other ↦ ok false
      | named ↦ do ok (text_eq (← normalize value) target)
    ]

unfoldable pub any_covers : Net → Text → List Entry → Result Exn Bool
any_covers net target [] = ok false
any_covers net target (entry ∷ snapshot) =
    let rest = any_covers net target snapshot in
    do found ← covers net target entry; if found then ok true else rest

-- `target_in_scope`
unfoldable pub target_in_scope : Net → List Entry → Text → Result Exn Bool
target_in_scope net snapshot target = do any_covers net (← normalize target) snapshot
