-- ===== src/Discovery/Names.antt =====
-- The names of a discovery: `_snapshot_discovery_parents`, `_validated_discoveries` and
-- `_record_verified_host`.
use aicybersec.Common.{
  ℕ, Bool, true, false, not, ◌&&◌, ◌||◌, Option, none, some, List, [], ◌∷◌, ◌++◌, if◌then◌else◌,
  take, ◌==◌,
}
use aicybersec.Common.Text.{Text, text_eq, elem, strip}
use aicybersec.Scan.{ScopeType, Entry}
use aicybersec.Scope.{Net}
use aicybersec.Scope.Names.{normalize_hostname, append_some, is_within_domain}
use aicybersec.Scope.Snapshot.{if_new}
use aicybersec.Discovery.{Candidate, Found, DnsRecord, Env}

-- Sets are lists without duplicates.
unfoldable pub insert : Text → List Text → List Text
insert x xs = if elem x xs then xs else xs ++ x ∷ []

unfoldable pub union : List Text → List Text → List Text
union xs [] = xs
union xs (y ∷ ys) = union (insert y xs) ys

unfoldable pub without : Text → List Text → List Text
without x [] = []
without x (y ∷ ys) = let rest = without x ys in if text_eq x y then rest else y ∷ rest

abbrev pub names_parent : ScopeType → Bool
names_parent ScopeType.host = true
names_parent ScopeType.domain = true
names_parent _ = false

unfoldable pub parents_in : Net → List Text → List Entry → List Text
parents_in net out [] = out
parents_in net out (entry ∷ snapshot) =
    let skip = parents_in net out snapshot in
    let add =
      parents_in net (append_some out (if_new out (normalize_hostname net entry.value))) snapshot in
    if names_parent entry.type then add else skip

-- `_snapshot_discovery_parents`
abbrev pub discovery_parents : Net → List Entry → List Text
discovery_parents net snapshot = parents_in net [] snapshot

-- `_safe_text`
abbrev pub safe_text : Text → Text
safe_text s = take 500 s

abbrev pub is_name : Option Text → Text → Bool
is_name none parent = false
is_name (some name) parent = text_eq name parent

-- The host of a candidate that is accepted below the parent.
abbrev pub below : Net → Text → Option Text → Option Text
below net parent none = none
below net parent (some host) =
    if text_eq host parent || not (is_within_domain net (some host) (some parent))
    then none
    else some host

abbrev pub sort_candidate : Option Text → Text → List Text × List Text → List Text × List Text
sort_candidate none shown (valid, refused) = (valid, insert (safe_text shown) refused)
sort_candidate (some host) shown (valid, refused) = (insert host valid, refused)

unfoldable pub sort_candidates :
    Net → Text → List Text × List Text → List Candidate → List Text × List Text
sort_candidates net parent out [] = out
sort_candidates net parent out (c ∷ cs) =
    sort_candidates net parent
      (sort_candidate (below net parent (normalize_hostname net c.name)) c.shown out) cs

abbrev pub entries_of : Option (List Candidate) → List Candidate
entries_of none = []
entries_of (some entries) = take 500 entries

-- `_validated_discoveries`: the valid hosts and the rejected texts.
unfoldable pub validated_discoveries : Net → Found → Text → List Text × List Text
validated_discoveries net found parent =
    if not (is_name (normalize_hostname net found.domain) parent)
    then ([], [])
    else sort_candidates net parent ([], []) (entries_of found.subdomains)

-- `_valid_address`
abbrev is_version : Option ℕ → ℕ → Bool
is_version none v = false
is_version (some n) v = n == v

abbrev valid_address : Env → ℕ → Text → Bool
valid_address env v s = is_version (env.ip_version (strip s)) v

unfoldable pub any_address : Env → ℕ → List Text → Bool
any_address env v [] = false
any_address env v (s ∷ ss) = valid_address env v s || any_address env v ss

-- `_record_verified_host(record, allowed={host})` gives the host.
abbrev pub verifies : Env → Text → DnsRecord → Bool
verifies env host r =
    is_name (normalize_hostname env.net r.host) host
    && (any_address env 4 r.a || any_address env 6 r.aaaa)

unfoldable pub any_verifies : Env → Text → List DnsRecord → Bool
any_verifies env host [] = false
any_verifies env host (r ∷ rs) = verifies env host r || any_verifies env host rs

-- `host_records`
unfoldable pub records_of : Net → Text → List DnsRecord → List DnsRecord
records_of net host [] = []
records_of net host (r ∷ rs) =
    let rest = records_of net host rs in
    if is_name (normalize_hostname net r.host) host then r ∷ rest else rest
