-- ===== src/Discovery/Finish.antt =====
-- `DiscoveryService.run`: from the snapshot to the promotion and `_finish_result`.
use aicybersec.Common.{
  suc, Bool, true, false, ◌&&◌, ◌||◌, some, List, [], ◌∷◌, Result, ok, Exn, ◌>>=◌, if◌then◌else◌,
}
use aicybersec.Common.Text.{Text, elem}
use aicybersec.Scan.{Entry}
use aicybersec.Scope.{Net}
use aicybersec.Scope.Names.{is_within_domain}
use aicybersec.Discovery.{Env, completed, cancelled, DiscoveryStatus, DiscoveryResult, Run}
use aicybersec.Discovery.Names.{discovery_parents}
use aicybersec.Discovery.Calls.{tick, polled}
use aicybersec.Discovery.Stages.{sorted, subfinder_loop, eligible_discovered, batches, dnsx_loop}

-- `_finish_result`, and `finalize`; the sets are lists without duplicates already.
abbrev pub minus : List Text → List Text → List Text
minus [] ys = []
minus (x ∷ xs) ys = let rest = minus xs ys in if elem x ys then rest else x ∷ rest

abbrev pub finish_result : DiscoveryStatus → List Text → List Text → Run → DiscoveryResult
finish_result status parents promoted r = record {
  status = status;
  parents = parents;
  discovered = sorted r.discovered;
  policy_rejected = sorted r.rejected;
  dns_verified = sorted r.dns_verified;
  dns_unverified = sorted (minus r.dns_unverified r.dns_verified);
  promoted = sorted promoted;
  errors = r.errors;
  subfinder_calls = r.subfinder_calls;
  dnsx_calls = r.dnsx_calls;
}

abbrev pub start : Run
start = record {
  clock = 0;
  discovered = [];
  discovery_sources = [];
  rejected = [];
  parent_failures = [];
  dns_verified = [];
  dns_unverified = [];
  errors = [];
  subfinder_calls = 0;
  dnsx_calls = 0;
}

abbrev pub within_any : Net → Text → List Text → Bool
within_any net host [] = false
within_any net host (parent ∷ parents) =
    is_within_domain net (some host) (some parent) || within_any net host parents

unfoldable pub promotable : Net → List Text → List Text → List Text → List Text
promotable net parents existing [] = []
promotable net parents existing (host ∷ hosts) =
    let rest = promotable net parents existing hosts in
    if elem host existing && within_any net host parents then host ∷ rest else rest

-- After the batches.
unfoldable pub promote : Env → List Text → Run → DiscoveryResult
promote env parents r =
    let existing = env.asset_hosts (suc r.clock) r.dns_verified in
    if polled env r
    then finish_result cancelled parents [] (tick r)
    else if polled env (tick (tick r))
    then finish_result cancelled parents [] (tick (tick (tick r)))
    else finish_result completed parents (promotable env.net parents existing r.dns_verified)
        (tick (tick (tick r)))

abbrev pub after_batches : Env → List Text → Bool × Run → DiscoveryResult
after_batches env parents (true, r) = finish_result cancelled parents [] r
after_batches env parents (false, r) = promote env parents r

-- The result where no discovered host is eligible.
abbrev pub nothing_eligible : List Text → Run → DiscoveryResult
nothing_eligible parents r = finish_result completed parents [] (record r { discovered = [] })

abbrev pub query : Env → List Text → List Text → Run → Result Exn DiscoveryResult
query env parents [] r = ok (nothing_eligible parents r)
query env parents (host ∷ hosts) r = do
  p ← dnsx_loop env (batches (host ∷ hosts)) r
  ok (after_batches env parents p)

abbrev pub after_parents : Env → List Text → Bool × Run → Result Exn DiscoveryResult
after_parents env parents (true, r) = ok (finish_result cancelled parents [] r)
after_parents env parents (false, r) =
    if polled env r
    then ok (finish_result cancelled parents [] (tick r))
    else query env parents (eligible_discovered r) (tick r)

-- `DiscoveryService.run`
unfoldable pub run : Env → List Entry → Result Exn DiscoveryResult
run env snapshot =
    let parents = sorted (discovery_parents env.net snapshot) in
    if polled env start
    then ok (finish_result cancelled parents [] start)
    else (do p ← subfinder_loop env parents (tick start); after_parents env parents p)
