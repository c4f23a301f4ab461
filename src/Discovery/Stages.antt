-- ===== src/Discovery/Stages.antt =====
-- The two loops of `DiscoveryService.run`: over the parents and over the DNSX batches.
use aicybersec.Common.{
  zero, suc, Bool, true, false, not, ◌&&◌, ◌||◌, Option, none, some, List, [], ◌∷◌, ◌++◌, Result,
  ok, Exn, ◌>>=◌, if◌then◌else◌, ◌==◌, length,
}
use aicybersec.Common.Text.{Text, elem}
use aicybersec.Common.Order.{sort_by}
use aicybersec.Scope.Names.{normalize_hostname}
use aicybersec.Discovery.{
  Found, DnsRecord, failed, replied, Persisted, unsaved, enriched, Env, DiscoveryError,
  subfinder_refused, subfinder_mismatch, subfinder_failed, subfinder_unsaved, dnsx_refused,
  dnsx_failed, dnsx_unsaved, none_enriched, Run,
}
use aicybersec.Discovery.Names.{
  insert, union, without, safe_text, is_name, validated_discoveries, any_verifies, records_of,
}
use aicybersec.Discovery.Calls.{
  tick, polled, Invocation, refused, accepted, invoke_subfinder, invoke_dnsx,
}

abbrev pub sorted : List Text → List Text
sorted xs = sort_by (λ (x : Text). x) xs

abbrev pub add_error : DiscoveryError → Run → Run
add_error e r = record r { errors = r.errors ++ e ∷ [] }

-- `discovery_sources` for the hosts found for a parent
abbrev pub sources_of : Text → List Text → List (Text × Text)
sources_of parent [] = []
sources_of parent (host ∷ hosts) = (host, parent) ∷ sources_of parent hosts

abbrev pub add_valid : Text → List Text × List Text → Run → Run
add_valid parent (valid, invalid) r = record r {
  discovered = union r.discovered valid;
  discovery_sources = r.discovery_sources ++ sources_of parent valid;
  rejected = union r.rejected invalid;
}

abbrev pub fail_parent : Text → DiscoveryError → Run → Run
fail_parent parent e r = record r {
  parent_failures = insert parent r.parent_failures;
  errors = r.errors ++ e ∷ [];
}

abbrev pub saved : Text → Option Text → Run → Run
saved parent none r = r
saved parent (some e) r = fail_parent parent (subfinder_unsaved parent (safe_text e)) r

-- Each step also tells whether it was cancelled.
abbrev pub take_found : Env → Text → Found → Run → Bool × Run
take_found env parent found r =
    if not (is_name (normalize_hostname env.net found.domain) parent)
    then (false, fail_parent parent (subfinder_mismatch parent) r)
    else (let r1 = add_valid parent (validated_discoveries env.net found parent) r in
        if polled env r1
        then (true, tick r1)
        else (false, saved parent (env.persist_subfinder (suc r1.clock) found) (tick (tick r1))))

abbrev pub take_reply : Env → Text → Invocation Found → Run → Bool × Run
take_reply env parent refused r =
    (false, add_error (subfinder_refused parent) (record r { rejected = insert parent r.rejected }))
take_reply env parent (accepted (failed summary)) r =
    (false, fail_parent parent (subfinder_failed parent (safe_text summary)) r)
take_reply env parent (accepted (replied found)) r = take_found env parent found r

abbrev pub count_subfinder : Run → Run
count_subfinder r = record r { subfinder_calls = suc r.subfinder_calls }

unfoldable pub subfinder_loop : Env → List Text → Run → Result Exn (Bool × Run)
subfinder_loop env [] r = ok (false, r)
subfinder_loop env (parent ∷ parents) r =
    let next =
      λ (p : Bool × Run). let rest = subfinder_loop env parents p.1 in if p.0 then ok p else rest in
    if polled env r then ok (true, tick r) else (do
      (invocation, r1) ← invoke_subfinder env parent (tick r)
      next (take_reply env parent invocation (count_subfinder r1)))

-- Some parent that the host was found for has not failed.
abbrev pub any_source : Text → List (Text × Text) → List Text → Bool
any_source host [] failures = false
any_source host ((h, parent) ∷ sources) failures =
    (is_name (some h) host && not (elem parent failures)) || any_source host sources failures

unfoldable pub with_source : List (Text × Text) → List Text → List Text → List Text
with_source sources failures [] = []
with_source sources failures (host ∷ hosts) =
    let rest = with_source sources failures hosts in
    if any_source host sources failures then host ∷ rest else rest

-- `eligible_discovered`
abbrev pub eligible_discovered : Run → List Text
eligible_discovered r = sorted (with_source r.discovery_sources r.parent_failures r.discovered)

-- The slices of MAX_DNSX_TARGETS; `current` is the one that is being filled.
unfoldable pub batches_from : List Text → List Text → List (List Text)
batches_from [] [] = []
batches_from (h ∷ current) [] = (h ∷ current) ∷ []
batches_from current (host ∷ hosts) =
    let full = current ∷ batches_from (host ∷ []) hosts in
    let open' = batches_from (current ++ host ∷ []) hosts in
    if length current == 20 then full else open'

abbrev pub batches : List Text → List (List Text)
batches hosts = batches_from [] hosts

abbrev pub verify_host : Text → Bool → Run → Run
verify_host host true r = record r {
  dns_verified = insert host r.dns_verified;
  dns_unverified = without host r.dns_unverified;
}
verify_host host false r = r

abbrev pub take_persisted : Env → Text → List DnsRecord → Persisted → Run → Run
take_persisted env host records (unsaved e) r = add_error (dnsx_unsaved host (safe_text e)) r
take_persisted env host records (enriched zero) r = add_error (none_enriched host) r
take_persisted env host records (enriched (suc n)) r =
    verify_host host (any_verifies env host records) r

abbrev pub take_records : Env → Text → List DnsRecord → Run → Run
take_records env host [] r = r
take_records env host (d ∷ ds) r =
    take_persisted env host (d ∷ ds) (env.persist_dnsx r.clock host (d ∷ ds)) (tick r)

abbrev pub add_unverified : List Text → Run → Run
add_unverified hosts r = record r { dns_unverified = union r.dns_unverified hosts }

unfoldable pub host_loop : Env → List DnsRecord → List Text → Run → Bool × Run
host_loop env records [] r = (false, r)
host_loop env records (host ∷ hosts) r =
    let rest = host_loop env records hosts (
      take_records env host (records_of env.net host records)
        (add_unverified (host ∷ []) (tick r))) in
    if polled env r then (true, tick r) else rest

abbrev pub take_dns : Env → List Text → Invocation (Option (List DnsRecord)) → Run → Bool × Run
take_dns env batch refused r = (false, add_error dnsx_refused (add_unverified batch r))
take_dns env batch (accepted (failed summary)) r =
    (false, add_error (dnsx_failed (safe_text summary)) (add_unverified batch r))
take_dns env batch (accepted (replied none)) r = (false, add_unverified batch r)
take_dns env batch (accepted (replied (some records))) r = host_loop env records batch r

abbrev pub count_dnsx : Run → Run
count_dnsx r = record r { dnsx_calls = suc r.dnsx_calls }

unfoldable pub dnsx_loop : Env → List (List Text) → Run → Result Exn (Bool × Run)
dnsx_loop env [] r = ok (false, r)
dnsx_loop env (batch ∷ rest) r =
    let next =
      λ (p : Bool × Run). let more = dnsx_loop env rest p.1 in if p.0 then ok p else more in
    if polled env r then ok (true, tick r) else (do
      (invocation, r1) ← invoke_dnsx env batch (tick r)
      next (take_dns env batch invocation (count_dnsx r1)))
