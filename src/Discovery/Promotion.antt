-- ===== src/Discovery/Promotion.antt =====
-- What a discovery promotes: only hosts below a parent of the snapshot whose address was verified and
-- saved.
use aicybersec.Common.{IsIn-append_right}
use aicybersec.Discovery.Bounds.{concat, batches_lem}
use aicybersec.Common.{
  ℕ, suc, ◌≡◌, refl, sym, ◌⊎◌, inl, inr, Bool, true, false, ◌&&◌, List, [], ◌∷◌, ok, >>=-eq-ok,
  ok_inv, Bool-cases, Option, none, some, All, All-append, All-IsIn, IsIn-All, IsIn,
  IsIn-append_left, arith,
}
use mathlib.Core.Path.{subst}
use aicybersec.Common.Text.{Text, elem}
use aicybersec.Common.Text.Laws.{elem_iff}
use aicybersec.Common.Order.{sort_by, IsIn-sort_by, sort_by-IsIn, sort_by-All}
use aicybersec.Scan.{Entry, ScopeType, host, url, domain, cidr, other}
use aicybersec.Scope.{Net}
use aicybersec.Discovery.{Env, completed, cancelled, DiscoveryResult, Run}
use aicybersec.Scope.Names.{normalize_hostname, append_some}
use aicybersec.Scope.Snapshot.{if_new}
use aicybersec.Discovery.Names.{names_parent, parents_in, discovery_parents}
use aicybersec.Discovery.Calls.{tick, polled}
use aicybersec.Discovery.Stages.{
  any_source, sorted, subfinder_loop, with_source, eligible_discovered, batches, dnsx_loop,
}
use aicybersec.Discovery.Finish.{
  finish_result, start, within_any, promotable, promote, after_batches, nothing_eligible, query,
  after_parents, run,
}
use aicybersec.Discovery.Below.{IsDiscovery, IsVerified, IsFound, subfinder_loop-IsFound}
use aicybersec.Discovery.Checked.{IsChecked, dnsx_loop-IsChecked}

-- A promoted host, with what stands behind it.
pub record IsPromotion (env : Env) (result : DiscoveryResult) (host : Text) : Type 0 where
  pub below_parent : IsDiscovery env.net result.parents host
  pub discovered : IsIn host result.discovered
  pub listed : IsIn host result.dns_verified
  pub verified : IsVerified env host
  pub at : ℕ
  pub wanted : List Text
  pub asked : sorted wanted ≡ result.dns_verified
  pub asset : IsIn host (env.asset_hosts at wanted)

abbrev pub Promotes : Env → DiscoveryResult → Type 0
Promotes env result =
    All (IsPromotion env result) result.promoted
    × (result.status ≡ cancelled → result.promoted ≡ [])

-- The name of a host or domain entry of the snapshot, as `normalize_hostname` returns it.
abbrev pub IsSnapshotParent : Net → List Entry → Text → Type 0
IsSnapshotParent net snapshot parent =
    (entry : Entry) × IsIn entry snapshot
    × ((entry.type ≡ host) ⊎ (entry.type ≡ domain))
    × (normalize_hostname net entry.value ≡ some parent)

-- The same, of a result that names these parents.
abbrev PromotesFrom : Env → List Text → DiscoveryResult → Type 0
PromotesFrom env parents result = Promotes env result × (result.parents ≡ parents)

names_parent_lem : (t : ScopeType) → names_parent t ≡ true → (t ≡ host) ⊎ (t ≡ domain)
names_parent_lem host e = inl refl
names_parent_lem domain e = inr refl
names_parent_lem url e = cc
names_parent_lem cidr e = cc
names_parent_lem other e = cc

append_new-All :
    (P : Text → Type 0) (out : List Text) (found : Option Text)
    → ((x : Text) → found ≡ some x → P x)
    → All P out
    → All P (append_some out (if_new out found))
append_new-All P out none f h = h
append_new-All P out (some x) f h = elim (Bool-cases (elem x out)) [
  | inl known ↦ rw known h
  | inr fresh ↦ rw fresh (All-append P out (x ∷ []) h (f x refl, tt))
]

parents_in-IsSnapshotParent :
    (net : Net) (all snapshot : List Entry) (out : List Text)
    → ((entry : Entry) → IsIn entry snapshot → IsIn entry all)
    → All (IsSnapshotParent net all) out
    → All (IsSnapshotParent net all) (parents_in net out snapshot)
unfolding parents_in
parents_in-IsSnapshotParent net all [] out i h = h
parents_in-IsSnapshotParent net all (entry ∷ snapshot) out i h =
    elim (Bool-cases (names_parent entry.type)) [
      | inr n ↦ rw n (parents_in-IsSnapshotParent net all snapshot out (λ x m. i x (inr m)) h)
      | inl n ↦ rw n (
          parents_in-IsSnapshotParent net all snapshot _ (λ x m. i x (inr m))
            (append_new-All (IsSnapshotParent net all) out (normalize_hostname net entry.value)
              (λ x q. (entry, i entry (inl refl), names_parent_lem entry.type n, q)) h))
    ]

promotable-IsIn :
    (net : Net) (parents existing : List Text) (x : Text) (hosts : List Text)
    → IsIn x (promotable net parents existing hosts)
    → IsIn x hosts × IsIn x existing
unfolding promotable
promotable-IsIn net parents existing x [] m = absurd m
promotable-IsIn net parents existing x (h ∷ hs) m =
    elim (Bool-cases (elem h existing && within_any net h parents)) [
      | inl e ↦
          let here : elem h existing ≡ true = ground arith in
          let kept : (x ≡ h) ⊎ IsIn x (promotable net parents existing hs) = rw e at m in
          elim kept [
            | inl same ↦ (inl same, rw same ((elem_iff h existing).0 here))
            | inr k ↦ let (i, a) = promotable-IsIn net parents existing x hs k in (inr i, a)
          ]
      | inr e ↦ let (i, a) = promotable-IsIn net parents existing x hs (rw e at m) in (inr i, a)
    ]

sorted-IsIn : (x : Text) (xs : List Text) → IsIn x xs → IsIn x (sorted xs)
sorted-IsIn x xs m = sort_by-IsIn (λ (x : Text). x) x xs m

-- The sets before the promotion.
abbrev IsReady : Env → List Text → Run → Type 0
IsReady env parents r =
    All (IsDiscovery env.net parents) r.discovered
    × All (λ h. IsVerified env h × IsIn h r.discovered) r.dns_verified

cancelled-Promotes :
    (env : Env) (parents : List Text) (r : Run)
    → PromotesFrom env parents (finish_result cancelled parents [] r)
unfolding sort_by
cancelled-Promotes env parents r = ((tt, λ e. refl), refl)

finish-Promotes :
    (env : Env) (parents : List Text) (at : ℕ) (r : Run)
    → IsReady env parents r
    → PromotesFrom env parents (
        finish_result completed parents
          (promotable env.net parents (env.asset_hosts at r.dns_verified) r.dns_verified)
          r)
finish-Promotes env parents at r (found, checked) =
    let existing = env.asset_hosts at r.dns_verified in
    let hosts = promotable env.net parents existing r.dns_verified in
    let result = finish_result completed parents hosts r in
    (
      (
        sort_by-All (λ (x : Text). x) (IsPromotion env result) hosts
            (IsIn-All (IsPromotion env result) hosts (λ x m.
              let (i, a) = promotable-IsIn env.net parents existing x r.dns_verified m in
              let (v, d) =
                All-IsIn (λ h. IsVerified env h × IsIn h r.discovered) x r.dns_verified checked i in
              record {
                below_parent = All-IsIn (IsDiscovery env.net parents) x r.discovered found d;
                discovered = sorted-IsIn x r.discovered d;
                listed = sorted-IsIn x r.dns_verified i;
                verified = v;
                at = at;
                wanted = r.dns_verified;
                asked = refl;
                asset = a;
              })),
        λ e. cc,
      ),
      refl,
    )

promote_lem :
    (env : Env) (parents : List Text) (r : Run)
    → IsReady env parents r
    → PromotesFrom env parents (promote env parents r)
unfolding promote
promote_lem env parents r h = elim (Bool-cases (polled env r)) [
  | inl p ↦ rw p (cancelled-Promotes env parents (tick r))
  | inr p ↦ elim (Bool-cases (polled env (tick (tick r)))) [
    | inl q ↦ rw (p, q) (cancelled-Promotes env parents (tick (tick (tick r))))
    | inr q ↦ rw (p, q) (finish-Promotes env parents (suc r.clock) (tick (tick (tick r))) h)
  ]
]

with_source-IsIn :
    (sources : List (Text × Text)) (failures : List Text) (x : Text) (hosts : List Text)
    → IsIn x (with_source sources failures hosts)
    → IsIn x hosts
unfolding with_source
with_source-IsIn sources failures x [] m = m
with_source-IsIn sources failures x (h ∷ hs) m = elim (Bool-cases (any_source h sources failures)) [
  | inl e ↦
      let kept : (x ≡ h) ⊎ IsIn x (with_source sources failures hs) = rw e at m in
      elim kept [ inl same ↦ inl same | inr k ↦ inr (with_source-IsIn sources failures x hs k) ]
  | inr e ↦ inr (with_source-IsIn sources failures x hs (rw e at m))
]

eligible_discovered-IsIn :
    (r : Run) (x : Text) → IsIn x (eligible_discovered r) → IsIn x r.discovered
eligible_discovered-IsIn r x m =
    with_source-IsIn r.discovery_sources r.parent_failures x r.discovered
      (IsIn-sort_by (λ (x : Text). x) x _ m)

concat_parts :
    (hosts : List Text) (bs : List (List Text))
    → ((x : Text) → IsIn x (concat bs) → IsIn x hosts)
    → All (All (λ x. IsIn x hosts)) bs
concat_parts hosts [] f = tt
concat_parts hosts (b ∷ bs) f = (
  IsIn-All (λ x. IsIn x hosts) b (λ x m. f x (IsIn-append_left x b (concat bs) m)),
  concat_parts hosts bs (λ x m. f x (IsIn-append_right x b (concat bs) m)),
)

query-Promotes :
    (env : Env) (parents eligible : List Text) (r : Run) (result : DiscoveryResult)
    → ((x : Text) → IsIn x eligible → IsIn x r.discovered)
    → IsFound env parents r
    → query env parents eligible r ≡ ok result
    → PromotesFrom env parents result
unfolding sort_by
query-Promotes env parents [] r result m h e =
    subst (PromotesFrom env parents) (ok_inv (nothing_eligible parents r) result e)
      ((tt, λ e. refl), refl)
query-Promotes env parents (x ∷ xs) r result m h e =
    let (p, loop, last) = >>=-eq-ok (dnsx_loop env (batches (x ∷ xs)) r) _ e in
    let (whole, sizes) = batches_lem (x ∷ xs) in
    let members =
      concat_parts r.discovered (batches (x ∷ xs)) (λ y i. m y (subst (IsIn y) whole i)) in
    let fresh : IsChecked env r.discovered r =
      (refl, subst (All (λ h. IsVerified env h × IsIn h r.discovered)) (sym h.1) tt) in
    let done = dnsx_loop-IsChecked env r.discovered (batches (x ∷ xs)) r p members fresh loop in
    subst (PromotesFrom env parents) (ok_inv (after_batches env parents p) result last) (
      after_lem p (
        subst (All (IsDiscovery env.net parents)) (sym done.0) h.0,
        subst (λ (d : List Text). All (λ h. IsVerified env h × IsIn h d) p.1.dns_verified)
            (sym done.0) done.1,
      ))
  where
    after_lem :
        (p : Bool × Run)
        → IsReady env parents p.1
        → PromotesFrom env parents (after_batches env parents p)
    after_lem (true, s) h = cancelled-Promotes env parents s
    after_lem (false, s) h = promote_lem env parents s h

after_parents-Promotes :
    (env : Env) (parents : List Text) (p : Bool × Run) (result : DiscoveryResult)
    → IsFound env parents p.1
    → after_parents env parents p ≡ ok result
    → PromotesFrom env parents result
after_parents-Promotes env parents (true, r) result h e =
    subst (PromotesFrom env parents) (ok_inv _ result e) (cancelled-Promotes env parents r)
after_parents-Promotes env parents (false, r) result h e = elim (Bool-cases (polled env r)) [
  | inl q ↦
      subst (PromotesFrom env parents)
        (ok_inv (finish_result cancelled parents [] (tick r)) result (rw q at e))
        (cancelled-Promotes env parents (tick r))
  | inr q ↦
      query-Promotes env parents (eligible_discovered r) (tick r) result
        (eligible_discovered-IsIn r) h (rw q at e)
]

run-PromotesFrom :
    (env : Env) (snapshot : List Entry) (result : DiscoveryResult)
    → run env snapshot ≡ ok result
    → PromotesFrom env (sorted (discovery_parents env.net snapshot)) result
unfolding run
run-PromotesFrom env snapshot result e =
    let parents = sorted (discovery_parents env.net snapshot) in
    elim (Bool-cases (polled env start)) [
      | inl q ↦
          subst (PromotesFrom env parents)
            (ok_inv (finish_result cancelled parents [] start) result (rw q at e))
            (cancelled-Promotes env parents start)
      | inr q ↦
          let (p, loop, last) = >>=-eq-ok (subfinder_loop env parents (tick start)) _ (rw q at e) in
          after_parents-Promotes env parents p result
            (subfinder_loop-IsFound env parents parents (tick start) p (λ x m. m) (tt, refl) loop)
            last
    ]

-- Each parent that discovery names in its result is the normal form of a host or domain entry of the
-- snapshot. Each host that it promotes is among the discovered and the verified hosts of the result,
-- lies properly below one of these parents, and is among the hosts that the assets have for the
-- verified hosts; DNS records, all of that host and of which one holds a valid address, were saved to at
-- least one asset. A cancelled discovery promotes nothing.
pub run-Promotes :
    (env : Env) (snapshot : List Entry) (result : DiscoveryResult)
    → run env snapshot ≡ ok result
    → Promotes env result × All (IsSnapshotParent env.net snapshot) result.parents
run-Promotes env snapshot result e =
    let (promotes, same) = run-PromotesFrom env snapshot result e in
    let found = parents_in-IsSnapshotParent env.net snapshot snapshot [] (λ x m. m) tt in
    (
      promotes,
      subst (All (IsSnapshotParent env.net snapshot)) (sym same) (
          sort_by-All (λ (x : Text). x) (IsSnapshotParent env.net snapshot)
            (discovery_parents env.net snapshot) found),
    )
