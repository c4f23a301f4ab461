-- ===== src/Scope/Coverage.antt =====
-- What `resolve_scope` of backend/services/scope_resolution.py authorizes.
use mathlib.Core.Path.{subst}
use aicybersec.Common.{
  ◌≡◌, refl, sym, ◌⊎◌, inl, inr, false, Option, none, some, List, [], ◌∷◌, ok, >>=-eq-ok, All,
  All-append, IsIn, ok_inv, ◌≢◌, ap, ◌∙◌, true, IsUnique, IsUnique-append_one, Bool-cases,
  if◌then◌else◌,
}
use aicybersec.Common.Text.{Text, elem}
use aicybersec.Common.Text.Laws.{not_IsIn}
use aicybersec.Scan.{Entry, ScopeType, host, url, domain, cidr, other}
use aicybersec.Safety.Policy.{normalize_target}
use aicybersec.Scope.{Net}
use aicybersec.Scope.Names.{append_some}
use aicybersec.Scope.Snapshot.{
  names_host, given_host, host_of, hosts_from, if_new, add_all, resolve_all, resolve_scope,
}

-- The types of entries that name a host.
abbrev pub NamesHost : ScopeType → Type 0
NamesHost t = (t ≡ host) ⊎ (t ≡ url) ⊎ (t ≡ domain)

-- The host of a host, url or domain entry of the snapshot.
abbrev pub IsNamed : List Entry → Text → Type 0
IsNamed snapshot h =
    (entry : Entry) × IsIn entry snapshot
    × NamesHost entry.type
    × (normalize_target entry.value ≡ ok (some h))
    × (h ≢ [])

names_host-NamesHost : (t : ScopeType) → names_host t ≡ true → NamesHost t
names_host-NamesHost host h = inl refl
names_host-NamesHost url h = inr (inl refl)
names_host-NamesHost domain h = inr (inr refl)
names_host-NamesHost cidr h = cc
names_host-NamesHost other h = cc

host_of_lem :
    (entry : Entry) (h : Text)
    → host_of entry ≡ ok (some h)
    → NamesHost entry.type × (normalize_target entry.value ≡ ok (some h)) × (h ≢ [])
unfolding host_of
host_of_lem entry h e = elim (Bool-cases (names_host entry.type)) [
  | inr n ↦ absurd (let q = rw n at e in cc)
  | inl n ↦
      let (given, a, b) = >>=-eq-ok (normalize_target entry.value) _ (rw n at e) in
      let (q, f) = kept given (ok_inv (given_host given) (some h) b) in
      (names_host-NamesHost entry.type n, rw (← q) a, f)
]
  where
    kept : (given : Option Text) → given_host given ≡ some h → (given ≡ some h) × (h ≢ [])
    kept none q = cc
    kept (some []) q = cc
    kept (some (c ∷ cs)) q = (q, λ f. let r : some (c ∷ cs) ≡ some [] = q ∙ ap some f in cc)

-- A named host, or an address that the resolver gives for a named host that is no address itself.
abbrev pub IsGranted : Net → List Entry → Text → Type 0
IsGranted net snapshot x =
    IsNamed snapshot x
    ⊎ ((h : Text) × IsNamed snapshot h × (net.is_ip h ≡ false) × IsIn x (net.resolve h))

-- Adding a new member keeps a property of all members and uniqueness.
pub append_new :
    (P : Text → Type 0) (out : List Text) (found : Option Text)
    → ((x : Text) → found ≡ some x → P x)
    → All P out × IsUnique out
    → All P (append_some out (if_new out found)) × IsUnique (append_some out (if_new out found))
append_new P out none f h = h
append_new P out (some x) f (a, u) = elim (Bool-cases (elem x out)) [
  | inl known ↦ rw known (a, u)
  | inr fresh ↦ rw fresh (
    All-append P out (x ∷ []) a (f x refl, tt),
    IsUnique-append_one out x u (not_IsIn x out fresh),
  )
]

hosts_from-IsNamed :
    (all snapshot : List Entry) (allowed hosts : List Text)
    → ((entry : Entry) → IsIn entry snapshot → IsIn entry all)
    → All (IsNamed all) allowed × IsUnique allowed
    → hosts_from allowed snapshot ≡ ok hosts
    → All (IsNamed all) hosts × IsUnique hosts
unfolding hosts_from
hosts_from-IsNamed all [] allowed hosts i h e =
    let same : allowed ≡ hosts = cc in
    subst (λ (xs : List Text). All (IsNamed all) xs × IsUnique xs) same h
hosts_from-IsNamed all (entry ∷ snapshot) allowed hosts i h e =
    let (found, ef, rest) = >>=-eq-ok (host_of entry) _ e in
    hosts_from-IsNamed all snapshot _ hosts (λ x m. i x (inr m))
      (append_new (IsNamed all) allowed found
        (λ x q.
          let (t, a, f) = host_of_lem entry x (rw (← q) ef) in (entry, i entry (inl refl), t, a, f))
        h)
      rest

add_all_lem :
    (P : Text → Type 0) (allowed ips : List Text)
    → ((x : Text) → IsIn x ips → P x)
    → All P allowed × IsUnique allowed
    → All P (add_all allowed ips) × IsUnique (add_all allowed ips)
add_all_lem P allowed [] f h = h
add_all_lem P allowed (ip ∷ ips) f h =
    add_all_lem P (append_some allowed (if_new allowed (some ip))) ips (λ x m. f x (inr m))
      (append_new P allowed (some ip) (λ x q. f x (inl (let r : ip ≡ x = cc in sym r))) h)

resolve_all_lem :
    (net : Net) (snapshot : List Entry) (allowed hosts : List Text)
    → All (IsNamed snapshot) hosts
    → All (IsGranted net snapshot) allowed × IsUnique allowed
    → All (IsGranted net snapshot) (resolve_all net allowed hosts)
      × IsUnique (resolve_all net allowed hosts)
unfolding resolve_all
resolve_all_lem net snapshot allowed [] n h = h
resolve_all_lem net snapshot allowed (x ∷ hosts) (nx, n) h =
    resolve_all_lem net snapshot (if net.is_ip x then allowed else add_all allowed (net.resolve x))
      hosts n
      (elim (Bool-cases (net.is_ip x)) [
        | inl literal ↦ rw literal h
        | inr name ↦ rw name (
            add_all_lem (IsGranted net snapshot) allowed (net.resolve x)
              (λ y m. inr (x, nx, name, m)) h)
      ])

hosts-IsGranted :
    (net : Net) (snapshot : List Entry) (hosts : List Text)
    → All (IsNamed snapshot) hosts
    → All (IsGranted net snapshot) hosts
hosts-IsGranted net snapshot [] h = tt
hosts-IsGranted net snapshot (x ∷ xs) (n, h) = (inl n, hosts-IsGranted net snapshot xs h)

-- Every target that `resolve_scope` returns is the host of a host, url or domain entry of the snapshot,
-- as the URL policy reads it, or an address that the resolver gives for such a host that is no address
-- itself, and no target comes twice; so a network entry authorizes nothing.
pub resolve_scope-IsGranted :
    (net : Net) (snapshot : List Entry) (allowed : List Text)
    → resolve_scope net snapshot ≡ ok allowed
    → All (IsGranted net snapshot) allowed × IsUnique allowed
unfolding resolve_scope
resolve_scope-IsGranted net snapshot allowed e =
    let (hosts, eh, rest) = >>=-eq-ok (hosts_from [] snapshot) _ e in
    let (n, u) = hosts_from-IsNamed snapshot snapshot [] hosts (λ x m. m) (tt, tt) eh in
    let same : resolve_all net hosts hosts ≡ allowed = cc in
    subst (λ (xs : List Text). All (IsGranted net snapshot) xs × IsUnique xs) same
      (resolve_all_lem net snapshot hosts hosts n (hosts-IsGranted net snapshot hosts n, u))
