-- ===== src/Persistence/Gate.antt =====
-- The promotion gate: what a Subfinder observation can become in the table of assets.
use aicybersec.Common.{
  ◌≡◌, refl, sym, ◌∙◌, ◌⊎◌, inl, inr, true, false, not, ◌||◌, Option, none, some, List, [], ◌∷◌,
  All, All-append, IsIn, Bool-cases, ok, ok_inv, >>=-eq-ok, arith,
}
use mathlib.Core.Path.{subst}
use aicybersec.Common.Text.{Text, text_eq, elem}
use aicybersec.Common.Text.Laws.{elem_iff, text_eq_iff}
use aicybersec.Scan.{Entry}
use aicybersec.Scope.{Net}
use aicybersec.Scope.Names.{normalize_hostname, is_within_domain}
use aicybersec.Scope.Snapshot.{snapshot_parents}
use aicybersec.Discovery.Below.{IsBelow}
use aicybersec.Persistence.{AssetType, Verification}
use aicybersec.Persistence.Enrich.{DnsKey}
use aicybersec.Persistence.Builders.{
  canonical, is_malformed, build_domain_asset, build_subdomain_asset,
}
use aicybersec.Persistence.Observed.{NameEntry, ObservedData, Derived}
use aicybersec.Persistence.Derive.{
  if_built, name_asset, name_assets, with_names, is_authorized, domain_assets, subfinder_assets,
}

-- A subdomain asset of a name strictly below the domain, linked to the domain's own asset.
abbrev pub IsName : Net → Text → Derived → Type 0
IsName net domain d =
    (d.asset_type ≡ AssetType.subdomain)
    × ((name : Text) × IsBelow net domain name × (d.value ≡ canonical name))

-- The asset of the domain, or of a name below it.
abbrev pub IsPromoted : Net → Text → Derived → Type 0
IsPromoted net domain d =
    ((d.asset_type ≡ AssetType.domain) × (d.value ≡ canonical domain)) ⊎ IsName net domain d

if_built-IsName :
    (net : Net) (domain name source tool : Text) (parent : Option Text) (status : Verification)
    (dns : DnsKey → List Text)
    → IsBelow net domain name
    → All (IsName net domain) (if_built (build_subdomain_asset name parent source status dns tool))
unfolding build_subdomain_asset
if_built-IsName net domain name source tool parent status dns below =
    elim (Bool-cases (is_malformed (canonical name))) [
      | inl e ↦ rw e tt
      | inr e ↦ rw e ((refl, (name, below, refl)), tt)
    ]

name_asset-IsName :
    (net : Net) (tool domain : Text) (entry : NameEntry) (h : Option Text)
    → All (IsName net domain) (name_asset net tool domain entry h)
name_asset-IsName net tool domain entry none = tt
name_asset-IsName net tool domain entry (some host) =
    elim (Bool-cases
      (text_eq host domain || not (is_within_domain net (some host) (some domain)))) [
        | inl e ↦ rw e tt
        | inr e ↦
            let inside : is_within_domain net (some host) (some domain) ≡ true = ground arith in
            let other : text_eq host domain ≡ false = ground arith in
            rw e (
              if_built-IsName net domain host _ tool (some domain) _ _
                ((λ q. absurd (let t = (text_eq_iff host domain).1 q in cc)), inside))
      ]

name_assets-IsName :
    (net : Net) (tool domain : Text) (entries : List NameEntry)
    → All (IsName net domain) (name_assets net tool domain entries)
unfolding name_assets
name_assets-IsName net tool domain [] = tt
name_assets-IsName net tool domain (e ∷ es) =
    All-append (IsName net domain) (name_asset net tool domain e (normalize_hostname net e.host)) _
      (name_asset-IsName net tool domain e (normalize_hostname net e.host))
      (name_assets-IsName net tool domain es)

All-inr :
    (net : Net) (domain : Text) (ds : List Derived)
    → All (IsName net domain) ds
    → All (IsPromoted net domain) ds
All-inr net domain [] h = tt
All-inr net domain (d ∷ ds) (p, h) = (inr p, All-inr net domain ds h)

with_names-IsPromoted :
    (net : Net) (domain tool : Text) (names : List Derived)
    → All (IsName net domain) names
    → All (IsPromoted net domain) (with_names names (build_domain_asset domain tool))
unfolding build_domain_asset
with_names-IsPromoted net domain tool names h =
    elim (Bool-cases (is_malformed (canonical domain))) [
      | inl e ↦ rw e tt
      | inr e ↦ rw e (inl (refl, refl), All-inr net domain names h)
    ]

-- The domain is a normal form and a parent of the snapshot.
abbrev pub IsParent : Net → List Entry → ObservedData → Text → Type 0
IsParent net snapshot data_of domain =
    (normalize_hostname net data_of.domain ≡ some domain)
    × ((parents : List Text) × (snapshot_parents net snapshot ≡ ok parents) × IsIn domain parents)

-- A Subfinder observation yields nothing, or its domain is one of the snapshot's parents, and each
-- asset is of that domain or of a name strictly below it.
pub subfinder_assets-IsPromoted :
    (net : Net) (snapshot : List Entry) (tool : Text) (data_of : ObservedData) (ds : List Derived)
    → subfinder_assets net (some snapshot) tool data_of ≡ ok ds
    → (ds ≡ [])
      ⊎ ((domain : Text) × IsParent net snapshot data_of domain × All (IsPromoted net domain) ds)
unfolding subfinder_assets
subfinder_assets-IsPromoted net snapshot tool data_of ds e =
    go (normalize_hostname net data_of.domain) refl e
  where
    go :
        (found : Option Text)
        → normalize_hostname net data_of.domain ≡ found
        → domain_assets net (some snapshot) tool data_of found ≡ ok ds
        → (ds ≡ [])
          ⊎ ((domain : Text) × IsParent net snapshot data_of domain
              × All (IsPromoted net domain) ds)
    go none n e = inl (sym (ok_inv _ _ e))
    go (some domain) n e =
        let (allowed, a, r) = >>=-eq-ok (is_authorized net (some snapshot) domain) _ e in
        let (parents, p, m) = >>=-eq-ok (snapshot_parents net snapshot) _ a in
        elim (Bool-cases allowed) [
          | inr not_here ↦ inl (sym (ok_inv _ _ (rw not_here at r)))
          | inl here ↦
              let inside : elem domain parents ≡ true = ok_inv _ _ m ∙ here in
              let same = ok_inv _ _ (rw here at r) in
              inr (
                domain,
                (n, (parents, p, (elem_iff domain parents).0 inside)),
                subst (All (IsPromoted net domain)) same (
                    with_names-IsPromoted net domain tool _
                      (name_assets-IsName net tool domain data_of.subdomains)),
              )
        ]
