-- ===== src/Persistence/Gated.antt =====
-- Which names a whole run can bring into the table of assets: those that the snapshot authorizes.
use aicybersec.Common.{
  ℕ, ◌≡◌, refl, sym, ap, ◌⊎◌, inl, inr, Bool, true, false, Option, none, some, List, [], ◌∷◌, All,
  All-append, IsIn, Bool-cases, Option-cases, Result, err, ok, Exn, ok_inv, >>=-eq-ok, ◌>>=◌,
  if◌then◌else◌,
}
use mathlib.Core.Path.{subst}
use aicybersec.Common.Text.{Text, codes, text_eq, is_empty, strip}
use aicybersec.Scan.{Entry}
use aicybersec.Scope.{Net}
use aicybersec.Scope.Snapshot.{snapshot_parents}
use aicybersec.Persistence.{AssetType, subdomain, domain}
use aicybersec.Persistence.Observed.{
  PortEntry, HostEntry, UrlEntry, Endpoint, ObservedData, AgentObservation, Derived,
}
use aicybersec.Persistence.Builders.{
  Parsed, nonempty_text, urlparse, endpoint_of, build_endpoint_asset,
}
use aicybersec.Persistence.Derive.{
  host_asset, is_open, service_asset, port_assets, service_assets, hosts_assets, first_url,
  parse_service, url_assets, if_built, endpoint_asset, katana_assets, subfinder_assets, data_assets,
  assets_from_observation,
}
use aicybersec.Persistence.Gate.{IsPromoted, subfinder_assets-IsPromoted}

-- The types whose value is a name.
abbrev pub is_name_type : AssetType → Bool
is_name_type subdomain = true
is_name_type domain = true
is_name_type _ = false

-- A name is the snapshot's parent, or lies strictly below one.
abbrev pub IsGated : Net → List Entry → Derived → Type 0
IsGated net snapshot d =
    (is_name_type d.asset_type ≡ false)
    ⊎ ((parent : Text) × ((parents : List Text) × (snapshot_parents net snapshot ≡ ok parents)
          × IsIn parent parents)
        × IsPromoted net parent d)

module _ (net : Net) (snapshot : List Entry) where
  port_assets-IsGated :
      (tool : Text) (ip : Option Text) (ports : List PortEntry)
      → All (IsGated net snapshot) (port_assets tool ip ports)
  unfolding port_assets
  port_assets-IsGated tool ip [] = tt
  port_assets-IsGated tool ip (p ∷ ps) = elim (Bool-cases (is_open p)) [
    | inr e ↦ rw e (port_assets-IsGated tool ip ps)
    | inl e ↦ rw e (
        All-append (IsGated net snapshot) (service_asset tool ip p p.number) _ (go p.number)
          (port_assets-IsGated tool ip ps))
  ]
    where
      go : (n : Option ℕ) → All (IsGated net snapshot) (service_asset tool ip p n)
      go none = tt
      go (some n) = (inl refl, tt)

  hosts_assets-IsGated :
      (tool : Text) (hs : List HostEntry) → All (IsGated net snapshot) (hosts_assets tool hs)
  unfolding hosts_assets service_assets
  hosts_assets-IsGated tool [] = tt
  hosts_assets-IsGated tool (h ∷ hs) =
      All-append (IsGated net snapshot) (service_assets h.ip h.ports tool) _
        (All-append (IsGated net snapshot) (host_asset tool (nonempty_text h.ip)) _
          (go (nonempty_text h.ip)) (port_assets-IsGated tool h.ip h.ports))
        (hosts_assets-IsGated tool hs)
    where
      go : (ip : Option Text) → All (IsGated net snapshot) (host_asset tool ip)
      go none = tt
      go (some ip) = (inl refl, tt)

  parse_service-IsGated :
      (tool : Text) (svc : UrlEntry) (u : Text) (old : Option Parsed) (new : Result Exn Parsed)
      (d : Derived) (p : Parsed)
      → parse_service tool svc u old new ≡ ok (d, p)
      → IsGated net snapshot d
  parse_service-IsGated tool svc u old (ok q) d p h =
      inl (ap (λ (x : Derived × Parsed). is_name_type x.0.asset_type) (sym (ok_inv _ _ h)))
  parse_service-IsGated tool svc u none (err e) d p h = cc
  parse_service-IsGated tool svc u (some q) (err e) d p h =
      inl (ap (λ (x : Derived × Parsed). is_name_type x.0.asset_type) (sym (ok_inv _ _ h)))

  url_assets-IsGated :
      (tool : Text) (parsed : Option Parsed) (svcs : List UrlEntry) (ds : List Derived)
      → url_assets tool parsed svcs ≡ ok ds
      → All (IsGated net snapshot) ds
  unfolding url_assets
  url_assets-IsGated tool parsed [] ds h = subst (All (IsGated net snapshot)) (ok_inv _ _ h) tt
  url_assets-IsGated tool parsed (svc ∷ svcs) ds h = elim (Option-cases (first_url svc)) [
    | inl e ↦ url_assets-IsGated tool parsed svcs ds (rw (e, url_assets) at h)
    | inr (u, e) ↦
        let ((d, p), a, r) =
          >>=-eq-ok (parse_service tool svc u parsed (urlparse u)) _ (rw (e, url_assets) at h) in
        let (rest, b, q) = >>=-eq-ok (url_assets tool (some p) svcs) _ r in
        subst (All (IsGated net snapshot)) (ok_inv _ _ q) (
          parse_service-IsGated tool svc u parsed (urlparse u) d p a,
          url_assets-IsGated tool (some p) svcs rest b,
        )
  ]

  endpoint_of-IsGated :
      (e : Endpoint) (u tool : Text) (p : Parsed) (h : Option Text)
      → All (IsGated net snapshot) (if_built (endpoint_of e u tool p h))
  endpoint_of-IsGated e u tool p none = tt
  endpoint_of-IsGated e u tool p (some h) = elim (Bool-cases (is_empty p.url_scheme)) [
    | inl q ↦ rw q tt
    | inr q ↦ rw q (inl refl, tt)
  ]

  build_endpoint_asset-IsGated :
      (e : Endpoint) (u tool : Text)
      → All (IsGated net snapshot) (if_built (build_endpoint_asset e u tool))
  unfolding build_endpoint_asset
  build_endpoint_asset-IsGated e u tool = go (urlparse (strip u))
    where
      go :
          (r : Result Exn Parsed)
          → All
              (IsGated net snapshot)
              (if_built (r >>= λ p. endpoint_of e (strip u) tool p p.hostname))
      go (err x) = tt
      go (ok p) = endpoint_of-IsGated e (strip u) tool p p.hostname

  katana_assets-IsGated :
      (tool : Text) (es : List Endpoint) → All (IsGated net snapshot) (katana_assets tool es)
  unfolding katana_assets
  katana_assets-IsGated tool [] = tt
  katana_assets-IsGated tool (e ∷ es) =
      All-append (IsGated net snapshot) (endpoint_asset tool e e.url) _ (go e.url)
        (katana_assets-IsGated tool es)
    where
      go : (u : Option Text) → All (IsGated net snapshot) (endpoint_asset tool e u)
      go none = tt
      go (some u) = elim (Bool-cases (is_empty (strip u))) [
        | inl q ↦ rw q tt
        | inr q ↦ rw q (build_endpoint_asset-IsGated e u tool)
      ]

  All-promoted :
      (parent : Text) (ds : List Derived)
      → ((parents : List Text) × (snapshot_parents net snapshot ≡ ok parents) × IsIn parent parents)
      → All (IsPromoted net parent) ds
      → All (IsGated net snapshot) ds
  All-promoted parent [] a h = tt
  All-promoted parent (d ∷ ds) a (p, h) = (inr (parent, a, p), All-promoted parent ds a h)

  subfinder_assets-IsGated :
      (tool : Text) (data_of : ObservedData) (ds : List Derived)
      → subfinder_assets net (some snapshot) tool data_of ≡ ok ds
      → All (IsGated net snapshot) ds
  subfinder_assets-IsGated tool data_of ds h =
      elim (subfinder_assets-IsPromoted net snapshot tool data_of ds h) [
        | inl e ↦ rw e tt
        | inr (parent, a, p) ↦ All-promoted parent ds a.1 p
      ]

  -- The assets of any observation.
  pub assets_from_observation-IsGated :
      (o : AgentObservation) (ds : List Derived)
      → assets_from_observation net (some snapshot) o ≡ ok ds
      → All (IsGated net snapshot) ds
  unfolding assets_from_observation
  assets_from_observation-IsGated o ds h = go o.found h
    where
      none_of :
          (out : List Derived)
          → ◌≡◌ {A = Result Exn (List Derived)} (ok out) (ok ds)
          → All (IsGated net snapshot) out
          → All (IsGated net snapshot) ds
      none_of out e k = subst (All (IsGated net snapshot)) (ok_inv _ _ e) k

      by_tool :
          (a b c d : Bool) (data_of : ObservedData)
          → (if a
              then ok (hosts_assets o.tool data_of.hosts)
              else if b
              then url_assets o.tool none data_of.services
              else if c
              then subfinder_assets net (some snapshot) o.tool data_of
              else if d
              then ok (katana_assets o.tool data_of.endpoints)
              else ok [])
            ≡ ok ds
          → All (IsGated net snapshot) ds
      by_tool true b c d data_of e =
          none_of (hosts_assets o.tool data_of.hosts) e (hosts_assets-IsGated o.tool data_of.hosts)
      by_tool false true c d data_of e = url_assets-IsGated o.tool none data_of.services ds e
      by_tool false false true d data_of e = subfinder_assets-IsGated o.tool data_of ds e
      by_tool false false false true data_of e =
          none_of (katana_assets o.tool data_of.endpoints) e
            (katana_assets-IsGated o.tool data_of.endpoints)
      by_tool false false false false data_of e = none_of [] e tt

      go :
          (f : Option ObservedData)
          → data_assets net (some snapshot) o f ≡ ok ds
          → All (IsGated net snapshot) ds
      go none e = none_of [] e tt
      go (some data_of) e = elim (Bool-cases (text_eq o.source (codes "tool"))) [
        | inl q ↦
            by_tool (text_eq o.tool (codes "nmap")) (text_eq o.tool (codes "httpx"))
              (text_eq o.tool (codes "subfinder")) (text_eq o.tool (codes "katana")) data_of
              (rw q at e)
        | inr q ↦ none_of [] (rw q at e) tt
      ]
