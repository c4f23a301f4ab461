-- ===== src/Persistence/DataOnly.antt =====
-- DNS enrichment writes data only, and only to the assets that were asked for.
use aicybersec.Common.{
  take, zero, suc, ℕ, ◌≡◌, refl, sym, ap, ◌∙◌, ◌⊎◌, inl, inr, Bool, true, false, ◌||◌, Option, none,
  some, List, [], ◌∷◌, Bool-cases, arith, IsIn,
}
use mathlib.Core.Path.{subst}
use aicybersec.Common.Text.{Text, elem, lower}
use aicybersec.Common.Text.Laws.{elem_iff, text_eq_iff}
use aicybersec.Scope.Names.{normalize_hostname}
use aicybersec.Persistence.{
  AssetType, host, subdomain, domain, url, endpoint, service, Dns, Verification, unverified,
  resolved, Asset, Answer,
}
use aicybersec.Persistence.Enrich.{
  Enrichment, normalize_dnsx_record, advance, enrich, matches, holds_names, has_host, has_values,
  enrich_rows, enrich_for, is_nothing, apply_records, apply_dns_enrichment, queried, asked_answers,
  keep_answer, apply_dnsx_enrichment,
}

-- The verification status stays, or goes from unverified to resolved.
abbrev pub IsAdvance : Verification → Verification → Type 0
IsAdvance old new = (new ≡ old) ⊎ ((old ≡ unverified) × (new ≡ resolved))

-- The types of assets that stand for a name.
abbrev pub HoldsNames : AssetType → Type 0
HoldsNames t = (t ≡ host) ⊎ (t ≡ subdomain) ⊎ (t ≡ domain)

holds_names-HoldsNames : (t : AssetType) → holds_names t ≡ true → HoldsNames t
holds_names-HoldsNames host h = inl refl
holds_names-HoldsNames subdomain h = inr (inl refl)
holds_names-HoldsNames domain h = inr (inr refl)
holds_names-HoldsNames url h = cc
holds_names-HoldsNames endpoint h = cc
holds_names-HoldsNames service h = cc

has_host_lem :
    (o : Option Text) (name : Text)
    → has_host o name ≡ true
    → (h : Text) × (o ≡ some h) × (lower h ≡ name)
has_host_lem none name e = cc
has_host_lem (some h) name e = (h, refl, (text_eq_iff (lower h) name).0 e)

-- The asset after the enrichment for some names of a scan: an asset outside stays as it is, another one
-- changes in its attributes alone.
abbrev pub IsDataOnly : ℕ → (Text → Type 0) → Asset → Asset → Type 0
IsDataOnly scan_id P old new =
    (new ≡ old)
    ⊎ ((old.scan_id ≡ scan_id)
        × HoldsNames old.asset_type
        × ((name : Text) × (h : Text) × P name × (old.host ≡ some h) × (lower h ≡ name))
        × (new ≡ record old { attributes = new.attributes })
        × IsAdvance old.attributes.verification_status new.attributes.verification_status)

abbrev pub AreDataOnly : ℕ → (Text → Type 0) → List Asset → List Asset → Type 0
AreDataOnly scan_id P [] [] = Unit
AreDataOnly scan_id P (o ∷ os) (n ∷ ns) = IsDataOnly scan_id P o n × AreDataOnly scan_id P os ns
AreDataOnly scan_id P _ _ = ⊥

advance-IsAdvance : (b : Bool) (s : Verification) → IsAdvance s (advance b s)
advance-IsAdvance false s = inl refl
advance-IsAdvance true unverified = inr (refl, refl)
advance-IsAdvance true Verification.resolved = inl refl
advance-IsAdvance true Verification.nxdomain = inl refl
advance-IsAdvance true Verification.error = inl refl
advance-IsAdvance true Verification.missing = inl refl

IsAdvance-trans : (a b c : Verification) → IsAdvance a b → IsAdvance b c → IsAdvance a c
IsAdvance-trans a b c (inl e) (inl f) = inl (f ∙ e)
IsAdvance-trans a b c (inl e) (inr (f, g)) = inr (sym e ∙ f, g)
IsAdvance-trans a b c (inr (e, f)) (inl g) = inr (e, g ∙ f)
IsAdvance-trans a b c (inr (e, f)) (inr (g, h)) = inr (e, h)

AreDataOnly-refl : (scan_id : ℕ) (P : Text → Type 0) (os : List Asset) → AreDataOnly scan_id P os os
AreDataOnly-refl scan_id P [] = tt
AreDataOnly-refl scan_id P (o ∷ os) = (inl refl, AreDataOnly-refl scan_id P os)

IsDataOnly-trans :
    (scan_id : ℕ) (P : Text → Type 0) (a b c : Asset)
    → IsDataOnly scan_id P a b
    → IsDataOnly scan_id P b c
    → IsDataOnly scan_id P a c
IsDataOnly-trans scan_id P a b c (inl e) h = subst (λ (x : Asset). IsDataOnly scan_id P x c) e h
IsDataOnly-trans scan_id P a b c (inr h) (inl f) =
    subst (λ (x : Asset). IsDataOnly scan_id P a x) (sym f) (inr h)
IsDataOnly-trans scan_id P a b c (inr (s, t, n, q, v)) (inr (s2, t2, n2, q2, v2)) = inr (
  s,
  t,
  n,
  q2 ∙ ap (λ (x : Asset). record x { attributes = c.attributes }) q,
  IsAdvance-trans _ _ _ v v2,
)

AreDataOnly-trans :
    (scan_id : ℕ) (P : Text → Type 0) (xs bs cs : List Asset)
    → AreDataOnly scan_id P xs bs
    → AreDataOnly scan_id P bs cs
    → AreDataOnly scan_id P xs cs
AreDataOnly-trans scan_id P [] [] [] h k = tt
AreDataOnly-trans scan_id P [] [] (c ∷ cs) h k = k
AreDataOnly-trans scan_id P [] (b ∷ bs) cs h k = absurd h
AreDataOnly-trans scan_id P (a ∷ xs) [] cs h k = absurd h
AreDataOnly-trans scan_id P (a ∷ xs) (b ∷ bs) [] h k = k
AreDataOnly-trans scan_id P (a ∷ xs) (b ∷ bs) (c ∷ cs) h k =
    (IsDataOnly-trans scan_id P a b c h.0 k.0, AreDataOnly-trans scan_id P xs bs cs h.1 k.1)

enrich_rows-AreDataOnly :
    (dns : Dns) (scan_id : ℕ) (P : Text → Type 0) (name : Text) (e : Enrichment) (os : List Asset)
    → P name
    → AreDataOnly scan_id P os (enrich_rows dns scan_id name e os)
unfolding enrich_rows enrich
enrich_rows-AreDataOnly dns scan_id P name e [] m = tt
enrich_rows-AreDataOnly dns scan_id P name e (o ∷ os) m =
    elim (Bool-cases (matches scan_id name o)) [
      | inl h ↦
          let (given, a, b) = has_host_lem o.host name (ground arith) in
          rw h (
            inr (
              ground arith,
              holds_names-HoldsNames o.asset_type (ground arith),
              (name, given, m, a, b),
              refl,
              advance-IsAdvance (has_values e.new_a || has_values e.new_aaaa)
                  o.attributes.verification_status,
            ),
            enrich_rows-AreDataOnly dns scan_id P name e os m,
          )
      | inr h ↦ rw h (inl refl, enrich_rows-AreDataOnly dns scan_id P name e os m)
    ]

abbrev AllAsked : Dns → (Text → Type 0) → List Answer → Type 0
AllAsked dns P [] = Unit
AllAsked dns P (r ∷ rs) =
    ((name : Text) → normalize_hostname dns.net r.host ≡ some name → P name) × AllAsked dns P rs

enrich_for-AreDataOnly :
    (dns : Dns) (scan_id : ℕ) (P : Text → Type 0) (e : Enrichment) (o : Option Text)
    (os : List Asset)
    → ((name : Text) → o ≡ some name → P name)
    → AreDataOnly scan_id P os (enrich_for dns scan_id e o os)
enrich_for-AreDataOnly dns scan_id P e none os f = AreDataOnly-refl scan_id P os
enrich_for-AreDataOnly dns scan_id P e (some name) os f = elim (Bool-cases (is_nothing e)) [
  | inl h ↦ rw h (AreDataOnly-refl scan_id P os)
  | inr h ↦ rw h (enrich_rows-AreDataOnly dns scan_id P name e os (f name refl))
]

apply_records-AreDataOnly :
    (dns : Dns) (scan_id : ℕ) (P : Text → Type 0) (rs : List Answer) (os : List Asset)
    → AllAsked dns P rs
    → AreDataOnly scan_id P os (apply_records dns scan_id rs os)
unfolding apply_records
apply_records-AreDataOnly dns scan_id P [] os h = AreDataOnly-refl scan_id P os
apply_records-AreDataOnly dns scan_id P (r ∷ rs) os h =
    let next =
      enrich_for dns scan_id (normalize_dnsx_record dns r) (normalize_hostname dns.net r.host) os in
    AreDataOnly-trans scan_id P os next (apply_records dns scan_id rs next)
      (enrich_for-AreDataOnly dns scan_id P (normalize_dnsx_record dns r)
        (normalize_hostname dns.net r.host) os h.0)
      (apply_records-AreDataOnly dns scan_id P rs next h.1)

take-AllAsked :
    (dns : Dns) (P : Text → Type 0) (n : ℕ) (rs : List Answer)
    → AllAsked dns P rs
    → AllAsked dns P (take n rs)
take-AllAsked dns P zero rs h = tt
take-AllAsked dns P (suc n) [] h = tt
take-AllAsked dns P (suc n) (r ∷ rs) h = (h.0, take-AllAsked dns P n rs h.1)

-- A name that the re-normalised host of a queried record has.
abbrev pub IsQueried : Dns → List Text → Text → Type 0
IsQueried dns targets name =
    (q : Text) × IsIn q (queried dns [] targets) × (normalize_hostname dns.net (some q) ≡ some name)

asked_answers-AllAsked :
    (dns : Dns) (targets : List Text) (rs : List Answer)
    → AllAsked dns (IsQueried dns targets) (asked_answers dns (queried dns [] targets) rs)
unfolding asked_answers
asked_answers-AllAsked dns targets [] = tt
asked_answers-AllAsked dns targets (r ∷ rs) =
    kept (normalize_hostname dns.net r.host) (asked_answers-AllAsked dns targets rs)
  where
    kept :
        (o : Option Text)
        → AllAsked dns (IsQueried dns targets) (asked_answers dns (queried dns [] targets) rs)
        → AllAsked dns (IsQueried dns targets) (
            keep_answer o
              (queried dns [] targets)
              r
              (asked_answers dns (queried dns [] targets) rs))
    kept none h = h
    kept (some name) h = elim (Bool-cases (elem name (queried dns [] targets))) [
      | inl m ↦ rw m ((λ again e. (name, (elem_iff name (queried dns [] targets)).0 m, e)), h)
      | inr m ↦ rw m h
    ]

-- A DNSX result changes assets in their attributes alone, and there the verification status stays or
-- goes from unverified to resolved: only hosts, domains and subdomains of the scan, whose host in lower
-- case is a name that comes of a validated target by normalising it and normalising the result again.
pub apply_dnsx_enrichment-AreDataOnly :
    (dns : Dns) (scan_id : ℕ) (targets : List Text) (records : List Answer) (assets : List Asset)
    → AreDataOnly scan_id
        (IsQueried dns targets)
        assets
        (apply_dnsx_enrichment dns scan_id targets records assets)
unfolding apply_dnsx_enrichment apply_dns_enrichment
apply_dnsx_enrichment-AreDataOnly dns scan_id targets records assets =
    let answers = asked_answers dns (queried dns [] targets) (take 500 records) in
    apply_records-AreDataOnly dns scan_id (IsQueried dns targets) (take 500 answers) assets (
      take-AllAsked dns (IsQueried dns targets) 500 answers
        (asked_answers-AllAsked dns targets (take 500 records)))
