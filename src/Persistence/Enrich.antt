-- ===== src/Persistence/Enrich.antt =====
-- `apply_dns_enrichment`, `apply_dnsx_enrichment` and their helpers.
use aicybersec.Common.{
  ℕ, Bool, true, false, not, ◌&&◌, ◌||◌, Option, none, some, or_else, List, [], ◌∷◌, ◌++◌, take,
  length, if◌then◌else◌, leb, ◌==◌,
}
use aicybersec.Common.Text.{Text, codes, text_eq, elem, is_empty, strip, lower}
use aicybersec.Common.Order.{sort_by}
use aicybersec.Safety.Params.{Value, text, items, other, Params}
use aicybersec.Scope.Names.{normalize_hostname}
use aicybersec.Discovery.Names.{insert, union}
use aicybersec.Persistence.{
  Dns, AssetType, host, subdomain, domain, Verification, unverified, resolved, Attributes, Asset,
  Answer,
}

-- The keys of DNS_ATTR_KEYS.
pub data DnsKey : Type 0 where
  key_a key_aaaa key_cname : DnsKey

-- `_cap_strings`; dicts inside the attributes are not followed.
abbrev pub cap_text : Text → Text
cap_text s = if leb (length s) 8192 then s else take 8192 s ++ codes "...[truncated]"

abbrev pub cap_texts : List Text → List Text
cap_texts [] = []
cap_texts (s ∷ ss) = cap_text s ∷ cap_texts ss

abbrev pub cap_value : Value → Value
cap_value (text s) = text (cap_text s)
cap_value (items ss) = items (cap_texts ss)
cap_value (other s) = other s

abbrev pub cap_params : Params → Params
cap_params [] = []
cap_params ((k, v) ∷ ps) = (k, cap_value v) ∷ cap_params ps

abbrev pub of_version : ℕ → Option (ℕ × Text) → Option Text
of_version v none = none
of_version v (some (n, t)) = if n == v then some t else none

-- One value, as the key wants it.
unfoldable pub clean_value : Dns → DnsKey → Text → Option Text
clean_value dns key_a s = of_version 4 (dns.ip_address s)
clean_value dns key_aaaa s = of_version 6 (dns.ip_address s)
clean_value dns key_cname s = normalize_hostname dns.net (some s)

abbrev pub add_clean : Option Text → List Text → List Text
add_clean none out = out
add_clean (some t) out = insert (take 255 t) out

unfoldable pub clean_values : Dns → DnsKey → List Text → List Text → List Text
clean_values dns key out [] = out
clean_values dns key out (s ∷ ss) =
    let t = strip s in
    clean_values dns key (if is_empty t then out else add_clean (clean_value dns key t) out) ss

abbrev pub sorted_20 : List Text → List Text
sorted_20 xs = take 20 (sort_by (λ (x : Text). x) xs)

-- `_normalize_dns_values`
unfoldable pub normalize_dns_values : Dns → DnsKey → List Text → List Text
normalize_dns_values dns key values = sorted_20 (clean_values dns key [] values)

-- `_merge_dns_values`
unfoldable pub merge_dns_values : List Text → List Text → List Text
merge_dns_values existing incoming = sorted_20 (union (union [] existing) incoming)

-- What `_normalize_dnsx_record` returns; a key without values is not in the dict.
pub record Enrichment : Type 0 where
  pub new_a : List Text
  pub new_aaaa : List Text
  pub new_cname : List Text

unfoldable pub normalize_dnsx_record : Dns → Answer → Enrichment
normalize_dnsx_record dns r = record {
  new_a = normalize_dns_values dns key_a (r.dns_a ++ r.a);
  new_aaaa = normalize_dns_values dns key_aaaa (r.dns_aaaa ++ r.aaaa);
  new_cname = normalize_dns_values dns key_cname (r.dns_cname ++ r.cname);
}

abbrev pub has_values : List Text → Bool
has_values [] = false
has_values (x ∷ xs) = true

abbrev pub cap_list : Option (List Text) → Option (List Text)
cap_list none = none
cap_list (some ss) = some (cap_texts ss)

abbrev pub merged : Dns → DnsKey → Option (List Text) → List Text → Option (List Text)
merged dns key old [] = old
merged dns key old (v ∷ vs) =
    some (merge_dns_values (normalize_dns_values dns key (or_else old [])) (v ∷ vs))

abbrev pub advance : Bool → Verification → Verification
advance true unverified = resolved
advance _ status = status

-- The new attributes of a row.
unfoldable pub enrich : Dns → Enrichment → Attributes → Attributes
enrich dns e a = record {
  dns_a = cap_list (merged dns key_a a.dns_a e.new_a);
  dns_aaaa = cap_list (merged dns key_aaaa a.dns_aaaa e.new_aaaa);
  dns_cname = cap_list (merged dns key_cname a.dns_cname e.new_cname);
  verification_status = advance (has_values e.new_a || has_values e.new_aaaa) a.verification_status;
  rest = cap_params a.rest;
}

abbrev pub holds_names : AssetType → Bool
holds_names host = true
holds_names subdomain = true
holds_names domain = true
holds_names _ = false

abbrev pub has_host : Option Text → Text → Bool
has_host none name = false
has_host (some h) name = text_eq (lower h) name

abbrev pub matches : ℕ → Text → Asset → Bool
matches scan_id name asset =
    asset.scan_id == scan_id && holds_names asset.asset_type && has_host asset.host name

unfoldable pub enrich_rows : Dns → ℕ → Text → Enrichment → List Asset → List Asset
enrich_rows dns scan_id name e [] = []
enrich_rows dns scan_id name e (asset ∷ assets) =
    let rest = enrich_rows dns scan_id name e assets in
    if matches scan_id name asset
    then record asset { attributes = enrich dns e asset.attributes } ∷ rest
    else asset ∷ rest

abbrev pub is_nothing : Enrichment → Bool
is_nothing e = not (has_values e.new_a || has_values e.new_aaaa || has_values e.new_cname)

abbrev pub enrich_for : Dns → ℕ → Enrichment → Option Text → List Asset → List Asset
enrich_for dns scan_id e none assets = assets
enrich_for dns scan_id e (some name) assets =
    if is_nothing e then assets else enrich_rows dns scan_id name e assets

unfoldable pub apply_records : Dns → ℕ → List Answer → List Asset → List Asset
apply_records dns scan_id [] assets = assets
apply_records dns scan_id (r ∷ rs) assets = apply_records dns scan_id rs (
    enrich_for dns scan_id (normalize_dnsx_record dns r) (normalize_hostname dns.net r.host) assets)

-- The rows after `apply_dns_enrichment`; its count of rows is left out.
unfoldable pub apply_dns_enrichment : Dns → ℕ → List Answer → List Asset → List Asset
apply_dns_enrichment dns scan_id records assets =
    apply_records dns scan_id (take 500 records) assets

-- `apply_dnsx_enrichment` on the data of a successful DNSX result.
abbrev pub add_name : Option Text → List Text → List Text
add_name none out = out
add_name (some name) out = insert name out

unfoldable pub queried : Dns → List Text → List Text → List Text
queried dns out [] = out
queried dns out (t ∷ ts) = queried dns (add_name (normalize_hostname dns.net (some t)) out) ts

abbrev pub keep_answer : Option Text → List Text → Answer → List Answer → List Answer
keep_answer none names r rest = rest
keep_answer (some name) names r rest =
    if elem name names then record r { host = some name } ∷ rest else rest

unfoldable pub asked_answers : Dns → List Text → List Answer → List Answer
asked_answers dns names [] = []
asked_answers dns names (r ∷ rs) =
    keep_answer (normalize_hostname dns.net r.host) names r (asked_answers dns names rs)

unfoldable pub apply_dnsx_enrichment : Dns → ℕ → List Text → List Answer → List Asset → List Asset
apply_dnsx_enrichment dns scan_id targets records assets =
    let names = queried dns [] targets in
    apply_dns_enrichment dns scan_id (asked_answers dns names (take 500 records)) assets
