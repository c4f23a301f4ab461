-- ===== src/Persistence/Store.antt =====
-- `persist_assets_from_observations` on the rows of the table of assets. The identifier of a new row
-- is a function of the rows; rows that other transactions add meanwhile are left out.
use aicybersec.Common.{
  ℕ, Bool, true, false, ◌&&◌, Option, none, some, is_some, List, [], ◌∷◌, ◌++◌, take, length,
  Result, ok, Exn, ◌>>=◌, if◌then◌else◌, leb, ◌==◌,
}
use aicybersec.Common.Text.{Text, text_eq}
use aicybersec.Scan.{Entry}
use aicybersec.Scope.{Net}
use aicybersec.Persistence.{
  AssetType, host, subdomain, domain, service, url, endpoint, Attributes, Asset,
}
use aicybersec.Persistence.Enrich.{cap_list, cap_params}
use aicybersec.Persistence.Builders.{nonempty_text}
use aicybersec.Persistence.Observed.{AgentObservation, Derived}
use aicybersec.Persistence.Derive.{assets_from_observation}

abbrev pub type_rank : AssetType → ℕ
type_rank host = 0
type_rank subdomain = 1
type_rank domain = 2
type_rank service = 3
type_rank url = 4
type_rank endpoint = 5

abbrev pub is_identity : ℕ → AssetType → Text → Asset → Bool
is_identity scan_id t value row =
    row.scan_id == scan_id && type_rank row.asset_type == type_rank t && text_eq row.value value

-- `identity_to_id.get((t, value))`; a scan has at most one row of an identity.
unfoldable pub find_id : ℕ → AssetType → Text → List Asset → Option ℕ
find_id scan_id t value [] = none
find_id scan_id t value (row ∷ rows) =
    let rest = find_id scan_id t value rows in
    if is_identity scan_id t value row then some row.id else rest

-- The loop over the observations: it ends once 500 assets are there.
unfoldable pub derive_all :
    Net → Option (List Entry) → List Derived → List AgentObservation → Result Exn (List Derived)
derive_all net snapshot out [] = ok out
derive_all net snapshot out (o ∷ os) = do
  ds ← assets_from_observation net snapshot o
  elim (leb 500 (length (out ++ ds))) [
    | true ↦ ok (out ++ ds)
    | false ↦ derive_all net snapshot (out ++ ds) os
  ]

-- A row of this run, and the identity of its parent, which is looked up after the loop.
pub record NewRow : Type 0 where
  pub row : Asset
  pub parent : Option (AssetType × Text)

abbrev pub rows_of : List NewRow → List Asset
rows_of [] = []
rows_of (n ∷ ns) = n.row ∷ rows_of ns

-- What of a scan the rows take.
pub record Owner : Type 0 where
  pub scan_id : ℕ
  pub project_id : ℕ
  pub target_snapshot : Option (List Entry)

abbrev pub cap_attributes : Attributes → Attributes
cap_attributes a = record {
  dns_a = cap_list a.dns_a;
  dns_aaaa = cap_list a.dns_aaaa;
  dns_cname = cap_list a.dns_cname;
  verification_status = a.verification_status;
  rest = cap_params a.rest;
}

abbrev pub take_some : ℕ → Option Text → Option Text
take_some n none = none
take_some n (some s) = some (take n s)

abbrev pub cap_parent : Option (AssetType × Text) → Option (AssetType × Text)
cap_parent none = none
cap_parent (some (t, value)) = some (t, take 500 value)

abbrev pub row_of : Owner → Derived → ℕ → Asset
row_of scan d id = record {
  id = id;
  scan_id = scan.scan_id;
  project_id = scan.project_id;
  asset_type = d.asset_type;
  value = take 500 d.value;
  host = take_some 255 (nonempty_text d.host);
  port = d.port;
  scheme = take_some 10 (nonempty_text d.scheme);
  parent_asset_id = none;
  attributes = cap_attributes d.attributes;
  source_tool = take 50 d.source_tool;
}

abbrev pub is_known : Owner → Derived → List Asset → Bool
is_known scan d rows = is_some (find_id scan.scan_id d.asset_type (take 500 d.value) rows)

-- The rows of this run after one more asset dict; `old` are the rows before the run.
unfoldable pub add_asset :
    (List Asset → ℕ) → Owner → List Asset → List NewRow → Derived → List NewRow
add_asset new_id scan old new d =
    let rows = old ++ rows_of new in
    if is_known scan d rows
    then new
    else new ++ record { row = row_of scan d (new_id rows); parent = cap_parent d.parent } ∷ []

unfoldable pub add_assets :
    (List Asset → ℕ) → Owner → List Asset → List NewRow → List Derived → List NewRow
add_assets new_id scan old new [] = new
add_assets new_id scan old new (d ∷ ds) =
    add_assets new_id scan old (add_asset new_id scan old new d) ds

abbrev pub set_parent : Asset → Option ℕ → Asset
set_parent row none = row
set_parent row (some parent_id) =
    if parent_id == row.id then row else record row { parent_asset_id = some parent_id }

abbrev pub link_row : ℕ → List Asset → Asset → Option (AssetType × Text) → Asset
link_row scan_id rows row none = row
link_row scan_id rows row (some (t, value)) = set_parent row (find_id scan_id t value rows)

-- The loop over `pending_links`
unfoldable pub link_parents : ℕ → List Asset → List NewRow → List Asset
link_parents scan_id rows [] = []
link_parents scan_id rows (n ∷ ns) =
    link_row scan_id rows n.row n.parent ∷ link_parents scan_id rows ns

-- The rows after the run, and the count of the new ones.
abbrev pub with_links : ℕ → List Asset → List NewRow → List Asset × ℕ
with_links scan_id old new = (old ++ link_parents scan_id (old ++ rows_of new) new, length new)

unfoldable pub store_assets : (List Asset → ℕ) → Owner → List Derived → List Asset → List Asset × ℕ
store_assets new_id scan ds old = with_links scan.scan_id old (add_assets new_id scan old [] ds)

-- `persist_assets_from_observations`: the rows after it, and what it returns.
unfoldable pub persist_assets :
    Net
    → (List Asset → ℕ)
    → Owner
    → List AgentObservation
    → List Asset
    → Result Exn (List Asset × ℕ)
persist_assets net new_id scan observations old = do
  ds ← derive_all net scan.target_snapshot [] observations
  ok (store_assets new_id scan (take 500 ds) old)
