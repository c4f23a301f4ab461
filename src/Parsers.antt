-- ===== src/Parsers.antt =====
-- agent_core/tools/subfinder_parser.py and dnsx_parser.py: the records of the tools' JSON lines.
-- `json.loads` is a parameter, None where it raises.
pub mod Laws
pub mod Bounds
mod Tests
use aicybersec.Common.{
  ℕ, zero, suc, Bool, true, false, ◌&&◌, ◌||◌, Option, none, some, List, [], ◌∷◌, ◌++◌, take,
  length, if◌then◌else◌, leb, ◌==◌,
}
use aicybersec.Common.Order.{sort_by}
use aicybersec.Common.Text.{Text, codes, is_empty, elem, strip}
use aicybersec.Discovery.Names.{insert}
use aicybersec.Persistence.Json.{
  Json, null, string, scalar, array, object, Items, no_items, item, Dict, get_key,
}

-- Where `str.splitlines` splits. "\r\n" makes a blank line more here, and blank lines are skipped.
abbrev pub is_break : ℕ → Bool
is_break c = (leb 10 c && leb c 13) || (leb 28 c && leb c 30) || c == 133 || c == 8232 || c == 8233

abbrev pub push_code : ℕ → List Text → List Text
push_code c [] = (c ∷ []) ∷ []
push_code c (l ∷ ls) = (c ∷ l) ∷ ls

unfoldable pub splitlines : Text → List Text
splitlines [] = []
splitlines (c ∷ s) = let rest = splitlines s in if is_break c then [] ∷ rest else push_code c rest

-- `_clean_str` of both parsers
abbrev pub clean_text : Text → Option Text
clean_text s = let t = strip s in if is_empty t then none else some (take 500 t)

unfoldable pub clean_str : Json → Option Text
clean_str (string s) = clean_text s
clean_str _ = none

abbrev pub add_text : Option Text → List Text → List Text
add_text none out = out
add_text (some t) out = insert t out

abbrev pub one_item : Json → Items
one_item j = item j no_items

-- The list to clean: a text stands for a list of it, anything else but a list for none.
abbrev pub items_of : Json → Items
items_of (array js) = js
items_of (string s) = one_item (string s)
items_of _ = no_items

-- The loop of Subfinder's `_clean_str_list`, which ends with the tenth value.
unfoldable pub clean_first : List Text → Items → List Text
clean_first out no_items = out
clean_first out (item j js) =
    let next = add_text (clean_str j) out in
    elim (leb 10 (length next)) [ true ↦ next | false ↦ clean_first next js ]

-- That of DNSX, which cuts after the sort.
unfoldable pub clean_all : List Text → Items → List Text
clean_all out no_items = out
clean_all out (item j js) = clean_all (add_text (clean_str j) out) js

abbrev pub clean_list : Json → List Text
clean_list j = clean_first [] (items_of j)

abbrev pub clean_sorted : Json → List Text
clean_sorted j = take 10 (sort_by (λ (x : Text). x) (clean_all [] (items_of j)))

pub record Subdomain : Type 0 where
  pub subdomain : Text
  pub sources : List Text
  pub discovered_ips : List Text

-- Without "status_code_raw".
pub record DnsxRecord : Type 0 where
  pub host : Text
  pub a : List Text
  pub aaaa : List Text
  pub cname : List Text

abbrev pub or_primary : List Text → Option Text → List Text
or_primary (s ∷ ss) primary = s ∷ ss
or_primary [] none = []
or_primary [] (some t) = t ∷ []

abbrev pub subdomain_of : Dict → Option Text → Option Subdomain
subdomain_of d none = none
subdomain_of d (some host) = some (record {
  subdomain = host;
  sources =
      or_primary (clean_list (get_key (codes "sources") d))
        (clean_str (get_key (codes "source") d));
  discovered_ips = clean_list (get_key (codes "ip") d);
})

abbrev pub dnsx_of : Dict → Option Text → Option DnsxRecord
dnsx_of d none = none
dnsx_of d (some host) = some (record {
  host = host;
  a = clean_sorted (get_key (codes "a") d);
  aaaa = clean_sorted (get_key (codes "aaaa") d);
  cname = clean_sorted (get_key (codes "cname") d);
})

-- `normalize_entry` of the two parsers.
unfoldable pub normalize_subfinder : Json → Option Subdomain
normalize_subfinder (object d) = subdomain_of d (clean_str (get_key (codes "host") d))
normalize_subfinder _ = none

unfoldable pub normalize_dnsx : Json → Option DnsxRecord
normalize_dnsx (object d) = dnsx_of d (clean_str (get_key (codes "host") d))
normalize_dnsx _ = none

module _ {A : Type 0} where
  abbrev pub normalize_line : (Json → Option A) → Option Json → Option A
  normalize_line normalize none = none
  normalize_line normalize (some j) = normalize j

  -- One line that is not blank: the records and the count of the skipped lines after it.
  abbrev pub keep_line : ℕ → Option A → List A × ℕ → List A × ℕ
  keep_line max none (out, skipped) = (out, suc skipped)
  keep_line max (some a) (out, skipped) =
      if leb max (length out) then (out, suc skipped) else (out ++ a ∷ [], skipped)

  -- The loop over the lines, which the two parsers share.
  unfoldable pub parse_lines :
      (Text → Option Json) → (Json → Option A) → ℕ → List A × ℕ → List Text → List A × ℕ
  parse_lines loads normalize max r [] = r
  parse_lines loads normalize max r (l ∷ ls) =
      parse_lines loads normalize max
        (if is_empty (strip l) then r else keep_line max (normalize_line normalize (loads l)) r) ls

-- `parse_subfinder_jsonl`: the records, and how many lines were skipped.
unfoldable pub parse_subfinder_jsonl : (Text → Option Json) → Text → List Subdomain × ℕ
parse_subfinder_jsonl loads s = parse_lines loads normalize_subfinder 500 ([], 0) (splitlines s)

-- `parse_dnsx_jsonl`
unfoldable pub parse_dnsx_jsonl : (Text → Option Json) → Text → List DnsxRecord × ℕ
parse_dnsx_jsonl loads s = parse_lines loads normalize_dnsx 100 ([], 0) (splitlines s)
