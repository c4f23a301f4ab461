-- ===== src/Persistence/Json.antt =====
-- JSON data of events and findings, and `_cap_strings` and `sanitize_event_data` on it. Circular data
-- is left out: such a payload has no value here.
use aicybersec.Common.{Bool, false, ◌||◌, Option, none, some, take, length, if◌then◌else◌, leb}
use aicybersec.Common.Text.{Text, codes, text_eq}
use aicybersec.Persistence.Enrich.{cap_text}

-- A JSON value: `scalar` is a number or a Boolean, given by its `str()`.
mutual
  pub data Json : Type 0 where
    null : Json
    string scalar : Text → Json
    array : Items → Json
    object : Dict → Json

  pub data Items : Type 0 where
    no_items : Items
    item : Json → Items → Items

  pub data Dict : Type 0 where
    no_entries : Dict
    entry : (key : Text) → Json → Dict → Dict

-- `d.get(key)`, None where the key is missing.
unfoldable pub get_key : Text → Dict → Json
get_key key no_entries = null
get_key key (entry k v d) = if text_eq k key then v else get_key key d

-- `_cap_strings`
unfoldable mutual
  pub cap_strings : Json → Json
  cap_strings null = null
  cap_strings (string s) = string (cap_text s)
  cap_strings (scalar s) = scalar s
  cap_strings (array js) = array (cap_items js)
  cap_strings (object d) = object (cap_dict d)

  pub cap_items : Items → Items
  cap_items no_items = no_items
  cap_items (item j js) = item (cap_strings j) (cap_items js)

  pub cap_dict : Dict → Dict
  cap_dict no_entries = no_entries
  cap_dict (entry k v d) = entry k (cap_strings v) (cap_dict d)

unfoldable pub without_key : Text → Dict → Dict
without_key key no_entries = no_entries
without_key key (entry k v d) =
    let rest = without_key key d in if text_eq k key then rest else entry k v rest

unfoldable pub has_key : Text → Dict → Bool
has_key key no_entries = false
has_key key (entry k v d) = text_eq k key || has_key key d

-- The value of one key of the payload, without the reasoning of a decision.
abbrev pub without_reasoning : Text → Json → Json
without_reasoning key (object d) =
    if text_eq key (codes "decision") then object (without_key (codes "reasoning") d) else object d
without_reasoning key j = j

unfoldable pub clean_dict : Dict → Dict
clean_dict no_entries = no_entries
clean_dict (entry k v d) = entry k (cap_strings (without_reasoning k v)) (clean_dict d)

-- From the serialized text on, None where `json.dumps` raises.
abbrev pub bounded : Dict → Option Text → Dict
bounded cleaned none = entry (codes "_unserializable") (scalar (codes "True")) no_entries
bounded cleaned (some s) =
    if leb (length s) 32768
    then cleaned
    else entry (codes "_truncated") (scalar (codes "True"))
        (entry (codes "preview") (string (take 32768 s)) no_entries)

-- `sanitize_event_data`, with `json.dumps` as a parameter.
unfoldable pub sanitize_event_data : (Dict → Option Text) → Dict → Dict
sanitize_event_data dumps d = let cleaned = clean_dict d in bounded cleaned (dumps cleaned)
