-- ===== src/Safety/Params.antt =====
-- The params dict of a tool call. A JSON value is read only as text, as a list, or through `str()`, so
-- any other value is given by its `str()`.
use aicybersec.Common.{Option, none, some, List, [], ◌∷◌, if◌then◌else◌}
use aicybersec.Common.Text.{Text, text_eq}

-- One value of a params dict. `items` are the `str()` of a list's members.
pub data Value : Type 0 where
  text : Text → Value
  items : List Text → Value
  other : Text → Value

abbrev pub Params : Type 0
Params = List (Text × Value)

-- `params.get(key)`
unfoldable pub get_param : Text → Params → Option Value
unfolding text_eq
get_param key [] = none
get_param key ((k, v) ∷ ps) = if text_eq key k then some v else get_param key ps

-- `str(v)`; the `str()` of a list is not used by any tool's target key.
abbrev pub show_value : Value → Text
show_value (text t) = t
show_value (items ts) = []
show_value (other t) = t
