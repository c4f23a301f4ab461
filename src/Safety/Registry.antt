-- ===== src/Safety/Registry.antt =====
-- agent_core/tools/registry.py: the whitelist of tools, a dict in insertion order.
pub mod Unique
use aicybersec.Common.{
  Bool, Option, none, some, List, [], ◌∷◌, ◌++◌, ◌||◌, Result, ok, err, Exn, value_error, key_error,
  if◌then◌else◌,
}
use aicybersec.Common.Text.{Text, is_empty, text_eq, elem}
use aicybersec.Safety.Tools.{Tool}

abbrev pub Registry : Type 0
Registry = List Tool

abbrev pub names_of : Registry → List Text
names_of [] = []
names_of (t ∷ r) = t.name ∷ names_of r

-- `name in self._tools`
unfoldable pub has : Registry → Text → Bool
has r name = elem name (names_of r)

unfoldable pub register : Registry → Tool → Result Exn Registry
register r tool =
    if is_empty tool.name || has r tool.name then err value_error else ok (r ++ tool ∷ [])

unfoldable pub find : Registry → Text → Option Tool
find [] name = none
find (t ∷ r) name = if text_eq name t.name then some t else find r name

abbrev or_key_error : Option Tool → Result Exn Tool
or_key_error none = err key_error
or_key_error (some t) = ok t

unfoldable pub get : Registry → Text → Result Exn Tool
get r name = or_key_error (find r name)
