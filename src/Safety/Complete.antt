-- ===== src/Safety/Complete.antt =====
-- The gate refuses nothing that it should let through.
use aicybersec.Common.{◌≡◌, Option, List, ok, IsUnique}
use aicybersec.Common.Text.{Text}
use aicybersec.Common.Text.Laws.{elem_iff}
use aicybersec.Safety.Params.{Params}
use aicybersec.Safety.Tools.{Tool, tool_call}
use aicybersec.Safety.Policy.{Policy, normalize_all}
use aicybersec.Safety.Registry.{Registry, names_of, has, get}
use aicybersec.Safety.Registry.Unique.{find_of_IsIn, IsIn-names_of}
use aicybersec.Safety.Validator.{
  accepted_call, extract_targets, stage_policy, stage_params, validate,
}
use aicybersec.Safety.Permitted.{IsPermitted, All-first_denied, IsWithinCap-danger_allowed}

-- A permitted call is accepted, where the registry's names are unique and no allowlist entry makes
-- the URL parser raise.
pub IsPermitted-validate :
    (r : Registry) (p : Policy) (name : Text) (raw : Params) (reasoning : Option Text) (tool : Tool)
    (params : Params) (hosts : List Text)
    → IsUnique (names_of r)
    → normalize_all p.allowed_targets ≡ ok hosts
    → IsPermitted r p name raw tool params
    → validate r p (tool_call name raw reasoning) ≡ ok (accepted_call tool params)
unfolding validate has get stage_params stage_policy
IsPermitted-validate r p name raw reasoning tool params hosts u e h = rw (
  ← h.named,
  (elem_iff tool.name (names_of r)).1 (IsIn-names_of r tool h.registered),
  find_of_IsIn r tool u h.registered,
  h.schema,
  IsWithinCap-danger_allowed p tool h.capped,
  All-first_denied p (extract_targets tool raw) hosts e h.targets,
)
