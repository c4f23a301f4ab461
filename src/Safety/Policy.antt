-- ===== src/Safety/Policy.antt =====
-- agent_core/safety/policy.py. `mode` is documented and not enforced there, and is left out.
pub mod Urls
mod Tests
use aicybersec.Common.{
  ℕ, Bool, false, not, Option, none, some, List, [], ◌∷◌, Result, ok, Exn, ◌>>=◌, if◌then◌else◌,
}
use aicybersec.Common.Text.{Text, codes, strip, lower, has_text, elem}
use aicybersec.Safety.Url.{hostname}
use aicybersec.Safety.Tools.{Tool, exceeds}

pub record Policy : Type 0 where
  pub allowed_targets : List Text
  pub max_danger : Text
  pub max_steps : ℕ
  pub timeout_s : ℕ

-- The host of a URL, and the lowered text where there is none.
abbrev host_or : Text → Option Text → Text
host_or t none = lower t
host_or t (some h) = lower h

-- `normalize_target` of a text
unfoldable pub normalize : Text → Result Exn Text
normalize target =
    let t = strip target in
    if has_text (codes "://") t then (do ok (host_or t (← hostname t))) else ok (lower t)

-- `Policy.normalize_target`
unfoldable pub normalize_target : Option Text → Result Exn (Option Text)
normalize_target none = ok none
normalize_target (some target) = do ok (some (← normalize target))

-- The set comprehension of `target_allowed`.
unfoldable pub normalize_all : List Text → Result Exn (List Text)
normalize_all [] = ok []
normalize_all (t ∷ ts) = do n ← normalize t; ns ← normalize_all ts; ok (n ∷ ns)

-- The test of `target_allowed` on the normalized target.
unfoldable pub allowed_in : List Text → Option Text → Result Exn Bool
allowed_in ts none = ok false
allowed_in ts (some n) = do ok (elem n (← normalize_all ts))

unfoldable pub target_allowed : Policy → Option Text → Result Exn Bool
target_allowed p target = normalize_target target >>= allowed_in p.allowed_targets

unfoldable pub danger_allowed : Policy → Tool → Result Exn Bool
danger_allowed p tool = do ok (not (← exceeds tool.danger_level p.max_danger))
