-- ===== src/Safety/Policy/Tests.antt =====
-- Concrete URLs for agent_core/safety/policy.py.
use aicybersec.Common.{◌≡◌, refl, ok}
use aicybersec.Common.Text.{
  codes, lower, lower_code, strip, lstrip, rstrip, has_text, starts_with, has, after_last, before,
  after,
}
use aicybersec.Safety.Url.{
  lstrip_controls, remove_breaks, all_scheme, drop_scheme, netloc_end, netloc_of, host_part,
  host_lower, hostname,
}
use aicybersec.Safety.Policy.{normalize}

-- Two at signs: the host is what follows the last.
two_users :
    normalize (codes " https://good.com@u:p@Evil.Example.com:8443/a?u=http://good.com ")
    ≡ ok (codes "evil.example.com")
unfolding normalize strip lstrip rstrip has_text starts_with hostname lstrip_controls remove_breaks
    drop_scheme all_scheme has before after netloc_of netloc_end host_part after_last host_lower
    lower lower_code
two_users = refl
