-- ===== src/Tests/Origins.antt =====
-- Origins that are allowed and one that is not.
use orchestronic_be.Base.{none, some, ◌≡◌, ◌↔◌, refl, true, false}
use orchestronic_be.Base.Text.{codes, split, trim, trim_start}
use orchestronic_be.Env.{
  normalize_origin, normalize_env_value, origins_of, trim_slashes, drop_quote, has, strip,
}
use orchestronic_be.Origins.{
  OriginEnv, allows, allowed_origins, nonempty, is_localhost_origin, after_scheme, after_host,
}
use orchestronic_be.Origins.Allowed.{Welcome, allows_iff}

abbrev env : OriginEnv
env = record {
  frontend_url = some (codes "\"https://app.example.org/\", https://other.example.org");
  backend_url = none;
}

listed : allows env (some (codes "https://app.example.org")) ≡ true
unfolding allows allowed_origins nonempty has normalize_origin normalize_env_value origins_of
    trim_slashes drop_quote trim trim_start split
listed = refl

local : is_localhost_origin (codes "HTTP://LocalHost:3000") ≡ true
unfolding is_localhost_origin after_scheme after_host strip
local = refl

long_host : is_localhost_origin (codes "http://localhost.example.org") ≡ false
unfolding is_localhost_origin after_scheme after_host strip
long_host = refl

allows_iff_example :
    (allows env (some (codes "https://app.example.org")) ≡ true)
    ↔ Welcome env (codes "https://app.example.org")
allows_iff_example = allows_iff env (codes "https://app.example.org")
