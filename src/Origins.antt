-- ===== src/Origins.antt =====
-- The list of origins in `configureApp` of src/main.ts, by which CORS requests are answered.
pub mod Localhost
pub mod Allowed
use orchestronic_be.Base.{
  Option, none, some, List, [], ◌∷◌, ◌++◌, Bool, true, false, ◌&&◌, ◌||◌, ◌==◌, if◌then◌else◌, not,
}
use orchestronic_be.Base.Text.{Text, codes}
use orchestronic_be.Base.Decimal.{all_digits}
use orchestronic_be.Env.{
  normalize_origin, origins_of, has, is_set, ends_with, to_lower_ascii, strip,
}

-- What the set-up reads of the process's environment.
pub record OriginEnv : Type 0 where
  pub frontend_url : Option Text
  pub backend_url : Option Text

-- `filter(Boolean)`
unfoldable pub nonempty : List Text → List Text
nonempty [] = []
nonempty (t ∷ ts) = let rest = nonempty ts in if is_set t then t ∷ rest else rest

unfoldable pub allowed_origins : OriginEnv → List Text
allowed_origins env =
    nonempty (origins_of env.frontend_url) ++ nonempty (origins_of env.backend_url)

abbrev pub or_strip : Text → Option Text → Text → Option Text
or_strip p (some t) s = some t
or_strip p none s = strip p s

-- `(:\d+)?$`
abbrev pub is_port : Text → Bool
is_port [] = true
is_port (colon ∷ []) = false
is_port (colon ∷ d ∷ ds) = colon == b':' && all_digits (d ∷ ds)

-- `/^https?:\/\/(localhost|127\.0\.0\.1)(:\d+)?$/i`
unfoldable pub after_scheme : Text → Option Text
after_scheme s = or_strip (codes "http://") (strip (codes "https://") s) s

unfoldable pub after_host : Text → Option Text
after_host s = or_strip (codes "127.0.0.1") (strip (codes "localhost") s) s

abbrev pub port_after_host : Option Text → Bool
port_after_host none = false
port_after_host (some t) = is_port t

abbrev pub host_after_scheme : Option Text → Bool
host_after_scheme none = false
host_after_scheme (some t) = port_after_host (after_host t)

unfoldable pub is_localhost_origin : Text → Bool
is_localhost_origin origin = host_after_scheme (after_scheme (to_lower_ascii origin))

-- The `origin` callback: whether it calls back with `true` or with an error.
unfoldable pub allows : OriginEnv → Option Text → Bool
allows env none = true
allows env (some origin) =
    not (is_set origin)
    || (has (allowed_origins env) (normalize_origin origin)
        || (ends_with (codes ".vercel.app") (normalize_origin origin)
            || is_localhost_origin (normalize_origin origin)))
