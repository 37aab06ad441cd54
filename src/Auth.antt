-- ===== src/Auth.antt =====
-- Login, refresh and logout with cookies: src/auth/auth.controller.ts. `jwt.sign`, `jwt.verify` and
-- the answer of `res.cookie`, which throws on options that it cannot write, are arguments.
pub mod Cookies
pub mod Refresh
pub mod Guard
pub mod Lockout
use orchestronic_be.Base.{
  ℕ, String, Option, none, some, List, [], ◌∷◌, ◌++◌, Bool, true, false, ◌||◌, ◌==◌, map,
  if◌then◌else◌,
}
use orchestronic_be.Base.Text.{Text, codes, split, text_eq, trim}
use orchestronic_be.Schema.{Role}
use orchestronic_be.Effects.Data.{SameSite, CookieOptions, CookieChange}
use orchestronic_be.Effects.Calls.{Call}
use orchestronic_be.Effects.Monad.{
  Exception, Outcome, returned, thrown, Action, pure, throw, perform, ◌>>=◌, ◌>>◌,
}
use orchestronic_be.Session.{lift, nonempty_text}
use orchestronic_be.Env.{normalize_env_value, trim_slashes, is_set, text_or_empty, to_lower_ascii}

-- The claims of a token; those that are left out are absent.
pub record Claims : Type 0 where
  pub sub : Option String
  pub id : Option String
  pub email : Option String
  pub role : Option Role
  pub name : Option String

pub record AuthEnv : Type 0 where
  pub frontend_url : Option Text
  pub cookie_domain : Option Text
  pub vercel : Option Text
  pub node_env : Option Text
  pub cookie_secure : Option Text
  pub jwt_secret : Option String
  -- the claims and the seconds until the token expires
  pub sign : Claims → ℕ → Outcome String
  pub verify : String → String → Option Claims
  pub write_cookie : CookieChange → Outcome (Unit {0})

pub data Header : Type 0 where
  one : Text → Header
  many : List Text → Header

-- What the handlers read of the HTTP request.
pub record Incoming : Type 0 where
  pub forwarded_proto : Option Header
  pub secure : Bool
  pub protocol : Text
  pub access_token : Option String
  pub refresh_token : Option String

pub data Reply : Type 0 where
  json : String → Reply
  access : String → Reply
  redirect : ℕ → Text → Reply
  status : ℕ → String → Reply

abbrev first_text : List Text → Text
first_text [] = []
first_text (t ∷ ts) = t

-- `values.find(Boolean)`
unfoldable pub first_nonempty : List Text → Option Text
first_nonempty [] = none
first_nonempty (t ∷ ts) = let rest = first_nonempty ts in if is_set t then some t else rest

abbrev redirect_base : Option Text → Outcome Text
redirect_base none = thrown (Exception.error "FRONTEND_URL is not configured")
redirect_base (some origin) = returned (trim_slashes origin)

unfoldable pub get_frontend_redirect_base : AuthEnv → Outcome Text
get_frontend_redirect_base env =
    redirect_base
      (first_nonempty (map normalize_env_value (split b',' (text_or_empty env.frontend_url))))

-- `s.includes(c)` for one character; a text with `://` also has a `:`.
abbrev pub includes : ℕ → Text → Bool
includes c [] = false
includes c (x ∷ s) = x == c || includes c s

abbrev domain_of : Text → Option Text
domain_of [] = none
domain_of (c ∷ s) = if includes b'/' (c ∷ s) || includes b':' (c ∷ s) then none else some (c ∷ s)

unfoldable pub get_cookie_domain : AuthEnv → Option Text
get_cookie_domain env = domain_of (normalize_env_value (text_or_empty env.cookie_domain))

abbrev header_text : Option Header → Text
header_text none = []
header_text (some (Header.one t)) = t
header_text (some (Header.many ts)) = first_text ts

-- The value is only compared with `https`; no character outside ASCII has h, t, p or s as its small
-- letter, so the small letters of ASCII are enough.
unfoldable pub get_header_value : Option Header → Text
get_header_value value = to_lower_ascii (trim (first_text (split b',' (header_text value))))

abbrev is_text : Option Text → String → Bool
is_text none s = false
is_text (some t) s = text_eq t (codes s)

unfoldable pub should_use_secure_cookies : AuthEnv → Incoming → Bool
should_use_secure_cookies env req =
    (is_text env.vercel "1"
      || is_text env.node_env "production"
      || is_text env.cookie_secure "true")
    || (req.secure
        || text_eq req.protocol (codes "https")
        || text_eq (get_header_value req.forwarded_proto) (codes "https"))

-- `options.partitioned = true` if the cookies are secure, else the field is absent.
abbrev options_with : Bool → Option Text → Option ℕ → CookieOptions
options_with secure domain max_age = record {
  http_only = true;
  secure = secure;
  same_site = if secure then SameSite.none_mode else SameSite.lax;
  path = "/";
  domain = domain;
  partitioned = secure;
  max_age = max_age;
}

unfoldable pub build_base_cookie_options : AuthEnv → Incoming → CookieOptions
build_base_cookie_options env req =
    options_with (should_use_secure_cookies env req) (get_cookie_domain env) none

-- The age in seconds; the source passes milliseconds.
unfoldable pub build_cookie_options : AuthEnv → Incoming → ℕ → CookieOptions
build_cookie_options env req max_age = record (build_base_cookie_options env req) {
  max_age = some max_age;
}

abbrev pub no_claims : Claims
no_claims = record { sub = none; id = none; email = none; role = none; name = none }

abbrev hour : ℕ
hour = 3600

abbrev week : ℕ
week = 604800

-- `try { return ... } catch { return res.status(...) }`
abbrev pub catch_with : {A : Type 0} → A → Action A → Action A
catch_with a m h =
    let (o, h') = m h in elim o [ returned b ↦ (returned b, h') | thrown _ ↦ (returned a, h') ]

module _ (env : AuthEnv) (req : Incoming) where
  unfoldable pub set_cookie : String → String → ℕ → Action (Unit {0})
  set_cookie name token max_age =
      let change : CookieChange = record {
        name = name;
        value = some token;
        options = build_cookie_options env req max_age;
      } in
      perform (Call.cookie change) (λ h. env.write_cookie change)

  unfoldable pub clear_cookie : String → Action (Unit {0})
  clear_cookie name =
      let change : CookieChange = record {
        name = name;
        value = none;
        options = build_base_cookie_options env req;
      } in
      perform (Call.cookie change) (λ h. env.write_cookie change)

  unfoldable pub test_login : Action Reply
  test_login = do
    access_token ←
        lift (env.sign (record no_claims { sub = some "123"; role = some Role.admin }) hour)
    refresh_token ← lift (env.sign (record no_claims { sub = some "123" }) week)
    set_cookie "access_token" access_token hour
    set_cookie "refresh_token" refresh_token week
    pure (Reply.json "Cookies set")

  -- `user` is the row that the strategy of passport gives.
  unfoldable pub log_in : Claims → Action Reply
  log_in user = do
    access_token ← lift (env.sign user hour)
    refresh_token ← lift (env.sign (record no_claims { id = user.id }) week)
    set_cookie "access_token" access_token hour
    set_cookie "refresh_token" refresh_token week
    base ← lift (get_frontend_redirect_base env)
    pure (Reply.redirect 302 (base ++ codes "/dashboard"))

  unfoldable pub azure_callback : Claims → Action Reply
  azure_callback user = catch_with (Reply.status 500 "Azure callback failed") (log_in user)

  abbrev pub decoded_or : Exception → Option Claims → Action Claims
  decoded_or e none = throw e
  decoded_or e (some c) = pure c

  unfoldable pub renew : String → String → Action Reply
  renew refresh_token secret = do
    payload ← decoded_or (Exception.client_error "jwt") (env.verify refresh_token secret)
    access_token ← lift (env.sign (record no_claims { id = payload.id }) hour)
    set_cookie "access_token" access_token hour
    pure (Reply.access access_token)

  abbrev refresh_with : String → Option String → Action Reply
  refresh_with token none = throw (Exception.error "JWT_SECRET not defined")
  refresh_with token (some secret) =
      catch_with (Reply.status 401 "Invalid refresh token") (renew token secret)

  abbrev refresh_token_or : Option String → Action Reply
  refresh_token_or none = pure (Reply.status 401 "No refresh token")
  refresh_token_or (some token) = refresh_with token (nonempty_text env.jwt_secret)

  unfoldable pub refresh : Action Reply
  refresh = refresh_token_or (nonempty_text req.refresh_token)

  unfoldable pub logout : Action Reply
  logout = do
    clear_cookie "refresh_token"
    clear_cookie "access_token"
    pure (Reply.json "Logged out")

abbrev me_decoded : Option Claims → Outcome Claims
me_decoded none = thrown (Exception.unauthorized "Invalid access token")
me_decoded (some c) = returned (record c { sub = none })

abbrev me_with : AuthEnv → String → Option String → Outcome Claims
me_with env token none = thrown (Exception.error "JWT_SECRET not defined")
me_with env token (some secret) = me_decoded (env.verify token secret)

abbrev me_token : AuthEnv → Option String → Outcome Claims
me_token env none = thrown (Exception.unauthorized "No access token cookie")
me_token env (some token) = me_with env token (nonempty_text env.jwt_secret)

-- The id, the email, the role and the name of the token.
unfoldable pub me : AuthEnv → Incoming → Outcome Claims
me env req = me_token env (nonempty_text req.access_token)
