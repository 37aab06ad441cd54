-- ===== src/Auth/Cookies.antt =====
-- The options of every cookie that the handlers set or clear.
use orchestronic_be.Base.{
  ℕ, String, Option, none, some, [], ◌∷◌, ◌≡◌, ◌≢◌, ◌⊎◌, inl, inr, refl, arith, true, false,
  Bool-cases,
}
use orchestronic_be.Base.Text.{Text}
use orchestronic_be.Effects.Data.{SameSite, CookieOptions, CookieChange}
use orchestronic_be.Effects.Calls.{Call}
use orchestronic_be.Effects.Monad.{Exception, Action, Outcome-cases}
use orchestronic_be.Effects.Added.{Adds, same_calls-Adds, throw-Adds, pure-Adds, adding}
use orchestronic_be.Session.{nonempty_text}
use orchestronic_be.Env.{normalize_env_value, text_or_empty}
use orchestronic_be.Auth.{
  AuthEnv, Incoming, Claims, Reply, includes, domain_of, get_cookie_domain,
  should_use_secure_cookies, build_base_cookie_options, build_cookie_options, set_cookie,
  clear_cookie, test_login, log_in, azure_callback, renew, refresh, logout, catch_with, decoded_or,
  refresh_with, refresh_token_or,
}

-- A domain is a host only: not empty, and without a slash or a colon.
pub record HostOnly (d : Text) : Type 0 where
  pub not_empty : d ≢ []
  pub no_slash : includes b'/' d ≡ false
  pub no_colon : includes b':' d ≡ false

-- The options that are alike for every cookie of a process and a request.
pub record SafeOptions (env : AuthEnv) (req : Incoming) (o : CookieOptions) : Type 0 where
  pub http_only : o.http_only ≡ true
  pub whole_site : o.path ≡ "/"
  pub secure_as_asked : o.secure ≡ should_use_secure_cookies env req
  pub other_sites :
      ((o.secure ≡ true) × (o.same_site ≡ SameSite.none_mode) × (o.partitioned ≡ true))
      ⊎ ((o.secure ≡ false) × (o.same_site ≡ SameSite.lax) × (o.partitioned ≡ false))
  pub host_only : (o.domain ≡ none) ⊎ ((d : Text) × (o.domain ≡ some d) × HostOnly d)

-- The call sets or clears a cookie with such options.
abbrev pub SafeCookie : AuthEnv → Incoming → Call → Type 0
SafeCookie env req c =
    (change : CookieChange) × (c ≡ Call.cookie change) × SafeOptions env req change.options

domain_of-cases :
    (d : Text) → (domain_of d ≡ none) ⊎ ((d' : Text) × (domain_of d ≡ some d') × HostOnly d')
domain_of-cases [] = inl refl
domain_of-cases (c ∷ s) = elim (Bool-cases (includes b'/' (c ∷ s))) [
  | inl slash ↦ inl (ground arith)
  | inr no_slash ↦ elim (Bool-cases (includes b':' (c ∷ s))) [
    | inl colon ↦ inl (ground arith)
    | inr no_colon ↦ inr (
      c ∷ s,
      ground arith,
      record { not_empty = λ e. ground arith; no_slash = no_slash; no_colon = no_colon },
    )
  ]
]

module _ (env : AuthEnv) (req : Incoming) where
  base-SafeOptions : SafeOptions env req (build_base_cookie_options env req)
  unfolding build_base_cookie_options get_cookie_domain
  base-SafeOptions = record {
    http_only = refl;
    whole_site = refl;
    secure_as_asked = refl;
    other_sites = elim (Bool-cases (should_use_secure_cookies env req)) [
      | inl s ↦ inl (s, ground arith, s)
      | inr p ↦ inr (p, ground arith, p)
    ];
    host_only = domain_of-cases (normalize_env_value (text_or_empty env.cookie_domain));
  }

  aged-SafeOptions : (age : ℕ) → SafeOptions env req (build_cookie_options env req age)
  unfolding build_cookie_options
  aged-SafeOptions age =
      let b = base-SafeOptions in
      record {
        http_only = b.http_only;
        whole_site = b.whole_site;
        secure_as_asked = b.secure_as_asked;
        other_sites = b.other_sites;
        host_only = b.host_only;
      }

  abbrev Safe : {A : Type 0} → Action A → Type 0
  Safe m = Adds (SafeCookie env req) m

  set_cookie-Safe : (name token : String) (age : ℕ) → Safe (set_cookie env req name token age)
  unfolding set_cookie
  set_cookie-Safe name token age = record {
    added = λ h. (_ ∷ [], refl, ((_, refl, aged-SafeOptions age), tt));
  }

  clear_cookie-Safe : (name : String) → Safe (clear_cookie env req name)
  unfolding clear_cookie
  clear_cookie-Safe name = record { added = λ h. (_ ∷ [], refl, ((_, refl, base-SafeOptions), tt)) }

  catch_with-Safe : {A : Type 0} (a : A) (m : Action A) → Safe m → Safe (catch_with a m)
  catch_with-Safe a m sm =
      same_calls-Adds m (catch_with a m)
        (λ h. elim (Outcome-cases (m h).0) [
          | inl (b, q) ↦ ground arith
          | inr (x, q) ↦ ground arith
        ])
        sm

  decoded_or-Safe : (e : Exception) (c : Option Claims) → Safe (decoded_or env req e c)
  decoded_or-Safe e none = throw-Adds e
  decoded_or-Safe e (some c) = pure-Adds c

  test_login-Safe : Safe (test_login env req)
  unfolding test_login
  test_login-Safe = search (adding, set_cookie-Safe)

  log_in-Safe : (user : Claims) → Safe (log_in env req user)
  unfolding log_in
  log_in-Safe user = search (adding, set_cookie-Safe) depth 8

  renew-Safe : (token secret : String) → Safe (renew env req token secret)
  unfolding renew
  renew-Safe token secret = search (adding, set_cookie-Safe, decoded_or-Safe)

  refresh_with-Safe :
      (token : String) (secret : Option String) → Safe (refresh_with env req token secret)
  refresh_with-Safe token none = throw-Adds (Exception.error "JWT_SECRET not defined")
  refresh_with-Safe token (some secret) =
      catch_with-Safe (Reply.status 401 "Invalid refresh token") (renew env req token secret)
        (renew-Safe token secret)

  refresh_token_or-Safe : (token : Option String) → Safe (refresh_token_or env req token)
  refresh_token_or-Safe none = pure-Adds (Reply.status 401 "No refresh token")
  refresh_token_or-Safe (some token) = refresh_with-Safe token _

  -- Whatever cookie a login, a callback, a refresh or a logout sets or clears is hidden from scripts,
  -- has the path /, is secure as the environment and the request ask, is sent to other sites and
  -- partitioned exactly when it is secure, and has no domain or one without slash and colon.
  pub cookies_safe :
      (user : Claims)
      → Adds (SafeCookie env req) (test_login env req)
        × Adds (SafeCookie env req) (azure_callback env req user)
        × Adds (SafeCookie env req) (refresh env req)
        × Adds (SafeCookie env req) (logout env req)
  unfolding azure_callback refresh logout
  cookies_safe user = (
    test_login-Safe,
    catch_with-Safe (Reply.status 500 "Azure callback failed") (log_in env req user)
        (log_in-Safe user),
    refresh_token_or-Safe (nonempty_text req.refresh_token),
    search (adding, clear_cookie-Safe),
  )
