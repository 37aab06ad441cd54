-- ===== src/Startup.antt =====
-- The session and the start of the server in src/main.ts.
use orchestronic_be.Base.{
  String, Option, none, some, Bool, true, false, ◌≡◌, ◌↔◌, arith, or_else, if◌then◌else◌, ◌===◌,
  Bool-cases, inl, inr,
}
use orchestronic_be.Effects.Data.{SameSite, none_mode, lax}
use orchestronic_be.Session.{nonempty_text}

-- The options of express-session.
pub record SessionOptions : Type 0 where
  pub secret : String
  pub resave : Bool
  pub save_uninitialized : Bool
  pub secure : Bool
  pub same_site : SameSite
  pub http_only : Bool

abbrev pub is_production : Option String → Bool
is_production none = false
is_production (some s) = s === "production"

-- From SESSION_SECRET and NODE_ENV.
unfoldable pub session_options : Option String → Option String → SessionOptions
session_options session_secret node_env = record {
  secret = or_else (nonempty_text session_secret) "supersecret";
  resave = false;
  save_uninitialized = false;
  secure = is_production node_env;
  same_site = if is_production node_env then none_mode else lax;
  http_only = true;
}

-- `if (process.env.VERCEL !== '1') bootstrap()`, on the port that it listens on; `PORT ?? 3001` is
-- the text of PORT, an empty one included.
unfoldable pub listens : Option String → Option String → Option String
listens (some vercel) port = if vercel === "1" then none else some (or_else port "3001")
listens none port = some (or_else port "3001")

-- The session cookie is sent to other sites exactly when it is secure, which browsers ask of such a
-- cookie.
pub session_options-same_site :
    (session_secret node_env : Option String)
    → ((session_options session_secret node_env).same_site ≡ none_mode)
      ↔ ((session_options session_secret node_env).secure ≡ true)
unfolding session_options
session_options-same_site session_secret node_env = elim (Bool-cases (is_production node_env)) [
  | inl e ↦ (λ h. ground arith, λ h. ground arith)
  | inr e ↦ (λ h. absurd (ground arith), λ h. absurd (ground arith))
]
