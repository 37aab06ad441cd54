-- ===== src/Session.antt =====
-- The check of the access token that the controllers share (src/request/request.controller.ts,
-- src/request/project/project-request.controller.ts and others, from the cookie to the payload).
use orchestronic_be.Base.{String, Option, none, some, false, if◌then◌else◌, ◌===◌, ◌≡◌, refl, arith}
use orchestronic_be.Request.Dto.{BackendJwtPayload}
use orchestronic_be.Effects.Monad.{Exception, Outcome, returned, thrown, Action}

-- The errors of `jwt.verify` by their name.
pub data TokenError : Type 0 where
  token_expired json_web_token other : String → TokenError

pub data Verification : Type 0 where
  payload : BackendJwtPayload → Verification
  rejected : TokenError → Verification

-- What a handler sees of the HTTP request and of its process: the `access_token` cookie,
-- `process.env.JWT_SECRET`, and `jwt.verify`.
pub record Session : Type 0 where
  pub access_token : Option String
  pub jwt_secret : Option String
  pub verify : String → String → Verification

abbrev verified : (TokenError → Exception) → Verification → Outcome BackendJwtPayload
verified catch (payload p) = returned p
verified catch (rejected e) = thrown (catch e)

-- `if (!secret) throw new Error(...)`
abbrev with_secret :
    (String → Outcome BackendJwtPayload) → Option String → Outcome BackendJwtPayload
with_secret next none = thrown (Exception.error "JWT_SECRET not defined")
with_secret next (some secret) =
    if secret === "" then thrown (Exception.error "JWT_SECRET not defined") else next secret

abbrev with_token : (String → Outcome BackendJwtPayload) → Option String → Outcome BackendJwtPayload
with_token next none = thrown (Exception.unauthorized "No access token")
with_token next (some token) = next token

-- The payload of the token, or what the handler throws; `catch` is its `catch` block.
unfoldable pub authenticate : Session → (TokenError → Exception) → Outcome BackendJwtPayload
authenticate s catch =
    with_token
      (λ token. with_secret (λ secret. verified catch (s.verify token secret)) s.jwt_secret)
      s.access_token

-- The outcome of a check that makes no call, as an action.
abbrev pub lift : {A : Type 0} → Outcome A → Action A
lift o h = (o, h)

-- `if (!token)`: an empty cookie counts as none.
abbrev pub nonempty_text : Option String → Option String
nonempty_text none = none
nonempty_text (some s) = if s === "" then none else some s

abbrev pub nonempty_token : Session → Session
nonempty_token s = record s { access_token = nonempty_text s.access_token }

abbrev pub invalid_token : TokenError → Exception
invalid_token _ = Exception.unauthorized "Invalid token"

abbrev pub unprocessable : TokenError → Exception
unprocessable _ = Exception.error "Invalid token - unable to process"

-- The session holds a token that the secret verifies, with this payload.
pub record IsVerified (s : Session) (p : BackendJwtPayload) : Type 0 where
  pub token : String
  pub secret : String
  pub sent : s.access_token ≡ some token
  pub configured : s.jwt_secret ≡ some secret
  pub nonempty : (secret === "") ≡ false
  pub accepted : s.verify token secret ≡ payload p

-- A check of the token that returns a payload was given a token that a nonempty secret verifies
-- with that payload.
pub authenticate-IsVerified :
    (s : Session) (catch : TokenError → Exception) (p : BackendJwtPayload)
    → authenticate s catch ≡ returned p
    → IsVerified s p
unfolding authenticate
authenticate-IsVerified s catch p e = go s.access_token refl s.jwt_secret refl
  where
    go :
        (t : Option String)
        → s.access_token ≡ t
        → (k : Option String) → s.jwt_secret ≡ k
        → IsVerified s p
    go none et k ek = absurd (ground arith)
    go (some t) et none ek = absurd (ground arith)
    go (some t) et (some k) ek = record {
      token = t;
      secret = k;
      sent = et;
      configured = ek;
      nonempty = ground arith;
      accepted = ground arith;
    }

-- A token that a nonempty secret verifies passes the check with its payload.
pub IsVerified-authenticate :
    (s : Session) (catch : TokenError → Exception) (p : BackendJwtPayload)
    → IsVerified s p
    → authenticate s catch ≡ returned p
unfolding authenticate
IsVerified-authenticate s catch p v = ground arith

-- The two checks before `try`: a cookie, and a secret.
abbrev pub has_token : Session → Outcome (Unit {0})
has_token s = elim s.access_token [
  | none ↦ thrown (Exception.unauthorized "No access token")
  | some _ ↦ elim s.jwt_secret [
    | none ↦ thrown (Exception.error "JWT_SECRET not defined")
    | some secret ↦
        if secret === "" then thrown (Exception.error "JWT_SECRET not defined") else returned tt
  ]
]
