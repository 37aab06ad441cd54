-- ===== src/Auth/Guard.antt =====
-- src/auth/jwt-auth.guard.ts and src/auth/strategies/jwt.strategy.ts, which no route uses: passport
-- hands the payload of a bearer token to the strategy, and what it gives to the guard.
use orchestronic_be.Base.{ℕ, String, Option, none, some, ◌≡◌, ◌↔◌, refl, arith, or_else}
use orchestronic_be.Effects.Monad.{Exception, Outcome, returned, thrown}

-- `BackendJwtPayload` of src/lib/types.ts, as it is signed; its claims are not checked.
pub record SignedPayload : Type 0 where
  pub id : Option String
  pub email : Option String
  pub role : Option String
  pub name : Option String
  pub iat : ℕ
  pub exp : ℕ

pub record GuardUser : Type 0 where
  pub email : Option String
  pub name : Option String
  pub id : Option String
  pub role : Option String

-- `validate` of the strategy: the claims without the times.
unfoldable pub validate : SignedPayload → GuardUser
validate payload = record {
  email = payload.email;
  name = payload.name;
  id = payload.id;
  role = payload.role;
}

-- `if (err || !user) throw err || new UnauthorizedException(...)`
unfoldable pub handle_request : Option Exception → Option GuardUser → Outcome GuardUser
handle_request none (some user) = returned user
handle_request err _ = thrown (or_else err (Exception.unauthorized "Authentication failed"))

-- The guard lets a user through exactly when the strategy gave it and no error came with it.
pub handle_request-returned :
    (err : Option Exception) (found : Option GuardUser) (user : GuardUser)
    → (handle_request err found ≡ returned user) ↔ ((err ≡ none) × (found ≡ some user))
unfolding handle_request
handle_request-returned none (some u) user = (λ e. (refl, ground arith), λ p. ground arith)
handle_request-returned none none user = (λ e. absurd cc, λ p. absurd (ground arith))
handle_request-returned (some x) found user = (λ e. absurd cc, λ p. absurd (ground arith))
