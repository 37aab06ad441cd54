-- ===== src/Tests/Access.antt =====
-- Sessions with and without a token.
use orchestronic_be.Base.{none, [], ◌≡◌, refl}
use orchestronic_be.Schema.{Role, Status}
use orchestronic_be.Effects.Monad.{returned}
use orchestronic_be.Session.{authenticate, IsVerified, invalid_token}
use orchestronic_be.Request.Dto.{BackendJwtPayload, CreateAzureRequestDto, CreateAwsRequestDto}
use orchestronic_be.Request.Controller.{update_status_route}
use orchestronic_be.Request.Controller.Access.{update_status_any_role}
use orchestronic_be.Tests.World.{out, caller, session, no_session, new_repository}

verified : (role : Role) → IsVerified (session role) (caller role)
verified role = record {
  token = "token";
  secret = "secret";
  sent = refl;
  configured = refl;
  nonempty = refl;
  accepted = refl;
}

unverified : (p : BackendJwtPayload) → ¬ IsVerified no_session p
unverified p v = let e = v.sent in cc

abbrev azure_request : CreateAzureRequestDto
azure_request = record { description = none; repository = new_repository; resources = none }

abbrev aws_request : CreateAwsRequestDto
aws_request = record { description = none; repository = new_repository; resources = none }

passed : authenticate (session Role.it) invalid_token ≡ returned (caller Role.it)
unfolding authenticate
passed = refl

update_status_any_role_example :
    update_status_route out (session Role.developer) "req" Status.approved []
    ≡ update_status_route out (session Role.admin) "req" Status.approved []
update_status_any_role_example =
    update_status_any_role out (session Role.developer) (session Role.admin) (caller Role.developer)
      (caller Role.admin) Role.developer Role.admin "req" Status.approved []
      (verified Role.developer) (verified Role.admin) refl refl
