-- ===== src/Tests/Apart.antt =====
-- Two users with cloud secrets.
use orchestronic_be.Base.{String, Option, none, some, List, [], ◌∷◌, or_else}
use orchestronic_be.Schema.{CloudProvider, Role}
use orchestronic_be.Effects.Data.{SecretData}
use orchestronic_be.Effects.Calls.{Call, Write}
use orchestronic_be.Effects.Monad.{returned}
use orchestronic_be.Request.Dto.{BackendJwtPayload}
use orchestronic_be.Session.{Session, Verification, payload, rejected}
use orchestronic_be.Secrets.{SecretTables, SecretRow, delete_secret}
use orchestronic_be.Secrets.Apart.{own}

abbrev row_of : Option String → SecretData → SecretRow
row_of owner d = record { id = "s"; user_id = or_else owner "nobody"; secret = d }

-- The secret that was made last, in the statements on the secrets of one user.
abbrev newest : List Call → Option SecretRow
newest [] = none
newest (Call.write (Write.create_secret owner d) ∷ h) = some (row_of owner d)
newest (Call.write (Write.delete_secret id owner) ∷ h) = none
newest (_ ∷ h) = newest h

abbrev a_secret : SecretData
a_secret = record {
  client_id = "client";
  client_secret = "hidden";
  subscription_id = "sub";
  tenant_id = none;
  cloud_provider = CloudProvider.aws;
}

abbrev secrets : SecretTables
secrets = record {
  first = λ u p h. returned (newest (own (or_else u "nobody") h));
  create = λ u d h. returned (row_of u d);
  update = λ id u d h. returned (row_of u d);
  delete = λ id u h. returned (row_of u a_secret);
}

abbrev bob : BackendJwtPayload
bob = record { id = some "bob"; email = none; role = some Role.admin }

abbrev bob_session : Session
bob_session = record {
  access_token = some "token";
  jwt_secret = some "secret";
  verify = λ t k. payload bob;
}

abbrev verified_id : Verification → Option String
verified_id (payload p) = p.id
verified_id (rejected e) = none
