-- ===== src/Secrets.antt =====
-- The cloud secrets of users: src/cloud/cloud.service.ts and src/cloud/cloud.controller.ts.
pub mod Owner
pub mod Apart
use orchestronic_be.Base.{String, Option, some, not, ◌===◌, if◌then◌else◌}
use orchestronic_be.Schema.{CloudProvider}
use orchestronic_be.Effects.Data.{SecretData}
use orchestronic_be.Effects.Calls.{Call, Query, Write, History}
use orchestronic_be.Effects.Monad.{
  Exception, Outcome, Action, pure, throw_if, perform, rethrow_as, ◌>>=◌, ◌>>◌,
}
use orchestronic_be.Session.{Session, authenticate, lift, invalid_token}
use orchestronic_be.Request.Dto.{BackendJwtPayload}
use orchestronic_be.Request.Query.{is_staff}

-- src/cloud/dto/secret.dto.ts, where the provider is any text.
pub record SecretDto : Type 0 where
  pub client_id : String
  pub client_secret : String
  pub subscription_id : String
  pub tenant_id : Option String
  pub cloud_provider : String

pub record SecretRow : Type 0 where
  pub id : String
  pub user_id : String
  pub secret : SecretData

pub record SecretTables : Type 0 where
  pub first : Option String → Option CloudProvider → History → Outcome (Option SecretRow)
  pub create : Option String → SecretData → History → Outcome SecretRow
  -- the id and the owner of the row, which throw if no row has both; an owner that is undefined is
  -- no condition
  pub update : String → Option String → SecretData → History → Outcome SecretRow
  pub delete : String → Option String → History → Outcome SecretRow

-- `{ ...secretData, cloudProvider: ... }`
abbrev pub secret_data : SecretDto → SecretData
secret_data d = record {
  client_id = d.client_id;
  client_secret = d.client_secret;
  subscription_id = d.subscription_id;
  tenant_id = d.tenant_id;
  cloud_provider = if d.cloud_provider === "AZURE" then CloudProvider.azure else CloudProvider.aws;
}

-- The routes with their arguments.
pub data SecretRoute : Type 0 where
  get_cloud_data : Option CloudProvider → SecretRoute
  create_secret : SecretDto → SecretRoute
  update_secret : String → SecretDto → SecretRoute
  delete_secret : String → SecretRoute

-- The check of the role throws at once, inside the `try` of the controller, which replaces what it
-- throws.
abbrev pub staff_only : {A : Type 0} → String → BackendJwtPayload → Action A → Action A
staff_only message user m =
    rethrow_as (Exception.unauthorized "Invalid token")
      (throw_if (not (is_staff user.role)) (Exception.unauthorized message))
    >> m

module _ (db : SecretTables) where
  -- `[]` in place of no row
  unfoldable pub get_secret_by_id :
      BackendJwtPayload → Option CloudProvider → Action (Option SecretRow)
  get_secret_by_id user provider =
      perform (Call.read (Query.secret_first user.id provider)) (db.first user.id provider)

  abbrev pub some_row : Action SecretRow → Action (Option SecretRow)
  some_row m = do r ← m; pure (some r)

  unfoldable pub create_secret_of : BackendJwtPayload → SecretDto → Action (Option SecretRow)
  create_secret_of user d = some_row (
      perform (Call.write (Write.create_secret user.id (secret_data d)))
        (db.create user.id (secret_data d)))

  unfoldable pub update_secret_of :
      BackendJwtPayload → String → SecretDto → Action (Option SecretRow)
  update_secret_of user id d = staff_only "User does not have permission to update secrets" user (
      some_row (
        perform (Call.write (Write.update_secret id user.id (secret_data d)))
          (db.update id user.id (secret_data d))))

  unfoldable pub delete_secret_of : BackendJwtPayload → String → Action (Option SecretRow)
  delete_secret_of user id =
      staff_only "User does not have permission to delete secrets" user
        (some_row (perform (Call.write (Write.delete_secret id user.id)) (db.delete id user.id)))

  abbrev pub method_of : SecretRoute → BackendJwtPayload → Action (Option SecretRow)
  method_of (get_cloud_data provider) user = get_secret_by_id user provider
  method_of (create_secret d) user = create_secret_of user d
  method_of (update_secret id d) user = update_secret_of user id d
  method_of (delete_secret id) user = delete_secret_of user id

  unfoldable pub secret_route : Session → SecretRoute → Action (Option SecretRow)
  secret_route s route = do user ← lift (authenticate s invalid_token); method_of route user
