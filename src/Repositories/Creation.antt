-- ===== src/Repositories/Creation.antt =====
-- `createRepositoryAzure` of src/repositories/repositories.service.ts.
use orchestronic_be.Base.{
  String, Option, none, some, List, [], ◌∷◌, map, or_else, length, ◌==◌, if◌then◌else◌,
}
use orchestronic_be.Schema.{UserRow, RepositoryRow}
use orchestronic_be.Effects.Data.{
  UserWhere, AzureDatabaseData, AzureDatabaseBrief, ResourceConfigCreate, RepositoryConnect,
}
use orchestronic_be.Effects.Calls.{Call, Query, Write}
use orchestronic_be.Effects.Monad.{Exception, Action, pure, throw, perform, ◌>>=◌}
use orchestronic_be.Effects.Prisma.{find_users, create_resource_config, create_resources}
use orchestronic_be.Request.Dto.{CreateAzureResourceDto}
use orchestronic_be.GitlabSync.{included}
use orchestronic_be.Repositories.{SeenOutside, repository_exists}

-- src/repositories/dto/create-azure-repository.dto.ts
pub record CreateAzureRepositoriesDto : Type 0 where
  pub name : String
  pub description : Option String
  pub collaborators : Option (List String)
  pub resources : CreateAzureResourceDto

pub data CreateAnswer : Type 0 where
  already_exists : CreateAnswer
  -- the addresses that no user has
  not_found : List String → CreateAnswer
  made : RepositoryRow → CreateAnswer

-- `xs.map(...)`, which throws on an undefined list
abbrev list_of : {A : Type 0} → Option (List A) → Action (List A)
list_of none = throw (Exception.type_error "map of undefined")
list_of (some xs) = pure xs

abbrev brief : AzureDatabaseData → AzureDatabaseBrief
brief d = record { engine = d.engine; storage_gb = d.storage_gb }

-- `emails.filter((email) => !validEmails.includes(email))`
unfoldable pub missing_from : List String → List String → List String
missing_from valid [] = []
missing_from valid (e ∷ es) =
    let rest = missing_from valid es in if included valid e then rest else e ∷ rest

module _ (out : SeenOutside) where
  unfoldable pub make_repository : CreateAzureRepositoriesDto → List String → Action CreateAnswer
  make_repository dto emails = do
    vms ← list_of dto.resources.resource_config.vms
    dbs ← list_of dto.resources.resource_config.dbs
    sts ← list_of dto.resources.resource_config.sts
    config ←
        create_resource_config out.db (ResourceConfigCreate.azure_brief vms (map brief dbs) sts)
    resources ← create_resources out.db (record {
      name = dto.resources.name;
      cloud_provider = dto.resources.cloud_provider;
      region = dto.resources.region;
      resource_config_id = config.id;
    })
    let data_of_repository : RepositoryConnect = record {
      name = dto.name;
      description = or_else dto.description "";
      emails = emails;
      resources_id = resources.id;
    }
    row ←
        perform (Call.write (Write.create_repository_connecting data_of_repository))
          (out.create_repository data_of_repository)
    pure (made row)

  abbrev make_if_found :
      CreateAzureRepositoriesDto → List String → List String → Action CreateAnswer
  make_if_found dto emails valid =
      if length valid == length emails
      then make_repository dto emails
      else pure (not_found (missing_from valid emails))

  -- An undefined list is no condition of the query, and has no length.
  abbrev create_new : CreateAzureRepositoriesDto → Option (List String) → Action CreateAnswer
  create_new dto none = do
    users ← perform (Call.read Query.user_all) out.users_all
    throw (Exception.type_error "length of undefined")
  create_new dto (some emails) = do
    users ← find_users out.db (UserWhere.email_in emails)
    make_if_found dto emails (map (λ (u : UserRow). u.email) users)

  unfoldable pub create_repository_azure : CreateAzureRepositoriesDto → Action CreateAnswer
  create_repository_azure dto = do
    exists ← repository_exists out dto.name
    if exists then pure already_exists else create_new dto dto.collaborators
