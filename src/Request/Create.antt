-- ===== src/Request/Create.antt =====
-- `createRequestAzure` and `createRequestAws` of src/request/request.service.ts.
pub mod Checks
pub mod Writes
pub mod Sequence
use orchestronic_be.Base.{
  String, Option, none, some, List, [], map, Bool, true, false, not, length, ◌==◌, or_else,
}
use orchestronic_be.Schema.{RequestRow}
use orchestronic_be.Effects.Data.{
  UserKey, UserWhere, RepositoryKey, ResourceConfigCreate, CollaboratorCreate, RepositoryCreate,
}
use orchestronic_be.Effects.Monad.{Exception, Action, pure, throw, throw_if, ◌>>=◌, ◌>>◌}
use orchestronic_be.Effects.Prisma.{
  Prisma, find_user, find_users, find_repository, find_latest_request, create_resource_config,
  create_resources, create_repository, create_request,
}
use orchestronic_be.Request.Dto.{
  BackendJwtPayload, CollaboratorDto, CreateRepositoryDto, CreateAzureResourceDto,
  CreateAzureRequestDto, CreateAwsResourceDto, CreateAwsRequestDto,
}
use orchestronic_be.Request.DisplayCode.{last_number, code_after}

abbrev pub is_none {ℓ} : {A : Type ℓ} → Option A → Bool
is_none none = true
is_none (some _) = false

abbrev pub is_some {ℓ} : {A : Type ℓ} → Option A → Bool
is_some none = false
is_some (some _) = true

-- `repository.collaborators?.map((c) => c.userId) || []`
abbrev pub collaborator_ids : CreateRepositoryDto → List String
collaborator_ids r = map (λ (c : CollaboratorDto). c.user_id) (or_else r.collaborators [])

abbrev collaborator_data : CollaboratorDto → CollaboratorCreate
collaborator_data c = record { user_id = c.user_id; gitlab_user_id = c.gitlab_user_id }

-- The `data` of `repository.create`.
abbrev pub repository_data : CreateRepositoryDto → Option String → RepositoryCreate
repository_data r resources_id = record {
  name = r.name;
  description = r.description;
  resources_id = resources_id;
  collaborators = map collaborator_data (or_else r.collaborators []);
}

abbrev pub azure_config : CreateAzureResourceDto → ResourceConfigCreate
azure_config r =
    ResourceConfigCreate.azure (or_else r.resource_config.vms []) (or_else r.resource_config.dbs [])
      (or_else r.resource_config.sts [])

abbrev pub aws_config : CreateAwsResourceDto → ResourceConfigCreate
aws_config r =
    ResourceConfigCreate.aws (or_else r.resource_config.vms []) (or_else r.resource_config.dbs [])
      (or_else r.resource_config.sts [])

module _ (db : Prisma) where
  -- The three checks that both methods make before they write.
  unfoldable pub check_request : CreateRepositoryDto → BackendJwtPayload → Action (Unit {0})
  check_request repository user = do
    owner_in_db ← find_user db (UserKey.by_id user.id)
    throw_if (is_none owner_in_db)
        (Exception.bad_request "Authenticated user not found in database")
    existing_repo ← find_repository db (RepositoryKey.by_name repository.name)
    throw_if (is_some existing_repo) (Exception.conflict "Repository name already exists")
    collaborators_in_db ← find_users db (UserWhere.id_in (collaborator_ids repository))
    throw_if (not (length collaborators_in_db == length (collaborator_ids repository)))
        (Exception.bad_request "One or more collaborators not found")

  -- The two creates for the resources; they give the id of the new row.
  unfoldable pub create_azure_resources : Option CreateAzureResourceDto → Action (Option String)
  create_azure_resources none = pure none
  create_azure_resources (some r) = do
    config ← create_resource_config db (azure_config r)
    row ← create_resources db (record {
      name = r.name;
      cloud_provider = r.cloud_provider;
      region = r.region;
      resource_config_id = config.id;
    })
    pure (some row.id)

  -- Without `resources` the read of `resources.resourceConfig` throws.
  unfoldable pub create_aws_resources : Option CreateAwsResourceDto → Action (Option String)
  create_aws_resources none = throw (Exception.type_error "resourceConfig of undefined")
  create_aws_resources (some r) = do
    config ← create_resource_config db (aws_config r)
    row ← create_resources db (record {
      name = r.name;
      cloud_provider = r.cloud_provider;
      region = r.region;
      resource_config_id = config.id;
    })
    pure (some row.id)

  -- The rest of both methods: the repository, the display code, the request.
  unfoldable pub create_linked :
      Option String → CreateRepositoryDto → BackendJwtPayload → Option String → Action RequestRow
  create_linked description repository user resources_id = do
    new_repository ← create_repository db (repository_data repository resources_id)
    last_request ← find_latest_request db
    create_request db (record {
      description = description;
      display_code = code_after (last_number last_request);
      owner_id = user.id;
      repository_id = new_repository.id;
      resources_id = resources_id;
    })

  unfoldable pub create_request_azure :
      CreateAzureRequestDto → BackendJwtPayload → Action RequestRow
  create_request_azure dto user = do
    check_request dto.repository user
    resources_id ← create_azure_resources dto.resources
    create_linked dto.description dto.repository user resources_id

  unfoldable pub create_request_aws : CreateAwsRequestDto → BackendJwtPayload → Action RequestRow
  create_request_aws dto user = do
    check_request dto.repository user
    resources_id ← create_aws_resources dto.resources
    create_linked dto.description dto.repository user resources_id
