-- ===== src/Request/Dto.antt =====
-- The bodies of the requests (src/request/dto, src/resource/dto) and the payload of the access
-- token (src/lib/types.ts). An optional field is an `Option`.
use orchestronic_be.Base.{String, Option, List}
use orchestronic_be.Schema.{Role, GitlabId}
use orchestronic_be.Effects.Data.{
  AzureVmData, AzureDatabaseData, AzureStorageData, AwsVmData, AwsDatabaseData, AwsStorageData,
}

-- The claims of the token that the services read. The payload is cast and not checked, so a claim
-- may be absent: a token of `test-login` has no id. `role` is also `none` for any text that is not
-- the name of a role.
pub record BackendJwtPayload : Type 0 where
  pub id : Option String
  pub email : Option String
  pub role : Option Role

pub record CollaboratorDto : Type 0 where
  pub user_id : String
  pub gitlab_user_id : GitlabId

pub record CreateRepositoryDto : Type 0 where
  pub name : String
  pub description : Option String
  pub collaborators : Option (List CollaboratorDto)

pub record CreateResourceAzureConfigDto : Type 0 where
  pub vms : Option (List AzureVmData)
  pub dbs : Option (List AzureDatabaseData)
  pub sts : Option (List AzureStorageData)

pub record CreateAzureResourceDto : Type 0 where
  pub name : String
  pub cloud_provider : String
  pub region : String
  pub resource_config : CreateResourceAzureConfigDto

pub record CreateAzureRequestDto : Type 0 where
  pub description : Option String
  pub repository : CreateRepositoryDto
  pub resources : Option CreateAzureResourceDto

pub record CreateResourceAwsConfigDto : Type 0 where
  pub vms : Option (List AwsVmData)
  pub dbs : Option (List AwsDatabaseData)
  pub sts : Option (List AwsStorageData)

pub record CreateAwsResourceDto : Type 0 where
  pub name : String
  pub cloud_provider : String
  pub region : String
  pub resource_config : CreateResourceAwsConfigDto

pub record CreateAwsRequestDto : Type 0 where
  pub description : Option String
  pub repository : CreateRepositoryDto
  pub resources : Option CreateAwsResourceDto
