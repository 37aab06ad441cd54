-- ===== src/Effects/Data.antt =====
-- The `data` and `where` arguments that the services hand to the Prisma client.
use orchestronic_be.Base.{ℕ, String, Option, List, Bool}
use orchestronic_be.Base.Text.{Text}
use orchestronic_be.Schema.{Role, Status, CloudProvider, GitlabId}

-- `where` of `user.findUnique`; an id may be undefined
pub data UserKey : Type 0 where
  by_id : Option String → UserKey
  by_email : String → UserKey

-- `where: { id: { in: ids } }` and `where: { email: { in: emails } }` of `user.findMany`
pub data UserWhere : Type 0 where
  id_in email_in : List String → UserWhere

pub data RepositoryKey : Type 0 where
  by_id by_name : String → RepositoryKey

-- `where` of the request table; an absent field is no condition
pub record RequestWhere : Type 0 where
  pub status : Option Status
  pub owner_id : Option String

-- `where` of `request.findUnique`: the id, or the display code with an optional owner
pub data RequestKey : Type 0 where
  by_id : String → RequestKey
  by_code : Text → Option String → RequestKey

pub record AzureVmData : Type 0 where
  pub name : String
  pub number_of_cores : ℕ
  pub memory : ℕ
  pub os : String
  pub size_id : String

pub record AzureDatabaseData : Type 0 where
  pub name : String
  pub engine : String
  pub storage_gb : ℕ
  pub sku_name : String
  pub username : String
  pub password : String

pub record AzureStorageData : Type 0 where
  pub name : String
  pub sku : String
  pub kind : ℕ
  pub access_tier : String

pub record AwsVmData : Type 0 where
  pub instance_name : String
  pub os : String
  pub key_name : String
  pub sg_name : String
  pub aws_instance_type_id : String

pub record AwsDatabaseData : Type 0 where
  pub db_username : String
  pub db_password : String
  pub aws_database_type_id : String
  pub db_allocated_storage : ℕ
  pub engine : String
  pub db_name : String

pub record AwsStorageData : Type 0 where
  pub bucket_name : String

pub record K8sClusterData : Type 0 where
  pub cluster_name : String
  pub node_count : ℕ
  pub node_size : String

-- A database by two of its columns; the others have defaults.
pub record AzureDatabaseBrief : Type 0 where
  pub engine : String
  pub storage_gb : ℕ

-- `data` of `resourceConfig.create`: the nested creates, by the relations that are named
pub data ResourceConfigCreate : Type 0 where
  azure : List AzureVmData → List AzureDatabaseData → List AzureStorageData → ResourceConfigCreate
  aws : List AwsVmData → List AwsDatabaseData → List AwsStorageData → ResourceConfigCreate
  azure_brief :
      List AzureVmData → List AzureDatabaseBrief → List AzureStorageData → ResourceConfigCreate
  azure_k8s aws_k8s : List K8sClusterData → ResourceConfigCreate

pub record ResourcesCreate : Type 0 where
  pub name : String
  pub cloud_provider : String
  pub region : String
  pub resource_config_id : String

pub record CollaboratorCreate : Type 0 where
  pub user_id : String
  pub gitlab_user_id : GitlabId

pub record RepositoryCreate : Type 0 where
  pub name : String
  pub description : Option String
  pub resources_id : Option String
  pub collaborators : List CollaboratorCreate

-- `data` of the `repository.create` that connects users by their addresses
pub record RepositoryConnect : Type 0 where
  pub name : String
  pub description : String
  pub emails : List String
  pub resources_id : String

pub record RequestCreate : Type 0 where
  pub description : Option String
  pub display_code : Text
  pub owner_id : Option String
  pub repository_id : String
  pub resources_id : Option String

pub data RequestPatch : Type 0 where
  set_status : Status → RequestPatch
  set_feedback : Option String → RequestPatch

pub record ImageDeploymentCreate : Type 0 where
  pub repository_id : String
  pub provider : CloudProvider
  pub cluster_id : String
  pub hosted_url : Text
  pub image_url : String

-- A range of numbers, `gte` and `lte`; an absent bound is no condition.
pub record Range : Type 0 where
  pub at_least : Option ℕ
  pub at_most : Option ℕ

-- The `where` of the three catalogues: the text that the name contains, the ranges, and for the
-- database types the least storage size and the engine. That of the AWS instance types also asks
-- for the x86_64 architecture.
pub data CatalogueWhere : Type 0 where
  azure_vm_size aws_instance_type : Option String → Range → Range → CatalogueWhere
  aws_database_type : Option String → Option ℕ → Option String → CatalogueWhere

-- `data` of `user.create` and of the two updates of a user; the id is the one that GitLab gives.
pub record UserCreate : Type 0 where
  pub name : String
  pub email : String
  pub role : Role

pub data UserPatch : Type 0 where
  set_role : Role → UserPatch
  set_gitlab : String → ℕ → String → UserPatch

-- The tables of policies, each with one row, and what is written to them: the fields of the bodies.
pub data PolicyTable : Type 0 where
  azure_vm azure_database azure_storage aws_vm aws_database aws_storage : PolicyTable

pub data PolicyData : Type 0 where
  machine : String → ℕ → ℕ → PolicyData
  max_storage : ℕ → PolicyData

-- `data` of a create or an update of a cloud secret.
pub record SecretData : Type 0 where
  pub client_id : String
  pub client_secret : String
  pub subscription_id : String
  pub tenant_id : Option String
  pub cloud_provider : CloudProvider

-- What the dashboard counts: requests by status, approved resource groups and approved requests by
-- provider, and the rows of a table of instances.
pub data CountOf : Type 0 where
  requests : Option Status → CountOf
  resource_groups approved_requests : CloudProvider → CountOf
  databases storages : CloudProvider → CountOf

-- The options of a cookie, and what a handler does with it: it sets it to a value or clears it.
pub data SameSite : Type 0 where
  none_mode lax : SameSite

pub record CookieOptions : Type 0 where
  pub http_only : Bool
  pub secure : Bool
  pub same_site : SameSite
  pub path : String
  pub domain : Option Text
  pub partitioned : Bool
  -- in seconds
  pub max_age : Option ℕ

pub record CookieChange : Type 0 where
  pub name : String
  pub value : Option String
  pub options : CookieOptions
