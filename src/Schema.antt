-- ===== src/Schema.antt =====
-- The tables of prisma/schema.prisma that the modelled services read and write, as row types
-- (the columns that the services use), with the schema's enums.
use orchestronic_be.Base.{ℕ, String, Option, List}
use orchestronic_be.Base.Text.{Text}

pub data Role : Type 0 where
  admin it developer : Role

pub data Status : Type 0 where
  pending approved rejected deleted : Status

pub data RepositoryStatus : Type 0 where
  created pending : RepositoryStatus

pub data CloudProvider : Type 0 where
  aws azure : CloudProvider

-- A GitLab user id, a signed integer in the schema; `minus n` is -(n + 1).
pub data GitlabId : Type 0 where
  plus minus : ℕ → GitlabId

pub record UserRow : Type 0 where
  pub id : String
  pub name : String
  pub email : String
  pub role : Role
  pub gitlab_url : Option String
  pub gitlab_id : Option GitlabId
  pub gitlab_name : Option String

pub record CollaboratorRow : Type 0 where
  pub user_id : String
  pub gitlab_user_id : GitlabId
  pub user : UserRow

pub record RepositoryRow : Type 0 where
  pub id : String
  pub name : String
  pub description : Option String
  pub status : RepositoryStatus
  pub collaborators : List CollaboratorRow

pub record ResourceConfigRow : Type 0 where
  pub id : String

pub record ResourcesRow : Type 0 where
  pub id : String
  pub name : String
  pub region : String
  pub resource_config_id : String
  pub cloud_provider : CloudProvider

-- A request with its `repository` and `owner` relations, which the updates include.
pub record RequestRow : Type 0 where
  pub id : String
  pub status : Status
  pub description : String
  pub owner_id : String
  pub display_code : Text
  pub feedback : Option String
  pub resources_id : Option String
  pub repository : RepositoryRow
  pub owner : UserRow

pub record ClusterRequestRow : Type 0 where
  pub id : String
  pub owner_id : String
  pub resource_id : String
  pub status : Status

-- A row of `AwsK8sCluster` or of `AzureK8sCluster`; `address` is the column `clusterEndpoint` of
-- the first and `clusterFqdn` of the second.
pub record ClusterRow : Type 0 where
  pub id : String
  pub cluster_name : String
  pub node_count : ℕ
  pub node_size : String
  pub kube_config : Option String
  pub address : Option String
  -- JSON, as its text
  pub terraform_state : Option String
  pub resource_config_id : String

pub record ImageDeploymentRow : Type 0 where
  pub repository_id : String
  pub hosted_url : Text
  pub image_url : String
