-- ===== src/Project/Lists.antt =====
-- The lists of clusters in src/request/project/project-request.service.ts that Project/Cluster does
-- not have. The queries of a `Promise.all` are made here one item after the other.
use orchestronic_be.Session.{nonempty_text}
use orchestronic_be.Base.{String, Option, none, some, List, [], ◌∷◌, map, ℕ}
use orchestronic_be.Schema.{
  Status, CloudProvider, ResourcesRow, ClusterRow, ClusterRequestRow, ResourceConfigRow,
  ImageDeploymentRow,
}
use orchestronic_be.Effects.Monad.{Exception, Action, pure, throw, ◌>>=◌}
use orchestronic_be.Request.Dto.{BackendJwtPayload}
use orchestronic_be.Project.Outside.{ProjectOutside}
use orchestronic_be.Project.Tables.{
  find_resources, find_resources_in, find_resource_config, find_clusters_of_config,
  find_cluster_requests, find_clusters_owned, find_resource_configs, find_image_deployment,
  find_cluster,
}
use orchestronic_be.Project.Cluster.{bad_if_none}

-- `Promise.all(xs.map(f))`
unfoldable pub map_each : {A B : Type 0} → (A → Action B) → List A → Action (List B)
map_each f [] = pure []
map_each f (x ∷ xs) = do y ← f x; ys ← map_each f xs; pure (y ∷ ys)

pub record UserClusters : Type 0 where
  pub aws_clusters : List ClusterRow
  pub azure_clusters : List ClusterRow

pub record ClusterSummary : Type 0 where
  pub cluster_request_id : String
  pub id : String
  pub name : String
  pub region : String
  pub resource_config_id : String
  pub cloud_provider : CloudProvider

-- `clusters?.[0]`
abbrev first_cluster : Option (List ClusterRow) → Option ClusterRow
first_cluster (some (c ∷ cs)) = some c
first_cluster _ = none

abbrev cluster_id_of : Option ClusterRow → String
cluster_id_of none = ""
cluster_id_of (some c) = c.id

abbrev cluster_name_of : Option ClusterRow → String
cluster_name_of none = ""
cluster_name_of (some c) = c.cluster_name

-- The field `clusterRequestId` holds the id of the resource.
abbrev pub summary_of : ResourcesRow → Option (List ClusterRow) → ClusterSummary
summary_of resource clusters = record {
  cluster_request_id = resource.id;
  id = cluster_id_of (first_cluster clusters);
  name = cluster_name_of (first_cluster clusters);
  region = resource.region;
  resource_config_id = resource.resource_config_id;
  cloud_provider = resource.cloud_provider;
}

abbrev config_id : Option ResourceConfigRow → Option String
config_id none = none
config_id (some c) = some c.id

abbrev some_clusters : List ClusterRow → List ClusterRow → Action UserClusters
some_clusters [] [] = throw (Exception.bad_request "No clusters found for user")
some_clusters aws azure = pure (record { aws_clusters = aws; azure_clusters = azure })

-- The two answers of `findClusterById`: `clusterEndpoint` of the AWS one and `clusterFqdn` of the
-- Azure one are `address`.
pub record K8sClusterDto : Type 0 where
  pub id : String
  pub cluster_name : String
  pub node_count : ℕ
  pub node_size : String
  pub resource_config_id : String
  pub kube_config : Option String
  pub address : Option String
  pub terraform_state : Option String

-- `...(value ? { field: JSON.stringify(value) } : {})` for a column with a text
abbrev stringified : (String → String) → Option String → Option String
stringified stringify value = elim (nonempty_text value) [
  | none ↦ none
  | some s ↦ some (stringify s)
]

abbrev pub cluster_dto : (String → String) → String → ClusterRow → K8sClusterDto
cluster_dto stringify cluster_id row = record {
  id = cluster_id;
  cluster_name = row.cluster_name;
  node_count = row.node_count;
  node_size = row.node_size;
  resource_config_id = row.resource_config_id;
  kube_config = stringified stringify row.kube_config;
  address = stringified stringify row.address;
  terraform_state = row.terraform_state;
}

abbrev dto_or_null : (String → String) → String → Option ClusterRow → Option K8sClusterDto
dto_or_null stringify cluster_id none = none
dto_or_null stringify cluster_id (some row) = some (cluster_dto stringify cluster_id row)

abbrev nonempty_requests : List ClusterRequestRow → Action (List ClusterRequestRow)
nonempty_requests [] = throw (Exception.bad_request "No cluster requests found")
nonempty_requests (r ∷ rs) = pure (r ∷ rs)

module _ (out : ProjectOutside) where
  unfoldable pub find_cluster_by_user_id : BackendJwtPayload → Action UserClusters
  find_cluster_by_user_id user = do
    aws ← find_clusters_owned out.tables CloudProvider.aws user.id
    azure ← find_clusters_owned out.tables CloudProvider.azure user.id
    some_clusters aws azure

  -- The two branches differ in the table that is read; without a row the method ends with
  -- `undefined`.
  abbrev clusters_of_resource : Option ResourcesRow → Action (Option (List ClusterRow))
  clusters_of_resource none = pure none
  clusters_of_resource (some resource) = do
    config ← find_resource_config out.tables resource.resource_config_id
    clusters ← find_clusters_of_config out.tables resource.cloud_provider (config_id config)
    pure (some clusters)

  unfoldable pub find_cluster_resource_config_by_id : String → Action (Option (List ClusterRow))
  find_cluster_resource_config_by_id id = do
    resource ← find_resources out.tables id
    clusters_of_resource resource

  unfoldable pub summarise : ResourcesRow → Action ClusterSummary
  summarise resource = do
    clusters ← find_cluster_resource_config_by_id resource.id
    pure (summary_of resource clusters)

  -- The three lists of summaries, by the status and the owner that they ask for.
  unfoldable pub find_summaries : Option Status → Option String → Action (List ClusterSummary)
  find_summaries status owner_id = do
    cluster_requests ←
        find_cluster_requests out.tables (record { status = status; owner_id = owner_id })
    resources ←
        find_resources_in out.tables
          (map (λ (cr : ClusterRequestRow). cr.resource_id) cluster_requests)
    map_each summarise resources

  abbrev pub find_clusters_by_user_id : BackendJwtPayload → Action (List ClusterSummary)
  find_clusters_by_user_id user = find_summaries none user.id

  abbrev pub find_all_approved_clusters : Action (List ClusterSummary)
  find_all_approved_clusters = find_summaries (some Status.approved) none

  abbrev pub find_all_approved_clusters_by_user_id :
      BackendJwtPayload → Action (List ClusterSummary)
  find_all_approved_clusters_by_user_id user = find_summaries (some Status.approved) user.id

  unfoldable pub find_all_cluster_requests : Action (List ClusterRequestRow)
  find_all_cluster_requests = do
    rows ← find_cluster_requests out.tables (record { status = none; owner_id = none })
    nonempty_requests rows

  -- A list is never false, so the check after the query always passes.
  unfoldable pub find_resource_config_by_id : String → Action (List ResourceConfigRow)
  find_resource_config_by_id id = find_resource_configs out.tables id

  unfoldable pub find_image_deployments_by_repo_id : String → Action ImageDeploymentRow
  find_image_deployments_by_repo_id id = do
    found ← find_image_deployment out.tables id
    bad_if_none "No image deployments found" found

  -- Both branches read the table of the provider. `JSON.stringify` of a text is an argument, and the
  -- column `terraformState` is given by its text already. No route calls the method.
  unfoldable pub find_cluster_by_id :
      (String → String) → String → CloudProvider → Action (Option K8sClusterDto)
  find_cluster_by_id stringify cluster_id provider = do
    response ← find_cluster out.tables provider cluster_id
    pure (dto_or_null stringify cluster_id response)
