-- ===== src/Project/Cluster.antt =====
-- `createCluster`, `updateClusterRequestStatus` and the lists of clusters of
-- src/request/project/project-request.service.ts.
pub mod Creation
pub mod Approval
pub mod Failure
use orchestronic_be.Base.{
  ℕ, ◌-◌, String, Option, none, some, List, [], ◌∷◌, map, ◌&&◌, or_else, if◌then◌else◌, leb, ◌==◌,
  ◌===◌,
}
use orchestronic_be.Base.Text.{Text, codes, text_eq}
use orchestronic_be.Schema.{Status, CloudProvider, ResourcesRow, ClusterRequestRow}
use orchestronic_be.Effects.Data.{UserKey, ResourceConfigCreate, K8sClusterData}
use orchestronic_be.Effects.Monad.{Exception, Action, pure, throw, ◌>>=◌, ◌>>◌}
use orchestronic_be.Effects.Prisma.{find_user, create_resource_config, create_resources}
use orchestronic_be.Messaging.{queue_resource, trigger_dag}
use orchestronic_be.Request.Dto.{BackendJwtPayload}
use orchestronic_be.Request.Update.{is_approved}
use orchestronic_be.Project.Outside.{ProjectOutside}
use orchestronic_be.Project.Tables.{
  find_resources, find_resources_in, find_cluster_request, find_cluster_requests,
  create_cluster_request, update_cluster_request,
}

-- src/request/project/dto/request/create-cluster-resource.dto.ts
pub record CreateClusterResourceDto : Type 0 where
  pub name : String
  pub cloud_provider : Option Text
  pub region : String
  pub cluster : Option (List K8sClusterData)

-- `toUpperCase` of a code unit: the letters a to z, and ſ (U+017F), whose capital is S. No other
-- character has a capital among the letters of AZURE and AWS; the rest stay as they are here.
abbrev capital : ℕ → ℕ
capital c = if leb b'a' c && leb c b'z' then c - 32 else if c == 0x17f then b'S' else c

abbrev pub to_upper : Text → Text
to_upper [] = []
to_upper (c ∷ s) = capital c ∷ to_upper s

-- `(resources.cloudProvider || '').toUpperCase()`, compared with the two providers
unfoldable pub provider_of : Option Text → Option CloudProvider
provider_of text =
    let upper = to_upper (or_else text []) in
    if text_eq upper (codes "AZURE")
    then some CloudProvider.azure
    else if text_eq upper (codes "AWS")
    then some CloudProvider.aws
    else none

abbrev pub k8s_config : CloudProvider → List K8sClusterData → ResourceConfigCreate
k8s_config CloudProvider.azure clusters = ResourceConfigCreate.azure_k8s clusters
k8s_config CloudProvider.aws clusters = ResourceConfigCreate.aws_k8s clusters

-- The provider as the text that is stored.
abbrev pub provider_text : CloudProvider → String
provider_text CloudProvider.aws = "AWS"
provider_text CloudProvider.azure = "AZURE"

-- The DAG that creates a cluster, by provider.
abbrev pub cluster_dag : CloudProvider → String
cluster_dag CloudProvider.aws = "AWS_Resources_Cluster"
cluster_dag CloudProvider.azure = "AZURE_Resource_Group_Cluster"

abbrev pub bad_if_none : {A : Type 0} → String → Option A → Action A
bad_if_none message none = throw (Exception.bad_request message)
bad_if_none message (some a) = pure a

-- `resources.find((r) => r.id === id)`
pub find_by_id : List ResourcesRow → String → Option ResourcesRow
find_by_id [] id = none
find_by_id (r ∷ rs) id = if r.id === id then some r else find_by_id rs id

-- `{ clusterRequestId: cr.id, ...resources.find(...) }`
pub record ClusterEntry : Type 0 where
  pub cluster_request_id : String
  pub resources : Option ResourcesRow

unfoldable pub entry_of : List ResourcesRow → ClusterRequestRow → ClusterEntry
unfolding find_by_id
entry_of rs cr = record { cluster_request_id = cr.id; resources = find_by_id rs cr.resource_id }

module _ (out : ProjectOutside) where
  -- The two branches differ in the relation under which the clusters are made.
  unfoldable pub create_for :
      CloudProvider → String → CreateClusterResourceDto → Action ClusterRequestRow
  create_for provider owner_id resources = do
    config ← create_resource_config out.db (k8s_config provider (or_else resources.cluster []))
    row ← create_resources out.db (record {
      name = resources.name;
      cloud_provider = provider_text provider;
      region = resources.region;
      resource_config_id = config.id;
    })
    create_cluster_request out.tables owner_id row.id

  some_request : Action ClusterRequestRow → Action (Option ClusterRequestRow)
  some_request m = do r ← m; pure (some r)

  -- With any other provider the method ends with `undefined`.
  create_with :
      Option CloudProvider → String → CreateClusterResourceDto → Action (Option ClusterRequestRow)
  create_with none owner_id resources = pure none
  create_with (some provider) owner_id resources =
      some_request (create_for provider owner_id resources)

  unfoldable pub create_cluster :
      BackendJwtPayload → CreateClusterResourceDto → Action (Option ClusterRequestRow)
  unfolding create_with some_request
  create_cluster user resources = do
    owner_in_db ← find_user out.db (UserKey.by_id user.id)
    owner ← bad_if_none "Authenticated user not found in database" owner_in_db
    create_with (provider_of resources.cloud_provider) owner.id resources

  -- `Promise.all` of the queue and the DAG run: a failure of the run is thrown.
  unfoldable pub start_cluster :
      BackendJwtPayload → ClusterRequestRow → ResourcesRow → Action (Unit {0})
  start_cluster user cluster_request resource = do
    queue_resource cluster_request.resource_id
    trigger_dag out.airflow user.role (cluster_dag resource.cloud_provider)
    pure tt

  -- Gives back the id of the request, in a response with status code 201.
  unfoldable pub update_cluster_request_status : BackendJwtPayload → String → Status → Action String
  update_cluster_request_status user cluster_request_id status = do
    found ← find_cluster_request out.tables cluster_request_id
    cluster_request ← bad_if_none "Cluster request not found" found
    found_resource ← find_resources out.tables cluster_request.resource_id
    resource ← bad_if_none "Resource not found for the cluster request" found_resource
    update_cluster_request out.tables cluster_request.id status
    (if is_approved status then start_cluster user cluster_request resource else pure tt)
    pure cluster_request.id

  -- `findAllPendingClusters` is this at `Pending`.
  unfoldable pub find_all_clusters_with_status : Status → Action (List ClusterEntry)
  find_all_clusters_with_status status = do
    cluster_requests ←
        find_cluster_requests out.tables (record { status = some status; owner_id = none })
    resources ←
        find_resources_in out.tables
          (map (λ (cr : ClusterRequestRow). cr.resource_id) cluster_requests)
    pure (map (entry_of resources) cluster_requests)

  unfoldable pub find_all_pending_clusters : Action (List ClusterEntry)
  find_all_pending_clusters = find_all_clusters_with_status Status.pending

  unfoldable pub find_clusters_by_user_id_and_status :
      BackendJwtPayload → Status → Action (List ResourcesRow)
  find_clusters_by_user_id_and_status user status = do
    cluster_requests ←
        find_cluster_requests out.tables (record { status = some status; owner_id = user.id })
    find_resources_in out.tables (map (λ (cr : ClusterRequestRow). cr.resource_id) cluster_requests)

  unfoldable pub find_cluster_resources_by_id : String → Action ResourcesRow
  find_cluster_resources_by_id id = do
    found ← find_resources out.tables id
    bad_if_none "Resource not found" found

  unfoldable pub find_cluster_requests_by_req_id : String → Action ClusterRequestRow
  find_cluster_requests_by_req_id id = do
    found ← find_cluster_request out.tables id
    bad_if_none "Cluster request not found" found
