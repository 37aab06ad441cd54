-- ===== src/Project/Tables.antt =====
-- The tables of the Prisma client that the project service reads and writes, with the other
-- services that it calls; all are arguments.
use orchestronic_be.Base.{String, List, Option}
use orchestronic_be.Schema.{
  Status, CloudProvider, ResourceConfigRow, ResourcesRow, ClusterRow, ClusterRequestRow,
  ImageDeploymentRow,
}
use orchestronic_be.Effects.Data.{RequestWhere, ImageDeploymentCreate}
use orchestronic_be.Effects.Calls.{Call, Query, Write, History}
use orchestronic_be.Effects.Monad.{Outcome, Action, perform}

pub record ClusterTables : Type 0 where
  pub resources_unique : String → History → Outcome (Option ResourcesRow)
  pub resources_in : List String → History → Outcome (List ResourcesRow)
  pub resources_of_config : String → History → Outcome (Option ResourcesRow)
  pub resource_config_unique : String → History → Outcome (Option ResourceConfigRow)
  pub cluster_unique : CloudProvider → String → History → Outcome (Option ClusterRow)
  pub clusters_of_config : CloudProvider → Option String → History → Outcome (List ClusterRow)
  pub cluster_request_unique : String → History → Outcome (Option ClusterRequestRow)
  pub cluster_request_many : RequestWhere → History → Outcome (List ClusterRequestRow)
  pub image_deployment_of : String → History → Outcome (Option ImageDeploymentRow)
  pub clusters_owned : CloudProvider → Option String → History → Outcome (List ClusterRow)
  pub resource_config_many : String → History → Outcome (List ResourceConfigRow)
  pub create_cluster_request : String → String → History → Outcome ClusterRequestRow
  pub update_cluster_request : String → Status → History → Outcome ClusterRequestRow
  pub create_image_deployment : ImageDeploymentCreate → History → Outcome ImageDeploymentRow

module _ (db : ClusterTables) where
  abbrev pub find_resources : String → Action (Option ResourcesRow)
  find_resources id = perform (Call.read (Query.resources_unique id)) (db.resources_unique id)

  abbrev pub find_resources_in : List String → Action (List ResourcesRow)
  find_resources_in ids = perform (Call.read (Query.resources_in ids)) (db.resources_in ids)

  -- `resources.findFirst({ where: { resourceConfigId } })`
  abbrev pub find_resources_of_config : String → Action (Option ResourcesRow)
  find_resources_of_config id =
      perform (Call.read (Query.resources_of_config id)) (db.resources_of_config id)

  abbrev pub find_resource_config : String → Action (Option ResourceConfigRow)
  find_resource_config id =
      perform (Call.read (Query.resource_config_unique id)) (db.resource_config_unique id)

  -- `awsK8sCluster.findUnique` and `azureK8sCluster.findUnique`
  abbrev pub find_cluster : CloudProvider → String → Action (Option ClusterRow)
  find_cluster p id = perform (Call.read (Query.cluster_unique p id)) (db.cluster_unique p id)

  -- `findMany({ where: { resourceConfigId } })`, where an undefined id is no condition
  abbrev pub find_clusters_of_config : CloudProvider → Option String → Action (List ClusterRow)
  find_clusters_of_config p id =
      perform (Call.read (Query.clusters_of_config p id)) (db.clusters_of_config p id)

  abbrev pub find_cluster_request : String → Action (Option ClusterRequestRow)
  find_cluster_request id =
      perform (Call.read (Query.cluster_request_unique id)) (db.cluster_request_unique id)

  abbrev pub find_cluster_requests : RequestWhere → Action (List ClusterRequestRow)
  find_cluster_requests w =
      perform (Call.read (Query.cluster_request_many w)) (db.cluster_request_many w)

  abbrev pub find_image_deployment : String → Action (Option ImageDeploymentRow)
  find_image_deployment id =
      perform (Call.read (Query.image_deployment_of id)) (db.image_deployment_of id)

  -- `findMany` by the owner of the request of the resources
  abbrev pub find_clusters_owned : CloudProvider → Option String → Action (List ClusterRow)
  find_clusters_owned p owner =
      perform (Call.read (Query.clusters_owned p owner)) (db.clusters_owned p owner)

  abbrev pub find_resource_configs : String → Action (List ResourceConfigRow)
  find_resource_configs id =
      perform (Call.read (Query.resource_config_many id)) (db.resource_config_many id)

  abbrev pub create_cluster_request : String → String → Action ClusterRequestRow
  create_cluster_request owner resource =
      perform (Call.write (Write.create_cluster_request owner resource))
        (db.create_cluster_request owner resource)

  abbrev pub update_cluster_request : String → Status → Action ClusterRequestRow
  update_cluster_request id status =
      perform (Call.write (Write.update_cluster_request id status))
        (db.update_cluster_request id status)

  abbrev pub create_image_deployment : ImageDeploymentCreate → Action ImageDeploymentRow
  create_image_deployment d =
      perform (Call.write (Write.create_image_deployment d)) (db.create_image_deployment d)
