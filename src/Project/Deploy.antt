-- ===== src/Project/Deploy.antt =====
-- `DeployToK8sCluster` of src/request/project/project-request.service.ts: a repository's image is
-- deployed to a cluster, and the deployment is kept.
pub mod Kept
pub mod Order
pub mod Hosts
use orchestronic_be.Base.{
  ℕ, String, Option, none, some, ◌++◌, Bool, false, not, or_else, if◌then◌else◌, concat, ◌===◌,
}
use orchestronic_be.Base.Text.{Text, codes, trim, remove_quotes}
use orchestronic_be.Schema.{CloudProvider, RepositoryRow, ClusterRow}
use orchestronic_be.Effects.Data.{RepositoryKey}
use orchestronic_be.Effects.Calls.{Call, DeployRequest}
use orchestronic_be.Effects.Monad.{
  Exception, Outcome, returned, thrown, Action, AxiosReply, data_of, failed, pure, throw, throw_if,
  perform, ◌>>=◌, ◌>>◌,
}
use orchestronic_be.Effects.Prisma.{find_repository}
use orchestronic_be.Gitlab.{RegistryImage, get_project_by_name, get_image_from_registry}
use orchestronic_be.Cloudflare.{UpsertParams, upsert_a_record}
use orchestronic_be.Request.Create.{is_some}
use orchestronic_be.Project.Outside.{ProjectOutside, DeployResponse}
use orchestronic_be.Project.Tables.{
  find_cluster, find_resource_config, find_resources_of_config, create_image_deployment,
}
use orchestronic_be.Project.Cluster.{bad_if_none}

-- src/request/project/dto/request/update-repository.dto.ts; the provider may be any string.
pub record AddRepositoryToK8sClusterDto : Type 0 where
  pub repository_id : String
  pub provider : String
  pub cluster_id : String
  pub port : ℕ
  pub use_private_registry : Option Bool

-- `error.message`
abbrev pub message_of : Exception → String
message_of (Exception.bad_request m) = m
message_of (Exception.unauthorized m) = m
message_of (Exception.forbidden m) = m
message_of (Exception.not_found m) = m
message_of (Exception.conflict m) = m
message_of (Exception.internal_server_error m) = m
message_of (Exception.error m) = m
message_of (Exception.type_error m) = m
message_of (Exception.client_error m) = m
message_of (Exception.http_exception _ m) = m

-- `catch (error) { throw new BadRequestException(what + error.message) }`
abbrev pub bad_request_with : {A : Type 0} → String → Action A → Action A
bad_request_with what m h =
    let (o, h') = m h in
    elim o [
      | returned a ↦ (returned a, h')
      | thrown e ↦ (thrown (Exception.bad_request (concat what (message_of e))), h')
    ]

-- A string that is there and not empty.
abbrev pub present : Option String → Option String
present none = none
present (some s) = if s === "" then none else some s

-- A parse by a library, which may throw; it is no call.
abbrev parsed : {A : Type 0} → Outcome A → Action A
parsed o h = (o, h)

-- `try { await m } catch { log }`
abbrev pub quietly : {A : Type 0} → Action A → Action (Unit {0})
quietly m h = (returned tt, (m h).1)

-- `request.provider === CloudProvider.AZURE`, then the same with AWS
unfoldable pub named_provider : String → Option CloudProvider
named_provider s =
    if s === "AZURE"
    then some CloudProvider.azure
    else if s === "AWS"
    then some CloudProvider.aws
    else none

abbrev pub provider_name : CloudProvider → String
provider_name CloudProvider.azure = "Azure"
provider_name CloudProvider.aws = "AWS"

abbrev pub failed_to_deploy : CloudProvider → String
failed_to_deploy p = concat "Failed to deploy to " (concat (provider_name p) " K8s Cluster")

-- `cluster.clusterName.trim().replace(/['"]/g, '')`
abbrev pub clean_name : ClusterRow → Text
clean_name cluster = remove_quotes (trim (codes cluster.cluster_name))

-- `*.${name}.orchestronic.dev` and `${repository.name}.${name}.orchestronic.dev`
abbrev pub wildcard_of : Text → Text
wildcard_of name = codes "*." ++ name ++ codes ".orchestronic.dev"

abbrev pub host_of : RepositoryRow → Text → Text
host_of repository name = codes repository.name ++ codes "." ++ name ++ codes ".orchestronic.dev"

-- What the two branches put into the host of a deployment for the cluster.
unfoldable pub host_name : CloudProvider → ClusterRow → Text
host_name CloudProvider.azure cluster = codes cluster.cluster_name
host_name CloudProvider.aws cluster = clean_name cluster

abbrev pub dns_params : ClusterRow → String → UpsertParams
dns_params cluster ip = record {
  fqdn = wildcard_of (clean_name cluster);
  ip = codes ip;
  proxied = some false;
  ttl = some 1;
}

abbrev pub successful : Option DeployResponse → Bool
successful none = false
successful (some r) = r.success

-- The image of the registry, which needs a name and a place.
abbrev pub image_of : RegistryImage → Option String
image_of image = if is_some (present image.name) then present image.image else none

-- src/k8sautomation/k8sautomation.service.ts
abbrev automation_result : AxiosReply (Option DeployResponse) → Action (Option DeployResponse)
automation_result (data_of d) = pure d
automation_result (failed status) =
    throw (Exception.http_exception (or_else status 502) "Failed to automate K8s deployment")

module _ (out : ProjectOutside) where
  unfoldable pub automate_k8s_deployment : DeployRequest → Action (Option DeployResponse)
  automate_k8s_deployment request = do
    reply ← perform (Call.initialize request) (λ h. returned (out.initialize request h))
    automation_result reply

  unfoldable pub register_dns : ClusterRow → String → Action (Unit {0})
  register_dns cluster ip = quietly (upsert_a_record out.cloudflare (dns_params cluster ip))

  -- A cluster without an address gets no record.
  unfoldable pub register_if_known : ClusterRow → Option String → Action (Unit {0})
  register_if_known cluster none = pure tt
  register_if_known cluster (some ip) = register_dns cluster ip

  module _ (request : AddRepositoryToK8sClusterDto) where
    abbrev pub deploy_request : RepositoryRow → String → Text → String → DeployRequest
    deploy_request repository image host kube_config = record {
      name = repository.name;
      host = host;
      image = image;
      port = request.port;
      use_private_registry = or_else request.use_private_registry false;
      kube_config = kube_config;
    }

    -- The end of both branches, from the host on.
    unfoldable pub deploy_and_keep :
        CloudProvider → RepositoryRow → String → ClusterRow → String → Action Text
    deploy_and_keep provider repository image cluster kube_config =
        let host = host_of repository (host_name provider cluster) in
        do
          answer ← automate_k8s_deployment (deploy_request repository image host kube_config)
          throw_if (not (successful answer)) (Exception.bad_request (failed_to_deploy provider))
          found_config ← find_resource_config out.tables cluster.resource_config_id
          config ← bad_if_none "Resource config not found" found_config
          found_resource ← find_resources_of_config out.tables config.id
          bad_if_none "Resource not found" found_resource
          create_image_deployment out.tables (record {
            repository_id = request.repository_id;
            provider = provider;
            cluster_id = cluster.id;
            hosted_url = host;
            image_url = image;
          })
          pure host

    -- The cluster with its kubeconfig.
    unfoldable pub chosen_cluster : CloudProvider → Action (ClusterRow × String)
    chosen_cluster provider = do
      found ← find_cluster out.tables provider request.cluster_id
      cluster ← bad_if_none (concat (provider_name provider) " K8s Cluster not found") found
      yaml ← bad_if_none "Kubeconfig not found in cluster" (present cluster.kube_config)
      pure (cluster, yaml)

    unfoldable pub deploy_azure : RepositoryRow → String → Action Text
    deploy_azure repository image = do
      chosen ← chosen_cluster CloudProvider.azure
      kube_config ← parsed (out.parse_yaml chosen.1)
      register_if_known chosen.0 (present chosen.0.address)
      deploy_and_keep CloudProvider.azure repository image chosen.0 kube_config

    unfoldable pub deploy_aws : RepositoryRow → String → Action Text
    deploy_aws repository image = do
      chosen ← chosen_cluster CloudProvider.aws
      endpoint ← bad_if_none "Cluster endpoint not found in cluster" (present chosen.0.address)
      found_ip ← parsed (out.edge_public_ip endpoint)
      ip ← bad_if_none "Edge public IP not found in cluster endpoint" (present found_ip)
      register_dns chosen.0 ip
      kube_config ← parsed (out.parse_yaml chosen.1)
      deploy_and_keep CloudProvider.aws repository image chosen.0 kube_config

    abbrev pub deploy_on : CloudProvider → RepositoryRow → String → Action Text
    deploy_on CloudProvider.azure = deploy_azure
    deploy_on CloudProvider.aws = deploy_aws

    -- The `catch` of each branch; with another provider the method ends with `undefined`.
    unfoldable pub deploy_with :
        Option CloudProvider → RepositoryRow → String → Action (Option Text)
    deploy_with none repository image = pure none
    deploy_with (some provider) repository image = do
      host ←
          bad_request_with (concat (failed_to_deploy provider) ": ")
            (deploy_on provider repository image)
      pure (some host)

    -- Gives back the host.
    unfoldable pub deploy_to_k8s_cluster : Action (Option Text)
    deploy_to_k8s_cluster = do
      found ← find_repository out.db (RepositoryKey.by_id request.repository_id)
      repository ← bad_if_none "Repository not found" found
      found_project ← get_project_by_name out.gitlab repository.name
      project ← bad_if_none "Project not found in GitLab" found_project
      entry ←
          bad_request_with "Failed to get image from GitLab registry: "
            (get_image_from_registry out.gitlab project.id)
      image ← bad_if_none "No image found in GitLab registry" (image_of entry)
      deploy_with (named_provider request.provider) repository image
