-- ===== src/Project/Controller.antt =====
-- src/request/project/project-request.controller.ts.
pub mod Access
use orchestronic_be.Base.{
  String, Option, none, some, List, concat, if◌then◌else◌, Bool, true, false,
}
use orchestronic_be.Base.Text.{Text}
use orchestronic_be.Schema.{Status, ResourcesRow, ClusterRow, ClusterRequestRow, ImageDeploymentRow}
use orchestronic_be.Effects.Monad.{
  Exception, returned, thrown, Action, pure, throw, rethrow_as, ◌>>=◌, ◌>>◌,
}
use orchestronic_be.Session.{
  Session, TokenError, token_expired, json_web_token, other, authenticate, has_token, lift,
  unprocessable,
}
use orchestronic_be.Request.Dto.{BackendJwtPayload}
use orchestronic_be.Project.Outside.{ProjectOutside}
use orchestronic_be.Project.Cluster.{
  CreateClusterResourceDto, ClusterEntry, create_cluster, update_cluster_request_status,
  find_all_clusters_with_status, find_all_pending_clusters, find_clusters_by_user_id_and_status,
  find_cluster_resources_by_id, find_cluster_requests_by_req_id,
}
use orchestronic_be.Project.Lists.{
  ClusterSummary, find_clusters_by_user_id, find_all_approved_clusters,
  find_all_approved_clusters_by_user_id, find_all_cluster_requests,
  find_cluster_resource_config_by_id, find_image_deployments_by_repo_id,
}
use orchestronic_be.Project.Deploy.{AddRepositoryToK8sClusterDto, deploy_to_k8s_cluster, message_of}

abbrev pub unable : String → Exception
unable message = Exception.error (concat "Unable to process request: " message)

-- The `catch` of the change of a status, for an error of the token.
abbrev pub log_in_again : TokenError → Exception
log_in_again (token_expired message) =
    Exception.unauthorized "Token has expired. Please log in again."
log_in_again (json_web_token message) = Exception.unauthorized "Invalid token. Please log in again."
log_in_again (other message) = unable message

-- `error instanceof HttpException`
abbrev pub is_http : Exception → Bool
is_http (Exception.error _) = false
is_http (Exception.type_error _) = false
is_http (Exception.client_error _) = false
is_http _ = true

abbrev pub keep_http : Exception → Exception
keep_http e = if is_http e then e else Exception.internal_server_error (message_of e)

-- `try { return await m } catch (error) { throw f(error) }`
abbrev pub rethrow_with : {A : Type 0} → (Exception → Exception) → Action A → Action A
rethrow_with f m h =
    let (o, h') = m h in elim o [ returned a ↦ (returned a, h') | thrown e ↦ (thrown (f e), h') ]

-- `if (!response) throw new Error(message)`
abbrev pub some_response : {A : Type 0} → String → Option A → Action A
some_response message none = throw (Exception.error message)
some_response message (some a) = pure a

abbrev pub server_error : TokenError → Exception
server_error (token_expired message) = Exception.internal_server_error message
server_error (json_web_token message) = Exception.internal_server_error message
server_error (other message) = Exception.internal_server_error message

module _ (out : ProjectOutside) (s : Session) where
  abbrev create_cluster_route : String → CreateClusterResourceDto → Action ClusterRequestRow
  create_cluster_route message body = do
    user ← lift (authenticate s unprocessable)
    rethrow_as (Exception.error "Invalid token - unable to process")
        (do response ← create_cluster out user body; some_response message response)

  unfoldable pub create_azure_cluster_request : CreateClusterResourceDto → Action ClusterRequestRow
  create_azure_cluster_request body = create_cluster_route "Failed to create Azure cluster" body

  unfoldable pub create_aws_cluster_request : CreateClusterResourceDto → Action ClusterRequestRow
  create_aws_cluster_request body = create_cluster_route "Failed to create AWS cluster" body

  unfoldable pub update_azure_cluster_request : String → Status → Action String
  update_azure_cluster_request id status = do
    user ← lift (authenticate s log_in_again)
    rethrow_with (λ e. unable (message_of e)) (update_cluster_request_status out user id status)

  -- The routes under `me/` differ in the list that they ask for.
  abbrev me_route : {A : Type 0} → (BackendJwtPayload → Action A) → Action A
  me_route list = do user ← lift (authenticate s server_error); rethrow_with keep_http (list user)

  unfoldable pub get_azure_clusters_by_user_id : Action (List ClusterSummary)
  get_azure_clusters_by_user_id = me_route (λ user. find_clusters_by_user_id out user)

  unfoldable pub get_approved_clusters_for_user : Action (List ClusterSummary)
  get_approved_clusters_for_user = me_route (λ user. find_all_approved_clusters_by_user_id out user)

  unfoldable pub get_azure_clusters_by_user_id_and_status : Status → Action (List ResourcesRow)
  get_azure_clusters_by_user_id_and_status status =
      me_route (λ user. find_clusters_by_user_id_and_status out user status)

  -- The cookie is asked for, and not verified. Gives back the host in the message.
  unfoldable pub deploy_route : AddRepositoryToK8sClusterDto → Action Text
  deploy_route request =
      lift (has_token s)
      >> rethrow_with keep_http (do
        response ← deploy_to_k8s_cluster out request
        some_response "No response from deploying to K8s cluster" response)

-- These routes read no token.
module _ (out : ProjectOutside) where
  unfoldable pub get_azure_cluster_request_by_id : String → Action ClusterRequestRow
  get_azure_cluster_request_by_id id = find_cluster_requests_by_req_id out id

  unfoldable pub get_all_azure_clusters : Action (List ClusterRequestRow)
  get_all_azure_clusters = find_all_cluster_requests out

  unfoldable pub get_all_pending_clusters : Action (List ClusterEntry)
  get_all_pending_clusters = find_all_pending_clusters out

  unfoldable pub get_all_approved_clusters : Action (List ClusterSummary)
  get_all_approved_clusters = find_all_approved_clusters out

  unfoldable pub get_cluster_resources_by_id : String → Action ResourcesRow
  get_cluster_resources_by_id id = find_cluster_resources_by_id out id

  unfoldable pub get_cluster_resource_config_by_id : String → Action (List ClusterRow)
  get_cluster_resource_config_by_id id = do
    response ← find_cluster_resource_config_by_id out id
    some_response "No resource config found for cluster" response

  unfoldable pub get_clusters_by_status : Status → Action (List ClusterEntry)
  get_clusters_by_status status = find_all_clusters_with_status out status

  unfoldable pub get_image_deployments_by_repo_id : String → Action ImageDeploymentRow
  get_image_deployments_by_repo_id id = find_image_deployments_by_repo_id out id
