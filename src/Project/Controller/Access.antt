-- ===== src/Project/Controller/Access.antt =====
-- Which callers reach the project service.
use orchestronic_be.Base.{String, ◌≡◌, arith, inl, inr}
use orchestronic_be.Schema.{Status}
use orchestronic_be.Effects.Calls.{History}
use orchestronic_be.Effects.Monad.{Exception, returned, thrown, Outcome-cases}
use orchestronic_be.Session.{
  Session, TokenError, authenticate, IsVerified, authenticate-IsVerified, unprocessable, has_token,
}
use orchestronic_be.Request.Dto.{BackendJwtPayload}
use orchestronic_be.Project.Outside.{ProjectOutside}
use orchestronic_be.Project.Cluster.{CreateClusterResourceDto}
use orchestronic_be.Project.Deploy.{AddRepositoryToK8sClusterDto}
use orchestronic_be.Project.Controller.{
  create_azure_cluster_request, create_aws_cluster_request, update_azure_cluster_request,
  get_azure_clusters_by_user_id, get_approved_clusters_for_user,
  get_azure_clusters_by_user_id_and_status, deploy_route, log_in_again, server_error,
}

module _ (out : ProjectOutside) (s : Session) (h : History)
    (unverified : (p : BackendJwtPayload) → ¬ IsVerified s p) where
  refused : (catch : TokenError → Exception) → (e : Exception) × (authenticate s catch ≡ thrown e)
  refused catch = elim (Outcome-cases (authenticate s catch)) [
    | inl (p, q) ↦ absurd (unverified p (authenticate-IsVerified s catch p q))
    | inr r ↦ r
  ]

  -- Without a token that the secret verifies, the six routes of the project controller that verify
  -- one make no call.
  pub clusters_need_token :
      (body : CreateClusterResourceDto) (id : String) (status : Status)
      → ((create_azure_cluster_request out s body h).1 ≡ h)
        × ((create_aws_cluster_request out s body h).1 ≡ h)
        × ((update_azure_cluster_request out s id status h).1 ≡ h)
        × ((get_azure_clusters_by_user_id out s h).1 ≡ h)
        × ((get_approved_clusters_for_user out s h).1 ≡ h)
        × ((get_azure_clusters_by_user_id_and_status out s status h).1 ≡ h)
  unfolding create_azure_cluster_request create_aws_cluster_request update_azure_cluster_request
      get_azure_clusters_by_user_id get_approved_clusters_for_user
      get_azure_clusters_by_user_id_and_status
  clusters_need_token body id status =
      let (e, q) = refused unprocessable in
      let (e', q') = refused log_in_again in
      let (e'', q'') = refused server_error in
      (ground arith, ground arith, ground arith, ground arith, ground arith, ground arith)

-- A deployment that is asked for with any cookie and any nonempty secret ends in the same way and
-- makes the same calls: what the token says, and whether it is valid, is not looked at.
pub deploy_any_token :
    (out : ProjectOutside) (s s' : Session) (request : AddRepositoryToK8sClusterDto) (h : History)
    → has_token s ≡ returned tt
    → has_token s' ≡ returned tt
    → deploy_route out s request h ≡ deploy_route out s' request h
unfolding deploy_route
deploy_any_token out s s' request h e e' = ground arith
