-- ===== src/Infrastructure.antt =====
-- The dashboard and the destruction of resources: src/infrastructure/infrastructure.service.ts and
-- its controller.
pub mod Destroy
use orchestronic_be.Base.{ℕ, String, Option, none, some, concat}
use orchestronic_be.Schema.{Status, CloudProvider, ResourcesRow, RequestRow}
use orchestronic_be.Effects.Data.{CountOf}
use orchestronic_be.Effects.Calls.{Call, Query, History}
use orchestronic_be.Effects.Monad.{
  Exception, Outcome, Action, pure, throw, perform, detach, ◌>>=◌, ◌>>◌,
}
use orchestronic_be.Messaging.{AirflowApi, destroy_request, trigger_dag}
use orchestronic_be.Session.{Session, authenticate, lift, nonempty_text, invalid_token}
use orchestronic_be.Request.Dto.{BackendJwtPayload}

pub record InfraOutside : Type 0 where
  pub count : CountOf → History → Outcome ℕ
  pub request_first : String → History → Outcome (Option RequestRow)
  pub resources_first : String → History → Outcome (Option ResourcesRow)
  pub airflow : AirflowApi

pub record Summary : Type 0 where
  pub total : ℕ
  pub approved : ℕ
  pub declined : ℕ
  pub pending : ℕ
  pub resource_groups_aws : ℕ
  pub resource_groups_azure : ℕ
  pub vms_azure : ℕ
  pub vms_aws : ℕ
  pub dbs_azure : ℕ
  pub dbs_aws : ℕ
  pub storage_azure : ℕ
  pub storage_aws : ℕ

-- The DAG that destroys the resources of a provider, and the provider in a message.
abbrev pub destroy_dag : CloudProvider → String
destroy_dag CloudProvider.aws = "AWS_Destroy"
destroy_dag CloudProvider.azure = "AZURE_Destroy"

abbrev provider_word : CloudProvider → String
provider_word CloudProvider.aws = "AWS"
provider_word CloudProvider.azure = "AZURE"

abbrev resources_id_of : Option RequestRow → Option String
resources_id_of none = none
resources_id_of (some r) = nonempty_text r.resources_id

abbrev provider_of_row : Option ResourcesRow → Option CloudProvider
provider_of_row none = none
provider_of_row (some r) = some r.cloud_provider

abbrev pub error_if_none : {A : Type 0} → String → Option A → Action A
error_if_none message none = throw (Exception.error message)
error_if_none message (some a) = pure a

module _ (out : InfraOutside) where
  abbrev count_of : CountOf → Action ℕ
  count_of what = perform (Call.read (Query.count what)) (out.count what)

  unfoldable pub find_all : Action Summary
  find_all = do
    total ← count_of (CountOf.requests none)
    approved ← count_of (CountOf.requests (some Status.approved))
    declined ← count_of (CountOf.requests (some Status.rejected))
    pending ← count_of (CountOf.requests (some Status.pending))
    resource_groups_aws ← count_of (CountOf.resource_groups CloudProvider.aws)
    resource_groups_azure ← count_of (CountOf.resource_groups CloudProvider.azure)
    vms_azure ← count_of (CountOf.approved_requests CloudProvider.azure)
    vms_aws ← count_of (CountOf.approved_requests CloudProvider.aws)
    dbs_azure ← count_of (CountOf.databases CloudProvider.azure)
    dbs_aws ← count_of (CountOf.databases CloudProvider.aws)
    storage_azure ← count_of (CountOf.storages CloudProvider.azure)
    storage_aws ← count_of (CountOf.storages CloudProvider.aws)
    pure (record {
      total = total;
      approved = approved;
      declined = declined;
      pending = pending;
      resource_groups_aws = resource_groups_aws;
      resource_groups_azure = resource_groups_azure;
      vms_azure = vms_azure;
      vms_aws = vms_aws;
      dbs_azure = dbs_azure;
      dbs_aws = dbs_aws;
      storage_azure = storage_azure;
      storage_aws = storage_aws;
    })

  -- The promise of the DAG run is not awaited.
  unfoldable pub destroy_with : BackendJwtPayload → String → CloudProvider → Action String
  destroy_with user id provider = do
    destroy_request id
    detach (trigger_dag out.airflow user.role (destroy_dag provider))
    pure (
        concat "This action destroys "
          (concat (provider_word provider) (concat " resources for request #" id)))

  unfoldable pub infrastruture_destroy : BackendJwtPayload → String → Action String
  infrastruture_destroy user id = do
    request ← perform (Call.read (Query.request_first id)) (out.request_first id)
    resources_id ←
        error_if_none (concat "No resourcesId found for request " id) (resources_id_of request)
    row ←
        perform (Call.read (Query.resources_unique resources_id)) (out.resources_first resources_id)
    provider ←
        error_if_none (concat "No cloudProvider found for resourcesId " resources_id)
          (provider_of_row row)
    destroy_with user id provider

  unfoldable pub azure_destroy : Session → String → Action String
  azure_destroy s id = do user ← lift (authenticate s invalid_token); infrastruture_destroy user id
