-- ===== src/Project/Cluster/Failure.antt =====
-- How a change of the status of a cluster request fails, and what it has done by then.
use orchestronic_be.Base.{ℕ, String, Option, none, some, ◌∷◌, ◌≡◌, true, or_else}
use orchestronic_be.Schema.{Status, ResourcesRow, ClusterRequestRow}
use orchestronic_be.Effects.Calls.{Call, Query, Write, Pattern, History, effects}
use orchestronic_be.Effects.Monad.{Exception, returned, thrown, failed}
use orchestronic_be.Request.Dto.{BackendJwtPayload}
use orchestronic_be.Request.Update.{is_approved}
use orchestronic_be.Project.Outside.{ProjectOutside}
use orchestronic_be.Project.Cluster.{cluster_dag}
use orchestronic_be.Project.Cluster.Approval.{after_lookups, after_queue}

module _ (out : ProjectOutside) (user : BackendJwtPayload) (id : String) (status : Status)
    (h : History) where
  -- The two rows that the change needs.
  pub record Lookups (row : ClusterRequestRow) (resource : ResourcesRow) : Type 0 where
    pub row_found : out.tables.cluster_request_unique id h ≡ returned (some row)
    pub resource_found :
        out.tables.resources_unique row.resource_id
          (Call.read (Query.cluster_request_unique id) ∷ h)
        ≡ returned (some resource)

  -- The statement that writes the status.
  abbrev pub status_write : ClusterRequestRow → Call
  status_write row = Call.write (Write.update_cluster_request row.id status)

  pub data StatusFailed (e : Exception) (h' : History) : Type 0 where
    -- a lookup failed or found nothing
    in_lookup : effects h' ≡ effects h → StatusFailed e h'
    in_write :
        (row : ClusterRequestRow) (resource : ResourcesRow)
        → Lookups row resource
        → out.tables.update_cluster_request row.id status (after_lookups out user id status h row)
          ≡ thrown e
        → effects h' ≡ status_write row ∷ effects h
        → StatusFailed e h'
    -- an approval by a user without a role
    in_role :
        (row : ClusterRequestRow) (resource : ResourcesRow)
        → Lookups row resource
        → is_approved status ≡ true
        → user.role ≡ none
        → e ≡ Exception.unauthorized "You do not have permission to trigger DAGs"
        → effects h' ≡ Call.emit Pattern.resource row.resource_id ∷ status_write row ∷ effects h
        → StatusFailed e h'
    -- an approval whose DAG run Airflow refused
    in_run :
        (row : ClusterRequestRow) (resource : ResourcesRow) (code : Option ℕ)
        → Lookups row resource
        → is_approved status ≡ true
        → out.airflow.dag_run
            (cluster_dag resource.cloud_provider)
            (after_queue out user id status h row)
          ≡ failed code
        → e ≡ Exception.http_exception (or_else code 502) "Failed to trigger Airflow DAG"
        → effects h'
          ≡ Call.dag_run (cluster_dag resource.cloud_provider)
            ∷ Call.emit Pattern.resource row.resource_id
            ∷ status_write row
            ∷ effects h
        → StatusFailed e h'
