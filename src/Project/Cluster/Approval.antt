-- ===== src/Project/Cluster/Approval.antt =====
-- A change of the status of a cluster request, and the start of an approved cluster.
use orchestronic_be.Base.{
  ℕ, String, Option, none, some, [], ◌∷◌, ◌++◌, ◌≡◌, arith, inl, inr, Bool-cases, Option-cases,
  or_else, if◌then◌else◌,
}
use orchestronic_be.Schema.{Status, ResourcesRow, ClusterRequestRow, Role}
use orchestronic_be.Effects.Calls.{Call, Query, Write, Pattern, History, effects}
use orchestronic_be.Effects.Monad.{
  Exception, returned, thrown, failed, Outcome-cases, AxiosReply-cases, data_of,
}
use orchestronic_be.Messaging.{queue_resource, trigger_dag}
use orchestronic_be.Request.Dto.{BackendJwtPayload}
use orchestronic_be.Request.Update.{is_approved}
use orchestronic_be.Project.Outside.{ProjectOutside}
use orchestronic_be.Project.Cluster.{cluster_dag, start_cluster, update_cluster_request_status}

module _ (out : ProjectOutside) (user : BackendJwtPayload) (id : String) (status : Status)
    (h : History) where
  -- A status was set on the cluster request with this id, after that request and its resource were
  -- found.
  pub record StatusSet (answer : String) (h' : History) : Type 0 where
    pub row : ClusterRequestRow
    pub resource : ResourcesRow
    pub row_found : out.tables.cluster_request_unique id h ≡ returned (some row)
    pub resource_found :
        out.tables.resources_unique row.resource_id
          (Call.read (Query.cluster_request_unique id) ∷ h)
        ≡ returned (some resource)
    pub answered : answer ≡ row.id
    -- with `Approved` the resource is queued and then the DAG of its provider is started
    pub written :
        effects h'
        ≡ (if is_approved status
            then Call.dag_run (cluster_dag resource.cloud_provider)
              ∷ Call.emit Pattern.resource row.resource_id
              ∷ []
            else [])
          ++ Call.write (Write.update_cluster_request row.id status) ∷ effects h

  abbrev pub after_lookups : ClusterRequestRow → History
  after_lookups row =
      Call.read (Query.resources_unique row.resource_id)
      ∷ Call.read (Query.cluster_request_unique id)
      ∷ h

  abbrev pub after_update : ClusterRequestRow → History
  after_update row = Call.write (Write.update_cluster_request row.id status) ∷ after_lookups row

  abbrev pub after_queue : ClusterRequestRow → History
  after_queue row = Call.emit Pattern.resource row.resource_id ∷ after_update row

  -- A start whose DAG run is accepted, one whose DAG run is refused, and one without a role.
  pub start_cluster-accepted :
      (row : ClusterRequestRow) (resource : ResourcesRow) (role : Role) (k : History) (d : String)
      → user.role ≡ some role
      → out.airflow.dag_run
          (cluster_dag resource.cloud_provider)
          (Call.emit Pattern.resource row.resource_id ∷ k)
        ≡ data_of d
      → start_cluster out user row resource k ≡ (
        returned tt,
        Call.dag_run (cluster_dag resource.cloud_provider)
            ∷ Call.emit Pattern.resource row.resource_id
            ∷ k,
      )
  unfolding start_cluster trigger_dag queue_resource
  start_cluster-accepted row resource role k d n f = ground arith

  pub start_cluster-refused :
      (row : ClusterRequestRow) (resource : ResourcesRow) (role : Role) (k : History)
      (code : Option ℕ)
      → user.role ≡ some role
      → out.airflow.dag_run
          (cluster_dag resource.cloud_provider)
          (Call.emit Pattern.resource row.resource_id ∷ k)
        ≡ failed code
      → start_cluster out user row resource k ≡ (
        thrown (Exception.http_exception (or_else code 502) "Failed to trigger Airflow DAG"),
        Call.dag_run (cluster_dag resource.cloud_provider)
            ∷ Call.emit Pattern.resource row.resource_id
            ∷ k,
      )
  unfolding start_cluster trigger_dag queue_resource
  start_cluster-refused row resource role k code n f = ground arith

  start_cluster-roleless :
      (row : ClusterRequestRow) (resource : ResourcesRow) (k : History)
      → user.role ≡ none
      → (start_cluster out user row resource k).0
        ≡ thrown (Exception.unauthorized "You do not have permission to trigger DAGs")
  unfolding start_cluster trigger_dag queue_resource
  start_cluster-roleless row resource k n = ground arith

  set_then_start :
      (row : ClusterRequestRow) (resource : ResourcesRow) (answer : String)
      → out.tables.cluster_request_unique id h ≡ returned (some row)
      → out.tables.resources_unique row.resource_id
          (Call.read (Query.cluster_request_unique id) ∷ h)
        ≡ returned (some resource)
      → (update_cluster_request_status out user id status h).0 ≡ returned answer
      → StatusSet answer (update_cluster_request_status out user id status h).1
  unfolding update_cluster_request_status
  set_then_start row resource answer q q' e =
      elim (Outcome-cases (out.tables.update_cluster_request row.id status (after_lookups row))) [
        | inr (x, u) ↦ absurd (ground arith)
        | inl (a, u) ↦ elim (Bool-cases (is_approved status)) [
          | inr t ↦ record {
            row = row;
            resource = resource;
            row_found = q;
            resource_found = q';
            answered = ground arith;
            written = ground arith;
          }
          | inl t ↦ elim (Option-cases user.role) [
            | inl n ↦
                absurd
                  (let s = start_cluster-roleless row resource (after_update row) n in ground arith)
            | inr (role, n) ↦
                elim (AxiosReply-cases
                  (out.airflow.dag_run (cluster_dag resource.cloud_provider) (after_queue row))) [
                    | inr (c, f) ↦ absurd (
                        let s = start_cluster-refused row resource role (after_update row) c n f in
                        ground arith)
                    | inl (d, f) ↦ record {
                      row = row;
                      resource = resource;
                      row_found = q;
                      resource_found = q';
                      answered = ground arith;
                      written =
                          (let s =
                              start_cluster-accepted row resource role (after_update row) d n f in
                            ground arith);
                    }
                  ]
          ]
        ]
      ]

  -- A change of status that returned found the request and its resource, answered the id of the
  -- request, and wrote the status; with `Approved` it then queued the resource and started the DAG
  -- of its provider, in this order, and with any other status it did nothing more.
  pub update_cluster_request_status-StatusSet :
      (answer : String)
      → (update_cluster_request_status out user id status h).0 ≡ returned answer
      → StatusSet answer (update_cluster_request_status out user id status h).1
  unfolding update_cluster_request_status
  update_cluster_request_status-StatusSet answer e =
      elim (Outcome-cases (out.tables.cluster_request_unique id h)) [
        | inr (x, q) ↦ absurd (ground arith)
        | inl (none, q) ↦ absurd (ground arith)
        | inl (some row, q) ↦
            elim (Outcome-cases (
              out.tables.resources_unique row.resource_id
                (Call.read (Query.cluster_request_unique id) ∷ h))) [
                  | inr (x, q') ↦ absurd (ground arith)
                  | inl (none, q') ↦ absurd (ground arith)
                  | inl (some resource, q') ↦ set_then_start row resource answer q q' e
                ]
      ]
