-- ===== src/Messaging.antt =====
-- src/rabbitmq/rabbitmq.service.ts and the DAG trigger of src/airflow/airflow.service.ts.
pub mod Queues
use orchestronic_be.Base.{String, Option, none, some, or_else}
use orchestronic_be.Schema.{Role}
use orchestronic_be.Effects.Calls.{Call, Pattern, History}
use orchestronic_be.Effects.Monad.{
  Exception, returned, Action, AxiosReply, data_of, failed, pure, throw, perform, ◌>>=◌, ◌>>◌,
}

pub record Queued : Type 0 where
  pub message : String
  pub id : String

-- `client.emit(pattern, { id })`: the message is handed to the client, which sends it later.
abbrev emit : Pattern → String → Action (Unit {0})
emit p id = perform (Call.emit p id) (λ _. returned tt)

unfoldable pub queue_request : String → Action Queued
queue_request id =
    emit Pattern.request id
    >> pure (record { message = "Queue Request queued successfully"; id = id })

unfoldable pub destroy_request : String → Action Queued
destroy_request id =
    emit Pattern.destroy id
    >> pure (record { message = "Destroy Request queued successfully"; id = id })

unfoldable pub destroy_k8s_request : String → Action Queued
destroy_k8s_request id =
    emit Pattern.destroy_k8s id
    >> pure (record { message = "Destroy K8s Request queued successfully"; id = id })

unfoldable pub queue_resource : String → Action Queued
queue_resource id =
    emit Pattern.resource id
    >> pure (record { message = "Queue Resource queued successfully"; id = id })

-- What Airflow answers to the POST that triggers a DAG.
pub record AirflowApi : Type 0 where
  pub dag_run : String → History → AxiosReply String

-- The data of the reply, or an exception with the status of the reply, 502 if there is none.
abbrev dag_run_result : AxiosReply String → Action String
dag_run_result (data_of d) = pure d
dag_run_result (failed status) =
    throw (Exception.http_exception (or_else status 502) "Failed to trigger Airflow DAG")

-- A role that is no role of the schema is refused before the request.
unfoldable pub trigger_dag : AirflowApi → Option Role → String → Action String
trigger_dag api none dag_id =
    throw (Exception.unauthorized "You do not have permission to trigger DAGs")
trigger_dag api (some _) dag_id = do
  reply ← perform (Call.dag_run dag_id) (λ h. returned (api.dag_run dag_id h))
  dag_run_result reply
