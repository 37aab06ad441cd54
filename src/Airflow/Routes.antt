-- ===== src/Airflow/Routes.antt =====
-- The routes of src/airflow/airflow.controller.ts that only call a reader; they read no token.
use orchestronic_be.Base.{ℕ, String, Option, List, or_else}
use orchestronic_be.Effects.Monad.{Action}
use orchestronic_be.Airflow.{
  AirflowReads, TaskInstance, RunReport, get_task_instances, get_worker_logs, get_all_dags,
  get_orchestronic_selected_logs,
}

module _ (api : AirflowReads) where
  unfoldable pub get_task_instances_route : String → String → Action (Option (List TaskInstance))
  get_task_instances_route dag_id dag_run_id = get_task_instances api dag_id dag_run_id

  unfoldable pub get_worker_logs_route : Action String
  get_worker_logs_route = get_worker_logs api

  -- `Number(limit ?? 100)` and `Number(offset ?? 0)`, for parameters that are numbers
  unfoldable pub get_dags_route : Option ℕ → Option ℕ → Action String
  get_dags_route limit offset = get_all_dags api (or_else limit 100) (or_else offset 0)

  unfoldable pub get_orchestronic_logs_route : Action (List RunReport)
  get_orchestronic_logs_route = get_orchestronic_selected_logs api
