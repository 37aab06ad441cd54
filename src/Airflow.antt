-- ===== src/Airflow.antt =====
-- The readers of src/airflow/airflow.service.ts, and src/airflow/airflow.controller.ts. The API of
-- Airflow is an argument.
pub mod Shown
pub mod Routes
use orchestronic_be.Base.{
  ℕ, String, Option, none, some, List, [], ◌∷◌, ◌===◌, concat, or_else, if◌then◌else◌, map,
}
use orchestronic_be.Effects.Calls.{Call, AirflowCall, History}
use orchestronic_be.Effects.Monad.{Exception, returned, thrown, Action, pure, throw, perform, ◌>>=◌}
use orchestronic_be.Messaging.{AirflowApi, trigger_dag}
use orchestronic_be.Session.{Session, authenticate, lift, nonempty_text}
use orchestronic_be.Project.Deploy.{message_of}
use orchestronic_be.Project.Lists.{map_each}

pub record TaskInstance : Type 0 where
  pub task_id : String
  pub state : Option String
  pub try_number : Option ℕ

-- The data of a response, or the status, if there is one, and the text of a failure.
pub data AirflowReply (D : Type 0) : Type 0 where
  answered : D → AirflowReply D
  unanswered : Option ℕ → String → AirflowReply D

pub record AirflowReads : Type 0 where
  -- the field `task_instances`, which may be missing
  pub tasks : String → String → History → AirflowReply (Option (List TaskInstance))
  pub logs : String → String → String → ℕ → History → AirflowReply String
  pub event_logs : History → AirflowReply String
  pub dags : ℕ → ℕ → History → AirflowReply String
  -- the ids of at most one run
  pub latest_run : String → History → AirflowReply (List String)
  pub task : String → String → String → History → AirflowReply TaskInstance
  pub full_logs : String → String → String → ℕ → History → AirflowReply String

-- The exception with the status of the response, 502 if there is none.
abbrev pub or_http : {D : Type 0} → String → AirflowReply D → Action D
or_http message (answered d) = pure d
or_http message (unanswered status text) =
    throw (Exception.http_exception (or_else status 502) message)

-- A failure of axios itself, which is not caught.
abbrev or_axios : {D : Type 0} → AirflowReply D → Action D
or_axios (answered d) = pure d
or_axios (unanswered status text) = throw (Exception.client_error text)

-- A failure as a text.
abbrev pub or_text : String → AirflowReply String → String
or_text what (answered text) = text
or_text what (unanswered status text) = concat what text

abbrev first_run : List String → Option String
first_run [] = none
first_run (r ∷ rs) = some r

-- `tasks.find((t) => t.state === state)`
unfoldable pub find_state : String → List TaskInstance → Option TaskInstance
find_state state [] = none
find_state state (t ∷ ts) =
    let rest = find_state state ts in if or_else t.state "" === state then some t else rest

unfoldable pub last_task : TaskInstance → List TaskInstance → TaskInstance
last_task t [] = t
last_task t (u ∷ us) = last_task u us

-- `a || b`
abbrev pub either : {A : Type 0} → Option A → A → A
either o b = or_else o b

unfoldable pub target_task : TaskInstance → List TaskInstance → TaskInstance
target_task t ts = either (find_state "failed" (t ∷ ts)) (
    either (find_state "running" (t ∷ ts)) (either (find_state "queued" (t ∷ ts)) (last_task t ts)))

pub data PipelineLogs : Type 0 where
  no_tasks : PipelineLogs
  logs : String → String → PipelineLogs
  failed : String → PipelineLogs

-- One task of `getLogsForTasksInLatestRun`: without a run, or its state, its try and its log.
pub data TaskLog : Type 0 where
  no_run : String → TaskLog
  logged : String → Option String → ℕ → String → TaskLog

pub record RunReport : Type 0 where
  pub dag_id : String
  pub dag_run_id : Option String
  pub tasks : List TaskLog

abbrev error_or_unknown : String → String
error_or_unknown message = if message === "" then "Unknown error" else message

module _ (api : AirflowReads) where
  unfoldable pub get_task_instances : String → String → Action (Option (List TaskInstance))
  get_task_instances dag run = do
    reply ←
        perform (Call.airflow (AirflowCall.get_tasks dag run)) (λ h. returned (api.tasks dag run h))
    or_http "Failed to fetch task instances" reply

  unfoldable pub get_task_logs : String → String → String → ℕ → Action String
  get_task_logs dag run task try_number = do
    reply ←
        perform (Call.airflow (AirflowCall.get_logs dag run task try_number))
          (λ h. returned (api.logs dag run task try_number h))
    pure (or_text (concat "Error fetching logs for task " (concat task ": ")) reply)

  unfoldable pub get_worker_logs : Action String
  get_worker_logs = do
    reply ← perform (Call.airflow AirflowCall.get_event_logs) (λ h. returned (api.event_logs h))
    or_http "Failed to fetch worker logs" reply

  unfoldable pub get_all_dags : ℕ → ℕ → Action String
  get_all_dags limit offset = do
    reply ←
        perform (Call.airflow (AirflowCall.get_dags limit offset))
          (λ h. returned (api.dags limit offset h))
    or_http "Failed to fetch DAGs" reply

  unfoldable pub get_latest_dag_run_id : String → Action (Option String)
  get_latest_dag_run_id dag = do
    reply ←
        perform (Call.airflow (AirflowCall.get_latest_run dag))
          (λ h. returned (api.latest_run dag h))
    runs ← or_axios reply
    pure (first_run runs)

  -- `getTaskInstanceById(...).catch(() => null)`
  abbrev found_task : AirflowReply TaskInstance → Option TaskInstance
  found_task (answered t) = some t
  found_task (unanswered status text) = none

  abbrev state_of : Option TaskInstance → Option String
  state_of none = none
  state_of (some t) = t.state

  abbrev try_of : Option TaskInstance → ℕ
  try_of none = 1
  try_of (some t) = or_else t.try_number 1

  unfoldable pub get_task_logs_safe : String → String → String → ℕ → Action String
  get_task_logs_safe dag run task try_number = do
    reply ←
        perform (Call.airflow (AirflowCall.get_full_logs dag run task try_number))
          (λ h. returned (api.full_logs dag run task try_number h))
    pure (or_text "Error fetching logs: " reply)

  unfoldable pub log_of_task : String → String → String → Action TaskLog
  log_of_task dag run task = do
    reply ←
        perform (Call.airflow (AirflowCall.get_task dag run task))
          (λ h. returned (api.task dag run task h))
    log ← get_task_logs_safe dag run task (try_of (found_task reply))
    pure (logged task (state_of (found_task reply)) (try_of (found_task reply)) log)

  abbrev report_of : String → List String → Option String → Action RunReport
  report_of dag tasks none =
      pure (record { dag_id = dag; dag_run_id = none; tasks = map no_run tasks })
  report_of dag tasks (some run) = do
    entries ← map_each (log_of_task dag run) tasks
    pure (record { dag_id = dag; dag_run_id = some run; tasks = entries })

  unfoldable pub get_logs_for_tasks_in_latest_run : String → List String → Action RunReport
  get_logs_for_tasks_in_latest_run dag tasks = do
    run ← get_latest_dag_run_id dag
    report_of dag tasks (nonempty_text run)

  unfoldable pub get_orchestronic_selected_logs : Action (List RunReport)
  get_orchestronic_selected_logs = do
    cluster ←
        get_logs_for_tasks_in_latest_run "AWS_Resources_Cluster" ("terraform_apply" ∷ "end" ∷ [])
    provision ←
        get_logs_for_tasks_in_latest_run "AWS_terraform_k3s_provision"
          ("terraform_init" ∷ "terraform_apply" ∷ "trigger_k3s_configuration" ∷ [])
    configure ←
        get_logs_for_tasks_in_latest_run "AWS_configure_k3s"
          ("fetch_cluster_info" ∷ "configure_clusters" ∷ "store_kubeconfigs" ∷ [])
    pure (cluster ∷ provision ∷ configure ∷ [])

  abbrev logs_of_target : String → String → Option (List TaskInstance) → Action PipelineLogs
  logs_of_target dag run none = pure no_tasks
  logs_of_target dag run (some []) = pure no_tasks
  logs_of_target dag run (some (t ∷ ts)) = do
    text ← get_task_logs dag run (target_task t ts).task_id 1
    pure (logs text (target_task t ts).task_id)

  abbrev read_logs : String → String → Action PipelineLogs
  read_logs dag run = do tasks ← get_task_instances dag run; logs_of_target dag run tasks

  -- The route answers a failure with its message.
  unfoldable pub get_pipeline_logs : String → String → Action PipelineLogs
  get_pipeline_logs dag run h =
      let (o, h') = read_logs dag run h in
      elim o [
        | returned l ↦ (returned l, h')
        | thrown e ↦ (returned (failed (error_or_unknown (message_of e))), h')
      ]

unfoldable pub trigger_dag_route : AirflowApi → Session → String → Action String
trigger_dag_route api s dag = do
  user ← lift (authenticate s (λ _. Exception.unauthorized "Invalid token - unable to process"))
  trigger_dag api user.role dag
