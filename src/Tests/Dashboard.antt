-- ===== src/Tests/Dashboard.antt =====
-- The destruction of resources, the project controller and the logs in the blob storage.
use orchestronic_be.Base.Decimal.{print, to_digits}
use orchestronic_be.Storage.Dates.{LocalTime, format_date, pad_two}
use orchestronic_be.Base.{
  String, ◌-◌, ◌≤◌, suc, some, List, [], ◌∷◌, ◌≡◌, ◌⊎◌, refl, true, ◌&&◌, none,
}
use orchestronic_be.Base.Lists.{length, take}
use orchestronic_be.Base.Text.{codes}
use orchestronic_be.Schema.{Role, Status}
use orchestronic_be.Effects.Calls.{effects}
use orchestronic_be.Effects.Monad.{returned, thrown, Exception}
use orchestronic_be.GitlabSync.{SyncOutside, sync_repositories}
use orchestronic_be.GitlabSync.Replay.{Store, replay, Serves}
use orchestronic_be.GitlabSync.Agreement.{synchronised, has_project, has_repository, before, after}
use orchestronic_be.Airflow.{
  AirflowReads, TaskInstance, answered, unanswered, logs, get_pipeline_logs,
}
use orchestronic_be.Airflow.Shown.{Shown, get_pipeline_logs-Shown}
use orchestronic_be.Infrastructure.{InfraOutside, azure_destroy}
use orchestronic_be.Infrastructure.Destroy.{Destroyed, azure_destroy_cases}
use orchestronic_be.Patterns.{
  match_log, match_here, up_to_slash, log_number, parse_run_id_to_date, has_shape,
}
use orchestronic_be.Storage.{
  Container, Listing, RunLogs, collect, list_blobs_for_dag, dag_prefix,
  get_logs_for_specific_run_across_dags, target_dags,
}
use orchestronic_be.Env.{strip}
use orchestronic_be.Storage.Blobs.{names_of, list_blobs_for_dag-take}
use orchestronic_be.Storage.Runs.{AllReported, logs-AllReported}
use orchestronic_be.Tests.World.{shop, request_row, azure_resources, broken_airflow, session}

abbrev infra : InfraOutside
infra = record {
  count = λ what h. returned 3;
  request_first = λ id h. returned (some (request_row "alice" (codes "R-4") Status.approved));
  resources_first = λ id h. returned (some azure_resources);
  airflow = broken_airflow;
}

azure_destroy_cases_example :
    (((e : Exception) × ((azure_destroy infra (session Role.it) "req" []).0 ≡ thrown e))
      × (effects (azure_destroy infra (session Role.it) "req" []).1 ≡ []))
    ⊎ (((text : String) × ((azure_destroy infra (session Role.it) "req" []).0 ≡ returned text))
        × Destroyed infra (session Role.it) "req" [])
azure_destroy_cases_example = azure_destroy_cases infra (session Role.it) "req" []

abbrev epoch : LocalTime
epoch = record { month = 0; day = 1; year = 1970; hours = 0; minutes = 0 }

epoch_formatted : format_date (some epoch) ≡ codes "Jan 01, 1970 00:00"
unfolding format_date pad_two print to_digits
epoch_formatted = refl

-- Two names, and a failure after them.
abbrev container : Container
container = record {
  list_blobs = λ prefix h.
      Listing.next (codes "a")
        (Listing.next (codes "b") (Listing.failed (Exception.error "timeout")));
  download = λ name h. thrown (Exception.client_error "404");
  local_time = λ iso. some epoch;
}

one_name : (list_blobs_for_dag container (codes "dag") (some 1) []).0 ≡ returned (codes "a" ∷ [])
unfolding list_blobs_for_dag collect
one_name = refl

list_blobs_for_dag-take_example :
    (codes "a" ∷ []
      ≡ take (suc (1 - 1)) (names_of (container.list_blobs (dag_prefix (codes "dag")) [])))
    × (length (codes "a" ∷ []) ≤ suc (1 - 1))
list_blobs_for_dag-take_example =
    list_blobs_for_dag-take container (codes "dag") 1 [] (codes "a" ∷ []) one_name

matched :
    match_log (codes "dag_id=d/run_id=r/task_id=end/attempt=12.log")
    ≡ some (codes "end", codes "12")
unfolding match_log match_here up_to_slash log_number strip
matched = refl

dated :
    parse_run_id_to_date (codes "manual__2026-01-06T14:14:06.514503+00:00")
    ≡ some (codes "2026-01-06T14:14:06Z")
unfolding parse_run_id_to_date has_shape
dated = refl

logs-AllReported_example :
    (logs : List RunLogs) × ((get_logs_for_specific_run_across_dags container
        (codes "manual__2026")
        []).0
      ≡ returned logs)
    × AllReported container (codes "manual__2026") target_dags logs
logs-AllReported_example = logs-AllReported container (codes "manual__2026") []

-- GitLab has a project without a repository, and the database a repository without a project.
abbrev start : Store
start = record {
  projects = record { id = 3; name = "shop" } ∷ record { id = 4; name = "stray" } ∷ [];
  repositories = shop ∷ record shop { name = "gone" } ∷ [];
}

abbrev sync_out : SyncOutside
sync_out = record {
  projects =
      λ h. returned (record { ok = true; text = ""; json = returned (replay start h).projects });
  delete_project = λ id h. returned tt;
  repositories = λ h. returned (replay start h).repositories;
  delete_repository = λ name h. returned shop;
}

serves : Serves sync_out start
serves = record {
  listed = λ h. refl;
  rows = λ h. refl;
  removes = λ id h. refl;
  deletes = λ n h. (shop, refl);
}

synchronised_example :
    ((sync_repositories sync_out []).0 ≡ returned tt)
    × (has_project (after sync_out start serves []) "stray" ≡ (
        has_project (before sync_out start serves []) "stray"
        && has_repository (before sync_out start serves []) "stray"))
    × (has_repository (after sync_out start serves []) "stray" ≡ (
        has_project (before sync_out start serves []) "stray"
        && has_repository (before sync_out start serves []) "stray"))
synchronised_example = synchronised sync_out start serves [] ((refl, tt), (tt, tt)) "stray"

-- A run with one task, which is queued.
abbrev queued_task : TaskInstance
queued_task = record { task_id = "end"; state = some "queued"; try_number = none }

abbrev reads : AirflowReads
reads = record {
  tasks = λ dag run h. answered (some (queued_task ∷ []));
  logs = λ dag run task n h. unanswered (some 404) "not found";
  event_logs = λ h. unanswered none "refused";
  dags = λ limit offset h. unanswered none "refused";
  latest_run = λ dag h. answered [];
  task = λ dag run task h. answered queued_task;
  full_logs = λ dag run task n h. answered "";
}

get_pipeline_logs-Shown_example :
    (shown : TaskInstance) × (text : String) × ((get_pipeline_logs reads "dag" "run" []).0
      ≡ returned (logs text shown.task_id))
    × Shown (queued_task ∷ []) shown
get_pipeline_logs-Shown_example = get_pipeline_logs-Shown reads "dag" "run" [] queued_task [] refl
