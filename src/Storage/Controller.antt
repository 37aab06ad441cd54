-- ===== src/Storage/Controller.antt =====
-- src/azure-storage/azure-storage.controller.ts: the answers of its two routes, which read no token.
use orchestronic_be.Base.{ℕ, ◌+◌, Option, none, some, List, [], ◌∷◌, length}
use orchestronic_be.Base.Text.{Text, codes}
use orchestronic_be.Effects.Monad.{Action, pure, ◌>>=◌}
use orchestronic_be.Storage.{
  Container, RunLogs, get_logs_for_specific_run_across_dags, list_blobs_for_dag, limit_of,
}

pub data LogsAnswer : Type 0 where
  run_id_required : LogsAnswer
  -- the run, the DAGs, the reports, and how many reports and entries they are
  logs_answer : Text → List Text → List RunLogs → ℕ → ℕ → LogsAnswer

-- `logs.reduce((sum, dag) => sum + dag.logs.length, 0)`
unfoldable pub total_logs : List RunLogs → ℕ
total_logs [] = 0
total_logs (dag ∷ dags) = length dag.logs + total_logs dags

pub record BlobsAnswer : Type 0 where
  pub dag_id : Text
  pub count : ℕ
  pub blobs : List Text

module _ (container : Container) where
  -- `if (!runId)`: an empty text counts as none.
  unfoldable pub logs_route : Option Text → Action LogsAnswer
  logs_route none = pure run_id_required
  logs_route (some []) = pure run_id_required
  logs_route (some (c ∷ s)) = do
    logs ← get_logs_for_specific_run_across_dags container (c ∷ s)
    pure (
        logs_answer (c ∷ s)
          (codes "AWS_Resources_Cluster"
            ∷ codes "AWS_terraform_k3s_provision"
            ∷ codes "AWS_configure_k3s"
            ∷ [])
          logs (length logs) (total_logs logs))

  unfoldable pub blobs_route : Text → Option Text → Action BlobsAnswer
  blobs_route dag_id limit = do
    blobs ← list_blobs_for_dag container dag_id (limit_of limit)
    pure (record { dag_id = dag_id; count = length blobs; blobs = blobs })
