-- ===== src/Storage/Runs.antt =====
-- The logs of a run always come for the three DAGs.
use orchestronic_be.Base.{List, [], ◌∷◌, ◌≡◌, inl, inr, refl, arith}
use orchestronic_be.Base.Text.{Text}
use orchestronic_be.Effects.Calls.{History}
use orchestronic_be.Effects.Monad.{returned, Outcome-cases}
use orchestronic_be.Patterns.{parse_run_id_to_date}
use orchestronic_be.Storage.{
  Container, RunLogs, found_logs, failed_logs, find_logs, logs_of_dag, logs_of_dags, target_dags,
  get_logs_for_specific_run_across_dags,
}

module _ (container : Container) (run_id : Text) where
  -- What is said of one DAG: its id, the run, the time in it, and no run and an error in the logs if
  -- a listing failed.
  pub record Reported (dag : Text × Text) (logs : RunLogs) : Type 0 where
    pub same_dag : logs.dag_id ≡ dag.0
    pub same_name : logs.dag_name ≡ dag.1
    pub same_run : logs.run_id ≡ run_id
    pub time : logs.timestamp ≡ parse_run_id_to_date run_id

  logs_of_dag-Reported :
      (dag : Text × Text) (h : History)
      → (logs : RunLogs) × ((logs_of_dag container run_id dag h).0 ≡ returned logs)
        × Reported dag logs
  unfolding logs_of_dag
  logs_of_dag-Reported (id, name) h = elim (Outcome-cases (find_logs container id run_id h).0) [
    | inl (found, q) ↦ (
      found_logs container run_id id name found,
      ground arith,
      record { same_dag = refl; same_name = refl; same_run = refl; time = refl },
    )
    | inr (e, q) ↦ (
      failed_logs container run_id id name e,
      ground arith,
      record { same_dag = refl; same_name = refl; same_run = refl; time = refl },
    )
  ]

  -- One report for each DAG, in the order of the DAGs.
  pub data AllReported : List (Text × Text) → List RunLogs → Type 0 where
    done : AllReported [] []
    next :
        {dag : Text × Text} {dags : List (Text × Text)} {l : RunLogs} {ls : List RunLogs}
        → Reported dag l
        → AllReported dags ls
        → AllReported (dag ∷ dags) (l ∷ ls)

  logs_of_dags-AllReported :
      (dags : List (Text × Text)) (h : History)
      → (logs : List RunLogs) × ((logs_of_dags container run_id dags h).0 ≡ returned logs)
        × AllReported dags logs
  unfolding logs_of_dags
  logs_of_dags-AllReported [] h = ([], refl, done)
  logs_of_dags-AllReported (dag ∷ dags) h =
      let (l, q, r) = logs_of_dag-Reported dag h in
      let (ls, q', r') = logs_of_dags-AllReported dags (logs_of_dag container run_id dag h).1 in
      (l ∷ ls, ground arith, next r r')

  -- Whatever the storage answers, failures of a listing or a download included, the call for the
  -- logs of a run returns, with one report for each of the three DAGs, in order.
  pub logs-AllReported :
      (h : History)
      → (logs : List RunLogs) × ((get_logs_for_specific_run_across_dags container run_id h).0
          ≡ returned logs)
        × AllReported target_dags logs
  unfolding get_logs_for_specific_run_across_dags
  logs-AllReported h = logs_of_dags-AllReported target_dags h
