-- ===== src/Storage.antt =====
-- The logs of DAG runs in the blob storage: src/azure-storage/azure-storage.service.ts and its
-- controller. The container is an argument, as is the server's time zone.
pub mod Dates
pub mod Controller
pub mod Runs
pub mod Blobs
use orchestronic_be.Base.{
  ℕ, Option, none, some, List, [], ◌∷◌, ◌++◌, Bool, true, false, ◌||◌, leb, suc, if◌then◌else◌,
}
use orchestronic_be.Base.Text.{Text, codes}
use orchestronic_be.Base.Decimal.{parse_int}
use orchestronic_be.Effects.Calls.{Call, BlobCall, History}
use orchestronic_be.Effects.Monad.{
  Exception, Outcome, returned, thrown, Action, pure, throw, perform, ◌>>=◌, ◌>>◌,
}
use orchestronic_be.Patterns.{match_log, contains, parse_run_id_to_date}
use orchestronic_be.Project.Deploy.{message_of}
use orchestronic_be.Session.{lift}
use orchestronic_be.Storage.Dates.{LocalTime, format_date}

-- What a loop over `listBlobsFlat` meets: names, then the end or a failure.
pub data Listing : Type 0 where
  done : Listing
  failed : Exception → Listing
  next : Text → Listing → Listing

pub record Container : Type 0 where
  pub list_blobs : Text → History → Listing
  -- the content, if the response has a stream
  pub download : Text → History → Outcome (Option Text)
  -- the local time of `new Date(iso)`, if that is a time, and of `new Date(0)`
  pub local_time : Option Text → Option LocalTime

pub record LogEntry : Type 0 where
  pub task_id : Text
  pub attempt : Option ℕ
  pub log : Text
  pub blob_path : Text

pub record RunLogs : Type 0 where
  pub dag_id : Text
  pub dag_name : Text
  pub run_exists : Bool
  pub run_id : Text
  -- the text of the time, none for the epoch
  pub timestamp : Option Text
  pub formatted_date : Text
  pub logs : List LogEntry

abbrev pub dag_prefix : Text → Text
dag_prefix dag_id = codes "dag_id=" ++ (dag_id ++ codes "/")

abbrev pub run_prefix : Text → Text → Text
run_prefix dag_id run_id = dag_prefix dag_id ++ (codes "run_id=" ++ (run_id ++ codes "/"))

-- The loop of `listBlobsForDag` with the names read so far counted; without a limit (NaN) the test
-- never holds.
unfoldable pub collect : Option ℕ → ℕ → Listing → Outcome (List Text)
collect max count done = returned []
collect max count (failed e) = thrown e
collect max count (next name rest) =
    let more = collect max (suc count) rest in
    elim max [
      | none ↦ elim more [ returned names ↦ returned (name ∷ names) | thrown e ↦ thrown e ]
      | some m ↦
          if leb m (suc count)
          then returned (name ∷ [])
          else elim more [ returned names ↦ returned (name ∷ names) | thrown e ↦ thrown e ]
    ]

-- An entry for a blob whose name matches.
abbrev pub entry_with : Text × Text → Text → Text → LogEntry
entry_with (task, number) log name = record {
  task_id = task;
  attempt = parse_int number;
  log = log;
  blob_path = name;
}

abbrev pub error_text : Exception → Text
error_text e = codes "ERROR: " ++ codes (message_of e)

module _ (container : Container) where
  unfoldable pub list_blobs_for_dag : Text → Option ℕ → Action (List Text)
  list_blobs_for_dag dag_id max = do
    listing ←
        perform (Call.blob (BlobCall.list_blobs (dag_prefix dag_id)))
          (λ h. returned (container.list_blobs (dag_prefix dag_id) h))
    lift (collect max 0 listing)

  abbrev pub download : Text → Action (Option Text)
  download name = perform (Call.blob (BlobCall.download name)) (container.download name)

  -- A failed download becomes an entry too.
  unfoldable pub exact_entry : Text → Text × Text → Action LogEntry
  exact_entry name m h =
      let (o, h') = download name h in
      elim o [
        | returned none ↦
            (returned (entry_with m (codes "ERROR: No readable stream available") name), h')
        | returned (some content) ↦ (returned (entry_with m content name), h')
        | thrown e ↦ (returned (entry_with m (error_text e) name), h')
      ]

  abbrev exact_logs : Text → Option (Text × Text) → Action (List LogEntry)
  exact_logs name none = pure []
  exact_logs name (some m) = do entry ← exact_entry name m; pure (entry ∷ [])

  -- The first loop: whether there was a blob, and the entries.
  unfoldable pub exact_loop : Listing → Action (Bool × List LogEntry)
  exact_loop done = pure (false, [])
  exact_loop (failed e) = throw e
  exact_loop (next name rest) = do
    entries ← exact_logs name (match_log name)
    more ← exact_loop rest
    pure (true, entries ++ more.1)

  -- In the second loop a download without a stream, or a failed one, leaves no entry.
  unfoldable pub broad_entry : Text → Text × Text → Action (List LogEntry)
  broad_entry name m h =
      let (o, h') = download name h in
      elim o [
        | returned none ↦ (returned [], h')
        | returned (some content) ↦ (returned (entry_with m content name ∷ []), h')
        | thrown e ↦ (returned [], h')
      ]

  abbrev broad_logs : Text → Option (Text × Text) → Action (List LogEntry)
  broad_logs name none = pure []
  broad_logs name (some m) = broad_entry name m

  unfoldable pub broad_loop : Text → Listing → Action (Bool × List LogEntry)
  broad_loop run_id done = pure (false, [])
  broad_loop run_id (failed e) = throw e
  broad_loop run_id (next name rest) = do
    entries ← if contains run_id name then broad_logs name (match_log name) else pure []
    more ← broad_loop run_id rest
    pure (contains run_id name || more.0, entries ++ more.1)

  abbrev broad_if_none : Text → Text → Bool × List LogEntry → Action (Bool × List LogEntry)
  broad_if_none dag_id run_id (true, logs) = pure (true, logs)
  broad_if_none dag_id run_id (false, logs) = do
    listing ←
        perform (Call.blob (BlobCall.list_blobs (dag_prefix dag_id)))
          (λ h. returned (container.list_blobs (dag_prefix dag_id) h))
    broad_loop run_id listing

  -- The body of the `try`.
  unfoldable pub find_logs : Text → Text → Action (Bool × List LogEntry)
  find_logs dag_id run_id = do
    listing ←
        perform (Call.blob (BlobCall.list_blobs (run_prefix dag_id run_id)))
          (λ h. returned (container.list_blobs (run_prefix dag_id run_id) h))
    exact ← exact_loop listing
    broad_if_none dag_id run_id exact

  abbrev pub found_logs : Text → Text → Text → Bool × List LogEntry → RunLogs
  found_logs run_id dag_id dag_name (found, logs) = record {
    dag_id = dag_id;
    dag_name = dag_name;
    run_exists = found;
    run_id = run_id;
    timestamp = parse_run_id_to_date run_id;
    formatted_date =
        if found
        then format_date (container.local_time (parse_run_id_to_date run_id))
        else codes "N/A";
    logs = logs;
  }

  abbrev pub failed_logs : Text → Text → Text → Exception → RunLogs
  failed_logs run_id dag_id dag_name e = record {
    dag_id = dag_id;
    dag_name = dag_name;
    run_exists = false;
    run_id = run_id;
    timestamp = parse_run_id_to_date run_id;
    formatted_date = codes "Error";
    logs =
        record {
          task_id = codes "error";
          attempt = some 0;
          log = error_text e;
          blob_path = codes "N/A";
        }
        ∷ [];
  }

  unfoldable pub logs_of_dag : Text → Text × Text → Action RunLogs
  logs_of_dag run_id (dag_id, dag_name) h =
      let (o, h') = find_logs dag_id run_id h in
      elim o [
        | returned found ↦ (returned (found_logs run_id dag_id dag_name found), h')
        | thrown e ↦ (returned (failed_logs run_id dag_id dag_name e), h')
      ]

  unfoldable pub logs_of_dags : Text → List (Text × Text) → Action (List RunLogs)
  logs_of_dags run_id [] = pure []
  logs_of_dags run_id (dag ∷ dags) = do
    logs ← logs_of_dag run_id dag
    more ← logs_of_dags run_id dags
    pure (logs ∷ more)

-- The three DAGs with their names.
abbrev pub target_dags : List (Text × Text)
target_dags =
    (codes "AWS_Resources_Cluster", codes "AWS Resources Cluster")
    ∷ (codes "AWS_terraform_k3s_provision", codes "AWS Terraform K3s Provision")
    ∷ (codes "AWS_configure_k3s", codes "AWS Configure K3s")
    ∷ []

unfoldable pub get_logs_for_specific_run_across_dags : Container → Text → Action (List RunLogs)
get_logs_for_specific_run_across_dags container run_id = logs_of_dags container run_id target_dags

-- The limit of the route: `parseInt` of a text without a minus sign, 20 if it is left out or empty.
abbrev pub limit_of : Option Text → Option ℕ
limit_of none = some 20
limit_of (some []) = some 20
limit_of (some (c ∷ s)) = parse_int (c ∷ s)
