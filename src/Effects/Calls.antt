-- ===== src/Effects/Calls.antt =====
-- Every call that leaves the process, as data.
use orchestronic_be.Base.Text.{Text}
use orchestronic_be.Base.{ℕ, String, List, [], ◌∷◌, ◌++◌, Bool, Option}
use orchestronic_be.Schema.{RepositoryStatus, GitlabId, CloudProvider, Status}
use orchestronic_be.Effects.Data.{
  UserKey, UserWhere, RepositoryKey, RequestWhere, RequestKey, ResourceConfigCreate,
  ResourcesCreate, RepositoryCreate, RepositoryConnect, RequestCreate, RequestPatch, CatalogueWhere,
  ImageDeploymentCreate, UserCreate, UserPatch, PolicyTable, PolicyData, SecretData, CountOf,
  CookieChange,
}

-- Queries of the Prisma client: they change no table.
pub data Query : Type 0 where
  user_unique : UserKey → Query
  user_many : UserWhere → Query
  repository_unique : RepositoryKey → Query
  request_unique : RequestKey → Query
  request_many : RequestWhere → Query
  request_latest : Query
  resources_unique : String → Query
  resources_in : List String → Query
  resources_of_config : String → Query
  resource_config_unique : String → Query
  cluster_unique : CloudProvider → String → Query
  clusters_of_config : CloudProvider → Option String → Query
  cluster_request_unique : String → Query
  cluster_request_many : RequestWhere → Query
  image_deployment_of : String → Query
  catalogue_count : CatalogueWhere → Query
  catalogue_page : CatalogueWhere → ℕ → ℕ → Query
  -- the second takes the text that the address contains
  user_all : Query
  user_fuzzy : String → Query
  repository_all : Query
  repository_in : List String → Query
  request_first : String → Query
  -- the resources of the requests of an owner, or all
  resources_owned : Option String → Query
  resource_config_many : String → Query
  clusters_owned : CloudProvider → Option String → Query
  -- the first row, or the first with this name
  policy_first : PolicyTable → Option String → Query
  secret_first : Option String → Option CloudProvider → Query
  count : CountOf → Query

-- Statements of the Prisma client that change a table.
pub data Write : Type 0 where
  create_resource_config : ResourceConfigCreate → Write
  create_resources : ResourcesCreate → Write
  create_repository : RepositoryCreate → Write
  create_repository_connecting : RepositoryConnect → Write
  create_request : RequestCreate → Write
  update_request : String → RequestPatch → Write
  delete_request : String → Write
  update_repository : String → RepositoryStatus → Write
  create_cluster_request : String → String → Write
  update_cluster_request : String → Status → Write
  create_image_deployment : ImageDeploymentCreate → Write
  create_user : UserCreate → Write
  update_user : Option String → UserPatch → Write
  -- by its name
  delete_repository : String → Write
  create_policy update_policy : PolicyTable → PolicyData → Write
  -- the owner of the secret, and the id and the owner that it must have; an owner that is undefined
  -- is no condition
  create_secret : Option String → SecretData → Write
  update_secret : String → Option String → SecretData → Write
  delete_secret : String → Option String → Write

-- The patterns of the RabbitMQ messages.
pub data Pattern : Type 0 where
  request destroy resource destroy_k8s : Pattern

-- Requests to the GitLab API.
pub data GitlabCall : Type 0 where
  -- GET /users?username=, /users, /projects?search= (encoded or not), /projects/:id/registry/…
  get_user : String → GitlabCall
  get_users get_all_projects : GitlabCall
  get_projects get_projects_raw : String → GitlabCall
  get_registry : ℕ → GitlabCall
  -- POST /projects, /projects/user/:id, /users/:id/approve, /users/:id/reject,
  -- /projects/:id/members, and DELETE /projects/:id
  post_project : String → String → GitlabCall
  post_project_for : ℕ → String → String → GitlabCall
  post_approve post_reject : ℕ → GitlabCall
  post_member : ℕ → GitlabId → GitlabCall
  delete_project : ℕ → GitlabCall

-- The body of a POST or PUT of a DNS record of type A.
pub record RecordBody : Type 0 where
  pub name : Text
  pub content : Text
  pub proxied : Bool
  pub ttl : ℕ

-- GET requests to the Airflow API: the runs of a DAG, a task of a run, the logs of a task, the event
-- log and the list of DAGs.
pub data AirflowCall : Type 0 where
  get_latest_run : String → AirflowCall
  get_tasks : String → String → AirflowCall
  get_task : String → String → String → AirflowCall
  get_logs get_full_logs : String → String → String → ℕ → AirflowCall
  get_event_logs : AirflowCall
  get_dags : ℕ → ℕ → AirflowCall

-- Reads of the blob storage: the names with a prefix, one at a time, and the content of a blob.
pub data BlobCall : Type 0 where
  list_blobs : Text → BlobCall
  download : Text → BlobCall

-- Requests to the Cloudflare API: GET ?type=A&name=, POST, and PUT of a record.
pub data CloudflareCall : Type 0 where
  search_record : Text → CloudflareCall
  post_record : RecordBody → CloudflareCall
  put_record : String → RecordBody → CloudflareCall

-- The body of the POST that deploys an image to a cluster
-- (src/k8sautomation/dto/request/create-deploy-request.dto.ts).
pub record DeployRequest : Type 0 where
  pub name : String
  pub host : Text
  pub image : String
  pub port : ℕ
  pub use_private_registry : Bool
  pub kube_config : String

pub data Call : Type 0 where
  read : Query → Call
  write : Write → Call
  emit : Pattern → String → Call
  gitlab : GitlabCall → Call
  -- a POST that triggers an Airflow DAG
  dag_run : String → Call
  airflow : AirflowCall → Call
  blob : BlobCall → Call
  -- a GET of the price of a machine size in a region
  price : String → String → Call
  cloudflare : CloudflareCall → Call
  -- `res.cookie` or `res.clearCookie`
  cookie : CookieChange → Call
  -- a POST to the service that automates Kubernetes
  initialize : DeployRequest → Call

-- The calls so far, the latest first.
abbrev pub History : Type 0
History = List Call

-- The calls that change something outside; queries and GET requests do not.
abbrev pub effect : Call → List Call
effect (Call.read _) = []
effect (Call.gitlab (GitlabCall.get_user _)) = []
effect (Call.gitlab GitlabCall.get_users) = []
effect (Call.gitlab GitlabCall.get_all_projects) = []
effect (Call.gitlab (GitlabCall.get_projects _)) = []
effect (Call.gitlab (GitlabCall.get_projects_raw _)) = []
effect (Call.gitlab (GitlabCall.get_registry _)) = []
effect (Call.cloudflare (CloudflareCall.search_record _)) = []
effect (Call.airflow _) = []
effect (Call.blob _) = []
effect (Call.price _ _) = []
effect c = c ∷ []

-- The effects of a history, the latest first.
abbrev pub effects : History → List Call
effects [] = []
effects (c ∷ h) = effect c ++ effects h

-- The messages to the workers (RabbitMQ) and the DAG runs (Airflow) among them.
abbrev pub message : Call → List Call
message (Call.emit p id) = Call.emit p id ∷ []
message (Call.dag_run d) = Call.dag_run d ∷ []
message _ = []

abbrev pub messages : History → List Call
messages [] = []
messages (c ∷ h) = message c ++ messages h
