-- ===== src/Project/Outside.antt =====
-- Everything that the project service calls.
use orchestronic_be.Base.{Bool, String, Option}
use orchestronic_be.Effects.Calls.{History, DeployRequest}
use orchestronic_be.Effects.Monad.{Outcome, AxiosReply}
use orchestronic_be.Effects.Prisma.{Prisma}
use orchestronic_be.Gitlab.{GitlabApi}
use orchestronic_be.Messaging.{AirflowApi}
use orchestronic_be.Cloudflare.{CloudflareApi}
use orchestronic_be.Project.Tables.{ClusterTables}

-- `success` of the answer of the service that automates Kubernetes.
pub record DeployResponse : Type 0 where
  pub success : Bool

pub record ProjectOutside : Type 0 where
  pub db : Prisma
  pub tables : ClusterTables
  pub gitlab : GitlabApi
  pub airflow : AirflowApi
  pub cloudflare : CloudflareApi
  -- the POST of src/k8sautomation/k8sautomation.service.ts; the data may be null
  pub initialize : DeployRequest → History → AxiosReply (Option DeployResponse)
  -- the `yaml` library on a kubeconfig
  pub parse_yaml : String → Outcome String
  -- `JSON.parse` of a cluster endpoint, and the field `edge_public_ip` of the result
  pub edge_public_ip : String → Outcome (Option String)
