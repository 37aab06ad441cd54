-- ===== src/Tests/Clusters.antt =====
-- Clusters that are asked for, approved and deployed to.
use orchestronic_be.Base.{none, some, [], ◌∷◌, ◌≡◌, ◌↔◌, refl, true}
use orchestronic_be.Base.Text.{codes, trim, trim_start, remove_quotes}
use orchestronic_be.Schema.{Role, Status, CloudProvider, UserRow, ClusterRow, ClusterRequestRow}
use orchestronic_be.Effects.Data.{UserKey}
use orchestronic_be.Effects.Monad.{Exception, returned, thrown, data_of}
use orchestronic_be.Gitlab.{get_project_by_name, get_image_from_registry}
use orchestronic_be.Messaging.{queue_resource, trigger_dag}
use orchestronic_be.Cloudflare.{CloudflareApi}
use orchestronic_be.Project.Tables.{ClusterTables}
use orchestronic_be.Project.Outside.{ProjectOutside}
use orchestronic_be.Project.Cluster.{
  CreateClusterResourceDto, provider_of, create_for, create_cluster, start_cluster,
  update_cluster_request_status,
}
use orchestronic_be.Project.Cluster.Creation.{ClusterResult, create_cluster-ClusterResult}
use orchestronic_be.Project.Cluster.Approval.{StatusSet, update_cluster_request_status-StatusSet}
use orchestronic_be.Project.Deploy.{
  AddRepositoryToK8sClusterDto, named_provider, wildcard_of, clean_name, host_of, host_name,
  automate_k8s_deployment, register_dns, register_if_known, chosen_cluster, deploy_and_keep,
  deploy_azure, deploy_with, deploy_to_k8s_cluster, dns_params,
}
use orchestronic_be.Project.Deploy.Order.{deploy_to_k8s_cluster-Ended, DeploymentEnd}
use orchestronic_be.Project.Deploy.Hosts.{NoDots, Covers, covered_iff, hosts_covered}
use orchestronic_be.Session.{Session, rejected, json_web_token}
use orchestronic_be.Project.Controller.{deploy_route}
use orchestronic_be.Project.Controller.Access.{deploy_any_token}
use orchestronic_be.Tests.World.{
  session, shop, db, gitlab, airflow, broken_airflow, azure_resources, caller,
}

abbrev cluster_request : Status → ClusterRequestRow
cluster_request status = record {
  id = "creq";
  owner_id = "alice";
  resource_id = "res";
  status = status;
}

-- The quotes are part of the stored name.
abbrev quoted_cluster : ClusterRow
quoted_cluster = record {
  id = "cluster";
  cluster_name = "'main'";
  node_count = 2;
  node_size = "t3.medium";
  terraform_state = none;
  kube_config = some "yaml";
  address = some "10.0.0.1";
  resource_config_id = "config";
}

abbrev tables : ClusterTables
tables = record {
  resources_unique = λ id h. returned (some azure_resources);
  resources_in = λ ids h. returned (azure_resources ∷ []);
  resources_of_config = λ id h. returned (some azure_resources);
  resource_config_unique = λ id h. returned (some (record { id = "config" }));
  cluster_unique = λ p id h. returned (some quoted_cluster);
  clusters_of_config = λ p id h. returned (quoted_cluster ∷ []);
  cluster_request_unique = λ id h. returned (some (cluster_request Status.pending));
  cluster_request_many = λ w h. returned (cluster_request Status.pending ∷ []);
  image_deployment_of = λ id h. returned none;
  clusters_owned = λ p owner h. returned [];
  resource_config_many = λ id h. returned [];
  create_cluster_request = λ owner resource h. returned (cluster_request Status.pending);
  update_cluster_request = λ id status h. returned (cluster_request status);
  create_image_deployment = λ d h. returned (record {
    repository_id = d.repository_id;
    hosted_url = d.hosted_url;
    image_url = d.image_url;
  });
}

-- No DNS record can be read or written.
abbrev no_dns : CloudflareApi
no_dns = record {
  search_record = λ n h. thrown (Exception.client_error "403");
  post_record = λ b h. thrown (Exception.client_error "403");
  put_record = λ id b h. thrown (Exception.client_error "403");
}

abbrev out : ProjectOutside
out = record {
  db = db;
  tables = tables;
  gitlab = gitlab;
  airflow = airflow;
  cloudflare = no_dns;
  initialize = λ r h. data_of (some (record { success = true }));
  parse_yaml = λ text. returned text;
  edge_public_ip = λ text. returned (some "10.0.0.1");
}

abbrev dto : CreateClusterResourceDto
dto = record {
  name = "group";
  cloud_provider = some (codes "azure");
  region = "east";
  cluster = some [];
}

cluster_made :
    (create_cluster out (caller Role.developer) dto []).0
    ≡ returned (some (cluster_request Status.pending))
unfolding create_cluster create_for provider_of
cluster_made = refl

create_cluster-ClusterResult_example :
    (owner : UserRow) × (db.user_unique (UserKey.by_id (some "alice")) [] ≡ returned (some owner))
    × ClusterResult out
        (caller Role.developer)
        dto
        (provider_of (some (codes "azure")))
        (some (cluster_request Status.pending))
        owner.id
        []
        (create_cluster out (caller Role.developer) dto []).1
create_cluster-ClusterResult_example =
    create_cluster-ClusterResult out (caller Role.developer) dto []
      (some (cluster_request Status.pending)) cluster_made

status_set :
    (update_cluster_request_status out (caller Role.admin) "creq" Status.approved []).0
    ≡ returned "creq"
unfolding update_cluster_request_status start_cluster queue_resource trigger_dag
status_set = refl

update_cluster_request_status-StatusSet_example :
    StatusSet out
      (caller Role.admin)
      "creq"
      Status.approved
      []
      "creq"
      (update_cluster_request_status out (caller Role.admin) "creq" Status.approved []).1
update_cluster_request_status-StatusSet_example =
    update_cluster_request_status-StatusSet out (caller Role.admin) "creq" Status.approved [] "creq"
      status_set

abbrev broken_out : ProjectOutside
broken_out = record out { airflow = broken_airflow }

abbrev deployment : AddRepositoryToK8sClusterDto
deployment = record {
  repository_id = "repo";
  provider = "AZURE";
  cluster_id = "cluster";
  port = 80;
  use_private_registry = none;
}

-- The database of `World` knows no repository yet; this one has the shop.
abbrev shop_out : ProjectOutside
shop_out = record out { db = record db { repository_unique = λ k h. returned (some shop) } }

deployed :
    (deploy_to_k8s_cluster shop_out deployment []).0
    ≡ returned (some (codes "shop.'main'.orchestronic.dev"))
unfolding deploy_to_k8s_cluster get_project_by_name get_image_from_registry deploy_with
    named_provider deploy_azure chosen_cluster register_if_known register_dns deploy_and_keep
    automate_k8s_deployment host_name
deployed = refl

deploy_to_k8s_cluster-Ended_example :
    DeploymentEnd shop_out deployment [] (some (codes "shop.'main'.orchestronic.dev"))
deploy_to_k8s_cluster-Ended_example =
    deploy_to_k8s_cluster-Ended shop_out deployment [] (some (codes "shop.'main'.orchestronic.dev"))
      deployed

-- The name of the repository has no dot.
one_label : NoDots (codes "shop")
one_label = (refl, (refl, (refl, (refl, tt))))

hosts_covered_example :
    Covers
      (dns_params quoted_cluster "10.0.0.1").fqdn
      (host_of shop (host_name CloudProvider.aws quoted_cluster))
    × (Covers
          (dns_params quoted_cluster "10.0.0.1").fqdn
          (host_of shop (host_name CloudProvider.azure quoted_cluster))
        ↔ (remove_quotes (trim (codes "'main'")) ≡ codes "'main'"))
hosts_covered_example = hosts_covered quoted_cluster shop "10.0.0.1" one_label tt

-- With quotes in its name an Azure cluster gets a record that does not cover its hosts.
azure_uncovered :
    ¬ Covers
      (wildcard_of (clean_name quoted_cluster))
      (host_of shop (host_name CloudProvider.azure quoted_cluster))
unfolding host_name trim trim_start remove_quotes
azure_uncovered c =
    let e = (covered_iff CloudProvider.azure quoted_cluster shop one_label tt).0 c in cc

-- A cookie that no secret verifies.
abbrev forged_session : Session
forged_session = record {
  access_token = some "forged";
  jwt_secret = some "secret";
  verify = λ token secret. rejected (json_web_token "invalid signature");
}

deploy_any_token_example :
    deploy_route shop_out forged_session deployment []
    ≡ deploy_route shop_out (session Role.admin) deployment []
deploy_any_token_example =
    deploy_any_token shop_out forged_session (session Role.admin) deployment [] refl refl
