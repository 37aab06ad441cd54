-- ===== src/Project/Deploy/Kept.antt =====
-- The end of a deployment: the image is deployed, and then the deployment is kept.
use orchestronic_be.Base.{
  String, Option, none, some, List, [], ◌∷◌, ◌++◌, ◌≡◌, refl, arith, inl, inr, true, Bool-cases,
}
use orchestronic_be.Base.Text.{Text}
use orchestronic_be.Schema.{CloudProvider, RepositoryRow, ClusterRow}
use orchestronic_be.Effects.Data.{ImageDeploymentCreate}
use orchestronic_be.Effects.Calls.{Call, Write, History, effect}
use orchestronic_be.Effects.Monad.{returned, data_of, AxiosReply-cases, Keeps}
use orchestronic_be.Cloudflare.{upsert_a_record}
use orchestronic_be.Project.Outside.{ProjectOutside, DeployResponse}
use orchestronic_be.Project.Deploy.{
  AddRepositoryToK8sClusterDto, host_name, host_of, deploy_request, automate_k8s_deployment,
  register_dns, register_if_known, deploy_and_keep,
}

-- The effects of a history other than the requests to Cloudflare.
abbrev pub beyond_dns : History → List Call
beyond_dns [] = []
beyond_dns (Call.cloudflare _ ∷ h) = beyond_dns h
beyond_dns (c ∷ h) = effect c ++ beyond_dns h

module _ (out : ProjectOutside) where
  pub register_dns-Keeps :
      (cluster : ClusterRow) (ip : String) → Keeps beyond_dns (register_dns out cluster ip)
  unfolding register_dns upsert_a_record
  register_dns-Keeps cluster ip h = ground arith

  pub register_dns-returned :
      (cluster : ClusterRow) (ip : String) (h : History)
      → (register_dns out cluster ip h).0 ≡ returned tt
  unfolding register_dns
  register_dns-returned cluster ip h = refl

  pub register_if_known-Keeps :
      (cluster : ClusterRow) (o : Option String)
      → Keeps beyond_dns (register_if_known out cluster o)
  unfolding register_if_known
  register_if_known-Keeps cluster none h = refl
  register_if_known-Keeps cluster (some ip) h = register_dns-Keeps cluster ip h

  -- The failure of a registration is not seen.
  pub register_if_known-returned :
      (cluster : ClusterRow) (o : Option String) (h : History)
      → (register_if_known out cluster o h).0 ≡ returned tt
  unfolding register_if_known register_dns
  register_if_known-returned cluster none h = refl
  register_if_known-returned cluster (some ip) h = refl

  module _ (request : AddRepositoryToK8sClusterDto) (provider : CloudProvider)
      (repository : RepositoryRow) (image : String) where
    -- The deployment that is kept.
    abbrev kept_data : ClusterRow → ImageDeploymentCreate
    kept_data cluster = record {
      repository_id = request.repository_id;
      provider = provider;
      cluster_id = cluster.id;
      hosted_url = host_of repository (host_name provider cluster);
      image_url = image;
    }

    -- The image was deployed to the cluster, with success, and then the deployment was kept.
    pub record Kept (cluster : ClusterRow) (kube_config : String) (h h' : History) (host : Text)
        : Type 0 where
      pub response : DeployResponse
      pub same_host : host ≡ host_of repository (host_name provider cluster)
      pub answered :
          out.initialize (deploy_request out request repository image host kube_config) h
          ≡ data_of (some response)
      pub succeeded : response.success ≡ true
      pub written :
          beyond_dns h'
          ≡ Call.write (Write.create_image_deployment (kept_data cluster))
            ∷ Call.initialize (deploy_request out request repository image host kube_config)
            ∷ beyond_dns h

    pub deploy_and_keep-Kept :
        (cluster : ClusterRow) (kube_config : String) (h : History) (host : Text)
        → (deploy_and_keep out request provider repository image cluster kube_config h).0
          ≡ returned host
        → Kept cluster kube_config h
            (deploy_and_keep out request provider repository image cluster kube_config h).1
            host
    unfolding deploy_and_keep automate_k8s_deployment
    deploy_and_keep-Kept cluster kube_config h host e =
        let host' = host_of repository (host_name provider cluster) in
        elim (AxiosReply-cases
          (out.initialize (deploy_request out request repository image host' kube_config) h)) [
            | inr (c, q) ↦ absurd (ground arith)
            | inl (none, q) ↦ absurd (ground arith)
            | inl (some row, q) ↦ elim (Bool-cases row.success) [
              | inr bad ↦ absurd (ground arith)
              | inl good ↦
                  let same : host ≡ host' = ground arith in
                  record {
                    response = row;
                    same_host = same;
                    answered = rw same q;
                    succeeded = good;
                    written = rw same (ground arith);
                  }
            ]
          ]
