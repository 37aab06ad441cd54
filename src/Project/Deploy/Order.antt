-- ===== src/Project/Deploy/Order.antt =====
-- A deployment is kept in the database after it succeeded, and only then.
use orchestronic_be.Gitlab.Found.{
  FoundProject, FoundImage, get_project_by_name-FoundProject, get_image_from_registry-FoundImage,
  get_project_by_name-calls, get_image_from_registry-calls,
}
use mathlib.Core.Path.{subst}
use orchestronic_be.Base.{
  String, Option, none, some, ◌∷◌, ◌≡◌, refl, sym, ap, ◌∙◌, arith, inl, inr, Option-cases,
}
use orchestronic_be.Base.Text.{Text}
use orchestronic_be.Schema.{CloudProvider, RepositoryRow, ClusterRow}
use orchestronic_be.Effects.Data.{RepositoryKey}
use orchestronic_be.Effects.Calls.{Call, Query, History, GitlabCall}
use orchestronic_be.Effects.Monad.{Outcome, returned, Outcome-cases, Keeps, Action}
use orchestronic_be.Gitlab.{
  get_project_by_name, get_image_from_registry, GitlabProject, RegistryImage,
}
use orchestronic_be.Project.Outside.{ProjectOutside}
use orchestronic_be.Project.Deploy.{
  AddRepositoryToK8sClusterDto, named_provider, present, register_dns, register_if_known,
  chosen_cluster, deploy_and_keep, deploy_azure, deploy_aws, deploy_on, deploy_with,
  deploy_to_k8s_cluster, bad_request_with, image_of,
}
use orchestronic_be.Project.Deploy.Kept.{
  beyond_dns, Kept, register_dns-Keeps, register_dns-returned, register_if_known-Keeps,
  register_if_known-returned, deploy_and_keep-Kept,
}

module _ (out : ProjectOutside) where
  module _ (request : AddRepositoryToK8sClusterDto) (provider : CloudProvider)
      (repository : RepositoryRow) (image : String) where
    -- The row of the cluster that the request names, among those of the provider, and its
    -- kubeconfig as the parser reads it.
    pub record Chosen (h : History) (cluster : ClusterRow) (kube_config : String) : Type 0 where
      pub yaml : String
      pub found : out.tables.cluster_unique provider request.cluster_id h ≡ returned (some cluster)
      pub stored : present cluster.kube_config ≡ some yaml
      pub parsed : out.parse_yaml yaml ≡ returned kube_config

    chosen_cluster-Chosen :
        (h : History) (cluster : ClusterRow) (yaml kube_config : String)
        → (chosen_cluster out request provider h).0 ≡ returned (cluster, yaml)
        → out.parse_yaml yaml ≡ returned kube_config
        → Chosen h cluster kube_config
    unfolding chosen_cluster
    chosen_cluster-Chosen h cluster yaml kube_config e p =
        elim (Outcome-cases (out.tables.cluster_unique provider request.cluster_id h)) [
          | inr (x, q) ↦ absurd (ground arith)
          | inl (none, q) ↦ absurd (ground arith)
          | inl (some row, q) ↦ elim (Option-cases (present row.kube_config)) [
            | inl n ↦ absurd (ground arith)
            | inr (text, n) ↦
                let same : ◌≡◌ {A = ClusterRow × String} (row, text) (cluster, yaml) =
                  ground arith in
                let one : row ≡ cluster = ap (λ x. x.0) same in
                let two : text ≡ yaml = ap (λ x. x.1) same in
                record { yaml = yaml; found = rw one at q; stored = rw (one, two) at n; parsed = p }
          ]
        ]

    -- A branch came to its end with this cluster and kubeconfig, and reached nothing else but
    -- Cloudflare before.
    record Reached (run : Outcome Text × History) (h : History) : Type 0 where
      cluster : ClusterRow
      kube_config : String
      chosen : Chosen h cluster kube_config
      before : History
      quiet : beyond_dns before ≡ beyond_dns h
      same : run ≡ deploy_and_keep out request provider repository image cluster kube_config before

  module _ (request : AddRepositoryToK8sClusterDto) (repository : RepositoryRow)
      (image : String) where
    chosen_cluster-Keeps : (p : CloudProvider) → Keeps beyond_dns (chosen_cluster out request p)
    unfolding chosen_cluster
    chosen_cluster-Keeps p h = ground arith

    deploy_azure-Reached :
        (h : History) (host : Text)
        → (deploy_azure out request repository image h).0 ≡ returned host
        → Reached request CloudProvider.azure repository image
            (deploy_azure out request repository image h)
            h
    unfolding deploy_azure
    deploy_azure-Reached h host e =
        let k = (chosen_cluster out request CloudProvider.azure h).1 in
        elim (Outcome-cases (chosen_cluster out request CloudProvider.azure h).0) [
          | inr (x, q) ↦ absurd (ground arith)
          | inl ((cluster, yaml), q) ↦ elim (Outcome-cases (out.parse_yaml yaml)) [
            | inr (x, q') ↦ absurd (ground arith)
            | inl (kube_config, q') ↦
                let done = register_if_known-returned out cluster (present cluster.address) k in
                record {
                  cluster = cluster;
                  kube_config = kube_config;
                  chosen =
                      chosen_cluster-Chosen request CloudProvider.azure repository image h cluster
                        yaml kube_config q q';
                  before = (register_if_known out cluster (present cluster.address) k).1;
                  quiet =
                      register_if_known-Keeps out cluster (present cluster.address) k
                      ∙ chosen_cluster-Keeps CloudProvider.azure h;
                  same = ground arith;
                }
          ]
        ]

    deploy_aws-Reached :
        (h : History) (host : Text)
        → (deploy_aws out request repository image h).0 ≡ returned host
        → Reached request CloudProvider.aws repository image
            (deploy_aws out request repository image h)
            h
    unfolding deploy_aws
    deploy_aws-Reached h host e =
        let k = (chosen_cluster out request CloudProvider.aws h).1 in
        elim (Outcome-cases (chosen_cluster out request CloudProvider.aws h).0) [
          | inr (x, q) ↦ absurd (ground arith)
          | inl ((cluster, yaml), q) ↦ elim (Option-cases (present cluster.address)) [
            | inl n ↦ absurd (ground arith)
            | inr (endpoint, n) ↦ elim (Outcome-cases (out.edge_public_ip endpoint)) [
              | inr (x, p) ↦ absurd (ground arith)
              | inl (field, p) ↦ elim (Option-cases (present field)) [
                | inl m ↦ absurd (ground arith)
                | inr (ip, m) ↦ elim (Outcome-cases (out.parse_yaml yaml)) [
                  | inr (x, q') ↦
                      absurd (let d = register_dns-returned out cluster ip k in ground arith)
                  | inl (kube_config, q') ↦ record {
                    cluster = cluster;
                    kube_config = kube_config;
                    chosen =
                        chosen_cluster-Chosen request CloudProvider.aws repository image h cluster
                          yaml kube_config q q';
                    before = (register_dns out cluster ip k).1;
                    quiet =
                        register_dns-Keeps out cluster ip k
                        ∙ chosen_cluster-Keeps CloudProvider.aws h;
                    same = (let d = register_dns-returned out cluster ip k in ground arith);
                  }
                ]
              ]
            ]
          ]
        ]

    -- A branch that gave back a host deployed the image to the cluster of the request with success
    -- and then kept the deployment, and changed nothing else but DNS records.
    pub record Deployed (p : CloudProvider) (h h' : History) (host : Text) : Type 0 where
      pub cluster : ClusterRow
      pub kube_config : String
      pub chosen : Chosen request p repository image h cluster kube_config
      pub before : History
      pub quiet : beyond_dns before ≡ beyond_dns h
      pub kept : Kept out request p repository image cluster kube_config before h' host

    Reached-Deployed :
        (p : CloudProvider) (h : History) (host : Text) (run : Outcome Text × History)
        → Reached request p repository image run h
        → run.0 ≡ returned host
        → Deployed p h run.1 host
    Reached-Deployed p h host run r e = record {
      cluster = r.cluster;
      kube_config = r.kube_config;
      chosen = r.chosen;
      before = r.before;
      quiet = r.quiet;
      kept =
          subst (λ x. Kept out request p repository image r.cluster r.kube_config r.before x host)
            (sym (ap (λ x. x.1) r.same))
            (deploy_and_keep-Kept out request p repository image r.cluster r.kube_config r.before
              host (sym (ap (λ x. x.0) r.same) ∙ e));
    }

    deploy_on-Deployed :
        (p : CloudProvider) (h : History) (host : Text)
        → (deploy_on out request p repository image h).0 ≡ returned host
        → Deployed p h (deploy_on out request p repository image h).1 host
    deploy_on-Deployed CloudProvider.azure h host e =
        Reached-Deployed CloudProvider.azure h host (deploy_azure out request repository image h)
          (deploy_azure-Reached h host e) e
    deploy_on-Deployed CloudProvider.aws h host e =
        Reached-Deployed CloudProvider.aws h host (deploy_aws out request repository image h)
          (deploy_aws-Reached h host e) e

    -- What the call did, by the provider that is named and the result.
    abbrev pub Ended : Option CloudProvider → Option Text → History → History → Type 0
    Ended none none h h' = h' ≡ h
    Ended none (some host) h h' = ⊥
    Ended (some p) none h h' = ⊥
    Ended (some p) (some host) h h' = Deployed p h h' host

    deploy_with-Ended :
        (o : Option CloudProvider) (h : History) (r : Option Text)
        → (deploy_with out request o repository image h).0 ≡ returned r
        → Ended o r h (deploy_with out request o repository image h).1
    unfolding deploy_with
    deploy_with-Ended none h none e = refl
    deploy_with-Ended none h (some host) e = ground arith
    deploy_with-Ended (some p) h none e =
        elim (Outcome-cases (deploy_on out request p repository image h).0) [
          | inl (a, q) ↦ absurd (ground arith)
          | inr (x, q) ↦ absurd (ground arith)
        ]
    deploy_with-Ended (some p) h (some host) e =
        elim (Outcome-cases (deploy_on out request p repository image h).0) [
          | inl (a, q) ↦
              let same : a ≡ host = ground arith in
              subst (λ x. Deployed p h x host) (ground arith)
                (deploy_on-Deployed p h host (q ∙ ap returned same))
          | inr (x, q) ↦ absurd (ground arith)
        ]

  bad_request_with-returned :
      {A : Type 0} (what : String) (m : Action A) (h : History) (a : A)
      → (bad_request_with what m h).0 ≡ returned a
      → (m h).0 ≡ returned a
  bad_request_with-returned what m h a e = elim (Outcome-cases (m h).0) [
    | inr (x, q) ↦ absurd (ground arith)
    | inl (b, q) ↦ ground arith
  ]

  bad_request_with-calls :
      {A : Type 0} (what : String) (m : Action A) (h : History)
      → (bad_request_with what m h).1 ≡ (m h).1
  bad_request_with-calls what m h = elim (Outcome-cases (m h).0) [
    | inr (x, q) ↦ ground arith
    | inl (b, q) ↦ ground arith
  ]

  module _ (request : AddRepositoryToK8sClusterDto) (h : History) where
    -- The history after the three reads before the provider is looked at: the repository, the
    -- project and its registry.
    abbrev pub after_repository : History
    after_repository =
        Call.read (Query.repository_unique (RepositoryKey.by_id request.repository_id)) ∷ h

    abbrev pub after_project : RepositoryRow → History
    after_project r = Call.gitlab (GitlabCall.get_projects r.name) ∷ after_repository

    abbrev pub after_registry : RepositoryRow → GitlabProject → History
    after_registry r p = Call.gitlab (GitlabCall.get_registry p.id) ∷ after_project r

    -- The repository of the request, the project that GitLab finds first under its name, and the
    -- image that comes first in the registry of that project, with a name and a place.
    pub record Sources (repository : RepositoryRow) (project : GitlabProject) (image : String)
        : Type 0 where
      pub found :
          out.db.repository_unique (RepositoryKey.by_id request.repository_id) h
          ≡ returned (some repository)
      pub project_found : FoundProject out.gitlab repository.name after_repository project
      pub entry : RegistryImage
      pub entry_found : FoundImage out.gitlab project.id (after_project repository) entry
      pub complete : image_of entry ≡ some image

    pub record DeploymentEnd (r : Option Text) : Type 0 where
      pub repository : RepositoryRow
      pub project : GitlabProject
      pub image : String
      pub sources : Sources repository project image
      pub ended :
          Ended request repository image
            (named_provider request.provider)
            r
            (after_registry repository project)
            (deploy_to_k8s_cluster out request h).1

    module _ (repository : RepositoryRow) (project : GitlabProject) (image : String) where
      Sources-DeploymentEnd :
          (r : Option Text)
          → Sources repository project image
          → deploy_to_k8s_cluster out request h
            ≡ deploy_with out request
                (named_provider request.provider)
                repository
                image
                (after_registry repository project)
          → (deploy_to_k8s_cluster out request h).0 ≡ returned r
          → DeploymentEnd r
      Sources-DeploymentEnd r sources same e =
          let k = after_registry repository project in
          let chosen = named_provider request.provider in
          record {
            repository = repository;
            project = project;
            image = image;
            sources = sources;
            ended =
                subst (λ x. Ended request repository image chosen r k x) (sym (ap (λ x. x.1) same))
                  (deploy_with-Ended request repository image chosen k r
                    (sym (ap (λ x. x.0) same) ∙ e));
          }

  -- A deployment that gives back a host was made to the cluster of the request with success and then
  -- kept in the database with that host, for the repository of the request and the first image in
  -- the registry of the project that GitLab finds under its name; besides these two calls it changed
  -- nothing but DNS records. With a provider that is neither Azure nor AWS it gives back `undefined`
  -- and makes no call but the three reads of the repository, the project and the registry.
  pub deploy_to_k8s_cluster-Ended :
      (request : AddRepositoryToK8sClusterDto) (h : History) (r : Option Text)
      → (deploy_to_k8s_cluster out request h).0 ≡ returned r
      → DeploymentEnd request h r
  unfolding deploy_to_k8s_cluster
  deploy_to_k8s_cluster-Ended request h r e =
      let what : String = "Failed to get image from GitLab registry: " in
      let h₁ = after_repository request h in
      elim (Outcome-cases
        (out.db.repository_unique (RepositoryKey.by_id request.repository_id) h)) [
          | inr (x, q) ↦ absurd (ground arith)
          | inl (none, q) ↦ absurd (ground arith)
          | inl (some repository, q) ↦
              let searched = get_project_by_name-calls out.gitlab repository.name h₁ in
              elim (Outcome-cases (get_project_by_name out.gitlab repository.name h₁).0) [
                | inr (x, q₁) ↦ absurd (ground arith)
                | inl (none, q₁) ↦ absurd (ground arith)
                | inl (some project, q₁) ↦
                    let h₂ = after_project request h repository in
                    let find = get_image_from_registry out.gitlab project.id in
                    let read =
                      bad_request_with-calls what find h₂
                      ∙ get_image_from_registry-calls out.gitlab project.id h₂ in
                    elim (Outcome-cases (bad_request_with what find h₂).0) [
                      | inr (x, q₂) ↦ absurd (ground arith)
                      | inl (entry, q₂) ↦ elim (Option-cases (image_of entry)) [
                        | inl n ↦ absurd (ground arith)
                        | inr (image, n) ↦
                            Sources-DeploymentEnd request h repository project image r
                              (record {
                                found = q;
                                project_found =
                                    get_project_by_name-FoundProject out.gitlab repository.name h₁
                                      project q₁;
                                entry = entry;
                                entry_found =
                                    get_image_from_registry-FoundImage out.gitlab project.id h₂
                                      entry (bad_request_with-returned what find h₂ entry q₂);
                                complete = n;
                              })
                              (ground arith) e
                      ]
                    ]
              ]
        ]
