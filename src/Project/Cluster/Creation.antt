-- ===== src/Project/Cluster/Creation.antt =====
-- Making clusters.
use orchestronic_be.Base.{
  String, Option, none, some, [], ◌∷◌, ◌≡◌, refl, arith, inl, inr, or_else, ap, sym, ◌∙◌,
}
use orchestronic_be.Base.Text.{Text}
use orchestronic_be.Schema.{
  CloudProvider, UserRow, ResourceConfigRow, ResourcesRow, ClusterRequestRow,
}
use orchestronic_be.Effects.Data.{UserKey, ResourcesCreate}
use orchestronic_be.Effects.Calls.{Call, Query, Write, History, effects}
use orchestronic_be.Effects.Monad.{returned, Outcome-cases}
use orchestronic_be.Request.Dto.{BackendJwtPayload}
use orchestronic_be.Project.Outside.{ProjectOutside}
use orchestronic_be.Project.Cluster.{
  CreateClusterResourceDto, to_upper, provider_of, provider_text, k8s_config, create_for,
  create_cluster, create_with, some_request,
}

to_upper_idem : (s : Text) → to_upper (to_upper s) ≡ to_upper s
to_upper_idem [] = refl
to_upper_idem (c ∷ s) = ground (arith, to_upper_idem s)

-- The provider is read from a text as it is from the same text in capital letters.
pub provider_of-to_upper : (s : Text) → provider_of (some (to_upper s)) ≡ provider_of (some s)
unfolding provider_of
provider_of-to_upper s = rw (to_upper_idem s)

module _ (out : ProjectOutside) (user : BackendJwtPayload) (dto : CreateClusterResourceDto) where
  abbrev resources_row : CloudProvider → String → ResourcesCreate
  resources_row p config_id = record {
    name = dto.name;
    cloud_provider = provider_text p;
    region = dto.region;
    resource_config_id = config_id;
  }

  -- A cluster request was made with its configuration and its resources, each linked to the one
  -- made before it.
  pub record MadeCluster (p : CloudProvider) (owner_id : String) (h h' : History)
      (r : ClusterRequestRow) : Type 0 where
    pub config_row : ResourceConfigRow
    pub row : ResourcesRow
    pub config_made :
        out.db.create_resource_config (k8s_config p (or_else dto.cluster [])) h
        ≡ returned config_row
    pub row_made :
        out.db.create_resources
          (resources_row p config_row.id)
          (Call.write (Write.create_resource_config (k8s_config p (or_else dto.cluster []))) ∷ h)
        ≡ returned row
    pub answered :
        out.tables.create_cluster_request owner_id row.id (
          Call.write (Write.create_resources (resources_row p config_row.id))
          ∷ Call.write (Write.create_resource_config (k8s_config p (or_else dto.cluster [])))
          ∷ h)
        ≡ returned r
    pub written :
        effects h'
        ≡ Call.write (Write.create_cluster_request owner_id row.id)
          ∷ Call.write (Write.create_resources (resources_row p config_row.id))
          ∷ Call.write (Write.create_resource_config (k8s_config p (or_else dto.cluster [])))
          ∷ effects h

  create_for-MadeCluster :
      (p : CloudProvider) (owner_id : String) (h : History) (r : ClusterRequestRow)
      → (create_for out p owner_id dto h).0 ≡ returned r
      → MadeCluster p owner_id h (create_for out p owner_id dto h).1 r
  unfolding create_for
  create_for-MadeCluster p owner_id h r e =
      elim (Outcome-cases
        (out.db.create_resource_config (k8s_config p (or_else dto.cluster [])) h)) [
          | inr (x, q) ↦ absurd (ground arith)
          | inl (config, q) ↦
              elim (Outcome-cases (
                out.db.create_resources (resources_row p config.id) (
                  Call.write (Write.create_resource_config (k8s_config p (or_else dto.cluster [])))
                  ∷ h))) [
                    | inr (x, q') ↦ absurd (ground arith)
                    | inl (row, q') ↦ record {
                      config_row = config;
                      row = row;
                      config_made = q;
                      row_made = q';
                      answered = ground arith;
                      written = ground arith;
                    }
                  ]
        ]

  abbrev pub after_owner : History → History
  after_owner h = Call.read (Query.user_unique (UserKey.by_id user.id)) ∷ h

  -- What a run that returned has done, by the provider that was read and the result.
  abbrev pub ClusterResult :
      Option CloudProvider → Option ClusterRequestRow → String → History → History → Type 0
  ClusterResult none none owner_id h h' = effects h' ≡ effects h
  ClusterResult none (some r) owner_id h h' = ⊥
  ClusterResult (some p) none owner_id h h' = ⊥
  ClusterResult (some p) (some r) owner_id h h' = MadeCluster p owner_id (after_owner h) h' r

  -- A result that came through `some_request` is the result of the action itself.
  create_with-MadeCluster :
      (p : CloudProvider) (owner_id : String) (h : History) (r r' : ClusterRequestRow)
      → (create_for out p owner_id dto h).0 ≡ returned r'
      → (create_with out (some p) owner_id dto h).0 ≡ returned (some r)
      → MadeCluster p owner_id h (create_with out (some p) owner_id dto h).1 r
  unfolding create_with some_request
  create_with-MadeCluster p owner_id h r r' q e =
      let made = create_for-MadeCluster p owner_id h r' q in
      record {
        config_row = made.config_row;
        row = made.row;
        config_made = made.config_made;
        row_made = made.row_made;
        answered = (let a = made.answered in ground arith);
        written = (let w = made.written in ground arith);
      }

  create_with-ClusterResult :
      (o : Option CloudProvider) (owner_id : String) (h : History) (r : Option ClusterRequestRow)
      → (create_with out o owner_id dto (after_owner h)).0 ≡ returned r
      → ClusterResult o r owner_id h (create_with out o owner_id dto (after_owner h)).1
  unfolding create_with some_request
  create_with-ClusterResult none owner_id h none e = refl
  create_with-ClusterResult none owner_id h (some r) e = ground arith
  create_with-ClusterResult (some p) owner_id h none e =
      elim (Outcome-cases (create_for out p owner_id dto (after_owner h)).0) [
        | inl (r, q) ↦ absurd (ground arith)
        | inr (x, q) ↦ absurd (ground arith)
      ]
  create_with-ClusterResult (some p) owner_id h (some r) e =
      elim (Outcome-cases (create_for out p owner_id dto (after_owner h)).0) [
        | inl (r', q) ↦ create_with-MadeCluster p owner_id (after_owner h) r r' q e
        | inr (x, q) ↦ absurd (ground arith)
      ]

  create_cluster-owner :
      (owner : UserRow) (h : History)
      → out.db.user_unique (UserKey.by_id user.id) h ≡ returned (some owner)
      → create_cluster out user dto h
        ≡ create_with out (provider_of dto.cloud_provider) owner.id dto (after_owner h)
  unfolding create_cluster
  create_cluster-owner owner h q = rw q refl

  -- A `createCluster` that returned found the user, and by the provider as read it either did
  -- nothing but answer `undefined`, when that is neither Azure nor AWS, or made the cluster's
  -- configuration, its resources and its request, each linked to the one before, and answered the
  -- request as the database gave it back.
  pub create_cluster-ClusterResult :
      (h : History) (r : Option ClusterRequestRow)
      → (create_cluster out user dto h).0 ≡ returned r
      → (owner : UserRow) × (out.db.user_unique (UserKey.by_id user.id) h ≡ returned (some owner))
        × ClusterResult
            (provider_of dto.cloud_provider)
            r
            owner.id
            h
            (create_cluster out user dto h).1
  unfolding create_cluster
  create_cluster-ClusterResult h r e =
      elim (Outcome-cases (out.db.user_unique (UserKey.by_id user.id) h)) [
        | inr (x, q) ↦ absurd (ground arith)
        | inl (none, q) ↦ absurd (ground arith)
        | inl (some owner, q) ↦
            let run = create_cluster-owner owner h q in
            (
              owner,
              q,
              rw run (
                  create_with-ClusterResult (provider_of dto.cloud_provider) owner.id h r
                    (ap (λ x. x.0) (sym run) ∙ e)),
            )
      ]
