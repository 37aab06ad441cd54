-- ===== src/Request/Create/Writes.antt =====
-- What a create request writes, in which order and with which links, when it succeeds.
use orchestronic_be.Base.{String, Option, none, some, ◌≡◌, inl, inr, refl, sym, ap, ◌∙◌, arith, ◌∷◌}
use mathlib.Core.Path.{subst}
use orchestronic_be.Schema.{RepositoryRow, RequestRow, ResourceConfigRow, ResourcesRow}
use orchestronic_be.Effects.Data.{ResourcesCreate, ResourceConfigCreate, RequestCreate}
use orchestronic_be.Effects.Calls.{Call, Write, Query, History, effects}
use orchestronic_be.Effects.Monad.{Action, returned, Outcome-cases, >>=-eq-returned, ◌>>=◌, ◌>>◌}
use orchestronic_be.Effects.Prisma.{Prisma}
use orchestronic_be.Request.DisplayCode.{code_after, last_number}
use orchestronic_be.Request.Dto.{
  BackendJwtPayload, CreateRepositoryDto, CreateAzureResourceDto, CreateAzureRequestDto,
  CreateAwsResourceDto, CreateAwsRequestDto,
}
use orchestronic_be.Request.Create.{
  check_request, repository_data, azure_config, aws_config, create_azure_resources,
  create_aws_resources, create_linked, create_request_azure, create_request_aws,
}
use orchestronic_be.Request.Create.Checks.{IsAdmissible, check_request_iff}

-- The row that links a resource group to its configuration.
abbrev pub resources_data : String → String → String → String → ResourcesCreate
resources_data name provider region config_id = record {
  name = name;
  cloud_provider = provider;
  region = region;
  resource_config_id = config_id;
}

module _ (db : Prisma) where
  -- A resource group was made from `config`: first its configuration, then the row that is linked
  -- to it, whose id is `id`.
  pub record MadeResources (config : ResourceConfigCreate) (name provider region : String)
      (h h' : History) (id : Option String) : Type 0 where
    pub config_row : ResourceConfigRow
    pub row : ResourcesRow
    pub config_made : db.create_resource_config config h ≡ returned config_row
    pub row_made :
        db.create_resources
          (resources_data name provider region config_row.id)
          (Call.write (Write.create_resource_config config) ∷ h)
        ≡ returned row
    pub same_id : id ≡ some row.id
    pub written :
        effects h'
        ≡ Call.write (Write.create_resources (resources_data name provider region config_row.id))
          ∷ Call.write (Write.create_resource_config config)
          ∷ effects h

  -- Azure resources are made as asked for, or not at all.
  abbrev pub MadeAzure : Option CreateAzureResourceDto → History → History → Option String → Type 0
  MadeAzure none h h' id = (id ≡ none) × (effects h' ≡ effects h)
  MadeAzure (some r) h h' id =
      MadeResources (azure_config r) r.name r.cloud_provider r.region h h' id

  abbrev pub MadeAws : Option CreateAwsResourceDto → History → History → Option String → Type 0
  MadeAws none h h' id = ⊥
  MadeAws (some r) h h' id = MadeResources (aws_config r) r.name r.cloud_provider r.region h h' id

  abbrev pub request_data :
      Option String → BackendJwtPayload → Option String → String → Option RequestRow → RequestCreate
  request_data description user resources_id repository_id last = record {
    description = description;
    display_code = code_after (last_number last);
    owner_id = user.id;
    repository_id = repository_id;
    resources_id = resources_id;
  }

  -- The repository was made and then the request, which links the owner, that repository and the
  -- resources, and carries the code after that of the latest request.
  pub record MadeLinked (description : Option String) (repository : CreateRepositoryDto)
      (user : BackendJwtPayload) (resources_id : Option String) (h h' : History) (r : RequestRow)
      : Type 0 where
    pub repository_row : RepositoryRow
    pub last : Option RequestRow
    pub repository_made :
        db.create_repository (repository_data repository resources_id) h ≡ returned repository_row
    pub last_found :
        db.request_latest
          (Call.write (Write.create_repository (repository_data repository resources_id)) ∷ h)
        ≡ returned last
    pub request_made :
        db.create_request (request_data description user resources_id repository_row.id last) (
          Call.read Query.request_latest
          ∷ Call.write (Write.create_repository (repository_data repository resources_id))
          ∷ h)
        ≡ returned r
    pub written :
        effects h'
        ≡ Call.write (
            Write.create_request
              (request_data description user resources_id repository_row.id last))
          ∷ Call.write (Write.create_repository (repository_data repository resources_id))
          ∷ effects h

  create_linked-MadeLinked :
      (description : Option String) (repository : CreateRepositoryDto) (user : BackendJwtPayload)
      (resources_id : Option String) (h : History) (r : RequestRow)
      → (create_linked db description repository user resources_id h).0 ≡ returned r
      → MadeLinked description repository user resources_id h
          (create_linked db description repository user resources_id h).1
          r
  unfolding create_linked
  create_linked-MadeLinked description repository user resources_id h r e =
      elim (Outcome-cases (db.create_repository (repository_data repository resources_id) h)) [
        | inr (x, q) ↦ absurd (ground arith)
        | inl (row, q) ↦
            elim (Outcome-cases (
              db.request_latest (
                Call.write (Write.create_repository (repository_data repository resources_id))
                ∷ h))) [
                  | inr (x, q') ↦ absurd (ground arith)
                  | inl (last, q') ↦ record {
                    repository_row = row;
                    last = last;
                    repository_made = q;
                    last_found = q';
                    request_made = ground arith;
                    written = ground arith;
                  }
                ]
      ]

  create_azure_resources-MadeAzure :
      (o : Option CreateAzureResourceDto) (h : History) (id : Option String)
      → (create_azure_resources db o h).0 ≡ returned id
      → MadeAzure o h (create_azure_resources db o h).1 id
  unfolding create_azure_resources
  create_azure_resources-MadeAzure none h id e = (ground arith, refl)
  create_azure_resources-MadeAzure (some r) h id e =
      elim (Outcome-cases (db.create_resource_config (azure_config r) h)) [
        | inr (x, q) ↦ absurd (ground arith)
        | inl (config, q) ↦
            elim (Outcome-cases (
              db.create_resources (resources_data r.name r.cloud_provider r.region config.id)
                (Call.write (Write.create_resource_config (azure_config r)) ∷ h))) [
                  | inr (x, q') ↦ absurd (ground arith)
                  | inl (row, q') ↦ record {
                    config_row = config;
                    row = row;
                    config_made = q;
                    row_made = q';
                    same_id = ground arith;
                    written = ground arith;
                  }
                ]
      ]

  create_aws_resources-MadeAws :
      (o : Option CreateAwsResourceDto) (h : History) (id : Option String)
      → (create_aws_resources db o h).0 ≡ returned id
      → MadeAws o h (create_aws_resources db o h).1 id
  unfolding create_aws_resources
  create_aws_resources-MadeAws none h id e = cc
  create_aws_resources-MadeAws (some r) h id e =
      elim (Outcome-cases (db.create_resource_config (aws_config r) h)) [
        | inr (x, q) ↦ absurd (ground arith)
        | inl (config, q) ↦
            elim (Outcome-cases (
              db.create_resources (resources_data r.name r.cloud_provider r.region config.id)
                (Call.write (Write.create_resource_config (aws_config r)) ∷ h))) [
                  | inr (x, q') ↦ absurd (ground arith)
                  | inl (row, q') ↦ record {
                    config_row = config;
                    row = row;
                    config_made = q;
                    row_made = q';
                    same_id = ground arith;
                    written = ground arith;
                  }
                ]
      ]

  -- A whole successful run: the checks passed, then the resources were made, then the rest.
  pub record Created (Made : History → History → Option String → Type 0)
      (description : Option String) (repository : CreateRepositoryDto) (user : BackendJwtPayload)
      (h h' : History) (r : RequestRow) : Type 0 where
    pub admissible : IsAdmissible db repository user h
    pub resources_id : Option String
    pub between : History
    pub resources_made : Made (check_request db repository user h).1 between resources_id
    pub linked : MadeLinked description repository user resources_id between h' r

  -- Both methods are the checks, the making of the resources, and the rest.
  module _ (make : Action (Option String)) (Made : History → History → Option String → Type 0)
      (make-Made : (h : History) (id : Option String)
        → (make h).0 ≡ returned id
        → Made h (make h).1 id) where
    abbrev whole : Option String → CreateRepositoryDto → BackendJwtPayload → Action RequestRow
    whole description repository user =
        check_request db repository user
        >> (make >>= λ id. create_linked db description repository user id)

    whole-Created :
        (description : Option String) (repository : CreateRepositoryDto) (user : BackendJwtPayload)
        (h : History) (r : RequestRow)
        → (whole description repository user h).0 ≡ returned r
        → Created Made description repository user h (whole description repository user h).1 r
    whole-Created description repository user h r e =
        let checks = check_request db repository user in
        let rest = λ (id : Option String). create_linked db description repository user id in
        let (t, passed, same) = >>=-eq-returned checks (λ _. make >>= rest) h e in
        let e' : ((make >>= rest) (checks h).1).0 ≡ returned r = sym (ap (λ x. x.0) same) ∙ e in
        let (id, made, same') = >>=-eq-returned make rest (checks h).1 e' in
        record {
          admissible = (check_request_iff db repository user h).0 passed;
          resources_id = id;
          between = (make (checks h).1).1;
          resources_made = make-Made (checks h).1 id made;
          linked =
              subst (λ x. MadeLinked description repository user id (make (checks h).1).1 x r)
                (sym (ap (λ x. x.1) (same ∙ same')))
                (create_linked-MadeLinked description repository user id (make (checks h).1).1 r
                  (sym (ap (λ x. x.0) same') ∙ e'));
        }

  -- A create request for Azure that returns has passed its checks and written exactly the rows of
  -- the body, each linked to the row made before it, in the order configuration, resources,
  -- repository, request; without resources only the last two.
  pub create_request_azure-Created :
      (dto : CreateAzureRequestDto) (user : BackendJwtPayload) (h : History) (r : RequestRow)
      → (create_request_azure db dto user h).0 ≡ returned r
      → Created
          (MadeAzure dto.resources)
          dto.description
          dto.repository
          user
          h
          (create_request_azure db dto user h).1
          r
  unfolding create_request_azure
  create_request_azure-Created dto user h r e =
      whole-Created (create_azure_resources db dto.resources) (MadeAzure dto.resources)
        (create_azure_resources-MadeAzure dto.resources) dto.description dto.repository user h r e

  -- A create request for AWS that returns has passed its checks and written exactly the rows of the
  -- body, each linked to the row made before it, in the order configuration, resources,
  -- repository, request. Without resources it does not return.
  pub create_request_aws-Created :
      (dto : CreateAwsRequestDto) (user : BackendJwtPayload) (h : History) (r : RequestRow)
      → (create_request_aws db dto user h).0 ≡ returned r
      → Created
          (MadeAws dto.resources)
          dto.description
          dto.repository
          user
          h
          (create_request_aws db dto user h).1
          r
  unfolding create_request_aws
  create_request_aws-Created dto user h r e =
      whole-Created (create_aws_resources db dto.resources) (MadeAws dto.resources)
        (create_aws_resources-MadeAws dto.resources) dto.description dto.repository user h r e
