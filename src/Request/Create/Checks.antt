-- ===== src/Request/Create/Checks.antt =====
-- The checks of a create request come before every write.
use orchestronic_be.Base.{none, some, List, ◌≡◌, ◌≢◌, ◌↔◌, inl, inr, arith, length, ◌∷◌}
use orchestronic_be.Schema.{UserRow, RepositoryRow}
use orchestronic_be.Effects.Data.{UserKey, UserWhere, RepositoryKey}
use orchestronic_be.Effects.Calls.{Call, Query, History, effects}
use orchestronic_be.Effects.Monad.{returned, thrown, Exception, Outcome-cases}
use orchestronic_be.Effects.Prisma.{Prisma}
use orchestronic_be.Request.Dto.{
  BackendJwtPayload, CreateRepositoryDto, CreateAzureRequestDto, CreateAwsRequestDto,
}
use orchestronic_be.Request.Create.{
  check_request, collaborator_ids, create_request_azure, create_request_aws,
}

module _ (db : Prisma) (r : CreateRepositoryDto) (user : BackendJwtPayload) (h : History) where
  -- The histories after the first and the second query.
  abbrev after_owner : History
  after_owner = Call.read (Query.user_unique (UserKey.by_id user.id)) ∷ h

  abbrev after_name : History
  after_name = Call.read (Query.repository_unique (RepositoryKey.by_name r.name)) ∷ after_owner

  -- What the database answers when a request may be created: the user is there, no repository has
  -- the name, and as many users are found as collaborators are named.
  pub record IsAdmissible : Type 0 where
    pub owner : UserRow
    pub owner_found : db.user_unique (UserKey.by_id user.id) h ≡ returned (some owner)
    pub name_free : db.repository_unique (RepositoryKey.by_name r.name) after_owner ≡ returned none
    pub members : List UserRow
    pub members_found :
        db.user_many (UserWhere.id_in (collaborator_ids r)) after_name ≡ returned members
    pub all_found : length members ≡ length (collaborator_ids r)

  -- The checks change nothing outside, however they end.
  pub effects-check_request : effects (check_request db r user h).1 ≡ effects h
  unfolding check_request
  effects-check_request = ground arith

  check_request-IsAdmissible : (check_request db r user h).0 ≡ returned tt → IsAdmissible
  unfolding check_request
  check_request-IsAdmissible e = elim (Outcome-cases (db.user_unique (UserKey.by_id user.id) h)) [
    | inr (x, q) ↦ absurd (ground arith)
    | inl (none, q) ↦ absurd (ground arith)
    | inl (some o, q) ↦
        elim (Outcome-cases (db.user_many (UserWhere.id_in (collaborator_ids r)) after_name)) [
          | inr (x, q') ↦ absurd (ground arith)
          | inl (us, q') ↦ record {
            owner = o;
            owner_found = q;
            name_free = ground arith;
            members = us;
            members_found = q';
            all_found = ground arith;
          }
        ]
  ]

  IsAdmissible-check_request : IsAdmissible → (check_request db r user h).0 ≡ returned tt
  unfolding check_request
  IsAdmissible-check_request a = ground arith

  -- The checks pass exactly when the database admits the request.
  pub check_request_iff : ((check_request db r user h).0 ≡ returned tt) ↔ IsAdmissible
  check_request_iff = (check_request-IsAdmissible, IsAdmissible-check_request)

  -- Why a create request is refused with the exception `e`, by the first check that fails.
  pub data Refusal (e : Exception) : Type 0 where
    owner_query_failed : db.user_unique (UserKey.by_id user.id) h ≡ thrown e → Refusal e
    owner_unknown :
        db.user_unique (UserKey.by_id user.id) h ≡ returned none
        → e ≡ Exception.bad_request "Authenticated user not found in database"
        → Refusal e
    name_query_failed :
        (o : UserRow)
        → db.user_unique (UserKey.by_id user.id) h ≡ returned (some o)
        → db.repository_unique (RepositoryKey.by_name r.name) after_owner ≡ thrown e
        → Refusal e
    name_taken :
        (o : UserRow) (old : RepositoryRow)
        → db.user_unique (UserKey.by_id user.id) h ≡ returned (some o)
        → db.repository_unique (RepositoryKey.by_name r.name) after_owner ≡ returned (some old)
        → e ≡ Exception.conflict "Repository name already exists"
        → Refusal e
    members_query_failed :
        (o : UserRow)
        → db.user_unique (UserKey.by_id user.id) h ≡ returned (some o)
        → db.repository_unique (RepositoryKey.by_name r.name) after_owner ≡ returned none
        → db.user_many (UserWhere.id_in (collaborator_ids r)) after_name ≡ thrown e
        → Refusal e
    members_missing :
        (o : UserRow) (us : List UserRow)
        → db.user_unique (UserKey.by_id user.id) h ≡ returned (some o)
        → db.repository_unique (RepositoryKey.by_name r.name) after_owner ≡ returned none
        → db.user_many (UserWhere.id_in (collaborator_ids r)) after_name ≡ returned us
        → length us ≢ length (collaborator_ids r)
        → e ≡ Exception.bad_request "One or more collaborators not found"
        → Refusal e

  check_request-Refusal : (e : Exception) → (check_request db r user h).0 ≡ thrown e → Refusal e
  unfolding check_request
  check_request-Refusal e t = elim (Outcome-cases (db.user_unique (UserKey.by_id user.id) h)) [
    | inr (x, q) ↦ owner_query_failed (ground arith)
    | inl (none, q) ↦ owner_unknown q (ground arith)
    | inl (some o, q) ↦
        elim (Outcome-cases (db.repository_unique (RepositoryKey.by_name r.name) after_owner)) [
          | inr (x, q') ↦ name_query_failed o q (ground arith)
          | inl (some old, q') ↦ name_taken o old q q' (ground arith)
          | inl (none, q') ↦
              elim (Outcome-cases
                (db.user_many (UserWhere.id_in (collaborator_ids r)) after_name)) [
                  | inr (x, q'') ↦ members_query_failed o q q' (ground arith)
                  | inl (us, q'') ↦ members_missing o us q q' q'' (ground arith) (ground arith)
                ]
        ]
  ]

  Refusal-check_request : (e : Exception) → Refusal e → (check_request db r user h).0 ≡ thrown e
  unfolding check_request
  Refusal-check_request e (owner_query_failed q) = ground arith
  Refusal-check_request e (owner_unknown q x) = ground arith
  Refusal-check_request e (name_query_failed o q q') = ground arith
  Refusal-check_request e (name_taken o old q q' x) = ground arith
  Refusal-check_request e (members_query_failed o q q' q'') = ground arith
  Refusal-check_request e (members_missing o us q q' q'' ne x) = ground arith

  -- The checks throw an exception exactly for the reasons that `Refusal` lists with it.
  pub check_request-thrown_iff :
      (e : Exception) → ((check_request db r user h).0 ≡ thrown e) ↔ Refusal e
  check_request-thrown_iff e = (check_request-Refusal e, Refusal-check_request e)

-- A create request for Azure that is refused throws that exception and writes nothing.
pub create_request_azure_refused :
    (db : Prisma) (dto : CreateAzureRequestDto) (user : BackendJwtPayload) (h : History)
    (e : Exception)
    → Refusal db dto.repository user h e
    → let run = create_request_azure db dto user h in
      (run.0 ≡ thrown e) × (effects run.1 ≡ effects h)
unfolding create_request_azure
create_request_azure_refused db dto user h e why = ground (
  arith,
  (check_request-thrown_iff db dto.repository user h e).1 why,
  effects-check_request db dto.repository user h,
)

-- A create request for AWS that is refused throws that exception and writes nothing.
pub create_request_aws_refused :
    (db : Prisma) (dto : CreateAwsRequestDto) (user : BackendJwtPayload) (h : History)
    (e : Exception)
    → Refusal db dto.repository user h e
    → let run = create_request_aws db dto user h in (run.0 ≡ thrown e) × (effects run.1 ≡ effects h)
unfolding create_request_aws
create_request_aws_refused db dto user h e why = ground (
  arith,
  (check_request-thrown_iff db dto.repository user h e).1 why,
  effects-check_request db dto.repository user h,
)
