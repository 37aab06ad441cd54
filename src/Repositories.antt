-- ===== src/Repositories.antt =====
-- src/repositories/repositories.service.ts and src/resource/resource.service.ts with their
-- controllers: the repositories and the resources that a user sees.
pub mod Seen
pub mod Unnamed
pub mod Creation
use orchestronic_be.Base.{String, Option, none, some, List, Bool, true, false, concat, map, not}
use orchestronic_be.Schema.{UserRow, RepositoryStatus, RepositoryRow, RequestRow, ResourcesRow}
use orchestronic_be.Effects.Data.{RepositoryKey, RepositoryConnect}
use orchestronic_be.Effects.Calls.{Call, Query, History}
use orchestronic_be.Effects.Monad.{
  Exception, Outcome, Action, Response, pure, throw_if, perform, ◌>>=◌, ◌>>◌,
}
use orchestronic_be.Effects.Prisma.{Prisma, find_repository, find_requests, update_repository}
use orchestronic_be.Session.{Session, authenticate, lift, invalid_token}
use orchestronic_be.Project.Deploy.{message_of}
use orchestronic_be.Project.Controller.{rethrow_with}
use orchestronic_be.Request.Dto.{BackendJwtPayload}
use orchestronic_be.Request.Query.{owner_filter}

pub record SeenOutside : Type 0 where
  pub db : Prisma
  -- `repository.findMany` by ids, and `resources.findMany` by the owner of the request
  pub repositories_in : List String → History → Outcome (List RepositoryRow)
  pub resources_owned : Option String → History → Outcome (List ResourcesRow)
  pub users_all : History → Outcome (List UserRow)
  pub create_repository : RepositoryConnect → History → Outcome RepositoryRow
  -- the body of the price list, as a text
  pub price : String → String → History → Outcome (Response String)

abbrev is_there : Option RepositoryRow → Bool
is_there none = false
is_there (some _) = true

abbrev failed_price : Exception → Exception
failed_price e = Exception.error (concat "Failed to fetch Azure VM price: " (message_of e))

module _ (out : SeenOutside) where
  -- `updateRepository` of the service
  unfoldable pub update_status : String → RepositoryStatus → Action RepositoryRow
  update_status id status = update_repository out.db id status

  unfoldable pub find_repositories : BackendJwtPayload → Action (List RepositoryRow)
  find_repositories user = do
    requests ← find_requests out.db (record { status = none; owner_id = owner_filter user })
    perform (Call.read (Query.repository_in (map (λ (r : RequestRow). r.repository.id) requests)))
        (out.repositories_in (map (λ (r : RequestRow). r.repository.id) requests))

  unfoldable pub repository_exists : String → Action Bool
  repository_exists name = do
    found ← find_repository out.db (RepositoryKey.by_name name)
    pure (is_there found)

  unfoldable pub find_resources : BackendJwtPayload → Action (List ResourcesRow)
  find_resources user =
      perform (Call.read (Query.resources_owned (owner_filter user)))
        (out.resources_owned (owner_filter user))

  -- The resources of the requests are among their columns here.
  unfoldable pub find_resource_groups : BackendJwtPayload → Action (List (Option String))
  find_resource_groups user = do
    requests ← find_requests out.db (record { status = none; owner_id = user.id })
    pure (map (λ (r : RequestRow). r.resources_id) requests)

  unfoldable pub get_vm_price : String → String → Action String
  get_vm_price vm_size region = rethrow_with failed_price (do
    response ← perform (Call.price vm_size region) (out.price vm_size region)
    throw_if (not response.ok) (Exception.error "Azure API responded with an error")
    lift response.json)

  unfoldable pub find_repositories_route : Session → Action (List RepositoryRow)
  find_repositories_route s = do user ← lift (authenticate s invalid_token); find_repositories user

  unfoldable pub find_resources_route : Session → Action (List ResourcesRow)
  find_resources_route s = do user ← lift (authenticate s invalid_token); find_resources user

  unfoldable pub find_resource_groups_route : Session → Action (List (Option String))
  find_resource_groups_route s = do
    user ← lift (authenticate s invalid_token)
    find_resource_groups user

  -- These routes read no token.
  unfoldable pub find_by_name_route : String → Action Bool
  find_by_name_route name = repository_exists name

  -- a method without a route
  unfoldable pub update_repository_status : String → RepositoryStatus → Action RepositoryRow
  update_repository_status id status = update_status id status
