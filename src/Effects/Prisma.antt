-- ===== src/Effects/Prisma.antt =====
-- The Prisma client, which `DatabaseService` extends, as an interface: for each query and statement
-- that the services make, the answer to it after a given history. Nothing is assumed of it here.
use orchestronic_be.Base.{String, List, Option}
use orchestronic_be.Schema.{
  UserRow, RepositoryRow, RequestRow, ResourceConfigRow, ResourcesRow, RepositoryStatus,
}
use orchestronic_be.Effects.Data.{
  UserKey, UserWhere, RepositoryKey, RequestWhere, RequestKey, ResourceConfigCreate,
  ResourcesCreate, RepositoryCreate, RequestCreate, RequestPatch,
}
use orchestronic_be.Effects.Calls.{Call, Query, Write, History}
use orchestronic_be.Effects.Monad.{Outcome, Action, perform}

pub record Prisma : Type 0 where
  pub user_unique : UserKey → History → Outcome (Option UserRow)
  pub user_unique_or_throw : UserKey → History → Outcome UserRow
  pub user_many : UserWhere → History → Outcome (List UserRow)
  pub repository_unique : RepositoryKey → History → Outcome (Option RepositoryRow)
  pub repository_unique_or_throw : RepositoryKey → History → Outcome RepositoryRow
  pub request_unique : RequestKey → History → Outcome (Option RequestRow)
  pub request_unique_or_throw : RequestKey → History → Outcome RequestRow
  pub request_many : RequestWhere → History → Outcome (List RequestRow)
  pub request_latest : History → Outcome (Option RequestRow)
  pub resources_unique_or_throw : String → History → Outcome ResourcesRow
  pub create_resource_config : ResourceConfigCreate → History → Outcome ResourceConfigRow
  pub create_resources : ResourcesCreate → History → Outcome ResourcesRow
  pub create_repository : RepositoryCreate → History → Outcome RepositoryRow
  pub create_request : RequestCreate → History → Outcome RequestRow
  pub update_request : String → RequestPatch → History → Outcome RequestRow
  pub delete_request : String → History → Outcome RequestRow
  pub update_repository : String → RepositoryStatus → History → Outcome RepositoryRow

-- The calls themselves, recorded in the history.
module _ (db : Prisma) where
  abbrev pub find_user : UserKey → Action (Option UserRow)
  find_user k = perform (Call.read (Query.user_unique k)) (db.user_unique k)

  abbrev pub find_user_or_throw : UserKey → Action UserRow
  find_user_or_throw k = perform (Call.read (Query.user_unique k)) (db.user_unique_or_throw k)

  abbrev pub find_users : UserWhere → Action (List UserRow)
  find_users w = perform (Call.read (Query.user_many w)) (db.user_many w)

  abbrev pub find_repository : RepositoryKey → Action (Option RepositoryRow)
  find_repository k = perform (Call.read (Query.repository_unique k)) (db.repository_unique k)

  abbrev pub find_repository_or_throw : RepositoryKey → Action RepositoryRow
  find_repository_or_throw k =
      perform (Call.read (Query.repository_unique k)) (db.repository_unique_or_throw k)

  abbrev pub find_request : RequestKey → Action (Option RequestRow)
  find_request k = perform (Call.read (Query.request_unique k)) (db.request_unique k)

  abbrev pub find_request_or_throw : RequestKey → Action RequestRow
  find_request_or_throw k =
      perform (Call.read (Query.request_unique k)) (db.request_unique_or_throw k)

  abbrev pub find_requests : RequestWhere → Action (List RequestRow)
  find_requests w = perform (Call.read (Query.request_many w)) (db.request_many w)

  -- `request.findFirst({ orderBy: { createdAt: 'desc' } })`
  abbrev pub find_latest_request : Action (Option RequestRow)
  find_latest_request = perform (Call.read Query.request_latest) db.request_latest

  abbrev pub find_resources_or_throw : String → Action ResourcesRow
  find_resources_or_throw k =
      perform (Call.read (Query.resources_unique k)) (db.resources_unique_or_throw k)

  abbrev pub create_resource_config : ResourceConfigCreate → Action ResourceConfigRow
  create_resource_config d =
      perform (Call.write (Write.create_resource_config d)) (db.create_resource_config d)

  abbrev pub create_resources : ResourcesCreate → Action ResourcesRow
  create_resources d = perform (Call.write (Write.create_resources d)) (db.create_resources d)

  abbrev pub create_repository : RepositoryCreate → Action RepositoryRow
  create_repository d = perform (Call.write (Write.create_repository d)) (db.create_repository d)

  abbrev pub create_request : RequestCreate → Action RequestRow
  create_request d = perform (Call.write (Write.create_request d)) (db.create_request d)

  abbrev pub update_request : String → RequestPatch → Action RequestRow
  update_request k p = perform (Call.write (Write.update_request k p)) (db.update_request k p)

  abbrev pub delete_request : String → Action RequestRow
  delete_request k = perform (Call.write (Write.delete_request k)) (db.delete_request k)

  abbrev pub update_repository : String → RepositoryStatus → Action RepositoryRow
  update_repository k s =
      perform (Call.write (Write.update_repository k s)) (db.update_repository k s)
