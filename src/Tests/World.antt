-- ===== src/Tests/World.antt =====
-- One user, one repository and one request, and the servers that answer about them.
use mathlib.Core.Path.{subst}
use orchestronic_be.Base.{String, Option, none, some, [], ◌∷◌, true, false, ◌≡◌, refl, or_else}
use orchestronic_be.Base.Text.{Text, codes}
use orchestronic_be.Base.Lists.{All}
use orchestronic_be.Schema.{
  Role, Status, RepositoryStatus, CloudProvider, plus, UserRow, RepositoryRow, RequestRow,
  ResourcesRow,
}
use orchestronic_be.Effects.Data.{RequestKey, RequestPatch}
use orchestronic_be.Effects.Monad.{Outcome, returned, data_of, failed, Response}
use orchestronic_be.Effects.Prisma.{Prisma}
use orchestronic_be.Gitlab.{GitlabApi, GitlabUser, GitlabProject}
use orchestronic_be.Messaging.{AirflowApi}
use orchestronic_be.Session.{Session, payload}
use orchestronic_be.Request.Dto.{BackendJwtPayload, CreateRepositoryDto}
use orchestronic_be.Request.Update.{Outside}
use orchestronic_be.Request.Query.Visibility.{Asks, HonoursWhere}

abbrev pub alice : UserRow
alice = record {
  id = "alice";
  name = "Alice";
  email = "alice@example.org";
  role = Role.developer;
  gitlab_url = none;
  gitlab_id = some (plus 7);
  gitlab_name = some "alice";
}

abbrev pub shop : RepositoryRow
shop = record {
  id = "repo";
  name = "shop";
  description = some "A shop";
  status = RepositoryStatus.pending;
  collaborators =
      record { user_id = "alice"; gitlab_user_id = plus 0; user = alice }
      ∷ record { user_id = "alice"; gitlab_user_id = plus 8; user = alice }
      ∷ [];
}

abbrev pub request_row : String → Text → Status → RequestRow
request_row owner code status = record {
  id = "req";
  status = status;
  description = "";
  owner_id = owner;
  display_code = code;
  feedback = none;
  resources_id = some "res";
  repository = shop;
  owner = alice;
}

abbrev pub azure_resources : ResourcesRow
azure_resources = record {
  id = "res";
  name = "group";
  region = "east";
  resource_config_id = "config";
  cloud_provider = CloudProvider.azure;
}

abbrev patched : RequestPatch → Status
patched (RequestPatch.set_status s) = s
patched (RequestPatch.set_feedback _) = Status.pending

abbrev keyed : RequestKey → RequestRow
keyed (RequestKey.by_id id) = request_row "alice" (codes "R-4") Status.pending
keyed (RequestKey.by_code code owner) = request_row (or_else owner "alice") code Status.pending

-- Every user has a request with every code.
abbrev pub db : Prisma
db = record {
  user_unique = λ k h. returned (some alice);
  user_unique_or_throw = λ k h. returned alice;
  user_many = λ w h. returned (alice ∷ []);
  repository_unique = λ k h. returned none;
  repository_unique_or_throw = λ k h. returned shop;
  request_unique = λ k h. returned (some (keyed k));
  request_unique_or_throw = λ k h. returned (keyed k);
  request_many =
      λ w h. returned (request_row (or_else w.owner_id "alice") (codes "R-4") Status.pending ∷ []);
  request_latest = λ h. returned (some (request_row "alice" (codes "R-4") Status.pending));
  resources_unique_or_throw = λ id h. returned azure_resources;
  create_resource_config = λ c h. returned (record { id = "config" });
  create_resources = λ r h. returned azure_resources;
  create_repository = λ r h. returned shop;
  create_request =
      λ r h. returned (request_row (or_else r.owner_id "alice") r.display_code Status.pending);
  update_request = λ id p h. returned (request_row "alice" (codes "R-4") (patched p));
  delete_request = λ id h. returned (request_row "alice" (codes "R-4") Status.deleted);
  update_repository = λ id s h. returned shop;
}

or_else-Asks : (o : Option String) → Asks o (or_else o "alice")
or_else-Asks none = tt
or_else-Asks (some s) = refl

pub db-HonoursWhere : HonoursWhere db
db-HonoursWhere = record {
  many = λ w h rs e.
      let same : request_row (or_else w.owner_id "alice") (codes "R-4") Status.pending ∷ [] ≡ rs =
        cc in
      subst (λ x. All (λ r. Asks w.owner_id r.owner_id) x) same (or_else-Asks w.owner_id, tt);
  unique = λ code owner h r e.
      let same : request_row (or_else owner "alice") code Status.pending ≡ r = cc in
      subst (λ x. (x.display_code ≡ code) × Asks owner x.owner_id) same (refl, or_else-Asks owner);
}

abbrev pub gitlab_user : GitlabUser
gitlab_user = record {
  id = 7;
  bot = false;
  is_admin = false;
  username = some (codes "alice");
  email = none;
  name = some (codes "Alice Ng");
}

abbrev pub gitlab_project : GitlabProject
gitlab_project = record { id = 3; name = "shop" }

abbrev answer : {D : Type 0} → D → Outcome (Response D)
answer d = returned (record { ok = true; text = ""; json = returned d })

abbrev pub gitlab : GitlabApi
gitlab = record {
  get_user = λ name h. answer (some (gitlab_user ∷ []));
  get_users = λ h. answer (gitlab_user ∷ []);
  get_projects = λ name h. answer (gitlab_project ∷ []);
  get_projects_raw = λ name h. answer (gitlab_project ∷ []);
  get_registry =
      λ id h. answer (record { name = some "shop"; location = some "registry/shop" } ∷ []);
  post_project = λ name d h. answer gitlab_project;
  post_project_for = λ id name d h. answer gitlab_project;
  post_approve = λ id h. answer tt;
  post_reject = λ id h. answer tt;
  post_member = λ p id h. answer tt;
  delete_project = λ id h. answer tt;
}

abbrev pub airflow : AirflowApi
airflow = record { dag_run = λ dag h. data_of "queued" }

abbrev pub broken_airflow : AirflowApi
broken_airflow = record { dag_run = λ dag h. failed none }

abbrev pub out : Outside
out = record { db = db; gitlab = gitlab; airflow = airflow }

abbrev pub caller : Role → BackendJwtPayload
caller role = record { id = some "alice"; email = none; role = some role }

abbrev pub session : Role → Session
session role = record {
  access_token = some "token";
  jwt_secret = some "secret";
  verify = λ token secret. payload (caller role);
}

abbrev pub no_session : Session
no_session = record {
  access_token = none;
  jwt_secret = some "secret";
  verify = λ token secret. payload (caller Role.admin);
}

abbrev pub new_repository : CreateRepositoryDto
new_repository = record {
  name = "shop";
  description = some "A shop";
  collaborators = some (record { user_id = "alice"; gitlab_user_id = plus 7 } ∷ []);
}
