-- ===== src/Gitlab.antt =====
-- src/gitlab/gitlab.service.ts: the client of the GitLab API, which is an argument here.
pub mod Controller
pub mod Found
pub mod Search
use orchestronic_be.Base.Text.{Text}
use orchestronic_be.Base.{
  ℕ, String, Bool, Option, none, some, List, [], ◌∷◌, if◌then◌else◌, not, ◌||◌, concat,
}
use orchestronic_be.Schema.{GitlabId}
use orchestronic_be.Effects.Calls.{Call, GitlabCall, History}
use orchestronic_be.Effects.Monad.{
  Exception, Outcome, Action, Response, pure, throw, throw_if, perform, ◌>>=◌, ◌>>◌,
}

-- The fields that the services read of a user, a project and a registry repository.
pub record GitlabUser : Type 0 where
  pub id : ℕ
  pub bot : Bool
  pub is_admin : Bool
  pub username : Option Text
  pub email : Option Text
  pub name : Option Text

pub record GitlabProject : Type 0 where
  pub id : ℕ
  pub name : String

pub record RegistryRepository : Type 0 where
  pub name : Option String
  pub location : Option String

-- What GitLab answers after a history; a list of users may come as something that is no array.
pub record GitlabApi : Type 0 where
  pub get_user : String → History → Outcome (Response (Option (List GitlabUser)))
  pub get_users : History → Outcome (Response (List GitlabUser))
  pub get_projects : String → History → Outcome (Response (List GitlabProject))
  pub get_projects_raw : String → History → Outcome (Response (List GitlabProject))
  pub get_registry : ℕ → History → Outcome (Response (List RegistryRepository))
  pub post_project : String → String → History → Outcome (Response GitlabProject)
  pub post_project_for : ℕ → String → String → History → Outcome (Response GitlabProject)
  pub post_approve : ℕ → History → Outcome (Response (Unit {0}))
  pub post_reject : ℕ → History → Outcome (Response (Unit {0}))
  pub post_member : ℕ → GitlabId → History → Outcome (Response (Unit {0}))
  pub delete_project : ℕ → History → Outcome (Response (Unit {0}))

abbrev json_of : {A : Type 0} → Response A → Action A
json_of r h = (r.json, h)

-- `if (!response.ok) throw new Error(...)`, then `response.json()`
abbrev json_if_ok : {A : Type 0} → String → Response A → Action A
json_if_ok what r = throw_if (not r.ok) (Exception.error (concat what r.text)) >> json_of r

-- The same, then `response.text()`.
abbrev text_if_ok : {A : Type 0} → String → Response A → Action String
text_if_ok what r = throw_if (not r.ok) (Exception.error (concat what r.text)) >> pure r.text

abbrev api_error : String
api_error = "GitLab API error: "

-- `!Array.isArray(users) || users.length === 0` throws, else `users[0]`
abbrev pub first_user : String → Option (List GitlabUser) → Action GitlabUser
first_user username (some (u ∷ _)) = pure u
first_user username _ =
    throw (Exception.not_found (concat "GitLab user '" (concat username "' not found")))

abbrev pub first_project : List GitlabProject → Option GitlabProject
first_project [] = none
first_project (p ∷ _) = some p

-- `users.filter((u) => !u.bot && !u.is_admin)`
unfoldable pub human_users : List GitlabUser → List GitlabUser
human_users [] = []
human_users (u ∷ us) = let rest = human_users us in if u.bot || u.is_admin then rest else u ∷ rest

pub record RegistryImage : Type 0 where
  pub name : Option String
  pub image : Option String

-- `repos[0]`, whose `name` is read: with no repository that throws.
abbrev first_image : List RegistryRepository → Action RegistryImage
first_image [] = throw (Exception.type_error "name of undefined")
first_image (r ∷ _) = pure (record { name = r.name; image = r.location })

module _ (api : GitlabApi) where
  unfoldable pub create_project : String → String → Action GitlabProject
  create_project name description = do
    response ←
        perform (Call.gitlab (GitlabCall.post_project name description))
          (api.post_project name description)
    json_if_ok api_error response

  unfoldable pub get_user_by_username : String → Action GitlabUser
  get_user_by_username username = do
    response ← perform (Call.gitlab (GitlabCall.get_user username)) (api.get_user username)
    users ← json_if_ok api_error response
    first_user username users

  unfoldable pub create_project_for_a_user : String → String → String → Action GitlabProject
  create_project_for_a_user username name description = do
    gitlab_user ← get_user_by_username username
    response ←
        perform (Call.gitlab (GitlabCall.post_project_for gitlab_user.id name description))
          (api.post_project_for gitlab_user.id name description)
    json_if_ok api_error response

  unfoldable pub find_one : String → Action (List GitlabProject)
  find_one name = do
    response ← perform (Call.gitlab (GitlabCall.get_projects_raw name)) (api.get_projects_raw name)
    json_if_ok api_error response

  -- The response is handed on, whatever its status.
  unfoldable pub remove : ℕ → Action (Response (Unit {0}))
  remove id = perform (Call.gitlab (GitlabCall.delete_project id)) (api.delete_project id)

  unfoldable pub list_users : Action (List GitlabUser)
  list_users = do
    response ← perform (Call.gitlab GitlabCall.get_users) api.get_users
    users ← json_if_ok api_error response
    pure (human_users users)

  unfoldable pub approve_user : ℕ → Action String
  approve_user user_id = do
    response ← perform (Call.gitlab (GitlabCall.post_approve user_id)) (api.post_approve user_id)
    text_if_ok api_error response

  unfoldable pub reject_user : ℕ → Action String
  reject_user user_id = do
    response ← perform (Call.gitlab (GitlabCall.post_reject user_id)) (api.post_reject user_id)
    text_if_ok api_error response

  unfoldable pub get_project_by_name : String → Action (Option GitlabProject)
  get_project_by_name name = do
    response ← perform (Call.gitlab (GitlabCall.get_projects name)) (api.get_projects name)
    projects ← json_if_ok api_error response
    pure (first_project projects)

  -- The message of the exception also names the two ids.
  unfoldable pub invite_user_to_project : ℕ → GitlabId → Action (Unit {0})
  invite_user_to_project project_id user_id = do
    response ←
        perform (Call.gitlab (GitlabCall.post_member project_id user_id))
          (api.post_member project_id user_id)
    json_if_ok "Failed to invite GitLab user: " response

  unfoldable pub get_image_from_registry : ℕ → Action RegistryImage
  get_image_from_registry project_id = do
    response ←
        perform (Call.gitlab (GitlabCall.get_registry project_id)) (api.get_registry project_id)
    repos ← json_if_ok api_error response
    first_image repos
