-- ===== src/Gitlab/Controller.antt =====
-- src/gitlab/gitlab.controller.ts and src/rabbitmq/rabbitmq.controller.ts: none of these routes
-- reads a token. An id in a path is the number that `Number` or `+` reads of it.
use orchestronic_be.Base.{ℕ, String, Option, none, some, List, [], ◌∷◌, Bool, ◌||◌, if◌then◌else◌}
use orchestronic_be.Base.Text.{Text, trim, text_eq}
use orchestronic_be.Env.{text_or_empty}
use orchestronic_be.Patterns.{contains}
use orchestronic_be.Effects.Monad.{Action, Response, pure, ◌>>=◌}
use orchestronic_be.Messaging.{
  Queued, queue_request, queue_resource, destroy_request, destroy_k8s_request,
}
use orchestronic_be.GitlabSync.{SyncOutside, sync_repositories}
use orchestronic_be.Gitlab.{
  GitlabApi, GitlabUser, GitlabProject, RegistryImage, create_project, create_project_for_a_user,
  list_users, find_one, approve_user, reject_user, get_image_from_registry, remove,
}

-- src/gitlab/dto/create-gitlab.dto.ts
pub record CreateGitlabDto : Type 0 where
  pub name : String
  pub description : String

-- `!search || search.trim() === ''`
abbrev pub is_blank : Option Text → Bool
is_blank search = text_eq (trim (text_or_empty search)) []

-- `toLowerCase` is an argument.
module _ (to_lower_case : Text → Text) where
  abbrev pub field_includes : Text → Option Text → Bool
  field_includes lower none = contains lower []
  field_includes lower (some s) = contains lower (to_lower_case s)

  unfoldable pub user_includes : Text → GitlabUser → Bool
  user_includes lower u =
      field_includes lower u.username || field_includes lower u.email || field_includes lower u.name

  unfoldable pub users_with : Text → List GitlabUser → List GitlabUser
  users_with lower [] = []
  users_with lower (u ∷ us) =
      let rest = users_with lower us in if user_includes lower u then u ∷ rest else rest

  abbrev pub searched : Option Text → List GitlabUser → List GitlabUser
  searched search users =
      if is_blank search then users else users_with (to_lower_case (text_or_empty search)) users

  unfoldable pub get_users_route : GitlabApi → Option Text → Action (List GitlabUser)
  get_users_route api search = do users ← list_users api; pure (searched search users)

module _ (api : GitlabApi) where
  unfoldable pub create_route : CreateGitlabDto → Action GitlabProject
  create_route dto = create_project api dto.name dto.description

  unfoldable pub create_for_user_route : String → CreateGitlabDto → Action GitlabProject
  create_for_user_route username dto =
      create_project_for_a_user api username dto.name dto.description

  unfoldable pub find_one_route : String → Action (List GitlabProject)
  find_one_route name = find_one api name

  unfoldable pub approve_user_route : ℕ → Action String
  approve_user_route id = approve_user api id

  unfoldable pub reject_user_route : ℕ → Action String
  reject_user_route id = reject_user api id

  unfoldable pub image_route : ℕ → Action RegistryImage
  image_route project_id = get_image_from_registry api project_id

  unfoldable pub remove_project_route : ℕ → Action (Response (Unit {0}))
  remove_project_route id = remove api id

unfoldable pub sync_route : SyncOutside → Action (Unit {0})
sync_route out = sync_repositories out

-- The four routes of the queues.
unfoldable pub queue_request_route : String → Action Queued
queue_request_route request_id = queue_request request_id

unfoldable pub queue_resource_route : String → Action Queued
queue_resource_route resource_id = queue_resource resource_id

unfoldable pub destroy_request_route : String → Action Queued
destroy_request_route request_id = destroy_request request_id

unfoldable pub destroy_k8s_route : String → Action Queued
destroy_k8s_route resource_id = destroy_k8s_request resource_id
