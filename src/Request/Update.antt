-- ===== src/Request/Update.antt =====
-- `updateRequestInfo` and `updateRequestFeedback` of src/request/request.service.ts: the decision
-- on a request, and what an approval sets off.
pub mod Stages
pub mod Approval
pub mod Decisions
pub mod Roleless
use orchestronic_be.Base.{
  zero, suc, String, Option, none, some, Bool, true, false, not, if◌then◌else◌, or_else, concat,
  ◌===◌,
}
use orchestronic_be.Schema.{
  Status, CloudProvider, RepositoryStatus, GitlabId, plus, minus, CollaboratorRow, RepositoryRow,
  RequestRow,
}
use orchestronic_be.Effects.Data.{UserKey, RepositoryKey, RequestKey, RequestPatch}
use orchestronic_be.Effects.Monad.{Exception, Action, pure, throw, detach, for_each, ◌>>=◌, ◌>>◌}
use orchestronic_be.Effects.Prisma.{
  Prisma, find_user_or_throw, find_repository_or_throw, find_request_or_throw,
  find_resources_or_throw, update_request, update_repository,
}
use orchestronic_be.Gitlab.{
  GitlabApi, GitlabProject, create_project_for_a_user, get_project_by_name, invite_user_to_project,
}
use orchestronic_be.Messaging.{AirflowApi, queue_request, trigger_dag}
use orchestronic_be.Request.Dto.{BackendJwtPayload}

-- The outside of the request service.
pub record Outside : Type 0 where
  pub db : Prisma
  pub gitlab : GitlabApi
  pub airflow : AirflowApi

abbrev pub is_positive : GitlabId → Bool
is_positive (plus zero) = false
is_positive (plus (suc _)) = true
is_positive (minus _) = false

-- `gitlabId` of a collaborator: the id on the collaboration if positive, else the user's, which may
-- be absent; `none` where the loop skips the collaborator.
abbrev pub positive : Option GitlabId → Option GitlabId
positive none = none
positive (some i) = if is_positive i then some i else none

abbrev pub invited_id : CollaboratorRow → Option GitlabId
invited_id c =
    positive (if is_positive c.gitlab_user_id then some c.gitlab_user_id else c.user.gitlab_id)

abbrev pub is_approved : Status → Bool
is_approved Status.approved = true
is_approved _ = false

-- The DAG that creates the resources of a request, by provider.
abbrev pub resources_dag : CloudProvider → String
resources_dag CloudProvider.aws = "AWS_Resources"
resources_dag CloudProvider.azure = "AZURE_Resource_Group"

abbrev found_project : String → Option GitlabProject → Action GitlabProject
found_project name none =
    throw (Exception.error (concat "GitLab project not found after creation: " name))
found_project name (some p) = pure p

-- `feedback || null`
abbrev null_if_empty : Option String → Option String
null_if_empty none = none
null_if_empty (some s) = if s === "" then none else some s

module _ (out : Outside) where
  invite_id : GitlabProject → Option GitlabId → Action (Unit {0})
  invite_id project none = pure tt
  invite_id project (some i) = invite_user_to_project out.gitlab project.id i

  -- One round of the loop over the collaborators.
  unfoldable pub invite : GitlabProject → CollaboratorRow → Action (Unit {0})
  unfolding invite_id
  invite project c = invite_id project (invited_id c)

  -- The members of the project that a search for the repository's name finds first.
  unfoldable pub add_members : RepositoryRow → Action (Unit {0})
  add_members repository = do
    found ← get_project_by_name out.gitlab repository.name
    project ← found_project repository.name found
    for_each (invite project) repository.collaborators

  -- The GitLab project of an approved request, with its members.
  unfoldable pub set_up_project : RequestRow → Action (Unit {0})
  set_up_project updated = do
    repository ← find_repository_or_throw out.db (RepositoryKey.by_id updated.repository.id)
    gitlab_owner ← find_user_or_throw out.db (UserKey.by_id (some updated.owner.id))
    create_project_for_a_user out.gitlab (or_else gitlab_owner.gitlab_name "") repository.name
        (or_else repository.description "")
    add_members repository

  -- The message and the DAG run for the resources. The message is not waited for, nor the run.
  unfoldable pub provision : BackendJwtPayload → String → Option String → Action (Unit {0})
  provision user id none = pure tt
  provision user id (some resources_id) = do
    info ← find_resources_or_throw out.db resources_id
    queue_request id
    detach (trigger_dag out.airflow user.role (resources_dag info.cloud_provider))

  unfoldable pub on_approval : BackendJwtPayload → String → RequestRow → Action RequestRow
  on_approval user id updated = do
    entry ← find_request_or_throw out.db (RequestKey.by_id id)
    set_up_project updated
    update_repository out.db updated.repository.id RepositoryStatus.created
    provision user id entry.resources_id
    pure updated

  unfoldable pub update_request_info : BackendJwtPayload → String → Status → Action RequestRow
  update_request_info user id status = do
    updated ← update_request out.db id (RequestPatch.set_status status)
    if is_approved updated.status then on_approval user id updated else pure updated

  unfoldable pub update_request_feedback : String → Option String → Action RequestRow
  update_request_feedback id feedback =
      update_request out.db id (RequestPatch.set_feedback (null_if_empty feedback))
