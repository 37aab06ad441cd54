-- ===== src/GitlabSync.antt =====
-- src/gitlab/gitlab-sync.service.ts: projects that are no repository are deleted from GitLab, and
-- repositories that are no project from the database.
pub mod Replay
pub mod Agreement
use orchestronic_be.Base.{
  ℕ, String, List, [], ◌∷◌, map, Bool, false, not, ◌||◌, ◌===◌, if◌then◌else◌,
}
use orchestronic_be.Schema.{RepositoryRow}
use orchestronic_be.Effects.Calls.{Call, Query, Write, GitlabCall, History}
use orchestronic_be.Effects.Monad.{
  Exception, Outcome, Action, Response, throw_if, perform, for_each, ◌>>=◌, ◌>>◌,
}
use orchestronic_be.Gitlab.{GitlabProject}
use orchestronic_be.Session.{lift}
use orchestronic_be.Project.Deploy.{quietly}

pub record SyncOutside : Type 0 where
  pub projects : History → Outcome (Response (List GitlabProject))
  -- a DELETE, whose status is not looked at
  pub delete_project : ℕ → History → Outcome (Unit {0})
  pub repositories : History → Outcome (List RepositoryRow)
  pub delete_repository : String → History → Outcome RepositoryRow

-- `names.includes(name)`
unfoldable pub included : List String → String → Bool
included [] name = false
included (n ∷ ns) name = let rest = included ns name in n === name || rest

-- `items.filter((item) => test(item.name))`
unfoldable pub keep_named : {A : Type 0} → (A → String) → (String → Bool) → List A → List A
keep_named name_of test [] = []
keep_named name_of test (x ∷ xs) =
    let rest = keep_named name_of test xs in if test (name_of x) then x ∷ rest else rest

abbrev pub project_name : GitlabProject → String
project_name p = p.name

abbrev pub repository_name : RepositoryRow → String
repository_name r = r.name

-- The items whose names are not included.
abbrev pub beyond : {A : Type 0} → (A → String) → List String → List A → List A
beyond name_of names xs = keep_named name_of (λ n. not (included names n)) xs

module _ (out : SyncOutside) where
  unfoldable pub delete_from_gitlab : GitlabProject → Action (Unit {0})
  delete_from_gitlab p =
      quietly (perform (Call.gitlab (GitlabCall.delete_project p.id)) (out.delete_project p.id))

  unfoldable pub delete_from_db : RepositoryRow → Action RepositoryRow
  delete_from_db r =
      perform (Call.write (Write.delete_repository r.name)) (out.delete_repository r.name)

  -- The two loops, on what the two sides have.
  unfoldable pub delete_unmatched : List GitlabProject → List RepositoryRow → Action (Unit {0})
  delete_unmatched gitlab_projects db_repos = do
    for_each delete_from_gitlab (beyond project_name (map repository_name db_repos) gitlab_projects)
    for_each delete_from_db (beyond repository_name (map project_name gitlab_projects) db_repos)

  -- The outer `try` logs what is thrown.
  unfoldable pub sync_repositories : Action (Unit {0})
  sync_repositories = quietly (do
    res ← perform (Call.gitlab GitlabCall.get_all_projects) out.projects
    throw_if (not res.ok) (Exception.error "GitLab API request failed")
    gitlab_projects ← lift res.json
    db_repos ← perform (Call.read Query.repository_all) out.repositories
    delete_unmatched gitlab_projects db_repos)
