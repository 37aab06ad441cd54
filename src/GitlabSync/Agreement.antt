-- ===== src/GitlabSync/Agreement.antt =====
-- After a synchronisation both sides have the same names.
use orchestronic_be.Base.{Bool, String, List, ◌∷◌, ◌≡◌, refl, arith, not, ◌&&◌, map, ap, ◌∙◌}
use orchestronic_be.Schema.{RepositoryRow}
use orchestronic_be.Effects.Calls.{Call, Query, GitlabCall, History}
use orchestronic_be.Effects.Monad.{returned, for_each}
use orchestronic_be.Gitlab.{GitlabProject}
use orchestronic_be.GitlabSync.{
  SyncOutside, included, keep_named, project_name, repository_name, beyond, delete_from_gitlab,
  delete_from_db, delete_unmatched, sync_repositories,
}
use orchestronic_be.GitlabSync.Replay.{
  Store, replay, UniqueIds, Serves, included-keep_named, without_all-beyond, rows_without,
  rows_without-keep_named, projects_loop, rows_loop,
}

abbrev pub has_project : Store → String → Bool
has_project s n = included (map project_name s.projects) n

abbrev pub has_repository : Store → String → Bool
has_repository s n = included (map repository_name s.repositories) n

module _ (out : SyncOutside) (start : Store) (serves : Serves out start) (h : History) where
  abbrev pub before : Store
  before = replay start h

  abbrev pub after : Store
  after = replay start (sync_repositories out h).1

  abbrev reads : History
  reads = Call.read Query.repository_all ∷ Call.gitlab GitlabCall.get_all_projects ∷ h

  abbrev extra_projects : List GitlabProject
  extra_projects = beyond project_name (map repository_name before.repositories) before.projects

  abbrev extra_rows : List RepositoryRow
  extra_rows = beyond repository_name (map project_name before.projects) before.repositories

  abbrev after_projects : History
  after_projects = (for_each (delete_from_gitlab out) extra_projects reads).1

  sync_calls :
      (sync_repositories out h).1 ≡ (for_each (delete_from_db out) extra_rows after_projects).1
  unfolding sync_repositories delete_unmatched
  sync_calls =
      let listed = serves.listed h in
      let rows = serves.rows (Call.gitlab GitlabCall.get_all_projects ∷ h) in
      let loop = projects_loop out start serves extra_projects reads in ground (arith, loop.0)

  projects_left :
      UniqueIds before.projects
      → after.projects
        ≡ keep_named project_name
            (included (map repository_name before.repositories))
            before.projects
  projects_left u =
      let loop = projects_loop out start serves extra_projects reads in
      let rows = rows_loop out start serves extra_rows after_projects in
      ap (λ k. (replay start k).projects) sync_calls
      ∙ rows.1
      ∙ loop.1
      ∙ without_all-beyond (map repository_name before.repositories) before.projects u

  rows_left : after.repositories ≡ rows_without extra_rows before.repositories
  rows_left =
      let loop = projects_loop out start serves extra_projects reads in
      let rows = rows_loop out start serves extra_rows after_projects in
      ap (λ k. (replay start k).repositories) sync_calls
      ∙ rows.0
      ∙ ap (rows_without extra_rows) loop.2

  row_names :
      (n : String)
      → included (map repository_name (rows_without extra_rows before.repositories)) n
        ≡ (has_project before n && has_repository before n)
  row_names n =
      let left = rows_without-keep_named extra_rows before.repositories n in
      let extra =
        included-keep_named repository_name
          (λ m. not (included (map project_name before.projects) m)) before.repositories n in
      ground arith

  -- When GitLab gives all its projects in one answer, with different ids, the database gives its rows,
  -- and both delete what they are asked to, a synchronisation returns, and afterwards a name is that of a project of GitLab
  -- exactly when it was that of a project and of a repository before, and so for the repositories.
  pub synchronised :
      (u : UniqueIds before.projects) (n : String)
      → ((sync_repositories out h).0 ≡ returned tt)
        × (has_project after n ≡ (has_project before n && has_repository before n))
        × (has_repository after n ≡ (has_project before n && has_repository before n))
  unfolding sync_repositories
  synchronised u n = (
    refl,
    (ap (λ ps. included (map project_name ps) n) (projects_left u)
        ∙ included-keep_named project_name (included (map repository_name before.repositories))
            before.projects n),
    ap (λ rs. included (map repository_name rs) n) rows_left ∙ row_names n,
  )
