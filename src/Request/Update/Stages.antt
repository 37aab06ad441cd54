-- ===== src/Request/Update/Stages.antt =====
-- What each stage of an approval does to the outside.
use orchestronic_be.Gitlab.Found.{
  FoundUser, FoundProject, get_user_by_username-FoundUser, get_project_by_name-FoundProject,
  get_user_by_username-calls,
}
use orchestronic_be.Base.{
  String, Option, none, some, List, [], ◌∷◌, ◌≡◌, refl, arith, inl, inr, or_else,
}
use orchestronic_be.Schema.{GitlabId, CollaboratorRow, RequestRow, RepositoryRow, UserRow}
use orchestronic_be.Effects.Data.{UserKey, RepositoryKey}
use orchestronic_be.Effects.Calls.{Call, GitlabCall, Query, History, effects, messages}
use orchestronic_be.Effects.Monad.{Action, returned, for_each, Outcome-cases, Keeps, for_each-Keeps}
use orchestronic_be.Gitlab.{
  GitlabProject, GitlabUser, get_user_by_username, create_project_for_a_user, get_project_by_name,
  invite_user_to_project,
}
use orchestronic_be.Request.Update.{
  Outside, invite, invite_id, invited_id, add_members, set_up_project,
}

-- The members that the loop adds, in the order of the collaborators: those with a positive id.
abbrev pub invitations : List CollaboratorRow → List GitlabId
invitations [] = []
invitations (c ∷ cs) = elim (invited_id c) [ none ↦ invitations cs | some i ↦ i ∷ invitations cs ]

-- Their requests, the latest first, on top of what came before.
abbrev pub posted : GitlabProject → List GitlabId → List Call → List Call
posted p [] before = before
posted p (i ∷ is) before = posted p is (Call.gitlab (GitlabCall.post_member p.id i) ∷ before)

module _ (out : Outside) where
  invite-effects :
      (p : GitlabProject) (o : Option GitlabId) (h : History)
      → (invite_id out p o h).0 ≡ returned tt
      → effects (invite_id out p o h).1 ≡ (elim o [
        | none ↦ effects h
        | some i ↦ Call.gitlab (GitlabCall.post_member p.id i) ∷ effects h
      ])
  unfolding invite_id invite_user_to_project
  invite-effects p none h e = refl
  invite-effects p (some i) h e = ground arith

  invite-messages :
      (p : GitlabProject) (o : Option GitlabId) (h : History)
      → messages (invite_id out p o h).1 ≡ messages h
  unfolding invite_id invite_user_to_project
  invite-messages p none h = refl
  invite-messages p (some i) h = ground arith

  -- A loop that ends has added exactly the members of `invitations`, in order.
  pub for_each-invite-effects :
      (p : GitlabProject) (cs : List CollaboratorRow) (h : History)
      → (for_each (invite out p) cs h).0 ≡ returned tt
      → effects (for_each (invite out p) cs h).1 ≡ posted p (invitations cs) (effects h)
  unfolding for_each invite
  for_each-invite-effects p [] h e = refl
  for_each-invite-effects p (c ∷ cs) h e = ground (
    arith,
    invite-effects p (invited_id c) h,
    for_each-invite-effects p cs (invite_id out p (invited_id c) h).1,
  )

  -- The loop sends no message to the workers, however it ends.
  pub for_each-invite-messages :
      (p : GitlabProject) (cs : List CollaboratorRow) → Keeps messages (for_each (invite out p) cs)
  unfolding invite
  for_each-invite-messages p cs =
      for_each-Keeps messages (invite out p) cs (λ c. invite-messages p (invited_id c))

  find_project-effects : (name : String) → Keeps effects (get_project_by_name out.gitlab name)
  unfolding get_project_by_name
  find_project-effects name h = ground arith

  find_project-messages : (name : String) → Keeps messages (get_project_by_name out.gitlab name)
  unfolding get_project_by_name
  find_project-messages name h = ground arith

  user-messages : (username : String) → Keeps messages (get_user_by_username out.gitlab username)
  unfolding get_user_by_username
  user-messages username h = ground arith

  create_project-calls :
      (username name description : String) (h : History) (p : GitlabProject)
      → (create_project_for_a_user out.gitlab username name description h).0 ≡ returned p
      → (u : GitlabUser) × FoundUser out.gitlab username h u
        × ((create_project_for_a_user out.gitlab username name description h).1
            ≡ Call.gitlab (GitlabCall.post_project_for u.id name description)
              ∷ Call.gitlab (GitlabCall.get_user username)
              ∷ h)
  unfolding create_project_for_a_user
  create_project-calls username name description h p e =
      elim (Outcome-cases (get_user_by_username out.gitlab username h).0) [
        | inl (u, q) ↦ (
          u,
          get_user_by_username-FoundUser out.gitlab username h u q,
          ground (arith, get_user_by_username-calls out.gitlab username h),
        )
        | inr (x, q) ↦ absurd (ground arith)
      ]

  create_project-messages :
      (username name description : String)
      → Keeps messages (create_project_for_a_user out.gitlab username name description)
  unfolding create_project_for_a_user
  create_project-messages username name description h = ground (arith, user-messages username h)

  -- The histories after the two queries of `set_up_project`, and the run of its next call.
  abbrev after_repository : RequestRow → History → History
  after_repository updated h =
      Call.read (Query.repository_unique (RepositoryKey.by_id updated.repository.id)) ∷ h

  abbrev after_owner : RequestRow → History → History
  after_owner updated h =
      Call.read (Query.user_unique (UserKey.by_id (some updated.owner.id)))
      ∷ after_repository updated h

  abbrev made_project : UserRow → RepositoryRow → Action GitlabProject
  made_project o r =
      create_project_for_a_user out.gitlab (or_else o.gitlab_name "") r.name
        (or_else r.description "")

  -- The history after the two calls that create the project.
  abbrev after_project : RequestRow → RepositoryRow → UserRow → GitlabUser → History → History
  after_project updated r o u h =
      Call.gitlab (GitlabCall.post_project_for u.id r.name (or_else r.description ""))
      ∷ Call.gitlab (GitlabCall.get_user (or_else o.gitlab_name ""))
      ∷ after_owner updated h

  -- A project that is set up has been created for the user that GitLab finds under the GitLab name
  -- of the owner, and the project that it then finds under the name of the repository has got its
  -- members.
  pub record SetUp (updated : RequestRow) (h h' : History) : Type 0 where
    pub repository : RepositoryRow
    pub repository_found :
        out.db.repository_unique_or_throw (RepositoryKey.by_id updated.repository.id) h
        ≡ returned repository
    pub owner : UserRow
    pub owner_found :
        out.db.user_unique_or_throw
          (UserKey.by_id (some updated.owner.id))
          (Call.read (Query.repository_unique (RepositoryKey.by_id updated.repository.id)) ∷ h)
        ≡ returned owner
    pub gitlab_owner : GitlabUser
    pub owner_named :
        FoundUser out.gitlab (or_else owner.gitlab_name "") (after_owner updated h) gitlab_owner
    pub project : GitlabProject
    pub project_named :
        FoundProject out.gitlab repository.name
          (after_project updated repository owner gitlab_owner h)
          project
    pub done :
        effects h'
        ≡ posted project (invitations repository.collaborators) (
            Call.gitlab (
              GitlabCall.post_project_for gitlab_owner.id repository.name
                (or_else repository.description ""))
            ∷ effects h)

  add_members-messages : (r : RepositoryRow) → Keeps messages (add_members out r)
  unfolding add_members
  add_members-messages r h = elim (Outcome-cases (get_project_by_name out.gitlab r.name h).0) [
    | inl (some p, q) ↦ ground (
      arith,
      find_project-messages r.name h,
      for_each-invite-messages p r.collaborators (get_project_by_name out.gitlab r.name h).1,
    )
    | inl (none, q) ↦ ground (arith, find_project-messages r.name h)
    | inr (x, q) ↦ ground (arith, find_project-messages r.name h)
  ]

  add_members-effects :
      (r : RepositoryRow) (h : History)
      → (add_members out r h).0 ≡ returned tt
      → (p : GitlabProject) × ((get_project_by_name out.gitlab r.name h).0 ≡ returned (some p))
        × (effects (add_members out r h).1 ≡ posted p (invitations r.collaborators) (effects h))
  unfolding add_members
  add_members-effects r h e = elim (Outcome-cases (get_project_by_name out.gitlab r.name h).0) [
    | inl (some p, q) ↦ (
      p,
      q,
      ground (
        arith,
        find_project-effects r.name h,
        for_each-invite-effects p r.collaborators (get_project_by_name out.gitlab r.name h).1,
      ),
    )
    | inl (none, q) ↦ absurd (ground arith)
    | inr (x, q) ↦ absurd (ground arith)
  ]

  -- A set-up that returns has created the project and added the members.
  pub set_up_project-SetUp :
      (updated : RequestRow) (h : History)
      → (set_up_project out updated h).0 ≡ returned tt
      → SetUp updated h (set_up_project out updated h).1
  unfolding set_up_project
  set_up_project-SetUp updated h e =
      elim (Outcome-cases
        (out.db.repository_unique_or_throw (RepositoryKey.by_id updated.repository.id) h)) [
          | inr (x, q) ↦ absurd (ground arith)
          | inl (r, q) ↦
              elim (Outcome-cases (
                out.db.user_unique_or_throw (UserKey.by_id (some updated.owner.id))
                  (after_repository updated h))) [
                    | inr (x, q') ↦ absurd (ground arith)
                    | inl (o, q') ↦
                        elim (Outcome-cases (made_project o r (after_owner updated h)).0) [
                          | inr (x, q'') ↦ absurd (ground arith)
                          | inl (p, q'') ↦
                              let (u, named, created) =
                                create_project-calls (or_else o.gitlab_name "") r.name
                                  (or_else r.description "") (after_owner updated h) p q'' in
                              let (project, found, added) =
                                add_members-effects r (made_project o r (after_owner updated h)).1
                                  (ground arith) in
                              record {
                                repository = r;
                                repository_found = q;
                                owner = o;
                                owner_found = q';
                                gitlab_owner = u;
                                owner_named = named;
                                project = project;
                                project_named = rw created at (
                                    get_project_by_name-FoundProject out.gitlab r.name
                                      (made_project o r (after_owner updated h)).1 project found);
                                done = ground arith;
                              }
                        ]
                  ]
        ]

  pub set_up_project-messages : (updated : RequestRow) → Keeps messages (set_up_project out updated)
  unfolding set_up_project
  set_up_project-messages updated h =
      elim (Outcome-cases
        (out.db.repository_unique_or_throw (RepositoryKey.by_id updated.repository.id) h)) [
          | inr (x, q) ↦ ground arith
          | inl (r, q) ↦
              elim (Outcome-cases (
                out.db.user_unique_or_throw (UserKey.by_id (some updated.owner.id))
                  (after_repository updated h))) [
                    | inr (x, q') ↦ ground arith
                    | inl (o, q') ↦ ground (
                      arith,
                      create_project-messages (or_else o.gitlab_name "") r.name
                          (or_else r.description "") (after_owner updated h),
                      add_members-messages r (made_project o r (after_owner updated h)).1,
                    )
                  ]
        ]
