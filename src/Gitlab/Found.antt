-- ===== src/Gitlab/Found.antt =====
-- What an answer of the GitLab client says about the answers of GitLab.
use orchestronic_be.Base.{
  ℕ, String, Option, none, some, List, [], ◌∷◌, ◌≡◌, arith, inl, inr, true, Bool-cases,
}
use orchestronic_be.Effects.Calls.{Call, GitlabCall, History}
use orchestronic_be.Effects.Monad.{returned, Outcome-cases, Response}
use orchestronic_be.Gitlab.{
  GitlabApi, GitlabUser, GitlabProject, RegistryRepository, RegistryImage, get_user_by_username,
  get_project_by_name, get_image_from_registry,
}

module _ (api : GitlabApi) where
  -- GitLab answered the search for a user of this name with this user first.
  pub record FoundUser (name : String) (h : History) (u : GitlabUser) : Type 0 where
    pub response : Response (Option (List GitlabUser))
    pub others : List GitlabUser
    pub answered : api.get_user name h ≡ returned response
    pub succeeded : response.ok ≡ true
    pub first : response.json ≡ returned (some (u ∷ others))

  -- GitLab answered the search for projects of this name with this project first.
  pub record FoundProject (name : String) (h : History) (p : GitlabProject) : Type 0 where
    pub response : Response (List GitlabProject)
    pub others : List GitlabProject
    pub answered : api.get_projects name h ≡ returned response
    pub succeeded : response.ok ≡ true
    pub first : response.json ≡ returned (p ∷ others)

  pub get_user_by_username-FoundUser :
      (name : String) (h : History) (u : GitlabUser)
      → (get_user_by_username api name h).0 ≡ returned u
      → FoundUser name h u
  unfolding get_user_by_username
  get_user_by_username-FoundUser name h u e = elim (Outcome-cases (api.get_user name h)) [
    | inr (x, q) ↦ absurd (ground arith)
    | inl (response, q) ↦ elim (Bool-cases response.ok) [
      | inr bad ↦ absurd (ground arith)
      | inl good ↦ elim (Outcome-cases response.json) [
        | inr (x, j) ↦ absurd (ground arith)
        | inl (none, j) ↦ absurd (ground arith)
        | inl (some [], j) ↦ absurd (ground arith)
        | inl (some (v ∷ others), j) ↦
            let same : v ≡ u = ground arith in
            record {
              response = response;
              others = others;
              answered = q;
              succeeded = good;
              first = rw same at j;
            }
      ]
    ]
  ]

  pub get_project_by_name-FoundProject :
      (name : String) (h : History) (p : GitlabProject)
      → (get_project_by_name api name h).0 ≡ returned (some p)
      → FoundProject name h p
  unfolding get_project_by_name
  get_project_by_name-FoundProject name h p e = elim (Outcome-cases (api.get_projects name h)) [
    | inr (x, q) ↦ absurd (ground arith)
    | inl (response, q) ↦ elim (Bool-cases response.ok) [
      | inr bad ↦ absurd (ground arith)
      | inl good ↦ elim (Outcome-cases response.json) [
        | inr (x, j) ↦ absurd (ground arith)
        | inl ([], j) ↦ absurd (ground arith)
        | inl (v ∷ others, j) ↦
            let same : v ≡ p = ground arith in
            record {
              response = response;
              others = others;
              answered = q;
              succeeded = good;
              first = rw same at j;
            }
      ]
    ]
  ]

  -- GitLab answered for the registry of the project with this repository first.
  pub record FoundImage (id : ℕ) (h : History) (entry : RegistryImage) : Type 0 where
    pub response : Response (List RegistryRepository)
    pub repository : RegistryRepository
    pub others : List RegistryRepository
    pub answered : api.get_registry id h ≡ returned response
    pub succeeded : response.ok ≡ true
    pub first : response.json ≡ returned (repository ∷ others)
    pub same_name : entry.name ≡ repository.name
    pub same_place : entry.image ≡ repository.location

  pub get_image_from_registry-FoundImage :
      (id : ℕ) (h : History) (entry : RegistryImage)
      → (get_image_from_registry api id h).0 ≡ returned entry
      → FoundImage id h entry
  unfolding get_image_from_registry
  get_image_from_registry-FoundImage id h entry e = elim (Outcome-cases (api.get_registry id h)) [
    | inr (x, q) ↦ absurd (ground arith)
    | inl (response, q) ↦ elim (Bool-cases response.ok) [
      | inr bad ↦ absurd (ground arith)
      | inl good ↦ elim (Outcome-cases response.json) [
        | inr (x, j) ↦ absurd (ground arith)
        | inl ([], j) ↦ absurd (ground arith)
        | inl (v ∷ others, j) ↦ record {
          response = response;
          repository = v;
          others = others;
          answered = q;
          succeeded = good;
          first = j;
          same_name = ground arith;
          same_place = ground arith;
        }
      ]
    ]
  ]

  -- Each of them makes one request, however it ends.
  pub get_user_by_username-calls :
      (username : String) (h : History)
      → (get_user_by_username api username h).1 ≡ Call.gitlab (GitlabCall.get_user username) ∷ h
  unfolding get_user_by_username
  get_user_by_username-calls username h = ground arith

  pub get_project_by_name-calls :
      (name : String) (h : History)
      → (get_project_by_name api name h).1 ≡ Call.gitlab (GitlabCall.get_projects name) ∷ h
  unfolding get_project_by_name
  get_project_by_name-calls name h = ground arith

  pub get_image_from_registry-calls :
      (id : ℕ) (h : History)
      → (get_image_from_registry api id h).1 ≡ Call.gitlab (GitlabCall.get_registry id) ∷ h
  unfolding get_image_from_registry
  get_image_from_registry-calls id h = ground arith
