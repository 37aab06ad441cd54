-- ===== src/Users/Roles.antt =====
-- Who may change the role of a user.
use orchestronic_be.Base.{
  String, Option, none, some, List, [], ◌∷◌, ◌≡◌, ◌⊎◌, inl, inr, refl, arith, Bool, true, false,
  Bool-cases, All, ◌++◌,
}
use orchestronic_be.Schema.{Role, UserRow}
use orchestronic_be.Effects.Data.{UserKey, UserCreate, UserPatch}
use orchestronic_be.Effects.Calls.{Call, Write, History}
use orchestronic_be.Effects.Monad.{Exception, Action, Outcome-cases}
use orchestronic_be.Effects.Added.{Adds, throw-Adds, pure-Adds, same_calls-Adds, adding}
use orchestronic_be.Gitlab.{GitlabApi, get_user_by_username, first_user, GitlabUser}
use orchestronic_be.Session.{Session, authenticate, IsVerified, authenticate-IsVerified}
use orchestronic_be.Request.Dto.{BackendJwtPayload}
use orchestronic_be.Request.Query.{is_staff}
use orchestronic_be.Users.{
  UserOutside, create_user, update_user, update_role, find_unique, find_by_email, find_all_users,
  fuzzy_find_users_by_email, add_gitlab_url, get_gitlab_url,
}
use orchestronic_be.Users.Controller.{
  UserRoute, run, update_role_route, create_user_route, update_gitlab_url_route,
  get_gitlab_url_route, find_all_users_route, find_by_email_route, fuzzy_find_route, me_route,
  nonempty_users, some_user, unauthorized_role,
}

-- The call writes the role of a user that is there.
abbrev pub sets_role : Call → Bool
sets_role (Call.write (Write.update_user id (UserPatch.set_role role))) = true
sets_role _ = false

abbrev pub LeavesRoles : Call → Type 0
LeavesRoles c = sets_role c ≡ false

-- An action that writes no role.
abbrev Roleless : {A : Type 0} → Action A → Type 0
Roleless m = Adds LeavesRoles m

nonempty_users-Roleless : (e : String) (us : List UserRow) → Roleless (nonempty_users e us)
nonempty_users-Roleless e [] = throw-Adds (Exception.not_found e)
nonempty_users-Roleless e (u ∷ us) = pure-Adds (u ∷ us)

some_user-Roleless : (o : Option UserRow) → Roleless (some_user o)
some_user-Roleless none = throw-Adds (Exception.not_found "USER_NOT_FOUND")
some_user-Roleless (some u) = pure-Adds u

first_user-Roleless : (name : String) (o : Option (List GitlabUser)) → Roleless (first_user name o)
first_user-Roleless name none = throw-Adds _
first_user-Roleless name (some []) = throw-Adds _
first_user-Roleless name (some (u ∷ us)) = pure-Adds u

get_user_by_username-Roleless :
    (api : GitlabApi) (name : String) → Roleless (get_user_by_username api name)
unfolding get_user_by_username
get_user_by_username-Roleless api name = search (adding, first_user-Roleless) depth 8

module _ (out : UserOutside) where
  find_unique-Roleless : (key : UserKey) → Roleless (find_unique out key)
  unfolding find_unique
  find_unique-Roleless key = search adding

  create_user-Roleless : (body : UserCreate) → Roleless (create_user out body)
  unfolding create_user
  create_user-Roleless body = search adding

  add_gitlab_url-Roleless :
      (id : Option String) (url : String) → Roleless (add_gitlab_url out id url)
  unfolding add_gitlab_url update_user
  add_gitlab_url-Roleless id url = search (adding, get_user_by_username-Roleless)

module _ (out : UserOutside) (s : Session) where
  create_user_route-Roleless : (body : UserCreate) → Roleless (create_user_route out s body)
  unfolding create_user_route
  create_user_route-Roleless body =
      same_calls-Adds (create_user out body) (create_user_route out s body)
        (λ h. elim (Outcome-cases (create_user out body h).0) [
          | inl (b, q) ↦ ground arith
          | inr (x, q) ↦ ground arith
        ])
        (create_user-Roleless out body)

  -- A route that asks for another change than that of a role.
  abbrev pub keeps_roles : UserRoute → Bool
  keeps_roles (UserRoute.change_role id role) = false
  keeps_roles _ = true

  route-Roleless : (r : UserRoute) → keeps_roles r ≡ true → Roleless (run out s r)
  unfolding find_all_users_route me_route get_gitlab_url_route update_gitlab_url_route
      find_by_email_route fuzzy_find_route find_all_users find_by_email fuzzy_find_users_by_email
      get_gitlab_url
  route-Roleless UserRoute.find_all k = search (adding, nonempty_users-Roleless)
  route-Roleless UserRoute.me k = search (adding, find_unique-Roleless)
  route-Roleless UserRoute.get_gitlab k = search (adding, find_unique-Roleless) depth 8
  route-Roleless (UserRoute.change_role id role) k = absurd (ground arith)
  route-Roleless (UserRoute.create body) k = create_user_route-Roleless body
  route-Roleless (UserRoute.set_gitlab url) k = search (adding, add_gitlab_url-Roleless) depth 8
  route-Roleless (UserRoute.by_email email) k =
      search (adding, find_unique-Roleless, some_user-Roleless)
  route-Roleless (UserRoute.fuzzy email) k = search (adding, nonempty_users-Roleless)

  -- The caller holds a verified token with the role Admin or IT, and the route is the one that
  -- changes a role, which made one statement.
  pub record ChangedByStaff (r : UserRoute) (h : History) : Type 0 where
    pub caller : BackendJwtPayload
    pub id : String
    pub role : Role
    pub verified : IsVerified s caller
    pub staff : is_staff caller.role ≡ true
    pub route : r ≡ UserRoute.change_role id role
    pub one_write :
        (run out s r h).1 ≡ Call.write (Write.update_user (some id) (UserPatch.set_role role)) ∷ h

  change_role_cases :
      (id : String) (role : Role) (h : History)
      → ((run out s (UserRoute.change_role id role) h).1 ≡ h)
        ⊎ ChangedByStaff (UserRoute.change_role id role) h
  unfolding update_role_route update_role update_user
  change_role_cases id role h = elim (Outcome-cases (authenticate s (λ _. unauthorized_role))) [
    | inr (e, q) ↦ inl (ground arith)
    | inl (caller, q) ↦ elim (Bool-cases (is_staff caller.role)) [
      | inr other ↦ inl (ground arith)
      | inl staff ↦ inr (record {
        caller = caller;
        id = id;
        role = role;
        verified = authenticate-IsVerified s (λ _. unauthorized_role) caller q;
        staff = staff;
        route = refl;
        one_write = elim (Outcome-cases (out.users.update (some id) (UserPatch.set_role role) h)) [
          | inl (u, w) ↦ ground arith
          | inr (x, w) ↦ ground arith
        ];
      })
    ]
  ]

  -- Whatever route of the user controller is called, it adds only calls that change no role of a
  -- user that is there, or it is the route for roles, called with a verified token of an Admin or IT
  -- user, and makes exactly the one statement of its body.
  pub user_route_cases :
      (r : UserRoute) (h : History)
      → ((cs : List Call) × ((run out s r h).1 ≡ cs ++ h) × All LeavesRoles cs) ⊎ ChangedByStaff r h
  user_route_cases (UserRoute.change_role id role) h = elim (change_role_cases id role h) [
    | inl same ↦ inl ([], same, tt)
    | inr c ↦ inr c
  ]
  user_route_cases UserRoute.find_all h = inl ((route-Roleless UserRoute.find_all refl).added h)
  user_route_cases UserRoute.me h = inl ((route-Roleless UserRoute.me refl).added h)
  user_route_cases UserRoute.get_gitlab h = inl ((route-Roleless UserRoute.get_gitlab refl).added h)
  user_route_cases (UserRoute.create body) h =
      inl ((route-Roleless (UserRoute.create body) refl).added h)
  user_route_cases (UserRoute.set_gitlab url) h =
      inl ((route-Roleless (UserRoute.set_gitlab url) refl).added h)
  user_route_cases (UserRoute.by_email email) h =
      inl ((route-Roleless (UserRoute.by_email email) refl).added h)
  user_route_cases (UserRoute.fuzzy email) h =
      inl ((route-Roleless (UserRoute.fuzzy email) refl).added h)
