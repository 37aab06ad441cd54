-- ===== src/Users/Controller.antt =====
-- src/user/user.controller.ts.
use orchestronic_be.Base.{
  String, Option, none, some, List, [], ◌∷◌, Bool, true, false, not, ◌===◌, or_else, if◌then◌else◌,
}
use orchestronic_be.Schema.{Role, UserRow}
use orchestronic_be.Effects.Data.{UserCreate}
use orchestronic_be.Effects.Monad.{
  Exception, returned, thrown, Action, pure, throw, throw_if, rethrow_as, ◌>>=◌, ◌>>◌,
}
use orchestronic_be.Session.{
  Session, authenticate, lift, nonempty_text, nonempty_token, invalid_token,
}
use orchestronic_be.Request.Dto.{BackendJwtPayload}
use orchestronic_be.Request.Query.{is_staff}
use orchestronic_be.Users.{
  UserOutside, create_user, update_role, find_by_email, find_all_users, fuzzy_find_users_by_email,
  add_gitlab_url, get_gitlab_url,
}

-- The role, and whether the token has an address.
abbrev pub is_role : Option Role → Bool
is_role none = false
is_role (some _) = true

abbrev pub has_email : BackendJwtPayload → Bool
has_email user = is_text (nonempty_text user.email)
  where
    is_text : Option String → Bool
    is_text none = false
    is_text (some _) = true

abbrev pub nonempty_users : String → List UserRow → Action (List UserRow)
nonempty_users message [] = throw (Exception.not_found message)
nonempty_users message (u ∷ us) = pure (u ∷ us)

abbrev pub some_user : Option UserRow → Action UserRow
some_user none = throw (Exception.not_found "USER_NOT_FOUND")
some_user (some u) = pure u

-- `PrismaClientKnownRequestError` with the code P2002
abbrev pub or_conflict : Exception → Exception
or_conflict (Exception.client_error code) =
    if code === "P2002"
    then Exception.conflict "Email already exists"
    else Exception.client_error code
or_conflict e = e

abbrev pub unauthorized_role : Exception
unauthorized_role = Exception.unauthorized "Invalid token - unable to process"

abbrev pub invalid : Exception
invalid = Exception.unauthorized "Invalid token"

-- The routes of the controller, with their arguments.
pub data UserRoute : Type 0 where
  find_all me get_gitlab : UserRoute
  change_role : String → Role → UserRoute
  create : UserCreate → UserRoute
  set_gitlab by_email fuzzy : String → UserRoute

pub data UserReply : Type 0 where
  user : Option UserRow → UserReply
  users : List UserRow → UserReply
  gitlab_url : Option String → UserReply

module _ (out : UserOutside) (s : Session) where
  -- The checks of a verified user are inside `try`, whose `catch` replaces what they throw; the
  -- services are not awaited there.
  unfoldable pub update_role_route : String → Role → Action UserReply
  update_role_route id role = do
    caller ← lift (authenticate s (λ _. unauthorized_role))
    rethrow_as unauthorized_role (
        throw_if (not (is_staff caller.role))
          (Exception.forbidden "You do not have permission to update roles"))
    row ← update_role out id role
    pure (UserReply.user (some row))

  unfoldable pub create_user_route : UserCreate → Action UserReply
  create_user_route body h =
      let (o, h') = create_user out body h in
      elim o [
        | returned u ↦ (returned (UserReply.user (some u)), h')
        | thrown e ↦ (thrown (or_conflict e), h')
      ]

  unfoldable pub update_gitlab_url_route : String → Action UserReply
  update_gitlab_url_route url = do
    caller ← lift (authenticate (nonempty_token s) invalid_token)
    rethrow_as invalid (
        throw_if (not (has_email caller)) (Exception.unauthorized "User not authenticated")
        >> throw_if (not (is_role caller.role))
            (Exception.forbidden "You do not have permission to update GitLab URL"))
    row ← add_gitlab_url out caller.id url
    pure (UserReply.user (some row))

  unfoldable pub get_gitlab_url_route : Action UserReply
  get_gitlab_url_route = do
    caller ← lift (authenticate (nonempty_token s) invalid_token)
    rethrow_as invalid
        (throw_if (not (has_email caller)) (Exception.unauthorized "User not authenticated"))
    url ← get_gitlab_url out caller.id
    pure (UserReply.gitlab_url url)

  unfoldable pub find_all_users_route : Action UserReply
  find_all_users_route = do
    rows ← find_all_users out
    found ← nonempty_users "User not found" rows
    pure (UserReply.users found)

  unfoldable pub find_by_email_route : String → Action UserReply
  find_by_email_route email = do
    row ← find_by_email out email
    found ← some_user row
    pure (UserReply.user (some found))

  unfoldable pub fuzzy_find_route : String → Action UserReply
  fuzzy_find_route email = do
    rows ← fuzzy_find_users_by_email out email
    found ← nonempty_users "USER_NOT_FOUND" rows
    pure (UserReply.users found)

  unfoldable pub me_route : Action UserReply
  me_route = do
    caller ← lift (authenticate s invalid_token)
    row ← find_by_email out (or_else caller.email "")
    pure (UserReply.user row)

  abbrev pub run : UserRoute → Action UserReply
  run UserRoute.find_all = find_all_users_route
  run UserRoute.me = me_route
  run UserRoute.get_gitlab = get_gitlab_url_route
  run (UserRoute.change_role id role) = update_role_route id role
  run (UserRoute.create body) = create_user_route body
  run (UserRoute.set_gitlab url) = update_gitlab_url_route url
  run (UserRoute.by_email email) = find_by_email_route email
  run (UserRoute.fuzzy email) = fuzzy_find_route email
