-- ===== src/Users.antt =====
-- Users: src/user/user.service.ts, and the find-or-create of
-- src/auth/strategies/azure-ad.strategy.ts. The tables, the GitLab client and `new URL` are
-- arguments.
pub mod Controller
pub mod Roles
use Prim.Native.Char.{Char, code}
use Prim.Native.String
use orchestronic_be.Base.{String, Option, none, some, List, [], ◌∷◌, ◌==◌, ◌===◌, if◌then◌else◌}
use orchestronic_be.Schema.{Role, UserRow}
use orchestronic_be.Effects.Data.{UserKey, UserCreate, UserPatch}
use orchestronic_be.Effects.Calls.{Call, Query, Write, History}
use orchestronic_be.Effects.Monad.{
  Exception, Outcome, returned, thrown, Action, pure, perform, ◌>>=◌, ◌>>◌,
}
use orchestronic_be.Gitlab.{GitlabApi, get_user_by_username}
use orchestronic_be.Session.{lift}

pub record UserTables : Type 0 where
  pub unique : UserKey → History → Outcome (Option UserRow)
  pub all : History → Outcome (List UserRow)
  -- the first five whose address contains the text, in any letter case
  pub fuzzy : String → History → Outcome (List UserRow)
  pub create : UserCreate → History → Outcome UserRow
  pub update : Option String → UserPatch → History → Outcome UserRow

pub record UserOutside : Type 0 where
  pub users : UserTables
  pub gitlab : GitlabApi
  -- `new URL(text).pathname`
  pub pathname : String → Outcome String

onto_first : Char → List String → List String
onto_first c [] = String.◌∷◌ c String.[] ∷ []
onto_first c (s ∷ ss) = String.◌∷◌ c s ∷ ss

-- `s.split('/')`
unfoldable pub split_slashes : String → List String
unfolding onto_first
split_slashes String.[] = String.[] ∷ []
split_slashes (String.◌∷◌ c s) =
    let rest = split_slashes s in if code c == b'/' then String.[] ∷ rest else onto_first c rest

-- `segments.filter(Boolean)[0]`
unfoldable pub first_segment : List String → Option String
first_segment [] = none
first_segment (s ∷ ss) = let rest = first_segment ss in if s === "" then rest else some s

abbrev username_or : Option String → Outcome String
username_or none = thrown (Exception.error "No username found in GitLab URL")
username_or (some name) = returned name

abbrev path_username : Outcome String → Outcome String
path_username (returned path) = username_or (first_segment (split_slashes path))
path_username (thrown e) = thrown e

abbrev or_bad_url : Outcome String → Outcome String
or_bad_url (returned name) = returned name
or_bad_url (thrown _) = thrown (Exception.bad_request "Invalid GitLab URL")

unfoldable pub extract_gitlab_username : UserOutside → String → Outcome String
extract_gitlab_username out gitlab_url = or_bad_url (path_username (out.pathname gitlab_url))

abbrev gitlab_url_of : Option UserRow → Option String
gitlab_url_of none = none
gitlab_url_of (some u) = u.gitlab_url

module _ (out : UserOutside) where
  unfoldable pub create_user : UserCreate → Action UserRow
  create_user user = perform (Call.write (Write.create_user user)) (out.users.create user)

  unfoldable pub update_user : Option String → UserPatch → Action UserRow
  update_user id patch =
      perform (Call.write (Write.update_user id patch)) (out.users.update id patch)

  unfoldable pub update_role : String → Role → Action UserRow
  update_role id role = update_user (some id) (UserPatch.set_role role)

  unfoldable pub find_unique : UserKey → Action (Option UserRow)
  find_unique key = perform (Call.read (Query.user_unique key)) (out.users.unique key)

  unfoldable pub find_by_email : String → Action (Option UserRow)
  find_by_email email = find_unique (UserKey.by_email email)

  unfoldable pub find_all_users : Action (List UserRow)
  find_all_users = perform (Call.read Query.user_all) out.users.all

  unfoldable pub fuzzy_find_users_by_email : String → Action (List UserRow)
  fuzzy_find_users_by_email email =
      perform (Call.read (Query.user_fuzzy email)) (out.users.fuzzy email)

  unfoldable pub add_gitlab_url : Option String → String → Action UserRow
  add_gitlab_url user_id gitlab_url = do
    username ← lift (extract_gitlab_username out gitlab_url)
    gitlab_user ← get_user_by_username out.gitlab username
    update_user user_id (UserPatch.set_gitlab gitlab_url gitlab_user.id username)

  unfoldable pub get_gitlab_url : Option String → Action (Option String)
  get_gitlab_url user_id = do user ← find_unique (UserKey.by_id user_id); pure (gitlab_url_of user)

  abbrev pub find_or_create : String → String → Option UserRow → Action UserRow
  find_or_create email name (some user) = pure user
  find_or_create email name none =
      create_user (record { name = name; email = email; role = Role.developer })

  -- `validate` of the Azure strategy, with two fields of the profile.
  unfoldable pub validate : String → String → Action UserRow
  validate email name = do user ← find_by_email email; find_or_create email name user
