-- ===== src/Tests/Searched.antt =====
-- A search for users among a person, a bot and an administrator.
use orchestronic_be.Base.{some, none, List, [], ◌∷◌, ◌≡◌, refl, true}
use orchestronic_be.Base.Text.{codes, trim}
use orchestronic_be.Patterns.{contains}
use orchestronic_be.Env.{to_lower_ascii, strip}
use orchestronic_be.Effects.Monad.{Response, returned}
use orchestronic_be.Gitlab.{GitlabApi, GitlabUser, list_users, human_users}
use orchestronic_be.Gitlab.Controller.{get_users_route, users_with, user_includes}
use orchestronic_be.Gitlab.Search.{Selects, IsShown, get_users_route-Selects}
use orchestronic_be.Tests.World.{gitlab, gitlab_user}

abbrev bot_user : GitlabUser
bot_user = record gitlab_user { bot = true }

abbrev bob : GitlabUser
bob = record gitlab_user { username = some (codes "bob"); name = none }

abbrev everybody : Response (List GitlabUser)
everybody = record { ok = true; text = ""; json = returned (gitlab_user ∷ bot_user ∷ bob ∷ []) }

abbrev many_users : GitlabApi
many_users = record gitlab { get_users = λ h. returned everybody }

searches :
    (get_users_route to_lower_ascii many_users (some (codes "CE n")) []).0
    ≡ returned (gitlab_user ∷ [])
unfolding get_users_route list_users human_users users_with user_includes trim contains strip
searches = refl

get_users_route-Selects_example :
    (r : Response (List GitlabUser)) × (users : List GitlabUser) × (many_users.get_users []
      ≡ returned r)
    × (r.ok ≡ true)
    × (r.json ≡ returned users)
    × Selects (IsShown to_lower_ascii (some (codes "CE n"))) users (gitlab_user ∷ [])
get_users_route-Selects_example =
    get_users_route-Selects to_lower_ascii many_users (some (codes "CE n")) [] (gitlab_user ∷ [])
      searches
