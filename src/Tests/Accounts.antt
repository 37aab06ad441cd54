-- ===== src/Tests/Accounts.antt =====
-- Cookies, users, policies and secrets.
use Prim.Native.String.compare.{cons-nil}
use text.Mathlib.Text.{is_eq}
use mathlib.Core.Path.{subst}
use orchestronic_be.Base.{
  String, ℕ, Option, none, some, List, [], ◌∷◌, ◌++◌, ◌≡◌, ◌⊎◌, refl, false, All, ◌===◌,
}
use orchestronic_be.Base.Text.{codes}
use orchestronic_be.Schema.{Role}
use orchestronic_be.Effects.Calls.{Call}
use orchestronic_be.Effects.Monad.{Outcome, returned, thrown, Exception}
use orchestronic_be.Effects.Added.{Adds}
use orchestronic_be.Auth.{
  AuthEnv, Incoming, Claims, Reply, no_claims, test_login, azure_callback, refresh, renew,
  set_cookie, logout,
}
use orchestronic_be.Auth.Cookies.{SafeCookie, cookies_safe}
use orchestronic_be.Auth.Refresh.{SignsWith, Refreshed, refresh-Refreshed}
use orchestronic_be.Auth.Lockout.{LockedOut, refreshed-LockedOut}
use orchestronic_be.Policy.{PolicyTables, azure_update_db}
use orchestronic_be.Policy.Guard.{RefusedChange, ChangedByAdmin, change_policy_cases}
use orchestronic_be.Users.{
  UserTables, UserOutside, extract_gitlab_username, split_slashes, first_segment,
}
use orchestronic_be.Users.Controller.{UserRoute, run}
use orchestronic_be.Users.Roles.{LeavesRoles, ChangedByStaff, user_route_cases}
use orchestronic_be.Secrets.{SecretTables}
use orchestronic_be.Tests.World.{alice, gitlab, session}

-- A signer for claims that have an id and nothing else: the token is the id after a letter.
abbrev sign_parts :
    Option String → Option String → Option Role → Option String → Option String → Outcome String
sign_parts none none none none (some id) = returned (String.◌∷◌ "i" id)
sign_parts _ _ _ _ _ = thrown (Exception.client_error "claims")

abbrev sign : Claims → ℕ → Outcome String
sign c age = sign_parts c.sub c.email c.role c.name c.id

abbrev decode : String → Option Claims
decode String.[] = none
decode (String.◌∷◌ c s) = some (record no_claims { id = some s })

abbrev auth_env : AuthEnv
auth_env = record {
  frontend_url = some (codes "https://app.example.org");
  cookie_domain = some (codes "example.org");
  vercel = none;
  node_env = some (codes "production");
  cookie_secure = none;
  jwt_secret = some "secret";
  sign = sign;
  verify = λ token secret. decode token;
  write_cookie = λ c. returned tt;
}

sign-decode :
    (sub email : Option String) (role : Option Role) (name id : Option String) (token : String)
    → sign_parts sub email role name id ≡ returned token
    → decode token ≡ some (record { sub = sub; id = id; email = email; role = role; name = name })
sign-decode none none none none (some id) token e =
    let same : String.◌∷◌ "i" id ≡ token = cc in
    subst (λ t. decode t ≡ some (record no_claims { id = some id })) same refl
sign-decode none none none none none token e = absurd (cc)
sign-decode none none none (some n) id token e = absurd (cc)
sign-decode none none (some r) name id token e = absurd (cc)
sign-decode none (some x) role name id token e = absurd (cc)
sign-decode (some s) email role name id token e = absurd (cc)

sign_parts-nonempty :
    (sub email : Option String) (role : Option Role) (name id : Option String) (token : String)
    → sign_parts sub email role name id ≡ returned token
    → (token === "") ≡ false
sign_parts-nonempty none none none none (some id) token e =
    let same : String.◌∷◌ "i" id ≡ token = cc in
    subst (λ t. (t === "") ≡ false) same (λ i. is_eq (cons-nil "i" id i))
sign_parts-nonempty none none none none none token e = absurd (cc)
sign_parts-nonempty none none none (some n) id token e = absurd (cc)
sign_parts-nonempty none none (some r) name id token e = absurd (cc)
sign_parts-nonempty none (some x) role name id token e = absurd (cc)
sign_parts-nonempty (some s) email role name id token e = absurd (cc)

signs : SignsWith auth_env "secret"
signs = record {
  verified = λ c age token e. sign-decode c.sub c.email c.role c.name c.id token e;
  not_empty = λ c age token e. sign_parts-nonempty c.sub c.email c.role c.name c.id token e;
}

abbrev browser : Incoming
browser = record {
  forwarded_proto = none;
  secure = false;
  protocol = codes "http";
  access_token = none;
  refresh_token = some "ialice";
}

refreshed : (refresh auth_env browser []).0 ≡ returned (Reply.access "ialice")
unfolding refresh renew set_cookie
refreshed = refl

refresh-Refreshed_example : Refreshed auth_env "secret" refl signs browser [] "ialice"
refresh-Refreshed_example =
    refresh-Refreshed auth_env "secret" refl signs browser [] "ialice" refreshed

refreshed-LockedOut_example : LockedOut auth_env "secret" refl signs browser [] "ialice"
refreshed-LockedOut_example =
    refreshed-LockedOut auth_env "secret" refl signs browser [] "ialice" refreshed

abbrev alice_claims : Claims
alice_claims = record no_claims { id = some "alice" }

cookies_safe_example :
    Adds (SafeCookie auth_env browser) (test_login auth_env browser)
    × Adds (SafeCookie auth_env browser) (azure_callback auth_env browser alice_claims)
    × Adds (SafeCookie auth_env browser) (refresh auth_env browser)
    × Adds (SafeCookie auth_env browser) (logout auth_env browser)
cookies_safe_example = cookies_safe auth_env browser alice_claims

abbrev policies : PolicyTables
policies = record {
  first = λ t name h. returned none;
  create = λ t d h. returned d;
  update_many = λ t d h. returned 1;
}

change_policy_cases_example :
    RefusedChange policies (session Role.admin) (azure_update_db (record { max_storage = 100 })) []
    ⊎ ChangedByAdmin policies
        (session Role.admin)
        (azure_update_db (record { max_storage = 100 }))
        []
change_policy_cases_example =
    change_policy_cases policies (session Role.admin)
      (azure_update_db (record { max_storage = 100 })) []

abbrev user_tables : UserTables
user_tables = record {
  unique = λ k h. returned (some alice);
  all = λ h. returned (alice ∷ []);
  fuzzy = λ text h. returned (alice ∷ []);
  create = λ u h. returned alice;
  update = λ id p h. returned alice;
}

abbrev users_out : UserOutside
users_out = record { users = user_tables; gitlab = gitlab; pathname = λ url. returned "/alice" }

username : extract_gitlab_username users_out "https://gitlab.example.org/alice" ≡ returned "alice"
unfolding extract_gitlab_username split_slashes first_segment
username = refl

user_route_cases_example :
    ((cs : List Call) × ((run users_out
          (session Role.it)
          (UserRoute.change_role "bob" Role.admin)
          []).1
        ≡ cs ++ [])
      × All LeavesRoles cs)
    ⊎ ChangedByStaff users_out (session Role.it) (UserRoute.change_role "bob" Role.admin) []
user_route_cases_example =
    user_route_cases users_out (session Role.it) (UserRoute.change_role "bob" Role.admin) []

abbrev secrets : SecretTables
secrets = record {
  first = λ owner p h. returned none;
  create = λ owner d h. thrown (Exception.client_error "P2002");
  update = λ id owner d h. thrown (Exception.client_error "P2025");
  delete = λ id owner h. thrown (Exception.client_error "P2025");
}
