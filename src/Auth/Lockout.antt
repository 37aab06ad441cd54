-- ===== src/Auth/Lockout.antt =====
-- What a refreshed access token is good for on the other routes: it names no role.
use orchestronic_be.Base.{
  String, Option, none, some, ◌≡◌, refl, arith, false, ◌===◌, inl, inr, Bool-cases, ap, sym, ◌∙◌,
}
use orchestronic_be.Schema.{Role, Status}
use orchestronic_be.Effects.Calls.{History}
use orchestronic_be.Effects.Monad.{Exception, Outcome, returned, thrown}
use orchestronic_be.Messaging.{AirflowApi, trigger_dag}
use orchestronic_be.Session.{
  Session, Verification, payload, rejected, TokenError, IsVerified, IsVerified-authenticate,
  nonempty_text, invalid_token,
}
use orchestronic_be.Request.Dto.{BackendJwtPayload}
use orchestronic_be.Request.Query.{is_staff}
use orchestronic_be.Request.Update.{Outside, update_request_info}
use orchestronic_be.Request.Update.Roleless.{started, update_request_info-started}
use orchestronic_be.Request.Controller.{
  update_feedback_route, update_status_route, unauthorized_feedback,
}
use orchestronic_be.Request.Controller.Access.{update_feedback_refused}
use orchestronic_be.Policy.{PolicyTables, PolicyChange, change_policy_route}
use orchestronic_be.Policy.Guard.{change_policy_cases}
use orchestronic_be.Users.{UserOutside}
use orchestronic_be.Users.Controller.{update_role_route, unauthorized_role}
use orchestronic_be.Airflow.{trigger_dag_route}
use orchestronic_be.Auth.{AuthEnv, Incoming, Claims, Reply, no_claims, refresh}
use orchestronic_be.Auth.Refresh.{SignsWith, refresh-Refreshed}

-- The claims as the other controllers read them.
abbrev pub payload_of : Claims → BackendJwtPayload
payload_of c = record { id = c.id; email = c.email; role = c.role }

abbrev verification : Option Claims → Verification
verification none = rejected (TokenError.other "JsonWebTokenError")
verification (some c) = payload (payload_of c)

-- A request to the same process that sends this access token.
abbrev pub session_with : AuthEnv → String → Session
session_with env token = record {
  access_token = some token;
  jwt_secret = env.jwt_secret;
  verify = λ t k. verification (env.verify t k);
}

nonempty_text-some :
    (o : Option String) (k : String)
    → nonempty_text o ≡ some k
    → (o ≡ some k) × ((k === "") ≡ false)
nonempty_text-some none k e = absurd cc
nonempty_text-some (some s) k e = elim (Bool-cases (s === "")) [
  | inl empty ↦ absurd (ground arith)
  | inr full ↦ let same : s ≡ k = ground arith in (ground arith, ground arith)
]

module _ (env : AuthEnv) (secret : String) (configured : nonempty_text env.jwt_secret ≡ some secret)
    (signs : SignsWith env secret) (req : Incoming) (h : History) (token : String) where
  abbrev s : Session
  s = session_with env token

  -- The user that the other controllers see: an id without a role.
  refreshed-IsVerified :
      (refresh env req h).0 ≡ returned (Reply.access token)
      → (user : BackendJwtPayload) × IsVerified s user × (user.role ≡ none)
  refreshed-IsVerified e =
      let r = refresh-Refreshed env secret configured signs req h token e in
      let (set, full) = nonempty_text-some env.jwt_secret secret configured in
      let claims = record no_claims { id = r.payload.id } in
      (
        payload_of claims,
        record {
          token = token;
          secret = secret;
          sent = refl;
          configured = set;
          nonempty = full;
          accepted = ap verification r.new_claims;
        },
        refl,
      )

  -- What a request with the token cannot do, and what a decision with it does.
  pub record LockedOut : Type 0 where
    pub user : BackendJwtPayload
    pub roleless : user.role ≡ none
    pub policies :
        (db : PolicyTables) (change : PolicyChange) (g : History)
        → (e : Exception) × (change_policy_route db s change g ≡ (thrown e, g))
    pub roles :
        (out : UserOutside) (id : String) (role : Role) (g : History)
        → update_role_route out s id role g ≡ (thrown unauthorized_role, g)
    pub feedback :
        (out : Outside) (id : String) (text : Option String) (g : History)
        → update_feedback_route out s id text g ≡ (thrown unauthorized_feedback, g)
    pub dags :
        (api : AirflowApi) (dag : String) (g : History)
        → trigger_dag_route api s dag g
          ≡ (thrown (Exception.unauthorized "You do not have permission to trigger DAGs"), g)
    pub decisions :
        (out : Outside) (id : String) (status : Status) (g : History)
        → (update_status_route out s id status g ≡ update_request_info out user id status g)
          × (started (update_status_route out s id status g).1 ≡ started g)

  -- With an access token that a refresh gave, whatever the role of the user was: no policy and no
  -- role can be changed, no feedback given and no DAG triggered, each refused without a call; and
  -- a decision on a request is handed to the service with the user of the token, who has no role,
  -- and starts no DAG, also when it approves.
  pub refreshed-LockedOut : (refresh env req h).0 ≡ returned (Reply.access token) → LockedOut
  unfolding update_role_route update_status_route trigger_dag_route trigger_dag
  refreshed-LockedOut e =
      let (user, v, nobody) = refreshed-IsVerified e in
      let other : is_staff user.role ≡ false = rw nobody refl in
      record {
        user = user;
        roleless = nobody;
        policies = λ db change g. elim (change_policy_cases db s change g) [
          | inl r ↦ (r.reason, r.no_call)
          | inr c ↦
              let mine = IsVerified-authenticate s invalid_token user v in
              let theirs = IsVerified-authenticate s invalid_token c.user c.verified in
              let same : ◌≡◌ {A = Outcome BackendJwtPayload} (returned user) (returned c.user) =
                sym mine ∙ theirs in
              let admin = c.admin in absurd (ground arith)
        ];
        roles = λ out id role g.
            ground (arith, IsVerified-authenticate s (λ _. unauthorized_role) user v);
        feedback = λ out id text g. update_feedback_refused out s user v g id text other;
        dags = λ api dag g. ground (
          arith,
          IsVerified-authenticate s
              (λ _. Exception.unauthorized "Invalid token - unable to process") user v,
        );
        decisions = λ out id status g.
            let known = IsVerified-authenticate s invalid_token user v in
            let quiet = update_request_info-started out user id nobody status g in
            (ground arith, ground arith);
      }
