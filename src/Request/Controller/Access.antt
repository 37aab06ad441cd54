-- ===== src/Request/Controller/Access.antt =====
-- Which callers reach the request service.
use orchestronic_be.Effects.Prisma.{find_request_or_throw, update_repository, update_request}
use orchestronic_be.Effects.Data.{RequestKey, RequestPatch}
use mathlib.Core.Path.{fun_ext}
use orchestronic_be.Messaging.{trigger_dag}
use orchestronic_be.Base.{
  String, Option, none, some, ◌≡◌, refl, arith, inl, inr, false, ap, if◌then◌else◌,
}
use orchestronic_be.Base.Text.{Text}
use orchestronic_be.Schema.{Role, Status, RepositoryStatus}
use orchestronic_be.Effects.Calls.{History}
use orchestronic_be.Effects.Monad.{Exception, thrown, Outcome-cases, ◌>>=◌, ◌>>◌, pure}
use orchestronic_be.Session.{
  Session, TokenError, authenticate, IsVerified, authenticate-IsVerified, IsVerified-authenticate,
  invalid_token, unprocessable,
}
use orchestronic_be.Request.Dto.{BackendJwtPayload, CreateAzureRequestDto, CreateAwsRequestDto}
use orchestronic_be.Request.Update.{
  Outside, provision, on_approval, update_request_info, set_up_project, is_approved,
}
use orchestronic_be.Request.Query.{is_staff}
use orchestronic_be.Request.Controller.{
  find_all_route, display_code_route, create_azure_route, create_aws_route, update_status_route,
  update_feedback_route, unauthorized_feedback,
}

module _ (out : Outside) (s : Session) (h : History)
    (unverified : (p : BackendJwtPayload) → ¬ IsVerified s p) where
  refused : (catch : TokenError → Exception) → (e : Exception) × (authenticate s catch ≡ thrown e)
  refused catch = elim (Outcome-cases (authenticate s catch)) [
    | inl (p, q) ↦ absurd (unverified p (authenticate-IsVerified s catch p q))
    | inr r ↦ r
  ]

  -- Without a token that the secret verifies, none of the six routes that ask for one makes any
  -- call: nothing is read, written or sent.
  pub unverified_calls_nothing :
      (code : Text) (azure : CreateAzureRequestDto) (aws : CreateAwsRequestDto) (id : String)
      (status : Status) (feedback : Option String)
      → ((find_all_route out s h).1 ≡ h)
        × ((display_code_route out s code h).1 ≡ h)
        × ((create_azure_route out s azure h).1 ≡ h)
        × ((create_aws_route out s aws h).1 ≡ h)
        × ((update_status_route out s id status h).1 ≡ h)
        × ((update_feedback_route out s id feedback h).1 ≡ h)
  unfolding find_all_route display_code_route create_azure_route create_aws_route
      update_status_route update_feedback_route
  unverified_calls_nothing code azure aws id status feedback =
      let (e, q) = refused invalid_token in
      let (e', q') = refused unprocessable in
      let (e'', q'') = refused (λ _. unauthorized_feedback) in
      (ground arith, ground arith, ground arith, ground arith, ground arith, ground arith)

module _ (out : Outside) (s : Session) (p : BackendJwtPayload) (v : IsVerified s p)
    (h : History) where
  -- Feedback from a user that is neither Admin nor IT is refused without any call; the refusal is
  -- an unauthorized exception that speaks of the token.
  pub update_feedback_refused :
      (id : String) (feedback : Option String)
      → is_staff p.role ≡ false
      → update_feedback_route out s id feedback h ≡ (thrown unauthorized_feedback, h)
  unfolding update_feedback_route
  update_feedback_refused id feedback other =
      ground (arith, IsVerified-authenticate s (λ _. unauthorized_feedback) p v)

-- Two users with any roles of the schema set off the same on an approval.
provision_any_role :
    (out : Outside) (user user' : BackendJwtPayload) (role role' : Role) (id : String)
    → user.role ≡ some role
    → user'.role ≡ some role'
    → (o : Option String) (h : History) → provision out user id o h ≡ provision out user' id o h
unfolding provision trigger_dag
provision_any_role out user user' role role' id e e' none h = refl
provision_any_role out user user' role role' id e e' (some r) h = ground arith

module _ (out : Outside) (user user' : BackendJwtPayload) (role role' : Role) (id : String)
    (e : user.role ≡ some role) (e' : user'.role ≡ some role') where
  same_provision : provision out user id ≡ provision out user' id
  same_provision =
      fun_ext (λ o. fun_ext (λ h. provision_any_role out user user' role role' id e e' o h))

  same_approval : on_approval out user id ≡ on_approval out user' id
  unfolding on_approval
  same_approval = λ i updated. do
    entry ← find_request_or_throw out.db (RequestKey.by_id id)
    set_up_project out updated
    update_repository out.db updated.repository.id RepositoryStatus.created
    same_provision i entry.resources_id
    pure updated

  same_update :
      (status : Status)
      → update_request_info out user id status ≡ update_request_info out user' id status
  unfolding update_request_info
  same_update status = λ i. do
    updated ← update_request out.db id (RequestPatch.set_status status)
    if is_approved updated.status then same_approval i updated else pure updated

-- Whoever holds a verified token decides on a request as an Admin does: a request to change the
-- status has the same outcome and makes the same calls for any two roles.
pub update_status_any_role :
    (out : Outside) (s s' : Session) (p p' : BackendJwtPayload) (role role' : Role) (id : String)
    (status : Status) (h : History)
    → IsVerified s p
    → IsVerified s' p'
    → p.role ≡ some role
    → p'.role ≡ some role'
    → update_status_route out s id status h ≡ update_status_route out s' id status h
unfolding update_status_route
update_status_any_role out s s' p p' role role' id status h v v' e e' =
    let same = ap (λ run. run h) (same_update out p p' role role' id e e' status) in
    ground (
      arith,
      same,
      IsVerified-authenticate s invalid_token p v,
      IsVerified-authenticate s' invalid_token p' v',
    )
