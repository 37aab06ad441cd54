-- ===== src/Request/Controller.antt =====
-- src/request/request.controller.ts. The services are asynchronous and not awaited inside `try`, so
-- only what the check of the token throws is caught there.
pub mod Access
use orchestronic_be.Base.{String, Option, List, not}
use orchestronic_be.Base.Text.{Text}
use orchestronic_be.Schema.{Status, RequestRow}
use orchestronic_be.Effects.Monad.{Exception, Action, throw_if, rethrow_as, ◌>>=◌, ◌>>◌}
use orchestronic_be.Session.{Session, authenticate, has_token, lift, invalid_token, unprocessable}
use orchestronic_be.Request.Dto.{CreateAzureRequestDto, CreateAwsRequestDto}
use orchestronic_be.Request.DisplayCode.{is_display_code}
use orchestronic_be.Request.Create.{create_request_azure, create_request_aws}
use orchestronic_be.Request.Update.{Outside, update_request_info, update_request_feedback}
use orchestronic_be.Request.Query
use orchestronic_be.Request.Query.{
  is_staff, find_all, find_by_status, find_with_request_display_code, remove_request,
}

abbrev pub unauthorized_feedback : Exception
unauthorized_feedback = Exception.unauthorized "Invalid token - unable to process"

module _ (out : Outside) (s : Session) where
  unfoldable pub find_all_route : Action (List RequestRow)
  find_all_route = do user ← lift (authenticate s invalid_token); find_all out.db user

  -- The code is checked after the cookie and the secret, and before the token.
  unfoldable pub display_code_route : Text → Action RequestRow
  display_code_route display_code = do
    lift (has_token s)
    throw_if (not (is_display_code display_code))
        (Exception.bad_request "Invalid displayCode format. Expected format: R-<number>")
    user ← lift (authenticate s unprocessable)
    find_with_request_display_code out.db display_code user

  unfoldable pub create_azure_route : CreateAzureRequestDto → Action RequestRow
  create_azure_route request = do
    user ← lift (authenticate s unprocessable)
    create_request_azure out.db request user

  unfoldable pub create_aws_route : CreateAwsRequestDto → Action RequestRow
  create_aws_route request = do
    user ← lift (authenticate s unprocessable)
    create_request_aws out.db request user

  unfoldable pub update_status_route : String → Status → Action RequestRow
  update_status_route id status = do
    user ← lift (authenticate s invalid_token)
    update_request_info out user id status

  -- The role is checked inside the `try`, whose `catch` replaces every exception.
  unfoldable pub update_feedback_route : String → Option String → Action RequestRow
  update_feedback_route id feedback = do
    user ← lift (authenticate s (λ _. unauthorized_feedback))
    rethrow_as unauthorized_feedback (
        throw_if (not (is_staff user.role))
          (Exception.forbidden "You do not have permission to update feedback"))
    update_request_feedback out id feedback

-- These two read no token.
unfoldable pub find_by_status_route : Outside → Status → Action (List RequestRow)
find_by_status_route out status = find_by_status out.db status

unfoldable pub remove_route : Outside → String → Action RequestRow
remove_route out id = remove_request out.db id

-- `+id`, whose text the service asks for; the conversion is an argument.
unfoldable pub find_by_id_route : (String → String) → Outside → String → Action (Option RequestRow)
find_by_id_route number_text out id = Query.find_by_id out.db (number_text id)
