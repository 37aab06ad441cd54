-- ===== src/Request/Query.antt =====
-- The reads and the deletion of src/request/request.service.ts.
pub mod Visibility
use orchestronic_be.Base.{String, Option, none, some, List, Bool, true, false, if◌then◌else◌}
use orchestronic_be.Base.Text.{Text}
use orchestronic_be.Schema.{Role, Status, RequestRow}
use orchestronic_be.Effects.Data.{RequestKey}
use orchestronic_be.Effects.Monad.{Exception, Action, pure, throw, ◌>>=◌, ◌>>◌}
use orchestronic_be.Effects.Prisma.{Prisma, find_request, find_requests, delete_request}
use orchestronic_be.Request.Dto.{BackendJwtPayload}

-- `user.role === Role.Admin || user.role === Role.IT`
abbrev pub is_staff : Option Role → Bool
is_staff (some Role.admin) = true
is_staff (some Role.it) = true
is_staff _ = false

-- The owner that the `where` of a user names: none for the staff, and none, since Prisma takes
-- undefined as no condition, for a token without an id.
abbrev pub owner_filter : BackendJwtPayload → Option String
owner_filter user = if is_staff user.role then none else user.id

abbrev found_or_throw : Option RequestRow → Action RequestRow
found_or_throw none = throw (Exception.not_found "Request not found or has been deleted")
found_or_throw (some r) = pure r

module _ (db : Prisma) where
  unfoldable pub find_all : BackendJwtPayload → Action (List RequestRow)
  find_all user = find_requests db (record { status = none; owner_id = owner_filter user })

  unfoldable pub find_by_status : Status → Action (List RequestRow)
  find_by_status status = find_requests db (record { status = some status; owner_id = none })

  unfoldable pub find_with_request_display_code : Text → BackendJwtPayload → Action RequestRow
  find_with_request_display_code display_code user = do
    request ← find_request db (RequestKey.by_code display_code (owner_filter user))
    found_or_throw request

  unfoldable pub remove_request : String → Action RequestRow
  remove_request id = delete_request db id

  -- The id is the text of a number.
  unfoldable pub find_by_id : String → Action (Option RequestRow)
  find_by_id id = find_request db (RequestKey.by_id id)
