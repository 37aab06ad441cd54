-- ===== src/Repositories/Unnamed.antt =====
-- What a token without an id and a role sees, such as a refresh after `test-login` signs.
use orchestronic_be.Base.{none, ◌≡◌, refl, arith, true}
use orchestronic_be.Base.Text.{Text}
use orchestronic_be.Effects.Calls.{History}
use orchestronic_be.Request.Dto.{BackendJwtPayload}
use orchestronic_be.Request.Query.{is_staff, owner_filter, find_all, find_with_request_display_code}
use orchestronic_be.Repositories.{SeenOutside, find_repositories, find_resources}

module _ (out : SeenOutside) (user staff : BackendJwtPayload) (unnamed : user.id ≡ none)
    (admitted : is_staff staff.role ≡ true) where
  no_filter : owner_filter user ≡ owner_filter staff
  no_filter = ground arith

  -- A user whose token has no id, whatever its role, is given the same as an Admin or IT user: the
  -- same list of requests, the same request for each display code, and the same repositories and
  -- resources, with the same calls.
  pub unnamed_sees_all :
      (h : History) (code : Text)
      → (find_all out.db user h ≡ find_all out.db staff h)
        × (find_with_request_display_code out.db code user h
            ≡ find_with_request_display_code out.db code staff h)
        × (find_repositories out user h ≡ find_repositories out staff h)
        × (find_resources out user h ≡ find_resources out staff h)
  unfolding find_all find_with_request_display_code find_repositories find_resources
  unnamed_sees_all h code =
      (rw no_filter refl, ground (arith, no_filter), ground (arith, no_filter), rw no_filter refl)
