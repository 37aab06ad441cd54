-- ===== src/Secrets/Owner.antt =====
-- Which secrets the routes reach: those of the owner that the token names, if it names one.
use orchestronic_be.Base.{◌≡◌, true}
use orchestronic_be.Effects.Calls.{Call, Query, Write}
use orchestronic_be.Session.{Session, IsVerified}
use orchestronic_be.Request.Dto.{BackendJwtPayload}
use orchestronic_be.Request.Query.{is_staff}
use orchestronic_be.Secrets.{create_secret, update_secret, delete_secret}

-- What a user may do: read and create secrets of the owner that its token names, and, as an Admin
-- or IT user, change and delete them. A token without an id names none, and then no owner is asked
-- for.
abbrev pub May : BackendJwtPayload → Call → Type 0
May user (Call.read (Query.secret_first owner provider)) = owner ≡ user.id
May user (Call.write (Write.create_secret owner d)) = owner ≡ user.id
May user (Call.write (Write.update_secret id owner d)) =
    (owner ≡ user.id) × (is_staff user.role ≡ true)
May user (Call.write (Write.delete_secret id owner)) =
    (owner ≡ user.id) × (is_staff user.role ≡ true)
May user _ = ⊥

-- The call is one that the verified user may make.
abbrev pub OwnCall : Session → Call → Type 0
OwnCall s c = (user : BackendJwtPayload) × IsVerified s user × May user c
