-- ===== src/Secrets/Apart.antt =====
-- Users whose tokens have ids do not see what others do to their secrets.
use orchestronic_be.Base.{
  String, Option, none, some, List, [], ◌∷◌, ◌≡◌, Bool, false, ◌===◌, if◌then◌else◌, true,
}
use orchestronic_be.Schema.{CloudProvider}
use orchestronic_be.Effects.Calls.{Call, Write, History}
use orchestronic_be.Session.{Session, IsVerified}
use orchestronic_be.Request.Dto.{BackendJwtPayload}
use orchestronic_be.Secrets.{SecretTables, SecretRoute, secret_route}

-- The owner of the secret that a statement makes, changes or deletes, itself absent where the
-- statement has no condition on it.
abbrev owner_of : Call → Option (Option String)
owner_of (Call.write (Write.create_secret owner d)) = some owner
owner_of (Call.write (Write.update_secret id owner d)) = some owner
owner_of (Call.write (Write.delete_secret id owner)) = some owner
owner_of _ = none

-- Whether a statement may concern the secrets of a user.
abbrev is_owner : String → Option (Option String) → Bool
is_owner u none = false
is_owner u (some none) = true
is_owner u (some (some owner)) = owner === u

unfoldable pub own : String → History → History
own u [] = []
own u (c ∷ h) = if is_owner u (owner_of c) then c ∷ own u h else own u h

-- Of the database: the first secret of a user, also by provider, depends only on the statements on
-- the secrets of that user.
pub record IsLocal (db : SecretTables) : Type 0 where
  pub first_local :
      (u : String) (p : Option CloudProvider) (g h : History)
      → own u g ≡ own u h
      → db.first (some u) p g ≡ db.first (some u) p h

-- A verified token of the session names another user than this.
abbrev pub IsStranger : String → Session → Type 0
IsStranger u s =
    (user : BackendJwtPayload)
    → IsVerified s user
    → (other : String) × (user.id ≡ some other) × ((other === u) ≡ false)

module _ (db : SecretTables) where
  -- Requests to the routes, one after another, however each ends.
  unfoldable pub serve : List (Session × SecretRoute) → History → History
  serve [] h = h
  serve ((s, r) ∷ requests) h = serve requests (secret_route db s r h).1
